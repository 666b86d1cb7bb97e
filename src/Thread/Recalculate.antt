-- ===== src/Thread/Recalculate.antt =====
-- The loops of the timer tick over lists of threads, and the range of the priorities of the feedback
-- queue scheduler (pintos/src/threads/thread.c).
use mathlib.Core.Path.{subst}
use sogang_pint_os.Common.{
  ℕ, ◌%◌, ◌≡◌, refl, sym, ◌∙◌, inl, inr, Bool, true, false, ◌||◌, Option, none, some, List, [], ◌∷◌,
  arith, ◌==◌, if◌then◌else◌, ne→==_false, ==_refl, Bool-cases,
}
use sogang_pint_os.Common.Int.{ℤ, pos, ◌≤ℤ◌}
use sogang_pint_os.Common.All.{All, Away, Distinct}
use sogang_pint_os.Thread.State.{
  Thread, Kernel, priorities, priority_of, pri_min, pri_max, time_slice,
}
use sogang_pint_os.Thread.Tick.{modify, for_all, clamp_priority, next_priority, every_slice}

abbrev pub has : ℕ → List ℕ → Bool
has k [] = false
has k (t ∷ ts) = t == k || has k ts

-- The loops over a list change each of its threads once.
pub for_all_lem :
    (f : Thread → Thread) (ts : List ℕ) (threads : ℕ → Option Thread) (k : ℕ)
    → Distinct ts
    → for_all f ts threads k ≡ (if has k ts then modify f (threads k) else threads k)
unfolding for_all
for_all_lem f [] threads k d = refl
for_all_lem f (t ∷ ts) threads k d = elim (Bool-cases (t == k)) [
  | inl e ↦
      let at : t ≡ k = ground arith in
      for_all_lem f ts (λ j. if t == j then modify f (threads j) else threads j) k d.1
      ∙ rw (off k ts (subst (λ (j : ℕ). Away j ts) at d.0), e)
  | inr e ↦ for_all_lem f ts (λ j. if t == j then modify f (threads j) else threads j) k d.1 ∙ rw e
]
  where
    off : (k : ℕ) (ts : List ℕ) → Away k ts → has k ts ≡ false
    off k [] away = refl
    off k (j ∷ js) away = rw (ne→==_false j k (λ e. away.0 (sym e)), off k js away.1)

-- PRI_MIN ≤ priority ≤ PRI_MAX
abbrev pub InRange : ℤ → Type 0
InRange p = (pri_min ≤ℤ p) × (p ≤ℤ pri_max)

clamp_priority-InRange : (p : ℤ) → InRange (clamp_priority p)
unfolding clamp_priority
clamp_priority-InRange p = ground arith

module _ (f : Thread → Thread) (threads : ℕ → Option Thread) (P : ℤ → Type 0) where
  -- What every changed thread has, each thread of the list has afterwards.
  All-changed :
      P (pos 0)
      → ((th : Thread) → P (f th).priority)
      → (ts ks : List ℕ) → Distinct ts
      → All (λ k. has k ts ≡ true) ks
      → All (λ k. P (priority_of (for_all f ts threads k))) ks
  All-changed none_P f_P ts [] d inside = tt
  All-changed none_P f_P ts (k ∷ ks) d inside = (
    rw (for_all_lem f ts threads k d, inside.0) (changed (threads k)),
    All-changed none_P f_P ts ks d inside.1,
  )
    where
      changed : (o : Option Thread) → P (priority_of (modify f o))
      changed none = none_P
      changed (some th) = f_P th

has_more :
    (ks : List ℕ) (t : ℕ) (ts : List ℕ)
    → All (λ k. has k ts ≡ true) ks
    → All (λ k. has k (t ∷ ts) ≡ true) ks
has_more [] t ts all = tt
has_more (k ∷ ks) t ts all = (ground (arith, all), has_more ks t ts all.1)

pub has-All_self : (ts : List ℕ) → All (λ k. has k ts ≡ true) ts
has-All_self [] = tt
has-All_self (t ∷ ts) = (rw (==_refl t), has_more ts t ts (has-All_self ts))

-- Every fourth tick of the feedback queue scheduler gives each thread of the list of all threads, which
-- holds none twice, a priority between PRI_MIN and PRI_MAX, whatever `recent_cpu` and `nice` are.
every_slice-InRange :
    (s : Kernel)
    → s.ticks % time_slice ≡ 0
    → Distinct s.all_list
    → All (λ t. InRange (priorities (every_slice s) t)) s.all_list
unfolding every_slice next_priority
every_slice-InRange s due d = rw (due) (
    All-changed next_priority s.threads InRange (omega arith) (λ th. clamp_priority-InRange _)
      s.all_list s.all_list d (has-All_self s.all_list))
