-- ===== src/Thread/Starvation.antt =====
-- What the aging of pintos/src/threads/thread.c is for: a thread of the ready list rises to the top.
use mathlib.Core.Path.{subst}
use sogang_pint_os.Common.{
  ℕ, zero, suc, ◌+◌, ◌*◌, ◌-◌, ◌%◌, ◌^◌, ◌<◌, ◌≤◌, ◌≡◌, refl, sym, ap, ◌∙◌, inl, inr, true, false,
  arith, leb, if◌then◌else◌, Bool-cases,
}
use sogang_pint_os.Common.Int.{ℤ, pos, ◌+ℤ◌}
use sogang_pint_os.Thread.State.{Kernel, priorities, pri_max}
use sogang_pint_os.Thread.Tick.{thread_aging}
use sogang_pint_os.Thread.Valid.{IsValid}
use sogang_pint_os.Thread.Recalculate.{has}
use sogang_pint_os.Thread.Priority.{aged_priority, aging_due, thread_aging_lem}

-- A number of calls of `thread_aging`, one by each tick.
pub aging_calls : ℕ → Kernel → Kernel
aging_calls zero s = s
aging_calls (suc n) s = aging_calls n (thread_aging s)

-- Thread `k` is in the ready list with priority `p`, aging is on, and it is due in `d + 1` calls.
record IsWaiting (s : Kernel) (k : ℕ) (p : ℤ) (d : ℕ) : Type 0 where
  valid : IsValid s
  on : s.thread_prior_aging ≡ true
  inside : has k s.ready_list ≡ true
  priority : priorities s k ≡ p
  due : s.aging_ticks + suc d ≡ 400

thread_aging_same :
    (s : Kernel)
    → ((thread_aging s).ready_list ≡ s.ready_list)
      × ((thread_aging s).thread_prior_aging ≡ s.thread_prior_aging)
      × ((thread_aging s).aging_ticks ≡ (if aging_due s then 0 else (s.aging_ticks + 1) % 2 ^ 32))
unfolding thread_aging
thread_aging_same s = elim (Bool-cases (aging_due s)) [
  | inl e ↦ rw e (refl, refl, refl)
  | inr e ↦ rw e (refl, refl, refl)
]

due_at : (a : ℕ) → a < 400 → (a + 1) % 2 ^ 32 ≡ a + 1
due_at a h = omega arith

not_due : {s : Kernel} {k : ℕ} {p : ℤ} {d : ℕ} → IsWaiting s k p (suc d) → aging_due s ≡ false
not_due {s} w = rw (w.on, due_at s.aging_ticks (omega (arith, w.due))) (ground (arith, w.due))

is_due : {s : Kernel} {k : ℕ} {p : ℤ} → IsWaiting s k p 0 → aging_due s ≡ true
is_due {s} w = rw (w.on, due_at s.aging_ticks (omega (arith, w.due)), w.due) refl

wait :
    {s : Kernel} {k : ℕ} {p : ℤ} {d : ℕ}
    → IsWaiting s k p (suc d)
    → IsWaiting (thread_aging s) k p d
wait {s} {k} {p} {d} w = record {
  valid = (thread_aging_lem w.valid).0;
  on = (thread_aging_same s).1 ∙ w.on;
  inside = rw (thread_aging_same s).0 w.inside;
  priority = (thread_aging_lem w.valid).1 k ∙ rw (not_due w) w.priority;
  due =
      rw ((thread_aging_same s).2, not_due w, due_at s.aging_ticks (omega (arith, w.due)))
        (omega (arith, w.due));
}

rise :
    {s : Kernel} {k : ℕ} {p : ℤ}
    → IsWaiting s k p 0
    → IsWaiting (thread_aging s) k (aged_priority p) 399
rise {s} {k} {p} w = record {
  valid = (thread_aging_lem w.valid).0;
  on = (thread_aging_same s).1 ∙ w.on;
  inside = rw (thread_aging_same s).0 w.inside;
  priority = (thread_aging_lem w.valid).1 k ∙ rw (is_due w, w.inside) (ap aged_priority w.priority);
  due = rw ((thread_aging_same s).2, is_due w) refl;
}

-- Up to the next raise.
raised :
    (d : ℕ) {s : Kernel} {k : ℕ} {p : ℤ}
    → IsWaiting s k p d
    → IsWaiting (aging_calls (suc d) s) k (aged_priority p) 399
unfolding aging_calls
raised zero w = rise w
raised (suc d) w = raised d (wait w)

aged_times : ℕ → ℤ → ℤ
aged_times zero p = p
aged_times (suc m) p = aged_times m (aged_priority p)

aged_below : (p : ℕ) → p < 63 → aged_priority (pos p) ≡ pos (p + 1)
unfolding aged_priority ◌+ℤ◌
aged_below p h = ground arith

aged_full : aged_priority (pos 63) ≡ pos 63
unfolding aged_priority ◌+ℤ◌
aged_full = refl

aged_top : (m p : ℕ) → 63 ≤ p + m → p ≤ 63 → aged_times m (pos p) ≡ pri_max
unfolding aged_times
aged_top zero p enough top = ap pos (omega (arith, enough, top))
aged_top (suc m) p enough top = elim (Bool-cases (leb 63 p)) [
  | inl e ↦
      let full : p ≡ 63 = ground arith in
      rw (full, aged_full) (aged_top m 63 (omega arith) (omega arith))
  | inr e ↦ rw (aged_below p (ground arith)) (aged_top m (p + 1) (omega arith) (ground arith))
]

calls_of_same : (m n : ℕ) (s : Kernel) → m ≡ n → aging_calls m s ≡ aging_calls n s
calls_of_same m n s e = ap (λ c. aging_calls c s) e

aging_calls-add : (m n : ℕ) (s : Kernel) → aging_calls (m + n) s ≡ aging_calls n (aging_calls m s)
unfolding aging_calls
aging_calls-add zero n s = calls_of_same (0 + n) n s (omega arith)
aging_calls-add (suc m) n s =
    calls_of_same (suc m + n) (suc (m + n)) s (omega arith) ∙ aging_calls-add m n (thread_aging s)

rounds :
    (m : ℕ) {s : Kernel} {k : ℕ} {p : ℤ}
    → IsWaiting s k p 399
    → IsWaiting (aging_calls (m * 400) s) k (aged_times m p) 399
unfolding aging_calls aged_times
rounds zero {s} {k} {p} w =
    subst (λ st. IsWaiting st k p 399) (sym (calls_of_same (0 * 400) 0 s (omega arith))) w
rounds (suc m) {s} {k} {p} w =
    subst (λ st. IsWaiting st k (aged_times m (aged_priority p)) 399)
      (sym (aging_calls-add 400 (m * 400) s)
        ∙ calls_of_same (400 + m * 400) (suc m * 400) s (omega arith))
      (rounds m (raised 399 w))

-- Aging starves no thread of the ready list: in a valid state with aging on, whose count of ticks is
-- below 400, a thread that waits in the ready list with a priority from 0 to PRI_MAX has priority
-- PRI_MAX after a number of calls of `thread_aging`, at most 25200, if nothing else happens.
pub aging_calls-pri_max :
    (s : Kernel) (k p : ℕ)
    → IsValid s
    → s.thread_prior_aging ≡ true
    → s.aging_ticks < 400
    → has k s.ready_list ≡ true
    → priorities s k ≡ pos p
    → p ≤ 63
    → (n : ℕ) × (n ≤ 25200) × (priorities (aging_calls n s) k ≡ pri_max)
unfolding aged_times
aging_calls-pri_max s k p v on below inside at top = (
  suc (399 - s.aging_ticks) + 62 * 400,
  omega arith,
  subst (λ st. priorities st k ≡ pri_max)
      (sym (aging_calls-add (suc (399 - s.aging_ticks)) (62 * 400) s))
      ((rounds 62 (raised (399 - s.aging_ticks) waiting)).priority
        ∙ aged_top 63 p (omega arith) top),
)
  where
    waiting : IsWaiting s k (pos p) (399 - s.aging_ticks)
    waiting = record { valid = v; on = on; inside = inside; priority = at; due = omega arith }
