-- ===== src/Thread/Priority.antt =====
-- Aging: `thread_aging` of pintos/src/threads/thread.c and the order of the ready list.
use mathlib.Core.Path.{subst, fun_ext}
use sogang_pint_os.Common.{
  ℕ, ◌+◌, ◌*◌, ◌%◌, ◌^◌, ==_iff, none-ne-some, ◌≡◌, refl, sym, ap, ◌∙◌, inl, inr, Bool, true, false,
  ◌&&◌, Option, none, some, List, [], ◌∷◌, arith, ◌==◌, if◌then◌else◌, Bool-cases,
}
use sogang_pint_os.Common.Int.{ℤ, pos, ltb_ℤ, ◌+ℤ◌}
use sogang_pint_os.Common.All.{All, Distinct, All-mono}
use sogang_pint_os.KernelList.Order.{IsSorted, Below}
use sogang_pint_os.Thread.State.{
  Status, thread_ready, thread_blocked, Thread, Kernel, priorities, wake_ups, status_at,
  priority_of, status_of, wake_up_of, pri_max, time_slice, cmp_priority_thread, cmp_sleeping_thread,
}
use sogang_pint_os.Thread.Tick.{modify, age, for_all, thread_aging}
use sogang_pint_os.Thread.Valid.{IsValid}
use sogang_pint_os.Thread.Recalculate.{has, for_all_lem, has-All_self}

-- Aging.

unfoldable pub aged_priority : ℤ → ℤ
aged_priority p = if ltb_ℤ pri_max (p +ℤ pos 1) then pri_max else p +ℤ pos 1

aged_mono : (a b : ℤ) → ltb_ℤ a b ≡ false → ltb_ℤ (aged_priority a) (aged_priority b) ≡ false
unfolding aged_priority ◌+ℤ◌
aged_mono a b h = ground arith

age_parts :
    (th : Thread)
    → ((age th).priority ≡ aged_priority th.priority)
      × ((age th).status ≡ th.status)
      × ((age th).wake_up_tick ≡ th.wake_up_tick)
unfolding age aged_priority
age_parts th = ground arith

module _ (s : Kernel) (ts : List ℕ) (d : Distinct ts) where
  abbrev aged : Kernel
  aged = record s { threads = for_all age ts s.threads; aging_ticks = 0 }

  aged_status : (k : ℕ) → status_at aged k ≡ status_at s k
  aged_status k = rw (for_all_lem age ts s.threads k d) (same (has k ts) (s.threads k))
    where
      same :
          (b : Bool) (o : Option Thread) → status_of (if b then modify age o else o) ≡ status_of o
      same true none = refl
      same true (some th) = ap some (age_parts th).1
      same false o = refl

  aged_wake : (k : ℕ) → wake_ups aged k ≡ wake_ups s k
  aged_wake k = rw (for_all_lem age ts s.threads k d) (same (has k ts) (s.threads k))
    where
      same :
          (b : Bool) (o : Option Thread) → wake_up_of (if b then modify age o else o) ≡ wake_up_of o
      same true none = refl
      same true (some th) = (age_parts th).2
      same false o = refl

  aged_at :
      (k : ℕ) (st : Status)
      → has k ts ≡ true
      → status_at s k ≡ some st
      → priorities aged k ≡ aged_priority (priorities s k)
  aged_at k st inside there =
      rw (for_all_lem age ts s.threads k d, inside) (raised (s.threads k) there)
    where
      raised :
          (o : Option Thread)
          → status_of o ≡ some st
          → priority_of (modify age o) ≡ aged_priority (priority_of o)
      raised none e = absurd (none-ne-some e)
      raised (some th) e = (age_parts th).0

  aged-Below :
      (t : ℕ) (ks : List ℕ)
      → priorities aged t ≡ aged_priority (priorities s t)
      → All (λ k. priorities aged k ≡ aged_priority (priorities s k)) ks
      → Below (cmp_priority_thread (priorities s)) t ks
      → Below (cmp_priority_thread (priorities aged)) t ks
  aged-Below t [] e all below = tt
  aged-Below t (k ∷ ks) e all below = (
    rw (e, all.0) (aged_mono (priorities s t) (priorities s k) below.0),
    aged-Below t ks e all.1 below.1,
  )

  aged-IsSorted :
      (ks : List ℕ)
      → All (λ k. priorities aged k ≡ aged_priority (priorities s k)) ks
      → IsSorted (cmp_priority_thread (priorities s)) ks
      → IsSorted (cmp_priority_thread (priorities aged)) ks
  aged-IsSorted [] all sorted = tt
  aged-IsSorted (k ∷ ks) all sorted =
      (aged-Below k ks all.0 all.1 sorted.0, aged-IsSorted ks all.1 sorted.1)

aged-All :
    (s : Kernel) (ts ks : List ℕ) (d : Distinct ts)
    → All (λ k. has k ts ≡ true) ks
    → All (λ k. status_at s k ≡ some thread_ready) ks
    → All (λ k. priorities (aged s ts d) k ≡ aged_priority (priorities s k)) ks
aged-All s ts [] d inside ready = tt
aged-All s ts (k ∷ ks) d inside ready =
    (aged_at s ts d k thread_ready inside.0 ready.0, aged-All s ts ks d inside.1 ready.1)

-- What aging does to a valid state.
pub record Aged (s s' : Kernel) : Type 0 where
  pub valid : IsValid s'
  same_list : s'.ready_list ≡ s.ready_list
  raised : All (λ t. priorities s' t ≡ aged_priority (priorities s t)) s.ready_list

aged-IsValid : (s : Kernel) (v : IsValid s) → Aged s (aged s s.ready_list v.queued.ready_distinct)
aged-IsValid s v = record {
  valid = record {
    queued = record {
      ready = kept thread_ready s.ready_list v.queued.ready;
      ready_sorted = aged-IsSorted s s.ready_list d s.ready_list raised v.queued.ready_sorted;
      ready_distinct = d;
      sleeping = kept thread_blocked s.sleeping_list v.queued.sleeping;
      sleeping_sorted =
          subst (λ (w : ℕ → ℤ). IsSorted (cmp_sleeping_thread w) s.sleeping_list)
            (sym (fun_ext (aged_wake s s.ready_list d))) v.queued.sleeping_sorted;
      sleeping_distinct = v.queued.sleeping_distinct;
      idle_there = λ e. v.queued.idle_there (sym (aged_status s s.ready_list d s.idle_thread) ∙ e);
      idle_awake = v.queued.idle_awake;
    };
    running = aged_status s s.ready_list d s.current ∙ v.running;
  };
  same_list = refl;
  raised = raised;
}
  where
    d : Distinct s.ready_list
    d = v.queued.ready_distinct

    kept :
        (st : Status) (ks : List ℕ)
        → All (λ k. status_at s k ≡ some st) ks
        → All (λ k. status_at (aged s s.ready_list d) k ≡ some st) ks
    kept st ks all = All-mono ks (λ k e. aged_status s s.ready_list d k ∙ e) all

    raised :
        All
          (λ t. priorities (aged s s.ready_list d) t ≡ aged_priority (priorities s t))
          s.ready_list
    raised = aged-All s s.ready_list s.ready_list d (has-All_self s.ready_list) v.queued.ready

-- The tick at which aging raises the ready threads.
abbrev pub aging_due : Kernel → Bool
aging_due s = s.thread_prior_aging && (s.aging_ticks + 1) % 2 ^ 32 == time_slice * 100

has-All : (P : ℕ → Type 0) (k : ℕ) (ts : List ℕ) → has k ts ≡ true → All P ts → P k
has-All P k [] e all = ground arith
has-All P k (t ∷ ts) e all = elim (Bool-cases (t == k)) [
  | inl at ↦ subst P ((==_iff t k).0 at) all.0
  | inr off ↦ has-All P k ts (ground arith) all.1
]

-- `thread_aging` keeps the invariant, the order of the ready list included, although it changes the
-- priorities that the order stands on. With aging on, every 400th call raises each thread of the ready
-- list by one, at most to PRI_MAX; no other priority changes, and none at any other call.
pub thread_aging_lem :
    {s : Kernel}
    → IsValid s
    → IsValid (thread_aging s)
      × ((k : ℕ)
          → priorities (thread_aging s) k ≡ (
              if aging_due s && has k s.ready_list
              then aged_priority (priorities s k)
              else priorities s k))
unfolding thread_aging
thread_aging_lem {s} v = (
  elim (Bool-cases (aging_due s)) [
    | inl e ↦ rw e (aged-IsValid s v).valid
    | inr e ↦ rw e (ticking ((s.aging_ticks + 1) % 2 ^ 32) v)
  ],
  λ k. elim (Bool-cases (aging_due s)) [ inl e ↦ rw e (raised_at k) | inr e ↦ rw e refl ],
)
  where
    d : Distinct s.ready_list
    d = v.queued.ready_distinct

    raised_at :
        (k : ℕ)
        → priorities (aged s s.ready_list d) k
          ≡ (if has k s.ready_list then aged_priority (priorities s k) else priorities s k)
    raised_at k = elim (Bool-cases (has k s.ready_list)) [
      | inl e ↦ rw e (
          aged_at s s.ready_list d k thread_ready e
            (has-All (λ t. status_at s t ≡ some thread_ready) k s.ready_list e v.queued.ready))
      | inr e ↦ rw (for_all_lem age s.ready_list s.threads k d, e) refl
    ]

    ticking : (n : ℕ) → IsValid s → IsValid (record s { aging_ticks = n })
    ticking n v = record {
      queued = record {
        ready = v.queued.ready;
        ready_sorted = v.queued.ready_sorted;
        ready_distinct = v.queued.ready_distinct;
        sleeping = v.queued.sleeping;
        sleeping_sorted = v.queued.sleeping_sorted;
        sleeping_distinct = v.queued.sleeping_distinct;
        idle_there = v.queued.idle_there;
        idle_awake = v.queued.idle_awake;
      };
      running = v.running;
    }
