-- ===== src/Thread/Valid.antt =====
-- The scheduler's invariant, and how it fares when one thread's structure changes.
use mathlib.Core.Path.{subst, fun_ext}
use sogang_pint_os.Common.{
  ℕ, ◌≡◌, ◌≢◌, sym, ◌∙◌, inl, inr, none, some, List, arith, ◌==◌, ne→==_false, Bool-cases,
}
use sogang_pint_os.Common.Int.{ℤ}
use sogang_pint_os.Common.All.{All, Away, Distinct, All-mono-Away, Away-of_All}
use sogang_pint_os.KernelList.Order.{IsOrder, IsSorted}
use sogang_pint_os.Thread.State.{
  Status, thread_running, thread_ready, thread_blocked, Thread, Kernel, priorities, wake_ups,
  status_at, put, set_status, cmp_priority_thread, cmp_sleeping_thread,
}

-- Both comparisons are strict weak orders.
pub cmp_priority-IsOrder : (p : ℕ → ℤ) → IsOrder (cmp_priority_thread p)
cmp_priority-IsOrder p = record { asym = λ a b h. ground arith; trans = λ a b c h k. ground arith }

cmp_sleeping-IsOrder : (w : ℕ → ℤ) → IsOrder (cmp_sleeping_thread w)
cmp_sleeping-IsOrder w = record { asym = λ a b h. ground arith; trans = λ a b c h k. ground arith }

-- What holds of the two queues at all times: every thread of the ready list is ready and every one of
-- the sleeping list blocked, each list is in the order of its comparison and holds no thread twice, and
-- the idle thread is there and does not sleep.
pub record IsQueued (s : Kernel) : Type 0 where
  pub ready : All (λ t. status_at s t ≡ some thread_ready) s.ready_list
  pub ready_sorted : IsSorted (cmp_priority_thread (priorities s)) s.ready_list
  pub ready_distinct : Distinct s.ready_list
  pub sleeping : All (λ t. status_at s t ≡ some thread_blocked) s.sleeping_list
  pub sleeping_sorted : IsSorted (cmp_sleeping_thread (wake_ups s)) s.sleeping_list
  pub sleeping_distinct : Distinct s.sleeping_list
  pub idle_there : status_at s s.idle_thread ≢ none
  pub idle_awake : Away s.idle_thread s.sleeping_list

-- Between operations the thread on the CPU is marked as running besides.
pub record IsValid (s : Kernel) : Type 0 where
  pub queued : IsQueued s
  pub running : status_at s s.current ≡ some thread_running

-- A thread of another status is in neither list.
pub Away-of_status :
    (s : Kernel) (t : ℕ) (st st' : Status) (xs : List ℕ)
    → status_at s t ≡ some st
    → st ≢ st'
    → All (λ k. status_at s k ≡ some st') xs
    → Away t xs
Away-of_status s t st st' xs is ne all =
    Away-of_All (λ k. status_at s k ≡ some st') t xs (λ is'. ne (cc (sym is ∙ is'))) all

pub put-priorities :
    (s : Kernel) (t : ℕ) (th th' : Thread)
    → s.threads t ≡ some th
    → th'.priority ≡ th.priority
    → priorities (put t th' s) ≡ priorities s
put-priorities s t th th' there same = fun_ext λ k. elim (Bool-cases (t == k)) [
  | inl e ↦ let at : t ≡ k = ground arith in rw (e, ← at, there) same
  | inr e ↦ rw e
]

pub put-wake_ups :
    (s : Kernel) (t : ℕ) (th th' : Thread)
    → s.threads t ≡ some th
    → th'.wake_up_tick ≡ th.wake_up_tick
    → wake_ups (put t th' s) ≡ wake_ups s
put-wake_ups s t th th' there same = fun_ext λ k. elim (Bool-cases (t == k)) [
  | inl e ↦ let at : t ≡ k = ground arith in rw (e, ← at, there) same
  | inr e ↦ rw e
]

-- A change of a thread that keeps its priority and its tick, and is in neither list, keeps the queues.
pub put-IsQueued :
    {s : Kernel} (t : ℕ) (th th' : Thread)
    → IsQueued s
    → s.threads t ≡ some th
    → th'.priority ≡ th.priority
    → th'.wake_up_tick ≡ th.wake_up_tick
    → Away t s.ready_list
    → Away t s.sleeping_list
    → IsQueued (put t th' s)
put-IsQueued {s} t th th' q there same_p same_w off_ready off_sleeping = record {
  ready = All-mono-Away t s.ready_list off_ready (λ k ne h. rw (ne→==_false t k ne) h) q.ready;
  ready_sorted =
      subst (λ (p : ℕ → ℤ). IsSorted (cmp_priority_thread p) s.ready_list)
        (sym (put-priorities s t th th' there same_p)) q.ready_sorted;
  ready_distinct = q.ready_distinct;
  sleeping =
      All-mono-Away t s.sleeping_list off_sleeping (λ k ne h. rw (ne→==_false t k ne) h) q.sleeping;
  sleeping_sorted =
      subst (λ (w : ℕ → ℤ). IsSorted (cmp_sleeping_thread w) s.sleeping_list)
        (sym (put-wake_ups s t th th' there same_w)) q.sleeping_sorted;
  sleeping_distinct = q.sleeping_distinct;
  idle_there = elim (Bool-cases (t == s.idle_thread)) [
    | inl e ↦ rw e (λ h. cc h)
    | inr e ↦ rw e q.idle_there
  ];
  idle_awake = q.idle_awake;
}

-- `set_status` on a thread that is there.
pub set_status_lem :
    (s : Kernel) (t : ℕ) (st : Status) (th : Thread)
    → s.threads t ≡ some th
    → set_status t st s ≡ some (put t (record th { status = st }) s)
unfolding set_status
set_status_lem s t st th there = rw there
