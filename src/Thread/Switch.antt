-- ===== src/Thread/Switch.antt =====
-- `schedule` and what stands under it (pintos/src/threads/thread.c): the thread that is switched to.
use mathlib.Core.Path.{subst}
use sogang_pint_os.Common.{
  ℕ, ◌≡◌, ◌≢◌, refl, sym, ap, ◌∙◌, inl, inr, false, Option, none, some, List, [], ◌∷◌, arith, ◌==◌,
  if◌then◌else◌, ne→==_false, ==_iff, ==_refl, Bool-cases, Option-cases, obtain, obtain₁,
}
use sogang_pint_os.Common.All.{All, Away, Distinct}
use sogang_pint_os.KernelList.Order.{IsSorted}
use sogang_pint_os.Thread.State.{
  Status, thread_running, thread_ready, thread_blocked, is_running, is_dying, Thread, Kernel,
  priorities, status_at, put, cmp_priority_thread,
}
use sogang_pint_os.Thread.Schedule.{next_of, next_thread_to_run, thread_schedule_tail, schedule}
use sogang_pint_os.Thread.Valid.{
  IsQueued, IsValid, Away-of_status, put-IsQueued, put-priorities, set_status_lem,
}

-- The thread at `t` has its structure there.
thread_there : (s : Kernel) (t : ℕ) → status_at s t ≢ none → (th : Thread) × (s.threads t ≡ some th)
thread_there s t h = elim (Option-cases (s.threads t)) [
  | inl e ↦ absurd (h (rw e))
  | inr found ↦ found
]

pub thread_of_status :
    (s : Kernel) (t : ℕ) (st : Status)
    → status_at s t ≡ some st
    → (th : Thread) × (s.threads t ≡ some th) × (th.status ≡ st)
thread_of_status s t st h = elim (Option-cases (s.threads t)) [
  | inl e ↦ absurd (let bad : none ≡ some st = rw e at h in cc bad)
  | inr (th, e) ↦ (th, e, (let is : some th.status ≡ some st = rw e at h in cc is))
]

-- The last part of `schedule`, once the next thread is known.
abbrev switch_to : ℕ → Kernel → Option Kernel
switch_to next s =
    if s.current == next
    then thread_schedule_tail none s
    else thread_schedule_tail (some s.current) (record s { current = next })

-- The state after the switch.
abbrev dispatched : ℕ → Thread → Kernel → Kernel
dispatched next nth s = record (put next (record nth { status = thread_running }) s) {
  current = next;
  thread_ticks = 0;
}

tail_none :
    (s : Kernel) (nth : Thread)
    → s.threads s.current ≡ some nth
    → thread_schedule_tail none s ≡ some (dispatched s.current nth s)
unfolding thread_schedule_tail
tail_none s nth there = rw (set_status_lem s s.current thread_running nth there)

tail_some :
    (p : ℕ) (s : Kernel) (th nth : Thread)
    → s.threads p ≡ some th
    → is_dying th.status ≡ false
    → s.threads s.current ≡ some nth
    → s.current ≢ p
    → thread_schedule_tail (some p) s ≡ some (dispatched s.current nth s)
unfolding thread_schedule_tail
tail_some p s th nth here alive there ne =
    rw
      (set_status_lem s s.current thread_running nth there, ne→==_false s.current p ne, here, alive)

switch_to_run :
    (next : ℕ) (s : Kernel) (th nth : Thread)
    → s.threads s.current ≡ some th
    → is_dying th.status ≡ false
    → s.threads next ≡ some nth
    → switch_to next s ≡ some (dispatched next nth s)
switch_to_run next s th nth here alive there = elim (Bool-cases (s.current == next)) [
  | inl e ↦ rw e (
      subst
        (λ (n : ℕ).
          s.threads n ≡ some nth → thread_schedule_tail none s ≡ some (dispatched n nth s))
        ((==_iff s.current next).0 e) (tail_none s nth) there)
  | inr e ↦
      rw e
        (tail_some s.current (record s { current = next }) th nth here alive there (ground arith))
]

dispatched-IsValid :
    (next : ℕ) {s : Kernel} (nth : Thread)
    → IsQueued s
    → s.threads next ≡ some nth
    → Away next s.ready_list
    → Away next s.sleeping_list
    → IsValid (dispatched next nth s)
dispatched-IsValid next {s} nth q there off_ready off_sleeping =
    let p =
      put-IsQueued next nth (record nth { status = thread_running }) q there refl refl off_ready
        off_sleeping in
    record {
      queued = record {
        ready = p.ready;
        ready_sorted = p.ready_sorted;
        ready_distinct = p.ready_distinct;
        sleeping = p.sleeping;
        sleeping_sorted = p.sleeping_sorted;
        sleeping_distinct = p.sleeping_distinct;
        idle_there = p.idle_there;
        idle_awake = p.idle_awake;
      };
      running = rw (==_refl next);
    }

-- Who runs next, of a ready list: its front, or the idle thread if it is empty.
pub data Picked (ready : List ℕ) (idle_thread : ℕ) (s' : Kernel) : Type 0 where
  front : ready ≡ s'.current ∷ s'.ready_list → Picked ready idle_thread s'
  idle : ready ≡ [] → s'.current ≡ idle_thread → s'.ready_list ≡ [] → Picked ready idle_thread s'

pub record Scheduled (s s' : Kernel) : Type 0 where
  pub valid : IsValid s'
  pub picked : Picked s.ready_list s.idle_thread s'
  pub same_priorities : priorities s' ≡ priorities s
  pub others : (k : ℕ) → s'.current ≢ k → s'.threads k ≡ s.threads k

next_nil : (s : Kernel) → s.ready_list ≡ [] → next_thread_to_run s ≡ (s.idle_thread, s)
unfolding next_thread_to_run next_of
next_nil s e = ap (λ l. next_of l s) e

next_cons :
    (s : Kernel) (t : ℕ) (ts : List ℕ)
    → s.ready_list ≡ t ∷ ts
    → next_thread_to_run s ≡ (t, record s { ready_list = ts })
unfolding next_thread_to_run next_of
next_cons s t ts e = ap (λ l. next_of l s) e

-- `schedule`, once the choice is known.
schedule_lem :
    (s : Kernel) (next : ℕ) (s₁ : Kernel) (th nth : Thread)
    → next_thread_to_run s ≡ (next, s₁)
    → s₁.current ≡ s.current
    → s.threads s.current ≡ some th
    → is_running th.status ≡ false
    → s₁.threads next ≡ some nth
    → schedule s ≡ switch_to next s₁
unfolding schedule
schedule_lem s next s₁ th nth choice same here off there =
    rw (choice, here, off, there)
      (ap
        (λ (c : ℕ).
          if c == next
          then thread_schedule_tail none s₁
          else thread_schedule_tail (some c) (record s₁ { current = next }))
        (sym same))

-- `schedule` on valid queues, when the thread on the CPU is no longer marked as running, passes its
-- ASSERTs and switches to the front of the ready list, or to the idle thread.
pub schedule_from :
    (ts : List ℕ) (s : Kernel) (th : Thread)
    → s.ready_list ≡ ts
    → IsQueued s
    → s.threads s.current ≡ some th
    → is_running th.status ≡ false
    → is_dying th.status ≡ false
    → (s' : Kernel) × (schedule s ≡ some s') × Scheduled s s'
schedule_from [] s th e q here off alive =
    obtain₁ (thread_there s s.idle_thread q.idle_there) λ nth there. (
      dispatched s.idle_thread nth s,
      schedule_lem s s.idle_thread s th nth (next_nil s e) refl here off there
          ∙ switch_to_run s.idle_thread s th nth here alive there,
      record {
        valid =
            dispatched-IsValid s.idle_thread nth q there (subst (Away s.idle_thread) (sym e) tt)
              q.idle_awake;
        picked = idle e refl e;
        same_priorities = put-priorities s s.idle_thread nth _ there refl;
        others = λ k ne. rw (ne→==_false s.idle_thread k ne) refl;
      },
    )
schedule_from (t ∷ ts) s th e q here off alive =
    obtain (thread_of_status s t thread_ready ready.0) λ nth there is. (
      dispatched t nth s₁,
      schedule_lem s t s₁ th nth (next_cons s t ts e) refl here off there
          ∙ switch_to_run t s₁ th nth here alive there,
      record {
        valid = dispatched-IsValid t nth popped there distinct.0 (
            Away-of_status s t thread_ready thread_blocked s.sleeping_list ready.0 (λ h. cc h)
              q.sleeping);
        picked = front e;
        same_priorities = put-priorities s₁ t nth _ there refl;
        others = λ k ne. rw (ne→==_false t k ne) refl;
      },
    )
  where
    s₁ : Kernel
    s₁ = record s { ready_list = ts }

    ready : All (λ k. status_at s k ≡ some thread_ready) (t ∷ ts)
    ready = subst (All (λ k. status_at s k ≡ some thread_ready)) e q.ready

    distinct : Distinct (t ∷ ts)
    distinct = subst Distinct e q.ready_distinct

    sorted : IsSorted (cmp_priority_thread (priorities s)) (t ∷ ts)
    sorted = subst (IsSorted (cmp_priority_thread (priorities s))) e q.ready_sorted

    popped : IsQueued s₁
    popped = record {
      ready = ready.1;
      ready_sorted = sorted.1;
      ready_distinct = distinct.1;
      sleeping = q.sleeping;
      sleeping_sorted = q.sleeping_sorted;
      sleeping_distinct = q.sleeping_distinct;
      idle_there = q.idle_there;
      idle_awake = q.idle_awake;
    }
