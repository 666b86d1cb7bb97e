-- ===== src/Thread/Yield.antt =====
-- `thread_unblock` and `thread_yield` of pintos/src/threads/thread.c, and who runs next.
use mathlib.Core.Path.{subst}
use sogang_pint_os.Common.{
  ℕ, ◌≡◌, ◌≢◌, refl, sym, ap, ◌∙◌, inl, inr, false, not, Option, some, List, [], ◌∷◌, arith, ◌==◌,
  ne→==_false, ==_refl, Bool-cases, obtain,
}
use sogang_pint_os.Common.Int.{ℤ, ◌≤ℤ◌}
use sogang_pint_os.Common.Panic.{assert_passes}
use sogang_pint_os.Common.All.{All, Away}
use sogang_pint_os.KernelList.{list_insert_ordered}
use sogang_pint_os.KernelList.Order.{
  IsSorted, Below, insert_ordered-All, insert_ordered-Distinct, insert_ordered-IsSorted,
}
use sogang_pint_os.Thread.State.{
  thread_running, thread_ready, thread_blocked, Thread, Kernel, priorities, wake_ups, status_at,
  put, cmp_priority_thread,
}
use sogang_pint_os.Thread.Placed.{Placed, insert_ordered-Placed}
use sogang_pint_os.Thread.Schedule.{thread_unblock, thread_yield}
use sogang_pint_os.Thread.Valid.{
  IsQueued, IsValid, cmp_priority-IsOrder, Away-of_status, put-priorities, put-wake_ups,
  set_status_lem,
}
use sogang_pint_os.Thread.Switch.{Picked, Scheduled, front, idle, schedule_from, thread_of_status}
use sogang_pint_os.Thread.Block.{status-IsQueued, thread_current_lem}

-- Putting a thread that is in neither list and is marked as ready on the ready list.
enqueue-IsQueued :
    {s : Kernel} (t : ℕ) (th : Thread)
    → IsQueued s
    → s.threads t ≡ some th
    → Away t s.ready_list
    → Away t s.sleeping_list
    → IsQueued (
        put t
          (record th { status = thread_ready })
          (record s {
            ready_list = list_insert_ordered (cmp_priority_thread (priorities s)) t s.ready_list;
          }))
enqueue-IsQueued {s} t th q there off_ready off_sleeping = record {
  ready =
      insert_ordered-All (cmp_priority_thread (priorities s))
        (λ k. status_at (put t (record th { status = thread_ready }) s) k ≡ some thread_ready) t
        s.ready_list (rw (==_refl t)) p.ready;
  ready_sorted =
      subst
        (λ (f : ℕ → ℤ).
          IsSorted (cmp_priority_thread f)
            (list_insert_ordered (cmp_priority_thread (priorities s)) t s.ready_list))
        (sym (put-priorities s t th (record th { status = thread_ready }) there refl))
        (insert_ordered-IsSorted (cmp_priority-IsOrder (priorities s)) t s.ready_list
          q.ready_sorted);
  ready_distinct =
      insert_ordered-Distinct (cmp_priority_thread (priorities s)) t s.ready_list off_ready
        q.ready_distinct;
  sleeping = p.sleeping;
  sleeping_sorted = p.sleeping_sorted;
  sleeping_distinct = p.sleeping_distinct;
  idle_there = p.idle_there;
  idle_awake = p.idle_awake;
}
  where
    p : IsQueued (put t (record th { status = thread_ready }) s)
    p = status-IsQueued t th thread_ready q there off_ready off_sleeping

-- What `thread_unblock` leads to.
pub record Unblocked (t : ℕ) (s s' : Kernel) : Type 0 where
  pub valid : IsValid s'
  pub placed : Placed (priorities s) t s.ready_list s'.ready_list
  pub sleepers : s'.sleeping_list ≡ s.sleeping_list
  pub same_current : s'.current ≡ s.current
  pub same_context : s'.intr_context ≡ s.intr_context
  pub same_priorities : priorities s' ≡ priorities s
  pub same_ticks : wake_ups s' ≡ wake_ups s
  pub now_ready : status_at s' t ≡ some thread_ready
  pub others : (k : ℕ) → t ≢ k → s'.threads k ≡ s.threads k

-- `thread_unblock` of a blocked thread that does not sleep passes its ASSERT and keeps the invariant.
-- The thread is on the ready list then, behind every thread of at least its priority and before every one
-- of a lower priority, and nothing else has moved there. It is ready, and no other thread, nor the
-- sleeping list, nor who has the CPU has changed.
pub thread_unblock_lem :
    {s : Kernel} (t : ℕ)
    → IsValid s
    → status_at s t ≡ some thread_blocked
    → Away t s.sleeping_list
    → (s' : Kernel) × (thread_unblock t s ≡ some s') × Unblocked t s s'
unfolding thread_unblock
thread_unblock_lem {s} t v blocked awake =
    obtain (thread_of_status s t thread_blocked blocked) λ th there is.
      let s₁ = record s {
        ready_list = list_insert_ordered (cmp_priority_thread (priorities s)) t s.ready_list;
      } in
      (
        put t (record th { status = thread_ready }) s₁,
        simp (there, is) (set_status_lem s₁ t thread_ready th there),
        record {
          valid = record {
            queued =
                enqueue-IsQueued t th v.queued there
                  (Away-of_status s t thread_blocked thread_ready s.ready_list blocked (λ h. cc h)
                    v.queued.ready)
                  awake;
            running =
                rw
                  (ne→==_false t s.current (λ e. cc (sym blocked ∙ ap (status_at s) e ∙ v.running)))
                  v.running;
          };
          placed = insert_ordered-Placed (priorities s) t s.ready_list v.queued.ready_sorted;
          sleepers = refl;
          same_current = refl;
          same_context = refl;
          same_priorities = put-priorities s t th _ there refl;
          same_ticks = put-wake_ups s t th _ there refl;
          now_ready = rw (==_refl t);
          others = λ k ne. rw (ne→==_false t k ne);
        },
      )

-- After a switch from valid queues no ready thread has a higher priority than the one that runs.
highest :
    {s s' : Kernel}
    → IsQueued s
    → Scheduled s s'
    → All (λ t. priorities s' t ≤ℤ priorities s' s'.current) s'.ready_list
highest {s} {s'} q done = pick done.picked
  where
    below :
        (t : ℕ) (ts : List ℕ)
        → Below (cmp_priority_thread (priorities s)) t ts
        → All (λ k. priorities s k ≤ℤ priorities s t) ts
    below t [] h = tt
    below t (k ∷ ks) h = (ground arith, below t ks h.1)

    pick :
        Picked s.ready_list s.idle_thread s'
        → All (λ t. priorities s' t ≤ℤ priorities s' s'.current) s'.ready_list
    pick (front e) =
        subst (λ (p : ℕ → ℤ). All (λ t. p t ≤ℤ p s'.current) s'.ready_list)
          (sym done.same_priorities)
          (below s'.current s'.ready_list
            (subst (IsSorted (cmp_priority_thread (priorities s))) e q.ready_sorted).0)
    pick (idle e at none_left) =
        subst (All (λ t. priorities s' t ≤ℤ priorities s' s'.current)) (sym none_left) tt

-- The ready list once the running thread has joined it, which the idle thread does not do.
pub data Joined (s : Kernel) (queue : List ℕ) : Type 0 where
  idles : s.current ≡ s.idle_thread → queue ≡ s.ready_list → Joined s queue
  joins :
      s.current ≢ s.idle_thread
      → Placed (priorities s) s.current s.ready_list queue
      → Joined s queue

-- `thread_yield` outside of an interrupt passes its ASSERTs and keeps the invariant. The thread that
-- yields joins the ready list, unless it is the idle thread: behind every thread of at least its priority,
-- and before every one of a lower priority. The front of that list runs then and leaves it, or the idle
-- thread if it is empty. No ready thread has a higher priority than the one that runs, and priorities are
-- as before.
pub thread_yield_lem :
    {s : Kernel}
    → IsValid s
    → s.intr_context ≡ false
    → (s' : Kernel) × (thread_yield s ≡ some s')
      × IsValid s'
      × ((queue : List ℕ) × Joined s queue × Picked queue s.idle_thread s')
      × All (λ t. priorities s' t ≤ℤ priorities s' s'.current) s'.ready_list
      × (priorities s' ≡ priorities s)
unfolding thread_yield
thread_yield_lem {s} v calm =
    obtain (thread_of_status s s.current thread_running v.running) λ th here is.
      let off_ready =
        Away-of_status s s.current thread_running thread_ready s.ready_list v.running (λ h. cc h)
          v.queued.ready in
      let off_sleeping =
        Away-of_status s s.current thread_running thread_blocked s.sleeping_list v.running
          (λ h. cc h) v.queued.sleeping in
      let q_idle = status-IsQueued s.current th thread_ready v.queued here off_ready off_sleeping in
      let q_other = enqueue-IsQueued s.current th v.queued here off_ready off_sleeping in
      let same = put-priorities s s.current th (record th { status = thread_ready }) here refl in
      let start = λ (m : Option Kernel). assert_passes (not s.intr_context) m (ap not calm) in
      elim (Bool-cases (s.current == s.idle_thread)) [
        | inl e ↦
            obtain
              (schedule_from s.ready_list (put s.current (record th { status = thread_ready }) s)
                (record th { status = thread_ready }) refl q_idle (rw (==_refl s.current)) refl
                refl)
              λ s' run done. (
                s',
                rw (thread_current_lem s th here is)
                    (start _ ∙ rw (e, set_status_lem s s.current thread_ready th here) run),
                done.valid,
                (s.ready_list, idles (ground (arith, e)) refl, done.picked),
                highest q_idle done,
                done.same_priorities ∙ same,
              )
        | inr e ↦
            let s₁ = record s {
              ready_list =
                  list_insert_ordered (cmp_priority_thread (priorities s)) s.current s.ready_list;
            } in
            obtain
              (schedule_from s₁.ready_list (put s.current (record th { status = thread_ready }) s₁)
                (record th { status = thread_ready }) refl q_other (rw (==_refl s.current)) refl
                refl)
              λ s' run done. (
                s',
                rw (thread_current_lem s th here is)
                    (start _ ∙ rw (e, set_status_lem s₁ s.current thread_ready th here) run),
                done.valid,
                (
                  s₁.ready_list,
                  joins (ground (arith, e)) (
                      insert_ordered-Placed (priorities s) s.current s.ready_list
                        v.queued.ready_sorted),
                  done.picked,
                ),
                highest q_other done,
                done.same_priorities ∙ same,
              )
      ]
