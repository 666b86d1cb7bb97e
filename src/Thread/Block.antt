-- ===== src/Thread/Block.antt =====
-- `thread_block` of pintos/src/threads/thread.c.
use sogang_pint_os.Common.{ℕ, ◌≡◌, ◌≢◌, refl, ap, ◌∙◌, false, not, some, ==_refl, obtain}
use sogang_pint_os.Common.Panic.{assert_passes}
use sogang_pint_os.Common.All.{Away}
use sogang_pint_os.Thread.State.{
  Status, thread_running, thread_ready, thread_blocked, Thread, Kernel, put, thread_current,
  status_at, status_of, priorities,
}
use sogang_pint_os.Thread.Schedule.{thread_block}
use sogang_pint_os.Thread.Valid.{
  IsQueued, IsValid, Away-of_status, put-IsQueued, put-priorities, set_status_lem,
}
use sogang_pint_os.Thread.Switch.{Picked, schedule_from, thread_of_status}

-- A change of the running thread's status, for a thread in neither list.
pub status-IsQueued :
    {s : Kernel} (t : ℕ) (th : Thread) (st : Status)
    → IsQueued s
    → s.threads t ≡ some th
    → Away t s.ready_list
    → Away t s.sleeping_list
    → IsQueued (put t (record th { status = st }) s)
status-IsQueued t th st q there off_ready off_sleeping =
    put-IsQueued t th _ q there refl refl off_ready off_sleeping

pub thread_current_lem :
    (s : Kernel) (th : Thread)
    → s.threads s.current ≡ some th
    → th.status ≡ thread_running
    → thread_current s ≡ some th
unfolding thread_current
thread_current_lem s th here is = rw (here, is)

-- `thread_block` outside of an interrupt passes its ASSERTs, keeps the invariant, and gives the CPU to
-- the front of the ready list, or to the idle thread if the list is empty. The caller is blocked then,
-- unless it is the thread that runs, and priorities are as before.
pub thread_block_lem :
    {s : Kernel}
    → IsValid s
    → s.intr_context ≡ false
    → (s' : Kernel) × (thread_block s ≡ some s')
      × IsValid s'
      × Picked s.ready_list s.idle_thread s'
      × (s'.current ≢ s.current → status_at s' s.current ≡ some thread_blocked)
      × (priorities s' ≡ priorities s)
unfolding thread_block
thread_block_lem {s} v calm =
    obtain (thread_of_status s s.current thread_running v.running) λ th here is.
      let s₁ = put s.current (record th { status = thread_blocked }) s in
      let q₁ =
        status-IsQueued s.current th thread_blocked v.queued here
          (Away-of_status s s.current thread_running thread_ready s.ready_list v.running (λ h. cc h)
            v.queued.ready)
          (Away-of_status s s.current thread_running thread_blocked s.sleeping_list v.running
            (λ h. cc h) v.queued.sleeping) in
      obtain
        (schedule_from s.ready_list s₁ (record th { status = thread_blocked }) refl q₁
          (rw (==_refl s.current)) refl refl)
        λ s' run done. (
          s',
          assert_passes (not s.intr_context) _ (ap not calm)
              ∙ rw
                  (
                    thread_current_lem s th here is,
                    set_status_lem s s.current thread_blocked th here,
                  )
                  run,
          done.valid,
          done.picked,
          λ ne. ap status_of (done.others s.current ne) ∙ rw (==_refl s.current) refl,
          done.same_priorities ∙ put-priorities s s.current th _ here refl,
        )
