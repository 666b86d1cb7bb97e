-- ===== src/Thread/Sleep.antt =====
-- Sleeping until a tick: `thread_sleep` and `thread_wake_up` of pintos/src/threads/thread.c, and
-- `timer_sleep` of pintos/src/devices/timer.c.
use sogang_pint_os.Common.{ℕ, Option, some, List, [], ◌∷◌, if◌then◌else◌}
use sogang_pint_os.Common.Int.{ℤ, pos, ltb_ℤ, ◌+ℤ◌}
use sogang_pint_os.Common.Panic.{◌>>=◌}
use sogang_pint_os.KernelList.{list_insert_ordered}
use sogang_pint_os.Thread.State.{Kernel, wake_ups, put, cmp_sleeping_thread, thread_current}
use sogang_pint_os.Thread.Schedule.{thread_block, thread_unblock}

-- `thread_sleep`
unfoldable thread_sleep : ℤ → Kernel → Option Kernel
thread_sleep wake_up_tick s = do
  tc ← thread_current s
  let s₁ = put s.current (record tc { wake_up_tick = wake_up_tick }) s
  let s₂ = record s₁ {
    sleeping_list =
        list_insert_ordered (cmp_sleeping_thread (wake_ups s₁)) s.current s₁.sleeping_list;
  }
  thread_block s₂

-- The loop of `thread_wake_up`; the list is the sleeping list, whose front is popped in each round.
unfoldable pub wake_loop : List ℕ → ℤ → Kernel → Option Kernel
wake_loop [] now_tick s = some s
wake_loop (t ∷ ts) now_tick s =
    let woken =
      thread_unblock t (record s { sleeping_list = ts }) >>= λ s'. wake_loop ts now_tick s' in
    s.threads t >>= λ th. if ltb_ℤ now_tick th.wake_up_tick then some s else woken

unfoldable pub thread_wake_up : ℤ → Kernel → Option Kernel
thread_wake_up now_tick s = wake_loop s.sleeping_list now_tick s

-- `timer_sleep`
unfoldable timer_sleep : ℤ → Kernel → Option Kernel
timer_sleep ticks s = thread_sleep (pos s.ticks +ℤ ticks) s
