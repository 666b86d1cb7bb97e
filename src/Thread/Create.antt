-- ===== src/Thread/Create.antt =====
-- New threads: `init_thread`, `allocate_tid` and `thread_create` of pintos/src/threads/thread.c.
use sogang_pint_os.Common.{ℕ, ◌+◌, not, ◌&&◌, Option, none, some, [], ◌∷◌, ◌++◌}
use sogang_pint_os.Common.Int.{ℤ, pos, ltb_ℤ}
use sogang_pint_os.Common.Panic.{◌>>=◌, ◌>>◌, assert}
use sogang_pint_os.Thread.State.{thread_blocked, Kernel, pri_min, pri_max, put, thread_current}
use sogang_pint_os.Thread.Schedule.{thread_unblock, thread_yield}

-- `init_thread` and `allocate_tid`, for a page at `t` that the allocator gave.
unfoldable init_thread : ℕ → ℤ → Kernel → Option Kernel
init_thread t priority s = do
  assert (not (ltb_ℤ priority pri_min) && not (ltb_ℤ pri_max priority))
  parent ← thread_current s
  some
      (record (put t
        (record {
          tid = s.next_tid;
          status = thread_blocked;
          priority = priority;
          wake_up_tick = pos 0;
          nice = parent.nice;
          recent_cpu = parent.recent_cpu;
          children = [];
        })
        s) { all_list = s.all_list ++ (t ∷ []); next_tid = s.next_tid + 1 })

-- `thread_create`: `none` for the page is a null pointer, and then TID_ERROR, `none`, is returned.
unfoldable thread_create : Option ℕ → ℤ → Kernel → Option (Option ℕ × Kernel)
thread_create none priority s = some (none, s)
thread_create (some t) priority s = do
  s₁ ← init_thread t priority s
  parent ← thread_current s₁
  s₂ ←
      thread_unblock t
        (put s₁.current (record parent { children = parent.children ++ (t ∷ []) }) s₁)
  s₃ ← thread_yield s₂
  some (some s.next_tid, s₃)
