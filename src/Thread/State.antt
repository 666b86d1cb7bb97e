-- ===== src/Thread/State.antt =====
-- The state of pintos/src/threads/thread.c and of the threads, pintos/src/threads/thread.h.
use sogang_pint_os.Common.{ℕ, Bool, true, false, Option, none, some, List, ◌==◌, if◌then◌else◌}
use sogang_pint_os.Common.Int.{ℤ, pos, ltb_ℤ}
use sogang_pint_os.Common.Panic.{◌>>=◌, ◌>>◌, assert}

-- `enum thread_status`
pub data Status : Type 0 where
  thread_running thread_ready thread_blocked thread_dying : Status

abbrev pub is_running : Status → Bool
is_running thread_running = true
is_running _ = false

abbrev pub is_blocked : Status → Bool
is_blocked thread_blocked = true
is_blocked _ = false

abbrev pub is_dying : Status → Bool
is_dying thread_dying = true
is_dying _ = false

-- Whether the thread counts for the load average.
abbrev pub is_busy : Status → Bool
is_busy thread_running = true
is_busy thread_ready = true
is_busy _ = false

-- `struct thread`
pub record Thread : Type 0 where
  pub tid : ℕ
  pub status : Status
  pub priority : ℤ
  pub wake_up_tick : ℤ
  pub nice : ℤ
  pub recent_cpu : ℤ
  pub children : List ℕ

-- The variables of thread.c, and what the machine and timer.c add. `threads t` is `none` where no
-- `struct thread` with its magic number stands at `t`.
pub record Kernel : Type 0 where
  pub threads : ℕ → Option Thread
  pub current : ℕ
  pub ready_list : List ℕ
  pub sleeping_list : List ℕ
  pub all_list : List ℕ
  pub idle_thread : ℕ
  pub initial_thread : ℕ
  pub next_tid : ℕ
  pub idle_ticks : ℕ
  pub kernel_ticks : ℕ
  pub thread_ticks : ℕ
  pub aging_ticks : ℕ
  pub load_avg : ℤ
  pub ticks : ℕ
  pub thread_mlfqs : Bool
  pub thread_prior_aging : Bool
  pub intr_context : Bool
  pub yield_on_return : Bool

abbrev pub pri_min : ℤ
pri_min = pos 0

abbrev pub pri_max : ℤ
pri_max = pos 63

abbrev pub time_slice : ℕ
time_slice = 4

abbrev pub timer_freq : ℕ
timer_freq = 100

-- Fields of the thread at an address, with a value for where there is none.
abbrev pub priority_of : Option Thread → ℤ
priority_of none = pos 0
priority_of (some th) = th.priority

abbrev pub wake_up_of : Option Thread → ℤ
wake_up_of none = pos 0
wake_up_of (some th) = th.wake_up_tick

abbrev pub status_of : Option Thread → Option Status
status_of none = none
status_of (some th) = some th.status

abbrev pub priorities : Kernel → ℕ → ℤ
priorities s t = priority_of (s.threads t)

abbrev pub wake_ups : Kernel → ℕ → ℤ
wake_ups s t = wake_up_of (s.threads t)

abbrev pub status_at : Kernel → ℕ → Option Status
status_at s t = status_of (s.threads t)

-- `cmp_priority_thread`: the greater priority goes first.
abbrev pub cmp_priority_thread : (ℕ → ℤ) → ℕ → ℕ → Bool
cmp_priority_thread priority a b = ltb_ℤ (priority b) (priority a)

-- `cmp_sleeping_thread`: the earlier tick goes first.
abbrev pub cmp_sleeping_thread : (ℕ → ℤ) → ℕ → ℕ → Bool
cmp_sleeping_thread wake_up a b = ltb_ℤ (wake_up a) (wake_up b)

abbrev pub put : ℕ → Thread → Kernel → Kernel
put t th s = record s { threads = λ k. if t == k then some th else s.threads k }

-- `t->status = status`
unfoldable pub set_status : ℕ → Status → Kernel → Option Kernel
set_status t status s = s.threads t >>= λ th. some (put t (record th { status = status }) s)

-- `thread_current`: its ASSERTs, and the thread's structure.
unfoldable pub thread_current : Kernel → Option Thread
thread_current s = do th ← s.threads s.current; assert (is_running th.status); some th
