-- ===== src/Thread/Schedule.antt =====
-- Choosing the next thread and switching to it: `schedule`, `thread_block`, `thread_unblock`,
-- `thread_yield` and their callers in pintos/src/threads/thread.c.
use sogang_pint_os.Common.{ℕ, not, ◌&&◌, Option, none, some, List, [], ◌∷◌, ◌==◌, if◌then◌else◌}
use sogang_pint_os.Common.Int.{ℤ}
use sogang_pint_os.Common.Panic.{◌>>=◌, ◌>>◌, assert}
use sogang_pint_os.KernelList.{list_insert_ordered}
use sogang_pint_os.Thread.State.{
  thread_running, thread_ready, thread_blocked, thread_dying, is_running, is_blocked, is_dying,
  Kernel, priorities, put, set_status, cmp_priority_thread, thread_current,
}

-- `next_thread_to_run`
unfoldable pub next_of : List ℕ → Kernel → ℕ × Kernel
next_of [] s = (s.idle_thread, s)
next_of (t ∷ ts) s = (t, record s { ready_list = ts })

unfoldable pub next_thread_to_run : Kernel → ℕ × Kernel
next_thread_to_run s = next_of s.ready_list s

-- `thread_schedule_tail`; a dying thread's page is given back, so no thread is left there.
unfoldable pub thread_schedule_tail : Option ℕ → Kernel → Option Kernel
thread_schedule_tail prev s = do
  s₁ ← set_status s.current thread_running s
  let s₂ = record s₁ { thread_ticks = 0 }
  elim prev [
    | none ↦ some s₂
    | some p ↦ s₂.threads p >>= λ th.
        if is_dying th.status && not (p == s.initial_thread)
        then (assert (not (p == s.current))
            >> some (record s₂ { threads = λ k. if p == k then none else s₂.threads k }))
        else some s₂
  ]

-- `schedule`
unfoldable pub schedule : Kernel → Option Kernel
schedule s = do
  let cur = s.current
  let (next, s₁) = next_thread_to_run s
  th ← s.threads cur
  assert (not (is_running th.status))
  _ ← s₁.threads next
  if cur == next
      then thread_schedule_tail none s₁
      else thread_schedule_tail (some cur) (record s₁ { current = next })

unfoldable pub thread_block : Kernel → Option Kernel
thread_block s = do
  assert (not s.intr_context)
  _ ← thread_current s
  s₁ ← set_status s.current thread_blocked s
  schedule s₁

unfoldable pub thread_unblock : ℕ → Kernel → Option Kernel
thread_unblock t s = do
  th ← s.threads t
  assert (is_blocked th.status)
  let s₁ = record s {
    ready_list = list_insert_ordered (cmp_priority_thread (priorities s)) t s.ready_list;
  }
  set_status t thread_ready s₁

unfoldable pub thread_yield : Kernel → Option Kernel
thread_yield s = do
  _ ← thread_current s
  assert (not s.intr_context)
  let s₁ = if s.current == s.idle_thread then s else record s {
    ready_list = list_insert_ordered (cmp_priority_thread (priorities s)) s.current s.ready_list;
  }
  s₂ ← set_status s.current thread_ready s₁
  schedule s₂

unfoldable thread_set_priority : ℤ → Kernel → Option Kernel
thread_set_priority new_priority s = do
  th ← thread_current s
  thread_yield (put s.current (record th { priority = new_priority }) s)

unfoldable thread_get_priority : Kernel → Option ℤ
thread_get_priority s = do th ← thread_current s; some th.priority

unfoldable thread_set_nice : ℤ → Kernel → Option Kernel
thread_set_nice nice s = do
  th ← thread_current s
  some (put s.current (record th { nice = nice }) s)

unfoldable thread_get_nice : Kernel → Option ℤ
thread_get_nice s = do th ← thread_current s; some th.nice

-- The end of `thread_exit`, once its parent has let it go.
unfoldable remove_from : ℕ → List ℕ → List ℕ
remove_from t [] = []
remove_from t (k ∷ ks) = if t == k then ks else k ∷ remove_from t ks

unfoldable thread_exit_tail : Kernel → Option Kernel
thread_exit_tail s = do
  s₁ ← set_status s.current thread_dying (record s { all_list = remove_from s.current s.all_list })
  schedule s₁
