-- ===== src/Thread/Tick.antt =====
-- The timer tick: statistics, the time slice, aging and the multi-level feedback queue scheduler, in
-- pintos/src/threads/thread.c, and `timer_interrupt` of pintos/src/devices/timer.c.
use sogang_pint_os.Common.{
  ℕ, ◌+◌, ◌*◌, ◌%◌, ◌^◌, not, ◌&&◌, ◌||◌, Option, none, some, List, [], ◌∷◌, leb, ◌==◌,
  if◌then◌else◌,
}
use sogang_pint_os.Common.Int.{ℤ, pos, ltb_ℤ, ◌+ℤ◌, ◌*ℤ◌}
use sogang_pint_os.Common.Panic.{◌>>=◌}
use sogang_pint_os.FixedPoint.{
  int_to_fp, fp_to_int_round_off, add_fp_to_fp, mul_fp_to_fp, sub_fp_to_fp, div_fp_to_fp, wrap32,
}
use sogang_pint_os.Thread.State.{
  is_busy, Thread, Kernel, pri_min, pri_max, time_slice, timer_freq, put, thread_current,
}
use sogang_pint_os.Thread.Sleep.{thread_wake_up}

unfoldable thread_get_load_avg : Kernel → ℤ
thread_get_load_avg s = fp_to_int_round_off (mul_fp_to_fp s.load_avg (int_to_fp (pos 100)))

unfoldable thread_get_recent_cpu : Kernel → Option ℤ
thread_get_recent_cpu s = do
  th ← thread_current s
  some (fp_to_int_round_off (mul_fp_to_fp th.recent_cpu (int_to_fp (pos 100))))

-- A thread at `t` is changed by `f`.
abbrev pub modify : (Thread → Thread) → Option Thread → Option Thread
modify f none = none
modify f (some th) = some (f th)

-- The loop of `thread_aging` over the ready list.
unfoldable pub age : Thread → Thread
age th =
    if ltb_ℤ pri_max (th.priority +ℤ pos 1)
    then record th { priority = pri_max }
    else record th { priority = th.priority +ℤ pos 1 }

unfoldable pub for_all : (Thread → Thread) → List ℕ → (ℕ → Option Thread) → ℕ → Option Thread
for_all f [] threads k = threads k
for_all f (t ∷ ts) threads k =
    for_all f ts (λ j. if t == j then modify f (threads j) else threads j) k

unfoldable pub thread_aging : Kernel → Kernel
thread_aging s =
    let ticks = (s.aging_ticks + 1) % 2 ^ 32 in
    if s.thread_prior_aging && ticks == time_slice * 100
    then record s { threads = for_all age s.ready_list s.threads; aging_ticks = 0 }
    else record s { aging_ticks = ticks }

-- The recalculations of the multi-level feedback queue scheduler.
unfoldable count_ready : Kernel → List ℕ → ℕ
count_ready s [] = 0
count_ready s (t ∷ ts) =
    (elim (s.threads t) [
      | none ↦ 0
      | some th ↦ if not (t == s.idle_thread) && is_busy th.status then 1 else 0
    ])
    + count_ready s ts

unfoldable next_load_avg : ℤ → ℕ → ℤ
next_load_avg load_avg ready_threads =
    add_fp_to_fp (mul_fp_to_fp (div_fp_to_fp (int_to_fp (pos 59)) (int_to_fp (pos 60))) load_avg) (
      mul_fp_to_fp (div_fp_to_fp (int_to_fp (pos 1)) (int_to_fp (pos 60)))
        (int_to_fp (pos ready_threads)))

unfoldable next_recent_cpu : ℤ → Thread → Thread
next_recent_cpu double_load_avg th =
    let decay = div_fp_to_fp double_load_avg (add_fp_to_fp double_load_avg (int_to_fp (pos 1))) in
    record th { recent_cpu = add_fp_to_fp (mul_fp_to_fp decay th.recent_cpu) (int_to_fp th.nice) }

-- The clamp to PRI_MIN and PRI_MAX.
unfoldable pub clamp_priority : ℤ → ℤ
clamp_priority p =
    let q = if ltb_ℤ pri_max p then pri_max else p in if ltb_ℤ q pri_min then pri_min else q

unfoldable pub next_priority : Thread → Thread
next_priority th =
    let fp =
      sub_fp_to_fp
        (sub_fp_to_fp (int_to_fp pri_max) (div_fp_to_fp th.recent_cpu (int_to_fp (pos 4))))
        (int_to_fp (wrap32 (th.nice *ℤ pos 2))) in
    record th { priority = clamp_priority (fp_to_int_round_off fp) }

-- Each part of the `if (thread_mlfqs)` block of `thread_tick`.
unfoldable tick_recent_cpu : Kernel → Option Kernel
tick_recent_cpu s =
    if s.current == s.idle_thread
    then some s
    else (s.threads s.current >>= λ th. some (
        put s.current (record th { recent_cpu = add_fp_to_fp th.recent_cpu (int_to_fp (pos 1)) })
          s))

unfoldable every_second : Kernel → Kernel
every_second s =
    if s.ticks % timer_freq == 0
    then (let load_avg = next_load_avg s.load_avg (count_ready s s.all_list) in
        record s {
          load_avg = load_avg;
          threads =
              for_all (next_recent_cpu (mul_fp_to_fp load_avg (int_to_fp (pos 2)))) s.all_list
                s.threads;
        })
    else s

unfoldable pub every_slice : Kernel → Kernel
every_slice s =
    if s.ticks % time_slice == 0
    then record s { threads = for_all next_priority s.all_list s.threads }
    else s

unfoldable thread_tick : Kernel → Option Kernel
thread_tick s = do
  _ ← thread_current s
  let s₁ =
      if s.current == s.idle_thread
      then record s { idle_ticks = s.idle_ticks + 1 }
      else record s { kernel_ticks = s.kernel_ticks + 1 }
  s₂ ←
      if s.thread_mlfqs
      then (tick_recent_cpu s₁ >>= λ u. some (every_slice (every_second u)))
      else some s₁
  let slice = (s₂.thread_ticks + 1) % 2 ^ 32
  let s₃ = record s₂ {
    thread_ticks = slice;
    yield_on_return = s₂.yield_on_return || leb time_slice slice;
  }
  some (if s₃.thread_prior_aging then thread_aging s₃ else s₃)

-- `timer_interrupt`
unfoldable timer_interrupt : Kernel → Option Kernel
timer_interrupt s = do
  let s₁ = record s { ticks = s.ticks + 1 }
  s₂ ← thread_tick s₁
  thread_wake_up (pos s₂.ticks) s₂
