-- ===== src/Tests/Kernel.antt =====
-- Runs of the scheduler's and the semaphores' theorems.
use sogang_pint_os.Common.{
  ◌≤◌, ℕ, ◌≡◌, refl, sym, Bool, true, false, none, some, List, [], ◌∷◌, arith, get_elem?,
  none-ne-some,
}
use sogang_pint_os.Common.Int.{pos, ◌≤ℤ◌}
use sogang_pint_os.Common.All.{All}
use sogang_pint_os.Thread.State.{
  Status, thread_running, thread_ready, thread_blocked, Thread, Kernel, priorities,
}
use sogang_pint_os.Thread.Schedule.{thread_yield, thread_unblock}
use sogang_pint_os.Thread.Sleep.{thread_wake_up}
use sogang_pint_os.Thread.Valid.{IsValid}
use sogang_pint_os.Thread.Switch.{Picked}
use sogang_pint_os.Thread.Yield.{Unblocked, Joined, thread_yield_lem, thread_unblock_lem}
use sogang_pint_os.Thread.WakeUp.{Woken, thread_wake_up_lem}
use sogang_pint_os.Thread.Starvation.{aging_calls, aging_calls-pri_max}
use sogang_pint_os.Synch.{Semaphore, sema_up_wakes, sema_down}
use sogang_pint_os.Synch.Laws.{IsSema, Raised, Downed, sema_up_wakes_lem, sema_down_lem}
use sogang_pint_os.Synch.Exclusion
use sogang_pint_os.Synch.Exclusion.{Reach, mutual_exclusion}

abbrev thread : ℕ → Status → ℕ → ℕ → Thread
thread tid status priority tick = record {
  tid = tid;
  status = status;
  priority = pos priority;
  wake_up_tick = pos tick;
  nice = pos 0;
  recent_cpu = pos 0;
  children = [];
}

abbrev some_threads : List Thread
some_threads =
    thread 0 thread_blocked 0 0
    ∷ thread 1 thread_running 31 0
    ∷ thread 2 thread_ready 40 0
    ∷ thread 3 thread_ready 31 0
    ∷ thread 4 thread_blocked 31 10
    ∷ thread 5 thread_blocked 31 20
    ∷ thread 6 thread_blocked 50 0
    ∷ thread 7 thread_blocked 20 0
    ∷ []

-- Thread 1 runs, 2 and 3 are ready, 4 and 5 sleep, 6 and 7 wait for something else.
abbrev kernel : Kernel
kernel = record {
  threads = λ t. get_elem? some_threads t;
  current = 1;
  ready_list = 2 ∷ 3 ∷ [];
  sleeping_list = 4 ∷ 5 ∷ [];
  all_list = 1 ∷ 2 ∷ 3 ∷ [];
  idle_thread = 0;
  initial_thread = 1;
  next_tid = 8;
  idle_ticks = 0;
  kernel_ticks = 0;
  thread_ticks = 0;
  aging_ticks = 399;
  load_avg = pos 0;
  ticks = 12;
  thread_mlfqs = false;
  thread_prior_aging = true;
  intr_context = false;
  yield_on_return = false;
}

kernel-IsValid : IsValid kernel
kernel-IsValid = record {
  queued = record {
    ready = (refl, (refl, tt));
    ready_sorted = ((refl, tt), (tt, tt));
    ready_distinct = ((λ e. absurd (omega (arith, e)), tt), (tt, tt));
    sleeping = (refl, (refl, tt));
    sleeping_sorted = ((refl, tt), (tt, tt));
    sleeping_distinct = ((λ e. absurd (omega (arith, e)), tt), (tt, tt));
    idle_there = λ e. none-ne-some (sym e);
    idle_awake = (λ e. absurd (omega (arith, e)), (λ e. absurd (omega (arith, e)), tt));
  };
  running = refl;
}

thread_yield_lem_example :
    (s' : Kernel) × (thread_yield kernel ≡ some s')
    × IsValid s'
    × ((queue : List ℕ) × Joined kernel queue × Picked queue 0 s')
    × All (λ t. priorities s' t ≤ℤ priorities s' s'.current) s'.ready_list
    × (priorities s' ≡ priorities kernel)
thread_yield_lem_example = thread_yield_lem kernel-IsValid refl

thread_unblock_lem_example :
    (s' : Kernel) × (thread_unblock 6 kernel ≡ some s') × Unblocked 6 kernel s'
thread_unblock_lem_example =
    thread_unblock_lem 6 kernel-IsValid refl
      ((λ e. absurd (omega (arith, e))), ((λ e. absurd (omega (arith, e))), tt))

thread_wake_up_lem_example :
    (s' : Kernel) × (thread_wake_up (pos 12) kernel ≡ some s')
    × Woken (4 ∷ 5 ∷ []) (pos 12) kernel s'
thread_wake_up_lem_example = thread_wake_up_lem (pos 12) kernel-IsValid

aging_calls-pri_max_example : (n : ℕ) × (n ≤ 25200) × (priorities (aging_calls n kernel) 3 ≡ pos 63)
aging_calls-pri_max_example =
    aging_calls-pri_max kernel 3 31 kernel-IsValid refl (omega arith) refl refl (omega arith)

-- Two threads wait for a semaphore.
abbrev sema : Semaphore
sema = record { value = 0; waiters = 6 ∷ 7 ∷ [] }

sema-IsSema : IsSema sema kernel
sema-IsSema = record {
  blocked = (refl, (refl, tt));
  apart = (
    ((λ e. absurd (omega (arith, e))), ((λ e. absurd (omega (arith, e))), tt)),
    (((λ e. absurd (omega (arith, e))), ((λ e. absurd (omega (arith, e))), tt)), tt),
  );
  sorted = ((refl, tt), (tt, tt));
  distinct = (((λ e. absurd (omega (arith, e))), tt), (tt, tt));
}

sema_up_wakes_lem_example :
    (out : Semaphore × Kernel) × (sema_up_wakes sema kernel ≡ some out)
    × (out.0.value ≡ 1)
    × IsValid out.1
    × IsSema out.0 out.1
    × Raised kernel out.1 (6 ∷ 7 ∷ []) out.0.waiters
    × (out.1.intr_context ≡ false)
sema_up_wakes_lem_example = sema_up_wakes_lem sema kernel-IsValid sema-IsSema (omega arith)

sema_down_lem_example :
    (out : Bool × Semaphore × Kernel) × (sema_down sema kernel ≡ some out)
    × IsValid out.2
    × Downed sema kernel out
sema_down_lem_example = sema_down_lem sema kernel-IsValid sema-IsSema refl

-- Thread 3 holds the lock.
abbrev held : Exclusion.State
held = record {
  value = 0;
  holder = some 3;
  phase =
      Exclusion.at 3 Exclusion.inside (record {
        value = 0;
        holder = none;
        phase = Exclusion.at 3 Exclusion.taken Exclusion.start;
      });
}

held-Reach : Reach Exclusion.start held
held-Reach =
    Exclusion.next
      (Exclusion.next Exclusion.here (Exclusion.down 3 Exclusion.start refl (omega arith)))
      (Exclusion.own 3
        (record {
          value = 0;
          holder = none;
          phase = Exclusion.at 3 Exclusion.taken Exclusion.start;
        })
        refl)

abbrev third : ℕ
third = 3

mutual_exclusion_example : (third ≡ third) × (held.value ≡ 0) × (held.holder ≡ some third)
mutual_exclusion_example = mutual_exclusion third third held-Reach (λ e. cc e) (λ e. cc e)
