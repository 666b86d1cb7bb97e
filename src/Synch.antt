-- ===== src/Synch.antt =====
-- Semaphores, locks and condition variables: pintos/src/threads/synch.c, in the build without USERPROG,
-- where `sema_up` ends in `thread_yield`. Each piece of code that runs with interrupts off is one step.
-- An operation that has to wait ends where its thread gives the CPU away; the thread goes on with the
-- same test when it runs again. `none` is a failed ASSERT.
pub mod Laws
pub mod Exclusion
use sogang_pint_os.Common.{
  ℕ, ◌+◌, ◌-◌, ◌%◌, ◌^◌, Bool, true, false, not, ◌&&◌, Option, none, some, List, [], ◌∷◌, ◌++◌, ltb,
  ◌==◌, if◌then◌else◌,
}
use sogang_pint_os.Common.Panic.{◌>>=◌, ◌>>◌, assert}
use sogang_pint_os.KernelList.{list_insert_ordered}
use sogang_pint_os.Thread.State.{Kernel, priorities, cmp_priority_thread, thread_current}
use sogang_pint_os.Thread.Schedule.{thread_block, thread_unblock, thread_yield}

-- `struct semaphore`
pub record Semaphore : Type 0 where
  pub value : ℕ
  pub waiters : List ℕ

-- `struct lock`
pub record Lock : Type 0 where
  pub holder : Option ℕ
  pub semaphore : Semaphore

pub sema_init : ℕ → Semaphore
sema_init value = record { value = value; waiters = [] }

-- One round of the loop of `sema_down`, up to where it waits (`false`) or is done (`true`).
pub sema_down : Semaphore → Kernel → Option (Bool × Semaphore × Kernel)
sema_down sema s = do
  assert (not s.intr_context)
  if sema.value == 0
      then (do
        s' ← thread_block s
        some (
          false,
          record sema {
            waiters =
                list_insert_ordered (cmp_priority_thread (priorities s)) s.current sema.waiters;
          },
          s',
        ))
      else some (true, record sema { value = sema.value - 1 }, s)

unfoldable sema_try_down : Semaphore → Bool × Semaphore
sema_try_down sema =
    if ltb 0 sema.value then (true, record sema { value = sema.value - 1 }) else (false, sema)

-- The part of `sema_up` with interrupts off: the first waiter is made ready.
wake_first : List ℕ → Kernel → Option (List ℕ × Kernel)
wake_first [] s = some ([], s)
wake_first (t ∷ ts) s = thread_unblock t s >>= λ s'. some (ts, s')

pub sema_up_wakes : Semaphore → Kernel → Option (Semaphore × Kernel)
sema_up_wakes sema s = wake_first sema.waiters s >>= λ (waiters, s').
    some (record { value = (sema.value + 1) % 2 ^ 32; waiters = waiters }, s')

pub sema_up : Semaphore → Kernel → Option (Semaphore × Kernel)
sema_up sema s = do (sema', s₁) ← sema_up_wakes sema s; s₂ ← thread_yield s₁; some (sema', s₂)

unfoldable lock_init : Lock
unfolding sema_init
lock_init = record { holder = none; semaphore = sema_init 1 }

abbrev held_by : Option ℕ → ℕ → Bool
held_by none t = false
held_by (some h) t = h == t

unfoldable lock_held_by_current_thread : Lock → Kernel → Bool
lock_held_by_current_thread lock s = held_by lock.holder s.current

-- One round, as for `sema_down`; the holder is set once the semaphore is down.
unfoldable lock_acquire : Lock → Kernel → Option (Bool × Lock × Kernel)
lock_acquire lock s = do
  assert (not s.intr_context)
  assert (not (lock_held_by_current_thread lock s))
  (done, sema, s') ← sema_down lock.semaphore s
  some (
    done,
    (if done
        then record { holder = some s.current; semaphore = sema }
        else record lock { semaphore = sema }),
    s',
  )

unfoldable lock_try_acquire : Lock → Kernel → Option (Bool × Lock)
lock_try_acquire lock s = do
  assert (not (lock_held_by_current_thread lock s))
  let (success, sema) = sema_try_down lock.semaphore
  some (
    success,
    if success
        then record { holder = some s.current; semaphore = sema }
        else record lock { semaphore = sema },
  )

unfoldable lock_release : Lock → Kernel → Option (Lock × Kernel)
lock_release lock s = do
  assert (lock_held_by_current_thread lock s)
  (sema, s') ← sema_up lock.semaphore s
  some (record { holder = none; semaphore = sema }, s')

-- A condition variable is the list of its waiters' semaphores, oldest first.
abbrev pub Condition : Type 0
Condition = List Semaphore

unfoldable cond_init : Condition
cond_init = []

-- `cond_wait` up to the wait: its semaphore goes to the back, and the lock is released.
unfoldable cond_wait : Condition → Lock → Kernel → Option (Condition × Lock × Kernel)
cond_wait cond lock s = do
  assert (not s.intr_context)
  assert (lock_held_by_current_thread lock s)
  (lock', s') ← lock_release lock s
  some (cond ++ (sema_init 0 ∷ []), lock', s')

-- `cond_signal`: the oldest waiter's semaphore is upped, and returned beside the rest.
unfoldable cond_signal : Condition → Lock → Kernel → Option (Option Semaphore × Condition × Kernel)
cond_signal [] lock s = do
  assert (not s.intr_context)
  assert (lock_held_by_current_thread lock s)
  some (none, [], s)
cond_signal (sema ∷ cond) lock s = do
  assert (not s.intr_context)
  assert (lock_held_by_current_thread lock s)
  (sema', s') ← sema_up sema s
  some (some sema', cond, s')
