-- ===== src/Synch/Laws.antt =====
-- Semaphores and the threads that wait on them: one operation of pintos/src/threads/synch.c at a time.
use mathlib.Core.Path.{subst}
use sogang_pint_os.Common.{
  ℕ, suc, ◌≢◌, ◌+◌, ◌-◌, ◌%◌, ◌^◌, ◌<◌, ◌≡◌, refl, sym, ap, ◌∙◌, inl, inr, Bool, true, false, not,
  some, List, [], ◌∷◌, arith, ◌==◌, Bool-cases, obtain,
}
use sogang_pint_os.Common.Int.{ℤ, ◌≤ℤ◌}
use sogang_pint_os.Common.Panic.{◌>>=◌, assert_passes}
use sogang_pint_os.Common.All.{All, Away, Distinct, All-mono-Away}
use sogang_pint_os.KernelList.{list_insert_ordered}
use sogang_pint_os.KernelList.Order.{IsSorted, Below}
use sogang_pint_os.Thread.State.{
  thread_blocked, Kernel, priorities, status_at, status_of, cmp_priority_thread,
}
use sogang_pint_os.Thread.Valid.{IsValid}
use sogang_pint_os.Thread.Placed.{Placed, insert_ordered-Placed}
use sogang_pint_os.Thread.Switch.{Picked}
use sogang_pint_os.Thread.Block.{thread_block_lem}
use sogang_pint_os.Thread.Yield.{Unblocked, Joined, thread_unblock_lem}
use sogang_pint_os.Synch.{Semaphore, sema_down, wake_first, sema_up_wakes}

-- The waiters are blocked, do not sleep on the timer, are in the order of their priorities, and none
-- waits twice.
pub record IsSema (sema : Semaphore) (s : Kernel) : Type 0 where
  pub blocked : All (λ t. status_at s t ≡ some thread_blocked) sema.waiters
  pub apart : All (λ t. Away t s.sleeping_list) sema.waiters
  pub sorted : IsSorted (cmp_priority_thread (priorities s)) sema.waiters
  pub distinct : Distinct sema.waiters

-- Who `sema_up` makes ready: the first waiter, and none of the others has a higher priority.
pub data Raised (s : Kernel) (s' : Kernel) : List ℕ → List ℕ → Type 0 where
  nobody : s' ≡ s → Raised s s' [] []
  first :
      (t : ℕ) (ts : List ℕ)
      → Unblocked t s s'
      → All (λ k. priorities s k ≤ℤ priorities s t) ts
      → Raised s s' (t ∷ ts) ts

Below-le :
    (p : ℕ → ℤ) (t : ℕ) (ts : List ℕ)
    → Below (cmp_priority_thread p) t ts
    → All (λ k. p k ≤ℤ p t) ts
Below-le p t [] h = tt
Below-le p t (k ∷ ks) h = (ground arith, Below-le p t ks h.1)

-- The part of `sema_up` with interrupts off, for a value that does not wrap, passes its ASSERTs, adds one
-- to the value and keeps the scheduler's invariant. The waiters that are left are still blocked, off the
-- sleeping list, in the order of their priorities and each there once. If threads wait it takes the first
-- one off, which has the highest priority of them, and makes it ready in its place of the ready list; if
-- none waits the scheduler's state does not change.
pub sema_up_wakes_lem :
    (sema : Semaphore) {s : Kernel}
    → IsValid s
    → IsSema sema s
    → sema.value < 2 ^ 32 - 1
    → (out : Semaphore × Kernel) × (sema_up_wakes sema s ≡ some out)
      × (out.0.value ≡ sema.value + 1)
      × IsValid out.1
      × IsSema out.0 out.1
      × Raised s out.1 sema.waiters out.0.waiters
      × (out.1.intr_context ≡ s.intr_context)
unfolding sema_up_wakes wake_first
sema_up_wakes_lem sema {s} v w small = ready sema.waiters w.blocked w.apart w.sorted w.distinct
  where
    value : (sema.value + 1) % 2 ^ 32 ≡ sema.value + 1
    value = omega (arith, small)

    ready :
        (l : List ℕ)
        → All (λ t. status_at s t ≡ some thread_blocked) l
        → All (λ t. Away t s.sleeping_list) l
        → IsSorted (cmp_priority_thread (priorities s)) l
        → Distinct l
        → (out : Semaphore × Kernel) × ((wake_first l s >>= λ (waiters, s').
              some (record { value = (sema.value + 1) % 2 ^ 32; waiters = waiters }, s'))
            ≡ some out)
          × (out.0.value ≡ sema.value + 1)
          × IsValid out.1
          × IsSema out.0 out.1
          × Raised s out.1 l out.0.waiters
          × (out.1.intr_context ≡ s.intr_context)
    ready [] blocked apart sorted distinct = (
      (record { value = (sema.value + 1) % 2 ^ 32; waiters = [] }, s),
      refl,
      value,
      v,
      record { blocked = tt; apart = tt; sorted = tt; distinct = tt },
      nobody refl,
      refl,
    )
    ready (t ∷ ts) blocked apart sorted distinct =
        obtain (thread_unblock_lem t v blocked.0 apart.0) λ s' run un. (
          (record { value = (sema.value + 1) % 2 ^ 32; waiters = ts }, s'),
          rw run,
          value,
          un.valid,
          record {
            blocked =
                All-mono-Away t ts distinct.0 (λ k ne e. ap status_of (un.others k ne) ∙ e)
                  blocked.1;
            apart = subst (λ l. All (λ k. Away k l) ts) (sym un.sleepers) apart.1;
            sorted =
                subst (λ (p : ℕ → ℤ). IsSorted (cmp_priority_thread p) ts) (sym un.same_priorities)
                  sorted.1;
            distinct = distinct.1;
          },
          first t ts un (Below-le (priorities s) t ts sorted.0),
          un.same_context,
        )

-- What `sema_up` does, in two parts: `woke` is the state with the first waiter made ready, and then the
-- caller yields in it.
pub record Upped (sema : Semaphore) (s : Kernel) (out : Semaphore × Kernel) : Type 0 where
  pub value : out.0.value ≡ sema.value + 1
  pub valid : IsValid out.1
  pub woke : Kernel
  pub raised : Raised s woke sema.waiters out.0.waiters
  pub queue : List ℕ
  pub joined : Joined woke queue
  pub picked : Picked queue woke.idle_thread out.1
  pub highest : All (λ t. priorities out.1 t ≤ℤ priorities out.1 out.1.current) out.1.ready_list

-- What a round of `sema_down` does: it takes one, or the caller waits. Then the caller is among the waiters,
-- has given the CPU away, and is blocked unless it is the thread that runs.
pub data Downed (sema : Semaphore) (s : Kernel) : Bool × Semaphore × Kernel → Type 0 where
  taken : (left : ℕ) → sema.value ≡ suc left → Downed sema s (true, record sema { value = left }, s)
  waits :
      (waiters : List ℕ) (s' : Kernel)
      → sema.value ≡ 0
      → Placed (priorities s) s.current sema.waiters waiters
      → Picked s.ready_list s.idle_thread s'
      → (s'.current ≢ s.current → status_at s' s.current ≡ some thread_blocked)
      → priorities s' ≡ priorities s
      → Downed sema s (false, record sema { waiters = waiters }, s')

-- A round of `sema_down` outside of an interrupt passes its ASSERTs and keeps the scheduler's
-- invariant. With a positive value it takes one and is done, and nothing else changes, the scheduler's
-- state included. At 0 the value stays, and the caller joins the waiters behind those of at least its
-- priority and before those of a lower one. It gives the CPU to the front of the ready list, or to the
-- idle thread if that is empty, and is blocked unless it is that thread itself.
pub sema_down_lem :
    (sema : Semaphore) {s : Kernel}
    → IsValid s
    → IsSema sema s
    → s.intr_context ≡ false
    → (out : Bool × Semaphore × Kernel) × (sema_down sema s ≡ some out)
      × IsValid out.2
      × Downed sema s out
unfolding sema_down
sema_down_lem sema {s} v w calm = elim (Bool-cases (sema.value == 0)) [
  | inl e ↦
      let (s', run, valid, picked, blocked, same) = thread_block_lem v calm in
      (
        (
          false,
          record sema {
            waiters =
                list_insert_ordered (cmp_priority_thread (priorities s)) s.current sema.waiters;
          },
          s',
        ),
        assert_passes (not s.intr_context) _ (ap not calm) ∙ rw (e, run),
        valid,
        waits _ s' (ground (arith, e))
            (insert_ordered-Placed (priorities s) s.current sema.waiters w.sorted) picked blocked
            same,
      )
  | inr e ↦ (
    (true, record sema { value = sema.value - 1 }, s),
    assert_passes (not s.intr_context) _ (ap not calm) ∙ rw e,
    v,
    taken (sema.value - 1) (ground (arith, e)),
  )
]
