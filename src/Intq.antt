-- ===== src/Intq.antt =====
-- The interrupt queue: pintos/src/devices/intq.c, a ring of bytes between a driver's interrupt handler
-- and a thread. A thread is its number. A call runs until it returns or until its thread blocks in
-- `wait` or in `lock_acquire`. A thread that got its lock, or that is woken from `wait`, goes on at that
-- place of the loop, with a function of its own. The lock is its holder. `none` is a failed ASSERT.
pub mod Refine
use sogang_pint_os.Common.{
  ℕ, ◌+◌, ◌-◌, ◌%◌, ◌<◌, ◌≡◌, Bool, false, not, Option, none, some, List, ◌==◌, if◌then◌else◌,
  length, get_or, set,
}
use sogang_pint_os.Common.Panic.{◌>>=◌, ◌>>◌, assert}

-- INTQ_BUFSIZE
abbrev pub intq_bufsize : ℕ
intq_bufsize = 64

-- `struct intq`
pub record Intq : Type 0 where
  pub lock : Option ℕ
  pub not_full : Option ℕ
  pub not_empty : Option ℕ
  pub buf : List ℕ
  pub head : ℕ
  pub tail : ℕ

-- What the calls ask of their caller: the interrupt level, `intr_context ()` and `thread_current ()`.
pub record Caller : Type 0 where
  pub intr_off : Bool
  pub intr_context : Bool
  pub current : ℕ

-- A call's end: it returns, and unblocks a thread if one waited; or its thread sleeps in `wait`; or it
-- sleeps in `lock_acquire`, since another thread has the lock.
pub data Call (A : Type 0) : Type 0 where
  returns : A → Option ℕ → Intq → Call A
  sleeps : Intq → Call A
  locked_out : Intq → Call A

pub next : ℕ → ℕ
next pos = (pos + 1) % intq_bufsize

-- On the memory of the queue, whose buffer holds any bytes.
unfoldable intq_init : Intq → Intq
intq_init q = record q { lock = none; not_full = none; not_empty = none; head = 0; tail = 0 }

pub empty : Intq → Bool
empty q = q.head == q.tail

pub full : Intq → Bool
full q = next q.head == q.tail

pub intq_empty : Caller → Intq → Option Bool
intq_empty c q = assert c.intr_off >>= λ _. some (empty q)

pub intq_full : Caller → Intq → Option Bool
intq_full c q = assert c.intr_off >>= λ _. some (full q)

-- `wait (q, &q->not_empty)` and `wait (q, &q->not_full)`, up to `thread_block`.
pub wait_not_empty : Caller → Intq → Option Intq
wait_not_empty c q = do
  assert (not c.intr_context)
  is_empty ← intq_empty c q
  assert is_empty
  some (record q { not_empty = some c.current })

pub wait_not_full : Caller → Intq → Option Intq
wait_not_full c q = do
  assert (not c.intr_context)
  is_full ← intq_full c q
  assert is_full
  some (record q { not_full = some c.current })

-- `signal (q, &q->not_empty)` and `signal (q, &q->not_full)`: the thread to unblock, and the queue.
pub signal_not_empty : Caller → Intq → Option (Option ℕ × Intq)
signal_not_empty c q = do
  is_empty ← intq_empty c q
  assert (not is_empty)
  some (q.not_empty, record q { not_empty = none })

pub signal_not_full : Caller → Intq → Option (Option ℕ × Intq)
signal_not_full c q = do
  is_full ← intq_full c q
  assert (not is_full)
  some (q.not_full, record q { not_full = none })

abbrev holds : Caller → Option ℕ → Bool
holds c none = false
holds c (some t) = t == c.current

-- `lock_acquire (&q->lock)`: none if another thread holds the lock.
pub acquire : Caller → Intq → Option (Option Intq)
acquire c q = do
  assert (not c.intr_context)
  assert (not (holds c q.lock))
  elim q.lock [ none ↦ some (some (record q { lock = some c.current })) | some t ↦ some none ]

-- `lock_release (&q->lock)`
release : Caller → Intq → Option Intq
release c q = do assert (holds c q.lock); some (record q { lock = none })

-- What a call does after `lock_acquire`: the wait with the lock, or none.
pub wait_locked : {A : Type 0} → (Intq → Option Intq) → Intq → Option Intq → Option (Call A)
wait_locked wait q none = some (locked_out q)
wait_locked wait q (some q₁) = do q₂ ← wait q₁; some (sleeps q₂)

pub intq_getc : Caller → Intq → Option (Call ℕ)
intq_getc c q = do
  is_empty ← intq_empty c q
  if is_empty
      then (do assert (not c.intr_context); got ← acquire c q; wait_locked (wait_not_empty c) q got)
      else (do
        (woken, q') ← signal_not_full c (record q { tail = next q.tail })
        some (returns (get_or q.buf q.tail 0) woken q'))

pub intq_putc : Caller → ℕ → Intq → Option (Call (Unit {0}))
intq_putc c byte q = do
  is_full ← intq_full c q
  if is_full
      then (do assert (not c.intr_context); got ← acquire c q; wait_locked (wait_not_full c) q got)
      else (do
        (woken, q') ←
            signal_not_empty c (record q { buf = set q.buf q.head byte; head = next q.head })
        some (returns tt woken q'))

-- The rest of a call whose thread has slept in `lock_acquire` and got the lock.
unfoldable intq_getc_locked : Caller → Intq → Option (Call ℕ)
intq_getc_locked c q = wait_locked (wait_not_empty c) q (some (record q { lock = some c.current }))

unfoldable intq_putc_locked : Caller → ℕ → Intq → Option (Call (Unit {0}))
intq_putc_locked c byte q =
    wait_locked (wait_not_full c) q (some (record q { lock = some c.current }))

-- The rest of a call whose thread was woken from `wait`.
intq_getc_woken : Caller → Intq → Option (Call ℕ)
intq_getc_woken c q = do q₁ ← release c q; intq_getc c q₁

intq_putc_woken : Caller → ℕ → Intq → Option (Call (Unit {0}))
intq_putc_woken c byte q = do q₁ ← release c q; intq_putc c byte q₁

-- The buffer has its size, both places lie in it, and a thread that waits has the lock.
pub record IsValid (q : Intq) : Type 0 where
  pub room : length q.buf ≡ intq_bufsize
  pub head_in : q.head < intq_bufsize
  pub tail_in : q.tail < intq_bufsize
  pub putter : (t : ℕ) → q.not_full ≡ some t → q.lock ≡ some t
  pub getter : (t : ℕ) → q.not_empty ≡ some t → q.lock ≡ some t
