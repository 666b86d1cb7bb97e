-- ===== src/Tests/Library.antt =====
-- Runs of the theorems on lists, fixed-point numbers, C strings and the interrupt queue.
use sogang_pint_os.Common.{
  ℕ, zero, suc, ◌+◌, ◌<◌, ◌≡◌, ◌≢◌, refl, true, false, some, none, arith, ltb, ◌==◌, if◌then◌else◌,
  replicate, length-replicate, none-ne-some, eq_of_some,
}
use sogang_pint_os.KernelList.Order.{IsOrder}
use sogang_pint_os.Cstring.{Memory, memmove}
use sogang_pint_os.Cstring.Blocks.{moved, memmove_lem}
use sogang_pint_os.Cstring.Strings.{IsString}
use sogang_pint_os.Intq
use sogang_pint_os.Intq.{Intq, Caller, Call, intq_getc, intq_putc}
use sogang_pint_os.Intq.Refine.{Put, Get, intq_putc_lem, intq_getc_lem}

ltb-IsOrder : IsOrder ltb
ltb-IsOrder = record { asym = λ a b h. ground arith; trans = λ a b c h k. ground arith }

-- The string "abc" at address 100.
abbrev memory : Memory
memory k = if k == 100 then 97 else if k == 101 then 98 else if k == 102 then 99 else 0

abc : IsString memory 100 3
abc = record { not_null = λ e. absurd (omega (arith, e)); chars = λ i h. char i h; end = refl }
  where
    char : (i : ℕ) → i < 3 → memory (100 + i) ≢ 0
    char zero h = λ e. absurd (omega (arith, e))
    char (suc zero) h = λ e. absurd (omega (arith, e))
    char (suc (suc zero)) h = λ e. absurd (omega (arith, e))
    char (suc (suc (suc i))) h = λ e. absurd (omega (arith, h))

memmove_lem_example :
    (m' : Memory) × (memmove 101 100 3 memory ≡ some (101, m'))
    × ((k : ℕ) → m' k ≡ moved 3 101 100 memory k)
memmove_lem_example =
    memmove_lem 101 100 3 memory (λ e. absurd (omega (arith, e))) (λ e. absurd (omega (arith, e)))

-- A queue of three bytes that go round the end of the buffer.
abbrev queue : Intq
queue = record {
  lock = some 9;
  not_full = none;
  not_empty = some 9;
  buf = replicate 64 7;
  head = 1;
  tail = 62;
}

queue-IsValid : Intq.IsValid queue
queue-IsValid = record {
  room = length-replicate {A = ℕ} 64 7;
  head_in = omega arith;
  tail_in = omega arith;
  putter = λ t e. absurd (none-ne-some e);
  getter = λ t e. e;
}

-- Thread 1 does not have the lock.
not_holder : queue.lock ≢ some 1
not_holder e = absurd (omega (arith, eq_of_some e))

abbrev handler : Caller
handler = record { intr_off = true; intr_context = true; current = 1 }

abbrev caller : Caller
caller = record { intr_off = true; intr_context = false; current = 1 }

intq_putc_lem_example :
    (out : Call (Unit {0})) × (intq_putc handler 5 queue ≡ some out) × Put handler 5 queue out
intq_putc_lem_example =
    intq_putc_lem handler 5 queue refl queue-IsValid not_holder (λ e. absurd (omega (arith, e)))

intq_getc_lem_example : (out : Call ℕ) × (intq_getc caller queue ≡ some out) × Get caller queue out
intq_getc_lem_example = intq_getc_lem caller queue refl queue-IsValid not_holder (λ e. refl)
