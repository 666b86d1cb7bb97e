-- ===== src/Bitmap.antt =====
-- Bitmaps: pintos/src/lib/kernel/bitmap.c. A bitmap is `bit_cnt` bits in words of 32, the width of
-- `unsigned long` on the i386 that the kernel is built for. A `size_t` is a number below 2 ^ 32 and
-- its sums wrap. `none` is a failed ASSERT. A write outside of the words, which C leaves undefined,
-- changes nothing here; `IsValid` rules it out for every index below `bit_cnt`.
pub mod Bit
pub mod Range
pub mod Scan
use Prim.Native.Nat.{bit_and, bit_or, bit_xor}
use sogang_pint_os.Common.{
  ℕ, zero, suc, ◌+◌, ◌-◌, ◌*◌, ◌/◌, ◌%◌, ◌^◌, ◌<◌, ◌≡◌, Bool, true, false, not, Option, none, some,
  List, [], ltb, leb, ◌==◌, bool_eq, if◌then◌else◌, length, get_or, set as list_set,
}
use sogang_pint_os.Common.Bits.{nth_bit}
use sogang_pint_os.Common.Panic.{◌>>=◌, ◌>>◌, assert}

-- `struct bitmap`
pub record Bitmap : Type 0 where
  pub bit_cnt : ℕ
  pub bits : List ℕ

-- ELEM_BITS
abbrev pub elem_bits : ℕ
elem_bits = 32

-- BITMAP_ERROR, that is SIZE_MAX
abbrev pub bitmap_error : ℕ
bitmap_error = 2 ^ 32 - 1

-- a sum of two `size_t`
abbrev pub add_size : ℕ → ℕ → ℕ
add_size a b = (a + b) % 2 ^ 32

abbrev pub elem_idx : ℕ → ℕ
elem_idx bit_idx = bit_idx / elem_bits

abbrev pub bit_mask : ℕ → ℕ
bit_mask bit_idx = 2 ^ (bit_idx % elem_bits)

-- DIV_ROUND_UP (bit_cnt, ELEM_BITS)
abbrev pub elem_cnt : ℕ → ℕ
elem_cnt bit_cnt = add_size bit_cnt (elem_bits - 1) / elem_bits

-- `sizeof (elem_type) * elem_cnt (bit_cnt)`
abbrev pub byte_cnt : ℕ → ℕ
byte_cnt bit_cnt = 4 * elem_cnt bit_cnt

-- `sizeof (struct bitmap)` is 8.
abbrev pub bitmap_buf_size : ℕ → ℕ
bitmap_buf_size bit_cnt = add_size 8 (byte_cnt bit_cnt)

abbrev pub last_mask : Bitmap → ℕ
last_mask b = if b.bit_cnt % elem_bits == 0 then 2 ^ 32 - 1 else 2 ^ (b.bit_cnt % elem_bits) - 1

abbrev pub word : Bitmap → ℕ → ℕ
word b i = get_or b.bits i 0

abbrev pub put_word : Bitmap → ℕ → ℕ → Bitmap
put_word b i w = record b { bits = list_set b.bits i w }

pub bitmap_mark : Bitmap → ℕ → Bitmap
bitmap_mark b bit_idx =
    put_word b (elem_idx bit_idx) (bit_or (word b (elem_idx bit_idx)) (bit_mask bit_idx))

pub bitmap_reset : Bitmap → ℕ → Bitmap
bitmap_reset b bit_idx =
    put_word b (elem_idx bit_idx)
      (bit_and (word b (elem_idx bit_idx)) (2 ^ 32 - 1 - bit_mask bit_idx))

pub bitmap_flip : Bitmap → ℕ → Bitmap
bitmap_flip b bit_idx =
    put_word b (elem_idx bit_idx) (bit_xor (word b (elem_idx bit_idx)) (bit_mask bit_idx))

pub bitmap_set : Bitmap → ℕ → Bool → Option Bitmap
bitmap_set b idx value = do
  assert (ltb idx b.bit_cnt)
  some (if value then bitmap_mark b idx else bitmap_reset b idx)

pub bitmap_test : Bitmap → ℕ → Option Bool
bitmap_test b idx = do
  assert (ltb idx b.bit_cnt)
  some (not (bit_and (word b (elem_idx idx)) (bit_mask idx) == 0))

-- Both ASSERTs on a range of bits.
abbrev pub assert_range : Bitmap → ℕ → ℕ → Option (Unit {0})
assert_range b start cnt = do
  assert (leb start b.bit_cnt)
  assert (leb (add_size start cnt) b.bit_cnt)

-- The loop from index `i` on, with `n` rounds left.
set_loop : ℕ → ℕ → ℕ → Bool → Bitmap → Option Bitmap
set_loop zero start i value b = some b
set_loop (suc n) start i value b =
    bitmap_set b (add_size start i) value >>= λ b'. set_loop n start (i + 1) value b'

pub bitmap_set_multiple : Bitmap → ℕ → ℕ → Bool → Option Bitmap
bitmap_set_multiple b start cnt value = do assert_range b start cnt; set_loop cnt start 0 value b

pub bitmap_set_all : Bitmap → Bool → Option Bitmap
bitmap_set_all b value = bitmap_set_multiple b 0 b.bit_cnt value

count_loop : ℕ → ℕ → ℕ → Bool → ℕ → Bitmap → Option ℕ
count_loop zero start i value value_cnt b = some value_cnt
count_loop (suc n) start i value value_cnt b = bitmap_test b (add_size start i) >>= λ bit.
    count_loop n start (i + 1) value (if bool_eq bit value then value_cnt + 1 else value_cnt) b

pub bitmap_count : Bitmap → ℕ → ℕ → Bool → Option ℕ
bitmap_count b start cnt value = do assert_range b start cnt; count_loop cnt start 0 value 0 b

contains_loop : ℕ → ℕ → ℕ → Bool → Bitmap → Option Bool
contains_loop zero start i value b = some false
contains_loop (suc n) start i value b =
    let rest = contains_loop n start (i + 1) value b in
    bitmap_test b (add_size start i) >>= λ bit. if bool_eq bit value then some true else rest

pub bitmap_contains : Bitmap → ℕ → ℕ → Bool → Option Bool
bitmap_contains b start cnt value = do assert_range b start cnt; contains_loop cnt start 0 value b

pub bitmap_any : Bitmap → ℕ → ℕ → Option Bool
bitmap_any b start cnt = bitmap_contains b start cnt true

pub bitmap_none : Bitmap → ℕ → ℕ → Option Bool
bitmap_none b start cnt = bitmap_contains b start cnt true >>= λ found. some (not found)

pub bitmap_all : Bitmap → ℕ → ℕ → Option Bool
bitmap_all b start cnt = bitmap_contains b start cnt false >>= λ found. some (not found)

-- The loop of `bitmap_scan` from index `i`, with `n` indices left up to `last`.
scan_loop : ℕ → ℕ → ℕ → Bool → Bitmap → Option ℕ
scan_loop zero i cnt value b = some bitmap_error
scan_loop (suc n) i cnt value b =
    let rest = scan_loop n (i + 1) cnt value b in
    bitmap_contains b i cnt (not value) >>= λ found. if found then rest else some i

-- The loop runs for `i = start` up to and including `last`; `cnt ≤ bit_cnt` bounds its rounds.
pub bitmap_scan : Bitmap → ℕ → ℕ → Bool → Option ℕ
bitmap_scan b start cnt value = do
  assert (leb start b.bit_cnt)
  if leb cnt b.bit_cnt
      then scan_loop (b.bit_cnt - cnt + 1 - start) start cnt value b
      else some bitmap_error

pub bitmap_scan_and_flip : Bitmap → ℕ → ℕ → Bool → Option (ℕ × Bitmap)
bitmap_scan_and_flip b start cnt value = do
  idx ← bitmap_scan b start cnt value
  if idx == bitmap_error
      then some (idx, b)
      else (do b' ← bitmap_set_multiple b idx cnt (not value); some (idx, b'))

-- The words that `malloc` gives hold any values; `none` is a null pointer. The outer `none` of the
-- result is a panic, the inner one the null pointer that is returned.
unfoldable pub bitmap_create : ℕ → Bool → Option (List ℕ) → Option (Option Bitmap)
bitmap_create bit_cnt no_struct none =
    if no_struct
    then some none
    else if bit_cnt == 0
    then (do b ← bitmap_set_all (record { bit_cnt = bit_cnt; bits = [] }) false; some (some b))
    else some none
bitmap_create bit_cnt no_struct (some words) =
    if no_struct
    then some none
    else (do b ← bitmap_set_all (record { bit_cnt = bit_cnt; bits = words }) false; some (some b))

-- `words` is what the buffer holds behind the structure.
pub bitmap_create_in_buf : ℕ → List ℕ → ℕ → Option Bitmap
bitmap_create_in_buf bit_cnt words block_size = do
  assert (leb (bitmap_buf_size bit_cnt) block_size)
  bitmap_set_all (record { bit_cnt = bit_cnt; bits = words }) false

-- The abstract view: bit `j`.
abbrev pub bit : Bitmap → ℕ → Bool
bit b j = nth_bit (word b (elem_idx j)) (j % elem_bits) == 1

-- The words are 32 bits wide and there are enough of them, and the count is a `size_t` whose
-- rounding to words does not wrap.
pub record IsValid (b : Bitmap) : Type 0 where
  pub room : elem_cnt b.bit_cnt ≡ length b.bits
  pub small : b.bit_cnt + 31 < 2 ^ 32
  pub narrow : (i : ℕ) → get_or b.bits i 0 < 2 ^ 32
