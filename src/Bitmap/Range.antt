-- ===== src/Bitmap/Range.antt =====
-- Ranges of bits: `bitmap_set_multiple`, `bitmap_contains`, `bitmap_count` and what stands on them.
use sogang_pint_os.Common.{
  ℕ, zero, suc, ◌+◌, ◌%◌, ◌^◌, ◌≤◌, ◌<◌, ◌≡◌, refl, inl, inr, Bool, true, false, not, ◌&&◌, List,
  some, ap, arith, ltb, leb, ◌==◌, bool_eq, if◌then◌else◌, le→leb, Bool-cases, ◌∙◌,
}
use native.Mathlib.Nat.{add_assoc, add-zero}
use sogang_pint_os.Bitmap.{
  Bitmap, IsValid, bit, add_size, assert_range, set_loop, bitmap_set_multiple, bitmap_set_all,
  count_loop, bitmap_count, contains_loop, bitmap_contains, bitmap_any, bitmap_none, bitmap_all,
  bitmap_buf_size, bitmap_create_in_buf,
}
use sogang_pint_os.Bitmap.Bit.{Holds, set_lem, test_lem}

-- Index `j` is one of the `n` from `i` on.
abbrev pub within : ℕ → ℕ → ℕ → Bool
within i n j = leb i j && ltb j (i + n)

assert_range_passes :
    {b : Bitmap} (start cnt : ℕ)
    → IsValid b
    → start + cnt ≤ b.bit_cnt
    → assert_range b start cnt ≡ some tt
assert_range_passes {b} start cnt v h =
    let wrap : (start + cnt) % 2 ^ 32 ≡ start + cnt = omega (arith, v.small) in
    rw (le→leb start b.bit_cnt (omega arith), wrap, le→leb (start + cnt) b.bit_cnt h)

no_wrap :
    {b : Bitmap} (start i n : ℕ)
    → IsValid b
    → start + i + suc n ≤ b.bit_cnt
    → add_size start i ≡ start + i
no_wrap start i n v h = omega (arith, v.small)

set_loop_lem :
    (n start i : ℕ) (value : Bool) {b : Bitmap}
    → IsValid b
    → start + i + n ≤ b.bit_cnt
    → (b' : Bitmap) × (set_loop n start i value b ≡ some b')
      × Holds b b' (λ j. if within (start + i) n j then value else bit b j)
unfolding set_loop
set_loop_lem zero start i value {b} v h =
    (b, refl, record { valid = v; size = refl; bits = λ j. ground arith })
set_loop_lem (suc n) start i value {b} v h =
    let (b₁, run₁, holds₁) = set_lem v (start + i) value (omega arith) in
    let (b₂, run₂, holds₂) =
      set_loop_lem n start (i + 1) value {b = b₁} holds₁.valid (omega (arith, holds₁.size)) in
    (
      b₂,
      rw (no_wrap start i n v h, run₁) run₂,
      record {
        valid = holds₂.valid;
        size = holds₂.size ∙ holds₁.size;
        bits = λ j. ground (arith, holds₂.bits j, holds₁.bits j);
      },
    )

-- `bitmap_set_multiple` on a range inside the bitmap passes every ASSERT, gives each bit of the range
-- the value, leaves every other bit and the size as they were, and keeps the bitmap valid.
pub set_multiple_lem :
    {b : Bitmap} (start cnt : ℕ) (value : Bool)
    → IsValid b
    → start + cnt ≤ b.bit_cnt
    → (b' : Bitmap) × (bitmap_set_multiple b start cnt value ≡ some b')
      × Holds b b' (λ j. if within start cnt j then value else bit b j)
unfolding bitmap_set_multiple
set_multiple_lem {b} start cnt value v h =
    let (b', run, holds) = set_loop_lem cnt start 0 value v (omega arith) in
    (
      b',
      rw (assert_range_passes start cnt v h) run,
      record { valid = holds.valid; size = holds.size; bits = λ j. ground (arith, holds.bits j) },
    )

-- The specification of `bitmap_contains`: some bit of the `n` from `i` on has the value.
pub any_bit : Bitmap → Bool → ℕ → ℕ → Bool
any_bit b value i zero = false
any_bit b value i (suc n) = if bool_eq (bit b i) value then true else any_bit b value (i + 1) n

-- The specification of `bitmap_count`.
number_of : Bitmap → Bool → ℕ → ℕ → ℕ
number_of b value i zero = 0
number_of b value i (suc n) =
    (if bool_eq (bit b i) value then 1 else 0) + number_of b value (i + 1) n

pub any_bit-false :
    (b : Bitmap) (value : Bool) (i n : ℕ)
    → any_bit b value i n ≡ false
    → (j : ℕ) → i ≤ j
    → j < i + n
    → bit b j ≡ not value
unfolding any_bit
any_bit-false b value i zero e j lo hi = absurd (omega arith)
any_bit-false b value i (suc n) e j lo hi = elim (Bool-cases (i == j)) [
  | inl at ↦ let at' : i ≡ j = ground arith in rw (← at') (first value (bit b i) e)
  | inr off ↦
      any_bit-false b value (i + 1) n (rest value (bit b i) e) j (ground arith) (omega arith)
]
  where
    first :
        (value x : Bool)
        → (if bool_eq x value then true else any_bit b value (i + 1) n) ≡ false
        → x ≡ not value
    first value x e = ground arith

    rest :
        (value x : Bool)
        → (if bool_eq x value then true else any_bit b value (i + 1) n) ≡ false
        → any_bit b value (i + 1) n ≡ false
    rest value x e = ground arith

pub any_bit-true :
    (b : Bitmap) (value : Bool) (i n : ℕ)
    → any_bit b value i n ≡ true
    → (j : ℕ) × (i ≤ j) × (j < i + n) × (bit b j ≡ value)
unfolding any_bit
any_bit-true b value i zero e = ground arith
any_bit-true b value i (suc n) e = elim (Bool-cases (bool_eq (bit b i) value)) [
  | inl here ↦ (i, omega arith, omega arith, same value (bit b i) here)
  | inr other ↦
      let (j, lo, hi, is) = any_bit-true b value (i + 1) n (rw other at e) in
      (j, omega arith, omega arith, is)
]
  where
    same : (value x : Bool) → bool_eq x value ≡ true → x ≡ value
    same value x e = ground arith

some_if {ℓ} :
    {A : Type ℓ} (c : Bool) (x y : A) → (if c then some x else some y) ≡ some (if c then x else y)
some_if true x y = refl
some_if false x y = refl

contains_loop_lem :
    {b : Bitmap} (n start i : ℕ) (value : Bool)
    → IsValid b
    → start + i + n ≤ b.bit_cnt
    → contains_loop n start i value b ≡ some (any_bit b value (start + i) n)
unfolding contains_loop any_bit
contains_loop_lem zero start i value v h = refl
contains_loop_lem {b} (suc n) start i value v h =
    rw
      (
        no_wrap start i n v h,
        test_lem v (start + i) (omega arith),
        contains_loop_lem n start (i + 1) value v (omega arith),
      )
      (rw (← add_assoc start i 1) (some_if (bool_eq (bit b (start + i)) value) true _))

-- `bitmap_contains` on a range inside the bitmap passes every ASSERT and says whether some bit of the
-- range has the value.
pub contains_lem :
    {b : Bitmap} (start cnt : ℕ) (value : Bool)
    → IsValid b
    → start + cnt ≤ b.bit_cnt
    → bitmap_contains b start cnt value ≡ some (any_bit b value start cnt)
unfolding bitmap_contains
contains_lem start cnt value v h = rw (
  assert_range_passes start cnt v h,
  contains_loop_lem cnt start 0 value v (omega arith),
  add-zero,
)

pub any_lem :
    {b : Bitmap} (start cnt : ℕ)
    → IsValid b
    → start + cnt ≤ b.bit_cnt
    → (bitmap_any b start cnt ≡ some (any_bit b true start cnt))
      × (bitmap_none b start cnt ≡ some (not (any_bit b true start cnt)))
      × (bitmap_all b start cnt ≡ some (not (any_bit b false start cnt)))
unfolding bitmap_any bitmap_none bitmap_all
any_lem start cnt v h = (
  contains_lem start cnt true v h,
  rw (contains_lem start cnt true v h),
  rw (contains_lem start cnt false v h),
)

count_loop_lem :
    (n start i : ℕ) (value : Bool) (c : ℕ) {b : Bitmap}
    → IsValid b
    → start + i + n ≤ b.bit_cnt
    → count_loop n start i value c b ≡ some (c + number_of b value (start + i) n)
unfolding count_loop number_of
count_loop_lem zero start i value c v h = rw add-zero
count_loop_lem (suc n) start i value c {b} v h =
    let e : start + i + 1 ≡ start + (i + 1) = omega arith in
    rw (no_wrap start i n v h, test_lem v (start + i) (omega arith), e)
      (elim (Bool-cases (bool_eq (bit b (start + i)) value)) [
        | inl hit ↦
            rw hit
              (count_loop_lem n start (i + 1) value (c + 1) v (omega arith) ∙ ap some (omega arith))
        | inr miss ↦
            rw miss (count_loop_lem n start (i + 1) value c v (omega arith) ∙ ap some (omega arith))
      ])

-- `bitmap_count` on a range inside the bitmap passes every ASSERT and counts the bits with the value.
count_lem :
    {b : Bitmap} (start cnt : ℕ) (value : Bool)
    → IsValid b
    → start + cnt ≤ b.bit_cnt
    → bitmap_count b start cnt value ≡ some (number_of b value start cnt)
unfolding bitmap_count
count_lem start cnt value v h =
    rw
      (
        assert_range_passes start cnt v h,
        count_loop_lem cnt start 0 value 0 v (omega arith),
        add-zero,
      )
      (ap some (omega arith))

-- `bitmap_create_in_buf` over enough words of any contents gives a valid bitmap of `bit_cnt` zero
-- bits, if the buffer is large enough.
create_in_buf_lem :
    (bit_cnt block_size : ℕ) (words : List ℕ)
    → IsValid (record { bit_cnt = bit_cnt; bits = words })
    → bitmap_buf_size bit_cnt ≤ block_size
    → (b : Bitmap) × (bitmap_create_in_buf bit_cnt words block_size ≡ some b)
      × IsValid b
      × (b.bit_cnt ≡ bit_cnt)
      × ((j : ℕ) → j < bit_cnt → bit b j ≡ false)
unfolding bitmap_create_in_buf bitmap_set_all
create_in_buf_lem bit_cnt block_size words v h =
    let (b, run, holds) = set_multiple_lem 0 bit_cnt false v (omega arith) in
    (
      b,
      rw (le→leb (bitmap_buf_size bit_cnt) block_size h) run,
      holds.valid,
      holds.size,
      λ j hj. ground (arith, holds.bits j),
    )
