-- ===== src/Bitmap/Bit.antt =====
-- Single bits of a bitmap: what `bitmap_mark`, `bitmap_reset`, `bitmap_flip`, `bitmap_set` and
-- `bitmap_test` do to the abstract view.
use native.Mathlib.Nat.{one-le-pow, pow-le-pow_right}
use sogang_pint_os.Common.{
  ℕ, zero, suc, ◌-◌, ◌/◌, ◌%◌, ◌^◌, ◌<◌, ◌≡◌, refl, ap, ◌∙◌, inl, inr, Bool, true, false, not, some,
  List, [], ◌∷◌, arith, ◌==◌, if◌then◌else◌, lt→ltb, ==_iff, Bool-cases, length, get_or,
  set as list_set, length-set,
}
use sogang_pint_os.Common.Bits.{
  nth_bit, nth_bit-le-one, nth_bit-bit_and, nth_bit-bit_or, nth_bit-bit_xor, nth_bit-pow,
  nth_bit-complement, bit_and-pow, bit_or-lt, bit_xor-lt, bit_and-le,
}
use sogang_pint_os.Bitmap.{
  Bitmap, IsValid, bit, elem_idx, bitmap_mark, bitmap_reset, bitmap_flip, bitmap_set, bitmap_test,
  word, put_word, bit_mask,
}

-- The mask of a bit fits a word.
mask_bounds : (idx : ℕ) → (0 < bit_mask idx) × (bit_mask idx < 2 ^ 32)
mask_bounds idx = omega (
  arith,
  one-le-pow (idx % 32) 2 (omega arith),
  pow-le-pow_right {n = 2} (omega arith) {i = idx % 32} {j = 31} (omega arith),
)

-- The word of an index below the count is there.
in_words : {b : Bitmap} → IsValid b → (idx : ℕ) → idx < b.bit_cnt → elem_idx idx < length b.bits
in_words v idx h = omega (arith, v.room, v.small)

get_or-set :
    (xs : List ℕ) (i j v : ℕ)
    → i < length xs
    → get_or (list_set xs i v) j 0 ≡ (if i == j then v else get_or xs j 0)
get_or-set [] i j v h = absurd (omega arith)
get_or-set (x ∷ xs) zero zero v h = refl
get_or-set (x ∷ xs) zero (suc j) v h = ground arith
get_or-set (x ∷ xs) (suc i) zero v h = ground arith
get_or-set (x ∷ xs) (suc i) (suc j) v h = ground (arith, get_or-set xs i j v)

put_word-IsValid :
    {b : Bitmap} → IsValid b → (i w : ℕ) → i < length b.bits → w < 2 ^ 32 → IsValid (put_word b i w)
put_word-IsValid {b} v i w hi hw = record {
  room = rw (length-set b.bits i w) v.room;
  small = v.small;
  narrow = λ j. ground (arith, get_or-set b.bits i j w, v.narrow j);
}

module _ {b : Bitmap} (v : IsValid b) (idx : ℕ) (h : idx < b.bit_cnt) where
  -- A new word whose digits agree with the old one's but for digit `idx % 32`.
  bit-put_word :
      (w : ℕ) (d : Bool)
      → ((k : ℕ)
          → k < 32
          → (nth_bit w k == 1)
            ≡ (if idx % 32 == k then d else nth_bit (word b (elem_idx idx)) k == 1))
      → (j : ℕ) → bit (put_word b (elem_idx idx) w) j ≡ (if idx == j then d else bit b j)
  bit-put_word w d digits j = elim (Bool-cases (elem_idx idx == elem_idx j)) [
    | inl e ↦
        let e' : idx / 32 ≡ j / 32 = ground arith in
        rw (get_or-set b.bits (idx / 32) (j / 32) w (in_words v idx h), e)
          (ground (arith, digits (j % 32), ap (word b) e'))
    | inr n ↦
        rw (get_or-set b.bits (idx / 32) (j / 32) w (in_words v idx h), n)
          (let n' : (idx == j) ≡ false = ground arith in rw n')
  ]

  -- `bitmap_mark` sets bit `idx` and no other.
  bit-mark : (j : ℕ) → bit (bitmap_mark b idx) j ≡ (if idx == j then true else bit b j)
  unfolding bitmap_mark
  bit-mark = bit-put_word _ true λ k hk. ground (
    arith,
    nth_bit-bit_or (word b (elem_idx idx)) (bit_mask idx) k,
    nth_bit-pow (idx % 32) k,
    nth_bit-le-one (word b (elem_idx idx)) k,
  )

  -- `bitmap_reset` clears bit `idx` and no other.
  bit-reset : (j : ℕ) → bit (bitmap_reset b idx) j ≡ (if idx == j then false else bit b j)
  unfolding bitmap_reset
  bit-reset = bit-put_word _ false λ k hk. ground (
    arith,
    nth_bit-bit_and (word b (elem_idx idx)) (2 ^ 32 - 1 - bit_mask idx) k,
    nth_bit-complement 32 (bit_mask idx) k (mask_bounds idx).1 hk,
    nth_bit-pow (idx % 32) k,
    nth_bit-le-one (word b (elem_idx idx)) k,
  )

  -- `bitmap_flip` inverts bit `idx` and no other.
  bit-flip : (j : ℕ) → bit (bitmap_flip b idx) j ≡ (if idx == j then not (bit b j) else bit b j)
  unfolding bitmap_flip
  bit-flip j =
      bit-put_word _ (not (bit b idx))
        (λ k hk. ground (
          arith,
          nth_bit-bit_xor (word b (elem_idx idx)) (bit_mask idx) k,
          nth_bit-pow (idx % 32) k,
          nth_bit-le-one (word b (elem_idx idx)) k,
        ))
        j
      ∙ same_bit
    where
      same_bit :
          (if idx == j then not (bit b idx) else bit b j)
          ≡ (if idx == j then not (bit b j) else bit b j)
      same_bit = elim (Bool-cases (idx == j)) [ inl e ↦ rw (e, (==_iff idx j).0 e) | inr n ↦ rw n ]

  mark-IsValid : IsValid (bitmap_mark b idx)
  unfolding bitmap_mark
  mark-IsValid =
      put_word-IsValid v (elem_idx idx) _ (in_words v idx h)
        (bit_or-lt 32 (word b (elem_idx idx)) (bit_mask idx) (v.narrow _) (mask_bounds idx).1)

  reset-IsValid : IsValid (bitmap_reset b idx)
  unfolding bitmap_reset
  reset-IsValid = put_word-IsValid v (elem_idx idx) _ (in_words v idx h) (
      omega (
        arith,
        v.narrow (elem_idx idx),
        bit_and-le (word b (elem_idx idx)) (2 ^ 32 - 1 - bit_mask idx),
      ))

  flip-IsValid : IsValid (bitmap_flip b idx)
  unfolding bitmap_flip
  flip-IsValid =
      put_word-IsValid v (elem_idx idx) _ (in_words v idx h)
        (bit_xor-lt 32 (word b (elem_idx idx)) (bit_mask idx) (v.narrow _) (mask_bounds idx).1)

  -- `bitmap_test` passes its ASSERT and reads bit `idx`.
  pub test_lem : bitmap_test b idx ≡ some (bit b idx)
  unfolding bitmap_test
  test_lem = rw (lt→ltb idx b.bit_cnt h) (
      ground (
        arith,
        bit_and-pow (word b (elem_idx idx)) (idx % 32),
        nth_bit-le-one (word b (elem_idx idx)) (idx % 32),
        mask_bounds idx,
      ))

-- `b'` has the size of `b`, is valid, and has the bits `f`.
pub record Holds (b b' : Bitmap) (f : ℕ → Bool) : Type 0 where
  pub valid : IsValid b'
  pub size : b'.bit_cnt ≡ b.bit_cnt
  pub bits : (j : ℕ) → bit b' j ≡ f j

-- `bitmap_set` passes its ASSERT and gives bit `idx` the value.
pub set_lem :
    {b : Bitmap}
    → IsValid b
    → (idx : ℕ) (value : Bool) → idx < b.bit_cnt
    → (b' : Bitmap) × (bitmap_set b idx value ≡ some b')
      × Holds b b' (λ j. if idx == j then value else bit b j)
unfolding bitmap_set bitmap_mark bitmap_reset
set_lem {b} v idx true h = (
  bitmap_mark b idx,
  rw (lt→ltb idx b.bit_cnt h),
  record { valid = mark-IsValid v idx h; size = refl; bits = bit-mark v idx h },
)
set_lem {b} v idx false h = (
  bitmap_reset b idx,
  rw (lt→ltb idx b.bit_cnt h),
  record { valid = reset-IsValid v idx h; size = refl; bits = bit-reset v idx h },
)
