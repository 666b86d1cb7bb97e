-- ===== src/Bitmap/Scan.antt =====
-- Searching a bitmap: `bitmap_scan` and `bitmap_scan_and_flip`.
use sogang_pint_os.Common.{
  ℕ, zero, suc, ◌+◌, ◌-◌, ◌≤◌, ◌<◌, ◌≡◌, refl, ◌≢◌, inl, inr, Bool, true, false, not, some, arith,
  leb, ◌==◌, if◌then◌else◌, le→leb, ne→==_false, Bool-cases, ◌∙◌, sym,
}
use sogang_pint_os.Common.Panic.{◌>>=◌}
use sogang_pint_os.Bitmap.{
  Bitmap, IsValid, bit, bitmap_error, scan_loop, bitmap_scan, bitmap_scan_and_flip,
  bitmap_set_multiple,
}
use sogang_pint_os.Bitmap.Bit.{Holds}
use sogang_pint_os.Bitmap.Range.{
  within, any_bit, any_bit-false, any_bit-true, contains_lem, set_multiple_lem,
}

-- The `cnt` bits from `i` on lie in the bitmap and have the value.
pub record IsGroup (b : Bitmap) (cnt : ℕ) (value : Bool) (i : ℕ) : Type 0 where
  pub inside : i + cnt ≤ b.bit_cnt
  pub same : (j : ℕ) → i ≤ j → j < i + cnt → bit b j ≡ value

-- What a search from `start` may return: the first group, or BITMAP_ERROR if there is none.
pub data Found (b : Bitmap) (start cnt : ℕ) (value : Bool) : ℕ → Type 0 where
  first :
      (r : ℕ)
      → start ≤ r
      → r ≢ bitmap_error
      → IsGroup b cnt value r
      → ((i : ℕ) → start ≤ i → i < r → ¬ IsGroup b cnt value i)
      → Found b start cnt value r
  nowhere :
      (r : ℕ)
      → r ≡ bitmap_error
      → ((i : ℕ) → start ≤ i → ¬ IsGroup b cnt value i)
      → Found b start cnt value r

not-not : (x : Bool) → not (not x) ≡ x
not-not true = refl
not-not false = refl

not_self : (x : Bool) → x ≢ not x
not_self true = ground arith
not_self false = ground arith

module _ {b : Bitmap} (v : IsValid b) (cnt : ℕ) (value : Bool) where
  -- A group is a range that does not contain the other value.
  IsGroup-of_false :
      (i : ℕ) → i + cnt ≤ b.bit_cnt → any_bit b (not value) i cnt ≡ false → IsGroup b cnt value i
  IsGroup-of_false i h e = record {
    inside = h;
    same = λ j lo hi. any_bit-false b (not value) i cnt e j lo hi ∙ not-not value;
  }

  not-IsGroup_of_true : (i : ℕ) → any_bit b (not value) i cnt ≡ true → ¬ IsGroup b cnt value i
  not-IsGroup_of_true i e g =
      let (j, lo, hi, is) = any_bit-true b (not value) i cnt e in
      not_self value (sym (g.same j lo hi) ∙ is)

  scan_loop_lem :
      (n i : ℕ)
      → i + n + cnt ≡ b.bit_cnt + 1
      → (r : ℕ) × (scan_loop n i cnt value b ≡ some r) × Found b i cnt value r
  unfolding scan_loop
  scan_loop_lem zero i h =
      (bitmap_error, refl, nowhere bitmap_error refl (λ j lo g. absurd (omega (arith, g.inside))))
  scan_loop_lem (suc n) i h =
      let (r, run, found) = scan_loop_lem n (i + 1) (omega arith) in
      rw (contains_lem i cnt (not value) v (omega arith), run)
        (elim (Bool-cases (any_bit b (not value) i cnt)) [
          | inl e ↦ rw e (r, refl, later (not-IsGroup_of_true i e) found)
          | inr e ↦ rw e (
            i,
            refl,
            first i (omega arith) (omega (arith, v.small)) (IsGroup-of_false i (omega arith) e)
                (λ j lo hi. absurd (omega arith)),
          )
        ])
    where
      later :
          ¬ IsGroup b cnt value i → {r : ℕ} → Found b (i + 1) cnt value r → Found b i cnt value r
      later miss (first r lo ne g none_before) = first r (omega arith) ne g (λ j lo' hi'.
          elim (Bool-cases (i == j)) [
            | inl at ↦ let at' : i ≡ j = ground arith in rw (← at') miss
            | inr off ↦ none_before j (ground arith) hi'
          ])
      later miss (nowhere r e no_more) = nowhere r e (λ j lo'. elim (Bool-cases (i == j)) [
        | inl at ↦ let at' : i ≡ j = ground arith in rw (← at') miss
        | inr off ↦ no_more j (ground arith)
      ])

  -- `bitmap_scan` from an index inside the bitmap passes every ASSERT and ends. It returns the first
  -- group of `cnt` bits with the value at or after `start`, or BITMAP_ERROR if there is none.
  scan_lem :
      (start : ℕ)
      → start ≤ b.bit_cnt
      → (r : ℕ) × (bitmap_scan b start cnt value ≡ some r) × Found b start cnt value r
  unfolding bitmap_scan scan_loop
  scan_lem start h = rw (le→leb start b.bit_cnt h) (elim (Bool-cases (leb cnt b.bit_cnt)) [
    | inl fits ↦ rw fits (elim (Bool-cases (leb (start + cnt) (b.bit_cnt + 1))) [
      | inl room ↦ scan_loop_lem (b.bit_cnt - cnt + 1 - start) start (ground arith)
      | inr past ↦
          let none_left : b.bit_cnt - cnt + 1 - start ≡ 0 = ground arith in
          rw none_left (
            bitmap_error,
            refl,
            nowhere bitmap_error refl (λ i lo g. absurd (ground (arith, g.inside))),
          )
    ])
    | inr big ↦ rw big (
      bitmap_error,
      refl,
      nowhere bitmap_error refl (λ i lo g. absurd (ground (arith, g.inside))),
    )
  ])

  -- The first group is inverted, or there is none and nothing changes.
  pub data Flipped (start : ℕ) : ℕ × Bitmap → Type 0 where
    flipped :
        (r : ℕ) (b' : Bitmap)
        → r ≢ bitmap_error
        → start ≤ r
        → IsGroup b cnt value r
        → ((i : ℕ) → start ≤ i → i < r → ¬ IsGroup b cnt value i)
        → Holds b b' (λ j. if within r cnt j then not value else bit b j)
        → Flipped start (r, b')
    unchanged :
        (r : ℕ)
        → r ≡ bitmap_error
        → ((i : ℕ) → start ≤ i → ¬ IsGroup b cnt value i)
        → Flipped start (r, b)

  -- `bitmap_scan_and_flip` from an index inside the bitmap passes every ASSERT. If there is a group it
  -- returns the first one and inverts its bits and no others; if there is none it returns BITMAP_ERROR
  -- and changes nothing. The bitmap stays valid. A group of no bits is there at `start` itself, so `start`
  -- is returned for it.
  pub scan_and_flip_lem :
      (start : ℕ)
      → start ≤ b.bit_cnt
      → (out : ℕ × Bitmap) × (bitmap_scan_and_flip b start cnt value ≡ some out) × Flipped start out
  unfolding bitmap_scan_and_flip
  scan_and_flip_lem start h = let (r, run, found) = scan_lem start h in rw run (flip_found r found)
    where
      flip_found :
          (r : ℕ)
          → Found b start cnt value r
          → (out : ℕ × Bitmap) × ((if r == bitmap_error
                then some (r, b)
                else (bitmap_set_multiple b r cnt (not value) >>= λ b'. some (r, b')))
              ≡ some out)
            × Flipped start out
      flip_found _ (first r lo ne g before) =
          let (b', run, holds) = set_multiple_lem r cnt (not value) v g.inside in
          ((r, b'), rw (ne→==_false r bitmap_error ne, run), flipped r b' ne lo g before holds)
      flip_found _ (nowhere r e no_more) = ((r, b), rw e, unchanged r e no_more)
