-- ===== src/Arithmetic/Signed.antt =====
-- `udiv64`, `umod64`, `sdiv64` and `smod64` of pintos/src/lib/arithmetic.c for all operands.
use native.Mathlib.Nat.{div-add-mod, div-mul-le_self, div-le_self}
use sogang_pint_os.Common.{
  ℕ, zero, suc, ◌+◌, ◌-◌, ◌*◌, ◌/◌, ◌%◌, ◌^◌, ◌<◌, ◌≡◌, some, ◌==◌, arith, Bool-cases, inl, inr,
  true, false,
}
use sogang_pint_os.Common.Int.{ℤ, pos, negsuc, sub_ℕ, ◌≤ℤ◌, ltb_ℤ}
use sogang_pint_os.FixedPoint.{div_trunc}
use sogang_pint_os.Arithmetic.{udiv64, umod64, sdiv64, abs64, signed64, word64}
use sogang_pint_os.Arithmetic.Small.{udiv64_small_lem}
use sogang_pint_os.Arithmetic.Large.{udiv64_large_lem}

-- `udiv64` gives the quotient of any 64-bit words, the divisor not 0: its `divl` never traps.
pub udiv64_lem : (n d : ℕ) → n < 2 ^ 64 → 0 < d → d < 2 ^ 64 → udiv64 n d ≡ some (n / d)
unfolding udiv64
udiv64_lem n d hn lt hd = elim (Bool-cases (d / 2 ^ 32 == 0)) [
  | inl e ↦ rw (udiv64, e) (udiv64_small_lem n d hn lt (ground arith))
  | inr e ↦ rw (udiv64, e) (udiv64_large_lem n d hn (ground arith) hd)
]

-- `umod64` gives the low 32 bits of the remainder.
umod64_lem : (n d : ℕ) → n < 2 ^ 64 → 0 < d → d < 2 ^ 64 → umod64 n d ≡ some (n % d % 2 ^ 32)
unfolding umod64
umod64_lem n d hn lt hd =
    let whole : (n + (2 ^ 64 - d * (n / d) % 2 ^ 64)) % 2 ^ 64 ≡ n % d =
      omega (arith, div-add-mod n d, div-mul-le_self n d) in
    rw (umod64, udiv64_lem n d hn lt hd, whole)

below_zero_pos : (n : ℕ) → ltb_ℤ (pos n) (pos 0) ≡ false
below_zero_pos n = ground arith

below_zero_negsuc : (n : ℕ) → ltb_ℤ (negsuc n) (pos 0) ≡ true
below_zero_negsuc n = ground arith

abs64-pos : (n : ℕ) → n < 2 ^ 63 → abs64 (pos n) ≡ n
abs64-pos n h = rw (below_zero_pos n) (omega arith)

abs64-negsuc : (n : ℕ) → n < 2 ^ 63 → abs64 (negsuc n) ≡ suc n
abs64-negsuc n h = rw (below_zero_negsuc n) (omega arith)

word64_of_negative : (q : ℕ) → q < 2 ^ 64 → word64 (sub_ℕ 0 q) ≡ (2 ^ 64 - q) % 2 ^ 64
word64_of_negative zero h = omega arith
word64_of_negative (suc q) h = ground arith

-- `sdiv64` gives the quotient rounded towards zero, as a 64-bit word; only the least number by -1 has
-- a quotient that does not fit.
sdiv64_lem :
    (n d : ℤ)
    → negsuc (2 ^ 63 - 1) ≤ℤ n
    → n ≤ℤ pos (2 ^ 63 - 1)
    → negsuc (2 ^ 63 - 1) ≤ℤ d
    → d ≤ℤ pos (2 ^ 63 - 1)
    → 0 < abs64 d
    → sdiv64 n d ≡ some (signed64 (word64 (div_trunc n d)))
unfolding sdiv64 div_trunc
sdiv64_lem (pos n) (pos d) hn hn' hd hd' ne =
    let en = abs64-pos n (omega arith) in
    let ed = abs64-pos d (omega arith) in
    let word : n / d % 2 ^ 64 ≡ n / d = omega (arith, div-le_self n d) in
    rw (
      sdiv64,
      en,
      ed,
      udiv64_lem n d (omega arith) (omega (arith, ed)) (omega arith),
      below_zero_pos n,
      below_zero_pos d,
      word,
    )
sdiv64_lem (pos n) (negsuc d) hn hn' hd hd' ne =
    let up : d + 1 ≡ suc d = omega arith in
    rw (
      sdiv64,
      abs64-pos n (omega arith),
      abs64-negsuc d (omega arith),
      udiv64_lem n (suc d) (omega arith) (omega arith) (omega arith),
      below_zero_pos n,
      below_zero_negsuc d,
      up,
      word64_of_negative (n / suc d) (omega (arith, div-le_self n (suc d))),
    )
sdiv64_lem (negsuc n) (pos d) hn hn' hd hd' ne =
    let ed = abs64-pos d (omega arith) in
    let up : n + 1 ≡ suc n = omega arith in
    rw (
      sdiv64,
      abs64-negsuc n (omega arith),
      ed,
      udiv64_lem (suc n) d (omega arith) (omega (arith, ed)) (omega arith),
      below_zero_negsuc n,
      below_zero_pos d,
      up,
      word64_of_negative (suc n / d) (omega (arith, div-le_self (suc n) d)),
    )
sdiv64_lem (negsuc n) (negsuc d) hn hn' hd hd' ne =
    let up : n + 1 ≡ suc n = omega arith in
    let up' : d + 1 ≡ suc d = omega arith in
    let word : suc n / suc d % 2 ^ 64 ≡ suc n / suc d =
      omega (arith, div-le_self (suc n) (suc d)) in
    rw (
      sdiv64,
      abs64-negsuc n (omega arith),
      abs64-negsuc d (omega arith),
      udiv64_lem (suc n) (suc d) (omega arith) (omega arith) (omega arith),
      below_zero_negsuc n,
      below_zero_negsuc d,
      up,
      up',
      word,
    )
