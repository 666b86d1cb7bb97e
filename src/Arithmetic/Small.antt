-- ===== src/Arithmetic/Small.antt =====
-- `udiv64` of pintos/src/lib/arithmetic.c where the divisor has 32 bits.
use native.Mathlib.Nat.{div-lt_iff_lt-mul, add-mul-div_left, div-add-mod, div-le_self, mod-lt}
use sogang_pint_os.Common.{ℕ, ◌+◌, ◌*◌, ◌/◌, ◌%◌, ◌^◌, ◌<◌, ◌≡◌, sym, ap, ◌∙◌, some, arith}
use sogang_pint_os.Arithmetic.{divl, udiv64_small}

-- `divl` does not trap where the quotient has 32 bits.
pub divl_lem : (n d : ℕ) → 0 < d → n < 2 ^ 32 * d → divl n d ≡ some (n / d)
unfolding divl
divl_lem n d pos lt = let fits : n / d < 2 ^ 32 = (div-lt_iff_lt-mul pos).1 lt in ground arith

pub udiv64_small_lem : (n d : ℕ) → n < 2 ^ 64 → 0 < d → d < 2 ^ 32 → udiv64_small n d ≡ some (n / d)
unfolding udiv64_small
udiv64_small_lem n d hn pos hd =
    let n1 = n / 2 ^ 32 in
    let n0 = n % 2 ^ 32 in
    let part : n1 % d < d = mod-lt n1 pos in
    let below : 2 ^ 32 * (n1 % d) + n0 < 2 ^ 32 * d = omega arith in
    let whole : (2 ^ 32 * (n1 % d) + n0) % 2 ^ 64 ≡ 2 ^ 32 * (n1 % d) + n0 = omega arith in
    let sum : (2 ^ 32 * (n1 % d) + n0) / d + 2 ^ 32 * (n1 / d) ≡ n / d =
      sym (add-mul-div_left (2 ^ 32 * (n1 % d) + n0) (2 ^ 32 * (n1 / d)) pos)
      ∙ ap (λ t. t / d) (omega (arith, div-add-mod n1 d)) in
    let small : n / d % 2 ^ 64 ≡ n / d = omega (arith, div-le_self n d) in
    rw (udiv64_small, whole, divl_lem (2 ^ 32 * (n1 % d) + n0) d pos below, sum, small)
