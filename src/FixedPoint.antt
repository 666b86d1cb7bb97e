-- ===== src/FixedPoint.antt =====
-- Fixed-point arithmetic: pintos/src/lib/kernel/arith_fp.c and arith_fp.h. An `int` is an integer in
-- [-2 ^ 31, 2 ^ 31); `wrap32` brings a result back into it, as the compiled code does, and `long long`
-- products do not overflow at such operands. Division rounds towards zero.
use sogang_pint_os.Common.{ℕ, ◌+◌, ◌-◌, ◌/◌, ◌%◌, ◌^◌, ◌≡◌, arith, ltb, if◌then◌else◌}
use sogang_pint_os.Common.Int.{ℤ, pos, negsuc, sub_ℕ, ◌+ℤ◌, ◌-ℤ◌, ◌*ℤ◌, ◌≤ℤ◌, ltb_ℤ}

-- FP_DECIMAL and NUM_1
abbrev pub fp_decimal : ℕ
fp_decimal = 14

abbrev pub num_1 : ℕ
num_1 = 2 ^ 14

-- The `int` that the low 32 bits of an integer stand for.
abbrev pub signed32 : ℕ → ℤ
signed32 w = if ltb w (2 ^ 31) then pos w else negsuc (2 ^ 32 - w - 1)

unfoldable pub wrap32 : ℤ → ℤ
wrap32 (pos n) = signed32 (n % 2 ^ 32)
wrap32 (negsuc n) = signed32 (2 ^ 32 - 1 - n % 2 ^ 32)

-- C's division: the quotient of the sizes, with the sign of the operands.
unfoldable pub div_trunc : ℤ → ℤ → ℤ
div_trunc (pos a) (pos b) = pos (a / b)
div_trunc (pos a) (negsuc b) = sub_ℕ 0 (a / (b + 1))
div_trunc (negsuc a) (pos b) = sub_ℕ 0 ((a + 1) / b)
div_trunc (negsuc a) (negsuc b) = pos ((a + 1) / (b + 1))

pub int_to_fp : ℤ → ℤ
unfolding wrap32 ◌*ℤ◌
int_to_fp integer = wrap32 (integer *ℤ pos num_1)

pub fp_to_int : ℤ → ℤ
unfolding div_trunc
fp_to_int decimal = div_trunc decimal (pos num_1)

pub fp_to_int_round_off : ℤ → ℤ
unfolding wrap32 div_trunc ◌+ℤ◌ ◌-ℤ◌
fp_to_int_round_off decimal =
    if ltb_ℤ decimal (pos 0)
    then div_trunc (wrap32 (decimal -ℤ pos (num_1 / 2))) (pos num_1)
    else div_trunc (wrap32 (decimal +ℤ pos (num_1 / 2))) (pos num_1)

pub add_fp_to_fp : ℤ → ℤ → ℤ
unfolding wrap32 ◌+ℤ◌
add_fp_to_fp dec_a dec_b = wrap32 (dec_a +ℤ dec_b)

pub mul_fp_to_fp : ℤ → ℤ → ℤ
unfolding wrap32 ◌*ℤ◌ div_trunc
mul_fp_to_fp dec_a dec_b = wrap32 (div_trunc (dec_a *ℤ dec_b) (pos num_1))

pub sub_fp_to_fp : ℤ → ℤ → ℤ
unfolding wrap32 ◌-ℤ◌
sub_fp_to_fp dec_a dec_b = wrap32 (dec_a -ℤ dec_b)

-- Division by 0 faults in the code; no caller divides by it.
pub div_fp_to_fp : ℤ → ℤ → ℤ
unfolding wrap32 ◌*ℤ◌ div_trunc
div_fp_to_fp dec_a dec_b = wrap32 (div_trunc (dec_a *ℤ pos num_1) dec_b)

-- The values of an `int`.
abbrev pub IsInt : ℤ → Type 0
IsInt a = (negsuc (2 ^ 31 - 1) ≤ℤ a) × (a ≤ℤ pos (2 ^ 31 - 1))

wrap32-IsInt : (a : ℤ) → IsInt (wrap32 a)
unfolding wrap32
wrap32-IsInt (pos n) = ground arith
wrap32-IsInt (negsuc n) = ground arith

-- A value that is an `int` is not changed.
wrap32_id : (a : ℤ) → IsInt a → wrap32 a ≡ a
unfolding wrap32
wrap32_id (pos n) h = ground arith
wrap32_id (negsuc n) h = ground arith

-- Every integer of the 17 bits before the point survives the way there and back, by both ways back.
fp_to_int-int_to_fp :
    (n : ℤ)
    → negsuc (2 ^ 17 - 2) ≤ℤ n
    → n ≤ℤ pos (2 ^ 17 - 1)
    → (fp_to_int (int_to_fp n) ≡ n) × (fp_to_int_round_off (int_to_fp n) ≡ n)
unfolding fp_to_int int_to_fp fp_to_int_round_off
fp_to_int-int_to_fp (pos n) lo hi = ground arith
fp_to_int-int_to_fp (negsuc n) lo hi = ground arith

-- `FP_to_int_round_off` gives a nearest integer: it is off by at most a half, where adding the half
-- does not overflow.
round_off_nearest :
    (x : ℤ)
    → negsuc (2 ^ 31 - 2 ^ 13 - 1) ≤ℤ x
    → x ≤ℤ pos (2 ^ 31 - 2 ^ 13 - 1)
    → (fp_to_int_round_off x *ℤ pos num_1 ≤ℤ x +ℤ pos (2 ^ 13))
      × (x ≤ℤ fp_to_int_round_off x *ℤ pos num_1 +ℤ pos (2 ^ 13))
unfolding fp_to_int_round_off ◌*ℤ◌
round_off_nearest (pos n) lo hi = ground arith
round_off_nearest (negsuc n) lo hi = ground arith

-- Adding and subtracting are inverse as long as the values are `int`s, also where the sum wraps.
sub-add_fp : (a b : ℤ) → IsInt a → IsInt b → sub_fp_to_fp (add_fp_to_fp a b) b ≡ a
unfolding add_fp_to_fp sub_fp_to_fp
sub-add_fp (pos a) (pos b) ha hb = ground arith
sub-add_fp (pos a) (negsuc b) ha hb = ground arith
sub-add_fp (negsuc a) (pos b) ha hb = ground arith
sub-add_fp (negsuc a) (negsuc b) ha hb = ground arith

-- One, as a fixed-point number, is neutral for multiplying and dividing.
mul-div_one :
    (a : ℤ)
    → IsInt a
    → (mul_fp_to_fp a (int_to_fp (pos 1)) ≡ a) × (div_fp_to_fp a (int_to_fp (pos 1)) ≡ a)
unfolding mul_fp_to_fp div_fp_to_fp int_to_fp
mul-div_one (pos n) h = ground arith
mul-div_one (negsuc n) h = ground arith
