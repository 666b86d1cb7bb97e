-- ===== src/Arithmetic.antt =====
-- 64-bit division: pintos/src/lib/arithmetic.c. An unsigned word is a number below 2 ^ 64 or 2 ^ 32, and
-- a signed one an integer; the results of the operations are brought back into their types, as the
-- compiled code does. `none` is the divide error of the `divl` instruction.
pub mod Small
pub mod Large
pub mod Signed
use sogang_pint_os.Common.{
  ℕ, zero, suc, ◌+◌, ◌-◌, ◌*◌, ◌/◌, ◌%◌, ◌^◌, ◌≡◌, refl, Bool, true, false, Option, none, some, ltb,
  leb, ◌==◌, if◌then◌else◌, bool_eq,
}
use sogang_pint_os.Common.Int.{ℤ, pos, negsuc, ◌-ℤ◌, ◌*ℤ◌, ltb_ℤ}
use sogang_pint_os.FixedPoint.{wrap32}

-- Division by 0 or to more than 32 bits traps.
pub divl : ℕ → ℕ → Option ℕ
divl n d = if d == 0 then none else if ltb (n / d) (2 ^ 32) then some (n / d) else none

-- `if (x <= LIMIT) { n += K; x <<= K; }`
abbrev pub shift_step : ℕ → ℕ → ℕ × ℕ → ℕ × ℕ
shift_step limit k (n, x) = if leb x limit then (n + k, x * 2 ^ k % 2 ^ 32) else (n, x)

pub nlz : ℕ → ℕ
nlz x =
    let a = shift_step 65535 16 (0, x) in
    let b = shift_step 16777215 8 a in
    let c = shift_step 268435455 4 b in
    let d = shift_step 1073741823 2 c in if leb d.1 2147483647 then d.0 + 1 else d.0

-- The branch for a divisor below 2 ^ 32.
pub udiv64_small : ℕ → ℕ → Option ℕ
udiv64_small n d =
    let b = 2 ^ 32 in
    let n1 = n / 2 ^ 32 in
    let n0 = n % 2 ^ 32 in
    elim (divl ((b * (n1 % d) + n0) % 2 ^ 64) d) [
      | none ↦ none
      | some q ↦ some ((q + b * (n1 / d)) % 2 ^ 64)
    ]

-- The last step for a larger one: `n - (q - 1) * d < d ? q - 1 : q`, on 64-bit words.
pub corrected : ℕ → ℕ → ℕ → ℕ
corrected n d q =
    let less = (q + (2 ^ 64 - 1)) % 2 ^ 64 in
    if ltb ((n + (2 ^ 64 - less * d % 2 ^ 64)) % 2 ^ 64) d then less else q

pub udiv64_large : ℕ → ℕ → Option ℕ
udiv64_large n d =
    if ltb n d
    then some 0
    else let s = nlz (d / 2 ^ 32) in
      elim (divl (n / 2) (d * 2 ^ s % 2 ^ 64 / 2 ^ 32)) [
        | none ↦ none
        | some q ↦ some (corrected n d (q / 2 ^ (31 - s)))
      ]

pub udiv64 : ℕ → ℕ → Option ℕ
udiv64 n d = if d / 2 ^ 32 == 0 then udiv64_small n d else udiv64_large n d

-- The result is a `uint32_t`.
pub umod64 : ℕ → ℕ → Option ℕ
umod64 n d = elim (udiv64 n d) [
  | none ↦ none
  | some q ↦ some ((n + (2 ^ 64 - d * q % 2 ^ 64)) % 2 ^ 64 % 2 ^ 32)
]

-- The `int64_t` that 64 bits stand for, and the one that an integer becomes.
abbrev pub signed64 : ℕ → ℤ
signed64 w = if ltb w (2 ^ 63) then pos w else negsuc (2 ^ 64 - w - 1)

-- The bits of an integer, and the size of a signed word as an unsigned one.
abbrev pub word64 : ℤ → ℕ
word64 (pos n) = n % 2 ^ 64
word64 (negsuc n) = 2 ^ 64 - 1 - n % 2 ^ 64

abbrev pub abs64 : ℤ → ℕ
abs64 n = if ltb_ℤ n (pos 0) then (2 ^ 64 - word64 n) % 2 ^ 64 else word64 n

pub sdiv64 : ℤ → ℤ → Option ℤ
sdiv64 n d = elim (udiv64 (abs64 n) (abs64 d)) [
  | none ↦ none
  | some q_abs ↦ some (
      if bool_eq (ltb_ℤ n (pos 0)) (ltb_ℤ d (pos 0))
      then signed64 q_abs
      else signed64 ((2 ^ 64 - q_abs) % 2 ^ 64))
]

-- The result is an `int32_t`.
unfoldable smod64 : ℤ → ℤ → Option ℤ
unfolding wrap32 ◌-ℤ◌ ◌*ℤ◌
smod64 n d = elim (sdiv64 n d) [ none ↦ none | some q ↦ some (wrap32 (n -ℤ d *ℤ q)) ]

-- The routines that GCC calls.
unfoldable divdi3 : ℤ → ℤ → Option ℤ
divdi3 n d = sdiv64 n d

unfoldable moddi3 : ℤ → ℤ → Option ℤ
moddi3 n d = smod64 n d

unfoldable udivdi3 : ℕ → ℕ → Option ℕ
udivdi3 n d = udiv64 n d

unfoldable umoddi3 : ℕ → ℕ → Option ℕ
umoddi3 n d = umod64 n d
