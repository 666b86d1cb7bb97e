-- ===== src/Common/Bits.antt =====
-- The binary digits of a number, and those of `&`, `|`, `^` and of the masks that the code uses.
use Prim.Native.Nat.{bit_and, bit_or, bit_xor, digits, bitwise, differ}
use Prim.Native.Nat.{bit_and-bitwise, bit_or-bitwise, bit_xor-bitwise}
use native.Mathlib.Nat.{add-zero, mul_assoc, pow-suc, pow-zero, one-le-pow}
use sogang_pint_os.Common.{
  ℕ, zero, suc, ◌+◌, ◌-◌, ◌*◌, ◌/◌, ◌%◌, ◌^◌, ◌≤◌, ◌<◌, min, max, ◌≡◌, refl, ap, arith, ltb, ◌==◌,
  if◌then◌else◌,
}

-- Digit `k` of `w`, as 0 or 1.
abbrev pub nth_bit : ℕ → ℕ → ℕ
nth_bit w zero = w % 2
nth_bit w (suc k) = nth_bit (w / 2) k

pub nth_bit-le-one : (w k : ℕ) → nth_bit w k ≤ 1
nth_bit-le-one w zero = omega arith
nth_bit-le-one w (suc k) = nth_bit-le-one (w / 2) k

pub nth_bit-zero : (k : ℕ) → nth_bit 0 k ≡ 0
nth_bit-zero zero = refl
nth_bit-zero (suc k) = nth_bit-zero k

-- Numbers below `2 ^ n` are told apart by their first `n` digits.
pub eq_of_nth_bit :
    (n a b : ℕ) → a < 2 ^ n → b < 2 ^ n → ((k : ℕ) → k < n → nth_bit a k ≡ nth_bit b k) → a ≡ b
eq_of_nth_bit zero a b ha hb same = omega arith
eq_of_nth_bit (suc n) a b ha hb same = omega (
  arith,
  same 0 (omega arith),
  eq_of_nth_bit n (a / 2) (b / 2) (omega (arith, pow-suc 2 n)) (omega (arith, pow-suc 2 n))
      (λ k h. same (suc k) (omega arith)),
)

module _ (z : ℕ → ℕ) (f : ℕ → ℕ → ℕ) where
  -- Fuel beyond the first number changes nothing.
  enough : (u v a b : ℕ) → a ≤ u → a ≤ v → digits z f u a b ≡ digits z f v a b
  enough zero zero a b hu hv = refl
  enough zero (suc v) (suc a) b hu hv = absurd (omega arith)
  enough zero (suc v) zero b hu hv = refl
  enough (suc u) v zero b hu hv = elim v as (λ w. z b ≡ digits z f w 0 b) [
    | zero ↦ refl
    | suc w ↦ refl
  ]
  enough (suc u) zero (suc a) b hu hv = absurd (omega arith)
  enough (suc u) (suc v) (suc a) b hu hv =
      omega (arith, enough u v (suc a / 2) (b / 2) (omega arith) (omega arith))

  low_digit :
      ((b : ℕ) → z b ≡ z (b / 2) * 2 + f 0 (b % 2))
      → (a b : ℕ) → bitwise z f a b ≡ bitwise z f (a / 2) (b / 2) * 2 + f (a % 2) (b % 2)
  low_digit out zero b = out b
  low_digit out (suc a) b =
      omega (arith, enough a (suc a / 2) (suc a / 2) (b / 2) (omega arith) (omega arith))

pub bit_and_low : (a b : ℕ) → bit_and a b ≡ bit_and (a / 2) (b / 2) * 2 + min (a % 2) (b % 2)
bit_and_low a b = simp bit_and-bitwise (low_digit (λ y. 0) min (λ y. omega arith) a b)

pub bit_or_low : (a b : ℕ) → bit_or a b ≡ bit_or (a / 2) (b / 2) * 2 + max (a % 2) (b % 2)
bit_or_low a b = simp bit_or-bitwise (low_digit (λ y. y) max (λ y. omega arith) a b)

differ_lem : (x y : ℕ) → x < 2 → y < 2 → differ x y ≡ (x + y) % 2
differ_lem zero y hx hy = omega arith
differ_lem (suc zero) zero hx hy = refl
differ_lem (suc zero) (suc y) hx hy = omega arith
differ_lem (suc (suc x)) y hx hy = absurd (omega arith)

bit_xor_low : (a b : ℕ) → bit_xor a b ≡ bit_xor (a / 2) (b / 2) * 2 + (a % 2 + b % 2) % 2
bit_xor_low a b =
    rw (← differ_lem (a % 2) (b % 2) (omega arith) (omega arith))
      (simp bit_xor-bitwise (low_digit (λ y. y) differ (λ y. omega arith) a b))

pub nth_bit-bit_and : (a b k : ℕ) → nth_bit (bit_and a b) k ≡ min (nth_bit a k) (nth_bit b k)
nth_bit-bit_and a b zero = omega (arith, bit_and_low a b)
nth_bit-bit_and a b (suc k) =
    let half : bit_and a b / 2 ≡ bit_and (a / 2) (b / 2) = omega (arith, bit_and_low a b) in
    rw half (nth_bit-bit_and (a / 2) (b / 2) k)

pub nth_bit-bit_or : (a b k : ℕ) → nth_bit (bit_or a b) k ≡ max (nth_bit a k) (nth_bit b k)
nth_bit-bit_or a b zero = omega (arith, bit_or_low a b)
nth_bit-bit_or a b (suc k) =
    let half : bit_or a b / 2 ≡ bit_or (a / 2) (b / 2) = omega (arith, bit_or_low a b) in
    rw half (nth_bit-bit_or (a / 2) (b / 2) k)

pub nth_bit-bit_xor : (a b k : ℕ) → nth_bit (bit_xor a b) k ≡ (nth_bit a k + nth_bit b k) % 2
nth_bit-bit_xor a b zero = omega (arith, bit_xor_low a b)
nth_bit-bit_xor a b (suc k) =
    let half : bit_xor a b / 2 ≡ bit_xor (a / 2) (b / 2) = omega (arith, bit_xor_low a b) in
    rw half (nth_bit-bit_xor (a / 2) (b / 2) k)

-- `1 << j` has the one digit `j`.
pub nth_bit-pow : (j k : ℕ) → nth_bit (2 ^ j) k ≡ (if j == k then 1 else 0)
nth_bit-pow zero zero = refl
nth_bit-pow zero (suc k) = ground (arith, nth_bit-zero k)
nth_bit-pow (suc j) zero = ground (arith, pow-suc 2 j)
nth_bit-pow (suc j) (suc k) =
    let half : 2 ^ suc j / 2 ≡ 2 ^ j = omega (arith, pow-suc 2 j) in
    rw half (ground (arith, nth_bit-pow j k))

-- `2 ^ n - 1` has the digits below `n`.
pub nth_bit-ones : (n k : ℕ) → nth_bit (2 ^ n - 1) k ≡ (if ltb k n then 1 else 0)
nth_bit-ones zero k = ground (arith, nth_bit-zero k)
nth_bit-ones (suc n) zero = ground (arith, pow-suc 2 n, one-le-pow n 2 (omega arith))
nth_bit-ones (suc n) (suc k) =
    let half : (2 ^ suc n - 1) / 2 ≡ 2 ^ n - 1 =
      omega (arith, pow-suc 2 n, one-le-pow n 2 (omega arith)) in
    rw half (ground (arith, nth_bit-ones n k))

-- The complement in `n` digits.
pub nth_bit-complement :
    (n w k : ℕ) → w < 2 ^ n → k < n → nth_bit (2 ^ n - 1 - w) k ≡ 1 - nth_bit w k
nth_bit-complement zero w k hw hk = absurd (omega arith)
nth_bit-complement (suc n) w zero hw hk = omega (arith, pow-suc 2 n)
nth_bit-complement (suc n) w (suc k) hw hk =
    let half : (2 ^ suc n - 1 - w) / 2 ≡ 2 ^ n - 1 - w / 2 = omega (arith, pow-suc 2 n) in
    rw half (nth_bit-complement n (w / 2) k (omega (arith, pow-suc 2 n)) (omega arith))

bit_and-none : (n a : ℕ) → a ≤ n → bit_and a 0 ≡ 0
bit_and-none n zero h = refl
bit_and-none zero (suc a) h = absurd (omega arith)
bit_and-none (suc n) (suc a) h =
    omega (arith, bit_and_low (suc a) 0, bit_and-none n (suc a / 2) (omega arith))

-- A test by a mask reads one digit.
pub bit_and-pow : (w k : ℕ) → bit_and w (2 ^ k) ≡ nth_bit w k * 2 ^ k
bit_and-pow w zero = omega (arith, bit_and_low w 1, bit_and-none (w / 2) (w / 2) (omega arith))
bit_and-pow w (suc k) =
    let half : 2 ^ suc k / 2 ≡ 2 ^ k = omega (arith, pow-suc 2 k) in
    omega (
      arith,
      bit_and_low w (2 ^ suc k),
      pow-suc 2 k,
      bit_and-pow (w / 2) k,
      ap (bit_and (w / 2)) half,
      ap (λ (t : ℕ). nth_bit (w / 2) k * t) (pow-suc 2 k),
    )

-- The results are as wide as the operands.
pub bit_or-lt : (n a b : ℕ) → a < 2 ^ n → b < 2 ^ n → bit_or a b < 2 ^ n
bit_or-lt zero a b ha hb =
    let e : a ≡ 0 = omega arith in let e' : b ≡ 0 = omega arith in rw (e, e') (omega arith)
bit_or-lt (suc n) a b ha hb = omega (
  arith,
  bit_or_low a b,
  pow-suc 2 n,
  bit_or-lt n (a / 2) (b / 2) (omega (arith, pow-suc 2 n)) (omega (arith, pow-suc 2 n)),
)

pub bit_xor-lt : (n a b : ℕ) → a < 2 ^ n → b < 2 ^ n → bit_xor a b < 2 ^ n
bit_xor-lt zero a b ha hb =
    let e : a ≡ 0 = omega arith in let e' : b ≡ 0 = omega arith in rw (e, e') (omega arith)
bit_xor-lt (suc n) a b ha hb = omega (
  arith,
  bit_xor_low a b,
  pow-suc 2 n,
  bit_xor-lt n (a / 2) (b / 2) (omega (arith, pow-suc 2 n)) (omega (arith, pow-suc 2 n)),
)

bit_and-le_fuel : (n a b : ℕ) → a ≤ n → bit_and a b ≤ a
bit_and-le_fuel n zero b h = rw bit_and-bitwise (omega arith)
bit_and-le_fuel zero (suc a) b h = absurd (omega arith)
bit_and-le_fuel (suc n) (suc a) b h =
    omega (arith, bit_and_low (suc a) b, bit_and-le_fuel n (suc a / 2) (b / 2) (omega arith))

pub bit_and-le : (a b : ℕ) → bit_and a b ≤ a
bit_and-le a b = bit_and-le_fuel a a b (omega arith)

bit_and-le_right_fuel : (n a b : ℕ) → a ≤ n → bit_and a b ≤ b
bit_and-le_right_fuel n zero b h = rw bit_and-bitwise (omega arith)
bit_and-le_right_fuel zero (suc a) b h = absurd (omega arith)
bit_and-le_right_fuel (suc n) (suc a) b h =
    omega (arith, bit_and_low (suc a) b, bit_and-le_right_fuel n (suc a / 2) (b / 2) (omega arith))

pub bit_and-le_right : (a b : ℕ) → bit_and a b ≤ b
bit_and-le_right a b = bit_and-le_right_fuel a a b (omega arith)

pub pow_add : (b m n : ℕ) → b ^ (m + n) ≡ b ^ m * b ^ n
pow_add b m zero = rw (add-zero, pow-zero) (omega arith)
pow_add b m (suc n) =
    let up : m + suc n ≡ suc (m + n) = omega arith in
    rw (up, pow-suc b (m + n), pow_add b m n, pow-suc b n, mul_assoc)
