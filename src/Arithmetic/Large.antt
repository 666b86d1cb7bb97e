-- ===== src/Arithmetic/Large.antt =====
-- `nlz` and `udiv64` of pintos/src/lib/arithmetic.c where the divisor has more than 32 bits.
use mathlib.Core.Path.{subst}
use native.Mathlib.Nat.{
  mul_assoc, pow-suc, lt_of_mul-lt-mul_right, div-eq_of_lt, le-div_iff_mul-le, div-lt_iff_lt-mul,
  div-div-eq-div-mul, mul-div-mul_right, div-mul-le_self, lt-div-mul-add, mul-le-mul_left,
  mul-le-mul_right, mul-lt-mul_of_pos_right, one-le-pow, pow-le-pow_right,
}
use sogang_pint_os.Common.{
  ℕ, zero, suc, ◌+◌, ◌-◌, ◌*◌, ◌/◌, ◌%◌, ◌^◌, ◌≤◌, ◌<◌, ◌≡◌, refl, sym, ap, ◌∙◌, some, ltb, leb,
  if◌then◌else◌, arith, lt→ltb, Bool-cases, inl, inr, true, false,
}
use native.Mathlib.Decide.{dec_lt}
use sogang_pint_os.Common.Bits.{pow_add}
use sogang_pint_os.Arithmetic.{divl, shift_step, nlz, corrected, udiv64_large}
use sogang_pint_os.Arithmetic.Small.{divl_lem}

-- A word of 32 bits that is `x` moved up by a number of places, and at least `limit`.
record Shifted (x bound limit : ℕ) (s : ℕ × ℕ) : Type 0 where
  places : s.0 ≤ bound
  value : s.1 ≡ x * 2 ^ s.0
  above : limit ≤ s.1
  below : s.1 < 2 ^ 32

shift_step_lem :
    (x bound limit limit' m k : ℕ) (s : ℕ × ℕ)
    → limit' ≡ m + 1
    → limit' * 2 ^ k ≡ 2 ^ 32
    → limit' ≤ limit * 2 ^ k
    → Shifted x bound limit s
    → Shifted x (bound + k) limit' (shift_step m k s)
shift_step_lem x bound limit limit' m k (n, y) em fits grows sh = elim (Bool-cases (leb y m)) [
  | inl e ↦
      let small : y < limit' = ground arith in
      let fit : y * 2 ^ k < 2 ^ 32 =
        omega (arith, fits, mul-lt-mul_of_pos_right small (one-le-pow k 2 (omega arith))) in
      let low : limit' ≤ y * 2 ^ k = omega (arith, grows, mul-le-mul_right (2 ^ k) sh.above) in
      let whole : y * 2 ^ k % 2 ^ 32 ≡ y * 2 ^ k = omega arith in
      rw (e, whole)
        (record {
          places = omega arith;
          value = ap (λ (t : ℕ). t * 2 ^ k) sh.value ∙ rw (pow_add, mul_assoc);
          above = low;
          below = fit;
        })
  | inr e ↦
      rw e
        (record { places = omega arith; value = sh.value; above = ground arith; below = sh.below })
]

last_step :
    (x : ℕ) (s : ℕ × ℕ) (r : ℕ)
    → Shifted x 30 (2 ^ 30) s
    → r ≡ (if leb s.1 2147483647 then s.0 + 1 else s.0)
    → (r ≤ 31) × (2 ^ 31 ≤ x * 2 ^ r) × (x * 2 ^ r < 2 ^ 32)
last_step x (n, y) r sh e = elim (Bool-cases (leb y 2147483647)) [
  | inl small ↦
      let count : r ≡ suc n = e ∙ rw small (omega arith) in
      let double : x * 2 ^ suc n ≡ y * 2 = rw (pow-suc, ← mul_assoc, sh.value) in
      let bound : y < 2 ^ 31 = ground arith in
      rw (count, double) (omega arith, omega arith, omega arith)
  | inr large ↦
      let count : r ≡ n = e ∙ rw large in
      let bound : 2 ^ 31 ≤ y = ground arith in rw (count, ← sh.value) (omega arith, bound, sh.below)
]

nlz_lem :
    (x : ℕ)
    → 0 < x
    → x < 2 ^ 32
    → (nlz x ≤ 31) × (2 ^ 31 ≤ x * 2 ^ nlz x) × (x * 2 ^ nlz x < 2 ^ 32)
unfolding nlz
nlz_lem x pos lt =
    let a =
      shift_step_lem x 0 1 (2 ^ 16) 65535 16 (0, x) refl refl (omega arith)
        (record { places = omega arith; value = omega arith; above = omega arith; below = lt }) in
    let b = shift_step_lem x 16 (2 ^ 16) (2 ^ 24) 16777215 8 _ refl refl (omega arith) a in
    let c = shift_step_lem x 24 (2 ^ 24) (2 ^ 28) 268435455 4 _ refl refl (omega arith) b in
    let d = shift_step_lem x 28 (2 ^ 28) (2 ^ 30) 1073741823 2 _ refl refl (omega arith) c in
    last_step x _ (nlz x) d refl

few_left :
    (t r w : ℕ) → t * suc r < 2 ^ 33 → 2 ^ 31 * suc r ≤ w → 1 ≤ r → suc r ≤ 2 ^ 32 → (t + 1) * r ≤ w
few_left t zero w few size wide le = omega arith
few_left t (suc zero) w few size wide le = omega arith
few_left t (suc (suc zero)) w few size wide le = omega arith
few_left t (suc (suc (suc zero))) w few size wide le = omega arith
few_left t (suc (suc (suc (suc r)))) w few size wide le = omega arith

-- What a quotient bound leaves over: `t * (v * q)` is a 64-bit word.
left_over :
    (t v q : ℕ) → t * (v * q) < 2 ^ 64 → 2 ^ 31 ≤ v → 2 ≤ q → q ≤ 2 ^ 32 → (t + 1) * (q - 1) ≤ v * q
left_over t v zero h top wide le = absurd (omega arith)
left_over t v (suc r) h top wide le =
    let scaled : t * suc r * 2 ^ 31 < 2 ^ 64 =
      lt_of_le-lt (mul-le-mul_left (t * suc r) top)
        (subst (λ z. z < 2 ^ 64) (mul_swap t v (suc r)) h) in
    let few : t * suc r < 2 ^ 33 = omega arith in
    let size : 2 ^ 31 * suc r ≤ v * suc r = mul-le-mul_right (suc r) top in
    subst (λ z. (t + 1) * z ≤ v * suc r) (pred r)
      (few_left t r (v * suc r) few size (omega arith) le)
  where
    pred : (r : ℕ) → r ≡ suc r - 1
    pred r = omega arith

    mul_swap : (a b c : ℕ) → a * (b * c) ≡ a * c * b
    mul_swap a b c = omega arith

    lt_of_le-lt : {a b c : ℕ} → a ≤ b → b < c → a < c
    lt_of_le-lt h k = omega arith

-- The quotient by the divisor's upper digits is at most one too large.
estimate :
    (n d q v : ℕ)
    → n < 2 ^ 64
    → 2 ≤ q
    → q ≤ 2 ^ 32
    → v ≡ d / q
    → 2 ^ 31 ≤ v
    → (n / d ≤ n / (v * q)) × (n / (v * q) ≤ n / d + 1)
estimate n d q v hn wide le ev top =
    let t = n / d in
    let under : v * q ≤ d = subst (λ z. z * q ≤ d) (sym ev) (div-mul-le_self d q) in
    let over : d < v * q + q = subst (λ z. d < z * q + q) (sym ev) (lt-div-mul-add (omega arith)) in
    let some_v : 1 ≤ v * q = omega (arith, mul-le-mul_right q top) in
    let pos : 0 < d = omega arith in
    let exact : t * d ≤ n = div-mul-le_self n d in
    let next : n < t * d + d = lt-div-mul-add pos in
    let low : t * (v * q) ≤ n = omega (arith, mul-le-mul_left t under) in
    let rest = left_over t v q (omega arith) top wide le in
    let above : (t + 1) * d ≤ (t + 1) * (v * q + (q - 1)) = mul-le-mul_left (t + 1) (omega arith) in
    (
      (le-div_iff_mul-le (omega arith)).1 low,
      le_of_lt-two _ t ((div-lt_iff_lt-mul some_v).1 (omega arith)),
    )
  where
    le_of_lt-two : (a b : ℕ) → a < b + 2 → a ≤ b + 1
    le_of_lt-two a b h = omega arith

-- The last step takes the one off.
corrected_lem :
    (n d q t' : ℕ)
    → n < 2 ^ 64
    → 0 < d
    → n / d ≡ suc t'
    → n / d ≤ q
    → q ≤ n / d + 1
    → corrected n d q ≡ n / d
unfolding corrected
corrected_lem n d q t' hn pos et le ge =
    let exact : suc t' * d ≤ n = subst (λ z. z * d ≤ n) et (div-mul-le_self n d) in
    let next : n < suc t' * d + d = subst (λ z. n < z * d + d) et (lt-div-mul-add pos) in
    let size : suc t' ≤ n = omega (arith, mul-le-mul_left (suc t') pos) in
    elim (dec_lt (n / d) q) [
      | yes above ↦
          let one_less : (q + (2 ^ 64 - 1)) % 2 ^ 64 ≡ suc t' = omega (arith, et) in
          let rest : (n + (2 ^ 64 - suc t' * d % 2 ^ 64)) % 2 ^ 64 ≡ n - suc t' * d = omega arith in
          let test : ltb (n - suc t' * d) d ≡ true = lt→ltb _ _ (omega arith) in
          rw (one_less, rest, test) (sym et)
      | no below ↦
          let one_less : (q + (2 ^ 64 - 1)) % 2 ^ 64 ≡ t' = omega (arith, et) in
          let rest : (n + (2 ^ 64 - t' * d % 2 ^ 64)) % 2 ^ 64 ≡ n - t' * d = omega arith in
          let test : ltb (n - t' * d) d ≡ false = le→ltb_false _ _ (omega arith) in
          rw (one_less, rest, test) (omega arith)
    ]
  where
    le→ltb_false : (a b : ℕ) → b ≤ a → ltb a b ≡ false
    le→ltb_false a b h = ground arith

-- The divisor's upper digits, as the code computes them.
record Upper (d s : ℕ) : Type 0 where
  places : s ≤ 31
  digits : d * 2 ^ s % 2 ^ 64 / 2 ^ 32 ≡ d / 2 ^ (32 - s)
  top : 2 ^ 31 ≤ d / 2 ^ (32 - s)

upper_lem : (d s : ℕ) → 2 ^ 32 ≤ d → d < 2 ^ 64 → s ≡ nlz (d / 2 ^ 32) → Upper d s
upper_lem d s big hd es =
    let (places, low, high) =
      subst (λ z. (z ≤ 31) × (2 ^ 31 ≤ d / 2 ^ 32 * 2 ^ z) × (d / 2 ^ 32 * 2 ^ z < 2 ^ 32)) (sym es)
        (nlz_lem (d / 2 ^ 32) (omega arith) (omega arith)) in
    let p = 2 ^ s in
    let q = 2 ^ (32 - s) in
    let rejoined : 32 - s + s ≡ 32 = omega arith in
    let width : q * p ≡ 2 ^ 32 = sym (pow_add 2 (32 - s) s) ∙ ap (λ e. 2 ^ e) rejoined in
    let pos : 0 < p = one-le-pow s 2 (omega arith) in
    let small : d / 2 ^ 32 < q = lt_of_mul-lt-mul_right p (lt_of_lt-eq high (sym width)) in
    let bound : (d / 2 ^ 32 + 1) * p ≤ q * p = mul-le-mul_right p (omega arith) in
    let fits : d * p < 2 ^ 64 = omega (
      arith,
      width,
      mul-lt-mul_of_pos_right {m = d} {n = (d / 2 ^ 32 + 1) * 2 ^ 32} (omega arith) pos,
    ) in
    let whole : d * p % 2 ^ 64 ≡ d * p = omega arith in
    let scaled : d / 2 ^ 32 * 2 ^ 32 * p ≤ d * p = mul-le-mul_right p (omega arith) in
    let same : d * p / 2 ^ 32 ≡ d / q =
      ap (λ z. d * p / z) (sym width) ∙ mul-div-mul_right d q pos in
    record {
      places = places;
      digits = ap (λ z. z / 2 ^ 32) whole ∙ same;
      top = subst (λ z. 2 ^ 31 ≤ z) same (omega arith);
    }
  where
    lt_of_lt-eq : {a b c : ℕ} → a < b → b ≡ c → a < c
    lt_of_lt-eq h e = omega arith

pub udiv64_large_lem :
    (n d : ℕ) → n < 2 ^ 64 → 2 ^ 32 ≤ d → d < 2 ^ 64 → udiv64_large n d ≡ some (n / d)
unfolding udiv64_large
udiv64_large_lem n d hn big hd = elim (dec_lt n d) [
  | yes below ↦ rw (udiv64_large, lt→ltb n d below, div-eq_of_lt below)
  | no above ↦
      let s = nlz (d / 2 ^ 32) in
      let q = 2 ^ (32 - s) in
      let v = d / q in
      let u = upper_lem d s big hd refl in
      let not_below : ltb n d ≡ false = ground arith in
      let run : divl (n / 2) v ≡ some (n / 2 / v) =
        divl_lem (n / 2) v (omega (arith, u.top)) (omega (arith, u.top)) in
      let up : 32 - s ≡ suc (31 - s) = omega (arith, u.places) in
      let double : q ≡ 2 ^ (31 - s) * 2 = ap (λ e. 2 ^ e) up ∙ pow-suc 2 (31 - s) in
      let join : 2 * (v * 2 ^ (31 - s)) ≡ v * q =
        sym (ap (λ z. v * z) double ∙ twice v (2 ^ (31 - s))) in
      let whole : n / 2 / v / 2 ^ (31 - s) ≡ n / (v * q) =
        div-div-eq-div-mul (n / 2) v (2 ^ (31 - s))
        ∙ div-div-eq-div-mul n 2 (v * 2 ^ (31 - s))
        ∙ ap (λ z. n / z) join in
      let e =
        estimate n d q v hn (omega (arith, double, one-le-pow (31 - s) 2 (omega arith)))
          (pow-le-pow_right {n = 2} (omega arith) {j = 32} (omega arith)) refl u.top in
      rw (udiv64_large, not_below, u.digits, run, whole)
        (ap some (
          corrected_lem n d (n / (v * q)) (n / d - 1) hn (omega arith)
            (quotient_positive (omega arith) (omega arith)) e.0 e.1))
]
  where
    twice : (v w : ℕ) → v * (w * 2) ≡ 2 * (v * w)
    twice v w = omega arith

    quotient_positive : 0 < d → d ≤ n → n / d ≡ suc (n / d - 1)
    quotient_positive pos le =
        omega (arith, (le-div_iff_mul-le {x = 1} {y = n} pos).1 (omega arith))
