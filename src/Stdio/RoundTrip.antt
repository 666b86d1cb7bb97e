-- ===== src/Stdio/RoundTrip.antt =====
-- Reading back what the formatted output of pintos/src/lib/stdio.c has printed, with `atoi` of
-- pintos/src/lib/stdlib.c.
use mathlib.Core.List.{append-nil}
use sogang_pint_os.Common.{
  ℕ, zero, suc, ◌-◌, ◌+◌, ◌/◌, ◌%◌, ◌^◌, ◌≤◌, ◌<◌, ◌≡◌, refl, Bool, true, false, List, [], ◌∷◌,
  arith, ◌==◌, if◌then◌else◌, get_or, some, length, Bool-cases, ltb, ◌++◌, ◌≢◌, ◌∙◌, ap, inl, inr,
}
use sogang_pint_os.Common.Int.{pos_part, neg_part, ltb_ℤ, ℤ, pos, negsuc, sub_ℕ, ◌-ℤ◌, ◌*ℤ◌}
use sogang_pint_os.FixedPoint.{wrap32}
use sogang_pint_os.Stdio.Integer.{
  sign_text, codes, isdigit, base_d, digit_loop, stored, format_integer,
}
use sogang_pint_os.Common.All.{All}
use sogang_pint_os.Stdio.Parse.{
  no_flags, next_word, parse_conversion, parse_flags, parse_digits, behind, signed_arg, word,
  signed_bits,
}
use sogang_pint_os.Stdio.Printf.{vprintf, convert}
use sogang_pint_os.Stdlib.Atoi.{atoi, skip_space, parse_sign, atoi_loop}

digit_char : (d : ℕ) → d < 10 → get_or (codes "0123456789") d 0 ≡ b'0' + d
digit_char d h = ground arith

-- The integer -v.
abbrev negated : ℕ → ℤ
negated v = sub_ℕ 0 v

negated_step :
    (v : ℕ) → v ≤ 2 ^ 31 → wrap32 (negated (v / 10) *ℤ pos 10 -ℤ pos (v % 10)) ≡ negated v
unfolding wrap32 ◌*ℤ◌ ◌-ℤ◌
negated_step v h = ground arith

is_digit : (v : ℕ) → isdigit (b'0' + v % 10) ≡ true
is_digit v = ground arith

at_digit :
    (c : ℕ) (s : List ℕ) (n : ℤ)
    → isdigit c ≡ true
    → atoi_loop (c ∷ s) n ≡ atoi_loop s (wrap32 (n *ℤ pos 10 -ℤ pos (c - b'0')))
unfolding atoi_loop
at_digit c s n h =
    ap
      (λ (b : Bool). elim b as (λ x. ℤ) [
        | true ↦ atoi_loop s (wrap32 (n *ℤ pos 10 -ℤ pos (c - b'0')))
        | false ↦ n
      ])
      h

atoi_digit :
    (v : ℕ) (out : List ℕ)
    → v ≤ 2 ^ 31
    → atoi_loop ((b'0' + v % 10) ∷ out) (negated (v / 10)) ≡ atoi_loop out (negated v)
atoi_digit v out h =
    let e : b'0' + v % 10 - b'0' ≡ v % 10 = omega arith in
    rw (at_digit (b'0' + v % 10) out (negated (v / 10)) (is_digit v), e, negated_step v h) refl

-- Reading the digits of `v` and then what was stored before is reading that behind `v`.
atoi-digit_loop :
    (fuel v cnt : ℕ) (buf : List ℕ)
    → v ≤ fuel
    → v ≤ 2 ^ 31
    → atoi_loop (digit_loop fuel base_d false v cnt buf) (pos 0) ≡ atoi_loop buf (negated v)
unfolding digit_loop
atoi-digit_loop zero v cnt buf enough h = let e : v ≡ 0 = omega arith in rw e refl
atoi-digit_loop (suc fuel) v cnt buf enough h = elim (Bool-cases (v == 0)) [
  | inl e ↦ let none_left : v ≡ 0 = ground arith in rw none_left refl
  | inr e ↦
      rw (e, digit_char (v % 10) (omega arith))
        (atoi-digit_loop fuel (v / 10) (cnt + 1) ((b'0' + v % 10) ∷ buf) (ground arith)
            (omega arith)
          ∙ atoi_digit v buf h)
]

digit_loop-digit :
    (fuel v cnt : ℕ) (buf : List ℕ)
    → All (λ c. isdigit c ≡ true) buf
    → All (λ c. isdigit c ≡ true) (digit_loop fuel base_d false v cnt buf)
unfolding digit_loop
digit_loop-digit zero v cnt buf all = all
digit_loop-digit (suc fuel) v cnt buf all = elim (Bool-cases (v == 0)) [
  | inl e ↦ rw e all
  | inr e ↦
      rw (e, digit_char (v % 10) (omega arith))
        (digit_loop-digit fuel (v / 10) (cnt + 1) ((b'0' + v % 10) ∷ buf) (is_digit v, all))
]

digit_loop-length :
    (fuel v cnt : ℕ) (buf : List ℕ)
    → v ≤ fuel
    → length buf + (if v == 0 then 0 else 1) ≤ length (digit_loop fuel base_d false v cnt buf)
unfolding digit_loop
digit_loop-length zero v cnt buf h = ground arith
digit_loop-length (suc fuel) v cnt buf h = elim (Bool-cases (v == 0)) [
  | inl e ↦ rw e (omega arith)
  | inr e ↦
      let rest =
        digit_loop-length fuel (v / 10) (cnt + 1) (get_or base_d.digits (v % 10) 0 ∷ buf)
          (ground arith) in
      rw e (ground (arith, rest))
]

stored_lem :
    (v : ℕ)
    → v ≤ 2 ^ 31
    → All (λ c. isdigit c ≡ true) (stored v base_d no_flags)
      × (stored v base_d no_flags ≢ [])
      × (atoi_loop (stored v base_d no_flags) (pos 0) ≡ negated v)
unfolding stored atoi_loop wrap32 ◌-ℤ◌ ◌*ℤ◌
stored_lem v h = elim (Bool-cases (v == 0)) [
  | inl e ↦
      let zero_value : v ≡ 0 = ground arith in
      rw (zero_value, digit_loop) ((refl, tt), (λ x. cc), refl)
  | inr e ↦
      let some_digit : 1 ≤ length (digit_loop v base_d false v 0 []) =
        ground (arith, digit_loop-length v v 0 []) in
      let full : 1 - length (digit_loop v base_d false v 0 []) ≡ 0 = omega arith in
      rw full (
        digit_loop-digit v v 0 [] tt,
        (λ x. absurd (omega (arith, ap length x))),
        atoi-digit_loop v v 0 [] (omega arith) h,
      )
]

-- What `atoi` makes of an optional '-' and digits.
skip-digit : (c : ℕ) (s : List ℕ) → isdigit c ≡ true → skip_space (c ∷ s) ≡ c ∷ s
unfolding skip_space
skip-digit c s h = ground (arith, h)

sign-digit : (c : ℕ) (s : List ℕ) → isdigit c ≡ true → parse_sign (c ∷ s) ≡ (false, c ∷ s)
unfolding parse_sign
sign-digit c s h = ground (arith, h)

atoi-digits :
    (s : List ℕ)
    → All (λ c. isdigit c ≡ true) s
    → s ≢ []
    → atoi s ≡ wrap32 (pos 0 -ℤ atoi_loop s (pos 0))
unfolding atoi
atoi-digits [] all some_digit = absurd (some_digit refl)
atoi-digits (c ∷ s) all some_digit = rw (skip-digit c s all.0, sign-digit c s all.0) refl

atoi-minus : (s : List ℕ) → atoi (b'-' ∷ s) ≡ atoi_loop s (pos 0)
unfolding atoi skip_space parse_sign
atoi-minus s = refl

printed :
    (w : ℕ)
    → vprintf (codes "%d") (word w ∷ [])
      ≡ some (
          let v = signed_bits 32 w in
          format_integer (pos_part v + neg_part v) true (ltb_ℤ v (pos 0)) base_d no_flags ++ [])
unfolding vprintf signed_arg next_word parse_conversion parse_flags parse_digits behind convert
printed w = refl

zero_sub : (n : ℕ) → 0 - n ≡ 0
zero_sub n = omega arith

plain_format :
    (v : ℕ) (negative : Bool)
    → format_integer v true negative base_d no_flags ++ []
      ≡ sign_text (if negative then b'-' else 0) ++ stored v base_d no_flags
unfolding format_integer
plain_format v true = simp (zero_sub, append-nil)
plain_format v false = simp (zero_sub, append-nil)

abbrev plain_text : ℤ → List ℕ
plain_text v =
    sign_text (if ltb_ℤ v (pos 0) then b'-' else 0)
    ++ stored (pos_part v + neg_part v) base_d no_flags

abbrev IsInt : ℤ → Type 0
IsInt (pos n) = n < 2 ^ 31
IsInt (negsuc n) = n < 2 ^ 31

signed_bits-IsInt : (w : ℕ) → IsInt (signed_bits 32 w)
unfolding signed_bits
signed_bits-IsInt w = elim (Bool-cases (ltb (w % 2 ^ 32) (2 ^ 31))) [
  | inl e ↦ rw e (ground arith)
  | inr e ↦ rw e (ground arith)
]

flip : (n : ℕ) → n < 2 ^ 31 → wrap32 (pos 0 -ℤ negated n) ≡ pos n
unfolding wrap32 ◌-ℤ◌
flip n h = ground arith

negated-suc : (n : ℕ) → negated (suc n) ≡ negsuc n
negated-suc n = ground arith

atoi-plain_text : (v : ℤ) → IsInt v → atoi (plain_text v) ≡ v
atoi-plain_text (pos n) h =
    let (all, some_digit, value) = stored_lem n (omega arith) in
    let plus : ltb (n + 0) (0 + 0) ≡ false = ground arith in
    let same : n + 0 ≡ n = omega arith in
    rw (plus, same) (atoi-digits (stored n base_d no_flags) all some_digit ∙ rw value (flip n h))
atoi-plain_text (negsuc n) h =
    let (all, some_digit, value) = stored_lem (suc n) (omega arith) in
    let minus : ltb (0 + 0) (0 + suc n) ≡ true = ground arith in
    let same : 0 + suc n ≡ suc n = omega arith in
    rw (minus, same) (atoi-minus (stored (suc n) base_d no_flags) ∙ value ∙ negated-suc n)

-- Any `int` that "%d" prints is read back by `atoi`: the conversion takes every word, and the characters
-- that it gives stand for the same `int`, the least one included.
pub atoi-vprintf :
    (w : ℕ)
    → (out : List ℕ) × (vprintf (codes "%d") (word w ∷ []) ≡ some out)
      × (atoi out ≡ signed_bits 32 w)
atoi-vprintf w = (
  plain_text (signed_bits 32 w),
  printed w ∙ ap some (plain_format _ (ltb_ℤ (signed_bits 32 w) (pos 0))),
  atoi-plain_text (signed_bits 32 w) (signed_bits-IsInt w),
)
