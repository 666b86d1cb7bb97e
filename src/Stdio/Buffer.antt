-- ===== src/Stdio/Buffer.antt =====
-- `vsnprintf` of pintos/src/lib/stdio.c: what it leaves in its buffer.
use sogang_pint_os.Common.{
  ℕ, suc, ◌+◌, ◌-◌, ◌%◌, ◌^◌, ◌<◌, ◌≤◌, ◌≡◌, sym, ap, ◌∙◌, inl, inr, some, List, [], ◌∷◌, arith,
  ltb, leb, ◌&&◌, ◌==◌, if◌then◌else◌, length, get_or, min, Bool-cases,
}
use sogang_pint_os.Stdio.Parse.{Arg}
use sogang_pint_os.Stdio.Printf.{Aux, less_int, vsnprintf_helper, output_all, vprintf, vsnprintf}

-- Memory with the first `n` characters from address `p` on.
abbrev pub with_chars : ℕ → List ℕ → ℕ → (ℕ → ℕ) → ℕ → ℕ
with_chars p out n m a = if leb p a && ltb a (p + n) then get_or out (a - p) 0 else m a

record After (aux : Aux) (out : List ℕ) (aux' : Aux) : Type 0 where
  counted : aux'.length ≡ aux.length + length out
  moved : aux'.p ≡ aux.p + min (length out) (aux.max_length - aux.length)
  chars :
      (a : ℕ)
      → aux'.memory a
        ≡ with_chars aux.p out (min (length out) (aux.max_length - aux.length)) aux.memory a

with_chars-next :
    (p ch : ℕ) (out : List ℕ) (n : ℕ) (m : ℕ → ℕ) (a : ℕ)
    → with_chars (p + 1) out n (λ b. if b == p then ch else m b) a
      ≡ with_chars p (ch ∷ out) (suc n) m a
with_chars-next p ch out n m a = elim (Bool-cases (ltb p a)) [
  | inl e ↦ let up : a - p ≡ suc (a - (p + 1)) = ground arith in rw up (ground arith)
  | inr e ↦ let here : a - p ≡ 0 = ground arith in rw here (ground arith)
]

with_chars-none :
    (p : ℕ) (out : List ℕ) (n : ℕ) (m : ℕ → ℕ) (a : ℕ) → n ≡ 0 → with_chars p out n m a ≡ m a
with_chars-none p out n m a h = ground arith

-- What a character does while there is room, and what it does afterwards.
abbrev pushed : ℕ → Aux → Aux
pushed ch aux = record aux {
  p = aux.p + 1;
  length = aux.length + 1;
  memory = λ a. if a == aux.p then ch else aux.memory a;
}

abbrev counted_only : Aux → Aux
counted_only aux = record aux { length = aux.length + 1 }

After-pushed :
    (ch : ℕ) (out : List ℕ) (aux aux' : Aux)
    → aux.length < aux.max_length
    → After (pushed ch aux) out aux'
    → After aux (ch ∷ out) aux'
After-pushed ch out aux aux' room after = record {
  counted = omega (arith, after.counted);
  moved = omega (arith, after.moved);
  chars = λ a.
      after.chars a
      ∙ with_chars-next aux.p ch out (min (length out) (aux.max_length - (aux.length + 1)))
          aux.memory a
      ∙ ap (λ n. with_chars aux.p (ch ∷ out) n aux.memory a)
          {x = suc (min (length out) (aux.max_length - (aux.length + 1)))}
          {y = min (suc (length out)) (aux.max_length - aux.length)} (omega arith);
}

After-counted_only :
    (ch : ℕ) (out : List ℕ) (aux aux' : Aux)
    → aux.max_length ≤ aux.length
    → After (counted_only aux) out aux'
    → After aux (ch ∷ out) aux'
After-counted_only ch out aux aux' full after = record {
  counted = omega (arith, after.counted);
  moved = omega (arith, after.moved);
  chars = λ a.
      after.chars a
      ∙ with_chars-none aux.p out _ aux.memory a (omega arith)
      ∙ sym (with_chars-none aux.p (ch ∷ out) _ aux.memory a (omega arith));
}

less_int_lem : (a b : ℕ) → a < 2 ^ 31 → b < 2 ^ 31 → less_int a b ≡ ltb a b
unfolding less_int
less_int_lem a b ha hb =
    let left : (a + 2 ^ 31) % 2 ^ 32 ≡ a + 2 ^ 31 = omega (arith, ha) in
    let right : (b + 2 ^ 31) % 2 ^ 32 ≡ b + 2 ^ 31 = omega (arith, hb) in
    rw (left, right) (ground arith)

output_all_lem :
    (out : List ℕ) (aux : Aux)
    → aux.length + length out < 2 ^ 31
    → aux.max_length < 2 ^ 31
    → After aux out (output_all out aux)
unfolding output_all vsnprintf_helper
output_all_lem [] aux fits small = record {
  counted = omega arith;
  moved = omega arith;
  chars = λ a. ground arith;
}
output_all_lem (ch ∷ out) aux fits small =
    let next : (aux.length + 1) % 2 ^ 32 ≡ aux.length + 1 = omega (arith, fits) in
    let order = less_int_lem aux.length aux.max_length (omega (arith, fits)) small in
    elim (Bool-cases (ltb aux.length aux.max_length)) [
      | inl e ↦
          rw (order, e, next)
            (After-pushed ch out aux _ (ground arith)
              (output_all_lem out (pushed ch aux) (omega (arith, fits)) small))
      | inr e ↦
          rw (order, e, next)
            (After-counted_only ch out aux _ (ground arith)
              (output_all_lem out (counted_only aux) (omega (arith, fits)) small))
    ]

abbrev start : ℕ → ℕ → (ℕ → ℕ) → Aux
start buffer buf_size m = record { p = buffer; length = 0; max_length = buf_size - 1; memory = m }

-- The null byte behind the characters.
abbrev terminated : ℕ → Aux → ℕ → ℕ
terminated buf_size aux a = if ltb 0 buf_size && a == aux.p then 0 else aux.memory a

terminated_lem :
    (buffer buf_size : ℕ) (m : ℕ → ℕ) (out : List ℕ) (aux : Aux)
    → After (start buffer buf_size m) out aux
    → (a : ℕ)
    → terminated buf_size aux a ≡ (
        if buf_size == 0
        then m a
        else if a == buffer + min (length out) (buf_size - 1)
        then 0
        else with_chars buffer out (min (length out) (buf_size - 1)) m a)
terminated_lem buffer buf_size m out aux after a =
    let end : aux.p ≡ buffer + min (length out) (buf_size - 1) = omega (arith, after.moved) in
    let content : aux.memory a ≡ with_chars buffer out (min (length out) (buf_size - 1 - 0)) m a =
      after.chars a in
    elim (Bool-cases (buf_size == 0)) [
      | inl e ↦
          let none_fit : buf_size ≡ 0 = ground arith in
          rw none_fit (content ∙ with_chars-none buffer out _ m a (omega arith))
      | inr e ↦
          let same : buf_size - 1 - 0 ≡ buf_size - 1 = omega arith in
          ground
            (arith, end, content ∙ ap (λ n. with_chars buffer out (min (length out) n) m a) same)
    ]

-- Where `vprintf` gives `out`, of fewer than 2 ^ 31 characters, and for a buffer of at most 2 ^ 31 bytes,
-- `vsnprintf` returns the number of its characters, also of those for which
-- there was no room. A buffer of at least one byte holds as many of them as fit before its last byte, a
-- null byte behind them, and no byte of memory has changed elsewhere; one of no bytes is not written.
pub vsnprintf_lem :
    (buffer buf_size : ℕ) (format : List ℕ) (args : List Arg) (m : ℕ → ℕ) {out : List ℕ}
    → vprintf format args ≡ some out
    → length out < 2 ^ 31
    → buf_size ≤ 2 ^ 31
    → (m' : ℕ → ℕ) × (vsnprintf buffer buf_size format args m ≡ some (length out, m'))
      × ((a : ℕ)
          → m' a ≡ (
              if buf_size == 0
              then m a
              else if a == buffer + min (length out) (buf_size - 1)
              then 0
              else with_chars buffer out (min (length out) (buf_size - 1)) m a))
unfolding vsnprintf
vsnprintf_lem buffer buf_size format args m {out} h short room =
    let max : (buf_size - 1) % 2 ^ 32 ≡ buf_size - 1 = omega (arith, room) in
    let after =
      output_all_lem out (start buffer buf_size m) (omega (arith, short)) (omega (arith, room)) in
    (
      terminated buf_size (output_all out (start buffer buf_size m)),
      rw (h, max)
          (ap (λ n. some (n, terminated buf_size (output_all out (start buffer buf_size m))))
            (let all : (output_all out (start buffer buf_size m)).length ≡ length out =
                omega (arith, after.counted) in
              all)),
      terminated_lem buffer buf_size m out _ after,
    )
