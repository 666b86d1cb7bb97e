-- ===== src/Stdio/Parse.antt =====
-- The arguments of a format, and `parse_conversion` of pintos/src/lib/stdio.c.
use sogang_pint_os.Common.{
  ℕ, ◌+◌, ◌-◌, ◌*◌, ◌%◌, ◌^◌, true, false, not, ◌&&◌, ◌||◌, Option, none, some, List, [], ◌∷◌, ltb,
  ◌==◌, if◌then◌else◌,
}
use sogang_pint_os.Common.Int.{ℤ, pos, negsuc, pos_part, neg_part, ltb_ℤ}
use sogang_pint_os.Common.Panic.{◌>>=◌}
use sogang_pint_os.Stdio.Integer.{
  codes, isdigit, IntType, char, short, int, intmax, long, longlong, ptrdifft, sizet, Conversion,
}

-- What `va_arg` finds: a word of 32 bits (`int`, `long`, `size_t`, a pointer), one of 64 (`intmax_t`,
-- `long long`), or a pointer to a string or null.
pub data Arg : Type 0 where
  word : ℕ → Arg
  wide : ℕ → Arg
  string : Option (List ℕ) → Arg

unfoldable pub next_word : List Arg → Option (ℕ × List Arg)
next_word (word w ∷ args) = some (w, args)
next_word args = none

next_wide : List Arg → Option (ℕ × List Arg)
next_wide (wide w ∷ args) = some (w, args)
next_wide args = none

-- A null pointer is printed as "(null)".
unfoldable pub next_string : List Arg → Option (List ℕ × List Arg)
next_string (string (some s) ∷ args) = some (s, args)
next_string (string none ∷ args) = some (codes "(null)", args)
next_string args = none

-- The integer that the low `n` bits stand for.
unfoldable pub signed_bits : ℕ → ℕ → ℤ
signed_bits n w = let v = w % 2 ^ n in if ltb v (2 ^ (n - 1)) then pos v else negsuc (2 ^ n - 1 - v)

-- The argument of a signed and of an unsigned conversion. A `size_t` is brought down by SIZE_MAX + 1,
-- which gives what the cast of a `long` gives.
unfoldable pub signed_arg : IntType → List Arg → Option (ℤ × List Arg)
unfolding next_word next_wide
signed_arg char args = do (w, args') ← next_word args; some (signed_bits 8 w, args')
signed_arg short args = do (w, args') ← next_word args; some (signed_bits 16 w, args')
signed_arg intmax args = do (w, args') ← next_wide args; some (signed_bits 64 w, args')
signed_arg longlong args = do (w, args') ← next_wide args; some (signed_bits 64 w, args')
signed_arg t args = do (w, args') ← next_word args; some (signed_bits 32 w, args')

unfoldable pub unsigned_arg : IntType → List Arg → Option (ℕ × List Arg)
unfolding next_word next_wide
unsigned_arg char args = do (w, args') ← next_word args; some (w % 2 ^ 8, args')
unsigned_arg short args = do (w, args') ← next_word args; some (w % 2 ^ 16, args')
unsigned_arg intmax args = do (w, args') ← next_wide args; some (w % 2 ^ 64, args')
unsigned_arg longlong args = do (w, args') ← next_wide args; some (w % 2 ^ 64, args')
unsigned_arg t args = do (w, args') ← next_word args; some (w % 2 ^ 32, args')

-- The flag that a character stands for.
abbrev pub with_flag : ℕ → Conversion → Option Conversion
with_flag ch c =
    if ch == b'-'
    then some (record c { minus = true })
    else if ch == b'+'
    then some (record c { plus = true })
    else if ch == b' '
    then some (record c { space = true })
    else if ch == b'#'
    then some (record c { pound = true })
    else if ch == b'0'
    then some (record c { zeros = true })
    else if ch == b'\''
    then some (record c { group = true })
    else none

-- The loop over the flag characters.
unfoldable pub parse_flags : List ℕ → Conversion → List ℕ × Conversion
parse_flags [] c = ([], c)
parse_flags (ch ∷ format) c = elim (with_flag ch c) [
  | some c' ↦ parse_flags format c'
  | none ↦ (ch ∷ format, c)
]

-- `for (; isdigit (*format); format++) n = n * 10 + *format - '0';`
unfoldable pub parse_digits : List ℕ → ℕ → List ℕ × ℕ
parse_digits [] n = ([], n)
parse_digits (ch ∷ format) n =
    if isdigit ch then parse_digits format (n * 10 + (ch - b'0')) else (ch ∷ format, n)

-- The next character is `ch`: what is behind it.
unfoldable pub behind : ℕ → List ℕ → Option (List ℕ)
behind ch [] = none
behind ch (k ∷ format) = if k == ch then some format else none

-- The field width; a negative one from the arguments is the flag MINUS and its size.
parse_width : List ℕ → List Arg → Conversion → Option (List ℕ × (List Arg × Conversion))
unfolding behind parse_digits next_word signed_bits
parse_width format args c = elim (behind b'*' format) [
  | some format' ↦ next_word args >>= λ (w, args'). some (
    format',
    (
      args',
      record c {
        width = pos_part (signed_bits 32 w) + neg_part (signed_bits 32 w);
        minus = c.minus || ltb_ℤ (signed_bits 32 w) (pos 0);
      },
    ),
  )
  | none ↦
      let (format', width) = parse_digits format 0 in
      some (format', (args, record c { width = width }))
]

abbrev not_negative : ℤ → Option ℕ
not_negative (pos n) = some n
not_negative (negsuc n) = none

-- The precision; one that is not negative clears the flag ZERO.
parse_precision : List ℕ → List Arg → Conversion → Option (List ℕ × (List Arg × Conversion))
unfolding behind parse_digits next_word signed_bits
parse_precision format args c = elim (behind b'.' format) [
  | none ↦ some (format, (args, record c { precision = none }))
  | some format' ↦ elim (behind b'*' format') [
    | some format'' ↦ next_word args >>= λ (w, args').
        let precision = not_negative (signed_bits 32 w) in
        some (
          format'',
          (
            args',
            record c {
              precision = precision;
              zeros = elim precision [ none ↦ c.zeros | some p ↦ false ];
            },
          ),
        )
    | none ↦
        let (format'', precision) = parse_digits format' 0 in
        some (format'', (args, record c { precision = some precision; zeros = false }))
  ]
]

-- The type: `two` if the character stands there twice.
twice : ℕ → List ℕ → IntType → IntType → List ℕ × IntType
twice ch [] two one = ([], one)
twice ch (k ∷ rest) two one = if k == ch then (rest, two) else (k ∷ rest, one)

parse_type : List ℕ → List ℕ × IntType
unfolding twice
parse_type [] = ([], int)
parse_type (ch ∷ format) =
    if ch == b'h'
    then twice b'h' format char short
    else if ch == b'j'
    then (format, intmax)
    else if ch == b'l'
    then twice b'l' format longlong long
    else if ch == b't'
    then (format, ptrdifft)
    else if ch == b'z'
    then (format, sizet)
    else (ch ∷ format, int)

abbrev pub no_flags : Conversion
no_flags = record {
  minus = false;
  plus = false;
  space = false;
  pound = false;
  zeros = false;
  group = false;
  width = 0;
  precision = none;
  type = int;
}

-- `parse_conversion`: what is left of the format, of the arguments, and the conversion.
unfoldable pub parse_conversion : List ℕ → List Arg → Option (List ℕ × (List Arg × Conversion))
unfolding parse_flags parse_width parse_precision parse_type
parse_conversion format args = do
  let (format₁, c) = parse_flags format no_flags
  let c₁ = record c { zeros = c.zeros && not c.minus; space = c.space && not c.plus }
  (format₂, (args₁, c₂)) ← parse_width format₁ args c₁
  (format₃, (args₂, c₃)) ← parse_precision format₂ args₁ c₂
  let (format₄, t) = parse_type format₃
  some (format₄, (args₂, record c₃ { type = t }))
