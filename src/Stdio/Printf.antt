-- ===== src/Stdio/Printf.antt =====
-- `__vprintf` of pintos/src/lib/stdio.c and the functions that stand on it.
use Prim.Native.String.{String}
use sogang_pint_os.Common.{
  ℕ, zero, suc, ◌+◌, ◌-◌, ◌/◌, ◌%◌, ◌^◌, min, Bool, true, false, not, ◌&&◌, ◌||◌, Option, none,
  some, List, [], ◌∷◌, ◌++◌, ltb, leb, ◌==◌, if◌then◌else◌, length,
}
use sogang_pint_os.Common.Int.{pos, pos_part, neg_part, ltb_ℤ}
use sogang_pint_os.Common.Panic.{◌>>=◌}
use sogang_pint_os.Stdio.Integer.{
  codes, isprint, Conversion, IntegerBase, base_d, base_o, base_x, base_upper_x, format_integer,
  format_string,
}
use sogang_pint_os.Stdio.Parse.{
  Arg, word, wide, string, next_word, next_string, signed_arg, unsigned_arg, no_flags, behind,
  parse_conversion,
}

-- The cases of `switch (*format)`: the output and the arguments that are left.
signed_conversion : Conversion → List Arg → Option (List ℕ × List Arg)
unfolding signed_arg format_integer
signed_conversion c args = do
  (v, args') ← signed_arg c.type args
  some (format_integer (pos_part v + neg_part v) true (ltb_ℤ v (pos 0)) base_d c, args')

unsigned_conversion : IntegerBase → Conversion → List Arg → Option (List ℕ × List Arg)
unfolding unsigned_arg format_integer
unsigned_conversion b c args = do
  (v, args') ← unsigned_arg c.type args
  some (format_integer v false false b c, args')

-- `strnlen (s, c.precision)` characters of a string.
abbrev limited : Option ℕ → List ℕ → List ℕ
limited none s = s
limited (some zero) s = []
limited (some (suc n)) [] = []
limited (some (suc n)) (ch ∷ s) = ch ∷ limited (some n) s

-- "<<no %c in kernel>>" for the conversions with no support, "<<no %c conversion>>" for others.
abbrev refusal : ℕ → String → List ℕ
refusal ch reason = codes "<<no %" ++ (ch ∷ codes reason)

abbrev is_unsupported : ℕ → Bool
is_unsupported ch =
    ch == b'f' || (ch == b'e' || (ch == b'E' || (ch == b'g' || (ch == b'G' || ch == b'n'))))

unfoldable pub convert : ℕ → Conversion → List Arg → Option (List ℕ × List Arg)
unfolding signed_conversion unsigned_conversion next_word next_string format_integer format_string
convert ch c args =
    if ch == b'd' || ch == b'i'
    then signed_conversion c args
    else if ch == b'o'
    then unsigned_conversion base_o c args
    else if ch == b'u'
    then unsigned_conversion base_d c args
    else if ch == b'x'
    then unsigned_conversion base_x c args
    else if ch == b'X'
    then unsigned_conversion base_upper_x c args
    else if ch == b'c'
    then (next_word args >>= λ (w, args'). some (format_string (w % 2 ^ 8 ∷ []) c, args'))
    else if ch == b's'
    then (next_string args >>= λ (s, args'). some (format_string (limited c.precision s) c, args'))
    else if ch == b'p'
    then (next_word args >>= λ (w, args').
        let c' = record no_flags {
          pound = true;
          width = c.width;
          precision = c.precision;
          type = c.type;
        } in
        some (format_integer (w % 2 ^ 32) false false base_x c', args'))
    else if is_unsupported ch
    then some (refusal ch " in kernel>>", args)
    else some (refusal ch " conversion>>", args)

-- The loop of `__vprintf`, on fuel: a round takes a character of the format at least.
vprintf_loop : ℕ → List ℕ → List Arg → Option (List ℕ)
vprintf_loop zero format args = none
vprintf_loop (suc fuel) [] args = some []
vprintf_loop (suc fuel) (ch ∷ format) args =
    let literal = vprintf_loop fuel format args >>= λ out. some (ch ∷ out) in
    let conversion = parse_conversion format args >>= λ (format', (args', c)). elim format' [
      | [] ↦ none
      | ch' ∷ rest ↦ convert ch' c args' >>= λ (out, args'').
          vprintf_loop fuel rest args'' >>= λ outs. some (out ++ outs)
    ] in
    if not (ch == b'%') then literal else elim (behind b'%' format) [
      | some format' ↦ vprintf_loop fuel format' args >>= λ out. some (b'%' ∷ out)
      | none ↦ conversion
    ]

unfoldable pub vprintf : List ℕ → List Arg → Option (List ℕ)
unfolding vprintf_loop
vprintf format args = vprintf_loop (length format + 1) format args

-- `struct vsnprintf_aux`, with the memory that `p` points into. `length` and `max_length` are of type
-- `int`, kept as words of 32 bits.
pub record Aux : Type 0 where
  pub p : ℕ
  pub length : ℕ
  pub max_length : ℕ
  pub memory : ℕ → ℕ

-- The comparison of two words of type `int`.
unfoldable pub less_int : ℕ → ℕ → Bool
less_int a b = ltb ((a + 2 ^ 31) % 2 ^ 32) ((b + 2 ^ 31) % 2 ^ 32)

unfoldable pub vsnprintf_helper : ℕ → Aux → Aux
vsnprintf_helper ch aux =
    if less_int aux.length aux.max_length
    then record aux {
      p = aux.p + 1;
      length = (aux.length + 1) % 2 ^ 32;
      memory = λ a. if a == aux.p then ch else aux.memory a;
    }
    else record aux { length = (aux.length + 1) % 2 ^ 32 }

-- The characters one after the other.
unfoldable pub output_all : List ℕ → Aux → Aux
output_all [] aux = aux
output_all (ch ∷ chs) aux = output_all chs (vsnprintf_helper ch aux)

-- `vsnprintf`: what it returns, as a word, and memory.
unfoldable pub vsnprintf : ℕ → ℕ → List ℕ → List Arg → (ℕ → ℕ) → Option (ℕ × (ℕ → ℕ))
unfolding output_all
vsnprintf buffer buf_size format args m = do
  out ← vprintf format args
  let aux =
      output_all out
        (record { p = buffer; length = 0; max_length = (buf_size - 1) % 2 ^ 32; memory = m })
  some (aux.length, λ a. if ltb 0 buf_size && a == aux.p then 0 else aux.memory a)

-- `hex_dump`: a line for the bytes up to the next multiple of 16.
abbrev blanks : ℕ → String → List ℕ
blanks zero s = []
blanks (suc n) s = codes s ++ blanks n s

-- The bytes of a line, from index `i` on.
hex_bytes : ℕ → List ℕ → Option (List ℕ)
unfolding vprintf
hex_bytes i [] = some []
hex_bytes i (b ∷ bs) = do
  here ← vprintf (codes "%02hhx%c") (word b ∷ word (if i == 7 then b'-' else b' ') ∷ [])
  rest ← hex_bytes (i + 1) bs
  some (here ++ rest)

abbrev ascii_bytes : List ℕ → List ℕ
ascii_bytes [] = []
ascii_bytes (b ∷ bs) = (if isprint b then b else b'.') ∷ ascii_bytes bs

hex_line : ℕ → List ℕ → Bool → Option (List ℕ)
unfolding hex_bytes
hex_line ofs bs ascii = do
  let start = ofs % 16
  let after = 16 - start - length bs
  number ← vprintf (codes "%08jx  ") (wide (ofs - start) ∷ [])
  bytes ← hex_bytes start bs
  let text =
      if ascii
      then blanks after "   "
        ++ (codes "|" ++ (blanks start " " ++ (ascii_bytes bs ++ (blanks after " " ++ codes "|"))))
      else []
  some (number ++ (blanks start "   " ++ (bytes ++ (text ++ 10 ∷ []))))

take : ℕ → List ℕ → List ℕ
take zero bs = []
take (suc n) [] = []
take (suc n) (b ∷ bs) = b ∷ take n bs

drop : ℕ → List ℕ → List ℕ
drop zero bs = bs
drop (suc n) [] = []
drop (suc n) (b ∷ bs) = drop n bs

-- On fuel: a line takes a byte at least.
hex_loop : ℕ → ℕ → List ℕ → Bool → Option (List ℕ)
unfolding hex_line take drop
hex_loop zero ofs bs ascii = none
hex_loop (suc fuel) ofs [] ascii = some []
hex_loop (suc fuel) ofs (b ∷ bs) ascii =
    let n = min (16 - ofs % 16) (length (b ∷ bs)) in
    do
      line ← hex_line ofs (take n (b ∷ bs)) ascii
      rest ← hex_loop fuel ((ofs + n) % 2 ^ 32) (drop n (b ∷ bs)) ascii
      some (line ++ rest)

unfoldable hex_dump : ℕ → List ℕ → Bool → Option (List ℕ)
unfolding hex_loop
hex_dump ofs buf ascii = hex_loop (length buf + 1) ofs buf ascii

-- The loop of `print_human_readable_size` over `factors`.
scaled : ℕ → List String → ℕ × String
scaled size [] = (size, "")
scaled size (f ∷ []) = (size, f)
scaled size (f ∷ (g ∷ fs)) = if leb 1024 size then scaled (size / 1024) (g ∷ fs) else (size, f)

unfoldable print_human_readable_size : ℕ → Option (List ℕ)
unfolding scaled vprintf
print_human_readable_size size =
    if size == 1
    then some (codes "1 byte")
    else (let (n, factor) = scaled size ("bytes" ∷ "kB" ∷ "MB" ∷ "GB" ∷ "TB" ∷ []) in
        vprintf (codes "%llu %s") (wide n ∷ string (some (codes factor)) ∷ []))
