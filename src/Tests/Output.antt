-- ===== src/Tests/Output.antt =====
-- Runs of the theorems on formatted output.
use sogang_pint_os.Common.{
  arith, ℕ, ◌-◌, ◌^◌, ◌≡◌, refl, false, true, some, none, List, [], ◌∷◌, ◌==◌, if◌then◌else◌,
}
use sogang_pint_os.Stdio.Integer.{codes, Conversion, format_integer, int}
use sogang_pint_os.Stdio.Parse.{
  signed_arg, next_word, parse_conversion, parse_flags, parse_digits, behind, word, signed_bits,
}
use sogang_pint_os.Stdio.Printf.{convert, vprintf, vsnprintf}
use sogang_pint_os.Stdio.RoundTrip.{atoi-vprintf}
use sogang_pint_os.Stdio.Buffer.{vsnprintf_lem, with_chars}
use sogang_pint_os.Stdlib.Atoi.{atoi}

-- The word of -42.
atoi-vprintf_example :
    (out : List ℕ) × (vprintf (codes "%d") (word (2 ^ 32 - 42) ∷ []) ≡ some out)
    × (atoi out ≡ signed_bits 32 (2 ^ 32 - 42))
atoi-vprintf_example = atoi-vprintf (2 ^ 32 - 42)

-- "n = 12345" in a buffer of 6 bytes at address 100.
printed : vprintf (codes "n = %d") (word 12345 ∷ []) ≡ some (codes "n = 12345")
unfolding vprintf convert signed_arg next_word parse_conversion parse_flags parse_digits behind
    format_integer signed_bits
printed = refl

vsnprintf_lem_example :
    (m' : ℕ → ℕ) × (vsnprintf 100 6 (codes "n = %d") (word 12345 ∷ []) (λ a. 1) ≡ some (9, m'))
    × ((a : ℕ) → m' a ≡ (if a == 105 then 0 else with_chars 100 (codes "n = 12345") 5 (λ b. 1) a))
vsnprintf_lem_example =
    vsnprintf_lem 100 6 (codes "n = %d") (word 12345 ∷ []) (λ a. 1) {out = codes "n = 12345"}
      printed (omega arith) (omega arith)

-- "%0*d" with a width of -5.
abbrev both : Conversion
both = record {
  minus = true;
  plus = false;
  space = false;
  pound = false;
  zeros = true;
  group = false;
  width = 5;
  precision = none;
  type = int;
}
