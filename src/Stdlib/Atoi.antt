-- ===== src/Stdlib/Atoi.antt =====
-- `atoi` of pintos/src/lib/stdlib.c. A string is the list of its characters before the null byte.
use sogang_pint_os.Common.{ℕ, ◌-◌, Bool, true, false, List, [], ◌∷◌, ◌==◌, if◌then◌else◌}
use sogang_pint_os.Common.Int.{ℤ, pos, ◌-ℤ◌, ◌*ℤ◌}
use sogang_pint_os.FixedPoint.{wrap32}
use sogang_pint_os.Stdio.Integer.{isdigit, isspace}

-- `while (isspace ((unsigned char) *s)) s++;`
unfoldable pub skip_space : List ℕ → List ℕ
skip_space [] = []
skip_space (c ∷ s) = if isspace c then skip_space s else c ∷ s

-- The sign: whether it is '-', and what is behind it.
unfoldable pub parse_sign : List ℕ → Bool × List ℕ
parse_sign [] = (false, [])
parse_sign (c ∷ s) =
    if c == b'+' then (false, s) else if c == b'-' then (true, s) else (false, c ∷ s)

-- The loop over the digits, on a value that is not positive.
unfoldable pub atoi_loop : List ℕ → ℤ → ℤ
atoi_loop [] value = value
atoi_loop (c ∷ s) value = elim (isdigit c) [
  | true ↦ atoi_loop s (wrap32 (value *ℤ pos 10 -ℤ pos (c - b'0')))
  | false ↦ value
]

unfoldable pub atoi : List ℕ → ℤ
unfolding skip_space parse_sign atoi_loop
atoi s =
    let (negative, digits) = parse_sign (skip_space s) in
    let value = atoi_loop digits (pos 0) in if negative then value else wrap32 (pos 0 -ℤ value)
