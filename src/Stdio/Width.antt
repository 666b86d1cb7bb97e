-- ===== src/Stdio/Width.antt =====
-- Field widths of the formatted output of pintos/src/lib/stdio.c.
use sogang_pint_os.Common.{ℕ, ◌+◌, ◌-◌, ◌*◌, Bool, not, ◌&&◌, ◌==◌, if◌then◌else◌, length}
use sogang_pint_os.Stdio.Integer.{Conversion, IntegerBase, sign_text, x_text, sign_of, stored}

-- A field of at least `n` characters.
abbrev pub widened : Bool → ℕ → ℕ → ℕ
widened twice width n = if twice then n + 2 * (width - n) else n + (width - n)

-- The characters of an integer without its padding.
abbrev bare : ℕ → Bool → Bool → IntegerBase → Conversion → ℕ
bare value is_signed negative b c =
    length (stored value b c)
    + length (x_text (if c.pound && not (value == 0) then b.x else 0))
    + length (sign_text (sign_of is_signed negative c))
