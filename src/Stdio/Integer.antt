-- ===== src/Stdio/Integer.antt =====
-- `format_integer` and `format_string` of pintos/src/lib/stdio.c.
use Prim.Native.Char.{code}
use Prim.Native.String.{String}
use sogang_pint_os.Common.{
  ℕ, zero, suc, ◌+◌, ◌-◌, ◌/◌, ◌%◌, min, Bool, true, false, not, ◌&&◌, ◌||◌, Option, none, some,
  List, [], ◌∷◌, ◌++◌, ltb, leb, ◌==◌, if◌then◌else◌, length, get_or, replicate,
}

-- The characters of a text.
abbrev pub codes : String → List ℕ
codes String.[] = []
codes (String.◌∷◌ c s) = code c ∷ codes s

-- `isdigit`, `isspace` and `isprint` of a character.
abbrev pub isdigit : ℕ → Bool
isdigit c = leb b'0' c && leb c b'9'

abbrev pub isspace : ℕ → Bool
isspace c = c == 32 || (leb 9 c && leb c 13)

abbrev pub isprint : ℕ → Bool
isprint c = leb 32 c && ltb c 127

-- The type of an argument to format.
pub data IntType : Type 0 where
  char : IntType
  short : IntType
  int : IntType
  intmax : IntType
  long : IntType
  longlong : IntType
  ptrdifft : IntType
  sizet : IntType

-- `struct printf_conversion`, with a field for each flag. A precision of -1 is `none`.
pub record Conversion : Type 0 where
  pub minus : Bool
  pub plus : Bool
  pub space : Bool
  pub pound : Bool
  pub zeros : Bool
  pub group : Bool
  pub width : ℕ
  pub precision : Option ℕ
  pub type : IntType

-- `struct integer_base`, and the bases of the conversions.
pub record IntegerBase : Type 0 where
  pub base : ℕ
  pub digits : List ℕ
  pub x : ℕ
  pub group : ℕ

abbrev pub base_d : IntegerBase
base_d = record { base = 10; digits = codes "0123456789"; x = 0; group = 3 }

abbrev pub base_o : IntegerBase
base_o = record { base = 8; digits = codes "01234567"; x = 0; group = 3 }

abbrev pub base_x : IntegerBase
base_x = record { base = 16; digits = codes "0123456789abcdef"; x = b'x'; group = 4 }

abbrev pub base_upper_x : IntegerBase
base_upper_x = record { base = 16; digits = codes "0123456789ABCDEF"; x = b'X'; group = 4 }

-- The loop that accumulates digits, on fuel that is at least the value. The last character that was
-- stored stands first in `buf`.
unfoldable pub digit_loop : ℕ → IntegerBase → Bool → ℕ → ℕ → List ℕ → List ℕ
digit_loop zero b group value digit_cnt buf = buf
digit_loop (suc fuel) b group value digit_cnt buf =
    let comma =
      if group && (ltb 0 digit_cnt && digit_cnt % b.group == 0) then b',' ∷ buf else buf in
    let rest =
      digit_loop fuel b group (value / b.base) (digit_cnt + 1)
        (get_or b.digits (value % b.base) 0 ∷ comma) in
    if value == 0 then buf else rest

-- The sign character, or 0.
unfoldable pub sign_of : Bool → Bool → Conversion → ℕ
sign_of is_signed negative c =
    if is_signed
    then (if c.plus
        then (if negative then b'-' else b'+')
        else if c.space
        then (if negative then b'-' else b' ')
        else if negative
        then b'-'
        else 0)
    else 0

abbrev pub rendered_precision : Option ℕ → ℕ
rendered_precision none = 1
rendered_precision (some p) = p

-- `buf` as it is output, from the last character stored on: at most 63 characters with the zeros for
-- the precision, and one more for base 8.
unfoldable pub stored : ℕ → IntegerBase → Conversion → List ℕ
unfolding digit_loop
stored value b c =
    let buf = digit_loop value b c.group value 0 [] in
    let buf' = replicate (min (rendered_precision c.precision) 63 - length buf) b'0' ++ buf in
    if c.pound && (b.base == 8 && not (get_or buf' 0 0 == b'0')) then b'0' ∷ buf' else buf'

-- `output_dup` if a flag asks for it.
abbrev pub padding_if : Bool → ℕ → ℕ → List ℕ
padding_if true ch cnt = replicate cnt ch
padding_if false ch cnt = []

abbrev pub sign_text : ℕ → List ℕ
sign_text sign = if sign == 0 then [] else sign ∷ []

abbrev pub x_text : ℕ → List ℕ
x_text x = if x == 0 then [] else b'0' ∷ x ∷ []

unfoldable pub format_integer : ℕ → Bool → Bool → IntegerBase → Conversion → List ℕ
unfolding stored sign_of
format_integer value is_signed negative b c =
    let sign = sign_of is_signed negative c in
    let x = if c.pound && not (value == 0) then b.x else 0 in
    let buf = stored value b c in
    let pad_cnt = c.width - length buf - length (x_text x) - length (sign_text sign) in
    padding_if (not (c.minus || c.zeros)) b' ' pad_cnt
    ++ (sign_text sign
        ++ (x_text x
            ++ (padding_if c.zeros b'0' pad_cnt ++ (buf ++ padding_if c.minus b' ' pad_cnt))))

-- `format_string`
unfoldable pub format_string : List ℕ → Conversion → List ℕ
format_string string c =
    let pad_cnt = c.width - length string in
    padding_if (not c.minus) b' ' pad_cnt ++ (string ++ padding_if c.minus b' ' pad_cnt)
