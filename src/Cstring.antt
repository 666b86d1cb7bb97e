-- ===== src/Cstring.antt =====
-- Memory blocks and C strings: pintos/src/lib/string.c. Memory is a function from addresses to bytes,
-- and the null pointer is address 0. A block does not wrap around the address space, which C leaves
-- undefined. A loop that only the null byte ends runs on `fuel`: `none` is a failed ASSERT, or a loop
-- that has found no null byte in that many steps.
pub mod Blocks
pub mod Strings
use sogang_pint_os.Common.{
  ℕ, zero, suc, ◌+◌, ◌-◌, ◌%◌, Bool, true, false, not, ◌&&◌, ◌||◌, Option, none, some, ltb, leb,
  ◌==◌, if◌then◌else◌,
}
use sogang_pint_os.Common.Int.{ℤ, pos, negsuc}
use sogang_pint_os.Common.Panic.{◌>>=◌, ◌>>◌, assert}

abbrev pub Memory : Type 0
Memory = ℕ → ℕ

abbrev pub write : ℕ → ℕ → Memory → Memory
write a v m k = if a == k then v else m k

-- `ASSERT (p != NULL || size == 0)`
abbrev pub usable : ℕ → ℕ → Bool
usable p size = not (p == 0) || size == 0

-- `while (size-- > 0) *dst++ = *src++;`
pub copy_up : ℕ → ℕ → ℕ → Memory → Memory
copy_up zero dst src m = m
copy_up (suc size) dst src m = copy_up size (dst + 1) (src + 1) (write dst (m src) m)

-- `while (size-- > 0) *--dst = *--src;`
pub copy_down : ℕ → ℕ → ℕ → Memory → Memory
copy_down zero dst src m = m
copy_down (suc size) dst src m =
    copy_down size (dst - 1) (src - 1) (write (dst - 1) (m (src - 1)) m)

pub memcpy : ℕ → ℕ → ℕ → Memory → Option (ℕ × Memory)
memcpy dst src size m = do
  assert (usable dst size)
  assert (usable src size)
  some (dst, copy_up size dst src m)

-- The code returns the pointer `dst` that its loops have moved.
pub memmove : ℕ → ℕ → ℕ → Memory → Option (ℕ × Memory)
memmove dst src size m = do
  assert (usable dst size)
  assert (usable src size)
  if ltb dst src
      then some (dst + size, copy_up size dst src m)
      else some (dst, copy_down size (dst + size) (src + size) m)

pub memcmp_loop : ℕ → ℕ → ℕ → Memory → ℤ
memcmp_loop zero a b m = pos 0
memcmp_loop (suc size) a b m =
    let rest = memcmp_loop size (a + 1) (b + 1) m in
    if not (m a == m b) then (if ltb (m b) (m a) then pos 1 else negsuc 0) else rest

pub memcmp : ℕ → ℕ → ℕ → Memory → Option ℤ
memcmp a b size m = do assert (usable a size); assert (usable b size); some (memcmp_loop size a b m)

unfoldable strcmp_loop : ℕ → ℕ → ℕ → Memory → Option ℤ
strcmp_loop zero a b m = none
strcmp_loop (suc fuel) a b m =
    let rest = strcmp_loop fuel (a + 1) (b + 1) m in
    if not (m a == 0) && m a == m b
    then rest
    else some (if ltb (m a) (m b) then negsuc 0 else if ltb (m b) (m a) then pos 1 else pos 0)

unfoldable strcmp : ℕ → ℕ → ℕ → Memory → Option ℤ
strcmp fuel a b m = do assert (not (a == 0)); assert (not (b == 0)); strcmp_loop fuel a b m

unfoldable memchr_loop : ℕ → ℕ → ℕ → Memory → ℕ
memchr_loop zero block ch m = 0
memchr_loop (suc size) block ch m =
    let rest = memchr_loop size (block + 1) ch m in if m block == ch then block else rest

unfoldable memchr : ℕ → ℕ → ℕ → Memory → Option ℕ
memchr block ch size m = do assert (usable block size); some (memchr_loop size block (ch % 256) m)

unfoldable strchr_loop : ℕ → ℕ → ℕ → Memory → Option ℕ
strchr_loop zero string c m = none
strchr_loop (suc fuel) string c m =
    let rest = strchr_loop fuel (string + 1) c m in
    if m string == c then some string else if m string == 0 then some 0 else rest

unfoldable strchr : ℕ → ℕ → ℕ → Memory → Option ℕ
strchr fuel string c m = do assert (not (string == 0)); strchr_loop fuel string (c % 256) m

-- The loops of `strcspn` and `strspn`, which `stops` tells apart: whether a `strchr` ends them.
unfoldable span_loop : (ℕ → Bool) → ℕ → ℕ → ℕ → ℕ → ℕ → Memory → Option ℕ
span_loop stops zero fuel string set length m = none
span_loop stops (suc n) fuel string set length m =
    let rest = span_loop stops n fuel string set (length + 1) m in
    if m (string + length) == 0 then some length else (do
      found ← strchr fuel set (m (string + length)) m
      if stops found then some length else rest)

unfoldable strcspn : ℕ → ℕ → ℕ → Memory → Option ℕ
strcspn fuel string stop m = span_loop (λ found. not (found == 0)) fuel fuel string stop 0 m

unfoldable strspn : ℕ → ℕ → ℕ → Memory → Option ℕ
strspn fuel string skip m = span_loop (λ found. found == 0) fuel fuel string skip 0 m

unfoldable strpbrk_loop : ℕ → ℕ → ℕ → ℕ → Memory → Option ℕ
strpbrk_loop zero fuel string stop m = none
strpbrk_loop (suc n) fuel string stop m =
    let rest = strpbrk_loop n fuel (string + 1) stop m in
    if m string == 0
    then some 0
    else (do found ← strchr fuel stop (m string) m; if not (found == 0) then some string else rest)

unfoldable strpbrk : ℕ → ℕ → ℕ → Memory → Option ℕ
strpbrk fuel string stop m = strpbrk_loop fuel fuel string stop m

unfoldable strrchr_loop : ℕ → ℕ → ℕ → ℕ → Memory → Option ℕ
strrchr_loop zero string c p m = none
strrchr_loop (suc fuel) string c p m =
    let rest = strrchr_loop fuel (string + 1) c (if m string == c then string else p) m in
    if m string == 0 then some p else rest

unfoldable strrchr : ℕ → ℕ → ℕ → Memory → Option ℕ
strrchr fuel string c m = strrchr_loop fuel string (c % 256) 0 m

pub strlen_loop : ℕ → ℕ → Memory → Option ℕ
strlen_loop zero p m = none
strlen_loop (suc fuel) p m =
    let rest = strlen_loop fuel (p + 1) m in if m p == 0 then some p else rest

pub strlen : ℕ → ℕ → Memory → Option ℕ
strlen fuel string m = do
  assert (not (string == 0))
  p ← strlen_loop fuel string m
  some (p - string)

-- `n` is what is left of `maxlen`.
pub strnlen_loop : ℕ → ℕ → ℕ → Memory → ℕ
strnlen_loop zero string length m = length
strnlen_loop (suc n) string length m =
    let rest = strnlen_loop n string (length + 1) m in
    if m (string + length) == 0 then length else rest

pub strnlen : ℕ → ℕ → Memory → ℕ
strnlen string maxlen m = strnlen_loop maxlen string 0 m

unfoldable strstr_loop : ℕ → ℕ → ℕ → ℕ → Memory → Option ℕ
strstr_loop zero at needle needle_len m = some 0
strstr_loop (suc n) at needle needle_len m = do
  let rest = strstr_loop n (at + 1) needle needle_len m
  order ← memcmp at needle needle_len m
  if_zero order (some at) rest
  where
    if_zero : ℤ → Option ℕ → Option ℕ → Option ℕ
    if_zero (pos zero) hit rest = hit
    if_zero _ hit rest = rest

unfoldable strstr : ℕ → ℕ → ℕ → Memory → Option ℕ
strstr fuel haystack needle m = do
  haystack_len ← strlen fuel haystack m
  needle_len ← strlen fuel needle m
  if leb needle_len haystack_len
      then strstr_loop (haystack_len - needle_len + 1) haystack needle needle_len m
      else some 0

-- `while (size-- > 0) *dst++ = value;`
pub fill : ℕ → ℕ → ℕ → Memory → Memory
fill zero dst value m = m
fill (suc size) dst value m = fill size (dst + 1) value (write dst value m)

pub memset : ℕ → ℕ → ℕ → Memory → Option (ℕ × Memory)
memset dst value size m = do assert (usable dst size); some (dst, fill size dst (value % 256) m)

pub strlcpy : ℕ → ℕ → ℕ → ℕ → Memory → Option (ℕ × Memory)
strlcpy fuel dst src size m = do
  assert (not (dst == 0))
  assert (not (src == 0))
  src_len ← strlen fuel src m
  let dst_len = if ltb src_len (size - 1) then src_len else size - 1
  if ltb 0 size
      then (do
        (p, copied) ← memcpy dst src dst_len m
        some (src_len, write (dst + dst_len) 0 copied))
      else some (src_len, m)

unfoldable strlcat : ℕ → ℕ → ℕ → ℕ → Memory → Option (ℕ × Memory)
strlcat fuel dst src size m = do
  assert (not (dst == 0))
  assert (not (src == 0))
  src_len ← strlen fuel src m
  dst_len ← strlen fuel dst m
  let copy_cnt = if ltb src_len (size - dst_len - 1) then src_len else size - dst_len - 1
  if ltb 0 size && ltb dst_len size
      then (do
        (p, copied) ← memcpy (dst + dst_len) src copy_cnt m
        some (src_len + dst_len, write (dst + dst_len + copy_cnt) 0 copied))
      else some (src_len + dst_len, m)

-- The first loop of `strtok_r`: true with the place of a token, or false with the end of the string.
unfoldable skip_delimiters : ℕ → ℕ → ℕ → ℕ → Memory → Option (Bool × ℕ)
skip_delimiters zero fuel s delimiters m = none
skip_delimiters (suc n) fuel s delimiters m = do
  let rest = skip_delimiters n fuel (s + 1) delimiters m
  found ← strchr fuel delimiters (m s) m
  if found == 0 then some (true, s) else if m s == 0 then some (false, s) else rest

-- The second loop: the end of the token.
unfoldable skip_token : ℕ → ℕ → ℕ → ℕ → Memory → Option ℕ
skip_token zero fuel s delimiters m = none
skip_token (suc n) fuel s delimiters m = do
  let rest = skip_token n fuel (s + 1) delimiters m
  found ← strchr fuel delimiters (m s) m
  if found == 0 then rest else some s

-- `strtok_r`: the token, what `*save_ptr` becomes, and the memory.
unfoldable strtok_r : ℕ → ℕ → ℕ → ℕ → Memory → Option (ℕ × (ℕ × Memory))
strtok_r fuel s delimiters save_ptr m = do
  assert (not (delimiters == 0))
  let from = if s == 0 then save_ptr else s
  assert (not (from == 0))
  (is_token, token) ← skip_delimiters fuel fuel from delimiters m
  if not is_token then some (0, (token, m)) else (do
    end ← skip_token fuel fuel token delimiters m
    if not (m end == 0) then some (token, (end + 1, write end 0 m)) else some (token, (end, m)))
