-- ===== src/Cstring/Strings.antt =====
-- C strings: strlen, strnlen and strlcpy of pintos/src/lib/string.c.
use sogang_pint_os.Common.{
  ℕ, zero, suc, ◌+◌, ◌-◌, ◌≤◌, ◌<◌, ◌≡◌, ◌≢◌, refl, ◌∙◌, ◌⊎◌, inl, inr, true, false, some, arith,
  ltb, ◌==◌, if◌then◌else◌, Bool-cases, ne→==_false, ==_refl, min,
}
use sogang_pint_os.Common.Panic.{◌>>=◌}
use sogang_pint_os.Cstring.{
  Memory, write, memcpy, strlen_loop, strlen, strnlen_loop, strnlen, strlcpy,
}
use sogang_pint_os.Cstring.Blocks.{moved, in_block-inside, memcpy_lem}

-- A string of `n` characters and then the null byte.
pub record IsString (m : Memory) (string n : ℕ) : Type 0 where
  pub not_null : string ≢ 0
  pub chars : (i : ℕ) → i < n → m (string + i) ≢ 0
  pub end : m (string + n) ≡ 0

strlen_loop_lem :
    (n p fuel : ℕ) (m : Memory)
    → ((i : ℕ) → i < n → m (p + i) ≢ 0)
    → m (p + n) ≡ 0
    → n < fuel
    → strlen_loop fuel p m ≡ some (p + n)
unfolding strlen_loop
strlen_loop_lem n p zero m chars end lt = absurd (omega (arith, lt))
strlen_loop_lem zero p (suc fuel) m chars end lt =
    let p₀ : p + 0 ≡ p = omega arith in let end' : m p ≡ 0 = rw (← p₀) end in rw (p₀, end') refl
strlen_loop_lem (suc n) p (suc fuel) m chars end lt =
    let p₀ : p + 0 ≡ p = omega arith in
    let first : m p ≢ 0 = rw (← p₀) (chars 0 (omega arith)) in
    rw (ne→==_false (m p) 0 first) (
      rw (← shift p n) (
        strlen_loop_lem n (p + 1) fuel m (λ i h. rw (shift p i) (chars (suc i) (omega (arith, h))))
          (rw (shift p n) end) (omega (arith, lt))))
  where
    shift : (a i : ℕ) → a + 1 + i ≡ a + suc i
    shift a i = omega arith

-- `strlen` of a string of `n` characters is `n`, on any fuel above `n`.
strlen_lem :
    (fuel n string : ℕ) (m : Memory)
    → IsString m string n
    → n < fuel
    → strlen fuel string m ≡ some n
unfolding strlen
strlen_lem fuel n string m is lt =
    let back : string + n - string ≡ n = omega arith in
    rw (ne→==_false string 0 is.not_null, strlen_loop_lem n string fuel m is.chars is.end lt, back)
      refl

strnlen_loop_lem :
    (left at n string : ℕ) (m : Memory)
    → IsString m string n
    → at ≤ n
    → strnlen_loop left string at m ≡ min n (at + left)
unfolding strnlen_loop
strnlen_loop_lem zero at n string m is le = omega (arith, le)
strnlen_loop_lem (suc left) at n string m is le = elim (Bool-cases (at == n)) [
  | inl e ↦ let same : at ≡ n = ground arith in rw (same, is.end) (omega arith)
  | inr e ↦
      rw (ne→==_false (m (string + at)) 0 (is.chars at (ground arith)))
        (strnlen_loop_lem left (at + 1) n string m is (ground arith) ∙ omega arith)
]

-- `strnlen` of a string of `n` characters is the smaller of `n` and `maxlen`.
strnlen_lem :
    (n string maxlen : ℕ) (m : Memory)
    → IsString m string n
    → strnlen string maxlen m ≡ min n maxlen
unfolding strnlen
strnlen_lem n string maxlen m is =
    strnlen_loop_lem maxlen 0 n string m is (omega arith) ∙ omega arith

-- The memory after the first `n` bytes at `src` and a null byte have been put at `dst`.
abbrev pub ended : ℕ → ℕ → ℕ → Memory → Memory
ended n dst src m = write (dst + n) 0 (moved n dst src m)

-- `strlcpy` of a string of `n` characters into a buffer of `size > 0` bytes that does not overlap it ends
-- on any fuel above `n` and returns `n`. It puts the first `min n (size - 1)` characters and a null byte
-- at `dst` and changes no other byte; so `dst` is a string, and nothing beyond its `size` bytes changes.
strlcpy_lem :
    (fuel n dst src size : ℕ) (m : Memory)
    → IsString m src n
    → n < fuel
    → dst ≢ 0
    → 0 < size
    → dst + size ≤ src ⊎ src + n ≤ dst
    → (m' : Memory) × (strlcpy fuel dst src size m ≡ some (n, m'))
      × ((k : ℕ) → m' k ≡ ended (min n (size - 1)) dst src m k)
      × IsString m' dst (min n (size - 1))
unfolding strlcpy
strlcpy_lem fuel n dst src size m is lt d s apart =
    let cnt : (if ltb n (size - 1) then n else size - 1) ≡ min n (size - 1) = ground arith in
    let positive : ltb 0 size ≡ true = ground arith in
    rw
      (
        ne→==_false dst 0 d,
        ne→==_false src 0 is.not_null,
        strlen_lem fuel n src m is lt,
        cnt,
        positive,
      )
      (finish (memcpy_lem dst src (min n (size - 1)) m d is.not_null (ground arith)))
  where
    cnt : ℕ
    cnt = min n (size - 1)

    char_ne : (i : ℕ) → i < cnt → ended cnt dst src m (dst + i) ≢ 0
    char_ne i h =
        let back : dst + i - dst ≡ i = omega arith in
        let off : (dst + cnt == dst + i) ≡ false = ground arith in
        rw (off, in_block-inside dst cnt (dst + i) (omega arith) (omega arith), back)
          (is.chars i (omega arith))

    ended_string : (m' : Memory) → ((k : ℕ) → m' k ≡ ended cnt dst src m k) → IsString m' dst cnt
    ended_string m' all = record {
      not_null = d;
      chars = λ i h. rw (all (dst + i)) (char_ne i h);
      end = all (dst + cnt) ∙ rw (==_refl (dst + cnt)) refl;
    }

    finish :
        (copied : Memory) × (memcpy dst src cnt m ≡ some (dst, copied))
          × ((k : ℕ) → copied k ≡ moved cnt dst src m k)
        → (m' : Memory) × (◌>>=◌ {B = ℕ × Memory}
              (memcpy dst src cnt m)
              (λ out. some (n, write (dst + cnt) 0 out.1))
            ≡ some (n, m'))
          × ((k : ℕ) → m' k ≡ ended cnt dst src m k)
          × IsString m' dst cnt
    finish (copied, run, all) =
        let all' : (k : ℕ) → write (dst + cnt) 0 copied k ≡ ended cnt dst src m k =
          λ k. rw (all k) refl in
        rw run
          (write (dst + cnt) 0 copied, refl, all', ended_string (write (dst + cnt) 0 copied) all')
