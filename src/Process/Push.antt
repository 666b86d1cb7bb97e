-- ===== src/Process/Push.antt =====
-- The steps of `construct_ESP` of pintos/src/userprog/process.c: each writes below `*esp` only.
use mathlib.Core.Path.{subst}
use sogang_pint_os.Common.{
  ℕ, zero, suc, ◌+◌, ◌-◌, ◌*◌, ◌%◌, ◌^◌, ◌≤◌, ◌<◌, ◌≡◌, refl, sym, ap, ◌∙◌, List, [], ◌∷◌, ◌++◌,
  arith, ltb, leb, get_or, length, length-append, true, false, ◌&&◌,
}
use sogang_pint_os.Common.All.{All}
use sogang_pint_os.Cstring.{Memory}
use sogang_pint_os.FileSys.Inode.{word_bytes}
use sogang_pint_os.Process.{put, total_len, push_strings, push_zeros, push_word, push_addrs}

-- Two memories agree from an address on.
abbrev pub From : ℕ → Memory → Memory → Type 0
From lo m m' = (k : ℕ) → lo ≤ k → m' k ≡ m k

abbrev pub word_of : Memory → ℕ → ℕ
word_of m a = m a + 2 ^ 8 * m (a + 1) + 2 ^ 16 * m (a + 2) + 2 ^ 24 * m (a + 3)

-- The words from an address on.
abbrev pub Words : Memory → ℕ → List ℕ → Type 0
Words m a [] = Unit
Words m a (w ∷ ws) = (word_of m a ≡ w) × Words m (a + 4) ws

-- The string at an address.
abbrev pub IsAt : Memory → ℕ → List ℕ → Type 0
IsAt m a s = ((j : ℕ) → j < length s → m (a + j) ≡ get_or s j 0) × (m (a + length s) ≡ 0)

-- The strings at the addresses, all from `lo` on.
abbrev pub Strings : Memory → ℕ → List ℕ → List (List ℕ) → Type 0
Strings m lo [] [] = Unit
Strings m lo [] (s ∷ ss) = ⊥
Strings m lo (a ∷ addr) [] = ⊥
Strings m lo (a ∷ addr) (s ∷ ss) = (lo ≤ a) × IsAt m a s × Strings m lo addr ss

pub From-trans :
    {lo hi : ℕ} {m₁ m₂ m₃ : Memory} → From hi m₁ m₂ → From lo m₂ m₃ → lo ≤ hi → From hi m₁ m₃
From-trans f g le k h = g k (omega arith) ∙ f k h

pub word_of-From :
    (lo a : ℕ) (m m' : Memory) {w : ℕ} → From lo m m' → lo ≤ a → word_of m a ≡ w → word_of m' a ≡ w
word_of-From lo a m m' f le here =
    rw (f a le, f (a + 1) (omega arith), f (a + 2) (omega arith), f (a + 3) (omega arith)) here

pub Words-From :
    (lo a : ℕ) (m m' : Memory) (ws : List ℕ) → From lo m m' → lo ≤ a → Words m a ws → Words m' a ws
Words-From lo a m m' [] f le w = tt
Words-From lo a m m' (w ∷ ws) f le (here, rest) =
    (word_of-From lo a m m' f le here, Words-From lo (a + 4) m m' ws f (omega arith) rest)

pub Strings-From :
    (lo lo' : ℕ) (m m' : Memory) (addr : List ℕ) (ss : List (List ℕ))
    → From lo m m'
    → lo' ≤ lo
    → Strings m lo addr ss
    → Strings m' lo' addr ss
Strings-From lo lo' m m' [] [] f le s = tt
Strings-From lo lo' m m' [] (s ∷ ss) f le bad = bad
Strings-From lo lo' m m' (a ∷ addr) [] f le bad = bad
Strings-From lo lo' m m' (a ∷ addr) (s ∷ ss) f le (above, (chars, last), rest) = (
  omega arith,
  ((λ j h. f (a + j) (omega arith) ∙ chars j h), f (a + length s) (omega arith) ∙ last),
  Strings-From lo lo' m m' addr ss f le rest,
)

-- A block that is put at an address: what it holds and what stays.
put_inside :
    (m : Memory) (a j : ℕ) (bytes : List ℕ)
    → j < length bytes
    → put m a bytes (a + j) ≡ get_or bytes j 0
put_inside m a j bytes lt =
    let within : (leb a (a + j) && ltb (a + j) (a + length bytes)) ≡ true = ground arith in
    let back : a + j - a ≡ j = omega arith in rw (within, back)

put-From :
    (m : Memory) (a hi : ℕ) (bytes : List ℕ) → a + length bytes ≤ hi → From hi m (put m a bytes)
put-From m a hi bytes le k h =
    let past : (leb a k && ltb k (a + length bytes)) ≡ false = ground arith in rw past

get_or-append : (s t : List ℕ) (j : ℕ) → j < length s → get_or (s ++ t) j 0 ≡ get_or s j 0
get_or-append [] t j lt = absurd (omega arith)
get_or-append (c ∷ s) t zero lt = refl
get_or-append (c ∷ s) t (suc j) lt = get_or-append s t j (omega arith)

get_or-append_last : (s : List ℕ) → get_or (s ++ 0 ∷ []) (length s) 0 ≡ 0
get_or-append_last [] = refl
get_or-append_last (c ∷ s) = get_or-append_last s

put_string : (m : Memory) (a : ℕ) (s : List ℕ) → IsAt (put m a (s ++ 0 ∷ [])) a s
put_string m a s = (
  (λ j h.
      put_inside m a j (s ++ 0 ∷ []) (omega (arith, h, length-append s (0 ∷ [])))
      ∙ get_or-append s (0 ∷ []) j h),
  put_inside m a (length s) (s ++ 0 ∷ []) (omega (arith, length-append s (0 ∷ [])))
      ∙ get_or-append_last s,
)

pub push_word_lem :
    (w esp : ℕ) (m : Memory)
    → 4 ≤ esp
    → w < 2 ^ 32
    → ((push_word w esp m).0 + 4 ≡ esp)
      × (word_of (push_word w esp m).1 (push_word w esp m).0 ≡ w)
      × From esp m (push_word w esp m).1
unfolding push_word
push_word_lem w esp m room lt =
    (omega arith, word, put-From m (esp - 4) esp (word_bytes w) (omega arith))
  where
    byte :
        (j : ℕ) → j < 4 → put m (esp - 4) (word_bytes w) (esp - 4 + j) ≡ get_or (word_bytes w) j 0
    byte j h = put_inside m (esp - 4) j (word_bytes w) h

    first : put m (esp - 4) (word_bytes w) (esp - 4) ≡ w % 256
    first =
        let here : esp - 4 + 0 ≡ esp - 4 = omega arith in
        subst (λ z. put m (esp - 4) (word_bytes w) z ≡ w % 256) here (byte 0 (omega arith))

    word : word_of (put m (esp - 4) (word_bytes w)) (esp - 4) ≡ w
    word = omega (arith, first, byte 1 (omega arith), byte 2 (omega arith), byte 3 (omega arith))

pub push_strings_lem :
    (ss : List (List ℕ)) (esp : ℕ) (m : Memory)
    → total_len ss ≤ esp
    → ((push_strings ss esp m).1 + total_len ss ≡ esp)
      × Strings (push_strings ss esp m).2 (push_strings ss esp m).1 (push_strings ss esp m).0 ss
      × From esp m (push_strings ss esp m).2
      × All (λ a. a < esp) (push_strings ss esp m).0
      × (length (push_strings ss esp m).0 ≡ length ss)
unfolding push_strings
push_strings_lem [] esp m le = (omega arith, tt, (λ k h. refl), tt, refl)
push_strings_lem (s ∷ ss) esp m le =
    let (size, strings, from, bound, cnt) = push_strings_lem ss esp m (omega arith) in
    let e = (push_strings ss esp m).1 in
    let m' = (push_strings ss esp m).2 in
    let a = e - (length s + 1) in
    let above : From e m' (put m' a (s ++ 0 ∷ [])) =
      put-From m' a e (s ++ 0 ∷ []) (omega (arith, size, length-append s (0 ∷ []))) in
    (
      omega (arith, size),
      (
        omega arith,
        put_string m' a s,
        Strings-From e a m' _ (push_strings ss esp m).0 ss above (omega arith) strings,
      ),
      From-trans from above (omega (arith, size)),
      (omega (arith, size), bound),
      ap suc cnt,
    )

pub push_zeros_lem :
    (n esp : ℕ) (m : Memory)
    → n ≤ esp
    → ((push_zeros n esp m).0 + n ≡ esp) × From esp m (push_zeros n esp m).1
unfolding push_zeros
push_zeros_lem zero esp m le = (omega arith, λ k h. refl)
push_zeros_lem (suc n) esp m le =
    let (size, from) = push_zeros_lem n (esp - 1) (put m (esp - 1) (0 ∷ [])) (omega arith) in
    (
      omega (arith, size),
      λ k h. from k (omega arith) ∙ put-From m (esp - 1) esp (0 ∷ []) (omega arith) k h,
    )

pub push_addrs_lem :
    (ws : List ℕ) (esp : ℕ) (m : Memory)
    → 4 * length ws ≤ esp
    → All (λ w. w < 2 ^ 32) ws
    → ((push_addrs ws esp m).0 + 4 * length ws ≡ esp)
      × Words (push_addrs ws esp m).1 (push_addrs ws esp m).0 ws
      × From esp m (push_addrs ws esp m).1
unfolding push_addrs
push_addrs_lem [] esp m le small = (omega arith, tt, λ k h. refl)
push_addrs_lem (w ∷ ws) esp m le (here, small) =
    let (size, words, from) = push_addrs_lem ws esp m (omega arith) small in
    let e = (push_addrs ws esp m).0 in
    let m' = (push_addrs ws esp m).1 in
    let (size', word, from') = push_word_lem w e m' (omega (arith, size)) here in
    (
      omega (arith, size, size'),
      (
        word,
        subst (λ z. Words (push_word w e m').1 z ws) (sym size')
            (Words-From e e m' (push_word w e m').1 ws from' (omega arith) words),
      ),
      From-trans from from' (omega (arith, size)),
    )
