-- ===== src/Process/Arguments.antt =====
-- What `construct_ESP` of pintos/src/userprog/process.c leaves on the stack.
use mathlib.Core.Path.{subst}
use sogang_pint_os.Common.{
  ℕ, suc, ◌+◌, ◌-◌, ◌*◌, ◌%◌, ◌^◌, ◌≤◌, ◌<◌, ◌≡◌, sym, ◌∙◌, List, [], ◌∷◌, ◌++◌, arith, length,
}
use sogang_pint_os.Common.All.{All-mono}
use sogang_pint_os.Cstring.{Memory}
use sogang_pint_os.Process.{
  total_len, padding, push_strings, push_zeros, push_word, push_addrs, construct_esp,
}
use sogang_pint_os.Process.Push.{
  From, From-trans, Words, Words-From, Strings, Strings-From, word_of, word_of-From, push_word_lem,
  push_strings_lem, push_zeros_lem, push_addrs_lem,
}

-- The stack of a program's start: a return address of 0, the number of arguments, the address of the
-- array of their addresses, the array with a null pointer at its end, and the strings.
pub record IsStart (argu_list : List (List ℕ)) (m : Memory) (esp : ℕ) : Type 0 where
  pub aligned : esp % 4 ≡ 0
  pub return_address : word_of m esp ≡ 0
  pub argc : word_of m (esp + 4) ≡ length argu_list
  pub argv : word_of m (esp + 8) ≡ esp + 12
  pub addr : List ℕ
  pub pointers : Words m (esp + 12) (addr ++ 0 ∷ [])
  pub strings : Strings m esp addr argu_list

Words-append :
    (m : Memory) (a w : ℕ) (ws : List ℕ)
    → Words m a ws
    → word_of m (a + 4 * length ws) ≡ w
    → Words m a (ws ++ w ∷ [])
Words-append m a w [] words last =
    let here : a + 4 * 0 ≡ a = omega arith in (subst (λ z. word_of m z ≡ w) here last, tt)
Words-append m a w (v ∷ ws) (first, words) last =
    let next : a + 4 * suc (length ws) ≡ a + 4 + 4 * length ws = omega arith in
    (first, Words-append m (a + 4) w ws words (subst (λ z. word_of m z ≡ w) next last))

padding_lem : (n : ℕ) → ((n + padding n) % 4 ≡ 0) × (padding n ≤ 3)
unfolding padding
padding_lem n = ground arith

-- The last three words, below an array of addresses.
last-Words :
    (argu_list : List (List ℕ)) (addr : List ℕ) (esp : ℕ) (m : Memory)
    → length argu_list ≤ 128
    → esp % 4 ≡ 0
    → esp < 2 ^ 32
    → 12 ≤ esp
    → Words m esp (addr ++ 0 ∷ [])
    → Strings m esp addr argu_list
    → (let s₅ = push_word (esp - 4 + 4) esp m in
        let s₆ = push_word (length argu_list) s₅.0 s₅.1 in
        let s₇ = push_word 0 s₆.0 s₆.1 in IsStart argu_list s₇.1 s₇.0 × From esp m s₇.1)
last-Words argu_list addr esp m few even small room words strings =
    let (size₅, word₅, from₅) = push_word_lem (esp - 4 + 4) esp m (omega arith) (omega arith) in
    let s₅ = push_word (esp - 4 + 4) esp m in
    let (size₆, word₆, from₆) =
      push_word_lem (length argu_list) s₅.0 s₅.1 (omega (arith, size₅)) (omega arith) in
    let s₆ = push_word (length argu_list) s₅.0 s₅.1 in
    let (size₇, word₇, from₇) =
      push_word_lem 0 s₆.0 s₆.1 (omega (arith, size₅, size₆)) (omega arith) in
    let s₇ = push_word 0 s₆.0 s₆.1 in
    let six : s₆.0 ≡ s₇.0 + 4 = sym size₇ in
    let five : s₅.0 ≡ s₇.0 + 8 = omega (arith, size₆, size₇) in
    let four : esp ≡ s₇.0 + 12 = omega (arith, size₅, five) in
    let from : From esp m s₇.1 =
      From-trans (From-trans from₅ from₆ (omega (arith, size₅))) from₇
        (omega (arith, size₅, size₆)) in
    let from₅₇ : From s₅.0 s₅.1 s₇.1 = From-trans from₆ from₇ (omega (arith, size₆)) in
    (
      record {
        aligned = omega (arith, four, even);
        return_address = word₇;
        argc =
            subst (λ z. word_of s₇.1 z ≡ length argu_list) six
              (word_of-From s₆.0 s₆.0 s₆.1 s₇.1 from₇ (omega arith) word₆);
        argv =
            subst (λ z. word_of s₇.1 z ≡ s₇.0 + 12) five
              (word_of-From s₅.0 s₅.0 s₅.1 s₇.1 from₅₇ (omega arith) word₅ ∙ omega (arith, four));
        addr = addr;
        pointers =
            subst (λ z. Words s₇.1 z (addr ++ 0 ∷ [])) four
              (Words-From esp esp m s₇.1 (addr ++ 0 ∷ []) from (omega arith) words);
        strings = Strings-From esp s₇.0 m s₇.1 addr argu_list from (omega (arith, four)) strings;
      },
      from,
    )

-- With at most 128 arguments, an aligned address below 2 ^ 32 to start from and room for the whole,
-- `construct_ESP` builds the stack that a program's start expects below it, and changes nothing from there on.
pub construct_esp_lem :
    (argu_list : List (List ℕ)) (esp : ℕ) (m : Memory)
    → length argu_list ≤ 128
    → esp % 4 ≡ 0
    → esp < 2 ^ 32
    → total_len argu_list + 3 + 4 * (length argu_list + 4) ≤ esp
    → IsStart argu_list (construct_esp argu_list esp m).1 (construct_esp argu_list esp m).0
      × From esp m (construct_esp argu_list esp m).1
unfolding construct_esp
construct_esp_lem argu_list esp m few even small room =
    let (pad_even, pad_small) = padding_lem (total_len argu_list) in
    let (size₁, strings, from₁, bound, cnt) = push_strings_lem argu_list esp m (omega arith) in
    let s₁ = push_strings argu_list esp m in
    let n = padding (total_len argu_list) in
    let (size₂, from₂) = push_zeros_lem n s₁.1 s₁.2 (omega (arith, size₁)) in
    let s₂ = push_zeros n s₁.1 s₁.2 in
    let (size₃, word₃, from₃) =
      push_word_lem 0 s₂.0 s₂.1 (omega (arith, size₁, size₂)) (omega arith) in
    let s₃ = push_word 0 s₂.0 s₂.1 in
    let (size₄, words₄, from₄) =
      push_addrs_lem s₁.0 s₃.0 s₃.1 (omega (arith, size₁, size₂, size₃, cnt))
        (All-mono s₁.0 (λ a h. omega (arith, h)) bound) in
    let s₄ = push_addrs s₁.0 s₃.0 s₃.1 in
    let from₁₄ : From s₁.1 s₁.2 s₄.1 =
      From-trans (From-trans from₂ from₃ (omega (arith, size₂))) from₄
        (omega (arith, size₂, size₃)) in
    let null_word = word_of-From s₃.0 s₃.0 s₃.1 s₄.1 from₄ (omega arith) word₃ in
    let (start, from₇) =
      last-Words argu_list s₁.0 s₄.0 s₄.1 few
        (omega (arith, size₁, size₂, size₃, size₄, pad_even, even))
        (omega (arith, size₁, size₂, size₃, size₄)) (omega (arith, size₁, size₂, size₃, size₄, cnt))
        (Words-append s₄.1 s₄.0 0 s₁.0 words₄
          (subst (λ z. word_of s₄.1 z ≡ 0) (sym size₄) null_word))
        (Strings-From s₁.1 s₄.0 s₁.2 s₄.1 s₁.0 argu_list from₁₄ (omega (arith, size₂, size₃, size₄))
          strings) in
    (
      start,
      From-trans (From-trans from₁ from₁₄ (omega (arith, size₁))) from₇
          (omega (arith, size₁, size₂, size₃, size₄)),
    )
