-- ===== src/Pagedir/Words.antt =====
-- The entries of threads/pte.h as numbers: an address of 20 bits above 12 bits of flags.
use Prim.Native.Nat.{bit_and, bit_or}
use native.Mathlib.Nat.{pow-suc}
use sogang_pint_os.Common.{
  ℕ, zero, suc, ◌+◌, ◌-◌, ◌*◌, ◌/◌, ◌%◌, ◌^◌, ◌<◌, ◌≤◌, ◌≡◌, refl, ap, ap₂, ◌∙◌, arith,
  if◌then◌else◌, Bool, true, false,
}
use sogang_pint_os.Pagedir.{pte_addr, pte_p, pte_w, pte_u, complement}
use sogang_pint_os.Common.Bits.{
  nth_bit, nth_bit-bit_and, nth_bit-ones, nth_bit-le-one, eq_of_nth_bit, bit_and-le,
  bit_and-le_right, bit_and-pow, bit_and_low, bit_or_low,
}

double : (n p : ℕ) → 2 ^ suc n * p ≡ 2 * (2 ^ n * p)
double n p = rw (pow-suc 2 n) (grind arith)

half_of : (n p f : ℕ) → (2 ^ suc n * p + f) / 2 ≡ 2 ^ n * p + f / 2
half_of n p f = omega (arith, double n p)

-- The low `n` bits and those above them are combined by themselves.
bit_and-split :
    (n p q f g : ℕ)
    → f < 2 ^ n
    → g < 2 ^ n
    → bit_and (2 ^ n * p + f) (2 ^ n * q + g) ≡ 2 ^ n * bit_and p q + bit_and f g
bit_and-split zero p q f g hf hg =
    let f0 : f ≡ 0 = omega arith in
    let g0 : g ≡ 0 = omega arith in
    let p1 : 1 * p + 0 ≡ p = omega arith in
    let q1 : 1 * q + 0 ≡ q = omega arith in rw (f0, g0, p1, q1) (omega arith)
bit_and-split (suc n) p q f g hf hg =
    let halves : bit_and ((2 ^ suc n * p + f) / 2) ((2 ^ suc n * q + g) / 2)
        ≡ 2 ^ n * bit_and p q + bit_and (f / 2) (g / 2) =
      rw (half_of n p f, half_of n q g)
        (bit_and-split n p q (f / 2) (g / 2) (omega (arith, pow-suc 2 n))
          (omega (arith, pow-suc 2 n))) in
    omega (
      arith,
      halves,
      bit_and_low (2 ^ suc n * p + f) (2 ^ suc n * q + g),
      bit_and_low f g,
      double n p,
      double n q,
      double n (bit_and p q),
    )

bit_or-split :
    (n p q f g : ℕ)
    → f < 2 ^ n
    → g < 2 ^ n
    → bit_or (2 ^ n * p + f) (2 ^ n * q + g) ≡ 2 ^ n * bit_or p q + bit_or f g
bit_or-split zero p q f g hf hg =
    let f0 : f ≡ 0 = omega arith in
    let g0 : g ≡ 0 = omega arith in
    let p1 : 1 * p + 0 ≡ p = omega arith in
    let q1 : 1 * q + 0 ≡ q = omega arith in rw (f0, g0, p1, q1) (omega arith)
bit_or-split (suc n) p q f g hf hg =
    let halves : bit_or ((2 ^ suc n * p + f) / 2) ((2 ^ suc n * q + g) / 2)
        ≡ 2 ^ n * bit_or p q + bit_or (f / 2) (g / 2) =
      rw (half_of n p f, half_of n q g)
        (bit_or-split n p q (f / 2) (g / 2) (omega (arith, pow-suc 2 n))
          (omega (arith, pow-suc 2 n))) in
    omega (
      arith,
      halves,
      bit_or_low (2 ^ suc n * p + f) (2 ^ suc n * q + g),
      bit_or_low f g,
      double n p,
      double n q,
      double n (bit_or p q),
    )

one_below : (n k : ℕ) → k < n → nth_bit (2 ^ n - 1) k ≡ 1
one_below n k h = ground (arith, nth_bit-ones n k)

bit_and-ones : (n a : ℕ) → a < 2 ^ n → bit_and a (2 ^ n - 1) ≡ a
bit_and-ones n a h =
    eq_of_nth_bit n (bit_and a (2 ^ n - 1)) a (omega (arith, bit_and-le a (2 ^ n - 1))) h (λ k low.
      omega (arith, nth_bit-bit_and a (2 ^ n - 1) k, one_below n k low, nth_bit-le-one a k))

-- An entry is the number of a page and its flags; a flag is set or cleared in the low 12 bits alone.
split_page : (w : ℕ) → w ≡ 2 ^ 12 * (w / 2 ^ 12) + w % 2 ^ 12
split_page w = omega arith

bit_or-zero_fuel : (n a : ℕ) → a ≤ n → bit_or a 0 ≡ a
bit_or-zero_fuel n zero h = refl
bit_or-zero_fuel zero (suc a) h = absurd (omega arith)
bit_or-zero_fuel (suc n) (suc a) h =
    omega (arith, bit_or_low (suc a) 0, bit_or-zero_fuel n (suc a / 2) (omega arith))

pub flags_or : (w g : ℕ) → g < 2 ^ 12 → bit_or w g ≡ 2 ^ 12 * (w / 2 ^ 12) + bit_or (w % 2 ^ 12) g
flags_or w g h =
    let low : g ≡ 2 ^ 12 * 0 + g = omega arith in
    ap₂ bit_or (split_page w) low
    ∙ bit_or-split 12 (w / 2 ^ 12) 0 (w % 2 ^ 12) g (omega arith) h
    ∙ ap (λ p. 2 ^ 12 * p + bit_or (w % 2 ^ 12) g)
        (bit_or-zero_fuel (w / 2 ^ 12) (w / 2 ^ 12) (omega arith))

pub flags_and :
    (w g : ℕ)
    → w < 2 ^ 32
    → g < 2 ^ 12
    → bit_and w (2 ^ 12 * (2 ^ 20 - 1) + g) ≡ 2 ^ 12 * (w / 2 ^ 12) + bit_and (w % 2 ^ 12) g
flags_and w g hw hg =
    ap (λ a. bit_and a (2 ^ 12 * (2 ^ 20 - 1) + g)) (split_page w)
    ∙ bit_and-split 12 (w / 2 ^ 12) (2 ^ 20 - 1) (w % 2 ^ 12) g (omega arith) hg
    ∙ ap (λ p. 2 ^ 12 * p + bit_and (w % 2 ^ 12) g) (bit_and-ones 20 (w / 2 ^ 12) (omega arith))

pub present : (w : ℕ) → bit_and w 1 ≡ w % 2
present w = omega (arith, bit_and-pow w 0)

pub address : (w : ℕ) → w < 2 ^ 32 → bit_and w pte_addr ≡ 2 ^ 12 * (w / 2 ^ 12)
address w h =
    let nothing : bit_and (w % 2 ^ 12) 0 ≡ 0 = omega (arith, bit_and-le_right (w % 2 ^ 12) 0) in
    flags_and w 0 h (omega arith) ∙ rw nothing (omega arith)

-- Flags over an address of a page.
or_aligned :
    (v f g : ℕ) → v % 2 ^ 12 ≡ 0 → f < 2 ^ 12 → g < 2 ^ 12 → bit_or (v + f) g ≡ v + bit_or f g
or_aligned v f g aligned hf hg =
    let page : 2 ^ 12 * ((v + f) / 2 ^ 12) ≡ v = omega arith in
    let low : (v + f) % 2 ^ 12 ≡ f = omega arith in flags_or (v + f) g hg ∙ rw (page, low) refl

pub table_entry : (v : ℕ) → v % 2 ^ 12 ≡ 0 → bit_or (bit_or (bit_or v pte_u) pte_p) pte_w ≡ v + 7
table_entry v aligned =
    let none_set : v ≡ v + 0 = omega arith in
    ap (λ a. bit_or (bit_or (bit_or a pte_u) pte_p) pte_w) none_set
    ∙ rw
        (
          or_aligned v 0 pte_u aligned (omega arith) (omega arith),
          or_aligned v 4 pte_p aligned (omega arith) (omega arith),
          or_aligned v 5 pte_w aligned (omega arith) (omega arith),
        )
        refl

-- The flags of a page of the user.
abbrev pub user_flags : Bool → ℕ
user_flags writable = if writable then 7 else 5

pub page_entry :
    (v : ℕ) (writable : Bool)
    → v % 2 ^ 12 ≡ 0
    → bit_or (bit_or (bit_or v pte_p) (if writable then pte_w else 0)) pte_u
      ≡ v + user_flags writable
page_entry v true aligned =
    let none_set : v ≡ v + 0 = omega arith in
    ap (λ a. bit_or (bit_or (bit_or a pte_p) pte_w) pte_u) none_set
    ∙ rw
        (
          or_aligned v 0 pte_p aligned (omega arith) (omega arith),
          or_aligned v 1 pte_w aligned (omega arith) (omega arith),
          or_aligned v 3 pte_u aligned (omega arith) (omega arith),
        )
        refl
page_entry v false aligned =
    let none_set : v ≡ v + 0 = omega arith in
    ap (λ a. bit_or (bit_or (bit_or a pte_p) 0) pte_u) none_set
    ∙ rw
        (
          or_aligned v 0 pte_p aligned (omega arith) (omega arith),
          or_aligned v 1 0 aligned (omega arith) (omega arith),
          or_aligned v 1 pte_u aligned (omega arith) (omega arith),
        )
        refl

-- An entry with PTE_P reset is not present.
pub reset_present :
    (w : ℕ)
    → w < 2 ^ 32
    → (bit_and w (complement pte_p) % 2 ≡ 0) × (bit_and w (complement pte_p) < 2 ^ 32)
reset_present w h = (
  omega (arith, bit_and_low w (complement pte_p)),
  omega (arith, bit_and-le w (complement pte_p)),
)
