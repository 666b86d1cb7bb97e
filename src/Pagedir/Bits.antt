-- ===== src/Pagedir/Bits.antt =====
-- The accessed and the dirty bits of pages, in pintos/src/userprog/pagedir.c.
use Prim.Native.Nat.{bit_and, bit_or}
use native.Mathlib.Nat.{one-le-pow}
use sogang_pint_os.Common.{
  ℕ, ◌+◌, ◌-◌, ◌*◌, ◌/◌, ◌%◌, ◌^◌, ◌<◌, ◌≡◌, ◌≢◌, refl, sym, ap, ◌∙◌, inl, inr, Bool, true, false,
  not, ◌&&◌, some, arith, ◌==◌, if◌then◌else◌, Bool-cases, ne→==_false, ==_iff,
}
use sogang_pint_os.Common.Bits.{
  nth_bit, nth_bit-bit_and, nth_bit-bit_or, nth_bit-le-one, nth_bit-pow, nth_bit-complement,
  nth_bit-zero, bit_and-pow, bit_or-lt, bit_and-le,
}
use sogang_pint_os.Pagedir.{
  Paging, phys_base, poke, complement, flag_in, has_flag, set_flag, pagedir_get_page,
}
use sogang_pint_os.Pagedir.Words.{flags_or, flags_and}
use sogang_pint_os.Pagedir.Lookup.{dir_entry, slot, pte, IsDirectory, lookup_lem}
use sogang_pint_os.Pagedir.Poke.{pte-poke, poke-IsDirectory}
use sogang_pint_os.Pagedir.Laws.{
  same_page, resolve, get_page_lem, invalidate_lem, reload-IsDirectory,
}

-- Bit `k` of an entry becomes `value`, and nothing else changes.
record Flagged (k : ℕ) (value : Bool) (w w' : ℕ) : Type 0 where
  word : w' < 2 ^ 32
  frame : w' / 2 ^ 12 ≡ w / 2 ^ 12
  low : w' % 2 ≡ w % 2
  bits :
      (j : ℕ) → j < 32 → nth_bit w' j ≡ (if k == j then (if value then 1 else 0) else nth_bit w j)

abbrev set_word : ℕ → Bool → ℕ → ℕ
set_word k true w = bit_or w (2 ^ k)
set_word k false w = bit_and w (complement (2 ^ k))

first_bit : (w : ℕ) → nth_bit w 0 ≡ w % 2
first_bit w = refl

low_of_bits :
    (k : ℕ) (value : Bool) (w w' : ℕ)
    → 0 < k
    → nth_bit w' 0 ≡ (if k == 0 then (if value then 1 else 0) else nth_bit w 0)
    → w' % 2 ≡ w % 2
low_of_bits k value w w' pos e =
    let off : (k == 0) ≡ false = ground arith in
    let e' : nth_bit w' 0 ≡ nth_bit w 0 = e ∙ rw off refl in e'

set_word-Flagged :
    (k : ℕ) (value : Bool) (w : ℕ)
    → 0 < k
    → 2 ^ k < 2 ^ 12
    → w < 2 ^ 32
    → Flagged k value w (set_word k value w)
set_word-Flagged k true w pos small h =
    let bits : (j : ℕ) → nth_bit (bit_or w (2 ^ k)) j ≡ (if k == j then 1 else nth_bit w j) =
      λ j. ground (arith, nth_bit-bit_or w (2 ^ k) j, nth_bit-pow k j, nth_bit-le-one w j) in
    record {
      word = bit_or-lt 32 w (2 ^ k) h (omega (arith, small));
      frame =
          omega (
            arith,
            flags_or w (2 ^ k) small,
            bit_or-lt 12 (w % 2 ^ 12) (2 ^ k) (omega arith) small,
          );
      low = low_of_bits k true w (bit_or w (2 ^ k)) pos (bits 0);
      bits = λ j lt. bits j;
    }
set_word-Flagged k false w pos small h =
    let g = 2 ^ 12 - 1 - 2 ^ k in
    let mask : complement (2 ^ k) ≡ 2 ^ 12 * (2 ^ 20 - 1) + g = omega (arith, small) in
    let bits : (j : ℕ)
        → j < 32
        → nth_bit (bit_and w (complement (2 ^ k))) j ≡ (if k == j then 0 else nth_bit w j) =
      λ j lt. ground (
        arith,
        nth_bit-bit_and w (complement (2 ^ k)) j,
        nth_bit-complement 32 (2 ^ k) j (omega (arith, small)) lt,
        nth_bit-pow k j,
        nth_bit-le-one w j,
      ) in
    record {
      word = omega (arith, h, bit_and-le w (complement (2 ^ k)));
      frame =
          ap (λ m. bit_and w m / 2 ^ 12) mask
          ∙ omega (arith, flags_and w g h (omega arith), bit_and-le (w % 2 ^ 12) g);
      low = low_of_bits k false w (bit_and w (complement (2 ^ k))) pos (bits 0 (omega arith));
      bits = bits;
    }

flag_in_lem : (k w : ℕ) → flag_in (2 ^ k) w ≡ (nth_bit w k == 1)
flag_in_lem k w =
    let e = bit_and-pow w k in
    let pos : 0 < 2 ^ k = one-le-pow k 2 (omega arith) in
    elim (Bool-cases (nth_bit w k == 1)) [
      | inl y ↦
          let one : bit_and w (2 ^ k) ≡ 2 ^ k =
            e ∙ ap (λ n. n * 2 ^ k) ((==_iff (nth_bit w k) 1).0 y) ∙ omega arith in
          rw y (ap not (ne→==_false (bit_and w (2 ^ k)) 0 (omega (arith, one, pos))))
      | inr n ↦
          let clear : nth_bit w k ≡ 0 = ground (arith, n, nth_bit-le-one w k) in
          let nothing : bit_and w (2 ^ k) ≡ 0 = e ∙ ap (λ n. n * 2 ^ k) clear ∙ omega arith in
          rw n (rw nothing refl)
    ]

-- What `has_flag` answers.
has_flag_lem :
    {pd : ℕ} {s : Paging}
    → IsDirectory pd s
    → (k ua : ℕ) → ua < phys_base
    → has_flag (2 ^ k) pd ua s ≡ some (nth_bit (pte s pd ua) k == 1)
unfolding has_flag
has_flag_lem {pd} {s} v k ua user =
    rw (lookup_lem v ua user) (elim (Bool-cases (dir_entry s pd ua == 0)) [
      | inl e ↦
          let clear : (nth_bit 0 k == 1) ≡ false = ground (arith, nth_bit-zero k) in
          rw (e, clear) refl
      | inr e ↦
          let some_slot : (slot s pd ua == 0) ≡ false = ground arith in
          rw (e, some_slot) (ap some (flag_in_lem k (s.mem (slot s pd ua))))
    ])

resolve-Flagged :
    {k : ℕ} {value : Bool} {w w' : ℕ}
    → Flagged k value w w'
    → (ua : ℕ) → resolve w' ua ≡ resolve w ua
resolve-Flagged f ua = rw (f.low, f.frame) refl

-- What setting bit `k` does: nothing to where addresses are found, and to the bits of other pages.
pub record Marked (k : ℕ) (value : Bool) (pd vpage : ℕ) (s s' : Paging) : Type 0 where
  pub valid : IsDirectory pd s'
  pub found : (ua : ℕ) → ua < phys_base → pagedir_get_page pd ua s' ≡ pagedir_get_page pd ua s
  pub flags :
      (j ua : ℕ)
      → j < 32
      → ua < phys_base
      → has_flag (2 ^ j) pd ua s'
        ≡ (if ua / 2 ^ 12 == vpage / 2 ^ 12 && k == j then some value else has_flag (2 ^ j) pd ua s)

kept_word :
    (b : Bool) (w e ua : ℕ)
    → (b ≡ true → resolve w ua ≡ resolve e ua)
    → resolve (if b then w else e) ua ≡ resolve e ua
kept_word true w e ua h = h refl
kept_word false w e ua h = refl

bit_value : (value : Bool) → ((if value then 1 else 0) == 1) ≡ value
bit_value true = refl
bit_value false = refl

flag_or_kept :
    (b : Bool) (k j : ℕ) (value : Bool) (w e : ℕ)
    → (b ≡ true → nth_bit w j ≡ (if k == j then (if value then 1 else 0) else nth_bit e j))
    → some (nth_bit (if b then w else e) j == 1)
      ≡ (if b && k == j then some value else some (nth_bit e j == 1))
flag_or_kept true k j value w e h = elim (Bool-cases (k == j)) [
  | inl y ↦ rw y (ap (λ n. some (n == 1)) (h refl ∙ rw y refl) ∙ ap some (bit_value value))
  | inr n ↦ rw n (ap (λ n. some (n == 1)) (h refl ∙ rw n refl))
]
flag_or_kept false k j value w e h = refl

marked_lem :
    {pd : ℕ} {s : Paging} {k : ℕ} {value : Bool}
    → IsDirectory pd s
    → (vpage : ℕ) → vpage < phys_base
    → dir_entry s pd vpage ≢ 0
    → (w : ℕ) → Flagged k value (s.mem (slot s pd vpage)) w
    → (c : ℕ) → Marked k value pd vpage s (record (poke (slot s pd vpage) w s) { cr3 = c })
marked_lem {pd} {s} {k} {value} v vpage user there w f c =
    let one : pte s pd vpage ≡ s.mem (slot s pd vpage) =
      ap (λ b. if b then 0 else s.mem (slot s pd vpage)) (ne→==_false _ _ there) in
    let small : w % 2 ≡ 1 → w < 2 ^ 30 = λ odd.
      omega (arith, f.frame, one, v.frames vpage user (ap (λ x. x % 2) one ∙ sym f.low ∙ odd)) in
    let v' = reload-IsDirectory (poke-IsDirectory v vpage user there w f.word small) c in
    let shared : (ua : ℕ)
        → (ua / 2 ^ 12 == vpage / 2 ^ 12) ≡ true
        → s.mem (slot s pd vpage) ≡ pte s pd ua =
      λ ua e. sym (same_page s pd ua vpage ((==_iff (ua / 2 ^ 12) (vpage / 2 ^ 12)).0 e) ∙ one) in
    record {
      valid = v';
      found = λ ua h.
          get_page_lem v' ua h
          ∙ ap (λ x. some (resolve x ua)) (pte-poke v vpage user there w ua h)
          ∙ ap some (
              kept_word (ua / 2 ^ 12 == vpage / 2 ^ 12) w (pte s pd ua) ua
                (λ e. resolve-Flagged f ua ∙ ap (λ x. resolve x ua) (shared ua e)))
          ∙ sym (get_page_lem v ua h);
      flags = λ j ua lt h.
          has_flag_lem v' j ua h
          ∙ ap (λ x. some (nth_bit x j == 1)) (pte-poke v vpage user there w ua h)
          ∙ flag_or_kept (ua / 2 ^ 12 == vpage / 2 ^ 12) k j value w (pte s pd ua) (λ e.
            f.bits j lt
            ∙ ap (λ x. if k == j then (if value then 1 else 0) else nth_bit x j) (shared ua e))
          ∙ ap (λ o. if ua / 2 ^ 12 == vpage / 2 ^ 12 && k == j then some value else o)
              (sym (has_flag_lem v j ua h));
    }

-- `pagedir_set_dirty` for bit 6, and `pagedir_set_accessed` for bit 5, of a page that has a page table, with
-- a directory of the kernel's memory active: the call passes its ASSERTs and keeps the directory well-formed.
-- Afterwards the flag of the page is the value, every other flag of it and those of the user's other pages
-- are as before, and each address of the user is found where it was.
pub set_flag_lem :
    {pd : ℕ} {s : Paging}
    → IsDirectory pd s
    → (k : ℕ) → (0 < k) × (2 ^ k < 2 ^ 12)
    → (value : Bool) (vpage : ℕ) → vpage < phys_base
    → s.cr3 < phys_base
    → dir_entry s pd vpage ≢ 0
    → (s' : Paging) × (set_flag (2 ^ k) pd vpage value s ≡ some s') × Marked k value pd vpage s s'
unfolding set_flag
set_flag_lem {pd} {s} v k small true vpage user active there =
    let a = slot s pd vpage in
    let some_slot : (a == 0) ≡ false = ground arith in
    let f = set_word-Flagged k true (s.mem a) small.0 small.1 (v.words a) in
    (
      poke a (bit_or (s.mem a) (2 ^ k)) s,
      rw (lookup_lem v vpage user, ne→==_false _ _ there, some_slot) refl,
      marked_lem v vpage user there (bit_or (s.mem a) (2 ^ k)) f s.cr3,
    )
set_flag_lem {pd} {s} v k small false vpage user active there =
    let a = slot s pd vpage in
    let some_slot : (a == 0) ≡ false = ground arith in
    let w = bit_and (s.mem a) (complement (2 ^ k)) in
    let f = set_word-Flagged k false (s.mem a) small.0 small.1 (v.words a) in
    let (c, run) = invalidate_lem pd (poke a w s) v.above active in
    (
      record (poke a w s) { cr3 = c },
      rw (lookup_lem v vpage user, ne→==_false _ _ there, some_slot) run,
      marked_lem v vpage user there w f c,
    )
