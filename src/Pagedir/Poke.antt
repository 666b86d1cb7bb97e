-- ===== src/Pagedir/Poke.antt =====
-- Writing the entry of a page in its page table, of pintos/src/userprog/pagedir.c.
use mathlib.Core.Path.{subst}
use sogang_pint_os.Common.{
  ℕ, ◌+◌, ◌*◌, ◌/◌, ◌%◌, ◌^◌, ◌<◌, ◌≡◌, ◌≢◌, refl, sym, ap, ◌∙◌, inl, inr, Bool, true, false, arith,
  ◌==◌, if◌then◌else◌, Bool-cases, ne→==_false, ==_iff,
}
use sogang_pint_os.Pagedir.{Paging, phys_base, pt_no, pd_no, poke}
use sogang_pint_os.Pagedir.Lookup.{dir_entry, table, slot, pte, Used, IsDirectory, pd_no-lt}
use sogang_pint_os.Pagedir.Create.{pte_of}

module _ {pd : ℕ} {s : Paging} (v : IsDirectory pd s) (va : ℕ) (user : va < phys_base)
    (there : dir_entry s pd va ≢ 0) (w : ℕ) where
  abbrev s' : Paging
  s' = poke (slot s pd va) w s

  same_entry : (i : ℕ) → i < 768 → s'.mem (pd + 4 * i) ≡ s.mem (pd + 4 * i)
  same_entry i h =
      let t = v.tables (pd_no va) (pd_no-lt va user) there in
      let outside : (pd + 4 * i == slot s pd va) ≡ false =
        ne→==_false _ _ (λ e. t.2 (omega (arith, e, v.aligned))) in
      rw outside refl

  -- The entries of two addresses are the same word exactly if the addresses are of one page.
  same_slot :
      (ua : ℕ)
      → ua < phys_base
      → dir_entry s pd ua ≢ 0
      → (slot s pd ua == slot s pd va) ≡ (ua / 2 ^ 12 == va / 2 ^ 12)
  same_slot ua h there' = elim (Bool-cases (ua / 2 ^ 12 == va / 2 ^ 12)) [
    | inl e ↦
        let same_pd : pd_no ua ≡ pd_no va = ground arith in
        let same_pt : pt_no ua ≡ pt_no va = ground arith in
        (==_iff _ _).1 (
          ap (λ i. table (s.mem (pd + 4 * i)) + 4 * pt_no ua) same_pd
          ∙ ap (λ (k : ℕ). table (dir_entry s pd va) + 4 * k) same_pt)
        ∙ sym e
    | inr e ↦ ne→==_false _ _ (other e) ∙ sym e
  ]
    where
      other : (ua / 2 ^ 12 == va / 2 ^ 12) ≡ false → slot s pd ua ≢ slot s pd va
      other e q =
          let one_table : table (dir_entry s pd ua) ≡ table (dir_entry s pd va) =
            omega (arith, q) in
          let one_entry =
            v.apart (pd_no ua) (pd_no va) (pd_no-lt ua h) (pd_no-lt va user) there' there
              one_table in
          ground (arith, q, one_entry)

  word_at :
      (ua : ℕ)
      → ua < phys_base
      → dir_entry s pd ua ≢ 0
      → s'.mem (slot s pd ua) ≡ (if ua / 2 ^ 12 == va / 2 ^ 12 then w else s.mem (slot s pd ua))
  word_at ua h there' = ap (λ b. if b then w else s.mem (slot s pd ua)) (same_slot ua h there')

  -- One page has the new entry, and no other page has another one than before.
  pub pte-poke :
      (ua : ℕ)
      → ua < phys_base
      → pte s' pd ua ≡ (if ua / 2 ^ 12 == va / 2 ^ 12 then w else pte s pd ua)
  pte-poke ua h =
      pte_of s' pd ua (dir_entry s pd ua) (same_entry (pd_no ua) (pd_no-lt ua h))
      ∙ elim (Bool-cases (dir_entry s pd ua == 0)) [
        | inl e ↦
            let absent : dir_entry s pd ua ≡ 0 = (==_iff _ _).0 e in
            let off : (ua / 2 ^ 12 == va / 2 ^ 12) ≡ false = ne→==_false _ _ (λ q.
              let one : pd_no va ≡ pd_no ua = omega (arith, q) in
              there (ap (λ i. s.mem (pd + 4 * i)) one ∙ absent)) in
            rw (e, off) refl
        | inr e ↦ rw e (word_at ua h (ground arith))
      ]

  pub poke-IsDirectory : w < 2 ^ 32 → (w % 2 ≡ 1 → w < 2 ^ 30) → IsDirectory pd s'
  poke-IsDirectory word frame = record {
    pools = v.pools;
    kernel = v.kernel;
    words =
        λ a. elim (Bool-cases (a == slot s pd va)) [ inl e ↦ rw e word | inr e ↦ rw e (v.words a) ];
    aligned = v.aligned;
    above = v.above;
    used = v.used;
    tables = λ i h there'.
        let t = v.tables i h (λ q. there' (same_entry i h ∙ q)) in
        subst (λ e. (e % 2 ≡ 1) × (e < 2 ^ 30) × (table e ≢ pd) × Used s.pools (table e))
          (sym (same_entry i h)) t;
    apart = λ i j hi hj ti tj e.
        v.apart i j hi hj (λ q. ti (same_entry i hi ∙ q)) (λ q. tj (same_entry j hj ∙ q))
          (ap table (sym (same_entry i hi)) ∙ e ∙ ap table (same_entry j hj));
    frames = λ ua h odd.
        subst (λ e. e < 2 ^ 30) (sym (pte-poke ua h))
          (framed (ua / 2 ^ 12 == va / 2 ^ 12) (pte s pd ua) (v.frames ua h)
            (sym (ap (λ e. e % 2) (pte-poke ua h)) ∙ odd));
  }
    where
      framed :
          (b : Bool) (e : ℕ)
          → (e % 2 ≡ 1 → e < 2 ^ 30)
          → (if b then w else e) % 2 ≡ 1
          → (if b then w else e) < 2 ^ 30
      framed true e old odd = frame odd
      framed false e old odd = old odd
