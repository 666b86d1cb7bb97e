-- ===== src/Pagedir/Lookup.antt =====
-- Well-formed page directories, and what `lookup_page` of pintos/src/userprog/pagedir.c finds in them.
use Prim.Native.Nat.{bit_and}
use sogang_pint_os.Common.{
  ℕ, ◌+◌, ◌*◌, ◌/◌, ◌%◌, ◌^◌, ◌<◌, ◌≤◌, ◌≡◌, ◌≢◌, refl, ◌∙◌, inl, inr, true, false, some, arith,
  ltb, ◌==◌, if◌then◌else◌, Bool-cases, lt→ltb,
}
use sogang_pint_os.Palloc.{Pools}
use sogang_pint_os.Palloc.OnePool
use sogang_pint_os.Palloc.OnePool.{in_use}
use sogang_pint_os.Pagedir.{Paging, phys_base, pt_no, pd_no, pte_p, entry_in_table, lookup_page}
use sogang_pint_os.Pagedir.Words.{present, address}

-- The entry of the directory for an address, the page table that an entry points to, and the address of
-- the entry in it.
abbrev pub dir_entry : Paging → ℕ → ℕ → ℕ
dir_entry s pd va = s.mem (pd + 4 * pd_no va)

abbrev pub table : ℕ → ℕ
table e = 2 ^ 12 * (e / 2 ^ 12) + phys_base

abbrev pub slot : Paging → ℕ → ℕ → ℕ
slot s pd va = table (dir_entry s pd va) + 4 * pt_no va

-- What the directory says of an address: the entry of its page, or 0.
abbrev pub pte : Paging → ℕ → ℕ → ℕ
pte s pd va = if dir_entry s pd va == 0 then 0 else s.mem (slot s pd va)

-- If a page is one of the kernel pool's, it is in use.
abbrev pub Used : Pools → ℕ → Type 0
Used pools a =
    (k : ℕ)
    → a ≡ pools.kernel_pool.base + 2 ^ 12 * k
    → k < pools.kernel_pool.used_map.bit_cnt
    → in_use pools.kernel_pool k ≡ true

-- A page directory below PHYS_BASE: its own page and those of its page tables are different pages in use,
-- and what is present lies in memory.
pub record IsDirectory (pd : ℕ) (s : Paging) : Type 0 where
  pub pools : OnePool.IsValid s.pools
  pub kernel : phys_base ≤ s.pools.kernel_pool.base
  pub words : (a : ℕ) → s.mem a < 2 ^ 32
  pub aligned : pd % 2 ^ 12 ≡ 0
  pub above : phys_base ≤ pd
  pub used : Used s.pools pd
  pub tables :
      (i : ℕ)
      → i < 768
      → s.mem (pd + 4 * i) ≢ 0
      → (s.mem (pd + 4 * i) % 2 ≡ 1)
        × (s.mem (pd + 4 * i) < 2 ^ 30)
        × (table (s.mem (pd + 4 * i)) ≢ pd)
        × Used s.pools (table (s.mem (pd + 4 * i)))
  pub apart :
      (i j : ℕ)
      → i < 768
      → j < 768
      → s.mem (pd + 4 * i) ≢ 0
      → s.mem (pd + 4 * j) ≢ 0
      → table (s.mem (pd + 4 * i)) ≡ table (s.mem (pd + 4 * j))
      → i ≡ j
  pub frames : (va : ℕ) → va < phys_base → pte s pd va % 2 ≡ 1 → pte s pd va < 2 ^ 30

pub pd_no-lt : (va : ℕ) → va < phys_base → pd_no va < 768
pd_no-lt va h = omega arith

pub entry_in_table_lem :
    {pd : ℕ} {s : Paging}
    → IsDirectory pd s
    → (va : ℕ) → va < phys_base
    → dir_entry s pd va ≢ 0
    → entry_in_table (pd + 4 * pd_no va) va s ≡ some (slot s pd va, s)
unfolding entry_in_table
entry_in_table_lem {pd} {s} v va user there =
    let t = v.tables (pd_no va) (pd_no-lt va user) there in
    let odd : bit_and (dir_entry s pd va) pte_p ≡ 1 = present (dir_entry s pd va) ∙ t.0 in
    let low : ltb (2 ^ 12 * (dir_entry s pd va / 2 ^ 12)) phys_base ≡ true =
      lt→ltb _ _ (omega (arith, t.1)) in
    rw (odd, address (dir_entry s pd va) (v.words _), low) refl

pub lookup_lem :
    {pd : ℕ} {s : Paging}
    → IsDirectory pd s
    → (va : ℕ) → va < phys_base
    → lookup_page pd va false s ≡ some (if dir_entry s pd va == 0 then 0 else slot s pd va, s)
unfolding lookup_page
lookup_lem {pd} {s} v va user =
    let not_null : (pd == 0) ≡ false = ground (arith, v.above) in
    elim (Bool-cases (dir_entry s pd va == 0)) [
      | inl e ↦ rw (not_null, e) refl
      | inr e ↦ rw (not_null, e) (entry_in_table_lem v va user (ground arith))
    ]
