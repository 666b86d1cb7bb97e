-- ===== src/Pagedir.antt =====
-- Page directories: pintos/src/userprog/pagedir.c, on the entries of threads/pte.h and the addresses of
-- threads/vaddr.h. Memory is its 32-bit words by address; pages come from the allocator of Palloc. The
-- null pointer is 0, and `none` is a failed ASSERT. What the translation buffer keeps is not modelled, so
-- that invalidating it leaves the state as it is.
pub mod Words
pub mod Lookup
pub mod Create
pub mod Poke
pub mod Laws
pub mod Bits
use Prim.Native.Nat.{bit_and, bit_or}
use sogang_pint_os.Common.{
  ℕ, zero, suc, ◌+◌, ◌-◌, ◌*◌, ◌/◌, ◌%◌, ◌^◌, Bool, true, false, not, ◌&&◌, ◌||◌, Option, none,
  some, ltb, leb, ◌==◌, if◌then◌else◌,
}
use sogang_pint_os.Common.Panic.{◌>>=◌, ◌>>◌, assert}
use sogang_pint_os.Palloc.{Pools, Flags, pg_size, pg_ofs, pg_no, palloc_get_page, palloc_free_page}

-- PHYS_BASE
abbrev pub phys_base : ℕ
phys_base = 0xc0000000

abbrev pub is_user_vaddr : ℕ → Bool
is_user_vaddr vaddr = ltb vaddr phys_base

abbrev pub is_kernel_vaddr : ℕ → Bool
is_kernel_vaddr vaddr = leb phys_base vaddr

abbrev pub ptov : ℕ → Option ℕ
ptov paddr = do assert (ltb paddr phys_base); some (paddr + phys_base)

abbrev pub vtop : ℕ → Option ℕ
vtop vaddr = do assert (is_kernel_vaddr vaddr); some (vaddr - phys_base)

abbrev pub pt_no : ℕ → ℕ
pt_no va = va / 2 ^ 12 % 2 ^ 10

abbrev pub pd_no : ℕ → ℕ
pd_no va = va / 2 ^ 22

-- PTE_ADDR, PTE_P, PTE_W, PTE_U, PTE_A and PTE_D
abbrev pub pte_addr : ℕ
pte_addr = 0xfffff000

abbrev pub pte_p : ℕ
pte_p = 0x1

abbrev pub pte_w : ℕ
pte_w = 0x2

abbrev pub pte_u : ℕ
pte_u = 0x4

abbrev pub pte_a : ℕ
pte_a = 0x20

abbrev pub pte_d : ℕ
pte_d = 0x40

-- The complement of a word.
abbrev pub complement : ℕ → ℕ
complement w = 2 ^ 32 - 1 - w

abbrev pub flag_in : ℕ → ℕ → Bool
flag_in flag entry = not (bit_and entry flag == 0)

pub pde_create : ℕ → Option ℕ
pde_create pt = do
  assert (pg_ofs pt == 0)
  paddr ← vtop pt
  some (bit_or (bit_or (bit_or paddr pte_u) pte_p) pte_w)

pub pde_get_pt : ℕ → Option ℕ
pde_get_pt pde = do assert (flag_in pte_p pde); ptov (bit_and pde pte_addr)

pub pte_create_kernel : ℕ → Bool → Option ℕ
pte_create_kernel page writable = do
  assert (pg_ofs page == 0)
  paddr ← vtop page
  some (bit_or (bit_or paddr pte_p) (if writable then pte_w else 0))

pub pte_create_user : ℕ → Bool → Option ℕ
unfolding pte_create_kernel
pte_create_user page writable = do pte ← pte_create_kernel page writable; some (bit_or pte pte_u)

pub pte_get_page : ℕ → Option ℕ
pte_get_page pte = ptov (bit_and pte pte_addr)

-- Memory, the page allocator, the variables of init.c, and the register with the active directory.
pub record Paging : Type 0 where
  pub mem : ℕ → ℕ
  pub pools : Pools
  pub init_page_dir : ℕ
  pub init_ram_pages : ℕ
  pub cr3 : ℕ

abbrev pub poke : ℕ → ℕ → Paging → Paging
poke a w s = record s { mem = λ b. if b == a then w else s.mem b }

-- A page of zeros, which PAL_ZERO asks for.
abbrev pub zero_page : ℕ → Paging → Paging
zero_page page s = record s { mem = λ b. if pg_no b == pg_no page then 0 else s.mem b }

abbrev pub zeroed : Flags
zeroed = record { pal_assert = false; pal_zero = true; pal_user = false }

abbrev pub unzeroed : Flags
unzeroed = record { pal_assert = false; pal_zero = false; pal_user = false }

-- A new page table for the entry at `pde`, in the branch of `lookup_page` that creates one.
pub create_table : ℕ → Paging → Option (Bool × Paging)
unfolding pde_create
create_table pde s = do
  (pt, pools) ← palloc_get_page zeroed s.pools
  let s₁ = record s { pools = pools }
  if pt == 0
      then some (false, s₁)
      else (do entry ← pde_create pt; some (true, poke pde entry (zero_page pt s₁)))

-- The end of `lookup_page`: the address of the entry in the page table.
pub entry_in_table : ℕ → ℕ → Paging → Option (ℕ × Paging)
unfolding pde_get_pt
entry_in_table pde vaddr s = do pt ← pde_get_pt (s.mem pde); some (pt + 4 * pt_no vaddr, s)

pub lookup_page : ℕ → ℕ → Bool → Paging → Option (ℕ × Paging)
unfolding create_table entry_in_table
lookup_page pd vaddr create s = do
  assert (not (pd == 0))
  assert (not create || is_user_vaddr vaddr)
  let pde = pd + 4 * pd_no vaddr
  if s.mem pde == 0
      then (if create
          then (do
            (created, s') ← create_table pde s
            if created then entry_in_table pde vaddr s' else some (0, s'))
          else some (0, s))
      else entry_in_table pde vaddr s

unfoldable pagedir_create : Paging → Option (ℕ × Paging)
pagedir_create s = do
  (pd, pools) ← palloc_get_page unzeroed s.pools
  let s₁ = record s { pools = pools }
  some (
    pd,
    if pd == 0 then s₁ else record s₁ {
      mem = λ b. if pg_no b == pg_no pd then s.mem (s.init_page_dir + pg_ofs b) else s.mem b;
    },
  )

pub pagedir_set_page : ℕ → ℕ → ℕ → Bool → Paging → Option (Bool × Paging)
pagedir_set_page pd upage kpage writable s = do
  assert (pg_ofs upage == 0)
  assert (pg_ofs kpage == 0)
  assert (is_user_vaddr upage)
  paddr ← vtop kpage
  assert (ltb (paddr / 2 ^ 12) s.init_ram_pages)
  assert (not (pd == s.init_page_dir))
  (pte, s') ← lookup_page pd upage true s
  if pte == 0 then some (false, s') else (do
    assert (bit_and (s'.mem pte) pte_p == 0)
    entry ← pte_create_user kpage writable
    some (true, poke pte entry s'))

pub pagedir_get_page : ℕ → ℕ → Paging → Option ℕ
pagedir_get_page pd uaddr s = do
  assert (is_user_vaddr uaddr)
  (pte, s') ← lookup_page pd uaddr false s
  if not (pte == 0) && flag_in pte_p (s'.mem pte)
      then (do page ← pte_get_page (s'.mem pte); some (page + pg_ofs uaddr))
      else some 0

-- Loading a directory, 0 for the one of init.c.
pagedir_activate : ℕ → Paging → Option Paging
pagedir_activate pd s = do
  paddr ← vtop (if pd == 0 then s.init_page_dir else pd)
  some (record s { cr3 = paddr })

active_pd : Paging → Option ℕ
active_pd s = ptov s.cr3

pub invalidate_pagedir : ℕ → Paging → Option Paging
unfolding active_pd pagedir_activate
invalidate_pagedir pd s = do
  active ← active_pd s
  if active == pd then pagedir_activate pd s else some s

pub pagedir_clear_page : ℕ → ℕ → Paging → Option Paging
pagedir_clear_page pd upage s = do
  assert (pg_ofs upage == 0)
  assert (is_user_vaddr upage)
  (pte, s') ← lookup_page pd upage false s
  if not (pte == 0) && flag_in pte_p (s'.mem pte)
      then invalidate_pagedir pd (poke pte (bit_and (s'.mem pte) (complement pte_p)) s')
      else some s'

-- `pagedir_is_dirty` and `pagedir_is_accessed`, by their flag.
pub has_flag : ℕ → ℕ → ℕ → Paging → Option Bool
has_flag flag pd vpage s = do
  (pte, s') ← lookup_page pd vpage false s
  some (not (pte == 0) && flag_in flag (s'.mem pte))

-- `pagedir_set_dirty` and `pagedir_set_accessed`.
pub set_flag : ℕ → ℕ → ℕ → Bool → Paging → Option Paging
set_flag flag pd vpage value s = do
  (pte, s') ← lookup_page pd vpage false s
  if pte == 0
      then some s'
      else if value
      then some (poke pte (bit_or (s'.mem pte) flag) s')
      else invalidate_pagedir pd (poke pte (bit_and (s'.mem pte) (complement flag)) s')

unfoldable pagedir_is_dirty : ℕ → ℕ → Paging → Option Bool
unfolding has_flag
pagedir_is_dirty pd vpage s = has_flag pte_d pd vpage s

unfoldable pagedir_set_dirty : ℕ → ℕ → Bool → Paging → Option Paging
unfolding set_flag
pagedir_set_dirty pd vpage dirty s = set_flag pte_d pd vpage dirty s

unfoldable pagedir_is_accessed : ℕ → ℕ → Paging → Option Bool
unfolding has_flag
pagedir_is_accessed pd vpage s = has_flag pte_a pd vpage s

unfoldable pagedir_set_accessed : ℕ → ℕ → Bool → Paging → Option Paging
unfolding set_flag
pagedir_set_accessed pd vpage accessed s = set_flag pte_a pd vpage accessed s

-- The loops of `pagedir_destroy`: over the entries of a page table, and over those of the directory.
free_pages : ℕ → ℕ → Paging → Option Paging
unfolding pte_get_page
free_pages zero pte s = some s
free_pages (suc n) pte s =
    (if flag_in pte_p (s.mem pte)
      then (do
        page ← pte_get_page (s.mem pte)
        pools ← palloc_free_page page s.pools
        some (record s { pools = pools }))
      else some s)
    >>= λ s'. free_pages n (pte + 4) s'

free_tables : ℕ → ℕ → Paging → Option Paging
unfolding pde_get_pt free_pages
free_tables zero pde s = some s
free_tables (suc n) pde s =
    (if flag_in pte_p (s.mem pde)
      then (do
        pt ← pde_get_pt (s.mem pde)
        s₁ ← free_pages 1024 pt s
        pools ← palloc_free_page pt s₁.pools
        some (record s₁ { pools = pools }))
      else some s)
    >>= λ s'. free_tables n (pde + 4) s'

unfoldable pagedir_destroy : ℕ → Paging → Option Paging
unfolding free_tables
pagedir_destroy pd s = if pd == 0 then some s else (do
  assert (not (pd == s.init_page_dir))
  s₁ ← free_tables (pd_no phys_base) pd s
  pools ← palloc_free_page pd s₁.pools
  some (record s₁ { pools = pools }))
