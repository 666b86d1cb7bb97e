-- ===== src/Spt/Laws.antt =====
-- Looking up and inserting in the table of pintos/src/vm/page.c.
use sogang_pint_os.Common.{
  ℕ, ◌≡◌, refl, ap, ◌∙◌, Bool, true, Option, none, some, ◌==◌, if◌then◌else◌, arith,
}
use sogang_pint_os.Palloc.{pg_ofs}
use sogang_pint_os.Malloc.{pg_round_down}
use sogang_pint_os.KernelList.Order.{IsOrder}
use sogang_pint_os.Hash.{Hash, hash_int, equal, hash_find, hash_insert}
use sogang_pint_os.Hash.Table.{first_of}
use sogang_pint_os.Hash.Laws as HashLaws
use sogang_pint_os.Hash.Laws.{hash_insert_lem}
use sogang_pint_os.Spt.{PageEntry, spt_hash_func, spt_less_func, key, get_pge, insert_pge, is_null}

-- The table is well-formed.
abbrev pub IsValid : Hash PageEntry → Type 0
IsValid = HashLaws.IsValid spt_hash_func spt_less_func

-- The entry for a page.
abbrev pub find_pge : Hash PageEntry → ℕ → Option PageEntry
find_pge spt page = hash_find spt_hash_func spt_less_func spt (key page)

less-IsOrder : IsOrder spt_less_func
unfolding spt_less_func
less-IsOrder = record { asym = λ a b h. ground arith; trans = λ a b c h k. ground arith }

-- Two entries are equal where their addresses are.
equal_lem : (a b : PageEntry) → equal spt_less_func a b ≡ (a.vaddr == b.vaddr)
unfolding equal spt_less_func
equal_lem a b = ground arith

same_address : (a b : PageEntry) → equal spt_less_func a b ≡ true → a.vaddr ≡ b.vaddr
unfolding equal spt_less_func
same_address a b e = ground arith

respects : (a b : PageEntry) → equal spt_less_func a b ≡ true → spt_hash_func a ≡ spt_hash_func b
unfolding spt_hash_func
respects a b e = ap hash_int (same_address a b e)

get_pge_lem :
    (spt : Hash PageEntry) (vaddr : ℕ)
    → get_pge spt vaddr ≡ some (find_pge spt (pg_round_down vaddr))
unfolding get_pge
get_pge_lem spt vaddr = let e : pg_ofs (pg_round_down vaddr) ≡ 0 = omega arith in rw e refl

-- Inserting an entry keeps the one that its page has.
pub insert_pge_lem :
    (memory : Bool) {spt : Hash PageEntry} (pge : PageEntry)
    → IsValid spt
    → pg_ofs pge.vaddr ≡ 0
    → (out : Bool × Hash PageEntry) × (insert_pge memory spt pge ≡ some out)
      × IsValid out.1
      × ((page : ℕ)
          → find_pge out.1 page
            ≡ first_of (find_pge spt page) (if pge.vaddr == page then some pge else none))
unfolding insert_pge
insert_pge_lem memory {spt} pge v aligned =
    let inserted = hash_insert spt_hash_func spt_less_func memory spt pge in
    let becomes = hash_insert_lem less-IsOrder respects memory spt pge v in
    (
      (is_null inserted.0, inserted.1),
      rw aligned refl,
      becomes.1,
      λ page.
          becomes.2 (key page)
          ∙ ap (λ b. first_of (find_pge spt page) (if b then some pge else none))
              (equal_lem pge (key page)),
    )
