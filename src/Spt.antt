-- ===== src/Spt.antt =====
-- The supplemental page table: the table of pintos/src/vm/page.c, on Hash, and the reading of a page from
-- its file. A file pointer is the file, null is `none`. The answers of `malloc` inside of the hash table
-- are arguments. `none` is a failed ASSERT.
pub mod Laws
use sogang_pint_os.Common.{
  ℕ, ◌+◌, Bool, true, false, ◌&&◌, Option, none, some, ltb, leb, ◌==◌, if◌then◌else◌, List,
}
use sogang_pint_os.Common.Panic.{◌>>=◌, ◌>>◌, assert}
use sogang_pint_os.Palloc.{pg_ofs}
use sogang_pint_os.Malloc.{pg_round_down}
use sogang_pint_os.Hash.{Hash, hash_int, hash_init, hash_find, hash_insert}
use sogang_pint_os.FileSys.Inode.{Buffer, FileSys}
use sogang_pint_os.FileSys.File.{File, file_read_at}

-- `enum vm_type`
pub data VmType : Type 0 where
  vm_anon : VmType
  vm_bin : VmType

-- `struct page_entry`
pub record PageEntry : Type 0 where
  pub type : VmType
  pub vaddr : ℕ
  pub writable : Bool
  pub is_loaded : Bool
  pub file : Option File
  pub offset : ℕ
  pub read_bytes : ℕ
  pub zero_bytes : ℕ
  pub swap_slot : ℕ

pub spt_hash_func : PageEntry → ℕ
spt_hash_func e = hash_int e.vaddr

pub spt_less_func : PageEntry → PageEntry → Bool
spt_less_func a b = ltb a.vaddr b.vaddr

unfoldable spt_init : Bool → (ℕ → List PageEntry) → Bool × Hash PageEntry
spt_init memory garbage = hash_init memory garbage

-- The entry on the stack of `get_pge`, of which only the address is set and read.
abbrev pub key : ℕ → PageEntry
key vaddr = record {
  type = vm_anon;
  vaddr = vaddr;
  writable = false;
  is_loaded = false;
  file = none;
  offset = 0;
  read_bytes = 0;
  zero_bytes = 0;
  swap_slot = 0;
}

pub get_pge : Hash PageEntry → ℕ → Option (Option PageEntry)
get_pge spt vaddr = do
  assert (pg_ofs (pg_round_down vaddr) == 0)
  some (hash_find spt_hash_func spt_less_func spt (key (pg_round_down vaddr)))

-- The result is a null pointer.
pub is_null : Option PageEntry → Bool
is_null none = true
is_null (some e) = false

pub insert_pge : Bool → Hash PageEntry → PageEntry → Option (Bool × Hash PageEntry)
unfolding is_null
insert_pge memory spt pge = do
  assert (pg_ofs pge.vaddr == 0)
  let out = hash_insert spt_hash_func spt_less_func memory spt pge
  some (is_null out.0, out.1)

-- `load_file`, with what the page at `kaddr` holds.
unfoldable load_file : Bool → Buffer → PageEntry → FileSys → Option (Bool × Buffer × FileSys)
load_file no_memory page pge s = do
  assert (elim pge.type [ vm_anon ↦ false | vm_bin ↦ true ])
  file ← pge.file
  (readed, page', s') ← file_read_at no_memory file page pge.read_bytes pge.offset s
  if readed == pge.read_bytes
      then some (
        true,
        λ i. if leb pge.read_bytes i && ltb i (pge.read_bytes + pge.zero_bytes) then 0 else page' i,
        s',
      )
      else some (false, page', s')
