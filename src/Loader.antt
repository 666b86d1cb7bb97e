-- ===== src/Loader.antt =====
-- The loader of programs: `load`, `validate_segment` and `load_segment` of pintos/src/userprog/process.c,
-- on the table of Spt and the files of FileSys. The structures of the ELF format are read from the bytes
-- of the file, the low byte of a word first. What `malloc` answers for a page is a function of its address. `none`
-- is a failed ASSERT.
pub mod Segment
pub mod Validate
pub mod Image
use sogang_pint_os.Common.{
  ℕ, zero, suc, ◌+◌, ◌-◌, ◌*◌, ◌/◌, ◌%◌, ◌^◌, Bool, true, false, not, ◌&&◌, ◌||◌, Option, none,
  some, ltb, leb, ◌==◌, if◌then◌else◌,
}
use sogang_pint_os.Common.Panic.{◌>>=◌, ◌>>◌, assert}
use sogang_pint_os.Palloc.{pg_size, pg_ofs}
use sogang_pint_os.Pagedir.{is_user_vaddr}
use sogang_pint_os.Hash.{Hash}
use sogang_pint_os.FileSys.Inode.{Buffer, FileSys}
use sogang_pint_os.FileSys.File.{File, file_read, file_length, file_seek}
use sogang_pint_os.Spt.{PageEntry, vm_bin, insert_pge}

-- `struct Elf32_Phdr`, the fields that the code reads.
pub record Elf32Phdr : Type 0 where
  pub p_type : ℕ
  pub p_offset : ℕ
  pub p_vaddr : ℕ
  pub p_filesz : ℕ
  pub p_memsz : ℕ
  pub p_flags : ℕ

-- Elf32_Half and Elf32_Word in a buffer.
abbrev half_at : Buffer → ℕ → ℕ
half_at b i = b i + 2 ^ 8 * b (i + 1)

abbrev word_at : Buffer → ℕ → ℕ
word_at b i = half_at b i + 2 ^ 16 * half_at b (i + 2)

abbrev phdr_at : Buffer → Elf32Phdr
phdr_at b = record {
  p_type = word_at b 0;
  p_offset = word_at b 4;
  p_vaddr = word_at b 8;
  p_filesz = word_at b 16;
  p_memsz = word_at b 20;
  p_flags = word_at b 24;
}

-- `struct Elf32_Ehdr`, the fields that `load` uses.
record Elf32Ehdr : Type 0 where
  e_ident : Buffer
  e_type : ℕ
  e_machine : ℕ
  e_version : ℕ
  e_entry : ℕ
  e_phoff : ℕ
  e_phentsize : ℕ
  e_phnum : ℕ

abbrev ehdr_at : Buffer → Elf32Ehdr
ehdr_at b = record {
  e_ident = b;
  e_type = half_at b 16;
  e_machine = half_at b 18;
  e_version = word_at b 20;
  e_entry = word_at b 24;
  e_phoff = word_at b 28;
  e_phentsize = half_at b 42;
  e_phnum = half_at b 44;
}

-- The seven bytes "\177ELF\1\1\1".
abbrev is_elf : Buffer → Bool
is_elf b = b 0 == 127 && b 1 == 69 && b 2 == 76 && b 3 == 70 && b 4 == 1 && b 5 == 1 && b 6 == 1

-- The tests of `load` on the executable header.
is_loadable : Elf32Ehdr → Bool
is_loadable ehdr =
    is_elf ehdr.e_ident
    && ehdr.e_type == 2
    && ehdr.e_machine == 3
    && ehdr.e_version == 1
    && ehdr.e_phentsize == 32
    && leb ehdr.e_phnum 1024

-- `validate_segment`, with the length of the file.
unfoldable pub validate_segment : Elf32Phdr → ℕ → Bool
validate_segment phdr file_length =
    if not (pg_ofs phdr.p_offset == pg_ofs phdr.p_vaddr)
    then false
    else if ltb file_length phdr.p_offset
    then false
    else if ltb phdr.p_memsz phdr.p_filesz
    then false
    else if phdr.p_memsz == 0
    then false
    else if not (is_user_vaddr phdr.p_vaddr)
    then false
    else if not (is_user_vaddr ((phdr.p_vaddr + phdr.p_memsz) % 2 ^ 32))
    then false
    else if ltb ((phdr.p_vaddr + phdr.p_memsz) % 2 ^ 32) phdr.p_vaddr
    then false
    else if ltb phdr.p_vaddr pg_size
    then false
    else true

-- The entry that `load_segment` makes for one page.
abbrev pub bin_entry : File → ℕ → ℕ → ℕ → Bool → PageEntry
bin_entry file ofs upage page_read_bytes writable = record {
  type = vm_bin;
  vaddr = upage;
  writable = writable;
  is_loaded = false;
  file = some file;
  offset = ofs;
  read_bytes = page_read_bytes;
  zero_bytes = pg_size - page_read_bytes;
  swap_slot = 0;
}

-- What `malloc` answers for the entry of the page at an address, and for the buckets of the table then.
pub record Supply : Type 0 where
  pub entry : ℕ → Bool
  pub buckets : ℕ → Bool

-- The loop of `load_segment`, on the number of pages.
pub segment_loop :
    ℕ → Supply → File → ℕ → ℕ → ℕ → ℕ → Bool → Hash PageEntry → Option (Bool × Hash PageEntry)
segment_loop zero m file ofs upage read_bytes zero_bytes writable spt =
    if read_bytes == 0 && zero_bytes == 0 then some (true, spt) else none
segment_loop (suc n) m file ofs upage read_bytes zero_bytes writable spt =
    let page_read_bytes = if ltb read_bytes pg_size then read_bytes else pg_size in
    let page_zero_bytes = pg_size - page_read_bytes in
    let rest = (do
      (inserted, spt') ←
          insert_pge (m.buckets upage) spt (bin_entry file ofs upage page_read_bytes writable)
      segment_loop n m file ((ofs + page_read_bytes) % 2 ^ 32) ((upage + pg_size) % 2 ^ 32)
          (read_bytes - page_read_bytes) ((zero_bytes + 2 ^ 32 - page_zero_bytes) % 2 ^ 32) writable
          spt') in
    if read_bytes == 0 && zero_bytes == 0
    then some (true, spt)
    else if m.entry upage
    then rest
    else some (false, spt)

pub load_segment :
    Supply → File → ℕ → ℕ → ℕ → ℕ → Bool → Hash PageEntry → Option (Bool × File × Hash PageEntry)
unfolding segment_loop
load_segment m file ofs upage read_bytes zero_bytes writable spt = do
  let total = (read_bytes + zero_bytes) % 2 ^ 32
  assert (total % pg_size == 0)
  assert (pg_ofs upage == 0)
  assert (ofs % pg_size == 0)
  let file' = file_seek file ofs
  (ok, spt') ← segment_loop (total / pg_size) m file' ofs upage read_bytes zero_bytes writable spt
  some (ok, file', spt')

-- ROUND_UP to whole pages.
abbrev pub round_up : ℕ → ℕ
round_up x = (x + (pg_size - 1)) % 2 ^ 32 / pg_size * pg_size

-- The branch of PT_LOAD.
pub load_phdr :
    Supply → Elf32Phdr → ℕ → File → Hash PageEntry → Option (Bool × File × Hash PageEntry)
unfolding validate_segment load_segment
load_phdr m phdr file_length file spt =
    if validate_segment phdr file_length
    then (let writable = not (phdr.p_flags / 2 % 2 == 0) in
        let file_page = phdr.p_offset - pg_ofs phdr.p_offset in
        let mem_page = phdr.p_vaddr - pg_ofs phdr.p_vaddr in
        let page_offset = pg_ofs phdr.p_vaddr in
        let end = round_up ((page_offset + phdr.p_memsz) % 2 ^ 32) in
        let read_bytes = (page_offset + phdr.p_filesz) % 2 ^ 32 in
        if ltb 0 phdr.p_filesz
        then load_segment m file file_page mem_page read_bytes
            ((end + 2 ^ 32 - read_bytes) % 2 ^ 32) writable spt
        else load_segment m file file_page mem_page 0 end writable spt)
    else some (false, file, spt)

-- The loop of `load` over the program headers, `n` of them.
load_loop :
    ℕ
    → Bool
    → Supply
    → ℕ
    → File
    → Hash PageEntry
    → FileSys
    → Option (Bool × File × Hash PageEntry × FileSys)
unfolding load_phdr
load_loop zero no_memory m file_ofset file spt s = some (true, file, spt, s)
load_loop (suc n) no_memory m file_ofset file spt s = do
  length ← file_length file s
  if leb (2 ^ 31) file_ofset || ltb length file_ofset then some (false, file, spt, s) else (do
    (readed, file₁, b, s₁) ← file_read no_memory (file_seek file file_ofset) (λ i. 0) 32 s
    if not (readed == 32) then some (false, file₁, spt, s₁) else (do
      let phdr = phdr_at b
      (ok, file₂, spt₁) ←
          (if phdr.p_type == 1
            then load_phdr m phdr length file₁ spt
            else some
                (not (leb 2 phdr.p_type && leb phdr.p_type 3 || phdr.p_type == 5), file₁, spt))
      let rest = load_loop n no_memory m ((file_ofset + 32) % 2 ^ 32) file₂ spt₁ s₁
      if ok then rest else some (false, file₂, spt₁, s₁)))

-- The part of `load` that reads the executable from its file.
unfoldable load_executable :
    Bool
    → Supply
    → File
    → Hash PageEntry
    → FileSys
    → Option (Option ℕ × File × Hash PageEntry × FileSys)
unfolding is_loadable load_loop
load_executable no_memory m file spt s = do
  (readed, file₁, b, s₁) ← file_read no_memory file (λ i. 0) 52 s
  let ehdr = ehdr_at b
  if not (readed == 52) || not (is_loadable ehdr) then some (none, file₁, spt, s₁) else (do
    (ok, file₂, spt₁, s₂) ← load_loop ehdr.e_phnum no_memory m ehdr.e_phoff file₁ spt s₁
    some (if ok then some ehdr.e_entry else none, file₂, spt₁, s₂))
