-- ===== src/Loader/Image.antt =====
-- What a loadable segment of an executable becomes in the memory of the user
-- (pintos/src/userprog/process.c).
use sogang_pint_os.Common.{
  ℕ, ◌+◌, ◌-◌, ◌*◌, ◌/◌, ◌%◌, ◌^◌, ◌<◌, ◌≤◌, ◌≡◌, refl, ◌∙◌, ◌⊎◌, inl, inr, Bool, true, false, not,
  none, some, ltb, ◌==◌, arith, Bool-cases,
}
use sogang_pint_os.Palloc.{pg_size, pg_ofs}
use sogang_pint_os.Pagedir.{phys_base}
use sogang_pint_os.Hash.{Hash}
use sogang_pint_os.Hash.Table.{first_of}
use sogang_pint_os.FileSys.File.{File, file_seek}
use sogang_pint_os.Spt.{PageEntry}
use sogang_pint_os.Spt.Laws.{IsValid, find_pge}
use sogang_pint_os.Loader.{Elf32Phdr, Supply, validate_segment, load_segment, load_phdr, round_up}
use sogang_pint_os.Loader.Segment.{page_of, entry_of, inside, first_of-none, load_segment_lem}
use sogang_pint_os.Loader.Validate.{IsSegment, IsPhdr, validate_segment_lem}

-- An entry that gives the byte at `va` of the user: a byte of the file, or zero behind the bytes that the
-- file has of the segment.
pub record Gives (phdr : Elf32Phdr) (file : File) (va : ℕ) (e : PageEntry) : Type 0 where
  pub address : e.vaddr ≡ va - va % pg_size
  pub from : e.file ≡ some file
  pub writable : e.writable ≡ not (phdr.p_flags / 2 % 2 == 0)
  pub whole : e.read_bytes + e.zero_bytes ≡ pg_size
  pub read :
      va < phdr.p_vaddr + phdr.p_filesz
      → (va % pg_size < e.read_bytes)
        × (e.offset + va % pg_size ≡ phdr.p_offset + (va - phdr.p_vaddr))
  pub zeros : phdr.p_vaddr + phdr.p_filesz ≤ va → e.read_bytes ≤ va % pg_size

-- The page of an address.
abbrev pub page_at : ℕ → ℕ
page_at va = va - va % pg_size

-- What the loading of a segment changes in the table.
pub record Loaded (phdr : Elf32Phdr) (file : File) (spt spt' : Hash PageEntry) : Type 0 where
  pub valid : IsValid spt'
  pub bytes :
      (va : ℕ)
      → phdr.p_vaddr ≤ va
      → va < phdr.p_vaddr + phdr.p_memsz
      → find_pge spt (page_at va) ≡ none
      → (e : PageEntry) × (find_pge spt' (page_at va) ≡ some e) × Gives phdr file va e
  pub kept :
      (page : ℕ) (e : PageEntry)
      → page % pg_size ≡ 0
      → find_pge spt page ≡ some e
      → find_pge spt' page ≡ some e
  pub others :
      (page : ℕ)
      → page % pg_size ≡ 0
      → (page + pg_size ≤ phdr.p_vaddr) ⊎ (phdr.p_vaddr + phdr.p_memsz ≤ page)
      → find_pge spt' page ≡ find_pge spt page

abbrev mem_page : Elf32Phdr → ℕ
mem_page phdr = phdr.p_vaddr - pg_ofs phdr.p_vaddr

abbrev file_page : Elf32Phdr → ℕ
file_page phdr = phdr.p_offset - pg_ofs phdr.p_offset

abbrev flag : Elf32Phdr → Bool
flag phdr = not (phdr.p_flags / 2 % 2 == 0)

-- The bytes read of the first page and those behind it, counted from its start.
abbrev IsRead : Elf32Phdr → ℕ → Type 0
IsRead phdr r =
    (0 < phdr.p_filesz → r ≡ pg_ofs phdr.p_vaddr + phdr.p_filesz) × (phdr.p_filesz ≡ 0 → r ≡ 0)

module _ {phdr : Elf32Phdr} {length : ℕ} (g : IsSegment phdr length) (file : File) where
  gives_lem :
      (r n : ℕ)
      → IsRead phdr r
      → (va : ℕ) → phdr.p_vaddr ≤ va
      → Gives phdr file va
          (page_of file (file_page phdr) (mem_page phdr) r (flag phdr) (page_at va))
  gives_lem r n is va lo = record {
    address = refl;
    from = refl;
    writable = refl;
    whole = ground arith;
    read = λ h. (ground (arith, is, lo, h), ground (arith, is, lo, h, g.same_ofs));
    zeros = λ h. ground (arith, is, lo, h);
  }

  loaded_lem :
      {spt spt' : Hash PageEntry} (r n : ℕ)
      → IsRead phdr r
      → IsValid spt'
      → (pg_ofs phdr.p_vaddr + phdr.p_memsz ≤ pg_size * n)
        × (pg_size * n < pg_ofs phdr.p_vaddr + phdr.p_memsz + pg_size)
      → ((page : ℕ)
          → page % pg_size ≡ 0
          → find_pge spt' page
            ≡ first_of
                (find_pge spt page)
                (entry_of file (file_page phdr) (mem_page phdr) r (flag phdr) n page))
      → Loaded phdr file spt spt'
  loaded_lem {spt} {spt'} r n is v size finds = record {
    valid = v;
    bytes = λ va lo hi empty.
        let in_it : inside (mem_page phdr) n (page_at va) ≡ true = ground (arith, lo, hi, size) in
        (
          page_of file (file_page phdr) (mem_page phdr) r (flag phdr) (page_at va),
          finds (page_at va) (omega arith) ∙ rw (empty, in_it) refl,
          gives_lem r n is va lo,
        );
    kept = λ page e p at. finds page p ∙ rw at refl;
    others = λ page p away.
        let out : inside (mem_page phdr) n page ≡ false = ground (arith, p, away, size) in
        finds page p ∙ rw out (first_of-none (find_pge spt page));
  }

-- The end of a segment in whole pages.
round_up_lem :
    {phdr : Elf32Phdr} {length : ℕ}
    → IsSegment phdr length
    → (n : ℕ) × (round_up ((pg_ofs phdr.p_vaddr + phdr.p_memsz) % 2 ^ 32) ≡ pg_size * n)
      × (pg_ofs phdr.p_vaddr + phdr.p_memsz ≤ pg_size * n)
      × (pg_size * n < pg_ofs phdr.p_vaddr + phdr.p_memsz + pg_size)
round_up_lem {phdr} g =
    let x = pg_ofs phdr.p_vaddr + phdr.p_memsz in
    let small : x % 2 ^ 32 ≡ x = omega (arith, g.below) in
    let more : (x + (pg_size - 1)) % 2 ^ 32 ≡ x + (pg_size - 1) = omega (arith, g.below) in
    ((x + (pg_size - 1)) / pg_size, rw (small, more) (omega arith), omega arith, omega arith)

-- Which call `load_phdr` makes.
module _ {phdr : Elf32Phdr} {length : ℕ} (g : IsSegment phdr length) (m : Supply) (file : File)
    (spt : Hash PageEntry) (ok : validate_segment phdr length ≡ true) (n : ℕ)
    (end : round_up ((pg_ofs phdr.p_vaddr + phdr.p_memsz) % 2 ^ 32) ≡ pg_size * n) where
  with_bytes :
      ltb 0 phdr.p_filesz ≡ true
      → pg_ofs phdr.p_vaddr + phdr.p_memsz ≤ pg_size * n
      → pg_size * n < 2 ^ 32
      → load_phdr m phdr length file spt
        ≡ load_segment m file
            (file_page phdr)
            (mem_page phdr)
            (pg_ofs phdr.p_vaddr + phdr.p_filesz)
            (pg_size * n - (pg_ofs phdr.p_vaddr + phdr.p_filesz))
            (flag phdr)
            spt
  unfolding load_phdr
  with_bytes f covers room =
      let r = pg_ofs phdr.p_vaddr + phdr.p_filesz in
      let small : r % 2 ^ 32 ≡ r = omega (arith, covers, room, g.part) in
      let zeros : (pg_size * n + 2 ^ 32 - r) % 2 ^ 32 ≡ pg_size * n - r =
        omega (arith, covers, room, g.part) in
      rw (ok, f, end, small, zeros) refl

  without_bytes :
      ltb 0 phdr.p_filesz ≡ false
      → load_phdr m phdr length file spt
        ≡ load_segment m file (file_page phdr) (mem_page phdr) 0 (pg_size * n) (flag phdr) spt
  unfolding load_phdr
  without_bytes f = rw (ok, f, end) refl

-- A header of a loadable segment that `validate_segment` accepts, whose bytes the file has, where there is
-- memory for the entries of its pages: every ASSERT of `load_segment` passes, and the loading succeeds. Then each address of the
-- segment whose page had no entry is in a page whose entry gives its byte: that of the file for the first
-- `p_filesz` bytes, zero for the others. Pages that had an entry keep it, and pages that the segment does
-- not touch are as before. All addresses of the segment are the user's and above page 0.
pub load_phdr_lem :
    (m : Supply) (phdr : Elf32Phdr) (length : ℕ) (file : File) {spt : Hash PageEntry}
    → ((page : ℕ) → m.entry page ≡ true)
    → IsPhdr phdr
    → length < 2 ^ 31
    → phdr.p_offset + phdr.p_filesz ≤ length
    → IsValid spt
    → validate_segment phdr length ≡ true
    → (out : File × Hash PageEntry) × (load_phdr m phdr length file spt ≡ some (true, out.0, out.1))
      × (out.0.inode ≡ file.inode)
      × (pg_size ≤ phdr.p_vaddr)
      × (phdr.p_vaddr + phdr.p_memsz < phys_base)
      × Loaded phdr out.0 spt out.1
unfolding file_seek
load_phdr_lem m phdr length file {spt} memory w short inside_file v ok =
    let g = validate_segment_lem w ok in
    let (n, end, covers, tight) = round_up_lem g in
    let sought = file_seek file (file_page phdr) in
    elim (Bool-cases (ltb 0 phdr.p_filesz)) [
      | inl f ↦
          let r = pg_ofs phdr.p_vaddr + phdr.p_filesz in
          let (spt', run, valid, finds) =
            load_segment_lem m file (flag phdr) memory n (file_page phdr) (mem_page phdr) r
              (pg_size * n - r) v (omega (arith, covers, g.part)) (omega arith, omega arith)
              (omega (arith, tight, g.below)) (omega (arith, inside_file, short, g.same_ofs)) in
          (
            (sought, spt'),
            with_bytes g m file spt ok n end f covers (omega (arith, tight, g.below)) ∙ run,
            refl,
            g.above,
            g.below,
            loaded_lem g sought r n (ground (arith, f)) valid (covers, tight) finds,
          )
      | inr f ↦
          let (spt', run, valid, finds) =
            load_segment_lem m file (flag phdr) memory n (file_page phdr) (mem_page phdr) 0
              (pg_size * n) v (omega arith) (omega arith, omega arith)
              (omega (arith, tight, g.below)) (omega (arith, inside_file, short)) in
          (
            (sought, spt'),
            without_bytes g m file spt ok n end f ∙ run,
            refl,
            g.above,
            g.below,
            loaded_lem g sought 0 n (ground (arith, f)) valid (covers, tight) finds,
          )
    ]
