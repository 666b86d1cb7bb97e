-- ===== src/Loader/Segment.antt =====
-- What `load_segment` of pintos/src/userprog/process.c puts in the table of pages.
use sogang_pint_os.Common.{
  ℕ, zero, suc, ◌+◌, ◌-◌, ◌*◌, ◌/◌, ◌%◌, ◌^◌, ◌<◌, ◌≡◌, refl, sym, ap, ◌∙◌, inl, inr, Bool, true,
  false, ◌&&◌, Option, none, some, ltb, leb, ◌==◌, if◌then◌else◌, arith, Bool-cases,
}
use sogang_pint_os.Palloc.{pg_size}
use sogang_pint_os.Hash.{Hash}
use sogang_pint_os.Hash.Table.{first_of}
use sogang_pint_os.FileSys.File.{File, file_seek}
use sogang_pint_os.Spt.{PageEntry, insert_pge}
use sogang_pint_os.Spt.Laws.{IsValid, find_pge, insert_pge_lem}
use sogang_pint_os.Loader.{Supply, bin_entry, segment_loop, load_segment}

-- The number of bytes of a page that are read, where `n` are left to read.
abbrev pub in_page : ℕ → ℕ
in_page n = if ltb n pg_size then n else pg_size

-- The entry for `page` of a segment that begins at `upage` with `read` bytes from `ofs` of the file.
abbrev pub page_of : File → ℕ → ℕ → ℕ → Bool → ℕ → PageEntry
page_of file ofs upage read writable page =
    bin_entry file (ofs + (if ltb read (page - upage) then read else page - upage)) page
      (in_page (read - (page - upage))) writable

-- The page is one of the `n` from `upage` on.
abbrev pub inside : ℕ → ℕ → ℕ → Bool
inside upage n page = leb upage page && ltb page (upage + pg_size * n)

-- The segment's entry for a page, if it is one of its pages.
abbrev pub entry_of : File → ℕ → ℕ → ℕ → Bool → ℕ → ℕ → Option PageEntry
entry_of file ofs upage read writable n page =
    if inside upage n page then some (page_of file ofs upage read writable page) else none

first_of_assoc : (a b c : Option PageEntry) → first_of (first_of a b) c ≡ first_of a (first_of b c)
first_of_assoc none b c = refl
first_of_assoc (some x) b c = refl

pub first_of-none : (a : Option PageEntry) → first_of a none ≡ a
first_of-none none = refl
first_of-none (some x) = refl

same_entry :
    (file : File) (writable : Bool) {ofs ofs' upage upage' n n' : ℕ}
    → ofs ≡ ofs'
    → upage ≡ upage'
    → n ≡ n'
    → some (bin_entry file ofs upage n writable) ≡ some (bin_entry file ofs' upage' n' writable)
same_entry file writable e f g = rw (e, f, g) refl

-- The first page and the others.
split :
    (file : File) (ofs upage read : ℕ) (writable : Bool) (n page : ℕ)
    → upage % pg_size ≡ 0
    → page % pg_size ≡ 0
    → first_of
        (if upage == page then some (bin_entry file ofs upage (in_page read) writable) else none)
        (entry_of file (ofs + in_page read) (upage + pg_size) (read - in_page read) writable n page)
      ≡ entry_of file ofs upage read writable (suc n) page
split file ofs upage read writable n page u p = elim (Bool-cases (upage == page)) [
  | inl y ↦
      let here : inside upage (suc n) page ≡ true = ground (arith, y) in
      rw (y, here)
        (same_entry file writable (ground (arith, y)) (ground (arith, y)) (ground (arith, y)))
  | inr f ↦ elim (Bool-cases (inside (upage + pg_size) n page)) [
    | inl i ↦
        let here : inside upage (suc n) page ≡ true = ground (arith, i) in
        rw (f, i, here) (same_entry file writable (ground (arith, i)) refl (ground (arith, i)))
    | inr o ↦
        let away : inside upage (suc n) page ≡ false = ground (arith, f, o, u, p) in
        rw (f, o, away) refl
  ]
]

-- One round of the loop.
segment_step :
    (m : Supply) (file : File) (writable : Bool) (spt : Hash PageEntry)
    (out : Bool × Hash PageEntry) (n ofs upage read_bytes zero_bytes : ℕ)
    → m.entry upage ≡ true
    → insert_pge (m.buckets upage) spt (bin_entry file ofs upage (in_page read_bytes) writable)
      ≡ some out
    → read_bytes + zero_bytes ≡ pg_size * suc n
    → upage + pg_size * suc n < 2 ^ 32
    → ofs + read_bytes < 2 ^ 32
    → segment_loop (suc n) m file ofs upage read_bytes zero_bytes writable spt
      ≡ segment_loop n m file
          (ofs + in_page read_bytes)
          (upage + pg_size)
          (read_bytes - in_page read_bytes)
          (zero_bytes - (pg_size - in_page read_bytes))
          writable
          out.1
unfolding segment_loop
segment_step m file writable spt out n ofs upage r z memory run total room fits =
    let more : (r == 0 && z == 0) ≡ false = ground (arith, total) in
    let ofs' : (ofs + in_page r) % 2 ^ 32 ≡ ofs + in_page r = ground (arith, fits) in
    let upage' : (upage + pg_size) % 2 ^ 32 ≡ upage + pg_size = omega (arith, room) in
    let zero' : (z + 2 ^ 32 - (pg_size - in_page r)) % 2 ^ 32 ≡ z - (pg_size - in_page r) =
      ground (arith, total, room) in
    rw (more, memory, run, ofs', upage', zero') refl

-- The loop goes through its `n` pages. Pages that have an entry keep it; the others get the segment's.
segment_loop_lem :
    (m : Supply) (file : File) (writable : Bool)
    → ((page : ℕ) → m.entry page ≡ true)
    → (n ofs upage read_bytes zero_bytes : ℕ) {spt : Hash PageEntry} → IsValid spt
    → read_bytes + zero_bytes ≡ pg_size * n
    → upage % pg_size ≡ 0
    → upage + pg_size * n < 2 ^ 32
    → ofs + read_bytes < 2 ^ 32
    → (spt' : Hash PageEntry) × (segment_loop n m file ofs upage read_bytes zero_bytes writable spt
        ≡ some (true, spt'))
      × IsValid spt'
      × ((page : ℕ)
          → page % pg_size ≡ 0
          → find_pge spt' page
            ≡ first_of (find_pge spt page) (entry_of file ofs upage read_bytes writable n page))
unfolding segment_loop
segment_loop_lem m file writable memory zero ofs upage r z {spt} v total aligned room fits =
    let done : (r == 0 && z == 0) ≡ true = ground (arith, total) in
    (
      spt,
      rw done refl,
      v,
      λ page p.
          let none_in : inside upage zero page ≡ false = ground arith in
          rw none_in (sym (first_of-none (find_pge spt page))),
    )
segment_loop_lem m file writable memory (suc n) ofs upage r z {spt} v total aligned room fits =
    let k = in_page r in
    let (out, run, valid, found) =
      insert_pge_lem (m.buckets upage) (bin_entry file ofs upage k writable) v aligned in
    let (spt', rest, v', finds) =
      segment_loop_lem m file writable memory n (ofs + k) (upage + pg_size) (r - k)
        (z - (pg_size - k)) valid (ground (arith, total)) (omega (arith, aligned))
        (omega (arith, room)) (ground (arith, fits)) in
    (
      spt',
      segment_step m file writable spt out n ofs upage r z (memory upage) run total room fits
          ∙ rest,
      v',
      λ page p.
          finds page p
          ∙ ap (λ a. first_of a (entry_of file (ofs + k) (upage + pg_size) (r - k) writable n page))
              (found page)
          ∙ first_of_assoc (find_pge spt page)
              (if upage == page then some (bin_entry file ofs upage k writable) else none)
              (entry_of file (ofs + k) (upage + pg_size) (r - k) writable n page)
          ∙ ap (first_of (find_pge spt page)) (split file ofs upage r writable n page aligned p),
    )

entered :
    (m : Supply) (file : File) (writable : Bool) (spt : Hash PageEntry) (ofs upage r z : ℕ) {n : ℕ}
    {spt' : Hash PageEntry}
    → (r + z) % 2 ^ 32 ≡ r + z
    → (r + z) % pg_size ≡ 0
    → (r + z) / pg_size ≡ n
    → (upage % pg_size ≡ 0) × (ofs % pg_size ≡ 0)
    → segment_loop n m (file_seek file ofs) ofs upage r z writable spt ≡ some (true, spt')
    → load_segment m file ofs upage r z writable spt ≡ some (true, file_seek file ofs, spt')
unfolding load_segment
entered m file writable spt ofs upage r z small whole rounds aligned run =
    rw (small, whole, aligned.0, aligned.1, rounds, run) refl

-- `load_segment` of whole pages, where there is memory for each entry: every ASSERT passes, and the loop
-- ends. A page that had an entry keeps it. Every other page of the segment gets an entry that says which
-- bytes of the file it begins with, where they are, and that the rest are zeros. Other pages are as before.
pub load_segment_lem :
    (m : Supply) (file : File) (writable : Bool)
    → ((page : ℕ) → m.entry page ≡ true)
    → (n ofs upage read_bytes zero_bytes : ℕ) {spt : Hash PageEntry} → IsValid spt
    → read_bytes + zero_bytes ≡ pg_size * n
    → (upage % pg_size ≡ 0) × (ofs % pg_size ≡ 0)
    → upage + pg_size * n < 2 ^ 32
    → ofs + read_bytes < 2 ^ 32
    → (spt' : Hash PageEntry) × (load_segment m file ofs upage read_bytes zero_bytes writable spt
        ≡ some (true, file_seek file ofs, spt'))
      × IsValid spt'
      × ((page : ℕ)
          → page % pg_size ≡ 0
          → find_pge spt' page
            ≡ first_of
                (find_pge spt page)
                (entry_of (file_seek file ofs) ofs upage read_bytes writable n page))
load_segment_lem m file writable memory n ofs upage r z {spt} v total aligned room fits =
    let (spt', run, valid, finds) =
      segment_loop_lem m (file_seek file ofs) writable memory n ofs upage r z v total aligned.0 room
        fits in
    let small : (r + z) % 2 ^ 32 ≡ r + z = omega (arith, total, room) in
    let whole : (r + z) % pg_size ≡ 0 = omega (arith, total) in
    let rounds : (r + z) / pg_size ≡ n = omega (arith, total) in
    (spt', entered m file writable spt ofs upage r z small whole rounds aligned run, valid, finds)
