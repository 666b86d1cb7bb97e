-- ===== src/FileSys/Directory.antt =====
-- Directories: pintos/src/filesys/directory.c. An entry is the 20 bytes of `struct dir_entry`: the sector
-- in bytes 0 to 3, the name in bytes 4 to 18, `in_use` in byte 19. A name that is asked for is the list of
-- its characters before the null byte. What the allocator answers and what an uninitialized entry holds
-- are arguments; `none` is a failed ASSERT or a PANIC.
pub mod Entries
pub mod Lookup
pub mod Add
use sogang_pint_os.Common.{
  ℕ, zero, suc, ◌+◌, ◌*◌, ◌/◌, ◌^◌, ◌-◌, Bool, true, false, not, ◌&&◌, ◌||◌, Option, none, some,
  List, [], ◌∷◌, ltb, leb, ◌==◌, if◌then◌else◌, get_or, length,
}
use sogang_pint_os.Common.Panic.{◌>>=◌}
use sogang_pint_os.Block.{Block}
use sogang_pint_os.FileSys.FreeMap.{root_dir_sector}
use sogang_pint_os.FileSys.Inode.{
  Inode, FileSys, Buffer, word_bytes, inode_create, inode_open, inode_reopen, inode_close,
  inode_remove, inode_read_at, inode_write_at,
}

-- `struct dir`: the address of the inode, and the position.
pub record Dir : Type 0 where
  pub inode : ℕ
  pub pos : ℕ

-- NAME_MAX and `sizeof (struct dir_entry)`
abbrev pub name_max : ℕ
name_max = 14

abbrev pub entry_size : ℕ
entry_size = 20

abbrev pub in_use : Buffer → Bool
in_use e = not (e 19 == 0)

abbrev pub entry_sector : Buffer → ℕ
entry_sector e = e 0 + 2 ^ 8 * e 1 + 2 ^ 16 * e 2 + 2 ^ 24 * e 3

-- `!strcmp (name, e.name)`, from byte `i` on.
abbrev pub same_name : List ℕ → ℕ → Buffer → Bool
same_name [] i e = e i == 0
same_name (c ∷ cs) i e = e i == c && same_name cs (i + 1) e

-- The entry with `in_use`, the name and the sector set.
abbrev pub new_entry : List ℕ → ℕ → Buffer → Buffer
new_entry name sector e i =
    if ltb i 4
    then get_or (word_bytes sector) i 0
    else if ltb i (4 + length name)
    then get_or name (i - 4) 0
    else if i == 4 + length name
    then 0
    else if i == 19
    then 1
    else e i

-- The loop of `lookup`, on fuel: the entry and its offset.
pub lookup_loop :
    ℕ → Bool → Inode → List ℕ → Buffer → ℕ → Block → Option (Option (Buffer × ℕ) × Block)
lookup_loop zero no_memory inode name e ofs dev = none
lookup_loop (suc fuel) no_memory inode name e ofs dev =
    inode_read_at no_memory inode e entry_size ofs dev >>= λ (n, e', dev').
    let rest = lookup_loop fuel no_memory inode name e' (ofs + entry_size) dev' in
    if n == entry_size
    then if in_use e' && same_name name 4 e' then some (some (e', ofs), dev') else rest
    else some (none, dev')

pub lookup : Bool → Inode → List ℕ → Buffer → Block → Option (Option (Buffer × ℕ) × Block)
lookup no_memory inode name e dev =
    lookup_loop (inode.disk.length / entry_size + 1) no_memory inode name e 0 dev

-- The loop of `dir_add` that looks for a free slot: what the entry holds then, and the offset.
pub slot_loop : ℕ → Bool → Inode → Buffer → ℕ → Block → Option (Buffer × ℕ × Block)
slot_loop zero no_memory inode e ofs dev = none
slot_loop (suc fuel) no_memory inode e ofs dev =
    inode_read_at no_memory inode e entry_size ofs dev >>= λ (n, e', dev').
    let rest = slot_loop fuel no_memory inode e' (ofs + entry_size) dev' in
    if n == entry_size
    then if in_use e' then rest else some (e', ofs, dev')
    else some (e', ofs, dev')

-- `dir_add` in the directory of an inode.
pub add_entry : Bool → Inode → List ℕ → ℕ → Buffer → Block → Option (Bool × Block)
add_entry no_memory inode name sector e dev =
    if length name == 0 || ltb name_max (length name)
    then some (false, dev)
    else (lookup no_memory inode name e dev >>= λ (found, dev₁). elim found [
      | some old ↦ some (false, dev₁)
      | none ↦
          slot_loop (inode.disk.length / entry_size + 1) no_memory inode e 0 dev₁
          >>= λ (e', ofs, dev₂).
              inode_write_at no_memory inode (new_entry name sector e') entry_size ofs dev₂
              >>= λ (n, dev₃). some (n == entry_size, dev₃)
    ])

unfoldable pub dir_add : Bool → Dir → List ℕ → ℕ → Buffer → FileSys → Option (Bool × FileSys)
dir_add no_memory dir name sector e s = do
  inode ← s.inodes dir.inode
  (success, dev) ← add_entry no_memory inode name sector e s.fs_device
  some (success, record s { fs_device = dev })

-- `dir_lookup`: the inode's address, or `none` for null; `memory` is what `inode_open` is given.
unfoldable pub dir_lookup :
    Bool → Option ℕ → Dir → List ℕ → Buffer → FileSys → Option (Option ℕ × FileSys)
dir_lookup no_memory memory dir name e s = do
  inode ← s.inodes dir.inode
  (found, dev) ← lookup no_memory inode name e s.fs_device
  elim found [
    | none ↦ some (none, record s { fs_device = dev })
    | some (entry, ofs) ↦ inode_open memory (entry_sector entry) (record s { fs_device = dev })
  ]

-- The entry with `in_use` reset.
abbrev pub erased : Buffer → Buffer
erased e i = if i == 19 then 0 else e i

-- The end of `dir_remove`, with the file's inode open.
remove_entry : Bool → Dir → ℕ → Buffer → ℕ → FileSys → Option (Bool × FileSys)
remove_entry no_memory dir a entry ofs s = do
  inode ← s.inodes dir.inode
  (n, dev) ← inode_write_at no_memory inode (erased entry) entry_size ofs s.fs_device
  let s' = record s { fs_device = dev }
  if n == entry_size
      then (do s₁ ← inode_remove a s'; s₂ ← inode_close a s₁; some (true, s₂))
      else (do s₁ ← inode_close a s'; some (false, s₁))

unfoldable pub dir_remove :
    Bool → Option ℕ → Dir → List ℕ → Buffer → FileSys → Option (Bool × FileSys)
unfolding remove_entry
dir_remove no_memory memory dir name e s = do
  inode ← s.inodes dir.inode
  (found, dev) ← lookup no_memory inode name e s.fs_device
  elim found [
    | none ↦ some (false, record s { fs_device = dev })
    | some (entry, ofs) ↦
        inode_open memory (entry_sector entry) (record s { fs_device = dev }) >>= λ (opened, s').
        elim opened [ none ↦ some (false, s') | some a ↦ remove_entry no_memory dir a entry ofs s' ]
  ]

-- The characters that `strlcpy` takes from an entry's name, at most `n` from byte `i` on.
name_from : ℕ → ℕ → Buffer → List ℕ
name_from zero i e = []
name_from (suc n) i e = let rest = name_from n (i + 1) e in if e i == 0 then [] else e i ∷ rest

-- The loop of `dir_readdir`, on fuel: the name, and the position.
readdir_loop : ℕ → Bool → Inode → Buffer → ℕ → Block → Option (Option (List ℕ) × ℕ × Block)
unfolding name_from
readdir_loop zero no_memory inode e pos dev = none
readdir_loop (suc fuel) no_memory inode e pos dev =
    inode_read_at no_memory inode e entry_size pos dev >>= λ (n, e', dev').
    let rest = readdir_loop fuel no_memory inode e' (pos + entry_size) dev' in
    if n == entry_size
    then if in_use e' then some (some (name_from name_max 4 e'), pos + entry_size, dev') else rest
    else some (none, pos, dev')

unfoldable dir_readdir : Bool → Dir → Buffer → FileSys → Option (Option (List ℕ) × Dir × FileSys)
unfolding readdir_loop
dir_readdir no_memory dir e s = do
  inode ← s.inodes dir.inode
  (name, pos, dev) ←
      readdir_loop (inode.disk.length / entry_size + 1) no_memory inode e dir.pos s.fs_device
  some (name, record dir { pos = pos }, record s { fs_device = dev })

unfoldable dir_create : Bool → Option Bool → ℕ → ℕ → FileSys → Option (Bool × FileSys)
unfolding inode_create
dir_create no_memory written sector entry_cnt s =
    inode_create no_memory written sector (entry_cnt * entry_size) s

-- `inode_close` of an inode that may be null.
close_if_any : Option ℕ → FileSys → Option FileSys
unfolding inode_close
close_if_any none s = some s
close_if_any (some a) s = inode_close a s

-- `dir_open`: a null inode or no memory gives a null directory.
dir_open : Bool → Option ℕ → FileSys → Option (Option Dir × FileSys)
unfolding close_if_any
dir_open no_memory none s = some (none, s)
dir_open no_memory (some a) s =
    if no_memory
    then (do s' ← close_if_any (some a) s; some (none, s'))
    else some (some (record { inode = a; pos = 0 }), s)

unfoldable pub dir_open_root : Bool → Option ℕ → FileSys → Option (Option Dir × FileSys)
unfolding dir_open
dir_open_root no_memory memory s = do
  (inode, s') ← inode_open memory root_dir_sector s
  dir_open no_memory inode s'

unfoldable dir_reopen : Bool → Dir → FileSys → Option (Option Dir × FileSys)
unfolding dir_open
dir_reopen no_memory dir s = do
  s' ← inode_reopen dir.inode s
  dir_open no_memory (some dir.inode) s'

unfoldable pub dir_close : Option Dir → FileSys → Option FileSys
dir_close none s = some s
dir_close (some dir) s = inode_close dir.inode s
