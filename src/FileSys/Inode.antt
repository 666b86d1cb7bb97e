-- ===== src/FileSys/Inode.antt =====
-- Inodes: pintos/src/filesys/inode.c. An `off_t` is taken to be at least 0 and file offsets not to
-- overflow an `int`; a caller's buffer is a function from indices to bytes. The allocator's answers are
-- arguments. `none` is a failed ASSERT or a PANIC.
pub mod Read
pub mod WriteChunk
pub mod Write
use sogang_pint_os.Common.{
  ℕ, zero, suc, ◌+◌, ◌-◌, ◌*◌, ◌/◌, ◌%◌, ◌^◌, ◌≤◌, Bool, true, false, not, ◌&&◌, ◌||◌, Option, none,
  some, List, [], ◌∷◌, ◌++◌, ltb, leb, ◌==◌, if◌then◌else◌, min, get_or, replicate,
}
use sogang_pint_os.Common.Panic.{◌>>=◌, ◌>>◌, assert}
use sogang_pint_os.Bitmap.{Bitmap}
use sogang_pint_os.Block.{Block, Sector, block_sector_size, block_read, block_write}
use sogang_pint_os.FileSys.FreeMap.{free_map_allocate, free_map_release}

-- `struct inode_disk`, less its unused part
pub record InodeDisk : Type 0 where
  pub start : ℕ
  pub length : ℕ
  pub magic : ℕ

-- `struct inode`, less its list element
pub record Inode : Type 0 where
  pub sector : ℕ
  pub open_cnt : ℕ
  pub removed : Bool
  pub deny_write_cnt : ℕ
  pub disk : InodeDisk

-- What inode.c works on: its inodes in memory, the list of the open ones, the free map, the device.
pub record FileSys : Type 0 where
  pub inodes : ℕ → Option Inode
  pub open_inodes : List ℕ
  pub free_map : Bitmap
  pub fs_device : Block

-- A caller's buffer.
abbrev pub Buffer : Type 0
Buffer = ℕ → ℕ

abbrev pub inode_magic : ℕ
inode_magic = 1229868868

-- The four bytes of a word, and the word that four bytes are.
abbrev pub word_bytes : ℕ → List ℕ
word_bytes w = w % 256 ∷ w / 2 ^ 8 % 256 ∷ w / 2 ^ 16 % 256 ∷ w / 2 ^ 24 % 256 ∷ []

abbrev pub word_at : Sector → ℕ → ℕ
word_at s i =
    get_or s i 0
    + 2 ^ 8 * get_or s (i + 1) 0
    + 2 ^ 16 * get_or s (i + 2) 0
    + 2 ^ 24 * get_or s (i + 3) 0

-- `struct inode_disk` as a sector, and back.
abbrev pub to_sector : InodeDisk → Sector
to_sector d = word_bytes d.start ++ word_bytes d.length ++ word_bytes d.magic ++ replicate 500 0

abbrev pub from_sector : Sector → InodeDisk
from_sector s = record { start = word_at s 0; length = word_at s 4; magic = word_at s 8 }

-- DIV_ROUND_UP (size, BLOCK_SECTOR_SIZE)
abbrev pub bytes_to_sectors : ℕ → ℕ
bytes_to_sectors size = (size + (block_sector_size - 1)) / block_sector_size

pub byte_to_sector : Inode → ℕ → ℕ
byte_to_sector inode at =
    if ltb at inode.disk.length
    then (inode.disk.start + at / block_sector_size) % 2 ^ 32
    else 2 ^ 32 - 1

-- `for (i = 0; i < sectors; i++) block_write (fs_device, inode_disk->start + i, zeros);`
zero_loop : ℕ → ℕ → Block → Option Block
zero_loop zero sector dev = some dev
zero_loop (suc n) sector dev =
    block_write dev (sector % 2 ^ 32) (replicate 512 0) >>= λ dev'. zero_loop n (sector + 1) dev'

-- `inode_create`; `calloc` fails if `no_memory`.
unfoldable pub inode_create : Bool → Option Bool → ℕ → ℕ → FileSys → Option (Bool × FileSys)
unfolding zero_loop
inode_create no_memory written sector length s = if no_memory then some (false, s) else (do
  let sectors = bytes_to_sectors length
  (start, free_map) ← free_map_allocate written sectors s.free_map
  elim start [
    | none ↦ some (false, record s { free_map = free_map })
    | some first ↦
        block_write s.fs_device sector
          (to_sector (record { start = first; length = length; magic = inode_magic }))
        >>= λ dev. zero_loop sectors first dev >>= λ dev'.
            some (true, record s { free_map = free_map; fs_device = dev' })
  ])

abbrev pub put_inode : ℕ → Option Inode → FileSys → FileSys
put_inode a inode s = record s { inodes = λ k. if a == k then inode else s.inodes k }

pub inode_reopen : ℕ → FileSys → Option FileSys
inode_reopen a s = s.inodes a >>= λ inode.
    some (put_inode a (some (record inode { open_cnt = inode.open_cnt + 1 })) s)

-- The search of `inode_open` in the list of open inodes.
find_open : ℕ → List ℕ → FileSys → Option (Option ℕ)
find_open sector [] s = some none
find_open sector (a ∷ as') s =
    let rest = find_open sector as' s in
    s.inodes a >>= λ inode. if inode.sector == sector then some (some a) else rest

-- `inode_open`: the inode's address, or `none` for null; `memory` is the address that `malloc` gives.
unfoldable pub inode_open : Option ℕ → ℕ → FileSys → Option (Option ℕ × FileSys)
unfolding find_open inode_reopen
inode_open memory sector s = do
  found ← find_open sector s.open_inodes s
  elim found [
    | some a ↦ inode_reopen a s >>= λ s'. some (some a, s')
    | none ↦ elim memory [
      | none ↦ some (none, s)
      | some a ↦ block_read s.fs_device sector >>= λ (bytes, dev). some (
        some a,
        put_inode a
            (some (record {
              sector = sector;
              open_cnt = 1;
              removed = false;
              deny_write_cnt = 0;
              disk = from_sector bytes;
            }))
            (record s { open_inodes = a ∷ s.open_inodes; fs_device = dev }),
      )
    ]
  ]

list_remove : ℕ → List ℕ → List ℕ
list_remove a [] = []
list_remove a (k ∷ ks) = if a == k then ks else k ∷ list_remove a ks

-- `inode_close` of an inode that is not null.
unfoldable pub inode_close : ℕ → FileSys → Option FileSys
unfolding list_remove
inode_close a s = do
  inode ← s.inodes a
  if inode.open_cnt == 1
      then (do
        let s' = put_inode a none (record s { open_inodes = list_remove a s.open_inodes })
        if inode.removed
            then (do
              m₁ ← free_map_release inode.sector 1 s.free_map
              m₂ ← free_map_release inode.disk.start (bytes_to_sectors inode.disk.length) m₁
              some (record s' { free_map = m₂ }))
            else some s')
      else some (put_inode a (some (record inode { open_cnt = inode.open_cnt - 1 })) s)

unfoldable pub inode_remove : ℕ → FileSys → Option FileSys
inode_remove a s =
    s.inodes a >>= λ inode. some (put_inode a (some (record inode { removed = true })) s)

-- How many bytes a round of `inode_read_at` and `inode_write_at` moves.
abbrev pub chunk_size : Inode → ℕ → ℕ → ℕ
chunk_size inode size offset =
    min size (min (inode.disk.length - offset) (block_sector_size - offset % block_sector_size))

-- `sector_ofs == 0 && chunk_size == BLOCK_SECTOR_SIZE`
abbrev pub whole_sector : ℕ → ℕ → Bool
whole_sector offset chunk = offset % block_sector_size == 0 && chunk == block_sector_size

-- `size` bytes of a sector, from `from` on, are put at `at` of the buffer.
abbrev pub put_bytes : ℕ → ℕ → ℕ → Sector → Buffer → Buffer
put_bytes at size from bytes buffer k =
    if leb at k && ltb k (at + size) then get_or bytes (from + (k - at)) 0 else buffer k

pub read_chunk : Inode → ℕ → ℕ → ℕ → Buffer → Block → Option (Buffer × Block)
read_chunk inode offset chunk bytes_read buffer dev = do
  (bytes, dev') ← block_read dev (byte_to_sector inode offset)
  if whole_sector offset chunk
      then some (put_bytes bytes_read block_sector_size 0 bytes buffer, dev')
      else some (put_bytes bytes_read chunk (offset % block_sector_size) bytes buffer, dev')

-- The loop, on fuel. `no_memory`: there is no bounce buffer.
unfoldable pub read_loop :
    ℕ → Bool → Inode → ℕ → ℕ → ℕ → Buffer → Block → Option (ℕ × Buffer × Block)
read_loop zero no_memory inode size offset bytes_read buffer dev = none
read_loop (suc fuel) no_memory inode size offset bytes_read buffer dev =
    let chunk = chunk_size inode size offset in
    let more = read_chunk inode offset chunk bytes_read buffer dev >>= λ (buffer', dev').
    read_loop fuel no_memory inode (size - chunk) (offset + chunk) (bytes_read + chunk) buffer'
      dev' in
    if chunk == 0 || (not (whole_sector offset chunk) && no_memory)
    then some (bytes_read, buffer, dev)
    else more

pub inode_read_at : Bool → Inode → Buffer → ℕ → ℕ → Block → Option (ℕ × Buffer × Block)
inode_read_at no_memory inode buffer size offset dev =
    read_loop (size + 1) no_memory inode size offset 0 buffer dev

-- The list of `n` bytes that a function gives from `i` on.
pub bytes_from : ℕ → ℕ → Buffer → List ℕ
bytes_from zero i f = []
bytes_from (suc n) i f = f i ∷ bytes_from n (i + 1) f

-- The bounce buffer: what it holds first, with `chunk` bytes of the caller's put at `sector_ofs`.
abbrev pub bounced : ℕ → ℕ → ℕ → Buffer → Sector → Buffer
bounced sector_ofs chunk bytes_written buffer bytes i =
    if leb sector_ofs i && ltb i (sector_ofs + chunk)
    then buffer (bytes_written + (i - sector_ofs))
    else get_or bytes i 0

pub write_chunk : Inode → ℕ → ℕ → ℕ → Buffer → Block → Option Block
write_chunk inode offset chunk bytes_written buffer dev =
    let sector_idx = byte_to_sector inode offset in
    let sector_ofs = offset % block_sector_size in
    if whole_sector offset chunk
    then block_write dev sector_idx (bytes_from block_sector_size bytes_written buffer)
    else ((if ltb 0 sector_ofs || ltb chunk (block_sector_size - sector_ofs)
          then block_read dev sector_idx
          else some (replicate 512 0, dev))
        >>= λ (bytes, dev').
            block_write dev' sector_idx (
              bytes_from block_sector_size 0 (bounced sector_ofs chunk bytes_written buffer bytes)))

unfoldable pub write_loop : ℕ → Bool → Inode → ℕ → ℕ → ℕ → Buffer → Block → Option (ℕ × Block)
write_loop zero no_memory inode size offset bytes_written buffer dev = none
write_loop (suc fuel) no_memory inode size offset bytes_written buffer dev =
    let chunk = chunk_size inode size offset in
    let more = write_chunk inode offset chunk bytes_written buffer dev >>= λ dev'.
    write_loop fuel no_memory inode (size - chunk) (offset + chunk) (bytes_written + chunk) buffer
      dev' in
    if chunk == 0 || (not (whole_sector offset chunk) && no_memory)
    then some (bytes_written, dev)
    else more

pub inode_write_at : Bool → Inode → Buffer → ℕ → ℕ → Block → Option (ℕ × Block)
inode_write_at no_memory inode buffer size offset dev =
    if inode.deny_write_cnt == 0
    then write_loop (size + 1) no_memory inode size offset 0 buffer dev
    else some (0, dev)

unfoldable pub inode_deny_write : ℕ → FileSys → Option FileSys
inode_deny_write a s = do
  inode ← s.inodes a
  assert (leb (inode.deny_write_cnt + 1) inode.open_cnt)
  some (put_inode a (some (record inode { deny_write_cnt = inode.deny_write_cnt + 1 })) s)

unfoldable pub inode_allow_write : ℕ → FileSys → Option FileSys
inode_allow_write a s = do
  inode ← s.inodes a
  assert (ltb 0 inode.deny_write_cnt)
  assert (leb inode.deny_write_cnt inode.open_cnt)
  some (put_inode a (some (record inode { deny_write_cnt = inode.deny_write_cnt - 1 })) s)

-- Byte `at` of the file.
abbrev pub byte_at : Block → Inode → ℕ → ℕ
byte_at dev inode at =
    get_or (dev.sectors (inode.disk.start + at / block_sector_size)) (at % block_sector_size) 0

-- The file's sectors lie on the device.
pub record IsStored (inode : Inode) (dev : Block) : Type 0 where
  pub inside : inode.disk.start + bytes_to_sectors inode.disk.length ≤ dev.size
  pub small : dev.size ≤ 2 ^ 32 - 1
