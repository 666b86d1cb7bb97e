-- ===== src/FileSys/File.antt =====
-- Open files: pintos/src/filesys/file.c. A file is its record, which its owner keeps; what the allocator
-- answers is an argument. `none` is a failed ASSERT or a PANIC.
pub mod Laws
use sogang_pint_os.Common.{ℕ, ◌+◌, Bool, true, false, Option, none, some, if◌then◌else◌}
use sogang_pint_os.Common.Panic.{◌>>=◌}
use sogang_pint_os.FileSys.Inode.{
  FileSys, Buffer, inode_reopen, inode_close, inode_read_at, inode_write_at, inode_deny_write,
  inode_allow_write,
}

-- `struct file`
pub record File : Type 0 where
  pub inode : ℕ
  pub pos : ℕ
  pub deny_write : Bool

-- `file_open` of an inode, or of a null pointer.
unfoldable pub file_open : Bool → Option ℕ → FileSys → Option (Option File × FileSys)
unfolding inode_close
file_open no_memory none s = some (none, s)
file_open no_memory (some a) s =
    if no_memory
    then (do s' ← inode_close a s; some (none, s'))
    else some (some (record { inode = a; pos = 0; deny_write = false }), s)

unfoldable file_reopen : Bool → File → FileSys → Option (Option File × FileSys)
unfolding file_open
file_reopen no_memory file s = do
  s' ← inode_reopen file.inode s
  file_open no_memory (some file.inode) s'

pub file_deny_write : File → FileSys → Option (File × FileSys)
file_deny_write file s =
    if file.deny_write
    then some (file, s)
    else (do s' ← inode_deny_write file.inode s; some (record file { deny_write = true }, s'))

pub file_allow_write : File → FileSys → Option (File × FileSys)
file_allow_write file s =
    if file.deny_write
    then (do s' ← inode_allow_write file.inode s; some (record file { deny_write = false }, s'))
    else some (file, s)

-- `file_close` of a file that is not null.
unfoldable pub file_close : File → FileSys → Option FileSys
unfolding file_allow_write inode_close
file_close file s = do (file', s') ← file_allow_write file s; inode_close file'.inode s'

unfoldable file_get_inode : File → ℕ
file_get_inode file = file.inode

unfoldable pub file_read_at : Bool → File → Buffer → ℕ → ℕ → FileSys → Option (ℕ × Buffer × FileSys)
file_read_at no_memory file buffer size file_ofs s = do
  inode ← s.inodes file.inode
  (readed_bytes, buffer', dev) ← inode_read_at no_memory inode buffer size file_ofs s.fs_device
  some (readed_bytes, buffer', record s { fs_device = dev })

pub file_read : Bool → File → Buffer → ℕ → FileSys → Option (ℕ × File × Buffer × FileSys)
file_read no_memory file buffer size s = do
  inode ← s.inodes file.inode
  (readed_bytes, buffer', dev) ← inode_read_at no_memory inode buffer size file.pos s.fs_device
  some (
    readed_bytes,
    record file { pos = file.pos + readed_bytes },
    buffer',
    record s { fs_device = dev },
  )

unfoldable file_write_at : Bool → File → Buffer → ℕ → ℕ → FileSys → Option (ℕ × FileSys)
file_write_at no_memory file buffer size file_ofs s = do
  inode ← s.inodes file.inode
  (bytes_written, dev) ← inode_write_at no_memory inode buffer size file_ofs s.fs_device
  some (bytes_written, record s { fs_device = dev })

pub file_write : Bool → File → Buffer → ℕ → FileSys → Option (ℕ × File × FileSys)
file_write no_memory file buffer size s = do
  inode ← s.inodes file.inode
  (bytes_written, dev) ← inode_write_at no_memory inode buffer size file.pos s.fs_device
  some (bytes_written, record file { pos = file.pos + bytes_written }, record s { fs_device = dev })

unfoldable pub file_length : File → FileSys → Option ℕ
file_length file s = s.inodes file.inode >>= λ inode. some inode.disk.length

unfoldable pub file_seek : File → ℕ → File
file_seek file new_pos = record file { pos = new_pos }

pub file_tell : File → ℕ
file_tell file = file.pos
