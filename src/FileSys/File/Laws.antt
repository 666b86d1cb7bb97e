-- ===== src/FileSys/File/Laws.antt =====
-- Reading, writing and denying writes through the open files of pintos/src/filesys/file.c.
use native.Mathlib.Nat.{add-zero}
use sogang_pint_os.Common.{
  ℕ, ◌+◌, ◌-◌, ◌<◌, ◌≡◌, refl, true, false, some, if◌then◌else◌, arith, leb, ◌==◌, ==_refl, obtain,
  min, le→leb,
}
use sogang_pint_os.FileSys.Inode.{Inode, FileSys, Buffer, IsStored, put_inode, inode_deny_write}
use sogang_pint_os.FileSys.Inode.Write.{
  inode_write_at_lem, inode_write_at_denied, inode_read_at-inode_write_at,
}
use sogang_pint_os.FileSys.File.{File, file_deny_write, file_read, file_write, file_seek, file_tell}

-- What was written through a file, while its inode allows writes, is read back from the position where
-- it was written: `file_write` moves the position past what it wrote, and `file_seek` back to the old one.
pub file_read-file_seek-file_write :
    (file : File) (inode : Inode) (size : ℕ) (written buffer : Buffer) (s : FileSys)
    → s.inodes file.inode ≡ some inode
    → IsStored inode s.fs_device
    → s.fs_device.foreign ≡ false
    → inode.deny_write_cnt ≡ 0
    → (out : ℕ × File × FileSys) × (file_write false file written size s ≡ some out)
      × ((file_tell out.1 ≡ file_tell file + out.0)
          × ((back : Buffer × FileSys) × (file_read false
                  (file_seek out.1 (file_tell file))
                  buffer
                  size
                  out.2
                ≡ some (out.0, out.1, back.0, back.1))
              × ((k : ℕ) → k < out.0 → back.0 k ≡ written k)))
unfolding file_write file_read file_seek file_tell
file_read-file_seek-file_write file inode size written buffer s here v own allowed =
    obtain (inode_write_at_lem inode size file.pos written s.fs_device v own) λ dev' run wrote.
      obtain
        (inode_read_at-inode_write_at inode size file.pos written buffer s.fs_device dev' _ v own
          allowed run)
        λ (bytes, reads) run' same. (
          (
            if inode.deny_write_cnt == 0 then min size (inode.disk.length - file.pos) else 0,
            record file { pos = file.pos + _ },
            record s { fs_device = dev' },
          ),
          rw (file_write, here, run),
          (
            refl,
            (
              (bytes, record s { fs_device = record dev' { read_cnt = reads } }),
              rw (file_read, here, run'),
              same,
            ),
          ),
        )

-- Once `file_deny_write` was called on a file that is open, `file_write` through any open file of the same
-- inode writes nothing: it returns 0 and leaves the position and the device as they are.
file_write-file_deny_write :
    (file other : File) (inode : Inode) (size : ℕ) (buffer : Buffer) (s : FileSys)
    → s.inodes file.inode ≡ some inode
    → other.inode ≡ file.inode
    → file.deny_write ≡ false
    → inode.deny_write_cnt < inode.open_cnt
    → (denied : File × FileSys) × (file_deny_write file s ≡ some denied)
      × ((denied.0.deny_write ≡ true)
          × (file_write false other buffer size denied.1 ≡ some (0, other, denied.1)))
unfolding file_deny_write inode_deny_write file_write
file_write-file_deny_write file other inode size buffer s here same fresh room =
    let within : leb (inode.deny_write_cnt + 1) inode.open_cnt ≡ true = le→leb _ _ (omega arith) in
    let denied : Inode = record inode { deny_write_cnt = inode.deny_write_cnt + 1 } in
    (
      (record file { deny_write = true }, put_inode file.inode (some denied) s),
      rw (file_deny_write, fresh, inode_deny_write, here, within),
      (
        refl,
        rw (
          file_write,
          same,
          ==_refl file.inode,
          inode_write_at_denied false denied buffer size other.pos s.fs_device (omega arith),
          add-zero,
        ),
      ),
    )
