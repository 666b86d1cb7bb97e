-- ===== src/FileSys/Names.antt =====
-- The file system by names: `filesys_create`, `filesys_open` and `filesys_remove` of
-- pintos/src/filesys/filesys.c. What the allocator and the free map's file answer during a call, and what
-- uninitialized memory holds, is an argument; `none` is a failed ASSERT or a PANIC.
use sogang_pint_os.Common.{ℕ, Bool, false, Option, none, some, List, ◌==◌, if◌then◌else◌}
use sogang_pint_os.Common.Panic.{◌>>=◌}
use sogang_pint_os.FileSys.FreeMap.{free_map_allocate, free_map_release}
use sogang_pint_os.FileSys.Inode.{FileSys, Buffer, inode_create}
use sogang_pint_os.FileSys.Directory.{
  Dir, dir_open_root, dir_close, dir_add, dir_lookup, dir_remove,
}
use sogang_pint_os.FileSys.File.{File, file_open}

-- The answers: addresses for the inodes of the root directory and of a file, whether `calloc` fails for a
-- directory, a file and an inode's sector, and `malloc` for a bounce buffer, what writing the free map
-- to its file gives, and what an entry on the stack holds.
pub record Answers : Type 0 where
  pub root_inode : Option ℕ
  pub file_inode : Option ℕ
  pub no_dir : Bool
  pub no_file : Bool
  pub no_disk_inode : Bool
  pub no_bounce : Bool
  pub written : Option Bool
  pub e : Buffer

-- The calls of `filesys_create` with the root directory open, in the order of `&&`: whether all succeed,
-- and the sector, which is 0 if none was allocated.
create_in : Answers → Dir → List ℕ → ℕ → FileSys → Option (Bool × ℕ × FileSys)
unfolding inode_create dir_add
create_in m dir name initial_size s = do
  (sector, free_map) ← free_map_allocate m.written 1 s.free_map
  let s₁ = record s { free_map = free_map }
  elim sector [
    | none ↦ some (false, 0, s₁)
    | some inode_sector ↦
        inode_create m.no_disk_inode m.written inode_sector initial_size s₁ >>= λ (created, s₂).
        if created
        then (dir_add m.no_bounce dir name inode_sector m.e s₂ >>= λ (success, s₃).
            some (success, inode_sector, s₃))
        else some (false, inode_sector, s₂)
  ]

unfoldable pub filesys_create : Answers → List ℕ → ℕ → FileSys → Option (Bool × FileSys)
unfolding create_in dir_open_root dir_close
filesys_create m name initial_size s = dir_open_root m.no_dir m.root_inode s >>= λ (dir, s₁).
    elim dir [
      | none ↦ some (false, s₁)
      | some d ↦ (do
        (success, inode_sector, s₂) ← create_in m d name initial_size s₁
        s₃ ←
            (if success
              then some s₂
              else if inode_sector == 0
              then some s₂
              else (free_map_release inode_sector 1 s₂.free_map >>= λ free_map.
                  some (record s₂ { free_map = free_map })))
        s₄ ← dir_close (some d) s₃
        some (success, s₄))
    ]

unfoldable pub filesys_open : Answers → List ℕ → FileSys → Option (Option File × FileSys)
unfolding dir_open_root dir_lookup dir_close file_open
filesys_open m name s = dir_open_root m.no_dir m.root_inode s >>= λ (dir, s₁). elim dir [
  | none ↦ file_open m.no_file none s₁
  | some d ↦ (do
    (inode, s₂) ← dir_lookup m.no_bounce m.file_inode d name m.e s₁
    s₃ ← dir_close (some d) s₂
    file_open m.no_file inode s₃)
]

unfoldable pub filesys_remove : Answers → List ℕ → FileSys → Option (Bool × FileSys)
unfolding dir_open_root dir_remove dir_close
filesys_remove m name s = dir_open_root m.no_dir m.root_inode s >>= λ (dir, s₁). elim dir [
  | none ↦ some (false, s₁)
  | some d ↦ (do
    (success, s₂) ← dir_remove m.no_bounce m.file_inode d name m.e s₁
    s₃ ← dir_close (some d) s₂
    some (success, s₃))
]
