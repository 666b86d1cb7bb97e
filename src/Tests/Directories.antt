-- ===== src/Tests/Directories.antt =====
-- Runs of the theorems on directories, open files and system calls.
use sogang_pint_os.Common.{
  ℕ, ◌+◌, ◌^◌, ◌%◌, ◌<◌, ◌≡◌, ◌⊎◌, refl, ap, ◌∙◌, Bool, true, false, some, none, inl, inr, obtain,
  List, [], ◌∷◌, arith, ◌==◌, if◌then◌else◌, length,
}
use sogang_pint_os.Common.Int.{pos, negsuc}
use sogang_pint_os.Block.{Block}
use sogang_pint_os.FileSys.Inode.{Inode, FileSys, Buffer, IsStored}
use sogang_pint_os.FileSys.Directory.{in_use, entry_sector, lookup, add_entry}
use sogang_pint_os.FileSys.Directory.Entries.{entry, entry_cnt, has_name}
use sogang_pint_os.FileSys.Directory.Add.{Added, refused, Kept, add_entry_lem, lookup-add_entry}
use sogang_pint_os.FileSys.File.{File, file_read, file_write, file_seek, file_tell}
use sogang_pint_os.FileSys.File.Laws.{file_read-file_seek-file_write}
use sogang_pint_os.FixedPoint.{signed32}
use sogang_pint_os.Syscall.{
  Descriptors, get_file, syscall_close, syscall_read, syscall_write, syscall_fibonacci,
}
use sogang_pint_os.Syscall.Fibonacci.{fibonacci, syscall_fibonacci_lem}
use sogang_pint_os.Syscall.Table.{SameBut, syscall_close_lem}

-- A directory of two entries in sector 5, all null bytes.
abbrev folder : Inode
folder = record {
  sector = 1;
  open_cnt = 1;
  removed = false;
  deny_write_cnt = 0;
  disk = record { start = 5; length = 40; magic = 0 };
}

abbrev disk : Block
disk = record { size = 10; foreign = false; sectors = λ k. []; read_cnt = 0; write_cnt = 0 }

folder-IsStored : IsStored folder disk
folder-IsStored = record { inside = omega arith; small = omega arith }

abbrev nulls : Buffer
nulls k = 0

abbrev ones : Buffer
ones k = 1

-- The name "ab".
abbrev name : List ℕ
name = 97 ∷ 98 ∷ []

add_entry_lem_example :
    (out : Bool × Block) × (add_entry false folder name 7 nulls disk ≡ some out)
    × (Kept folder disk out.1 × Added name 7 folder disk out.1 out.0)
add_entry_lem_example =
    add_entry_lem folder name 7 nulls disk folder-IsStored refl refl refl (omega arith)

-- The device after the entry was added.
with_entry : (dev : Block) × (add_entry false folder name 7 nulls disk ≡ some (true, dev))
with_entry =
    obtain (add_entry_lem folder name 7 nulls disk folder-IsStored refl refl refl (omega arith))
      λ out run (kept, result).
        (out.1, run ∙ ap (λ b. some (b, out.1)) (succeeds out.1 out.0 result))
  where
    possible :
        (length name ≡ 0)
          ⊎ (14 < length name)
          ⊎ ((k : ℕ) × (k < entry_cnt folder) × (has_name name (entry disk folder k) ≡ true))
          ⊎ ((k : ℕ) → k < entry_cnt folder → in_use (entry disk folder k) ≡ true)
        → ⊥
    possible (inl e) = omega (arith, e)
    possible (inr (inl h)) = omega (arith, h)
    possible (inr (inr (inl (k, h, e)))) = cc
    possible (inr (inr (inr all))) = cc (all 0 (omega arith))

    succeeds : (dev : Block) (b : Bool) → Added name 7 folder disk dev b → b ≡ true
    succeeds dev true result = refl
    succeeds dev false (refused reason same) = absurd (possible reason)

lookup-add_entry_example :
    (out : Buffer × ℕ × ℕ) × (lookup false folder name ones with_entry.0
      ≡ some (some (out.0, out.1), record with_entry.0 { read_cnt = out.2 }))
    × (entry_sector out.0 ≡ 7)
lookup-add_entry_example =
    lookup-add_entry folder name 7 nulls ones disk with_entry.0 folder-IsStored refl refl refl
      (omega arith) (omega arith) with_entry.1

-- The file system with that directory's inode at address 100.
abbrev files : FileSys
files = record {
  inodes = λ a. if a == 100 then some folder else none;
  open_inodes = 100 ∷ [];
  free_map = record { bit_cnt = 10; bits = 0 ∷ [] };
  fs_device = disk;
}

abbrev file : File
file = record { inode = 100; pos = 4; deny_write = false }

file_read-file_seek-file_write_example :
    (out : ℕ × File × FileSys) × (file_write false file ones 8 files ≡ some out)
    × ((file_tell out.1 ≡ file_tell file + out.0)
        × ((back : Buffer × FileSys) × (file_read false
                (file_seek out.1 (file_tell file))
                nulls
                8
                out.2
              ≡ some (out.0, out.1, back.0, back.1))
            × ((k : ℕ) → k < out.0 → back.0 k ≡ ones k)))
file_read-file_seek-file_write_example =
    file_read-file_seek-file_write file folder 8 ones nulls files refl folder-IsStored refl refl

syscall_fibonacci_lem_example : syscall_fibonacci (pos 10) ≡ signed32 (fibonacci 10 % 2 ^ 32)
syscall_fibonacci_lem_example = syscall_fibonacci_lem 10

abbrev table : Descriptors
table = record { fd_num = 3; fd_tab = λ k. if k == 2 then some file else none }

-- What closing the file of number 2 leaves: no open inode.
abbrev closed_table : Descriptors
closed_table = record table { fd_tab = λ k. if 2 == k then none else table.fd_tab k }

abbrev closed_files : FileSys
closed_files = record files {
  inodes = λ a. if 100 == a then none else files.inodes a;
  open_inodes = [];
}

close_run : syscall_close (pos 2) table files ≡ some (closed_table, closed_files)
unfolding syscall_close
close_run = refl

syscall_close_lem_example :
    (get_file (pos 2) closed_table ≡ none)
    × SameBut 2 table closed_table
    × (syscall_read false ones (pos 2) nulls 4 closed_table closed_files
        ≡ some (negsuc 0, nulls, closed_table, closed_files))
    × (syscall_write false (pos 2) nulls 4 closed_table closed_files
        ≡ some (pos 0, closed_table, closed_files))
syscall_close_lem_example =
    syscall_close_lem false ones nulls 4 2 table closed_table files closed_files (omega arith)
      close_run
