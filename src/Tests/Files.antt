-- ===== src/Tests/Files.antt =====
-- Runs of the theorems on inodes.
use sogang_pint_os.Common.{
  ℕ, zero, suc, ◌+◌, ◌-◌, ◌^◌, ◌<◌, ◌≡◌, refl, false, Option, some, [], ◌∷◌, arith, ltb, min,
  if◌then◌else◌, get_or,
}
use sogang_pint_os.Bitmap
use sogang_pint_os.Bitmap.{Bitmap, bit}
use sogang_pint_os.FileSys.FreeMap.{free_map_allocate}
use sogang_pint_os.FileSys.FreeMap.Laws.{Allocated, free_map_allocate_lem}
use sogang_pint_os.Block.{Block}
use sogang_pint_os.FileSys.Inode.{Inode, Buffer, IsStored, byte_at, inode_read_at, inode_write_at}
use sogang_pint_os.FileSys.Inode.Read.{inode_read_at_lem}
use sogang_pint_os.FileSys.Inode.Write.{WroteAt, inode_write_at_lem, inode_read_at-inode_write_at}

-- A file of 1000 bytes in sectors 5 and 6.
abbrev inode : Inode
inode = record {
  sector = 2;
  open_cnt = 1;
  removed = false;
  deny_write_cnt = 0;
  disk = record { start = 5; length = 1000; magic = 0 };
}

abbrev device : Block
device = record { size = 10; foreign = false; sectors = λ k. []; read_cnt = 0; write_cnt = 0 }

device_holds : IsStored inode device
device_holds = record { inside = omega arith; small = omega arith }

abbrev ones : Buffer
ones k = 1

abbrev zeros : Buffer
zeros k = 0

inode_read_at_lem_example :
    (out : Buffer × ℕ) × (inode_read_at false inode zeros 600 500 device
      ≡ some (min 600 (1000 - 500), out.0, record device { read_cnt = out.1 }))
    × ((k : ℕ)
        → out.0 k
          ≡ (if ltb k (min 600 (1000 - 500)) then byte_at device inode (500 + k) else zeros k))
inode_read_at_lem_example = inode_read_at_lem inode 600 500 zeros device device_holds

inode_write_at_lem_example :
    (dev' : Block) × (inode_write_at false inode ones 600 500 device
      ≡ some (min 600 (1000 - 500), dev'))
    × WroteAt device dev' inode 500 0 (min 600 (1000 - 500)) ones
inode_write_at_lem_example = inode_write_at_lem inode 600 500 ones device device_holds refl

written : (dev' : Block) × (inode_write_at false inode ones 600 500 device ≡ some (500, dev'))
written =
    let (dev', run, wrote) = inode_write_at_lem inode 600 500 ones device device_holds refl in
    (dev', run)

inode_read_at-inode_write_at_example :
    (out : Buffer × ℕ) × (inode_read_at false inode zeros 600 500 written.0
      ≡ some (500, out.0, record written.0 { read_cnt = out.1 }))
    × ((k : ℕ) → k < 500 → out.0 k ≡ ones k)
inode_read_at-inode_write_at_example =
    inode_read_at-inode_write_at inode 600 500 ones zeros device written.0 500 device_holds refl
      refl written.1

-- Eight sectors, of which 0 and 1 are in use.
abbrev sectors : Bitmap
sectors = record { bit_cnt = 8; bits = 3 ∷ [] }

sectors-IsValid : Bitmap.IsValid sectors
sectors-IsValid = record { room = refl; small = omega arith; narrow = narrow }
  where
    narrow : (i : ℕ) → get_or sectors.bits i 0 < 2 ^ 32
    narrow zero = omega arith
    narrow (suc i) = omega arith

free_map_allocate_lem_example :
    (out : Option ℕ × Bitmap) × (free_map_allocate (some false) 3 sectors ≡ some out)
    × Allocated (some false) sectors 3 out
free_map_allocate_lem_example = free_map_allocate_lem (some false) 3 sectors-IsValid
