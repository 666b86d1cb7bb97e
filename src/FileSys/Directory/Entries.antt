-- ===== src/FileSys/Directory/Entries.antt =====
-- The entries of a directory of pintos/src/filesys/directory.c as the file's bytes, and one read of an entry.
use sogang_pint_os.Common.{
  ℕ, ◌+◌, ◌*◌, ◌-◌, ◌/◌, ◌≤◌, ◌<◌, ◌≡◌, ◌∙◌, Bool, true, false, ◌&&◌, some, List, [], ◌∷◌, arith,
  ltb, ◌==◌, if◌then◌else◌, min, length, obtain,
}
use sogang_pint_os.Block.{Block}
use sogang_pint_os.FileSys.Inode.{Inode, Buffer, IsStored, byte_at, inode_read_at}
use sogang_pint_os.FileSys.Inode.Read.{inode_read_at_lem}
use sogang_pint_os.FileSys.Directory.{entry_size, in_use, entry_sector, same_name}

-- Entry `k` of the directory, as the file holds it.
abbrev pub entry : Block → Inode → ℕ → Buffer
entry dev inode k i = byte_at dev inode (entry_size * k + i)

abbrev pub entry_cnt : Inode → ℕ
entry_cnt inode = inode.disk.length / entry_size

-- The entry is in use and has the name.
abbrev pub has_name : List ℕ → Buffer → Bool
has_name name e = in_use e && same_name name 4 e

-- The buffer holds the bytes of an entry.
abbrev pub Holds : Buffer → Buffer → Type 0
Holds e e' = (i : ℕ) → i < entry_size → e i ≡ e' i

same_name_of_Holds :
    (name : List ℕ) (i : ℕ) (e e' : Buffer)
    → Holds e e'
    → i + length name < entry_size
    → same_name name i e ≡ same_name name i e'
same_name_of_Holds [] i e e' h lt = rw (h i (omega arith))
same_name_of_Holds (c ∷ cs) i e e' h lt =
    rw (h i (omega arith), same_name_of_Holds cs (i + 1) e e' h (omega arith))

pub in_use_of_Holds : (e e' : Buffer) → Holds e e' → in_use e ≡ in_use e'
in_use_of_Holds e e' h = rw (h 19 (omega arith))

pub has_name_of_Holds :
    (name : List ℕ) (e e' : Buffer)
    → Holds e e'
    → length name ≤ 14
    → has_name name e ≡ has_name name e'
has_name_of_Holds name e e' h le =
    rw (h 19 (omega arith), same_name_of_Holds name 4 e e' h (omega arith))

pub entry_sector_of_Holds : (e e' : Buffer) → Holds e e' → entry_sector e ≡ entry_sector e'
entry_sector_of_Holds e e' h =
    rw (h 0 (omega arith), h 1 (omega arith), h 2 (omega arith), h 3 (omega arith))

-- What a read of entry `k` gives, and that there is one only below `entry_cnt`.
pub read_entry :
    (inode : Inode) (k : ℕ) (e : Buffer) (dev : Block)
    → IsStored inode dev
    → k ≤ entry_cnt inode
    → (out : ℕ × Buffer × ℕ) × (inode_read_at false inode e entry_size (entry_size * k) dev
        ≡ some (out.0, out.1, record dev { read_cnt = out.2 }))
      × (((out.0 == entry_size) ≡ ltb k (entry_cnt inode))
          × (k < entry_cnt inode → Holds out.1 (entry dev inode k)))
read_entry inode k e dev v le =
    obtain (inode_read_at_lem inode 20 (20 * k) e dev v) λ out run bytes. (
      (min 20 (inode.disk.length - 20 * k), out.0, out.1),
      run,
      (whole, λ lt i h. bytes i ∙ held lt i h (e i)),
    )
  where
    whole : (min 20 (inode.disk.length - 20 * k) == 20) ≡ ltb k (inode.disk.length / 20)
    whole = ground arith

    held :
        k < inode.disk.length / 20
        → (i : ℕ) → i < 20
        → (old : ℕ)
        → (if ltb i (min 20 (inode.disk.length - 20 * k))
            then byte_at dev inode (20 * k + i)
            else old)
          ≡ byte_at dev inode (20 * k + i)
    held lt i h old =
        let full : ltb i (min 20 (inode.disk.length - 20 * k)) ≡ true = ground arith in rw full
