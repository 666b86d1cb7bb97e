-- ===== src/FileSys/Directory/Lookup.antt =====
-- `lookup` of pintos/src/filesys/directory.c.
use mathlib.Core.Path.{subst}
use native.Mathlib.Decide.{dec_lt}
use sogang_pint_os.Common.{
  ℕ, zero, suc, ◌+◌, ◌*◌, ◌-◌, ◌≤◌, ◌<◌, ◌≡◌, refl, sym, ◌∙◌, inl, inr, true, false, Option, none,
  some, List, arith, ltb, length, obtain, Bool-cases, lt→ltb,
}
use sogang_pint_os.Block.{Block}
use sogang_pint_os.FileSys.Inode.{Inode, Buffer, IsStored}
use sogang_pint_os.FileSys.Directory.{entry_size, lookup_loop, lookup}
use sogang_pint_os.FileSys.Directory.Entries.{
  entry, entry_cnt, has_name, Holds, has_name_of_Holds, read_entry,
}

-- What `lookup` finds: the first entry in use with the name, at its offset; nothing if there is none.
abbrev pub Found : List ℕ → Block → Inode → Option (Buffer × ℕ) → Type 0
Found name dev inode none =
    (k : ℕ) → k < entry_cnt inode → has_name name (entry dev inode k) ≡ false
Found name dev inode (some (e, ofs)) =
    (k : ℕ) × (k < entry_cnt inode)
    × (ofs ≡ entry_size * k)
    × (has_name name (entry dev inode k) ≡ true)
    × Holds e (entry dev inode k)
    × ((j : ℕ) → j < k → has_name name (entry dev inode j) ≡ false)

-- A device that was only read.
pub read_only :
    {inode : Inode} {dev : Block} (n : ℕ)
    → IsStored inode dev
    → IsStored inode (record dev { read_cnt = n })
read_only n v = record { inside = v.inside; small = v.small }

pub below_next {ℓ} :
    {P : ℕ → Type ℓ} (k : ℕ) → ((j : ℕ) → j < k → P j) → P k → (j : ℕ) → j < k + 1 → P j
below_next {P} k before here j lt = elim (dec_lt j k) [
  | yes less ↦ before j less
  | no last ↦ let same : k ≡ j = omega (arith, last) in subst P same here
]

lookup_loop_lem :
    (fuel k ofs : ℕ) (inode : Inode) (name : List ℕ) (e : Buffer) (dev : Block)
    → IsStored inode dev
    → length name ≤ 14
    → ofs ≡ entry_size * k
    → k ≤ entry_cnt inode
    → entry_cnt inode - k < fuel
    → ((j : ℕ) → j < k → has_name name (entry dev inode j) ≡ false)
    → (out : Option (Buffer × ℕ) × ℕ) × (lookup_loop fuel false inode name e ofs dev
        ≡ some (out.0, record dev { read_cnt = out.1 }))
      × Found name dev inode out.0
unfolding lookup_loop
lookup_loop_lem zero k ofs inode name e dev v short at le lt before = absurd (omega arith)
lookup_loop_lem (suc fuel) k ofs inode name e dev v short at le lt before = rw at (
    obtain (read_entry inode k e dev v le) λ (n, e', reads) run (whole, held).
      elim (dec_lt k (entry_cnt inode)) [
        | no done ↦ (
          (none, reads),
          rw (lookup_loop, run, whole, past done),
          λ j h. before j (omega (arith, done)),
        )
        | yes more ↦ elim (Bool-cases (has_name name e')) [
          | inl hit ↦ (
            (some (e', entry_size * k), reads),
            rw (lookup_loop, run, whole, lt→ltb _ _ more, hit),
            (
              k,
              more,
              refl,
              sym (has_name_of_Holds name e' _ (held more) short) ∙ hit,
              held more,
              before,
            ),
          )
          | inr miss ↦
              obtain
                (lookup_loop_lem fuel (k + 1) (entry_size * k + entry_size) inode name e'
                  (record dev { read_cnt = reads }) (read_only reads v) short (omega arith)
                  (omega arith) (omega arith)
                  (below_next k before
                    (sym (has_name_of_Holds name e' _ (held more) short) ∙ miss)))
                λ out run' found.
                  (out, rw (lookup_loop, run, whole, lt→ltb _ _ more, miss) run', found)
        ]
      ])
  where
    past : ¬ (k < entry_cnt inode) → ltb k (entry_cnt inode) ≡ false
    past done = ground arith

-- `lookup` for a name of at most NAME_MAX characters, in a directory that lies on the device, passes
-- every check and ends. It writes nothing and finds the first entry in use that has the name, with its
-- offset, or nothing if no entry in use has it.
pub lookup_lem :
    (inode : Inode) (name : List ℕ) (e : Buffer) (dev : Block)
    → IsStored inode dev
    → length name ≤ 14
    → (out : Option (Buffer × ℕ) × ℕ) × (lookup false inode name e dev
        ≡ some (out.0, record dev { read_cnt = out.1 }))
      × Found name dev inode out.0
unfolding lookup
lookup_lem inode name e dev v short =
    lookup_loop_lem (entry_cnt inode + 1) 0 0 inode name e dev v short refl (omega arith)
      (omega arith) (λ j lt. absurd (omega arith))
