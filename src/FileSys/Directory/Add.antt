-- ===== src/FileSys/Directory/Add.antt =====
-- `dir_add` of pintos/src/filesys/directory.c, in the directory of an inode.
use mathlib.Core.Path.{subst}
use native.Mathlib.Decide.{dec_lt, ℕ_discrete}
use sogang_pint_os.Common.{
  ℕ, zero, suc, ◌+◌, ◌*◌, ◌-◌, ◌/◌, ◌^◌, ◌≤◌, ◌<◌, ◌≡◌, ◌≢◌, ◌⊎◌, refl, sym, ap, ◌∙◌, inl, inr,
  Bool, true, false, ◌&&◌, ◌||◌, Option, none, some, List, [], ◌∷◌, arith, ltb, leb, ◌==◌,
  if◌then◌else◌, length, obtain, Bool-cases, lt→ltb, ==_refl, eq_of_some, min, get_or,
}
use sogang_pint_os.Common.Panic.{◌>>=◌}
use sogang_pint_os.Block.{Block}
use sogang_pint_os.FileSys.Inode.{
  Inode, Buffer, IsStored, byte_at, bytes_to_sectors, inode_write_at,
}
use sogang_pint_os.FileSys.Inode.WriteChunk.{patched}
use sogang_pint_os.FileSys.Inode.Write.{WroteAt, inode_write_at_lem}
use sogang_pint_os.FileSys.Directory.{
  entry_size, entry_sector, in_use, same_name, lookup, slot_loop, new_entry, add_entry,
}
use sogang_pint_os.FileSys.Directory.Entries.{
  entry, entry_cnt, has_name, Holds, has_name_of_Holds, in_use_of_Holds, entry_sector_of_Holds,
  read_entry,
}
use sogang_pint_os.FileSys.Directory.Lookup.{Found, read_only, below_next, lookup_lem}

-- The slot that the loop stops at: the first entry that is not in use, or the end of the directory.
record Slot (dev : Block) (inode : Inode) (ofs : ℕ) : Type 0 where
  index : ℕ
  at : ofs ≡ entry_size * index
  bound : index ≤ entry_cnt inode
  taken : (j : ℕ) → j < index → in_use (entry dev inode j) ≡ true
  unused : index < entry_cnt inode → in_use (entry dev inode index) ≡ false

slot_loop_lem :
    (fuel k ofs : ℕ) (inode : Inode) (e : Buffer) (dev : Block)
    → IsStored inode dev
    → ofs ≡ entry_size * k
    → k ≤ entry_cnt inode
    → entry_cnt inode - k < fuel
    → ((j : ℕ) → j < k → in_use (entry dev inode j) ≡ true)
    → (out : Buffer × ℕ × ℕ) × (slot_loop fuel false inode e ofs dev
        ≡ some (out.0, out.1, record dev { read_cnt = out.2 }))
      × Slot dev inode out.1
unfolding slot_loop
slot_loop_lem zero k ofs inode e dev v at le lt before = absurd (omega arith)
slot_loop_lem (suc fuel) k ofs inode e dev v at le lt before = rw at (
    obtain (read_entry inode k e dev v le) λ (n, e', reads) run (whole, held).
      elim (dec_lt k (entry_cnt inode)) [
        | no done ↦ (
          (e', entry_size * k, reads),
          rw (slot_loop, run, whole, past done),
          record {
            index = k;
            at = refl;
            bound = le;
            taken = before;
            unused = λ more. absurd (done more);
          },
        )
        | yes more ↦ elim (Bool-cases (in_use e')) [
          | inr free ↦ (
            (e', entry_size * k, reads),
            rw (slot_loop, run, whole, lt→ltb _ _ more, free),
            record {
              index = k;
              at = refl;
              bound = le;
              taken = before;
              unused = λ _. sym (in_use_of_Holds e' _ (held more)) ∙ free;
            },
          )
          | inl used ↦
              obtain
                (slot_loop_lem fuel (k + 1) (entry_size * k + entry_size) inode e'
                  (record dev { read_cnt = reads }) (read_only reads v) (omega arith) (omega arith)
                  (omega arith)
                  (below_next k before (sym (in_use_of_Holds e' _ (held more)) ∙ used)))
                λ out run' slot. (
                  out,
                  rw (slot_loop, run, whole, lt→ltb _ _ more, used) run',
                  record {
                    index = slot.index;
                    at = slot.at;
                    bound = slot.bound;
                    taken = slot.taken;
                    unused = slot.unused;
                  },
                )
        ]
      ])
  where
    past : ¬ (k < entry_cnt inode) → ltb k (entry_cnt inode) ≡ false
    past done = ground arith

same_name_of_bytes :
    (name : List ℕ) (i : ℕ) (e : Buffer)
    → ((j : ℕ) → j < length name → e (i + j) ≡ get_or name j 0)
    → e (i + length name) ≡ 0
    → same_name name i e ≡ true
same_name_of_bytes [] i e chars last = let here : i + 0 ≡ i = omega arith in rw (← here, last)
same_name_of_bytes (c ∷ cs) i e chars last =
    let here : i + 0 ≡ i = omega arith in
    rw (subst (λ z. e z ≡ c) here (chars 0 (omega arith)), ==_refl c)
      (same_name_of_bytes cs (i + 1) e later end)
  where
    later : (j : ℕ) → j < length cs → e (i + 1 + j) ≡ get_or cs j 0
    later j lt =
        let next : i + suc j ≡ i + 1 + j = omega arith in
        subst (λ z. e z ≡ get_or cs j 0) next (chars (suc j) (omega arith))

    end : e (i + 1 + length cs) ≡ 0
    end =
        let next : i + suc (length cs) ≡ i + 1 + length cs = omega arith in
        subst (λ z. e z ≡ 0) next last

new_entry-has_name :
    (name : List ℕ) (sector : ℕ) (e : Buffer)
    → length name ≤ 14
    → has_name name (new_entry name sector e) ≡ true
new_entry-has_name name sector e short =
    rw (used, same_name_of_bytes name 4 (new_entry name sector e) chars last)
  where
    used : new_entry name sector e 19 ≡ 1
    used = ground arith

    chars : (j : ℕ) → j < length name → new_entry name sector e (4 + j) ≡ get_or name j 0
    chars j lt =
        let above : ltb (4 + j) 4 ≡ false = ground arith in
        let within : ltb (4 + j) (4 + length name) ≡ true = ground arith in
        let back : 4 + j - 4 ≡ j = omega arith in rw (above, within, back)

    last : new_entry name sector e (4 + length name) ≡ 0
    last =
        let above : ltb (4 + length name) 4 ≡ false = ground arith in
        let past : ltb (4 + length name) (4 + length name) ≡ false = ground arith in
        rw (above, past, ==_refl (4 + length name))

new_entry-sector :
    (name : List ℕ) (sector : ℕ) (e : Buffer)
    → sector < 2 ^ 32
    → entry_sector (new_entry name sector e) ≡ sector
new_entry-sector name sector e lt = omega arith

-- What `dir_add` leaves: a failure changes no byte of the directory, and has a reason; a success puts an
-- entry with the name and the sector in a slot that was not in use, where no entry had the name.
pub data Added (name : List ℕ) (sector : ℕ) (inode : Inode) (dev dev' : Block) : Bool → Type 0 where
  added :
      (k : ℕ)
      → k < entry_cnt inode
      → in_use (entry dev inode k) ≡ false
      → ((j : ℕ) → j < entry_cnt inode → has_name name (entry dev inode j) ≡ false)
      → has_name name (entry dev' inode k) ≡ true
      → entry_sector (entry dev' inode k) ≡ sector
      → ((j : ℕ) → j ≢ k → Holds (entry dev' inode j) (entry dev inode j))
      → Added name sector inode dev dev' true
  refused :
      (length name ≡ 0)
        ⊎ (14 < length name)
        ⊎ ((k : ℕ) × (k < entry_cnt inode) × (has_name name (entry dev inode k) ≡ true))
        ⊎ ((k : ℕ) → k < entry_cnt inode → in_use (entry dev inode k) ≡ true)
      → ((p : ℕ) → byte_at dev' inode p ≡ byte_at dev inode p)
      → Added name sector inode dev dev' false

-- The bytes of a slot after it was written, and of the other slots.
written :
    {name : List ℕ} {sector : ℕ} {inode : Inode} {dev : Block} (e' : Buffer) (k : ℕ) (dev' : Block)
    → ((p : ℕ)
        → byte_at dev' inode p ≡ patched dev inode (20 * k) 0 20 (new_entry name sector e') p)
    → k < entry_cnt inode
    → in_use (entry dev inode k) ≡ false
    → length name ≤ 14
    → sector < 2 ^ 32
    → Found name dev inode none
    → Added name sector inode dev dev' true
written {name} {sector} {inode} {dev} e' k dev' file more unused short lt absent =
    added k more unused absent
      (has_name_of_Holds name (entry dev' inode k) (new_entry name sector e') held short
        ∙ new_entry-has_name name sector e' short)
      (entry_sector_of_Holds (entry dev' inode k) (new_entry name sector e') held
        ∙ new_entry-sector name sector e' lt)
      (λ j ne i h. file (20 * j + i) ∙ rw (apart j i ne h))
  where
    held : Holds (entry dev' inode k) (new_entry name sector e')
    held i h =
        let within : (leb (20 * k) (20 * k + i) && ltb (20 * k + i) (20 * k + 20)) ≡ true =
          ground arith in
        let back : 0 + (20 * k + i - 20 * k) ≡ i = omega arith in
        file (20 * k + i) ∙ rw (within, back)

    apart :
        (j i : ℕ)
        → j ≢ k
        → i < 20
        → (leb (20 * k) (20 * j + i) && ltb (20 * j + i) (20 * k + 20)) ≡ false
    apart j i ne h = ground arith

-- What stays whatever happens: the device's size, and all sectors outside of the directory.
pub record Kept (inode : Inode) (dev dev' : Block) : Type 0 where
  pub same_size : dev'.size ≡ dev.size
  pub elsewhere :
      (k : ℕ)
      → k < inode.disk.start ⊎ inode.disk.start + bytes_to_sectors inode.disk.length ≤ k
      → dev'.sectors k ≡ dev.sectors k

-- `dir_add` with a sector of 32 bits, in a directory of whole entries that lies on the device and may
-- be written, passes every check and ends. It adds the entry, or fails because the name is empty or too
-- long, or is in use, or no slot is free; then the directory is as before. No sector
-- outside of the directory is changed.
pub add_entry_lem :
    (inode : Inode) (name : List ℕ) (sector : ℕ) (e : Buffer) (dev : Block)
    → IsStored inode dev
    → dev.foreign ≡ false
    → inode.deny_write_cnt ≡ 0
    → inode.disk.length ≡ entry_size * entry_cnt inode
    → sector < 2 ^ 32
    → (out : Bool × Block) × (add_entry false inode name sector e dev ≡ some out)
      × (Kept inode dev out.1 × Added name sector inode dev out.1 out.0)
unfolding add_entry
add_entry_lem inode name sector e dev v own open_ whole lt =
    elim (Bool-cases (length name == 0 || ltb 14 (length name))) [
      | inl bad ↦ (
        (false, dev),
        rw (add_entry, bad),
        (record { same_size = refl; elsewhere = λ k h. refl }, refused (reason bad) (λ p. refl)),
      )
      | inr good ↦ obtain (lookup_lem inode name e dev v (ground arith)) λ (found, reads) run f.
          rw (add_entry, good, run) (with_lookup found reads (ground arith) f)
    ]
  where
    reason :
        (length name == 0 || ltb 14 (length name)) ≡ true
        → (length name ≡ 0)
          ⊎ (14 < length name)
          ⊎ ((k : ℕ) × (k < entry_cnt inode) × (has_name name (entry dev inode k) ≡ true))
          ⊎ ((k : ℕ) → k < entry_cnt inode → in_use (entry dev inode k) ≡ true)
    reason bad = elim (ℕ_discrete (length name) 0) [
      | yes empty ↦ inl empty
      | no n ↦ inr (inl (ground arith))
    ]

    finish :
        (e' : Buffer) (ofs reads reads' : ℕ) (dev' : Block)
        → Slot (record dev { read_cnt = reads }) inode ofs
        → WroteAt
            (record dev { read_cnt = reads' })
            dev'
            inode
            ofs
            0
            (min 20 (inode.disk.length - ofs))
            (new_entry name sector e')
        → length name ≤ 14
        → Found name dev inode none
        → Added name sector inode dev dev' (min 20 (inode.disk.length - ofs) == 20)
    finish e' ofs reads reads' dev' slot wrote short absent =
        elim (dec_lt slot.index (entry_cnt inode)) [
          | yes more ↦
              let full : min 20 (inode.disk.length - ofs) ≡ 20 = omega (arith, slot.at) in
              let file =
                subst
                  (λ n.
                    (p : ℕ)
                    → byte_at dev' inode p ≡ patched dev inode ofs 0 n (new_entry name sector e') p)
                  full wrote.file in
              rw full (
                written e' slot.index dev'
                  (subst
                    (λ o.
                      (p : ℕ)
                      → byte_at dev' inode p
                        ≡ patched dev inode o 0 20 (new_entry name sector e') p)
                    slot.at file)
                  more (slot.unused more) short lt absent)
          | no end ↦
              let empty : min 20 (inode.disk.length - ofs) ≡ 0 =
                omega (arith, slot.at, slot.bound, end, whole) in
              let file =
                subst
                  (λ n.
                    (p : ℕ)
                    → byte_at dev' inode p ≡ patched dev inode ofs 0 n (new_entry name sector e') p)
                  empty wrote.file in
              rw empty (
                refused (inr (inr (inr (λ k less. slot.taken k (omega (arith, end))))))
                  (λ p. file p ∙ rw (outside ofs p)))
        ]
      where
        outside : (o p : ℕ) → (leb o p && ltb p (o + 0)) ≡ false
        outside o p = ground arith

    with_lookup :
        (found : Option (Buffer × ℕ)) (reads : ℕ)
        → length name ≤ 14
        → Found name dev inode found
        → (out : Bool × Block) × ((elim found [
          | some old ↦ some (false, record dev { read_cnt = reads })
          | none ↦
              slot_loop
                (inode.disk.length / entry_size + 1)
                false
                inode
                e
                0
                (record dev { read_cnt = reads })
              >>= λ (e', ofs, dev₂).
                  inode_write_at false inode (new_entry name sector e') entry_size ofs dev₂
                  >>= λ (n, dev₃). some (n == entry_size, dev₃)
        ])
            ≡ some out)
          × (Kept inode dev out.1 × Added name sector inode dev out.1 out.0)
    with_lookup (some old) reads short f = (
      (false, record dev { read_cnt = reads }),
      refl,
      (
        record { same_size = refl; elsewhere = λ k h. refl },
        refused (inr (inr (inl (f.0, f.1, f.3)))) (λ p. refl),
      ),
    )
    with_lookup none reads short f =
        obtain
          (slot_loop_lem (entry_cnt inode + 1) 0 0 inode e (record dev { read_cnt = reads })
            (read_only reads v) refl (omega arith) (omega arith) (λ j h. absurd (omega arith)))
          λ (e', ofs, reads') run slot.
            obtain
              (inode_write_at_lem inode entry_size ofs (new_entry name sector e')
                (record dev { read_cnt = reads' }) (read_only reads' v) own)
              λ dev' run' wrote. (
                (min entry_size (inode.disk.length - ofs) == entry_size, dev'),
                rw (run, run', open_),
                (
                  record { same_size = wrote.same_size; elsewhere = wrote.elsewhere },
                  finish e' ofs reads reads' dev' slot
                      (subst
                        (λ (c : ℕ).
                          WroteAt (record dev { read_cnt = reads' }) dev' inode ofs 0
                            (if c == 0 then min 20 (inode.disk.length - ofs) else 0)
                            (new_entry name sector e'))
                        open_ wrote)
                      short f,
                ),
              )

-- An entry that `dir_add` added is found by `lookup`, with its sector.
pub lookup-add_entry :
    (inode : Inode) (name : List ℕ) (sector : ℕ) (e e' : Buffer) (dev dev' : Block)
    → IsStored inode dev
    → dev.foreign ≡ false
    → inode.deny_write_cnt ≡ 0
    → inode.disk.length ≡ entry_size * entry_cnt inode
    → sector < 2 ^ 32
    → length name ≤ 14
    → add_entry false inode name sector e dev ≡ some (true, dev')
    → (out : Buffer × ℕ × ℕ) × (lookup false inode name e' dev'
        ≡ some (some (out.0, out.1), record dev' { read_cnt = out.2 }))
      × (entry_sector out.0 ≡ sector)
lookup-add_entry inode name sector e e' dev dev' v own open_ whole lt short run =
    obtain (add_entry_lem inode name sector e dev v own open_ whole lt) λ out run' (kept, result).
      let same : out ≡ (true, dev') = eq_of_some (sym run' ∙ run) in
      found_again (subst (λ (o : Bool × Block). Kept inode dev o.1) same kept)
        (subst (λ (o : Bool × Block). Added name sector inode dev o.1 o.0) same result)
  where
    again :
        (found : Option (Buffer × ℕ)) (reads : ℕ)
        → Added name sector inode dev dev' true
        → lookup false inode name e' dev' ≡ some (found, record dev' { read_cnt = reads })
        → Found name dev' inode found
        → (out : Buffer × ℕ × ℕ) × (lookup false inode name e' dev'
            ≡ some (some (out.0, out.1), record dev' { read_cnt = out.2 }))
          × (entry_sector out.0 ≡ sector)
    again none reads (added k more unused absent named sector_is others) run f =
        absurd (clash named (f k more))
      where
        clash : {b : Bool} → b ≡ true → b ≡ false → ⊥
        clash p q = cc
    again (some (b, ofs)) reads (added k more unused absent named sector_is others) run
          (k', more', at, named', held, first) =
        elim (ℕ_discrete k' k) [
          | yes e ↦ (
            (b, ofs, reads),
            run,
            entry_sector_of_Holds b (entry dev' inode k') held
                ∙ ap (λ z. entry_sector (entry dev' inode z)) e
                ∙ sector_is,
          )
          | no n ↦ absurd (
              clash
                (sym (
                    has_name_of_Holds name (entry dev' inode k') (entry dev inode k') (others k' n)
                      short)
                  ∙ named')
                (absent k' more'))
        ]
      where
        clash : {b : Bool} → b ≡ true → b ≡ false → ⊥
        clash p q = cc

    found_again :
        Kept inode dev dev'
        → Added name sector inode dev dev' true
        → (out : Buffer × ℕ × ℕ) × (lookup false inode name e' dev'
            ≡ some (some (out.0, out.1), record dev' { read_cnt = out.2 }))
          × (entry_sector out.0 ≡ sector)
    found_again kept result =
        obtain
          (lookup_lem inode name e' dev'
            (record {
              inside = omega (arith, v.inside, kept.same_size);
              small = omega (arith, v.small, kept.same_size);
            })
            short)
          λ (found, reads) run' f. again found reads result run' f
