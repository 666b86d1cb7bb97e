-- ===== src/FileSys/FreeMap/Laws.antt =====
-- `free_map_allocate` and `free_map_release` of pintos/src/filesys/free-map.c.
use sogang_pint_os.Common.{
  ℕ, ◌+◌, ◌≤◌, ◌≡◌, ◌≢◌, refl, sym, ◌∙◌, inl, inr, Bool, true, false, Option, none, some, arith,
  ◌==◌, if◌then◌else◌, Bool-cases, ne→==_false, none-ne-some, eq_of_some,
}
use sogang_pint_os.Common.Panic.{◌>>=◌}
use sogang_pint_os.Bitmap.{Bitmap, IsValid, bit, bitmap_error, bitmap_set_multiple}
use sogang_pint_os.Bitmap.Bit.{Holds}
use sogang_pint_os.Bitmap.Range.{within, set_multiple_lem, any_lem, any_bit, any_bit-true}
use sogang_pint_os.Bitmap.Scan.{IsGroup, Flipped, flipped, unchanged, scan_and_flip_lem}
use sogang_pint_os.FileSys.FreeMap.{write_failed, free_map_allocate, free_map_release}

-- The outcomes of a request for `cnt` sectors.
pub data Allocated (written : Option Bool) (free_map : Bitmap) (cnt : ℕ)
    : Option ℕ × Bitmap → Type 0 where
  allocated :
      (r : ℕ) (m : Bitmap)
      → IsGroup free_map cnt false r
      → Holds free_map m (λ j. if within r cnt j then true else bit free_map j)
      → written ≢ some false
      → Allocated written free_map cnt (some r, m)
  no_room :
      (m : Bitmap)
      → ((i : ℕ) → ¬ IsGroup free_map cnt false i)
      → Holds free_map m (bit free_map)
      → Allocated written free_map cnt (none, m)
  not_written :
      (m : Bitmap)
      → written ≡ some false
      → Holds free_map m (bit free_map)
      → Allocated written free_map cnt (none, m)

failed_write : (written : Option Bool) → write_failed written ≡ true → written ≡ some false
failed_write none e = absurd (ground (arith, e))
failed_write (some true) e = absurd (ground (arith, e))
failed_write (some false) e = refl

kept_write : (written : Option Bool) → write_failed written ≡ false → written ≢ some false
kept_write none e q = none-ne-some q
kept_write (some true) e q = absurd (ground (arith, eq_of_some q))
kept_write (some false) e q = absurd (ground (arith, e))

-- `free_map_allocate` passes every ASSERT. It gives sectors in a row that were free and marks them and no
-- others, unless writing the map to its open file fails. It gives none only where the map has no such
-- sectors, or where it could not be written; then the same sectors are in use as before, also where they
-- had been marked before the write.
pub free_map_allocate_lem :
    (written : Option Bool) (cnt : ℕ) {free_map : Bitmap}
    → IsValid free_map
    → (out : Option ℕ × Bitmap) × (free_map_allocate written cnt free_map ≡ some out)
      × Allocated written free_map cnt out
unfolding free_map_allocate
free_map_allocate_lem written cnt {free_map} v =
    let (out, run, how) = scan_and_flip_lem v cnt false 0 (omega arith) in rw run (outcome how)
  where
    outcome :
        {out : ℕ × Bitmap}
        → Flipped v cnt false 0 out
        → (res : Option ℕ × Bitmap) × ((if out.0 == bitmap_error
              then some (none, out.1)
              else if write_failed written
              then (bitmap_set_multiple out.1 out.0 cnt false >>= λ restored. some (none, restored))
              else some (some out.0, out.1))
            ≡ some res)
          × Allocated written free_map cnt res
    outcome (flipped r m ne lo g before holds) = elim (Bool-cases (write_failed written)) [
      | inl failed ↦
          let (m', run, back) =
            set_multiple_lem r cnt false holds.valid (omega (arith, g.inside, holds.size)) in
          rw (ne→==_false r bitmap_error ne, failed, run)
            (
              (none, m'),
              refl,
              not_written m' (failed_write written failed) (record {
                valid = back.valid;
                size = back.size ∙ holds.size;
                bits = λ j. elim (Bool-cases (within r cnt j)) [
                  | inl e ↦ back.bits j ∙ rw e (sym (g.same j (ground arith) (ground arith)))
                  | inr e ↦ back.bits j ∙ rw (e, holds.bits j, e)
                ];
              }),
            )
      | inr kept ↦
          rw (ne→==_false r bitmap_error ne, kept)
            ((some r, m), refl, allocated r m g holds (kept_write written kept))
    ]
    outcome (unchanged r e no_more) = rw e (
      (none, free_map),
      refl,
      no_room free_map (λ i. no_more i (omega arith))
          (record { valid = v; size = refl; bits = λ j. refl }),
    )

-- `free_map_release` of sectors of the map that are all in use passes its ASSERTs, makes exactly these
-- free and keeps the map valid.
free_map_release_lem :
    (sector cnt : ℕ) {free_map : Bitmap}
    → IsValid free_map
    → sector + cnt ≤ free_map.bit_cnt
    → IsGroup free_map cnt true sector
    → (m : Bitmap) × (free_map_release sector cnt free_map ≡ some m)
      × Holds free_map m (λ j. if within sector cnt j then false else bit free_map j)
unfolding free_map_release
free_map_release_lem sector cnt {free_map} v h used =
    rw ((any_lem sector cnt v h).2, all_used) (set_multiple_lem sector cnt false v h)
  where
    true-ne-false : true ≢ false
    true-ne-false = ground arith

    all_used : any_bit free_map false sector cnt ≡ false
    all_used = elim (Bool-cases (any_bit free_map false sector cnt)) [
      | inl e ↦
          let (j, lo, hi, clear) = any_bit-true free_map false sector cnt e in
          absurd (true-ne-false (sym (used.same j lo hi) ∙ clear))
      | inr e ↦ e
    ]
