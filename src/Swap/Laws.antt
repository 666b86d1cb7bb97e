-- ===== src/Swap/Laws.antt =====
-- `swap_out`, `swap_in` and a page that goes through both (pintos/src/vm/swap.c).
use sogang_pint_os.Common.{
  ℕ, suc, ◌+◌, ◌-◌, ◌*◌, ◌/◌, ◌%◌, ◌^◌, ◌<◌, ◌≡◌, ◌≢◌, ◌⊎◌, inl, inr, refl, ◌∙◌, sym, true, false,
  Option, none, some, arith, ◌==◌, if◌then◌else◌, ne→==_false, Bool-cases, eq_of_some, none-ne-some,
  obtain,
}
use mathlib.Core.Path.{subst}
use sogang_pint_os.Common.Panic.{◌>>=◌}
use sogang_pint_os.Bitmap.{bit, Bitmap, bitmap_error}
use sogang_pint_os.Bitmap.Bit.{Holds}
use sogang_pint_os.Bitmap.Range.{set_multiple_lem}
use sogang_pint_os.Bitmap.Scan
use sogang_pint_os.Bitmap.Scan.{IsGroup, scan_and_flip_lem}
use sogang_pint_os.Block.{Block}
use sogang_pint_os.Swap.{Swap, Page, write_loop, swap_in, swap_out}
use sogang_pint_os.Swap.Loops.{slot, write_loop_lem, read_loop_lem, IsValid, Written}

-- `swap_out` with a free slot writes the page to one, and touches nothing else.
pub record WentOut (s : Swap) (page : Page) (index : ℕ) (s' : Swap) : Type 0 where
  pub k : ℕ
  pub number : index ≡ k + 1
  pub inside : k < s.swap_bitmap.bit_cnt
  pub free : bit s.swap_bitmap k ≡ false
  pub map : Holds s.swap_bitmap s'.swap_bitmap (λ j. if k == j then true else bit s.swap_bitmap j)
  pub stored : (i : ℕ) → i < 8 → slot s' k i ≡ page i
  pub kept : (j i : ℕ) → i < 8 → j ≢ k → slot s' j i ≡ slot s j i
  pub valid : IsValid s'

-- With a free slot `swap_out` succeeds. It returns the number of a slot that was free, which now holds
-- the page and is in use; every other slot keeps its contents and its state. Without one it panics.
pub swap_out_lem :
    {s : Swap} (page : Page)
    → IsValid s
    → ((index : ℕ) × (s' : Swap) × (swap_out page s ≡ some (index, s')) × WentOut s page index s')
      ⊎ (swap_out page s ≡ none) × ((k : ℕ) → ¬ IsGroup s.swap_bitmap 1 false k)
unfolding swap_out
swap_out_lem {s} page v =
    let ((r, b'), run, how) = scan_and_flip_lem v.map_valid 1 false 0 (omega arith) in
    rw run (outcome how)
  where
    finish : ℕ × Bitmap → Option (ℕ × Swap)
    finish (r, b') =
        if r == bitmap_error
        then none
        else (write_loop 8 (r * 8 % 2 ^ 32) 0 page s.block >>= λ block.
            some (r * 8 % 2 ^ 32 / 8 + 1, record { swap_bitmap = b'; block = block }))

    outcome :
        {out : ℕ × Bitmap}
        → Scan.Flipped v.map_valid 1 false 0 out
        → ((index : ℕ) × (s' : Swap) × (finish out ≡ some (index, s')) × WentOut s page index s')
          ⊎ (finish out ≡ none) × ((k : ℕ) → ¬ IsGroup s.swap_bitmap 1 false k)
    outcome (Scan.unchanged r e nowhere) = inr (rw e, λ k. nowhere k (omega arith))
    outcome (Scan.flipped r b' ne lo g before holds) =
        let inside = g.inside in
        let base : r * 8 % 2 ^ 32 ≡ 8 * r = omega (arith, v.room, v.small) in
        let index : 8 * r / 8 ≡ r = omega arith in
        obtain (write_loop_lem 8 (8 * r) 0 page v.small v.own (omega (arith, v.room)))
          λ block run w. inl (
            r + 1,
            record { swap_bitmap = b'; block = block },
            rw (ne→==_false r bitmap_error ne, base, run, index),
            record {
              k = r;
              number = refl;
              inside = omega arith;
              free = g.same r (omega arith) (omega arith);
              map = record {
                valid = holds.valid;
                size = holds.size;
                bits = λ j. ground (arith, holds.bits j);
              };
              stored = λ i hi. stored_part block w i hi;
              kept = λ j i hi away. ground (arith, w.sectors (8 * j + i));
              valid = record {
                map_valid = holds.valid;
                room = omega (arith, v.room, holds.size, w.size);
                small = omega (arith, v.small, w.size);
                own = w.foreign ∙ v.own;
              };
            },
          )
      where
        stored_part :
            (block : Block)
            → Written s.block block (8 * r) 0 8 page
            → (i : ℕ) → i < 8
            → block.sectors (8 * r + i) ≡ page i
        stored_part block w i hi =
            let at : 8 * r + i - 8 * r ≡ i = omega arith in
            w.sectors (8 * r + i) ∙ rw at (ground arith)

-- `swap_in` of a slot's number reads its contents and frees the slot; other slots stay.
swap_in_lem :
    {s : Swap} (k : ℕ) (page : Page)
    → IsValid s
    → k < s.swap_bitmap.bit_cnt
    → (page' : Page) × (s' : Swap) × (swap_in (suc k) page s ≡ some (page', s'))
      × ((i : ℕ) → i < 8 → page' i ≡ slot s k i)
      × Holds s.swap_bitmap s'.swap_bitmap (λ j. if k == j then false else bit s.swap_bitmap j)
      × ((j i : ℕ) → slot s' j i ≡ slot s j i)
unfolding swap_in
swap_in_lem {s} k page v h =
    let base : k * 8 % 2 ^ 32 ≡ 8 * k = omega (arith, v.room, v.small) in
    let index : 8 * k / 8 ≡ k = omega arith in
    obtain (read_loop_lem 8 (8 * k) 0 page s.block v.small (omega (arith, v.room)))
      λ page' run parts.
        obtain (set_multiple_lem k 1 false v.map_valid (omega arith)) λ b' run' holds. (
          page',
          record { swap_bitmap = b'; block = record s.block { read_cnt = s.block.read_cnt + 8 } },
          rw (base, run, index, run'),
          λ i hi. parts i ∙ ground arith,
          record {
            valid = holds.valid;
            size = holds.size;
            bits = λ j. ground (arith, holds.bits j);
          },
          λ j i. refl,
        )

-- On a device that has eight sectors for every slot of the bitmap, a page that `swap_out` took comes back by `swap_in` of the number that it returned, whatever the
-- frame held, and afterwards the same slots are in use as before both.
pub swap_in-swap_out :
    {s : Swap} (page frame : Page) (index : ℕ) (s' : Swap)
    → IsValid s
    → swap_out page s ≡ some (index, s')
    → (page' : Page) × (s'' : Swap) × (swap_in index frame s' ≡ some (page', s''))
      × ((i : ℕ) → i < 8 → page' i ≡ page i)
      × ((j : ℕ) → bit s''.swap_bitmap j ≡ bit s.swap_bitmap j)
swap_in-swap_out {s} page frame index s' v run = elim (swap_out_lem page v) [
  | inl (index₁, s₁, run₁, out) ↦
      subst
        (λ (o : ℕ × Swap).
          (page' : Page) × (s'' : Swap) × (swap_in o.0 frame o.1 ≡ some (page', s''))
          × ((i : ℕ) → i < 8 → page' i ≡ page i)
          × ((j : ℕ) → bit s''.swap_bitmap j ≡ bit s.swap_bitmap j))
        (eq_of_some (sym run₁ ∙ run)) (back out)
  | inr (panic, full) ↦ absurd (none-ne-some (sym panic ∙ run))
]
  where
    back :
        {index : ℕ} {s' : Swap}
        → WentOut s page index s'
        → (page' : Page) × (s'' : Swap) × (swap_in index frame s' ≡ some (page', s''))
          × ((i : ℕ) → i < 8 → page' i ≡ page i)
          × ((j : ℕ) → bit s''.swap_bitmap j ≡ bit s.swap_bitmap j)
    back out =
        let (page', s'', run', same, map', kept) =
          swap_in_lem out.k frame out.valid (omega (arith, out.inside, out.map.size)) in
        let number : _ ≡ suc out.k = out.number ∙ omega arith in
        (
          page',
          s'',
          rw number run',
          λ i hi. same i hi ∙ out.stored i hi,
          λ j. elim (Bool-cases (out.k == j)) [
            | inl e ↦ let at : out.k ≡ j = ground arith in map'.bits j ∙ rw (e, ← at) (sym out.free)
            | inr e ↦ map'.bits j ∙ rw (e, out.map.bits j, e)
          ],
        )
