-- ===== src/Swap/Loops.antt =====
-- The loops of `swap_in` and `swap_out` over the sectors of a slot (pintos/src/vm/swap.c).
use sogang_pint_os.Common.{
  ℕ, zero, suc, ◌+◌, ◌-◌, ◌*◌, ◌%◌, ◌^◌, ◌<◌, ◌≤◌, ◌≡◌, inl, inr, refl, ◌∙◌, false, some, arith,
  ◌==◌, if◌then◌else◌, Bool-cases,
}
use native.Mathlib.Nat.{add-zero}
use sogang_pint_os.Bitmap
use sogang_pint_os.Bitmap.{bit, Bitmap, bitmap_set_multiple, bitmap_error}
use sogang_pint_os.Bitmap.Range.{within}
use sogang_pint_os.Block.{Block, block_read_lem, block_write_lem}
use sogang_pint_os.Swap.{Swap, Page, read_loop, write_loop}

-- The device has room for every slot.
pub record IsValid (s : Swap) : Type 0 where
  pub map_valid : Bitmap.IsValid s.swap_bitmap
  pub room : 8 * s.swap_bitmap.bit_cnt ≤ s.block.size
  pub small : s.block.size < 2 ^ 32
  pub own : s.block.foreign ≡ false

-- What the slot of bit `k` holds.
abbrev pub slot : Swap → ℕ → Page
slot s k i = s.block.sectors (8 * k + i)

-- `block'` is `block` with `n` sectors from `sector + i` on holding the page.
pub record Written (block block' : Block) (sector i n : ℕ) (page : Page) : Type 0 where
  pub size : block'.size ≡ block.size
  pub foreign : block'.foreign ≡ block.foreign
  pub sectors :
      (k : ℕ)
      → block'.sectors k ≡ (if within (sector + i) n k then page (k - sector) else block.sectors k)

pub write_loop_lem :
    (n sector i : ℕ) (page : Page) {block : Block}
    → block.size < 2 ^ 32
    → block.foreign ≡ false
    → sector + i + n ≤ block.size
    → (block' : Block) × (write_loop n sector i page block ≡ some block')
      × Written block block' sector i n page
unfolding write_loop
write_loop_lem zero sector i page {block} small own h =
    (block, refl, record { size = refl; foreign = refl; sectors = λ k. ground arith })
write_loop_lem (suc n) sector i page {block} small own h =
    after (write_loop_lem n sector (i + 1) page {block = next} small own (omega arith))
  where
    next : Block
    next = record block {
      sectors = λ s. if sector + i == s then page i else block.sectors s;
      write_cnt = block.write_cnt + 1;
    }

    here : (sector + i) % 2 ^ 32 ≡ sector + i
    here = omega arith

    merge :
        (k : ℕ)
        → (if within (sector + (i + 1)) n k then page (k - sector) else next.sectors k)
          ≡ (if within (sector + i) (suc n) k then page (k - sector) else block.sectors k)
    merge k = elim (Bool-cases (sector + i == k)) [
      | inl e ↦ let at : k - sector ≡ i = ground arith in rw (e, at) (ground arith)
      | inr e ↦ rw e (ground arith)
    ]

    after :
        (block' : Block) × (write_loop n sector (i + 1) page next ≡ some block')
          × Written next block' sector (i + 1) n page
        → (block' : Block) × (write_loop (suc n) sector i page block ≡ some block')
          × Written block block' sector i (suc n) page
    after (block', run, written) = (
      block',
      rw (here, block_write_lem block (sector + i) (page i) (omega arith) own) run,
      record {
        size = written.size;
        foreign = written.foreign;
        sectors = λ k. written.sectors k ∙ merge k;
      },
    )

-- Reading changes only the count of reads.
pub read_loop_lem :
    (n sector i : ℕ) (page : Page) (block : Block)
    → block.size < 2 ^ 32
    → sector + i + n ≤ block.size
    → (page' : Page) × (read_loop n sector i page block
        ≡ some (page', record block { read_cnt = block.read_cnt + n }))
      × ((k : ℕ) → page' k ≡ (if within i n k then block.sectors (sector + k) else page k))
unfolding read_loop
read_loop_lem zero sector i page block small h = (page, rw add-zero, λ k. ground arith)
read_loop_lem (suc n) sector i page block small h =
    after (read_loop_lem n sector (i + 1) filled next small (omega arith))
  where
    next : Block
    next = record block { read_cnt = block.read_cnt + 1 }

    filled : Page
    filled k = if i == k then block.sectors (sector + i) else page k

    here : (sector + i) % 2 ^ 32 ≡ sector + i
    here = omega arith

    merge :
        (k : ℕ)
        → (if within (i + 1) n k then block.sectors (sector + k) else filled k)
          ≡ (if within i (suc n) k then block.sectors (sector + k) else page k)
    merge k = elim (Bool-cases (i == k)) [
      | inl e ↦ let at : i ≡ k = ground arith in rw (e, at) (ground arith)
      | inr e ↦ rw e (ground arith)
    ]

    count : block.read_cnt + 1 + n ≡ block.read_cnt + suc n
    count = omega arith

    after :
        (page' : Page) × (read_loop n sector (i + 1) filled next
            ≡ some (page', record next { read_cnt = block.read_cnt + 1 + n }))
          × ((k : ℕ)
              → page' k ≡ (if within (i + 1) n k then block.sectors (sector + k) else filled k))
        → (page' : Page) × (read_loop (suc n) sector i page block
            ≡ some (page', record block { read_cnt = block.read_cnt + suc n }))
          × ((k : ℕ)
              → page' k ≡ (if within i (suc n) k then block.sectors (sector + k) else page k))
    after (page', run, parts) = (
      page',
      rw (here, block_read_lem block (sector + i) (omega arith), ← count) run,
      λ k. parts k ∙ merge k,
    )
