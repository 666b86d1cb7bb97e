-- ===== src/Swap.antt =====
-- Swap slots: pintos/src/vm/swap.c. A slot is eight sectors of the swap device, and a number one above
-- its bit, so that 0 means no slot. A page of memory is its eight parts of a sector's size. The lock is
-- held for the whole of each operation, so an operation is one step. `none` is a failed ASSERT, a PANIC
-- or NOT_REACHED. The calls' address is page aligned, as their ASSERTs on `pg_ofs` want.
pub mod Loops
pub mod Laws
use sogang_pint_os.Common.{
  ℕ, zero, suc, ◌+◌, ◌-◌, ◌*◌, ◌/◌, ◌%◌, ◌^◌, Bool, true, false, Option, none, some, ◌==◌,
  if◌then◌else◌, List,
}
use sogang_pint_os.Common.Panic.{◌>>=◌, ◌>>◌, assert}
use sogang_pint_os.Bitmap.{
  Bitmap, bitmap_error, bitmap_scan_and_flip, bitmap_set_multiple, bitmap_create,
}
use sogang_pint_os.Block.{Block, Sector, block_read, block_write}

-- The parts of a page, by index below 8.
abbrev pub Page : Type 0
Page = ℕ → Sector

pub record Swap : Type 0 where
  pub swap_bitmap : Bitmap
  pub block : Block

-- `swap_init`, on what the allocator gives; the inner `none` is a null bitmap.
unfoldable swap_init : ℕ → Bool → Option (List ℕ) → Option (Option Bitmap)
swap_init size no_struct words = bitmap_create size no_struct words

-- The loop of `swap_in`: `n` rounds left, from part `i` on.
pub read_loop : ℕ → ℕ → ℕ → Page → Block → Option (Page × Block)
read_loop zero sector i page block = some (page, block)
read_loop (suc n) sector i page block =
    block_read block ((sector + i) % 2 ^ 32) >>= λ (buffer, block').
    read_loop n sector (i + 1) (λ k. if i == k then buffer else page k) block'

pub swap_in : ℕ → Page → Swap → Option (Page × Swap)
unfolding read_loop
swap_in zero page s = none
swap_in (suc used_index) page s = do
  (page', block) ← read_loop 8 (used_index * 8 % 2 ^ 32) 0 page s.block
  swap_bitmap ← bitmap_set_multiple s.swap_bitmap (used_index * 8 % 2 ^ 32 / 8) 1 false
  some (page', record { swap_bitmap = swap_bitmap; block = block })

unfoldable swap_clear : ℕ → Swap → Option Swap
swap_clear zero s = some s
swap_clear (suc used_index) s = do
  swap_bitmap ← bitmap_set_multiple s.swap_bitmap used_index 1 false
  some (record s { swap_bitmap = swap_bitmap })

-- The loop of `swap_out`.
pub write_loop : ℕ → ℕ → ℕ → Page → Block → Option Block
write_loop zero sector i page block = some block
write_loop (suc n) sector i page block =
    block_write block ((sector + i) % 2 ^ 32) (page i) >>= λ block'.
    write_loop n sector (i + 1) page block'

pub swap_out : Page → Swap → Option (ℕ × Swap)
unfolding write_loop
swap_out page s = do
  (swap_index, swap_bitmap) ← bitmap_scan_and_flip s.swap_bitmap 0 1 false
  if swap_index == bitmap_error then none else (do
    block ← write_loop 8 (swap_index * 8 % 2 ^ 32) 0 page s.block
    some (swap_index * 8 % 2 ^ 32 / 8 + 1, record { swap_bitmap = swap_bitmap; block = block }))
