-- ===== src/Tests/Memory.antt =====
-- Runs of the theorems on bitmaps, pages and swap slots.
use mathlib.Core.Path.{subst}
use sogang_pint_os.Common.{
  ℕ, zero, suc, ◌+◌, ◌*◌, ◌^◌, ◌<◌, ◌≤◌, ◌≡◌, ◌≢◌, ◌⊎◌, inl, inr, refl, Bool, true, false, none,
  some, [], ◌∷◌, arith, get_or, ◌==◌, if◌then◌else◌,
}
use sogang_pint_os.Bitmap
use sogang_pint_os.Bitmap.{
  Bitmap, bit, bitmap_scan, bitmap_scan_and_flip, bitmap_set_multiple, bitmap_count,
  bitmap_create_in_buf,
}
use sogang_pint_os.Bitmap.Scan.{Flipped, IsGroup, scan_and_flip_lem}
use sogang_pint_os.Palloc.{Pool, Pools, Flags, palloc_get_multiple, palloc_free_multiple, pool_of}
use sogang_pint_os.Palloc.OnePool
use sogang_pint_os.Palloc.OnePool.{Got, pages, no_room, IsPool, in_use}
use sogang_pint_os.Palloc.Laws.{Answer, get_multiple_lem, free-get_multiple}
use sogang_pint_os.Malloc.{Malloc, is_aligned, malloc, malloc_init}
use sogang_pint_os.Malloc.Init.{IsFresh, Smallest, fresh, malloc_init_lem}
use sogang_pint_os.Malloc.Outcome as MallocOutcome
use sogang_pint_os.Malloc.Outcome.{Gave, IsDesc, IsFree}
use sogang_pint_os.Malloc.Laws.{malloc_lem}
use sogang_pint_os.Common.All.{All}
use sogang_pint_os.Block.{Block}
use sogang_pint_os.Swap.{Swap, Page, swap_in, swap_out}
use sogang_pint_os.Swap.Loops as SwapLoops
use sogang_pint_os.Swap.Laws.{swap_out_lem, swap_in-swap_out}

-- 40 bits, of which 0 and 2 are set.
abbrev map : Bitmap
map = record { bit_cnt = 40; bits = 5 ∷ 0 ∷ [] }

map-IsValid : Bitmap.IsValid map
map-IsValid = record { room = refl; small = omega arith; narrow = narrow }
  where
    narrow : (i : ℕ) → get_or map.bits i 0 < 2 ^ 32
    narrow zero = omega arith
    narrow (suc zero) = omega arith
    narrow (suc (suc i)) = omega arith

scan_and_flip_lem_example :
    (out : ℕ × Bitmap) × (bitmap_scan_and_flip map 0 2 false ≡ some out)
    × Flipped map-IsValid 2 false 0 out
scan_and_flip_lem_example = scan_and_flip_lem map-IsValid 2 false 0 (omega arith)

-- Two pools of 40 pages each.
abbrev pools : Pools
pools = record {
  kernel_pool = record { used_map = map; base = 1048576 };
  user_pool = record { used_map = map; base = 2097152 };
}

pools-IsValid : OnePool.IsValid pools
pools-IsValid = record {
  kernel = record {
    map_valid = map-IsValid;
    aligned = refl;
    above = omega arith;
    fits = omega arith;
  };
  user = record {
    map_valid = map-IsValid;
    aligned = refl;
    above = omega arith;
    fits = omega arith;
  };
  apart = omega arith;
}

abbrev flags : Flags
flags = record { pal_assert = false; pal_zero = true; pal_user = true }

get_multiple_lem_example :
    (palloc_get_multiple flags 2 pools ≡ none)
      × (false ≡ true)
      × ((k : ℕ) → ¬ IsGroup map 2 false k)
    ⊎ ((out : ℕ × Pools) × (palloc_get_multiple flags 2 pools ≡ some out) × Answer pools true 2 out)
get_multiple_lem_example = get_multiple_lem flags 2 pools-IsValid (omega arith)

bit_one : IsGroup map 1 false 1
bit_one = record {
  inside = omega arith;
  same = λ j lo hi. subst (λ i. bit map i ≡ false) (one j lo hi) refl;
}
  where
    one : (j : ℕ) → 1 ≤ j → j < 1 + 1 → 1 ≡ j
    one j lo hi = omega arith

got_page :
    (addr : ℕ) × (s' : Pools) × (palloc_get_multiple flags 1 pools ≡ some (addr, s')) × (addr ≢ 0)
got_page = elim (get_multiple_lem flags 1 pools-IsValid (omega arith)) [
  | inl panic ↦ absurd (panic.2 1 bit_one)
  | inr (out, run, a) ↦ (out.0, out.1, run, not_null a.got)
]
  where
    not_null : {out : ℕ × Pool} → Got pools.user_pool 1 out → out.0 ≢ 0
    not_null (pages addr k p' at base room free holds) = λ e. absurd (omega (arith, at, e))
    not_null (no_room addr e full) = absurd (full 1 bit_one)

free-get_multiple_example :
    (s'' : Pools) × (palloc_free_multiple got_page.0 1 got_page.1 ≡ some s'')
    × ((user : Bool) (j : ℕ) → in_use (pool_of s'' user) j ≡ in_use (pool_of pools user) j)
free-get_multiple_example =
    free-get_multiple flags 1 got_page.0 got_page.1 pools-IsValid (omega arith) got_page.2
      got_page.3

abbrev device : Block
device = record { size = 320; foreign = false; sectors = λ k. []; read_cnt = 0; write_cnt = 0 }

abbrev swap : Swap
swap = record { swap_bitmap = map; block = device }

swap-IsValid : SwapLoops.IsValid swap
swap-IsValid = record {
  map_valid = map-IsValid;
  room = omega arith;
  small = omega arith;
  own = refl;
}

abbrev page : Page
page i = i ∷ []

abbrev frame : Page
frame i = []

went_out : (index : ℕ) × (s' : Swap) × (swap_out page swap ≡ some (index, s'))
went_out = elim (swap_out_lem page swap-IsValid) [
  | inl (index, s', run, out) ↦ (index, s', run)
  | inr (panic, full) ↦ absurd (full 1 bit_one)
]

swap_in-swap_out_example :
    (page' : Page) × (s'' : Swap) × (swap_in went_out.0 frame went_out.1 ≡ some (page', s''))
    × ((i : ℕ) → i < 8 → page' i ≡ page i)
    × ((j : ℕ) → bit s''.swap_bitmap j ≡ bit map j)
swap_in-swap_out_example = swap_in-swap_out page frame went_out.0 went_out.1 swap-IsValid went_out.2

-- One free block of 32 bytes is left in the arena at the kernel pool's first page.
abbrev heap : Malloc
heap = record {
  descs = λ d.
      if d == 0
      then record { block_size = 16; blocks_per_arena = 255; free_list = [] }
      else record { block_size = 32; blocks_per_arena = 127; free_list = 1048620 ∷ [] };
  desc_cnt = 2;
  arenas = λ a. if a == 1048576 then some (record { desc = some 1; free_cnt = 1 }) else none;
  pools = pools;
}

heap-IsValid : MallocOutcome.IsValid heap
unfolding is_aligned
heap-IsValid = record { pools = pools-IsValid; descs = fits; blocks = free }
  where
    fits : (d : ℕ) → d < 2 → IsDesc (heap.descs d)
    fits zero lt = record { size = omega arith; room = omega arith; two = omega arith }
    fits (suc zero) lt = record { size = omega arith; room = omega arith; two = omega arith }
    fits (suc (suc d)) lt = absurd (omega (arith, lt))

    free : (d : ℕ) → d < 2 → All (IsFree heap d) (heap.descs d).free_list
    free zero lt = tt
    free (suc zero) lt = (block, tt)
      where
        block : IsFree heap 1 1048620
        block = record {
          count = 1;
          is_block = record {
            not_null = λ e. absurd (omega (arith, e));
            arena = refl;
            aligned = refl;
          };
          free = omega arith;
          part = omega arith;
        }
    free (suc (suc d)) lt = absurd (omega (arith, lt))

malloc_lem_example : (out : ℕ × Malloc) × (malloc 20 heap ≡ some out) × Gave heap 20 out
malloc_lem_example = malloc_lem 20 heap-IsValid (omega arith)

malloc_init_lem_example :
    (s : Malloc) × (malloc_init (fresh heap.descs (λ a. none) pools) ≡ some s)
    × MallocOutcome.IsValid s
    × (s.desc_cnt ≡ 7)
    × ((d : ℕ) → d < 7 → IsFresh (16 * 2 ^ d) (s.descs d))
    × ((size : ℕ) → size ≤ 1024 → Smallest s size)
malloc_init_lem_example = malloc_init_lem heap.descs (λ a. none) pools pools-IsValid
