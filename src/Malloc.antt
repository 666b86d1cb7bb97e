-- ===== src/Malloc.antt =====
-- The block allocator: pintos/src/threads/malloc.c. A descriptor is named by its index in `descs`, an
-- arena by the address of its page; `arenas` has the headers that carry ARENA_MAGIC. A free list is the
-- sequence of its blocks' addresses. What blocks hold is left out, as are the locks, each of which is held
-- for one operation. The null pointer is 0, and `none` is a failed ASSERT.
pub mod Blocks
pub mod Outcome
pub mod Fresh
pub mod Big
pub mod Laws
pub mod Init
use sogang_pint_os.Common.{
  ℕ, zero, suc, ◌+◌, ◌-◌, ◌*◌, ◌/◌, ◌%◌, ◌^◌, min, Bool, true, false, not, ◌&&◌, ◌||◌, Option, none,
  some, List, [], ◌∷◌, ltb, leb, ◌==◌, if◌then◌else◌,
}
use sogang_pint_os.Common.Panic.{◌>>=◌, ◌>>◌, assert}
use sogang_pint_os.Palloc.{
  Pools, Flags, pg_size, pg_ofs, palloc_get_multiple, palloc_get_page, palloc_free_multiple,
  palloc_free_page,
}

-- `struct desc`
pub record Desc : Type 0 where
  pub block_size : ℕ
  pub blocks_per_arena : ℕ
  pub free_list : List ℕ

-- `struct arena`, which takes 12 bytes: the descriptor, `none` for a big block, and `free_cnt`.
pub record Arena : Type 0 where
  pub desc : Option ℕ
  pub free_cnt : ℕ

abbrev pub arena_size : ℕ
arena_size = 12

pub record Malloc : Type 0 where
  pub descs : ℕ → Desc
  pub desc_cnt : ℕ
  pub arenas : ℕ → Option Arena
  pub pools : Pools

abbrev pub put_desc : ℕ → Desc → Malloc → Malloc
put_desc d desc s = record s { descs = λ k. if k == d then desc else s.descs k }

abbrev pub put_arena : ℕ → Arena → Malloc → Malloc
put_arena a arena s = record s { arenas = λ b. if b == a then some arena else s.arenas b }

-- The loop of `malloc_init`, on the number of descriptors that are left in `descs`.
pub init_loop : ℕ → ℕ → Malloc → Option Malloc
init_loop zero block_size s = if ltb block_size (pg_size / 2) then none else some s
init_loop (suc n) block_size s =
    let desc : Desc = record {
      block_size = block_size;
      blocks_per_arena = (pg_size - arena_size) / block_size;
      free_list = [];
    } in
    let rest =
      init_loop n (block_size * 2)
        (record (put_desc s.desc_cnt desc s) { desc_cnt = s.desc_cnt + 1 }) in
    if ltb block_size (pg_size / 2) then rest else some s

pub malloc_init : Malloc → Option Malloc
unfolding init_loop
malloc_init s = init_loop (10 - s.desc_cnt) 16 s

-- `pg_round_down`
abbrev pub pg_round_down : ℕ → ℕ
pg_round_down va = va - va % pg_size

-- The tests of `block_to_arena` on the header.
unfoldable pub is_aligned : Malloc → ℕ → Option ℕ → Bool
is_aligned s b none = pg_ofs b == arena_size
is_aligned s b (some d) = (pg_ofs b + 2 ^ 32 - arena_size) % 2 ^ 32 % (s.descs d).block_size == 0

pub block_to_arena : Malloc → ℕ → Option (ℕ × Arena)
unfolding is_aligned
block_to_arena s b = do
  assert (not (pg_round_down b == 0))
  arena ← s.arenas (pg_round_down b)
  assert (is_aligned s b arena.desc)
  some (pg_round_down b, arena)

-- The address of the block `idx` in an arena of blocks of one size.
abbrev pub block_at : ℕ → ℕ → ℕ → ℕ
block_at a block_size idx = a + arena_size + idx * block_size

-- `arena_to_block` for the blocks from `idx` on, `n` of them.
pub blocks : ℕ → ℕ → ℕ → ℕ → List ℕ
blocks a block_size idx zero = []
blocks a block_size idx (suc n) = block_at a block_size idx ∷ blocks a block_size (idx + 1) n

abbrev pub unzeroed : Flags
unzeroed = record { pal_assert = false; pal_zero = false; pal_user = false }

-- The loop over the descriptors, from `d` on: the first with large enough blocks.
pub find_desc : ℕ → ℕ → ℕ → Malloc → Option ℕ
find_desc zero d size s = none
find_desc (suc n) d size s =
    if leb size (s.descs d).block_size then some d else find_desc n (d + 1) size s

-- The branch of `malloc` for a size that is too big for every descriptor.
pub big_block : ℕ → Malloc → Option (ℕ × Malloc)
big_block size s = do
  let page_cnt = ((size + arena_size) % 2 ^ 32 + (pg_size - 1)) % 2 ^ 32 / pg_size
  (a, pools) ← palloc_get_multiple unzeroed page_cnt s.pools
  let s₁ = record s { pools = pools }
  if a == 0
      then some (0, s₁)
      else some
          ((a + arena_size) % 2 ^ 32, put_arena a (record { desc = none; free_cnt = page_cnt }) s₁)

-- A new arena for a descriptor whose free list is empty: false if there is no page.
pub new_arena : ℕ → Malloc → Option (Bool × Malloc)
new_arena d s = do
  (a, pools) ← palloc_get_page unzeroed s.pools
  let s₁ = record s { pools = pools }
  let desc = s.descs d
  if a == 0
      then some (false, s₁)
      else some (
        true,
        put_desc d (record desc { free_list = blocks a desc.block_size 0 desc.blocks_per_arena })
            (put_arena a (record { desc = some d; free_cnt = desc.blocks_per_arena }) s₁),
      )

-- The end of `malloc`: the front block of the free list, which the third argument is.
pub take_front : ℕ → Malloc → List ℕ → Option (ℕ × Malloc)
take_front d s [] = none
take_front d s (b ∷ free_list) =
    let s₁ = put_desc d (record (s.descs d) { free_list = free_list }) s in
    block_to_arena s₁ b >>= λ (a, arena).
    some (b, put_arena a (record arena { free_cnt = (arena.free_cnt + 2 ^ 32 - 1) % 2 ^ 32 }) s₁)

pub take_block : ℕ → Malloc → Option (ℕ × Malloc)
take_block d s = take_front d s (s.descs d).free_list

pub is_empty : List ℕ → Bool
is_empty [] = true
is_empty (b ∷ l) = false

pub small_block : ℕ → Malloc → Option (ℕ × Malloc)
small_block d s =
    if is_empty (s.descs d).free_list
    then (do (made, s₁) ← new_arena d s; if made then take_block d s₁ else some (0, s₁))
    else take_block d s

pub malloc : ℕ → Malloc → Option (ℕ × Malloc)
malloc size s =
    if size == 0
    then some (0, s)
    else elim (find_desc s.desc_cnt 0 size s) [ none ↦ big_block size s | some d ↦ small_block d s ]

-- `calloc`; the zeros that it writes are left out.
unfoldable calloc : ℕ → ℕ → Malloc → Option (ℕ × Malloc)
calloc a b s =
    let size = a * b % 2 ^ 32 in if ltb size a || ltb size b then some (0, s) else malloc size s

-- `block_size`
pub block_size : ℕ → Malloc → Option ℕ
block_size block s = do
  (a, arena) ← block_to_arena s block
  elim arena.desc [
    | some d ↦ some (s.descs d).block_size
    | none ↦ some (pg_size * arena.free_cnt - pg_ofs block)
  ]

-- `list_remove` of a block of the list.
pub remove_block : ℕ → List ℕ → List ℕ
remove_block b [] = []
remove_block b (k ∷ ks) = if k == b then ks else k ∷ remove_block b ks

pub remove_blocks : List ℕ → List ℕ → List ℕ
remove_blocks [] l = l
remove_blocks (b ∷ bs) l = remove_blocks bs (remove_block b l)

-- The branch of `free` for a normal block.
pub free_block : ℕ → ℕ → ℕ → Arena → Malloc → Option Malloc
free_block p d a arena s =
    let desc = s.descs d in
    let free_list = p ∷ desc.free_list in
    let free_cnt = (arena.free_cnt + 1) % 2 ^ 32 in
    let s₁ = put_arena a (record arena { free_cnt = free_cnt }) s in
    if leb desc.blocks_per_arena free_cnt
    then (do
      assert (free_cnt == desc.blocks_per_arena)
      pools ← palloc_free_page a s₁.pools
      let left = remove_blocks (blocks a desc.block_size 0 desc.blocks_per_arena) free_list
      some (put_desc d (record desc { free_list = left }) (record s₁ { pools = pools })))
    else some (put_desc d (record desc { free_list = free_list }) s₁)

pub free : ℕ → Malloc → Option Malloc
free p s = if p == 0 then some s else (do
  (a, arena) ← block_to_arena s p
  elim arena.desc [
    | some d ↦ free_block p d a arena s
    | none ↦ (do
      pools ← palloc_free_multiple a arena.free_cnt s.pools
      some (record s { pools = pools }))
  ])

-- `realloc`: the new block, and how many bytes of the old one `memcpy` copies to it.
unfoldable realloc : ℕ → ℕ → Malloc → Option (ℕ × (ℕ × Malloc))
unfolding block_size
realloc old_block new_size s =
    if new_size == 0 then (do s₁ ← free old_block s; some (0, (0, s₁))) else (do
      (new_block, s₁) ← malloc new_size s
      if not (old_block == 0) && not (new_block == 0)
          then (do
            old_size ← block_size old_block s₁
            s₂ ← free old_block s₁
            some (new_block, (min new_size old_size, s₂)))
          else some (new_block, (0, s₁)))
