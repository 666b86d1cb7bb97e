-- ===== src/Malloc/Outcome.antt =====
-- What a request to `malloc` of pintos/src/threads/malloc.c leads to, and the state it is made in.
use sogang_pint_os.Common.{
  ℕ, zero, suc, ◌+◌, ◌-◌, ◌*◌, ◌^◌, ◌<◌, ◌≤◌, ◌≡◌, ◌≢◌, refl, ap, ◌∙◌, false, some, List, [], ◌∷◌,
  arith, ==_refl,
}
use sogang_pint_os.Bitmap.Scan.{IsGroup}
use sogang_pint_os.Common.All.{All}
use sogang_pint_os.Palloc.{pg_size}
use sogang_pint_os.Palloc.OnePool
use sogang_pint_os.Palloc.OnePool.{IsPool, in_use, Got, Got-range}
use sogang_pint_os.Malloc.{
  arena_size, Desc, Malloc, take_block, block_size, remove_block, remove_blocks, free,
}
use sogang_pint_os.Malloc.Blocks.{
  IsBlock, taken, block_to_arena_lem, taken-IsBlock, take_block_lem, not_null-of_IsBlock, Restored,
  free-taken,
}

pub block_size-of_IsBlock :
    {s : Malloc} {d b c : ℕ} → IsBlock s d b c → block_size b s ≡ some ((s.descs d).block_size)
unfolding block_size
block_size-of_IsBlock v = rw (block_to_arena_lem v) refl

-- `cnt` pages are the ones that `size` bytes with a header need, and the kernel pool has no `cnt` free pages
-- in a row.
pub record NoRoom (s : Malloc) (size cnt : ℕ) : Type 0 where
  pub needed : pg_size * (cnt - 1) < size + arena_size
  pub full : (k : ℕ) → ¬ IsGroup s.pools.kernel_pool.used_map cnt false k

-- What a request for `size` bytes leads to: the null pointer, for 0 bytes or where there is no room, or a
-- block that has at least `size` bytes and that can be given back.
pub data Gave (s : Malloc) (size : ℕ) (out : ℕ × Malloc) : Type 0 where
  nothing : out.0 ≡ 0 → size ≡ 0 → Gave s size out
  no_room : out.0 ≡ 0 → (cnt : ℕ) → 0 < cnt → NoRoom s size cnt → Gave s size out
  block :
      (n : ℕ)
      → out.0 ≢ 0
      → block_size out.0 out.1 ≡ some n
      → size ≤ n
      → (s'' : Malloc) → free out.0 out.1 ≡ some s''
      → Restored s s''
      → Gave s size out

pub remove_blocks-same : (l : List ℕ) → remove_blocks l l ≡ []
unfolding remove_blocks remove_block
remove_blocks-same [] = refl
remove_blocks-same (b ∷ l) = rw (==_refl b) (remove_blocks-same l)

pub le_mul : (a b : ℕ) → 0 < b → a ≤ a * b
le_mul a zero pos = omega arith
le_mul a (suc b) pos = omega arith

-- The blocks of descriptor `d` fit in a page, at least two of them.
pub record IsDesc (desc : Desc) : Type 0 where
  pub size : 0 < desc.block_size
  pub room : arena_size + desc.blocks_per_arena * desc.block_size ≤ pg_size
  pub two : 1 < desc.blocks_per_arena

-- Block `b` can be handed out: its arena has a free block and one that is in use.
pub record IsFree (s : Malloc) (d b : ℕ) : Type 0 where
  pub count : ℕ
  pub is_block : IsBlock s d b count
  pub free : 0 < count
  pub part : count < (s.descs d).blocks_per_arena

pub record IsValid (s : Malloc) : Type 0 where
  pub pools : OnePool.IsValid s.pools
  pub descs : (d : ℕ) → d < s.desc_cnt → IsDesc (s.descs d)
  pub blocks : (d : ℕ) → d < s.desc_cnt → All (IsFree s d) (s.descs d).free_list

-- A block of the free list.
pub take-Gave :
    {s : Malloc} (d size b : ℕ) (bs : List ℕ)
    → IsDesc (s.descs d)
    → IsFree s d b
    → (s.descs d).free_list ≡ b ∷ bs
    → size ≤ (s.descs d).block_size
    → (out : ℕ × Malloc) × (take_block d s ≡ some out) × Gave s size out
take-Gave {s} d size b bs desc v front fits =
    let word : v.count < 2 ^ 32 = omega (
      arith,
      desc.room,
      v.part,
      le_mul (s.descs d).blocks_per_arena (s.descs d).block_size desc.size,
    ) in
    let (s'', run, res) = free-taken v.is_block bs front v.free v.part word in
    let size_eq : ((taken d b bs v.count s).descs d).block_size ≡ (s.descs d).block_size =
      rw (==_refl d) refl in
    (
      (b, taken d b bs v.count s),
      take_block_lem v.is_block bs front,
      block (s.descs d).block_size (not_null-of_IsBlock v.is_block)
          (block_size-of_IsBlock (taken-IsBlock v.is_block bs) ∙ ap some size_eq) fits s'' run res,
    )
