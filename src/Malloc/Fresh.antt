-- ===== src/Malloc/Fresh.antt =====
-- The block of a new arena: the arena is made for it and given back with it
-- (pintos/src/threads/malloc.c).
use mathlib.Core.Path.{subst}
use sogang_pint_os.Common.{
  ℕ, zero, suc, ◌+◌, ◌-◌, ◌%◌, ◌^◌, ◌<◌, ◌≤◌, ◌≡◌, ◌≢◌, refl, sym, ap, ◌∙◌, inl, inr, true, some,
  List, [], ◌∷◌, arith, ◌==◌, Bool-cases, ==_iff, ==_refl, le→leb,
}
use sogang_pint_os.Palloc.{pg_ofs, Pools, palloc_get_page, palloc_free_page}
use sogang_pint_os.Palloc.OnePool
use sogang_pint_os.Palloc.OnePool.{IsPool, in_use, Got, Got-range}
use sogang_pint_os.Palloc.Laws.{free-get_multiple}
use sogang_pint_os.Malloc.{
  arena_size, Desc, Malloc, put_desc, put_arena, pg_round_down, is_aligned, block_at, blocks,
  unzeroed, take_block, free_block, free,
}
use sogang_pint_os.Malloc.Blocks.{
  header, IsBlock, taken, taken-IsBlock, take_block_lem, not_null-of_IsBlock, free-of_IsBlock,
}
use sogang_pint_os.Malloc.Outcome.{
  block_size-of_IsBlock, Gave, remove_blocks-same, le_mul, IsDesc, block,
}

-- The state after an arena at page `a` was made for descriptor `d`.
abbrev pub with_arena : ℕ → ℕ → Pools → Malloc → Malloc
with_arena d a pools s =
    put_desc d
      (record (s.descs d) {
        free_list = blocks a (s.descs d).block_size 0 (s.descs d).blocks_per_arena;
      })
      (put_arena a (header d (s.descs d).blocks_per_arena) (record s { pools = pools }))

blocks-front :
    (a size n : ℕ) → 1 < n → blocks a size 0 n ≡ (a + arena_size) ∷ blocks a size 1 (n - 1)
unfolding blocks
blocks-front a size zero many = absurd (omega (arith, many))
blocks-front a size (suc n) many =
    let rest : suc n - 1 ≡ n = omega arith in
    let first : block_at a size 0 ≡ a + arena_size = omega arith in rw (rest, first) refl

pub page-of_block : (a : ℕ) → pg_ofs a ≡ 0 → pg_round_down (a + arena_size) ≡ a
page-of_block a e = omega (arith, e)

zero_mod : (n : ℕ) → (0 % n == 0) ≡ true
zero_mod n = ground arith

with_arena-IsBlock :
    (s : Malloc) (pools : Pools) {a : ℕ} (d : ℕ)
    → pg_ofs a ≡ 0
    → a ≢ 0
    → a < 2 ^ 32
    → IsBlock (with_arena d a pools s) d (a + arena_size) (s.descs d).blocks_per_arena
unfolding is_aligned
with_arena-IsBlock s pools {a} d page ne word =
    let e = page-of_block a page in
    let ofs : (pg_ofs (a + arena_size) + 2 ^ 32 - arena_size) % 2 ^ 32 ≡ 0 = omega (arith, page) in
    record {
      not_null = rw e ne;
      arena = rw (e, ==_refl a) refl;
      aligned = rw ofs (zero_mod ((with_arena d a pools s).descs d).block_size);
    }

-- The last block of an arena: the page goes back.
free-last :
    {s : Malloc} {a d b : ℕ} (desc : Desc)
    → s.descs d ≡ desc
    → IsBlock s d b (desc.blocks_per_arena - 1)
    → 0 < desc.blocks_per_arena
    → desc.blocks_per_arena < 2 ^ 32
    → pg_round_down b ≡ a
    → (pools : Pools) → palloc_free_page a s.pools ≡ some pools
    → b ∷ desc.free_list ≡ blocks a desc.block_size 0 desc.blocks_per_arena
    → free b s
      ≡ some (
          put_desc d
            (record desc { free_list = [] })
            (record (put_arena a (header d desc.blocks_per_arena) s) { pools = pools }))
unfolding free_block
free-last {s} {a} {d} {b} desc e v pos word page pools run all =
    let n = desc.blocks_per_arena in
    let back : (n - 1 + 1) % 2 ^ 32 ≡ n = omega arith in
    free-of_IsBlock v
    ∙ rw
        (
          e,
          page,
          back,
          le→leb n n (omega arith),
          ==_refl n,
          run,
          all,
          remove_blocks-same (blocks a desc.block_size 0 n),
        )
        refl

-- The descriptor of a new arena gets its empty list back.
new_desc :
    (s : Malloc) (d a b c : ℕ) (bs : List ℕ) (pools : Pools) (k : ℕ)
    → (s.descs d).free_list ≡ []
    → (put_desc d
          (record (s.descs d) { free_list = [] })
          (taken d b bs c (with_arena d a pools s))).descs
        k
      ≡ s.descs k
new_desc s d a b c bs pools k empty = elim (Bool-cases (k == d)) [
  | inl y ↦ rw y (
      ap (λ l. record (s.descs d) { free_list = l }) (sym empty)
      ∙ ap s.descs (sym ((==_iff k d).0 y)))
  | inr n ↦ rw n refl
]

-- A block of a new arena.
pub arena-Gave :
    {s : Malloc} (d size a : ℕ) (pools : Pools)
    → OnePool.IsValid s.pools
    → IsDesc (s.descs d)
    → (s.descs d).free_list ≡ []
    → size ≤ (s.descs d).block_size
    → palloc_get_page unzeroed s.pools ≡ some (a, pools)
    → a ≢ 0
    → pg_ofs a ≡ 0
    → a < 2 ^ 32
    → (out : ℕ × Malloc) × (take_block d (with_arena d a pools s) ≡ some out) × Gave s size out
unfolding palloc_get_page palloc_free_page
arena-Gave {s} d size a pools valid desc empty fits run ne page word =
    let t = with_arena d a pools s in
    let n = (s.descs d).blocks_per_arena in
    let bs = blocks a (s.descs d).block_size 1 (n - 1) in
    let v = with_arena-IsBlock s pools d page ne word in
    let small : n < 2 ^ 32 = omega (arith, desc.room, le_mul n (s.descs d).block_size desc.size) in
    let last : (n + 2 ^ 32 - 1) % 2 ^ 32 ≡ n - 1 = omega (arith, desc.two, small) in
    let front = blocks-front a (s.descs d).block_size n desc.two in
    let (pools', back, res) = free-get_multiple unzeroed 1 a pools valid (omega arith) run ne in
    let same : (taken d (a + arena_size) bs n t).descs d ≡ record (s.descs d) { free_list = bs } =
      rw (==_refl d) refl in
    (
      (a + arena_size, taken d (a + arena_size) bs n t),
      take_block_lem v bs (rw (==_refl d) front),
      block (s.descs d).block_size (not_null-of_IsBlock v)
          (block_size-of_IsBlock (taken-IsBlock v bs) ∙ ap (λ (x : Desc). some x.block_size) same)
          fits
          (put_desc d (record (s.descs d) { free_list = [] })
            (record (put_arena a (header d n) (taken d (a + arena_size) bs n t)) {
              pools = pools';
            }))
          (free-last (record (s.descs d) { free_list = bs }) same
            (subst (λ c. IsBlock (taken d (a + arena_size) bs n t) d (a + arena_size) c) last
              (taken-IsBlock v bs))
            (omega (arith, desc.two)) small (page-of_block a page) pools' back (sym front))
          (record {
            descs = λ k. new_desc s d a (a + arena_size) n bs pools k empty;
            count = refl;
            pages = res;
          }),
    )
