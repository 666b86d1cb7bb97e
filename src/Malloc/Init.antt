-- ===== src/Malloc/Init.antt =====
-- `malloc_init` of pintos/src/threads/malloc.c.
use mathlib.Core.Path.{subst}
use native.Mathlib.Nat.{one-le-pow}
use sogang_pint_os.Common.{
  ℕ, zero, suc, ◌+◌, sym, inl, inr, Option-cases, ◌*◌, ◌^◌, ◌<◌, ◌≤◌, ◌≡◌, refl, Option, some, [],
  arith,
}
use sogang_pint_os.Common.All.{All}
use sogang_pint_os.Palloc.{pg_size, Pools}
use sogang_pint_os.Palloc.OnePool
use sogang_pint_os.Malloc.{arena_size, Desc, Arena, Malloc, malloc_init, init_loop, find_desc}
use sogang_pint_os.Malloc.Laws.{find_desc_lem, find_desc-first, find_desc-none}
use sogang_pint_os.Malloc.Outcome.{IsDesc, IsFree, IsValid}

-- Before the start there are no descriptors.
abbrev pub fresh : (ℕ → Desc) → (ℕ → Option Arena) → Pools → Malloc
fresh descs arenas pools = record { descs = descs; desc_cnt = 0; arenas = arenas; pools = pools }

below_seven {ℓ} : (P : ℕ → Type ℓ) → P 0 → P 1 → P 2 → P 3 → P 4 → P 5 → P 6 → (d : ℕ) → d < 7 → P d
below_seven P p0 p1 p2 p3 p4 p5 p6 zero lt = p0
below_seven P p0 p1 p2 p3 p4 p5 p6 (suc zero) lt = p1
below_seven P p0 p1 p2 p3 p4 p5 p6 (suc (suc zero)) lt = p2
below_seven P p0 p1 p2 p3 p4 p5 p6 (suc (suc (suc zero))) lt = p3
below_seven P p0 p1 p2 p3 p4 p5 p6 (suc (suc (suc (suc zero)))) lt = p4
below_seven P p0 p1 p2 p3 p4 p5 p6 (suc (suc (suc (suc (suc zero))))) lt = p5
below_seven P p0 p1 p2 p3 p4 p5 p6 (suc (suc (suc (suc (suc (suc zero)))))) lt = p6
below_seven P p0 p1 p2 p3 p4 p5 p6 (suc (suc (suc (suc (suc (suc (suc d))))))) lt =
    absurd (omega (arith, lt))

-- A descriptor of blocks of `size` bytes that has no block: as many as a page has room for behind the
-- header go into an arena, and at least two.
pub record IsFresh (size : ℕ) (desc : Desc) : Type 0 where
  pub block_size : desc.block_size ≡ size
  pub free_list : desc.free_list ≡ []
  pub two : 1 < desc.blocks_per_arena
  pub room : arena_size + desc.blocks_per_arena * size ≤ pg_size
  most : pg_size < arena_size + (desc.blocks_per_arena + 1) * size

made :
    {n size : ℕ}
    → 1 < n
    → arena_size + n * size ≤ pg_size
    → pg_size < arena_size + (n + 1) * size
    → IsFresh size (record { block_size = size; blocks_per_arena = n; free_list = [] })
made two room most = record {
  block_size = refl;
  free_list = refl;
  two = two;
  room = room;
  most = most;
}

IsDesc-of_IsFresh : {size : ℕ} {desc : Desc} → 0 < size → IsFresh size desc → IsDesc desc
IsDesc-of_IsFresh {size} {desc} pos f = record {
  size = omega (arith, pos, f.block_size);
  room = subst (λ n. arena_size + desc.blocks_per_arena * n ≤ pg_size) (sym f.block_size) f.room;
  two = f.two;
}

-- What `malloc` takes for a size of at most 1024 bytes: the descriptor of the smallest blocks that suffice.
pub record Smallest (s : Malloc) (size : ℕ) : Type 0 where
  pub index : ℕ
  pub found : find_desc s.desc_cnt 0 size s ≡ some index
  pub suffices : size ≤ 16 * 2 ^ index
  pub least : (k : ℕ) → k < index → 16 * 2 ^ k < size

smallest_lem :
    (s : Malloc)
    → s.desc_cnt ≡ 7
    → ((d : ℕ) → d < 7 → (s.descs d).block_size ≡ 16 * 2 ^ d)
    → (size : ℕ) → size ≤ 1024
    → Smallest s size
smallest_lem s seven sizes size le = elim (Option-cases (find_desc s.desc_cnt 0 size s)) [
  | inl e ↦
      let last = find_desc-none s s.desc_cnt 0 size e 6 (omega arith) (omega (arith, seven)) in
      absurd (omega (arith, last, sizes 6 (omega arith), le))
  | inr (d, e) ↦
      let (lt, fits) = find_desc_lem s s.desc_cnt 0 size d e in
      record {
        index = d;
        found = e;
        suffices = subst (λ n. size ≤ n) (sizes d (omega (arith, lt, seven))) fits;
        least = λ k below.
            subst (λ n. n < size) (sizes k (omega (arith, lt, seven, below)))
              (find_desc-first s s.desc_cnt 0 size d e k (omega arith) below);
      }
]

-- `malloc_init` passes its ASSERT and leaves seven descriptors, of 16 bytes, 32 and so on up to 1024. Each
-- has an empty free list and the greatest number of blocks that fit in an arena of one page. In the state
-- that is left `malloc` can be called, and for a size of at most 1024 bytes it takes the descriptor of the
-- smallest blocks that suffice.
pub malloc_init_lem :
    (descs : ℕ → Desc) (arenas : ℕ → Option Arena) (pools : Pools)
    → OnePool.IsValid pools
    → (s : Malloc) × (malloc_init (fresh descs arenas pools) ≡ some s)
      × IsValid s
      × (s.desc_cnt ≡ 7)
      × ((d : ℕ) → d < 7 → IsFresh (16 * 2 ^ d) (s.descs d))
      × ((size : ℕ) → size ≤ 1024 → Smallest s size)
unfolding malloc_init init_loop
malloc_init_lem descs arenas pools v =
    let ran : (s : Malloc) × (malloc_init (fresh descs arenas pools) ≡ some s) = (_, refl) in
    let s = ran.0 in
    let all : (d : ℕ) → d < 7 → IsFresh (16 * 2 ^ d) (s.descs d) =
      below_seven (λ d. IsFresh (16 * 2 ^ d) (s.descs d))
        (made (omega arith) (omega arith) (omega arith))
        (made (omega arith) (omega arith) (omega arith))
        (made (omega arith) (omega arith) (omega arith))
        (made (omega arith) (omega arith) (omega arith))
        (made (omega arith) (omega arith) (omega arith))
        (made (omega arith) (omega arith) (omega arith))
        (made (omega arith) (omega arith) (omega arith)) in
    (
      s,
      ran.1,
      record {
        pools = v;
        descs = λ d lt. IsDesc-of_IsFresh (pos d) (all d lt);
        blocks = below_seven (λ d. All (IsFree s d) (s.descs d).free_list) tt tt tt tt tt tt tt;
      },
      refl,
      all,
      smallest_lem s refl (λ d lt. (all d lt).block_size),
    )
  where
    pos : (d : ℕ) → 0 < 16 * 2 ^ d
    pos d = omega (arith, one-le-pow d 2 (omega arith))
