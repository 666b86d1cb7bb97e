-- ===== src/Malloc/Big.antt =====
-- Blocks that take whole pages (pintos/src/threads/malloc.c).
use sogang_pint_os.Common.{
  ℕ, ◌+◌, ◌-◌, ◌*◌, ◌/◌, ◌%◌, ◌^◌, ◌<◌, ◌≤◌, ◌≡◌, ◌≢◌, refl, ap, inl, inr, false, none, some, arith,
  ◌==◌, Bool-cases, ==_refl, ne→==_false,
}
use sogang_pint_os.Bitmap.Scan.{IsGroup}
use sogang_pint_os.Palloc.{pg_size, pg_ofs, Pools, Pool, palloc_get_multiple, palloc_free_multiple}
use sogang_pint_os.Palloc.OnePool
use sogang_pint_os.Palloc.OnePool.{IsPool, in_use, Got, Got-range}
use sogang_pint_os.Palloc.Laws.{get_multiple_lem, free-get_multiple}
use sogang_pint_os.Malloc.{
  arena_size, Arena, Malloc, put_arena, is_aligned, block_to_arena, unzeroed, big_block, block_size,
  free,
}
use sogang_pint_os.Malloc.Outcome.{Gave, no_room, block}
use sogang_pint_os.Malloc.Fresh.{page-of_block}

Got-full :
    {p : Pool} {cnt : ℕ} {out : ℕ × Pool}
    → IsPool p
    → Got p cnt out
    → out.0 ≡ 0
    → (k : ℕ) → ¬ IsGroup p.used_map cnt false k
Got-full v (OnePool.no_room addr e full) z = full
Got-full v (OnePool.pages addr k p₁ at base room free holds) z =
    absurd (omega (arith, z, at, v.above))

-- Where the pages of a request to the kernel pool lie.
pub pages_lem :
    {s : Pools}
    → OnePool.IsValid s
    → (cnt : ℕ) → 0 < cnt
    → (a : ℕ) × (pools : Pools) × (palloc_get_multiple unzeroed cnt s ≡ some (a, pools))
      × (a ≢ 0 → (pg_ofs a ≡ 0) × (a + pg_size * cnt ≤ 2 ^ 32))
      × (a ≡ 0 → (k : ℕ) → ¬ IsGroup s.kernel_pool.used_map cnt false k)
pages_lem v cnt pos = elim (get_multiple_lem unzeroed cnt v pos) [
  | inl panic ↦ absurd (ground (arith, panic.1))
  | inr (out, run, answer) ↦ (
    out.0,
    out.1,
    run,
    λ ne.
        let range = Got-range v.kernel cnt pos answer.got ne in
        (range.0, omega (arith, range, v.kernel.fits)),
    Got-full v.kernel answer.got,
  )
]

abbrev big_header : ℕ → Arena
big_header cnt = record { desc = none; free_cnt = cnt }

-- The block of an arena of `cnt` pages at `a`.
big-block_to_arena :
    (s : Malloc) {a cnt : ℕ}
    → a ≢ 0
    → pg_ofs a ≡ 0
    → s.arenas a ≡ some (big_header cnt)
    → block_to_arena s (a + arena_size) ≡ some (a, big_header cnt)
unfolding block_to_arena is_aligned
big-block_to_arena s {a} ne page e =
    let ofs : pg_ofs (a + arena_size) ≡ arena_size = omega (arith, page) in
    rw (page-of_block a page, ne→==_false a 0 ne, e, ofs) refl

big-block_size :
    (s : Malloc) {a cnt : ℕ}
    → a ≢ 0
    → pg_ofs a ≡ 0
    → s.arenas a ≡ some (big_header cnt)
    → block_size (a + arena_size) s ≡ some (pg_size * cnt - arena_size)
unfolding block_size
big-block_size s {a} {cnt} ne page e =
    let ofs : pg_ofs (a + arena_size) ≡ arena_size = omega (arith, page) in
    rw (big-block_to_arena s ne page e) (ap (λ x. some (pg_size * cnt - x)) ofs)

big-free :
    (s : Malloc) {a cnt : ℕ}
    → a ≢ 0
    → pg_ofs a ≡ 0
    → s.arenas a ≡ some (big_header cnt)
    → (pools : Pools) → palloc_free_multiple a cnt s.pools ≡ some pools
    → free (a + arena_size) s ≡ some (record s { pools = pools })
unfolding free
big-free s {a} ne page e pools run =
    rw (ne→==_false (a + arena_size) 0 (omega arith), big-block_to_arena s ne page e, run) refl

-- A request that is too big for every descriptor.
pub big-Gave :
    {s : Malloc} (size : ℕ)
    → OnePool.IsValid s.pools
    → size + arena_size + pg_size ≤ 2 ^ 32
    → (out : ℕ × Malloc) × (big_block size s ≡ some out) × Gave s size out
unfolding big_block
big-Gave {s} size v fits =
    let cnt = ((size + arena_size) % 2 ^ 32 + (pg_size - 1)) % 2 ^ 32 / pg_size in
    let pos : 0 < cnt = omega arith in
    let (a, pools, run, range, full) = pages_lem v cnt pos in
    elim (Bool-cases (a == 0)) [
      | inl y ↦ (
        (0, record s { pools = pools }),
        rw (run, y) refl,
        no_room refl cnt pos (record { needed = omega arith; full = full (ground (arith, y)) }),
      )
      | inr n ↦
          let ne : a ≢ 0 = ground (arith, n) in
          let (page, room) = range ne in
          let (pools', back, res) = free-get_multiple unzeroed cnt a pools v pos run ne in
          let addr : (a + arena_size) % 2 ^ 32 ≡ a + arena_size = omega arith in
          let t = put_arena a (big_header cnt) (record s { pools = pools }) in
          let e : t.arenas a ≡ some (big_header cnt) = rw (==_refl a) refl in
          (
            (a + arena_size, t),
            rw (run, n, addr) refl,
            block (pg_size * cnt - arena_size) (omega arith) (big-block_size t ne page e)
                (omega arith) (record t { pools = pools' }) (big-free t ne page e pools' back)
                (record { descs = λ k. refl; count = refl; pages = res }),
          )
    ]
