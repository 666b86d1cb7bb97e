-- ===== src/Malloc/Laws.antt =====
-- `malloc` and `free` of pintos/src/threads/malloc.c.
use mathlib.Core.Path.{subst}
use sogang_pint_os.Common.{
  ℕ, zero, suc, ◌+◌, ◌^◌, ◌<◌, ◌≤◌, ◌≡◌, ◌≢◌, refl, sym, ◌∙◌, inl, inr, true, false, none, some,
  List, [], ◌∷◌, arith, leb, ◌==◌, Bool-cases, Option-cases, none-ne-some, eq_of_some,
}
use sogang_pint_os.Common.All.{All}
use sogang_pint_os.Palloc.{pg_size, Pools, palloc_get_multiple, palloc_get_page}
use sogang_pint_os.Malloc.{
  arena_size, Malloc, unzeroed, find_desc, new_arena, small_block, is_empty, malloc,
}
use sogang_pint_os.Malloc.Outcome.{NoRoom, Gave, IsFree, IsValid, take-Gave, nothing, no_room}
use sogang_pint_os.Malloc.Fresh.{with_arena, arena-Gave}
use sogang_pint_os.Malloc.Big.{pages_lem, big-Gave}

pub find_desc_lem :
    (s : Malloc) (n d size d' : ℕ)
    → find_desc n d size s ≡ some d'
    → (d' < d + n) × (size ≤ (s.descs d').block_size)
unfolding find_desc
find_desc_lem s zero d size d' e = absurd (none-ne-some e)
find_desc_lem s (suc n) d size d' e = elim (Bool-cases (leb size (s.descs d).block_size)) [
  | inl fits ↦
      let found : find_desc (suc n) d size s ≡ some d = rw fits refl in
      let here : d ≡ d' = eq_of_some (sym found ∙ e) in
      (omega (arith, here), subst (λ k. size ≤ (s.descs k).block_size) here (ground (arith, fits)))
  | inr small ↦
      let later : find_desc (suc n) d size s ≡ find_desc n (d + 1) size s = rw small refl in
      let (lt, ok) = find_desc_lem s n (d + 1) size d' (sym later ∙ e) in (omega (arith, lt), ok)
]

-- The descriptors before the one that `find_desc` gives are too small, and all are if it gives none.
pub find_desc-first :
    (s : Malloc) (n d size d' : ℕ)
    → find_desc n d size s ≡ some d'
    → (k : ℕ) → d ≤ k
    → k < d'
    → (s.descs k).block_size < size
unfolding find_desc
find_desc-first s zero d size d' e k lo hi = absurd (none-ne-some e)
find_desc-first s (suc n) d size d' e k lo hi =
    elim (Bool-cases (leb size (s.descs d).block_size)) [
      | inl fits ↦
          let found : find_desc (suc n) d size s ≡ some d = rw fits refl in
          let here : d ≡ d' = eq_of_some (sym found ∙ e) in absurd (omega (arith, here, lo, hi))
      | inr small ↦
          let later : find_desc (suc n) d size s ≡ find_desc n (d + 1) size s = rw small refl in
          elim (Bool-cases (d == k)) [
            | inl y ↦
                let at : d ≡ k = ground (arith, y) in
                subst (λ j. (s.descs j).block_size < size) at (ground (arith, small))
            | inr y ↦
                find_desc-first s n (d + 1) size d' (sym later ∙ e) k (ground (arith, y, lo)) hi
          ]
    ]

pub find_desc-none :
    (s : Malloc) (n d size : ℕ)
    → find_desc n d size s ≡ none
    → (k : ℕ) → d ≤ k
    → k < d + n
    → (s.descs k).block_size < size
unfolding find_desc
find_desc-none s zero d size e k lo hi = absurd (omega (arith, lo, hi))
find_desc-none s (suc n) d size e k lo hi = elim (Bool-cases (leb size (s.descs d).block_size)) [
  | inl fits ↦
      let found : find_desc (suc n) d size s ≡ some d = rw fits refl in
      absurd (none-ne-some (sym e ∙ found))
  | inr small ↦
      let later : find_desc (suc n) d size s ≡ find_desc n (d + 1) size s = rw small refl in
      elim (Bool-cases (d == k)) [
        | inl y ↦
            let at : d ≡ k = ground (arith, y) in
            subst (λ j. (s.descs j).block_size < size) at (ground (arith, small))
        | inr y ↦
            find_desc-none s n (d + 1) size (sym later ∙ e) k (ground (arith, y, lo))
              (omega (arith, hi))
      ]
]

new_arena-null :
    (s : Malloc) {a : ℕ} {pools : Pools} (d : ℕ)
    → palloc_get_multiple unzeroed 1 s.pools ≡ some (a, pools)
    → (a == 0) ≡ true
    → new_arena d s ≡ some (false, record s { pools = pools })
unfolding new_arena palloc_get_page
new_arena-null s d run null = rw (run, null) refl

new_arena-made :
    (s : Malloc) {a : ℕ} {pools : Pools} (d : ℕ)
    → palloc_get_multiple unzeroed 1 s.pools ≡ some (a, pools)
    → (a == 0) ≡ false
    → new_arena d s ≡ some (true, with_arena d a pools s)
unfolding new_arena palloc_get_page
new_arena-made s d run page = rw (run, page) refl

small-Gave :
    {s : Malloc} (d size : ℕ)
    → IsValid s
    → d < s.desc_cnt
    → 0 < size
    → size ≤ (s.descs d).block_size
    → (out : ℕ × Malloc) × (small_block d s ≡ some out) × Gave s size out
unfolding small_block is_empty palloc_get_page
small-Gave {s} d size v lt pos fits = on (s.descs d).free_list refl
  where
    on :
        (l : List ℕ)
        → (s.descs d).free_list ≡ l
        → (out : ℕ × Malloc) × (small_block d s ≡ some out) × Gave s size out
    on (b ∷ bs) e =
        let free = subst (All (IsFree s d)) e (v.blocks d lt) in
        let (out, run, g) = take-Gave d size b bs (v.descs d lt) free.0 e fits in (out, rw e run, g)
    on [] e =
        let (a, pools, run, range, full) = pages_lem v.pools 1 (omega arith) in
        elim (Bool-cases (a == 0)) [
          | inl y ↦
              let lack : NoRoom s size 1 = record {
                needed = omega arith;
                full = full (ground (arith, y));
              } in
              (
                (0, record s { pools = pools }),
                rw (e, new_arena-null s d run y) refl,
                no_room refl 1 (omega arith) lack,
              )
          | inr n ↦
              let ne : a ≢ 0 = ground (arith, n) in
              let (page, room) = range ne in
              let (out, took, g) =
                arena-Gave d size a pools v.pools (v.descs d lt) e fits run ne page (omega arith) in
              (out, rw (e, new_arena-made s d run n) took, g)
        ]

-- A request for `size` bytes ends without a failed ASSERT. It gives the null pointer only for 0 bytes, or
-- where the kernel pool does not have the pages in a row that the request needs; otherwise the block has
-- at least `size` bytes, and `free` takes it back, after which every descriptor with its free list and the
-- pages in use are as before the request. `size` and the header are at least a page below 2 ^ 32.
pub malloc_lem :
    {s : Malloc} (size : ℕ)
    → IsValid s
    → size + arena_size + pg_size ≤ 2 ^ 32
    → (out : ℕ × Malloc) × (malloc size s ≡ some out) × Gave s size out
unfolding malloc
malloc_lem {s} size v fits = elim (Bool-cases (size == 0)) [
  | inl y ↦ ((0, s), rw y refl, nothing refl (ground (arith, y)))
  | inr n ↦ elim (Option-cases (find_desc s.desc_cnt 0 size s)) [
    | inl e ↦ let (out, run, g) = big-Gave size v.pools fits in (out, rw (n, e) run, g)
    | inr (d, e) ↦
        let (lt, room) = find_desc_lem s s.desc_cnt 0 size d e in
        let (out, run, g) = small-Gave d size v (omega (arith, lt)) (ground (arith, n)) room in
        (out, rw (n, e) run, g)
  ]
]
