-- ===== src/Palloc/Laws.antt =====
-- The allocator of the two pools: `palloc_get_multiple` and `palloc_free_multiple` of
-- pintos/src/threads/palloc.c.
use mathlib.Core.Path.{subst}
use sogang_pint_os.Common.{
  ℕ, ◌+◌, ◌*◌, ◌<◌, ◌≤◌, ◌≡◌, ◌≢◌, ◌⊎◌, inl, inr, refl, ◌∙◌, ap, sym, Bool, true, false, not, ◌&&◌,
  Option, none, some, arith, ◌==◌, ne→==_false, Bool-cases, eq_of_some, none-ne-some,
}
use sogang_pint_os.Common.Panic.{◌>>◌, assert}
use sogang_pint_os.Bitmap.Scan.{IsGroup}
use sogang_pint_os.Palloc.{
  Pool, Pools, Flags, pg_size, palloc_get_multiple, palloc_free_multiple, page_from_pool, pool_of,
  put_pool,
}
use sogang_pint_os.Palloc.OnePool.{
  pages, no_room, get_from_pool_lem, Got-IsPool, Got-size, free-get_pool, Got-range, IsPool,
  IsValid, Got, in_use,
}

-- What a request for `cnt` pages leads to: the pool named by the flag answers, the other one stays as
-- it is, and the allocator stays valid.
pub record Answer (s : Pools) (user : Bool) (cnt : ℕ) (out : ℕ × Pools) : Type 0 where
  pub got : Got (pool_of s user) cnt (out.0, pool_of out.1 user)
  pub other : pool_of out.1 (not user) ≡ pool_of s (not user)
  pub valid : IsValid out.1

pool-IsPool : {s : Pools} → IsValid s → (user : Bool) → IsPool (pool_of s user)
pool-IsPool v true = v.user
pool-IsPool v false = v.kernel

answer :
    {s : Pools}
    → IsValid s
    → (user : Bool) (cnt : ℕ) {out : ℕ × Pool} → Got (pool_of s user) cnt out
    → Answer s user cnt (out.0, put_pool s user out.1)
answer v true cnt {out} g = record {
  got = g;
  other = refl;
  valid = record {
    kernel = v.kernel;
    user = Got-IsPool v.user cnt g;
    apart = omega (arith, v.apart, Got-size cnt g);
  };
}
answer v false cnt {out} g = record {
  got = g;
  other = refl;
  valid = record {
    kernel = Got-IsPool v.kernel cnt g;
    user = v.user;
    apart = omega (arith, v.apart, Got-size cnt g);
  };
}

-- The end of `palloc_get_multiple`, after the pool has answered.
abbrev checked_answer : Flags → Pools → ℕ × Pool → Option (ℕ × Pools)
checked_answer flags s out = do
  assert (not (out.0 == 0 && flags.pal_assert))
  some (out.0, put_pool s flags.pal_user out.1)

-- A request for at least one page ends. It panics only under PAL_ASSERT when its pool has no `cnt`
-- free pages in a row; otherwise the pool chosen by PAL_USER answers, the other pool is unchanged,
-- and the allocator stays valid.
pub get_multiple_lem :
    {s : Pools} (flags : Flags) (cnt : ℕ)
    → IsValid s
    → 0 < cnt
    → (palloc_get_multiple flags cnt s ≡ none)
        × (flags.pal_assert ≡ true)
        × ((k : ℕ) → ¬ IsGroup (pool_of s flags.pal_user).used_map cnt false k)
      ⊎ ((out : ℕ × Pools) × (palloc_get_multiple flags cnt s ≡ some out)
          × Answer s flags.pal_user cnt out)
unfolding palloc_get_multiple
get_multiple_lem {s} flags cnt v pos =
    let (out, run, g) = get_from_pool_lem (pool-IsPool v flags.pal_user) cnt in
    let more : (cnt == 0) ≡ false = ground arith in rw (more, run) (checked g)
  where
    checked :
        {out : ℕ × Pool}
        → Got (pool_of s flags.pal_user) cnt out
        → (checked_answer flags s out ≡ none)
            × (flags.pal_assert ≡ true)
            × ((k : ℕ) → ¬ IsGroup (pool_of s flags.pal_user).used_map cnt false k)
          ⊎ ((res : ℕ × Pools) × (checked_answer flags s out ≡ some res)
              × Answer s flags.pal_user cnt res)
    checked (pages addr k p₁ at base room free holds) =
        let above : (addr == 0) ≡ false =
          ne→==_false addr 0 (omega (arith, (pool-IsPool v flags.pal_user).above)) in
        inr (_, rw above, answer v flags.pal_user cnt (pages addr k p₁ at base room free holds))
    checked (no_room addr e full) = elim (Bool-cases flags.pal_assert) [
      | inl must ↦ inl (rw (e, must), must, full)
      | inr may ↦ inr (_, rw (e, may), answer v flags.pal_user cnt (no_room addr e full))
    ]

-- `page_from_pool` as a statement on addresses.
from_pool_true :
    {p : Pool} (addr : ℕ)
    → IsPool p
    → p.base ≤ addr
    → addr < p.base + pg_size * p.used_map.bit_cnt
    → page_from_pool p addr ≡ true
unfolding page_from_pool
from_pool_true addr v lo hi = ground (arith, v.aligned)

from_pool_false :
    {p : Pool} (addr : ℕ)
    → IsPool p
    → p.base + pg_size * p.used_map.bit_cnt ≤ addr
    → page_from_pool p addr ≡ false
unfolding page_from_pool
from_pool_false addr v past = ground (arith, v.aligned)

abbrev Restored : Pools → Pools → Type 0
Restored s s'' = (user : Bool) (j : ℕ) → in_use (pool_of s'' user) j ≡ in_use (pool_of s user) j

free-Answer :
    {s : Pools} (user : Bool) (cnt : ℕ) {out : ℕ × Pools}
    → IsValid s
    → 0 < cnt
    → Answer s user cnt out
    → out.0 ≢ 0
    → (s'' : Pools) × (palloc_free_multiple out.0 cnt out.1 ≡ some s'') × Restored s s''
unfolding palloc_free_multiple
free-Answer {s} false cnt {out} v pos a ne =
    let (p', run, base, bits) = free-get_pool v.kernel cnt a.got ne in
    let range = Got-range v.kernel cnt pos a.got ne in
    let found : page_from_pool out.1.kernel_pool out.0 ≡ true =
      from_pool_true out.0 a.valid.kernel (omega (arith, range, Got-size cnt a.got))
        (omega (arith, range, Got-size cnt a.got)) in
    (
      put_pool out.1 false p',
      rw (range.0, ne→==_false out.0 0 ne, ne→==_false cnt 0 (omega arith), found, run),
      λ user.
          elim user
            as (λ u.
              (j : ℕ) → in_use (pool_of (put_pool out.1 false p') u) j ≡ in_use (pool_of s u) j) [
                | true ↦ λ j. ap (λ (p : Pool). in_use p j) a.other
                | false ↦ bits
              ],
    )
free-Answer {s} true cnt {out} v pos a ne =
    let (p', run, base, bits) = free-get_pool v.user cnt a.got ne in
    let range = Got-range v.user cnt pos a.got ne in
    let end = ap (λ (p : Pool). p.base + pg_size * p.used_map.bit_cnt) a.other in
    let passed : page_from_pool out.1.kernel_pool out.0 ≡ false =
      from_pool_false out.0 a.valid.kernel (omega (arith, range, v.apart, end)) in
    let found : page_from_pool out.1.user_pool out.0 ≡ true =
      from_pool_true out.0 a.valid.user (omega (arith, range, Got-size cnt a.got))
        (omega (arith, range, Got-size cnt a.got)) in
    (
      put_pool out.1 true p',
      rw (range.0, ne→==_false out.0 0 ne, ne→==_false cnt 0 (omega arith), passed, found, run),
      λ user.
          elim user
            as (λ u.
              (j : ℕ) → in_use (pool_of (put_pool out.1 true p') u) j ≡ in_use (pool_of s u) j) [
                | false ↦ λ j. ap (λ (p : Pool). in_use p j) a.other
                | true ↦ bits
              ],
    )

-- Pages that a request gave can be given back: every ASSERT passes, the pool is found again from the
-- address, and afterwards the same pages are in use as before the request, in both pools.
pub free-get_multiple :
    {s : Pools} (flags : Flags) (cnt addr : ℕ) (s' : Pools)
    → IsValid s
    → 0 < cnt
    → palloc_get_multiple flags cnt s ≡ some (addr, s')
    → addr ≢ 0
    → (s'' : Pools) × (palloc_free_multiple addr cnt s' ≡ some s'')
      × ((user : Bool) (j : ℕ) → in_use (pool_of s'' user) j ≡ in_use (pool_of s user) j)
free-get_multiple {s} flags cnt addr s' v pos run ne = elim (get_multiple_lem flags cnt v pos) [
  | inl panic ↦ absurd (none-ne-some (sym panic.0 ∙ run))
  | inr (out, run', a) ↦
      subst
        (λ (o : ℕ × Pools).
          o.0 ≢ 0 → (s'' : Pools) × (palloc_free_multiple o.0 cnt o.1 ≡ some s'') × Restored s s'')
        (eq_of_some (sym run' ∙ run)) (free-Answer flags.pal_user cnt v pos a) ne
]
