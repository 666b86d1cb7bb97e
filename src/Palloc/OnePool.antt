-- ===== src/Palloc/OnePool.antt =====
-- One pool of pages: taking pages from it and giving them back (pintos/src/threads/palloc.c).
use sogang_pint_os.Common.{
  ℕ, ◌+◌, ◌-◌, ◌*◌, ◌%◌, ◌^◌, ◌<◌, ◌≤◌, ◌≡◌, ◌≢◌, inl, inr, refl, ◌∙◌, sym, Bool, true, false, some,
  arith, ◌==◌, if◌then◌else◌, ne→==_false, Bool-cases,
}
use sogang_pint_os.Bitmap
use sogang_pint_os.Bitmap.{Bitmap, bit, bitmap_error, bitmap_all, bitmap_set_multiple}
use sogang_pint_os.Bitmap.Bit.{Holds}
use sogang_pint_os.Bitmap.Range.{within, set_multiple_lem, any_lem, any_bit, any_bit-true}
use sogang_pint_os.Bitmap.Scan
use sogang_pint_os.Bitmap.Scan.{IsGroup, scan_and_flip_lem}
use sogang_pint_os.Palloc.{Pool, Pools, pg_size, pg_ofs, pg_no, get_from_pool, free_in_pool}

-- The pool's pages are aligned and lie above address 0 and below 2 ^ 32.
pub record IsPool (p : Pool) : Type 0 where
  pub map_valid : Bitmap.IsValid p.used_map
  pub aligned : p.base % pg_size ≡ 0
  pub above : 0 < p.base
  pub fits : p.base + pg_size * p.used_map.bit_cnt ≤ 2 ^ 32

-- Page `k` of the pool is in use.
abbrev pub in_use : Pool → ℕ → Bool
in_use p k = bit p.used_map k

-- The two pools follow one another, as `palloc_init` lays them out.
pub record IsValid (s : Pools) : Type 0 where
  pub kernel : IsPool s.kernel_pool
  pub user : IsPool s.user_pool
  pub apart : s.kernel_pool.base + pg_size * s.kernel_pool.used_map.bit_cnt ≤ s.user_pool.base

-- The outcomes of a request for `cnt` pages of one pool.
pub data Got (p : Pool) (cnt : ℕ) : ℕ × Pool → Type 0 where
  pages :
      (addr k : ℕ) (p' : Pool)
      → addr ≡ p.base + pg_size * k
      → p'.base ≡ p.base
      → k + cnt ≤ p.used_map.bit_cnt
      → ((j : ℕ) → k ≤ j → j < k + cnt → in_use p j ≡ false)
      → Holds p.used_map p'.used_map (λ j. if within k cnt j then true else bit p.used_map j)
      → Got p cnt (addr, p')
  no_room :
      (addr : ℕ) → addr ≡ 0 → ((k : ℕ) → ¬ IsGroup p.used_map cnt false k) → Got p cnt (addr, p)

module _ {p : Pool} (v : IsPool p) (cnt : ℕ) where
  pub get_from_pool_lem : (out : ℕ × Pool) × (get_from_pool p cnt ≡ some out) × Got p cnt out
  unfolding get_from_pool
  get_from_pool_lem =
      let ((r, b'), run, how) = scan_and_flip_lem v.map_valid cnt false 0 (omega arith) in
      rw run (
        (if r == bitmap_error then 0 else p.base + pg_size * r, record p { used_map = b' }),
        refl,
        outcome how,
      )
    where
      outcome :
          {out : ℕ × Bitmap}
          → Scan.Flipped v.map_valid cnt false 0 out
          → Got p cnt (
            if out.0 == bitmap_error then 0 else p.base + pg_size * out.0,
            record p { used_map = out.1 },
          )
      outcome (Scan.flipped r b' ne lo g before holds) =
          rw (ne→==_false r bitmap_error ne) (pages _ r _ refl refl g.inside g.same holds)
      outcome (Scan.unchanged r e nowhere) = rw e (no_room 0 refl (λ k. nowhere k (omega arith)))

  -- The index that `palloc_free_multiple` computes for page `k`.
  page_idx_lem : (k : ℕ) → pg_no (p.base + pg_size * k) - pg_no p.base ≡ k
  page_idx_lem k = omega (arith, v.aligned)

  -- Giving back pages that are all in use passes the ASSERT and clears exactly their bits.
  free_in_pool_lem :
      (addr k : ℕ)
      → addr ≡ p.base + pg_size * k
      → k + cnt ≤ p.used_map.bit_cnt
      → ((j : ℕ) → k ≤ j → j < k + cnt → in_use p j ≡ true)
      → (p' : Pool) × (free_in_pool p addr cnt ≡ some p')
        × (p'.base ≡ p.base)
        × Holds p.used_map p'.used_map (λ j. if within k cnt j then false else bit p.used_map j)
  unfolding free_in_pool
  free_in_pool_lem addr k at h used =
      let (b', run, holds) = set_multiple_lem k cnt false v.map_valid h in
      rw (at, page_idx_lem k, (any_lem k cnt v.map_valid h).2, all_used, run)
        (record p { used_map = b' }, refl, refl, holds)
    where
      all_used : any_bit p.used_map false k cnt ≡ false
      all_used = elim (Bool-cases (any_bit p.used_map false k cnt)) [
        | inl e ↦
            let (j, lo, hi, clear) = any_bit-true p.used_map false k cnt e in
            absurd (true-ne-false (sym (used j lo hi) ∙ clear))
        | inr e ↦ e
      ]
        where
          true-ne-false : true ≢ false
          true-ne-false = ground arith

pub Got-IsPool : {p : Pool} → IsPool p → (cnt : ℕ) {out : ℕ × Pool} → Got p cnt out → IsPool out.1
Got-IsPool v cnt (pages addr k p' at base room free holds) = record {
  map_valid = holds.valid;
  aligned = rw base v.aligned;
  above = rw base v.above;
  fits = omega (arith, v.fits, base, holds.size);
}
Got-IsPool v cnt (no_room addr e full) = v

pub Got-size :
    {p : Pool} (cnt : ℕ) {out : ℕ × Pool}
    → Got p cnt out
    → (out.1.base ≡ p.base) × (out.1.used_map.bit_cnt ≡ p.used_map.bit_cnt)
Got-size cnt (pages addr k p' at base room free holds) = (base, holds.size)
Got-size cnt (no_room addr e full) = (refl, refl)

-- After a request that gave pages, giving them back succeeds and restores every bit of the map.
pub free-get_pool :
    {p : Pool}
    → IsPool p
    → (cnt : ℕ) {out : ℕ × Pool} → Got p cnt out
    → out.0 ≢ 0
    → (p' : Pool) × (free_in_pool out.1 out.0 cnt ≡ some p')
      × (p'.base ≡ p.base)
      × ((j : ℕ) → in_use p' j ≡ in_use p j)
free-get_pool v cnt (no_room addr e full) ne = absurd (ne e)
free-get_pool {p} v cnt (pages addr k p₁ at base room free holds) ne =
    let v₁ = Got-IsPool v cnt (pages addr k p₁ at base room free holds) in
    let (p₂, run, base₂, holds₂) =
      free_in_pool_lem v₁ cnt addr k (omega (arith, at, base)) (omega (arith, holds.size))
        (λ j lo hi. ground (arith, holds.bits j)) in
    (
      p₂,
      run,
      base₂ ∙ base,
      λ j. elim (Bool-cases (within k cnt j)) [
        | inl e ↦ holds₂.bits j ∙ rw e (sym (free j (ground arith) (ground arith)))
        | inr e ↦ holds₂.bits j ∙ rw (e, holds.bits j, e)
      ],
    )

-- The addresses of the pages: aligned, in their pool's range.
pub Got-range :
    {p : Pool}
    → IsPool p
    → (cnt : ℕ) {out : ℕ × Pool} → 0 < cnt
    → Got p cnt out
    → out.0 ≢ 0
    → (pg_ofs out.0 ≡ 0)
      × (p.base ≤ out.0)
      × (out.0 + pg_size * cnt ≤ p.base + pg_size * p.used_map.bit_cnt)
Got-range v cnt pos (no_room addr e full) ne = absurd (ne e)
Got-range v cnt pos (pages addr k p₁ at base room free holds) ne =
    omega (arith, v.aligned, at, room)
