-- ===== src/Stdlib/BinarySearch.antt =====
-- `binary_search` of pintos/src/lib/stdlib.c.
use sogang_pint_os.Common.{
  ℕ, zero, suc, ◌+◌, ◌-◌, ◌/◌, ◌≤◌, ◌<◌, ◌≡◌, inl, inr, Bool, true, false, Option, none, some, ltb,
  arith, Bool-cases, lt→ltb,
}
use sogang_pint_os.Common.Int.{ℤ, pos, ltb_ℤ}
use sogang_pint_os.Stdlib.{search_loop, binary_search}
use native.Mathlib.Decide.{dec_lt}

module _ {ℓ κ} {K : Type κ} {A : Type ℓ} (compare : K → A → ℤ) (key : K) (array : ℕ → A) where
  -- The array is sorted: past an element above the key all are above it, and before one below it all
  -- are below it.
  pub record Ordered (n : ℕ) : Type 0 where
    pub up :
        (j k : ℕ)
        → j ≤ k
        → k < n
        → ltb_ℤ (compare key (array j)) (pos 0) ≡ true
        → ltb_ℤ (compare key (array k)) (pos 0) ≡ true
    pub down :
        (j k : ℕ)
        → j ≤ k
        → k < n
        → ltb_ℤ (pos 0) (compare key (array k)) ≡ true
        → ltb_ℤ (pos 0) (compare key (array j)) ≡ true

  -- The element is neither above nor below the key.
  abbrev pub Matches : ℕ → Type 0
  Matches k =
      (ltb_ℤ (compare key (array k)) (pos 0) ≡ false)
      × (ltb_ℤ (pos 0) (compare key (array k)) ≡ false)

  -- A match within the bounds, or that there is none.
  abbrev pub Answer : ℕ → ℕ → Option ℕ → Type 0
  Answer first last none = (k : ℕ) → first ≤ k → k < last → ¬ Matches k
  Answer first last (some k) = (first ≤ k) × (k < last) × Matches k

  search_loop_lem :
      (fuel first last n : ℕ)
      → Ordered n
      → last ≤ n
      → last - first < fuel
      → (r : Option ℕ) × (search_loop compare fuel key array first last ≡ some r)
        × Answer first last r
  unfolding search_loop
  search_loop_lem zero first last n ord le lt = absurd (omega arith)
  search_loop_lem (suc fuel) first last n ord le lt = elim (dec_lt first last) [
    | no done ↦ (none, rw (search_loop, not_less done), λ k h h' m. omega (arith, done))
    | yes more ↦
        let middle = first + (last - first) / 2 in
        let within : middle < last = omega arith in
        let go : ltb first last ≡ true = lt→ltb first last more in
        elim (Bool-cases (ltb_ℤ (compare key (array middle)) (pos 0))) [
          | inl low ↦
              rw (search_loop, go, low)
                (below middle within low
                  (search_loop_lem fuel first middle n ord (omega arith) (omega arith)))
          | inr not_low ↦ elim (Bool-cases (ltb_ℤ (pos 0) (compare key (array middle)))) [
            | inl high ↦
                rw (search_loop, go, not_low, high)
                  (beyond middle within (omega arith) high
                    (search_loop_lem fuel (middle + 1) last n ord le (omega arith)))
            | inr not_high ↦ (
              some middle,
              rw (search_loop, go, not_low, not_high),
              (omega arith, within, (not_low, not_high)),
            )
          ]
        ]
  ]
    where
      clash : {b : Bool} → b ≡ true → b ≡ false → ⊥
      clash e f = cc

      not_less : ¬ (first < last) → ltb first last ≡ false
      not_less done = ground arith

      below :
          {out : Option (Option ℕ)} (middle : ℕ)
          → middle < last
          → ltb_ℤ (compare key (array middle)) (pos 0) ≡ true
          → ((r : Option ℕ) × (out ≡ some r) × Answer first middle r)
          → (r : Option ℕ) × (out ≡ some r) × Answer first last r
      below middle within low (some k, run, found) =
          (some k, run, (found.0, omega (arith, found.1), found.2))
      below middle within low (none, run, nothing) = (
        none,
        run,
        λ k h h' m. elim (dec_lt k middle) [
          | yes before ↦ nothing k h before m
          | no after ↦ clash (ord.up middle k (omega arith) (omega arith) low) m.0
        ],
      )

      beyond :
          {out : Option (Option ℕ)} (middle : ℕ)
          → middle < last
          → first ≤ middle
          → ltb_ℤ (pos 0) (compare key (array middle)) ≡ true
          → ((r : Option ℕ) × (out ≡ some r) × Answer (middle + 1) last r)
          → (r : Option ℕ) × (out ≡ some r) × Answer first last r
      beyond middle within above high (some k, run, found) =
          (some k, run, (omega (arith, found.0), found.1, found.2))
      beyond middle within above high (none, run, nothing) = (
        none,
        run,
        λ k h h' m. elim (dec_lt middle k) [
          | yes after ↦ nothing k (omega arith) h' m
          | no before ↦ clash (ord.down k middle (omega arith) (omega arith) high) m.1
        ],
      )

  -- On a sorted array `binary_search` ends; it gives the index of an element that matches the key, or
  -- a null pointer only if none of the `cnt` elements does.
  binary_search_lem :
      (cnt : ℕ)
      → Ordered cnt
      → (r : Option ℕ) × (binary_search compare key array cnt ≡ some r) × Answer 0 cnt r
  unfolding binary_search
  binary_search_lem cnt ord = search_loop_lem (cnt + 1) 0 cnt cnt ord (omega arith) (omega arith)
