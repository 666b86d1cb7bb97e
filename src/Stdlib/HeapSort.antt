-- ===== src/Stdlib/HeapSort.antt =====
-- `sort` of pintos/src/lib/stdlib.c.
use mathlib.Core.Path.{subst}
use native.Mathlib.Decide.{dec_lt}
use sogang_pint_os.Common.{
  ℕ, zero, suc, ◌+◌, ◌*◌, ◌/◌, ◌^◌, ◌≤◌, ◌<◌, ◌≡◌, refl, sym, ap, ◌∙◌, inr, false, some, arith,
  obtain,
}
use sogang_pint_os.Common.Int.{ℤ}
use sogang_pint_os.KernelList.Order.{IsOrder}
use sogang_pint_os.Stdlib.{do_swap, above, build_loop, sort_loop, sort}
use sogang_pint_os.Stdlib.Heap.{
  Rearranged, Rearranged-refl, Rearranged-trans, Rearranged-mono, Rearranged-swap, do_swap_second,
  do_swap_other, le_refl, IsHeap, Sinking, heapify_lem,
}

module _ {ℓ} {A : Type ℓ} (compare : A → A → ℤ) where
  -- The elements from position `i` + 1 to `n` are in their places: none is below an earlier one.
  abbrev pub Placed : ℕ → ℕ → (ℕ → A) → Type 0
  Placed i n array =
      (j k : ℕ) → 1 ≤ j → j < k → i < k → k ≤ n → above compare (array j) (array k) ≡ false

module _ {ℓ} {A : Type ℓ} (compare : A → A → ℤ) (order : IsOrder (above compare)) where
  root_max :
      (fuel k cnt : ℕ) (array : ℕ → A)
      → IsHeap compare 1 cnt array
      → k ≤ fuel
      → 1 ≤ k
      → k ≤ cnt
      → above compare (array k) (array 1) ≡ false
  root_max zero k cnt array heap short pos le = absurd (omega arith)
  root_max (suc fuel) k cnt array heap short pos le = elim (dec_lt 1 k) [
    | yes more ↦
        order.trans (array 1) (array (k / 2)) (array k)
          (root_max fuel (k / 2) cnt array heap (omega arith) (omega arith) (omega arith))
          (heap k (omega arith) le)
    | no one ↦
        let first : 1 ≡ k = omega (arith, one) in
        subst (λ z. above compare (array z) (array 1) ≡ false) first
          (le_refl compare order (array 1))
  ]

  -- An element that moved stays before a later place.
  earlier :
      (m j k : ℕ) (old new : ℕ → A)
      → (r : Rearranged m old new) → 1 ≤ j
      → j < k
      → m < k
      → (1 ≤ r.to j) × (r.to j < k)
  earlier m j k old new r pos lt beyond = elim (dec_lt m j) [
    | yes out ↦ let same = r.outside j (inr out) in (omega (arith, same), omega (arith, same))
    | no within ↦ let i = r.inside j pos (omega arith) in (i.0, omega (arith, i.1))
  ]

  build_loop_lem :
      (i cnt : ℕ) (array : ℕ → A)
      → 2 * i ≤ cnt
      → cnt < 2 ^ 31
      → IsHeap compare (i + 1) cnt array
      → (out : ℕ → A) × (build_loop compare i array cnt ≡ some out)
        × (IsHeap compare 1 cnt out × Rearranged cnt array out)
  unfolding build_loop
  build_loop_lem zero cnt array le small heap = (array, refl, (heap, Rearranged-refl cnt array))
  build_loop_lem (suc i) cnt array le small heap =
      obtain
        (heapify_lem compare order (cnt + 1) (suc i) (suc i) cnt array (omega arith) (omega arith)
          (omega arith) (omega arith) small start)
        λ mid run result.
          obtain
            (build_loop_lem i cnt mid (omega arith) small (λ c h. result.0 c (omega (arith, h))))
            λ out run' result'. (
              out,
              rw (build_loop, run) run',
              (result'.0, Rearranged-trans cnt array mid out result.1 result'.1),
            )
    where
      start : Sinking compare (suc i) (suc i) cnt array
      start = record {
        others = λ c h h' ne. heap c (omega (arith, ne)) h';
        grand = λ c e h h'. absurd (omega arith);
      }

  -- The largest element is put behind the heap, and the rest is a heap again.
  one_round :
      (i n : ℕ) (array out : ℕ → A)
      → suc (suc i) ≤ n
      → IsHeap compare 1 (suc (suc i)) array
      → Placed compare (suc (suc i)) n array
      → Rearranged (suc i) (do_swap array 1 (suc (suc i))) out
      → Placed compare (suc i) n out × Rearranged (suc (suc i)) array out
  one_round i n array out le heap placed r =
      let all =
        Rearranged-trans (suc (suc i)) array (do_swap array 1 (suc (suc i))) out
          (Rearranged-swap (suc (suc i)) 1 (suc (suc i)) array (omega arith) (omega arith)
            (omega arith) (omega arith))
          (Rearranged-mono (suc i) (suc (suc i)) _ out (omega arith) r) in
      (in_place all, all)
    where
      top : out (suc (suc i)) ≡ array 1
      top =
          r.moves (suc (suc i))
          ∙ ap (do_swap array 1 (suc (suc i))) (r.outside (suc (suc i)) (inr (omega arith)))
          ∙ do_swap_second array 1 (suc (suc i)) (λ q. omega (arith, q))

      in_place : Rearranged (suc (suc i)) array out → Placed compare (suc i) n out
      in_place all j k pos lt beyond within = elim (dec_lt (suc (suc i)) k) [
        | yes far ↦
            rw (all.moves j, all.moves k, all.outside k (inr far))
              (let e = earlier (suc (suc i)) j k array out all pos lt far in
                placed (all.to j) k e.0 e.1 far within)
        | no near ↦
            let at : k ≡ suc (suc i) = omega (arith, near) in
            let inside = all.inside j pos (omega (arith, at)) in
            rw (at, top, all.moves j)
              (root_max (suc (suc i)) (all.to j) (suc (suc i)) array heap inside.1 inside.0
                inside.1)
      ]

  sort_loop_lem :
      (i n : ℕ) (array : ℕ → A)
      → i ≤ n
      → n < 2 ^ 31
      → IsHeap compare 1 i array
      → Placed compare i n array
      → (out : ℕ → A) × (sort_loop compare i array ≡ some out)
        × (Placed compare 0 n out × Rearranged n array out)
  unfolding sort_loop
  sort_loop_lem zero n array le small heap placed = (array, refl, (placed, Rearranged-refl n array))
  sort_loop_lem (suc zero) n array le small heap placed = (
    array,
    refl,
    (λ j k pos lt h h'. placed j k pos lt (omega arith) h', Rearranged-refl n array),
  )
  sort_loop_lem (suc (suc i)) n array le small heap placed =
      obtain
        (heapify_lem compare order (i + 2) 1 1 (suc i) (do_swap array 1 (suc (suc i))) (omega arith)
          (omega arith) (omega arith) (omega arith) (omega (arith, le, small)) start)
        λ mid run result.
          let (placed', r) = one_round i n array mid le heap placed result.1 in
          obtain (sort_loop_lem (suc i) n mid (omega arith) small result.0 placed')
            λ out run' result'. (
              out,
              rw (sort_loop, run) run',
              (
                result'.0,
                Rearranged-trans n array mid out (Rearranged-mono (suc (suc i)) n array mid le r)
                    result'.1,
              ),
            )
    where
      start : Sinking compare 1 1 (suc i) (do_swap array 1 (suc (suc i)))
      start = record {
        others = λ c h h' ne.
            rw
              (
                do_swap_other array 1 (suc (suc i)) c (λ q. omega (arith, q, h))
                    (λ q. omega (arith, q, h')),
                do_swap_other array 1 (suc (suc i)) (c / 2) (λ q. ne (sym q))
                    (λ q. omega (arith, q, h')),
              )
              (heap c h (omega arith));
        grand = λ c e h h'. absurd (omega arith);
      }

  -- `sort` of fewer than 2 ^ 31 elements ends, and moves its `cnt` elements so that none is above a later one; what is
  -- outside of the array stays.
  pub sort_lem :
      (array : ℕ → A) (cnt : ℕ)
      → cnt < 2 ^ 31
      → (out : ℕ → A) × (sort compare array cnt ≡ some out)
        × (Placed compare 0 cnt out × Rearranged cnt array out)
  unfolding sort
  sort_lem array cnt small =
      obtain
        (build_loop_lem (cnt / 2) cnt array (omega arith) small (λ c h h'. absurd (omega arith)))
        λ mid run result.
          obtain
            (sort_loop_lem cnt cnt mid (omega arith) small result.0
              (λ j k pos lt h h'. absurd (omega arith)))
            λ out run' result'. (
              out,
              rw (sort, run) run',
              (result'.0, Rearranged-trans cnt array mid out result.1 result'.1),
            )
