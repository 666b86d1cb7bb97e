-- ===== src/Stdlib.antt =====
-- Sorting and searching of pintos/src/lib/stdlib.c. An array is a function from the index to the element
-- (1-based for `sort`, as in the code's `do_swap` and `do_compare`, 0-based for `binary_search`). `compare`
-- is the caller's function with its `aux`; it gives a negative number, 0 or a positive one.
pub mod Heap
pub mod HeapSort
pub mod BinarySearch
pub mod Atoi
use sogang_pint_os.Common.{
  ℕ, zero, suc, ◌+◌, ◌-◌, ◌*◌, ◌/◌, ◌%◌, ◌^◌, Bool, true, false, ◌&&◌, Option, none, some, ltb, leb,
  ◌==◌, if◌then◌else◌,
}
use sogang_pint_os.Common.Int.{ℤ, pos, ltb_ℤ}

module _ {ℓ} {A : Type ℓ} where
  pub do_swap : (ℕ → A) → ℕ → ℕ → ℕ → A
  do_swap array a_idx b_idx k =
      if a_idx == k then array b_idx else if b_idx == k then array a_idx else array k

module _ {ℓ} {A : Type ℓ} (compare : A → A → ℤ) where
  -- `do_compare` of the elements is positive.
  unfoldable pub above : A → A → Bool
  above a b = ltb_ℤ (pos 0) (compare a b)

  -- `if (child <= cnt && do_compare (array, child, max, ...) > 0) max = child;`
  pub larger : (ℕ → A) → ℕ → ℕ → ℕ → ℕ
  larger array cnt max child =
      if leb child cnt && above (array child) (array max) then child else max

  -- The index of the largest element among `i` and its children.
  pub max_child : (ℕ → A) → ℕ → ℕ → ℕ
  max_child array i cnt =
      let left = 2 * i % 2 ^ 32 in
      let right = (2 * i + 1) % 2 ^ 32 in
      let max = larger array cnt i left in larger array cnt max right

  -- `none` means that the fuel ran out: each round moves down the heap.
  pub heapify : ℕ → (ℕ → A) → ℕ → ℕ → Option (ℕ → A)
  heapify zero array i cnt = none
  heapify (suc fuel) array i cnt =
      let max = max_child array i cnt in
      let rest = heapify fuel (do_swap array i max) max cnt in if max == i then some array else rest

  -- `for (i = cnt / 2; i > 0; i--)`
  pub build_loop : ℕ → (ℕ → A) → ℕ → Option (ℕ → A)
  build_loop zero array cnt = some array
  build_loop (suc i) array cnt = elim (heapify (cnt + 1) array (suc i) cnt) [
    | none ↦ none
    | some array' ↦ build_loop i array' cnt
  ]

  -- `for (i = cnt; i > 1; i--)`
  pub sort_loop : ℕ → (ℕ → A) → Option (ℕ → A)
  sort_loop zero array = some array
  sort_loop (suc zero) array = some array
  sort_loop (suc (suc i)) array = elim (heapify (i + 2) (do_swap array 1 (suc (suc i))) 1 (suc i)) [
    | none ↦ none
    | some array' ↦ sort_loop (suc i) array'
  ]

  pub sort : (ℕ → A) → ℕ → Option (ℕ → A)
  sort array cnt = elim (build_loop (cnt / 2) array cnt) [
    | none ↦ none
    | some heap ↦ sort_loop cnt heap
  ]

module _ {ℓ κ} {K : Type κ} {A : Type ℓ} (compare : K → A → ℤ) where
  -- The loop of `binary_search`, by the indices of `first` and `last`; outside, `none` means that the
  -- fuel ran out, and inside that nothing matches.
  pub search_loop : ℕ → K → (ℕ → A) → ℕ → ℕ → Option (Option ℕ)
  search_loop zero key array first last = none
  search_loop (suc fuel) key array first last =
      let middle = first + (last - first) / 2 in
      let lower = search_loop fuel key array first middle in
      let upper = search_loop fuel key array (middle + 1) last in
      if ltb first last
      then if ltb_ℤ (compare key (array middle)) (pos 0)
        then lower
        else if ltb_ℤ (pos 0) (compare key (array middle))
        then upper
        else some (some middle)
      else some none

  pub binary_search : K → (ℕ → A) → ℕ → Option (Option ℕ)
  binary_search key array cnt = search_loop (cnt + 1) key array 0 cnt
