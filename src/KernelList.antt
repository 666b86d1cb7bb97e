-- ===== src/KernelList.antt =====
-- Ordered operations of the kernel's lists, pintos/src/lib/kernel/list.c, on the sequence of elements
-- that a list holds. `less` is the caller's `list_less_func` with its `aux`.
pub mod Order
pub mod Extremes
pub mod Merge
pub mod Sort
use sogang_pint_os.Common.{
  ℕ, zero, suc, ◌+◌, ◌<◌, Bool, true, false, not, ◌&&◌, Option, none, some, List, [], ◌∷◌, ◌++◌,
  if◌then◌else◌, length, ltb,
}

module _ {ℓ} {A : Type ℓ} (less : A → A → Bool) where
  -- `list_insert_ordered`: before the first element that is greater.
  pub list_insert_ordered : A → List A → List A
  list_insert_ordered elem [] = elem ∷ []
  list_insert_ordered elem (e ∷ es) =
      if less elem e then elem ∷ e ∷ es else e ∷ list_insert_ordered elem es

  -- The loops of `list_max` and `list_min`; a later element replaces only if it is better.
  pub max_loop : A → List A → A
  max_loop max [] = max
  max_loop max (e ∷ es) = max_loop (if less max e then e else max) es

  pub list_max : List A → Option A
  list_max [] = none
  list_max (e ∷ es) = some (max_loop e es)

  pub min_loop : A → List A → A
  min_loop min [] = min
  min_loop min (e ∷ es) = min_loop (if less e min then e else min) es

  pub list_min : List A → Option A
  list_min [] = none
  list_min (e ∷ es) = some (min_loop e es)

  -- `list_unique`: the elements that stay behind `elem`, and those moved to the duplicates.
  unfoldable unique_loop : A → List A → List A × List A
  unique_loop elem [] = (elem ∷ [], [])
  unique_loop elem (next ∷ es) =
      let same = unique_loop elem es in
      let other = unique_loop next es in
      if not (less elem next) && not (less next elem)
      then (same.0, next ∷ same.1)
      else (elem ∷ other.0, other.1)

  -- `none` is a null DUPLICATES.
  unfoldable list_unique : List A → Option (List A) → List A × Option (List A)
  list_unique [] duplicates = ([], duplicates)
  list_unique (e ∷ es) none = ((unique_loop e es).0, none)
  list_unique (e ∷ es) (some duplicates) =
      let (kept, removed) = unique_loop e es in (kept, some (duplicates ++ removed))

  -- `is_sorted`
  unfoldable sorted_loop : A → List A → Bool
  sorted_loop a [] = true
  sorted_loop a (b ∷ bs) = let rest = sorted_loop b bs in if less b a then false else rest

  unfoldable is_sorted : List A → Bool
  is_sorted [] = true
  is_sorted (a ∷ bs) = sorted_loop a bs

  -- `find_end_of_run` from `a` on: the run, and what is behind it.
  pub find_end_of_run : A → List A → List A × List A
  find_end_of_run a [] = (a ∷ [], [])
  find_end_of_run a (b ∷ bs) =
      let rest = find_end_of_run b bs in if less b a then (a ∷ [], b ∷ bs) else (a ∷ rest.0, rest.1)

  -- `inplace_merge`: an element of the second run goes before the first one of the first run that is
  -- greater, and on a tie the first run goes first.
  pub inplace_merge : List A → List A → List A
  inplace_merge [] ys = ys
  inplace_merge (x ∷ xs) [] = x ∷ xs
  inplace_merge (x ∷ xs) (y ∷ ys) = elim (less y x) [
    | true ↦ y ∷ inplace_merge (x ∷ xs) ys
    | false ↦ x ∷ inplace_merge xs (y ∷ ys)
  ]

  -- One pass of `list_sort` on fuel: adjacent runs are merged two by two. The number counts the runs
  -- that the pass puts out.
  pub sort_pass : ℕ → List A → List A × ℕ
  sort_pass zero xs = (xs, 0)
  sort_pass (suc fuel) [] = ([], 0)
  sort_pass (suc fuel) (a0 ∷ es) =
      let first = find_end_of_run a0 es in
      elim first.1 [
        | [] ↦ (first.0, 1)
        | a1b0 ∷ bs ↦
            let second = find_end_of_run a1b0 bs in
            let rest = sort_pass fuel second.1 in
            (inplace_merge first.0 second.0 ++ rest.0, rest.1 + 1)
      ]

  pub sort_loop : ℕ → List A → Option (List A)
  sort_loop zero xs = none
  sort_loop (suc fuel) xs =
      let pass = sort_pass (length xs) xs in
      elim (ltb 1 pass.1) [ true ↦ sort_loop fuel pass.0 | false ↦ some pass.0 ]

  -- `list_sort`: passes until one puts out at most one run. `none` stands for a fuel that ran out.
  pub list_sort : List A → Option (List A)
  list_sort xs = sort_loop (length xs + 1) xs
