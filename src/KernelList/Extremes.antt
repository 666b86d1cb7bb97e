-- ===== src/KernelList/Extremes.antt =====
-- `list_max` and `list_min` of pintos/src/lib/kernel/list.c with a comparison that is a strict weak order.
use mathlib.Core.Path.{subst}
use sogang_pint_os.Common.{
  ℕ, zero, suc, ◌≡◌, refl, sym, inl, inr, Bool, false, some, List, [], ◌∷◌, Bool-cases, get_elem?,
}
use sogang_pint_os.Common.All.{All}
use sogang_pint_os.KernelList.{list_max, list_min, max_loop, min_loop}
use sogang_pint_os.KernelList.Order.{IsOrder}

module _ {ℓ} {A : Type ℓ} {less : A → A → Bool} (order : IsOrder less) where
  not_below_self : (a : A) → less a a ≡ false
  not_below_self a = elim (Bool-cases (less a a)) [ inl e ↦ order.asym a a e | inr e ↦ e ]

  max_loop_lem :
      (max : A) (xs : List A)
      → (less (max_loop less max xs) max ≡ false)
        × All (λ x. less (max_loop less max xs) x ≡ false) xs
  unfolding max_loop
  max_loop_lem max [] = (not_below_self max, tt)
  max_loop_lem max (e ∷ es) = elim (Bool-cases (less max e)) [
    | inl up ↦
        let rest = max_loop_lem e es in
        let same : max_loop less max (e ∷ es) ≡ max_loop less e es = rw up refl in
        subst (λ (r : A). (less r max ≡ false) × All (λ x. less r x ≡ false) (e ∷ es)) (sym same)
          (order.trans max e (max_loop less e es) (order.asym max e up) rest.0, rest)
    | inr stay ↦
        let rest = max_loop_lem max es in
        let same : max_loop less max (e ∷ es) ≡ max_loop less max es = rw stay refl in
        subst (λ (r : A). (less r max ≡ false) × All (λ x. less r x ≡ false) (e ∷ es)) (sym same)
          (rest.0, (order.trans e max (max_loop less max es) stay rest.0, rest.1))
  ]

  max_loop_place :
      (max : A) (xs : List A) → (i : ℕ) × (get_elem? (max ∷ xs) i ≡ some (max_loop less max xs))
  unfolding max_loop
  max_loop_place max [] = (0, refl)
  max_loop_place max (e ∷ es) = elim (Bool-cases (less max e)) [
    | inl up ↦ let (i, is) = max_loop_place e es in rw up (suc i, is)
    | inr stay ↦ rw stay (past (max_loop_place max es))
  ]
    where
      past :
          (i : ℕ) × (get_elem? (max ∷ es) i ≡ some (max_loop less max es))
          → (i : ℕ) × (get_elem? (max ∷ e ∷ es) i ≡ some (max_loop less max es))
      past (zero, is) = (zero, is)
      past (suc i, is) = (suc (suc i), is)

  -- `list_max` of a list that is not empty gives an element of it, and that is less than no element.
  list_max_lem :
      (x : A) (xs : List A)
      → (m : A) × (list_max less (x ∷ xs) ≡ some m)
        × ((i : ℕ) × (get_elem? (x ∷ xs) i ≡ some m))
        × All (λ y. less m y ≡ false) (x ∷ xs)
  unfolding list_max
  list_max_lem x xs = (max_loop less x xs, refl, max_loop_place x xs, max_loop_lem x xs)

  min_loop_lem :
      (min : A) (xs : List A)
      → (less min (min_loop less min xs) ≡ false)
        × All (λ x. less x (min_loop less min xs) ≡ false) xs
  unfolding min_loop
  min_loop_lem min [] = (not_below_self min, tt)
  min_loop_lem min (e ∷ es) = elim (Bool-cases (less e min)) [
    | inl down ↦
        let rest = min_loop_lem e es in
        let same : min_loop less min (e ∷ es) ≡ min_loop less e es = rw down refl in
        subst (λ (r : A). (less min r ≡ false) × All (λ x. less x r ≡ false) (e ∷ es)) (sym same)
          (order.trans (min_loop less e es) e min rest.0 (order.asym e min down), rest)
    | inr stay ↦
        let rest = min_loop_lem min es in
        let same : min_loop less min (e ∷ es) ≡ min_loop less min es = rw stay refl in
        subst (λ (r : A). (less min r ≡ false) × All (λ x. less x r ≡ false) (e ∷ es)) (sym same)
          (rest.0, (order.trans (min_loop less min es) min e rest.0 stay, rest.1))
  ]

  min_loop_place :
      (min : A) (xs : List A) → (i : ℕ) × (get_elem? (min ∷ xs) i ≡ some (min_loop less min xs))
  unfolding min_loop
  min_loop_place min [] = (0, refl)
  min_loop_place min (e ∷ es) = elim (Bool-cases (less e min)) [
    | inl down ↦ let (i, is) = min_loop_place e es in rw down (suc i, is)
    | inr stay ↦ rw stay (past (min_loop_place min es))
  ]
    where
      past :
          (i : ℕ) × (get_elem? (min ∷ es) i ≡ some (min_loop less min es))
          → (i : ℕ) × (get_elem? (min ∷ e ∷ es) i ≡ some (min_loop less min es))
      past (zero, is) = (zero, is)
      past (suc i, is) = (suc (suc i), is)

  -- `list_min` of a list that is not empty gives an element of it, and no element is less than that.
  list_min_lem :
      (x : A) (xs : List A)
      → (m : A) × (list_min less (x ∷ xs) ≡ some m)
        × ((i : ℕ) × (get_elem? (x ∷ xs) i ≡ some m))
        × All (λ y. less y m ≡ false) (x ∷ xs)
  unfolding list_min
  list_min_lem x xs = (min_loop less x xs, refl, min_loop_place x xs, min_loop_lem x xs)
