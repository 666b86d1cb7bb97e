-- ===== src/KernelList/Order.antt =====
-- `list_insert_ordered` of pintos/src/lib/kernel/list.c with a comparison that is a strict weak order.
use mathlib.Core.Path.{subst₂}
use mathlib.Core.List.{Perm, perm_middle}
use sogang_pint_os.Common.{
  ◌≡◌, ◌≢◌, refl, ap, sym, inl, inr, Bool, true, false, List, [], ◌∷◌, ◌++◌, Bool-cases,
}
use sogang_pint_os.Common.All.{All, Away, Distinct}
use sogang_pint_os.KernelList.{list_insert_ordered}

-- What list.c asks of a `list_less_func`: a strict order whose incomparability is transitive.
pub record IsOrder {ℓ} {A : Type ℓ} (less : A → A → Bool) : Type ℓ where
  pub asym : (a b : A) → less a b ≡ true → less b a ≡ false
  pub trans : (a b c : A) → less b a ≡ false → less c b ≡ false → less c a ≡ false

module _ {ℓ} {A : Type ℓ} (less : A → A → Bool) where
  -- No element of the list is below `x`.
  abbrev pub Below : A → List A → Type 0
  Below x [] = Unit
  Below x (y ∷ ys) = (less y x ≡ false) × Below x ys

  -- In nondecreasing order.
  abbrev pub IsSorted : List A → Type 0
  IsSorted [] = Unit
  IsSorted (x ∷ xs) = Below x xs × IsSorted xs

module _ {ℓ} {A : Type ℓ} {less : A → A → Bool} (order : IsOrder less) where
  pub Below-trans : (a b : A) (xs : List A) → less b a ≡ false → Below less b xs → Below less a xs
  Below-trans a b [] h below = tt
  Below-trans a b (x ∷ xs) h below = (order.trans a b x h below.0, Below-trans a b xs h below.1)

  Below-insert :
      (a elem : A) (xs : List A)
      → less elem a ≡ false
      → Below less a xs
      → Below less a (list_insert_ordered less elem xs)
  unfolding list_insert_ordered
  Below-insert a elem [] h below = (h, tt)
  Below-insert a elem (x ∷ xs) h below = elim (Bool-cases (less elem x)) [
    | inl e ↦ rw e (h, below)
    | inr e ↦ rw e (below.0, Below-insert a elem xs h below.1)
  ]

  -- Inserting into a sorted list leaves it sorted.
  pub insert_ordered-IsSorted :
      (elem : A) (xs : List A) → IsSorted less xs → IsSorted less (list_insert_ordered less elem xs)
  unfolding list_insert_ordered
  insert_ordered-IsSorted elem [] s = (tt, tt)
  insert_ordered-IsSorted elem (x ∷ xs) s = elim (Bool-cases (less elem x)) [
    | inl e ↦ rw e ((order.asym elem x e, Below-trans elem x xs (order.asym elem x e) s.0), s)
    | inr e ↦ rw e (Below-insert x elem xs e s.0, insert_ordered-IsSorted elem xs s.1)
  ]

module _ {ℓ} {A : Type ℓ} (less : A → A → Bool) where
  -- The new element is below none of these.
  abbrev pub Passed : A → List A → Type 0
  Passed elem [] = Unit
  Passed elem (x ∷ xs) = (less elem x ≡ false) × Passed elem xs

  -- The new element is below the first of these, if there is one.
  abbrev pub Stops : A → List A → Type 0
  Stops elem [] = Unit
  Stops elem (x ∷ xs) = less elem x ≡ true

  -- `list_insert_ordered` cuts any list in two around the new element: every element before it is one
  -- that it is not below, so it goes behind its equals, and the first element after it, if there is
  -- one, is one that it is below. Nothing is lost or moved.
  pub insert_ordered_split :
      (elem : A) (xs : List A)
      → (before : List A) × (after : List A) × (xs ≡ before ++ after)
        × (list_insert_ordered less elem xs ≡ before ++ (elem ∷ after))
        × Passed elem before
        × Stops elem after
  unfolding list_insert_ordered
  insert_ordered_split elem [] = ([], [], refl, refl, tt, tt)
  insert_ordered_split elem (x ∷ xs) = elim (Bool-cases (less elem x)) [
    | inl e ↦ ([], x ∷ xs, refl, rw e, tt, e)
    | inr e ↦
        let (before, after, cut, put, passed, stops) = insert_ordered_split elem xs in
        (x ∷ before, after, ap (λ l. x ∷ l) cut, rw e (ap (λ l. x ∷ l) put), (e, passed), stops)
  ]

  insert_ordered_perm :
      (elem : A) (xs : List A) → Perm (list_insert_ordered less elem xs) (elem ∷ xs)
  insert_ordered_perm elem xs =
      let (before, after, cut, put, _, _) = insert_ordered_split elem xs in
      subst₂ Perm (sym put) (ap (λ l. elem ∷ l) (sym cut)) (perm_middle before after)

  pub insert_ordered-All {κ} :
      (P : A → Type κ) (elem : A) (xs : List A)
      → P elem
      → All P xs
      → All P (list_insert_ordered less elem xs)
  unfolding list_insert_ordered
  insert_ordered-All P elem [] p all = (p, tt)
  insert_ordered-All P elem (x ∷ xs) p all = elim (Bool-cases (less elem x)) [
    | inl e ↦ rw e (p, all)
    | inr e ↦ rw e (all.0, insert_ordered-All P elem xs p all.1)
  ]

  pub insert_ordered-Distinct :
      (elem : A) (xs : List A)
      → Away elem xs
      → Distinct xs
      → Distinct (list_insert_ordered less elem xs)
  unfolding list_insert_ordered
  insert_ordered-Distinct elem [] away d = (tt, tt)
  insert_ordered-Distinct elem (x ∷ xs) away d = elim (Bool-cases (less elem x)) [
    | inl e ↦ rw e (away, d)
    | inr e ↦ rw e (
      insert_ordered-All (λ k. x ≢ k) elem xs (λ e'. away.0 (sym e')) d.0,
      insert_ordered-Distinct elem xs away.1 d.1,
    )
  ]
