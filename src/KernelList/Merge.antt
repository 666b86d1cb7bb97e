-- ===== src/KernelList/Merge.antt =====
-- The parts of `list_sort` of pintos/src/lib/kernel/list.c: `find_end_of_run` and `inplace_merge`.
use mathlib.Core.List.{Perm, perm_middle, append-nil}
use mathlib.Core.List.Perm
use native.Mathlib.Nat.{zero-add}
use sogang_pint_os.Common.{
  ℕ, ◌+◌, ◌≤◌, ◌≡◌, refl, ap, inl, inr, Bool, true, false, List, [], ◌∷◌, ◌++◌, Bool-cases,
  if◌then◌else◌, arith, length,
}
use sogang_pint_os.KernelList.{find_end_of_run, inplace_merge}
use sogang_pint_os.KernelList.Order.{IsOrder, IsSorted, Below, Below-trans}

module _ {ℓ} {A : Type ℓ} (less : A → A → Bool) where
  -- How often an element of the list is less than the one before it.
  abbrev pub descents_from : A → List A → ℕ
  descents_from a [] = 0
  descents_from a (b ∷ bs) = (if less b a then 1 else 0) + descents_from b bs

  abbrev pub descents : List A → ℕ
  descents [] = 0
  descents (a ∷ as') = descents_from a as'

  pub descents_from-lt-length : (a : A) (xs : List A) → descents_from a xs ≤ length xs
  descents_from-lt-length a [] = omega arith
  descents_from-lt-length a (b ∷ bs) = ground (arith, descents_from-lt-length b bs)

  descents_from-append :
      (a : A) (xs ys : List A) → descents_from a (xs ++ ys) ≤ descents_from a xs + 1 + descents ys
  descents_from-append a [] [] = omega arith
  descents_from-append a [] (y ∷ ys) = ground arith
  descents_from-append a (x ∷ xs) ys = omega (arith, descents_from-append x xs ys)

  pub descents-append : (xs ys : List A) → descents (xs ++ ys) ≤ descents xs + 1 + descents ys
  descents-append [] ys = omega arith
  descents-append (x ∷ xs) ys = descents_from-append x xs ys

  abbrev pub is_empty : List A → Bool
  is_empty [] = true
  is_empty (x ∷ xs) = false

  -- A run and what is behind it: the run has no descent, and behind it stands one.
  pub record RunEnd (a : A) (bs : List A) (out : List A × List A) : Type ℓ where
    pub whole : out.0 ++ out.1 ≡ a ∷ bs
    pub rising : descents out.0 ≡ 0
    pub starts : (t : List A) × (out.0 ≡ a ∷ t)
    pub behind : descents_from a bs ≡ (if is_empty out.1 then 0 else 1 + descents out.1)

  pub find_end_of_run_lem : (a : A) (bs : List A) → RunEnd a bs (find_end_of_run less a bs)
  unfolding find_end_of_run
  find_end_of_run_lem a [] = record {
    whole = refl;
    rising = refl;
    starts = ([], refl);
    behind = refl;
  }
  find_end_of_run_lem a (b ∷ bs) = elim (Bool-cases (less b a)) [
    | inl down ↦
        rw down (record { whole = refl; rising = refl; starts = ([], refl); behind = rw down refl })
    | inr up ↦ rw up (longer up (find_end_of_run less b bs) (find_end_of_run_lem b bs))
  ]
    where
      longer :
          less b a ≡ false
          → (out : List A × List A) → RunEnd b bs out
          → RunEnd a (b ∷ bs) (a ∷ out.0, out.1)
      longer up out r = record {
        whole = ap (λ l. a ∷ l) r.whole;
        rising = no_descent out.0 r.starts r.rising;
        starts = (out.0, refl);
        behind = rw (up, zero-add) r.behind;
      }
        where
          no_descent :
              (xs : List A) → (t : List A) × (xs ≡ b ∷ t) → descents xs ≡ 0 → descents (a ∷ xs) ≡ 0
          no_descent xs (t, e) zero_left = rw (e, up, zero-add) (rw e at zero_left)

module _ {ℓ} {A : Type ℓ} (less : A → A → Bool) where
  merge_step :
      (x : A) (xs : List A) (y : A) (ys : List A)
      → inplace_merge less (x ∷ xs) (y ∷ ys) ≡ (
          if less y x
          then y ∷ inplace_merge less (x ∷ xs) ys
          else x ∷ inplace_merge less xs (y ∷ ys))
  unfolding inplace_merge
  merge_step x xs y ys = ground arith

module _ {ℓ} {A : Type ℓ} {less : A → A → Bool} (order : IsOrder less) where
  rising-Below :
      (a : A) (xs : List A) → descents_from less a xs ≡ 0 → Below less a xs × IsSorted less xs
  rising-Below a [] e = (tt, tt)
  rising-Below a (b ∷ bs) e = elim (Bool-cases (less b a)) [
    | inl down ↦
        absurd (let bad : 1 + descents_from less b bs ≡ 0 = rw down at e in omega (arith, bad))
    | inr up ↦
        let rest = rising-Below b bs (rw (up, zero-add) at e) in
        ((up, Below-trans order a b bs up rest.0), rest)
  ]

  -- A list with no descent is sorted, and a sorted list has none.
  pub rising-IsSorted : (xs : List A) → descents less xs ≡ 0 → IsSorted less xs
  rising-IsSorted [] e = tt
  rising-IsSorted (a ∷ xs) e = rising-Below a xs e

  sorted_from_rising :
      (a : A) (xs : List A) → Below less a xs → IsSorted less xs → descents_from less a xs ≡ 0
  sorted_from_rising a [] below s = refl
  sorted_from_rising a (b ∷ bs) below s = rw (below.0, zero-add) (sorted_from_rising b bs s.0 s.1)

  pub IsSorted-rising : (xs : List A) → IsSorted less xs → descents less xs ≡ 0
  IsSorted-rising [] s = refl
  IsSorted-rising (a ∷ xs) s = sorted_from_rising a xs s.0 s.1

  merge-Below :
      (a : A) (xs ys : List A)
      → Below less a xs
      → Below less a ys
      → Below less a (inplace_merge less xs ys)
  unfolding inplace_merge
  merge-Below a [] ys bx by' = by'
  merge-Below a (x ∷ xs) [] bx by' = bx
  merge-Below a (x ∷ xs) (y ∷ ys) bx by' = elim (Bool-cases (less y x)) [
    | inl e ↦ rw (merge_step less x xs y ys, e) (by'.0, merge-Below a (x ∷ xs) ys bx by'.1)
    | inr e ↦ rw (merge_step less x xs y ys, e) (bx.0, merge-Below a xs (y ∷ ys) bx.1 by')
  ]

  -- Merging two sorted runs gives a sorted list.
  pub merge-IsSorted :
      (xs ys : List A)
      → IsSorted less xs
      → IsSorted less ys
      → IsSorted less (inplace_merge less xs ys)
  unfolding inplace_merge
  merge-IsSorted [] ys sx sy = sy
  merge-IsSorted (x ∷ xs) [] sx sy = sx
  merge-IsSorted (x ∷ xs) (y ∷ ys) sx sy = elim (Bool-cases (less y x)) [
    | inl e ↦
        let under = order.asym y x e in
        rw (merge_step less x xs y ys, e)
          (
            merge-Below y (x ∷ xs) ys (under, Below-trans order y x xs under sx.0) sy.0,
            merge-IsSorted (x ∷ xs) ys sx sy.1,
          )
    | inr e ↦
        rw (merge_step less x xs y ys, e)
          (
            merge-Below x xs (y ∷ ys) sx.0 (e, Below-trans order x y ys e sy.0),
            merge-IsSorted xs (y ∷ ys) sx.1 sy,
          )
  ]

module _ {ℓ} {A : Type ℓ} (less : A → A → Bool) where
  pub merge-perm : (xs ys : List A) → Perm (inplace_merge less xs ys) (xs ++ ys)
  unfolding inplace_merge
  merge-perm [] ys = Perm.refl ys
  merge-perm (x ∷ xs) [] = rw (append-nil xs) (Perm.refl (x ∷ xs))
  merge-perm (x ∷ xs) (y ∷ ys) = elim (Bool-cases (less y x)) [
    | inl e ↦
        rw (merge_step less x xs y ys, e)
          (Perm.trans (Perm.cons y (merge-perm (x ∷ xs) ys)) (Perm.symm (perm_middle (x ∷ xs) ys)))
    | inr e ↦ rw (merge_step less x xs y ys, e) (Perm.cons x (merge-perm xs (y ∷ ys)))
  ]

  pub length-inplace_merge : (a b : List A) → length a + length b ≡ length (inplace_merge less a b)
  unfolding inplace_merge
  length-inplace_merge [] b = omega arith
  length-inplace_merge (a0 ∷ a) [] = omega arith
  length-inplace_merge (a0 ∷ a) (b0 ∷ b) =
      ground (arith, length-inplace_merge (a0 ∷ a) b, length-inplace_merge a (b0 ∷ b))
