-- ===== src/Thread/Placed.antt =====
-- The place of a thread in a list in order of priority, said without the code's insertion.
use mathlib.Core.Path.{subst, subst₂}
use mathlib.Core.List.{Perm, perm_middle}
use sogang_pint_os.Common.{ℕ, ◌≡◌, sym, ap, true, List, [], ◌∷◌, ◌++◌, arith}
use sogang_pint_os.Common.Int.{ℤ, ltb_ℤ, ◌≤ℤ◌}
use sogang_pint_os.Common.All.{All}
use sogang_pint_os.KernelList.{list_insert_ordered}
use sogang_pint_os.KernelList.Order.{IsSorted, Below, Passed, Stops, insert_ordered_split}
use sogang_pint_os.Thread.State.{cmp_priority_thread}

-- List `ys` is `xs` with `t` behind every thread of at least its priority, and before every thread of a
-- lower one.
pub record Placed (p : ℕ → ℤ) (t : ℕ) (xs ys : List ℕ) : Type 0 where
  pub before : List ℕ
  pub after : List ℕ
  pub cut : xs ≡ before ++ after
  pub put : ys ≡ before ++ (t ∷ after)
  pub ahead : All (λ k. p t ≤ℤ p k) before
  pub behind : All (λ k. ltb_ℤ (p k) (p t) ≡ true) after

ahead-of_Passed :
    (p : ℕ → ℤ) (t : ℕ) (xs : List ℕ)
    → Passed (cmp_priority_thread p) t xs
    → All (λ k. p t ≤ℤ p k) xs
ahead-of_Passed p t [] h = tt
ahead-of_Passed p t (x ∷ xs) h = (ground (arith, h.0), ahead-of_Passed p t xs h.1)

behind-of_Below :
    (p : ℕ → ℤ) (t x : ℕ) (xs : List ℕ)
    → cmp_priority_thread p t x ≡ true
    → Below (cmp_priority_thread p) x xs
    → All (λ k. ltb_ℤ (p k) (p t) ≡ true) xs
behind-of_Below p t x [] h below = tt
behind-of_Below p t x (y ∷ ys) h below =
    (ground (arith, h, below.0), behind-of_Below p t x ys h below.1)

behind-of_Stops :
    (p : ℕ → ℤ) (t : ℕ) (xs : List ℕ)
    → IsSorted (cmp_priority_thread p) xs
    → Stops (cmp_priority_thread p) t xs
    → All (λ k. ltb_ℤ (p k) (p t) ≡ true) xs
behind-of_Stops p t [] sorted h = tt
behind-of_Stops p t (x ∷ xs) sorted h = (ground (arith, h), behind-of_Below p t x xs h sorted.0)

IsSorted-behind :
    (p : ℕ → ℤ) (xs ys : List ℕ)
    → IsSorted (cmp_priority_thread p) (xs ++ ys)
    → IsSorted (cmp_priority_thread p) ys
IsSorted-behind p [] ys h = h
IsSorted-behind p (x ∷ xs) ys h = IsSorted-behind p xs ys h.1

-- `list_insert_ordered` finds that place.
pub insert_ordered-Placed :
    (p : ℕ → ℤ) (t : ℕ) (xs : List ℕ)
    → IsSorted (cmp_priority_thread p) xs
    → Placed p t xs (list_insert_ordered (cmp_priority_thread p) t xs)
insert_ordered-Placed p t xs sorted =
    let (before, after, cut, put, passed, stops) =
      insert_ordered_split (cmp_priority_thread p) t xs in
    record {
      before = before;
      after = after;
      cut = cut;
      put = put;
      ahead = ahead-of_Passed p t before passed;
      behind =
          behind-of_Stops p t after
            (IsSorted-behind p before after (subst (IsSorted (cmp_priority_thread p)) cut sorted))
            stops;
    }

pub Perm-of_Placed : {p : ℕ → ℤ} {t : ℕ} {xs ys : List ℕ} → Placed p t xs ys → Perm ys (t ∷ xs)
Perm-of_Placed {p} {t} placed =
    subst₂ Perm (sym placed.put) (ap (λ l. t ∷ l) (sym placed.cut))
      (perm_middle placed.before placed.after)
