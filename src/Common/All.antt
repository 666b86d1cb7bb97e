-- ===== src/Common/All.antt =====
-- Properties of every element of a list, by recursion on the list.
use mathlib.Core.Path.{subst}
use sogang_pint_os.Common.{◌≢◌, sym, List, [], ◌∷◌}

module _ {ℓ κ} {A : Type ℓ} (P : A → Type κ) where
  abbrev pub All : List A → Type κ
  All [] = Unit
  All (x ∷ xs) = P x × All xs

module _ {ℓ} {A : Type ℓ} where
  -- The element is none of the list.
  abbrev pub Away : A → List A → Type ℓ
  Away a = All (λ k. a ≢ k)

  abbrev pub Distinct : List A → Type ℓ
  Distinct [] = Unit
  Distinct (x ∷ xs) = Away x xs × Distinct xs

module _ {ℓ κ} {A : Type ℓ} {P : A → Type κ} where
  pub All-of : (xs : List A) → ((x : A) → P x) → All P xs
  All-of [] f = tt
  All-of (x ∷ xs) f = (f x, All-of xs f)

module _ {ℓ κ μ} {A : Type ℓ} {P : A → Type κ} {Q : A → Type μ} where
  pub All-mono : (xs : List A) → ((x : A) → P x → Q x) → All P xs → All Q xs
  All-mono [] f all = tt
  All-mono (x ∷ xs) f all = (f x all.0, All-mono xs f all.1)

  -- The same where one element is known to be away.
  pub All-mono-Away :
      (a : A) (xs : List A) → Away a xs → ((x : A) → a ≢ x → P x → Q x) → All P xs → All Q xs
  All-mono-Away a [] away f all = tt
  All-mono-Away a (x ∷ xs) away f all = (f x away.0 all.0, All-mono-Away a xs away.1 f all.1)

module _ {ℓ κ} {A : Type ℓ} (P : A → Type κ) where
  -- An element without the property is away from a list of elements that have it.
  pub Away-of_All : (a : A) (xs : List A) → ¬ P a → All P xs → Away a xs
  Away-of_All a [] lacks all = tt
  Away-of_All a (x ∷ xs) lacks all =
      ((λ e. lacks (subst P (sym e) all.0)), Away-of_All a xs lacks all.1)
