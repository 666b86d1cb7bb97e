-- ===== src/Hash/Find.antt =====
-- `find_elem` and `list_remove` in a bucket of pintos/src/lib/kernel/hash.c.
use sogang_pint_os.Common.{
  ◌+◌, ◌≡◌, refl, sym, ◌∙◌, inl, inr, Bool, true, false, none, some, List, [], ◌∷◌, Bool-cases,
  if◌then◌else◌, arith, length, none-ne-some,
}
use sogang_pint_os.Common.All.{All}
use sogang_pint_os.KernelList.Order.{IsOrder}
use sogang_pint_os.Hash.{equal, find_elem, without}

module _ {ℓ} {A : Type ℓ} (less : A → A → Bool) where
  -- No two elements of a bucket are equal.
  abbrev pub Unique : List A → Type ℓ
  Unique [] = Unit
  Unique (x ∷ xs) = All (λ y. equal less x y ≡ false) xs × Unique xs

module _ {ℓ} {A : Type ℓ} {less : A → A → Bool} (order : IsOrder less) where
  not_below : (a b : A) → equal less a b ≡ true → (less a b ≡ false) × (less b a ≡ false)
  unfolding equal
  not_below a b e = elim (Bool-cases (less a b)) [
    | inl t ↦ absurd (clash (sym e ∙ rw t))
    | inr f ↦ elim (Bool-cases (less b a)) [
      | inl t ↦ absurd (clash (sym e ∙ rw (f, t)))
      | inr g ↦ (f, g)
    ]
  ]
    where
      clash : true ≡ false → ⊥
      clash q = cc

  both_ways : (a b : A) → less a b ≡ false → less b a ≡ false → equal less a b ≡ true
  unfolding equal
  both_ways a b f g = rw (f, g)

  pub equal_refl : (a : A) → equal less a a ≡ true
  equal_refl a = elim (Bool-cases (less a a)) [
    | inl t ↦ both_ways a a (order.asym a a t) (order.asym a a t)
    | inr f ↦ both_ways a a f f
  ]

  equal_sym : (a b : A) → equal less a b ≡ true → equal less b a ≡ true
  equal_sym a b e = both_ways b a (not_below a b e).1 (not_below a b e).0

  equal_trans : (a b c : A) → equal less a b ≡ true → equal less b c ≡ true → equal less a c ≡ true
  equal_trans a b c e f =
      both_ways a c (order.trans c b a (not_below b c f).0 (not_below a b e).0)
        (order.trans a b c (not_below a b e).1 (not_below b c f).1)

  -- If `a` and `b` are equal then they are equal to the same elements.
  equal_same : (a b x : A) → equal less a b ≡ true → equal less a x ≡ equal less b x
  equal_same a b x e = elim (Bool-cases (equal less a x)) [
    | inl t ↦ t ∙ sym (equal_trans b a x (equal_sym a b e) t)
    | inr f ↦ elim (Bool-cases (equal less b x)) [
      | inl t ↦ absurd (clash (sym f ∙ equal_trans a b x e t))
      | inr g ↦ f ∙ sym g
    ]
  ]
    where
      clash : false ≡ true → ⊥
      clash q = cc

  equal_flip : (a b : A) → equal less a b ≡ equal less b a
  unfolding equal
  equal_flip a b = elim (Bool-cases (less a b)) [
    | inl t ↦ elim (Bool-cases (less b a)) [ inl u ↦ rw (t, u) | inr u ↦ rw (t, u) ]
    | inr t ↦ elim (Bool-cases (less b a)) [ inl u ↦ rw (t, u) | inr u ↦ rw (t, u) ]
  ]

  -- What is equal to an element that is equal to none of the list is not found in it.
  pub find_elem-away :
      (e x : A) (l : List A)
      → All (λ y. equal less e y ≡ false) l
      → equal less e x ≡ true
      → find_elem less l x ≡ none
  unfolding find_elem
  find_elem-away e x [] away same = refl
  find_elem-away e x (y ∷ l) away same =
      rw (equal_flip y x, ← equal_same e x y same, away.0) (find_elem-away e x l away.1 same)

  pub away_of_none :
      (e : A) (l : List A) → find_elem less l e ≡ none → All (λ y. equal less e y ≡ false) l
  unfolding find_elem
  away_of_none e [] h = tt
  away_of_none e (y ∷ l) h = elim (Bool-cases (equal less y e)) [
    | inl t ↦ absurd (none-ne-some {a = y} (sym h ∙ rw t))
    | inr f ↦ (equal_flip e y ∙ f, away_of_none e l (sym (rw f) ∙ h))
  ]

  -- The bucket without `e` finds nothing that is equal to `e` and all else as before.
  pub find_elem-without :
      (e x : A) (l : List A)
      → Unique less l
      → find_elem less (without less l e) x ≡ (if equal less e x then none else find_elem less l x)
  unfolding find_elem without
  find_elem-without e x [] u = elim (Bool-cases (equal less e x)) [ inl t ↦ rw t | inr f ↦ rw f ]
  find_elem-without e x (hi ∷ l) u = elim (Bool-cases (equal less hi e)) [
    | inl t ↦
        rw (t, ← equal_same hi e x t)
          (elim (Bool-cases (equal less hi x)) [
            | inl s ↦ rw s (find_elem-away hi x l u.0 s)
            | inr s ↦ rw s
          ])
    | inr f ↦ elim (Bool-cases (equal less hi x)) [
      | inl s ↦ rw (f, s, equal_flip e x, ← equal_same hi x e s, f)
      | inr s ↦ rw (f, s) (find_elem-without e x l u.1)
    ]
  ]

  pub length-without :
      (e : A) (l : List A) {old : A}
      → find_elem less l e ≡ some old
      → length (without less l e) + 1 ≡ length l
  unfolding find_elem without
  length-without e [] h = absurd (none-ne-some h)
  length-without e (hi ∷ l) h = elim (Bool-cases (equal less hi e)) [
    | inl t ↦ rw t (omega arith)
    | inr f ↦ rw f (omega (arith, length-without e l (sym (rw f) ∙ h)))
  ]

  pub All-without : (P : A → Type 0) (e : A) (l : List A) → All P l → All P (without less l e)
  unfolding without
  All-without P e [] all = tt
  All-without P e (hi ∷ l) all = elim (Bool-cases (equal less hi e)) [
    | inl t ↦ rw t all.1
    | inr f ↦ rw f (all.0, All-without P e l all.1)
  ]

  pub Unique-without : (e : A) (l : List A) → Unique less l → Unique less (without less l e)
  unfolding without
  Unique-without e [] u = tt
  Unique-without e (hi ∷ l) u = elim (Bool-cases (equal less hi e)) [
    | inl t ↦ rw t u.1
    | inr f ↦ rw f (All-without (λ y. equal less hi y ≡ false) e l u.0, Unique-without e l u.1)
  ]

  -- Elements that are equal are found alike.
  pub find_elem_same :
      (a b : A) (l : List A) → equal less a b ≡ true → find_elem less l a ≡ find_elem less l b
  unfolding find_elem
  find_elem_same a b [] e = refl
  find_elem_same a b (y ∷ l) e =
      rw (equal_flip y a, equal_same a b y e, equal_flip b y, find_elem_same a b l e)
