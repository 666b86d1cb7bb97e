-- ===== src/Frame/Clock.antt =====
-- The clock of pintos/src/vm/frame.c stays on the list while pages come and go.
use sogang_pint_os.Common.{
  ℕ, ◌≡◌, ◌≢◌, ◌⊎◌, refl, sym, ◌∙◌, inl, inr, false, List, [], ◌∷◌, ◌++◌, ◌==◌, arith, Bool-cases,
  length, ◌<◌,
}
use sogang_pint_os.Common.All.{Distinct}
use sogang_pint_os.Frame.{
  Position, null, elem, tail, Frame, without, first, list_next, points_at, add_page, del_page,
  get_next,
}

abbrev pub Member : ℕ → List ℕ → Type 0
Member a [] = ⊥
Member a (k ∷ ks) = (a ≡ k) ⊎ Member a ks

-- The clock points at an element of the list, if at any.
abbrev pub OnList : Position → List ℕ → Type 0
OnList null l = Unit
OnList (elem a) l = Member a l
OnList tail l = Unit

later : (p : Position) (k : ℕ) (l : List ℕ) → OnList p l → OnList p (k ∷ l)
later null k l on = tt
later (elem a) k l on = inr on
later tail k l on = tt

list_next-OnList : (a : ℕ) (l : List ℕ) → OnList (list_next a l) l
list_next-OnList a [] = tt
list_next-OnList a (k ∷ ks) = elim (Bool-cases (a == k)) [
  | inl e ↦ rw e (later (first ks) k ks (first-OnList ks))
  | inr e ↦ rw e (later (list_next a ks) k ks (list_next-OnList a ks))
]
  where
    first-OnList : (l : List ℕ) → OnList (first l) l
    first-OnList [] = tt
    first-OnList (k ∷ l) = inl refl

list_next-not_null : (a : ℕ) (l : List ℕ) → list_next a l ≢ null
list_next-not_null a [] e = cc
list_next-not_null a (k ∷ ks) e = elim (Bool-cases (a == k)) [
  | inl t ↦ at_first ks (sym (rw t) ∙ e)
  | inr f ↦ list_next-not_null a ks (sym (rw f) ∙ e)
]
  where
    at_first : (l : List ℕ) → first l ≢ null
    at_first [] q = cc
    at_first (k ∷ l) q = cc

-- The clock moves to an element of the list, unless that is empty.
pub get_next_lem :
    (l : List ℕ) (p : Position) → 0 < length l → (e : ℕ) × (get_next l p ≡ elem e) × Member e l
unfolding get_next
get_next_lem [] p lt = absurd (omega arith)
get_next_lem (k ∷ ks) null lt = (k, refl, inl refl)
get_next_lem (k ∷ ks) tail lt = (k, refl, inl refl)
get_next_lem (k ∷ ks) (elem a) lt =
    go (list_next a (k ∷ ks)) (list_next-OnList a (k ∷ ks)) (list_next-not_null a (k ∷ ks))
  where
    go :
        (q : Position)
        → OnList q (k ∷ ks)
        → q ≢ null
        → (e : ℕ) × ((elim q [ null ↦ null | elem b ↦ elem b | tail ↦ elem k ]) ≡ elem e)
          × Member e (k ∷ ks)
    go null on ne = absurd (ne refl)
    go (elem b) on ne = (b, refl, on)
    go tail on ne = (k, refl, inl refl)

Member-without : (a b : ℕ) (l : List ℕ) → Member a l → b ≢ a → Member a (without b l)
Member-without a b [] m ne = m
Member-without a b (k ∷ ks) (inl e) ne =
    let other : (b == k) ≡ false = ground arith in rw other (inl e)
Member-without a b (k ∷ ks) (inr m) ne = elim (Bool-cases (b == k)) [
  | inl e ↦ rw e m
  | inr e ↦ rw e (inr (Member-without a b ks m ne))
]

-- The element behind a removed one is still there, as no element is on the list twice.
list_next-without : (a : ℕ) (l : List ℕ) → Distinct l → OnList (list_next a l) (without a l)
list_next-without a [] d = tt
list_next-without a (k ∷ ks) d = elim (Bool-cases (a == k)) [
  | inl e ↦ rw e (at_first ks)
  | inr e ↦ rw e (later (list_next a ks) k (without a ks) (list_next-without a ks d.1))
]
  where
    at_first : (l : List ℕ) → OnList (first l) l
    at_first [] = tt
    at_first (k ∷ l) = inl refl

-- Adding a page and deleting one leave the clock on the list, also where it points at the page that is
-- deleted: then it moves on to the next one.
lru_clock-OnList :
    (page : ℕ) (s : Frame)
    → Distinct s.list_lru
    → OnList s.lru_clock s.list_lru
    → OnList (add_page page s).lru_clock (add_page page s).list_lru
      × OnList (del_page page s).lru_clock (del_page page s).list_lru
unfolding add_page del_page
lru_clock-OnList page s d on = (
  added s.lru_clock s.list_lru on,
  elim (Bool-cases (points_at page s.lru_clock)) [
    | inl e ↦ rw e (list_next-without page s.list_lru d)
    | inr e ↦ rw e (deleted s.lru_clock on e)
  ],
)
  where
    more : (a : ℕ) (l : List ℕ) → Member a l → Member a (l ++ page ∷ [])
    more a [] m = absurd m
    more a (k ∷ ks) (inl e) = inl e
    more a (k ∷ ks) (inr m) = inr (more a ks m)

    added : (p : Position) (l : List ℕ) → OnList p l → OnList p (l ++ page ∷ [])
    added null l on = tt
    added (elem a) l on = more a l on
    added tail l on = tt

    deleted :
        (p : Position)
        → OnList p s.list_lru
        → points_at page p ≡ false
        → OnList p (without page s.list_lru)
    deleted null on e = tt
    deleted (elem a) on e = Member-without a page s.list_lru on (ground arith)
    deleted tail on e = tt
