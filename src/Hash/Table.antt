-- ===== src/Hash/Table.antt =====
-- The buckets of the tables of pintos/src/lib/kernel/hash.c, and how `rehash` moves elements between them.
use sogang_pint_os.Common.{
  ℕ, zero, suc, ◌+◌, ◌-◌, ◌≤◌, ◌<◌, ◌≡◌, ◌≢◌, refl, sym, ap, ◌∙◌, inl, inr, Bool, true, false,
  Option, none, some, List, [], ◌∷◌, ltb, ◌==◌, Bool-cases, if◌then◌else◌, arith, length,
  length-append, ne→==_false, ==_refl,
}
use sogang_pint_os.Common.Bits.{bit_and-le_right}
use sogang_pint_os.Common.All.{All, All-mono}
use sogang_pint_os.KernelList.Order.{IsOrder}
use sogang_pint_os.Hash.{
  Hash, put_bucket, elems, equal, find_elem, find_bucket, push_front, move_bucket, move_loop,
  hash_find,
}
use sogang_pint_os.Hash.Find.{Unique, find_elem-away, away_of_none}

module _ {ℓ} {A : Type ℓ} (hash : A → ℕ) (less : A → A → Bool) where
  -- The bucket of index `i` holds what hashes to `i`, nothing twice.
  pub record IsBucket (h : Hash A) (i : ℕ) : Type ℓ where
    pub home : All (λ y. find_bucket hash h y ≡ i) (h.buckets i)
    pub unique : Unique less (h.buckets i)

  pub record IsTable (h : Hash A) : Type ℓ where
    pub positive : 0 < h.bucket_cnt
    pub bucket : (i : ℕ) → i < h.bucket_cnt → IsBucket h i

-- The number of elements in the buckets.
abbrev pub count {ℓ} : {A : Type ℓ} → Hash A → ℕ
count h = length (elems h.bucket_cnt 0 h.buckets)

module _ {ℓ} {A : Type ℓ} where
  -- What two searches find, the first before the second.
  abbrev pub first_of : Option A → Option A → Option A
  first_of none b = b
  first_of (some a) b = some a

  buckets-put_self : (i : ℕ) (l : List A) (h : Hash A) → (put_bucket i l h).buckets i ≡ l
  buckets-put_self i l h = rw (==_refl i)

  buckets-put_ne :
      {i k : ℕ} (l : List A) (h : Hash A) → i ≢ k → (put_bucket i l h).buckets k ≡ h.buckets k
  buckets-put_ne {i} {k} l h ne = rw (ne→==_false i k ne)

  elems-put_before :
      (n i j : ℕ) (l : List A) (h : Hash A)
      → i < j
      → elems n j (put_bucket i l h).buckets ≡ elems n j h.buckets
  elems-put_before zero i j l h lt = refl
  elems-put_before (suc n) i j l h lt =
      rw (ne→==_false i j (λ e. omega (arith, e)), elems-put_before n i (j + 1) l h (omega arith))

  -- Replacing bucket `i` changes the number of elements by the bucket's.
  length-elems-put :
      (n i j : ℕ) (l : List A) (h : Hash A)
      → j ≤ i
      → i < j + n
      → length (elems n j (put_bucket i l h).buckets) + length (h.buckets i)
        ≡ length (elems n j h.buckets) + length l
  length-elems-put zero i j l h le lt = absurd (omega arith)
  length-elems-put (suc n) i j l h le lt = elim (Bool-cases (i == j)) [
    | inl e ↦
        rw (e, elems-put_before n i (j + 1) l h (ground arith))
          (omega (
            arith,
            length-append l (elems n (j + 1) h.buckets),
            length-append (h.buckets j) (elems n (j + 1) h.buckets),
            ap (λ k. length (h.buckets k)) (same e),
          ))
    | inr e ↦ rw e (
        omega (
          arith,
          length-append (h.buckets j) (elems n (j + 1) (put_bucket i l h).buckets),
          length-append (h.buckets j) (elems n (j + 1) h.buckets),
          length-elems-put n i (j + 1) l h (ground arith) (omega arith),
        ))
  ]
    where
      same : (i == j) ≡ true → i ≡ j
      same e = ground arith

  pub count-put :
      (i : ℕ) (l : List A) (h : Hash A)
      → i < h.bucket_cnt
      → count (put_bucket i l h) + length (h.buckets i) ≡ count h + length l
  count-put i l h lt = length-elems-put h.bucket_cnt i 0 l h (omega arith) (omega arith)

pub length-elems_empty {ℓ} : (A : Type ℓ) (n j : ℕ) → length (elems {A = A} n j (λ k. [])) ≡ 0
length-elems_empty A zero j = refl
length-elems_empty A (suc n) j = length-elems_empty A n (j + 1)

module _ {ℓ} {A : Type ℓ} (hash : A → ℕ) where
  -- An element's bucket is one of the table's.
  pub find_bucket-lt : (h : Hash A) (e : A) → 0 < h.bucket_cnt → find_bucket hash h e < h.bucket_cnt
  unfolding find_bucket
  find_bucket-lt h e lt = omega (arith, bit_and-le_right (hash e) (h.bucket_cnt - 1))

  -- The index depends on the number of buckets only.
  find_bucket-put :
      (i : ℕ) (l : List A) (h : Hash A) (e : A)
      → find_bucket hash (put_bucket i l h) e ≡ find_bucket hash h e
  unfolding find_bucket
  find_bucket-put i l h e = refl

  size_push : (h : Hash A) (e : A) → (push_front hash e h).bucket_cnt ≡ h.bucket_cnt
  unfolding push_front
  size_push h e = refl

  pub elem_push : (h : Hash A) (e : A) → (push_front hash e h).elem_cnt ≡ h.elem_cnt
  unfolding push_front
  elem_push h e = refl

module _ {ℓ} {A : Type ℓ} (hash : A → ℕ) (less : A → A → Bool) where
  IsBucket-put :
      (k i : ℕ) (l : List A) (h : Hash A)
      → All (λ y. find_bucket hash h y ≡ i) ((put_bucket k l h).buckets i)
      → Unique less ((put_bucket k l h).buckets i)
      → IsBucket hash less (put_bucket k l h) i
  unfolding find_bucket
  IsBucket-put k i l h home unique = record { home = home; unique = unique }

module _ {ℓ} {A : Type ℓ} {hash : A → ℕ} {less : A → A → Bool} (order : IsOrder less)
    (respects : (a b : A) → equal less a b ≡ true → hash a ≡ hash b) where
  pub find_bucket_same :
      (h : Hash A) (a b : A) → equal less a b ≡ true → find_bucket hash h a ≡ find_bucket hash h b
  unfolding find_bucket
  find_bucket_same h a b e = rw (respects a b e)

  -- What a table finds once a bucket is replaced by one that finds `r` for what is equal to `e`.
  pub hash_find-put :
      (h : Hash A) (e : A) (l : List A) (r : Option A)
      → ((x : A)
          → find_elem less l x
            ≡ (if equal less e x then r else find_elem less (h.buckets (find_bucket hash h e)) x))
      → (x : A)
      → hash_find hash less (put_bucket (find_bucket hash h e) l h) x
        ≡ (if equal less e x then r else hash_find hash less h x)
  unfolding hash_find
  hash_find-put h e l r finds x = elim (Bool-cases (equal less e x)) [
    | inl t ↦
        rw
          (
            find_bucket-put hash (find_bucket hash h e) l h x,
            ← find_bucket_same h e x t,
            ==_refl (find_bucket hash h e),
          )
          (finds x)
    | inr f ↦ elim (Bool-cases (find_bucket hash h e == find_bucket hash h x)) [
      | inl s ↦ rw (find_bucket-put hash (find_bucket hash h e) l h x, s, finds x, f, same s)
      | inr s ↦ rw (find_bucket-put hash (find_bucket hash h e) l h x, s, f)
    ]
  ]
    where
      same :
          (find_bucket hash h e == find_bucket hash h x) ≡ true
          → find_bucket hash h e ≡ find_bucket hash h x
      same s = ground arith

  -- Replacing a bucket by one in order leaves the table in order.
  pub put-IsTable :
      (h : Hash A) (e : A) (l : List A)
      → IsTable hash less h
      → All (λ y. find_bucket hash h y ≡ find_bucket hash h e) l
      → Unique less l
      → IsTable hash less (put_bucket (find_bucket hash h e) l h)
  put-IsTable h e l table home unique = record { positive = table.positive; bucket = at }
    where
      at : (i : ℕ) → i < h.bucket_cnt → IsBucket hash less (put_bucket (find_bucket hash h e) l h) i
      at i lt =
          let b = table.bucket i lt in
          elim (Bool-cases (find_bucket hash h e == i)) [
            | inl s ↦
                let same : find_bucket hash h e ≡ i = ground arith in
                IsBucket-put hash less _ i l h (rw s (All-mono l (λ y q. q ∙ same) home))
                  (rw s unique)
            | inr s ↦ IsBucket-put hash less _ i l h (rw s b.home) (rw s b.unique)
          ]

  pub hash_find-push_front :
      (h : Hash A) (e x : A)
      → hash_find hash less (push_front hash e h) x
        ≡ (if equal less e x then some e else hash_find hash less h x)
  unfolding push_front find_elem
  hash_find-push_front h e x =
      hash_find-put h e (e ∷ h.buckets (find_bucket hash h e)) (some e) (λ y. refl) x

  -- An element that the table does not find is put on its bucket.
  pub push_front-IsTable :
      (h : Hash A) (e : A)
      → IsTable hash less h
      → hash_find hash less h e ≡ none
      → IsTable hash less (push_front hash e h)
  unfolding push_front hash_find
  push_front-IsTable h e table absent =
      let b = table.bucket (find_bucket hash h e) (find_bucket-lt hash h e table.positive) in
      put-IsTable h e (e ∷ h.buckets (find_bucket hash h e)) table (refl, b.home)
        (away_of_none order e (h.buckets (find_bucket hash h e)) absent, b.unique)

  pub count-push_front :
      (h : Hash A) (e : A) → 0 < h.bucket_cnt → count (push_front hash e h) ≡ count h + 1
  unfolding push_front
  count-push_front h e lt = omega (
    arith,
    count-put (find_bucket hash h e) (e ∷ h.buckets (find_bucket hash h e)) h
        (find_bucket-lt hash h e lt),
  )

  -- The elements of a bucket are moved: what a table does after that.
  pub record Moved (l : List A) (h h' : Hash A) : Type ℓ where
    pub table : IsTable hash less h'
    pub size : h'.bucket_cnt ≡ h.bucket_cnt
    pub elem : h'.elem_cnt ≡ h.elem_cnt
    pub more : count h' ≡ count h + length l
    pub finds :
        (x : A) → hash_find hash less h' x ≡ first_of (find_elem less l x) (hash_find hash less h x)

  move_bucket_lem :
      (l : List A) (h : Hash A)
      → IsTable hash less h
      → Unique less l
      → All (λ y. hash_find hash less h y ≡ none) l
      → Moved l h (move_bucket hash l h)
  unfolding move_bucket find_elem
  move_bucket_lem [] h table unique absent = record {
    table = table;
    size = refl;
    elem = refl;
    more = omega arith;
    finds = λ x. refl;
  }
  move_bucket_lem (e ∷ l) h table unique absent =
      let m =
        move_bucket_lem l (push_front hash e h) (push_front-IsTable h e table absent.0) unique.1
          (still l unique.0 absent.1) in
      record {
        table = m.table;
        size = m.size ∙ size_push hash h e;
        elem = m.elem ∙ elem_push hash h e;
        more = omega (arith, m.more, count-push_front h e table.positive);
        finds = λ x. m.finds x ∙ later x;
      }
    where
      later :
          (x : A)
          → first_of (find_elem less l x) (hash_find hash less (push_front hash e h) x)
            ≡ first_of
                (if equal less e x then some e else find_elem less l x)
                (hash_find hash less h x)
      later x = elim (Bool-cases (equal less e x)) [
        | inl t ↦ rw (hash_find-push_front h e x, t, find_elem-away order e x l unique.0 t)
        | inr f ↦ rw (hash_find-push_front h e x, f)
      ]

      still :
          (ys : List A)
          → All (λ y. equal less e y ≡ false) ys
          → All (λ y. hash_find hash less h y ≡ none) ys
          → All (λ y. hash_find hash less (push_front hash e h) y ≡ none) ys
      still [] away absent = tt
      still (y ∷ ys) away absent =
          (rw (hash_find-push_front h e y, away.0) absent.0, still ys away.1 absent.1)

  -- All buckets from `i` on are moved.
  pub record MovedAll (n i : ℕ) (old h h' : Hash A) : Type ℓ where
    pub table : IsTable hash less h'
    pub size : h'.bucket_cnt ≡ h.bucket_cnt
    pub elem : h'.elem_cnt ≡ h.elem_cnt
    pub more : count h' ≡ count h + length (elems n i old.buckets)
    pub finds :
        (x : A)
        → hash_find hash less h' x ≡ (
            if ltb (find_bucket hash old x) i
            then hash_find hash less h x
            else if ltb (find_bucket hash old x) (i + n)
            then first_of (hash_find hash less old x) (hash_find hash less h x)
            else hash_find hash less h x)

  find_elem-home :
      (h : Hash A) (i : ℕ) (x : A)
      → find_bucket hash h x ≡ i
      → find_elem less (h.buckets i) x ≡ hash_find hash less h x
  unfolding hash_find
  find_elem-home h i x q = rw q

  -- An element is not found in another bucket than its own.
  not_home :
      (h : Hash A) (i : ℕ) (x : A) (l : List A)
      → find_bucket hash h x ≢ i
      → All (λ y. find_bucket hash h y ≡ i) l
      → find_elem less l x ≡ none
  unfolding find_elem
  not_home h i x [] ne home = refl
  not_home h i x (y ∷ l) ne home = elim (Bool-cases (equal less y x)) [
    | inl t ↦ absurd (ne (sym (find_bucket_same h y x t) ∙ home.0))
    | inr f ↦ rw f (not_home h i x l ne home.1)
  ]

  -- What is not in the table and belongs to another bucket is not in it after bucket `i` is moved.
  still_absent :
      (old h : Hash A) (i j : ℕ) (l : List A)
      → i < old.bucket_cnt
      → IsTable hash less old
      → Moved (old.buckets i) h (move_bucket hash (old.buckets i) h)
      → i < j
      → All (λ y. find_bucket hash old y ≡ j) l
      → All (λ y. hash_find hash less h y ≡ none) l
      → All (λ y. hash_find hash less (move_bucket hash (old.buckets i) h) y ≡ none) l
  still_absent old h i j [] lt ordered m above home absent = tt
  still_absent old h i j (y ∷ l) lt ordered m above home absent = (
    m.finds y
        ∙ rw
            (not_home old i y (old.buckets i) (λ q. omega (arith, q, home.0))
              (ordered.bucket i lt).home)
            absent.0,
    still_absent old h i j l lt ordered m above home.1 absent.1,
  )

  at_index :
      (b i n : ℕ) (found₁ found₂ here after res : Option A)
      → res ≡ (
          if ltb b (i + 1)
          then after
          else if ltb b (i + 1 + n)
          then first_of found₁ after
          else after)
      → after ≡ first_of here found₂
      → (b ≡ i → here ≡ found₁)
      → (b ≢ i → here ≡ none)
      → res
        ≡ (if ltb b i then found₂ else if ltb b (i + suc n) then first_of found₁ found₂ else found₂)
  at_index b i n found₁ found₂ here after res r a same other = elim (Bool-cases (b == i)) [
    | inl e ↦ at_home (ground arith)
    | inr e ↦ at_other (ground arith)
  ]
    where
      at_home :
          b ≡ i
          → res ≡ (
              if ltb b i
              then found₂
              else if ltb b (i + suc n)
              then first_of found₁ found₂
              else found₂)
      at_home q =
          let first : ltb b (i + 1) ≡ true = ground arith in
          let before : ltb b i ≡ false = ground arith in
          let within : ltb b (i + suc n) ≡ true = ground arith in
          r ∙ rw (first, before, within, a, same q)

      at_other :
          b ≢ i
          → res ≡ (
              if ltb b i
              then found₂
              else if ltb b (i + suc n)
              then first_of found₁ found₂
              else found₂)
      at_other q =
          let before : ltb b (i + 1) ≡ ltb b i = ground arith in
          let within : ltb b (i + 1 + n) ≡ ltb b (i + suc n) = ground arith in
          r ∙ rw (a, other q, before, within)

  pub move_loop_lem :
      (n i : ℕ) (old h : Hash A)
      → IsTable hash less old
      → i + n ≤ old.bucket_cnt
      → IsTable hash less h
      → ((j : ℕ) → i ≤ j → j < i + n → All (λ y. hash_find hash less h y ≡ none) (old.buckets j))
      → MovedAll n i old h (move_loop hash n i old.buckets h)
  unfolding move_loop
  move_loop_lem zero i old h ordered le table absent = record {
    table = table;
    size = refl;
    elem = refl;
    more = omega arith;
    finds = λ x. ground arith;
  }
  move_loop_lem (suc n) i old h ordered le table absent =
      let b = ordered.bucket i (omega arith) in
      let m =
        move_bucket_lem (old.buckets i) h table b.unique (absent i (omega arith) (omega arith)) in
      let r =
        move_loop_lem n (i + 1) old (move_bucket hash (old.buckets i) h) ordered (omega arith)
          m.table (later_absent m) in
      record {
        table = r.table;
        size = r.size ∙ m.size;
        elem = r.elem ∙ m.elem;
        more =
            omega
              (arith, r.more, m.more, length-append (old.buckets i) (elems n (i + 1) old.buckets));
        finds = λ x.
            at_index (find_bucket hash old x) i n (hash_find hash less old x)
              (hash_find hash less h x) (find_elem less (old.buckets i) x)
              (hash_find hash less (move_bucket hash (old.buckets i) h) x) _ (r.finds x) (m.finds x)
              (find_elem-home old i x) (elsewhere i (omega arith) x);
      }
    where
      elsewhere :
          (j : ℕ)
          → j < old.bucket_cnt
          → (x : A) → find_bucket hash old x ≢ j
          → find_elem less (old.buckets j) x ≡ none
      elsewhere j lt x ne = not_home old j x (old.buckets j) ne (ordered.bucket j lt).home

      later_absent :
          Moved (old.buckets i) h (move_bucket hash (old.buckets i) h)
          → (j : ℕ) → i + 1 ≤ j
          → j < i + 1 + n
          → All
              (λ y. hash_find hash less (move_bucket hash (old.buckets i) h) y ≡ none)
              (old.buckets j)
      later_absent m j above below =
          still_absent old h i j (old.buckets j) (omega arith) ordered m (omega arith)
            (ordered.bucket j (omega arith)).home (absent j (omega arith) (omega arith))
