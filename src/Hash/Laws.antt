-- ===== src/Hash/Laws.antt =====
-- The operations of pintos/src/lib/kernel/hash.c as a finite map from elements up to equality.
use sogang_pint_os.Common.{
  ℕ, zero, suc, ◌+◌, ◌-◌, ◌/◌, ◌≤◌, ◌<◌, ◌≡◌, refl, ◌∙◌, inl, inr, Bool, true, false, not, Option,
  none, some, [], ltb, ◌==◌, Bool-cases, Option-cases, if◌then◌else◌, arith,
}
use sogang_pint_os.Common.All.{All-of}
use sogang_pint_os.Common.Bits.{bit_and-le_right}
use sogang_pint_os.KernelList.Order.{IsOrder}
use sogang_pint_os.Hash.{
  Hash, put_bucket, turn_off_least_1bit, is_power_of_2, power_loop, new_bucket_cnt, equal,
  find_elem, find_bucket, insert_elem, remove_elem, without, push_front, move_loop, rehash,
  hash_find, hash_insert, hash_replace, hash_delete,
}
use sogang_pint_os.Hash.Find.{
  Unique-without, All-without, find_elem-without, length-without, equal_refl, find_elem_same,
}
use sogang_pint_os.Hash.Table.{
  IsBucket, IsTable, count, length-elems_empty, find_bucket-lt, find_bucket_same, put-IsTable,
  hash_find-put, hash_find-push_front, push_front-IsTable, count-push_front, count-put, elem_push,
  first_of, move_loop_lem,
}

turn_off_least_1bit-lt : (n : ℕ) → 0 < n → turn_off_least_1bit n < n
unfolding turn_off_least_1bit
turn_off_least_1bit-lt n lt = omega (arith, bit_and-le_right n (n - 1))

turn_off_least_1bit-positive : (n : ℕ) → 0 < n → is_power_of_2 n ≡ false → 0 < turn_off_least_1bit n
unfolding is_power_of_2
turn_off_least_1bit-positive n lt e = ground arith

power_of_2-positive : (n : ℕ) → is_power_of_2 n ≡ true → 0 < n
unfolding is_power_of_2
power_of_2-positive n e = ground arith

power_loop_lem : (fuel n : ℕ) → n ≤ fuel → 0 < n → is_power_of_2 (power_loop fuel n) ≡ true
unfolding power_loop
power_loop_lem zero n le lt = absurd (omega arith)
power_loop_lem (suc fuel) n le lt = elim (Bool-cases (is_power_of_2 n)) [
  | inl e ↦ rw (e, e)
  | inr e ↦ rw e (
      power_loop_lem fuel (turn_off_least_1bit n) (omega (arith, turn_off_least_1bit-lt n lt))
        (turn_off_least_1bit-positive n lt e))
]

-- The number of buckets that `rehash` wants is a power of two and positive, whatever the number of
-- elements is.
new_bucket_cnt-is_power_of_2 :
    (elem_cnt : ℕ)
    → (is_power_of_2 (new_bucket_cnt elem_cnt) ≡ true) × (0 < new_bucket_cnt elem_cnt)
unfolding new_bucket_cnt
new_bucket_cnt-is_power_of_2 elem_cnt =
    let start = if ltb (elem_cnt / 2) 4 then 4 else elem_cnt / 2 in
    let power = power_loop_lem start start (omega arith) (ground arith) in
    (power, power_of_2-positive (power_loop start start) power)

module _ {ℓ} {A : Type ℓ} (hash : A → ℕ) (less : A → A → Bool) where
  -- The table is in order and `elem_cnt` is the number of its elements.
  pub record IsValid (h : Hash A) : Type ℓ where
    pub table : IsTable hash less h
    pub counted : h.elem_cnt ≡ count h

  first_of-none : (o : Option A) → first_of o none ≡ o
  first_of-none none = refl
  first_of-none (some a) = refl

  -- The table with `cnt` new buckets.
  abbrev emptied : ℕ → Hash A → Hash A
  emptied cnt h = record h { bucket_cnt = cnt; buckets = λ k. [] }

  emptied-IsTable : (cnt : ℕ) (h : Hash A) → 0 < cnt → IsTable hash less (emptied cnt h)
  emptied-IsTable cnt h lt = record {
    positive = lt;
    bucket = λ i _. record { home = tt; unique = tt };
  }

  hash_find-emptied : (cnt : ℕ) (h : Hash A) (x : A) → hash_find hash less (emptied cnt h) x ≡ none
  unfolding hash_find find_elem
  hash_find-emptied cnt h x = refl

  -- The table with another `elem_cnt`.
  abbrev recount : ℕ → Hash A → Hash A
  recount n h = record h { elem_cnt = n }

  hash_find-recount :
      (n : ℕ) (h : Hash A) (x : A) → hash_find hash less (recount n h) x ≡ hash_find hash less h x
  unfolding hash_find find_bucket
  hash_find-recount n h x = refl

  find_elem-recount :
      (n : ℕ) (h : Hash A) (x : A)
      → find_elem less (h.buckets (find_bucket hash (recount n h) x)) x ≡ hash_find hash less h x
  unfolding hash_find find_bucket
  find_elem-recount n h x = refl

  recount-IsTable : (n : ℕ) (h : Hash A) → IsTable hash less h → IsTable hash less (recount n h)
  unfolding find_bucket
  recount-IsTable n h table = record { positive = table.positive; bucket = bucket }
    where
      bucket : (i : ℕ) → i < h.bucket_cnt → IsBucket hash less (recount n h) i
      bucket i lt = let b = table.bucket i lt in record { home = b.home; unique = b.unique }

  insert_elem-push_front :
      (h : Hash A) (new : A)
      → insert_elem h (find_bucket hash h new) new
        ≡ push_front hash new (recount (h.elem_cnt + 1) h)
  unfolding insert_elem push_front find_bucket
  insert_elem-push_front h new = refl

  remove_elem-put :
      (h : Hash A) (e : A)
      → remove_elem less h (find_bucket hash h e) e
        ≡ put_bucket
            (find_bucket hash (recount (h.elem_cnt - 1) h) e)
            (without less (h.buckets (find_bucket hash (recount (h.elem_cnt - 1) h) e)) e)
            (recount (h.elem_cnt - 1) h)
  unfolding remove_elem find_bucket
  remove_elem-put h e = refl

  -- What a table answers and becomes: what was found, a valid table, and what that one finds.
  abbrev pub Becomes : Option A × Hash A → Option A → (A → Option A) → Type ℓ
  Becomes out answer finds =
      (out.0 ≡ answer) × IsValid out.1 × ((x : A) → hash_find hash less out.1 x ≡ finds x)

module _ {ℓ} {A : Type ℓ} {hash : A → ℕ} {less : A → A → Bool} (order : IsOrder less)
    (respects : (a b : A) → equal less a b ≡ true → hash a ≡ hash b) where
  -- Two tables hold the same.
  abbrev Same : Hash A → Hash A → Type ℓ
  Same h h' = (x : A) → hash_find hash less h' x ≡ hash_find hash less h x

  moved_lem :
      (cnt : ℕ) (h : Hash A)
      → 0 < cnt
      → IsValid hash less h
      → IsValid hash less (move_loop hash h.bucket_cnt 0 h.buckets (emptied hash less cnt h))
        × Same h (move_loop hash h.bucket_cnt 0 h.buckets (emptied hash less cnt h))
  moved_lem cnt h lt valid =
      let m =
        move_loop_lem order respects h.bucket_cnt 0 h (emptied hash less cnt h) valid.table
          (omega arith) (emptied-IsTable hash less cnt h lt)
          (λ j _ below. All-of (h.buckets j) (hash_find-emptied hash less cnt h)) in
      (
        record {
          table = m.table;
          counted = omega (arith, m.elem, m.more, valid.counted, length-elems_empty A cnt 0);
        },
        λ x. m.finds x ∙ at_home x,
      )
    where
      at_home :
          (x : A)
          → (if ltb (find_bucket hash h x) 0
              then hash_find hash less (emptied hash less cnt h) x
              else if ltb (find_bucket hash h x) (0 + h.bucket_cnt)
              then first_of
                  (hash_find hash less h x)
                  (hash_find hash less (emptied hash less cnt h) x)
              else hash_find hash less (emptied hash less cnt h) x)
            ≡ hash_find hash less h x
      at_home x =
          let lt : find_bucket hash h x < h.bucket_cnt =
            find_bucket-lt hash h x valid.table.positive in
          let before : ltb (find_bucket hash h x) 0 ≡ false = ground arith in
          let within : ltb (find_bucket hash h x) (0 + h.bucket_cnt) ≡ true = ground arith in
          rw (before, within, hash_find-emptied hash less cnt h x)
            (first_of-none hash less (hash_find hash less h x))

  rehash_lem :
      (memory : Bool) (h : Hash A)
      → IsValid hash less h
      → IsValid hash less (rehash hash memory h) × Same h (rehash hash memory h)
  unfolding rehash
  rehash_lem memory h valid = elim (Bool-cases (new_bucket_cnt h.elem_cnt == h.bucket_cnt)) [
    | inl e ↦ rw e (valid, λ x. refl)
    | inr e ↦ rw e (with_memory memory)
  ]
    where
      with_memory :
          (m : Bool)
          → (let h' : Hash A =
                (if not m
                  then h
                  else move_loop hash h.bucket_cnt 0 h.buckets
                      (emptied hash less (new_bucket_cnt h.elem_cnt) h)) in
              IsValid hash less h' × Same h h')
      with_memory true =
          moved_lem (new_bucket_cnt h.elem_cnt) h (new_bucket_cnt-is_power_of_2 h.elem_cnt).1 valid
      with_memory false = (valid, λ x. refl)

  -- What an insertion makes of what is found.
  abbrev pub inserted : A → Option A → A → Option A
  inserted new none x = if equal less new x then some new else none
  inserted new (some old) x = some old

  insert_lem :
      (h : Hash A) (new : A)
      → IsValid hash less h
      → hash_find hash less h new ≡ none
      → IsValid hash less (insert_elem h (find_bucket hash h new) new)
        × ((x : A)
            → hash_find hash less (insert_elem h (find_bucket hash h new) new) x
              ≡ (if equal less new x then some new else hash_find hash less h x))
  insert_lem h new valid absent =
      let h' : Hash A = recount hash less (h.elem_cnt + 1) h in
      let table : IsTable hash less h' = recount-IsTable hash less (h.elem_cnt + 1) h valid.table in
      let absent' : hash_find hash less h' new ≡ none =
        hash_find-recount hash less (h.elem_cnt + 1) h new ∙ absent in
      rw (insert_elem-push_front hash less h new) (
        record {
          table = push_front-IsTable order respects h' new table absent';
          counted =
              elem_push hash h' new
              ∙ omega (
                arith,
                count-push_front order respects h' new valid.table.positive,
                valid.counted,
              );
        },
        λ x.
            hash_find-push_front order respects h' new x
            ∙ rw (hash_find-recount hash less (h.elem_cnt + 1) h x),
      )

  remove_lem :
      (h : Hash A) (e : A) {old : A}
      → IsValid hash less h
      → hash_find hash less h e ≡ some old
      → IsValid hash less (remove_elem less h (find_bucket hash h e) e)
        × ((x : A)
            → hash_find hash less (remove_elem less h (find_bucket hash h e) e) x
              ≡ (if equal less e x then none else hash_find hash less h x))
  remove_lem h e {old} valid found =
      let h' : Hash A = recount hash less (h.elem_cnt - 1) h in
      let table : IsTable hash less h' = recount-IsTable hash less (h.elem_cnt - 1) h valid.table in
      let i = find_bucket hash h' e in
      let lt : i < h.bucket_cnt = find_bucket-lt hash h' e valid.table.positive in
      let b = table.bucket i lt in
      let l = without less (h.buckets i) e in
      rw (remove_elem-put hash less h e) (
        record {
          table =
              put-IsTable order respects h' e l table
                (All-without order (λ y. find_bucket hash h' y ≡ i) e (h.buckets i) b.home)
                (Unique-without order e (h.buckets i) b.unique);
          counted = omega (
            arith,
            count-put i l h' lt,
            valid.counted,
            length-without order e (h.buckets i)
                (find_elem-recount hash less (h.elem_cnt - 1) h e ∙ found),
          );
        },
        λ x.
            hash_find-put order respects h' e l none
              (λ y. find_elem-without order e y (h.buckets i) b.unique) x
            ∙ rw (hash_find-recount hash less (h.elem_cnt - 1) h x),
      )

  rehash-Becomes :
      (memory : Bool) (answer : Option A) (h : Hash A) (finds : A → Option A)
      → IsValid hash less h
      → ((x : A) → hash_find hash less h x ≡ finds x)
      → Becomes hash less (answer, rehash hash memory h) answer finds
  rehash-Becomes memory answer h finds valid found =
      let r = rehash_lem memory h valid in (refl, r.0, λ x. r.1 x ∙ found x)

  hash_find_same :
      (h : Hash A) (a b : A)
      → equal less a b ≡ true
      → hash_find hash less h a ≡ hash_find hash less h b
  unfolding hash_find
  hash_find_same h a b e =
      rw (find_bucket_same order respects h a b e)
        (find_elem_same order a b (h.buckets (find_bucket hash h b)) e)

  -- `hash_insert` answers what was there and adds the element only if nothing was, whether or not there
  -- is memory for more buckets.
  pub hash_insert_lem :
      (memory : Bool) (h : Hash A) (new : A)
      → IsValid hash less h
      → Becomes hash less
          (hash_insert hash less memory h new)
          (hash_find hash less h new)
          (λ x. first_of (hash_find hash less h x) (if equal less new x then some new else none))
  unfolding hash_insert
  hash_insert_lem memory h new valid = elim (Option-cases (hash_find hash less h new)) [
    | inl absent ↦
        let i = insert_lem h new valid absent in
        rw (hash_insert, absent)
          (rehash-Becomes memory none (insert_elem h (find_bucket hash h new) new) _ i.0
            (λ x. i.1 x ∙ added x absent))
    | inr (old, found) ↦
        rw (hash_insert, found) (rehash-Becomes memory (some old) h _ valid (λ x. kept x found))
  ]
    where
      added :
          (x : A)
          → hash_find hash less h new ≡ none
          → (if equal less new x then some new else hash_find hash less h x)
            ≡ first_of (hash_find hash less h x) (if equal less new x then some new else none)
      added x absent = elim (Bool-cases (equal less new x)) [
        | inl t ↦ rw (t, ← hash_find_same h new x t, absent)
        | inr f ↦ rw (f, first_of-none hash less (hash_find hash less h x))
      ]

      kept :
          (x : A) {old : A}
          → hash_find hash less h new ≡ some old
          → hash_find hash less h x
            ≡ first_of (hash_find hash less h x) (if equal less new x then some new else none)
      kept x found = elim (Bool-cases (equal less new x)) [
        | inl t ↦ rw (t, ← hash_find_same h new x t, found)
        | inr f ↦ rw (f, first_of-none hash less (hash_find hash less h x))
      ]

  -- `hash_replace` answers what was there, and the element takes its place.
  hash_replace_lem :
      (memory : Bool) (h : Hash A) (new : A)
      → IsValid hash less h
      → Becomes hash less
          (hash_replace hash less memory h new)
          (hash_find hash less h new)
          (λ x. if equal less new x then some new else hash_find hash less h x)
  unfolding hash_replace remove_elem find_bucket
  hash_replace_lem memory h new valid = elim (Option-cases (hash_find hash less h new)) [
    | inl absent ↦
        let i = insert_lem h new valid absent in
        rw (hash_replace, absent)
          (rehash-Becomes memory none (insert_elem h (find_bucket hash h new) new) _ i.0 i.1)
    | inr (old, found) ↦
        let r = remove_lem h new valid found in
        let h' = remove_elem less h (find_bucket hash h new) new in
        let i = insert_lem h' new r.0 (r.1 new ∙ rw (equal_refl order new)) in
        rw (hash_replace, found)
          (rehash-Becomes memory (some old) (insert_elem h' (find_bucket hash h' new) new) _ i.0
            (λ x. i.1 x ∙ again x (r.1 x)))
  ]
    where
      again :
          (x : A) {o : Option A}
          → o ≡ (if equal less new x then none else hash_find hash less h x)
          → (if equal less new x then some new else o)
            ≡ (if equal less new x then some new else hash_find hash less h x)
      again x q = elim (Bool-cases (equal less new x)) [ inl t ↦ rw t | inr f ↦ rw f (q ∙ rw f) ]

  -- `hash_delete` answers what was there, and nothing equal to it is left.
  pub hash_delete_lem :
      (memory : Bool) (h : Hash A) (e : A)
      → IsValid hash less h
      → Becomes hash less
          (hash_delete hash less memory h e)
          (hash_find hash less h e)
          (λ x. if equal less e x then none else hash_find hash less h x)
  unfolding hash_delete
  hash_delete_lem memory h e valid = elim (Option-cases (hash_find hash less h e)) [
    | inl absent ↦ rw (hash_delete, absent) (refl, valid, λ x. nothing x absent)
    | inr (old, found) ↦
        let r = remove_lem h e valid found in
        rw (hash_delete, found)
          (rehash-Becomes memory (some old) (remove_elem less h (find_bucket hash h e) e) _ r.0 r.1)
  ]
    where
      nothing :
          (x : A)
          → hash_find hash less h e ≡ none
          → hash_find hash less h x ≡ (if equal less e x then none else hash_find hash less h x)
      nothing x absent = elim (Bool-cases (equal less e x)) [
        | inl t ↦ rw (t, ← hash_find_same h e x t, absent)
        | inr f ↦ rw f
      ]
