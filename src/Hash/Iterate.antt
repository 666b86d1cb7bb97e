-- ===== src/Hash/Iterate.antt =====
-- `hash_first`, `hash_next` and `hash_apply` of pintos/src/lib/kernel/hash.c.
use sogang_pint_os.Common.{
  ℕ, zero, suc, ◌+◌, ◌-◌, ◌<◌, ◌≡◌, refl, Option, none, some, List, [], ◌∷◌, ◌++◌, arith,
}
use sogang_pint_os.Hash.{Hash, Iterator, elems, hash_apply, hash_first, next_bucket, hash_next}

module _ {ℓ} {A : Type ℓ} where
  -- The elements that an iterator has not given yet.
  abbrev pub remaining : Hash A → Iterator A → List A
  remaining h i = i.behind ++ elems (h.bucket_cnt - 1 - i.bucket) (i.bucket + 1) h.buckets

  -- An element off the front.
  abbrev pub rest_of : List A → Option A × List A
  rest_of [] = (none, [])
  rest_of (x ∷ xs) = (some x, xs)

  next_bucket_lem :
      (n i : ℕ) (h : Hash A)
      → i + n ≡ h.bucket_cnt
      → ((next_bucket n i h).0, remaining h (next_bucket n i h).1) ≡ rest_of (elems n i h.buckets)
  unfolding next_bucket
  next_bucket_lem zero i h e =
      let none_left : h.bucket_cnt - 1 - i ≡ 0 = omega (arith, e) in rw none_left
  next_bucket_lem (suc n) i h e =
      here (h.buckets i) (next_bucket_lem n (i + 1) h (omega (arith, e)))
    where
      here :
          (l : List A)
          → ((next_bucket n (i + 1) h).0, remaining h (next_bucket n (i + 1) h).1)
            ≡ rest_of (elems n (i + 1) h.buckets)
          → (let r : Option A × Iterator A = elim l [
            | [] ↦ next_bucket n (i + 1) h
            | e ∷ l ↦ (some e, record { bucket = i; behind = l })
          ] in
              (r.0, remaining h r.1))
            ≡ rest_of (l ++ elems n (i + 1) h.buckets)
      here [] ih = ih
      here (x ∷ l) ih = let left : h.bucket_cnt - 1 - i ≡ n = omega (arith, e) in rw left

  -- Each call of `hash_next` gives the first of the elements that remain, and leaves the others; it
  -- answers a null pointer only if none remain. At the start these are what `hash_apply` visits.
  hash_next_lem :
      (h : Hash A) (i : Iterator A)
      → i.bucket < h.bucket_cnt
      → (((hash_next h i).0, remaining h (hash_next h i).1) ≡ rest_of (remaining h i))
        × (remaining h (hash_first h) ≡ hash_apply h)
  unfolding hash_next hash_first hash_apply
  hash_next_lem h i lt = (step i.behind, whole h.bucket_cnt (omega arith))
    where
      step :
          (l : List A)
          → (let r : Option A × Iterator A = elim l [
            | [] ↦ next_bucket (h.bucket_cnt - 1 - i.bucket) (i.bucket + 1) h
            | e ∷ l ↦ (some e, record i { behind = l })
          ] in
              (r.0, remaining h r.1))
            ≡ rest_of (l ++ elems (h.bucket_cnt - 1 - i.bucket) (i.bucket + 1) h.buckets)
      step [] = next_bucket_lem (h.bucket_cnt - 1 - i.bucket) (i.bucket + 1) h (omega arith)
      step (x ∷ l) = refl

      whole :
          (cnt : ℕ)
          → 0 < cnt
          → h.buckets 0 ++ elems (cnt - 1 - 0) (0 + 1) h.buckets ≡ elems cnt 0 h.buckets
      whole zero pos = absurd (omega arith)
      whole (suc cnt) pos = let less : suc cnt - 1 - 0 ≡ cnt = omega arith in rw less
