-- ===== src/Hash.antt =====
-- Hash tables: pintos/src/lib/kernel/hash.c. An element is its value; `hash` and `less` are the caller's
-- functions with their `aux`. The buckets are a function of the index, each the sequence that its list
-- holds. What `malloc` answers in `rehash` is an argument: false is a null pointer. The bytes of a block
-- or string that is hashed are a list.
pub mod Find
pub mod Table
pub mod Laws
pub mod Iterate
use Prim.Native.Nat.{bit_and, bit_xor}
use sogang_pint_os.Common.{
  ℕ, zero, suc, ◌+◌, ◌-◌, ◌*◌, ◌/◌, ◌%◌, ◌^◌, Bool, true, false, not, ◌&&◌, Option, none, some,
  List, [], ◌∷◌, ◌++◌, ltb, ◌==◌, if◌then◌else◌,
}

-- `struct hash`
pub record Hash {ℓ} (A : Type ℓ) : Type ℓ where
  pub elem_cnt : ℕ
  pub bucket_cnt : ℕ
  pub buckets : ℕ → List A

-- `struct hash_iterator`: a bucket and what is behind the current element in it.
pub record Iterator {ℓ} (A : Type ℓ) : Type ℓ where
  pub bucket : ℕ
  pub behind : List A

pub turn_off_least_1bit : ℕ → ℕ
turn_off_least_1bit x = bit_and x (x - 1)

pub is_power_of_2 : ℕ → Bool
is_power_of_2 x = not (x == 0) && turn_off_least_1bit x == 0

-- `while (!is_power_of_2 (n)) n = turn_off_least_1bit (n);` on fuel: each round makes `n` smaller.
pub power_loop : ℕ → ℕ → ℕ
power_loop zero n = n
power_loop (suc fuel) n =
    let rest = power_loop fuel (turn_off_least_1bit n) in if is_power_of_2 n then n else rest

-- The number of buckets that `rehash` wants.
pub new_bucket_cnt : ℕ → ℕ
new_bucket_cnt elem_cnt =
    let n = elem_cnt / 2 in let start = if ltb n 4 then 4 else n in power_loop start start

-- A bucket is replaced.
abbrev pub put_bucket {ℓ} : {A : Type ℓ} → ℕ → List A → Hash A → Hash A
put_bucket i l h = record h { buckets = λ k. if i == k then l else h.buckets k }

-- The elements of `n` buckets from `i` on, in the order of `hash_apply`.
abbrev pub elems {ℓ} : {A : Type ℓ} → ℕ → ℕ → (ℕ → List A) → List A
elems zero i buckets = []
elems (suc n) i buckets = buckets i ++ elems n (i + 1) buckets

module _ {ℓ} {A : Type ℓ} (less : A → A → Bool) where
  -- Two elements are equal.
  unfoldable pub equal : A → A → Bool
  equal a b = not (less a b) && not (less b a)

  pub find_elem : List A → A → Option A
  unfolding equal
  find_elem [] e = none
  find_elem (hi ∷ l) e = if equal hi e then some hi else find_elem l e

  -- The bucket without the element that `find_elem` finds.
  pub without : List A → A → List A
  unfolding equal
  without [] e = []
  without (hi ∷ l) e = if equal hi e then l else hi ∷ without l e

  -- `remove_elem` of the element that was found equal to `e`.
  pub remove_elem : Hash A → ℕ → A → Hash A
  unfolding without
  remove_elem h bucket e =
      put_bucket bucket (without (h.buckets bucket) e) (record h { elem_cnt = h.elem_cnt - 1 })

module _ {ℓ} {A : Type ℓ} where
  pub insert_elem : Hash A → ℕ → A → Hash A
  insert_elem h bucket e =
      put_bucket bucket (e ∷ h.buckets bucket) (record h { elem_cnt = h.elem_cnt + 1 })

  -- `hash_clear`: the elements that the destructor is called for, in their order, and the table.
  hash_clear : Hash A → List A × Hash A
  hash_clear h = (
    elems h.bucket_cnt 0 h.buckets,
    record h { elem_cnt = 0; buckets = λ k. if ltb k h.bucket_cnt then [] else h.buckets k },
  )

  -- `hash_init`: false if there is no memory for the buckets. `garbage` is what the memory holds.
  unfoldable pub hash_init : Bool → (ℕ → List A) → Bool × Hash A
  unfolding hash_clear
  hash_init memory garbage =
      let h : Hash A = record { elem_cnt = 0; bucket_cnt = 4; buckets = garbage } in
      if memory then (true, (hash_clear h).1) else (false, h)

  -- `hash_apply`: the elements that the action is called for, in their order.
  pub hash_apply : Hash A → List A
  hash_apply h = elems h.bucket_cnt 0 h.buckets

  pub hash_first : Hash A → Iterator A
  hash_first h = record { bucket = 0; behind = h.buckets 0 }

  -- The loop of `hash_next` over the `n` buckets from `i` on.
  pub next_bucket : ℕ → ℕ → Hash A → Option A × Iterator A
  next_bucket zero i h = (none, record { bucket = i; behind = [] })
  next_bucket (suc n) i h =
      let rest = next_bucket n (i + 1) h in
      elim (h.buckets i) [ [] ↦ rest | e ∷ l ↦ (some e, record { bucket = i; behind = l }) ]

  -- `hash_next`, which gives what `hash_cur` gives afterwards too.
  pub hash_next : Hash A → Iterator A → Option A × Iterator A
  hash_next h i = elim i.behind [
    | [] ↦ next_bucket (h.bucket_cnt - 1 - i.bucket) (i.bucket + 1) h
    | e ∷ l ↦ (some e, record i { behind = l })
  ]

  unfoldable hash_size : Hash A → ℕ
  hash_size h = h.elem_cnt

  unfoldable hash_empty : Hash A → Bool
  hash_empty h = h.elem_cnt == 0

module _ {ℓ} {A : Type ℓ} (hash : A → ℕ) where
  -- The index that `find_bucket` computes.
  pub find_bucket : Hash A → A → ℕ
  find_bucket h e = bit_and (hash e) (h.bucket_cnt - 1)

  -- `list_push_front` of an element on its bucket.
  pub push_front : A → Hash A → Hash A
  push_front e h = put_bucket (find_bucket h e) (e ∷ h.buckets (find_bucket h e)) h

  -- The inner loop of `rehash`, over one old bucket.
  pub move_bucket : List A → Hash A → Hash A
  move_bucket [] h = h
  move_bucket (e ∷ l) h = move_bucket l (push_front e h)

  -- The outer loop, over `n` old buckets from `i` on.
  pub move_loop : ℕ → ℕ → (ℕ → List A) → Hash A → Hash A
  move_loop zero i old h = h
  move_loop (suc n) i old h = move_loop n (i + 1) old (move_bucket (old i) h)

  pub rehash : Bool → Hash A → Hash A
  rehash memory h =
      let cnt = new_bucket_cnt h.elem_cnt in
      if cnt == h.bucket_cnt
      then h
      else if not memory
      then h
      else move_loop h.bucket_cnt 0 h.buckets (record h { bucket_cnt = cnt; buckets = λ k. [] })

module _ {ℓ} {A : Type ℓ} (hash : A → ℕ) (less : A → A → Bool) where
  pub hash_find : Hash A → A → Option A
  hash_find h e = find_elem less (h.buckets (find_bucket hash h e)) e

  -- `hash_insert`: the element that was there, and the table.
  pub hash_insert : Bool → Hash A → A → Option A × Hash A
  hash_insert memory h new = elim (hash_find h new) [
    | none ↦ (none, rehash hash memory (insert_elem h (find_bucket hash h new) new))
    | some old ↦ (some old, rehash hash memory h)
  ]

  pub hash_replace : Bool → Hash A → A → Option A × Hash A
  hash_replace memory h new =
      let bucket = find_bucket hash h new in
      elim (hash_find h new) [
        | none ↦ (none, rehash hash memory (insert_elem h bucket new))
        | some old ↦
            (some old, rehash hash memory (insert_elem (remove_elem less h bucket new) bucket new))
      ]

  pub hash_delete : Bool → Hash A → A → Option A × Hash A
  hash_delete memory h e = elim (hash_find h e) [
    | none ↦ (none, h)
    | some found ↦ (some found, rehash hash memory (remove_elem less h (find_bucket hash h e) e))
  ]

-- FNV_32_PRIME and FNV_32_BASIS
abbrev fnv_32_prime : ℕ
fnv_32_prime = 16777619

abbrev fnv_32_basis : ℕ
fnv_32_basis = 2166136261

fnv_loop : List ℕ → ℕ → ℕ
fnv_loop [] hash = hash
fnv_loop (b ∷ buf) hash = fnv_loop buf (bit_xor (hash * fnv_32_prime % 2 ^ 32) b)

hash_bytes : List ℕ → ℕ
unfolding fnv_loop
hash_bytes buf = fnv_loop buf fnv_32_basis

-- `hash_string` of the characters before the null byte.
unfoldable hash_string : List ℕ → ℕ
unfolding fnv_loop
hash_string s = fnv_loop s fnv_32_basis

-- `hash_int` of an integer's 32 bits.
unfoldable pub hash_int : ℕ → ℕ
unfolding hash_bytes
hash_int i = hash_bytes (i % 256 ∷ i / 2 ^ 8 % 256 ∷ i / 2 ^ 16 % 256 ∷ i / 2 ^ 24 % 256 ∷ [])
