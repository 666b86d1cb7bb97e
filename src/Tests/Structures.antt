-- ===== src/Tests/Structures.antt =====
-- Runs of the theorems on hash tables, sorting, searching and division.
use mathlib.Core.List.{Perm}
use sogang_pint_os.Common.{
  ℕ, ◌+◌, ◌-◌, ◌*◌, ◌/◌, ◌^◌, ◌≡◌, refl, ap, true, some, none, List, [], ◌∷◌, arith, ltb,
  if◌then◌else◌,
}
use sogang_pint_os.Common.Int.{ℤ, sub_ℕ}
use sogang_pint_os.KernelList.{list_sort}
use sogang_pint_os.KernelList.Order.{IsOrder, IsSorted}
use sogang_pint_os.KernelList.Sort.{list_sort_lem}
use sogang_pint_os.Hash.{Hash, equal, hash_find, hash_insert, hash_delete}
use sogang_pint_os.Hash.Table.{first_of}
use sogang_pint_os.Hash.Laws.{IsValid, Becomes, hash_insert_lem, hash_delete_lem}
use sogang_pint_os.Arithmetic.{udiv64}
use sogang_pint_os.Arithmetic.Signed.{udiv64_lem}
use sogang_pint_os.Stdlib.{sort, above}
use sogang_pint_os.Stdlib.Heap.{Rearranged}
use sogang_pint_os.Stdlib.HeapSort.{Placed, sort_lem}

ltb-IsOrder : IsOrder ltb
ltb-IsOrder = record { asym = λ a b h. ground arith; trans = λ a b c h k. ground arith }

list_sort_lem_example :
    (ys : List ℕ) × (list_sort ltb (3 ∷ 1 ∷ 2 ∷ 1 ∷ []) ≡ some ys)
    × (IsSorted ltb ys × Perm ys (3 ∷ 1 ∷ 2 ∷ 1 ∷ []))
list_sort_lem_example = list_sort_lem ltb-IsOrder (3 ∷ 1 ∷ 2 ∷ 1 ∷ [])

-- A caller's hash function and a new table.
abbrev hash_number : ℕ → ℕ
hash_number n = n * 7

abbrev new_table : Hash ℕ
new_table = record { elem_cnt = 0; bucket_cnt = 4; buckets = λ k. [] }

equal_numbers : (a b : ℕ) → equal ltb a b ≡ true → hash_number a ≡ hash_number b
unfolding equal
equal_numbers a b e = ap (λ (n : ℕ). n * 7) (same a b e)
  where
    same : (a b : ℕ) → equal ltb a b ≡ true → a ≡ b
    same a b e = ground arith

new_table-IsValid : IsValid hash_number ltb new_table
new_table-IsValid = record {
  table = record { positive = omega arith; bucket = λ i lt. record { home = tt; unique = tt } };
  counted = refl;
}

hash_insert_lem_example :
    Becomes hash_number ltb
      (hash_insert hash_number ltb true new_table 5)
      (hash_find hash_number ltb new_table 5)
      (λ x.
        first_of (hash_find hash_number ltb new_table x) (if equal ltb 5 x then some 5 else none))
hash_insert_lem_example =
    hash_insert_lem ltb-IsOrder equal_numbers true new_table 5 new_table-IsValid

-- The table with 5 in it.
abbrev small_table : Hash ℕ
small_table = (hash_insert hash_number ltb true new_table 5).1

small_table-IsValid : IsValid hash_number ltb small_table
small_table-IsValid =
    (hash_insert_lem ltb-IsOrder equal_numbers true new_table 5 new_table-IsValid).1

hash_delete_lem_example :
    Becomes hash_number ltb
      (hash_delete hash_number ltb true small_table 5)
      (hash_find hash_number ltb small_table 5)
      (λ x. if equal ltb 5 x then none else hash_find hash_number ltb small_table x)
hash_delete_lem_example =
    hash_delete_lem ltb-IsOrder equal_numbers true small_table 5 small_table-IsValid

udiv64_lem_example : udiv64 (2 ^ 40 + 5) (2 ^ 33 + 1) ≡ some ((2 ^ 40 + 5) / (2 ^ 33 + 1))
udiv64_lem_example = udiv64_lem (2 ^ 40 + 5) (2 ^ 33 + 1) (omega arith) (omega arith) (omega arith)

-- The order of numbers, as the callers of `sort` give it.
abbrev compare_numbers : ℕ → ℕ → ℤ
compare_numbers a b = sub_ℕ a b

compare_numbers-IsOrder : IsOrder (above compare_numbers)
unfolding above
compare_numbers-IsOrder = record { asym = λ a b h. ground arith; trans = λ a b c h k. ground arith }

sort_lem_example :
    (out : ℕ → ℕ) × (sort compare_numbers (λ k. 5 - k) 4 ≡ some out)
    × (Placed compare_numbers 0 4 out × Rearranged 4 (λ k. 5 - k) out)
sort_lem_example = sort_lem compare_numbers compare_numbers-IsOrder (λ k. 5 - k) 4 (omega arith)
