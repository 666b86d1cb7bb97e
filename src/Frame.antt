-- ===== src/Frame.antt =====
-- The list of page frames and its clock: pintos/src/vm/frame.c. An element of the list is the address of
-- its `struct page`. Accessed bits are kept by page directory and virtual address, as in the page tables.
-- The lock of the list and the checks that it is held are left out; `none` is a failed ASSERT.
pub mod Clock
pub mod Victim
use sogang_pint_os.Common.{
  ℕ, zero, suc, ◌+◌, Bool, true, false, not, ◌&&◌, Option, none, some, List, [], ◌∷◌, ◌++◌, ◌==◌,
  if◌then◌else◌, length,
}
use sogang_pint_os.Common.Panic.{◌>>=◌}

-- Where LRU_clock points: nowhere, at an element, or at the end of the list.
pub data Position : Type 0 where
  null : Position
  elem : ℕ → Position
  tail : Position

-- `struct page`: the address of the frame, the page directory of its thread, and the virtual address.
pub record Page : Type 0 where
  pub kaddr : ℕ
  pub pagedir : ℕ
  pub vaddr : ℕ

pub record Frame : Type 0 where
  pub list_lru : List ℕ
  pub lru_clock : Position
  pub pages : ℕ → Page
  pub accessed : ℕ → ℕ → Bool

-- `list_LRU_init`
unfoldable list_lru_init : Frame → Frame
list_lru_init s = record s { list_lru = []; lru_clock = null }

-- `add_page_to_list_LRU`
pub add_page : ℕ → Frame → Frame
add_page page s = record s { list_lru = s.list_lru ++ page ∷ [] }

-- `find_page_from_list_LRU`
unfoldable find_page : ℕ → List ℕ → (ℕ → Page) → Option ℕ
find_page kaddr [] pages = none
find_page kaddr (page ∷ l) pages =
    if (pages page).kaddr == kaddr then some page else find_page kaddr l pages

-- The list without an element, and what `list_next` and `list_remove` give for one of the list.
abbrev pub without : ℕ → List ℕ → List ℕ
without a [] = []
without a (k ∷ ks) = if a == k then ks else k ∷ without a ks

abbrev pub first : List ℕ → Position
first [] = tail
first (k ∷ ks) = elem k

abbrev pub list_next : ℕ → List ℕ → Position
list_next a [] = tail
list_next a (k ∷ ks) = if a == k then first ks else list_next a ks

-- `LRU_clock == &page->LRU`
abbrev pub points_at : ℕ → Position → Bool
points_at a null = false
points_at a (elem b) = b == a
points_at a tail = false

-- `del_page_from_list_LRU`
pub del_page : ℕ → Frame → Frame
del_page page s =
    let rest = without page s.list_lru in
    if points_at page s.lru_clock
    then record s { list_lru = rest; lru_clock = list_next page s.list_lru }
    else record s { list_lru = rest }

-- The first branch of `get_next_LRU_clock`, which its recursive call takes too.
abbrev pub restart : List ℕ → Position
restart [] = null
restart (k ∷ ks) = elem k

-- `get_next_LRU_clock`: what LRU_clock becomes; `null` is the null pointer it returns for an empty list,
-- where LRU_clock itself stays.
pub get_next : List ℕ → Position → Position
get_next l null = restart l
get_next l tail = restart l
get_next l (elem a) = elim (list_next a l) [ null ↦ null | elem b ↦ elem b | tail ↦ restart l ]

pub is_accessed : Frame → ℕ → Bool
is_accessed s page = s.accessed (s.pages page).pagedir (s.pages page).vaddr

-- `pagedir_set_accessed (page->thread->pagedir, page->pge->vaddr, false)`
pub clear_accessed : Frame → ℕ → Frame
clear_accessed s page = record s {
  accessed = λ pd vaddr.
      if (s.pages page).pagedir == pd && (s.pages page).vaddr == vaddr
      then false
      else s.accessed pd vaddr;
}

-- The loop of `get_victim`, on fuel.
pub victim_loop : ℕ → Frame → Option (ℕ × Frame)
victim_loop zero s = none
victim_loop (suc fuel) s = elim (get_next s.list_lru s.lru_clock) [
  | null ↦ none
  | tail ↦ none
  | elem e ↦
      let s' = record s { lru_clock = elem e } in
      let rest = victim_loop fuel (clear_accessed s' e) in
      if is_accessed s' e then rest else some (e, s')
]

pub get_victim : Frame → Option (ℕ × Frame)
unfolding victim_loop
get_victim s = victim_loop (length s.list_lru + 1) s
