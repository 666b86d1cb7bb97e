-- ===== src/Pagedir/Laws.antt =====
-- What the operations on page directories of pintos/src/userprog/pagedir.c do to the pages of a user.
use Prim.Native.Nat.{bit_and}
use mathlib.Core.Path.{subst}
use sogang_pint_os.Common.{
  ℕ, ◌+◌, ◌-◌, ◌*◌, ◌/◌, ◌%◌, ◌^◌, ◌<◌, ◌≤◌, ◌≡◌, ◌≢◌, refl, sym, ap, ◌∙◌, inl, inr, Bool, true,
  false, not, ◌&&◌, Option, some, arith, ltb, ◌==◌, if◌then◌else◌, Bool-cases, ne→==_false, lt→ltb,
  le→leb, ==_iff, obtain,
}
use sogang_pint_os.Common.Panic.{◌>>=◌, ◌>>◌, assert}
use sogang_pint_os.Pagedir.{
  Paging, phys_base, pt_no, pd_no, poke, pte_p, complement, flag_in, pte_get_page, pte_create_user,
  invalidate_pagedir, pagedir_get_page, pagedir_set_page, pagedir_clear_page,
}
use sogang_pint_os.Pagedir.Words.{present, address, page_entry, user_flags, reset_present}
use sogang_pint_os.Pagedir.Lookup.{dir_entry, table, slot, pte, IsDirectory, lookup_lem}
use sogang_pint_os.Pagedir.Create.{Full, Found, lookup_create_lem}
use sogang_pint_os.Pagedir.Poke.{pte-poke, poke-IsDirectory}

-- The kernel address that the entry of a user's page gives, or null.
abbrev pub resolve : ℕ → ℕ → ℕ
resolve e ua = if e % 2 == 1 then table e + ua % 2 ^ 12 else 0

-- What `pagedir_get_page` answers for a word.
abbrev answer : ℕ → ℕ → Option ℕ
answer w ua =
    if flag_in pte_p w then (do page ← pte_get_page w; some (page + ua % 2 ^ 12)) else some 0

answer_lem : (w ua : ℕ) → w < 2 ^ 32 → (w % 2 ≡ 1 → w < 2 ^ 30) → answer w ua ≡ some (resolve w ua)
unfolding pte_get_page
answer_lem w ua word frame = elim (Bool-cases (w % 2 == 1)) [
  | inl e ↦
      let odd : w % 2 ≡ 1 = (==_iff _ _).0 e in
      let set : bit_and w 1 ≡ 1 = present w ∙ odd in
      let low : ltb (2 ^ 12 * (w / 2 ^ 12)) phys_base ≡ true =
        lt→ltb _ _ (omega (arith, frame odd)) in
      rw (set, address w word, low, e) refl
  | inr e ↦ let clear : bit_and w 1 ≡ 0 = present w ∙ ground arith in rw (clear, e) refl
]

pub get_page_lem :
    {pd : ℕ} {s : Paging}
    → IsDirectory pd s
    → (ua : ℕ) → ua < phys_base
    → pagedir_get_page pd ua s ≡ some (resolve (pte s pd ua) ua)
unfolding pagedir_get_page
get_page_lem {pd} {s} v ua user =
    rw (lt→ltb ua phys_base user, lookup_lem v ua user)
      (elim (Bool-cases (dir_entry s pd ua == 0)) [
        | inl e ↦ rw e refl
        | inr e ↦
            let some_slot : (slot s pd ua == 0) ≡ false = ground arith in
            let one : pte s pd ua ≡ s.mem (slot s pd ua) =
              ap (λ b. if b then 0 else s.mem (slot s pd ua)) e in
            rw (e, some_slot)
              (answer_lem (s.mem (slot s pd ua)) ua (v.words (slot s pd ua))
                (λ odd. subst (λ w. w < 2 ^ 30) one (v.frames ua user (ap (λ w. w % 2) one ∙ odd))))
      ])

-- The entry that `pagedir_set_page` writes.
abbrev mapped : ℕ → Bool → ℕ
mapped kpage writable = kpage - phys_base + user_flags writable

mapped_lem :
    (kpage : ℕ) (writable : Bool)
    → kpage % 2 ^ 12 ≡ 0
    → phys_base ≤ kpage
    → pte_create_user kpage writable ≡ some (mapped kpage writable)
unfolding pte_create_user
mapped_lem kpage writable aligned kernel =
    rw
      (
        aligned,
        le→leb phys_base kpage kernel,
        page_entry (kpage - phys_base) writable (omega arith),
      )
      refl

mapped_facts :
    (kpage : ℕ) (writable : Bool)
    → kpage % 2 ^ 12 ≡ 0
    → phys_base ≤ kpage
    → kpage < 2 ^ 32
    → (mapped kpage writable % 2 ≡ 1)
      × (mapped kpage writable < 2 ^ 30)
      × (table (mapped kpage writable) ≡ kpage)
mapped_facts kpage true aligned kernel word =
    (omega (arith, aligned), omega (arith, aligned), omega (arith, aligned))
mapped_facts kpage false aligned kernel word =
    (omega (arith, aligned), omega (arith, aligned), omega (arith, aligned))

-- The end of `pagedir_set_page`.
abbrev set_entry : ℕ → Bool → ℕ × Paging → Option (Bool × Paging)
set_entry kpage writable out = if out.0 == 0 then some (false, out.1) else (do
  assert (bit_and (out.1.mem out.0) pte_p == 0)
  entry ← pte_create_user kpage writable
  some (true, poke out.0 entry out.1))

-- What `pagedir_set_page` does to the addresses of the user.
abbrev pub IsMapped : ℕ → Paging → ℕ → ℕ → Bool × Paging → Type 0
IsMapped pd s upage kpage out =
    IsDirectory pd out.1
    × (out.0 ≡ false → (dir_entry s pd upage ≡ 0) × Full s.pools.kernel_pool)
    × ((ua : ℕ)
        → ua < phys_base
        → pagedir_get_page pd ua out.1 ≡ (
            if out.0 && (ua / 2 ^ 12 == upage / 2 ^ 12)
            then some (kpage + ua % 2 ^ 12)
            else pagedir_get_page pd ua s))

resolve_same :
    {pd : ℕ} {s s' : Paging}
    → IsDirectory pd s
    → IsDirectory pd s'
    → (ua : ℕ) → ua < phys_base
    → pte s' pd ua ≡ pte s pd ua
    → pagedir_get_page pd ua s' ≡ pagedir_get_page pd ua s
resolve_same v v' ua h e =
    get_page_lem v' ua h ∙ ap (λ w. some (resolve w ua)) e ∙ sym (get_page_lem v ua h)

absent : (w : ℕ) (ua : ℕ) → some (resolve w ua) ≡ some 0 → bit_and w pte_p ≡ 0
absent w ua h = present w ∙ ground arith

-- One of two entries, resolved.
chosen :
    (w e : ℕ) {kpage : ℕ} {o : Option ℕ} (b : Bool) (ua : ℕ)
    → w % 2 ≡ 1
    → table w ≡ kpage
    → some (resolve e ua) ≡ o
    → some (resolve (if b then w else e) ua) ≡ (if b then some (kpage + ua % 2 ^ 12) else o)
chosen w e true ua odd at other = rw (odd, at) refl
chosen w e false ua odd at other = other

set_entry_lem :
    {pd : ℕ} {s : Paging}
    → IsDirectory pd s
    → (upage kpage : ℕ) (writable : Bool) → upage < phys_base
    → (kpage % 2 ^ 12 ≡ 0) × (phys_base ≤ kpage) × (kpage < 2 ^ 32)
    → pagedir_get_page pd upage s ≡ some 0
    → (out : ℕ × Paging) → Found pd upage s out
    → (res : Bool × Paging) × (set_entry kpage writable out ≡ some res)
      × IsMapped pd s upage kpage res
set_entry_lem {pd} {s} v upage kpage writable user k unmapped (a, s₁) found = elim found.at [
  | inl (e, missing, full) ↦ (
    (false, s₁),
    rw e refl,
    (
      found.valid,
      (λ x. (missing, full)),
      λ ua h. resolve_same v found.valid ua h (found.same ua h),
    ),
  )
  | inr (at, there) ↦
      let facts = mapped_facts kpage writable k.0 k.1 k.2 in
      let v' =
        poke-IsDirectory found.valid upage user there (mapped kpage writable)
          (omega (arith, facts.1)) (λ odd. facts.1) in
      let some_slot : (slot s₁ pd upage == 0) ≡ false = ground arith in
      let one : pte s₁ pd upage ≡ s₁.mem (slot s₁ pd upage) =
        ap (λ b. if b then 0 else s₁.mem (slot s₁ pd upage)) (ne→==_false _ _ there) in
      let free : bit_and (s₁.mem (slot s₁ pd upage)) pte_p ≡ 0 =
        ap (λ w. bit_and w pte_p) (sym one ∙ found.same upage user)
        ∙ absent (pte s pd upage) upage (sym (get_page_lem v upage user) ∙ unmapped) in
      (
        (true, poke (slot s₁ pd upage) (mapped kpage writable) s₁),
        rw (at, some_slot, free, mapped_lem kpage writable k.0 k.1) refl,
        (
          v',
          (λ x. absurd (ground (arith, x))),
          λ ua h.
              get_page_lem v' ua h
              ∙ ap (λ w. some (resolve w ua))
                  (pte-poke found.valid upage user there (mapped kpage writable) ua h)
              ∙ chosen (mapped kpage writable) (pte s₁ pd ua) (ua / 2 ^ 12 == upage / 2 ^ 12) ua
                  facts.0 facts.2
                  (ap (λ w. some (resolve w ua)) (found.same ua h) ∙ sym (get_page_lem v ua h)),
        ),
      )
]

-- A page of the user that is not mapped is mapped to a page of the kernel's memory, in a directory other
-- than that of init.c: every ASSERT passes, and the directory stays well-formed. It fails only for want of
-- a free page for a page table, and then each address of the user is found where it was. Otherwise each
-- address of the page is found at its offset in the kernel's page, and all others where they were, or not
-- at all as before.
pub set_page_lem :
    {pd : ℕ} {s : Paging}
    → IsDirectory pd s
    → (upage kpage : ℕ) (writable : Bool) → (upage % 2 ^ 12 ≡ 0) × (upage < phys_base)
    → (kpage % 2 ^ 12 ≡ 0) × (phys_base ≤ kpage) × (kpage < 2 ^ 32)
    → (kpage - phys_base) / 2 ^ 12 < s.init_ram_pages
    → pd ≢ s.init_page_dir
    → pagedir_get_page pd upage s ≡ some 0
    → (out : Bool × Paging) × (pagedir_set_page pd upage kpage writable s ≡ some out)
      × IsMapped pd s upage kpage out
unfolding pagedir_set_page
set_page_lem {pd} {s} v upage kpage writable u k ram own unmapped =
    obtain (lookup_create_lem v upage u.1) λ found_at run found.
      let (out, end, mapping) =
        set_entry_lem v upage kpage writable u.1 k unmapped found_at found in
      (
        out,
        rw
            (
              run,
              u.0,
              k.0,
              lt→ltb upage phys_base u.1,
              le→leb phys_base kpage k.1,
              lt→ltb _ _ ram,
              ne→==_false pd s.init_page_dir own,
            )
            end,
        mapping,
      )

pub reload-IsDirectory :
    {pd : ℕ} {s : Paging} → IsDirectory pd s → (c : ℕ) → IsDirectory pd (record s { cr3 = c })
reload-IsDirectory v c = record {
  pools = v.pools;
  kernel = v.kernel;
  words = v.words;
  aligned = v.aligned;
  above = v.above;
  used = v.used;
  tables = v.tables;
  apart = v.apart;
  frames = v.frames;
}

pub invalidate_lem :
    (pd : ℕ) (s : Paging)
    → phys_base ≤ pd
    → s.cr3 < phys_base
    → (c : ℕ) × (invalidate_pagedir pd s ≡ some (record s { cr3 = c }))
unfolding invalidate_pagedir
invalidate_lem pd s above active = elim (Bool-cases (s.cr3 + phys_base == pd)) [
  | inl e ↦
      let not_null : (pd == 0) ≡ false = ground arith in
      (
        pd - phys_base,
        rw (lt→ltb s.cr3 phys_base active, e, not_null, le→leb phys_base pd above) refl,
      )
  | inr e ↦ (s.cr3, rw (lt→ltb s.cr3 phys_base active, e) refl)
]

-- The addresses of a page share its entry.
pub same_page : (s : Paging) (pd ua va : ℕ) → ua / 2 ^ 12 ≡ va / 2 ^ 12 → pte s pd ua ≡ pte s pd va
same_page s pd ua va e =
    let same_pd : pd_no ua ≡ pd_no va = omega (arith, e) in
    let same_pt : pt_no ua ≡ pt_no va = omega (arith, e) in
    ap
      (λ i.
        if s.mem (pd + 4 * i) == 0 then 0 else s.mem (table (s.mem (pd + 4 * i)) + 4 * pt_no ua))
      same_pd
    ∙ ap
        (λ (k : ℕ). if dir_entry s pd va == 0 then 0 else s.mem (table (dir_entry s pd va) + 4 * k))
        same_pt

kept_if : (b : Bool) (o p : Option ℕ) → (b ≡ true → p ≡ o) → p ≡ (if b then o else p)
kept_if true o p h = h refl
kept_if false o p h = refl

-- What `pagedir_clear_page` does to the addresses of the user.
abbrev pub IsCleared : ℕ → Paging → ℕ → Paging → Type 0
IsCleared pd s upage s' =
    IsDirectory pd s'
    × ((ua : ℕ)
        → ua < phys_base
        → pagedir_get_page pd ua s'
          ≡ (if ua / 2 ^ 12 == upage / 2 ^ 12 then some 0 else pagedir_get_page pd ua s))

-- Nothing is to be done for a page that is not present.
not_present :
    {pd : ℕ} {s : Paging}
    → IsDirectory pd s
    → (upage : ℕ) → pte s pd upage % 2 ≡ 0
    → IsCleared pd s upage s
not_present {pd} {s} v upage even = (
  v,
  λ ua h. kept_if (ua / 2 ^ 12 == upage / 2 ^ 12) (some 0) (pagedir_get_page pd ua s) (λ e.
      let none_there : pte s pd ua % 2 ≡ 0 =
        ap (λ w. w % 2) (same_page s pd ua upage ((==_iff _ _).0 e)) ∙ even in
      get_page_lem v ua h ∙ rw none_there refl),
)

reset_or :
    (w e : ℕ) {o : Option ℕ} (b : Bool) (ua : ℕ)
    → w % 2 ≡ 0
    → some (resolve e ua) ≡ o
    → some (resolve (if b then w else e) ua) ≡ (if b then some 0 else o)
reset_or w e true ua even other = rw even refl
reset_or w e false ua even other = other

-- The end of `pagedir_clear_page`.
abbrev clear_entry : ℕ → ℕ → Paging → Option Paging
clear_entry pd pte s =
    if not (pte == 0) && flag_in pte_p (s.mem pte)
    then invalidate_pagedir pd (poke pte (bit_and (s.mem pte) (complement pte_p)) s)
    else some s

clear_entry_lem :
    {pd : ℕ} {s : Paging}
    → IsDirectory pd s
    → (upage : ℕ) → upage < phys_base
    → s.cr3 < phys_base
    → dir_entry s pd upage ≢ 0
    → (s' : Paging) × (clear_entry pd (slot s pd upage) s ≡ some s') × IsCleared pd s upage s'
clear_entry_lem {pd} {s} v upage user active there =
    let some_slot : (slot s pd upage == 0) ≡ false = ground arith in
    let one : pte s pd upage ≡ s.mem (slot s pd upage) =
      ap (λ b. if b then 0 else s.mem (slot s pd upage)) (ne→==_false _ _ there) in
    elim (Bool-cases (s.mem (slot s pd upage) % 2 == 1)) [
      | inl e ↦
          let set : bit_and (s.mem (slot s pd upage)) pte_p ≡ 1 =
            present (s.mem (slot s pd upage)) ∙ (==_iff _ _).0 e in
          let w = bit_and (s.mem (slot s pd upage)) (complement pte_p) in
          let reset = reset_present (s.mem (slot s pd upage)) (v.words (slot s pd upage)) in
          let v' =
            poke-IsDirectory v upage user there w reset.1
              (λ odd. absurd (omega (arith, odd, reset.0))) in
          let (c, run) = invalidate_lem pd (poke (slot s pd upage) w s) v.above active in
          (
            record (poke (slot s pd upage) w s) { cr3 = c },
            rw (some_slot, set) run,
            (
              reload-IsDirectory v' c,
              λ ua h.
                  get_page_lem (reload-IsDirectory v' c) ua h
                  ∙ ap (λ x. some (resolve x ua)) (pte-poke v upage user there w ua h)
                  ∙ reset_or w (pte s pd ua) (ua / 2 ^ 12 == upage / 2 ^ 12) ua reset.0
                      (sym (get_page_lem v ua h)),
            ),
          )
      | inr e ↦
          let clear : bit_and (s.mem (slot s pd upage)) pte_p ≡ 0 =
            present (s.mem (slot s pd upage)) ∙ ground arith in
          (s, rw (some_slot, clear) refl, not_present v upage (ap (λ w. w % 2) one ∙ ground arith))
    ]

-- `pagedir_clear_page` with a directory of the kernel's memory active passes its ASSERTs and keeps the
-- directory well-formed: no address of the page is found afterwards, and all other addresses of the user
-- where they were.
pub clear_page_lem :
    {pd : ℕ} {s : Paging}
    → IsDirectory pd s
    → (upage : ℕ) → (upage % 2 ^ 12 ≡ 0) × (upage < phys_base)
    → s.cr3 < phys_base
    → (s' : Paging) × (pagedir_clear_page pd upage s ≡ some s') × IsCleared pd s upage s'
unfolding pagedir_clear_page
clear_page_lem {pd} {s} v upage u active =
    rw (lookup_lem v upage u.1, u.0, lt→ltb upage phys_base u.1)
      (elim (Bool-cases (dir_entry s pd upage == 0)) [
        | inl e ↦ rw e (
          s,
          refl,
          not_present v upage (ap (λ b. (if b then 0 else s.mem (slot s pd upage)) % 2) e),
        )
        | inr e ↦ rw e (clear_entry_lem v upage u.1 active (ground arith))
      ])
