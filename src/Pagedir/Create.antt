-- ===== src/Pagedir/Create.antt =====
-- The page table that `lookup_page` of pintos/src/userprog/pagedir.c creates.
use mathlib.Core.Path.{subst}
use sogang_pint_os.Common.{
  ℕ, ◌+◌, ◌-◌, ◌*◌, ◌/◌, ◌%◌, ◌^◌, ◌<◌, ◌≤◌, ◌≡◌, ◌≢◌, refl, sym, ap, ◌∙◌, ◌⊎◌, inl, inr, Bool,
  true, false, Option, some, arith, ltb, leb, ◌==◌, if◌then◌else◌, Bool-cases, ne→==_false, lt→ltb,
  ==_iff, ==_refl, obtain,
}
use sogang_pint_os.Common.Panic.{◌>>=◌}
use sogang_pint_os.Palloc.{Pools, Pool, palloc_get_page}
use sogang_pint_os.Palloc.OnePool
use sogang_pint_os.Palloc.OnePool.{in_use, Got, pages, no_room}
use sogang_pint_os.Bitmap.Scan.{IsGroup}
use sogang_pint_os.Bitmap.{bit}
use sogang_pint_os.Bitmap.Bit.{Holds}
use sogang_pint_os.Bitmap.Range.{within}
use sogang_pint_os.Palloc.Laws.{get_multiple_lem}
use sogang_pint_os.Pagedir.{
  Paging, phys_base, pt_no, pd_no, poke, zero_page, zeroed, create_table, entry_in_table,
  lookup_page,
}
use sogang_pint_os.Pagedir.Words.{table_entry}
use sogang_pint_os.Pagedir.Lookup.{
  dir_entry, table, slot, pte, Used, IsDirectory, pd_no-lt, entry_in_table_lem,
}

-- A page that the allocator gave: no page that was in use.
record Fresh (pools pools' : Pools) (pt : ℕ) : Type 0 where
  valid : OnePool.IsValid pools'
  base : pools'.kernel_pool.base ≡ pools.kernel_pool.base
  aligned : pt % 2 ^ 12 ≡ 0
  above : pools.kernel_pool.base ≤ pt
  below : pt + 2 ^ 12 ≤ 2 ^ 32
  new : (a : ℕ) → Used pools a → a ≢ pt
  kept : (a : ℕ) → Used pools a → Used pools' a
  taken : Used pools' pt

-- No page of the pool is free.
abbrev pub Full : Pool → Type 0
Full p = (k : ℕ) → ¬ IsGroup p.used_map 1 false k

-- The outcomes of asking for a page of the kernel's pool.
abbrev Page : Pools → ℕ × Pools → Type 0
Page pools out =
    Fresh pools out.1 out.0
    ⊎ ((out.0 ≡ 0)
        × OnePool.IsValid out.1
        × (out.1.kernel_pool ≡ pools.kernel_pool)
        × Full pools.kernel_pool)

-- One page was free and is taken, or the pool stays.
abbrev Taken : Pool → ℕ × Pool → Type 0
Taken p out =
    ((k : ℕ) × (out.0 ≡ p.base + 2 ^ 12 * k)
      × (out.1.base ≡ p.base)
      × (k + 1 ≤ p.used_map.bit_cnt)
      × (in_use p k ≡ false)
      × Holds p.used_map out.1.used_map (λ j. if within k 1 j then true else bit p.used_map j))
    ⊎ ((out.0 ≡ 0) × (out.1 ≡ p) × Full p)

Taken-of_Got : {p : Pool} {out : ℕ × Pool} → Got p 1 out → Taken p out
Taken-of_Got (pages addr k p' at base room free holds) =
    inl (k, at, base, room, free k (omega arith) (omega arith), holds)
Taken-of_Got (no_room addr e full) = inr (e, refl, full)

or_true : (b c : Bool) → c ≡ true → (if b then true else c) ≡ true
or_true true c h = refl
or_true false c h = h

just_within : (k j : ℕ) → k ≡ j → within k 1 j ≡ true
just_within k j h = ground arith

fresh :
    {pools pools' : Pools} {addr : ℕ}
    → OnePool.IsValid pools
    → OnePool.IsValid pools'
    → (k : ℕ) → addr ≡ pools.kernel_pool.base + 2 ^ 12 * k
    → pools'.kernel_pool.base ≡ pools.kernel_pool.base
    → k + 1 ≤ pools.kernel_pool.used_map.bit_cnt
    → in_use pools.kernel_pool k ≡ false
    → Holds pools.kernel_pool.used_map pools'.kernel_pool.used_map
        (λ j. if within k 1 j then true else bit pools.kernel_pool.used_map j)
    → Fresh pools pools' addr
fresh {pools} {pools'} {addr} v v' k at base room free holds = record {
  valid = v';
  base = base;
  aligned = omega (arith, at, v.kernel.aligned);
  above = omega (arith, at);
  below = omega (arith, at, room, v.kernel.fits);
  new = λ a used e. ground (arith, used k (e ∙ at) (omega arith), free);
  kept = λ a used j at' inside.
      holds.bits j
      ∙ or_true (within k 1 j) (bit pools.kernel_pool.used_map j)
          (used j (omega (arith, at', base)) (omega (arith, holds.size)));
  taken = λ j at' inside.
      holds.bits j
      ∙ ap (λ b. if b then true else bit pools.kernel_pool.used_map j)
          (just_within k j (omega (arith, at, at', base)));
}

outcome :
    {pools : Pools} {out : ℕ × Pools}
    → OnePool.IsValid pools
    → OnePool.IsValid out.1
    → Taken pools.kernel_pool (out.0, out.1.kernel_pool)
    → Page pools out
outcome v v' (inl (k, at, base, room, free, holds)) = inl (fresh v v' k at base room free holds)
outcome v v' (inr (e, same, full)) = inr (e, v', same, full)

get_page_lem :
    (pools : Pools)
    → OnePool.IsValid pools
    → (out : ℕ × Pools) × (palloc_get_page zeroed pools ≡ some out) × Page pools out
unfolding palloc_get_page
get_page_lem pools v = elim (get_multiple_lem zeroed 1 v (omega arith)) [
  | inl panic ↦ absurd (ground (arith, panic.1))
  | inr (out, run, a) ↦ (out, run, outcome v a.valid (Taken-of_Got a.got))
]

pub pte_of :
    (s : Paging) (pd ua e : ℕ)
    → dir_entry s pd ua ≡ e
    → pte s pd ua ≡ (if e == 0 then 0 else s.mem (table e + 4 * pt_no ua))
pte_of s pd ua e h = ap (λ d. if d == 0 then 0 else s.mem (table d + 4 * pt_no ua)) h

-- Memory with a page of zeros, and an entry that points to it.
abbrev linked : ℕ → ℕ → Pools → Paging → Paging
linked pde pt pools s = poke pde (pt - phys_base + 7) (zero_page pt (record s { pools = pools }))

module _ {pd : ℕ} {s : Paging} (v : IsDirectory pd s) (va : ℕ) (user : va < phys_base)
    (missing : dir_entry s pd va ≡ 0) {pt : ℕ} {pools : Pools} (f : Fresh s.pools pools pt) where
  abbrev s' : Paging
  s' = linked (pd + 4 * pd_no va) pt pools s

  -- The entry of the directory that points to the new table, and the others.
  entry_here : s'.mem (pd + 4 * pd_no va) ≡ pt - phys_base + 7
  entry_here = rw (==_refl (pd + 4 * pd_no va)) refl

  entry_there : (i : ℕ) → i < 768 → i ≢ pd_no va → s'.mem (pd + 4 * i) ≡ s.mem (pd + 4 * i)
  entry_there i h ne =
      let other : (pd + 4 * i == pd + 4 * pd_no va) ≡ false =
        ne→==_false _ _ (λ e. ne (omega arith)) in
      let apart : pd ≢ pt = f.new pd v.used in
      let outside : ((pd + 4 * i) / 2 ^ 12 == pt / 2 ^ 12) ≡ false =
        ne→==_false _ _ (λ e. apart (omega (arith, e, v.aligned, f.aligned))) in
      rw (other, outside) refl

  -- The words of page tables, old and new.
  word_there :
      (e k : ℕ)
      → k < 2 ^ 10
      → table e ≢ pd
      → table e ≢ pt
      → s'.mem (table e + 4 * k) ≡ s.mem (table e + 4 * k)
  word_there e k h apart_pd apart_pt =
      let other : (table e + 4 * k == pd + 4 * pd_no va) ≡ false =
        ne→==_false _ _ (λ q. apart_pd (omega (arith, q, v.aligned, user))) in
      let outside : ((table e + 4 * k) / 2 ^ 12 == pt / 2 ^ 12) ≡ false =
        ne→==_false _ _ (λ q. apart_pt (omega (arith, q, f.aligned))) in
      rw (other, outside) refl

  word_new : (k : ℕ) → k < 2 ^ 10 → s'.mem (pt + 4 * k) ≡ 0
  word_new k h =
      let apart : pd ≢ pt = f.new pd v.used in
      let other : (pt + 4 * k == pd + 4 * pd_no va) ≡ false =
        ne→==_false _ _ (λ q. apart (omega (arith, q, v.aligned, f.aligned, user))) in
      let inside : ((pt + 4 * k) / 2 ^ 12 == pt / 2 ^ 12) ≡ true =
        (==_iff _ _).1 (omega (arith, f.aligned)) in
      rw (other, inside) refl

  table_new : table (pt - phys_base + 7) ≡ pt
  table_new = omega (arith, f.aligned, f.above, v.kernel)

  same_entry : (ua : ℕ) → pd_no ua ≡ pd_no va → dir_entry s pd ua ≡ 0
  same_entry ua e = ap (λ i. s.mem (pd + 4 * i)) e ∙ missing

  -- The new table says of no address anything else than before.
  pte_same : (ua : ℕ) → ua < phys_base → pte s' pd ua ≡ pte s pd ua
  pte_same ua h = elim (Bool-cases (pd_no ua == pd_no va)) [
    | inl e ↦
        let here : dir_entry s' pd ua ≡ pt - phys_base + 7 =
          ap (λ i. s'.mem (pd + 4 * i)) ((==_iff _ _).0 e) ∙ entry_here in
        let set : (pt - phys_base + 7 == 0) ≡ false = ground arith in
        pte_of s' pd ua _ here
        ∙ rw (set, table_new, word_new (pt_no ua) (omega arith)) refl
        ∙ sym (pte_of s pd ua 0 (same_entry ua ((==_iff _ _).0 e)))
    | inr e ↦
        pte_of s' pd ua _ (entry_there (pd_no ua) (pd_no-lt ua h) (ground arith))
        ∙ elsewhere (Bool-cases (dir_entry s pd ua == 0))
  ]
    where
      elsewhere :
          (dir_entry s pd ua == 0) ≡ true ⊎ (dir_entry s pd ua == 0) ≡ false
          → (if dir_entry s pd ua == 0
              then 0
              else s'.mem (table (dir_entry s pd ua) + 4 * pt_no ua))
            ≡ pte s pd ua
      elsewhere (inl e) = rw e refl
      elsewhere (inr e) =
          let t = v.tables (pd_no ua) (pd_no-lt ua h) (ground arith) in
          rw (e, word_there (dir_entry s pd ua) (pt_no ua) (omega arith) t.2 (f.new _ t.3)) refl

  words_there : (a : ℕ) → s'.mem a < 2 ^ 32
  words_there a = elim (Bool-cases (a == pd + 4 * pd_no va)) [
    | inl e ↦ rw e (omega (arith, f.below, f.above, v.kernel))
    | inr e ↦ rw e (zero_or (Bool-cases (a / 2 ^ 12 == pt / 2 ^ 12)))
  ]
    where
      zero_or :
          (a / 2 ^ 12 == pt / 2 ^ 12) ≡ true ⊎ (a / 2 ^ 12 == pt / 2 ^ 12) ≡ false
          → (if a / 2 ^ 12 == pt / 2 ^ 12 then 0 else s.mem a) < 2 ^ 32
      zero_or (inl e) = rw e (omega arith)
      zero_or (inr e) = rw e (v.words a)

  abbrev IsTable : ℕ → Type 0
  IsTable e = (e % 2 ≡ 1) × (e < 2 ^ 30) × (table e ≢ pd) × Used pools (table e)

  new_IsTable : IsTable (pt - phys_base + 7)
  new_IsTable = (
    omega (arith, f.aligned, f.above, v.kernel),
    omega (arith, f.below, f.above, v.kernel),
    rw table_new (λ e. f.new pd v.used (sym e)),
    rw table_new f.taken,
  )

  tables_there : (i : ℕ) → i < 768 → s'.mem (pd + 4 * i) ≢ 0 → IsTable (s'.mem (pd + 4 * i))
  tables_there i h there = elim (Bool-cases (i == pd_no va)) [
    | inl e ↦
        subst IsTable (sym (ap (λ j. s'.mem (pd + 4 * j)) ((==_iff _ _).0 e) ∙ entry_here))
          new_IsTable
    | inr e ↦
        let same = entry_there i h (ground arith) in
        let t = v.tables i h (λ q. there (same ∙ q)) in
        subst IsTable (sym same) (t.0, t.1, t.2, f.kept _ t.3)
  ]

  -- The table of an entry is the new one, or one that was in use.
  old_table :
      (i : ℕ) → i < 768 → i ≢ pd_no va → s'.mem (pd + 4 * i) ≢ 0 → table (s'.mem (pd + 4 * i)) ≢ pt
  old_table i h ne there =
      let same = entry_there i h ne in
      let t = v.tables i h (λ q. there (same ∙ q)) in
      subst (λ e. table e ≢ pt) (sym same) (f.new _ t.3)

  new_table : (i : ℕ) → i ≡ pd_no va → table (s'.mem (pd + 4 * i)) ≡ pt
  new_table i e = ap table (ap (λ j. s'.mem (pd + 4 * j)) e ∙ entry_here) ∙ table_new

  apart_there :
      (i j : ℕ)
      → i < 768
      → j < 768
      → s'.mem (pd + 4 * i) ≢ 0
      → s'.mem (pd + 4 * j) ≢ 0
      → table (s'.mem (pd + 4 * i)) ≡ table (s'.mem (pd + 4 * j))
      → i ≡ j
  apart_there i j hi hj ti tj e = cases (Bool-cases (i == pd_no va)) (Bool-cases (j == pd_no va))
    where
      cases :
          (i == pd_no va) ≡ true ⊎ (i == pd_no va) ≡ false
          → (j == pd_no va) ≡ true ⊎ (j == pd_no va) ≡ false
          → i ≡ j
      cases (inl a) (inl b) = ground arith
      cases (inl a) (inr b) =
          absurd (old_table j hj (ground arith) tj (sym e ∙ new_table i ((==_iff _ _).0 a)))
      cases (inr a) (inl b) =
          absurd (old_table i hi (ground arith) ti (e ∙ new_table j ((==_iff _ _).0 b)))
      cases (inr a) (inr b) =
          let same_i = entry_there i hi (ground arith) in
          let same_j = entry_there j hj (ground arith) in
          v.apart i j hi hj (λ q. ti (same_i ∙ q)) (λ q. tj (same_j ∙ q))
            (ap table (sym same_i) ∙ e ∙ ap table same_j)

  linked-IsDirectory : IsDirectory pd s'
  linked-IsDirectory = record {
    pools = f.valid;
    kernel = rw f.base v.kernel;
    words = words_there;
    aligned = v.aligned;
    above = v.above;
    used = f.kept pd v.used;
    tables = tables_there;
    apart = apart_there;
    frames = λ ua h odd.
        subst (λ w. w < 2 ^ 30) (sym (pte_same ua h))
          (v.frames ua h (sym (ap (λ w. w % 2) (pte_same ua h)) ∙ odd));
  }

-- The allocator may change where the kernel's pool stays.
other_pools-IsDirectory :
    {pd : ℕ} {s : Paging}
    → IsDirectory pd s
    → (pools : Pools) → OnePool.IsValid pools
    → pools.kernel_pool ≡ s.pools.kernel_pool
    → IsDirectory pd (record s { pools = pools })
other_pools-IsDirectory {pd} {s} v pools valid same = record {
  pools = valid;
  kernel = subst (λ (p : Pool). phys_base ≤ p.base) (sym same) v.kernel;
  words = v.words;
  aligned = v.aligned;
  above = v.above;
  used = moved pd v.used;
  tables = λ i h there.
      let t = v.tables i h there in (t.0, t.1, t.2, moved (table (s.mem (pd + 4 * i))) t.3);
  apart = v.apart;
  frames = v.frames;
}
  where
    moved : (a : ℕ) → Used s.pools a → Used pools a
    moved a =
        subst
          (λ (p : Pool).
            (k : ℕ) → a ≡ p.base + 2 ^ 12 * k → k < p.used_map.bit_cnt → in_use p k ≡ true)
          (sym same)

-- What `lookup_page` finds when it may create a table: the entry of the page, with no other entry
-- changed, or nothing for want of memory.
pub record Found (pd va : ℕ) (s : Paging) (out : ℕ × Paging) : Type 0 where
  pub valid : IsDirectory pd out.1
  pub same : (ua : ℕ) → ua < phys_base → pte out.1 pd ua ≡ pte s pd ua
  pub at :
      (out.0 ≡ 0) × (dir_entry s pd va ≡ 0) × Full s.pools.kernel_pool
      ⊎ (out.0 ≡ slot out.1 pd va) × (dir_entry out.1 pd va ≢ 0)
  pub kept : out.1.init_page_dir ≡ s.init_page_dir

create_table_lem :
    {pd : ℕ} {s : Paging}
    → IsDirectory pd s
    → (pt : ℕ) (pools : Pools) → Fresh s.pools pools pt
    → palloc_get_page zeroed s.pools ≡ some (pt, pools)
    → (pde : ℕ) → create_table pde s ≡ some (true, linked pde pt pools s)
unfolding create_table
create_table_lem {pd} {s} v pt pools f run pde =
    let some_page : (pt == 0) ≡ false = ground (arith, f.above, v.kernel) in
    let kernel : leb phys_base pt ≡ true = ground (arith, f.above, v.kernel) in
    rw
      (
        run,
        some_page,
        f.aligned,
        kernel,
        table_entry (pt - phys_base) (omega (arith, f.above, v.kernel, f.aligned)),
      )
      refl

no_table :
    (s : Paging) {pools : Pools} {addr : ℕ} (pde : ℕ)
    → palloc_get_page zeroed s.pools ≡ some (addr, pools)
    → addr ≡ 0
    → create_table pde s ≡ some (false, record s { pools = pools })
unfolding create_table
no_table s pde run e = rw (run, e) refl

-- What follows in `lookup_page` when the entry of the directory was missing.
abbrev after_create : ℕ → ℕ → Option (Bool × Paging) → Option (ℕ × Paging)
after_create pde va created_table = do
  (created, s') ← created_table
  if created then entry_in_table pde va s' else some (0, s')

created_lem :
    {pd : ℕ} {s : Paging}
    → IsDirectory pd s
    → (va : ℕ) → va < phys_base
    → dir_entry s pd va ≡ 0
    → (out : ℕ × Paging) × (after_create (pd + 4 * pd_no va) va (create_table (pd + 4 * pd_no va) s)
        ≡ some out)
      × Found pd va s out
created_lem {pd} {s} v va user missing =
    obtain (get_page_lem s.pools v.pools) λ (pt, pools) run page. elim page [
      | inl f ↦
          let v' = linked-IsDirectory v va user missing f in
          let here = entry_here v va user missing f in
          let there : dir_entry (linked (pd + 4 * pd_no va) pt pools s) pd va ≢ 0 =
            λ e. absurd (omega (arith, sym here ∙ e)) in
          (
            (_, linked (pd + 4 * pd_no va) pt pools s),
            rw (create_table_lem v pt pools f run (pd + 4 * pd_no va))
                (entry_in_table_lem v' va user there),
            record {
              valid = v';
              same = pte_same v va user missing f;
              at = inr (refl, there);
              kept = refl;
            },
          )
      | inr (e, valid, same, full) ↦ (
        (0, record s { pools = pools }),
        rw (no_table s (pd + 4 * pd_no va) run e) refl,
        record {
          valid = other_pools-IsDirectory v pools valid same;
          same = λ ua h. refl;
          at = inl (refl, missing, full);
          kept = refl;
        },
      )
    ]

pub lookup_create_lem :
    {pd : ℕ} {s : Paging}
    → IsDirectory pd s
    → (va : ℕ) → va < phys_base
    → (out : ℕ × Paging) × (lookup_page pd va true s ≡ some out) × Found pd va s out
unfolding lookup_page
lookup_create_lem {pd} {s} v va user =
    let not_null : (pd == 0) ≡ false = ground (arith, v.above) in
    let is_user : ltb va phys_base ≡ true = lt→ltb va phys_base user in
    elim (Bool-cases (dir_entry s pd va == 0)) [
      | inr e ↦ (
        (slot s pd va, s),
        rw (not_null, is_user, e) (entry_in_table_lem v va user (ground arith)),
        record { valid = v; same = λ ua h. refl; at = inr (refl, ground arith); kept = refl },
      )
      | inl e ↦
          let (out, run, found) = created_lem v va user (ground arith) in
          (out, rw (not_null, is_user, e) run, found)
    ]
