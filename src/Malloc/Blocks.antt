-- ===== src/Malloc/Blocks.antt =====
-- The blocks of an arena that is in use: taking the front block of a free list and giving it back
-- (pintos/src/threads/malloc.c).
use sogang_pint_os.Common.{
  ℕ, ◌+◌, ◌-◌, ◌%◌, ◌^◌, ◌<◌, ◌≡◌, ◌≢◌, refl, sym, ap, ◌∙◌, inl, inr, Bool, true, false, some, List,
  ◌∷◌, arith, leb, ◌==◌, Bool-cases, ==_iff, ==_refl, ne→==_false,
}
use sogang_pint_os.Palloc.{pool_of}
use sogang_pint_os.Palloc.OnePool.{in_use}
use sogang_pint_os.Malloc.{
  Arena, Malloc, put_desc, put_arena, pg_round_down, is_aligned, block_to_arena, take_block,
  take_front, free_block, free,
}

abbrev pub header : ℕ → ℕ → Arena
header d c = record { desc = some d; free_cnt = c }

-- Block `b` of descriptor `d` lies in an arena that has `c` free blocks.
pub record IsBlock (s : Malloc) (d b c : ℕ) : Type 0 where
  pub not_null : pg_round_down b ≢ 0
  pub arena : s.arenas (pg_round_down b) ≡ some (header d c)
  pub aligned : is_aligned s b (some d) ≡ true

-- The state after the block in front was taken.
abbrev pub taken : ℕ → ℕ → List ℕ → ℕ → Malloc → Malloc
taken d b bs c s =
    put_arena (pg_round_down b) (header d ((c + 2 ^ 32 - 1) % 2 ^ 32))
      (put_desc d (record (s.descs d) { free_list = bs }) s)

pub block_to_arena_lem :
    {s : Malloc} {d b c : ℕ}
    → IsBlock s d b c
    → block_to_arena s b ≡ some (pg_round_down b, header d c)
unfolding block_to_arena
block_to_arena_lem v = rw (ne→==_false _ _ v.not_null, v.arena, v.aligned) refl

put_desc-IsBlock :
    {s : Malloc} {d b c : ℕ}
    → IsBlock s d b c
    → (bs : List ℕ) → IsBlock (put_desc d (record (s.descs d) { free_list = bs }) s) d b c
unfolding is_aligned
put_desc-IsBlock {s} {d} v bs = record {
  not_null = v.not_null;
  arena = v.arena;
  aligned = rw (==_refl d) v.aligned;
}

put_arena-IsBlock :
    {s : Malloc} {d b c : ℕ}
    → IsBlock s d b c
    → (c' : ℕ) → IsBlock (put_arena (pg_round_down b) (header d c') s) d b c'
unfolding is_aligned
put_arena-IsBlock {s} {d} {b} v c' = record {
  not_null = v.not_null;
  arena = rw (==_refl (pg_round_down b)) refl;
  aligned = v.aligned;
}

pub taken-IsBlock :
    {s : Malloc} {d b c : ℕ}
    → IsBlock s d b c
    → (bs : List ℕ) → IsBlock (taken d b bs c s) d b ((c + 2 ^ 32 - 1) % 2 ^ 32)
taken-IsBlock {s} {d} {b} {c} v bs =
    put_arena-IsBlock (put_desc-IsBlock v bs) ((c + 2 ^ 32 - 1) % 2 ^ 32)

pub take_block_lem :
    {s : Malloc} {d b c : ℕ}
    → IsBlock s d b c
    → (bs : List ℕ) → (s.descs d).free_list ≡ b ∷ bs
    → take_block d s ≡ some (b, taken d b bs c s)
unfolding take_block take_front
take_block_lem v bs front = rw (front, block_to_arena_lem (put_desc-IsBlock v bs)) refl

pub not_null-of_IsBlock : {s : Malloc} {d b c : ℕ} → IsBlock s d b c → b ≢ 0
not_null-of_IsBlock v e = v.not_null (omega (arith, e))

pub free-of_IsBlock :
    {s : Malloc} {d b c : ℕ}
    → IsBlock s d b c
    → free b s ≡ free_block b d (pg_round_down b) (header d c) s
unfolding free
free-of_IsBlock v = rw (ne→==_false _ _ (not_null-of_IsBlock v), block_to_arena_lem v) refl

-- What giving a block back restores: every descriptor with its free list, and the pages in use.
pub record Restored (s s'' : Malloc) : Type 0 where
  pub descs : (k : ℕ) → s''.descs k ≡ s.descs k
  pub count : s''.desc_cnt ≡ s.desc_cnt
  pub pages :
      (user : Bool) (j : ℕ) → in_use (pool_of s''.pools user) j ≡ in_use (pool_of s.pools user) j

-- A descriptor that was changed and then got its free list back.
same_desc :
    (s : Malloc) (d : ℕ) (bs : List ℕ) (k : ℕ)
    → (put_desc d
          (record (s.descs d) { free_list = (s.descs d).free_list })
          (put_desc d (record (s.descs d) { free_list = bs }) s)).descs
        k
      ≡ s.descs k
same_desc s d bs k = elim (Bool-cases (k == d)) [
  | inl y ↦ rw y (ap s.descs (sym ((==_iff k d).0 y)))
  | inr n ↦ rw n refl
]

-- A block of an arena that has other blocks in use, and before had at least one free.
pub free-taken :
    {s : Malloc} {d b c : ℕ}
    → IsBlock s d b c
    → (bs : List ℕ) → (s.descs d).free_list ≡ b ∷ bs
    → 0 < c
    → c < (s.descs d).blocks_per_arena
    → c < 2 ^ 32
    → (s'' : Malloc) × (free b (taken d b bs c s) ≡ some s'') × Restored s s''
unfolding free_block
free-taken {s} {d} {b} {c} v bs front pos part word =
    let back : ((c + 2 ^ 32 - 1) % 2 ^ 32 + 1) % 2 ^ 32 ≡ c = omega arith in
    let in_part : leb (s.descs d).blocks_per_arena c ≡ false = ground arith in
    (
      put_desc d (record (s.descs d) { free_list = b ∷ bs })
          (put_arena (pg_round_down b) (header d c) (taken d b bs c s)),
      free-of_IsBlock (taken-IsBlock v bs) ∙ rw (==_refl d, back, in_part) refl,
      record {
        descs = λ k. rw (sym front) (same_desc s d bs k);
        count = refl;
        pages = λ user j. refl;
      },
    )
