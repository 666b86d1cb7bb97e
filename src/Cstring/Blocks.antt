-- ===== src/Cstring/Blocks.antt =====
-- Copying, filling and comparing blocks: memcpy, memmove, memset and memcmp of pintos/src/lib/string.c.
use sogang_pint_os.Common.{
  ℕ, zero, suc, ◌+◌, ◌-◌, ◌≤◌, ◌<◌, ◌≡◌, ◌≢◌, refl, ◌∙◌, ◌⊎◌, inl, inr, Bool, true, false, ◌&&◌,
  some, arith, ltb, leb, ◌==◌, if◌then◌else◌, Bool-cases, ne→==_false, ◌%◌,
}
use sogang_pint_os.Common.Int.{ℤ, pos, negsuc}
use sogang_pint_os.Cstring.{
  Memory, write, usable, copy_up, copy_down, memcpy, memmove, memcmp_loop, memcmp, fill, memset,
}

-- The address `k` lies in the block.
abbrev pub in_block : ℕ → ℕ → ℕ → Bool
in_block start size k = leb start k && ltb k (start + size)

pub in_block-inside :
    (start size k : ℕ) → start ≤ k → k < start + size → in_block start size k ≡ true
in_block-inside start size k lo hi = ground arith

in_block-outside : (start size k : ℕ) → k < start ⊎ start + size ≤ k → in_block start size k ≡ false
in_block-outside start size k out = ground arith

in_block-cases :
    (start size k : ℕ) → ((start ≤ k) × (k < start + size)) ⊎ (k < start ⊎ start + size ≤ k)
in_block-cases start size k = ground arith

-- The memory after the `size` bytes at `src` have been copied to `dst`.
abbrev pub moved : ℕ → ℕ → ℕ → Memory → Memory
moved size dst src m k = if in_block dst size k then m (src + (k - dst)) else m k

-- Copying upwards is right if a byte is read before its place is written.
copy_up_lem :
    (size dst src : ℕ) (m : Memory)
    → dst ≤ src ⊎ src + size ≤ dst
    → (k : ℕ) → copy_up size dst src m k ≡ moved size dst src m k
unfolding copy_up
copy_up_lem zero dst src m apart k = rw (in_block-outside dst 0 k (ground arith)) refl
copy_up_lem (suc size) dst src m apart k =
    copy_up_lem size (dst + 1) (src + 1) (write dst (m src) m) (ground arith) k
    ∙ step (in_block-cases (dst + 1) size k)
  where
    step :
        ((dst + 1 ≤ k) × (k < dst + 1 + size)) ⊎ (k < dst + 1 ⊎ dst + 1 + size ≤ k)
        → moved size (dst + 1) (src + 1) (write dst (m src) m) k ≡ moved (suc size) dst src m k
    step (inl (lo, hi)) =
        let from : src + 1 + (k - (dst + 1)) ≡ src + (k - dst) = omega arith in
        let away : dst ≢ src + (k - dst) = (λ e. absurd (ground arith)) in
        rw
          (
            in_block-inside (dst + 1) size k lo hi,
            in_block-inside dst (suc size) k (omega arith) (omega arith),
            from,
            ne→==_false dst (src + (k - dst)) away,
          )
          refl
    step (inr out) = elim (Bool-cases (dst == k)) [
      | inl e ↦
          let here : k ≡ dst = ground arith in
          let from : src + (k - dst) ≡ src = ground arith in
          rw
            (
              in_block-outside (dst + 1) size k out,
              e,
              in_block-inside dst (suc size) k (omega (arith, here)) (omega (arith, here)),
              from,
            )
            refl
      | inr e ↦
          rw
            (
              in_block-outside (dst + 1) size k out,
              e,
              in_block-outside dst (suc size) k (ground arith),
            )
            refl
    ]

copy_down_lem :
    (size dst src : ℕ) (m : Memory)
    → src ≤ dst
    → (k : ℕ) → copy_down size (dst + size) (src + size) m k ≡ moved size dst src m k
unfolding copy_down
copy_down_lem zero dst src m apart k = rw (in_block-outside dst 0 k (ground arith)) refl
copy_down_lem (suc size) dst src m apart k =
    let top : dst + suc size - 1 ≡ dst + size = omega arith in
    let top' : src + suc size - 1 ≡ src + size = omega arith in
    rw (top, top')
      (copy_down_lem size dst src (write (dst + size) (m (src + size)) m) apart k
        ∙ step (in_block-cases dst size k))
  where
    step :
        ((dst ≤ k) × (k < dst + size)) ⊎ (k < dst ⊎ dst + size ≤ k)
        → moved size dst src (write (dst + size) (m (src + size)) m) k
          ≡ moved (suc size) dst src m k
    step (inl (lo, hi)) =
        let away : dst + size ≢ src + (k - dst) = (λ e. absurd (omega arith)) in
        rw
          (
            in_block-inside dst size k lo hi,
            in_block-inside dst (suc size) k lo (omega arith),
            ne→==_false (dst + size) (src + (k - dst)) away,
          )
          refl
    step (inr out) = elim (Bool-cases (dst + size == k)) [
      | inl e ↦
          let here : k ≡ dst + size = ground arith in
          let from : src + (k - dst) ≡ src + size = omega (arith, here) in
          rw
            (
              in_block-outside dst size k out,
              e,
              in_block-inside dst (suc size) k (omega (arith, here)) (omega (arith, here)),
              from,
            )
            refl
      | inr e ↦
          rw (in_block-outside dst size k out, e, in_block-outside dst (suc size) k (ground arith))
            refl
    ]

usable_lem : (p size : ℕ) → p ≢ 0 → usable p size ≡ true
usable_lem p size ne = rw (ne→==_false p 0 ne) refl

-- `memcpy` of blocks that do not overlap returns `dst`; afterwards the `size` bytes at `dst` are those
-- that were at `src`, and no other byte has changed.
pub memcpy_lem :
    (dst src size : ℕ) (m : Memory)
    → dst ≢ 0
    → src ≢ 0
    → dst + size ≤ src ⊎ src + size ≤ dst
    → (m' : Memory) × (memcpy dst src size m ≡ some (dst, m'))
      × ((k : ℕ) → m' k ≡ moved size dst src m k)
unfolding memcpy
memcpy_lem dst src size m d s apart =
    rw (usable_lem dst size d, usable_lem src size s)
      (copy_up size dst src m, refl, copy_up_lem size dst src m (ground arith))

-- `memmove`, whether the blocks overlap or not: afterwards the `size` bytes at `dst` are those that were
-- at `src` before the call, and no other byte has changed. It returns `dst + size` if `dst` is below
-- `src`, and `dst` otherwise.
pub memmove_lem :
    (dst src size : ℕ) (m : Memory)
    → dst ≢ 0
    → src ≢ 0
    → (m' : Memory) × (memmove dst src size m ≡ some (if ltb dst src then dst + size else dst, m'))
      × ((k : ℕ) → m' k ≡ moved size dst src m k)
unfolding memmove
memmove_lem dst src size m d s =
    rw (usable_lem dst size d, usable_lem src size s)
      (elim (Bool-cases (ltb dst src)) [
        | inl e ↦ rw e (copy_up size dst src m, refl, copy_up_lem size dst src m (ground arith))
        | inr e ↦ rw e (
          copy_down size (dst + size) (src + size) m,
          refl,
          copy_down_lem size dst src m (ground arith),
        )
      ])

fill_lem :
    (size dst value : ℕ) (m : Memory) (k : ℕ)
    → fill size dst value m k ≡ (if in_block dst size k then value else m k)
unfolding fill
fill_lem zero dst value m k = rw (in_block-outside dst 0 k (ground arith)) refl
fill_lem (suc size) dst value m k =
    fill_lem size (dst + 1) value (write dst value m) k ∙ ground arith

-- `memset` of a block that is not null returns `dst`; afterwards the `size` bytes there are the low byte
-- of `value`, and no other byte has changed.
memset_lem :
    (dst value size : ℕ) (m : Memory)
    → dst ≢ 0
    → (m' : Memory) × (memset dst value size m ≡ some (dst, m'))
      × ((k : ℕ) → m' k ≡ (if in_block dst size k then value % 256 else m k))
unfolding memset
memset_lem dst value size m d =
    rw (usable_lem dst size d)
      (fill size dst (value % 256) m, refl, fill_lem size dst (value % 256) m)

-- What `memcmp` says of two blocks: they agree in all bytes, or it gives the order of the first pair of
-- bytes in which they differ.
pub data Compared (a b size : ℕ) (m : Memory) : ℤ → Type 0 where
  same : ((i : ℕ) → i < size → m (a + i) ≡ m (b + i)) → Compared a b size m (pos 0)
  greater :
      (i : ℕ)
      → i < size
      → ((j : ℕ) → j < i → m (a + j) ≡ m (b + j))
      → m (b + i) < m (a + i)
      → Compared a b size m (pos 1)
  smaller :
      (i : ℕ)
      → i < size
      → ((j : ℕ) → j < i → m (a + j) ≡ m (b + j))
      → m (a + i) < m (b + i)
      → Compared a b size m (negsuc 0)

shift : (a i : ℕ) → a + 1 + i ≡ a + suc i
shift a i = omega arith

at_start : (a : ℕ) → a + 0 ≡ a
at_start a = omega arith

agree-later :
    (a b n : ℕ) (m : Memory)
    → m a ≡ m b
    → ((i : ℕ) → i < n → m (a + 1 + i) ≡ m (b + 1 + i))
    → (i : ℕ) → i < suc n
    → m (a + i) ≡ m (b + i)
agree-later a b n m e f zero lt = rw (at_start a, at_start b) e
agree-later a b n m e f (suc i) lt = rw (← shift a i, ← shift b i) (f i (omega (arith, lt)))

Compared-later :
    (a b size : ℕ) (m : Memory) (r : ℤ)
    → m a ≡ m b
    → Compared (a + 1) (b + 1) size m r
    → Compared a b (suc size) m r
Compared-later a b size m _ e (same f) = same (agree-later a b size m e f)
Compared-later a b size m _ e (greater i lt f gt) =
    greater (suc i) (omega (arith, lt)) (agree-later a b i m e f) (rw (← shift a i, ← shift b i) gt)
Compared-later a b size m _ e (smaller i lt f gt) =
    smaller (suc i) (omega (arith, lt)) (agree-later a b i m e f) (rw (← shift a i, ← shift b i) gt)

memcmp_loop_lem : (size a b : ℕ) (m : Memory) → Compared a b size m (memcmp_loop size a b m)
unfolding memcmp_loop
memcmp_loop_lem zero a b m = same (λ i lt. absurd (omega (arith, lt)))
memcmp_loop_lem (suc size) a b m = elim (Bool-cases (m a == m b)) [
  | inl e ↦ rw e (
      Compared-later a b size m (memcmp_loop size (a + 1) (b + 1) m) (ground arith)
        (memcmp_loop_lem size (a + 1) (b + 1) m))
  | inr e ↦ rw e (elim (Bool-cases (ltb (m b) (m a))) [
    | inl lt ↦ rw lt (
        greater 0 (omega arith) (λ j h. absurd (omega (arith, h)))
          (rw (at_start a, at_start b) (ground arith)))
    | inr ge ↦ rw ge (
        smaller 0 (omega arith) (λ j h. absurd (omega (arith, h)))
          (rw (at_start a, at_start b) (ground arith)))
  ])
]

-- `memcmp` of two blocks that are not null returns 0 if they agree in every byte, and otherwise 1 or -1,
-- whichever is the order of the first bytes in which they differ.
memcmp_lem :
    (a b size : ℕ) (m : Memory)
    → a ≢ 0
    → b ≢ 0
    → (r : ℤ) × (memcmp a b size m ≡ some r) × Compared a b size m r
unfolding memcmp
memcmp_lem a b size m na nb =
    rw (usable_lem a size na, usable_lem b size nb)
      (memcmp_loop size a b m, refl, memcmp_loop_lem size a b m)
