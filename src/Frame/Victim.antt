-- ===== src/Frame/Victim.antt =====
-- `get_victim` of pintos/src/vm/frame.c.
use sogang_pint_os.Common.{
  ℕ, zero, suc, ◌+◌, ◌≤◌, ◌<◌, ◌≡◌, refl, sym, ap, ◌∙◌, inl, inr, true, false, ◌&&◌, some, List, [],
  ◌∷◌, ◌==◌, if◌then◌else◌, arith, Bool-cases, length, obtain, ==_refl,
}
use sogang_pint_os.Frame.{
  Position, elem, Frame, is_accessed, clear_accessed, victim_loop, get_victim,
}
use sogang_pint_os.Frame.Clock.{Member, get_next_lem}

-- The number of pages of a list with the accessed bit.
abbrev accessed_cnt : Frame → List ℕ → ℕ
accessed_cnt s [] = 0
accessed_cnt s (p ∷ ps) = (if is_accessed s p then 1 else 0) + accessed_cnt s ps

-- What the clock does: it stops at a page of the list without the accessed bit. It only clears such bits
-- and leaves the list and the pages.
pub record Victim (s : Frame) (out : ℕ × Frame) : Type 0 where
  pub listed : Member out.0 s.list_lru
  pub idle : is_accessed out.1 out.0 ≡ false
  pub same_list : out.1.list_lru ≡ s.list_lru
  pub same_pages : out.1.pages ≡ s.pages
  pub clock : out.1.lru_clock ≡ elem out.0
  pub cleared : (pd vaddr : ℕ) → out.1.accessed pd vaddr ≡ true → s.accessed pd vaddr ≡ true

-- The bit that is cleared.
is_accessed-clear : (s : Frame) (e : ℕ) → is_accessed (clear_accessed s e) e ≡ false
unfolding is_accessed clear_accessed
is_accessed-clear s e = rw (==_refl (s.pages e).pagedir, ==_refl (s.pages e).vaddr)

clear_lem :
    (s : Frame) (e pd vaddr : ℕ)
    → (clear_accessed s e).accessed pd vaddr ≡ true
    → s.accessed pd vaddr ≡ true
unfolding clear_accessed
clear_lem s e pd vaddr h =
    elim (Bool-cases ((s.pages e).pagedir == pd && (s.pages e).vaddr == vaddr)) [
      | inl t ↦ absurd (clash (sym (rw t) ∙ h))
      | inr f ↦ sym (rw f) ∙ h
    ]
  where
    clash : false ≡ true → ⊥
    clash q = cc

is_accessed-through :
    (s : Frame) (e p : ℕ)
    → is_accessed (clear_accessed s e) p
      ≡ (clear_accessed s e).accessed (s.pages p).pagedir (s.pages p).vaddr
unfolding is_accessed clear_accessed
is_accessed-through s e p = refl

is_accessed_mono :
    (s : Frame) (e p : ℕ) → is_accessed s p ≡ false → is_accessed (clear_accessed s e) p ≡ false
unfolding is_accessed
is_accessed_mono s e p h = elim (Bool-cases (is_accessed (clear_accessed s e) p)) [
  | inl t ↦ absurd (
      clash (
        sym (
          clear_lem s e (s.pages p).pagedir (s.pages p).vaddr (sym (is_accessed-through s e p) ∙ t))
        ∙ h))
  | inr f ↦ f
]
  where
    clash : true ≡ false → ⊥
    clash q = cc

-- Clearing a bit makes no page accessed, and one less.
accessed_cnt-le :
    (s : Frame) (e : ℕ) (l : List ℕ) → accessed_cnt (clear_accessed s e) l ≤ accessed_cnt s l
accessed_cnt-le s e [] = omega arith
accessed_cnt-le s e (p ∷ ps) = elim (Bool-cases (is_accessed s p)) [
  | inl t ↦ rw t (ground (arith, accessed_cnt-le s e ps))
  | inr f ↦ rw (f, is_accessed_mono s e p f) (omega (arith, accessed_cnt-le s e ps))
]

accessed_cnt-lt :
    (s : Frame) (e : ℕ) (l : List ℕ)
    → Member e l
    → is_accessed s e ≡ true
    → accessed_cnt (clear_accessed s e) l < accessed_cnt s l
accessed_cnt-lt s e [] m h = absurd m
accessed_cnt-lt s e (p ∷ ps) (inl q) h =
    rw (← q, h, is_accessed-clear s e) (omega (arith, accessed_cnt-le s e ps))
accessed_cnt-lt s e (p ∷ ps) (inr m) h = elim (Bool-cases (is_accessed s p)) [
  | inl t ↦ rw t (ground (arith, accessed_cnt-lt s e ps m h))
  | inr f ↦ rw (f, is_accessed_mono s e p f) (omega (arith, accessed_cnt-lt s e ps m h))
]

accessed_cnt-le-length : (s : Frame) (l : List ℕ) → accessed_cnt s l ≤ length l
accessed_cnt-le-length s [] = omega arith
accessed_cnt-le-length s (p ∷ ps) = ground (arith, accessed_cnt-le-length s ps)

accessed_cnt-clock :
    (s : Frame) (c : Position) (l : List ℕ)
    → accessed_cnt (record s { lru_clock = c }) l ≡ accessed_cnt s l
unfolding is_accessed
accessed_cnt-clock s c [] = refl
accessed_cnt-clock s c (p ∷ ps) =
    ap (λ n. (if is_accessed s p then 1 else 0) + n) (accessed_cnt-clock s c ps)

victim_loop_lem :
    (fuel : ℕ) (s : Frame)
    → 0 < length s.list_lru
    → accessed_cnt s s.list_lru < fuel
    → (out : ℕ × Frame) × (victim_loop fuel s ≡ some out) × Victim s out
unfolding victim_loop clear_accessed
victim_loop_lem zero s some_page lt = absurd (omega arith)
victim_loop_lem (suc fuel) s some_page lt =
    obtain (get_next_lem s.list_lru s.lru_clock some_page) λ e next member.
      let s' : Frame = record s { lru_clock = elem e } in
      elim (Bool-cases (is_accessed s' e)) [
        | inr idle ↦ (
          (e, s'),
          rw (victim_loop, next, idle),
          record {
            listed = member;
            idle = idle;
            same_list = refl;
            same_pages = refl;
            clock = refl;
            cleared = λ pd vaddr h. h;
          },
        )
        | inl busy ↦
            obtain
              (victim_loop_lem fuel (clear_accessed s' e) some_page (
                omega (
                  arith,
                  accessed_cnt-lt s' e s.list_lru member busy,
                  accessed_cnt-clock s (elem e) s.list_lru,
                )))
              λ out run v. (
                out,
                rw (victim_loop, next, busy) run,
                record {
                  listed = v.listed;
                  idle = v.idle;
                  same_list = v.same_list;
                  same_pages = v.same_pages;
                  clock = v.clock;
                  cleared = λ pd vaddr h. clear_lem s' e pd vaddr (v.cleared pd vaddr h);
                },
              )
      ]

-- `get_victim` ends on every list that is not empty, wherever the clock points: each round clears an
-- accessed bit or stops. The victim is a page of the list whose accessed bit is not set.
pub get_victim_lem :
    (s : Frame)
    → 0 < length s.list_lru
    → (out : ℕ × Frame) × (get_victim s ≡ some out) × Victim s out
unfolding get_victim
get_victim_lem s some_page =
    victim_loop_lem (length s.list_lru + 1) s some_page
      (omega (arith, accessed_cnt-le-length s s.list_lru))
