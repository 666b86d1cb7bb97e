-- ===== src/Synch/Exclusion.antt =====
-- Any number of threads that acquire and release one lock, in any interleaving of the steps that
-- interrupts can come between: `lock_acquire` downs the semaphore and then sets the holder,
-- `lock_release` clears the holder and then ups the semaphore (pintos/src/threads/synch.c).
use mathlib.Core.Path.{subst}
use sogang_pint_os.Common.{
  ℕ, ◌+◌, ◌-◌, ◌<◌, ◌≡◌, ◌≢◌, refl, sym, ◌∙◌, inl, inr, Option, none, some, arith, ◌==◌,
  if◌then◌else◌, Bool-cases, ne→==_false, ==_refl,
}

-- Where a thread is: away from the lock, behind `sema_down` but not yet the holder, the holder, or no
-- longer the holder but before `sema_up`.
pub data Phase : Type 0 where
  away taken inside leaving : Phase

pub record State : Type 0 where
  pub value : ℕ
  pub holder : Option ℕ
  pub phase : ℕ → Phase

abbrev pub at : ℕ → Phase → State → ℕ → Phase
at t p s k = if t == k then p else s.phase k

-- One step of thread `t`.
pub data Step : State → State → Type 0 where
  down :
      (t : ℕ) (s : State)
      → s.phase t ≡ away
      → 0 < s.value
      → Step s (record s { value = s.value - 1; phase = at t taken s })
  own :
      (t : ℕ) (s : State)
      → s.phase t ≡ taken
      → Step s (record s { holder = some t; phase = at t inside s })
  let_go :
      (t : ℕ) (s : State)
      → s.phase t ≡ inside
      → Step s (record s { holder = none; phase = at t leaving s })
  up :
      (t : ℕ) (s : State)
      → s.phase t ≡ leaving
      → Step s (record s { value = s.value + 1; phase = at t away s })

-- After `lock_init`.
abbrev pub start : State
start = record { value = 1; holder = none; phase = λ k. away }

pub data Reach (s : State) : State → Type 0 where
  here : Reach s s
  next : {t u : State} → Reach s t → Step t u → Reach s u

-- Who the holder is, by the phase of the thread that has the lock.
abbrev pub owner : Phase → ℕ → Option ℕ
owner inside t = some t
owner _ t = none

-- The lock is free and all threads are away, or one thread has it and all others are away.
pub data IsSafe (s : State) : Type 0 where
  free : s.value ≡ 1 → s.holder ≡ none → ((k : ℕ) → s.phase k ≡ away) → IsSafe s
  taken_by :
      (t : ℕ)
      → s.value ≡ 0
      → s.phase t ≢ away
      → s.holder ≡ owner (s.phase t) t
      → ((k : ℕ) → t ≢ k → s.phase k ≡ away)
      → IsSafe s

-- A thread that is not away is the one that has the lock.
same_thread :
    (s : State) (t k : ℕ) → ((j : ℕ) → t ≢ j → s.phase j ≡ away) → s.phase k ≢ away → t ≡ k
same_thread s t k others not_away = elim (Bool-cases (t == k)) [
  | inl e ↦ ground arith
  | inr e ↦ absurd (not_away (others k (ground arith)))
]

move-IsSafe :
    (t : ℕ) (p : Phase) (s : State) (holder : Option ℕ)
    → IsSafe s
    → s.phase t ≢ away
    → p ≢ away
    → holder ≡ owner p t
    → IsSafe (record s { holder = holder; phase = at t p s })
move-IsSafe t p s holder (free v h all) not_away p_in is = absurd (not_away (all t))
move-IsSafe t p s holder (taken_by k v n h others) not_away p_in is =
    let same : k ≡ t = same_thread s k t others not_away in
    taken_by t v (rw (==_refl t) p_in) (rw (==_refl t) is)
      (λ j ne. rw (ne→==_false t j ne) (others j (λ e. ne (sym same ∙ e))))

Step-IsSafe : {s u : State} → Step s u → IsSafe s → IsSafe u
Step-IsSafe (down t s is pos) (free v h all) =
    taken_by t (omega (arith, v)) (rw (==_refl t) (λ e. cc e)) (rw (==_refl t) h)
      (λ j ne. rw (ne→==_false t j ne) (all j))
Step-IsSafe (down t s is pos) (taken_by k v n h others) = absurd (omega (arith, v, pos))
Step-IsSafe (own t s is) safe =
    move-IsSafe t inside s (some t) safe (λ e. cc (sym is ∙ e)) (λ e. cc e) refl
Step-IsSafe (let_go t s is) safe =
    move-IsSafe t leaving s none safe (λ e. cc (sym is ∙ e)) (λ e. cc e) refl
Step-IsSafe (up t s is) (free v h all) =
    absurd (let bad : leaving ≡ away = sym is ∙ all t in cc bad)
Step-IsSafe (up t s is) (taken_by k v n h others) =
    let same : k ≡ t = same_thread s k t others (λ e. cc (sym is ∙ e)) in
    free (omega (arith, v)) (h ∙ rw (same, is) refl) (λ j. elim (Bool-cases (t == j)) [
      | inl e ↦ rw e refl
      | inr e ↦ rw e (others j (λ k_j. cc (==_refl t, e, same, k_j)))
    ])

Reach-IsSafe : {s u : State} → Reach s u → IsSafe s → IsSafe u
Reach-IsSafe here safe = safe
Reach-IsSafe (next r st) safe = Step-IsSafe st (Reach-IsSafe r safe)

-- In every interleaving of the steps from `lock_init` on: two threads that are both between their
-- `sema_down` and the end of their `sema_up` are the same thread; the lock's value is then 0, so that no
-- other thread can take it; and the holder is that thread while it is inside, and nobody before it is set
-- and after it is cleared, so that the ASSERT of `lock_release` holds.
pub mutual_exclusion :
    {u : State} (t k : ℕ)
    → Reach start u
    → u.phase t ≢ away
    → u.phase k ≢ away
    → (t ≡ k) × (u.value ≡ 0) × (u.holder ≡ owner (u.phase t) t)
mutual_exclusion t k r = conclude (Reach-IsSafe r (free refl refl (λ j. refl))) t k
  where
    conclude :
        {u : State}
        → IsSafe u
        → (t k : ℕ) → u.phase t ≢ away
        → u.phase k ≢ away
        → (t ≡ k) × (u.value ≡ 0) × (u.holder ≡ owner (u.phase t) t)
    conclude {u} (free v h all) t k a b = absurd (a (all t))
    conclude {u} (taken_by j v n h others) t k a b =
        let same : j ≡ t = same_thread u j t others a in
        (
          sym same ∙ same_thread u j k others b,
          v,
          subst (λ (i : ℕ). u.holder ≡ owner (u.phase i) i) same h,
        )
