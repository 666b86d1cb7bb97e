-- ===== src/KernelList/Sort.antt =====
-- `list_sort` of pintos/src/lib/kernel/list.c: its passes and its end.
use mathlib.Core.List.{Perm, append_assoc, append-nil}
use mathlib.Core.List.Perm
use sogang_pint_os.Common.{
  ℕ, zero, suc, ◌+◌, ◌/◌, ◌≤◌, ◌<◌, ◌≡◌, refl, sym, ap, ◌∙◌, inl, inr, Bool, true, false, some,
  List, [], ◌∷◌, ◌++◌, Bool-cases, if◌then◌else◌, arith, length, length-append, ltb, obtain,
}
use sogang_pint_os.KernelList.{find_end_of_run, inplace_merge, sort_pass, sort_loop, list_sort}
use sogang_pint_os.KernelList.Order.{IsOrder, IsSorted}
use sogang_pint_os.KernelList.Merge.{
  descents, descents_from, descents_from-lt-length, descents-append, is_empty, RunEnd,
  find_end_of_run_lem, rising-IsSorted, IsSorted-rising, merge-IsSorted, merge-perm,
  length-inplace_merge,
}

module _ {ℓ} {A : Type ℓ} {less : A → A → Bool} (order : IsOrder less) where
  -- What a pass does: it moves elements only, puts out one run for every two that it finds, and so at
  -- least halves the number of descents.
  pub record Pass (xs : List A) (out : List A × ℕ) : Type ℓ where
    pub perm : Perm out.0 xs
    pub size : length out.0 ≡ length xs
    pub rounds : out.1 ≡ (if is_empty less xs then 0 else descents less xs / 2 + 1)
    pub fewer : descents less out.0 ≤ descents less xs / 2

  descents-append_empty :
      (xs ys : List A) → length ys ≡ 0 → descents less (xs ++ ys) ≡ descents less xs
  descents-append_empty xs [] e = rw (append-nil xs)
  descents-append_empty xs (y ∷ ys) e = absurd (omega (arith, e))

  -- Two runs and the pass of what is behind them.
  module _ (a0 : A) (es run : List A) (b : A) (bs : List A) (r : RunEnd less a0 es (run, b ∷ bs))
      (run₂ s₁ : List A) (second : RunEnd less b bs (run₂, s₁)) (out : List A × ℕ)
      (rest : Pass s₁ out) where
    merged_rising : descents less (inplace_merge less run run₂) ≡ 0
    merged_rising = IsSorted-rising order (inplace_merge less run run₂) (
        merge-IsSorted order run run₂ (rising-IsSorted order run r.rising)
          (rising-IsSorted order run₂ second.rising))

    together : (run ++ run₂) ++ s₁ ≡ a0 ∷ es
    together = append_assoc run run₂ s₁ ∙ ap (λ l. run ++ l) second.whole ∙ r.whole

    merged_fewer :
        (s : List A)
        → descents_from less b bs ≡ (if is_empty less s then 0 else 1 + descents less s)
        → length out.0 ≡ length s
        → descents less out.0 ≤ descents less s / 2
        → descents less (inplace_merge less run run₂ ++ out.0) ≤ descents less (a0 ∷ es) / 2
    merged_fewer [] behind size fewer =
        omega (arith, merged_rising, descents-append_empty (inplace_merge less run run₂) out.0 size)
    merged_fewer (c ∷ cs) behind size fewer = omega (
      arith,
      merged_rising,
      r.behind,
      behind,
      fewer,
      descents-append less (inplace_merge less run run₂) out.0,
    )

    two_rounds :
        (s : List A)
        → descents_from less b bs ≡ (if is_empty less s then 0 else 1 + descents less s)
        → out.1 ≡ (if is_empty less s then 0 else descents less s / 2 + 1)
        → out.1 + 1 ≡ descents less (a0 ∷ es) / 2 + 1
    two_rounds [] behind rounds = omega (arith, r.behind, behind, rounds)
    two_rounds (c ∷ cs) behind rounds = omega (arith, r.behind, behind, rounds)

    two_runs : Pass (a0 ∷ es) (inplace_merge less run run₂ ++ out.0, out.1 + 1)
    two_runs = record {
      perm = rw (← together) (Perm.append (merge-perm less run run₂) rest.perm);
      size = omega (
        arith,
        length-append (inplace_merge less run run₂) out.0,
        length-inplace_merge less run run₂,
        rest.size,
        ap length together,
        length-append (run ++ run₂) s₁,
        length-append run run₂,
      );
      rounds = two_rounds s₁ second.behind rest.rounds;
      fewer = merged_fewer s₁ second.behind rest.size rest.fewer;
    }

  Pass-step :
      (fuel : ℕ)
      → ((ys : List A) → length ys ≤ fuel → Pass ys (sort_pass less fuel ys))
      → (a0 : A) (es : List A) (first : List A × List A) → RunEnd less a0 es first
      → length (a0 ∷ es) ≤ suc fuel
      → Pass (a0 ∷ es) (elim first.1 [
        | [] ↦ (first.0, 1)
        | a1b0 ∷ bs ↦
            let second = find_end_of_run less a1b0 bs in
            let rest = sort_pass less fuel second.1 in
            (inplace_merge less first.0 second.0 ++ rest.0, rest.1 + 1)
      ])
  Pass-step fuel ih a0 es (run, []) r short =
      let whole : run ≡ a0 ∷ es = sym (append-nil run) ∙ r.whole in
      record {
        perm = rw whole (Perm.refl (a0 ∷ es));
        size = ap length whole;
        rounds = omega (arith, r.behind);
        fewer = omega (arith, r.rising);
      }
  Pass-step fuel ih a0 es (run, b ∷ bs) r short =
      let second = find_end_of_run_lem less b bs in
      two_runs a0 es run b bs r (find_end_of_run less b bs).0 (find_end_of_run less b bs).1 second
        (sort_pass less fuel (find_end_of_run less b bs).1)
        (ih (find_end_of_run less b bs).1 (shorter (find_end_of_run less b bs) second))
    where
      shorter : (out : List A × List A) → RunEnd less b bs out → length out.1 ≤ fuel
      shorter (o₀, o₁) e =
          let (t, starts) = r.starts in
          omega (
            arith,
            short,
            ap length r.whole,
            ap length starts,
            length-append run (b ∷ bs),
            ap length e.whole,
            length-append o₀ o₁,
          )

  sort_pass_lem : (fuel : ℕ) (xs : List A) → length xs ≤ fuel → Pass xs (sort_pass less fuel xs)
  unfolding sort_pass
  sort_pass_lem zero [] h = record {
    perm = Perm.refl [];
    size = refl;
    rounds = refl;
    fewer = omega arith;
  }
  sort_pass_lem zero (x ∷ xs) h = absurd (omega (arith, h))
  sort_pass_lem (suc fuel) [] h = record {
    perm = Perm.refl [];
    size = refl;
    rounds = refl;
    fewer = omega arith;
  }
  sort_pass_lem (suc fuel) (a0 ∷ es) h =
      Pass-step fuel (sort_pass_lem fuel) a0 es (find_end_of_run less a0 es)
        (find_end_of_run_lem less a0 es) h

  descents_of_empty : (xs : List A) → is_empty less xs ≡ true → descents less xs ≡ 0
  descents_of_empty [] e = refl
  descents_of_empty (x ∷ xs) e = ground arith

  sort_loop_lem :
      (fuel : ℕ) (xs : List A)
      → descents less xs < fuel
      → (ys : List A) × (sort_loop less fuel xs ≡ some ys) × (IsSorted less ys × Perm ys xs)
  unfolding sort_loop
  sort_loop_lem zero xs lt = absurd (omega (arith, lt))
  sort_loop_lem (suc fuel) xs lt =
      let p = sort_pass_lem (length xs) xs (omega arith) in
      elim (Bool-cases (ltb 1 (sort_pass less (length xs) xs).1)) [
        | inl e ↦
            rw (sort_loop, e)
              (obtain
                (sort_loop_lem fuel (sort_pass less (length xs) xs).0
                  (fewer_left e p.rounds p.fewer))
                λ ys run out. (ys, run, (out.0, Perm.trans out.1 p.perm)))
        | inr e ↦
            rw (sort_loop, e)
              (
                (sort_pass less (length xs) xs).0,
                refl,
                (rising-IsSorted order _ (none_left e p.rounds p.fewer), p.perm),
              )
      ]
    where
      fewer_left :
          {n m : ℕ}
          → ltb 1 n ≡ true
          → n ≡ (if is_empty less xs then 0 else descents less xs / 2 + 1)
          → m ≤ descents less xs / 2
          → m < fuel
      fewer_left {n} {m} e rounds fewer = ground arith

      none_left :
          {n m : ℕ}
          → ltb 1 n ≡ false
          → n ≡ (if is_empty less xs then 0 else descents less xs / 2 + 1)
          → m ≤ descents less xs / 2
          → m ≡ 0
      none_left {n} {m} e rounds fewer = ground (arith, descents_of_empty xs)

  -- `list_sort` ends, for every list, and gives the same elements in nondecreasing order.
  pub list_sort_lem :
      (xs : List A)
      → (ys : List A) × (list_sort less xs ≡ some ys) × (IsSorted less ys × Perm ys xs)
  unfolding list_sort
  list_sort_lem xs = sort_loop_lem (length xs + 1) xs (enough xs)
    where
      enough : (l : List A) → descents less l < length l + 1
      enough [] = omega arith
      enough (x ∷ l) = omega (arith, descents_from-lt-length less x l)
