-- ===== src/Stdlib/Heap.antt =====
-- `do_swap` and `heapify` of pintos/src/lib/stdlib.c.
use mathlib.Core.Path.{subst}
use native.Mathlib.Decide.{dec_lt, ℕ_discrete}
use sogang_pint_os.Common.{
  ℕ, zero, suc, ◌+◌, ◌*◌, ◌/◌, ◌%◌, ◌^◌, ◌≤◌, ◌<◌, ◌≡◌, ◌≢◌, ◌⊎◌, refl, sym, ap, ◌∙◌, inl, inr,
  false, Option, some, leb, ◌==◌, arith, Bool-cases, ==_refl, ne→==_false, obtain,
}
use sogang_pint_os.Common.Int.{ℤ}
use sogang_pint_os.KernelList.Order.{IsOrder}
use sogang_pint_os.Stdlib.{do_swap, above, larger, max_child, heapify}

-- One array is the other with its elements 1 to `n` moved: position `k` holds what position `to k`
-- held, each position once, and the positions outside hold the same.
pub record Rearranged {ℓ} {A : Type ℓ} (n : ℕ) (old new : ℕ → A) : Type ℓ where
  pub to : ℕ → ℕ
  pub from : ℕ → ℕ
  pub to-from : (k : ℕ) → to (from k) ≡ k
  pub from-to : (k : ℕ) → from (to k) ≡ k
  pub inside : (k : ℕ) → 1 ≤ k → k ≤ n → (1 ≤ to k) × (to k ≤ n)
  pub outside : (k : ℕ) → (k < 1) ⊎ (n < k) → to k ≡ k
  pub moves : (k : ℕ) → new k ≡ old (to k)

swap_twice : (a b k : ℕ) → do_swap (λ i. i) a b (do_swap (λ i. i) a b k) ≡ k
unfolding do_swap
swap_twice a b k = ground arith

swap_inside :
    (n a b k : ℕ)
    → 1 ≤ a
    → a ≤ n
    → 1 ≤ b
    → b ≤ n
    → 1 ≤ k
    → k ≤ n
    → (1 ≤ do_swap (λ i. i) a b k) × (do_swap (λ i. i) a b k ≤ n)
unfolding do_swap
swap_inside n a b k ha hn hb hm h h' = ground arith

swap_outside :
    (n a b k : ℕ) → 1 ≤ a → a ≤ n → 1 ≤ b → b ≤ n → (k < 1) ⊎ (n < k) → do_swap (λ i. i) a b k ≡ k
unfolding do_swap
swap_outside n a b k ha hn hb hm (inl h) = ground arith
swap_outside n a b k ha hn hb hm (inr h) = ground arith

module _ {ℓ} {A : Type ℓ} where
  do_swap_first : (array : ℕ → A) (a b : ℕ) → do_swap array a b a ≡ array b
  unfolding do_swap
  do_swap_first array a b = rw (==_refl a)

  pub do_swap_second : (array : ℕ → A) (a b : ℕ) → a ≢ b → do_swap array a b b ≡ array a
  unfolding do_swap
  do_swap_second array a b ne = rw (ne→==_false a b ne, ==_refl b)

  pub do_swap_other : (array : ℕ → A) (a b k : ℕ) → a ≢ k → b ≢ k → do_swap array a b k ≡ array k
  unfolding do_swap
  do_swap_other array a b k ne ne' = rw (ne→==_false a k ne, ne→==_false b k ne')

  pub Rearranged-refl : (n : ℕ) (array : ℕ → A) → Rearranged n array array
  Rearranged-refl n array = record {
    to = λ k. k;
    from = λ k. k;
    to-from = λ k. refl;
    from-to = λ k. refl;
    inside = λ k h h'. (h, h');
    outside = λ k h. refl;
    moves = λ k. refl;
  }

  pub Rearranged-trans :
      (n : ℕ) (x y z : ℕ → A) → Rearranged n x y → Rearranged n y z → Rearranged n x z
  Rearranged-trans n x y z r s = record {
    to = λ k. r.to (s.to k);
    from = λ k. s.from (r.from k);
    to-from = λ k. ap r.to (s.to-from (r.from k)) ∙ r.to-from k;
    from-to = λ k. ap s.from (r.from-to (s.to k)) ∙ s.from-to k;
    inside = λ k h h'. r.inside (s.to k) (s.inside k h h').0 (s.inside k h h').1;
    outside = λ k h. ap r.to (s.outside k h) ∙ r.outside k h;
    moves = λ k. s.moves k ∙ r.moves (s.to k);
  }

  -- More positions may move.
  pub Rearranged-mono : (n m : ℕ) (x y : ℕ → A) → n ≤ m → Rearranged n x y → Rearranged m x y
  Rearranged-mono n m x y le r = record {
    to = r.to;
    from = r.from;
    to-from = r.to-from;
    from-to = r.from-to;
    inside = stays;
    outside = λ k h. r.outside k (further k h);
    moves = r.moves;
  }
    where
      further : (k : ℕ) → ((k < 1) ⊎ (m < k)) → (k < 1) ⊎ (n < k)
      further k (inl h) = inl h
      further k (inr h) = inr (omega arith)

      stays : (k : ℕ) → 1 ≤ k → k ≤ m → (1 ≤ r.to k) × (r.to k ≤ m)
      stays k h h' = elim (dec_lt n k) [
        | yes out ↦ let same = r.outside k (inr out) in (omega (arith, same), omega (arith, same))
        | no within ↦ let i = r.inside k h (omega arith) in (i.0, omega (arith, i.1))
      ]

  swap_moves : (a b k : ℕ) (array : ℕ → A) → do_swap array a b k ≡ array (do_swap (λ i. i) a b k)
  unfolding do_swap
  swap_moves a b k array = elim (Bool-cases (a == k)) [
    | inl e ↦ rw e
    | inr e ↦ elim (Bool-cases (b == k)) [ inl f ↦ rw (e, f) | inr f ↦ rw (e, f) ]
  ]

  pub Rearranged-swap :
      (n a b : ℕ) (array : ℕ → A)
      → 1 ≤ a
      → a ≤ n
      → 1 ≤ b
      → b ≤ n
      → Rearranged n array (do_swap array a b)
  Rearranged-swap n a b array ha hn hb hm = record {
    to = do_swap (λ i. i) a b;
    from = do_swap (λ i. i) a b;
    to-from = swap_twice a b;
    from-to = swap_twice a b;
    inside = λ k. swap_inside n a b k ha hn hb hm;
    outside = λ k. swap_outside n a b k ha hn hb hm;
    moves = λ k. swap_moves a b k array;
  }

module _ {ℓ} {A : Type ℓ} (compare : A → A → ℤ) where
  -- No element of the heap from position `lo` on is above its parent.
  abbrev pub IsHeap : ℕ → ℕ → (ℕ → A) → Type 0
  IsHeap lo cnt array =
      (c : ℕ) → lo ≤ c / 2 → c ≤ cnt → above compare (array c) (array (c / 2)) ≡ false

  -- The same but for the element at `i`, whose children are not above its parent.
  pub record Sinking (lo i cnt : ℕ) (array : ℕ → A) : Type 0 where
    pub others :
        (c : ℕ) → lo ≤ c / 2 → c ≤ cnt → c / 2 ≢ i → above compare (array c) (array (c / 2)) ≡ false
    pub grand :
        (c : ℕ) → c / 2 ≡ i → lo ≤ i / 2 → c ≤ cnt → above compare (array c) (array (i / 2)) ≡ false

  -- What `max_child` gives: `i` itself, or a child that is above it, and no child is above that.
  pub record Largest (i cnt : ℕ) (array : ℕ → A) (m : ℕ) : Type 0 where
    pub place : (m ≡ i) ⊎ ((m / 2 ≡ i) × (m ≤ cnt))
    pub self : above compare (array i) (array m) ≡ false
    pub children : (c : ℕ) → c / 2 ≡ i → c ≤ cnt → above compare (array c) (array m) ≡ false

module _ {ℓ} {A : Type ℓ} (compare : A → A → ℤ) (order : IsOrder (above compare)) where
  pub le_refl : (x : A) → above compare x x ≡ false
  le_refl x = elim (Bool-cases (above compare x x)) [ inl t ↦ order.asym x x t | inr f ↦ f ]

  larger_lem :
      (i m child cnt : ℕ) (array : ℕ → A)
      → child / 2 ≡ i
      → (m ≡ i) ⊎ ((m / 2 ≡ i) × (m ≤ cnt))
      → (let m' = larger compare array cnt m child in
          ((m' ≡ i) ⊎ ((m' / 2 ≡ i) × (m' ≤ cnt)))
          × (above compare (array m) (array m') ≡ false)
          × (child ≤ cnt → above compare (array child) (array m') ≡ false))
  unfolding larger
  larger_lem i m child cnt array up place = elim (Bool-cases (leb child cnt)) [
    | inl e ↦ elim (Bool-cases (above compare (array child) (array m))) [
      | inl t ↦
          rw (larger, e, t)
            (
              inr (up, ground arith),
              order.asym (array child) (array m) t,
              λ h. le_refl (array child),
            )
      | inr f ↦ rw (larger, e, f) (place, le_refl (array m), λ h. f)
    ]
    | inr e ↦ rw (larger, e) (place, le_refl (array m), λ h. absurd (ground arith))
  ]

  max_child_lem :
      (i cnt : ℕ) (array : ℕ → A)
      → 1 ≤ i
      → 2 * i + 1 < 2 ^ 32
      → Largest compare i cnt array (max_child compare array i cnt)
  unfolding max_child
  max_child_lem i cnt array lt small =
      let left_small : 2 * i % 2 ^ 32 ≡ 2 * i = omega (arith, small) in
      let right_small : (2 * i + 1) % 2 ^ 32 ≡ 2 * i + 1 = omega (arith, small) in
      let m = larger compare array cnt i (2 * i) in
      let first = larger_lem i i (2 * i) cnt array (omega arith) (inl refl) in
      let second = larger_lem i m (2 * i + 1) cnt array (omega arith) first.0 in
      rw (left_small, right_small)
        (record {
          place = second.0;
          self = order.trans _ (array m) (array i) second.1 first.1;
          children = λ c up le. elim (dec_lt (2 * i) c) [
            | yes h ↦
                let right : c ≡ 2 * i + 1 = omega (arith, up) in
                subst
                  (λ z.
                    above compare (array z) (array (larger compare array cnt m (2 * i + 1)))
                    ≡ false)
                  (sym right) (second.2 (omega (arith, le, right)))
            | no h ↦
                let left : c ≡ 2 * i = omega (arith, up) in
                order.trans _ (array m) (array c) second.1 (
                  subst (λ z. above compare (array z) (array m) ≡ false) (sym left)
                    (first.2 (omega (arith, le, left))))
          ];
        })

  -- Moving the element of `i` down to its largest child, it is the child's that may be out of place.
  sink_step :
      (lo i m cnt : ℕ) (array : ℕ → A)
      → 1 ≤ lo
      → lo ≤ i
      → Sinking compare lo i cnt array
      → Largest compare i cnt array m
      → m / 2 ≡ i
      → m ≤ cnt
      → Sinking compare lo m cnt (do_swap array i m)
  sink_step lo i m cnt array pos above_lo sink large up within = record {
    others = others;
    grand = grand;
  }
    where
      ne : i ≢ m
      ne e = omega (arith, e)

      from_above :
          (c : ℕ) → i ≡ c → lo ≤ c / 2 → above compare (do_swap array i m c) (array (c / 2)) ≡ false
      from_above c e h =
          subst (λ z. above compare (do_swap array i m z) (array (z / 2)) ≡ false) e
            (rw (do_swap_first array i m)
              (sink.grand m up (subst (λ z. lo ≤ z / 2) (sym e) h) within))

      others :
          (c : ℕ)
          → lo ≤ c / 2
          → c ≤ cnt
          → c / 2 ≢ m
          → above compare (do_swap array i m c) (do_swap array i m (c / 2)) ≡ false
      others c h h' ne_m = elim (ℕ_discrete (c / 2) i) [
        | yes at_i ↦
            rw (at_i, do_swap_first array i m)
              (elim (ℕ_discrete m c) [
                | yes e ↦ rw (← e, do_swap_second array i m ne) large.self
                | no n ↦
                    rw (do_swap_other array i m c (λ q. omega (arith, q, at_i)) n)
                      (large.children c at_i h')
              ])
        | no not_i ↦
            rw (do_swap_other array i m (c / 2) (λ q. not_i (sym q)) (λ q. ne_m (sym q)))
              (elim (ℕ_discrete i c) [
                | yes e ↦ from_above c e h
                | no n ↦
                    rw (do_swap_other array i m c n (λ q. not_i (ap (λ z. z / 2) (sym q) ∙ up)))
                      (sink.others c h h' not_i)
              ])
      ]

      grand :
          (c : ℕ)
          → c / 2 ≡ m
          → lo ≤ m / 2
          → c ≤ cnt
          → above compare (do_swap array i m c) (do_swap array i m (m / 2)) ≡ false
      grand c e h h' =
          rw
            (
              do_swap_other array i m c (λ q. omega (arith, q, e, up))
                  (λ q. omega (arith, q, e, up)),
              up,
              do_swap_first array i m,
            )
            (subst (λ z. above compare (array c) (array z) ≡ false) e
              (sink.others c (omega (arith, e, up)) h' (λ q. omega (arith, q, e, up))))

  pub heapify_lem :
      (fuel lo i cnt : ℕ) (array : ℕ → A)
      → 1 ≤ lo
      → lo ≤ i
      → i ≤ cnt
      → cnt < i + fuel
      → cnt < 2 ^ 31
      → Sinking compare lo i cnt array
      → (out : ℕ → A) × (heapify compare fuel array i cnt ≡ some out)
        × (IsHeap compare lo cnt out × Rearranged cnt array out)
  unfolding heapify
  heapify_lem zero lo i cnt array pos le within short small sink = absurd (omega arith)
  heapify_lem (suc fuel) lo i cnt array pos le within short small sink =
      let m = max_child compare array i cnt in
      let large = max_child_lem i cnt array (omega arith) (omega (arith, within, small)) in
      elim (Bool-cases (m == i)) [
        | inl e ↦ (array, rw (heapify, e), (done m large (ground arith), Rearranged-refl cnt array))
        | inr e ↦
            rw (heapify, e)
              (moved m large (ground arith) (λ up inside.
                heapify_lem fuel lo m cnt (do_swap array i m) pos (omega (arith, up)) inside
                  (omega (arith, up)) small
                  (sink_step lo i m cnt array pos le sink large up inside)))
      ]
    where
      done : (m : ℕ) → Largest compare i cnt array m → m ≡ i → IsHeap compare lo cnt array
      done m large e c h h' = elim (ℕ_discrete (c / 2) i) [
        | yes at_i ↦ rw (at_i, ← e) (large.children c at_i h')
        | no not_i ↦ sink.others c h h' not_i
      ]

      moved :
          (m : ℕ)
          → Largest compare i cnt array m
          → m ≢ i
          → {result : Option (ℕ → A)}
          → (m / 2 ≡ i
              → m ≤ cnt
              → (out : ℕ → A) × (result ≡ some out)
                × (IsHeap compare lo cnt out × Rearranged cnt (do_swap array i m) out))
          → (out : ℕ → A) × (result ≡ some out)
            × (IsHeap compare lo cnt out × Rearranged cnt array out)
      moved m large ne next = elim large.place [
        | inl e ↦ absurd (ne e)
        | inr (up, inside) ↦ obtain (next up inside) λ out run result. (
          out,
          run,
          (
            result.0,
            Rearranged-trans cnt array (do_swap array i m) out
                (Rearranged-swap cnt i m array (omega arith) within (omega (arith, up)) inside)
                result.1,
          ),
        )
      ]
