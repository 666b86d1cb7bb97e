-- ===== src/Thread/WakeUp.antt =====
-- `thread_wake_up` of pintos/src/threads/thread.c: who is woken and who sleeps on.
use mathlib.Core.Path.{subst}
use mathlib.Core.List.Perm
use mathlib.Core.List.{Perm, perm_middle, perm-append_left_iff}
use sogang_pint_os.Common.{
  ℕ, ◌≡◌, refl, sym, ap, ◌∙◌, inl, inr, true, some, List, [], ◌∷◌, ◌++◌, arith, Bool-cases, obtain,
}
use sogang_pint_os.Common.Int.{ℤ, ltb_ℤ, ◌≤ℤ◌}
use sogang_pint_os.Common.All.{All, Away, Distinct}
use sogang_pint_os.KernelList.Order.{IsSorted, Below}
use sogang_pint_os.Thread.State.{
  thread_ready, thread_blocked, Kernel, priorities, wake_ups, status_at, status_of,
  cmp_sleeping_thread,
}
use sogang_pint_os.Thread.Sleep.{wake_loop, thread_wake_up}
use sogang_pint_os.Thread.Valid.{IsValid}
use sogang_pint_os.Thread.Switch.{thread_of_status}
use sogang_pint_os.Thread.Placed.{Perm-of_Placed}
use sogang_pint_os.Thread.Yield.{thread_unblock_lem}

-- What waking does to a sleeping list: a front part is ready afterwards, and its ticks have come; the
-- rest sleeps on, and its ticks have not.
pub record Woken (ts : List ℕ) (now_tick : ℤ) (s s' : Kernel) : Type 0 where
  pub woken : List ℕ
  pub cut : ts ≡ woken ++ s'.sleeping_list
  pub come : All (λ t. wake_ups s t ≤ℤ now_tick) woken
  pub enqueued : Perm s'.ready_list (woken ++ s.ready_list)
  pub up : All (λ t. status_at s' t ≡ some thread_ready) woken
  pub to_come : All (λ t. ltb_ℤ now_tick (wake_ups s t) ≡ true) s'.sleeping_list
  pub valid : IsValid s'
  pub same_current : s'.current ≡ s.current
  pub same_priorities : priorities s' ≡ priorities s
  pub same_ticks : wake_ups s' ≡ wake_ups s
  pub others : (k : ℕ) → Away k ts → s'.threads k ≡ s.threads k

-- In a sorted list nothing behind a tick that has not come has come.
All-later :
    (w : ℕ → ℤ) (now_tick : ℤ) (t : ℕ) (ts : List ℕ)
    → ltb_ℤ now_tick (w t) ≡ true
    → Below (cmp_sleeping_thread w) t ts
    → All (λ k. ltb_ℤ now_tick (w k) ≡ true) ts
All-later w now_tick t [] h below = tt
All-later w now_tick t (k ∷ ks) h below = (ground arith, All-later w now_tick t ks h below.1)

pop-IsValid :
    (s : Kernel) (t : ℕ) (ts : List ℕ)
    → s.sleeping_list ≡ t ∷ ts
    → IsValid s
    → IsValid (record s { sleeping_list = ts }) × Away t ts
pop-IsValid s t ts e v = (
  record {
    queued = record {
      ready = v.queued.ready;
      ready_sorted = v.queued.ready_sorted;
      ready_distinct = v.queued.ready_distinct;
      sleeping = (subst (All (λ k. status_at s k ≡ some thread_blocked)) e v.queued.sleeping).1;
      sleeping_sorted =
          (subst (IsSorted (cmp_sleeping_thread (wake_ups s))) e v.queued.sleeping_sorted).1;
      sleeping_distinct = (subst Distinct e v.queued.sleeping_distinct).1;
      idle_there = v.queued.idle_there;
      idle_awake = (subst (Away s.idle_thread) e v.queued.idle_awake).1;
    };
    running = v.running;
  },
  (subst Distinct e v.queued.sleeping_distinct).0,
)

wake_loop_lem :
    (ts : List ℕ) (now_tick : ℤ) (s : Kernel)
    → s.sleeping_list ≡ ts
    → IsValid s
    → (s' : Kernel) × (wake_loop ts now_tick s ≡ some s') × Woken ts now_tick s s'
unfolding wake_loop
wake_loop_lem [] now_tick s e v = (
  s,
  refl,
  record {
    woken = [];
    cut = sym e;
    come = tt;
    enqueued = Perm.refl s.ready_list;
    up = tt;
    to_come = subst (All (λ t. ltb_ℤ now_tick (wake_ups s t) ≡ true)) (sym e) tt;
    valid = v;
    same_current = refl;
    same_priorities = refl;
    same_ticks = refl;
    others = λ k away. refl;
  },
)
wake_loop_lem (t ∷ ts) now_tick s e v =
    obtain (thread_of_status s t thread_blocked blocked.0) λ th there is.
      let tick : wake_ups s t ≡ th.wake_up_tick = rw there in
      elim (Bool-cases (ltb_ℤ now_tick th.wake_up_tick)) [
        | inl later ↦ (
          s,
          rw (there, later),
          record {
            woken = [];
            cut = sym e;
            come = tt;
            enqueued = Perm.refl s.ready_list;
            up = tt;
            to_come =
                subst (All (λ k. ltb_ℤ now_tick (wake_ups s k) ≡ true)) (sym e)
                  (rw tick later, All-later (wake_ups s) now_tick t ts (rw tick later) sorted.0);
            valid = v;
            same_current = refl;
            same_priorities = refl;
            same_ticks = refl;
            others = λ k away. refl;
          },
        )
        | inr come ↦
            obtain
              (thread_unblock_lem t (pop-IsValid s t ts e v).0 blocked.0 (pop-IsValid s t ts e v).1)
              λ s₁ run₁ un. obtain (wake_loop_lem ts now_tick s₁ un.sleepers un.valid) λ s₂ run₂ w.
                (
                  s₂,
                  rw (there, come, run₁) run₂,
                  record {
                    woken = t ∷ w.woken;
                    cut = ap (λ l. t ∷ l) w.cut;
                    come = (rw tick (ground arith), ticks_back un.same_ticks w.woken w.come);
                    enqueued =
                        Perm.trans w.enqueued
                          (more w.woken s.ready_list (Perm-of_Placed un.placed));
                    up =
                        (ap status_of (w.others t (pop-IsValid s t ts e v).1) ∙ un.now_ready, w.up);
                    to_come =
                        subst
                          (λ (f : ℕ → ℤ). All (λ k. ltb_ℤ now_tick (f k) ≡ true) s₂.sleeping_list)
                          un.same_ticks w.to_come;
                    valid = w.valid;
                    same_current = w.same_current ∙ un.same_current;
                    same_priorities = w.same_priorities ∙ un.same_priorities;
                    same_ticks = w.same_ticks ∙ un.same_ticks;
                    others = λ k away. w.others k away.1 ∙ un.others k (λ e'. away.0 (sym e'));
                  },
                )
      ]
  where
    more :
        (woken queue : List ℕ) {queue₁ : List ℕ}
        → Perm queue₁ (t ∷ queue)
        → Perm (woken ++ queue₁) (t ∷ (woken ++ queue))
    more woken queue p = Perm.trans ((perm-append_left_iff woken).1 p) (perm_middle woken queue)

    ticks_back :
        {w w' : ℕ → ℤ}
        → w' ≡ w
        → (l : List ℕ) → All (λ k. w' k ≤ℤ now_tick) l
        → All (λ k. w k ≤ℤ now_tick) l
    ticks_back same l all = subst (λ (f : ℕ → ℤ). All (λ k. f k ≤ℤ now_tick) l) same all

    blocked : All (λ k. status_at s k ≡ some thread_blocked) (t ∷ ts)
    blocked = subst (All (λ k. status_at s k ≡ some thread_blocked)) e v.queued.sleeping

    sorted : IsSorted (cmp_sleeping_thread (wake_ups s)) (t ∷ ts)
    sorted = subst (IsSorted (cmp_sleeping_thread (wake_ups s))) e v.queued.sleeping_sorted

-- `thread_wake_up` passes every ASSERT and keeps the invariant. Exactly the sleeping threads whose tick
-- has come are ready afterwards, off the sleeping list and on the ready list, each once beside the threads
-- that were there, in order of priority; the others sleep on; the running thread,
-- priorities, ticks and every thread that did not sleep stay as they were.
pub thread_wake_up_lem :
    {s : Kernel} (now_tick : ℤ)
    → IsValid s
    → (s' : Kernel) × (thread_wake_up now_tick s ≡ some s') × Woken s.sleeping_list now_tick s s'
unfolding thread_wake_up
thread_wake_up_lem {s} now_tick v = wake_loop_lem s.sleeping_list now_tick s refl v
