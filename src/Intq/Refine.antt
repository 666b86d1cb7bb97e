-- ===== src/Intq/Refine.antt =====
-- The interrupt queue of pintos/src/devices/intq.c beside an abstract queue, the list of its bytes.
use sogang_pint_os.Common.{
  ℕ, zero, suc, ◌+◌, ◌-◌, ◌%◌, ◌≤◌, ◌<◌, ◌≡◌, ◌≢◌, refl, sym, ap, ap₂, Option-cases, none-ne-some,
  ne→==_false, ◌∙◌, inl, inr, true, false, none, some, List, [], ◌∷◌, ◌++◌, arith, ◌==◌, Bool-cases,
  get_or, set, length-set, get_or-set_self, get_or-set_ne,
}
use sogang_pint_os.Intq.{
  Intq, Caller, Call, returns, sleeps, locked_out, acquire, wait_locked, intq_bufsize, next, empty,
  full, intq_empty, intq_full, wait_not_empty, wait_not_full, signal_not_empty, signal_not_full,
  intq_getc, intq_putc, IsValid,
}

-- The bytes at `n` places from `pos` on.
abbrev read_from : ℕ → ℕ → List ℕ → List ℕ
read_from zero pos buf = []
read_from (suc n) pos buf = get_or buf pos 0 ∷ read_from n (next pos) buf

abbrev pub count : Intq → ℕ
count q = (q.head + intq_bufsize - q.tail) % intq_bufsize

-- The abstract queue, oldest byte first.
abbrev pub contents : Intq → List ℕ
contents q = read_from (count q) q.tail q.buf

next_in : (pos : ℕ) → next pos < 64
unfolding next
next_in pos = omega arith

next_back :
    (pos n at : ℕ)
    → pos < 64
    → at < 64
    → suc n ≤ (at + 64 - pos) % 64
    → n ≤ (at + 64 - next pos) % 64
unfolding next
next_back pos n at p a h = omega (arith, p, a, h)

-- A write to a place that is not read.
read_from-set :
    (n pos at v : ℕ) (buf : List ℕ)
    → pos < 64
    → at < 64
    → n ≤ (at + 64 - pos) % 64
    → read_from n pos (set buf at v) ≡ read_from n pos buf
read_from-set zero pos at v buf p a h = refl
read_from-set (suc n) pos at v buf p a h =
    ap₂ (λ x y. x ∷ y) (get_or-set_ne buf v 0 (λ e. absurd (omega (arith, p, a, h, e))))
      (read_from-set n (next pos) at v buf (next_in pos) a (next_back pos n at p a h))

next_add : (pos n : ℕ) → (next pos + n) % 64 ≡ (pos + suc n) % 64
unfolding next
next_add pos n = omega arith

read_from-end :
    (n pos : ℕ) (buf : List ℕ)
    → pos < 64
    → read_from (suc n) pos buf ≡ read_from n pos buf ++ (get_or buf ((pos + n) % 64) 0 ∷ [])
read_from-end zero pos buf p = let same : (pos + 0) % 64 ≡ pos = omega (arith, p) in rw same refl
read_from-end (suc n) pos buf p =
    ap (λ x. get_or buf pos 0 ∷ x)
      (read_from-end n (next pos) buf (next_in pos) ∙ rw (next_add pos n) refl)

empty_lem : (q : Intq) → IsValid q → count q ≡ 0 → empty q ≡ true
unfolding empty
empty_lem q v e = ground (arith, v.head_in, v.tail_in)

not_empty_lem : (q : Intq) → IsValid q → 0 < count q → empty q ≡ false
unfolding empty
not_empty_lem q v e = ground (arith, v.head_in, v.tail_in)

full_lem : (q : Intq) → IsValid q → count q ≡ 63 → full q ≡ true
unfolding full next
full_lem q v e = ground (arith, v.head_in, v.tail_in)

not_full_lem : (q : Intq) → IsValid q → count q < 63 → full q ≡ false
unfolding full next
not_full_lem q v e = ground (arith, v.head_in, v.tail_in)

count_bound : (q : Intq) → IsValid q → count q ≤ 63
count_bound q v = omega arith

-- What `intq_putc` may do.
pub data Put (c : Caller) (byte : ℕ) (q : Intq) : Call (Unit {0}) → Type 0 where
  stored :
      (q' : Intq)
      → count q < 63
      → IsValid q'
      → contents q' ≡ contents q ++ (byte ∷ [])
      → q'.not_empty ≡ none
      → q'.not_full ≡ q.not_full
      → q'.lock ≡ q.lock
      → Put c byte q (returns tt q.not_empty q')
  waits :
      (q' : Intq)
      → count q ≡ 63
      → IsValid q'
      → q'.buf ≡ q.buf
      → (q'.head ≡ q.head) × (q'.tail ≡ q.tail)
      → (q.lock ≡ none) × (q'.lock ≡ some c.current)
      → (q.not_full ≡ none) × (q'.not_full ≡ some c.current)
      → (q.not_empty ≡ none) × (q'.not_empty ≡ none)
      → Put c byte q (sleeps q')
  locked : (t : ℕ) → count q ≡ 63 → q.lock ≡ some t → Put c byte q (locked_out q)

-- The queue after a byte was stored.
abbrev stored_in : ℕ → Intq → Intq
stored_in byte q = record q { buf = set q.buf q.head byte; head = next q.head }

stored_in-IsValid : (byte : ℕ) (q : Intq) → IsValid q → IsValid (stored_in byte q)
stored_in-IsValid byte q v = record {
  room = length-set q.buf q.head byte ∙ v.room;
  head_in = next_in q.head;
  tail_in = v.tail_in;
  putter = v.putter;
  getter = v.getter;
}

count-stored :
    (byte : ℕ) (q : Intq) → IsValid q → count q < 63 → count (stored_in byte q) ≡ suc (count q)
unfolding next
count-stored byte q v h = omega (arith, v.head_in, v.tail_in, h)

head_place : (q : Intq) → IsValid q → (q.tail + count q) % 64 ≡ q.head
head_place q v = omega (arith, v.head_in, v.tail_in)

contents-stored :
    (byte : ℕ) (q : Intq)
    → IsValid q
    → count q < 63
    → contents (stored_in byte q) ≡ contents q ++ (byte ∷ [])
contents-stored byte q v h =
    let written : get_or (set q.buf q.head byte) q.head 0 ≡ byte =
      get_or-set_self q.buf q.head byte 0 (omega (arith, v.room, v.head_in)) in
    let kept : read_from (count q) q.tail (set q.buf q.head byte) ≡ contents q =
      read_from-set (count q) q.tail q.head byte q.buf v.tail_in v.head_in (omega arith) in
    ap (λ n. read_from n q.tail (set q.buf q.head byte)) (count-stored byte q v h)
    ∙ read_from-end (count q) q.tail (set q.buf q.head byte) v.tail_in
    ∙ ap₂ (λ x y. x ++ (y ∷ [])) kept
        (ap (λ i. get_or (set q.buf q.head byte) i 0) (head_place q v) ∙ written)

-- With a free lock nobody waits.
nobody_waits : {q : Intq} → IsValid q → q.lock ≡ none → (q.not_full ≡ none) × (q.not_empty ≡ none)
nobody_waits {q} v free = (
  elim (Option-cases q.not_full) [
    | inl e ↦ e
    | inr (t, e) ↦ absurd (none-ne-some (sym free ∙ v.putter t e))
  ],
  elim (Option-cases q.not_empty) [
    | inl e ↦ e
    | inr (t, e) ↦ absurd (none-ne-some (sym free ∙ v.getter t e))
  ],
)

free_lock :
    (c : Caller) (q : Intq)
    → q.lock ≡ none
    → c.intr_context ≡ false
    → acquire c q ≡ some (some (record q { lock = some c.current }))
unfolding acquire
free_lock c q free thread = rw (thread, free) refl

taken_lock :
    (c : Caller) (q : Intq) {t : ℕ}
    → q.lock ≡ some t
    → t ≢ c.current
    → c.intr_context ≡ false
    → acquire c q ≡ some none
unfolding acquire
taken_lock c q {t} held other thread = rw (thread, held, ne→==_false t c.current other) refl

-- `intq_putc` with interrupts off, by a caller that does not hold the queue's lock, and from an interrupt
-- handler only if the queue is not full. A queue of fewer than 63 bytes has the byte appended, stays
-- valid, and the thread that waits for a byte, if there is one, is unblocked and forgotten. On a queue of
-- 63 bytes whose lock is free, the caller takes the lock and sleeps as the thread that waits for room;
-- nobody waited before, and the queue stays valid with the same bytes. If another thread has the lock, the
-- caller sleeps for the lock and the queue does not change.
pub intq_putc_lem :
    (c : Caller) (byte : ℕ) (q : Intq)
    → c.intr_off ≡ true
    → IsValid q
    → q.lock ≢ some c.current
    → (count q ≡ 63 → c.intr_context ≡ false)
    → (out : Call (Unit {0})) × (intq_putc c byte q ≡ some out) × Put c byte q out
unfolding intq_putc intq_full intq_empty wait_not_full wait_locked signal_not_empty full
intq_putc_lem c byte q off v apart thread = elim (Bool-cases (count q == 63)) [
  | inl e ↦
      let is_full : count q ≡ 63 = ground arith in
      let t = thread is_full in
      elim (Option-cases q.lock) [
        | inl free ↦
            let idle = nobody_waits v free in
            let q' : Intq = record q { lock = some c.current; not_full = some c.current } in
            (
              sleeps q',
              rw (free_lock c q free t, off, full_lem q v is_full, t) refl,
              waits q' is_full
                  (record {
                    room = v.room;
                    head_in = v.head_in;
                    tail_in = v.tail_in;
                    putter = λ t e. e;
                    getter = λ t e. absurd (none-ne-some (sym idle.1 ∙ e));
                  })
                  refl (refl, refl) (free, refl) (idle.0, refl) (idle.1, idle.1),
            )
        | inr (holder, held) ↦
            let other : holder ≢ c.current = λ same. apart (held ∙ ap some same) in
            (
              locked_out q,
              rw (taken_lock c q held other t, off, full_lem q v is_full, t) refl,
              locked holder is_full held,
            )
      ]
  | inr e ↦
      let room : count q < 63 = ground (arith, count_bound q v) in
      let v' : IsValid (stored_in byte q) = stored_in-IsValid byte q v in
      rw
        (
          off,
          not_full_lem q v room,
          not_empty_lem (stored_in byte q) v' (omega (arith, count-stored byte q v room)),
        )
        (
          returns tt q.not_empty (record (stored_in byte q) { not_empty = none }),
          refl,
          stored (record (stored_in byte q) { not_empty = none }) room
              (record {
                room = v'.room;
                head_in = v'.head_in;
                tail_in = v'.tail_in;
                putter = v.putter;
                getter = λ t e. absurd (none-ne-some e);
              })
              (contents-stored byte q v room) refl refl refl,
        )
]

-- What `intq_getc` may do.
pub data Get (c : Caller) (q : Intq) : Call ℕ → Type 0 where
  removed :
      (byte : ℕ) (q' : Intq)
      → IsValid q'
      → contents q ≡ byte ∷ contents q'
      → q'.not_full ≡ none
      → q'.not_empty ≡ q.not_empty
      → q'.lock ≡ q.lock
      → Get c q (returns byte q.not_full q')
  waits_for_byte :
      (q' : Intq)
      → contents q ≡ []
      → IsValid q'
      → q'.buf ≡ q.buf
      → (q'.head ≡ q.head) × (q'.tail ≡ q.tail)
      → (q.lock ≡ none) × (q'.lock ≡ some c.current)
      → (q.not_empty ≡ none) × (q'.not_empty ≡ some c.current)
      → (q.not_full ≡ none) × (q'.not_full ≡ none)
      → Get c q (sleeps q')
  locked_for_byte : (t : ℕ) → contents q ≡ [] → q.lock ≡ some t → Get c q (locked_out q)

abbrev removed_from : Intq → Intq
removed_from q = record q { tail = next q.tail }

removed_from-IsValid : (q : Intq) → IsValid q → IsValid (removed_from q)
removed_from-IsValid q v = record {
  room = v.room;
  head_in = v.head_in;
  tail_in = next_in q.tail;
  putter = v.putter;
  getter = v.getter;
}

count-removed : (q : Intq) → IsValid q → 0 < count q → count q ≡ suc (count (removed_from q))
unfolding next
count-removed q v h = omega (arith, v.head_in, v.tail_in, h)

-- `intq_getc` with interrupts off, by a caller that does not hold the queue's lock, and from an interrupt
-- handler only if the queue is not empty. A queue that holds bytes gives the oldest one and keeps the
-- others, and the thread that waits for room, if there is one, is unblocked and forgotten. On an empty
-- queue whose lock is free, the caller takes the lock and sleeps as the thread that waits for a byte;
-- nobody waited before, and the queue stays valid and empty. If another thread has the lock, the caller
-- sleeps for the lock and the queue does not change.
pub intq_getc_lem :
    (c : Caller) (q : Intq)
    → c.intr_off ≡ true
    → IsValid q
    → q.lock ≢ some c.current
    → (contents q ≡ [] → c.intr_context ≡ false)
    → (out : Call ℕ) × (intq_getc c q ≡ some out) × Get c q out
unfolding intq_getc intq_full intq_empty wait_not_empty wait_locked signal_not_full empty
intq_getc_lem c q off v apart thread = elim (Bool-cases (count q == 0)) [
  | inl e ↦
      let none_left : count q ≡ 0 = ground arith in
      let nothing : contents q ≡ [] = ap (λ n. read_from n q.tail q.buf) none_left in
      let t = thread nothing in
      let is_empty = empty_lem q v none_left in
      elim (Option-cases q.lock) [
        | inl free ↦
            let idle = nobody_waits v free in
            let q' : Intq = record q { lock = some c.current; not_empty = some c.current } in
            (
              sleeps q',
              rw (free_lock c q free t, off, is_empty, t) refl,
              waits_for_byte q' nothing
                  (record {
                    room = v.room;
                    head_in = v.head_in;
                    tail_in = v.tail_in;
                    putter = λ t e. absurd (none-ne-some (sym idle.0 ∙ e));
                    getter = λ t e. e;
                  })
                  refl (refl, refl) (free, refl) (idle.1, refl) (idle.0, idle.0),
            )
        | inr (holder, held) ↦
            let other : holder ≢ c.current = λ same. apart (held ∙ ap some same) in
            (
              locked_out q,
              rw (taken_lock c q held other t, off, is_empty, t) refl,
              locked_for_byte holder nothing held,
            )
      ]
  | inr e ↦
      let some_left : 0 < count q = ground arith in
      let v' : IsValid (removed_from q) = removed_from-IsValid q v in
      let less : count q ≡ suc (count (removed_from q)) = count-removed q v some_left in
      rw
        (
          off,
          not_empty_lem q v some_left,
          not_full_lem (removed_from q) v' (omega (arith, less, count_bound q v)),
        )
        (
          returns (get_or q.buf q.tail 0) q.not_full (record (removed_from q) { not_full = none }),
          refl,
          removed (get_or q.buf q.tail 0) (record (removed_from q) { not_full = none })
              (record {
                room = v'.room;
                head_in = v'.head_in;
                tail_in = v'.tail_in;
                putter = λ t e. absurd (none-ne-some e);
                getter = v.getter;
              })
              (ap (λ n. read_from n q.tail q.buf) less) refl refl refl,
        )
]
