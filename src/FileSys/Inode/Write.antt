-- ===== src/FileSys/Inode/Write.antt =====
-- `inode_write_at` of pintos/src/filesys/inode.c, and a read after a write.
use mathlib.Core.Path.{subst}
use sogang_pint_os.Common.{
  ℕ, zero, suc, ◌+◌, ◌-◌, ◌/◌, ◌%◌, ◌<◌, ◌≤◌, ◌≡◌, refl, sym, ap, ◌∙◌, ◌⊎◌, inl, inr, Bool, true,
  false, not, ◌&&◌, some, arith, ltb, leb, ◌==◌, if◌then◌else◌, Bool-cases, ne→==_false, min,
  obtain, obtain₁, eq_of_some, lt→ltb,
}
use sogang_pint_os.Common.Panic.{◌>>=◌}
use sogang_pint_os.Block.{Block}
use sogang_pint_os.FileSys.Inode.{
  Inode, Buffer, bytes_to_sectors, chunk_size, whole_sector, write_chunk, write_loop,
  inode_write_at, inode_read_at, byte_at, IsStored,
}
use sogang_pint_os.FileSys.Inode.Read.{span_cases, inode_read_at_lem}
use sogang_pint_os.FileSys.Inode.WriteChunk.{
  patched, replaced, replaced_lem, round_bytes, write_chunk_lem,
}

-- What a run of writes of the `n` bytes from `at` on of the buffer, at `offset` of the file, leads to: the
-- file holds them there and its other bytes are as before, and so is every sector outside of the file.
pub record WroteAt (dev dev' : Block) (inode : Inode) (offset at n : ℕ) (buffer : Buffer)
    : Type 0 where
  pub same_size : dev'.size ≡ dev.size
  pub same_foreign : dev'.foreign ≡ dev.foreign
  pub file : (p : ℕ) → byte_at dev' inode p ≡ patched dev inode offset at n buffer p
  pub elsewhere :
      (k : ℕ)
      → k < inode.disk.start ⊎ inode.disk.start + bytes_to_sectors inode.disk.length ≤ k
      → dev'.sectors k ≡ dev.sectors k

patched-patched :
    (dev dev₁ : Block) (inode : Inode) (offset at m n : ℕ) (buffer : Buffer)
    → ((p : ℕ) → byte_at dev₁ inode p ≡ patched dev inode offset at m buffer p)
    → (p : ℕ)
    → patched dev₁ inode (offset + m) (at + m) n buffer p
      ≡ patched dev inode offset at (m + n) buffer p
patched-patched dev dev₁ inode offset at m n buffer first p = elim (span_cases (offset + m) n p) [
  | inl (e, lo, hi) ↦
      let joined : (leb offset p && ltb p (offset + (m + n))) ≡ true = ground arith in
      let place : at + m + (p - (offset + m)) ≡ at + (p - offset) = omega arith in
      rw (e, joined, place) refl
  | inr (e, out) ↦
      rw (e, first p)
        (elim (span_cases offset m p) [
          | inl (e₁, lo, hi) ↦
              let joined : (leb offset p && ltb p (offset + (m + n))) ≡ true = ground arith in
              rw (e₁, joined) refl
          | inr (e₁, out₁) ↦
              let joined : (leb offset p && ltb p (offset + (m + n))) ≡ false = ground arith in
              rw (e₁, joined) refl
        ])
]

module _ {inode : Inode} (buffer : Buffer) where
  one_round :
      (dev : Block) (offset chunk at reads : ℕ)
      → offset + chunk ≤ inode.disk.length
      → 0 < chunk
      → chunk ≤ 512 - offset % 512
      → WroteAt dev
          (replaced dev inode offset
            (round_bytes dev inode offset at chunk buffer)
            reads
            (dev.write_cnt + 1))
          inode
          offset
          at
          chunk
          buffer
  one_round dev offset chunk at reads fits some_left inside = record {
    same_size = refl;
    same_foreign = refl;
    file =
        replaced_lem dev inode offset at chunk buffer (round_bytes dev inode offset at chunk buffer)
          inside (λ j h. refl) reads (dev.write_cnt + 1);
    elsewhere = λ k out.
        let off : (inode.disk.start + offset / 512 == k) ≡ false =
          ne→==_false (inode.disk.start + offset / 512) k
            (λ e. absurd (omega (arith, out, e, fits, some_left))) in
        rw off refl;
  }

  write_loop_lem :
      (fuel size offset at : ℕ) (dev : Block)
      → IsStored inode dev
      → dev.foreign ≡ false
      → size < fuel
      → (dev' : Block) × (write_loop fuel false inode size offset at buffer dev
          ≡ some (at + min size (inode.disk.length - offset), dev'))
        × WroteAt dev dev' inode offset at (min size (inode.disk.length - offset)) buffer
  unfolding write_loop
  write_loop_lem zero size offset at dev v own lt = absurd (omega (arith, lt))
  write_loop_lem (suc fuel) size offset at dev v own lt =
      elim (Bool-cases (chunk_size inode size offset == 0)) [
        | inl e ↦
            let nothing : min size (inode.disk.length - offset) ≡ 0 = ground arith in
            let stay : at + 0 ≡ at = omega arith in
            rw (e, nothing, stay)
              (
                dev,
                refl,
                record {
                  same_size = refl;
                  same_foreign = refl;
                  file = λ p. rw (none_filled p) refl;
                  elsewhere = λ k out. refl;
                },
              )
        | inr e ↦
            let some_left : 0 < chunk = ground arith in
            rw (e, and_false (not (whole_sector offset chunk)))
              (obtain₁
                (write_chunk_lem offset chunk at buffer v own some_left (omega (arith, some_left))
                  (omega arith))
                λ reads run₁. go some_left reads run₁ (
                  write_loop_lem fuel (size - chunk) (offset + chunk) (at + chunk)
                    (replaced dev inode offset (round_bytes dev inode offset at chunk buffer) reads
                      (dev.write_cnt + 1))
                    (record { inside = v.inside; small = v.small }) own
                    (omega (arith, some_left, lt))))
      ]
    where
      chunk : ℕ
      chunk = chunk_size inode size offset

      left : ℕ
      left = min (size - chunk) (inode.disk.length - (offset + chunk))

      number : chunk + left ≡ min size (inode.disk.length - offset)
      number = omega arith

      total : at + chunk + left ≡ at + min size (inode.disk.length - offset)
      total = omega arith

      none_filled : (k : ℕ) → (leb offset k && ltb k (offset + 0)) ≡ false
      none_filled k = ground arith

      and_false : (b : Bool) → (b && false) ≡ false
      and_false true = refl
      and_false false = refl

      after : ℕ → Block
      after reads =
          replaced dev inode offset (round_bytes dev inode offset at chunk buffer) reads
            (dev.write_cnt + 1)

      go :
          0 < chunk
          → (reads : ℕ) → write_chunk inode offset chunk at buffer dev ≡ some (after reads)
          → (dev' : Block) × (write_loop fuel false inode
                (size - chunk)
                (offset + chunk)
                (at + chunk)
                buffer
                (after reads)
              ≡ some (at + chunk + left, dev'))
            × WroteAt (after reads) dev' inode (offset + chunk) (at + chunk) left buffer
          → (dev' : Block) × ((write_chunk inode offset chunk at buffer dev >>= λ dev₁.
                write_loop fuel false inode
                  (size - chunk)
                  (offset + chunk)
                  (at + chunk)
                  buffer
                  dev₁)
              ≡ some (at + min size (inode.disk.length - offset), dev'))
            × WroteAt dev dev' inode offset at (min size (inode.disk.length - offset)) buffer
      go some_left reads run₁ more =
          let first =
            one_round dev offset chunk at reads (omega (arith, some_left)) some_left
              (omega arith) in
          obtain more λ dev' run rest. (
            dev',
            rw run₁ (run ∙ ap (λ n. some (n, dev')) total),
            record {
              same_size = rest.same_size;
              same_foreign = rest.same_foreign;
              file = λ p.
                  rest.file p
                  ∙ patched-patched dev (after reads) inode offset at chunk left buffer first.file p
                  ∙ ap (λ n. patched dev inode offset at n buffer p) number;
              elsewhere = λ k out. rest.elsewhere k out ∙ first.elsewhere k out;
            },
          )

-- The case of writes that are not denied.
write_allowed :
    (inode : Inode) (size offset : ℕ) (buffer : Buffer) (dev : Block)
    → IsStored inode dev
    → dev.foreign ≡ false
    → (inode.deny_write_cnt == 0) ≡ true
    → (dev' : Block) × (inode_write_at false inode buffer size offset dev
        ≡ some (min size (inode.disk.length - offset), dev'))
      × WroteAt dev dev' inode offset 0 (min size (inode.disk.length - offset)) buffer
unfolding inode_write_at
write_allowed inode size offset buffer dev v own e = rw e (
    obtain (write_loop_lem {inode = inode} buffer (size + 1) size offset 0 dev v own (omega arith))
      λ dev' run wrote. (dev', run ∙ ap (λ n. some (n, dev')) zero_add, wrote))
  where
    zero_add : 0 + min size (inode.disk.length - offset) ≡ min size (inode.disk.length - offset)
    zero_add = omega arith

pub inode_write_at_denied :
    (no_memory : Bool) (inode : Inode) (buffer : Buffer) (size offset : ℕ) (dev : Block)
    → 0 < inode.deny_write_cnt
    → inode_write_at no_memory inode buffer size offset dev ≡ some (0, dev)
unfolding inode_write_at
inode_write_at_denied no_memory inode buffer size offset dev lt =
    let denied : (inode.deny_write_cnt == 0) ≡ false = ground arith in rw (inode_write_at, denied)

-- `inode_write_at` of a file that lies on the device, with memory for the bounce buffer, passes every
-- check and ends. While writes are denied it returns 0 and changes nothing. Otherwise it returns the
-- smaller of `size` and what the file has from `offset` on; the file holds those bytes of the buffer
-- there, and its other bytes and every sector outside of it are as before.
pub inode_write_at_lem :
    (inode : Inode) (size offset : ℕ) (buffer : Buffer) (dev : Block)
    → IsStored inode dev
    → dev.foreign ≡ false
    → (dev' : Block) × (inode_write_at false inode buffer size offset dev
        ≡ some
            (if inode.deny_write_cnt == 0 then min size (inode.disk.length - offset) else 0, dev'))
      × WroteAt dev dev' inode offset 0
          (if inode.deny_write_cnt == 0 then min size (inode.disk.length - offset) else 0)
          buffer
unfolding inode_write_at
inode_write_at_lem inode size offset buffer dev v own =
    elim (Bool-cases (inode.deny_write_cnt == 0)) [
      | inl e ↦
          obtain (write_allowed inode size offset buffer dev v own e)
            λ dev' run wrote. (dev', run ∙ rw e refl, rw e wrote)
      | inr e ↦ rw e (
        dev,
        refl,
        record {
          same_size = refl;
          same_foreign = refl;
          file = λ p. rw (none_filled p) refl;
          elsewhere = λ k out. refl;
        },
      )
    ]
  where
    none_filled : (p : ℕ) → (leb offset p && ltb p (offset + 0)) ≡ false
    none_filled p = ground arith

-- Bytes that were written to a file, while writes were allowed and up to its end, are read back: a read
-- of as many bytes at the same offset gives the bytes of the written buffer, whatever its own held.
pub inode_read_at-inode_write_at :
    (inode : Inode) (size offset : ℕ) (written buffer : Buffer) (dev dev' : Block) (n : ℕ)
    → IsStored inode dev
    → dev.foreign ≡ false
    → inode.deny_write_cnt ≡ 0
    → inode_write_at false inode written size offset dev ≡ some (n, dev')
    → (out : Buffer × ℕ) × (inode_read_at false inode buffer size offset dev'
        ≡ some (n, out.0, record dev' { read_cnt = out.1 }))
      × ((k : ℕ) → k < n → out.0 k ≡ written k)
inode_read_at-inode_write_at inode size offset written buffer dev dev' n v own allowed run =
    let open_for_writing : (inode.deny_write_cnt == 0) ≡ true = rw allowed refl in
    obtain (write_allowed inode size offset written dev v own open_for_writing) λ dev₁ run₁ wrote.
      subst
        (λ (o : ℕ × Block).
          (out : Buffer × ℕ) × (inode_read_at false inode buffer size offset o.1
            ≡ some (o.0, out.0, record o.1 { read_cnt = out.1 }))
          × ((k : ℕ) → k < o.0 → out.0 k ≡ written k))
        (eq_of_some (sym run₁ ∙ run)) (back dev₁ wrote)
  where
    back :
        (dev₁ : Block)
        → WroteAt dev dev₁ inode offset 0 (min size (inode.disk.length - offset)) written
        → (out : Buffer × ℕ) × (inode_read_at false inode buffer size offset dev₁
            ≡ some (min size (inode.disk.length - offset), out.0, record dev₁ { read_cnt = out.1 }))
          × ((k : ℕ) → k < min size (inode.disk.length - offset) → out.0 k ≡ written k)
    back dev₁ wrote =
        let v₁ : IsStored inode dev₁ = record {
          inside = omega (arith, v.inside, wrote.same_size);
          small = omega (arith, v.small, wrote.same_size);
        } in
        obtain (inode_read_at_lem inode size offset buffer dev₁ v₁) λ out run₁ all. (
          out,
          run₁,
          λ k h.
              let read : ltb k (min size (inode.disk.length - offset)) ≡ true = lt→ltb k _ h in
              let in_file : (leb offset (offset + k)
                    && ltb (offset + k) (offset + min size (inode.disk.length - offset)))
                  ≡ true =
                ground arith in
              let place : 0 + (offset + k - offset) ≡ k = omega arith in
              all k ∙ rw read (wrote.file (offset + k) ∙ rw (in_file, place) refl),
        )
