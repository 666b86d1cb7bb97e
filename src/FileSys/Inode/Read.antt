-- ===== src/FileSys/Inode/Read.antt =====
-- `inode_read_at` of pintos/src/filesys/inode.c.
use sogang_pint_os.Common.{
  ℕ, zero, suc, ◌+◌, ◌-◌, ◌/◌, ◌%◌, ◌<◌, ◌≤◌, ◌≡◌, refl, sym, ap, ap₂, ◌∙◌, ◌⊎◌, inl, inr, Bool,
  true, false, not, ◌&&◌, some, arith, ltb, leb, ◌==◌, if◌then◌else◌, Bool-cases, min, obtain,
}
use sogang_pint_os.Block.{Block, block_read_lem}
use sogang_pint_os.FileSys.Inode.{
  Inode, Buffer, byte_to_sector, chunk_size, whole_sector, put_bytes, read_chunk, read_loop,
  inode_read_at, byte_at, IsStored,
}

-- The sector of an offset inside the file lies on the device.
pub byte_to_sector_lem :
    {inode : Inode} {dev : Block} (offset : ℕ)
    → IsStored inode dev
    → offset < inode.disk.length
    → (byte_to_sector inode offset ≡ inode.disk.start + offset / 512)
      × (inode.disk.start + offset / 512 < dev.size)
unfolding byte_to_sector
byte_to_sector_lem offset v h = ground (arith, v.inside, v.small)

-- The buffer after the `n` bytes of the file at `offset` have been put at `at`.
abbrev pub filled : Block → Inode → ℕ → ℕ → ℕ → Buffer → Buffer
filled dev inode offset at n buffer k =
    if leb at k && ltb k (at + n) then byte_at dev inode (offset + (k - at)) else buffer k

-- Offsets of one sector.
same_sector :
    (offset j : ℕ)
    → j < 512 - offset % 512
    → ((offset + j) / 512 ≡ offset / 512) × ((offset + j) % 512 ≡ offset % 512 + j)
same_sector offset j h = omega (arith, h)

-- Whether `k` is one of the `n` indices from `at` on.
pub span_cases :
    (at n k : ℕ)
    → ((leb at k && ltb k (at + n)) ≡ true) × (at ≤ k) × (k < at + n)
      ⊎ (((leb at k && ltb k (at + n)) ≡ false) × (k < at ⊎ at + n ≤ k))
span_cases at n k = ground arith

part_filled :
    (inode : Inode) (dev : Block) (offset chunk at : ℕ) (buffer : Buffer)
    → chunk ≤ 512 - offset % 512
    → (k : ℕ)
    → put_bytes at chunk (offset % 512) (dev.sectors (inode.disk.start + offset / 512)) buffer k
      ≡ filled dev inode offset at chunk buffer k
part_filled inode dev offset chunk at buffer inside k = elim (span_cases at chunk k) [
  | inl (e, lo, hi) ↦
      let same = same_sector offset (k - at) (omega arith) in rw (e, same.0, same.1) refl
  | inr (e, out) ↦ rw e refl
]

read_chunk_lem :
    {inode : Inode} {dev : Block} (offset chunk at : ℕ) (buffer : Buffer)
    → IsStored inode dev
    → 0 < chunk
    → offset + chunk ≤ inode.disk.length
    → chunk ≤ 512 - offset % 512
    → (buffer' : Buffer) × (read_chunk inode offset chunk at buffer dev
        ≡ some (buffer', record dev { read_cnt = dev.read_cnt + 1 }))
      × ((k : ℕ) → buffer' k ≡ filled dev inode offset at chunk buffer k)
unfolding read_chunk
read_chunk_lem {inode} {dev} offset chunk at buffer v some_left fits inside =
    let place = byte_to_sector_lem offset v (omega arith) in
    rw (place.0, block_read_lem dev (inode.disk.start + offset / 512) place.1)
      (elim (Bool-cases (whole_sector offset chunk)) [
        | inl e ↦
            let start : offset % 512 ≡ 0 = ground arith in
            let all : chunk ≡ 512 = ground arith in rw e (_, refl, whole start all)
        | inr e ↦ rw e (_, refl, part_filled inode dev offset chunk at buffer inside)
      ])
  where
    whole :
        offset % 512 ≡ 0
        → chunk ≡ 512
        → (k : ℕ)
        → put_bytes at 512 0 (dev.sectors (inode.disk.start + offset / 512)) buffer k
          ≡ filled dev inode offset at chunk buffer k
    whole start all k =
        ap₂ (λ n o. put_bytes at n o (dev.sectors (inode.disk.start + offset / 512)) buffer k)
          (sym all) (sym start)
        ∙ part_filled inode dev offset chunk at buffer inside k

-- Two parts that follow one another.
filled-filled :
    (dev : Block) (inode : Inode) (offset at m n : ℕ) (buffer buffer' : Buffer)
    → ((k : ℕ) → buffer' k ≡ filled dev inode offset at m buffer k)
    → (k : ℕ)
    → filled dev inode (offset + m) (at + m) n buffer' k
      ≡ filled dev inode offset at (m + n) buffer k
filled-filled dev inode offset at m n buffer buffer' first k = elim (span_cases (at + m) n k) [
  | inl (e, lo, hi) ↦
      let joined : (leb at k && ltb k (at + (m + n))) ≡ true = ground arith in
      let place : offset + m + (k - (at + m)) ≡ offset + (k - at) = omega arith in
      rw (e, joined, place) refl
  | inr (e, out) ↦
      rw (e, first k)
        (elim (span_cases at m k) [
          | inl (e₁, lo, hi) ↦
              let joined : (leb at k && ltb k (at + (m + n))) ≡ true = ground arith in
              rw (e₁, joined) refl
          | inr (e₁, out₁) ↦
              let joined : (leb at k && ltb k (at + (m + n))) ≡ false = ground arith in
              rw (e₁, joined) refl
        ])
]

read_loop_lem :
    {inode : Inode} (fuel size offset at : ℕ) (buffer : Buffer) (dev : Block)
    → IsStored inode dev
    → size < fuel
    → (out : Buffer × ℕ) × (read_loop fuel false inode size offset at buffer dev
        ≡ some (at + min size (inode.disk.length - offset), out.0, record dev { read_cnt = out.1 }))
      × ((k : ℕ)
          → out.0 k ≡ filled dev inode offset at (min size (inode.disk.length - offset)) buffer k)
unfolding read_loop
read_loop_lem zero size offset at buffer dev v lt = absurd (omega (arith, lt))
read_loop_lem {inode} (suc fuel) size offset at buffer dev v lt =
    elim (Bool-cases (chunk_size inode size offset == 0)) [
      | inl e ↦
          let nothing : min size (inode.disk.length - offset) ≡ 0 = ground arith in
          let stay : at + 0 ≡ at = omega arith in
          rw (e, nothing, stay) ((buffer, dev.read_cnt), refl, λ k. rw (none_filled k) refl)
      | inr e ↦
          let some_left : 0 < chunk = ground arith in
          rw (e, and_false (not (whole_sector offset chunk)))
            (obtain
              (read_chunk_lem offset chunk at buffer v some_left (omega (arith, some_left))
                (omega arith))
              λ buffer₁ run₁ first.
                obtain
                  (read_loop_lem fuel (size - chunk) (offset + chunk) (at + chunk) buffer₁
                    (record dev { read_cnt = dev.read_cnt + 1 })
                    (record { inside = v.inside; small = v.small }) (omega (arith, some_left, lt)))
                  λ out run rest. (
                    out,
                    rw run₁
                        (run ∙ ap (λ n. some (n, out.0, record dev { read_cnt = out.1 })) total),
                    λ k.
                        rest k
                        ∙ filled-filled dev inode offset at chunk left buffer buffer₁ first k
                        ∙ ap (λ n. filled dev inode offset at n buffer k) number,
                  ))
    ]
  where
    chunk : ℕ
    chunk = chunk_size inode size offset

    left : ℕ
    left = min (size - chunk) (inode.disk.length - (offset + chunk))

    number : chunk + left ≡ min size (inode.disk.length - offset)
    number = omega arith

    total : at + chunk + left ≡ at + min size (inode.disk.length - offset)
    total = omega arith

    none_filled : (k : ℕ) → (leb at k && ltb k at) ≡ false
    none_filled k = ground arith

    and_false : (b : Bool) → (b && false) ≡ false
    and_false true = refl
    and_false false = refl

-- `inode_read_at` of a file that lies on the device, with memory for the bounce buffer, passes every
-- check and ends. It returns the smaller of `size` and what the file has from `offset` on; the buffer
-- holds those bytes of the file from its start on and is otherwise as before; nothing is written.
pub inode_read_at_lem :
    (inode : Inode) (size offset : ℕ) (buffer : Buffer) (dev : Block)
    → IsStored inode dev
    → (out : Buffer × ℕ) × (inode_read_at false inode buffer size offset dev
        ≡ some (min size (inode.disk.length - offset), out.0, record dev { read_cnt = out.1 }))
      × ((k : ℕ)
          → out.0 k ≡ (
              if ltb k (min size (inode.disk.length - offset))
              then byte_at dev inode (offset + k)
              else buffer k))
unfolding inode_read_at
inode_read_at_lem inode size offset buffer dev v =
    let zero_add : 0 + min size (inode.disk.length - offset)
        ≡ min size (inode.disk.length - offset) =
      omega arith in
    obtain (read_loop_lem {inode = inode} (size + 1) size offset 0 buffer dev v (omega arith))
      λ out run all. (
        out,
        run ∙ ap (λ n. some (n, out.0, record dev { read_cnt = out.1 })) zero_add,
        λ k. all k ∙ ground arith,
      )
