-- ===== src/FileSys/Inode/WriteChunk.antt =====
-- One round of `inode_write_at` (pintos/src/filesys/inode.c): the sector that it leaves.
use sogang_pint_os.Common.{
  ℕ, zero, suc, ◌+◌, ◌-◌, ◌/◌, ◌%◌, ◌<◌, ◌≤◌, ◌≡◌, refl, sym, ap, ap₂, ◌∙◌, inl, inr, true, false,
  ◌&&◌, ◌||◌, some, ◌∷◌, arith, ltb, leb, ◌==◌, if◌then◌else◌, Bool-cases, get_or,
}
use sogang_pint_os.Block.{Block, block_read_lem, block_write_lem}
use sogang_pint_os.FileSys.Inode.{
  Inode, Buffer, whole_sector, bytes_from, write_chunk, byte_at, IsStored,
}
use sogang_pint_os.FileSys.Inode.Read.{byte_to_sector_lem, span_cases}

get_or-bytes_from : (n i k : ℕ) (f : Buffer) → k < n → get_or (bytes_from n i f) k 0 ≡ f (i + k)
unfolding bytes_from
get_or-bytes_from zero i k f h = absurd (omega (arith, h))
get_or-bytes_from (suc n) i zero f h = let same : i + 0 ≡ i = omega arith in rw same refl
get_or-bytes_from (suc n) i (suc k) f h =
    get_or-bytes_from n (i + 1) k f (omega (arith, h))
    ∙ (let same : i + 1 + k ≡ i + suc k = omega arith in ap f same)

-- Byte `p` of the file after the `n` bytes of the buffer from `at` on were written at `offset`.
abbrev pub patched : Block → Inode → ℕ → ℕ → ℕ → Buffer → ℕ → ℕ
patched dev inode offset at n buffer p =
    if leb offset p && ltb p (offset + n) then buffer (at + (p - offset)) else byte_at dev inode p

-- One round: the sector of `offset` is replaced by bytes that `f` gives.
abbrev pub replaced : Block → Inode → ℕ → Buffer → ℕ → ℕ → Block
replaced dev inode offset f reads writes = record dev {
  sectors = λ k. if inode.disk.start + offset / 512 == k then bytes_from 512 0 f else dev.sectors k;
  read_cnt = reads;
  write_cnt = writes;
}

pub replaced_lem :
    (dev : Block) (inode : Inode) (offset at chunk : ℕ) (buffer f : Buffer)
    → chunk ≤ 512 - offset % 512
    → ((j : ℕ)
        → j < 512
        → f j ≡ (
            if leb (offset % 512) j && ltb j (offset % 512 + chunk)
            then buffer (at + (j - offset % 512))
            else get_or (dev.sectors (inode.disk.start + offset / 512)) j 0))
    → (reads writes p : ℕ)
    → byte_at (replaced dev inode offset f reads writes) inode p
      ≡ patched dev inode offset at chunk buffer p
replaced_lem dev inode offset at chunk buffer f inside is reads writes p =
    elim (Bool-cases (inode.disk.start + offset / 512 == inode.disk.start + p / 512)) [
      | inl e ↦
          let here : p / 512 ≡ offset / 512 = ground arith in
          rw e (
            get_or-bytes_from 512 0 (p % 512) f (omega arith)
            ∙ ap f (zero_add (p % 512))
            ∙ is (p % 512) (omega arith)
            ∙ in_sector here)
      | inr e ↦
          let off : (leb offset p && ltb p (offset + chunk)) ≡ false = ground (arith, inside) in
          rw (e, off) refl
    ]
  where
    zero_add : (k : ℕ) → 0 + k ≡ k
    zero_add k = omega arith

    in_sector :
        p / 512 ≡ offset / 512
        → (if leb (offset % 512) (p % 512) && ltb (p % 512) (offset % 512 + chunk)
            then buffer (at + (p % 512 - offset % 512))
            else get_or (dev.sectors (inode.disk.start + offset / 512)) (p % 512) 0)
          ≡ patched dev inode offset at chunk buffer p
    in_sector here = elim (span_cases offset chunk p) [
      | inl (e, lo, hi) ↦
          let inner : (leb (offset % 512) (p % 512) && ltb (p % 512) (offset % 512 + chunk))
              ≡ true =
            ground (arith, here) in
          let place : p % 512 - offset % 512 ≡ p - offset = omega (arith, here) in
          rw (e, inner, place) refl
      | inr (e, out) ↦
          let inner : (leb (offset % 512) (p % 512) && ltb (p % 512) (offset % 512 + chunk))
              ≡ false =
            ground (arith, here) in
          rw (e, inner, here) refl
    ]

-- The bytes of a sector that one round leaves: those of the chunk from the buffer, the others as before.
abbrev pub round_bytes : Block → Inode → ℕ → ℕ → ℕ → Buffer → Buffer
round_bytes dev inode offset at chunk buffer j =
    if leb (offset % 512) j && ltb j (offset % 512 + chunk)
    then buffer (at + (j - offset % 512))
    else get_or (dev.sectors (inode.disk.start + offset / 512)) j 0

bytes_from-shift :
    (n i at : ℕ) (f g : Buffer)
    → ((j : ℕ) → j < i + n → g j ≡ f (at + j))
    → bytes_from n (at + i) f ≡ bytes_from n i g
unfolding bytes_from
bytes_from-shift zero i at f g same = refl
bytes_from-shift (suc n) i at f g same =
    let next : at + i + 1 ≡ at + (i + 1) = omega arith in
    ap₂ (λ x y. x ∷ y) (sym (same i (omega arith)))
      (rw next (bytes_from-shift n (i + 1) at f g (λ j h. same j (omega (arith, h)))))

pub write_chunk_lem :
    {inode : Inode} {dev : Block} (offset chunk at : ℕ) (buffer : Buffer)
    → IsStored inode dev
    → dev.foreign ≡ false
    → 0 < chunk
    → offset + chunk ≤ inode.disk.length
    → chunk ≤ 512 - offset % 512
    → (reads : ℕ) × (write_chunk inode offset chunk at buffer dev
        ≡ some (
            replaced dev inode offset
              (round_bytes dev inode offset at chunk buffer)
              reads
              (dev.write_cnt + 1)))
unfolding write_chunk
write_chunk_lem {inode} {dev} offset chunk at buffer v own some_left fits inside =
    let place = byte_to_sector_lem offset v (omega arith) in
    elim (Bool-cases (whole_sector offset chunk)) [
      | inl e ↦
          let start : offset % 512 ≡ 0 = ground arith in
          let all : chunk ≡ 512 = ground arith in
          let at₀ : at + 0 ≡ at = omega arith in
          let same : bytes_from 512 at buffer
              ≡ bytes_from 512 0 (round_bytes dev inode offset at chunk buffer) =
            ap (λ i. bytes_from 512 i buffer) (sym at₀)
            ∙ bytes_from-shift 512 0 at buffer (round_bytes dev inode offset at chunk buffer)
                (whole_bytes start all) in
          (
            dev.read_cnt,
            rw
                (
                  e,
                  place.0,
                  block_write_lem dev (inode.disk.start + offset / 512) (bytes_from 512 at buffer)
                      place.1 own,
                )
                (ap
                  (λ bytes. some (record dev {
                    sectors =
                        λ k. if inode.disk.start + offset / 512 == k then bytes else dev.sectors k;
                    write_cnt = dev.write_cnt + 1;
                  }))
                  same),
          )
      | inr e ↦
          let part : (ltb 0 (offset % 512) || ltb chunk (512 - offset % 512)) ≡ true =
            ground arith in
          (
            dev.read_cnt + 1,
            rw (e, part, place.0, block_read_lem dev (inode.disk.start + offset / 512) place.1)
                (block_write_lem (record dev { read_cnt = dev.read_cnt + 1 })
                  (inode.disk.start + offset / 512)
                  (bytes_from 512 0 (round_bytes dev inode offset at chunk buffer)) place.1 own),
          )
    ]
  where
    whole_bytes :
        offset % 512 ≡ 0
        → chunk ≡ 512
        → (j : ℕ) → j < 0 + 512
        → round_bytes dev inode offset at chunk buffer j ≡ buffer (at + j)
    whole_bytes start all j h =
        let here : (leb (offset % 512) j && ltb j (offset % 512 + chunk)) ≡ true =
          ground (arith, start, all) in
        let place : j - offset % 512 ≡ j = omega (arith, start) in rw (here, place) refl
