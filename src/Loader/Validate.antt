-- ===== src/Loader/Validate.antt =====
-- `validate_segment` of pintos/src/userprog/process.c.
use sogang_pint_os.Common.{ℕ, ◌+◌, ◌^◌, ◌<◌, ◌≤◌, ◌≡◌, true, arith}
use sogang_pint_os.Palloc.{pg_size, pg_ofs}
use sogang_pint_os.Pagedir.{phys_base}
use sogang_pint_os.Loader.{Elf32Phdr, validate_segment}

-- A segment that `validate_segment` accepts: it lies in the memory of the user, above page 0.
pub record IsSegment (phdr : Elf32Phdr) (length : ℕ) : Type 0 where
  pub same_ofs : pg_ofs phdr.p_offset ≡ pg_ofs phdr.p_vaddr
  pub in_file : phdr.p_offset ≤ length
  pub part : phdr.p_filesz ≤ phdr.p_memsz
  some_bytes : 0 < phdr.p_memsz
  pub above : pg_size ≤ phdr.p_vaddr
  pub below : phdr.p_vaddr + phdr.p_memsz < phys_base

-- The fields are words.
pub record IsPhdr (phdr : Elf32Phdr) : Type 0 where
  pub vaddr : phdr.p_vaddr < 2 ^ 32
  pub memsz : phdr.p_memsz < 2 ^ 32

pub validate_segment_lem :
    {phdr : Elf32Phdr} {length : ℕ}
    → IsPhdr phdr
    → validate_segment phdr length ≡ true
    → IsSegment phdr length
unfolding validate_segment
validate_segment_lem {phdr} {length} w ok = record {
  same_ofs = ground (arith, ok);
  in_file = ground (arith, ok);
  part = ground (arith, ok);
  some_bytes = ground (arith, ok);
  above = ground (arith, ok);
  below = ground (arith, ok, w.vaddr, w.memsz);
}
