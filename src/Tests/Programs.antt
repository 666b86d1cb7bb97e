-- ===== src/Tests/Programs.antt =====
-- Runs of the theorems on the loading of programs.
use sogang_pint_os.Common.{◌+◌, ◌<◌, ◌≤◌, ◌≡◌, refl, true, false, some, [], arith}
use sogang_pint_os.Palloc.{pg_size}
use sogang_pint_os.Pagedir.{phys_base}
use sogang_pint_os.Hash.{Hash}
use sogang_pint_os.FileSys.File.{File}
use sogang_pint_os.Spt.{PageEntry}
use sogang_pint_os.Spt.Laws.{IsValid}
use sogang_pint_os.Loader.{Elf32Phdr, Supply, validate_segment, load_phdr}
use sogang_pint_os.Loader.Image.{Loaded, load_phdr_lem}

-- 9000 bytes of memory, of which the file has 5000.
abbrev data_segment : Elf32Phdr
data_segment = record {
  p_type = 1;
  p_offset = 4352;
  p_vaddr = 134516992;
  p_filesz = 5000;
  p_memsz = 9000;
  p_flags = 6;
}

abbrev program : File
program = record { inode = 3; pos = 52; deny_write = true }

abbrev no_pages : Hash PageEntry
no_pages = record { elem_cnt = 0; bucket_cnt = 4; buckets = λ k. [] }

no_pages-IsValid : IsValid no_pages
no_pages-IsValid = record {
  table = record { positive = omega arith; bucket = λ i lt. record { home = tt; unique = tt } };
  counted = refl;
}

abbrev enough : Supply
enough = record { entry = λ page. true; buckets = λ page. false }

load_phdr_lem_example :
    (out : File × Hash PageEntry) × (load_phdr enough data_segment 20000 program no_pages
      ≡ some (true, out.0, out.1))
    × (out.0.inode ≡ 3)
    × (pg_size ≤ 134516992)
    × (134516992 + 9000 < phys_base)
    × Loaded data_segment out.0 no_pages out.1
unfolding validate_segment
load_phdr_lem_example =
    load_phdr_lem enough data_segment 20000 program (λ page. refl)
      (record { vaddr = omega arith; memsz = omega arith }) (omega arith) (omega arith)
      no_pages-IsValid refl
