-- ===== src/Tests/Paging.antt =====
-- Runs of the theorems on page directories.
use mathlib.Core.Path.{subst}
use sogang_pint_os.Common.{
  ℕ, zero, suc, ◌+◌, ◌*◌, ◌/◌, ◌%◌, ◌^◌, ◌<◌, ◌≡◌, ◌≢◌, refl, Bool, true, false, some, [], ◌∷◌,
  arith, get_or, ◌==◌, if◌then◌else◌,
}
use sogang_pint_os.Bitmap
use sogang_pint_os.Bitmap.{Bitmap}
use sogang_pint_os.Palloc.{Pools}
use sogang_pint_os.Palloc.OnePool
use sogang_pint_os.Palloc.OnePool.{in_use}
use sogang_pint_os.Pagedir.{Paging, pagedir_set_page, pagedir_clear_page, set_flag}
use sogang_pint_os.Pagedir.Lookup.{table, Used, IsDirectory, pte}
use sogang_pint_os.Pagedir.Bits.{Marked, set_flag_lem}
use sogang_pint_os.Pagedir.Laws.{get_page_lem, IsMapped, IsCleared, set_page_lem, clear_page_lem}

-- Pages 0 and 2 of 40 are in use.
abbrev map : Bitmap
map = record { bit_cnt = 40; bits = 5 ∷ 0 ∷ [] }

map-IsValid : Bitmap.IsValid map
map-IsValid = record { room = refl; small = omega arith; narrow = narrow }
  where
    narrow : (i : ℕ) → get_or map.bits i 0 < 2 ^ 32
    narrow zero = omega arith
    narrow (suc zero) = omega arith
    narrow (suc (suc i)) = omega arith

abbrev pools : Pools
pools = record {
  kernel_pool = record { used_map = map; base = 0xc0100000 };
  user_pool = record { used_map = map; base = 0xc0200000 };
}

pools-IsValid : OnePool.IsValid pools
pools-IsValid = record {
  kernel = record {
    map_valid = map-IsValid;
    aligned = refl;
    above = omega arith;
    fits = omega arith;
  };
  user = record {
    map_valid = map-IsValid;
    aligned = refl;
    above = omega arith;
    fits = omega arith;
  };
  apart = omega arith;
}

-- A directory at 0xc0100000 with one page table at 0xc0102000, which maps address 4096.
abbrev words : ℕ → ℕ
words a = if a == 0xc0100000 then 0x102007 else if a == 0xc0102004 then 0x300007 else 0

abbrev paging : Paging
paging = record {
  mem = words;
  pools = pools;
  init_page_dir = 0xc0101000;
  init_ram_pages = 1024;
  cr3 = 0x100000;
}

words_small : (a : ℕ) → words a < 2 ^ 30
words_small a = ground arith

entry_missing : (i : ℕ) → i < 768 → words (0xc0100000 + 4 * suc i) ≡ 0
entry_missing i h = ground arith

first-Used : Used pools 0xc0100000
first-Used k at inside = subst (λ j. in_use pools.kernel_pool j ≡ true) (zero_index k at) refl
  where
    zero_index : (k : ℕ) → 0xc0100000 ≡ 0xc0100000 + 2 ^ 12 * k → 0 ≡ k
    zero_index k at = omega (arith, at)

table-Used : Used pools 0xc0102000
table-Used k at inside = subst (λ j. in_use pools.kernel_pool j ≡ true) (two_index k at) refl
  where
    two_index : (k : ℕ) → 0xc0102000 ≡ 0xc0100000 + 2 ^ 12 * k → 2 ≡ k
    two_index k at = omega (arith, at)

paging-IsDirectory : IsDirectory 0xc0100000 paging
paging-IsDirectory = record {
  pools = pools-IsValid;
  kernel = omega arith;
  words = λ a. omega (arith, words_small a);
  aligned = refl;
  above = omega arith;
  used = first-Used;
  tables = tables;
  apart = apart;
  frames = λ va h odd. small va;
}
  where
    tables :
        (i : ℕ)
        → i < 768
        → words (0xc0100000 + 4 * i) ≢ 0
        → (words (0xc0100000 + 4 * i) % 2 ≡ 1)
          × (words (0xc0100000 + 4 * i) < 2 ^ 30)
          × (table (words (0xc0100000 + 4 * i)) ≢ 0xc0100000)
          × Used pools (table (words (0xc0100000 + 4 * i)))
    tables zero h there = (refl, omega arith, (λ e. absurd (omega (arith, e))), table-Used)
    tables (suc i) h there = absurd (there (entry_missing i (omega arith)))

    apart :
        (i j : ℕ)
        → i < 768
        → j < 768
        → words (0xc0100000 + 4 * i) ≢ 0
        → words (0xc0100000 + 4 * j) ≢ 0
        → table (words (0xc0100000 + 4 * i)) ≡ table (words (0xc0100000 + 4 * j))
        → i ≡ j
    apart zero zero hi hj ti tj e = refl
    apart zero (suc j) hi hj ti tj e = absurd (tj (entry_missing j (omega arith)))
    apart (suc i) j hi hj ti tj e = absurd (ti (entry_missing i (omega arith)))

    small : (va : ℕ) → pte paging 0xc0100000 va < 2 ^ 30
    small va =
        let e = words (0xc0100000 + 4 * (va / 2 ^ 22)) in
        either (e == 0) (words (table e + 4 * (va / 2 ^ 12 % 2 ^ 10)))
          (words_small (table e + 4 * (va / 2 ^ 12 % 2 ^ 10)))
      where
        either : (b : Bool) (w : ℕ) → w < 2 ^ 30 → (if b then 0 else w) < 2 ^ 30
        either true w h = omega arith
        either false w h = h

set_page_lem_example :
    (out : Bool × Paging) × (pagedir_set_page 0xc0100000 0x800000 0xc0305000 true paging ≡ some out)
    × IsMapped 0xc0100000 paging 0x800000 0xc0305000 out
set_page_lem_example =
    set_page_lem paging-IsDirectory 0x800000 0xc0305000 true (refl, omega arith)
      (refl, omega arith, omega arith) (omega arith) (λ e. absurd (omega (arith, e)))
      (get_page_lem paging-IsDirectory 0x800000 (omega arith))

clear_page_lem_example :
    (s' : Paging) × (pagedir_clear_page 0xc0100000 4096 paging ≡ some s')
    × IsCleared 0xc0100000 paging 4096 s'
clear_page_lem_example = clear_page_lem paging-IsDirectory 4096 (refl, omega arith) (omega arith)

set_flag_lem_example :
    (s' : Paging) × (set_flag (2 ^ 5) 0xc0100000 4096 true paging ≡ some s')
    × Marked 5 true 0xc0100000 4096 paging s'
set_flag_lem_example =
    set_flag_lem paging-IsDirectory 5 (omega arith, omega arith) true 4096 (omega arith)
      (omega arith) (λ e. absurd (omega (arith, e)))
