-- ===== src/Tests/Pages.antt =====
-- Runs of the theorems on the frame clock and the stack of a new process.
use sogang_pint_os.Common.{ℕ, ◌-◌, ◌*◌, ◌^◌, ◌≡◌, true, some, List, [], ◌∷◌, arith}
use sogang_pint_os.Cstring.{Memory}
use sogang_pint_os.Frame.{Frame, elem, get_victim}
use sogang_pint_os.Frame.Victim.{Victim, get_victim_lem}
use sogang_pint_os.Process.{construct_esp}
use sogang_pint_os.Process.Push.{From}
use sogang_pint_os.Process.Arguments.{IsStart, construct_esp_lem}

-- Three pages, all accessed, and the clock at the second.
abbrev frames : Frame
frames = record {
  list_lru = 10 ∷ 20 ∷ 30 ∷ [];
  lru_clock = elem 20;
  pages = λ p. record { kaddr = p * 4096; pagedir = 1; vaddr = p };
  accessed = λ pd vaddr. true;
}

get_victim_lem_example : (out : ℕ × Frame) × (get_victim frames ≡ some out) × Victim frames out
get_victim_lem_example = get_victim_lem frames (omega arith)

-- "ab" and "c", from PHYS_BASE - 12 down.
abbrev arguments : List (List ℕ)
arguments = (97 ∷ 98 ∷ []) ∷ (99 ∷ []) ∷ []

abbrev zeroed : Memory
zeroed k = 0

construct_esp_lem_example :
    IsStart arguments
      (construct_esp arguments (2 ^ 32 - 2 ^ 30 - 12) zeroed).1
      (construct_esp arguments (2 ^ 32 - 2 ^ 30 - 12) zeroed).0
    × From (2 ^ 32 - 2 ^ 30 - 12) zeroed (construct_esp arguments (2 ^ 32 - 2 ^ 30 - 12) zeroed).1
construct_esp_lem_example =
    construct_esp_lem arguments (2 ^ 32 - 2 ^ 30 - 12) zeroed (omega arith) (omega arith)
      (omega arith) (omega arith)
