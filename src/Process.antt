-- ===== src/Process.antt =====
-- The stack that a new process starts with: `construct_ESP` of pintos/src/userprog/process.c. Memory is a
-- function from addresses to bytes; an argument is the list of its characters before the null byte. There
-- are at most 128 arguments, the room of the code's `addr`.
pub mod Push
pub mod Arguments
use sogang_pint_os.Common.{
  ℕ, zero, suc, ◌+◌, ◌-◌, ◌*◌, ◌%◌, Bool, ◌&&◌, List, [], ◌∷◌, ◌++◌, ltb, leb, ◌==◌, if◌then◌else◌,
  get_or, length,
}
use sogang_pint_os.Cstring.{Memory}
use sogang_pint_os.FileSys.Inode.{word_bytes}

-- `memcpy` of bytes to an address.
abbrev pub put : Memory → ℕ → List ℕ → Memory
put m a bytes k = if leb a k && ltb k (a + length bytes) then get_or bytes (k - a) 0 else m k

-- `totallen_align`: the bytes of the arguments with their null bytes.
abbrev pub total_len : List (List ℕ) → ℕ
total_len [] = 0
total_len (s ∷ ss) = length s + 1 + total_len ss

-- The first loop, from the last argument to the first: their addresses, `*esp`, and memory.
pub push_strings : List (List ℕ) → ℕ → Memory → List ℕ × ℕ × Memory
push_strings [] esp m = ([], esp, m)
push_strings (s ∷ ss) esp m =
    let (addr, esp', m') = push_strings ss esp m in
    let a = esp' - (length s + 1) in (a ∷ addr, a, put m' a (s ++ 0 ∷ []))

-- The padding: `n` null bytes.
pub push_zeros : ℕ → ℕ → Memory → ℕ × Memory
push_zeros zero esp m = (esp, m)
push_zeros (suc n) esp m = push_zeros n (esp - 1) (put m (esp - 1) (0 ∷ []))

pub push_word : ℕ → ℕ → Memory → ℕ × Memory
push_word w esp m = (esp - 4, put m (esp - 4) (word_bytes w))

-- The loop over `addr`, from the last to the first.
pub push_addrs : List ℕ → ℕ → Memory → ℕ × Memory
push_addrs [] esp m = (esp, m)
push_addrs (a ∷ addr) esp m = let (esp', m') = push_addrs addr esp m in push_word a esp' m'

pub padding : ℕ → ℕ
padding totallen_align = if totallen_align % 4 == 0 then 0 else 4 - totallen_align % 4

-- `construct_ESP`: `*esp` and memory.
pub construct_esp : List (List ℕ) → ℕ → Memory → ℕ × Memory
construct_esp argu_list esp m =
    let (addr, esp₁, m₁) = push_strings argu_list esp m in
    let (esp₂, m₂) = push_zeros (padding (total_len argu_list)) esp₁ m₁ in
    let (esp₃, m₃) = push_word 0 esp₂ m₂ in
    let (esp₄, m₄) = push_addrs addr esp₃ m₃ in
    let (esp₅, m₅) = push_word (esp₄ - 4 + 4) esp₄ m₄ in
    let (esp₆, m₆) = push_word (length argu_list) esp₅ m₅ in push_word 0 esp₆ m₆
