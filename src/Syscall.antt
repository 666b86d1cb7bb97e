-- ===== src/Syscall.antt =====
-- System calls on files and numbers: pintos/src/userprog/syscall.c, from the handlers of the single calls
-- on. A process's table of open files is fd_num and fd_tab of `struct thread`; a file object is reached
-- from one entry only. The lock of the file system is left out. `none` is a failed ASSERT, a PANIC or a
-- store outside of fd_tab.
pub mod Fibonacci
pub mod Table
use sogang_pint_os.Common.{
  ℕ, zero, suc, ◌+◌, ◌-◌, ◌%◌, ◌^◌, Bool, true, false, ◌&&◌, Option, none, some, List, ltb, ◌==◌,
  if◌then◌else◌,
}
use sogang_pint_os.Common.Panic.{◌>>=◌, ◌>>◌, assert}
use sogang_pint_os.Common.Int.{ℤ, pos, negsuc, ◌+ℤ◌, ltb_ℤ}
use sogang_pint_os.FixedPoint.{signed32, wrap32}
use sogang_pint_os.FileSys.Inode.{FileSys, Buffer}
use sogang_pint_os.FileSys.File.{
  File, file_close, file_read, file_write, file_length, file_seek, file_tell,
}
use sogang_pint_os.FileSys.Names.{Answers, filesys_create, filesys_open, filesys_remove}

-- The members `fd_num` and `fd_tab` of `struct thread`.
pub record Descriptors : Type 0 where
  pub fd_num : ℕ
  pub fd_tab : ℕ → Option File

-- The length of `fd_tab`.
abbrev pub fd_max : ℕ
fd_max = 128

abbrev pub put_file : ℕ → Option File → Descriptors → Descriptors
put_file fd file t = record t { fd_tab = λ k. if fd == k then file else t.fd_tab k }

pub get_file : ℤ → Descriptors → Option File
get_file (negsuc n) t = none
get_file (pos n) t = if ltb 1 n && ltb n t.fd_num then t.fd_tab n else none

-- `syscall_open` of a name that is not null.
pub syscall_open : Answers → List ℕ → Descriptors → FileSys → Option (ℤ × Descriptors × FileSys)
syscall_open m file t s = filesys_open m file s >>= λ (fp, s'). elim fp [
  | none ↦ some (negsuc 0, t, s')
  | some f ↦
      assert (ltb t.fd_num fd_max)
      >> some (pos t.fd_num, put_file t.fd_num (some f) (record t { fd_num = t.fd_num + 1 }), s')
]

-- `file_close` of a file that may be null.
pub close_file : Option File → FileSys → Option FileSys
unfolding file_close
close_file none s = some s
close_file (some f) s = file_close f s

unfoldable pub syscall_close : ℤ → Descriptors → FileSys → Option (Descriptors × FileSys)
unfolding close_file
syscall_close (negsuc n) t s = some (t, s)
syscall_close (pos n) t s =
    if ltb 1 n && ltb n t.fd_num
    then (close_file (t.fd_tab n) s >>= λ s'. some (put_file n none t, s'))
    else some (t, s)

unfoldable syscall_filesize : ℤ → Descriptors → FileSys → Option ℤ
unfolding get_file
syscall_filesize fd t s = elim (get_file fd t) [
  | none ↦ some (negsuc 0)
  | some f ↦ file_length f s >>= λ n. some (pos n)
]

-- The number of an `int` that is not negative.
abbrev pub index : ℤ → ℕ
index (pos n) = n
index (negsuc n) = 0

unfoldable syscall_seek : ℤ → ℕ → Descriptors → Descriptors
unfolding get_file
syscall_seek fd new_pos t = elim (get_file fd t) [
  | none ↦ t
  | some f ↦ put_file (index fd) (some (file_seek f new_pos)) t
]

unfoldable syscall_tell : ℤ → Descriptors → ℕ
unfolding get_file
syscall_tell fd t = elim (get_file fd t) [ none ↦ 2 ^ 32 - 1 | some f ↦ file_tell f ]

-- `fd_num == STDIN` and `fd_num == STDOUT`, which are 0 and 1.
abbrev pub is_number : ℤ → ℕ → Bool
is_number (pos n) k = n == k
is_number (negsuc n) k = false

-- `syscall_read` below PHYS_BASE; `keys` are the bytes that `input_getc` gives.
pub syscall_read :
    Bool
    → Buffer
    → ℤ
    → Buffer
    → ℕ
    → Descriptors
    → FileSys
    → Option (ℤ × Buffer × Descriptors × FileSys)
syscall_read no_memory keys fd buffer size t s =
    if is_number fd 0
    then some (wrap32 (pos size), (λ k. if ltb k size then keys k else buffer k), t, s)
    else if is_number fd 1
    then some (negsuc 0, buffer, t, s)
    else elim (get_file fd t) [
      | none ↦ some (negsuc 0, buffer, t, s)
      | some f ↦ file_read no_memory f buffer size s >>= λ (ret, f', buffer', s').
          some (pos ret, buffer', put_file (index fd) (some f') t, s')
    ]

-- `syscall_write`; what `putbuf` prints is left out.
pub syscall_write :
    Bool → ℤ → Buffer → ℕ → Descriptors → FileSys → Option (ℤ × Descriptors × FileSys)
syscall_write no_memory fd buffer size t s =
    if is_number fd 1
    then some (wrap32 (pos size), t, s)
    else if is_number fd 0
    then some (negsuc 0, t, s)
    else elim (get_file fd t) [
      | none ↦ some (pos 0, t, s)
      | some f ↦ file_write no_memory f buffer size s >>= λ (ret, f', s').
          some (pos ret, put_file (index fd) (some f') t, s')
    ]

-- `syscall_create` and `syscall_remove` of a name that is not null.
unfoldable syscall_create : Answers → List ℕ → ℕ → FileSys → Option (Bool × FileSys)
syscall_create m file init_size s = filesys_create m file init_size s

unfoldable syscall_remove : Answers → List ℕ → FileSys → Option (Bool × FileSys)
syscall_remove m file s = filesys_remove m file s

-- The loop of `syscall_fibonacci`, on the words of `_n_0` and `_n_1`.
pub fibonacci_loop : ℕ → ℕ → ℕ → ℕ
fibonacci_loop zero n_0 n_1 = n_1
fibonacci_loop (suc n) n_0 n_1 = fibonacci_loop n n_1 ((n_1 + n_0) % 2 ^ 32)

pub syscall_fibonacci : ℤ → ℤ
syscall_fibonacci (negsuc n) = negsuc 0
syscall_fibonacci (pos zero) = pos 0
syscall_fibonacci (pos (suc zero)) = pos 1
syscall_fibonacci (pos (suc (suc n))) = signed32 (fibonacci_loop (suc n) 0 1)

unfoldable syscall_sum_of_four_integers : ℤ → ℤ → ℤ → ℤ → ℤ
unfolding wrap32 ◌+ℤ◌
syscall_sum_of_four_integers para_1 para_2 para_3 para_4 =
    wrap32 (wrap32 (wrap32 (para_1 +ℤ para_2) +ℤ para_3) +ℤ para_4)
