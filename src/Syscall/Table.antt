-- ===== src/Syscall/Table.antt =====
-- The table of open files of pintos/src/userprog/syscall.c.
use mathlib.Core.Path.{subst}
use sogang_pint_os.Common.{
  ℕ, ◌+◌, ◌≤◌, ◌<◌, ◌≡◌, ◌≢◌, refl, sym, ap, ◌∙◌, inl, inr, Bool, true, false, ◌&&◌, Option, none,
  some, List, ltb, ◌==◌, if◌then◌else◌, arith, Bool-cases, ==_refl, ne→==_false, lt→ltb, eq_of_some,
  none-ne-some,
}
use sogang_pint_os.Common.Panic.{◌>>=◌}
use sogang_pint_os.Common.Int.{pos, negsuc}
use sogang_pint_os.FileSys.Inode.{FileSys, Buffer}
use sogang_pint_os.FileSys.File.{File}
use sogang_pint_os.FileSys.Names.{Answers, filesys_open}
use sogang_pint_os.Syscall.{
  Descriptors, put_file, close_file, get_file, syscall_open, syscall_close, syscall_read,
  syscall_write,
}

-- The two tables give the same files for all other numbers.
abbrev pub SameBut : ℕ → Descriptors → Descriptors → Type 0
SameBut fd t t' = (k : ℕ) → fd ≢ k → get_file (pos k) t' ≡ get_file (pos k) t

-- `syscall_open` of a file that `filesys_open` opens, with room in the table, gives a number that no file
-- had, under which the file is found; all other numbers stand for the same files as before.
syscall_open_lem :
    (m : Answers) (name : List ℕ) (t : Descriptors) (s s' : FileSys) (f : File)
    → filesys_open m name s ≡ some (some f, s')
    → 2 ≤ t.fd_num
    → t.fd_num < 128
    → (t' : Descriptors) × (syscall_open m name t s ≡ some (pos t.fd_num, t', s'))
      × ((get_file (pos t.fd_num) t ≡ none)
          × (get_file (pos t.fd_num) t' ≡ some f)
          × SameBut t.fd_num t t')
unfolding syscall_open get_file
syscall_open_lem m name t s s' f run low room = (
  record { fd_num = t.fd_num + 1; fd_tab = λ k. if t.fd_num == k then some f else t.fd_tab k },
  rw (syscall_open, run, lt→ltb _ _ room),
  (rw not_yet, rw (now, ==_refl t.fd_num), others),
)
  where
    not_yet : (ltb 1 t.fd_num && ltb t.fd_num t.fd_num) ≡ false
    not_yet = ground arith

    now : (ltb 1 t.fd_num && ltb t.fd_num (t.fd_num + 1)) ≡ true
    now = ground arith

    others :
        (k : ℕ)
        → t.fd_num ≢ k
        → (if ltb 1 k && ltb k (t.fd_num + 1)
            then (if t.fd_num == k then some f else t.fd_tab k)
            else none)
          ≡ (if ltb 1 k && ltb k t.fd_num then t.fd_tab k else none)
    others k ne =
        let same : (ltb 1 k && ltb k (t.fd_num + 1)) ≡ (ltb 1 k && ltb k t.fd_num) = ground arith in
        rw (same, ne→==_false _ _ ne)

closed_table :
    (o : Option FileSys) (t₂ t' : Descriptors) (s' : FileSys)
    → (o >>= λ s₂. (let r : Option (Descriptors × FileSys) = some (t₂, s₂) in r)) ≡ some (t', s')
    → t' ≡ t₂
closed_table none t₂ t' s' run = absurd (none-ne-some run)
closed_table (some s₂) t₂ t' s' run = sym (ap (λ (p : Descriptors × FileSys). p.0) (eq_of_some run))

closed_lem :
    (fd : ℕ) (t t' : Descriptors) (s s' : FileSys)
    → syscall_close (pos fd) t s ≡ some (t', s')
    → (get_file (pos fd) t' ≡ none) × SameBut fd t t'
unfolding syscall_close get_file
closed_lem fd t t' s s' run = elim (Bool-cases (ltb 1 fd && ltb fd t.fd_num)) [
  | inr out ↦
      let unchanged : syscall_close (pos fd) t s ≡ some (t, s) = rw (syscall_close, out) in
      let same : t ≡ t' =
        ap (λ (p : Descriptors × FileSys). p.0) (eq_of_some (sym unchanged ∙ run)) in
      subst (λ t₁. (get_file (pos fd) t₁ ≡ none) × SameBut fd t t₁) same (rw out, λ k ne. refl)
  | inl within ↦
      let same : put_file fd none t ≡ t' = sym (
        closed_table (close_file (t.fd_tab fd) s) (put_file fd none t) t' s'
          (sym (rw (syscall_close, within)) ∙ run)) in
      subst (λ t₁. (get_file (pos fd) t₁ ≡ none) × SameBut fd t t₁) same
        (rw (within, ==_refl fd), others)
]
  where
    others : SameBut fd t (put_file fd none t)
    others k ne = rw (ne→==_false fd k ne)

refused :
    (no_memory : Bool) (keys buffer : Buffer) (size fd : ℕ) (t : Descriptors) (s : FileSys)
    → 1 < fd
    → get_file (pos fd) t ≡ none
    → (syscall_read no_memory keys (pos fd) buffer size t s ≡ some (negsuc 0, buffer, t, s))
      × (syscall_write no_memory (pos fd) buffer size t s ≡ some (pos 0, t, s))
unfolding syscall_read syscall_write
refused no_memory keys buffer size fd t s high absent =
    let not_in : (fd == 0) ≡ false = ground arith in
    let not_out : (fd == 1) ≡ false = ground arith in
    (rw (syscall_read, not_in, not_out, absent), rw (syscall_write, not_in, not_out, absent))

-- After `syscall_close` of a number other than those of standard input and output, the number stands for
-- no file: `syscall_read` gives -1 and `syscall_write` 0, with nothing changed. All other numbers stand for the same files as before.
pub syscall_close_lem :
    (no_memory : Bool) (keys buffer : Buffer) (size fd : ℕ) (t t' : Descriptors) (s s' : FileSys)
    → 1 < fd
    → syscall_close (pos fd) t s ≡ some (t', s')
    → (get_file (pos fd) t' ≡ none)
      × SameBut fd t t'
      × (syscall_read no_memory keys (pos fd) buffer size t' s' ≡ some (negsuc 0, buffer, t', s'))
      × (syscall_write no_memory (pos fd) buffer size t' s' ≡ some (pos 0, t', s'))
syscall_close_lem no_memory keys buffer size fd t t' s s' high run =
    let (absent, others) = closed_lem fd t t' s s' run in
    let (read, written) = refused no_memory keys buffer size fd t' s' high absent in
    (absent, others, read, written)
