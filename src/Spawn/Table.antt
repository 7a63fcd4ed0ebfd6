-- ===== src/Spawn/Table.antt =====
-- The file descriptors of a process, and the system calls that change them. Which descriptor the
-- kernel gives, and what else may fail, is a parameter: a Kernel, whose answers follow POSIX.
use ppx_universe.Base.{
  ℕ, ◌≡◌, ◌≢◌, refl, arith, Bool, true, false, Option, none, some, if◌then◌else◌, ◌==◌, List, [],
  ◌∷◌,
}
use ppx_universe.BigstringUnix.Replies.{Errno, other}

-- An open file, and the flag FD_CLOEXEC.
pub record Entry : Type 0 where
  pub file : ℕ
  pub cloexec : Bool

abbrev pub Table : Type 0
Table = ℕ → Option Entry

abbrev pub update : Table → ℕ → Option Entry → Table
update t fd e = λ n. if n == fd then e else t n

abbrev pub ebadf : Errno
ebadf = other 9

-- The kernel's answers, each for its call in a state of the descriptors: the descriptor that dup
-- takes, the two of pipe2 and the files behind them, and the errors of other calls.
pub record Kernel : Type 0 where
  pub dup_fd : Table → Option ℕ
  pub dup_error : Errno
  pub dup2_error : ℕ → ℕ → Option Errno
  pub setpgid_error : Option Errno
  pub chdir_error : Option Errno
  pub fchdir_error : Option Errno
  pub execve_error : Option Errno
  pub nsig : ℕ

-- A descriptor that dup gives was not in use.
pub record IsPosix (k : Kernel) : Type 0 where
  pub unused : (t : Table) (n : ℕ) → k.dup_fd t ≡ some n → t n ≡ none

unfoldable pub close : ℕ → Table → Table
close fd t = update t fd none

-- What a copy of a descriptor refers to: it has no FD_CLOEXEC.
abbrev pub inherited : Entry → Entry
inherited e = record e { cloexec = false }

abbrev pub copied : Option Entry → Option Entry
copied none = none
copied (some e) = some (inherited e)

-- A result, or -1 with errno.
pub data Reply (A : Type 0) : Type 0 where
  ok : A → Reply A
  error : Errno → Reply A

unfoldable pub dup_from : Kernel → Table → Option Entry → Option ℕ → Reply (ℕ × Table)
dup_from k t none answer = error ebadf
dup_from k t (some e) none = error k.dup_error
dup_from k t (some e) (some n) = ok (n, update t n (some (inherited e)))

unfoldable pub dup : Kernel → ℕ → Table → Reply (ℕ × Table)
unfolding dup_from
dup k fd t = dup_from k t (t fd) (k.dup_fd t)

unfoldable pub dup2_from : Table → ℕ → ℕ → Option Entry → Option Errno → Reply Table
dup2_from t fd new none answer = error ebadf
dup2_from t fd new (some e) (some err) = error err
dup2_from t fd new (some e) none = ok (if fd == new then t else update t new (some (inherited e)))

unfoldable pub dup2 : Kernel → ℕ → ℕ → Table → Reply Table
unfolding dup2_from
dup2 k fd new t = dup2_from t fd new (t fd) (k.dup2_error fd new)

-- What execve leaves.
unfoldable pub kept_entry : Option Entry → Option Entry
kept_entry none = none
kept_entry (some e) = if e.cloexec then none else some e

unfoldable pub after_exec : Table → Table
unfolding kept_entry
after_exec t = λ n. kept_entry (t n)

pub update_self : (t : Table) (n : ℕ) (e : Option Entry) → update t n e n ≡ e
update_self t n e = let s : (n == n) ≡ true = ground arith in rw s refl

pub update_ne : (t : Table) (n m : ℕ) (e : Option Entry) → m ≢ n → update t n e m ≡ t m
update_ne t n m e h = let s : (m == n) ≡ false = ground arith in rw s refl

abbrev pub mem : ℕ → List ℕ → Bool
mem n [] = false
mem n (x ∷ xs) = if n == x then true else mem n xs
