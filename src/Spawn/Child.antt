-- ===== src/Spawn/Child.antt =====
-- The code of spawn_stubs.c that runs in the child, up to execve or _exit.
pub mod Dup
pub mod Members
pub mod Duplicates
pub mod Redirect
pub mod Specification
pub mod Steps
pub mod Loops
pub mod Descriptors
pub mod Refinement
use ppx_universe.Base.{
  ℕ, zero, suc, ◌+◌, ◌-◌, List, [], ◌∷◌, Bool, true, false, Option, none, some, if◌then◌else◌, ◌==◌,
  leb,
}
use ppx_universe.BigstringUnix.Replies.{Errno}
use ppx_universe.Spawn.Failure.{ErrorArg, Function, Failure, nothing, cwd, prog}
use ppx_universe.Spawn.Table.{
  Entry, Table, Kernel, Reply, ok, error, ebadf, close, dup, dup2, after_exec,
}

pub data WorkingDir : Type 0 where
  inherit : WorkingDir
  path dir_fd : ℕ → WorkingDir

-- The fields of struct spawn_info but for the strings of the program.
pub record SpawnInfo : Type 0 where
  pub working_dir : WorkingDir
  pub std_fds : List ℕ
  pub pgid : Option ℕ

-- A directory: the one that an open file is, or what a path names from another.
pub data Directory : Type 0 where
  of_file : ℕ → Directory
  from : Directory → ℕ → Directory

-- The signals that are blocked: all of them, none, or a set that is given by a number.
pub data Mask : Type 0 where
  every_signal no_signal : Mask
  set : ℕ → Mask

pub data Handler : Type 0 where
  default_action ignore : Handler
  handler : ℕ → Handler

pub record Process : Type 0 where
  pub pid : ℕ
  pub group : ℕ
  pub directory : Directory
  pub handlers : ℕ → Handler
  pub mask : Mask
  pub fds : Table

-- The code goes on, or _exit after a report to the parent; or a recursion has not ended.
pub data Result (A : Type 0) : Type 0 where
  ran : A → Process → Result A
  exited : Failure → Process → Result A
  unfinished : Result A

abbrev pub C : Type 0 → Type 0
C A = Process → Result A

infixr 5 ◌>>=◌ ◌>>◌
abbrev pub ◌>>=◌ : {A B : Type 0} → C A → (A → C B) → C B
(m >>= f) p = elim (m p) [ ran a p' ↦ f a p' | exited e p' ↦ exited e p' | unfinished ↦ unfinished ]

abbrev pub ◌>>◌ : {A B : Type 0} → C A → C B → C B
m >> k = m >>= λ _. k

-- The report goes to failure_fd of the process that exits.
unfoldable pub subprocess_failure : {A : Type 0} → Function → ErrorArg → Errno → C A
subprocess_failure function arg e p =
    exited (record { errno = e; function = function; arg = arg }) (record p { mask = every_signal })

-- `if (call == -1) subprocess_failure(...)`
unfoldable pub or_fail : Function → ErrorArg → Option Errno → C (Unit {0})
unfolding subprocess_failure
or_fail function arg none p = ran tt p
or_fail function arg (some e) p = subprocess_failure function arg e p

-- What safe_dup ends in: a descriptor, or an error while lower ones are still held.
pub data Duped : Type 0 where
  duped : ℕ → Table → Duped
  not_duped : Errno → Table → Duped
  out_of_fuel : Duped

abbrev pub close_after : ℕ → Duped → Duped
close_after n (duped m t) = duped m (close n t)
close_after n (not_duped e t) = not_duped e t
close_after n out_of_fuel = out_of_fuel

abbrev pub dup_then : Table → (Table → Duped) → Reply (ℕ × Table) → Duped
dup_then t again (error e) = not_duped e t
dup_then t again (ok (new_fd, t')) =
    if leb 3 new_fd then duped new_fd t' else close_after new_fd (again t')

-- Each call takes one round of fuel.
unfoldable pub safe_dup : ℕ → Kernel → ℕ → Table → Duped
unfolding dup
safe_dup zero k fd t = out_of_fuel
safe_dup (suc fuel) k fd t = dup_then t (safe_dup fuel k fd) (dup k fd t)

-- Each of the three descriptors below 3 can be taken once.
abbrev pub dup_rounds : ℕ
dup_rounds = 4

unfoldable pub duped_to : Duped → C ℕ
unfolding subprocess_failure
duped_to (duped n t) p = ran n (record p { fds = t })
duped_to (not_duped e t) p = subprocess_failure Function.dup nothing e (record p { fds = t })
duped_to out_of_fuel p = unfinished

-- `for (fd = 0; fd < 3; fd++) tmp_fds[fd] = safe_dup(failure_fd, info->std_fds[fd])`
unfoldable pub dup_all : Kernel → List ℕ → C (List ℕ)
unfolding duped_to safe_dup
dup_all k [] = λ p. ran [] p
dup_all k (fd ∷ fds) =
    (λ p. duped_to (safe_dup dup_rounds k fd p.fds) p) >>= λ n. dup_all k fds >>= λ ns. ran (n ∷ ns)

-- `for (fd = 0; fd < 3; fd++) close(info->std_fds[fd])`
unfoldable pub close_all : List ℕ → Table → Table
unfolding close
close_all [] t = t
close_all (fd ∷ fds) t = close_all fds (close fd t)

abbrev pub change_fds : (Table → Table) → C (Unit {0})
change_fds f p = ran tt (record p { fds = f p.fds })

unfoldable pub dup2_to : Reply Table → C (Unit {0})
unfolding subprocess_failure
dup2_to (ok t) p = ran tt (record p { fds = t })
dup2_to (error e) p = subprocess_failure Function.dup2 nothing e p

-- The last loop: the temporary descriptors become those from fd on.
unfoldable pub redirect : Kernel → ℕ → List ℕ → C (Unit {0})
unfolding dup2_to dup2 close
redirect k fd [] p = ran tt p
redirect k fd (tmp ∷ tmps) p =
    ((λ p'. dup2_to (dup2 k tmp fd p'.fds) p')
        >> change_fds (close tmp)
        >> redirect k (suc fd) tmps)
      p

-- setpgid(0, pgid), in which 0 stands for the process itself.
unfoldable pub set_group : Kernel → Option ℕ → C (Unit {0})
unfolding or_fail
set_group k none = λ p. ran tt p
set_group k (some pgid) = or_fail Function.setpgid nothing k.setpgid_error >> λ p.
    ran tt (record p { group = if pgid == 0 then p.pid else pgid })

-- `for (i = ...; count > 0; i++, count--) sigaction(i, &sa, NULL)`
unfoldable pub default_actions : ℕ → ℕ → (ℕ → Handler) → ℕ → Handler
default_actions zero i handlers = handlers
default_actions (suc count) i handlers =
    default_actions count (suc i) (λ s. if s == i then default_action else handlers s)

unfoldable pub fchdir_to : Kernel → Option Entry → C (Unit {0})
unfolding or_fail subprocess_failure
fchdir_to k none = subprocess_failure Function.fchdir nothing ebadf
fchdir_to k (some e) = or_fail Function.fchdir nothing k.fchdir_error >> λ p.
    ran tt (record p { directory = of_file e.file })

-- `switch (info->cwd_kind)`
unfoldable pub change_directory : Kernel → WorkingDir → C (Unit {0})
unfolding or_fail fchdir_to close
change_directory k inherit = λ p. ran tt p
change_directory k (path name) = or_fail Function.chdir cwd k.chdir_error >> λ p.
    ran tt (record p { directory = from p.directory name })
change_directory k (dir_fd fd) = (λ p. fchdir_to k (p.fds fd) p) >> change_fds (close fd)

unfoldable pub kept_handler : Handler → Handler
kept_handler (handler f) = default_action
kept_handler default_action = default_action
kept_handler ignore = ignore

-- What the program starts in.
unfoldable pub execve : Kernel → C (Unit {0})
unfolding or_fail after_exec kept_handler
execve k = or_fail Function.execve prog k.execve_error >> λ p.
    ran tt (record p { handlers = λ i. kept_handler (p.handlers i); fds = after_exec p.fds })

-- It has run where the other program has taken over the process.
unfoldable pub subprocess : Kernel → SpawnInfo → C (Unit {0})
unfolding set_group default_actions change_directory dup_all close_all redirect execve
subprocess k info =
    set_group k info.pgid
    >> (λ p. ran tt (record p { handlers = default_actions (k.nsig - 1) 1 p.handlers }))
    >> change_directory k info.working_dir
    >> dup_all k info.std_fds
    >>= (λ tmp_fds.
        change_fds (close_all info.std_fds)
        >> redirect k 0 tmp_fds
        >> (λ p. ran tt (record p { mask = no_signal }))
        >> execve k)
