-- ===== src/Spawn/Child/Specification.antt =====
-- What a caller of spawn_unix asks of the child, as one function, and what a failed child reports.
use ppx_universe.Base.{
  ℕ, ◌<◌, ◌≡◌, ◌⊎◌, List, Bool, true, false, Option, none, some, if◌then◌else◌, ◌==◌, leb, ltb,
  get_or, ◌&&◌, ◌||◌,
}
use ppx_universe.BigstringUnix.Replies.{Errno}
use ppx_universe.Spawn.Failure.{ErrorArg, Function, Failure, nothing, cwd, prog}
use ppx_universe.Spawn.Table.{Entry, Table, Kernel, error, ebadf, dup, copied, mem, kept_entry}
use ppx_universe.Spawn.Child.{
  WorkingDir, inherit, path, dir_fd, SpawnInfo, Directory, of_file, from, no_signal, Handler,
  default_action, Process, Result, ran, exited, unfinished, C, ◌>>=◌, kept_handler,
}

abbrev file_or : Directory → Option Entry → Directory
file_or d none = d
file_or d (some e) = of_file e.file

abbrev pub entered : WorkingDir → Directory → Table → Directory
entered inherit d t = d
entered (path name) d t = from d name
entered (dir_fd fd) d t = file_or d (t fd)

-- The descriptor that a directory was given by, which the child closes.
abbrev pub is_cwd : WorkingDir → ℕ → Bool
is_cwd inherit n = false
is_cwd (path name) n = false
is_cwd (dir_fd fd) n = n == fd

-- The standard descriptors are the three of the caller; of the others those are left that are
-- neither one of these three, nor the directory, nor FD_CLOEXEC.
abbrev pub spawned_fds : SpawnInfo → Table → Table
spawned_fds info t n =
    if ltb n 3
    then copied (t (get_or info.std_fds n 0))
    else if mem n info.std_fds || is_cwd info.working_dir n
    then none
    else kept_entry (t n)

abbrev pub joined : Option ℕ → ℕ → ℕ → ℕ
joined none pid group = group
joined (some pgid) pid group = if pgid == 0 then pid else pgid

abbrev pub spawned_handler : ℕ → (ℕ → Handler) → ℕ → Handler
spawned_handler nsig handlers s =
    if leb 1 s && ltb s nsig then default_action else kept_handler (handlers s)

abbrev pub spawned : Kernel → SpawnInfo → Process → Process
spawned k info p = record {
  pid = p.pid;
  group = joined info.pgid p.pid p.group;
  directory = entered info.working_dir p.directory p.fds;
  handlers = spawned_handler k.nsig p.handlers;
  mask = no_signal;
  fds = spawned_fds info p.fds;
}

-- What a call reports: nothing, or its error with its name and argument.
abbrev pub failed_with : Function → ErrorArg → Option Errno → Option Failure
failed_with function arg none = none
failed_with function arg (some e) = some (record { errno = e; function = function; arg = arg })

abbrev pub group_failure : Kernel → Option ℕ → Option Failure
group_failure k none = none
group_failure k (some pgid) = failed_with Function.setpgid nothing k.setpgid_error

abbrev pub entry_failure : Kernel → Option Entry → Option Failure
entry_failure k none = failed_with Function.fchdir nothing (some ebadf)
entry_failure k (some e) = failed_with Function.fchdir nothing k.fchdir_error

abbrev pub directory_failure : Kernel → WorkingDir → Table → Option Failure
directory_failure k inherit t = none
directory_failure k (path name) t = failed_with Function.chdir cwd k.chdir_error
directory_failure k (dir_fd fd) t = entry_failure k (t fd)

abbrev pub first_failure : Option Failure → Option Failure → Option Failure
first_failure none x = x
first_failure (some f) x = some f

-- What fails before the descriptors change: the group, then the directory.
abbrev pub setup_failure : Kernel → SpawnInfo → Table → Option Failure
setup_failure k info t =
    first_failure (group_failure k info.pgid) (directory_failure k info.working_dir t)

abbrev pub exec_failure : Kernel → Option Failure
exec_failure k = failed_with Function.execve prog k.execve_error

-- dup of a standard descriptor gives the error in the table that is left.
abbrev pub IsDupFailure : Kernel → List ℕ → Failure → Table → Type 0
IsDupFailure k fds f t =
    (fd : ℕ) × (mem fd fds ≡ true)
    × (dup k fd t ≡ error f.errno)
    × (f.function ≡ Function.dup)
    × (f.arg ≡ nothing)

-- dup2 of an open descriptor to a standard one gives the error.
abbrev pub IsDup2Failure : Kernel → Failure → Table → Type 0
IsDup2Failure k f t =
    (tmp : ℕ) × (new : ℕ) × (e : Entry) × (t tmp ≡ some e)
    × (new < 3)
    × (k.dup2_error tmp new ≡ some f.errno)
    × (f.function ≡ Function.dup2)
    × (f.arg ≡ nothing)

-- The failure is that of the call that the kernel failed, from the table t to the table t' that the
-- child leaves: nothing that comes before the descriptors failed where a later call did.
abbrev pub IsFailureOf : Kernel → SpawnInfo → Table → Failure → Table → Type 0
IsFailureOf k info t f t' =
    (setup_failure k info t ≡ some f)
    ⊎ ((setup_failure k info t ≡ none)
        × (IsDupFailure k info.std_fds f t' ⊎ (IsDup2Failure k f t' ⊎ (exec_failure k ≡ some f))))

-- The process that was asked for, where the kernel failed no call before the descriptors change and
-- none of execve.
abbrev pub IsSpawned : Kernel → SpawnInfo → Process → Process → Type 0
IsSpawned k info p p' =
    (p' ≡ spawned k info p) × (setup_failure k info p.fds ≡ none) × (exec_failure k ≡ none)

-- The pipe to the parent is still open, and the failure is that of the call that failed.
abbrev pub Reports : Kernel → SpawnInfo → Table → ℕ → Entry → Failure → Process → Type 0
Reports k info t failure_fd e f p = (p.fds failure_fd ≡ some e) × IsFailureOf k info t f p.fds

-- A call that fails in the table t.
abbrev pub FailsAs : Table → Option Failure → Failure → Process → Type 0
FailsAs t o f p = (p.fds ≡ t) × (o ≡ some f)

-- What holds where the code goes on, and where it exits; it does one of the two.
abbrev pub Ends :
    {A : Type 0} → (A → Process → Type 0) → (Failure → Process → Type 0) → Result A → Type 0
Ends good bad (ran a p) = good a p
Ends good bad (exited f p) = bad f p
Ends good bad unfinished = ⊥

pub bind-Ends :
    {A B : Type 0} (good : A → Process → Type 0) (good' : B → Process → Type 0)
    (bad : Failure → Process → Type 0) (m : C A) (f : A → C B) (p : Process)
    → Ends good bad (m p)
    → ((a : A) (p' : Process) → good a p' → Ends good' bad (f a p'))
    → Ends good' bad ((m >>= f) p)
bind-Ends good good' bad m f p h k = go (m p) h
  where
    go :
        (r : Result _)
        → Ends good bad r
        → Ends good' bad
            (elim r [ ran a p' ↦ f a p' | exited e p' ↦ exited e p' | unfinished ↦ unfinished ])
    go (ran a p') h' = k a p' h'
    go (exited e p') h' = h'
    go unfinished h' = h'

pub weaken-Ends :
    {A : Type 0} {good : A → Process → Type 0} {bad : Failure → Process → Type 0}
    (good' : A → Process → Type 0) (bad' : Failure → Process → Type 0) (r : Result A)
    → Ends good bad r
    → ((a : A) (p : Process) → good a p → good' a p)
    → ((f : Failure) (p : Process) → bad f p → bad' f p)
    → Ends good' bad' r
weaken-Ends good' bad' (ran a p) h g b = g a p h
weaken-Ends good' bad' (exited f p) h g b = b f p h
weaken-Ends good' bad' unfinished h g b = h

-- A step that leaves the process q where it goes on, and then the rest.
pub then-Ends :
    {A B : Type 0} {bad : Failure → Process → Type 0} (good : B → Process → Type 0)
    (bad' : Failure → Process → Type 0) (P : Type 0) (m : C A) (f : A → C B) (q p : Process)
    → Ends (λ _ p'. (p' ≡ q) × P) bad (m p)
    → ((e : Failure) (p' : Process) → bad e p' → bad' e p')
    → ((a : A) → P → Ends good bad' (f a q))
    → Ends good bad' ((m >>= f) p)
then-Ends good bad' P m f q p h b k =
    bind-Ends (λ _ p'. (p' ≡ q) × P) good bad' m f p
      (weaken-Ends (λ _ p'. (p' ≡ q) × P) bad' (m p) h (λ a p' g. g) b)
      (λ a p' (same, known). rw same (k a known))
