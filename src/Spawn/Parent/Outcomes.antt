-- ===== src/Spawn/Parent/Outcomes.antt =====
-- What spawn_unix returns or raises, by what became of the child.
use ppx_universe.Base.{
  ℕ, zero, suc, ◌≡◌, ◌≢◌, refl, ap, ◌∙◌, arith, List, [], ◌∷◌, Bool, true, false, Option, none,
  some, if◌then◌else◌, ◌==◌, ltb, get_or, ◌||◌,
}
use ppx_universe.Spawn.Table.{Entry, Table, IsPosix, ok, copied, close, mem, kept_entry}
use ppx_universe.Spawn.Child.{
  WorkingDir, inherit, path, dir_fd, SpawnInfo, every_signal, Process, Result, ran, exited,
  unfinished, subprocess,
}
use ppx_universe.Spawn.Child.Duplicates.{IsOpen}
use ppx_universe.Spawn.Child.Specification.{
  Ends, Reports, IsSpawned, IsFailureOf, setup_failure, exec_failure, is_cwd, entered, spawned,
  spawned_fds,
}
use ppx_universe.Spawn.Child.Refinement.{subprocess_lem}
use ppx_universe.Spawn.Parent.{
  Copy, Parent, System, Outcome, spawned_pid, unix_error, copy_all, copies, refers, end_of_file,
  report, read_pipe, after_read, forked, after_fork, after_pipe, spawn_unix,
}
use ppx_universe.Spawn.Parent.Restored.{IsPipe, copy_all_lem, with_child, after_read-IsRestored}
use ppx_universe.Spawn.Parent.Piped.{
  IsCallable, write_end, child_fds, pipe_end, ready, spawned_fds-child, open-same,
}

abbrev NotFile : ℕ → Option Entry → Type 0
NotFile file none = Unit {0}
NotFile file (some e) = e.file ≢ file

copied-NotFile : (file : ℕ) (x : Option Entry) → NotFile file x → NotFile file (copied x)
copied-NotFile file none h = h
copied-NotFile file (some e) h = h

kept-NotFile : (file : ℕ) (x : Option Entry) → NotFile file x → NotFile file (kept_entry x)
unfolding kept_entry
kept-NotFile file none h = h
kept-NotFile file (some e) h = go (e.cloexec)
  where
    go : (b : Bool) → NotFile file (if b then none else some e)
    go true = tt
    go false = h

test-NotFile :
    (file : ℕ) (b : Bool) (x y : Option Entry)
    → NotFile file x
    → NotFile file y
    → NotFile file (if b then x else y)
test-NotFile file true x y h k = h
test-NotFile file false x y h k = k

spawned_fds-NotFile :
    (file : ℕ) (info : SpawnInfo) (t : Table)
    → ((n : ℕ) → NotFile file (t n))
    → (n : ℕ) → NotFile file (spawned_fds info t n)
spawned_fds-NotFile file info t h n =
    test-NotFile file (ltb n 3) _ _
      (copied-NotFile file (t (get_or info.std_fds n 0)) (h (get_or info.std_fds n 0)))
      (test-NotFile file (mem n info.std_fds || is_cwd info.working_dir n) none _ tt
        (kept-NotFile file (t n) (h n)))

fresh-NotFile :
    (file : ℕ) (x : Option Entry) → ((e : Entry) → x ≡ some e → e.file ≢ file) → NotFile file x
fresh-NotFile file none h = tt
fresh-NotFile file (some e) h = h e refl

refers-none :
    (limit file : ℕ) (t : Table) → ((n : ℕ) → NotFile file (t n)) → refers limit file t ≡ false
refers-none zero file t h = refl
refers-none (suc n) file t h = go (t n) (h n) (refers-none n file t h)
  where
    go :
        (x : Option Entry)
        → NotFile file x
        → refers n file t ≡ false
        → (elim x as (λ _. Bool) [
          | none ↦ refers n file t
          | some e ↦ if e.file == file then true else refers n file t
        ])
          ≡ false
    go none k rest = rest
    go (some e) k rest = let ne : (e.file == file) ≡ false = ground arith in rw ne rest

entered-child :
    (sys : System) (r w : ℕ) (t : Table) (dir : WorkingDir) (d : _)
    → ((n : ℕ) → IsOpen t n → child_fds sys r w t n ≡ t n)
    → ((fd : ℕ) → is_cwd dir fd ≡ true → IsOpen t fd)
    → entered dir d (child_fds sys r w t) ≡ entered dir d t
entered-child sys r w t inherit d same opened = refl
entered-child sys r w t (path name) d same opened = refl
entered-child sys r w t (dir_fd fd) d same opened =
    let e : (fd == fd) ≡ true = ground arith in rw (same fd (opened fd e)) refl

abbrev with_outcome : Outcome → Parent → Outcome × Parent
with_outcome o s = (o, s)

-- The child starts as a copy of the parent, without the end of the pipe that the parent reads.
abbrev pub child : System → ℕ → ℕ → ℕ → Process → Process
child sys r w pid p = record p { pid = pid; fds = child_fds sys r w p.fds; mask = every_signal }

-- Where the program runs, it does so in the process that was asked for, neither a call before the
-- descriptors change nor execve failed, and the parent has its number; where a call in the child,
-- which started with the descriptors t, failed, the parent raises the error of that call.
abbrev pub IsAnswered :
    System → SpawnInfo → Parent → Table → ℕ → Outcome × Parent → Result (Unit {0}) → Type 0
IsAnswered sys info s t pid answer (ran a p) =
    (p ≡ spawned sys.kernel info (record (s.process) { pid = pid }))
    × (setup_failure sys.kernel info t ≡ none)
    × (exec_failure sys.kernel ≡ none)
    × (answer ≡ (spawned_pid pid, record s { children = pid ∷ s.children }))
IsAnswered sys info s t pid answer (exited f p) =
    IsFailureOf sys.kernel info t f p.fds × (answer ≡ (unix_error f, s))
IsAnswered sys info s t pid answer unfinished = ⊥

copy_all-true :
    (no_memory : Copy → Bool) (xs : List Copy) (h : _)
    → ((x : Copy) → no_memory x ≡ false)
    → (copy_all no_memory xs h).0 ≡ true
unfolding copy_all
copy_all-true no_memory [] h enough = refl
copy_all-true no_memory (x ∷ xs) h enough = rw (enough x) (copy_all-true no_memory xs _ enough)

module _ (sys : System) (info : SpawnInfo) (s : Parent) (r w pid : ℕ)
    (outside : s.in_blocking_section ≡ false) (unused_r : s.process.fds r ≡ none)
    (unused_w : s.process.fds w ≡ none) (other : r ≢ w)
    (callable : IsCallable sys info s.process.fds) where
  spawned-child :
      spawned sys.kernel info (child sys r w pid s.process)
      ≡ spawned sys.kernel info (record (s.process) { pid = pid })
  spawned-child =
      let a =
        entered-child sys r w s.process.fds info.working_dir s.process.directory
          (open-same sys info s.process.fds r w unused_r unused_w other callable)
          callable.cwd_opened in
      let b = spawned_fds-child sys info s.process.fds r w unused_r unused_w other callable in
      rw (a, b) refl

  not_held : refers sys.open_max sys.write_file (spawned_fds info s.process.fds) ≡ false
  not_held = refers-none sys.open_max sys.write_file (spawned_fds info s.process.fds) (
      spawned_fds-NotFile sys.write_file info s.process.fds
        (λ n. fresh-NotFile sys.write_file (s.process.fds n) (callable.fresh n)))

  after_read-IsAnswered :
      (result : Result (Unit {0}))
      → Ends
          (λ _ p. IsSpawned sys.kernel info (child sys r w pid s.process) p)
          (Reports sys.kernel info (child_fds sys r w s.process.fds) w (write_end sys))
          result
      → IsAnswered sys info s
          (child_fds sys r w s.process.fds)
          pid
          (after_read r pid s.process.mask s.cancel_enabled
            (read_pipe sys w none result)
            (with_child sys info s outside r w unused_r unused_w pid))
          result
  unfolding after_read
  after_read-IsAnswered (ran a p) (h, set_up, executed) =
      let same = h ∙ spawned-child in
      let held : refers sys.open_max sys.write_file p.fds ≡ false = rw same not_held in
      (
        same,
        set_up,
        executed,
        rw held (
            ap (with_outcome (spawned_pid pid))
              (after_read-IsRestored sys info s outside r w unused_r unused_w pid end_of_file)),
      )
  after_read-IsAnswered (exited f p) (kept, failed) =
      let found : (sys.write_file == sys.write_file) ≡ true = ground arith in
      (
        failed,
        rw (kept, found)
            (ap (with_outcome (unix_error f))
              (after_read-IsRestored sys info s outside r w unused_r unused_w pid (report f))),
      )
  after_read-IsAnswered unfinished h = h

-- Over a system that gives unused descriptors, where memory, the pipe and fork do not fail and
-- read answers what the pipe holds, for three open standard descriptors, none of them the one of
-- the directory, in a parent whose descriptors 0, 1 and 2 are open: the child ends; if its program
-- runs, neither setpgid, chdir or fchdir nor execve failed, it runs in the process that the
-- abstract description of the request gives, without the pipe, and spawn_unix returns the number
-- of the child, which is all that changes in the parent; if a call in the child fails, spawn_unix
-- raises the error that the kernel gives that very call, with its name and the argument that
-- belongs to it, and the parent is as it was: the call is the first of setpgid, chdir and fchdir
-- that fails, or none of them fails and it is a dup of a standard descriptor, a dup2 of an open
-- descriptor to a standard one, or execve.
pub spawn_unix_lem :
    (sys : System) (info : SpawnInfo) (s : Parent) (r w pid : ℕ)
    → IsPosix sys.kernel
    → IsPipe sys
    → IsCallable sys info s.process.fds
    → s.in_blocking_section ≡ false
    → ((x : Copy) → sys.no_memory x ≡ false)
    → sys.pipe_fds s.process.fds ≡ ok (r, w)
    → sys.fork_pid ≡ ok pid
    → sys.read_fault ≡ none
    → IsAnswered sys info s
        (child_fds sys r w s.process.fds)
        pid
        (spawn_unix sys info s)
        (subprocess sys.kernel info (child sys r w pid s.process))
unfolding spawn_unix after_pipe after_fork forked close
spawn_unix_lem sys info s r w pid posix pipe callable outside enough pipe_ok fork_ok read_ok =
    let (unused_r, unused_w, other) = pipe.unused s.process.fds r w pipe_ok in
    let done = copy_all-true sys.no_memory (copies info.working_dir) s.heap enough in
    let heap = copy_all_lem sys.no_memory (copies info.working_dir) s.heap done in
    let ended =
      subprocess_lem sys.kernel info w (write_end sys) (child sys r w pid s.process) posix
        (ready sys info s.process.fds r w unused_r unused_w other callable)
        (pipe_end sys info s.process.fds r w unused_r unused_w other callable) in
    rw (done, heap, pipe_ok, fork_ok, read_ok)
      (after_read-IsAnswered sys info s r w pid outside unused_r unused_w other callable
        (subprocess sys.kernel info (child sys r w pid s.process)) ended)
