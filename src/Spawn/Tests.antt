-- ===== src/Spawn/Tests.antt =====
-- Runs of spawn_stubs.c over a kernel that gives the lowest free descriptor, and the theorems at one
-- input each.
use ppx_universe.Base.{
  ℕ, zero, suc, ◌<◌, ◌≡◌, refl, ap, arith, List, [], ◌∷◌, true, false, Option, none, some, ◌==◌,
  get_or,
}
use mathlib.Core.Path.{subst}
use ppx_universe.BigstringUnix.Replies.{other}
use ppx_universe.Spawn.Failure.{Function, prog}
use ppx_universe.Spawn.Table.{Entry, Table, update, close, dup, dup2, after_exec}
use ppx_universe.Spawn.Child.{
  dir_fd, inherit, path, SpawnInfo, of_file, set, handler, Process, safe_dup, dup_rounds, dup_all,
  close_all, redirect, set_group, default_actions, change_directory, execve, subprocess, duped_to,
  dup2_to, subprocess_failure, or_fail, fchdir_to,
}
use ppx_universe.Spawn.Child.Dup.{IsSafelyDuped, safe_dup_lem}
use ppx_universe.Spawn.Child.Specification.{Ends, Reports, IsSpawned}
use ppx_universe.Spawn.Child.Refinement.{subprocess_lem}
use ppx_universe.Spawn.Parent.{
  cwd_copy, prog_copy, argv_copy, env_copy, Parent, spawned_pid, unix_error, out_of_memory,
  spawn_unix, copy_all, free_spawn_info, restore, after_read, forked, after_fork, after_pipe,
}
use ppx_universe.Spawn.Parent.Restored.{IsRestored, spawn_unix-IsRestored}
use ppx_universe.Spawn.Parent.Piped.{IsCallable, child_fds}
use ppx_universe.Spawn.Parent.Outcomes.{IsAnswered, child, spawn_unix_lem}
use ppx_universe.Spawn.Kernels.{kernel, kernel-IsPosix, system, enough, system-IsPipe}

-- The descriptors 0 to 4 and 7 are open.
abbrev fds : List (Option Entry)
fds =
    some (record { file = 10; cloexec = false })
    ∷ some (record { file = 11; cloexec = false })
    ∷ some (record { file = 12; cloexec = false })
    ∷ some (record { file = 13; cloexec = true })
    ∷ some (record { file = 14; cloexec = false })
    ∷ none
    ∷ none
    ∷ some (record { file = 17; cloexec = false })
    ∷ []

abbrev table : Table
table n = get_or fds n none

abbrev process : Process
process = record {
  pid = 50;
  group = 50;
  directory = of_file 20;
  handlers = λ i. handler 3;
  mask = set 9;
  fds = table;
}

abbrev parent : Parent
parent = record {
  process = process;
  cancel_enabled = true;
  in_blocking_section = false;
  heap = record { cwds = 0; progs = 0; argvs = 0; envs = 0 };
  children = 60 ∷ [];
}

-- Output and errors go to the file of descriptor 3; the directory is descriptor 7.
abbrev info : SpawnInfo
info = record { working_dir = dir_fd 7; std_fds = 0 ∷ 3 ∷ 3 ∷ []; pgid = some 0 }

spawn_runs : (spawn_unix (system none enough) info parent).0 ≡ spawned_pid 77
unfolding spawn_unix copy_all free_spawn_info restore after_read forked after_fork after_pipe
    subprocess safe_dup dup_all close_all redirect set_group default_actions change_directory execve
    duped_to dup2_to subprocess_failure or_fail fchdir_to dup dup2 close after_exec
spawn_runs = refl

-- The program is missing: the parent raises the error of execve.
execve_fails :
    (spawn_unix (system (some 2) enough) info parent).0
    ≡ unix_error (record { errno = other 2; function = Function.execve; arg = prog })
unfolding spawn_unix copy_all free_spawn_info restore after_read forked after_fork after_pipe
    subprocess safe_dup dup_all close_all redirect set_group default_actions change_directory execve
    duped_to dup2_to subprocess_failure or_fail fchdir_to dup dup2 close after_exec
execve_fails = refl

-- Where the parent has no descriptors 0 and 1, the pipe gets them, the child closes its end when it
-- moves the standard descriptors, and the error of execve is lost.
report_lost :
    (spawn_unix
      (system (some 2) enough)
      (record { working_dir = inherit; std_fds = 3 ∷ 3 ∷ 4 ∷ []; pgid = none })
      (record parent { process = record process { fds = update (update table 0 none) 1 none } })).0
    ≡ spawned_pid 77
unfolding spawn_unix copy_all free_spawn_info restore after_read forked after_fork after_pipe
    subprocess safe_dup dup_all close_all redirect set_group default_actions change_directory execve
    duped_to dup2_to subprocess_failure or_fail fchdir_to dup dup2 close after_exec
report_lost = refl

-- Where there is no memory for the copy of argv, those of the directory and of the program stay.
memory_lost :
    spawn_unix
      (system none (λ x. elim x [
        | argv_copy ↦ true
        | cwd_copy ↦ false
        | prog_copy ↦ false
        | env_copy ↦ false
      ]))
      (record info { working_dir = path 5 })
      parent
    ≡ (out_of_memory, record parent { heap = record { cwds = 1; progs = 1; argvs = 0; envs = 0 } })
unfolding spawn_unix copy_all
memory_lost = refl

abbrev file_of : Option Entry → ℕ
file_of none = 0
file_of (some e) = e.file

table-file : (n : ℕ) → file_of (table n) < 100
table-file zero = omega arith
table-file (suc zero) = omega arith
table-file (suc (suc zero)) = omega arith
table-file (suc (suc (suc zero))) = omega arith
table-file (suc (suc (suc (suc zero)))) = omega arith
table-file (suc (suc (suc (suc (suc zero))))) = omega arith
table-file (suc (suc (suc (suc (suc (suc zero)))))) = omega arith
table-file (suc (suc (suc (suc (suc (suc (suc zero))))))) = omega arith
table-file (suc (suc (suc (suc (suc (suc (suc (suc n)))))))) = omega arith

cwd-opened : (fd : ℕ) → (fd == 7) ≡ true → (e : Entry) × (table fd ≡ some e)
cwd-opened fd h =
    let same : 7 ≡ fd = ground arith in
    subst (λ n. (e : Entry) × (table n ≡ some e)) same (record { file = 17; cloexec = false }, refl)

info-IsCallable : IsCallable (system (some 2) enough) info table
info-IsCallable = record {
  three = refl;
  opened = ((_, refl), ((_, refl), ((_, refl), tt)));
  standard = ((_, refl), ((_, refl), ((_, refl), tt)));
  cwd_opened = cwd-opened;
  std_no_cwd = (refl, (refl, (refl, tt)));
  fresh = λ fd e h same. absurd (omega (arith, ap file_of h, table-file fd, same));
}

spawn_unix_lem_example :
    IsAnswered
      (system (some 2) enough)
      info
      parent
      (child_fds (system (some 2) enough) 5 6 table)
      77
      (spawn_unix (system (some 2) enough) info parent)
      (subprocess (kernel (some 2)) info (child (system (some 2) enough) 5 6 77 process))
spawn_unix_lem_example =
    spawn_unix_lem (system (some 2) enough) info parent 5 6 77 (kernel-IsPosix (some 2))
      (system-IsPipe (some 2) enough) info-IsCallable refl (λ x. refl) refl refl refl

spawn_unix-IsRestored_example : IsRestored parent (spawn_unix (system none enough) info parent)
spawn_unix-IsRestored_example =
    spawn_unix-IsRestored (system none enough) info parent (system-IsPipe none enough) refl

safe_dup_lem_example :
    IsSafelyDuped
      (kernel none)
      (update table 0 none)
      3
      (safe_dup dup_rounds (kernel none) 3 (update table 0 none))
safe_dup_lem_example = safe_dup_lem (kernel none) 3 (update table 0 none) (kernel-IsPosix none)

subprocess_lem_example :
    Ends
      (λ _ p'. IsSpawned (kernel none) info process p')
      (Reports (kernel none) info table 4 (record { file = 14; cloexec = false }))
      (subprocess (kernel none) info process)
subprocess_lem_example =
    subprocess_lem (kernel none) info 4 (record { file = 14; cloexec = false }) process
      (kernel-IsPosix none)
      (record {
        three = refl;
        opened = ((_, refl), ((_, refl), ((_, refl), tt)));
        low = omega arith;
        apart = refl;
        no_cwd = refl;
        std_no_cwd = (refl, (refl, (refl, tt)));
      })
      refl
