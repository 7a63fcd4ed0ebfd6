-- ===== src/Spawn/Child/Steps.antt =====
-- What each step of the child does to the process, or reports.
use ppx_universe.Base.{ℕ, ◌≡◌, refl, Option, none, some, if◌then◌else◌}
use ppx_universe.BigstringUnix.Replies.{Errno}
use ppx_universe.Spawn.Failure.{ErrorArg, Function, nothing, cwd, prog}
use ppx_universe.Spawn.Table.{Entry, Kernel, close, after_exec}
use ppx_universe.Spawn.Child.{
  WorkingDir, inherit, path, dir_fd, Process, subprocess_failure, or_fail, set_group, fchdir_to,
  change_directory, kept_handler, execve,
}
use ppx_universe.Spawn.Child.Specification.{
  Ends, then-Ends, FailsAs, failed_with, group_failure, entry_failure, directory_failure,
  exec_failure, joined, entered, is_cwd,
}

or_fail-Ends :
    (function : Function) (arg : ErrorArg) (err : Option Errno) (p : Process)
    → Ends
        (λ _ p'. (p' ≡ p) × (failed_with function arg err ≡ none))
        (FailsAs p.fds (failed_with function arg err))
        (or_fail function arg err p)
unfolding or_fail subprocess_failure
or_fail-Ends function arg none p = (refl, refl)
or_fail-Ends function arg (some e) p = (refl, refl)

pub set_group-Ends :
    (k : Kernel) (pgid : Option ℕ) (p : Process)
    → Ends
        (λ _ p'.
          (p' ≡ record p { group = joined pgid p.pid p.group }) × (group_failure k pgid ≡ none))
        (FailsAs p.fds (group_failure k pgid))
        (set_group k pgid p)
unfolding set_group
set_group-Ends k none p = (refl, refl)
set_group-Ends k (some pgid) p =
    then-Ends _ (FailsAs p.fds (group_failure k (some pgid))) (group_failure k (some pgid) ≡ none)
      (or_fail Function.setpgid nothing k.setpgid_error) _ p p
      (or_fail-Ends Function.setpgid nothing k.setpgid_error p) (λ e p' h. h) (λ _ ok. (refl, ok))

fchdir_to-Ends :
    (k : Kernel) (fd : ℕ) (entry : Option Entry) (p : Process)
    → p.fds fd ≡ entry
    → Ends
        (λ _ p'.
          (p' ≡ record p { directory = entered (dir_fd fd) p.directory p.fds })
          × (entry_failure k entry ≡ none))
        (FailsAs p.fds (entry_failure k entry))
        (fchdir_to k entry p)
unfolding fchdir_to subprocess_failure
fchdir_to-Ends k fd none p source = (refl, refl)
fchdir_to-Ends k fd (some e) p source =
    then-Ends _ (FailsAs p.fds (entry_failure k (some e))) (entry_failure k (some e) ≡ none)
      (or_fail Function.fchdir nothing k.fchdir_error) _ p p
      (or_fail-Ends Function.fchdir nothing k.fchdir_error p) (λ e' p' h. h)
      (λ _ ok. (rw source refl, ok))

abbrev pub directory_changed : WorkingDir → Process → Process
directory_changed w p = record p {
  directory = entered w p.directory p.fds;
  fds = λ n. if is_cwd w n then none else p.fds n;
}

pub change_directory-Ends :
    (k : Kernel) (w : WorkingDir) (p : Process)
    → Ends
        (λ _ p'. (p' ≡ directory_changed w p) × (directory_failure k w p.fds ≡ none))
        (FailsAs p.fds (directory_failure k w p.fds))
        (change_directory k w p)
unfolding change_directory close
change_directory-Ends k inherit p = (refl, refl)
change_directory-Ends k (path name) p =
    then-Ends _ (FailsAs p.fds (directory_failure k (path name) p.fds))
      (directory_failure k (path name) p.fds ≡ none) (or_fail Function.chdir cwd k.chdir_error) _ p
      p (or_fail-Ends Function.chdir cwd k.chdir_error p) (λ e p' h. h) (λ _ ok. (refl, ok))
change_directory-Ends k (dir_fd fd) p =
    then-Ends _ (FailsAs p.fds (entry_failure k (p.fds fd))) (entry_failure k (p.fds fd) ≡ none)
      (λ q. fchdir_to k (q.fds fd) q) _
      (record p { directory = entered (dir_fd fd) p.directory p.fds }) p
      (fchdir_to-Ends k fd (p.fds fd) p refl) (λ e p' h. h) (λ _ ok. (refl, ok))

pub execve-Ends :
    (k : Kernel) (p : Process)
    → Ends
        (λ _ p'.
          (p' ≡ record p { handlers = λ i. kept_handler (p.handlers i); fds = after_exec p.fds })
          × (exec_failure k ≡ none))
        (FailsAs p.fds (exec_failure k))
        (execve k p)
unfolding execve
execve-Ends k p =
    then-Ends _ (FailsAs p.fds (exec_failure k)) (exec_failure k ≡ none)
      (or_fail Function.execve prog k.execve_error) _ p p
      (or_fail-Ends Function.execve prog k.execve_error p) (λ e p' h. h) (λ _ ok. (refl, ok))
