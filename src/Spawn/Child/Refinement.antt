-- ===== src/Spawn/Child/Refinement.antt =====
-- What the child ends in, against the process that the caller asked for.
use ppx_universe.Base.{
  ℕ, ◌+◌, ◌-◌, ◌≡◌, inl, inr, refl, ap, ap₂, ◌∙◌, arith, List, Bool, true, false, Option, none,
  some, if◌then◌else◌, leb, ltb, Bool-cases, ◌&&◌,
}
use mathlib.Core.Path.{fun_ext}
use ppx_universe.Spawn.Failure.{Failure}
use ppx_universe.Spawn.Table.{Entry, Table, Kernel, IsPosix}
use ppx_universe.Spawn.Child.{
  SpawnInfo, no_signal, Handler, default_action, Process, ran, ◌>>◌, dup_all, close_all, change_fds,
  redirect, set_group, default_actions, change_directory, kept_handler, execve, subprocess,
}
use ppx_universe.Spawn.Child.Specification.{
  Ends, bind-Ends, weaken-Ends, then-Ends, Reports, FailsAs, IsSpawned, setup_failure,
  group_failure, directory_failure, spawned_handler, joined, entered,
}
use ppx_universe.Spawn.Child.Duplicates.{Duplicated, Duplicated-Distinct}
use ppx_universe.Spawn.Child.Redirect.{moved}
use ppx_universe.Spawn.Child.Steps.{
  set_group-Ends, directory_changed, change_directory-Ends, execve-Ends,
}
use ppx_universe.Spawn.Child.Loops.{default_actions_lem, AllDuped, dup_all-Ends, redirect-Ends}
use ppx_universe.Spawn.Child.Descriptors.{
  IsReady, without_cwd, three', tall, moved-spawned_fds, not_new, failure_fd-kept, failure_fd-moved,
  AllIn-closed,
}

kept-default :
    (c : Bool) (h : Handler)
    → kept_handler (if c then default_action else h)
      ≡ (if c then default_action else kept_handler h)
unfolding kept_handler
kept-default true h = refl
kept-default false h = refl

same_bounds : (nsig i : ℕ) → (leb 1 i && ltb i (1 + (nsig - 1))) ≡ (leb 1 i && ltb i nsig)
same_bounds nsig i = elim (Bool-cases (leb 1 i)) [
  | inl e ↦ let same : ltb i (1 + (nsig - 1)) ≡ ltb i nsig = ground arith in rw same
  | inr e ↦ rw e
]

handlers_lem :
    (nsig : ℕ) (handlers : ℕ → Handler)
    → (λ i. kept_handler (default_actions (nsig - 1) 1 handlers i)) ≡ spawned_handler nsig handlers
handlers_lem nsig handlers = fun_ext λ i.
    ap kept_handler (default_actions_lem (nsig - 1) 1 handlers i)
    ∙ kept-default (leb 1 i && ltb i (1 + (nsig - 1))) (handlers i)
    ∙ rw (same_bounds nsig i)

abbrev with_both : Kernel → SpawnInfo → Process → (ℕ → Handler) → Table → Process
with_both k info p h t = record {
  pid = p.pid;
  group = joined info.pgid p.pid p.group;
  directory = entered info.working_dir p.directory p.fds;
  handlers = h;
  mask = no_signal;
  fds = t;
}

-- The process when all the descriptors have been duplicated.
abbrev after_dups : Kernel → SpawnInfo → Process → Table → Process
after_dups k info p t' = record {
  pid = p.pid;
  group = joined info.pgid p.pid p.group;
  directory = entered info.working_dir p.directory p.fds;
  handlers = default_actions (k.nsig - 1) 1 p.handlers;
  mask = p.mask;
  fds = t';
}

-- A failed call before the descriptors change, as a report.
setup_Reports :
    (k : Kernel) (info : SpawnInfo) (t : Table) (failure_fd : ℕ) (pipe : Entry) (u : Table)
    (o : Option Failure) (f : Failure) (p' : Process)
    → u failure_fd ≡ some pipe
    → (o ≡ some f → setup_failure k info t ≡ some f)
    → FailsAs u o f p'
    → Reports k info t failure_fd pipe f p'
setup_Reports k info t failure_fd pipe u o f p' h first (same, failed) =
    (ap (λ v. v failure_fd) same ∙ h, inl (first failed))

last_steps-Ends :
    (k : Kernel) (info : SpawnInfo) (failure_fd : ℕ) (pipe : Entry) (p : Process) (ns : List ℕ)
    (t' : Table)
    → IsReady info p.fds failure_fd
    → p.fds failure_fd ≡ some pipe
    → setup_failure k info p.fds ≡ none
    → Duplicated (without_cwd info.working_dir p.fds) info.std_fds ns t'
    → Ends
        (λ _ p'. IsSpawned k info p p')
        (Reports k info p.fds failure_fd pipe)
        ((change_fds (close_all info.std_fds)
            >> redirect k 0 ns
            >> (λ q. ran tt (record q { mask = no_signal }))
            >> execve k)
          (after_dups k info p t'))
last_steps-Ends k info failure_fd pipe p ns t' ready h set_up duplicated =
    let u = close_all info.std_fds t' in
    let q : Process = after_dups k info p (moved 0 ns u) in
    let bad = Reports k info p.fds failure_fd pipe in
    let three = three' info p.fds failure_fd ready ns t' duplicated in
    then-Ends (λ _ p'. IsSpawned k info p p') bad (Unit {0}) (redirect k 0 ns) _ q
      (after_dups k info p u)
      (redirect-Ends failure_fd pipe k 0 ns (after_dups k info p u)
        (tall info p.fds failure_fd ready ns t' duplicated)
        (Duplicated-Distinct (without_cwd info.working_dir p.fds) info.std_fds ns t' duplicated)
        (AllIn-closed info p.fds failure_fd ready ns t' duplicated) (omega (arith, three)) ready.low
        (not_new info p.fds failure_fd ready ns t' duplicated pipe h)
        (failure_fd-kept info p.fds failure_fd ready ns t' duplicated pipe h))
      (λ f p' (used, failed). (used, inr (set_up, inr (inl failed))))
      (λ _ _.
        weaken-Ends (λ _ p'. IsSpawned k info p p') bad (execve k (record q { mask = no_signal }))
          (execve-Ends k (record q { mask = no_signal }))
          (λ _ q' (same, executed). (
            same
                ∙ ap₂ (with_both k info p) (handlers_lem k.nsig p.handlers)
                    (moved-spawned_fds info p.fds failure_fd ready ns t' duplicated),
            set_up,
            executed,
          ))
          (λ f p' (same, failed). (
            ap (λ v. v failure_fd) same
                ∙ failure_fd-moved info p.fds failure_fd ready ns t' duplicated pipe h,
            inr (set_up, inr (inr failed)),
          )))

-- Over a kernel whose dup gives unused descriptors, for three open standard descriptors, none of
-- them the one of the directory, and a pipe whose descriptor is at least 3 and none of these:
-- subprocess ends; if the program runs, it has the group, the directory, the default signals and
-- exactly the descriptors of the request, whatever the order or the repetitions of the standard
-- descriptors; and neither setpgid, chdir or fchdir nor execve failed; if a call fails, the pipe
-- is still open for the report, which carries the error that the kernel gives that call, its name
-- and the argument that belongs to it: the call is the first of setpgid, chdir and fchdir that
-- fails, or none of them fails and it is a dup of a standard descriptor, a dup2 of an open
-- descriptor to a standard one, or execve.
pub subprocess_lem :
    (k : Kernel) (info : SpawnInfo) (failure_fd : ℕ) (pipe : Entry) (p : Process)
    → IsPosix k
    → IsReady info p.fds failure_fd
    → p.fds failure_fd ≡ some pipe
    → Ends
        (λ _ p'. IsSpawned k info p p')
        (Reports k info p.fds failure_fd pipe)
        (subprocess k info p)
unfolding subprocess
subprocess_lem k info failure_fd pipe p posix ready h =
    let p1 : Process = record p { group = joined info.pgid p.pid p.group } in
    let p2 : Process = record p1 { handlers = default_actions (k.nsig - 1) 1 p.handlers } in
    let p3 : Process = directory_changed info.working_dir p2 in
    let h3 : p3.fds failure_fd ≡ some pipe = rw (ready.no_cwd) h in
    let good = λ (_ : Unit {0}) (p' : Process). IsSpawned k info p p' in
    let bad = Reports k info p.fds failure_fd pipe in
    then-Ends good bad (group_failure k info.pgid ≡ none) (set_group k info.pgid) _ p1 p
      (set_group-Ends k info.pgid p)
      (λ f p'.
        setup_Reports k info p.fds failure_fd pipe p.fds (group_failure k info.pgid) f p' h
          (λ e. rw e refl))
      (λ _ joined_ok.
        then-Ends good bad (directory_failure k info.working_dir p.fds ≡ none)
          (change_directory k info.working_dir) _ p3 p2
          (change_directory-Ends k info.working_dir p2)
          (λ f p'.
            setup_Reports k info p.fds failure_fd pipe p.fds
              (directory_failure k info.working_dir p.fds) f p' h (λ e. rw (joined_ok) e))
          (λ _ entered_ok.
            let set_up : setup_failure k info p.fds ≡ none = rw (joined_ok) entered_ok in
            bind-Ends (AllDuped failure_fd pipe info.std_fds p3) good bad (dup_all k info.std_fds) _
              p3
              (weaken-Ends (AllDuped failure_fd pipe info.std_fds p3) bad
                (dup_all k info.std_fds p3)
                (dup_all-Ends failure_fd pipe k info.std_fds p3 posix h3) (λ ns p' g. g)
                (λ f p' (used, failed). (used, inr (set_up, inl failed))))
              (λ ns p4 (duplicated, same).
                rw same
                  (last_steps-Ends k info failure_fd pipe p ns p4.fds ready h set_up duplicated))))
