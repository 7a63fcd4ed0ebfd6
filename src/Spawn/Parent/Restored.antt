-- ===== src/Spawn/Parent/Restored.antt =====
-- What spawn_unix leaves of the parent, whatever the system answers.
use ppx_universe.Base.{
  ℕ, suc, ◌-◌, ◌≡◌, ◌≢◌, inl, inr, refl, ap, ◌∙◌, arith, List, [], ◌∷◌, Bool, true, false, none,
  if◌then◌else◌, ◌==◌, Bool-cases,
}
use mathlib.Core.Path.{fun_ext}
use ppx_universe.Spawn.Table.{Table, Reply, ok, error, close}
use ppx_universe.Spawn.Child.{
  WorkingDir, inherit, path, dir_fd, SpawnInfo, every_signal, subprocess,
}
use ppx_universe.Spawn.Parent.{
  Copy, Heap, Parent, System, Outcome, spawned_pid, unix_error, out_of_memory, blocked, alloc,
  copy_all, copies, free_spawn_info, with_pipe, ReadReply, end_of_file, no_reply, report, fault,
  read_pipe, remove, restore, after_read, forked, after_fork, after_pipe, spawn_unix,
}

-- The two descriptors that pipe2 gives are new, and two.
pub record IsPipe (sys : System) : Type 0 where
  pub unused :
      (t : Table) (r w : ℕ) → sys.pipe_fds t ≡ ok (r, w) → (t r ≡ none) × (t w ≡ none) × (r ≢ w)

-- After a result there is a child more, after an error all is as it was; a lack of memory leaves
-- copies behind.
abbrev pub IsRestored : Parent → Outcome × Parent → Type 0
IsRestored s (spawned_pid pid, s') = s' ≡ record s { children = pid ∷ s.children }
IsRestored s (unix_error f, s') = s' ≡ s
IsRestored s (out_of_memory, s') = s' ≡ record s { heap = s'.heap }
IsRestored s (blocked, s') = Unit {0}

abbrev pub alloc_all : List Copy → Heap → Heap
alloc_all [] h = h
alloc_all (x ∷ xs) h = alloc_all xs (alloc x h)

pub copy_all_lem :
    (no_memory : Copy → Bool) (xs : List Copy) (h : Heap)
    → (copy_all no_memory xs h).0 ≡ true
    → (copy_all no_memory xs h).1 ≡ alloc_all xs h
unfolding copy_all
copy_all_lem no_memory [] h done = refl
copy_all_lem no_memory (x ∷ xs) h done =
    go (no_memory x) (copy_all_lem no_memory xs (alloc x h)) done
  where
    go :
        (b : Bool)
        → ((copy_all no_memory xs (alloc x h)).0 ≡ true
            → (copy_all no_memory xs (alloc x h)).1 ≡ alloc_all xs (alloc x h))
        → (if b then (false, h) else copy_all no_memory xs (alloc x h)).0 ≡ true
        → (if b then (false, h) else copy_all no_memory xs (alloc x h)).1 ≡ alloc_all xs (alloc x h)
    go true rest d = absurd (cc d)
    go false rest d = rest d

back : (n : ℕ) → suc n - 1 ≡ n
back n = omega arith

pub freed : (w : WorkingDir) (h : Heap) → free_spawn_info w (alloc_all (copies w) h) ≡ h
unfolding free_spawn_info
freed inherit h = rw (back h.progs, back h.argvs, back h.envs)
freed (path name) h = rw (back h.cwds, back h.progs, back h.argvs, back h.envs)
freed (dir_fd fd) h = rw (back h.progs, back h.argvs, back h.envs)

pub closed :
    (sys : System) (r w : ℕ) (t : Table)
    → t r ≡ none
    → t w ≡ none
    → close r (close w (with_pipe sys r w t)) ≡ t
unfolding close
closed sys r w t hr hw = fun_ext λ n. elim (Bool-cases (n == r)) [
  | inl e ↦ let same : t n ≡ none = ap t (ground arith) ∙ hr in rw (e, same)
  | inr e ↦ elim (Bool-cases (n == w)) [
    | inl e' ↦ let same : t n ≡ none = ap t (ground arith) ∙ hw in rw (e, e', same)
    | inr e' ↦ rw (e, e')
  ]
]

-- A parent with the fields that the code changes.
abbrev with_fields : Parent → Table → Heap → List ℕ → Parent
with_fields s t h cs = record s {
  process = record (s.process) { fds = t };
  in_blocking_section = false;
  heap = h;
  children = cs;
}

with_fields_lem :
    (s : Parent) (t : Table) (h : Heap) (cs : List ℕ)
    → t ≡ s.process.fds
    → h ≡ s.heap
    → s.in_blocking_section ≡ false
    → with_fields s t h cs ≡ record s { children = cs }
with_fields_lem s t h cs ht hh outside = rw (ht, hh, outside)

module _ (sys : System) (info : SpawnInfo) (s : Parent)
    (outside : s.in_blocking_section ≡ false) where
  -- The parent with the copies, in the blocking section.
  abbrev pub prepared : Parent
  prepared = record s {
    heap = alloc_all (copies info.working_dir) s.heap;
    in_blocking_section = true;
  }

  abbrev pub piped : ℕ → ℕ → Parent
  piped r w = record prepared {
    process = record (s.process) { fds = with_pipe sys r w s.process.fds; mask = every_signal };
    cancel_enabled = false;
  }

  module _ (r w : ℕ) (unused_r : s.process.fds r ≡ none) (unused_w : s.process.fds w ≡ none) where
    abbrev tidied : List ℕ → Parent
    tidied cs =
        with_fields s (close r (close w (with_pipe sys r w s.process.fds)))
          (free_spawn_info info.working_dir (alloc_all (copies info.working_dir) s.heap)) cs

    tidied_lem : (cs : List ℕ) → tidied cs ≡ record s { children = cs }
    tidied_lem cs =
        with_fields_lem s _ _ cs (closed sys r w s.process.fds unused_r unused_w)
          (freed info.working_dir s.heap) outside

    remove-first : (pid : ℕ) (cs : List ℕ) → remove pid (pid ∷ cs) ≡ cs
    remove-first pid cs = let e : (pid == pid) ≡ true = ground arith in rw e

    reaped : (pid : ℕ) → tidied (remove pid (pid ∷ s.children)) ≡ s
    reaped pid = ap tidied (remove-first pid s.children) ∙ tidied_lem s.children

    -- The parent when it reads from the pipe.
    abbrev pub with_child : ℕ → Parent
    with_child pid = record (piped r w) {
      process = record (s.process) {
        fds = close w (with_pipe sys r w s.process.fds);
        mask = every_signal;
      };
      heap = free_spawn_info info.working_dir (alloc_all (copies info.working_dir) s.heap);
      children = pid ∷ s.children;
    }

    pub after_read-IsRestored :
        (pid : ℕ) (reply : ReadReply)
        → IsRestored s (after_read r pid s.process.mask s.cancel_enabled reply (with_child pid))
    unfolding after_read restore
    after_read-IsRestored pid end_of_file = tidied_lem (pid ∷ s.children)
    after_read-IsRestored pid no_reply = tt
    after_read-IsRestored pid (report f) = reaped pid
    after_read-IsRestored pid (fault e) = reaped pid

    after_fork-IsRestored :
        (answer : Reply ℕ)
        → IsRestored s (after_fork sys info r w s.process.mask s.cancel_enabled answer (piped r w))
    unfolding after_fork restore
    after_fork-IsRestored (error e) = tidied_lem s.children
    after_fork-IsRestored (ok pid) = after_read-IsRestored pid (
        read_pipe sys w sys.read_fault
          (subprocess sys.kernel info (forked r pid ((piped r w).process))))

  after_pipe-IsRestored :
      (answer : Reply (ℕ × ℕ))
      → ((r w : ℕ)
          → answer ≡ ok (r, w)
          → (s.process.fds r ≡ none) × (s.process.fds w ≡ none) × (r ≢ w))
      → IsRestored s (after_pipe sys info answer prepared)
  unfolding after_pipe
  after_pipe-IsRestored (error e) unused =
      with_fields_lem s s.process.fds _ s.children refl (freed info.working_dir s.heap) outside
  after_pipe-IsRestored (ok (r, w)) unused =
      let (unused_r, unused_w, other) = unused r w refl in
      after_fork-IsRestored r w unused_r unused_w sys.fork_pid

-- Where pipe2 gives two different unused descriptors, whatever else the system answers: after
-- spawn_unix returns a number there is one child more in the parent and nothing else has changed,
-- its descriptors, signal mask, cancellation state and copies of strings included; after an error
-- of a system call nothing has changed; after a lack of memory nothing but the copies of strings.
pub spawn_unix-IsRestored :
    (sys : System) (info : SpawnInfo) (s : Parent)
    → IsPipe sys
    → s.in_blocking_section ≡ false
    → IsRestored s (spawn_unix sys info s)
unfolding spawn_unix
spawn_unix-IsRestored sys info s pipe outside =
    elim (Bool-cases ((copy_all sys.no_memory (copies info.working_dir) s.heap).0)) [
      | inl e ↦
          let same = copy_all_lem sys.no_memory (copies info.working_dir) s.heap e in
          rw (e, same)
            (after_pipe-IsRestored sys info s outside (sys.pipe_fds s.process.fds)
              (pipe.unused s.process.fds))
      | inr e ↦ rw e refl
    ]
