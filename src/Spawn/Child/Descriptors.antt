-- ===== src/Spawn/Child/Descriptors.antt =====
-- The descriptors that the program gets.
use ppx_universe.Base.{
  ℕ, ◌+◌, ◌≤◌, ◌<◌, ◌≡◌, inl, inr, refl, sym, ap, ◌∙◌, arith, List, [], ◌∷◌, Bool, true, false,
  Option, none, some, if◌then◌else◌, ltb, Bool-cases, length, get_or, All, ◌||◌,
}
use mathlib.Core.Path.{fun_ext}
use ppx_universe.Spawn.Table.{Entry, Table, copied, mem, kept_entry, after_exec}
use ppx_universe.Spawn.Child.{WorkingDir, SpawnInfo, close_all}
use ppx_universe.Spawn.Child.Specification.{spawned_fds, is_cwd}
use ppx_universe.Spawn.Child.Members.{All-mem, All-at}
use ppx_universe.Spawn.Child.Duplicates.{
  Duplicated, IsOpen, Duplicated-used, Duplicated-other, Duplicated-new, Duplicated-Distinct,
  Duplicated-length, Duplicated-at, Duplicated-IsOpen,
}
use ppx_universe.Spawn.Child.Redirect.{
  AllTall, moved, moved-other, moved-in, moved-at, close_all_lem,
}

-- What the caller and the parent see to: three open standard descriptors; the pipe has another
-- descriptor than they and than the directory, and is none of 0, 1 and 2; so is the directory's
-- none of the three.
pub record IsReady (info : SpawnInfo) (t : Table) (failure_fd : ℕ) : Type 0 where
  pub three : length info.std_fds ≡ 3
  pub opened : All (IsOpen t) info.std_fds
  pub low : 3 ≤ failure_fd
  pub apart : mem failure_fd info.std_fds ≡ false
  pub no_cwd : is_cwd info.working_dir failure_fd ≡ false
  pub std_no_cwd : All (λ fd. is_cwd info.working_dir fd ≡ false) info.std_fds

abbrev pub without_cwd : WorkingDir → Table → Table
without_cwd w t n = if is_cwd w n then none else t n

without_cwd-AllOpen :
    (w : WorkingDir) (t : Table) (fds : List ℕ)
    → All (λ fd. is_cwd w fd ≡ false) fds
    → All (IsOpen t) fds
    → All (IsOpen (without_cwd w t)) fds
without_cwd-AllOpen w t [] out opened = tt
without_cwd-AllOpen w t (fd ∷ fds) (one, out) ((e, used), opened) =
    ((e, rw one used), without_cwd-AllOpen w t fds out opened)

kept-copied : (x : Option Entry) → kept_entry (copied (copied x)) ≡ copied x
unfolding kept_entry
kept-copied none = refl
kept-copied (some e) = refl

one_test :
    (a b : Bool) (x y : Option Entry)
    → y ≡ (if b then none else x)
    → (if a then none else y) ≡ (if a || b then none else x)
one_test true b x y h = refl
one_test false true x y h = h
one_test false false x y h = h

none_anyway :
    (a b : Bool) (x : Option Entry)
    → (if b then none else x) ≡ none
    → none ≡ (if a || b then none else x)
none_anyway true b x h = refl
none_anyway false true x h = refl
none_anyway false false x h = sym h

exec_test :
    (a : Bool) (x : Option Entry)
    → kept_entry (if a then none else x) ≡ (if a then none else kept_entry x)
unfolding kept_entry
exec_test true x = refl
exec_test false x = refl

module _ (info : SpawnInfo) (t : Table) (failure_fd : ℕ) (ready : IsReady info t failure_fd)
    (ns : List ℕ) (t' : Table)
    (duplicated : Duplicated (without_cwd info.working_dir t) info.std_fds ns t') where
  opened' : All (IsOpen (without_cwd info.working_dir t)) info.std_fds
  opened' = without_cwd-AllOpen info.working_dir t info.std_fds ready.std_no_cwd ready.opened

  pub three' : length ns ≡ 3
  three' =
      Duplicated-length (without_cwd info.working_dir t) info.std_fds ns t' duplicated ∙ ready.three

  pub tall : AllTall ns
  tall m found =
      (Duplicated-new (without_cwd info.working_dir t) info.std_fds ns t' m duplicated found).1

  new-not_std : (m : ℕ) → mem m ns ≡ true → mem m info.std_fds ≡ false
  new-not_std m found = elim (Bool-cases (mem m info.std_fds)) [
    | inl e ↦
        let (entry, used) =
          All-mem (IsOpen (without_cwd info.working_dir t)) info.std_fds m e opened' in
        let (unused, low) =
          Duplicated-new (without_cwd info.working_dir t) info.std_fds ns t' m duplicated found in
        absurd (cc (used, unused))
    | inr e ↦ e
  ]

  std_entry :
      (n : ℕ)
      → n < 3
      → moved 0 ns (close_all info.std_fds t') n ≡ copied (copied (t (get_or info.std_fds n 0)))
  std_entry n h =
      let zero_plus : n ≡ 0 + n = omega arith in
      let m = get_or ns n 0 in
      let (same, found) =
        Duplicated-at (without_cwd info.working_dir t) info.std_fds ns t' n duplicated opened'
          (omega (arith, ready.three)) in
      let out = new-not_std m found in
      let not_cwd : is_cwd info.working_dir (get_or info.std_fds n 0) ≡ false =
        All-at (λ fd. is_cwd info.working_dir fd ≡ false) info.std_fds n
          (omega (arith, ready.three)) ready.std_no_cwd in
      let plain : copied (without_cwd info.working_dir t (get_or info.std_fds n 0))
          ≡ copied (t (get_or info.std_fds n 0)) =
        rw not_cwd in
      ap (moved 0 ns (close_all info.std_fds t')) zero_plus
      ∙ moved-at 0 ns (close_all info.std_fds t') n
          (Duplicated-Distinct (without_cwd info.working_dir t) info.std_fds ns t' duplicated) tall
          (omega (arith, three')) (omega (arith, three'))
      ∙ ap copied (close_all_lem info.std_fds t' m ∙ rw out (same ∙ plain))

  other_entry :
      (n : ℕ)
      → 3 ≤ n
      → moved 0 ns (close_all info.std_fds t') n
        ≡ (if mem n info.std_fds || is_cwd info.working_dir n then none else t n)
  other_entry n h = elim (Bool-cases (mem n ns)) [
    | inl found ↦
        moved-in 0 ns (close_all info.std_fds t') n tall (omega (arith, three')) found
        ∙ none_anyway (mem n info.std_fds) (is_cwd info.working_dir n) (t n) (
            (Duplicated-new (without_cwd info.working_dir t) info.std_fds ns t' n duplicated
              found).0)
    | inr out ↦
        moved-other 0 ns (close_all info.std_fds t') n out (inr (omega (arith, three')))
        ∙ close_all_lem info.std_fds t' n
        ∙ one_test (mem n info.std_fds) (is_cwd info.working_dir n) (t n) (t' n)
            (Duplicated-other (without_cwd info.working_dir t) info.std_fds ns t' n duplicated out)
  ]

  pub moved-spawned_fds : after_exec (moved 0 ns (close_all info.std_fds t')) ≡ spawned_fds info t
  unfolding after_exec
  moved-spawned_fds = fun_ext λ n. elim (Bool-cases (ltb n 3)) [
    | inl h ↦
        ap kept_entry (std_entry n (ground arith))
        ∙ kept-copied (t (get_or info.std_fds n 0))
        ∙ rw h
    | inr h ↦
        ap kept_entry (other_entry n (ground arith))
        ∙ exec_test (mem n info.std_fds || is_cwd info.working_dir n) (t n)
        ∙ rw h
  ]

  pub not_new : (e : Entry) → t failure_fd ≡ some e → mem failure_fd ns ≡ false
  not_new e h =
      Duplicated-used (without_cwd info.working_dir t) info.std_fds ns t' failure_fd e duplicated
        (rw (ready.no_cwd) h)

  pub failure_fd-kept :
      (e : Entry) → t failure_fd ≡ some e → close_all info.std_fds t' failure_fd ≡ some e
  failure_fd-kept e h =
      close_all_lem info.std_fds t' failure_fd
      ∙ rw (ready.apart) (
          Duplicated-other (without_cwd info.working_dir t) info.std_fds ns t' failure_fd duplicated
            (not_new e h)
          ∙ rw (ready.no_cwd) h)

  pub failure_fd-moved :
      (e : Entry)
      → t failure_fd ≡ some e
      → moved 0 ns (close_all info.std_fds t') failure_fd ≡ some e
  failure_fd-moved e h =
      moved-other 0 ns (close_all info.std_fds t') failure_fd (not_new e h)
        (inr (omega (arith, three', ready.low)))
      ∙ failure_fd-kept e h

  -- The temporary descriptors are open when the standard ones of the caller are closed.
  pub AllIn-closed : (m : ℕ) → mem m ns ≡ true → IsOpen (close_all info.std_fds t') m
  AllIn-closed m found =
      let (e, used) =
        Duplicated-IsOpen (without_cwd info.working_dir t) info.std_fds ns t' m duplicated found in
      (e, close_all_lem info.std_fds t' m ∙ rw (new-not_std m found) used)
