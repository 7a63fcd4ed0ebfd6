-- ===== src/Spawn/Parent/Piped.antt =====
-- The descriptors of the child, in which the pipe is open, and what the program gets of them.
use ppx_universe.Base.{
  ℕ, ◌≤◌, ◌≡◌, ◌≢◌, inl, inr, refl, sym, ap, ◌∙◌, arith, List, [], ◌∷◌, true, false, none, some,
  ◌==◌, ltb, Bool-cases, length, get_or, All,
}
use mathlib.Core.Path.{fun_ext}
use ppx_universe.Spawn.Table.{Entry, Table, update, update_self, update_ne, mem, kept_entry}
use ppx_universe.Spawn.Child.{SpawnInfo}
use ppx_universe.Spawn.Child.Duplicates.{IsOpen}
use ppx_universe.Spawn.Child.Members.{All-mem, All-at}
use ppx_universe.Spawn.Child.Specification.{is_cwd, spawned_fds}
use ppx_universe.Spawn.Child.Descriptors.{IsReady}
use ppx_universe.Spawn.Parent.{System, with_pipe}

-- What a caller sees to: three standard descriptors that are open, as those of the parent are and
-- the one of the directory, which is none of the three; and the pipe is a new file.
pub record IsCallable (sys : System) (info : SpawnInfo) (t : Table) : Type 0 where
  pub three : length info.std_fds ≡ 3
  pub opened : All (IsOpen t) info.std_fds
  pub standard : All (IsOpen t) (0 ∷ 1 ∷ 2 ∷ [])
  pub cwd_opened : (fd : ℕ) → is_cwd info.working_dir fd ≡ true → IsOpen t fd
  pub std_no_cwd : All (λ fd. is_cwd info.working_dir fd ≡ false) info.std_fds
  pub fresh : (fd : ℕ) (e : Entry) → t fd ≡ some e → e.file ≢ sys.write_file

abbrev pub write_end : System → Entry
write_end sys = record { file = sys.write_file; cloexec = true }

abbrev pub child_fds : System → ℕ → ℕ → Table → Table
child_fds sys r w t = update (with_pipe sys r w t) r none

module _ (sys : System) (info : SpawnInfo) (t : Table) (r w : ℕ) (unused_r : t r ≡ none)
    (unused_w : t w ≡ none) (other : r ≢ w) (callable : IsCallable sys info t) where
  pub pipe_end : child_fds sys r w t w ≡ some (write_end sys)
  pipe_end =
      update_ne (with_pipe sys r w t) r w none (λ same. other (sym same))
      ∙ update_self (update t r (some (record { file = sys.read_file; cloexec = true }))) w
          (some (write_end sys))

  open-ne : (n m : ℕ) → IsOpen t n → t m ≡ none → n ≢ m
  open-ne n m (e, used) unused same = absurd (cc (ap t same, used, unused))

  others : (n : ℕ) → n ≢ r → n ≢ w → child_fds sys r w t n ≡ t n
  others n a b =
      update_ne (with_pipe sys r w t) r n none a
      ∙ update_ne (update t r (some (record { file = sys.read_file; cloexec = true }))) w n
          (some (write_end sys)) b
      ∙ update_ne t r n (some (record { file = sys.read_file; cloexec = true })) a

  pub open-same : (n : ℕ) → IsOpen t n → child_fds sys r w t n ≡ t n
  open-same n opened = others n (open-ne n r opened unused_r) (open-ne n w opened unused_w)

  AllOpen-child : (fds : List ℕ) → All (IsOpen t) fds → All (IsOpen (child_fds sys r w t)) fds
  AllOpen-child [] all = tt
  AllOpen-child (fd ∷ fds) ((e, used), all) =
      ((e, open-same fd (e, used) ∙ used), AllOpen-child fds all)

  pipe-low : 3 ≤ w
  pipe-low =
      let (a, (b, (c, _))) = callable.standard in
      let a' = open-ne 0 w a unused_w in
      let b' = open-ne 1 w b unused_w in let c' = open-ne 2 w c unused_w in ground arith

  pub ready : IsReady info (child_fds sys r w t) w
  ready = record {
    three = callable.three;
    opened = AllOpen-child info.std_fds callable.opened;
    low = pipe-low;
    apart = elim (Bool-cases (mem w info.std_fds)) [
      | inl e ↦
          absurd (open-ne w w (All-mem (IsOpen t) info.std_fds w e callable.opened) unused_w refl)
      | inr e ↦ e
    ];
    no_cwd = elim (Bool-cases (is_cwd info.working_dir w)) [
      | inl e ↦ absurd (open-ne w w (callable.cwd_opened w e) unused_w refl)
      | inr e ↦ e
    ];
    std_no_cwd = callable.std_no_cwd;
  }

  kept : (n : ℕ) → kept_entry (child_fds sys r w t n) ≡ kept_entry (t n)
  unfolding kept_entry
  kept n = elim (Bool-cases (n == r)) [
    | inl e ↦ let same : n ≡ r = ground arith in rw (e, same, unused_r) refl
    | inr e ↦ elim (Bool-cases (n == w)) [
      | inl e' ↦
          let same : n ≡ w = ground arith in
          rw (same) (ap kept_entry pipe_end ∙ sym (ap kept_entry unused_w))
      | inr e' ↦ ap kept_entry (others n (ground arith) (ground arith))
    ]
  ]

  -- The pipe does not show in what the program gets.
  pub spawned_fds-child : spawned_fds info (child_fds sys r w t) ≡ spawned_fds info t
  spawned_fds-child = fun_ext λ n. elim (Bool-cases (ltb n 3)) [
    | inl e ↦
        let same =
          open-same (get_or info.std_fds n 0)
            (All-at (IsOpen t) info.std_fds n (ground (arith, callable.three)) callable.opened) in
        rw (e, same) refl
    | inr e ↦ rw (e, kept n) refl
  ]
