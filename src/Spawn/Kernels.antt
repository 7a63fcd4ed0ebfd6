-- ===== src/Spawn/Kernels.antt =====
-- A kernel that gives the lowest free descriptor, as Linux does.
use ppx_universe.Base.{
  ℕ, zero, suc, ◌≡◌, ◌≢◌, refl, sym, ap, ◌∙◌, arith, Bool, true, false, Option, none, some,
}
use mathlib.Core.Path.{subst}
use ppx_universe.BigstringUnix.Replies.{other}
use ppx_universe.Spawn.Table.{
  Entry, Table, Kernel, IsPosix, Reply, ok, error, update, update_self, update_ne,
}
use ppx_universe.Spawn.Parent.{Copy, System}
use ppx_universe.Spawn.Parent.Restored.{IsPipe}

abbrev pub search : ℕ → ℕ → Table → Option ℕ
search zero n t = none
search (suc fuel) n t = elim (t n) [ none ↦ some n | some e ↦ search fuel (suc n) t ]

pub search-unused : (fuel n : ℕ) (t : Table) (m : ℕ) → search fuel n t ≡ some m → t m ≡ none
search-unused zero n t m h = absurd (cc h)
search-unused (suc fuel) n t m h = go (t n) refl (search-unused fuel (suc n) t m) h
  where
    go :
        (x : Option Entry)
        → t n ≡ x
        → (search fuel (suc n) t ≡ some m → t m ≡ none)
        → (elim x as (λ _. Option ℕ) [ none ↦ some n | some e ↦ search fuel (suc n) t ]) ≡ some m
        → t m ≡ none
    go none e rest h' = let same : n ≡ m = cc h' in subst (λ x. t x ≡ none) same e
    go (some a) e rest h' = rest h'

-- The lowest free descriptor below 64.
abbrev pub kernel : Option ℕ → Kernel
kernel missing = record {
  dup_fd = search 64 0;
  dup_error = other 24;
  dup2_error = λ a b. none;
  setpgid_error = none;
  chdir_error = none;
  fchdir_error = none;
  execve_error = elim missing [ none ↦ none | some e ↦ some (other e) ];
  nsig = 6;
}

pub kernel-IsPosix : (missing : Option ℕ) → IsPosix (kernel missing)
kernel-IsPosix missing = record { unused = λ t n h. search-unused 64 0 t n h }

abbrev pub pipe_from : Table → Option ℕ → Reply (ℕ × ℕ)
pipe_from t none = error (other 24)
pipe_from t (some r) =
    elim (search 64 0 (update t r (some (record { file = 0; cloexec = true })))) [
      | none ↦ error (other 24)
      | some w ↦ ok (r, w)
    ]

abbrev pub system : Option ℕ → (Copy → Bool) → System
system missing no_memory = record {
  kernel = kernel missing;
  open_max = 64;
  pipe_fds = λ t. pipe_from t (search 64 0 t);
  read_file = 998;
  write_file = 999;
  fork_pid = ok 77;
  read_fault = none;
  no_memory = no_memory;
}

abbrev pub enough : Copy → Bool
enough x = false

abbrev pub ends : Reply (ℕ × ℕ) → ℕ × ℕ
ends (ok p) = p
ends (error e) = (0, 0)

pub pipe_from-unused :
    (t : Table) (x : Option ℕ) (r w : ℕ)
    → search 64 0 t ≡ x
    → pipe_from t x ≡ ok (r, w)
    → (t r ≡ none) × (t w ≡ none) × (r ≢ w)
pipe_from-unused t none r w found h = absurd (cc h)
pipe_from-unused t (some r0) r w found h =
    go (search 64 0 (update t r0 (some (record { file = 0; cloexec = true })))) refl h
  where
    go :
        (y : Option ℕ)
        → search 64 0 (update t r0 (some (record { file = 0; cloexec = true }))) ≡ y
        → (elim y as (λ _. Reply (ℕ × ℕ)) [ none ↦ error (other 24) | some w0 ↦ ok (r0, w0) ])
          ≡ ok (r, w)
        → (t r ≡ none) × (t w ≡ none) × (r ≢ w)
    go none e h' = absurd (cc h')
    go (some w0) e h' =
        let same_r : r0 ≡ r = ap (λ x. (ends x).0) h' in
        let same_w : w0 ≡ w = ap (λ x. (ends x).1) h' in
        let entry : Option Entry = some (record { file = 0; cloexec = true }) in
        let free_r : t r0 ≡ none = search-unused 64 0 t r0 found in
        let free_w : update t r0 entry w0 ≡ none = search-unused 64 0 (update t r0 entry) w0 e in
        let ne : w0 ≢ r0 =
          λ same. absurd (cc (update_self t r0 entry, ap (update t r0 entry) same, free_w)) in
        (
          ap t (sym same_r) ∙ free_r,
          ap t (sym same_w) ∙ sym (update_ne t r0 w0 entry ne) ∙ free_w,
          ground arith,
        )

pub system-IsPipe :
    (missing : Option ℕ) (no_memory : Copy → Bool) → IsPipe (system missing no_memory)
system-IsPipe missing no_memory = record {
  unused = λ t r w h. pipe_from-unused t (search 64 0 t) r w refl h;
}
