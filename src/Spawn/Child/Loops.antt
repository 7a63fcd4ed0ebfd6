-- ===== src/Spawn/Child/Loops.antt =====
-- What the loops of the child do to its descriptors and handlers.
use ppx_universe.Base.{
  ℕ, zero, suc, ◌+◌, ◌≤◌, ◌<◌, ◌≡◌, ◌≢◌, inl, inr, refl, ap, ◌∙◌, arith, List, [], ◌∷◌, true, false,
  Option, none, some, if◌then◌else◌, ◌==◌, leb, ltb, Bool-cases, length, ◌&&◌,
}
use ppx_universe.BigstringUnix.Replies.{Errno}
use ppx_universe.Spawn.Failure.{Failure}
use ppx_universe.Spawn.Table.{
  Entry, Table, Kernel, IsPosix, update, copied, close, mem, dup2, dup2_from,
}
use ppx_universe.Spawn.Child.{
  Handler, default_action, Process, subprocess_failure, Duped, duped, not_duped, out_of_fuel,
  safe_dup, dup_rounds, duped_to, dup_all, dup2_to, redirect, default_actions,
}
use ppx_universe.Spawn.Child.Specification.{
  Ends, bind-Ends, weaken-Ends, then-Ends, IsDupFailure, IsDup2Failure,
}
use ppx_universe.Spawn.Child.Dup.{Copied, IsSafelyDuped, safe_dup_lem}
use ppx_universe.Spawn.Child.Redirect.{AllTall-tail, step, step-other, AllTall, moved}
use ppx_universe.Spawn.Child.Members.{mem-uncons, mem-suffix}
use ppx_universe.Spawn.Child.Duplicates.{Copied-kept, Duplicated, Distinct, IsOpen}

pub default_actions_lem :
    (count i : ℕ) (handlers : ℕ → Handler) (s : ℕ)
    → default_actions count i handlers s
      ≡ (if leb i s && ltb s (i + count) then default_action else handlers s)
unfolding default_actions
default_actions_lem zero i handlers s = elim (Bool-cases (leb i s)) [
  | inl e ↦ let f : ltb s (i + 0) ≡ false = ground arith in rw (e, f)
  | inr e ↦ rw e
]
default_actions_lem (suc count) i handlers s =
    default_actions_lem count (suc i) (λ j. if j == i then default_action else handlers j) s
    ∙ elim (Bool-cases (s == i)) [
      | inl e ↦
          let a : leb (suc i) s ≡ false = ground arith in
          let b : leb i s ≡ true = ground arith in
          let c : ltb s (i + suc count) ≡ true = ground arith in rw (e, a, b, c)
      | inr e ↦
          let a : leb (suc i) s ≡ leb i s = ground arith in
          let b : ltb s (suc i + count) ≡ ltb s (i + suc count) = ground arith in rw (e, a, b)
    ]

abbrev with_fds : Table → Process → Process
with_fds t p = record p { fds = t }

module _ (failure_fd : ℕ) (pipe : Entry) where
  abbrev pub AllDuped : List ℕ → Process → List ℕ → Process → Type 0
  AllDuped fds p ns p' = Duplicated p.fds fds ns p'.fds × (p' ≡ record p { fds = p'.fds })

  -- The pipe is open, and dup fails for one of the descriptors.
  abbrev pub DupReport : Kernel → List ℕ → Failure → Process → Type 0
  DupReport k fds f p = (p.fds failure_fd ≡ some pipe) × IsDupFailure k fds f p.fds

  abbrev pub Dup2Report : Kernel → Failure → Process → Type 0
  Dup2Report k f p = (p.fds failure_fd ≡ some pipe) × IsDup2Failure k f p.fds

  duped_to-Ends :
      (k : Kernel) (fd : ℕ) (fds : List ℕ) (d : Duped) (p : Process)
      → p.fds failure_fd ≡ some pipe
      → IsSafelyDuped k p.fds fd d
      → Ends
          (λ n p'. (3 ≤ n) × Copied p.fds fd n p'.fds × (p' ≡ record p { fds = p'.fds }))
          (DupReport k (fd ∷ fds))
          (duped_to d p)
  unfolding duped_to subprocess_failure
  duped_to-Ends k fd fds (duped n t) p h (low, copy) = (low, copy, refl)
  duped_to-Ends k fd fds (not_duped e t) p h (keeps, failed) =
      let there : (fd == fd) ≡ true = ground arith in
      let first : mem fd (fd ∷ fds) ≡ true = rw there in
      (keeps failure_fd pipe h, (fd, first, failed, refl, refl))
  duped_to-Ends k fd fds out_of_fuel p h d = d

  DupReport-tail :
      (k : Kernel) (fd : ℕ) (fds : List ℕ) (f : Failure) (p : Process)
      → DupReport k fds f p
      → DupReport k (fd ∷ fds) f p
  DupReport-tail k fd fds f p (used, (n, there, failed, function, arg)) =
      (used, (n, mem-suffix n fd fds there, failed, function, arg))

  pub dup_all-Ends :
      (k : Kernel) (fds : List ℕ) (p : Process)
      → IsPosix k
      → p.fds failure_fd ≡ some pipe
      → Ends (AllDuped fds p) (DupReport k fds) (dup_all k fds p)
  unfolding dup_all
  dup_all-Ends k [] p posix h = (refl, refl)
  dup_all-Ends k (fd ∷ fds) p posix h =
      bind-Ends _ (AllDuped (fd ∷ fds) p) (DupReport k (fd ∷ fds))
        (λ q. duped_to (safe_dup dup_rounds k fd q.fds) q) _ p
        (duped_to-Ends k fd fds (safe_dup dup_rounds k fd p.fds) p h
          (safe_dup_lem k fd p.fds posix))
        (λ n p1 (low, copy, same).
          let h' : p1.fds failure_fd ≡ some pipe =
            (Copied-kept p.fds p1.fds fd n failure_fd pipe copy h).1 in
          bind-Ends (AllDuped fds p1) (AllDuped (fd ∷ fds) p) (DupReport k (fd ∷ fds))
            (dup_all k fds) _ p1
            (weaken-Ends (AllDuped fds p1) (DupReport k (fd ∷ fds)) (dup_all k fds p1)
              (dup_all-Ends k fds p1 posix h') (λ ns p' g. g) (DupReport-tail k fd fds))
            (λ ns p2 (rest, same'). ((p1.fds, low, copy, rest), same' ∙ ap (with_fds p2.fds) same)))

  dup2_to-Ends :
      (k : Kernel) (n fd : ℕ) (entry : Option Entry) (err : Option Errno) (p : Process)
      → n ≢ fd
      → fd < 3
      → IsOpen p.fds n
      → p.fds n ≡ entry
      → k.dup2_error n fd ≡ err
      → p.fds failure_fd ≡ some pipe
      → Ends
          (λ _ p'. (p' ≡ record p { fds = update p.fds fd (copied (p.fds n)) }) × Unit {0})
          (Dup2Report k)
          (dup2_to (dup2_from p.fds n fd entry err) p)
  unfolding dup2_to dup2_from subprocess_failure
  dup2_to-Ends k n fd none err p ne low (e, used) source answer h = absurd (cc (used, source))
  dup2_to-Ends k n fd (some e) (some err) p ne low used source answer h =
      (h, (n, fd, e, source, low, answer, refl, refl))
  dup2_to-Ends k n fd (some e) none p ne low used source answer h =
      let other : (n == fd) ≡ false = ground arith in (rw (other, source) refl, tt)

  abbrev pub AllIn : List ℕ → Table → Type 0
  AllIn ns t = (m : ℕ) → mem m ns ≡ true → IsOpen t m

  -- The other temporary descriptors stay open in a round.
  step-AllIn :
      (fd n : ℕ) (ns : List ℕ) (t : Table)
      → fd < 3
      → mem n ns ≡ false
      → AllTall ns
      → AllIn (n ∷ ns) t
      → AllIn ns (step fd n t)
  step-AllIn fd n ns t low new tall all m found =
      let big : 3 ≤ m = tall m found in
      let ne : m ≢ n = λ same. absurd (cc (ap (λ x. mem x ns) same, found, new)) in
      let (e, used) = all m (mem-suffix m n ns found) in
      (e, step-other fd n t m ne (ground arith) ∙ used)

  pub redirect-Ends :
      (k : Kernel) (fd : ℕ) (ns : List ℕ) (p : Process)
      → AllTall ns
      → Distinct ns
      → AllIn ns p.fds
      → fd + length ns ≤ 3
      → 3 ≤ failure_fd
      → mem failure_fd ns ≡ false
      → p.fds failure_fd ≡ some pipe
      → Ends
          (λ _ p'. (p' ≡ record p { fds = moved fd ns p.fds }) × Unit {0})
          (Dup2Report k)
          (redirect k fd ns p)
  unfolding redirect dup2 close
  redirect-Ends k fd [] p tall distinct all bound big out h = (refl, tt)
  redirect-Ends k fd (n ∷ ns) p tall (new, distinct) all bound big out h =
      let (low, tall') = AllTall-tail n ns tall in
      let (ne, out') = mem-uncons failure_fd n ns out in
      let there : (n == n) ≡ true = ground arith in
      let first : mem n (n ∷ ns) ≡ true = rw there in
      then-Ends _ (Dup2Report k) (Unit {0}) (λ q. dup2_to (dup2 k n fd q.fds) q) _
        (record p { fds = update p.fds fd (copied (p.fds n)) }) p
        (dup2_to-Ends k n fd (p.fds n) (k.dup2_error n fd) p (ground arith) (omega arith)
          (all n first) refl refl h)
        (λ e p' r. r)
        (λ _ _.
          redirect-Ends k (suc fd) ns (record p { fds = step fd n p.fds }) tall' distinct
            (step-AllIn fd n ns p.fds (omega arith) new tall' all) (omega arith) big out'
            (step-other fd n p.fds failure_fd ne (ground arith) ∙ h))
