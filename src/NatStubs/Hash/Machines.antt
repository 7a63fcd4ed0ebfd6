-- ===== src/NatStubs/Hash/Machines.antt =====
-- A nat hashes to the same number on machines of 64 and of 32 bits.
use ppx_universe.Base.{
  ℕ, zero, suc, ◌-◌, ◌*◌, ◌/◌, ◌%◌, ◌^◌, ◌≤◌, ◌<◌, ◌≡◌, refl, sym, ap, ◌∙◌, List, [], ◌∷◌, arith,
  if◌then◌else◌, ◌==◌, not, Bool-cases, inl, inr, length, take, get_or,
}
use ppx_universe.Bng.Number.{IsNumber}
use ppx_universe.Bng.Compare.{num_digits_loop, bng_num_digits}
use ppx_universe.NatStubs.Words.{words, length-words}
use ppx_universe.NatStubs.Hash.{hash_loop, hash_nat, hash_loop_32, hash_nat_32}

abbrev double : ℕ → ℕ
double zero = 0
double (suc n) = suc (suc (double n))

double_lem : (n : ℕ) → double n ≡ n * 2
double_lem zero = omega arith
double_lem (suc n) = omega (arith, double_lem n)

-- The words of the digits up to place `m`, less the high half of that digit where it is zero.
abbrev word_count : List ℕ → ℕ → ℕ
word_count [] m = 1
word_count (d ∷ a) zero = if d / 2 ^ 32 == 0 then 1 else 2
word_count (d ∷ a) (suc m) = suc (suc (word_count a m))

word_count_lem :
    (a : List ℕ) (m : ℕ)
    → m < length a
    → word_count a m ≡ (if get_or a m 0 / 2 ^ 32 == 0 then suc (double m) else suc (suc (double m)))
word_count_lem [] m h = absurd (omega arith)
word_count_lem (d ∷ a) zero h = refl
word_count_lem (d ∷ a) (suc m) h = ground (arith, word_count_lem a m)

low_word : (a : List ℕ) (k : ℕ) → get_or (words a) (double k) 0 ≡ get_or a k 0 % 2 ^ 32
low_word [] k = omega arith
low_word (d ∷ a) zero = refl
low_word (d ∷ a) (suc k) = low_word a k

high_word : (a : List ℕ) (k : ℕ) → get_or (words a) (suc (double k)) 0 ≡ get_or a k 0 / 2 ^ 32
high_word [] k = omega arith
high_word (d ∷ a) zero = refl
high_word (d ∷ a) (suc k) = high_word a k

-- The two tests on the halves of a digit `x`, of which `rest` is the answer where both are zero.
word_test :
    (x n rest : ℕ)
    → (if not (x / 2 ^ 32 == 0) then suc (suc n) else if not (x % 2 ^ 32 == 0) then suc n else rest)
      ≡ (if x == 0 then rest else if x / 2 ^ 32 == 0 then suc n else suc (suc n))
word_test x n rest = ground arith

num_digits_loop-words :
    (a : List ℕ) (k : ℕ)
    → k < length a
    → num_digits_loop (words a) (double (suc k)) ≡ word_count a (num_digits_loop a (suc k) - 1)
unfolding num_digits_loop
num_digits_loop-words [] zero h = absurd (omega arith)
num_digits_loop-words (d ∷ a) zero h =
    rw (word_test d 0 1)
      (elim (Bool-cases (d == 0)) [ inl e ↦ rw e (ground arith) | inr e ↦ rw e refl ])
num_digits_loop-words a (suc k) h =
    let x = get_or a (suc k) 0 in
    let rest = num_digits_loop-words a k (omega arith) in
    let less : suc (suc k) - 1 ≡ suc k = omega arith in
    rw
      (
        high_word a (suc k),
        low_word a (suc k),
        word_test x (double (suc k)) (num_digits_loop (words a) (double (suc k))),
      )
      (elim (Bool-cases (x == 0)) [
        | inl e ↦ rw e rest
        | inr e ↦ rw (e, less) (sym (word_count_lem a (suc k) h))
      ])

hash_loop-words :
    (mix : ℕ → ℕ → ℕ) (a : List ℕ) (m h : ℕ)
    → IsNumber a
    → m < length a
    → hash_loop mix (take (suc m) a) h ≡ hash_loop_32 mix (take (word_count a m) (words a)) h
unfolding hash_loop hash_loop_32
hash_loop-words mix [] m h ha l = absurd (omega arith)
hash_loop-words mix (d ∷ a) zero h (hd, ha) l = ground arith
hash_loop-words mix (d ∷ []) (suc m) h (hd, ha) l = absurd (omega arith)
hash_loop-words mix (d ∷ e ∷ a) (suc m) h (hd, ha) l =
    let h' = mix (mix h (d % 2 ^ 32)) (d / 2 ^ 32 % 2 ^ 32) in
    let rest = hash_loop-words mix (e ∷ a) m h' ha (omega arith) in ground arith

num_digits_loop-bounds :
    (a : List ℕ) (k : ℕ) → (1 ≤ num_digits_loop a (suc k)) × (num_digits_loop a (suc k) ≤ suc k)
unfolding num_digits_loop
num_digits_loop-bounds a zero = ground arith
num_digits_loop-bounds a (suc k) = ground (arith, num_digits_loop-bounds a k)

-- For every mixing function and every number of at least one digit, hash_nat on a 64-bit machine
-- gives what its branch for 32-bit machines gives on the 32-bit words of the number.
pub hash_nat-words :
    (mix : ℕ → ℕ → ℕ) (v : List ℕ)
    → IsNumber v
    → 0 < length v
    → hash_nat mix v ≡ hash_nat_32 mix (words v)
unfolding hash_nat hash_nat_32 bng_num_digits
hash_nat-words mix [] hv pos = absurd (omega arith)
hash_nat-words mix (x ∷ xs) hv pos =
    let v = x ∷ xs in
    let k = length xs in
    let even : length (words v) ≡ double (suc k) =
      omega (arith, length-words v, double_lem (suc k)) in
    let (least, most) = num_digits_loop-bounds v k in
    let n = num_digits_loop v (suc k) in
    let top : n ≡ suc (n - 1) = omega arith in
    let whole =
      ap (λ (c : ℕ). hash_loop mix (take c v) 0) top
      ∙ hash_loop-words mix v (n - 1) 0 hv (omega arith) in
    let count =
      ap (λ (c : ℕ). num_digits_loop (words v) c) even ∙ num_digits_loop-words v k (omega arith) in
    whole ∙ ap (λ (c : ℕ). hash_loop_32 mix (take c (words v)) 0) (sym count)
