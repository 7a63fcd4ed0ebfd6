-- ===== src/IntMath/Power.antt =====
-- int_pow computes the power modulo 2 ^ 64 for an exponent that is not negative, and runs on
-- forever for a negative one.
use mathlib.Core.Bool.{false}
use native.Mathlib.Nat.{mod-mod, mod-eq_of_lt, pow-zero, pow-succ'}
use ppx_universe.Base.{
  ℕ, zero, suc, ◌+◌, ◌*◌, ◌/◌, ◌%◌, ◌^◌, ◌≤◌, ◌<◌, ◌≡◌, inl, inr, refl, sym, ap, ◌∙◌, arith, true,
  false, none, some, bit_and, if◌then◌else◌, ltb, ◌==◌, Bool-cases,
}
use ppx_universe.Bits.{bit_and_mask, pow-add}
use ppx_universe.Mlvalues.{long_val, val_long}
use ppx_universe.IntMath.{
  word, shift_exponent, PowState, mul_at, pow_round, int_pow_loop, int_pow, returned, int_pow_stub,
}
use ppx_universe.IntMath.Congruence.{mod-mul, mul-congruence, pow-congruence}

cube : (a : ℕ) → a ^ 3 ≡ a * a * a
cube a = rw (pow-succ' a 2, pow-succ' a 1, pow-succ' a 0, pow-zero) (omega arith)

square : (a : ℕ) → a ^ 2 ≡ a * a
square a = rw (pow-succ' a 1, pow-succ' a 0, pow-zero) (omega arith)

itself : (a : ℕ) → a ^ 1 ≡ a
itself a = rw (pow-succ' a 0, pow-zero) (omega arith)

-- The table of powers holds the power asked for.
mul_at_lem :
    (a r : ℕ) → r < 4 → mul_at a (a * a % word) (a * a % word * a % word) r % word ≡ a ^ r % word
unfolding mul_at
mul_at_lem a zero h = rw pow-zero refl
mul_at_lem a (suc zero) h = ap (λ (t : ℕ). t % word) (sym (itself a))
mul_at_lem a (suc (suc zero)) h = mod-mod (a * a) word ∙ ap (λ (t : ℕ). t % word) (sym (square a))
mul_at_lem a (suc (suc (suc zero))) h =
    mod-mod (a * a % word * a) word
    ∙ mod-mul word (a * a) a
    ∙ ap (λ (t : ℕ). t % word) (sym (cube a))
mul_at_lem a (suc (suc (suc (suc r)))) h = absurd (omega arith)

abbrev quadruple : ℕ → ℕ
quadruple zero = 0
quadruple (suc n) = suc (suc (suc (suc (quadruple n))))

quadruple_lem : (n : ℕ) → quadruple n ≡ 4 * n
quadruple_lem zero = refl
quadruple_lem (suc n) = omega (arith, quadruple_lem n)

fourth_powers : (a q : ℕ) → (a * (a * a * a)) ^ q ≡ a ^ quadruple q
fourth_powers a zero = rw (pow-zero, pow-zero) refl
fourth_powers a (suc q) =
    rw
      (
        pow-succ' (a * (a * a * a)) q,
        pow-succ' a (suc (suc (suc (quadruple q)))),
        pow-succ' a (suc (suc (quadruple q))),
        pow-succ' a (suc (quadruple q)),
        pow-succ' a (quadruple q),
        fourth_powers a q,
      )
      (omega arith)

-- The power that a state still has to compute.
abbrev rest_of : PowState → ℕ
rest_of s = s.ret * (s.mul1 * s.mul3) ^ s.exponent % word

pow_round_lem : (s : PowState) → s.exponent < 2 ^ 63 → rest_of (pow_round s) ≡ rest_of s
unfolding pow_round shift_exponent
pow_round_lem s h =
    let e = s.exponent in
    let whole = s.mul1 * s.mul3 in
    let a = whole % word in
    let m3 = a * a % word * a % word in
    let r = bit_and e 3 in
    let low : r ≡ e % 4 = bit_and_mask 2 e in
    let p = mul_at a (a * a % word) m3 r in
    let shifted : (if ltb e (2 ^ 63) then e / 4 else e / 4 + 3 * 2 ^ 62) ≡ e / 4 = ground arith in
    let q = e / 4 in
    let factor : s.ret * p % word % word ≡ s.ret * a ^ r % word =
      mod-mod (s.ret * p) word
      ∙ mul-congruence word s.ret s.ret p (a ^ r) refl (mul_at_lem a r (omega arith)) in
    let third : m3 % word ≡ a * a * a % word =
      mod-mod (a * a % word * a) word ∙ mod-mul word (a * a) a in
    let fourth : (a * m3) ^ q % word ≡ a ^ quadruple q % word =
      pow-congruence word (a * m3) (a * (a * a * a)) q
        (mul-congruence word a a m3 (a * a * a) refl third)
      ∙ ap (λ (t : ℕ). t % word) (fourth_powers a q) in
    let sum : r + quadruple q ≡ e = omega (arith, quadruple_lem q) in
    let joined : s.ret * a ^ r * a ^ quadruple q ≡ s.ret * a ^ e = omega (
      arith,
      ap (λ (t : ℕ). s.ret * t) (sym (pow-add a r (quadruple q)) ∙ ap (λ (t : ℕ). a ^ t) sum),
    ) in
    rw shifted (
      mul-congruence word (s.ret * p % word) (s.ret * a ^ r) ((a * m3) ^ q) (a ^ quadruple q) factor
        fourth
      ∙ ap (λ (t : ℕ). t % word) joined
      ∙ mul-congruence word s.ret s.ret (a ^ e) (whole ^ e) refl
          (pow-congruence word a whole e (mod-mod whole word)))

nothing_left : (s : PowState) → s.ret < word → s.exponent ≡ 0 → s.ret ≡ rest_of s
nothing_left s h e =
    let one : (s.mul1 * s.mul3) ^ s.exponent ≡ 1 =
      ap (λ (t : ℕ). (s.mul1 * s.mul3) ^ t) e ∙ pow-zero (s.mul1 * s.mul3) in
    let same : s.ret * (s.mul1 * s.mul3) ^ s.exponent ≡ s.ret =
      ap (λ (t : ℕ). s.ret * t) one ∙ omega arith in
    sym (ap (λ (t : ℕ). t % word) same ∙ mod-eq_of_lt h)

shift_exponent_lem : (e : ℕ) → e < 2 ^ 63 → shift_exponent e ≡ e / 4
unfolding shift_exponent
shift_exponent_lem e h = ground arith

next_exponent : (s : PowState) → (pow_round s).exponent ≡ shift_exponent s.exponent
unfolding pow_round
next_exponent s = refl

next_ret : (s : PowState) → (pow_round s).ret < word
unfolding pow_round
next_ret s = omega arith

int_pow_loop_lem :
    (fuel : ℕ) (s : PowState)
    → s.exponent < 4 ^ fuel
    → s.exponent < 2 ^ 63
    → s.ret < word
    → int_pow_loop (suc fuel) s ≡ some (rest_of s)
unfolding int_pow_loop
int_pow_loop_lem zero s hf he hr =
    let none_left : s.exponent ≡ 0 = omega (arith, pow-zero 4) in
    let test : (s.exponent == 0) ≡ true = ground arith in
    rw (test, int_pow_loop) (ap some (nothing_left s hr none_left))
int_pow_loop_lem (suc fuel) s hf he hr = elim (Bool-cases (s.exponent == 0)) [
  | inl e ↦ rw (e, int_pow_loop) (ap some (nothing_left s hr (ground arith)))
  | inr e ↦
      let less : (pow_round s).exponent ≡ s.exponent / 4 =
        next_exponent s ∙ shift_exponent_lem s.exponent he in
      let rest =
        int_pow_loop_lem fuel (pow_round s) (omega (arith, less, pow-succ' 4 fuel))
          (omega (arith, less)) (next_ret s) in
      rw (e, int_pow_loop) (rest ∙ ap some (pow_round_lem s he))
]

-- For every base and every exponent that is not negative, int_pow ends within its rounds and
-- returns the power modulo 2 ^ 64.
pub int_pow_lem :
    (base exponent : ℕ)
    → exponent < 2 ^ 63
    → int_pow base exponent ≡ some (base ^ exponent % 2 ^ 64)
unfolding int_pow
int_pow_lem base exponent h =
    let s : PowState = record { ret = 1; mul1 = base; mul3 = 1; exponent = exponent } in
    let start : base * 1 ≡ base = omega arith in
    let unit : 1 * (base * 1) ^ exponent ≡ base ^ exponent =
      omega (arith, ap (λ (t : ℕ). t ^ exponent) start) in
    int_pow_loop_lem 32 s (omega arith) h (omega arith) ∙ ap (λ (t : ℕ). some (t % word)) unit

still_negative :
    (e : ℕ) → 2 ^ 63 ≤ e → e < 2 ^ 64 → (2 ^ 63 ≤ shift_exponent e) × (shift_exponent e < 2 ^ 64)
unfolding shift_exponent
still_negative e lo hi = ground arith

-- From a negative exponent the loop of int_pow does not end, however many rounds it is given.
pub int_pow_loop-negative :
    (fuel : ℕ) (s : PowState)
    → 2 ^ 63 ≤ s.exponent
    → s.exponent < 2 ^ 64
    → int_pow_loop fuel s ≡ none
unfolding int_pow_loop
int_pow_loop-negative zero s lo hi = refl
int_pow_loop-negative (suc fuel) s lo hi =
    let test : (s.exponent == 0) ≡ false = ground arith in
    let (lo', hi') = still_negative s.exponent lo hi in
    rw (test, int_pow_loop)
      (int_pow_loop-negative fuel (pow_round s) (omega (arith, next_exponent s))
        (omega (arith, next_exponent s)))

long_val-mod : (n : ℕ) → n < 2 ^ 63 → long_val n % 2 ^ 63 ≡ n % 2 ^ 63
unfolding long_val
long_val-mod n h = ground arith

long_val-small : (n : ℕ) → n < 2 ^ 62 → long_val n ≡ n
unfolding long_val
long_val-small n h = ground arith

halved_word : (n : ℕ) → n % 2 ^ 64 % 2 ^ 63 ≡ n % 2 ^ 63
halved_word n = omega arith

-- For every 63-bit base, negative ones included, and every exponent that is not negative,
-- Base_int_math_int_pow_stub returns the power modulo 2 ^ 63.
pub int_pow_stub_lem :
    (base exponent : ℕ)
    → base < 2 ^ 63
    → exponent < 2 ^ 62
    → int_pow_stub base exponent ≡ some (base ^ exponent % 2 ^ 63)
unfolding int_pow_stub returned val_long
int_pow_stub_lem base exponent hb he =
    rw (long_val-small exponent he, int_pow_lem (long_val base) exponent (omega arith))
      (ap some (
        halved_word (long_val base ^ exponent)
        ∙ pow-congruence (2 ^ 63) (long_val base) base exponent (long_val-mod base hb)))
