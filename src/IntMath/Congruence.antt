-- ===== src/IntMath/Congruence.antt =====
-- Products and powers of numbers that agree modulo `m`.
use native.Mathlib.Nat.{mod-add-div, add-mul-mod_self_right, pow-zero, pow-succ'}
use ppx_universe.Base.{ℕ, zero, suc, ◌+◌, ◌*◌, ◌/◌, ◌%◌, ◌^◌, ◌≡◌, refl, sym, ap, ◌∙◌, arith}

pub mod-mul : (m x y : ℕ) → x % m * y % m ≡ x * y % m
mod-mul m x y =
    let split : x * y ≡ x % m * y + x / m * y * m =
      omega (arith, ap (λ (t : ℕ). t * y) (mod-add-div x m)) in
    sym (ap (λ (t : ℕ). t % m) split ∙ add-mul-mod_self_right (x % m * y) (x / m * y) m)

pub mul-congruence : (m x x' y y' : ℕ) → x % m ≡ x' % m → y % m ≡ y' % m → x * y % m ≡ x' * y' % m
mul-congruence m x x' y y' e f =
    let swap : x' * y ≡ y * x' = omega arith in
    let swap' : y' * x' ≡ x' * y' = omega arith in
    sym (mod-mul m x y)
    ∙ ap (λ (t : ℕ). t * y % m) e
    ∙ mod-mul m x' y
    ∙ ap (λ (t : ℕ). t % m) swap
    ∙ sym (mod-mul m y x')
    ∙ ap (λ (t : ℕ). t * x' % m) f
    ∙ mod-mul m y' x'
    ∙ ap (λ (t : ℕ). t % m) swap'

pub pow-congruence : (m x y n : ℕ) → x % m ≡ y % m → x ^ n % m ≡ y ^ n % m
pow-congruence m x y zero e = rw (pow-zero, pow-zero) refl
pow-congruence m x y (suc n) e =
    rw (pow-succ' x n, pow-succ' y n)
      (mul-congruence m x y (x ^ n) (y ^ n) e (pow-congruence m x y n e))
