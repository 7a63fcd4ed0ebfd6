-- ===== src/Bng/Add/Exact.antt =====
-- Sums and differences are exact: the digits and the carry hold the true result.
use ppx_universe.Base.{ℕ, ◌+◌, ◌≤◌, ◌≡◌, List, [], ◌∷◌, arith, length}
use ppx_universe.Bng.Digit.{bng_add2_carry, bng_sub2_carry}
use ppx_universe.Bng.Digit.Carry.{bng_add2_carry_lem, bng_sub2_carry_lem}
use ppx_universe.Bng.Number.{IsNumber, value, base_pow, IsTotal, IsDifference}
use ppx_universe.Bng.Add.{
  increment, decrement, bng_add_carry, bng_add, bng_sub_carry, bng_sub, bng_complement,
}

increment_lem : (a : List ℕ) → IsNumber a → IsTotal (value a + 1) (length a) (increment a)
unfolding increment
increment_lem [] h = ground arith
increment_lem (x ∷ xs) (hx, h) = ground (arith, increment_lem xs h)

decrement_lem : (a : List ℕ) → IsNumber a → IsDifference (value a) 1 (length a) (decrement a)
unfolding decrement
decrement_lem [] h = ground arith
decrement_lem (x ∷ xs) (hx, h) = ground (arith, decrement_lem xs h)

-- bng_add_carry adds a carry of 0 or 1 to a number.
pub bng_add_carry_lem :
    (a : List ℕ) (c : ℕ) → IsNumber a → c ≤ 1 → IsTotal (value a + c) (length a) (bng_add_carry a c)
unfolding bng_add_carry
bng_add_carry_lem [] c h hc = ground arith
bng_add_carry_lem (x ∷ xs) c h hc = ground (arith, increment_lem (x ∷ xs) h)

pub bng_sub_carry_lem :
    (a : List ℕ) (c : ℕ)
    → IsNumber a
    → c ≤ 1
    → IsDifference (value a) c (length a) (bng_sub_carry a c)
unfolding bng_sub_carry
bng_sub_carry_lem [] c h hc = ground arith
bng_sub_carry_lem (x ∷ xs) c h hc = ground (arith, decrement_lem (x ∷ xs) h)

-- Where b has at most as many digits as a and the carry in is 0 or 1, bng_add leaves in a and its
-- carry out exactly a + b + carry, with as many digits as before.
pub bng_add_lem :
    (a b : List ℕ) (c : ℕ)
    → IsNumber a
    → IsNumber b
    → length b ≤ length a
    → c ≤ 1
    → IsTotal (value a + value b + c) (length a) (bng_add a b c)
unfolding bng_add
bng_add_lem a [] c ha hb hl hc = ground (arith, bng_add_carry_lem a c ha hc)
bng_add_lem [] (y ∷ ys) c ha hb hl hc = absurd (omega arith)
bng_add_lem (x ∷ xs) (y ∷ ys) c (hx, ha) (hy, hb) hl hc =
    let s = bng_add2_carry_lem x y c hx hy hc in
    let rest = bng_add_lem xs ys (bng_add2_carry x y c).carry ha hb (omega arith) (omega arith) in
    ground arith

-- Where b has at most as many digits as a and the borrow in is 0 or 1, bng_sub leaves in a exactly
-- a - (b + borrow), up to the borrow that it returns, with as many digits as before.
pub bng_sub_lem :
    (a b : List ℕ) (c : ℕ)
    → IsNumber a
    → IsNumber b
    → length b ≤ length a
    → c ≤ 1
    → IsDifference (value a) (value b + c) (length a) (bng_sub a b c)
unfolding bng_sub
bng_sub_lem a [] c ha hb hl hc = ground (arith, bng_sub_carry_lem a c ha hc)
bng_sub_lem [] (y ∷ ys) c ha hb hl hc = absurd (omega arith)
bng_sub_lem (x ∷ xs) (y ∷ ys) c (hx, ha) (hy, hb) hl hc =
    let s = bng_sub2_carry_lem x y c hx hy hc in
    let rest = bng_sub_lem xs ys (bng_sub2_carry x y c).carry ha hb (omega arith) (omega arith) in
    ground arith

-- bng_complement subtracts a number from the largest number of its length, and keeps the length.
pub bng_complement_lem :
    (a : List ℕ)
    → IsNumber a
    → (value (bng_complement a) + value a + 1 ≡ base_pow (length a))
      × IsNumber (bng_complement a)
      × (length (bng_complement a) ≡ length a)
unfolding bng_complement
bng_complement_lem [] h = ground arith
bng_complement_lem (x ∷ xs) (hx, h) = ground (arith, bng_complement_lem xs h)
