-- ===== src/Bng/Mult.antt =====
-- The products of num/src/bng.c: by a digit, of two numbers, and of a number with itself. The
-- cases that stop at the end of `a` stand for calls outside the lengths that the code requires.
pub mod Digit
pub mod Product
pub mod Square
use ppx_universe.Base.{ℕ, ◌+◌, ◌-◌, ◌*◌, ◌%◌, ◌^◌, List, [], ◌∷◌, bit_or}
use ppx_universe.Bng.Digit.{bng_mult, bng_add2, bng_add2_carry, bng_add3, bng_sub2, bng_sub3}
use ppx_universe.Bng.Number.{Carried}
use ppx_universe.Bng.Add.{bng_add_carry, bng_sub_carry}
use ppx_universe.Bng.Shift.{bng_shift_left}

-- bngcarry is an unsigned int.
abbrev pub to_carry : ℕ → ℕ
to_carry n = n % 2 ^ 32

-- A digit in front of what an operation did to the digits above it.
abbrev pub push : ℕ → Carried → Carried
push x r = record { digits = x ∷ r.digits; carry = r.carry }

-- What bng_mult_add_digit does behind its loop, with the digit `out` to add.
unfoldable pub add_out : List ℕ → ℕ → Carried
add_out [] out = record { digits = []; carry = out }
add_out (x ∷ xs) out = let sum = bng_add2 x out in push sum.res (bng_add_carry xs sum.carry)

unfoldable pub mult_add_digit_loop : List ℕ → List ℕ → ℕ → ℕ → Carried
mult_add_digit_loop a [] d out = add_out a out
mult_add_digit_loop [] (y ∷ ys) d out = record { digits = []; carry = out }
mult_add_digit_loop (x ∷ xs) (y ∷ ys) d out =
    let product = bng_mult y d in
    let sum = bng_add3 product.resh x product.resl out in
    push sum.res (mult_add_digit_loop xs ys d sum.carry)

unfoldable pub bng_mult_add_digit : List ℕ → List ℕ → ℕ → Carried
bng_mult_add_digit a b d = mult_add_digit_loop a b d 0

-- What bng_mult_sub_digit does behind its loop, with the digit `out` to subtract.
unfoldable pub sub_out : List ℕ → ℕ → Carried
sub_out [] out = record { digits = []; carry = out }
sub_out (x ∷ xs) out =
    let difference = bng_sub2 x out in push difference.res (bng_sub_carry xs difference.carry)

unfoldable pub mult_sub_digit_loop : List ℕ → List ℕ → ℕ → ℕ → Carried
mult_sub_digit_loop a [] d out = sub_out a out
mult_sub_digit_loop [] (y ∷ ys) d out = record { digits = []; carry = out }
mult_sub_digit_loop (x ∷ xs) (y ∷ ys) d out =
    let product = bng_mult y d in
    let difference = bng_sub3 product.resh x product.resl out in
    push difference.res (mult_sub_digit_loop xs ys d difference.carry)

unfoldable pub bng_mult_sub_digit : List ℕ → List ℕ → ℕ → Carried
bng_mult_sub_digit a b d = mult_sub_digit_loop a b d 0

-- The loop of bng_mult_add over the digits of `c`; `a` moves up one digit in each round.
unfoldable pub mult_add_loop : List ℕ → List ℕ → List ℕ → ℕ → Carried
mult_add_loop a b [] carry = record { digits = a; carry = carry }
mult_add_loop a b (z ∷ c) carry =
    let row = bng_mult_add_digit a b z in
    elim row.digits [
      | [] ↦ record { digits = []; carry = to_carry (carry + row.carry) }
      | x ∷ xs ↦ push x (mult_add_loop xs b c (to_carry (carry + row.carry)))
    ]

unfoldable pub bng_mult_add : List ℕ → List ℕ → List ℕ → Carried
bng_mult_add a b c = mult_add_loop a b c 0

-- `for (carry1 = 0, i = 1; i < blen; i++)` of bng_square_add: `b` starts at digit i - 1 and `a` at
-- digit 2 * i - 2.
unfoldable pub cross_products : List ℕ → List ℕ → ℕ → Carried
cross_products a [] carry1 = record { digits = a; carry = carry1 }
cross_products a (y ∷ []) carry1 = record { digits = a; carry = carry1 }
cross_products [] (y ∷ y' ∷ ys) carry1 = record { digits = []; carry = carry1 }
cross_products (x ∷ a) (y ∷ y' ∷ ys) carry1 =
    let row = bng_mult_add_digit a (y' ∷ ys) y in
    push x (elim row.digits [
      | [] ↦ record { digits = []; carry = to_carry (carry1 + row.carry) }
      | x' ∷ a' ↦ push x' (cross_products a' (y' ∷ ys) (to_carry (carry1 + row.carry)))
    ])

-- The loop that adds the squares of the digits, and the carry that runs on behind it.
unfoldable pub add_squares : List ℕ → List ℕ → ℕ → Carried
add_squares a [] carry2 = bng_add_carry a carry2
add_squares [] (d ∷ b) carry2 = record { digits = []; carry = carry2 }
add_squares (x ∷ []) (d ∷ b) carry2 = record { digits = x ∷ []; carry = carry2 }
add_squares (x ∷ x' ∷ a) (d ∷ b) carry2 =
    let product = bng_mult d d in
    let low = bng_add2_carry x product.resl carry2 in
    let high = bng_add2_carry x' product.resh low.carry in
    push low.res (push high.res (add_squares a b high.carry))

unfoldable pub bng_square_add : List ℕ → List ℕ → Carried
bng_square_add a b =
    let crossed = cross_products a b 0 in
    let doubled = bng_shift_left crossed.digits 1 in
    let carry1 = to_carry (bit_or (to_carry (crossed.carry * 2)) doubled.carry) in
    let squared = add_squares doubled.digits b 0 in
    record { digits = squared.digits; carry = to_carry (carry1 + squared.carry) }
