-- ===== src/Bng/Add.antt =====
-- The sums and differences of num/src/bng.c that end in a carry: {a,alen} becomes `digits` and the
-- carry out is `carry`. Where the code requires alen >= blen and that fails, it writes out of
-- bounds; the functions then stop at the end of `a`, and the theorems carry the requirement.
pub mod Exact
use ppx_universe.Base.{ℕ, ◌+◌, ◌-◌, ◌%◌, List, [], ◌∷◌, not, if◌then◌else◌, ◌==◌}
use ppx_universe.Bng.Digit.{base, bng_add2_carry, bng_sub2_carry}
use ppx_universe.Bng.Number.{Carried}

-- `do { if (++(*a) != 0) return 0; a++; } while (--alen); return 1;`
unfoldable pub increment : List ℕ → Carried
increment [] = record { digits = []; carry = 1 }
increment (x ∷ xs) =
    let x' = (x + 1) % base in
    let rest = increment xs in
    if not (x' == 0)
    then record { digits = x' ∷ xs; carry = 0 }
    else record { digits = x' ∷ rest.digits; carry = rest.carry }

-- `do { if ((*a)-- != 0) return 0; a++; } while (--alen); return 1;`
unfoldable pub decrement : List ℕ → Carried
decrement [] = record { digits = []; carry = 1 }
decrement (x ∷ xs) =
    let x' = (x + base - 1) % base in
    let rest = decrement xs in
    if not (x == 0)
    then record { digits = x' ∷ xs; carry = 0 }
    else record { digits = x' ∷ rest.digits; carry = rest.carry }

unfoldable pub bng_add_carry : List ℕ → ℕ → Carried
bng_add_carry [] carry = record { digits = []; carry = carry }
bng_add_carry (x ∷ xs) carry =
    if carry == 0 then record { digits = x ∷ xs; carry = carry } else increment (x ∷ xs)

unfoldable pub bng_add : List ℕ → List ℕ → ℕ → Carried
bng_add a [] carry = bng_add_carry a carry
bng_add [] (y ∷ ys) carry = record { digits = []; carry = carry }
bng_add (x ∷ xs) (y ∷ ys) carry =
    let sum = bng_add2_carry x y carry in
    let rest = bng_add xs ys sum.carry in
    record { digits = sum.res ∷ rest.digits; carry = rest.carry }

unfoldable pub bng_sub_carry : List ℕ → ℕ → Carried
bng_sub_carry [] carry = record { digits = []; carry = carry }
bng_sub_carry (x ∷ xs) carry =
    if carry == 0 then record { digits = x ∷ xs; carry = carry } else decrement (x ∷ xs)

unfoldable pub bng_sub : List ℕ → List ℕ → ℕ → Carried
bng_sub a [] carry = bng_sub_carry a carry
bng_sub [] (y ∷ ys) carry = record { digits = []; carry = carry }
bng_sub (x ∷ xs) (y ∷ ys) carry =
    let difference = bng_sub2_carry x y carry in
    let rest = bng_sub xs ys difference.carry in
    record { digits = difference.res ∷ rest.digits; carry = rest.carry }

-- `for (; alen > 0; alen--, a++) *a = ~*a;`
unfoldable pub bng_complement : List ℕ → List ℕ
bng_complement [] = []
bng_complement (x ∷ xs) = (base - 1 - x) ∷ bng_complement xs
