-- ===== src/Zarith/Tests.antt =====
-- Runs of caml_z.c over the digit arithmetic of num in the place of GMP, and the theorems at one
-- input each.
use native.Mathlib.Nat.{mul-le-mul_left}
use ppx_universe.Base.{
  ℕ, zero, suc, ◌+◌, ◌-◌, ◌*◌, ◌^◌, ◌≤◌, ◌<◌, ◌≡◌, refl, ◌∙◌, ◌%◌, none, List, [], ◌∷◌, true, false,
  arith, length,
}
use ppx_universe.Mlvalues.{long_val}
use ppx_universe.Bng.Add.{bng_add, bng_sub, bng_add_carry, increment}
use ppx_universe.Bng.Digit.{bng_add2_carry}
use ppx_universe.Bng.Add.Exact.{bng_add_lem, bng_sub_lem}
use ppx_universe.Bng.Number.{IsNumber, value, base_pow, value-lt-base_pow, base_pow-le}
use ppx_universe.Zarith.{
  Z, long, block, Mpn, order, z_arg, reduced_size, ml_z_reduce, ml_z_neg, addsub_limbs, ml_z_addsub,
  ml_z_add, ml_z_sub, ml_z_compare,
}
use ppx_universe.Zarith.Values.{z_plus, z_minus, IsZ}
use ppx_universe.Zarith.Limbs.{IsOrder, IsMpn}
use ppx_universe.Zarith.Sums.{IsSum}
use ppx_universe.Zarith.Exact.{ml_z_add_lem, ml_z_sub_lem}
use ppx_universe.Zarith.Compare.{order-IsOrder, ml_z_compare_lem}
use ppx_universe.Zarith.Equality.{equal_limbs, equal_args, ml_z_equal, ml_z_hash, ml_z_to_int}
use ppx_universe.Zarith.Equality.Exact.{
  same_integer, IsInt, ml_z_equal_lem, ml_z_hash-ml_z_equal, ml_z_to_int_lem,
}

abbrev digits : Mpn
digits = record {
  add = λ a b. bng_add a b 0;
  sub = λ a b. (bng_sub a b 0).digits;
  cmp = λ a b. order (value a) (value b);
}

carry-le : (r x y w c : ℕ) → r + w * c ≡ x + y + 0 → x < w → y < w → c ≤ 1
carry-le r x y w zero e hx hy = omega arith
carry-le r x y w (suc zero) e hx hy = omega arith
carry-le r x y w (suc (suc c)) e hx hy =
    let m : w * 2 ≤ w * suc (suc c) = mul-le-mul_left {m = 2} {n = suc (suc c)} w (omega arith) in
    absurd (omega arith)

borrow-zero : (r x y w c : ℕ) → r + (y + 0) ≡ x + w * c → r < w → y ≤ x → r + y ≡ x
borrow-zero r x y w zero e hr h = omega arith
borrow-zero r x y w (suc c) e hr h =
    let m : w * 1 ≤ w * suc c = mul-le-mul_left {m = 1} {n = suc c} w (omega arith) in
    absurd (omega arith)

shorter-lt : (a b : List ℕ) → IsNumber b → length b ≤ length a → value b < base_pow (length a)
shorter-lt a b hb h = omega (arith, value-lt-base_pow b hb, base_pow-le (length b) (length a) h)

digits-IsMpn : IsMpn digits
digits-IsMpn = record {
  add = λ a b ha hb pb h.
      let t = bng_add_lem a b 0 ha hb h (omega arith) in
      (
        record { total = t.total ∙ omega arith; digits = t.digits; same_length = t.same_length },
        carry-le _ (value a) (value b) (base_pow (length a)) _ t.total (value-lt-base_pow a ha)
            (shorter-lt a b hb h),
      );
  sub = λ a b ha hb pb h le.
      let d = bng_sub_lem a b 0 ha hb h (omega arith) in
      (
        d.digits,
        borrow-zero _ (value a) (value b) (base_pow (length a)) _ d.total
            (rw d.same_length at (value-lt-base_pow _ d.digits)) le,
      );
  cmp = λ a b ha hb pb h.
      order-IsOrder (value a) (value b) (value a) (value b) (λ e. e) (λ e. e) (λ e. e);
}

-- -(2 ^ 64 + 5) and 2 ^ 62 - 1
abbrev large : Z
large = block true (5 ∷ 1 ∷ [])

abbrev small : Z
small = long (2 ^ 62 - 1)

large-IsZ : IsZ large
large-IsZ = ((omega arith, (omega arith, tt)), omega arith, omega arith)

small-IsZ : IsZ small
small-IsZ = omega arith

-- The sum of two OCaml integers that is none.
carry_runs : ml_z_add digits small small ≡ block false ((2 ^ 63 - 2) ∷ [])
unfolding ml_z_add ml_z_addsub addsub_limbs z_arg long_val ml_z_reduce reduced_size bng_add
    bng_add_carry increment bng_add2_carry
carry_runs = refl

-- The least OCaml integer as a block.
least_block : ml_z_neg (block false ((2 ^ 62) ∷ [])) ≡ block true ((2 ^ 62) ∷ [])
unfolding ml_z_neg ml_z_reduce reduced_size
least_block = refl

-- The same integer, unboxed.
least_long : z_minus (long (2 ^ 62)) ≡ z_minus (block true ((2 ^ 62) ∷ []))
unfolding z_minus z_arg long_val
least_long = refl

ml_z_add_lem_example :
    IsSum
      (z_plus large)
      (z_minus large)
      (z_plus small)
      (z_minus small)
      (ml_z_add digits large small)
ml_z_add_lem_example = ml_z_add_lem digits digits-IsMpn large small large-IsZ small-IsZ

ml_z_sub_lem_example :
    IsSum
      (z_plus small)
      (z_minus small)
      (z_minus large)
      (z_plus large)
      (ml_z_sub digits small large)
ml_z_sub_lem_example = ml_z_sub_lem digits digits-IsMpn small large small-IsZ large-IsZ

ml_z_compare_lem_example :
    IsOrder (ml_z_compare large small) (z_plus large + z_minus small) (z_plus small + z_minus large)
ml_z_compare_lem_example = ml_z_compare_lem large small large-IsZ small-IsZ

-- The two representations of the least OCaml integer, and a block that fits in none.
abbrev least : Z
least = long (2 ^ 62)

abbrev boxed_least : Z
boxed_least = block true ((2 ^ 62) ∷ [])

boxed_least-IsZ : IsZ boxed_least
boxed_least-IsZ = ((omega arith, tt), omega arith, omega arith)

least_equal : ml_z_equal least boxed_least ≡ true
unfolding ml_z_equal equal_args equal_limbs z_arg long_val
least_equal = refl

large_overflows : ml_z_to_int large ≡ none
unfolding ml_z_to_int
large_overflows = refl

ml_z_equal_lem_example : ml_z_equal least boxed_least ≡ same_integer least boxed_least
ml_z_equal_lem_example = ml_z_equal_lem least boxed_least (omega arith) boxed_least-IsZ

-- The mixing of caml_z.c where OCaml has none.
abbrev mix_uint32 : ℕ → ℕ → ℕ
mix_uint32 h n = (h * 65599 + n) % 2 ^ 32

ml_z_hash-ml_z_equal_example : ml_z_hash mix_uint32 least ≡ ml_z_hash mix_uint32 boxed_least
ml_z_hash-ml_z_equal_example =
    ml_z_hash-ml_z_equal mix_uint32 least boxed_least (omega arith) boxed_least-IsZ least_equal

ml_z_to_int_lem_example : IsInt boxed_least (ml_z_to_int boxed_least)
ml_z_to_int_lem_example = ml_z_to_int_lem boxed_least boxed_least-IsZ
