-- ===== src/Zarith.antt =====
-- Zarith/caml_z.c: integers that are an OCaml integer or a block with a sign and limbs, at 64 bits.
-- The functions mpn_add, ... of GMP are a parameter, Mpn. Z_MARK_OP counts and Z_CHECK checks nothing.
pub mod Values
pub mod Limbs
pub mod Opposite
pub mod Sums
pub mod Exact
pub mod Compare
pub mod Equality
pub mod Marshal
pub mod Product
pub mod Quotient
mod Tests
use ppx_universe.Base.{
  ℕ, zero, suc, ◌+◌, ◌-◌, ◌%◌, ◌^◌, List, [], ◌∷◌, ◌++◌, Bool, true, false, not, ◌&&◌, ◌||◌,
  if◌then◌else◌, ◌==◌, leb, ltb, length, get_or, take,
}
use ppx_universe.Mlvalues.{long_val, val_long}
use ppx_universe.Bng.Number.{Carried}

-- The 63 bits of an OCaml integer, or the sign and the limbs of a block, lowest limb first.
pub data Z : Type 0 where
  long : ℕ → Z
  block : Bool → List ℕ → Z

-- The answers of mpn_cmp, and of a comparison.
pub data Order : Type 0 where
  less same greater : Order

-- What GMP computes: a sum with its carry, a difference, an order.
pub record Mpn : Type 0 where
  pub add : List ℕ → List ℕ → Carried
  pub sub : List ℕ → List ℕ → List ℕ
  pub cmp : List ℕ → List ℕ → Order

abbrev pub z_max_int : ℕ
z_max_int = 2 ^ 62 - 1

-- Z_FITS_INT of a word of 64 bits.
abbrev pub z_fits_int : ℕ → Bool
z_fits_int v = leb (2 ^ 64 - 2 ^ 62) v || leb v z_max_int

-- The comparison with 0 of a word of 64 bits.
abbrev pub is_negative : ℕ → Bool
is_negative w = leb (2 ^ 63) w

abbrev pub negated : ℕ → ℕ
negated w = (2 ^ 64 - w) % 2 ^ 64

pub record Arg : Type 0 where
  pub negative : Bool
  pub limbs : List ℕ

-- Z_ARG
unfoldable pub z_arg : Z → Arg
unfolding long_val
z_arg (long n) = record {
  negative = is_negative (long_val n);
  limbs =
      if long_val n == 0
      then []
      else (if is_negative (long_val n) then negated (long_val n) else long_val n) ∷ [];
}
z_arg (block sign limbs) = record { negative = sign; limbs = limbs }

-- `while (sz > 0 && !Z_LIMB(r)[sz-1]) sz--`
unfoldable pub reduced_size : List ℕ → ℕ → ℕ
reduced_size r zero = zero
reduced_size r (suc n) = let rest = reduced_size r n in if get_or r n 0 == 0 then rest else suc n

abbrev pub reduced : List ℕ → Bool → ℕ → Z
reduced r sign zero = long 0
reduced r sign (suc n) =
    if (n == 0) && leb (get_or r 0 0) z_max_int
    then long (val_long (if sign then negated (get_or r 0 0) else get_or r 0 0))
    else block sign (take (suc n) r)

unfoldable pub ml_z_reduce : List ℕ → Bool → Z
unfolding reduced_size val_long
ml_z_reduce r sign = reduced r sign (reduced_size r (length r))

-- From the words of OCaml: 2 - arg negates, and the least integer is left to the general case.
unfoldable pub ml_z_neg : Z → Z
unfolding ml_z_reduce z_arg
ml_z_neg (long n) =
    if n == 2 ^ 62
    then ml_z_reduce (z_arg (long n)).limbs (not (z_arg (long n)).negative)
    else long ((2 ^ 63 - n) % 2 ^ 63)
ml_z_neg (block sign limbs) = ml_z_reduce limbs (not sign)

unfoldable pub ml_z_abs : Z → Z
unfolding ml_z_reduce z_arg
ml_z_abs (long n) =
    if ltb n (2 ^ 62)
    then long n
    else if n == 2 ^ 62
    then ml_z_reduce (z_arg (long n)).limbs false
    else long ((2 ^ 63 - n) % 2 ^ 63)
ml_z_abs (block sign limbs) = ml_z_reduce limbs false

abbrev pub same_sign : Bool → Bool → Bool
same_sign true b = b
same_sign false b = not b

abbrev pub xor_sign : Bool → Bool → Bool
xor_sign true b = not b
xor_sign false b = b

abbrev pub with_carry : Carried → Bool → Z
with_carry r sign = ml_z_reduce (r.digits ++ (r.carry ∷ [])) sign

-- The last branch of ml_z_addsub, by the answer of mpn_cmp.
abbrev pub sub_cmp : Mpn → Arg → Arg → Order → Z
sub_cmp mpn a b greater = ml_z_reduce (mpn.sub a.limbs b.limbs) a.negative
sub_cmp mpn a b less = ml_z_reduce (mpn.sub b.limbs a.limbs) b.negative
sub_cmp mpn a b same = long 0

-- Two numbers that are not 0, of which the second has the sign that it gets.
unfoldable pub addsub_limbs : Mpn → Arg → Arg → Z
unfolding ml_z_reduce
addsub_limbs mpn a b =
    if same_sign a.negative b.negative
    then if leb (length b.limbs) (length a.limbs)
      then with_carry (mpn.add a.limbs b.limbs) a.negative
      else with_carry (mpn.add b.limbs a.limbs) a.negative
    else if ltb (length b.limbs) (length a.limbs)
    then ml_z_reduce (mpn.sub a.limbs b.limbs) a.negative
    else if ltb (length a.limbs) (length b.limbs)
    then ml_z_reduce (mpn.sub b.limbs a.limbs) b.negative
    else sub_cmp mpn a b (mpn.cmp a.limbs b.limbs)

unfoldable pub ml_z_addsub : Mpn → Z → Z → Bool → Z
unfolding z_arg addsub_limbs ml_z_reduce
ml_z_addsub mpn arg1 arg2 sign =
    let a = z_arg arg1 in
    let b : Arg = record (z_arg arg2) { negative = xor_sign sign (z_arg arg2).negative } in
    if length b.limbs == 0
    then arg1
    else if length a.limbs == 0
    then (if sign then ml_z_reduce b.limbs b.negative else arg2)
    else addsub_limbs mpn a b

unfoldable pub ml_z_add : Mpn → Z → Z → Z
unfolding ml_z_addsub long_val val_long
ml_z_add mpn (long a) (long b) =
    let v = (long_val a + long_val b) % 2 ^ 64 in
    if z_fits_int v then long (val_long v) else ml_z_addsub mpn (long a) (long b) false
ml_z_add mpn (long a) (block t bs) = ml_z_addsub mpn (long a) (block t bs) false
ml_z_add mpn (block s as') arg2 = ml_z_addsub mpn (block s as') arg2 false

unfoldable pub ml_z_sub : Mpn → Z → Z → Z
unfolding ml_z_addsub long_val val_long
ml_z_sub mpn (long a) (long b) =
    let v = (long_val a + 2 ^ 64 - long_val b) % 2 ^ 64 in
    if z_fits_int v then long (val_long v) else ml_z_addsub mpn (long a) (long b) true
ml_z_sub mpn (long a) (block t bs) = ml_z_addsub mpn (long a) (block t bs) true
ml_z_sub mpn (block s as') arg2 = ml_z_addsub mpn (block s as') arg2 true

-- Two native integers, by the sign that their top bits give.
abbrev pub order : ℕ → ℕ → Order
order a b = if ltb a b then less else if ltb b a then greater else same

abbrev pub flip : Order → Order
flip less = greater
flip same = same
flip greater = less

-- `for (i = size - 1; i >= 0; i--)`: the first limbs from the top that differ.
unfoldable pub compare_limbs : List ℕ → List ℕ → ℕ → Order
compare_limbs as' bs zero = same
compare_limbs as' bs (suc i) =
    let rest = compare_limbs as' bs i in
    if ltb (get_or bs i 0) (get_or as' i 0)
    then greater
    else if ltb (get_or as' i 0) (get_or bs i 0)
    then less
    else rest

abbrev pub compare_sizes : Arg → Arg → Order
compare_sizes a b =
    if ltb (length b.limbs) (length a.limbs)
    then greater
    else if ltb (length a.limbs) (length b.limbs)
    then less
    else compare_limbs a.limbs b.limbs (length a.limbs)

unfoldable pub compare_args : Arg → Arg → Order
unfolding compare_limbs
compare_args a b =
    let r = if same_sign a.negative b.negative then compare_sizes a b else greater in
    if a.negative then flip r else r

-- The fast path compares the words: the integers shifted into the numbers without sign.
unfoldable pub ml_z_compare : Z → Z → Order
unfolding compare_args z_arg
ml_z_compare (long a) (long b) = order ((a + 2 ^ 62) % 2 ^ 63) ((b + 2 ^ 62) % 2 ^ 63)
ml_z_compare (long a) (block t bs) = compare_args (z_arg (long a)) (z_arg (block t bs))
ml_z_compare (block s as') arg2 = compare_args (z_arg (block s as')) (z_arg arg2)
