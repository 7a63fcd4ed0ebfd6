-- ===== src/Zarith/Equality/Exact.antt =====
-- Equality, hash and conversion to an OCaml integer depend on the integer only.
use ppx_universe.Base.{
  ℕ, suc, ◌+◌, ◌-◌, ◌%◌, ◌^◌, ◌≤◌, ◌<◌, ◌≡◌, ◌⊎◌, inl, inr, refl, sym, ap, ap₂, ◌∙◌, List, [], ◌∷◌,
  Bool, true, false, not, if◌then◌else◌, ◌==◌, leb, ltb, Option, none, some, length, arith,
}
use ppx_universe.Mlvalues.{val_long}
use ppx_universe.Bng.Number.{value, base_pow, base_pow-pos}
use ppx_universe.Zarith.{Z, long, block, Arg, z_arg, negated}
use ppx_universe.Zarith.Values.{signed, z_plus, z_minus, IsZ, long-plus, long-minus, either}
use ppx_universe.Zarith.Exact.{IsWord, long-IsWord}
use ppx_universe.Zarith.Equality.{
  equal_limbs, equal_args, ml_z_equal, ml_z_hash, to_int_limb, ml_z_to_int, ml_z_fits_int,
}
use ppx_universe.Zarith.Equality.Unique.{IsSame, z_arg_unique, z_arg-IsSame}

equal_limbs_sound : (a b : List ℕ) → length a ≡ length b → equal_limbs a b ≡ true → a ≡ b
unfolding equal_limbs
equal_limbs_sound [] [] l e = refl
equal_limbs_sound [] (y ∷ ys) l e = absurd (omega arith)
equal_limbs_sound (x ∷ xs) [] l e = absurd (omega arith)
equal_limbs_sound (x ∷ xs) (y ∷ ys) l e = go (x == y) refl e (equal_limbs_sound xs ys (omega arith))
  where
    go :
        (b : Bool)
        → (x == y) ≡ b
        → (if b then equal_limbs xs ys else false) ≡ true
        → (equal_limbs xs ys ≡ true → xs ≡ ys)
        → x ∷ xs ≡ y ∷ ys
    go true h e' rest = ap₂ ◌∷◌ (ground arith) (rest e')
    go false h e' rest = absurd (cc e')

equal_limbs_refl : (a : List ℕ) → equal_limbs a a ≡ true
unfolding equal_limbs
equal_limbs_refl [] = refl
equal_limbs_refl (x ∷ xs) = let e : (x == x) ≡ true = ground arith in rw e (equal_limbs_refl xs)

abbrev arg : Bool → List ℕ → Arg
arg sign limbs = record { negative = sign; limbs = limbs }

same_limbs :
    (s : Bool) (a b : List ℕ)
    → (if length a == length b then equal_limbs a b else false) ≡ true
    → arg s a ≡ arg s b
same_limbs s a b e = go (length a == length b) refl e
  where
    go :
        (c : Bool)
        → (length a == length b) ≡ c
        → (if c then equal_limbs a b else false) ≡ true
        → arg s a ≡ arg s b
    go true h e' = ap (arg s) (equal_limbs_sound a b (ground arith) e')
    go false h e' = absurd (cc e')

equal_args_sound :
    (s t : Bool) (a b : List ℕ) → equal_args (arg s a) (arg t b) ≡ true → arg s a ≡ arg t b
unfolding equal_args
equal_args_sound true true a b e = same_limbs true a b e
equal_args_sound false false a b e = same_limbs false a b e
equal_args_sound true false a b e = absurd (cc e)
equal_args_sound false true a b e = absurd (cc e)

equal_args_refl : (s : Bool) (a : List ℕ) → equal_args (arg s a) (arg s a) ≡ true
unfolding equal_args
equal_args_refl true a =
    let e : (length a == length a) ≡ true = ground arith in rw e (equal_limbs_refl a)
equal_args_refl false a =
    let e : (length a == length a) ≡ true = ground arith in rw e (equal_limbs_refl a)

-- Whether two numbers stand for the same integer.
abbrev pub same_integer : Z → Z → Bool
same_integer a b = (z_plus a + z_minus b) == (z_plus b + z_minus a)

same_Bool : (p q : Bool) → (p ≡ true → q ≡ true) → (q ≡ true → p ≡ true) → p ≡ q
same_Bool true true h k = refl
same_Bool false false h k = refl
same_Bool true false h k = absurd (cc (h refl))
same_Bool false true h k = absurd (cc (k refl))

equal_z_args : (a b : Z) → IsZ a → IsZ b → equal_args (z_arg a) (z_arg b) ≡ same_integer a b
equal_z_args a b ha hb =
    same_Bool (equal_args (z_arg a) (z_arg b)) (same_integer a b)
      (λ e.
        let same : IsSame a b = z_arg-IsSame a b (
          equal_args_sound (z_arg a).negative (z_arg b).negative (z_arg a).limbs (z_arg b).limbs
            e) in
        ground arith)
      (λ e.
        let same : z_arg a ≡ z_arg b = z_arg_unique a b ha hb (ground arith) in
        rw (sym same) (equal_args_refl (z_arg a).negative (z_arg a).limbs))

same_word :
    (a b wa wb pa ma pb mb : ℕ)
    → IsWord a wa pa ma
    → IsWord b wb pb mb
    → a < 2 ^ 63
    → b < 2 ^ 63
    → (a == b) ≡ ((pa + mb) == (pb + ma))
same_word a b wa wb pa ma pb mb ha hb la lb = ground arith

-- ml_z_equal of two valid integers, unboxed or in blocks, of any signs, is true exactly when they
-- are the same integer, also for the two representations of the least unboxed integer.
pub ml_z_equal_lem :
    (arg1 arg2 : Z) → IsZ arg1 → IsZ arg2 → ml_z_equal arg1 arg2 ≡ same_integer arg1 arg2
unfolding ml_z_equal
ml_z_equal_lem (long a) (long b) h1 h2 =
    same_word a b _ _ _ _ _ _ (long-IsWord a h1) (long-IsWord b h2) h1 h2
ml_z_equal_lem (long a) (block t bs) h1 h2 = equal_z_args (long a) (block t bs) h1 h2
ml_z_equal_lem (block s as') arg2 h1 h2 = equal_z_args (block s as') arg2 h1 h2

-- For any function caml_hash_mix_uint32, two valid integers that ml_z_equal takes for the same
-- have the same hash.
pub ml_z_hash-ml_z_equal :
    (mix : ℕ → ℕ → ℕ) (arg1 arg2 : Z)
    → IsZ arg1
    → IsZ arg2
    → ml_z_equal arg1 arg2 ≡ true
    → ml_z_hash mix arg1 ≡ ml_z_hash mix arg2
unfolding ml_z_hash
ml_z_hash-ml_z_equal mix arg1 arg2 h1 h2 e =
    let same : same_integer arg1 arg2 ≡ true = sym (ml_z_equal_lem arg1 arg2 h1 h2) ∙ e in
    rw (z_arg_unique arg1 arg2 h1 h2 (ground arith)) refl

-- An OCaml integer of the same value, where there is one.
abbrev pub IsInt : Z → Option ℕ → Type 0
IsInt z none = (2 ^ 62 ≤ z_plus z) ⊎ (2 ^ 62 < z_minus z)
IsInt z (some n) = (n < 2 ^ 63) × (z_plus (long n) ≡ z_plus z) × (z_minus (long n) ≡ z_minus z)

long_of-IsInt :
    (sign : Bool) (limbs : List ℕ) (n : ℕ)
    → n < 2 ^ 63
    → z_plus (long n) ≡ signed (not sign) (value limbs)
    → z_minus (long n) ≡ signed sign (value limbs)
    → IsInt (block sign limbs) (some n)
unfolding z_plus z_minus z_arg
long_of-IsInt sign limbs n h p m = (h, p, m)

-- Of the number and its opposite, the one that the sign picks has no OCaml integer.
abbrev IsLarge : Bool → ℕ → Type 0
IsLarge true m = 2 ^ 62 < m
IsLarge false m = 2 ^ 62 ≤ m

none-IsInt :
    (sign : Bool) (limbs : List ℕ) → IsLarge sign (value limbs) → IsInt (block sign limbs) none
unfolding z_plus z_minus z_arg
none-IsInt true limbs h = inr h
none-IsInt false limbs h = inl h

either_IsLarge : (sign : Bool) (m : ℕ) → 2 ^ 62 < m → IsLarge sign m
either_IsLarge true m h = h
either_IsLarge false m h = omega arith

to_int_limb-IsInt :
    (sign : Bool) (x : ℕ)
    → IsZ (block sign (x ∷ []))
    → IsInt (block sign (x ∷ [])) (to_int_limb sign x)
unfolding val_long
to_int_limb-IsInt true x h =
    either (IsInt (block true (x ∷ []))) (ltb (2 ^ 62) x) none _
      (λ e. none-IsInt true (x ∷ []) (ground arith))
      (λ e.
        let bound : negated x % 2 ^ 63 < 2 ^ 63 = omega arith in
        long_of-IsInt true (x ∷ []) (negated x % 2 ^ 63) bound
          (long-plus (negated x % 2 ^ 63) bound ∙ ground arith)
          (long-minus (negated x % 2 ^ 63) bound ∙ ground arith))
to_int_limb-IsInt false x h =
    either (IsInt (block false (x ∷ []))) (leb (2 ^ 62) x) none _
      (λ e. none-IsInt false (x ∷ []) (ground arith))
      (λ e.
        let bound : x % 2 ^ 63 < 2 ^ 63 = omega arith in
        long_of-IsInt false (x ∷ []) (x % 2 ^ 63) bound
          (long-plus (x % 2 ^ 63) bound ∙ ground arith)
          (long-minus (x % 2 ^ 63) bound ∙ ground arith))

-- ml_z_to_int of a valid integer is an OCaml integer of 63 bits of the same value, or raises
-- Overflow, and then the integer is 2 ^ 62 or more, or below -2 ^ 62.
pub ml_z_to_int_lem : (v : Z) → IsZ v → IsInt v (ml_z_to_int v)
unfolding ml_z_to_int
ml_z_to_int_lem (long n) h = (h, refl, refl)
ml_z_to_int_lem (block sign []) (number, top, big) = absurd (omega arith)
ml_z_to_int_lem (block sign (x ∷ [])) h = to_int_limb-IsInt sign x h
ml_z_to_int_lem (block sign (x ∷ y ∷ limbs)) (number, top, big) =
    let len : length (x ∷ y ∷ limbs) - 1 ≡ suc (length limbs) = omega arith in
    let large : base_pow (suc (length limbs)) ≤ value (x ∷ y ∷ limbs) = rw len at top in
    none-IsInt sign (x ∷ y ∷ limbs)
      (either_IsLarge sign (value (x ∷ y ∷ limbs)) (omega (arith, base_pow-pos (length limbs))))

abbrev is_some : Option ℕ → Bool
is_some none = false
is_some (some n) = true

-- ml_z_fits_int says whether ml_z_to_int gives an integer.
pub ml_z_fits_int_lem : (v : Z) → ml_z_fits_int v ≡ is_some (ml_z_to_int v)
unfolding ml_z_fits_int ml_z_to_int
ml_z_fits_int_lem (long n) = refl
ml_z_fits_int_lem (block sign []) = refl
ml_z_fits_int_lem (block true (x ∷ [])) = ground arith
ml_z_fits_int_lem (block false (x ∷ [])) = ground arith
ml_z_fits_int_lem (block sign (x ∷ y ∷ limbs)) = refl
