-- ===== src/Zarith/Marshal/Sizes.antt =====
-- What the loops of ml_z_custom_deserialize read: how many limbs, and the limbs that were written.
use ppx_universe.Base.{
  ℕ, zero, suc, ◌-◌, ◌*◌, ◌/◌, ◌%◌, ◌^◌, ◌≤◌, ◌<◌, ◌≡◌, inl, inr, refl, ap, ◌∙◌, List, [], ◌∷◌,
  ◌++◌, ◌==◌, length, get_or, take, arith, Bool-cases,
}
use mathlib.Core.List.{append_assoc}
use ppx_universe.Bng.Number.{
  IsNumber, value, base_pow, value-take-suc, value-take-lt, value-take_all,
}
use ppx_universe.Zarith.{reduced_size}
use ppx_universe.Zarith.Marshal.{
  Intext, serialize_bytes, serialize_limbs, deserialize_bytes, deserialize_limbs, deserialize_last,
  deserialize_number,
}

pub length-deserialize_limbs :
    (io : Intext) (n : ℕ) (input : List ℕ) → length (deserialize_limbs io n input).0 ≡ n
unfolding deserialize_limbs
length-deserialize_limbs io zero input = refl
length-deserialize_limbs io (suc n) input =
    omega (arith, length-deserialize_limbs io n (deserialize_bytes io 8 input).1)

pub length-deserialize_last :
    (io : Intext) (sz : ℕ) (input : List ℕ) → length (deserialize_last io sz input).0 ≤ 1
unfolding deserialize_last
length-deserialize_last io sz input = elim (Bool-cases (sz == 0)) [
  | inl e ↦ rw e (omega arith)
  | inr e ↦ rw e (omega arith)
]

-- The numbers of k bytes.
abbrev byte_pow : ℕ → ℕ
byte_pow zero = 1
byte_pow (suc k) = 2 ^ 8 * byte_pow k

deserialize_bytes-serialize_bytes :
    (io : Intext) (k x : ℕ) (rest : List ℕ)
    → x < byte_pow k
    → deserialize_bytes io k (serialize_bytes io k x ++ rest) ≡ (x, rest)
unfolding deserialize_bytes serialize_bytes
deserialize_bytes-serialize_bytes io zero x rest h = ap (λ (y : ℕ). (y, rest)) (omega arith)
deserialize_bytes-serialize_bytes io (suc k) x rest h =
    let join =
      append_assoc (io.serialize_int_1 (x % 2 ^ 32)) (serialize_bytes io k (x / 2 ^ 8)) rest in
    let low = io.int_1 (x % 2 ^ 32) (serialize_bytes io k (x / 2 ^ 8) ++ rest) (omega arith) in
    let high = deserialize_bytes-serialize_bytes io k (x / 2 ^ 8) rest (omega arith) in
    rw (join, low, high) (ap (λ (y : ℕ). (y, rest)) (omega arith))

limb_written :
    (io : Intext) (x : ℕ) (xs rest : List ℕ)
    → x < 2 ^ 64
    → deserialize_bytes io 8 (serialize_limbs io (x ∷ xs) ++ rest)
      ≡ (x, serialize_limbs io xs ++ rest)
unfolding serialize_limbs
limb_written io x xs rest h =
    rw (append_assoc (serialize_bytes io 8 x) (serialize_limbs io xs) rest)
      (deserialize_bytes-serialize_bytes io 8 x (serialize_limbs io xs ++ rest) h)

-- The two loops read back what was written: all limbs but the last, then the last.
limbs_written :
    (io : Intext) (x : ℕ) (xs rest : List ℕ)
    → IsNumber (x ∷ xs)
    → let r = deserialize_limbs io (length xs) (serialize_limbs io (x ∷ xs) ++ rest) in
      let last = deserialize_last io 8 r.1 in
      ◌≡◌ {A = List ℕ × List ℕ} (r.0 ++ last.0, last.1) (x ∷ xs, rest)
unfolding deserialize_limbs deserialize_last serialize_limbs
limbs_written io x [] rest (hx, h) =
    ap (λ (r : ℕ × List ℕ). (r.0 ∷ [], r.1)) (limb_written io x [] rest hx)
limbs_written io x (y ∷ ys) rest (hx, h) =
    ap (λ (r : ℕ × List ℕ). after r.0 (length ys) r.1) (limb_written io x (y ∷ ys) rest hx)
    ∙ ap (λ (r : List ℕ × List ℕ). (x ∷ r.0, r.1)) (limbs_written io y ys rest h)
  where
    after : ℕ → ℕ → List ℕ → List ℕ × List ℕ
    after z n input =
        let r = deserialize_limbs io n input in
        let last = deserialize_last io 8 r.1 in (z ∷ (r.0 ++ last.0), last.1)

pub deserialize_number-serialize_limbs :
    (io : Intext) (a rest : List ℕ)
    → IsNumber a
    → deserialize_number io (length a) (length a * 8) (serialize_limbs io a ++ rest) ≡ (a, rest)
unfolding deserialize_number deserialize_limbs deserialize_last serialize_limbs
deserialize_number-serialize_limbs io [] rest h = refl
deserialize_number-serialize_limbs io (x ∷ xs) rest h =
    let n : length (x ∷ xs) - 1 ≡ length xs = omega arith in
    let left : length (x ∷ xs) * 8 - length xs * 8 ≡ 8 = omega arith in
    rw (n, left) (limbs_written io x xs rest h)

-- `while (i > 0 && !d[i-1]) i--` keeps limbs of which the top one is not 0.
pub reduced_size-top :
    (a : List ℕ) (n : ℕ)
    → IsNumber a
    → length a ≡ suc n
    → base_pow n ≤ value a
    → reduced_size a (suc n) ≡ suc n
unfolding reduced_size
reduced_size-top a n h len top =
    let all : value (take (suc n) a) ≡ value a = rw len at (value-take_all a) in
    elim (Bool-cases (get_or a n 0 == 0)) [
      | inl e ↦
          let none : get_or a n 0 ≡ 0 = ground arith in
          absurd (omega (arith, (rw none at (value-take-suc n a)), all, value-take-lt n a h))
      | inr e ↦ rw e refl
    ]
