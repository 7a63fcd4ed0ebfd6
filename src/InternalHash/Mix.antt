-- ===== src/InternalHash/Mix.antt =====
-- The mixing steps lose nothing: each is undone by a function of the same shape.
use Prim.Native.Nat.{bit_xor}
use ppx_universe.Base.{ℕ, ◌*◌, ◌/◌, ◌%◌, ◌^◌, ◌<◌, ◌≡◌, ap, ap₂, ◌∙◌, arith}
use ppx_universe.Bits.{bit_and_mask}
use ppx_universe.Bits.Xor.{bit_xor-bound, bit_xor-cancel, bit_xor_zero, bit_xor-shift}
use ppx_universe.InternalHash.{word32, shift_xor, final_mix, get_hash_value}

-- x ^ (x >> n) for at least half of the bits is its own inverse.
shift_xor16 : (h : ℕ) → h < word32 → shift_xor 16 (shift_xor 16 h) ≡ h
shift_xor16 h hh =
    let top : h / 2 ^ 16 / 2 ^ 16 ≡ 0 = omega arith in
    let upper : shift_xor 16 h / 2 ^ 16 ≡ h / 2 ^ 16 =
      bit_xor-shift 16 h (h / 2 ^ 16)
      ∙ ap (bit_xor (h / 2 ^ 16)) top
      ∙ bit_xor_zero 16 (h / 2 ^ 16) (omega arith) in
    ap (bit_xor (shift_xor 16 h)) upper ∙ (bit_xor-cancel 32 h (h / 2 ^ 16) hh (omega arith)).0

-- The inverse of x ^ (x >> 13).
abbrev unshift13 : ℕ → ℕ
unshift13 g = bit_xor g (shift_xor 13 g / 2 ^ 13)

shift_xor13 : (h : ℕ) → h < word32 → unshift13 (shift_xor 13 h) ≡ h
shift_xor13 h hh =
    let g = shift_xor 13 h in
    let once : g / 2 ^ 13 ≡ bit_xor (h / 2 ^ 13) (h / 2 ^ 13 / 2 ^ 13) =
      bit_xor-shift 13 h (h / 2 ^ 13) in
    let top : h / 2 ^ 13 / 2 ^ 13 / 2 ^ 13 ≡ 0 = omega arith in
    let below : bit_xor (h / 2 ^ 13) (h / 2 ^ 13 / 2 ^ 13) / 2 ^ 13 ≡ h / 2 ^ 13 / 2 ^ 13 =
      bit_xor-shift 13 (h / 2 ^ 13) (h / 2 ^ 13 / 2 ^ 13)
      ∙ ap (bit_xor (h / 2 ^ 13 / 2 ^ 13)) top
      ∙ bit_xor_zero 32 (h / 2 ^ 13 / 2 ^ 13) (omega arith) in
    let twice : shift_xor 13 g / 2 ^ 13 ≡ h / 2 ^ 13 =
      bit_xor-shift 13 g (g / 2 ^ 13)
      ∙ ap₂ bit_xor once (ap (λ (n : ℕ). n / 2 ^ 13) once ∙ below)
      ∙ (bit_xor-cancel 32 (h / 2 ^ 13) (h / 2 ^ 13 / 2 ^ 13) (omega arith) (omega arith)).0 in
    ap (bit_xor g) twice ∙ (bit_xor-cancel 32 h (h / 2 ^ 13) hh (omega arith)).0

product₁ : (h : ℕ) → h < word32 → h * 2246822507 % word32 * 2781581891 % word32 ≡ h
product₁ h hh = omega arith

product₂ : (h : ℕ) → h < word32 → h * 3266489909 % word32 * 2127672349 % word32 ≡ h
product₂ h hh = omega arith

-- The inverse of FINAL_MIX.
abbrev pub unmix : ℕ → ℕ
unmix g =
    let h₃ = unshift13 (shift_xor 16 g * 2127672349 % word32) in
    shift_xor 16 (h₃ * 2781581891 % word32)

shift_xor-bound : (n h : ℕ) → h < word32 → h / 2 ^ n < word32 → shift_xor n h < word32
shift_xor-bound n h hh hs = bit_xor-bound 32 h (h / 2 ^ n) hh hs

-- FINAL_MIX loses nothing: from its result the function unmix gives back every 32-bit word.
pub unmix-final_mix : (h : ℕ) → h < 2 ^ 32 → unmix (final_mix h) ≡ h
unfolding final_mix
unmix-final_mix h hh =
    let h₁ = shift_xor 16 h in
    let b₁ : h₁ < word32 = shift_xor-bound 16 h hh (omega arith) in
    let h₂ = h₁ * 2246822507 % word32 in
    let h₃ = shift_xor 13 h₂ in
    let b₃ : h₃ < word32 = shift_xor-bound 13 h₂ (omega arith) (omega arith) in
    let h₄ = h₃ * 3266489909 % word32 in
    let p₄ : shift_xor 16 (shift_xor 16 h₄) * 2127672349 % word32 ≡ h₃ =
      ap (λ (n : ℕ). n * 2127672349 % word32) (shift_xor16 h₄ (omega arith)) ∙ product₂ h₃ b₃ in
    ap (λ (n : ℕ). shift_xor 16 (unshift13 n * 2781581891 % word32)) p₄
    ∙ ap (λ (n : ℕ). shift_xor 16 (n * 2781581891 % word32)) (shift_xor13 h₂ (omega arith))
    ∙ ap (shift_xor 16) (product₁ h₁ b₁)
    ∙ shift_xor16 h hh

-- The hash value is the low 30 bits of FINAL_MIX of the state.
pub get_hash_value_lem :
    (st : ℕ) → (get_hash_value st ≡ final_mix (st % 2 ^ 32) % 2 ^ 30) × (get_hash_value st < 2 ^ 30)
unfolding get_hash_value
get_hash_value_lem st =
    let masked = bit_and_mask 30 (final_mix (st % word32)) in (masked, omega (arith, masked))
