-- ===== src/NatStubs/Marshal/RoundTrip.antt =====
-- Nats survive the wire, from machines of 64 and of 32 bits.
use ppx_universe.Base.{
  ℕ, suc, ◌+◌, ◌-◌, ◌*◌, ◌%◌, ◌^◌, ◌≤◌, ◌<◌, ◌≡◌, inl, inr, refl, ap, ap₂, ◌↔◌, ◌∙◌, List, [], ◌∷◌,
  ◌++◌, arith, length, All, All-append, bit_and, if◌then◌else◌, Bool-cases, ◌==◌, leb, false,
}
use mathlib.Core.List.{append_assoc}
use ppx_universe.Bits.{bit_and_mask}
use ppx_universe.Bng.Digit.{base}
use ppx_universe.Bng.Number.{IsNumber, value}
use ppx_universe.NatStubs.Words.{
  IsWord, words, digits, words_value, digits-words, words-IsWord, length-words, value-digits,
  digits-IsNumber,
}
use ppx_universe.NatStubs.Marshal.{
  Intext, failwith, output, serialize_nat, Deserialized, deserialize_nat,
}

words_value-pad : (ws : List ℕ) → words_value (ws ++ (0 ∷ [])) ≡ words_value ws
words_value-pad [] = omega arith
words_value-pad (w ∷ ws) = omega (arith, words_value-pad ws)

-- The bytes of `ws` as they lie on the wire.
abbrev pub wire : Intext → List ℕ → List ℕ
wire io ws = io.serialize_int_4 (length ws) ++ io.serialize_block_4 ws

odd_bit : (n : ℕ) → bit_and n 1 ≡ n % 2
odd_bit n = bit_and_mask 1 n

-- The words that a reader keeps, a zero word behind an odd count.
abbrev padded : List ℕ → List ℕ
padded ws = if length ws % 2 == 0 then ws else ws ++ (0 ∷ [])

abbrev as_read : List ℕ → List ℕ → ℕ → Deserialized
as_read a rest n = record { nat = a; size = n; rest = rest }

deserialize_nat-wire :
    (io : Intext) (ws rest : List ℕ)
    → All IsWord ws
    → length ws < 2 ^ 32
    → deserialize_nat io (wire io ws ++ rest)
      ≡ record { nat = digits (padded ws); size = (length ws + length ws % 2) * 4; rest = rest }
unfolding deserialize_nat
deserialize_nat-wire io ws rest hw few =
    let join = append_assoc (io.serialize_int_4 (length ws)) (io.serialize_block_4 ws) rest in
    let int = io.int_4 (length ws) (io.serialize_block_4 ws ++ rest) few in
    let block = io.block_4 ws rest hw in
    rw (join, int, block, odd_bit (length ws))
      (elim (Bool-cases (length ws % 2 == 0)) [
        | inl e ↦ rw e (ap (as_read (digits ws) rest) (ground arith))
        | inr e ↦ rw e (ap (as_read (digits (ws ++ (0 ∷ []))) rest) (ground arith))
      ])

padded-even : (ws : List ℕ) → length ws % 2 ≡ 0 → padded ws ≡ ws
padded-even ws e = rw e refl

-- A nat of fewer than 2 ^ 31 digits is written with its size in bytes as both sizes, and
-- deserialize_nat reads it back from these bytes, whatever follows them, with the same size.
pub deserialize_nat-serialize_nat :
    (io : Intext) (nat : List ℕ)
    → IsNumber nat
    → length nat * 2 < 2 ^ 32
    → (bytes : List ℕ) × (serialize_nat io nat ≡ output bytes (length nat * 8) (length nat * 8))
      × ((rest : List ℕ)
          → deserialize_nat io (bytes ++ rest)
            ≡ record { nat = nat; size = length nat * 8; rest = rest })
unfolding serialize_nat
deserialize_nat-serialize_nat io nat hn few =
    let len = length-words nat in
    let even : length (words nat) % 2 ≡ 0 = omega (arith, len) in
    let size : (length (words nat) + length (words nat) % 2) * 4 ≡ length nat * 8 =
      omega (arith, len) in
    let short : leb (2 ^ 32) ((suc (length nat) - 1) * 2 % base) ≡ false = ground arith in
    let count : (suc (length nat) - 1) * 2 % base % 2 ^ 32 ≡ length (words nat) =
      omega (arith, len) in
    let bytes : (suc (length nat) - 1) * 2 % base * 4 % base ≡ length nat * 8 = omega arith in
    (
      wire io (words nat),
      rw (short, bytes, count) refl,
      λ rest.
          deserialize_nat-wire io (words nat) rest (words-IsWord nat hn) (omega (arith, len))
          ∙ ap₂ (λ (a : List ℕ) (n : ℕ). as_read a rest n)
              (ap digits (padded-even (words nat) even) ∙ digits-words nat) size,
    )

-- For a nat of fewer than 2 ^ 61 digits, serialize_nat fails exactly when it has 2 ^ 31 digits or
-- more.
pub serialize_nat-failwith :
    (io : Intext) (nat : List ℕ)
    → length nat < 2 ^ 61
    → (serialize_nat io nat ≡ failwith) ↔ (2 ^ 31 ≤ length nat)
unfolding serialize_nat
serialize_nat-failwith io nat small = (λ e. ground arith, λ p. ground arith)

padded_lem :
    (ws : List ℕ)
    → All IsWord ws
    → (words_value (padded ws) ≡ words_value ws) × All IsWord (padded ws)
padded_lem ws hw = elim (Bool-cases (length ws % 2 == 0)) [
  | inl e ↦ rw e (refl, hw)
  | inr e ↦ rw e (words_value-pad ws, All-append IsWord ws (0 ∷ []) hw (omega arith, tt))
]

-- From the wire format of any list of fewer than 2 ^ 32 words of 32 bits, an odd count as from a
-- 32-bit machine included, deserialize_nat reads a number of the same value, returns the size
-- rounded up to whole digits, and leaves what follows.
pub deserialize_nat-words :
    (io : Intext) (ws rest : List ℕ)
    → All IsWord ws
    → length ws < 2 ^ 32
    → let r = deserialize_nat io (wire io ws ++ rest) in
      (value r.nat ≡ words_value ws)
      × IsNumber r.nat
      × (r.size ≡ (length ws + length ws % 2) * 4)
      × (r.rest ≡ rest)
deserialize_nat-words io ws rest hw few =
    let (same, hp) = padded_lem ws hw in
    rw (deserialize_nat-wire io ws rest hw few)
      (value-digits (padded ws) ∙ same, digits-IsNumber (padded ws) hp, refl, refl)
