-- ===== src/NatStubs/Words.antt =====
-- The digits of a nat seen as 32-bit words, as they lie in the memory of a little-endian machine:
-- of each 64-bit digit the low half, then the high half.
use ppx_universe.Base.{
  ℕ, ◌+◌, ◌*◌, ◌/◌, ◌%◌, ◌^◌, ◌<◌, ◌≡◌, refl, ap₂, List, [], ◌∷◌, arith, length, All,
}
use ppx_universe.Bng.Number.{IsNumber, value}

abbrev pub IsWord : ℕ → Type 0
IsWord w = w < 2 ^ 32

abbrev pub words : List ℕ → List ℕ
words [] = []
words (d ∷ a) = (d % 2 ^ 32) ∷ ((d / 2 ^ 32) ∷ words a)

-- An even count of words as digits.
abbrev pub digits : List ℕ → List ℕ
digits [] = []
digits (low ∷ []) = low ∷ []
digits (low ∷ high ∷ ws) = (low + 2 ^ 32 * high) ∷ digits ws

-- The number that a list of words stands for.
abbrev pub words_value : List ℕ → ℕ
words_value [] = 0
words_value (w ∷ ws) = w + 2 ^ 32 * words_value ws

pub digits-words : (a : List ℕ) → digits (words a) ≡ a
digits-words [] = refl
digits-words (d ∷ a) = ap₂ ◌∷◌ (omega arith) (digits-words a)

pub words-IsWord : (a : List ℕ) → IsNumber a → All IsWord (words a)
words-IsWord [] h = tt
words-IsWord (d ∷ a) (hd, h) = (omega arith, (omega arith, words-IsWord a h))

pub length-words : (a : List ℕ) → length (words a) ≡ length a * 2
length-words [] = omega arith
length-words (d ∷ a) = omega (arith, length-words a)

pub value-digits : (ws : List ℕ) → value (digits ws) ≡ words_value ws
value-digits [] = refl
value-digits (low ∷ []) = omega arith
value-digits (low ∷ high ∷ ws) = omega (arith, value-digits ws)

pub digits-IsNumber : (ws : List ℕ) → All IsWord ws → IsNumber (digits ws)
digits-IsNumber [] h = tt
digits-IsNumber (low ∷ []) (hl, h) = (omega arith, tt)
digits-IsNumber (low ∷ high ∷ ws) (hl, (hh, h)) = (omega arith, digits-IsNumber ws h)
