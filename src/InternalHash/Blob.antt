-- ===== src/InternalHash/Blob.antt =====
-- Base_internalhash_fold_blob merges no two states, and tells apart strings that differ in a block.
use Prim.Native.Nat.{bit_xor}
use ppx_universe.Base.{
  ℕ, suc, ◌+◌, ◌-◌, ◌*◌, ◌/◌, ◌%◌, ◌^◌, ◌<◌, ◌≡◌, refl, sym, ap, ◌∙◌, arith, List, [], ◌∷◌, bit_or,
  length,
}
use ppx_universe.Bits.{bit_or_fields}
use ppx_universe.Bits.Xor.{bit_xor-bound, bit_xor-cancel}
use ppx_universe.InternalHash.{word32, rotl32, mix_data, mix, load, fold_blocks, fold_blob}

rotl32-13 : (x : ℕ) → x < word32 → rotl32 x 13 ≡ x % 2 ^ 19 * 2 ^ 13 + x / 2 ^ 19
unfolding rotl32
rotl32-13 x hx =
    let high : x * 2 ^ 13 % word32 ≡ x % 2 ^ 19 * 2 ^ 13 = omega arith in
    ap (λ (n : ℕ). bit_or n (x / 2 ^ 19)) high
    ∙ bit_or_fields 13 (x % 2 ^ 19) (x / 2 ^ 19) (omega arith)

rotl32-15 : (x : ℕ) → x < word32 → rotl32 x 15 ≡ x % 2 ^ 17 * 2 ^ 15 + x / 2 ^ 17
unfolding rotl32
rotl32-15 x hx =
    let high : x * 2 ^ 15 % word32 ≡ x % 2 ^ 17 * 2 ^ 15 = omega arith in
    ap (λ (n : ℕ). bit_or n (x / 2 ^ 17)) high
    ∙ bit_or_fields 15 (x % 2 ^ 17) (x / 2 ^ 17) (omega arith)

-- The rotations back.
abbrev rotr13 : ℕ → ℕ
rotr13 y = y % 2 ^ 13 * 2 ^ 19 + y / 2 ^ 13

abbrev rotr15 : ℕ → ℕ
rotr15 y = y % 2 ^ 15 * 2 ^ 17 + y / 2 ^ 15

rotr13-rotl32 : (x : ℕ) → x < word32 → (rotr13 (rotl32 x 13) ≡ x) × (rotl32 x 13 < word32)
rotr13-rotl32 x hx = let e = rotl32-13 x hx in (omega (arith, e), omega (arith, e))

rotr15-rotl32 : (x : ℕ) → x < word32 → (rotr15 (rotl32 x 15) ≡ x) × (rotl32 x 15 < word32)
rotr15-rotl32 x hx = let e = rotl32-15 x hx in (omega (arith, e), omega (arith, e))

-- The inverse of what MIX does to the data.
abbrev unmix_data : ℕ → ℕ
unmix_data e = rotr15 (e * 1458385051 % word32) * 3739302833 % word32

mix_data-bound : (d : ℕ) → mix_data d < word32
unfolding mix_data
mix_data-bound d = omega arith

unmix_data-mix_data : (d : ℕ) → d < word32 → unmix_data (mix_data d) ≡ d
unfolding mix_data
unmix_data-mix_data d hd =
    let d₁ = d * 3432918353 % word32 in
    let (back, inside) = rotr15-rotl32 d₁ (omega arith) in
    let product : rotl32 d₁ 15 * 461845907 % word32 * 1458385051 % word32 ≡ rotl32 d₁ 15 =
      omega arith in
    let first : d * 3432918353 % word32 * 3739302833 % word32 ≡ d = omega arith in
    ap (λ (n : ℕ). rotr15 n * 3739302833 % word32) product
    ∙ ap (λ (n : ℕ). n * 3739302833 % word32) back
    ∙ first

-- The inverse of what MIX does to the state behind the exclusive or.
abbrev unmix_state : ℕ → ℕ
unmix_state g = rotr13 ((g + word32 - 3864292196) * 3435973837 % word32)

unmix_state-mix : (h d : ℕ) → h < word32 → unmix_state (mix h d) ≡ bit_xor h (mix_data d)
unfolding mix
unmix_state-mix h d hh =
    let x = bit_xor h (mix_data d) in
    let (back, inside) = rotr13-rotl32 x (bit_xor-bound 32 h (mix_data d) hh (mix_data-bound d)) in
    let r = rotl32 x 13 in
    let product : ((r * 5 + 3864292196) % word32 + word32 - 3864292196) * 3435973837 % word32 ≡ r =
      omega arith in
    ap rotr13 product ∙ back

mix-bound : (h d : ℕ) → mix h d < word32
unfolding mix
mix-bound h d = omega arith

mix-injective_state : (h h' d : ℕ) → h < word32 → h' < word32 → mix h d ≡ mix h' d → h ≡ h'
mix-injective_state h h' d hh hh' e =
    let m = mix_data d in
    let same : bit_xor h m ≡ bit_xor h' m =
      sym (unmix_state-mix h d hh) ∙ ap unmix_state e ∙ unmix_state-mix h' d hh' in
    sym (bit_xor-cancel 32 h m hh (mix_data-bound d)).0
    ∙ ap (λ (n : ℕ). bit_xor n m) same
    ∙ (bit_xor-cancel 32 h' m hh' (mix_data-bound d)).0

mix-injective_data :
    (h d d' : ℕ) → h < word32 → d < word32 → d' < word32 → mix h d ≡ mix h d' → d ≡ d'
mix-injective_data h d d' hh hd hd' e =
    let same : bit_xor h (mix_data d) ≡ bit_xor h (mix_data d') =
      sym (unmix_state-mix h d hh) ∙ ap unmix_state e ∙ unmix_state-mix h d' hh in
    let data_same : mix_data d ≡ mix_data d' =
      sym (bit_xor-cancel 32 h (mix_data d) hh (mix_data-bound d)).1
      ∙ ap (bit_xor h) same
      ∙ (bit_xor-cancel 32 h (mix_data d') hh (mix_data-bound d')).1 in
    sym (unmix_data-mix_data d hd) ∙ ap unmix_data data_same ∙ unmix_data-mix_data d' hd'

fold_blocks-bound : (s : List ℕ) (h : ℕ) → h < word32 → fold_blocks h s < word32
unfolding fold_blocks
fold_blocks-bound [] h hh = hh
fold_blocks-bound (a ∷ []) h hh = mix-bound h a
fold_blocks-bound (a ∷ b ∷ []) h hh = mix-bound h (bit_or (b * 2 ^ 8) a)
fold_blocks-bound (a ∷ b ∷ c ∷ []) h hh = mix-bound h (bit_or (bit_or (c * 2 ^ 16) (b * 2 ^ 8)) a)
fold_blocks-bound (a ∷ b ∷ c ∷ d ∷ s) h hh =
    fold_blocks-bound s (mix h (load a b c d)) (mix-bound h (load a b c d))

fold_blocks-injective :
    (s : List ℕ) (h h' : ℕ) → h < word32 → h' < word32 → fold_blocks h s ≡ fold_blocks h' s → h ≡ h'
unfolding fold_blocks
fold_blocks-injective [] h h' hh hh' e = e
fold_blocks-injective (a ∷ []) h h' hh hh' e = mix-injective_state h h' a hh hh' e
fold_blocks-injective (a ∷ b ∷ []) h h' hh hh' e =
    mix-injective_state h h' (bit_or (b * 2 ^ 8) a) hh hh' e
fold_blocks-injective (a ∷ b ∷ c ∷ []) h h' hh hh' e =
    mix-injective_state h h' (bit_or (bit_or (c * 2 ^ 16) (b * 2 ^ 8)) a) hh hh' e
fold_blocks-injective (a ∷ b ∷ c ∷ d ∷ s) h h' hh hh' e =
    let w = load a b c d in
    mix-injective_state h h' w hh hh'
      (fold_blocks-injective s (mix h w) (mix h' w) (mix-bound h w) (mix-bound h' w) e)

xor_length-injective :
    (x y n : ℕ) → x < word32 → y < word32 → bit_xor x (n % word32) ≡ bit_xor y (n % word32) → x ≡ y
xor_length-injective x y n hx hy e =
    sym (bit_xor-cancel 32 x (n % word32) hx (omega arith)).0
    ∙ ap (λ (k : ℕ). bit_xor k (n % word32)) e
    ∙ (bit_xor-cancel 32 y (n % word32) hy (omega arith)).0

-- Base_internalhash_fold_blob with any string, of any length, takes different 32-bit states to
-- different states.
pub fold_blob-injective :
    (s : List ℕ) (h h' : ℕ) → h < 2 ^ 32 → h' < 2 ^ 32 → fold_blob h s ≡ fold_blob h' s → h ≡ h'
unfolding fold_blob
fold_blob-injective s h h' hh hh' e = fold_blocks-injective s h h' hh hh' (
    xor_length-injective (fold_blocks h s) (fold_blocks h' s) (length s) (fold_blocks-bound s h hh)
      (fold_blocks-bound s h' hh') e)

-- Four bytes.
pub record Block : Type 0 where
  pub b₀ : ℕ
  pub b₁ : ℕ
  pub b₂ : ℕ
  pub b₃ : ℕ

abbrev pub IsBytes : Block → Type 0
IsBytes b = (b.b₀ < 256) × (b.b₁ < 256) × (b.b₂ < 256) × (b.b₃ < 256)

abbrev pub with_blocks : List Block → List ℕ → List ℕ
with_blocks [] s = s
with_blocks (b ∷ bs) s = b.b₀ ∷ b.b₁ ∷ b.b₂ ∷ b.b₃ ∷ with_blocks bs s

load-bound : (b : Block) → IsBytes b → load b.b₀ b.b₁ b.b₂ b.b₃ < word32
load-bound b (h₀, h₁, h₂, h₃) = omega arith

load-injective :
    (b c : Block)
    → IsBytes b
    → IsBytes c
    → load b.b₀ b.b₁ b.b₂ b.b₃ ≡ load c.b₀ c.b₁ c.b₂ c.b₃
    → b ≡ c
load-injective b c (h₀, h₁, h₂, h₃) (k₀, k₁, k₂, k₃) e =
    let e₀ : b.b₀ ≡ c.b₀ = omega arith in
    let e₁ : b.b₁ ≡ c.b₁ = omega arith in
    let e₂ : b.b₂ ≡ c.b₂ = omega arith in
    let e₃ : b.b₃ ≡ c.b₃ = omega arith in λ i. record { b₀ = e₀ i; b₁ = e₁ i; b₂ = e₂ i; b₃ = e₃ i }

same_length :
    (bs : List Block) (b c : Block) (s : List ℕ)
    → length (with_blocks bs (with_blocks (b ∷ []) s))
      ≡ length (with_blocks bs (with_blocks (c ∷ []) s))
same_length [] b c s = refl
same_length (x ∷ bs) b c s = ap (λ (n : ℕ). suc (suc (suc (suc n)))) (same_length bs b c s)

blocks_apart :
    (bs : List Block) (b c : Block) (s : List ℕ) (h : ℕ)
    → h < word32
    → IsBytes b
    → IsBytes c
    → fold_blocks h (with_blocks bs (with_blocks (b ∷ []) s))
      ≡ fold_blocks h (with_blocks bs (with_blocks (c ∷ []) s))
    → b ≡ c
unfolding fold_blocks
blocks_apart [] b c s h hh hb hc e =
    let v = load b.b₀ b.b₁ b.b₂ b.b₃ in
    let w = load c.b₀ c.b₁ c.b₂ c.b₃ in
    load-injective b c hb hc (
      mix-injective_data h v w hh (load-bound b hb) (load-bound c hc)
        (fold_blocks-injective s (mix h v) (mix h w) (mix-bound h v) (mix-bound h w) e))
blocks_apart (x ∷ bs) b c s h hh hb hc e =
    let w = load x.b₀ x.b₁ x.b₂ x.b₃ in blocks_apart bs b c s (mix h w) (mix-bound h w) hb hc e

-- From any 32-bit state, Base_internalhash_fold_blob gives different states for two strings of
-- bytes that agree but for one block of four bytes at a multiple of four from their start.
pub fold_blob-blocks :
    (bs : List Block) (b c : Block) (s : List ℕ) (h : ℕ)
    → h < 2 ^ 32
    → IsBytes b
    → IsBytes c
    → fold_blob h (with_blocks bs (with_blocks (b ∷ []) s))
      ≡ fold_blob h (with_blocks bs (with_blocks (c ∷ []) s))
    → b ≡ c
unfolding fold_blob
fold_blob-blocks bs b c s h hh hb hc e =
    let l = with_blocks bs (with_blocks (b ∷ []) s) in
    let r = with_blocks bs (with_blocks (c ∷ []) s) in
    let lengths : bit_xor (fold_blocks h r) (length r % word32)
        ≡ bit_xor (fold_blocks h r) (length l % word32) =
      ap (λ (n : ℕ). bit_xor (fold_blocks h r) (n % word32)) (sym (same_length bs b c s)) in
    blocks_apart bs b c s h hh hb hc (
      xor_length-injective (fold_blocks h l) (fold_blocks h r) (length l) (fold_blocks-bound l h hh)
        (fold_blocks-bound r h hh) (e ∙ lengths))
