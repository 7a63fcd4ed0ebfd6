-- ===== src/NatStubs/Tests.antt =====
-- Runs of the primitives of num/src/nat_stubs.c on a small heap, and each theorem at one input.
use ppx_universe.Base.{
  ℕ, zero, suc, ◌+◌, ◌-◌, ◌*◌, ◌/◌, ◌%◌, ◌^◌, ◌<◌, ◌≡◌, inl, refl, ap, ap₂, List, [], ◌∷◌, ◌++◌,
  length, arith, All,
}
use ppx_universe.Bng.Digit.{bng_sub2_carry}
use ppx_universe.Bng.Number.{IsNumber}
use ppx_universe.Bng.Add.{bng_sub, bng_sub_carry}
use ppx_universe.Bng.Compare.{bng_num_digits, num_digits_loop}
use ppx_universe.Mlvalues.{long_val, val_long}
use ppx_universe.Base.Splice.{splice}
use ppx_universe.NatStubs.Heap.{Heap, IsHeap, digit_val, region, write}
use ppx_universe.NatStubs.Arith.{sub_nat, div_nat}
use ppx_universe.NatStubs.Arith.Quotients.{IsDivNat, div_nat_lem}
use ppx_universe.NatStubs.Access.{nth_digit_nat}
use ppx_universe.NatStubs.Words.{IsWord, words}
use ppx_universe.NatStubs.Marshal.{Intext, output, serialize_nat, deserialize_nat}
use ppx_universe.NatStubs.Marshal.RoundTrip.{deserialize_nat-serialize_nat}
use ppx_universe.NatStubs.Hash.{hash_loop, hash_nat, hash_nat_32}
use ppx_universe.NatStubs.Hash.Machines.{hash_nat-words}

abbrev full : ℕ
full = 2 ^ 64 - 1

abbrev numerator : List ℕ
numerator = 5 ∷ full ∷ 7 ∷ 0 ∷ []

abbrev divisor : List ℕ
divisor = full ∷ 9 ∷ []

abbrev store : Heap
store = numerator ∷ divisor ∷ (1 ∷ 0 ∷ 0 ∷ 0 ∷ 0 ∷ []) ∷ []

store-IsHeap : IsHeap store
store-IsHeap = omega arith

numerator-IsNumber : IsNumber numerator
numerator-IsNumber = omega arith

-- 1 - 2 = -1 borrows, so the result is 0.
sub_nat_runs :
    sub_nat ((1 ∷ 7 ∷ []) ∷ (2 ∷ []) ∷ []) 0 0 1 1 0 1 1
    ≡ record { heap = (full ∷ 7 ∷ []) ∷ (2 ∷ []) ∷ []; result = 0 }
unfolding sub_nat region write splice long_val val_long bng_sub bng_sub_carry bng_sub2_carry
sub_nat_runs = refl

nth_digit_nat_runs : nth_digit_nat ((full ∷ []) ∷ []) 0 0 ≡ 2 ^ 63 - 1
unfolding nth_digit_nat digit_val val_long
nth_digit_nat_runs = refl

div_nat_lem_example : IsDivNat store 0 0 4 1 0 2 (div_nat store 0 0 4 1 0 2)
unfolding region
div_nat_lem_example =
    div_nat_lem store 0 0 4 1 0 2 store-IsHeap (omega arith) (omega arith) (inl (omega arith))
      (omega arith) (omega arith) (omega arith)

-- The functions of caml/intext.h on bytes: integers of four bytes, highest first.
abbrev put_4 : ℕ → List ℕ → List ℕ
put_4 n rest = (n / 2 ^ 24) ∷ ((n / 2 ^ 16 % 256) ∷ ((n / 2 ^ 8 % 256) ∷ ((n % 256) ∷ rest)))

abbrev get_4 : List ℕ → ℕ × List ℕ
get_4 (a ∷ b ∷ c ∷ d ∷ rest) = (a * 2 ^ 24 + b * 2 ^ 16 + c * 2 ^ 8 + d, rest)
get_4 other = (0, other)

abbrev put_block : List ℕ → List ℕ
put_block [] = []
put_block (w ∷ ws) = put_4 w (put_block ws)

abbrev get_block : ℕ → List ℕ → List ℕ × List ℕ
get_block zero input = ([], input)
get_block (suc n) input = let r = get_block n (get_4 input).1 in ((get_4 input).0 ∷ r.0, r.1)

get_4-put_4 : (n : ℕ) (rest : List ℕ) → n < 2 ^ 32 → get_4 (put_4 n rest) ≡ (n, rest)
get_4-put_4 n rest h = ap (λ (m : ℕ). (m, rest)) (omega arith)

get_block-put_block :
    (ws rest : List ℕ) → All IsWord ws → get_block (length ws) (put_block ws ++ rest) ≡ (ws, rest)
get_block-put_block [] rest h = refl
get_block-put_block (w ∷ ws) rest (hw, h) =
    ap₂ (λ (v : ℕ) (r : List ℕ × List ℕ). (v ∷ r.0, r.1)) (omega arith)
      (get_block-put_block ws rest h)

abbrev bytes_intext : Intext
bytes_intext = record {
  serialize_int_4 = λ n. put_4 n [];
  serialize_block_4 = put_block;
  deserialize_uint_4 = get_4;
  deserialize_block_4 = get_block;
  int_4 = get_4-put_4;
  block_4 = get_block-put_block;
}

deserialize_nat-serialize_nat_example :
    (bytes : List ℕ) × (serialize_nat bytes_intext numerator ≡ output bytes 32 32)
    × ((rest : List ℕ)
        → deserialize_nat bytes_intext (bytes ++ rest)
          ≡ record { nat = numerator; size = 32; rest = rest })
deserialize_nat-serialize_nat_example =
    deserialize_nat-serialize_nat bytes_intext numerator numerator-IsNumber (omega arith)

-- Leading zero words are left out on both machines.
hash_nat_runs : hash_nat (λ h d. 10 * h + d) (3 ∷ 4 ∷ 0 ∷ []) ≡ 304
unfolding hash_nat hash_loop bng_num_digits num_digits_loop
hash_nat_runs = refl

hash_nat-words_example :
    hash_nat (λ h d. 10 * h + d) numerator ≡ hash_nat_32 (λ h d. 10 * h + d) (words numerator)
hash_nat-words_example =
    hash_nat-words (λ h d. 10 * h + d) numerator numerator-IsNumber (omega arith)
