-- ===== src/Bigstrings/Bytes/Find.antt =====
-- The search gives the first place.
use ppx_universe.Base.{
  ℕ, zero, suc, ◌+◌, ◌%◌, ◌^◌, ◌≤◌, ◌<◌, ◌≡◌, ◌≢◌, inl, inr, refl, ◌∙◌, sym, List, [], ◌∷◌, Option,
  none, some, arith, length, length-take, length-drop, take, drop, get_or, ◌==◌, false, Bool-cases,
}
use mathlib.Core.Path.{subst}
use ppx_universe.Bigstrings.Bytes.{memchr, bigstring_find, bigstringaf_memchr}

-- Among the `len` bytes that `at` gives, the place found holds the byte and none before it does; or
-- none does.
abbrev pub IsFirst : (ℕ → ℕ) → ℕ → ℕ → Option ℕ → Type 0
IsFirst at len byte none = (i : ℕ) → i < len → at i ≢ byte
IsFirst at len byte (some r) = (r < len) × (at r ≡ byte) × ((i : ℕ) → i < r → at i ≢ byte)

not_yet :
    (b c : ℕ) (bs : List ℕ) (n : ℕ)
    → (b == c) ≡ false
    → ((i : ℕ) → i < n → get_or bs i 0 ≢ c)
    → (i : ℕ) → i < suc n
    → get_or (b ∷ bs) i 0 ≢ c
not_yet b c bs n e h zero hi = λ same. absurd (ground arith)
not_yet b c bs n e h (suc i) hi = h i (omega arith)

-- One byte more in front.
IsFirst-later :
    (b c : ℕ) (bs : List ℕ) (found : Option ℕ)
    → (b == c) ≡ false
    → IsFirst (λ i. get_or bs i 0) (length bs) c found
    → IsFirst
        (λ i. get_or (b ∷ bs) i 0)
        (length (b ∷ bs))
        c
        (elim found as (λ _. Option ℕ) [ none ↦ none | some r ↦ some (suc r) ])
IsFirst-later b c bs none e h = not_yet b c bs (length bs) e h
IsFirst-later b c bs (some r) e (inside, there, before) =
    (omega arith, there, not_yet b c bs r e before)

memchr_lem :
    (c : ℕ) (bs : List ℕ) → IsFirst (λ i. get_or bs i 0) (length bs) (c % 2 ^ 8) (memchr c bs)
unfolding memchr
memchr_lem c [] = λ i h. absurd (omega arith)
memchr_lem c (b ∷ bs) = elim (Bool-cases (b == c % 2 ^ 8)) [
  | inl e ↦ rw e (omega arith, ground arith, λ i h. absurd (omega arith))
  | inr e ↦ rw e (IsFirst-later b (c % 2 ^ 8) bs (memchr c bs) e (memchr_lem c bs))
]

get_or-take : (len i : ℕ) (bs : List ℕ) → i < len → get_or (take len bs) i 0 ≡ get_or bs i 0
get_or-take zero i bs h = absurd (omega arith)
get_or-take (suc len) i [] h = refl
get_or-take (suc len) zero (b ∷ bs) h = refl
get_or-take (suc len) (suc i) (b ∷ bs) h = get_or-take len i bs (omega arith)

get_or-drop : (n i : ℕ) (bs : List ℕ) → get_or (drop n bs) i 0 ≡ get_or bs (n + i) 0
get_or-drop zero i bs = let e : 0 + i ≡ i = omega arith in rw e refl
get_or-drop (suc n) i [] = refl
get_or-drop (suc n) i (b ∷ bs) =
    let e : suc n + i ≡ suc (n + i) = omega arith in rw e (get_or-drop n i bs)

-- The bytes of a range.
range_byte :
    (mem : List ℕ) (start len i : ℕ)
    → i < len
    → get_or (take len (drop start mem)) i 0 ≡ get_or mem (start + i) 0
range_byte mem start len i h = get_or-take len i (drop start mem) h ∙ get_or-drop start i mem

-- What is first in a range of the memory is found `pos` further on.
IsFirst-in_range :
    (mem : List ℕ) (str pos len byte : ℕ) (found : Option ℕ)
    → str + pos + len ≤ length mem
    → IsFirst
        (λ i. get_or (take len (drop (str + pos) mem)) i 0)
        (length (take len (drop (str + pos) mem)))
        byte
        found
    → IsFirst (λ i. get_or mem (str + pos + i) 0) len byte found
IsFirst-in_range mem str pos len byte found h first =
    let size : length (take len (drop (str + pos) mem)) ≡ len =
      omega (arith, length-take {0} len (drop (str + pos) mem), length-drop {0} (str + pos) mem) in
    again found (
      subst (λ n. IsFirst (λ i. get_or (take len (drop (str + pos) mem)) i 0) n byte found) size
        first)
  where
    again :
        (found : Option ℕ)
        → IsFirst (λ i. get_or (take len (drop (str + pos) mem)) i 0) len byte found
        → IsFirst (λ i. get_or mem (str + pos + i) 0) len byte found
    again none f = λ i hi same. f i hi (range_byte mem (str + pos) len i hi ∙ same)
    again (some r) (inside, there, before) = (
      inside,
      sym (range_byte mem (str + pos) len r inside) ∙ there,
      λ i hi same. before i hi (range_byte mem (str + pos) len i (omega arith) ∙ same),
    )

-- A result counts from the start of the bigstring, and -1 is none.
abbrev pub offset_in : ℕ → Option ℕ → Option ℕ
offset_in pos none = none
offset_in pos (some r) = some (pos + r)

-- For a range in memory, bigstring_find and bigstringaf_memchr agree: they give the position,
-- counted from the start of the bigstring, of the first byte of the range that is the needle
-- modulo 256, or -1 exactly when the range has none.
pub bigstring_find_lem :
    (mem : List ℕ) (str needle pos len : ℕ)
    → str + pos + len ≤ length mem
    → (found : Option ℕ) × IsFirst (λ i. get_or mem (str + pos + i) 0) len (needle % 2 ^ 8) found
      × (bigstring_find mem str needle pos len ≡ offset_in pos found)
      × (bigstringaf_memchr mem str pos needle len ≡ offset_in pos found)
unfolding bigstring_find bigstringaf_memchr
bigstring_find_lem mem str needle pos len h =
    let found = memchr needle (take len (drop (str + pos) mem)) in
    (
      found,
      IsFirst-in_range mem str pos len (needle % 2 ^ 8) found h
          (memchr_lem needle (take len (drop (str + pos) mem))),
      offsets found,
      offsets found,
    )
  where
    offsets :
        (found : Option ℕ)
        → (elim found as (λ _. Option ℕ) [ none ↦ none | some r ↦ some (pos + r) ])
          ≡ offset_in pos found
    offsets none = refl
    offsets (some r) = refl
