-- ===== src/Bigstrings/Bytes.antt =====
-- Moves, comparison and search: base_bigstring/src/base_bigstring_stubs.c, bin_prot/src/blit_stubs.c
-- and bigstringaf/lib/bigstringaf_stubs.c. `mem` is the memory that the bigstrings lie in, so that
-- two may overlap, and a bigstring is its data pointer; an OCaml string is the list of its bytes.
pub mod Moves
pub mod Find
use ppx_universe.Base.{
  ℕ, zero, suc, ◌+◌, ◌*◌, ◌%◌, ◌^◌, List, [], ◌∷◌, Bool, true, false, Option, none, some,
  if◌then◌else◌, ◌==◌, ◌||◌, ltb, leb, length, take, drop,
}
use ppx_universe.Base.Splice.{splice}

-- `len` bytes from `src` of one memory to `dst` of another, or of the same.
unfoldable pub copy : List ℕ → ℕ → List ℕ → ℕ → ℕ → List ℕ
copy to dst from src len = splice to dst (take len (drop src from))

unfoldable pub memmove : List ℕ → ℕ → ℕ → ℕ → List ℕ
unfolding copy
memmove mem dst src len = copy mem dst mem src len

-- `n` times one byte.
unfoldable pub repeat : ℕ → ℕ → List ℕ
repeat zero b = []
repeat (suc n) b = b ∷ repeat n b

unfoldable pub memset : List ℕ → ℕ → ℕ → ℕ → List ℕ
unfolding repeat
memset mem at c len = splice mem at (repeat len (c % 2 ^ 8))

-- The offset of the first byte that is `c`.
unfoldable pub memchr : ℕ → List ℕ → Option ℕ
memchr c [] = none
memchr c (b ∷ bs) =
    let rest = memchr c bs in
    if b == c % 2 ^ 8 then some 0 else elim rest [ none ↦ none | some r ↦ some (suc r) ]

unfoldable pub bigstring_is_mmapped : Bool → Bool
bigstring_is_mmapped mapped = if mapped then true else false

unfoldable pub bigstring_blit_string_bigstring : List ℕ → ℕ → List ℕ → ℕ → ℕ → ℕ → List ℕ
unfolding copy
bigstring_blit_string_bigstring str src_pos mem bstr dst_pos len =
    copy mem (bstr + dst_pos) str src_pos len

unfoldable pub bigstring_blit_bytes_bigstring : List ℕ → ℕ → List ℕ → ℕ → ℕ → ℕ → List ℕ
unfolding copy
bigstring_blit_bytes_bigstring str src_pos mem bstr dst_pos len =
    copy mem (bstr + dst_pos) str src_pos len

unfoldable pub bigstring_blit_bigstring_bytes : List ℕ → ℕ → ℕ → List ℕ → ℕ → ℕ → List ℕ
unfolding copy
bigstring_blit_bigstring_bytes mem bstr src_pos str dst_pos len =
    copy str dst_pos mem (bstr + src_pos) len

unfoldable pub bigstring_blit : List ℕ → ℕ → ℕ → ℕ → ℕ → ℕ → List ℕ
unfolding memmove
bigstring_blit mem src src_pos dst dst_pos len = memmove mem (dst + dst_pos) (src + src_pos) len

unfoldable pub bigstring_memset : List ℕ → ℕ → ℕ → ℕ → ℕ → List ℕ
unfolding memset
bigstring_memset mem t pos len char = memset mem (t + pos) char len

-- The result of memcmp, an `int` as a word of 32 bits, is made -1, 0 or 1.
pub data Compared : Type 0 where
  less equal more : Compared

unfoldable pub bigstring_memcmp : (List ℕ → List ℕ → ℕ) → List ℕ → ℕ → ℕ → ℕ → ℕ → ℕ → Compared
bigstring_memcmp memcmp mem s1 s1_pos s2 s2_pos len =
    let res = memcmp (take len (drop (s1 + s1_pos) mem)) (take len (drop (s2 + s2_pos) mem)) in
    if leb (2 ^ 31) res then less else if ltb 0 res then more else equal

-- `none` is -1.
unfoldable pub bigstring_find : List ℕ → ℕ → ℕ → ℕ → ℕ → Option ℕ
unfolding memchr
bigstring_find mem str needle pos len = elim (memchr needle (take len (drop (str + pos) mem))) [
  | none ↦ none
  | some r ↦ some (pos + r)
]

unfoldable pub bin_prot_blit_string_buf : ℕ → List ℕ → ℕ → List ℕ → ℕ → ℕ → List ℕ
unfolding copy
bin_prot_blit_string_buf src_pos str dst_pos mem buf len = copy mem (buf + dst_pos) str src_pos len

unfoldable pub bin_prot_blit_bytes_buf : ℕ → List ℕ → ℕ → List ℕ → ℕ → ℕ → List ℕ
unfolding copy
bin_prot_blit_bytes_buf src_pos str dst_pos mem buf len = copy mem (buf + dst_pos) str src_pos len

unfoldable pub bin_prot_blit_buf_bytes : ℕ → List ℕ → ℕ → ℕ → List ℕ → ℕ → List ℕ
unfolding copy
bin_prot_blit_buf_bytes src_pos mem buf dst_pos str len = copy str dst_pos mem (buf + src_pos) len

-- A bigstring, and whether it is mapped from a file.
pub record Buf : Type 0 where
  pub data_ptr : ℕ
  pub mapped : Bool

-- The memory, and whether the runtime lock was released.
unfoldable pub bin_prot_blit_buf : List ℕ → ℕ → Buf → ℕ → Buf → ℕ → List ℕ × Bool
unfolding memmove
bin_prot_blit_buf mem src_pos src dst_pos dst len = (
  memmove mem (dst.data_ptr + dst_pos) (src.data_ptr + src_pos) len,
  ltb 65536 len || src.mapped || dst.mapped,
)

-- An array of floats is the list of its bytes, 8 for each.
unfoldable pub bin_prot_blit_float_array_buf : ℕ → List ℕ → ℕ → List ℕ → ℕ → ℕ → List ℕ
unfolding copy
bin_prot_blit_float_array_buf src_pos arr dst_pos mem buf len =
    copy mem (buf + dst_pos) arr (src_pos * 8) (len * 8)

unfoldable pub bin_prot_blit_buf_float_array : ℕ → List ℕ → ℕ → ℕ → List ℕ → ℕ → List ℕ
unfolding copy
bin_prot_blit_buf_float_array src_pos mem buf dst_pos arr len =
    copy arr (dst_pos * 8) mem (buf + src_pos) (len * 8)

unfoldable pub bigstringaf_blit_to_bytes : List ℕ → ℕ → ℕ → List ℕ → ℕ → ℕ → List ℕ
unfolding copy
bigstringaf_blit_to_bytes mem src src_off dst dst_off len = copy dst dst_off mem (src + src_off) len

unfoldable pub bigstringaf_blit_to_bigstring : List ℕ → ℕ → ℕ → ℕ → ℕ → ℕ → List ℕ
unfolding memmove
bigstringaf_blit_to_bigstring mem src src_off dst dst_off len =
    memmove mem (dst + dst_off) (src + src_off) len

unfoldable pub bigstringaf_blit_from_bytes : List ℕ → ℕ → List ℕ → ℕ → ℕ → ℕ → List ℕ
unfolding copy
bigstringaf_blit_from_bytes src src_off mem dst dst_off len =
    copy mem (dst + dst_off) src src_off len

unfoldable pub bigstringaf_memchr : List ℕ → ℕ → ℕ → ℕ → ℕ → Option ℕ
unfolding memchr
bigstringaf_memchr mem ba off chr len = elim (memchr chr (take len (drop (ba + off) mem))) [
  | none ↦ none
  | some r ↦ some (off + r)
]

-- The result of memcmp as it is.
unfoldable pub bigstringaf_memcmp_bigstring : (List ℕ → List ℕ → ℕ) → List ℕ → ℕ → ℕ → ℕ → ℕ → ℕ → ℕ
bigstringaf_memcmp_bigstring memcmp mem ba1 off1 ba2 off2 len =
    memcmp (take len (drop (ba1 + off1) mem)) (take len (drop (ba2 + off2) mem))

unfoldable pub bigstringaf_memcmp_string :
    (List ℕ → List ℕ → ℕ) → List ℕ → ℕ → ℕ → List ℕ → ℕ → ℕ → ℕ
bigstringaf_memcmp_string memcmp mem ba off1 str off2 len =
    memcmp (take len (drop (ba + off1) mem)) (take len (drop off2 str))
