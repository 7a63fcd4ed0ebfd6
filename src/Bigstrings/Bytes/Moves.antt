-- ===== src/Bigstrings/Bytes/Moves.antt =====
-- What the moves leave in memory.
use ppx_universe.Base.{
  ℕ, ◌+◌, ◌*◌, ◌≤◌, ◌<◌, ◌≡◌, ◌⊎◌, refl, ap, ◌∙◌, sym, List, arith, length, length-take,
  length-drop, take, drop, get_or,
}
use ppx_universe.Base.Splice.{splice, length-splice, take-drop-splice, get_or-splice}
use ppx_universe.Bigstrings.Bytes.{
  copy, memmove, bigstring_blit, Buf, bin_prot_blit_buf, bin_prot_blit_float_array_buf,
  bin_prot_blit_buf_float_array, bigstringaf_blit_to_bigstring,
}

-- The range of `len` bytes at `dst` holds what `from` held at `src`, and nothing else changed.
pub record IsMoved (from : List ℕ) (src : ℕ) (to : List ℕ) (dst len : ℕ) (to' : List ℕ)
    : Type 0 where
  pub moved : take len (drop dst to') ≡ take len (drop src from)
  pub same_length : length to' ≡ length to
  pub others : (i : ℕ) → (i < dst) ⊎ (dst + len ≤ i) → get_or to' i 0 ≡ get_or to i 0

copy-IsMoved :
    (to : List ℕ) (dst : ℕ) (from : List ℕ) (src len : ℕ)
    → src + len ≤ length from
    → dst + len ≤ length to
    → IsMoved from src to dst len (copy to dst from src len)
unfolding copy
copy-IsMoved to dst from src len hs hd =
    let bs = take len (drop src from) in
    let size : length bs ≡ len =
      omega (arith, length-take {0} len (drop src from), length-drop {0} src from) in
    record {
      moved =
          ap (λ (n : ℕ). take n (drop dst (splice to dst bs))) (sym size)
          ∙ take-drop-splice to dst bs (omega (arith, size));
      same_length = length-splice to dst bs;
      others = λ i h. get_or-splice to dst bs i (ground (arith, size));
    }

-- For two ranges in memory, overlapping ones included, bigstring_blit leaves in the destination
-- what the source held before and changes no other byte, and bin_prot_blit_buf and
-- bigstringaf_blit_to_bigstring leave the same memory.
pub bigstring_blit_lem :
    (mem : List ℕ) (src : Buf) (src_pos : ℕ) (dst : Buf) (dst_pos len : ℕ)
    → src.data_ptr + src_pos + len ≤ length mem
    → dst.data_ptr + dst_pos + len ≤ length mem
    → IsMoved mem
        (src.data_ptr + src_pos)
        mem
        (dst.data_ptr + dst_pos)
        len
        (bigstring_blit mem src.data_ptr src_pos dst.data_ptr dst_pos len)
      × ((bin_prot_blit_buf mem src_pos src dst_pos dst len).0
          ≡ bigstring_blit mem src.data_ptr src_pos dst.data_ptr dst_pos len)
      × (bigstringaf_blit_to_bigstring mem src.data_ptr src_pos dst.data_ptr dst_pos len
          ≡ bigstring_blit mem src.data_ptr src_pos dst.data_ptr dst_pos len)
unfolding bigstring_blit bin_prot_blit_buf bigstringaf_blit_to_bigstring memmove
bigstring_blit_lem mem src src_pos dst dst_pos len hs hd =
    (copy-IsMoved mem (dst.data_ptr + dst_pos) mem (src.data_ptr + src_pos) len hs hd, refl, refl)

-- For ranges in bounds, bin_prot_blit_buf_float_array after bin_prot_blit_float_array_buf at one
-- place of the memory brings the bytes of the floats to the second array, at the places asked for,
-- and changes no other byte of it.
pub blit_buf_float_array-blit_float_array_buf :
    (arr mem out : List ℕ) (src_pos buf pos dst_pos len : ℕ)
    → src_pos * 8 + len * 8 ≤ length arr
    → buf + pos + len * 8 ≤ length mem
    → dst_pos * 8 + len * 8 ≤ length out
    → IsMoved arr (src_pos * 8) out (dst_pos * 8) (len * 8) (
        bin_prot_blit_buf_float_array pos
          (bin_prot_blit_float_array_buf src_pos arr pos mem buf len)
          buf
          dst_pos
          out
          len)
unfolding bin_prot_blit_buf_float_array bin_prot_blit_float_array_buf
blit_buf_float_array-blit_float_array_buf arr mem out src_pos buf pos dst_pos len ha hm ho =
    let there = copy-IsMoved mem (buf + pos) arr (src_pos * 8) (len * 8) ha hm in
    let mem' = copy mem (buf + pos) arr (src_pos * 8) (len * 8) in
    let back =
      copy-IsMoved out (dst_pos * 8) mem' (buf + pos) (len * 8) (omega (arith, there.same_length))
        ho in
    record {
      moved = back.moved ∙ there.moved;
      same_length = back.same_length;
      others = back.others;
    }
