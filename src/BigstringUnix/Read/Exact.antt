-- ===== src/BigstringUnix/Read/Exact.antt =====
-- What reading leaves in the bigstring, how it ends, and when it ends.
use ppx_universe.Base.{
  ℕ, ◌+◌, ◌-◌, ◌%◌, ◌^◌, ◌<◌, ◌≡◌, ◌⊎◌, inl, inr, refl, List, [], ◌∷◌, arith, length, ◌==◌, ltb,
  Bool-cases,
}
use mathlib.Core.Path.{subst}
use ppx_universe.Base.Splice.{splice}
use ppx_universe.BigstringUnix.Replies.{
  Errno, eintr, eagain, ewouldblock, einval, other, ReadReply, bytes, read, end_of_file, unix_error,
  Outcome, returned, io_error, blocked, word, HonestReads,
}
use ppx_universe.BigstringUnix.Read.{read_loop, bigstring_read}
use ppx_universe.BigstringUnix.Read.Rounds.{
  ReadEnd, IsRead, extend, nothing, weaken, skip, count_on,
}

module _ (start min init : ℕ) where
  -- A loop that has `got` bytes behind it and asks for `len` more.
  abbrev From : ℕ → ℕ → Outcome → Type 0
  From got n o = ReadEnd min init (got + n) o

  read_failed :
      (e : Errno) (mem : List ℕ) (at len got : ℕ) (replies : List ReadReply)
      → at ≡ start + got
      → (got < min) ⊎ (got ≡ 0)
      → IsRead mem at len (ReadReply.failed e ∷ replies) (From got) (record {
        mem = mem;
        outcome = io_error (at - start) (unix_error e read);
        asked = len ∷ [];
      })
  read_failed e mem at len got replies ha more =
      nothing mem at len (ReadReply.failed e ∷ replies) (From got)
        (io_error (at - start) (unix_error e read)) (len ∷ []) refl (omega arith, ground arith)

  read_loop_lem :
      (replies : List ReadReply) (mem : List ℕ) (at len got : ℕ)
      → at ≡ start + got
      → got + len ≡ init
      → init < word
      → (got < min) ⊎ (got ≡ 0)
      → HonestReads (read_loop start (start + min) init replies mem at len).asked replies
      → IsRead mem at len replies (From got) (read_loop start (start + min) init replies mem at len)
  unfolding read_loop
  read_loop_lem [] mem at len got ha hl hw more =
      λ _. nothing mem at len [] (From got) blocked (len ∷ []) refl (ground arith)
  read_loop_lem (ReadReply.failed eintr ∷ replies) mem at len got ha hl hw more =
      λ honest. skip eintr (read_loop_lem replies mem at len got ha hl hw more honest) len
  read_loop_lem (ReadReply.failed eagain ∷ replies) mem at len got ha hl hw more =
      λ _. read_failed eagain mem at len got replies ha more
  read_loop_lem (ReadReply.failed ewouldblock ∷ replies) mem at len got ha hl hw more =
      λ _. read_failed ewouldblock mem at len got replies ha more
  read_loop_lem (ReadReply.failed einval ∷ replies) mem at len got ha hl hw more =
      λ _. read_failed einval mem at len got replies ha more
  read_loop_lem (ReadReply.failed (other n) ∷ replies) mem at len got ha hl hw more =
      λ _. read_failed (other n) mem at len got replies ha more
  read_loop_lem (bytes [] ∷ replies) mem at len got ha hl hw more = λ _.
      elim (Bool-cases (init == 0)) [
        | inl e ↦ rw e (
            nothing mem at len (bytes [] ∷ replies) (From got) (returned 0) (len ∷ []) refl
              (ground arith, inr (ground arith)))
        | inr e ↦ rw e (
            nothing mem at len (bytes [] ∷ replies) (From got) (io_error (at - start) end_of_file)
              (len ∷ []) refl (omega arith, ground arith))
      ]
  read_loop_lem (bytes (b ∷ bs) ∷ replies) mem at len got ha hl hw more =
      let front = b ∷ bs in
      let n = length front in
      elim (Bool-cases (ltb (at + n) (start + min))) [
        | inl e ↦ rw e λ (fits, honest).
            let left : (len + word - n) % word ≡ len - n = omega arith in
            extend mem at len front replies (From got) fits
              (weaken (λ m o. count_on (ReadEnd min init) got n m o)
                (rw left (
                  read_loop_lem replies (splice mem at front) (at + n) (len - n) (got + n)
                    (omega arith) (omega arith) hw (inl (ground arith)) (rw left at honest))))
              len
        | inr e ↦ rw e λ (fits, _).
            extend mem at len front replies (From got) fits
              (nothing (splice mem at front) (at + n) (len - n) replies (λ m o. From got (n + m) o)
                (returned (at + n - start)) [] refl (omega arith, inl (ground arith)))
              len
      ]

-- For a length below 2 ^ 64 and answers with no more bytes than the length that their call of read
-- passed, bigstring_read places the bytes that the kernel gave, but for those of the answers that
-- no call used, at the position; they are at most the length, and nothing else changes; a result
-- is their count and at least the minimum unless the length is 0, and an error carries their
-- count, which is below the minimum or 0.
pub bigstring_read_lem :
    (min_len pos len : ℕ) (bstr : List ℕ) (replies : List ReadReply)
    → len < 2 ^ 64
    → HonestReads (bigstring_read min_len pos len bstr replies).asked replies
    → IsRead bstr pos len replies
        (ReadEnd min_len len)
        (bigstring_read min_len pos len bstr replies)
unfolding bigstring_read
bigstring_read_lem min_len pos len bstr replies hw honest =
    weaken (λ n o h. subst (λ k. ReadEnd min_len len k o) (omega arith) h)
      (read_loop_lem pos min_len len replies bstr pos len 0 (omega arith) (omega arith) hw
        (inr refl) honest)
