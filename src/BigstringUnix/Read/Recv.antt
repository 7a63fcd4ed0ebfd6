-- ===== src/BigstringUnix/Read/Recv.antt =====
-- bigstring_really_recv_stub fills its range or tells how far it came.
use ppx_universe.Base.{
  ℕ, ◌+◌, ◌-◌, ◌%◌, ◌^◌, ◌<◌, ◌≡◌, inl, inr, refl, List, [], ◌∷◌, arith, length, if◌then◌else◌,
  ◌==◌, ltb, Bool-cases, false,
}
use mathlib.Core.Path.{subst}
use ppx_universe.Base.Splice.{splice}
use ppx_universe.BigstringUnix.Replies.{
  Errno, eintr, eagain, ewouldblock, einval, other, ReadReply, bytes, really_recv, end_of_file,
  unix_error, Outcome, returned, io_error, blocked, word, HonestReads,
}
use ppx_universe.BigstringUnix.Read.{received_all, recv_loop, bigstring_really_recv}
use ppx_universe.BigstringUnix.Read.Rounds.{IsRead, extend, nothing, weaken, skip, count_on}

-- How a wish for exactly `len` bytes ends after `count`.
abbrev pub RecvEnd : ℕ → ℕ → Outcome → Type 0
RecvEnd len count (returned n) = count ≡ len
RecvEnd len count (io_error n e) = (n ≡ count) × (count < len)
RecvEnd len count blocked = count < len

module _ (init : ℕ) where
  abbrev From : ℕ → ℕ → Outcome → Type 0
  From got n o = RecvEnd init (got + n) o

  full :
      (mem : List ℕ) (at len got : ℕ) (replies : List ReadReply)
      → got + len ≡ init
      → ltb 0 len ≡ false
      → IsRead mem at len replies (From got) (received_all mem)
  full mem at len got replies hl e =
      nothing mem at len replies (From got) (returned 0) [] refl (ground arith)

  recv_failed :
      (e : Errno) (mem : List ℕ) (at len got : ℕ) (replies : List ReadReply)
      → got + len ≡ init
      → IsRead mem at len (ReadReply.failed e ∷ replies) (From got) (
          if ltb 0 len
          then record {
            mem = mem;
            outcome = io_error got (unix_error e really_recv);
            asked = len ∷ [];
          }
          else received_all mem)
  recv_failed e mem at len got replies hl = elim (Bool-cases (ltb 0 len)) [
    | inl t ↦ rw t (
        nothing mem at len (ReadReply.failed e ∷ replies) (From got)
          (io_error got (unix_error e really_recv)) (len ∷ []) refl (omega arith, ground arith))
    | inr t ↦ rw t (full mem at len got (ReadReply.failed e ∷ replies) hl t)
  ]

  recv_loop_lem :
      (replies : List ReadReply) (mem : List ℕ) (at len got : ℕ)
      → got + len ≡ init
      → init < word
      → HonestReads (recv_loop replies mem at len got).asked replies
      → IsRead mem at len replies (From got) (recv_loop replies mem at len got)
  unfolding recv_loop
  recv_loop_lem [] mem at len got hl hw = elim (Bool-cases (ltb 0 len)) [
    | inl t ↦ rw t λ _. nothing mem at len [] (From got) blocked (len ∷ []) refl (ground arith)
    | inr t ↦ rw t λ _. full mem at len got [] hl t
  ]
  recv_loop_lem (ReadReply.failed eintr ∷ replies) mem at len got hl hw =
      elim (Bool-cases (ltb 0 len)) [
        | inl t ↦ rw t λ honest. skip eintr (recv_loop_lem replies mem at len got hl hw honest) len
        | inr t ↦ rw t λ _. full mem at len got (ReadReply.failed eintr ∷ replies) hl t
      ]
  recv_loop_lem (ReadReply.failed eagain ∷ replies) mem at len got hl hw =
      λ _. recv_failed eagain mem at len got replies hl
  recv_loop_lem (ReadReply.failed ewouldblock ∷ replies) mem at len got hl hw =
      λ _. recv_failed ewouldblock mem at len got replies hl
  recv_loop_lem (ReadReply.failed einval ∷ replies) mem at len got hl hw =
      λ _. recv_failed einval mem at len got replies hl
  recv_loop_lem (ReadReply.failed (other n) ∷ replies) mem at len got hl hw =
      λ _. recv_failed (other n) mem at len got replies hl
  recv_loop_lem (bytes [] ∷ replies) mem at len got hl hw = elim (Bool-cases (ltb 0 len)) [
    | inl t ↦ rw t λ _.
        nothing mem at len (bytes [] ∷ replies) (From got) (io_error got end_of_file) (len ∷ [])
          refl (omega arith, ground arith)
    | inr t ↦ rw t λ _. full mem at len got (bytes [] ∷ replies) hl t
  ]
  recv_loop_lem (bytes (b ∷ bs) ∷ replies) mem at len got hl hw =
      let front = b ∷ bs in
      let n = length front in
      elim (Bool-cases (ltb 0 len)) [
        | inl t ↦ rw t λ (fits, honest).
            let left : (len + word - n) % word ≡ len - n = omega arith in
            extend mem at len front replies (From got) fits
              (weaken (λ m o. count_on (RecvEnd init) got n m o)
                (rw left (
                  recv_loop_lem replies (splice mem at front) (at + n) (len - n) (got + n)
                    (omega arith) hw (rw left at honest))))
              len
        | inr t ↦ rw t λ _. full mem at len got (bytes (b ∷ bs) ∷ replies) hl t
      ]

-- For a length below 2 ^ 64 and answers with no more bytes than were asked for,
-- bigstring_really_recv places a first part of the bytes that the kernel gave at the position and
-- changes nothing else; it returns exactly when the whole length arrived, and an error carries the
-- smaller count that did.
pub bigstring_really_recv_lem :
    (pos len : ℕ) (bstr : List ℕ) (replies : List ReadReply)
    → len < 2 ^ 64
    → HonestReads (bigstring_really_recv pos len bstr replies).asked replies
    → IsRead bstr pos len replies (RecvEnd len) (bigstring_really_recv pos len bstr replies)
unfolding bigstring_really_recv
bigstring_really_recv_lem pos len bstr replies hw = elim (Bool-cases (len == 0)) [
  | inl e ↦ rw e λ _. nothing bstr pos len replies (RecvEnd len) (returned 0) [] refl (ground arith)
  | inr e ↦ rw e λ honest.
      weaken (λ n o h. subst (λ k. RecvEnd len k o) (omega arith) h)
        (recv_loop_lem len replies bstr pos len 0 (omega arith) hw honest)
]
