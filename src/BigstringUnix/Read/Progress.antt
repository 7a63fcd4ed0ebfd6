-- ===== src/BigstringUnix/Read/Progress.antt =====
-- Enough answers of the kernel end each loop.
use ppx_universe.Base.{
  ℕ, ◌+◌, ◌-◌, ◌%◌, ◌^◌, ◌≤◌, ◌<◌, ◌≡◌, inl, inr, List, [], ◌∷◌, arith, length, ◌==◌, ltb,
  Bool-cases, false,
}
use ppx_universe.Base.Splice.{splice}
use ppx_universe.BigstringUnix.Replies.{
  eintr, eagain, ewouldblock, einval, other, ReadReply, bytes, IsDone, word, sub_size, HonestReads,
  read_answers,
}
use ppx_universe.BigstringUnix.Read.{read_loop, bigstring_read, recv_loop, bigstring_really_recv}

read_loop-IsDone :
    (start min init : ℕ) (replies : List ReadReply) (mem : List ℕ) (at len got : ℕ)
    → at ≡ start + got
    → min ≤ got + read_answers replies
    → 0 < read_answers replies
    → IsDone (read_loop start (start + min) init replies mem at len).outcome
unfolding read_loop
read_loop-IsDone start min init [] mem at len got ha enough some = absurd (omega arith)
read_loop-IsDone start min init (ReadReply.failed eintr ∷ replies) mem at len got ha enough some =
    read_loop-IsDone start min init replies mem at len got ha enough some
read_loop-IsDone start min init (ReadReply.failed eagain ∷ replies) mem at len got ha enough some =
    tt
read_loop-IsDone start min init (ReadReply.failed ewouldblock ∷ replies) mem at len got ha enough
      some =
    tt
read_loop-IsDone start min init (ReadReply.failed einval ∷ replies) mem at len got ha enough some =
    tt
read_loop-IsDone start min init (ReadReply.failed (other n) ∷ replies) mem at len got ha enough
      some =
    tt
read_loop-IsDone start min init (bytes [] ∷ replies) mem at len got ha enough some =
    elim (Bool-cases (init == 0)) [ inl e ↦ rw e tt | inr e ↦ rw e tt ]
read_loop-IsDone start min init (bytes (b ∷ bs) ∷ replies) mem at len got ha enough some =
    let n = length (b ∷ bs) in
    elim (Bool-cases (ltb (at + n) (start + min))) [
      | inl e ↦ rw e (
          read_loop-IsDone start min init replies (splice mem at (b ∷ bs)) (at + n) (sub_size len n)
            (got + n) (omega arith) (ground arith) (ground arith))
      | inr e ↦ rw e tt
    ]

-- bigstring_read ends by the time that the kernel has given as many answers other than EINTR as
-- the minimum counts bytes, and one at least.
pub bigstring_read-IsDone :
    (min_len pos len : ℕ) (bstr : List ℕ) (replies : List ReadReply)
    → min_len ≤ read_answers replies
    → 0 < read_answers replies
    → IsDone (bigstring_read min_len pos len bstr replies).outcome
unfolding bigstring_read
bigstring_read-IsDone min_len pos len bstr replies enough some =
    read_loop-IsDone pos min_len len replies bstr pos len 0 (omega arith) (omega arith) some

nothing_left : (len : ℕ) → len ≤ 0 → ltb 0 len ≡ false
nothing_left len h = ground arith

recv_loop-IsDone :
    (replies : List ReadReply) (mem : List ℕ) (at len got : ℕ)
    → len < word
    → len ≤ read_answers replies
    → HonestReads (recv_loop replies mem at len got).asked replies
    → IsDone (recv_loop replies mem at len got).outcome
unfolding recv_loop
recv_loop-IsDone [] mem at len got hw enough = rw (nothing_left len enough) λ _. tt
recv_loop-IsDone (ReadReply.failed eintr ∷ replies) mem at len got hw enough =
    elim (Bool-cases (ltb 0 len)) [
      | inl t ↦ rw t λ honest. recv_loop-IsDone replies mem at len got hw enough honest
      | inr t ↦ rw t λ _. tt
    ]
recv_loop-IsDone (ReadReply.failed eagain ∷ replies) mem at len got hw enough =
    elim (Bool-cases (ltb 0 len)) [ inl t ↦ rw t λ _. tt | inr t ↦ rw t λ _. tt ]
recv_loop-IsDone (ReadReply.failed ewouldblock ∷ replies) mem at len got hw enough =
    elim (Bool-cases (ltb 0 len)) [ inl t ↦ rw t λ _. tt | inr t ↦ rw t λ _. tt ]
recv_loop-IsDone (ReadReply.failed einval ∷ replies) mem at len got hw enough =
    elim (Bool-cases (ltb 0 len)) [ inl t ↦ rw t λ _. tt | inr t ↦ rw t λ _. tt ]
recv_loop-IsDone (ReadReply.failed (other n) ∷ replies) mem at len got hw enough =
    elim (Bool-cases (ltb 0 len)) [ inl t ↦ rw t λ _. tt | inr t ↦ rw t λ _. tt ]
recv_loop-IsDone (bytes [] ∷ replies) mem at len got hw enough = elim (Bool-cases (ltb 0 len)) [
  | inl t ↦ rw t λ _. tt
  | inr t ↦ rw t λ _. tt
]
recv_loop-IsDone (bytes (b ∷ bs) ∷ replies) mem at len got hw enough =
    let n = length (b ∷ bs) in
    elim (Bool-cases (ltb 0 len)) [
      | inl t ↦ rw t λ (fits, honest).
          let left : (len + word - n) % word ≡ len - n = omega arith in
          rw left (
            recv_loop-IsDone replies (splice mem at (b ∷ bs)) (at + n) (len - n) (got + n)
              (omega arith) (omega arith) (rw left at honest))
      | inr t ↦ rw t λ _. tt
    ]

-- For a length below 2 ^ 64 and answers with no more bytes than were asked for,
-- bigstring_really_recv ends by the time that the kernel has given as many answers other than
-- EINTR as the length counts bytes.
pub bigstring_really_recv-IsDone :
    (pos len : ℕ) (bstr : List ℕ) (replies : List ReadReply)
    → len < 2 ^ 64
    → len ≤ read_answers replies
    → HonestReads (bigstring_really_recv pos len bstr replies).asked replies
    → IsDone (bigstring_really_recv pos len bstr replies).outcome
unfolding bigstring_really_recv
bigstring_really_recv-IsDone pos len bstr replies hw enough = elim (Bool-cases (len == 0)) [
  | inl e ↦ rw e λ _. tt
  | inr e ↦ rw e λ honest. recv_loop-IsDone replies bstr pos len 0 hw enough honest
]
