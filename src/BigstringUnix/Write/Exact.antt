-- ===== src/BigstringUnix/Write/Exact.antt =====
-- What the really_ primitives send, how they end, and when they end.
use ppx_universe.Base.{
  ℕ, zero, suc, ◌+◌, ◌-◌, ◌%◌, ◌^◌, ◌≤◌, ◌<◌, ◌≡◌, ◌⊎◌, inl, inr, refl, ap, ◌∙◌, List, [], ◌∷◌,
  ◌++◌, arith, length, take, drop, take-drop-append, ltb, Bool-cases,
}
use ppx_universe.BigstringUnix.Replies.{
  eintr, eagain, ewouldblock, einval, other, WriteReply, wrote, Command, unix_error, Outcome,
  returned, io_error, blocked, IsDone, word, HonestWrites, write_answers,
}
use ppx_universe.BigstringUnix.Write.{Writing, offering, really_output_loop, really_output}

-- How a wish to send `len` bytes ends after `count`.
abbrev pub WriteEnd : ℕ → ℕ → Outcome → Type 0
WriteEnd len count (returned n) = count ≡ len
WriteEnd len count (io_error n e) = (n ≡ count) × ((count < len) ⊎ (len ≡ 0))
WriteEnd len count blocked = (count < len) ⊎ (len ≡ 0)

-- The kernel took the first `count` bytes of the range.
pub record IsSent (mem : List ℕ) (pos len : ℕ) (r : Writing) : Type 0 where
  pub count : ℕ
  pub taken : r.sent ≡ take count (drop pos mem)
  pub fits : count ≤ len
  pub ended : WriteEnd len count r.outcome

answers_there : (replies : List WriteReply) → 0 < write_answers replies → 0 < length replies
answers_there [] h = absurd (omega arith)
answers_there (r ∷ replies) h = omega arith

module _ (name : Command) (mem : List ℕ) (start init : ℕ) where
  stopped :
      (got : ℕ) (sent : List ℕ) (o : Outcome) (offered : List ℕ)
      → sent ≡ take got (drop start mem)
      → got ≤ init
      → WriteEnd init got o
      → IsSent mem start init (record { sent = sent; outcome = o; offered = offered })
  stopped got sent o offered hs hg h = record { count = got; taken = hs; fits = hg; ended = h }

  offered_more :
      (a : ℕ) {r : Writing} → IsSent mem start init r → IsSent mem start init (offering a r)
  offered_more a i = record { count = i.count; taken = i.taken; fits = i.fits; ended = i.ended }

  really_output_loop_lem :
      (replies : List WriteReply) (sent : List ℕ) (got : ℕ)
      → sent ≡ take got (drop start mem)
      → got ≤ init
      → (got < init) ⊎ (init ≡ 0)
      → init < word
      → HonestWrites
          (really_output_loop name mem start
            (start + init)
            replies
            sent
            (start + got)
            (init - got)).offered
          replies
      → IsSent mem start init
          (really_output_loop name mem start (start + init) replies sent (start + got) (init - got))
  unfolding really_output_loop
  really_output_loop_lem [] sent got hs hg more hw =
      λ _. stopped got sent blocked ((init - got) ∷ []) hs hg more
  really_output_loop_lem (WriteReply.failed eintr ∷ replies) sent got hs hg more hw =
      elim (Bool-cases (ltb (start + got) (start + init))) [
        | inl t ↦ rw t λ honest.
            offered_more (init - got) (really_output_loop_lem replies sent got hs hg more hw honest)
        | inr t ↦ rw t λ _. stopped got sent (returned 0) ((init - got) ∷ []) hs hg (ground arith)
      ]
  really_output_loop_lem (WriteReply.failed eagain ∷ replies) sent got hs hg more hw = λ _.
      stopped got sent (io_error (start + got - start) (unix_error eagain name)) ((init - got) ∷ [])
        hs hg (omega arith, more)
  really_output_loop_lem (WriteReply.failed ewouldblock ∷ replies) sent got hs hg more hw = λ _.
      stopped got sent (io_error (start + got - start) (unix_error ewouldblock name))
        ((init - got) ∷ []) hs hg (omega arith, more)
  really_output_loop_lem (WriteReply.failed einval ∷ replies) sent got hs hg more hw = λ _.
      stopped got sent (io_error (start + got - start) (unix_error einval name)) ((init - got) ∷ [])
        hs hg (omega arith, more)
  really_output_loop_lem (WriteReply.failed (other n) ∷ replies) sent got hs hg more hw = λ _.
      stopped got sent (io_error (start + got - start) (unix_error (other n) name))
        ((init - got) ∷ []) hs hg (omega arith, more)
  really_output_loop_lem (wrote n ∷ replies) sent got hs hg more hw =
      let at : start + got + n ≡ start + (got + n) = omega arith in
      let joined : sent ++ take n (drop (start + got) mem) ≡ take (got + n) (drop start mem) =
        ap (λ (l : List ℕ). l ++ take n (drop (start + got) mem)) hs
        ∙ take-drop-append mem start got n in
      elim (Bool-cases (ltb (start + got + n) (start + init))) [
        | inl t ↦ rw t λ (fits, honest).
            let left : (init - got + word - n) % word ≡ init - (got + n) = omega arith in
            offered_more (init - got) (
              rw (left, at)
                (really_output_loop_lem replies (sent ++ take n (drop (start + got) mem)) (got + n)
                  joined (omega arith) (inl (ground arith)) hw (rw (left, at) at honest)))
        | inr t ↦ rw t λ (fits, _).
            stopped (got + n) (sent ++ take n (drop (start + got) mem)) (returned 0)
              ((init - got) ∷ []) joined (omega arith) (ground arith)
      ]

  really_output_loop-IsDone :
      (replies : List WriteReply) (sent : List ℕ) (got : ℕ)
      → got ≤ init
      → init < word
      → init - got ≤ write_answers replies
      → 0 < length replies
      → HonestWrites
          (really_output_loop name mem start
            (start + init)
            replies
            sent
            (start + got)
            (init - got)).offered
          replies
      → IsDone
          (really_output_loop name mem start
            (start + init)
            replies
            sent
            (start + got)
            (init - got)).outcome
  unfolding really_output_loop
  really_output_loop-IsDone [] sent got hg hw enough some = λ _. absurd (omega arith)
  really_output_loop-IsDone (WriteReply.failed eintr ∷ replies) sent got hg hw enough some =
      elim (Bool-cases (ltb (start + got) (start + init))) [
        | inl t ↦ rw t λ honest.
            really_output_loop-IsDone replies sent got hg hw enough
              (answers_there replies (ground arith)) honest
        | inr t ↦ rw t λ _. tt
      ]
  really_output_loop-IsDone (WriteReply.failed eagain ∷ replies) sent got hg hw enough some =
      λ _. tt
  really_output_loop-IsDone (WriteReply.failed ewouldblock ∷ replies) sent got hg hw enough some =
      λ _. tt
  really_output_loop-IsDone (WriteReply.failed einval ∷ replies) sent got hg hw enough some =
      λ _. tt
  really_output_loop-IsDone (WriteReply.failed (other n) ∷ replies) sent got hg hw enough some =
      λ _. tt
  really_output_loop-IsDone (wrote zero ∷ replies) sent got hg hw enough some =
      let m : ℕ = 0 in
      let at : start + got + m ≡ start + (got + m) = omega arith in
      elim (Bool-cases (ltb (start + got + m) (start + init))) [
        | inl t ↦ rw t λ (fits, honest).
            let left : (init - got + word - m) % word ≡ init - (got + m) = omega arith in
            rw (left, at)
              (really_output_loop-IsDone replies (sent ++ take m (drop (start + got) mem)) (got + m)
                (omega arith) hw (omega arith) (answers_there replies (ground arith))
                (rw (left, at) at honest))
        | inr t ↦ rw t λ _. tt
      ]
  really_output_loop-IsDone (wrote (suc n) ∷ replies) sent got hg hw enough some =
      let m = suc n in
      let at : start + got + m ≡ start + (got + m) = omega arith in
      elim (Bool-cases (ltb (start + got + m) (start + init))) [
        | inl t ↦ rw t λ (fits, honest).
            let left : (init - got + word - m) % word ≡ init - (got + m) = omega arith in
            rw (left, at)
              (really_output_loop-IsDone replies (sent ++ take m (drop (start + got) mem)) (got + m)
                (omega arith) hw (omega arith) (answers_there replies (ground arith))
                (rw (left, at) at honest))
        | inr t ↦ rw t λ _. tt
      ]

-- For a length below 2 ^ 64 and answers that take no more than the length that their call passed,
-- the loop of bigstring_really_write and bigstring_really_send_no_sigpipe sends a first part of
-- the range, each byte once and in order; it returns only with the whole range sent, and an error
-- carries the count that was sent.
pub really_output_lem :
    (name : Command) (pos len : ℕ) (bstr : List ℕ) (replies : List WriteReply)
    → len < 2 ^ 64
    → HonestWrites (really_output name pos len bstr replies).offered replies
    → IsSent bstr pos len (really_output name pos len bstr replies)
unfolding really_output
really_output_lem name pos len bstr replies hw honest =
    let at : pos + 0 ≡ pos = omega arith in
    let all : len - 0 ≡ len = omega arith in
    rw (at, all) at
      (really_output_loop_lem name bstr pos len replies [] 0 refl (omega arith) (ground arith) hw
        (rw (at, all) honest))

-- For a length below 2 ^ 64 and answers that take no more than was offered, the loop of
-- bigstring_really_write and bigstring_really_send_no_sigpipe ends by the time that the kernel has
-- given one answer and as many answers that take a byte or fail other than with EINTR as the
-- length counts bytes.
pub really_output-IsDone :
    (name : Command) (pos len : ℕ) (bstr : List ℕ) (replies : List WriteReply)
    → len < 2 ^ 64
    → len ≤ write_answers replies
    → 0 < length replies
    → HonestWrites (really_output name pos len bstr replies).offered replies
    → IsDone (really_output name pos len bstr replies).outcome
unfolding really_output
really_output-IsDone name pos len bstr replies hw enough some honest =
    let at : pos + 0 ≡ pos = omega arith in
    let all : len - 0 ≡ len = omega arith in
    rw (at, all) at
      (really_output_loop-IsDone name bstr pos len replies [] 0 (omega arith) hw (rw all enough)
        some (rw (at, all) honest))
