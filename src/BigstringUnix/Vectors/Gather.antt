-- ===== src/BigstringUnix/Vectors/Gather.antt =====
-- What the writes of several bigstrings hand to the kernel, and when they give up the runtime lock.
use ppx_universe.Base.{
  ℕ, zero, suc, ◌+◌, ◌%◌, ◌^◌, ◌≤◌, ◌<◌, ◌≡◌, refl, sym, ap, ap₂, ◌∙◌, List, [], ◌∷◌, ◌++◌, arith,
  Bool, true, false, if◌then◌else◌, ◌||◌, ltb, get_or, take, length,
}
use ppx_universe.BigstringUnix.Replies.{WriteReply, word}
use ppx_universe.BigstringUnix.Vectors.{
  thread_io_cutoff, IoVec, Iovec, no_io_vec, Event, enter_blocking_section, leave_blocking_section,
  stat_free, gather_call, to_iovec, copy_loop, copy_iovecs, contains_mmapped, in_blocking_section,
  writev_in_blocking_section, bigstring_writev_assume_fd_is_nonblocking,
  bigstring_sendmsg_nonblocking_no_sigpipe,
}

-- The vectors in order.
abbrev pub vectors : List IoVec → List Iovec
vectors [] = []
vectors (v ∷ vs) = to_iovec v ∷ vectors vs

-- The count of all the bytes.
abbrev pub bytes_of : List IoVec → ℕ
bytes_of [] = 0
bytes_of (v ∷ vs) = v.len + bytes_of vs

abbrev pub any_mapped : List IoVec → Bool
any_mapped [] = false
any_mapped (v ∷ vs) = if v.buf.mapped then true else any_mapped vs

take-suc :
    (n : ℕ) (vs : List IoVec)
    → n < length vs
    → take (suc n) vs ≡ take n vs ++ get_or vs n no_io_vec ∷ []
take-suc n [] h = absurd (omega arith)
take-suc zero (v ∷ vs) h = refl
take-suc (suc n) (v ∷ vs) h = ap (◌∷◌ v) (take-suc n vs (omega arith))

vectors_end :
    (vs : List IoVec) (v : IoVec) (rest : List Iovec)
    → vectors (vs ++ v ∷ []) ++ rest ≡ vectors vs ++ to_iovec v ∷ rest
vectors_end [] v rest = refl
vectors_end (w ∷ vs) v rest = ap (◌∷◌ (to_iovec w)) (vectors_end vs v rest)

bytes_end : (vs : List IoVec) (v : IoVec) → bytes_of (vs ++ v ∷ []) ≡ bytes_of vs + v.len
bytes_end [] v = omega arith
bytes_end (w ∷ vs) v = omega (arith, bytes_end vs v)

or_swap :
    (a b c : Bool)
    → (if a then true else (if b then true else c)) ≡ (if b then true else (if a then true else c))
or_swap true true c = refl
or_swap true false c = refl
or_swap false true c = refl
or_swap false false c = refl

any_end :
    (vs : List IoVec) (v : IoVec)
    → any_mapped (vs ++ v ∷ []) ≡ (if v.buf.mapped then true else any_mapped vs)
any_end [] v = refl
any_end (w ∷ vs) v =
    ap (λ (b : Bool). if w.buf.mapped then true else b) (any_end vs v)
    ∙ or_swap w.buf.mapped v.buf.mapped (any_mapped vs)

copy_loop_lem :
    (n : ℕ) (vs : List IoVec) (rest : List Iovec) (total : ℕ)
    → n ≤ length vs
    → total < word
    → copy_loop n vs rest total
      ≡ (vectors (take n vs) ++ rest, (total + bytes_of (take n vs)) % word)
unfolding copy_loop
copy_loop_lem zero vs rest total h ht =
    let e : (total + 0) % word ≡ total = omega arith in rw e refl
copy_loop_lem (suc n) vs rest total h ht =
    let v = get_or vs n no_io_vec in
    let front = take n vs in
    let sum : ((total + v.len) % word + bytes_of front) % word
        ≡ (total + bytes_of (front ++ v ∷ [])) % word =
      omega (arith, bytes_end front v) in
    rw (take-suc n vs h) (
      copy_loop_lem n vs (to_iovec v ∷ rest) ((total + v.len) % word) (omega arith) (omega arith)
      ∙ ap₂ (λ (l : List Iovec) (k : ℕ). (l, k)) (sym (vectors_end front v rest)) sum)

append_none : (l : List Iovec) → l ++ [] ≡ l
append_none [] = refl
append_none (v ∷ l) = ap (◌∷◌ v) (append_none l)

-- For a count of at most the vectors given, copy_iovecs gives the first count of them in order, and
-- the sum of their lengths modulo 2 ^ 64.
pub copy_iovecs_lem :
    (v_iovecs : List IoVec) (n : ℕ)
    → n ≤ length v_iovecs
    → copy_iovecs v_iovecs n ≡ (vectors (take n v_iovecs), bytes_of (take n v_iovecs) % 2 ^ 64)
unfolding copy_iovecs
copy_iovecs_lem v_iovecs n h =
    copy_loop_lem n v_iovecs [] 0 h (omega arith)
    ∙ ap (λ (l : List Iovec). (l, (0 + bytes_of (take n v_iovecs)) % word))
        (append_none (vectors (take n v_iovecs)))
    ∙ (let e : 0 + bytes_of (take n v_iovecs) ≡ bytes_of (take n v_iovecs) = omega arith in
        rw e refl)

contains_mmapped_lem :
    (v_iovecs : List IoVec) (n : ℕ)
    → n ≤ length v_iovecs
    → contains_mmapped v_iovecs n ≡ any_mapped (take n v_iovecs)
unfolding contains_mmapped
contains_mmapped_lem v_iovecs zero h = refl
contains_mmapped_lem v_iovecs (suc n) h =
    let v = get_or v_iovecs n no_io_vec in
    rw (take-suc n v_iovecs h) (
      ap (λ (b : Bool). if v.buf.mapped then true else b)
        (contains_mmapped_lem v_iovecs n (omega arith))
      ∙ sym (any_end (take n v_iovecs) v))

-- What a call on the vectors `vs` does, which gives up the runtime lock for more than
-- THREAD_IO_CUTOFF bytes or for a bigstring mapped from a file.
abbrev pub gather_events : List IoVec → List Event
gather_events vs =
    if ltb thread_io_cutoff (bytes_of vs % word) || any_mapped vs
    then enter_blocking_section ∷ gather_call (vectors vs) ∷ stat_free ∷ leave_blocking_section ∷ []
    else gather_call (vectors vs) ∷ stat_free ∷ []

-- For a count of at most the vectors given, bigstring_writev_assume_fd_is_nonblocking and
-- bigstring_sendmsg_nonblocking_no_sigpipe hand the kernel the first count vectors in order, free
-- the copy once afterwards, and release the runtime lock around the call exactly when their
-- lengths, summed modulo 2 ^ 64, exceed THREAD_IO_CUTOFF or one of their bigstrings is mapped from
-- a file.
pub assume_fd_is_nonblocking_events :
    (v_iovecs : List IoVec) (count : ℕ) (reply : WriteReply)
    → count ≤ length v_iovecs
    → ((bigstring_writev_assume_fd_is_nonblocking v_iovecs count reply).events
        ≡ gather_events (take count v_iovecs))
      × ((bigstring_sendmsg_nonblocking_no_sigpipe v_iovecs count reply).events
          ≡ gather_events (take count v_iovecs))
unfolding bigstring_writev_assume_fd_is_nonblocking bigstring_sendmsg_nonblocking_no_sigpipe
    writev_in_blocking_section in_blocking_section
assume_fd_is_nonblocking_events v_iovecs count reply h =
    rw (copy_iovecs_lem v_iovecs count h, contains_mmapped_lem v_iovecs count h) (refl, refl)
