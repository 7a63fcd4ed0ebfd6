-- ===== src/Iobuf/Received.antt =====
-- What iobuf_recvmmsg_assume_fd_is_nonblocking_stub leaves in the buffers.
use ppx_universe.Base.{
  ℕ, ◌+◌, ◌≤◌, ◌≡◌, ◌≢◌, ◌⊎◌, inl, inr, refl, arith, List, [], ◌∷◌, Bool, true, false, Option, none,
  some, if◌then◌else◌, ◌==◌, length, Bool-cases,
}
use ppx_universe.BigstringUnix.Replies.{einval}
use ppx_universe.BigstringUnix.Vectors.{Iovec, CallResult, long, minus_errno}
use ppx_universe.BigstringUnix.Recvmmsg.{Message, MmsgReply, messages}
use ppx_universe.Iobuf.{
  Iobuf, recvmmsg_ctx, with_message, Updated, later, update_loop,
  iobuf_recvmmsg_assume_fd_is_nonblocking,
}

-- The bounds of a buffer are in order.
pub record IsValid (b : Iobuf) : Type 0 where
  pub low : b.lo_min ≤ b.lo
  pub window : b.lo ≤ b.hi
  pub high : b.hi ≤ b.hi_max

abbrev pub AllValid : List Iobuf → Type 0
AllValid [] = Unit {0}
AllValid (b ∷ bs) = IsValid b × AllValid bs

-- A vector for each buffer, which does not reach behind a buffer that still has its address.
abbrev pub Covers : List Iobuf → List Iovec → Type 0
Covers [] [] = Unit {0}
Covers [] (v ∷ vs) = ⊥
Covers (b ∷ bs) [] = ⊥
Covers (b ∷ bs) (v ∷ vs) =
    (b.buf + b.lo_min ≡ v.iov_base → b.lo_min + v.iov_len ≤ b.hi_max) × Covers bs vs

-- No more messages than vectors, and none longer than its vector.
abbrev pub HonestMessages : List Iovec → List Message → Type 0
HonestMessages vs [] = Unit {0}
HonestMessages [] (m ∷ ms) = ⊥
HonestMessages (v ∷ vs) (m ∷ ms) = (m.msg_len ≤ v.iov_len) × HonestMessages vs ms

-- The window of a buffer is the first n bytes between its bounds; the rest is as it was.
pub record IsWindow (n : ℕ) (b b' : Iobuf) : Type 0 where
  pub start : b'.lo ≡ b.lo_min
  pub end : b'.hi ≡ b.lo_min + n
  pub buf : b'.buf ≡ b.buf
  pub lo_min : b'.lo_min ≡ b.lo_min
  pub hi_max : b'.hi_max ≡ b.hi_max

-- The windows of the first buffers hold the messages, and the other buffers are as they were; where
-- the loop was left early, the next buffer has another address than its vector.
abbrev pub HoldMessages : List Iobuf → List Iovec → List Message → Bool → List Iobuf → Type 0
HoldMessages bs vs [] done bs' = (done ≡ true) × (bs' ≡ bs)
HoldMessages (b ∷ bs) (v ∷ vs) (m ∷ ms) done (b' ∷ bs') =
    (IsWindow m.msg_len b b' × HoldMessages bs vs ms done bs')
    ⊎ ((done ≡ false) × (b.buf + b.lo_min ≢ v.iov_base) × (b' ∷ bs' ≡ b ∷ bs))
HoldMessages bs vs ms done bs' = ⊥

abbrev pub IsUpdated : List Iobuf → List Iovec → List Message → Updated → Type 0
IsUpdated bs vs ms none = ⊥
IsUpdated bs vs ms (some (bs', done)) = AllValid bs' × HoldMessages bs vs ms done bs'

later-IsUpdated :
    (b : Iobuf) (bs : List Iobuf) (v : Iovec) (vs : List Iovec) (m : Message) (ms : List Message)
    (rest : Updated)
    → IsValid (with_message m.msg_len b)
    → IsUpdated bs vs ms rest
    → IsUpdated (b ∷ bs) (v ∷ vs) (m ∷ ms) (later (with_message m.msg_len b) rest)
later-IsUpdated b bs v vs m ms none valid h = h
later-IsUpdated b bs v vs m ms (some (bs', done)) valid (all, held) =
    let window : IsWindow m.msg_len b (with_message m.msg_len b) = record {
      start = refl;
      end = refl;
      buf = refl;
      lo_min = refl;
      hi_max = refl;
    } in
    ((valid, all), inl (window, held))

update_loop-IsUpdated :
    (bs : List Iobuf) (vs : List Iovec) (ms : List Message)
    → AllValid bs
    → Covers bs vs
    → HonestMessages vs ms
    → IsUpdated bs vs ms (update_loop bs vs ms)
unfolding update_loop
update_loop-IsUpdated [] vs [] valid covers honest = (valid, (refl, refl))
update_loop-IsUpdated (b ∷ bs) vs [] valid covers honest = (valid, (refl, refl))
update_loop-IsUpdated [] [] (m ∷ ms) valid covers honest = absurd honest
update_loop-IsUpdated [] (v ∷ vs) (m ∷ ms) valid covers honest = absurd covers
update_loop-IsUpdated (b ∷ bs) [] (m ∷ ms) valid covers honest = absurd honest
update_loop-IsUpdated (b ∷ bs) (v ∷ vs) (m ∷ ms) (one, valid) (cover, covers) (fits, honest) =
    elim (Bool-cases ((b.buf + b.lo_min) == v.iov_base)) [
      | inl e ↦
          let reach : b.lo_min + v.iov_len ≤ b.hi_max = cover (ground arith) in
          rw e (
            later-IsUpdated b bs v vs m ms (update_loop bs vs ms)
              (record { low = omega arith; window = omega arith; high = omega arith })
              (update_loop-IsUpdated bs vs ms valid covers honest))
      | inr e ↦ rw e ((one, valid), inr (refl, λ same. absurd (ground arith), refl))
    ]

-- What a call leaves: after a failure all buffers as they were.
abbrev pub IsFilled :
    List Iobuf → List Iovec → MmsgReply → Option (CallResult × List Iobuf) → Type 0
IsFilled bs vs reply none = ⊥
IsFilled bs vs (MmsgReply.failed e) (some (result, bs')) = (result ≡ minus_errno e) × (bs' ≡ bs)
IsFilled bs vs (messages ms) (some (result, bs')) =
    AllValid bs'
    × (((result ≡ long (length ms)) × HoldMessages bs vs ms true bs')
        ⊎ ((result ≡ minus_errno einval) × HoldMessages bs vs ms false bs'))

abbrev pub HonestReply : List Iovec → MmsgReply → Type 0
HonestReply vs (MmsgReply.failed e) = Unit {0}
HonestReply vs (messages ms) = HonestMessages vs ms

-- For buffers whose bounds are in order, a vector for each buffer that does not reach behind a
-- buffer which still has its address, and an answer of at most as many messages, none longer than
-- its vector, iobuf_recvmmsg_assume_fd_is_nonblocking accesses nothing outside its arrays and
-- keeps the bounds of every buffer in order: the windows of the first buffers become exactly their
-- messages, the others stay as they were; the result is the count of the messages, or -EINVAL
-- where a buffer has another address than its vector, which and all behind it stay as they were,
-- or the error of the kernel, with all buffers as they were.
pub iobuf_recvmmsg_lem :
    (iobufs : List Iobuf) (ctx : List Iovec) (reply : MmsgReply)
    → AllValid iobufs
    → Covers iobufs ctx
    → HonestReply ctx reply
    → IsFilled iobufs ctx reply (iobuf_recvmmsg_assume_fd_is_nonblocking iobufs ctx reply)
unfolding iobuf_recvmmsg_assume_fd_is_nonblocking
iobuf_recvmmsg_lem iobufs ctx (MmsgReply.failed e) valid covers honest = (refl, refl)
iobuf_recvmmsg_lem iobufs ctx (messages ms) valid covers honest =
    ended (update_loop iobufs ctx ms) (update_loop-IsUpdated iobufs ctx ms valid covers honest)
  where
    ended :
        (u : Updated)
        → IsUpdated iobufs ctx ms u
        → IsFilled iobufs ctx (messages ms) (elim u as (λ _. Option (CallResult × List Iobuf)) [
          | none ↦ none
          | some (bs, done) ↦ some (if done then long (length ms) else minus_errno einval, bs)
        ])
    ended none h = h
    ended (some (bs, true)) (all, held) = (all, inl (refl, held))
    ended (some (bs, false)) (all, held) = (all, inr (refl, held))

-- The vectors made for valid buffers reach to their ends.
pub recvmmsg_ctx-Covers : (bs : List Iobuf) → AllValid bs → Covers bs (recvmmsg_ctx bs)
unfolding recvmmsg_ctx
recvmmsg_ctx-Covers [] valid = tt
recvmmsg_ctx-Covers (b ∷ bs) (one, valid) =
    (λ same. omega (arith, one.low, one.window, one.high), recvmmsg_ctx-Covers bs valid)
