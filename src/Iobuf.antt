-- ===== src/Iobuf.antt =====
-- core/iobuf_unix/src/iobuf_stubs.c: messages received into many buffers at once, over vectors that
-- are made once. What recvmmsg answers is an argument; `none` is an access outside an array.
pub mod Received
mod Tests
use ppx_universe.Base.{
  ℕ, zero, suc, ◌+◌, ◌-◌, List, [], ◌∷◌, Bool, true, false, Option, none, some, if◌then◌else◌, ◌==◌,
  length,
}
use ppx_universe.BigstringUnix.Replies.{Errno, einval}
use ppx_universe.BigstringUnix.Vectors.{Iovec, CallResult, long, minus_errno}
use ppx_universe.BigstringUnix.Recvmmsg.{Message, MmsgReply, messages}

-- The OCaml record of a buffer: the data pointer of `buf`, and its bounds.
pub record Iobuf : Type 0 where
  pub buf : ℕ
  pub lo_min : ℕ
  pub lo : ℕ
  pub hi : ℕ
  pub hi_max : ℕ

-- iobuf_recvmmsg_ctx: the vectors; the headers point to them.
unfoldable pub recvmmsg_ctx : List Iobuf → List Iovec
recvmmsg_ctx [] = []
recvmmsg_ctx (b ∷ bs) =
    record { iov_base = b.buf + b.lo_min; iov_len = b.hi_max - b.lo_min } ∷ recvmmsg_ctx bs

-- `Field(v_iobuf, iobuf_lo) = v_lo_min` and the field behind it.
abbrev pub with_message : ℕ → Iobuf → Iobuf
with_message n b = record b { lo = b.lo_min; hi = b.lo_min + n }

-- The buffers, and whether the loop ran to its end.
abbrev pub Updated : Type 0
Updated = Option (List Iobuf × Bool)

abbrev pub later : Iobuf → Updated → Updated
later b none = none
later b (some (bs, done)) = some (b ∷ bs, done)

-- `for (i = 0; (int) i < n_read; i++)`, which a buffer with another address ends.
unfoldable pub update_loop : List Iobuf → List Iovec → List Message → Updated
update_loop bs vs [] = some (bs, true)
update_loop (b ∷ bs) (v ∷ vs) (m ∷ ms) =
    let rest = update_loop bs vs ms in
    if (b.buf + b.lo_min) == v.iov_base
    then later (with_message m.msg_len b) rest
    else some (b ∷ bs, false)
update_loop bs vs ms = none

unfoldable pub iobuf_recvmmsg_assume_fd_is_nonblocking :
    List Iobuf → List Iovec → MmsgReply → Option (CallResult × List Iobuf)
unfolding update_loop
iobuf_recvmmsg_assume_fd_is_nonblocking iobufs ctx (MmsgReply.failed e) =
    some (minus_errno e, iobufs)
iobuf_recvmmsg_assume_fd_is_nonblocking iobufs ctx (messages ms) =
    elim (update_loop iobufs ctx ms) [
      | none ↦ none
      | some (bs, done) ↦ some (if done then long (length ms) else minus_errno einval, bs)
    ]
