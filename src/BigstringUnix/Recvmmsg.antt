-- ===== src/BigstringUnix/Recvmmsg.antt =====
-- bigstring_recvmmsg_assume_fd_is_nonblocking_stub of bigstring_unix_stubs.c and the function of
-- recvmmsg.c beneath it. A `long` is a number below 2 ^ 64, negative from 2 ^ 63 on; the answer of
-- recvmmsg and alloc_sockaddr are arguments.
pub mod Bounds
use ppx_universe.Base.{
  ℕ, zero, suc, ◌+◌, ◌%◌, ◌^◌, ◌≡◌, List, [], ◌∷◌, Bool, true, false, Option, none, some, not,
  if◌then◌else◌, ◌==◌, ◌||◌, ltb, leb, length, get_or, set,
}
use ppx_universe.BigstringUnix.Replies.{Errno, word}
use ppx_universe.BigstringUnix.Vectors.{
  thread_io_cutoff, IoVec, Iovec, no_io_vec, to_iovec, Event, gather_call, in_blocking_section,
  CallResult, long, minus_errno, invalid_argument, failwith,
}

-- A message: the bytes it brought, `msg_len`, and the address of its sender.
pub record Message : Type 0 where
  pub msg_len : ℕ
  pub msg_name : ℕ

-- -1 with errno, or the messages received.
pub data MmsgReply : Type 0 where
  failed : Errno → MmsgReply
  messages : List Message → MmsgReply

abbrev pub recvmmsg_max_count : ℕ
recvmmsg_max_count = 64

-- An OCaml value that is either an immediate number or an array.
pub data ArrayValue : Type 0 where
  immediate : ArrayValue
  array : List ℕ → ArrayValue

-- `v_srcs`: None, or Some of a value that should be an array of addresses.
pub data Sources : Type 0 where
  ignored : Sources
  saved : ArrayValue → Sources

pub record Received : Type 0 where
  pub result : CallResult
  pub srcs : Sources
  pub lens : ArrayValue
  pub events : List Event

-- `for (i = 0; (int) i < n_read; i++)`: one element of an array for each message from the i-th on.
unfoldable pub store_fields : (Message → ℕ) → ℕ → List Message → List ℕ → List ℕ
store_fields f i [] fields = fields
store_fields f i (m ∷ ms) fields = store_fields f (suc i) ms (set fields i (f m))

unfoldable pub total_len : List Iovec → ℕ → ℕ
total_len [] total = total
total_len (v ∷ vs) total = total_len vs ((total + v.iov_len) % word)

-- The part behind the system call.
unfoldable pub after_call : (ℕ → ℕ) → ℕ → Sources → MmsgReply → CallResult × Sources
unfolding store_fields
after_call alloc_sockaddr count srcs (failed e) = (minus_errno e, srcs)
after_call alloc_sockaddr count ignored (messages ms) =
    if ltb count (length ms) then (failwith, ignored) else (long (length ms), ignored)
after_call alloc_sockaddr count (saved immediate) (messages ms) =
    if ltb count (length ms)
    then (failwith, saved immediate)
    else (invalid_argument, saved immediate)
after_call alloc_sockaddr count (saved (array sockaddrs)) (messages ms) =
    if ltb count (length ms)
    then (failwith, saved (array sockaddrs))
    else if ltb (length sockaddrs) count
    then (invalid_argument, saved (array sockaddrs))
    else (
      long (length ms),
      saved (array (store_fields (λ (m : Message). alloc_sockaddr m.msg_name) 0 ms sockaddrs)),
    )

-- recvmmsg.c
unfoldable pub recvmmsg_assume_fd_is_nonblocking :
    (ℕ → ℕ) → List Iovec → ℕ → Sources → MmsgReply → CallResult × Sources × List Event
unfolding after_call total_len in_blocking_section
recvmmsg_assume_fd_is_nonblocking alloc_sockaddr iovecs count srcs reply =
    if leb (2 ^ 31) count || ltb recvmmsg_max_count count
    then (failwith, srcs, [])
    else let (result, srcs') = after_call alloc_sockaddr count srcs reply in
      (
        result,
        srcs',
        if ltb thread_io_cutoff (total_len iovecs 0)
            then in_blocking_section (gather_call iovecs ∷ [])
            else gather_call iovecs ∷ [],
      )

-- `for (i = 0; i < count; i++)`: the vectors from i on.
unfoldable pub fill_iovecs : List IoVec → ℕ → ℕ → List Iovec
fill_iovecs v_iovecs i zero = []
fill_iovecs v_iovecs i (suc n) =
    to_iovec (get_or v_iovecs i no_io_vec) ∷ fill_iovecs v_iovecs (suc i) n

-- `Field(v_lens, i) = Val_long(hdrs[i].msg_len)`, where the call beneath has returned.
unfoldable pub lens_after : CallResult → MmsgReply → List ℕ → List ℕ
unfolding store_fields
lens_after (long n) (messages ms) lens = store_fields (λ (m : Message). m.msg_len) 0 ms lens
lens_after result reply lens = lens

-- `(unsigned) Long_val(v_count)`, refused where it is another number.
unfoldable pub truncated : ℕ → Bool
truncated v_count = leb (2 ^ 63) v_count || not (v_count % 2 ^ 32 == v_count)

unfoldable pub bigstring_recvmmsg_assume_fd_is_nonblocking :
    (ℕ → ℕ) → List IoVec → ℕ → Sources → ArrayValue → MmsgReply → Received
unfolding truncated fill_iovecs lens_after recvmmsg_assume_fd_is_nonblocking
bigstring_recvmmsg_assume_fd_is_nonblocking alloc_sockaddr v_iovecs v_count srcs immediate reply =
    record { result = invalid_argument; srcs = srcs; lens = immediate; events = [] }
bigstring_recvmmsg_assume_fd_is_nonblocking alloc_sockaddr v_iovecs v_count srcs (array lens)
      reply =
    let count = v_count % 2 ^ 32 in
    if truncated v_count || ltb (length lens) count || ltb recvmmsg_max_count count
    then record { result = invalid_argument; srcs = srcs; lens = array lens; events = [] }
    else let (result, srcs', events) =
        recvmmsg_assume_fd_is_nonblocking alloc_sockaddr (fill_iovecs v_iovecs 0 count) count srcs
          reply in
      record {
        result = result;
        srcs = srcs';
        lens = array (lens_after result reply lens);
        events = events;
      }
