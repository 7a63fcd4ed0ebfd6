-- ===== src/BigstringUnix/Vectors.antt =====
-- I/O vectors: copy_iovecs and jane_writev of jane-street-headers/include/unix_utils.h, and the
-- primitives of bigstring_unix_stubs.c that write several bigstrings at once. A pointer is a
-- number; the answer of writev or sendmsg is an argument.
pub mod Gather
use ppx_universe.Base.{
  ℕ, zero, suc, ◌+◌, ◌%◌, List, [], ◌∷◌, ◌++◌, Bool, true, false, if◌then◌else◌, ◌==◌, ◌&&◌, ◌||◌,
  ltb, get_or,
}
use ppx_universe.BigstringUnix.Replies.{Errno, eagain, ewouldblock, einval, WriteReply, wrote, word}

-- `struct caml_ba_array`: `data`, and whether `flags` has CAML_BA_MAPPED_FILE.
pub record Bigstring : Type 0 where
  pub data_ptr : ℕ
  pub mapped : Bool

-- The OCaml record of a bigstring, a position and a length.
pub record IoVec : Type 0 where
  pub buf : Bigstring
  pub pos : ℕ
  pub len : ℕ

-- `struct iovec`
pub record Iovec : Type 0 where
  pub iov_base : ℕ
  pub iov_len : ℕ

abbrev pub no_io_vec : IoVec
no_io_vec = record { buf = record { data_ptr = 0; mapped = false }; pos = 0; len = 0 }

-- What a primitive does besides computing: it releases the runtime lock and takes it again, makes
-- a system call on vectors, frees the copied vectors.
pub data Event : Type 0 where
  enter_blocking_section leave_blocking_section stat_free : Event
  gather_call : List Iovec → Event

-- A number, -errno, or an exception.
pub data CallResult : Type 0 where
  long : ℕ → CallResult
  minus_errno uerror : Errno → CallResult
  minus_one invalid_argument failwith : CallResult

pub record Called : Type 0 where
  pub result : CallResult
  pub events : List Event

-- THREAD_IO_CUTOFF of core_params.h
abbrev pub thread_io_cutoff : ℕ
thread_io_cutoff = 65536

unfoldable pub get_bstr : Bigstring → ℕ → ℕ
get_bstr b pos = b.data_ptr + pos

unfoldable pub to_iovec : IoVec → Iovec
unfolding get_bstr
to_iovec v = record { iov_base = get_bstr v.buf v.pos; iov_len = v.len }

-- `for (--n; n >= 0; --n)`, with the vectors from n on and the lengths added up so far.
unfoldable pub copy_loop : ℕ → List IoVec → List Iovec → ℕ → List Iovec × ℕ
copy_loop zero v_iovecs iovecs total_len = (iovecs, total_len)
copy_loop (suc n) v_iovecs iovecs total_len =
    let v_iovec = get_or v_iovecs n no_io_vec in
    copy_loop n v_iovecs (to_iovec v_iovec ∷ iovecs) ((total_len + v_iovec.len) % word)

unfoldable pub copy_iovecs : List IoVec → ℕ → List Iovec × ℕ
copy_iovecs v_iovecs n = copy_loop n v_iovecs [] 0

unfoldable pub contains_mmapped : List IoVec → ℕ → Bool
contains_mmapped v_iovecs zero = false
contains_mmapped v_iovecs (suc n) =
    let rest = contains_mmapped v_iovecs n in
    if (get_or v_iovecs n no_io_vec).buf.mapped then true else rest

-- EINVAL for no vectors at all is no error.
unfoldable pub jane_writev : WriteReply → ℕ → WriteReply
jane_writev (WriteReply.failed einval) iovcnt =
    if iovcnt == 0 then wrote 0 else WriteReply.failed einval
jane_writev r iovcnt = r

-- `if (ret == -1) uerror(...); return Val_long(ret)`
unfoldable pub or_uerror : WriteReply → CallResult
or_uerror (WriteReply.failed e) = uerror e
or_uerror (wrote n) = long n

-- `if (ret == -1) ret = -errno`
unfoldable pub or_minus_errno : WriteReply → CallResult
or_minus_errno (WriteReply.failed e) = minus_errno e
or_minus_errno (wrote n) = long n

unfoldable pub in_blocking_section : List Event → List Event
in_blocking_section events = enter_blocking_section ∷ (events ++ leave_blocking_section ∷ [])

unfoldable pub writev_in_blocking_section : List Iovec → List Event
unfolding in_blocking_section
writev_in_blocking_section iovecs = in_blocking_section (gather_call iovecs ∷ stat_free ∷ [])

unfoldable pub bigstring_writev : List IoVec → ℕ → WriteReply → Called
unfolding copy_iovecs jane_writev or_uerror writev_in_blocking_section
bigstring_writev v_iovecs count reply = record {
  result = or_uerror (jane_writev reply count);
  events = writev_in_blocking_section (copy_iovecs v_iovecs count).0;
}

unfoldable pub bigstring_writev_assume_fd_is_nonblocking : List IoVec → ℕ → WriteReply → Called
unfolding copy_iovecs contains_mmapped jane_writev or_uerror writev_in_blocking_section
bigstring_writev_assume_fd_is_nonblocking v_iovecs count reply =
    let (iovecs, total_len) = copy_iovecs v_iovecs count in
    record {
      result = or_uerror (jane_writev reply count);
      events =
          if ltb thread_io_cutoff total_len || contains_mmapped v_iovecs count
          then writev_in_blocking_section iovecs
          else gather_call iovecs ∷ stat_free ∷ [];
    }

-- `if (ret == -1 && errno != EAGAIN && errno != EWOULDBLOCK) uerror(...)`
unfoldable pub or_uerror_unless_again : WriteReply → CallResult
or_uerror_unless_again (WriteReply.failed eagain) = minus_one
or_uerror_unless_again (WriteReply.failed ewouldblock) = minus_one
or_uerror_unless_again (WriteReply.failed e) = uerror e
or_uerror_unless_again (wrote n) = long n

unfoldable pub bigstring_sendmsg_nonblocking_no_sigpipe : List IoVec → ℕ → WriteReply → Called
unfolding copy_iovecs contains_mmapped or_uerror_unless_again in_blocking_section
bigstring_sendmsg_nonblocking_no_sigpipe v_iovecs count reply =
    let (iovecs, total_len) = copy_iovecs v_iovecs count in
    let call = gather_call iovecs ∷ stat_free ∷ [] in
    record {
      result = or_uerror_unless_again reply;
      events =
          if ltb thread_io_cutoff total_len || contains_mmapped v_iovecs count
          then in_blocking_section call
          else call;
    }
