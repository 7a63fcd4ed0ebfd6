-- ===== src/BigstringUnix/Single.antt =====
-- The primitives of bigstring_unix_stubs.c that make one system call on one bigstring. Its answer is
-- an argument, and so are the bytes `mem` of the bigstring.
use ppx_universe.Base.{
  ℕ, ◌+◌, List, [], ◌∷◌, if◌then◌else◌, ◌||◌, ltb, length, take, drop, get_or, ◌≤◌, ◌<◌, ◌≡◌, ◌⊎◌,
  inl, inr, refl, arith,
}
use ppx_universe.Base.Splice.{splice, take-drop-splice, length-splice, get_or-splice}
use ppx_universe.BigstringUnix.Replies.{ReadReply, bytes, WriteReply, wrote}
use ppx_universe.BigstringUnix.Vectors.{
  thread_io_cutoff, Bigstring, Event, gather_call, long, minus_errno, uerror, Called,
  in_blocking_section, get_bstr, or_uerror, or_minus_errno,
}

-- What a system call that reads leaves in the bigstring, and its return value.
pub record Stored : Type 0 where
  pub mem : List ℕ
  pub called : Called

unfoldable pub stored : List ℕ → ℕ → ReadReply → List ℕ
stored mem pos (ReadReply.failed e) = mem
stored mem pos (bytes bs) = splice mem pos bs

unfoldable pub n_read : ReadReply → WriteReply
n_read (ReadReply.failed e) = WriteReply.failed e
n_read (bytes bs) = wrote (length bs)

abbrev pub call_on : Bigstring → ℕ → ℕ → List Event
call_on ba pos len = gather_call (record { iov_base = get_bstr ba pos; iov_len = len } ∷ []) ∷ []

unfoldable pub bigstring_read_assume_fd_is_nonblocking :
    ℕ → ℕ → Bigstring → List ℕ → ReadReply → Stored
unfolding get_bstr in_blocking_section or_minus_errno stored n_read
bigstring_read_assume_fd_is_nonblocking pos len ba mem reply = record {
  mem = stored mem pos reply;
  called = record {
    result = or_minus_errno (n_read reply);
    events =
        if ltb thread_io_cutoff len || ba.mapped
        then in_blocking_section (call_on ba pos len)
        else call_on ba pos len;
  };
}

unfoldable pub bigstring_pread_assume_fd_is_nonblocking :
    ℕ → ℕ → Bigstring → List ℕ → ReadReply → Stored
unfolding get_bstr or_uerror stored n_read
bigstring_pread_assume_fd_is_nonblocking pos len ba mem reply = record {
  mem = stored mem pos reply;
  called = record { result = or_uerror (n_read reply); events = call_on ba pos len };
}

-- The address of the sender, made by alloc_sockaddr, stands in the result beside the count.
unfoldable pub bigstring_recvfrom_assume_fd_is_nonblocking :
    ℕ → ℕ → Bigstring → List ℕ → ReadReply → Stored
unfolding get_bstr in_blocking_section or_uerror stored n_read
bigstring_recvfrom_assume_fd_is_nonblocking pos len ba mem reply = record {
  mem = stored mem pos reply;
  called = record {
    result = or_uerror (n_read reply);
    events =
        if ltb thread_io_cutoff len
        then in_blocking_section (call_on ba pos len)
        else call_on ba pos len;
  };
}

unfoldable pub bigstring_write : ℕ → ℕ → Bigstring → WriteReply → Called
unfolding get_bstr in_blocking_section or_uerror
bigstring_write pos len ba reply = record {
  result = or_uerror reply;
  events = in_blocking_section (call_on ba pos len);
}

unfoldable pub bigstring_pwrite_assume_fd_is_nonblocking : ℕ → ℕ → Bigstring → WriteReply → Called
unfolding get_bstr or_uerror
bigstring_pwrite_assume_fd_is_nonblocking pos len ba reply = record {
  result = or_uerror reply;
  events = call_on ba pos len;
}

unfoldable pub bigstring_write_assume_fd_is_nonblocking : ℕ → ℕ → Bigstring → WriteReply → Called
unfolding get_bstr in_blocking_section or_uerror
bigstring_write_assume_fd_is_nonblocking pos len ba reply = record {
  result = or_uerror reply;
  events =
      if ltb thread_io_cutoff len || ba.mapped
      then in_blocking_section (call_on ba pos len)
      else call_on ba pos len;
}

unfoldable pub bigstring_send_nonblocking_no_sigpipe : ℕ → ℕ → Bigstring → WriteReply → Called
unfolding get_bstr or_minus_errno
bigstring_send_nonblocking_no_sigpipe pos len ba reply = record {
  result = or_minus_errno reply;
  events = call_on ba pos len;
}

-- get_sockaddr, which reads the address, is code of the OCaml system.
unfoldable pub bigstring_sendto_nonblocking_no_sigpipe : ℕ → ℕ → Bigstring → WriteReply → Called
unfolding get_bstr or_minus_errno
bigstring_sendto_nonblocking_no_sigpipe pos len ba reply = record {
  result = or_minus_errno reply;
  events = call_on ba pos len;
}

-- What a read of at most `len` bytes at `pos` leaves: the bytes in their place, nothing else touched,
-- and their count as the result; or an error and the memory as it was.
abbrev pub IsStored : ℕ → ℕ → List ℕ → ReadReply → Stored → Type 0
IsStored pos len mem (ReadReply.failed e) r =
    (r.mem ≡ mem) × ((r.called.result ≡ minus_errno e) ⊎ (r.called.result ≡ uerror e))
IsStored pos len mem (bytes bs) r =
    (r.called.result ≡ long (length bs))
    × (take (length bs) (drop pos r.mem) ≡ bs)
    × (length r.mem ≡ length mem)
    × ((i : ℕ) → (i < pos) ⊎ (pos + len ≤ i) → get_or r.mem i 0 ≡ get_or mem i 0)

-- The kernel returns no more bytes than `len`.
abbrev pub HonestRead : ℕ → ReadReply → Type 0
HonestRead len (ReadReply.failed e) = Unit {0}
HonestRead len (bytes bs) = length bs ≤ len

-- For a range inside the bigstring and an answer of at most its length, the reads that assume a
-- nonblocking descriptor (read, pread, recvfrom) place the bytes at the position, change no byte
-- outside the range, and return their count; a failure leaves all bytes as they were.
pub reads_lem :
    (pos len : ℕ) (ba : Bigstring) (mem : List ℕ) (reply : ReadReply)
    → pos + len ≤ length mem
    → HonestRead len reply
    → IsStored pos len mem reply (bigstring_read_assume_fd_is_nonblocking pos len ba mem reply)
      × IsStored pos len mem reply (bigstring_pread_assume_fd_is_nonblocking pos len ba mem reply)
      × IsStored pos len mem reply
          (bigstring_recvfrom_assume_fd_is_nonblocking pos len ba mem reply)
unfolding bigstring_read_assume_fd_is_nonblocking bigstring_pread_assume_fd_is_nonblocking
    bigstring_recvfrom_assume_fd_is_nonblocking
reads_lem pos len ba mem (ReadReply.failed e) h honest =
    ((refl, inl refl), (refl, inr refl), (refl, inr refl))
reads_lem pos len ba mem (bytes bs) h honest =
    let there = take-drop-splice mem pos bs (omega arith) in
    let same = length-splice mem pos bs in
    let others : (i : ℕ)
        → (i < pos) ⊎ (pos + len ≤ i)
        → get_or (splice mem pos bs) i 0 ≡ get_or mem i 0 =
      λ i o. get_or-splice mem pos bs i (ground arith) in
    ((refl, there, same, others), (refl, there, same, others), (refl, there, same, others))
