-- ===== src/BigstringUnix/Read.antt =====
-- bigstring_read_stub and bigstring_really_recv_stub. A bigstring is the list of its bytes, and a
-- pointer into it an offset.
pub mod Rounds
pub mod Exact
pub mod Recv
pub mod Progress
use ppx_universe.Base.{ℕ, suc, ◌+◌, ◌-◌, ◌%◌, List, [], ◌∷◌, if◌then◌else◌, ◌==◌, ltb, length}
use ppx_universe.Base.Splice.{splice}
use ppx_universe.BigstringUnix.Replies.{
  Errno, eintr, ReadReply, bytes, read, really_recv, end_of_file, unix_error, Outcome, returned,
  io_error, blocked, sub_size, word,
}

-- The bigstring as it is left, how the primitive ends, and the lengths that it passed to its calls
-- of read or recv, in order.
pub record Reading : Type 0 where
  pub mem : List ℕ
  pub outcome : Outcome
  pub asked : List ℕ

-- A call more, in front.
abbrev pub asking : ℕ → Reading → Reading
asking len r = record r { asked = len ∷ r.asked }

-- The two loops of bigstring_read_stub: the inner one calls `read` again after EINTR, the outer one
-- while `bstr < bstr_min`.
unfoldable pub read_loop : ℕ → ℕ → ℕ → List ReadReply → List ℕ → ℕ → ℕ → Reading
read_loop bstr_start bstr_min init_len [] mem bstr len = record {
  mem = mem;
  outcome = blocked;
  asked = len ∷ [];
}
read_loop bstr_start bstr_min init_len (ReadReply.failed eintr ∷ replies) mem bstr len =
    asking len (read_loop bstr_start bstr_min init_len replies mem bstr len)
read_loop bstr_start bstr_min init_len (ReadReply.failed e ∷ replies) mem bstr len = record {
  mem = mem;
  outcome = io_error (bstr - bstr_start) (unix_error e read);
  asked = len ∷ [];
}
read_loop bstr_start bstr_min init_len (bytes [] ∷ replies) mem bstr len = record {
  mem = mem;
  outcome = if init_len == 0 then returned 0 else io_error (bstr - bstr_start) end_of_file;
  asked = len ∷ [];
}
read_loop bstr_start bstr_min init_len (bytes (b ∷ bs) ∷ replies) mem bstr len =
    let n_read = length (b ∷ bs) in
    let mem' = splice mem bstr (b ∷ bs) in
    let bstr' = bstr + n_read in
    let rest = read_loop bstr_start bstr_min init_len replies mem' bstr' (sub_size len n_read) in
    if ltb bstr' bstr_min
    then asking len rest
    else record { mem = mem'; outcome = returned (bstr' - bstr_start); asked = len ∷ [] }

unfoldable pub bigstring_read : ℕ → ℕ → ℕ → List ℕ → List ReadReply → Reading
bigstring_read min_len pos len bstr replies = read_loop pos (pos + min_len) len replies bstr pos len

-- The end of `while (len > 0)`, and of the function. The result is unit, written 0.
abbrev pub received_all : List ℕ → Reading
received_all mem = record { mem = mem; outcome = returned 0; asked = [] }

-- `while (len > 0)` of bigstring_really_recv_stub; `n_total` counts the bytes.
unfoldable pub recv_loop : List ReadReply → List ℕ → ℕ → ℕ → ℕ → Reading
recv_loop [] mem bstr len n_total =
    if ltb 0 len
    then record { mem = mem; outcome = blocked; asked = len ∷ [] }
    else received_all mem
recv_loop (ReadReply.failed eintr ∷ replies) mem bstr len n_total =
    let rest = recv_loop replies mem bstr len n_total in
    if ltb 0 len then asking len rest else received_all mem
recv_loop (ReadReply.failed e ∷ replies) mem bstr len n_total =
    if ltb 0 len
    then record {
      mem = mem;
      outcome = io_error n_total (unix_error e really_recv);
      asked = len ∷ [];
    }
    else received_all mem
recv_loop (bytes [] ∷ replies) mem bstr len n_total =
    if ltb 0 len
    then record { mem = mem; outcome = io_error n_total end_of_file; asked = len ∷ [] }
    else received_all mem
recv_loop (bytes (b ∷ bs) ∷ replies) mem bstr len n_total =
    let n_read = length (b ∷ bs) in
    let rest =
      recv_loop replies (splice mem bstr (b ∷ bs)) (bstr + n_read) (sub_size len n_read)
        (n_total + n_read) in
    if ltb 0 len then asking len rest else received_all mem

unfoldable pub bigstring_really_recv : ℕ → ℕ → List ℕ → List ReadReply → Reading
bigstring_really_recv pos len bstr replies =
    if len == 0 then received_all bstr else recv_loop replies bstr pos len 0
