-- ===== src/BigstringUnix/Write.antt =====
-- bigstring_really_write_stub and bigstring_really_send_no_sigpipe_stub, which one macro makes.
pub mod Exact
use ppx_universe.Base.{
  ℕ, suc, ◌+◌, ◌-◌, ◌%◌, List, [], ◌∷◌, ◌++◌, if◌then◌else◌, ltb, length, take, drop,
}
use ppx_universe.BigstringUnix.Replies.{
  Errno, eintr, WriteReply, wrote, Command, really_write, really_send_no_sigpipe, unix_error,
  Outcome, returned, io_error, blocked, sub_size, word,
}

-- The bytes that the kernel took, how the primitive ends, and the lengths that it passed to its
-- calls, in order. The result unit is written 0.
pub record Writing : Type 0 where
  pub sent : List ℕ
  pub outcome : Outcome
  pub offered : List ℕ

-- A call more, in front.
abbrev pub offering : ℕ → Writing → Writing
offering len r = record r { offered = len ∷ r.offered }

-- `do { ... } while (bstr < bstr_max)`; `continue` goes to the test.
unfoldable pub really_output_loop :
    Command → List ℕ → ℕ → ℕ → List WriteReply → List ℕ → ℕ → ℕ → Writing
really_output_loop name mem bstr_start bstr_max [] sent bstr len = record {
  sent = sent;
  outcome = blocked;
  offered = len ∷ [];
}
really_output_loop name mem bstr_start bstr_max (WriteReply.failed eintr ∷ replies) sent bstr len =
    let rest = really_output_loop name mem bstr_start bstr_max replies sent bstr len in
    if ltb bstr bstr_max
    then offering len rest
    else record { sent = sent; outcome = returned 0; offered = len ∷ [] }
really_output_loop name mem bstr_start bstr_max (WriteReply.failed e ∷ replies) sent bstr len =
    record {
      sent = sent;
      outcome = io_error (bstr - bstr_start) (unix_error e name);
      offered = len ∷ [];
    }
really_output_loop name mem bstr_start bstr_max (wrote written ∷ replies) sent bstr len =
    let sent' = sent ++ take written (drop bstr mem) in
    let bstr' = bstr + written in
    let rest =
      really_output_loop name mem bstr_start bstr_max replies sent' bstr' (sub_size len written) in
    if ltb bstr' bstr_max
    then offering len rest
    else record { sent = sent'; outcome = returned 0; offered = len ∷ [] }

unfoldable pub really_output : Command → ℕ → ℕ → List ℕ → List WriteReply → Writing
really_output name pos len bstr replies =
    really_output_loop name bstr pos (pos + len) replies [] pos len

unfoldable pub bigstring_really_write : ℕ → ℕ → List ℕ → List WriteReply → Writing
unfolding really_output
bigstring_really_write pos len bstr replies = really_output really_write pos len bstr replies

unfoldable pub bigstring_really_send_no_sigpipe : ℕ → ℕ → List ℕ → List WriteReply → Writing
unfolding really_output
bigstring_really_send_no_sigpipe pos len bstr replies =
    really_output really_send_no_sigpipe pos len bstr replies
