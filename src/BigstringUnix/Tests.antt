-- ===== src/BigstringUnix/Tests.antt =====
-- Runs of bigstring_unix_stubs.c and recvmmsg.c, and each theorem at one input.
use ppx_universe.Base.{ℕ, ◌+◌, ◌≡◌, ◌⊎◌, refl, arith, List, [], ◌∷◌, ◌++◌, true, false, drop}
use ppx_universe.Base.Splice.{splice}
use ppx_universe.BigstringUnix.Replies.{
  eintr, eagain, einval, ReadReply, bytes, WriteReply, wrote, output, really_write, end_of_file,
  unix_error, returned, io_error, IsDone, payload,
}
use ppx_universe.BigstringUnix.Channel.{Channel, available}
use ppx_universe.BigstringUnix.Read.{bigstring_read, read_loop}
use ppx_universe.BigstringUnix.Read.Rounds.{IsRead, ReadEnd}
use ppx_universe.BigstringUnix.Read.Exact.{bigstring_read_lem}
use ppx_universe.BigstringUnix.Read.Progress.{bigstring_read-IsDone}
use ppx_universe.BigstringUnix.Input.{
  input_loop, input_from_fd, bigstring_input, into_bigstring, into_channel,
}
use ppx_universe.BigstringUnix.Input.Rounds.{IsInput}
use ppx_universe.BigstringUnix.Input.Exact.{bigstring_input_lem}
use ppx_universe.BigstringUnix.Write.{really_output, really_output_loop}
use ppx_universe.BigstringUnix.Write.Exact.{IsSent, really_output_lem}
use ppx_universe.BigstringUnix.Output.{
  OutputState, output_round, keep, output_loop, start_state, bigstring_output,
}
use ppx_universe.BigstringUnix.Output.Exact.{OutputEnd, bigstring_output_lem}
use ppx_universe.BigstringUnix.Vectors.{
  IoVec, bigstring_writev_assume_fd_is_nonblocking, bigstring_sendmsg_nonblocking_no_sigpipe,
}
use ppx_universe.BigstringUnix.Vectors.Gather.{gather_events, assume_fd_is_nonblocking_events}
use ppx_universe.BigstringUnix.Recvmmsg.{
  MmsgReply, messages, saved, array, bigstring_recvmmsg_assume_fd_is_nonblocking,
}
use ppx_universe.BigstringUnix.Recvmmsg.Bounds.{IsRefused, IsReceived, recvmmsg_lem}

abbrev memory : List ℕ
memory = 0 ∷ 0 ∷ 0 ∷ 0 ∷ 0 ∷ 0 ∷ 0 ∷ []

abbrev read_replies : List ReadReply
read_replies = ReadReply.failed eintr ∷ bytes (10 ∷ []) ∷ bytes (11 ∷ 12 ∷ 13 ∷ []) ∷ []

bigstring_read_runs : bigstring_read 3 1 4 memory read_replies ≡ record {
  mem = 0 ∷ 10 ∷ 11 ∷ 12 ∷ 13 ∷ 0 ∷ 0 ∷ [];
  outcome = returned 4;
  asked = 4 ∷ 4 ∷ 3 ∷ [];
}
unfolding bigstring_read read_loop splice
bigstring_read_runs = refl

bigstring_read_fails :
    (bigstring_read 3 1 4 memory (bytes (10 ∷ []) ∷ bytes [] ∷ [])).outcome ≡ io_error 1 end_of_file
unfolding bigstring_read read_loop
bigstring_read_fails = refl

bigstring_read_lem_example :
    IsRead memory 1 4 read_replies (ReadEnd 3 4) (bigstring_read 3 1 4 memory read_replies)
unfolding bigstring_read read_loop
bigstring_read_lem_example =
    bigstring_read_lem 3 1 4 memory read_replies (omega arith) (omega arith, (omega arith, tt))

bigstring_read-IsDone_example : IsDone (bigstring_read 2 1 4 memory read_replies).outcome
bigstring_read-IsDone_example =
    bigstring_read-IsDone 2 1 4 memory read_replies (omega arith) (omega arith)

abbrev chan : Channel
chan = record { buff = 1 ∷ 2 ∷ 3 ∷ 4 ∷ 5 ∷ 6 ∷ 7 ∷ 8 ∷ []; curr = 2; max = 5; offset = 0 }

-- The bytes 3, 4 and 5 come from the buffer; 12 and 13 stay in it.
bigstring_input_runs : bigstring_input 5 chan 1 5 memory read_replies ≡ record {
  mem = 0 ∷ 3 ∷ 4 ∷ 5 ∷ 10 ∷ 11 ∷ 0 ∷ [];
  chan = record { buff = 12 ∷ 13 ∷ 3 ∷ 4 ∷ 5 ∷ 6 ∷ 7 ∷ 8 ∷ []; curr = 0; max = 2; offset = 4 };
  outcome = returned 5;
  asked = 10 ∷ 10 ∷ 9 ∷ [];
}
unfolding bigstring_input input_from_fd input_loop into_bigstring into_channel splice
bigstring_input_runs = refl

-- Two of the three bytes that are wanted are there, and all five are asked for.
bigstring_input_reads_on :
    (bigstring_input 2 chan 1 5 memory (bytes [] ∷ [])).outcome ≡ io_error 3 end_of_file
unfolding bigstring_input input_from_fd input_loop
bigstring_input_reads_on = refl

bigstring_input_lem_example :
    IsInput 5 5 3 0 memory 1 5
      (available chan ++ payload read_replies)
      read_replies
      (bigstring_input 5 chan 1 5 memory read_replies)
unfolding bigstring_input input_from_fd input_loop into_bigstring into_channel splice
bigstring_input_lem_example =
    bigstring_input_lem 5 chan 1 5 memory read_replies (omega arith) (omega arith) (omega arith)
      (omega arith) (omega arith, (omega arith, tt))

abbrev data_bytes : List ℕ
data_bytes = 20 ∷ 21 ∷ 22 ∷ 23 ∷ 24 ∷ 25 ∷ 26 ∷ 27 ∷ []

abbrev write_replies : List WriteReply
write_replies =
    WriteReply.failed eintr
    ∷ wrote 1
    ∷ WriteReply.failed eagain
    ∷ wrote 1
    ∷ wrote 3
    ∷ WriteReply.failed (einval)
    ∷ []

bigstring_output_runs : bigstring_output 5 chan 1 7 data_bytes write_replies ≡ record {
  sent = 1 ∷ 2 ∷ 21 ∷ 22 ∷ 23 ∷ [];
  chan = record chan { curr = 0; offset = 5 };
  outcome = io_error 3 (unix_error einval output);
}
unfolding bigstring_output output_loop output_round start_state keep
bigstring_output_runs = refl

-- One byte of the buffer is left and moves to its start.
bigstring_output_keeps :
    bigstring_output 5 chan 1 7 data_bytes (wrote 1 ∷ WriteReply.failed einval ∷ []) ≡ record {
      sent = 1 ∷ [];
      chan = record chan { buff = 2 ∷ 2 ∷ 3 ∷ 4 ∷ 5 ∷ 6 ∷ 7 ∷ 8 ∷ []; curr = 1; offset = 1 };
      outcome = io_error 0 (unix_error einval output);
    }
unfolding bigstring_output output_loop output_round start_state keep splice
bigstring_output_keeps = refl

bigstring_output_lem_example :
    let r = bigstring_output 5 chan 1 7 data_bytes (wrote 1 ∷ wrote 7 ∷ []) in
    OutputEnd 5 7 (1 ∷ 2 ∷ []) (drop 1 data_bytes) r.sent r.chan r.outcome
unfolding start_state output_round
bigstring_output_lem_example =
    bigstring_output_lem 5 chan 1 7 data_bytes (wrote 1 ∷ wrote 7 ∷ []) (omega arith) (omega arith)
      (omega arith) (omega arith) (omega arith) (omega arith, (omega arith, tt))

-- One byte of the buffer has been sent.
abbrev under_way : OutputState
under_way = record {
  buff_base = 1;
  buff_iov_len = 1;
  buff_len = 1;
  bstr_base = 1;
  bstr_iov_len = 7;
  bstr_len = 7;
  sent = 1 ∷ [];
  offset = 1;
}

really_output_lem_example :
    IsSent data_bytes 2 4
      (really_output really_write 2 4 data_bytes (wrote 3 ∷ WriteReply.failed eintr ∷ wrote 1 ∷ []))
unfolding really_output really_output_loop
really_output_lem_example =
    really_output_lem really_write 2 4 data_bytes (wrote 3 ∷ WriteReply.failed eintr ∷ wrote 1 ∷ [])
      (omega arith) (omega arith, (omega arith, tt))

abbrev io_vecs : List IoVec
io_vecs =
    record { buf = record { data_ptr = 1000; mapped = false }; pos = 4; len = 10 }
    ∷ record { buf = record { data_ptr = 2000; mapped = true }; pos = 0; len = 20 }
    ∷ []

assume_fd_is_nonblocking_events_example :
    ((bigstring_writev_assume_fd_is_nonblocking io_vecs 2 (wrote 30)).events
      ≡ gather_events io_vecs)
    × ((bigstring_sendmsg_nonblocking_no_sigpipe io_vecs 2 (wrote 30)).events
        ≡ gather_events io_vecs)
assume_fd_is_nonblocking_events_example =
    assume_fd_is_nonblocking_events io_vecs 2 (wrote 30) (omega arith)

abbrev received : MmsgReply
received = messages (record { msg_len = 9; msg_name = 3 } ∷ [])

recvmmsg_lem_example :
    let r =
      bigstring_recvmmsg_assume_fd_is_nonblocking
        (λ n. n + 1)
        io_vecs
        2
        (saved (array (0 ∷ 0 ∷ [])))
        (array (5 ∷ 5 ∷ []))
        received in
    IsRefused 2 (saved (array (0 ∷ 0 ∷ []))) (5 ∷ 5 ∷ []) r
    ⊎ IsReceived 2 io_vecs (5 ∷ 5 ∷ []) received r
recvmmsg_lem_example =
    recvmmsg_lem (λ n. n + 1) io_vecs 2 (saved (array (0 ∷ 0 ∷ []))) (5 ∷ 5 ∷ []) received
      (omega arith) (omega arith)

recvmmsg_runs :
    (bigstring_recvmmsg_assume_fd_is_nonblocking
      (λ n. n + 1)
      io_vecs
      2
      (saved (array (0 ∷ 0 ∷ [])))
      (array (5 ∷ 5 ∷ []))
      received).lens
    ≡ array (9 ∷ 5 ∷ [])
unfolding bigstring_recvmmsg_assume_fd_is_nonblocking
recvmmsg_runs = refl
