-- ===== src/BigstringUnix/Output.antt =====
-- bigstring_output_stub: into the buffer of a channel where that suffices, and otherwise the buffer
-- and the bigstring to the descriptor. No other thread uses the channel.
pub mod Rounds
pub mod Exact
use Prim.Native.Nat.{min}
use ppx_universe.Base.{
  ℕ, suc, ◌+◌, ◌-◌, ◌%◌, ◌≤◌, List, [], ◌∷◌, ◌++◌, not, if◌then◌else◌, ◌==◌, ltb, leb, length, take,
  drop,
}
use ppx_universe.Base.Splice.{splice}
use ppx_universe.BigstringUnix.Channel.{Channel}
use ppx_universe.BigstringUnix.Replies.{
  Errno, eintr, eagain, ewouldblock, WriteReply, wrote, output, unix_error, Outcome, returned,
  io_error, blocked, sub_size, word,
}

-- The variables of the loop: base and length of buff_iov and bstr_iov, `buff_len` and `bstr_len`;
-- also the bytes that the kernel took and `chan->offset`.
pub record OutputState : Type 0 where
  pub buff_base : ℕ
  pub buff_iov_len : ℕ
  pub buff_len : ℕ
  pub bstr_base : ℕ
  pub bstr_iov_len : ℕ
  pub bstr_len : ℕ
  pub sent : List ℕ
  pub offset : ℕ

-- A round goes on, or ends the call with `curr` bytes kept in the buffer.
pub data Round : Type 0 where
  go : OutputState → Round
  stop : OutputState → ℕ → Outcome → Round

-- The bytes that a writev of two vectors takes, given their count.
unfoldable pub gathered : List ℕ → List ℕ → ℕ → OutputState → List ℕ
gathered buff mem written s =
    take (min written s.buff_iov_len) (drop s.buff_base buff)
    ++ take (written - s.buff_iov_len) (drop s.bstr_base mem)

-- "Write (maybe of even one byte only) failed"
abbrev pub write_failed : ℕ → Errno → OutputState → Round
write_failed bstr e s = stop s s.buff_len (io_error (s.bstr_base - bstr) (unix_error e output))

-- "Call might have blocked, try writing a single byte"
unfoldable pub retry : ℕ → Errno → OutputState → Round
retry bstr e s =
    if ltb 1 (s.buff_iov_len + s.bstr_iov_len)
    then (if not (s.buff_len == 0)
        then go (record s { buff_iov_len = 1; bstr_iov_len = 0 })
        else go (record s { bstr_iov_len = 1 }))
    else write_failed bstr e s

-- "Write successful"
unfoldable pub written_round : ℕ → ℕ → List ℕ → List ℕ → ℕ → OutputState → Round
unfolding gathered
written_round bstr bstr_min buff mem written s =
    let s' = record s {
      sent = s.sent ++ gathered buff mem written s;
      offset = (s.offset + written) % word;
    } in
    let bstr_written = sub_size written s.buff_len in
    let new_bstr = s.bstr_base + bstr_written in
    let bstr_len = sub_size s.bstr_len bstr_written in
    if ltb written s.buff_len
    then go (record s' {
      buff_base = s.buff_base + written;
      buff_len = s.buff_len - written;
      buff_iov_len = s.buff_len - written;
    })
    else if leb bstr_min new_bstr
    then stop s' 0 (returned (new_bstr - bstr))
    else go (record s' {
      bstr_base = new_bstr;
      buff_len = 0;
      buff_iov_len = 0;
      bstr_len = bstr_len;
      bstr_iov_len = bstr_len;
    })

unfoldable pub output_round : ℕ → ℕ → List ℕ → List ℕ → WriteReply → OutputState → Round
unfolding retry written_round
output_round bstr bstr_min buff mem (WriteReply.failed eintr) s = go s
output_round bstr bstr_min buff mem (WriteReply.failed eagain) s = retry bstr eagain s
output_round bstr bstr_min buff mem (WriteReply.failed ewouldblock) s = retry bstr ewouldblock s
output_round bstr bstr_min buff mem (WriteReply.failed e) s = write_failed bstr e s
output_round bstr bstr_min buff mem (wrote written) s =
    written_round bstr bstr_min buff mem written s

pub record Outputting : Type 0 where
  pub sent : List ℕ
  pub chan : Channel
  pub outcome : Outcome

-- `chan->curr`, and the memmove that brings what is kept to the start of the buffer.
unfoldable pub keep : Channel → ℕ → OutputState → Channel
keep chan curr s = record chan {
  buff =
      if not (curr == 0)
      then splice chan.buff 0 (take curr (drop s.buff_base chan.buff))
      else chan.buff;
  curr = curr;
  offset = s.offset;
}

-- `while (1)`
unfoldable pub output_loop : ℕ → ℕ → List ℕ → Channel → List WriteReply → OutputState → Outputting
output_loop bstr bstr_min mem chan [] s = record {
  sent = s.sent;
  chan = record chan { offset = s.offset };
  outcome = blocked;
}
output_loop bstr bstr_min mem chan (r ∷ replies) s =
    elim (output_round bstr bstr_min chan.buff mem r s) [
      | go s' ↦ output_loop bstr bstr_min mem chan replies s'
      | stop s' curr o ↦ record { sent = s'.sent; chan = keep chan curr s'; outcome = o }
    ]

unfoldable pub start_state : Channel → ℕ → ℕ → OutputState
start_state chan pos len = record {
  buff_base = 0;
  buff_iov_len = chan.curr;
  buff_len = chan.curr;
  bstr_base = pos;
  bstr_iov_len = len;
  bstr_len = len;
  sent = [];
  offset = chan.offset;
}

unfoldable pub bigstring_output : ℕ → Channel → ℕ → ℕ → List ℕ → List WriteReply → Outputting
bigstring_output min_len chan pos len bstr replies =
    if leb len (length chan.buff - chan.curr)
    then record {
      sent = [];
      chan = record chan {
        buff = splice chan.buff chan.curr (take len (drop pos bstr));
        curr = chan.curr + len;
      };
      outcome = returned len;
    }
    else output_loop pos (pos + min_len) bstr chan replies (start_state chan pos len)
