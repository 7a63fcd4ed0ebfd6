-- ===== src/BigstringUnix/Input.antt =====
-- bigstring_input_stub: from the buffer of a channel and, where that does not suffice, from the
-- descriptor into the bigstring and behind it into the buffer. No other thread uses the channel.
pub mod Rounds
pub mod Exact
use ppx_universe.Base.{
  ℕ, suc, ◌+◌, ◌-◌, ◌%◌, List, [], ◌∷◌, not, if◌then◌else◌, ◌==◌, ltb, leb, length, take, drop,
}
use ppx_universe.Base.Splice.{splice}
use ppx_universe.BigstringUnix.Channel.{Channel}
use ppx_universe.BigstringUnix.Replies.{
  Errno, eintr, ReadReply, bytes, input, end_of_file, unix_error, Outcome, returned, io_error,
  blocked, sub_size, word,
}

-- What is left, and the counts of bytes that the vectors of the calls of readv had room for, in
-- order.
pub record Inputting : Type 0 where
  pub mem : List ℕ
  pub chan : Channel
  pub outcome : Outcome
  pub asked : List ℕ

-- A call more, in front.
abbrev pub asking : ℕ → Inputting → Inputting
asking n r = record r { asked = n ∷ r.asked }

-- The two vectors of readv: the rest of the bigstring, and the buffer.
abbrev pub room : Channel → ℕ → ℕ
room chan len = len + length chan.buff

-- `chan->curr = chan->max`
abbrev pub set_empty : Channel → Channel
set_empty chan = record chan { curr = chan.max }

-- What readv does with the bytes `bs`: the first `len` go to the bigstring, the others to the
-- start of the buffer; then `chan->offset += n_read`.
unfoldable pub into_bigstring : List ℕ → ℕ → ℕ → List ℕ → List ℕ
into_bigstring mem base len bs = splice mem base (take len bs)

unfoldable pub into_channel : Channel → ℕ → List ℕ → Channel
into_channel chan len bs = record chan {
  buff = splice chan.buff 0 (drop len bs);
  offset = (chan.offset + length bs) % word;
}

-- `while (1)`, with `base` and `len` of bstr_iov.
unfoldable pub input_loop : ℕ → ℕ → ℕ → ℕ → List ReadReply → List ℕ → Channel → ℕ → ℕ → Inputting
input_loop bstr_start bstr_min bstr_max init_len [] mem chan base len = record {
  mem = mem;
  chan = chan;
  outcome = blocked;
  asked = room chan len ∷ [];
}
input_loop bstr_start bstr_min bstr_max init_len (ReadReply.failed eintr ∷ replies) mem chan base
      len =
    asking (room chan len)
      (input_loop bstr_start bstr_min bstr_max init_len replies mem chan base len)
input_loop bstr_start bstr_min bstr_max init_len (ReadReply.failed e ∷ replies) mem chan base len =
    record {
      mem = mem;
      chan = set_empty chan;
      outcome = io_error (base - bstr_start) (unix_error e input);
      asked = room chan len ∷ [];
    }
input_loop bstr_start bstr_min bstr_max init_len (bytes [] ∷ replies) mem chan base len = record {
  mem = mem;
  chan = set_empty chan;
  outcome = if init_len == 0 then returned 0 else io_error (base - bstr_start) end_of_file;
  asked = room chan len ∷ [];
}
input_loop bstr_start bstr_min bstr_max init_len (bytes (b ∷ bs) ∷ replies) mem chan base len =
    let n_read = length (b ∷ bs) in
    let mem' = into_bigstring mem base len (b ∷ bs) in
    let chan' = into_channel chan len (b ∷ bs) in
    let bstr = base + n_read in
    let rest =
      input_loop bstr_start bstr_min bstr_max init_len replies mem' chan' bstr
        (sub_size len n_read) in
    if leb bstr_min bstr
    then (if ltb bstr_max bstr
        then record {
          mem = mem';
          chan = record chan' { max = bstr - bstr_max; curr = 0 };
          outcome = returned init_len;
          asked = room chan len ∷ [];
        }
        else record {
          mem = mem';
          chan = set_empty chan';
          outcome = returned (bstr - bstr_start);
          asked = room chan len ∷ [];
        })
    else asking (room chan len) rest

-- The part behind "Buffer empty now".
unfoldable pub input_from_fd : ℕ → ℕ → List ReadReply → List ℕ → Channel → ℕ → ℕ → ℕ → Inputting
input_from_fd bstr_start init_len replies mem chan bstr min_len bstr_len =
    input_loop bstr_start ((bstr + min_len) % word) (bstr + bstr_len) init_len replies mem chan bstr
      bstr_len

unfoldable pub bigstring_input : ℕ → Channel → ℕ → ℕ → List ℕ → List ReadReply → Inputting
bigstring_input min_len chan pos len bstr replies =
    let avail = chan.max - chan.curr in
    let to_write = if leb len avail then len else avail in
    let mem = splice bstr pos (take to_write (drop chan.curr chan.buff)) in
    if not (avail == 0)
    then (if leb len avail
        then record {
          mem = mem;
          chan = record chan { curr = chan.curr + to_write };
          outcome = returned len;
          asked = [];
        }
        else input_from_fd pos len replies mem chan (pos + to_write) (sub_size min_len to_write)
            (sub_size len to_write))
    else input_from_fd pos len replies bstr chan pos min_len len
