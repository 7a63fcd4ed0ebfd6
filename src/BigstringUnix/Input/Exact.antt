-- ===== src/BigstringUnix/Input/Exact.antt =====
-- Input from a channel keeps every byte: what reaches the bigstring, what stays in the buffer and
-- what the kernel still has are the bytes that were there, in order.
use ppx_universe.Base.{
  ℕ, ◌+◌, ◌-◌, ◌%◌, ◌^◌, ◌≤◌, ◌<◌, ◌≡◌, ◌⊎◌, inl, inr, refl, sym, ap, ◌∙◌, List, [], ◌∷◌, ◌++◌,
  arith, length, length-take, length-drop, take, drop, take-append-drop, take-drop-append, ltb, leb,
  Bool-cases, ◌==◌,
}
use mathlib.Core.List.{append_assoc}
use ppx_universe.Base.Splice.{splice}
use ppx_universe.BigstringUnix.Channel.{Channel, available}
use ppx_universe.BigstringUnix.Replies.{
  Errno, eintr, eagain, ewouldblock, einval, other, ReadReply, bytes, input, end_of_file,
  unix_error, returned, io_error, blocked, word, sub_size, payload, HonestReads,
}
use ppx_universe.BigstringUnix.Input.{
  Inputting, room, set_empty, into_bigstring, into_channel, input_loop, input_from_fd,
  bigstring_input,
}
use ppx_universe.BigstringUnix.Input.Rounds.{
  IsInput, no-IsInput, extend-IsInput, asking-IsInput, no_bytes, all_fit, rest_available,
}

module _ (start min init held cap : ℕ) where
  input_failed :
      (e : Errno) (mem : List ℕ) (chan : Channel) (at len got : ℕ) (replies : List ReadReply)
      → at ≡ start + got
      → (got < min) ⊎ (got ≡ held)
      → IsInput min init held got mem at len
          (payload replies)
          (ReadReply.failed e ∷ replies)
          (record {
            mem = mem;
            chan = set_empty chan;
            outcome = io_error (at - start) (unix_error e input);
            asked = room chan len ∷ [];
          })
  input_failed e mem chan at len got replies ha more =
      no-IsInput min init held got mem at len (payload replies) (ReadReply.failed e ∷ replies)
        (room chan len ∷ []) (set_empty chan) (io_error (at - start) (unix_error e input))
        (omega arith, ground arith, no_bytes chan, refl)

  -- The last round, where the bytes run over into the buffer.
  IsInput-extra :
      (mem : List ℕ) (chan : Channel) (at len got : ℕ) (bs : List ℕ) (replies : List ReadReply)
      → at ≡ start + got
      → got + len ≡ init
      → length chan.buff ≡ cap
      → length bs ≤ len + cap
      → start + init < at + length bs
      → min ≤ init
      → IsInput min init held got mem at len (bs ++ payload replies) (bytes bs ∷ replies) (record {
        mem = into_bigstring mem at len bs;
        chan = record (into_channel chan len bs) {
          max = at + length bs - (start + init);
          curr = 0;
        };
        outcome = returned init;
        asked = room chan len ∷ [];
      })
  unfolding into_bigstring
  IsInput-extra mem chan at len got bs replies ha hl hc fits over hm =
      let size = length-take len bs in
      let count : at + length bs - (start + init) ≡ length bs - len = omega arith in
      let kept = rest_available chan len bs (omega arith) in
      rw count (record {
        received = take len bs;
        stored = refl;
        fits = omega (arith, size);
        ended = (
          omega (arith, size),
          inl hm,
          ap (λ (l : List ℕ). l ++ payload replies) (sym (take-append-drop len bs))
              ∙ append_assoc (take len bs) (drop len bs) (payload replies)
              ∙ ap (λ (l : List ℕ). take len bs ++ (l ++ payload replies)) (sym kept),
        );
      })

  -- The last round, where the bytes fit.
  IsInput-enough :
      (mem : List ℕ) (chan : Channel) (at len got : ℕ) (bs : List ℕ) (replies : List ReadReply)
      → at ≡ start + got
      → length bs ≤ len
      → start + min ≤ at + length bs
      → IsInput min init held got mem at len (bs ++ payload replies) (bytes bs ∷ replies) (record {
        mem = into_bigstring mem at len bs;
        chan = set_empty (into_channel chan len bs);
        outcome = returned (at + length bs - start);
        asked = room chan len ∷ [];
      })
  IsInput-enough mem chan at len got bs replies ha fits enough = record {
    received = bs;
    stored = (all_fit mem chan at len bs fits).0;
    fits = fits;
    ended = (
      omega arith,
      inl (omega arith),
      ap (λ (l : List ℕ). bs ++ (l ++ payload replies)) (sym (no_bytes (into_channel chan len bs))),
    );
  }

  input_loop_lem :
      (replies : List ReadReply) (mem : List ℕ) (chan : Channel) (at len got : ℕ)
      → at ≡ start + got
      → got + len ≡ init
      → min ≤ init
      → init < word
      → length chan.buff ≡ cap
      → (got < min) ⊎ (got ≡ held)
      → HonestReads
          (input_loop start (start + min) (start + init) init replies mem chan at len).asked
          replies
      → IsInput min init held got mem at len
          (payload replies)
          replies
          (input_loop start (start + min) (start + init) init replies mem chan at len)
  unfolding input_loop
  input_loop_lem [] mem chan at len got ha hl hm hw hc more =
      λ _. no-IsInput min init held got mem at len [] [] (room chan len ∷ []) chan blocked refl
  input_loop_lem (ReadReply.failed eintr ∷ replies) mem chan at len got ha hl hm hw hc more =
      λ honest.
        asking-IsInput (room chan len) (ReadReply.failed eintr)
          (input_loop_lem replies mem chan at len got ha hl hm hw hc more honest)
  input_loop_lem (ReadReply.failed eagain ∷ replies) mem chan at len got ha hl hm hw hc more =
      λ _. input_failed eagain mem chan at len got replies ha more
  input_loop_lem (ReadReply.failed ewouldblock ∷ replies) mem chan at len got ha hl hm hw hc more =
      λ _. input_failed ewouldblock mem chan at len got replies ha more
  input_loop_lem (ReadReply.failed einval ∷ replies) mem chan at len got ha hl hm hw hc more =
      λ _. input_failed einval mem chan at len got replies ha more
  input_loop_lem (ReadReply.failed (other n) ∷ replies) mem chan at len got ha hl hm hw hc more =
      λ _. input_failed (other n) mem chan at len got replies ha more
  input_loop_lem (bytes [] ∷ replies) mem chan at len got ha hl hm hw hc more = λ _.
      elim (Bool-cases (init == 0)) [
        | inl e ↦ rw e (
            no-IsInput min init held got mem at len (payload replies) (bytes [] ∷ replies)
              (room chan len ∷ []) (set_empty chan) (returned 0)
              (
                ground arith,
                inr (ground arith),
                ap (λ (l : List ℕ). l ++ payload replies) (sym (no_bytes chan)),
              ))
        | inr e ↦ rw e (
            no-IsInput min init held got mem at len (payload replies) (bytes [] ∷ replies)
              (room chan len ∷ []) (set_empty chan) (io_error (at - start) end_of_file)
              (omega arith, ground arith, no_bytes chan, refl))
      ]
  input_loop_lem (bytes (b ∷ bs) ∷ replies) mem chan at len got ha hl hm hw hc more =
      let front = b ∷ bs in
      let n = length front in
      elim (Bool-cases (leb (start + min) (at + n))) [
        | inl e ↦ elim (Bool-cases (ltb (start + init) (at + n))) [
          | inl f ↦
              rw (e, f)
                λ (fits, _).
                  IsInput-extra mem chan at len got front replies ha hl hc (omega (arith, fits, hc))
                    (ground arith) hm
          | inr f ↦
              rw (e, f)
                λ _.
                  IsInput-enough mem chan at len got front replies ha (ground arith) (ground arith)
        ]
        | inr e ↦
            let inside : n ≤ len = ground arith in
            let left : (len + word - n) % word ≡ len - n = omega arith in
            let (placed, same) = all_fit mem chan at len front inside in
            rw (e, left, placed)
              λ (_, honest). asking-IsInput (room chan len) (bytes front) (
                extend-IsInput min init held got mem at len front (payload replies) replies inside (
                  input_loop_lem replies (splice mem at front) (into_channel chan len front)
                    (at + n) (len - n) (got + n) (omega arith) (omega arith) hm hw (same ∙ hc)
                    (inl (ground arith)) honest))
      ]

-- What bigstring_input ends in, for a channel that holds `front`.
IsInput-through :
    (min init : ℕ) (bstr : List ℕ) (pos : ℕ) (front brought : List ℕ) (replies : List ReadReply)
    {r : Inputting}
    → length front ≤ init
    → IsInput min init
        (length front)
        (length front)
        (splice bstr pos front)
        (pos + length front)
        (init - length front)
        brought
        replies
        r
    → IsInput min init (length front) 0 bstr pos init (front ++ brought) replies r
IsInput-through min init bstr pos front brought replies {r} h i =
    extend-IsInput min init (length front) 0 bstr pos init front brought replies h
      (let e : 0 + length front ≡ length front = omega arith in rw e i)

-- The descriptor's part behind `t` bytes from the buffer.
input_from_fd_lem :
    (min len pos t : ℕ) (mem : List ℕ) (chan : Channel) (replies : List ReadReply)
    → t ≤ len
    → min ≤ len
    → pos + len < word
    → HonestReads
        (input_from_fd pos len replies mem chan (pos + t) (sub_size min t) (sub_size len t)).asked
        replies
    → IsInput min len t t mem
        (pos + t)
        (len - t)
        (payload replies)
        replies
        (input_from_fd pos len replies mem chan (pos + t) (sub_size min t) (sub_size len t))
unfolding input_from_fd
input_from_fd_lem min len pos t mem chan replies ht hm hw =
    let left : (len + word - t) % word ≡ len - t = omega arith in
    let wanted : (pos + t + (min + word - t) % word) % word ≡ pos + min = omega arith in
    let end : pos + t + (len - t) ≡ pos + len = omega arith in
    rw (left, wanted, end)
      (input_loop_lem pos min len t (length chan.buff) replies mem chan (pos + t) (len - t) t refl
        (omega arith) hm (omega arith) refl (inr refl))

-- The descriptor's part behind all that the buffer holds.
IsInput-behind :
    (min_len len pos : ℕ) (bstr : List ℕ) (chan : Channel) (replies : List ReadReply)
    → length (available chan) ≤ len
    → min_len ≤ len
    → pos + len < word
    → HonestReads
        (input_from_fd pos len replies
          (splice bstr pos (available chan))
          chan
          (pos + length (available chan))
          (sub_size min_len (length (available chan)))
          (sub_size len (length (available chan)))).asked
        replies
    → IsInput min_len len
        (length (available chan))
        0
        bstr
        pos
        len
        (available chan ++ payload replies)
        replies
        (input_from_fd pos len replies
          (splice bstr pos (available chan))
          chan
          (pos + length (available chan))
          (sub_size min_len (length (available chan)))
          (sub_size len (length (available chan))))
IsInput-behind min_len len pos bstr chan replies short hm hw honest =
    IsInput-through min_len len bstr pos (available chan) (payload replies) replies short (
      input_from_fd_lem min_len len pos (length (available chan)) (splice bstr pos (available chan))
        chan replies short hm hw honest)

length-available : (c : Channel) → c.max ≤ length c.buff → length (available c) ≡ c.max - c.curr
length-available c h =
    omega
      (arith, length-take {0} (c.max - c.curr) (drop c.curr c.buff), length-drop {0} c.curr c.buff)

-- The buffer holds all that is asked for.
IsInput-from_buffer :
    (min len pos : ℕ) (bstr : List ℕ) (chan : Channel) (replies : List ReadReply)
    → min ≤ len
    → len ≤ chan.max - chan.curr
    → chan.max ≤ length chan.buff
    → IsInput min len
        (length (available chan))
        0
        bstr
        pos
        len
        (available chan ++ payload replies)
        replies
        (record {
          mem = splice bstr pos (take len (drop chan.curr chan.buff));
          chan = record chan { curr = chan.curr + len };
          outcome = returned len;
          asked = [];
        })
IsInput-from_buffer min len pos bstr chan replies hm enough valid =
    let taken = take len (drop chan.curr chan.buff) in
    let kept = take (chan.max - (chan.curr + len)) (drop (chan.curr + len) chan.buff) in
    let size : length taken ≡ len = omega (
      arith,
      length-take {0} len (drop chan.curr chan.buff),
      length-drop {0} chan.curr chan.buff,
    ) in
    let whole : len + (chan.max - (chan.curr + len)) ≡ chan.max - chan.curr = omega arith in
    let split : available chan ≡ taken ++ kept =
      ap (λ (n : ℕ). take n (drop chan.curr chan.buff)) (sym whole)
      ∙ sym (take-drop-append chan.buff chan.curr len (chan.max - (chan.curr + len))) in
    record {
      received = taken;
      stored = refl;
      fits = omega (arith, size);
      ended = (
        omega (arith, size),
        inl hm,
        ap (λ (l : List ℕ). l ++ payload replies) split ∙ append_assoc taken kept (payload replies),
      );
    }

-- For a channel whose offsets are in order and inside its buffer, a minimum of at most the length,
-- a range below 2 ^ 64 and answers with no more bytes than the two vectors of their call of readv
-- have room for, bigstring_input keeps every byte in order: the bytes that the channel held,
-- followed by those that the kernel gave, are those placed in the bigstring at the position, then
-- those left in the channel, then those of the answers that no call used; nothing else of the
-- bigstring changes, at most the length arrives, a result is the count that arrived and at least
-- the minimum (unless nothing was asked for), and an error carries that count and empties the
-- channel.
pub bigstring_input_lem :
    (min_len : ℕ) (chan : Channel) (pos len : ℕ) (bstr : List ℕ) (replies : List ReadReply)
    → chan.curr ≤ chan.max
    → chan.max ≤ length chan.buff
    → min_len ≤ len
    → pos + len < 2 ^ 64
    → HonestReads (bigstring_input min_len chan pos len bstr replies).asked replies
    → IsInput min_len len
        (length (available chan))
        0
        bstr
        pos
        len
        (available chan ++ payload replies)
        replies
        (bigstring_input min_len chan pos len bstr replies)
unfolding bigstring_input
bigstring_input_lem min_len chan pos len bstr replies hc valid hm hw =
    let a = chan.max - chan.curr in
    let size = length-available chan valid in
    elim (Bool-cases (a == 0)) [
      | inl e ↦
          let none_held : available chan ≡ [] = let z : a ≡ 0 = ground arith in rw z refl in
          let whole : len - 0 ≡ len = omega arith in
          let left : (len + word - 0) % word ≡ len = omega arith in
          let wanted : (min_len + word - 0) % word ≡ min_len = omega arith in
          let from : pos + 0 ≡ pos = omega arith in
          rw (e, none_held)
            (rw (whole, left, wanted, from) at
              (input_from_fd_lem min_len len pos 0 bstr chan replies (omega arith) hm hw))
      | inr e ↦ elim (Bool-cases (leb len a)) [
        | inl f ↦
            rw (e, f)
              λ _. IsInput-from_buffer min_len len pos bstr chan replies hm (ground arith) valid
        | inr f ↦
            let short : length (available chan) ≤ len = ground arith in
            rw (e, f, size)
              (rw size at (IsInput-behind min_len len pos bstr chan replies short hm hw))
      ]
    ]
