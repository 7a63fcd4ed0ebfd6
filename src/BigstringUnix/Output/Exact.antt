-- ===== src/BigstringUnix/Output/Exact.antt =====
-- Output through a channel keeps every byte: what the kernel took and what the buffer still holds
-- are the bytes that were there and then those of the bigstring that the call reports.
use mathlib.Core.List.{append-nil}
use ppx_universe.Base.{
  ℕ, ◌+◌, ◌-◌, ◌^◌, ◌≤◌, ◌<◌, ◌≡◌, ◌⊎◌, inl, inr, refl, sym, ap, ap₂, ◌∙◌, List, [], ◌∷◌, ◌++◌,
  arith, length, length-take, length-drop, take, drop, take-take, take-append-take, ◌==◌, leb,
  Bool-cases,
}
use ppx_universe.Base.Splice.{splice, take-splice, take-drop-splice}
use ppx_universe.BigstringUnix.Channel.{Channel, pending}
use ppx_universe.BigstringUnix.Replies.{WriteReply, Outcome, returned, io_error, blocked, word}
use ppx_universe.BigstringUnix.Output.{
  OutputState, Round, go, stop, output_round, Outputting, keep, output_loop, start_state,
  bigstring_output,
}
use ppx_universe.BigstringUnix.Output.Rounds.{
  Offered, IsUnderWay, RoundEnd, output_round_lem, whole_buffer,
}

-- Answers that never take more than the round's writev offers.
abbrev pub HonestOutputs : ℕ → ℕ → List ℕ → List ℕ → List WriteReply → OutputState → Type 0
HonestOutputs bstr bstr_min buff mem [] s = Unit {0}
HonestOutputs bstr bstr_min buff mem (r ∷ replies) s =
    Offered r s × elim (output_round bstr bstr_min buff mem r s) [
      | go s' ↦ HonestOutputs bstr bstr_min buff mem replies s'
      | stop s' kept o ↦ Unit {0}
    ]

-- How an output ends that had the bytes `front` in the buffer and `len` bytes of `payload` to send,
-- of which `min_len` were wanted. A blocked one has sent all of the buffer before any of the payload.
abbrev pub OutputEnd : ℕ → ℕ → List ℕ → List ℕ → List ℕ → Channel → Outcome → Type 0
OutputEnd min_len len front payload sent chan (returned n) =
    (min_len ≤ n) × (n ≤ len) × (sent ++ pending chan ≡ front ++ take n payload)
OutputEnd min_len len front payload sent chan (io_error n e) =
    ((n < min_len) ⊎ (n ≡ 0)) × (n ≤ len) × (sent ++ pending chan ≡ front ++ take n payload)
OutputEnd min_len len front payload sent chan blocked =
    (j : ℕ) × (k : ℕ) × (j ≤ length front)
    × (k ≤ len)
    × ((j ≡ length front) ⊎ (k ≡ 0))
    × (sent ≡ take j front ++ take k payload)

module _ (chan : Channel) (start init min_len : ℕ) (mem : List ℕ)
    (small : chan.curr ≤ length chan.buff) where
  kept_front :
      (s : OutputState)
      → IsUnderWay chan.buff mem chan.curr start init min_len s
      → pending (keep chan s.buff_len s) ≡ take s.buff_len (drop s.buff_base chan.buff)
  unfolding keep
  kept_front s i =
      let kept = take s.buff_len (drop s.buff_base chan.buff) in
      elim (Bool-cases (s.buff_len == 0)) [
        | inl e ↦ let z : s.buff_len ≡ 0 = ground arith in rw (e, z) refl
        | inr e ↦
            let size : length kept ≡ s.buff_len = ground (
              arith,
              i.base,
              i.left,
              length-take {0} s.buff_len (drop s.buff_base chan.buff),
              length-drop {0} s.buff_base chan.buff,
            ) in
            rw e (
              ap (λ (k : ℕ). take k (splice chan.buff 0 kept)) (sym size)
              ∙ take-drop-splice chan.buff 0 kept (omega (arith, i.left)))
      ]

  kept_bytes :
      (s : OutputState)
      → IsUnderWay chan.buff mem chan.curr start init min_len s
      → s.sent ++ pending (keep chan s.buff_len s)
        ≡ pending chan ++ take (s.bstr_base - start) (drop start mem)
  kept_bytes s i =
      let before = take (chan.curr - s.buff_len) chan.buff in
      let kept = take s.buff_len (drop s.buff_base chan.buff) in
      ap₂ (λ (l m : List ℕ). l ++ m) i.taken (kept_front s i) ∙ elim i.order [
        | inl z ↦
            let all : chan.curr - s.buff_len ≡ chan.curr = omega arith in
            ap₂
              (λ (j k : ℕ).
                (take j chan.buff ++ take (s.bstr_base - start) (drop start mem))
                ++ take k (drop s.buff_base chan.buff))
              all z
            ∙ append-nil (take chan.curr chan.buff ++ take (s.bstr_base - start) (drop start mem))
        | inr e ↦
            let none_yet : s.bstr_base - start ≡ 0 = omega arith in
            ap (λ (k : ℕ). (before ++ take k (drop start mem)) ++ kept) none_yet
            ∙ ap (λ (l : List ℕ). l ++ kept) (append-nil before)
            ∙ whole_buffer chan.buff mem chan.curr start init min_len s i
            ∙ sym (append-nil (pending chan))
            ∙ ap (λ (k : ℕ). pending chan ++ take k (drop start mem)) (sym none_yet)
      ]

  output_end :
      (s : OutputState) (kept : ℕ) (o : Outcome)
      → RoundEnd chan.buff mem chan.curr start init min_len (stop s kept o)
      → OutputEnd min_len init (pending chan) (drop start mem) s.sent (keep chan kept s) o
  unfolding keep
  output_end s kept (returned n) (z, sent, wanted, fits) = (
    wanted,
    fits,
    ap₂ (λ (l : List ℕ) (k : ℕ). l ++ pending (keep chan k s)) sent z
        ∙ append-nil (pending chan ++ take n (drop start mem)),
  )
  output_end s kept (io_error n e) (i, same, count) =
      (ground (arith, i.wanted), omega (arith, i.range, i.after), rw (same, count) (kept_bytes s i))
  output_end s kept blocked h = absurd h

  output_loop_lem :
      (replies : List WriteReply) (s : OutputState)
      → IsUnderWay chan.buff mem chan.curr start init min_len s
      → HonestOutputs start (start + min_len) chan.buff mem replies s
      → chan.curr < word
      → init < word
      → let r = output_loop start (start + min_len) mem chan replies s in
        OutputEnd min_len init (pending chan) (drop start mem) r.sent r.chan r.outcome
  unfolding output_loop
  output_loop_lem [] s i honest hc hi =
      let size : length (pending chan) ≡ chan.curr =
        omega (arith, length-take {0} chan.curr chan.buff) in
      (
        chan.curr - s.buff_len,
        s.bstr_base - start,
        omega arith,
        omega (arith, i.range, i.after),
        ground (arith, i.order),
        i.taken
            ∙ ap (λ (l : List ℕ). l ++ take (s.bstr_base - start) (drop start mem))
                (sym (take-take (chan.curr - s.buff_len) chan.curr chan.buff (omega arith))),
      )
  output_loop_lem (r ∷ replies) s i (fits, honest) hc hi =
      go_on (output_round start (start + min_len) chan.buff mem r s)
        (output_round_lem chan.buff mem chan.curr start init min_len r s i fits hc hi) honest
        (λ s' step rest. output_loop_lem replies s' step rest hc hi)
    where
      go_on :
          (round : Round)
          → RoundEnd chan.buff mem chan.curr start init min_len round
          → elim round as (λ _. Type 0) [
            | go s' ↦ HonestOutputs start (start + min_len) chan.buff mem replies s'
            | stop s' kept o ↦ Unit {0}
          ]
          → ((s' : OutputState)
              → IsUnderWay chan.buff mem chan.curr start init min_len s'
              → HonestOutputs start (start + min_len) chan.buff mem replies s'
              → let r = output_loop start (start + min_len) mem chan replies s' in
                OutputEnd min_len init (pending chan) (drop start mem) r.sent r.chan r.outcome)
          → let r = elim round as (λ _. Outputting) [
            | go s' ↦ output_loop start (start + min_len) mem chan replies s'
            | stop s' curr o ↦ record { sent = s'.sent; chan = keep chan curr s'; outcome = o }
          ] in
            OutputEnd min_len init (pending chan) (drop start mem) r.sent r.chan r.outcome
      go_on (go s') step rest later = later s' step rest
      go_on (stop s' kept o) step rest later = output_end s' kept o step

-- No byte has been sent yet.
start_state_lem :
    (chan : Channel) (pos len min_len : ℕ) (mem : List ℕ)
    → IsUnderWay chan.buff mem chan.curr pos len min_len (start_state chan pos len)
unfolding start_state
start_state_lem chan pos len min_len mem =
    let no_buffer : chan.curr - chan.curr ≡ 0 = omega arith in
    let no_data : pos - pos ≡ 0 = omega arith in
    record {
      left = omega arith;
      base = inr (omega arith);
      order = inr refl;
      range = refl;
      after = omega arith;
      offer = inl refl;
      buff_offer = omega arith;
      bstr_offer = omega arith;
      wanted = inr refl;
      taken = rw (no_buffer, no_data) refl;
    }

-- For a channel whose offset is inside its buffer, a range inside the bigstring, sizes below 2 ^
-- 64, a minimum of at most the length and answers that take no more than is offered,
-- bigstring_output loses, repeats and reorders no byte: what the kernel took and what the channel
-- still holds are together what the channel held and the first n bytes of the range, where n, at
-- most the length, is the result and at least the minimum, or is the count that an error carries,
-- below the minimum or 0; a call that has not ended has sent a first part of the same.
pub bigstring_output_lem :
    (min_len : ℕ) (chan : Channel) (pos len : ℕ) (bstr : List ℕ) (replies : List WriteReply)
    → chan.curr ≤ length chan.buff
    → length chan.buff < 2 ^ 64
    → pos + len ≤ length bstr
    → length bstr < 2 ^ 64
    → min_len ≤ len
    → HonestOutputs pos (pos + min_len) chan.buff bstr replies (start_state chan pos len)
    → let r = bigstring_output min_len chan pos len bstr replies in
      OutputEnd min_len len (pending chan) (drop pos bstr) r.sent r.chan r.outcome
unfolding bigstring_output start_state
bigstring_output_lem min_len chan pos len bstr replies hc hw inside hb hm honest =
    let payload = take len (drop pos bstr) in
    let size : length payload ≡ len =
      omega (arith, length-take {0} len (drop pos bstr), length-drop {0} pos bstr) in
    elim (Bool-cases (leb len (length chan.buff - chan.curr))) [
      | inl e ↦
          let buff' = splice chan.buff chan.curr payload in
          rw e (
            hm,
            omega arith,
            sym (take-append-take buff' chan.curr len)
                ∙ ap₂ (λ (l m : List ℕ). l ++ m) (take-splice chan.buff chan.curr payload)
                    (ap (λ (k : ℕ). take k (drop chan.curr buff')) (sym size)
                      ∙ take-drop-splice chan.buff chan.curr payload (ground (arith, size))),
          )
      | inr e ↦ rw e (
          output_loop_lem chan pos len min_len bstr hc replies (start_state chan pos len)
            (start_state_lem chan pos len min_len bstr) honest (omega arith) (omega arith))
    ]
