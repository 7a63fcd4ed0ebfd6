-- ===== src/BigstringUnix/Input/Rounds.antt =====
-- What a loop that reads from a channel leaves, put together from its rounds.
use ppx_universe.Base.{
  ℕ, ◌+◌, ◌-◌, ◌≤◌, ◌<◌, ◌≡◌, ◌⊎◌, refl, sym, ap, ◌∙◌, List, [], ◌∷◌, ◌++◌, arith, length,
  length-append, length-drop, drop, take_all,
}
use mathlib.Core.List.{append_assoc}
use ppx_universe.Base.Splice.{
  splice, splice-append, splice_nothing, take-drop-splice, length-splice,
}
use ppx_universe.BigstringUnix.Channel.{Channel, available}
use ppx_universe.BigstringUnix.Replies.{
  ReadReply, Outcome, returned, io_error, blocked, payload, unused,
}
use ppx_universe.BigstringUnix.Input.{Inputting, asking, set_empty, into_bigstring, into_channel}

-- How an input ends that had `got` bytes, took the bytes `ds` of those `brought`, and leaves the
-- bytes `later` in the kernel: of `init` bytes, `min` were wanted, and `held` were in the buffer.
abbrev pub InputEnd : ℕ → ℕ → ℕ → ℕ → List ℕ → List ℕ → List ℕ → Channel → Outcome → Type 0
InputEnd min init held got brought ds later chan (returned n) =
    (n ≡ got + length ds) × ((min ≤ n) ⊎ (init ≡ 0)) × (brought ≡ ds ++ (available chan ++ later))
InputEnd min init held got brought ds later chan (io_error n e) =
    (n ≡ got + length ds)
    × ((n < min) ⊎ (n ≡ held))
    × (available chan ≡ [])
    × (brought ≡ ds ++ later)
InputEnd min init held got brought ds later chan blocked = brought ≡ ds

-- The bytes `received` lie in the bigstring from `at` on, and nothing else of it changed. The kernel
-- still has the bytes of the replies that no call has used.
pub record IsInput (min init held got : ℕ) (mem : List ℕ) (at len : ℕ) (brought : List ℕ)
    (replies : List ReadReply) (r : Inputting) : Type 0 where
  pub received : List ℕ
  pub stored : r.mem ≡ splice mem at received
  pub fits : length received ≤ len
  pub ended :
      InputEnd min init held got brought received
        (payload (unused r.asked replies))
        r.chan
        r.outcome

module _ (min init held : ℕ) where
  -- Nothing received.
  pub no-IsInput :
      (got : ℕ) (mem : List ℕ) (at len : ℕ) (brought : List ℕ) (replies : List ReadReply)
      (asked : List ℕ) (chan : Channel) (o : Outcome)
      → InputEnd min init held got brought [] (payload (unused asked replies)) chan o
      → IsInput min init held got mem at len brought replies
          (record { mem = mem; chan = chan; outcome = o; asked = asked })
  no-IsInput got mem at len brought replies asked chan o h = record {
    received = [];
    stored = sym (splice_nothing mem at);
    fits = omega arith;
    ended = h;
  }

  end_later :
      (got : ℕ) (front brought ds later : List ℕ) (chan : Channel) (o : Outcome)
      → InputEnd min init held (got + length front) brought ds later chan o
      → InputEnd min init held got (front ++ brought) (front ++ ds) later chan o
  end_later got front brought ds later chan (returned n) (count, why, split) = (
    omega (arith, count, length-append {0} front ds),
    why,
    ap (λ (l : List ℕ). front ++ l) split ∙ sym (append_assoc front ds (available chan ++ later)),
  )
  end_later got front brought ds later chan (io_error n e) (count, why, empty, split) = (
    omega (arith, count, length-append {0} front ds),
    why,
    empty,
    ap (λ (l : List ℕ). front ++ l) split ∙ sym (append_assoc front ds later),
  )
  end_later got front brought ds later chan blocked split = ap (λ (l : List ℕ). front ++ l) split

  -- Some bytes more in front of what a later part of the loop received.
  pub extend-IsInput :
      (got : ℕ) (mem : List ℕ) (at len : ℕ) (front brought : List ℕ) (replies : List ReadReply)
      {r : Inputting}
      → length front ≤ len
      → IsInput min init held
          (got + length front)
          (splice mem at front)
          (at + length front)
          (len - length front)
          brought
          replies
          r
      → IsInput min init held got mem at len (front ++ brought) replies r
  extend-IsInput got mem at len front brought replies {r} h i = record {
    received = front ++ i.received;
    stored = i.stored ∙ splice-append mem at front i.received;
    fits = omega (arith, length-append {0} front i.received, i.fits);
    ended =
        end_later got front brought i.received (payload (unused r.asked replies)) r.chan r.outcome
          i.ended;
  }

-- A call more, whose answer is used.
pub asking-IsInput :
    {min init held got : ℕ} {mem : List ℕ} {at len : ℕ} {brought : List ℕ}
    {replies : List ReadReply} {r : Inputting} (n : ℕ) (reply : ReadReply)
    → IsInput min init held got mem at len brought replies r
    → IsInput min init held got mem at len brought (reply ∷ replies) (asking n r)
asking-IsInput n reply i = record {
  received = i.received;
  stored = i.stored;
  fits = i.fits;
  ended = i.ended;
}

pub no_bytes : (c : Channel) → available (set_empty c) ≡ []
no_bytes c = let e : c.max - c.max ≡ 0 = omega arith in rw e refl

-- Bytes that all fit the bigstring leave the buffer as it was.
pub all_fit :
    (mem : List ℕ) (chan : Channel) (at len : ℕ) (bs : List ℕ)
    → length bs ≤ len
    → (into_bigstring mem at len bs ≡ splice mem at bs)
      × (length (into_channel chan len bs).buff ≡ length chan.buff)
unfolding into_bigstring into_channel
all_fit mem chan at len bs h =
    (ap (splice mem at) (take_all len bs h), length-splice chan.buff 0 (drop len bs))

-- The bytes behind the bigstring's fill the buffer.
pub rest_available :
    (chan : Channel) (len : ℕ) (bs : List ℕ)
    → length bs ≤ len + length chan.buff
    → available (record (into_channel chan len bs) { max = length bs - len; curr = 0 })
      ≡ drop len bs
unfolding into_channel
rest_available chan len bs h =
    let over = length-drop len bs in
    let count : length bs - len - 0 ≡ length (drop len bs) = omega (arith, over) in
    rw count (take-drop-splice chan.buff 0 (drop len bs) (omega (arith, over)))
