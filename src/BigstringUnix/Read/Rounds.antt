-- ===== src/BigstringUnix/Read/Rounds.antt =====
-- What a loop that reads leaves in the bigstring, put together from its rounds.
use ppx_universe.Base.{
  ℕ, ◌+◌, ◌-◌, ◌≤◌, ◌<◌, ◌≡◌, ◌⊎◌, sym, ap, ◌∙◌, List, [], ◌∷◌, ◌++◌, arith, length, length-append,
}
use mathlib.Core.Path.{subst}
use mathlib.Core.List.{append_assoc}
use ppx_universe.Base.Splice.{splice, splice-append, splice_nothing}
use ppx_universe.BigstringUnix.Replies.{
  Errno, ReadReply, bytes, Outcome, returned, io_error, blocked, payload, unused,
}
use ppx_universe.BigstringUnix.Read.{Reading, asking}

-- How a read of `count` bytes ends where `min_len` of `len` were wanted.
abbrev pub ReadEnd : ℕ → ℕ → ℕ → Outcome → Type 0
ReadEnd min_len len count (returned n) = (n ≡ count) × ((min_len ≤ n) ⊎ (len ≡ 0))
ReadEnd min_len len count (io_error n e) = (n ≡ count) × ((n < min_len) ⊎ (n ≡ 0))
ReadEnd min_len len count blocked = (count < min_len) ⊎ (count ≡ 0)

-- The bytes received are those of the answers used; they lie in the bigstring from `pos` on, and
-- nothing else of it changed.
pub record IsRead (mem : List ℕ) (pos len : ℕ) (replies : List ReadReply)
    (End : ℕ → Outcome → Type 0) (r : Reading) : Type 0 where
  pub received : List ℕ
  pub first : payload replies ≡ received ++ payload (unused r.asked replies)
  pub stored : r.mem ≡ splice mem pos received
  pub fits : length received ≤ len
  pub ended : End (length received) r.outcome

-- Some bytes more in front of what a later part of the loop received.
pub extend :
    (mem : List ℕ) (pos len : ℕ) (front : List ℕ) (replies : List ReadReply)
    (End : ℕ → Outcome → Type 0) {r : Reading}
    → length front ≤ len
    → IsRead
        (splice mem pos front)
        (pos + length front)
        (len - length front)
        replies
        (λ n o. End (length front + n) o)
        r
    → (asked : ℕ) → IsRead mem pos len (bytes front ∷ replies) End (asking asked r)
extend mem pos len front replies End {r} h i asked = record {
  received = front ++ i.received;
  first =
      ap (λ (l : List ℕ). front ++ l) i.first
      ∙ sym (append_assoc front i.received (payload (unused r.asked replies)));
  stored = i.stored ∙ splice-append mem pos front i.received;
  fits = omega (arith, length-append {0} front i.received, i.fits);
  ended = rw (length-append {0} front i.received) i.ended;
}

-- Nothing received.
pub nothing :
    (mem : List ℕ) (pos len : ℕ) (replies : List ReadReply) (End : ℕ → Outcome → Type 0)
    (o : Outcome) (asked : List ℕ)
    → payload replies ≡ payload (unused asked replies)
    → End 0 o
    → IsRead mem pos len replies End (record { mem = mem; outcome = o; asked = asked })
nothing mem pos len replies End o asked none h = record {
  received = [];
  first = none;
  stored = sym (splice_nothing mem pos);
  fits = omega arith;
  ended = h;
}

pub weaken :
    {mem : List ℕ} {pos len : ℕ} {replies : List ReadReply} {End End' : ℕ → Outcome → Type 0}
    {r : Reading}
    → ((n : ℕ) (o : Outcome) → End n o → End' n o)
    → IsRead mem pos len replies End r
    → IsRead mem pos len replies End' r
weaken f i = record {
  received = i.received;
  first = i.first;
  stored = i.stored;
  fits = i.fits;
  ended = f _ _ i.ended;
}

-- An answer without bytes.
pub skip :
    (e : Errno) {mem : List ℕ} {pos len : ℕ} {replies : List ReadReply} {End : ℕ → Outcome → Type 0}
    {r : Reading}
    → IsRead mem pos len replies End r
    → (asked : ℕ) → IsRead mem pos len (ReadReply.failed e ∷ replies) End (asking asked r)
skip e i asked = record {
  received = i.received;
  first = i.first;
  stored = i.stored;
  fits = i.fits;
  ended = i.ended;
}

-- The part of a loop behind `n` bytes counts on from there.
pub count_on :
    (End : ℕ → Outcome → Type 0) (got n m : ℕ) (o : Outcome)
    → End (got + n + m) o
    → End (got + (n + m)) o
count_on End got n m o h =
    let assoc : got + n + m ≡ got + (n + m) = omega arith in subst (λ k. End k o) assoc h
