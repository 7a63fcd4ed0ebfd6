-- ===== src/BigstringUnix/Output/Rounds.antt =====
-- The invariant of the loop of bigstring_output_stub, and that each round keeps it.
use Prim.Native.Nat.{min}
use mathlib.Core.List.{append_assoc, append-nil}
use ppx_universe.Base.{
  ℕ, ◌+◌, ◌-◌, ◌%◌, ◌≤◌, ◌<◌, ◌≡◌, ◌⊎◌, inl, inr, refl, sym, ap, ap₂, ◌∙◌, List, [], ◌++◌, arith,
  take, drop, take-drop-append, take-append-take, ◌==◌, ltb, leb, Bool-cases,
}
use ppx_universe.BigstringUnix.Replies.{
  Errno, eintr, eagain, ewouldblock, einval, other, WriteReply, wrote, returned, io_error, blocked,
  word,
}
use ppx_universe.BigstringUnix.Output.{
  OutputState, Round, go, stop, gathered, retry, written_round, output_round,
}

-- The kernel takes no more than the two vectors offer.
abbrev pub Offered : WriteReply → OutputState → Type 0
Offered (WriteReply.failed e) s = Unit {0}
Offered (wrote n) s = n ≤ s.buff_iov_len + s.bstr_iov_len

-- `curr` bytes of the buffer and `init` bytes of the bigstring from `start` on are to be sent.
module _ (buff mem : List ℕ) (curr start init min_len : ℕ) where
  -- What the kernel took is the part of the buffer and of the bigstring that is not left.
  pub record IsUnderWay (s : OutputState) : Type 0 where
    pub left : s.buff_len ≤ curr
    pub base : (s.buff_len ≡ 0) ⊎ (s.buff_base + s.buff_len ≡ curr)
    pub order : (s.buff_len ≡ 0) ⊎ (s.bstr_base ≡ start)
    pub range : s.bstr_base + s.bstr_len ≡ start + init
    pub after : start ≤ s.bstr_base
    pub offer : (s.buff_iov_len ≡ s.buff_len) ⊎ (s.bstr_iov_len ≡ 0)
    pub buff_offer : s.buff_iov_len ≤ s.buff_len
    pub bstr_offer : s.bstr_iov_len ≤ s.bstr_len
    pub wanted : (s.bstr_base < start + min_len) ⊎ (s.bstr_base ≡ start)
    pub taken :
        s.sent ≡ take (curr - s.buff_len) buff ++ take (s.bstr_base - start) (drop start mem)

  -- How a round leaves the call.
  abbrev pub RoundEnd : Round → Type 0
  RoundEnd (go s) = IsUnderWay s
  RoundEnd (stop s kept (returned n)) =
      (kept ≡ 0) × (s.sent ≡ take curr buff ++ take n (drop start mem)) × (min_len ≤ n) × (n ≤ init)
  RoundEnd (stop s kept (io_error n e)) =
      IsUnderWay s × (kept ≡ s.buff_len) × (n ≡ s.bstr_base - start)
  RoundEnd (stop s kept blocked) = ⊥

  retry_lem : (e : Errno) (s : OutputState) → IsUnderWay s → RoundEnd (retry start e s)
  unfolding retry
  retry_lem e s i = elim (Bool-cases (ltb 1 (s.buff_iov_len + s.bstr_iov_len))) [
    | inl t ↦ rw t (elim (Bool-cases (s.buff_len == 0)) [
      | inl z ↦ rw z (record {
        left = i.left;
        base = i.base;
        order = i.order;
        range = i.range;
        after = i.after;
        offer = ground (arith, i.buff_offer);
        buff_offer = i.buff_offer;
        bstr_offer = ground (arith, i.buff_offer, i.bstr_offer);
        wanted = i.wanted;
        taken = i.taken;
      })
      | inr z ↦ rw z (record {
        left = i.left;
        base = i.base;
        order = i.order;
        range = i.range;
        after = i.after;
        offer = inr refl;
        buff_offer = ground arith;
        bstr_offer = omega arith;
        wanted = i.wanted;
        taken = i.taken;
      })
    ])
    | inr t ↦ rw t (i, refl, refl)
  ]

  -- The buffer was written in part.
  partly_written :
      (n : ℕ) (s : OutputState)
      → IsUnderWay s
      → n < s.buff_len
      → n ≤ s.buff_iov_len + s.bstr_iov_len
      → s.sent ++ gathered buff mem n s
        ≡ take (curr - (s.buff_len - n)) buff ++ take (s.bstr_base - start) (drop start mem)
  unfolding gathered
  partly_written n s i h offered =
      let inside : min n s.buff_iov_len ≡ n = ground (arith, i.offer) in
      let none_more : n - s.buff_iov_len ≡ 0 = ground (arith, i.offer) in
      let at : s.buff_base ≡ curr - s.buff_len = ground (arith, i.base) in
      let unmoved : s.bstr_base - start ≡ 0 = ground (arith, i.order) in
      let sum : curr - s.buff_len + n ≡ curr - (s.buff_len - n) = omega (arith, i.left) in
      let before = take (curr - s.buff_len) buff in
      let now = take n (drop (curr - s.buff_len) buff) in
      let front : before ++ now ≡ take (curr - (s.buff_len - n)) buff =
        take-append-take buff (curr - s.buff_len) n ∙ ap (λ (k : ℕ). take k buff) sum in
      rw (inside, none_more, at, unmoved)
        (ap (λ (l : List ℕ). l ++ (now ++ []))
            (i.taken ∙ ap (λ (k : ℕ). before ++ take k (drop start mem)) unmoved)
          ∙ ap₂ (λ (l m : List ℕ). l ++ m) (append-nil before) (append-nil now)
          ∙ front
          ∙ sym (append-nil (take (curr - (s.buff_len - n)) buff)))

  pub whole_buffer :
      (s : OutputState)
      → IsUnderWay s
      → take (curr - s.buff_len) buff ++ take s.buff_len (drop s.buff_base buff) ≡ take curr buff
  whole_buffer s i =
      let sum : curr - s.buff_len + s.buff_len ≡ curr = omega (arith, i.left) in
      elim i.base [
        | inl z ↦
            let all : curr - s.buff_len ≡ curr = omega arith in
            ap₂ (λ (j k : ℕ). take j buff ++ take k (drop s.buff_base buff)) all z
            ∙ append-nil (take curr buff)
        | inr e ↦
            let at : s.buff_base ≡ curr - s.buff_len = omega arith in
            ap (λ (k : ℕ). take (curr - s.buff_len) buff ++ take s.buff_len (drop k buff)) at
            ∙ take-append-take buff (curr - s.buff_len) s.buff_len
            ∙ ap (λ (k : ℕ). take k buff) sum
      ]

  -- The buffer is empty now.
  all_written :
      (n : ℕ) (s : OutputState)
      → IsUnderWay s
      → s.buff_len ≤ n
      → n ≤ s.buff_iov_len + s.bstr_iov_len
      → s.sent ++ gathered buff mem n s
        ≡ take curr buff ++ take (s.bstr_base + (n - s.buff_len) - start) (drop start mem)
  unfolding gathered
  all_written n s i h offered =
      let inside : min n s.buff_iov_len ≡ s.buff_len = ground (arith, i.offer, i.buff_offer) in
      let full : s.buff_iov_len ≡ s.buff_len = ground (arith, i.offer, i.buff_offer) in
      let more = n - s.buff_len in
      rw (inside, full)
        (elim i.order [
          | inl z ↦
              let sum : s.bstr_base - start + more ≡ s.bstr_base + more - start =
                omega (arith, i.after) in
              let at : start + (s.bstr_base - start) ≡ s.bstr_base = omega (arith, i.after) in
              let all : curr - s.buff_len ≡ curr = omega arith in
              let buffer = take (curr - s.buff_len) buff in
              let front = take (s.bstr_base - start) (drop start mem) in
              let next = take more (drop s.bstr_base mem) in
              let joined : front ++ next ≡ take (s.bstr_base + more - start) (drop start mem) =
                ap (λ (k : ℕ). front ++ take more (drop k mem)) (sym at)
                ∙ take-drop-append mem start (s.bstr_base - start) more
                ∙ ap (λ (k : ℕ). take k (drop start mem)) sum in
              ap₂ (λ (l : List ℕ) (k : ℕ). l ++ (take k (drop s.buff_base buff) ++ next)) i.taken z
              ∙ append_assoc buffer front next
              ∙ ap₂ (λ (k : ℕ) (l : List ℕ). take k buff ++ l) all joined
          | inr z ↦
              let none_yet : s.bstr_base - start ≡ 0 = omega arith in
              let count : s.bstr_base + more - start ≡ more = omega arith in
              let before = take (curr - s.buff_len) buff in
              let kept = take s.buff_len (drop s.buff_base buff) in
              let next = take more (drop s.bstr_base mem) in
              ap (λ (l : List ℕ). l ++ (kept ++ next))
                (i.taken
                  ∙ ap (λ (k : ℕ). before ++ take k (drop start mem)) none_yet
                  ∙ append-nil before)
              ∙ sym (append_assoc before kept next)
              ∙ ap (λ (l : List ℕ). l ++ next) (whole_buffer s i)
              ∙ ap₂ (λ (j k : ℕ). take curr buff ++ take j (drop k mem)) (sym count) z
        ])

  written_round_lem :
      (n : ℕ) (s : OutputState)
      → IsUnderWay s
      → n ≤ s.buff_iov_len + s.bstr_iov_len
      → curr < word
      → init < word
      → RoundEnd (written_round start (start + min_len) buff mem n s)
  unfolding written_round
  written_round_lem n s i offered hc hi = elim (Bool-cases (ltb n s.buff_len)) [
    | inl t ↦ rw t (record {
      left = omega (arith, i.left);
      base = ground (arith, i.base);
      order = ground (arith, i.order);
      range = i.range;
      after = i.after;
      offer = inl refl;
      buff_offer = omega arith;
      bstr_offer = i.bstr_offer;
      wanted = i.wanted;
      taken = partly_written n s i (ground arith) offered;
    })
    | inr t ↦
        let done : s.buff_len ≤ n = ground arith in
        let some : (n + word - s.buff_len) % word ≡ n - s.buff_len =
          omega (arith, i.left, i.buff_offer, i.bstr_offer, i.range, i.after) in
        let sent = all_written n s i done offered in
        let m = n - s.buff_len in
        let fits : m ≤ s.bstr_len = ground (arith, i.offer, i.buff_offer, i.bstr_offer) in
        let left : (s.bstr_len + word - m) % word ≡ s.bstr_len - m =
          omega (arith, i.range, i.after) in
        elim (Bool-cases (leb (start + min_len) (s.bstr_base + m))) [
          | inl e ↦
              rw (t, some, e) (refl, sent, ground (arith, i.after), omega (arith, i.range, i.after))
          | inr e ↦
              rw (t, some, e, left)
                (record {
                  left = omega arith;
                  base = inl refl;
                  order = inl refl;
                  range = omega (arith, i.range);
                  after = omega (arith, i.after);
                  offer = inl refl;
                  buff_offer = omega arith;
                  bstr_offer = omega arith;
                  wanted = inl (ground arith);
                  taken = let e : curr - 0 ≡ curr = omega arith in rw e sent;
                })
        ]
  ]

  -- A round of the loop of bigstring_output, for every answer that takes no more than is offered and
  -- for sizes below 2 ^ 64, keeps the invariant that what the kernel took is exactly the part of the
  -- buffer and of the bigstring that is no longer to be sent, or ends the call with at least the
  -- minimum sent and nothing kept, or with the error, the count of the bytes of the bigstring that
  -- were sent and the unsent part of the buffer kept.
  pub output_round_lem :
      (r : WriteReply) (s : OutputState)
      → IsUnderWay s
      → Offered r s
      → curr < word
      → init < word
      → RoundEnd (output_round start (start + min_len) buff mem r s)
  unfolding output_round
  output_round_lem (WriteReply.failed eintr) s i o hc hi = i
  output_round_lem (WriteReply.failed eagain) s i o hc hi = retry_lem eagain s i
  output_round_lem (WriteReply.failed ewouldblock) s i o hc hi = retry_lem ewouldblock s i
  output_round_lem (WriteReply.failed einval) s i o hc hi = (i, refl, refl)
  output_round_lem (WriteReply.failed (other n)) s i o hc hi = (i, refl, refl)
  output_round_lem (wrote n) s i o hc hi = written_round_lem n s i o hc hi
