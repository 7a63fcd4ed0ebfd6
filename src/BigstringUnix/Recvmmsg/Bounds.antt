-- ===== src/BigstringUnix/Recvmmsg/Bounds.antt =====
-- bigstring_recvmmsg_assume_fd_is_nonblocking_stub stays inside its arrays of RECVMMSG_MAX_COUNT
-- headers and vectors and inside the arrays of its caller.
use ppx_universe.Base.{
  ℕ, zero, suc, ◌+◌, ◌%◌, ◌^◌, ◌≤◌, ◌<◌, ◌≡◌, ◌⊎◌, inl, inr, refl, sym, ap, ◌∙◌, List, [], ◌∷◌,
  ◌++◌, arith, false, ◌||◌, ltb, leb, length, length-append, get_or, set, take, drop, Bool-cases,
}
use mathlib.Core.List.{append_assoc}
use ppx_universe.BigstringUnix.Vectors.{
  thread_io_cutoff, IoVec, no_io_vec, to_iovec, gather_call, in_blocking_section, CallResult, long,
  invalid_argument,
}
use ppx_universe.BigstringUnix.Vectors.Gather.{vectors}
use ppx_universe.BigstringUnix.Recvmmsg.{
  Message, MmsgReply, messages, recvmmsg_max_count, ArrayValue, immediate, array, Sources, ignored,
  saved, Received, store_fields, after_call, total_len, recvmmsg_assume_fd_is_nonblocking,
  fill_iovecs, lens_after, truncated, bigstring_recvmmsg_assume_fd_is_nonblocking,
}

abbrev pub fields : (Message → ℕ) → List Message → List ℕ
fields f [] = []
fields f (m ∷ ms) = f m ∷ fields f ms

set_middle :
    (front : List ℕ) (y x : ℕ) (back : List ℕ)
    → set (front ++ y ∷ back) (length front) x ≡ (front ++ x ∷ []) ++ back
set_middle [] y x back = refl
set_middle (z ∷ front) y x back = ap (◌∷◌ z) (set_middle front y x back)

store_fields_from :
    (f : Message → ℕ) (ms : List Message) (front rest : List ℕ)
    → length ms ≤ length rest
    → store_fields f (length front) ms (front ++ rest)
      ≡ front ++ (fields f ms ++ drop (length ms) rest)
unfolding store_fields
store_fields_from f [] front rest h = refl
store_fields_from f (m ∷ ms) front [] h = absurd (omega arith)
store_fields_from f (m ∷ ms) front (y ∷ rest) h =
    let next : length (front ++ f m ∷ []) ≡ suc (length front) =
      omega (arith, length-append {0} front (f m ∷ [])) in
    ap (store_fields f (suc (length front)) ms) (set_middle front y (f m) rest)
    ∙ ap (λ (n : ℕ). store_fields f n ms ((front ++ f m ∷ []) ++ rest)) (sym next)
    ∙ store_fields_from f ms (front ++ f m ∷ []) rest (omega arith)
    ∙ append_assoc front (f m ∷ []) (fields f ms ++ drop (length ms) rest)

store_fields_lem :
    (f : Message → ℕ) (ms : List Message) (l : List ℕ)
    → length ms ≤ length l
    → store_fields f 0 ms l ≡ fields f ms ++ drop (length ms) l
store_fields_lem f ms l h = store_fields_from f ms [] l h

drop_at :
    (vs : List IoVec) (i : ℕ) → i < length vs → drop i vs ≡ get_or vs i no_io_vec ∷ drop (suc i) vs
drop_at [] i h = absurd (omega arith)
drop_at (v ∷ vs) zero h = refl
drop_at (v ∷ vs) (suc i) h = drop_at vs i (omega arith)

fill_iovecs_from :
    (v_iovecs : List IoVec) (i n : ℕ)
    → i + n ≤ length v_iovecs
    → fill_iovecs v_iovecs i n ≡ vectors (take n (drop i v_iovecs))
unfolding fill_iovecs
fill_iovecs_from v_iovecs i zero h = refl
fill_iovecs_from v_iovecs i (suc n) h =
    ap (◌∷◌ (to_iovec (get_or v_iovecs i no_io_vec)))
      (fill_iovecs_from v_iovecs (suc i) n (omega arith))
    ∙ ap (λ (l : List IoVec). vectors (take (suc n) l)) (sym (drop_at v_iovecs i (omega arith)))

-- What `count` messages at most leave: the lengths of those received in front of the others.
abbrev pub LensAfter : ℕ → MmsgReply → List ℕ → CallResult → ArrayValue → Type 0
LensAfter count (messages ms) lens (long n) after =
    (n ≡ length ms)
    × (n ≤ count)
    × (after ≡ array (fields (λ (m : Message). m.msg_len) ms ++ drop n lens))
LensAfter count reply lens result after = after ≡ array lens

-- The arguments do not fit, and nothing happens.
pub record IsRefused (v_count : ℕ) (srcs : Sources) (lens : List ℕ) (r : Received) : Type 0 where
  pub misfit : (recvmmsg_max_count < v_count) ⊎ (length lens < v_count)
  pub nothing :
      r ≡ record { result = invalid_argument; srcs = srcs; lens = array lens; events = [] }

-- The vectors of the first `v_count` bigstrings are passed on, with or without the runtime lock.
pub record IsReceived (v_count : ℕ) (v_iovecs : List IoVec) (lens : List ℕ) (reply : MmsgReply)
    (r : Received) : Type 0 where
  pub few : v_count ≤ recvmmsg_max_count
  pub room : v_count ≤ length lens
  pub called :
      (r.events ≡ gather_call (vectors (take v_count v_iovecs)) ∷ [])
      ⊎ (r.events ≡ in_blocking_section (gather_call (vectors (take v_count v_iovecs)) ∷ []))
  pub after : LensAfter v_count reply lens r.result r.lens

after_call_lem :
    (alloc_sockaddr : ℕ → ℕ) (count : ℕ) (srcs : Sources) (reply : MmsgReply) (lens : List ℕ)
    → count ≤ length lens
    → let result = (after_call alloc_sockaddr count srcs reply).0 in
      LensAfter count reply lens result (array (lens_after result reply lens))
unfolding after_call lens_after
after_call_lem alloc_sockaddr count srcs (MmsgReply.failed e) lens h = refl
after_call_lem alloc_sockaddr count ignored (messages ms) lens h =
    elim (Bool-cases (ltb count (length ms))) [
      | inl e ↦ rw e refl
      | inr e ↦ rw e (
        refl,
        ground arith,
        ap array (store_fields_lem (λ (m : Message). m.msg_len) ms lens (ground arith)),
      )
    ]
after_call_lem alloc_sockaddr count (saved immediate) (messages ms) lens h =
    elim (Bool-cases (ltb count (length ms))) [ inl e ↦ rw e refl | inr e ↦ rw e refl ]
after_call_lem alloc_sockaddr count (saved (array sockaddrs)) (messages ms) lens h =
    elim (Bool-cases (ltb count (length ms))) [
      | inl e ↦ rw e refl
      | inr e ↦ elim (Bool-cases (ltb (length sockaddrs) count)) [
        | inl f ↦ rw (e, f) refl
        | inr f ↦
            rw (e, f)
              (
                refl,
                ground arith,
                ap array (store_fields_lem (λ (m : Message). m.msg_len) ms lens (ground arith)),
              )
      ]
    ]

received_lem :
    (alloc_sockaddr : ℕ → ℕ) (v_iovecs : List IoVec) (count : ℕ) (srcs : Sources) (lens : List ℕ)
    (reply : MmsgReply)
    → count ≤ length v_iovecs
    → count ≤ recvmmsg_max_count
    → count ≤ length lens
    → let (result, srcs', events) =
        recvmmsg_assume_fd_is_nonblocking alloc_sockaddr
          (fill_iovecs v_iovecs 0 count)
          count
          srcs
          reply in
      IsReceived count v_iovecs lens reply (record {
        result = result;
        srcs = srcs';
        lens = array (lens_after result reply lens);
        events = events;
      })
unfolding recvmmsg_assume_fd_is_nonblocking
received_lem alloc_sockaddr v_iovecs count srcs lens reply hv hm hl =
    let small : leb (2 ^ 31) count ≡ false = ground arith in
    let few : ltb recvmmsg_max_count count ≡ false = ground arith in
    let passed = fill_iovecs_from v_iovecs 0 count (omega arith) in
    let after = after_call_lem alloc_sockaddr count srcs reply lens hl in
    rw (small, few, passed)
      (elim (Bool-cases (ltb thread_io_cutoff (total_len (vectors (take count v_iovecs)) 0))) [
        | inl e ↦ rw e (record { few = hm; room = hl; called = inr refl; after = after })
        | inr e ↦ rw e (record { few = hm; room = hl; called = inl refl; after = after })
      ])

-- For a count, below 2 ^ 64 as a word, of at most the vectors given and an array of lengths,
-- bigstring_recvmmsg_assume_fd_is_nonblocking does nothing but raise Invalid_argument, and then
-- the count exceeds RECVMMSG_MAX_COUNT or the array; or both have room, the kernel gets the first
-- count vectors, and a result is the number of messages, at most the count, whose lengths stand in
-- front of the unchanged rest of the array, which every other end leaves unchanged.
pub recvmmsg_lem :
    (alloc_sockaddr : ℕ → ℕ) (v_iovecs : List IoVec) (v_count : ℕ) (srcs : Sources) (lens : List ℕ)
    (reply : MmsgReply)
    → v_count ≤ length v_iovecs
    → v_count < 2 ^ 64
    → let r =
        bigstring_recvmmsg_assume_fd_is_nonblocking alloc_sockaddr v_iovecs v_count srcs
          (array lens)
          reply in
      IsRefused v_count srcs lens r ⊎ IsReceived v_count v_iovecs lens reply r
unfolding bigstring_recvmmsg_assume_fd_is_nonblocking truncated
recvmmsg_lem alloc_sockaddr v_iovecs v_count srcs lens reply hv hw =
    elim (Bool-cases (
      truncated v_count
      || ltb (length lens) (v_count % 2 ^ 32)
      || ltb recvmmsg_max_count (v_count % 2 ^ 32))) [
        | inl e ↦ rw e (inl (record { misfit = ground arith; nothing = refl }))
        | inr e ↦
            let same : v_count % 2 ^ 32 ≡ v_count = ground arith in
            rw e (
              inr (
                rw same (
                  received_lem alloc_sockaddr v_iovecs v_count srcs lens reply hv (ground arith)
                    (ground arith))))
      ]
