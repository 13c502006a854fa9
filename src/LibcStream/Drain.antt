-- ===== src/LibcStream/Drain.antt =====
-- libc_recv_stream.cpp, `on_ready`: what its loop does to the bytes and to the ring.
use easybd.Base.{
  ℕ, ◌<◌, ◌≡◌, refl, ap, inl, inr, List, [], ◌∷◌, ◌++◌, Bool, true, false, ◌&&◌, length, flatten,
  arith, append-nil, append_assoc, Bool-cases, flatten-append,
}
use easybd.LibcStream.{
  Recv, got, again, closed, refused, Ring, is_ready, is_open, has_room, receive, drain, wake,
}
use easybd.LibcStream.Invariant.{
  chunks, IsValid, Ends, Keeps, Keeps-refl, Keeps-trans, room_facts, chunks-receive,
  receive-IsValid, receive-is_ready,
}

-- One `::recv` of the loop, at a ring with room.
pub got-Keeps :
    (bs : List ℕ) (os : List Recv) (r : Ring)
    → has_room r ≡ true
    → 0 < length bs
    → Ends os
    → IsValid r
    → Keeps r (got bs ∷ os) (receive bs r) os
got-Keeps bs os r h ne en v = record {
  valid = receive-IsValid bs r ne (room_facts r h).2 v;
  ends = λ k. en;
  same_rest =
      rw chunks_eq
        (unfold receive in rw (flatten-append (chunks r), append-nil, append_assoc) (ground arith));
  same_ending = unfold receive in ground arith;
  same_out = unfold receive in refl;
  still_ready = λ k. receive-is_ready bs r;
}
  where
    chunks_eq : chunks (receive bs r) ≡ chunks r ++ bs ∷ []
    chunks_eq = chunks-receive bs r v (omega (arith, (room_facts r h).2))

closed-Keeps :
    (os : List Recv) (r : Ring)
    → has_room r ≡ true
    → IsValid r
    → Keeps r (closed ∷ os) (record r { eof = true }) os
closed-Keeps os r h v = record {
  valid = record {
    start = v.start;
    slots = v.slots;
    room = v.room;
    chain = v.chain;
    positive = v.positive;
    lens = v.lens;
    one_end = λ k. (room_facts r h).0;
  };
  ends = λ k. absurd (ground arith);
  same_rest = ap (λ t. flatten (chunks r) ++ t) (ground arith);
  same_ending = ground arith;
  same_out = refl;
  still_ready = λ k. ground arith;
}

refused-Keeps :
    (e : ℕ) (os : List Recv) (r : Ring)
    → has_room r ≡ true
    → 0 < e
    → IsValid r
    → Keeps r (refused e ∷ os) (record r { error = e }) os
refused-Keeps e os r h pos v = record {
  valid = record {
    start = v.start;
    slots = v.slots;
    room = v.room;
    chain = v.chain;
    positive = v.positive;
    lens = v.lens;
    one_end = λ k. absurd (ground arith);
  };
  ends = λ k. absurd (ground arith);
  same_rest = ap (λ t. flatten (chunks r) ++ t) (ground arith);
  same_ending = ground arith;
  same_out = refl;
  still_ready = λ k. ground arith;
}

pub again-Keeps : (os : List Recv) (r : Ring) → IsValid r → Ends os → Keeps r (again ∷ os) r os
again-Keeps os r v en = record {
  valid = v;
  ends = λ k. en;
  same_rest = refl;
  same_ending = refl;
  same_out = refl;
  still_ready = λ k. k;
}

pub drain_full :
    (o : Recv) (os : List Recv) (r : Ring) → has_room r ≡ false → drain (o ∷ os) r ≡ (r, o ∷ os)
unfolding drain
drain_full o os r e = rw (e, drain)

pub drain_got :
    (bs : List ℕ) (os : List Recv) (r : Ring)
    → has_room r ≡ true
    → drain (got bs ∷ os) r ≡ drain os (receive bs r)
unfolding drain
drain_got bs os r e = rw (e, drain)

pub drain_again : (os : List Recv) (r : Ring) → has_room r ≡ true → drain (again ∷ os) r ≡ (r, os)
unfolding drain
drain_again os r e = rw (e, drain)

pub drain_closed :
    (os : List Recv) (r : Ring)
    → has_room r ≡ true
    → drain (closed ∷ os) r ≡ (record r { eof = true }, os)
unfolding drain
drain_closed os r e = rw (e, drain)

pub drain_refused :
    (x : ℕ) (os : List Recv) (r : Ring)
    → has_room r ≡ true
    → drain (refused x ∷ os) r ≡ (record r { error = x }, os)
unfolding drain
drain_refused x os r e = rw (e, drain)

-- The loop of `on_ready`, at a valid ring whose socket, while it is open, has answers that end:
-- the ring stays valid, and the pending bytes followed by those that the socket will still give
-- stay the same, as does the ending.
pub drain-Keeps :
    (os : List Recv) (r : Ring)
    → IsValid r
    → (is_open r ≡ true → Ends os)
    → Keeps r os (drain os r).0 (drain os r).1
drain-Keeps [] r v h = unfold drain in Keeps-refl r [] v h
drain-Keeps (o ∷ os) r v h = elim (Bool-cases (has_room r)) [
  | inr e ↦ rw (drain_full o os r e) (Keeps-refl r (o ∷ os) v h)
  | inl e ↦ step o e (h (ground arith)) (drain-Keeps os)
]
  where
    step :
        (p : Recv)
        → has_room r ≡ true
        → Ends (p ∷ os)
        → ((r' : Ring)
            → IsValid r'
            → (is_open r' ≡ true → Ends os)
            → Keeps r' os (drain os r').0 (drain os r').1)
        → Keeps r (p ∷ os) (drain (p ∷ os) r).0 (drain (p ∷ os) r).1
    step (got bs) e en ih =
        let k : Keeps r (got bs ∷ os) (receive bs r) os = got-Keeps bs os r e en.0 en.1 v in
        rw (drain_got bs os r e) (Keeps-trans k (ih (receive bs r) k.valid k.ends))
    step again e en ih = rw (drain_again os r e) (again-Keeps os r v en)
    step closed e en ih = rw (drain_closed os r e) (closed-Keeps os r e v)
    step (refused x) e en ih = rw (drain_refused x os r e) (refused-Keeps x os r e en v)

-- `_waiter` is no part of what is kept.
pub waiter-Keeps :
    (r : Ring) (os : List Recv) (b : Bool)
    → IsValid r
    → (is_open r ≡ true → Ends os)
    → Keeps r os (record r { waiter = b }) os
waiter-Keeps r os b v h = record {
  valid = record {
    start = v.start;
    slots = v.slots;
    room = v.room;
    chain = v.chain;
    positive = v.positive;
    lens = v.lens;
    one_end = v.one_end;
  };
  ends = h;
  same_rest = refl;
  same_ending = refl;
  same_out = refl;
  still_ready = λ k. k;
}

pub wake-Keeps :
    (r : Ring) (os : List Recv)
    → IsValid r
    → (is_open r ≡ true → Ends os)
    → Keeps r os (wake r).0 os
wake-Keeps r os v h = elim (Bool-cases (r.waiter && is_ready r)) [
  | inl e ↦ rw e (waiter-Keeps r os false v h)
  | inr e ↦ rw e (Keeps-refl r os v h)
]
