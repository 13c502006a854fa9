-- ===== src/LibcStream/Safety.antt =====
-- libc_recv_stream.cpp: what a chunk's reader sees of the ring's memory while the socket goes on.
use easybd.Base.{
  ℕ, ◌+◌, ◌%◌, ◌<◌, ◌≡◌, ◌≢◌, refl, ◌∙◌, inl, inr, List, [], ◌∷◌, ◌&&◌, true, length, arith,
  Bool-cases,
}
use easybd.LibcStream.{
  Recv, got, again, closed, refused, Ring, is_ready, has_room, receive, drain, on_ready,
}
use easybd.LibcStream.Window.{Chain, Chain-end, Chain-snoc, mod-ne, update_ne}
use easybd.LibcStream.Invariant.{room_facts}
use easybd.LibcStream.Drain.{drain_full, drain_got, drain_again, drain_closed, drain_refused}

-- Slot `i` of the ring after `r'` holds what it held in `r`.
abbrev Same : Ring → ℕ → Ring → Type 0
Same r i r' = r'.buf i ≡ r.buf i

receive-Same :
    (bs : List ℕ) (r : Ring) (start k : ℕ)
    → length r.pending + r.checked_out_count < r.entries
    → Chain r.entries (start + r.checked_out_count) r.pending r.write_idx
    → k < r.checked_out_count
    → Same r ((start + k) % r.entries) (receive bs r)
unfolding receive
receive-Same bs r start k h c lt = update_ne r.buf r.write_idx _ _ ne
  where
    ne : (start + k) % r.entries ≢ r.write_idx
    ne e =
        mod-ne (start + k) (start + r.checked_out_count + length r.pending) r.entries (omega arith)
          (omega arith) (e ∙ Chain-end r.entries _ r.pending r.write_idx c)

drain-Same :
    (os : List Recv) (r : Ring) (start k : ℕ)
    → Chain r.entries (start + r.checked_out_count) r.pending r.write_idx
    → k < r.checked_out_count
    → Same r ((start + k) % r.entries) (drain os r).0
drain-Same [] r start k c lt = unfold drain in refl
drain-Same (o ∷ os) r start k c lt = elim (Bool-cases (has_room r)) [
  | inr e ↦ rw (drain_full o os r e)
  | inl e ↦ step o e (drain-Same os)
]
  where
    step :
        (p : Recv)
        → has_room r ≡ true
        → ((r' : Ring) (start' k' : ℕ)
            → Chain r'.entries (start' + r'.checked_out_count) r'.pending r'.write_idx
            → k' < r'.checked_out_count
            → Same r' ((start' + k') % r'.entries) (drain os r').0)
        → Same r ((start + k) % r.entries) (drain (p ∷ os) r).0
    step (got bs) e ih = rw (drain_got bs os r e) (
        unfold receive in
        ih (receive bs r) start k (Chain-snoc r.entries _ r.pending r.write_idx (length bs) c) lt
        ∙ receive-Same bs r start k (room_facts r e).2 c lt)
    step again e ih = rw (drain_again os r e)
    step closed e ih = rw (drain_closed os r e)
    step (refused x) e ih = rw (drain_refused x os r e)

-- Where the pending slots follow the `checked_out_count` slots that the reader holds, and the
-- next slot to write follows them: no answer of the socket makes `on_ready` change what a slot
-- that the reader holds contains.
pub on_ready-Same :
    (os : List Recv) (r : Ring) (start k : ℕ)
    → Chain r.entries (start + r.checked_out_count) r.pending r.write_idx
    → k < r.checked_out_count
    → Same r ((start + k) % r.entries) (on_ready os r).0.0
unfolding on_ready
on_ready-Same os r start k c lt =
    elim (Bool-cases ((drain os r).0.waiter && is_ready (drain os r).0)) [
      | inl e ↦ rw e (drain-Same os r start k c lt)
      | inr e ↦ rw e (drain-Same os r start k c lt)
    ]
