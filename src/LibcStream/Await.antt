-- ===== src/LibcStream/Await.antt =====
-- libc_recv_stream.cpp: an armed reader is resumed by the events of its socket.
use easybd.Base.{
  ℕ, zero, suc, ◌<◌, ◌≡◌, refl, subst, ◌∙◌, inl, inr, ◌⊎◌, List, [], ◌∷◌, true, false, length,
  arith,
}
use easybd.LibcStream.{
  Recv, got, again, closed, refused, Ring, is_ready, has_room, receive, drain, on_ready, await,
}
use easybd.LibcStream.Invariant.{IsValid, Ends, Keeps, Keeps-trans, receive-is_ready}
use easybd.LibcStream.Drain.{
  drain-Keeps, got-Keeps, drain_got, drain_again, drain_closed, drain_refused, waiter-Keeps,
}

-- A ring whose reader waits for the first byte: everything handed out is back, nothing is pending.
abbrev pub IsWaiting : Ring → Type 0
IsWaiting r = (r.waiter ≡ true) × (is_ready r ≡ false) × (r.checked_out_count ≡ 0)

waiting_room : (r : Ring) → IsValid r → IsWaiting r → has_room r ≡ true
waiting_room r v w = ground arith

drain-waiter : (os : List Recv) (r : Ring) → (drain os r).0.waiter ≡ r.waiter
unfolding drain receive
drain-waiter [] r = refl
drain-waiter (got bs ∷ os) r = ground (arith, drain-waiter os (receive bs r))
drain-waiter (again ∷ os) r = ground arith
drain-waiter (closed ∷ os) r = ground arith
drain-waiter (refused x ∷ os) r = ground arith

-- One event of the socket: nothing changed and less is left to wait for, or a reader can be served.
drain_waiting :
    (o : Recv) (os : List Recv) (r : Ring)
    → IsValid r
    → IsWaiting r
    → Ends (o ∷ os)
    → ((drain (o ∷ os) r ≡ (r, os)) × Ends os) ⊎ (is_ready (drain (o ∷ os) r).0 ≡ true)
drain_waiting (got bs) os r v w en =
    let h : has_room r ≡ true = waiting_room r v w in
    let k : Keeps r (got bs ∷ os) (receive bs r) os = got-Keeps bs os r h en.0 en.1 v in
    inr (
      rw (drain_got bs os r h)
        ((drain-Keeps os (receive bs r) k.valid k.ends).still_ready (receive-is_ready bs r)))
drain_waiting again os r v w en = inl (drain_again os r (waiting_room r v w), en)
drain_waiting closed os r v w en = inr (rw (drain_closed os r (waiting_room r v w)) (ground arith))
drain_waiting (refused x) os r v w en =
    inr (rw (drain_refused x os r (waiting_room r v w)) (ground arith))

await_again :
    (f : ℕ) (o : Recv) (os : List Recv) (r : Ring)
    → IsWaiting r
    → drain (o ∷ os) r ≡ (r, os)
    → await (suc f) (o ∷ os) r ≡ await f os r
unfolding await on_ready
await_again f o os r w e = ground arith

await_resumed :
    (f : ℕ) (os : List Recv) (r : Ring)
    → (drain os r).0.waiter ≡ true
    → is_ready (drain os r).0 ≡ true
    → await (suc f) os r ≡ (record (drain os r).0 { waiter = false }, (drain os r).1)
unfolding await on_ready
await_resumed f os r w e = ground arith

-- A reader that waits on a valid ring, with nothing pending and nothing handed out, on a socket
-- whose answers end: with more fuel than answers it is resumed, with a chunk or the end at hand,
-- and no byte is lost.
pub await_lem :
    (f : ℕ) (os : List Recv) (r : Ring)
    → length os < f
    → IsValid r
    → Ends os
    → IsWaiting r
    → Keeps r os (await f os r).0 (await f os r).1
      × (is_ready (await f os r).0 ≡ true)
      × ((await f os r).0.waiter ≡ false)
await_lem zero os r h v en w = absurd (omega arith)
await_lem (suc f) [] r h v en w = absurd en
await_lem (suc f) (o ∷ os) r h v en w =
    go (drain_waiting o os r v w en) (λ en'. await_lem f os r (omega (arith, h)) v en' w)
  where
    d : Keeps r (o ∷ os) (drain (o ∷ os) r).0 (drain (o ∷ os) r).1
    d = drain-Keeps (o ∷ os) r v (λ k. en)

    go :
        ((drain (o ∷ os) r ≡ (r, os)) × Ends os) ⊎ (is_ready (drain (o ∷ os) r).0 ≡ true)
        → (Ends os
            → Keeps r os (await f os r).0 (await f os r).1
              × (is_ready (await f os r).0 ≡ true)
              × ((await f os r).0.waiter ≡ false))
        → Keeps r (o ∷ os) (await (suc f) (o ∷ os) r).0 (await (suc f) (o ∷ os) r).1
          × (is_ready (await (suc f) (o ∷ os) r).0 ≡ true)
          × ((await (suc f) (o ∷ os) r).0.waiter ≡ false)
    go (inl e) ih =
        let same : Keeps r (o ∷ os) r os =
          subst (λ (x : Ring × List Recv). Keeps r (o ∷ os) x.0 x.1) e.0 d in
        rw (await_again f o os r w e.0) (Keeps-trans same (ih e.1).0, (ih e.1).1, (ih e.1).2)
    go (inr e) ih = rw (await_resumed f (o ∷ os) r (drain-waiter (o ∷ os) r ∙ w.0) e) (
      Keeps-trans d (waiter-Keeps (drain (o ∷ os) r).0 (drain (o ∷ os) r).1 false d.valid d.ends),
      e,
      refl,
    )
