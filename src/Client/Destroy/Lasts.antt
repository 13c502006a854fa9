-- ===== src/Client/Destroy/Lasts.antt =====
-- What `~Client` does to the requests in flight, and what outlives its members.
use easybd.Base.{
  ℕ, ◌≡◌, ◌⊎◌, inl, inr, refl, ap, ap₂, ◌∙◌, List, [], ◌∷◌, true, Option, none, some, ==_refl,
  arith,
}
use easybd.LibcQueue
use easybd.LibcQueue.{
  FdState, Table, find, erase, put, clear_read_op, push_write_op, state_of, ops_of,
}
use easybd.Client
use easybd.Client.{Client, broken, send_failed}
use easybd.Client.Account.{Accounted, called, is_issued, broken-called, broken-pending}
use easybd.Client.Destroy.{
  Sent, completes, waits, fails, reader_op, send_op, next_sender, cancel_op, cancel_each,
  cancel_client, destroy,
}

-- The first sender that finds no room, if there is one.
abbrev pub if_waiting : Sent → ℕ → List ℕ → List ℕ
if_waiting completes cid later = later
if_waiting waits cid later = send_op cid ∷ []
if_waiting fails cid later = later

abbrev pub first_waiting : (ℕ → Sent) → List ℕ → List ℕ
first_waiting room [] = []
first_waiting room (cid ∷ cids) = if_waiting (room cid) cid (first_waiting room cids)

-- The sends that are registered: that of the request whose coroutine holds the lock, if it waits for
-- room.
abbrev pub sends_of : Option ℕ → List ℕ
sends_of none = []
sends_of (some cid) = send_op cid ∷ []

-- What comes back: of the senders behind the holder, the first that waits for room.
abbrev pub survivors : (ℕ → Sent) → Option ℕ → List ℕ → List ℕ
survivors room none cids = []
survivors room (some cid) cids = first_waiting room cids

send_failed_none : (cid : ℕ) (c : Client) → c.pending ≡ [] → send_failed cid c ≡ c
unfolding send_failed Client.find
send_failed_none cid c e =
    let missing : Client.find cid c.pending ≡ none = ap (Client.find cid) e in
    rw (missing, send_failed) refl

Sent-cases : (s : Sent) → (s ≡ completes) ⊎ (s ≡ waits) ⊎ (s ≡ fails)
Sent-cases completes = inl refl
Sent-cases waits = inr (inl refl)
Sent-cases fails = inr (inr refl)

module _ (fd : ℕ) (room : ℕ → Sent) where
  -- With nothing pending and nothing registered.
  next_sender-survives :
      (cids : List ℕ) (c : Client)
      → c.pending ≡ []
      → ((next_sender fd room cids [] c).1 ≡ c)
        × (LibcQueue.cancel_all (next_sender fd room cids [] c).0 ≡ first_waiting room cids)
  unfolding next_sender LibcQueue.cancel_all push_write_op
  next_sender-survives [] c e = (refl, refl)
  next_sender-survives (cid ∷ cids) c e = elim (Sent-cases (room cid)) [
    | inl h ↦ rw (h, next_sender) (next_sender-survives cids c e)
    | inr (inl h) ↦ rw (h, next_sender) (cc, cc)
    | inr (inr h) ↦
        let d = next_sender-survives cids c e in rw (h, next_sender, send_failed_none cid c e) d
  ]

  cancel_fd_one : (st : FdState) → LibcQueue.cancel_fd fd ((fd, st) ∷ []) ≡ (ops_of st, [])
  unfolding LibcQueue.cancel_fd find erase
  cancel_fd_one st = ground (arith, ==_refl fd)

  -- The queue of a client has the client's descriptor alone.
  cancel_client-survives :
      (st : FdState) (holder : Option ℕ) (q : List ℕ) (c : Client)
      → st.read_op ≡ some reader_op
      → st.write_queue ≡ sends_of holder
      → destroy fd room ((fd, st) ∷ [], c, q) ≡ (broken c, survivors room holder q)
  unfolding destroy cancel_client cancel_each cancel_op LibcQueue.cancel_all clear_read_op find
  cancel_client-survives st none q c r w = rw (cancel_fd_one st, r, w) refl
  cancel_client-survives st (some cid) q c r w =
      let (same, left) = next_sender-survives q (broken c) (broken-pending c) in
      rw (cancel_fd_one st, r, w, send_failed_none cid (broken c) (broken-pending c))
        (ap₂ (λ d l. (d, l)) same left)

-- For a client whose requests are accounted for, whose `reader_loop` waits for bytes, and of whose sends one at
-- most is registered, that of the request whose coroutine holds the lock: `~Client` calls the callback of
-- every cid that was given out and not yet called back, so that each was called once, and leaves none
-- pending; and what its queue still has when the members are destroyed is the send of the first request
-- behind the holder that finds no room, or nothing.
pub destroy-Calls :
    (fd : ℕ) (room : ℕ → Sent) (st : FdState) (holder : Option ℕ) (q : List ℕ) (c : Client) (i : ℕ)
    → Accounted c
    → is_issued i c ≡ true
    → st.read_op ≡ some reader_op
    → st.write_queue ≡ sends_of holder
    → let (c', left) = destroy fd room ((fd, st) ∷ [], c, q) in
      (called i c'.calls ≡ 1) × (c'.pending ≡ []) × (left ≡ survivors room holder q)
destroy-Calls fd room st holder q c i a e r w =
    let d = cancel_client-survives fd room st holder q c r w in
    let (once, none_left) = broken-called c i a e in
    (ap (λ x. called i x.0.calls) d ∙ once, ap (λ x. x.0.pending) d ∙ none_left, ap (λ x. x.1) d)
