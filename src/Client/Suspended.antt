-- ===== src/Client/Suspended.antt =====
-- client.cpp: a client whose `reader_loop` waits for the body of an answer, between `_pending.find` and
-- `_pending.erase`, and what may happen meanwhile.
use easybd.Base.{
  ℕ, ◌+◌, ◌^◌, ◌<◌, ◌≡◌, refl, inl, inr, List, [], ◌∷◌, Bool, true, false, Option, none, some, ltb,
  ◌==◌, length, arith, Bool-cases, Option-cases, ◌∙◌,
}
use easybd.Wire.{ResponseHeader, ByteOrder, max_payload_size}
use easybd.Client.{Pending, Client, find, erase, send_failed, pread, pwrite, complete, broken}
use easybd.Client.Account.{
  Accounted, in_flight_of_find, complete-Accounted, send_failed-Accounted, pread-Accounted,
  pwrite-Accounted, broken-Accounted,
}

-- The answer that `reader_loop` has found and copied out, while it reads its body.
abbrev pub Found : Type 0
Found = Option (ResponseHeader × Pending)

abbrev pub reads_body : ℕ → Found → Bool
reads_body cid none = false
reads_body cid (some (resp, p)) = resp.cid == cid

-- One event of a client: a call of the API; `reader_loop` finds the request of an answer, completes it, or
-- ends; or a send fails, for another request than the one whose answer's body is being read. The cids do
-- not wrap round.
pub data Step (order : ByteOrder) (c : Client) (f : Found) : Client → Found → Type 0 where
  reads :
      (buf size offset user_data : ℕ)
      → c.next_cid + 1 < 2 ^ 64
      → Step order c f (pread order buf size offset user_data c).0 f
  writes :
      (payload : List ℕ) (offset user_data : ℕ)
      → c.next_cid + 1 < 2 ^ 64
      → Step order c f (pwrite order payload offset user_data c).0 f
  finds :
      (resp : ResponseHeader) (p : Pending)
      → c.reading ≡ true
      → f ≡ none
      → find resp.cid c.pending ≡ some p
      → Step order c f c (some (resp, p))
  completes :
      (resp : ResponseHeader) (p : Pending) (body : Option (List ℕ))
      → f ≡ some (resp, p)
      → Step order c f (complete resp p body c) none
  breaks : c.reading ≡ true → Step order c f (broken c) none
  send_fails : (cid : ℕ) → reads_body cid f ≡ false → Step order c f (send_failed cid c) f

pub data Run (order : ByteOrder) (c : Client) : Client → Found → Type 0 where
  here : Run order c c none
  next : {d e : Client} {f g : Found} → Run order c d f → Step order d f e g → Run order c e g

-- What was found is still there.
abbrev StillFound : Client → Found → Type 0
StillFound c none = Unit {0}
StillFound c (some (resp, p)) = find resp.cid c.pending ≡ some p

find-erase :
    (i cid : ℕ) (ps : List (ℕ × Pending)) → (i == cid) ≡ false → find i (erase cid ps) ≡ find i ps
unfolding find erase
find-erase i cid [] h = refl
find-erase i cid ((c, p) ∷ ps) h = ground (arith, h, find-erase i cid ps h)

-- A pending request was given out before.
found_other :
    (i : ℕ) (p : Pending) (c : Client)
    → Accounted c
    → find i c.pending ≡ some p
    → ((i == c.next_cid) ≡ false) × ((c.next_cid == i) ≡ false)
found_other i p c a e = (
  ground (arith, a.once i, in_flight_of_find i c.pending p e),
  ground (arith, a.once i, in_flight_of_find i c.pending p e),
)

entered-find :
    (i : ℕ) (p q : Pending) (c : Client)
    → Accounted c
    → find i c.pending ≡ some p
    → find i ((c.next_cid, q) ∷ erase c.next_cid c.pending) ≡ some p
unfolding find
entered-find i p q c a e =
    let o = found_other i p c a e in rw o.1 (find-erase i c.next_cid c.pending o.0 ∙ e)

pread-StillFound :
    (order : ByteOrder) (buf size offset user_data : ℕ) (c : Client) (f : Found)
    → Accounted c
    → StillFound c f
    → StillFound (pread order buf size offset user_data c).0 f
unfolding pread
pread-StillFound order buf size offset user_data c none a h = tt
pread-StillFound order buf size offset user_data c (some (resp, p)) a h =
    elim (Bool-cases (ltb max_payload_size size)) [
      | inl e ↦ rw e h
      | inr e ↦ rw e (entered-find resp.cid p _ c a h)
    ]

pwrite-StillFound :
    (order : ByteOrder) (payload : List ℕ) (offset user_data : ℕ) (c : Client) (f : Found)
    → Accounted c
    → StillFound c f
    → StillFound (pwrite order payload offset user_data c).0 f
unfolding pwrite
pwrite-StillFound order payload offset user_data c none a h = tt
pwrite-StillFound order payload offset user_data c (some (resp, p)) a h =
    elim (Bool-cases (ltb max_payload_size (length payload))) [
      | inl e ↦ rw e h
      | inr e ↦ rw e (entered-find resp.cid p _ c a h)
    ]

send_failed-StillFound :
    (cid : ℕ) (c : Client) (f : Found)
    → reads_body cid f ≡ false
    → StillFound c f
    → StillFound (send_failed cid c) f
unfolding send_failed
send_failed-StillFound cid c none n h = tt
send_failed-StillFound cid c (some (resp, p)) n h = elim (Option-cases (find cid c.pending)) [
  | inl e ↦ rw (e, send_failed) h
  | inr (q, e) ↦ rw (e, send_failed) (find-erase resp.cid cid c.pending n ∙ h)
]

Step-Accounted :
    {order : ByteOrder} {c d : Client} {f g : Found}
    → Step order c f d g
    → Accounted c
    → StillFound c f
    → Accounted d × StillFound d g
Step-Accounted {order} {c} {f = f} (reads buf size offset user_data h) a k = (
  pread-Accounted order buf size offset user_data c h a,
  pread-StillFound order buf size offset user_data c f a k,
)
Step-Accounted {order} {c} {f = f} (writes payload offset user_data h) a k = (
  pwrite-Accounted order payload offset user_data c h a,
  pwrite-StillFound order payload offset user_data c f a k,
)
Step-Accounted {order} {c} (finds resp p h n e) a k = (a, e)
Step-Accounted {order} {c} (completes resp p body e) a k =
    let held : find resp.cid c.pending ≡ some p = rw e at k in
    (complete-Accounted resp p body c held a, tt)
Step-Accounted {order} {c} (breaks h) a k = (broken-Accounted c a, tt)
Step-Accounted {order} {c} {f = f} (send_fails cid n) a k =
    (send_failed-Accounted cid c a, send_failed-StillFound cid c f n k)

reached :
    {order : ByteOrder} {c d : Client} {f : Found}
    → Accounted c
    → Run order c d f
    → Accounted d × StillFound d f
reached a here = (a, tt)
reached a (next r st) = let (b, k) = reached a r in Step-Accounted st b k

-- From a client whose requests are accounted for, after any sequence of events, also of ones that come while
-- `reader_loop` waits for the body of an answer, in which the cids do not wrap round and no send fails for
-- the request whose answer's body is being read: every cid that was given out is either pending or was
-- called back, once, and `_total_dispatched` is the number of calls.
pub Run-Accounted :
    {order : ByteOrder} {c d : Client} {f : Found} → Accounted c → Run order c d f → Accounted d
Run-Accounted a r = (reached a r).0
