-- ===== src/Client/Steps.antt =====
-- client.cpp: what happens to a client, in any order, when no request is failed by its send while the body of its
-- answer is read. What may come during that wait is in Suspended.
use easybd.Base.{
  ℕ, ◌+◌, ◌^◌, ◌<◌, ◌≡◌, inl, inr, List, true, ◌&&◌, Option, none, some, Bool-cases, Option-cases,
}
use easybd.Base.Int.{is_pos, to_ℕ}
use easybd.Stream.{RecvStream}
use easybd.Reader.{Result, ok, throw, out_of_fuel, Reader, read_exact}
use easybd.Wire.{ResponseHeader, ByteOrder, decode_response, response_header_size}
use easybd.Client.{
  Pending, Client, find, send_failed, pread, pwrite, complete, broken, with_body, with_response,
  with_header, receive,
}
use easybd.Client.Account.{
  Accounted, complete-Accounted, send_failed-Accounted, pread-Accounted, pwrite-Accounted,
  broken-Accounted,
}

-- One event of a client: a call of the API, a response that was read whole, from `find` to the callback, the end of `reader_loop`, or a
-- send that failed. The cids do not wrap round.
pub data Step (order : ByteOrder) (c : Client) : Client → Type 0 where
  reads :
      (buf size offset user_data : ℕ)
      → c.next_cid + 1 < 2 ^ 64
      → Step order c (pread order buf size offset user_data c).0
  writes :
      (payload : List ℕ) (offset user_data : ℕ)
      → c.next_cid + 1 < 2 ^ 64
      → Step order c (pwrite order payload offset user_data c).0
  responds :
      (resp : ResponseHeader) (p : Pending) (body : Option (List ℕ))
      → c.reading ≡ true
      → find resp.cid c.pending ≡ some p
      → Step order c (complete resp p body c)
  breaks : c.reading ≡ true → Step order c (broken c)
  send_fails : (cid : ℕ) → Step order c (send_failed cid c)

pub data Reach (order : ByteOrder) (c : Client) : Client → Type 0 where
  here : Reach order c c
  next : {d e : Client} → Reach order c d → Step order d e → Reach order c e

Step-Accounted : {order : ByteOrder} {c d : Client} → Step order c d → Accounted c → Accounted d
Step-Accounted {order} {c} (reads buf size offset user_data h) a =
    pread-Accounted order buf size offset user_data c h a
Step-Accounted {order} {c} (writes payload offset user_data h) a =
    pwrite-Accounted order payload offset user_data c h a
Step-Accounted {order} {c} (responds resp p body h e) a = complete-Accounted resp p body c e a
Step-Accounted {order} {c} (breaks h) a = broken-Accounted c a
Step-Accounted {order} {c} (send_fails cid) a = send_failed-Accounted cid c a

-- From a client whose requests are accounted for, after any sequence of these events, in which the
-- cids do not wrap round: every cid that was given out is either pending or was called back,
-- once, and `_total_dispatched` is the number of calls.
pub Reach-Accounted :
    {order : ByteOrder} {c d : Client} → Accounted c → Reach order c d → Accounted d
Reach-Accounted a here = a
Reach-Accounted a (next r st) = Step-Accounted st (Reach-Accounted a r)

module _ (order : ByteOrder) (stream : RecvStream) where
  open stream use {State}

  with_body-Step :
      (resp : ResponseHeader) (p : Pending) (c : Client) (out : Result (List ℕ) × Reader × State)
      → c.reading ≡ true
      → find resp.cid c.pending ≡ some p
      → Step order c (with_body order stream resp p c out).0
  unfolding with_body
  with_body-Step resp p c (ok body, r, s) h e = responds resp p (some body) h e
  with_body-Step resp p c (throw t, r, s) h e = breaks h
  with_body-Step resp p c (out_of_fuel, r, s) h e = breaks h

  with_response-Step :
      (resp : ResponseHeader) (c : Client) (r : Reader) (s : State)
      → c.reading ≡ true
      → Step order c (with_response order stream resp c r s).0
  unfolding with_response
  with_response-Step resp c r s h = elim (Option-cases (find resp.cid c.pending)) [
    | inl e ↦ rw (e, with_response) (breaks h)
    | inr (p, e) ↦
        rw (e, with_response)
          (elim (Bool-cases (p.is_read && is_pos resp.res)) [
            | inl b ↦ rw b (with_body-Step resp p c (read_exact stream (to_ℕ resp.res) r s) h e)
            | inr b ↦ rw b (responds resp p none h e)
          ])
  ]

  -- While `reader_loop` runs, one round of it, whatever the stream delivers, is one of the
  -- events of a client.
  pub receive-Step :
      (c : Client) (r : Reader) (s : State)
      → c.reading ≡ true
      → Step order c (receive order stream c r s).0
  unfolding receive
  receive-Step c r s h = header (read_exact stream response_header_size r s)
    where
      header :
          (out : Result (List ℕ) × Reader × State) → Step order c (with_header order stream c out).0
      header (ok bytes, r', s') =
          unfold with_header in with_response-Step (decode_response order bytes) c r' s' h
      header (throw t, r', s') = unfold with_header in breaks h
      header (out_of_fuel, r', s') = unfold with_header in breaks h
