-- ===== src/EndToEnd/System.antt =====
-- The whole way of requests: `pread` and `pwrite` of client/client.cpp, the sends of their `send_request`s under
-- the client's lock, the server's connection and its handlers, and `reader_loop`.
mod Tests
use mathlib.Core.List.{Permᴰ}
use easybd.Base.{
  ℕ, ◌+◌, ◌^◌, ◌≤◌, ◌<◌, ◌≡◌, refl, sym, ap, ◌∙◌, subst, List, [], ◌∷◌, ◌++◌, map, Bool, true,
  false, All, length, flatten, append-nil, arith,
}
use easybd.Stream.{RecvStream}
use easybd.Reader.{Reader}
use easybd.Reader.Exact.{available}
use easybd.Wire.{RequestHeader, ByteOrder}
use easybd.Turns.{Turns}
use easybd.Turns.Whole.{Run, IsWhole, OneSends, messages, Run-IsWhole}
use easybd.Session.{connection}
use easybd.Session.Handlers.{Device}
use easybd.Session.Serving.{over, Serving, start, Reach}
use easybd.Client.{Pending, Client, reader_loop}
use easybd.Client.Receive.{Answered}
use easybd.Capi.Requests.{Call}
use easybd.EndToEnd.{Request, sent, HasRoom}
use easybd.EndToEnd.Responses.{IsBounded, served}
use easybd.EndToEnd.RoundTrip.{requests_of}
use easybd.EndToEnd.Interleaved.{interleaved_round_trip}
use easybd.EndToEnd.Issued.{
  issue, asked_by, reading-issue, AllFit, issue-sent, issue-AllAsked, asked_by-IsSendable,
  length-asked_by,
}

no_queue : (b : Bool) (t : Turns) → OneSends b t → t.sending ≡ [] → t.queued ≡ []
no_queue false t o e = o.1
no_queue true t (rest, o) e = absurd (cc)

-- When nobody sends any more and no send threw, the connection has taken all messages.
pub Run-wire :
    {l : List (List ℕ)} {t : Turns}
    → Run l t
    → t.sending ≡ []
    → t.failed ≡ false
    → t.wire ≡ flatten l
Run-wire {l} {t} r e n =
    let (w, asked) = Run-IsWhole r in
    let none_waits = no_queue t.mutex.locked t w.one e in
    sym (append-nil t.wire)
    ∙ ap (λ s. t.wire ++ flatten s) (sym e)
    ∙ w.whole n
    ∙ ap flatten
        (sym (append-nil t.turns) ∙ ap (λ q. t.turns ++ messages q) (sym none_waits) ∙ asked)

-- For calls of `pread` and `pwrite` in any number and with any sizes, offsets of 64 bits, on a client that
-- still reads and has cids enough, a server with memory for the payloads, a backing file whose results fit the response's field, and two valid
-- streams of any backends: when the spawned sends run in any interleaving until all have returned, and
-- none threw, the server's stream brings what they sent, its handlers run to the end of the connection in any
-- interleaving, none lost its buffer and no send threw, and the client's stream brings what they sent,
-- then `reader_loop` calls the callback of each call that was not refused once, with what the backing file
-- gave for it in the order in which the I/O completed, copies what was read into the call's buffer, and
-- leaves no byte over.
pub system_round_trip :
    (order : ByteOrder) (room : RequestHeader → Bool) (there back : RecvStream) (device : Device)
    (ks : List Call) (c : Client) (f : ℕ) (r1 r2 : Reader) (s1 : there.State) (s2 : back.State)
    (d : device.State) (t : Turns) (s : Serving device)
    → there.IsValid s1
    → back.IsValid s2
    → IsBounded device
    → AllFit ks
    → All (HasRoom room) (requests_of (asked_by c.sync_writes c.next_cid ks))
    → c.next_cid + length ks < 2 ^ 64
    → length ks < f
    → c.reading ≡ true
    → Run (issue order ks c).1 t
    → t.sending ≡ []
    → t.failed ≡ false
    → available there r1 s1 ≡ t.wire
    → Reach device order (start device (connection order room there f r1 s1).0 d) s
    → s.stage ≡ over
    → s.lost ≡ []
    → s.turns.failed ≡ false
    → available back r2 s2 ≡ s.turns.wire
    → let xs = asked_by c.sync_writes c.next_cid ks in
      let c' = (issue order ks c).0 in
      let (c2, r', s') = reader_loop order back (length xs) c' r2 s2 in
      (ys : List (Pending × Request)) × Permᴰ ys xs
      × Answered (served device d ys) c' c2
      × (available back r' s' ≡ [])
system_round_trip order room there back device ks c f r1 r2 s1 s2 d t s v w b o space n k h run q l
      e reach over_ lost m g =
    let xs = asked_by c.sync_writes c.next_cid ks in
    interleaved_round_trip order room there back device xs (issue order ks c).0 f r1 r2 s1 s2 d s v
      w (reading-issue order ks c ∙ h) b (issue-AllAsked order ks c n)
      (asked_by-IsSendable c.sync_writes c.next_cid ks n o) space
      (omega (arith, length-asked_by c.sync_writes c.next_cid ks, k))
      (e ∙ Run-wire run q l ∙ ap flatten (issue-sent order ks c n)) reach over_ lost m g
