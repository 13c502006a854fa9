-- ===== src/EndToEnd/Interleaved.antt =====
-- From the client to the backing file and back, with the handlers of server/session.cpp in any interleaving.
mod Tests
use mathlib.Core.List.{Permᴰ}
use easybd.Base.{
  Bool, ℕ, ◌<◌, ◌≡◌, refl, sym, ap, ◌∙◌, subst, List, [], ◌∷◌, ◌++◌, map, true, false, All, length,
  flatten, append-nil,
}
use easybd.Stream.{RecvStream}
use easybd.Reader.{Reader}
use easybd.Reader.Exact.{available}
use easybd.Wire.{RequestHeader, ByteOrder}
use easybd.Session.{Job, connection}
use easybd.Session.Handlers.{Device}
use easybd.Session.Serving.{over, Serving, start, Reach}
use easybd.Session.Serving.Ended.{replies, HasServed, Reach-HasServed}
use easybd.Client.{Pending, Client, reader_loop}
use easybd.Client.Receive.{Answered}
use easybd.EndToEnd.{Request, sent, job_of, IsSendable, HasRoom, connection-sent}
use easybd.EndToEnd.Responses.{IsBounded, AllAsked, served, reader_loop-served}
use easybd.EndToEnd.RoundTrip.{requests_of, map-requests_of}
use easybd.EndToEnd.Rearranged.{perm-unmap, length-perm, AllAsked-perm}

abbrev job_in : Pending × Request → Job
job_in x = job_of x.1

-- The client's side, for a server that has served the jobs of the requests.
serves_client :
    (order : ByteOrder) (back : RecvStream) (device : Device) (xs : List (Pending × Request))
    (c : Client) (r : Reader) (s2 : back.State) (d : device.State) (s : Serving device)
    → back.IsValid s2
    → c.reading ≡ true
    → IsBounded device
    → AllAsked c xs
    → HasServed device order (map job_in xs) d s
    → s.lost ≡ []
    → s.turns.failed ≡ false
    → available back r s2 ≡ s.turns.wire
    → let (c', r', s') = reader_loop order back (length xs) c r s2 in
      (ys : List (Pending × Request)) × Permᴰ ys xs
      × Answered (served device d ys) c c'
      × (available back r' s' ≡ [])
serves_client order back device xs c r s2 d s w h b a v l n g =
    let each : Permᴰ s.completed (map job_in xs) =
      subst (λ m. Permᴰ m (map job_in xs)) (append-nil s.completed) (rw l at (v.each)) in
    let (ys, p, e) = perm-unmap job_in s.completed xs each in
    let out =
      reader_loop-served device order back ys c r s2 d w h b (AllAsked-perm c p a)
        (g ∙ v.wire n ∙ ap (replies device order d) (sym e)) in
    let (answered, left) =
      subst
        (λ k.
          let (c', r', s') = reader_loop order back k c r s2 in
          Answered (served device d ys) c c' × (available back r' s' ≡ []))
        (length-perm p) out in
    (ys, p, answered, left)

-- For requests in flight under different cids that the client accepted, a backing file whose results fit the
-- response's field, a server with memory for the payloads, and two valid streams of any backends: when the server's stream brings the bytes of the
-- requests, its handlers run to the end of the connection in any interleaving, none lost its buffer and no
-- send threw, and the client's stream brings what they sent, then `reader_loop` calls each request's
-- callback once, with what the backing file gave for it in the order in which the I/O completed, copies
-- what was read into that request's buffer, and leaves no byte over.
pub interleaved_round_trip :
    (order : ByteOrder) (room : RequestHeader → Bool) (there back : RecvStream) (device : Device)
    (xs : List (Pending × Request)) (c : Client) (f : ℕ) (r1 r2 : Reader) (s1 : there.State)
    (s2 : back.State) (d : device.State) (s : Serving device)
    → there.IsValid s1
    → back.IsValid s2
    → c.reading ≡ true
    → IsBounded device
    → AllAsked c xs
    → All IsSendable (requests_of xs)
    → All (HasRoom room) (requests_of xs)
    → length (requests_of xs) < f
    → available there r1 s1 ≡ flatten (map (sent order) (requests_of xs))
    → Reach device order (start device (connection order room there f r1 s1).0 d) s
    → s.stage ≡ over
    → s.lost ≡ []
    → s.turns.failed ≡ false
    → available back r2 s2 ≡ s.turns.wire
    → let (c', r', s') = reader_loop order back (length xs) c r2 s2 in
      (ys : List (Pending × Request)) × Permᴰ ys xs
      × Answered (served device d ys) c c'
      × (available back r' s' ≡ [])
interleaved_round_trip order room there back device xs c f r1 r2 s1 s2 d s v w h b a k m n e reach o
      l u g =
    let jobs : (connection order room there f r1 s1).0 ≡ map job_in xs =
      ap (λ j. j.0) (connection-sent order room there (requests_of xs) f r1 s1 v k m n e)
      ∙ map-requests_of xs in
    serves_client order back device xs c r2 s2 d s w h b a
      (Reach-HasServed device order (map job_in xs) d
        (subst (λ js. Reach device order (start device js d) s) jobs reach) o)
      l u g
