-- ===== src/EndToEnd/RoundTrip.antt =====
-- From the client to the backing file and back: client/client.cpp, server/session.cpp, and their streams.
use easybd.Base.{Bool, ℕ, ◌<◌, ◌≡◌, refl, ap, ◌∙◌, List, [], ◌∷◌, map, true, All, length, flatten}
use easybd.Stream.{RecvStream}
use easybd.Reader.{Reader}
use easybd.Reader.Exact.{available}
use easybd.Wire.{RequestHeader, ByteOrder}
use easybd.Session.{Job, connection}
use easybd.Session.Handlers.{Device, run_jobs, response_bytes}
use easybd.Client.{Pending, Client, reader_loop}
use easybd.Client.Receive.{Answered}
use easybd.EndToEnd.{Request, sent, job_of, IsSendable, HasRoom, connection-sent}
use easybd.EndToEnd.Responses.{IsBounded, AllAsked, served, reader_loop-served}

-- The requests alone.
abbrev pub requests_of : List (Pending × Request) → List Request
requests_of xs = map (λ x. x.1) xs

pub map-requests_of :
    (xs : List (Pending × Request)) → map job_of (requests_of xs) ≡ map (λ x. job_of x.1) xs
map-requests_of [] = refl
map-requests_of (x ∷ xs) = ap (λ l. job_of x.1 ∷ l) (map-requests_of xs)

-- What the server's connection spawns for the requests, run on the backing file and put on the connection.
abbrev pub replies : ByteOrder → (device : Device) → device.State → List Job → List ℕ
replies order device d jobs = flatten (map (response_bytes order) (run_jobs device d jobs).0)

-- For requests in flight under different cids that the client accepted, a backing file whose results fit the
-- response's field, a server with memory for the payloads, and two valid streams of any backends: when the server's stream brings the bytes of the
-- requests, and the client's stream the responses of the handlers that the server then spawned, one after
-- another, `reader_loop` calls each request's callback with what the backing file gave for it, copies what
-- was read into that request's buffer, and leaves no byte over.
pub round_trip :
    (order : ByteOrder) (room : RequestHeader → Bool) (there back : RecvStream) (device : Device)
    (xs : List (Pending × Request)) (c : Client) (f : ℕ) (r1 r2 : Reader) (s1 : there.State)
    (s2 : back.State) (d : device.State)
    → there.IsValid s1
    → back.IsValid s2
    → c.reading ≡ true
    → IsBounded device
    → AllAsked c xs
    → All IsSendable (requests_of xs)
    → All (HasRoom room) (requests_of xs)
    → length (requests_of xs) < f
    → available there r1 s1 ≡ flatten (map (sent order) (requests_of xs))
    → available back r2 s2 ≡ replies order device d (connection order room there f r1 s1).0
    → let (c', r', s') = reader_loop order back (length xs) c r2 s2 in
      Answered (served device d xs) c c' × (available back r' s' ≡ [])
round_trip order room there back device xs c f r1 r2 s1 s2 d v w h b a k m n e g =
    let jobs = connection-sent order room there (requests_of xs) f r1 s1 v k m n e in
    reader_loop-served device order back xs c r2 s2 d w h b a (
      g
      ∙ ap (λ j. replies order device d j.0) jobs
      ∙ ap (replies order device d) (map-requests_of xs))
