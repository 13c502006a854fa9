-- ===== src/EndToEnd.antt =====
-- The client's bytes at the server: client/client.cpp's `send_request` against the loop of
-- server/session.cpp's `handle_connection`.
pub mod Responses
pub mod RoundTrip
pub mod Rearranged
pub mod Interleaved
pub mod Issued
pub mod System
mod Tests
use easybd.Base.{
  ℕ, zero, suc, ◌+◌, ◌^◌, ◌≤◌, ◌<◌, ◌≡◌, refl, sym, ap, ap₂, ◌∙◌, List, [], ◌∷◌, ◌++◌, map, Bool,
  true, false, All, length, flatten, take, drop, arith, ltb, le→ltb, if◌then◌else◌, ◌==◌,
  append-nil, append_assoc, length-append, take-eq_of_append, drop-eq_of_append, lt→ltb,
}
use easybd.Stream.{Ending, RecvStream}
use easybd.Reader.{Reader}
use easybd.Reader.Absorb.{thrown_of}
use easybd.Reader.Exact.{available}
use easybd.Wire.{
  RequestHeader, ByteOrder, encode_request, decode_request, request_header_size, max_payload_size,
  op_read, op_write, op_write_sync,
}
use easybd.Wire.RoundTrip.{Fits, length-encode_request, decode-encode_request}
use easybd.Session.{Job, write_job, read_job, Stop, thrown, spawn, connection}
use easybd.Session.Parse.{parse, parse_request, connection_refines}
use easybd.Client.{send_request}

-- The requests that `Client::pread` and `Client::pwrite` send.
pub data Request : Type 0 where
  read_request : ℕ → ℕ → ℕ → Request
  write_request : ℕ → ℕ → List ℕ → Bool → Request

abbrev pub op_of : Bool → ℕ
op_of durable = if durable then op_write_sync else op_write

abbrev pub sent : ByteOrder → Request → List ℕ
sent order (read_request cid offset size) = send_request order cid offset size op_read []
sent order (write_request cid offset payload durable) =
    send_request order cid offset (length payload) (op_of durable) payload

-- The handler that serves a request.
abbrev pub job_of : Request → Job
job_of (read_request cid offset size) = read_job cid offset size
job_of (write_request cid offset payload durable) = write_job cid offset payload durable

-- What the client accepts, in fields of 64 bits.
abbrev pub IsSendable : Request → Type 0
IsSendable (read_request cid offset size) =
    (cid < 2 ^ 64) × (offset < 2 ^ 64) × (size ≤ max_payload_size)
IsSendable (write_request cid offset payload durable) =
    (cid < 2 ^ 64) × (offset < 2 ^ 64) × (length payload ≤ max_payload_size)

-- Whether the server has memory for the payload of a request.
abbrev pub HasRoom : (RequestHeader → Bool) → Request → Type 0
HasRoom room (read_request cid offset size) = Unit {0}
HasRoom room (write_request cid offset payload durable) =
    room (record { cid = cid; offset = offset; size = length payload; op = op_of durable }) ≡ true

module _ (order : ByteOrder) (room : RequestHeader → Bool) (fin : Ending) where
  parse_after_header :
      (f : ℕ) (h : RequestHeader) (later : List ℕ)
      → Fits h
      → parse order room fin (suc f) (encode_request order h ++ later)
        ≡ parse_request order room fin h later (parse order room fin f)
  unfolding parse
  parse_after_header f h later v = rw (le→ltb _ _ enough) (
      ap₂ (λ hd bytes. parse_request order room fin hd bytes (parse order room fin f))
        (ap (decode_request order) (
            take-eq_of_append request_header_size (encode_request order h) later _
              (length-encode_request order h) refl)
          ∙ decode-encode_request order h v)
        (drop-eq_of_append request_header_size (encode_request order h) later _
          (length-encode_request order h) refl))
    where
      enough : request_header_size ≤ length (encode_request order h ++ later)
      enough =
          omega (arith, length-append (encode_request order h) later, length-encode_request order h)

  -- One request, with whatever follows it.
  parse-sent_one :
      (f : ℕ) (req : Request) (later : List ℕ)
      → IsSendable req
      → HasRoom room req
      → parse order room fin (suc f) (sent order req ++ later)
        ≡ spawn (job_of req) (parse order room fin f later)
  unfolding send_request parse_request
  parse-sent_one f (read_request cid offset size) later v m =
      parse_after_header f (record { cid = cid; offset = offset; size = size; op = op_read }) later
        (omega (arith, v))
      ∙ rw (le→ltb max_payload_size size v.2)
  parse-sent_one f (write_request cid offset payload durable) later v m = write durable m
    where
      header : Bool → RequestHeader
      header d = record { cid = cid; offset = offset; size = length payload; op = op_of d }

      enough : length payload ≤ length (payload ++ later)
      enough = omega (arith, length-append payload later)

      body :
          (d : Bool)
          → HasRoom room (write_request cid offset payload d)
          → parse_request order room fin (header d) (payload ++ later) (parse order room fin f)
            ≡ spawn (write_job cid offset payload d) (parse order room fin f later)
      body true m =
          rw
            (
              le→ltb max_payload_size (length payload) v.2,
              m,
              le→ltb (length (payload ++ later)) (length payload) enough,
            )
            (ap₂ (λ p bytes. spawn (write_job cid offset p true) (parse order room fin f bytes))
              (take-eq_of_append (length payload) payload later _ refl refl)
              (drop-eq_of_append (length payload) payload later _ refl refl))
      body false m =
          rw
            (
              le→ltb max_payload_size (length payload) v.2,
              m,
              le→ltb (length (payload ++ later)) (length payload) enough,
            )
            (ap₂ (λ p bytes. spawn (write_job cid offset p false) (parse order room fin f bytes))
              (take-eq_of_append (length payload) payload later _ refl refl)
              (drop-eq_of_append (length payload) payload later _ refl refl))

      write :
          (d : Bool)
          → HasRoom room (write_request cid offset payload d)
          → parse order room fin (suc f) (sent order (write_request cid offset payload d) ++ later)
            ≡ spawn (write_job cid offset payload d) (parse order room fin f later)
      write true m =
          ap (parse order room fin (suc f))
            (append_assoc (encode_request order (header true)) payload later)
          ∙ parse_after_header f (header true) (payload ++ later) (omega (arith, v))
          ∙ body true m
      write false m =
          ap (parse order room fin (suc f))
            (append_assoc (encode_request order (header false)) payload later)
          ∙ parse_after_header f (header false) (payload ++ later) (omega (arith, v))
          ∙ body false m

  -- `handle_connection` parses the requests of a client back, in order.
  parse-sent :
      (f : ℕ) (reqs : List Request)
      → All IsSendable reqs
      → All (HasRoom room) reqs
      → length reqs < f
      → parse order room fin f (flatten (map (sent order) reqs))
        ≡ (map job_of reqs, thrown (thrown_of fin))
  parse-sent zero reqs v m h = absurd (omega arith)
  parse-sent (suc f) [] v m h = unfold parse in refl
  parse-sent (suc f) (req ∷ reqs) v m h =
      parse-sent_one f req (flatten (map (sent order) reqs)) v.0 m.0
      ∙ ap (spawn (job_of req)) (parse-sent f reqs v.1 m.1 (omega (arith, h)))

-- Where a valid stream brings the bytes of some sendable requests and nothing else, and the server has memory
-- for the payloads: with more fuel than requests the server's loop spawns exactly their handlers, in order and with the
-- payloads of the writes, whatever the chunking, with both ends of the same byte order; then the
-- end of the stream ends the connection.
pub connection-sent :
    (order : ByteOrder) (room : RequestHeader → Bool) (stream : RecvStream) (reqs : List Request)
    (f : ℕ) (r : Reader) (s : stream.State)
    → stream.IsValid s
    → All IsSendable reqs
    → All (HasRoom room) reqs
    → length reqs < f
    → available stream r s ≡ flatten (map (sent order) reqs)
    → connection order room stream f r s ≡ (map job_of reqs, thrown (thrown_of (stream.ending s)))
connection-sent order room stream reqs f r s v ok m h e =
    connection_refines order room stream f r s v
    ∙ ap (parse order room (stream.ending s) f) e
    ∙ parse-sent order room (stream.ending s) f reqs ok m h
