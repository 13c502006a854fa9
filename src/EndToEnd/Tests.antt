-- ===== src/EndToEnd/Tests.antt =====
-- client.cpp to session.cpp over the libc backend: two requests in one segment.
use easybd.Base.{
  Bool, ℕ, ◌<◌, ◌≡◌, refl, false, List, [], ◌∷◌, arith, length, ◌++◌, length-append, append-nil,
  true, map, flatten,
}
use easybd.LibcStream
use easybd.LibcStream.{Recv, got, again, closed, Ring}
use easybd.LibcStream.Contract.{IsGood, libc_stream}
use easybd.LibcStream.Start.{new-IsGood}
use easybd.Reader.{new, closed_mid_message}
use easybd.Session.{thrown, connection}
use easybd.Wire.{little, encode_request, op_write_sync}
use easybd.Client.{send_request}
use easybd.Session.Handlers.{
  Device, finished, errno, run_job, run_jobs, handle_read, handle_write, response_bytes,
}
use easybd.Base.Int.{negsuc}
use easybd.Wire.{encode_response}
use easybd.Wire.RoundTrip.{length-encode_response}
use easybd.Client
use easybd.Client.{Client, Pending, reader_loop, find}
use easybd.EndToEnd.RoundTrip.{requests_of}
use easybd.Wire.{encode_request}
use easybd.Wire.RoundTrip.{length-encode_request}
use easybd.EndToEnd.Responses.{IsBounded, AllAsked}
use easybd.Wire.{RequestHeader}
use easybd.EndToEnd.{Request, read_request, write_request, sent, job_of, connection-sent}

-- A server that never runs out of memory.
abbrev pub all_room : RequestHeader → Bool
all_room req = true

abbrev requests : List Request
requests = write_request 1 4096 (7 ∷ 8 ∷ []) true ∷ read_request 2 0 512 ∷ []

abbrev segment : List ℕ
segment = flatten (map (sent little) requests)

segment_positive : 0 < length segment
unfolding send_request
segment_positive = omega (
  arith,
  length-append (sent little (write_request 1 4096 (7 ∷ 8 ∷ []) true))
      (flatten (map (sent little) (read_request 2 0 512 ∷ []))),
  length-append
      (encode_request little (record { cid = 1; offset = 4096; size = 2; op = op_write_sync }))
      (7 ∷ 8 ∷ []),
)

abbrev start : Ring × List Recv
start = (LibcStream.new 2 (λ i. []), got segment ∷ closed ∷ [])

start-IsGood : IsGood start
start-IsGood = new-IsGood 2 (λ i. []) start.1 (omega arith) (segment_positive, _)

connection-sent_example :
    connection little all_room libc_stream 3 new start
    ≡ (map job_of requests, thrown closed_mid_message)
connection-sent_example =
    connection-sent little all_room libc_stream requests 3 new start start-IsGood (omega arith)
      (refl, (tt, tt)) (omega arith) (append-nil segment)

-- A device on which every read gives two bytes and every write fails for lack of space.
abbrev pub full_device : Device
full_device = record {
  State = ℕ;
  pread = λ d size offset. (finished (33 ∷ 44 ∷ []), d);
  pwrite = λ d payload offset. (errno 28, d);
  pwrite_dsync = λ d payload offset. (errno 28, d);
}

pub full_device-IsBounded : IsBounded full_device
full_device-IsBounded = record {
  reads = λ d size offset. omega arith;
  writes = λ d payload offset. omega arith;
  syncs = λ d payload offset. omega arith;
}

abbrev pub to_read : Pending
to_read = record { is_read = true; buf = 70; user_data = 5 }

abbrev pub to_write : Pending
to_write = record { is_read = false; buf = 0; user_data = 6 }

-- Of two requests in flight, the handler of the second finishes first.
abbrev pub asking : Client
asking = record (Client.new false) { next_cid = 3; pending = (1, to_read) ∷ (2, to_write) ∷ [] }

abbrev pub in_flight : List (Pending × Request)
in_flight = (to_write, write_request 2 4096 (7 ∷ []) true) ∷ (to_read, read_request 1 0 2) ∷ []

pub asking-AllAsked : AllAsked asking in_flight
unfolding find
asking-AllAsked = (
  record { known = refl; kind = refl; cid = omega arith },
  (refl, tt),
  (record { known = refl; kind = refl; cid = omega arith }, tt, tt),
)

abbrev answer_bytes : List ℕ
answer_bytes =
    flatten
      (map (response_bytes little) (run_jobs full_device 0 (map (λ x. job_of x.1) in_flight)).0)

pub positive_append : (xs ys : List ℕ) → 0 < length xs → 0 < length (xs ++ ys)
positive_append xs ys h = omega (arith, length-append xs ys)

answer_positive : 0 < length answer_bytes
unfolding run_jobs run_job handle_write handle_read response_bytes
answer_positive =
    positive_append (encode_response little (record { cid = 2; res = negsuc 27 }) ++ []) _ (
      positive_append (encode_response little (record { cid = 2; res = negsuc 27 })) []
        (omega (arith, length-encode_response little (record { cid = 2; res = negsuc 27 }))))

abbrev answering : Ring × List Recv
answering = (LibcStream.new 2 (λ i. []), got answer_bytes ∷ closed ∷ [])

answering-IsGood : IsGood answering
answering-IsGood = new-IsGood 2 (λ i. []) answering.1 (omega arith) (answer_positive, _)

abbrev pub asking_bytes : List ℕ
asking_bytes = flatten (map (sent little) (requests_of in_flight))

asking_positive : 0 < length asking_bytes
unfolding send_request
asking_positive =
    positive_append
      (encode_request little (record { cid = 2; offset = 4096; size = 1; op = op_write_sync })
        ++ 7 ∷ [])
      _
      (positive_append
        (encode_request little (record { cid = 2; offset = 4096; size = 1; op = op_write_sync }))
        (7 ∷ [])
        (omega (
          arith,
          length-encode_request little
              (record { cid = 2; offset = 4096; size = 1; op = op_write_sync }),
        )))

abbrev pub serving : Ring × List Recv
serving = (LibcStream.new 2 (λ i. []), got asking_bytes ∷ closed ∷ [])

pub serving-IsGood : IsGood serving
serving-IsGood = new-IsGood 2 (λ i. []) serving.1 (omega arith) (asking_positive, _)
