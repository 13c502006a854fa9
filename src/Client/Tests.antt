-- ===== src/Client/Tests.antt =====
-- client.cpp: a client that reads, is answered, and reads again when its server is gone.
use easybd.Base.{
  ◌+◌, ◌^◌, ◌<◌, ◌≡◌, refl, List, [], ◌∷◌, ◌++◌, arith, length, length-append, subst, sym,
  append-nil, false, true, some,
}
use easybd.Base.Int.{pos}
use easybd.LibcStream
use easybd.LibcStream.{Recv, got, again, closed, Ring}
use easybd.LibcStream.Contract.{IsGood, libc_stream}
use easybd.LibcStream.Start.{new-IsGood}
use easybd.Reader
use easybd.Reader.Exact.{available}
use easybd.Wire.{little, encode_response}
use easybd.Session.Handlers.{Response, response_bytes}
use easybd.Client.{
  Pending, Client, new, find, pread, broken, fail_each, erase, reader_loop, fail_all_pending,
  complete,
}
use easybd.Client.Account.{Accounted, called, new-Accounted, pread-Accounted}
use easybd.Client.Steps
use easybd.Client.Suspended.{here, next, reads, finds, completes, Run-Accounted}
use easybd.Client.Stranded
use easybd.Client.Stranded.{pread_stranded}
use easybd.Client.Receive.{IsAnswer, Answered, reader_loop_lem}

-- A client that has asked for two bytes into the buffer 70, with the user data 5.
abbrev reading : Client
reading = record (new false) {
  next_cid = 2;
  pending = (1, record { is_read = true; buf = 70; user_data = 5 }) ∷ [];
}

reading-eq : (pread little 70 2 0 5 (new false)).0 ≡ reading
unfolding pread erase
reading-eq = refl

reading-Accounted : Accounted reading
reading-Accounted =
    subst Accounted reading-eq
      (pread-Accounted little 70 2 0 5 (new false) (omega arith) (new-Accounted false))

abbrev asked : Pending
asked = record { is_read = true; buf = 70; user_data = 5 }

abbrev response : Response
response = record { header = record { cid = 1; res = pos 2 }; payload = 33 ∷ 44 ∷ [] }

response-IsAnswer : IsAnswer reading asked response
unfolding find
response-IsAnswer = record { known = refl; cid = omega arith; res = omega arith; payload = refl }

response_positive : 0 < length (response_bytes little response)
unfolding response_bytes
response_positive =
    omega (arith, length-append (encode_response little response.header) (33 ∷ 44 ∷ []))

-- While the answer's body is read, another request is made.
abbrev asks_more : Client
asks_more = (pread little 90 2 8 6 reading).0

body_comes : find 1 reading.pending ≡ some asked
unfolding find
body_comes = refl

Run-Accounted_example : Accounted (complete response.header asked (some (33 ∷ 44 ∷ [])) asks_more)
Run-Accounted_example = Run-Accounted {order = little} reading-Accounted (
    next
      (next (next here (finds response.header asked refl refl body_comes))
        (reads 90 2 8 6 (omega arith)))
      (completes response.header asked (some (33 ∷ 44 ∷ [])) refl))

abbrev start : Ring × List Recv
start = (LibcStream.new 2 (λ i. []), got (response_bytes little response) ∷ closed ∷ [])

start-IsGood : IsGood start
start-IsGood = new-IsGood 2 (λ i. []) start.1 (omega arith) (response_positive, _)

reader_loop_lem_example :
    let (c', r', s') = reader_loop little libc_stream 1 reading Reader.new start in
    Answered ((asked, response) ∷ []) reading c' × (available libc_stream r' s' ≡ [])
reader_loop_lem_example =
    reader_loop_lem little libc_stream ((asked, response) ∷ []) reading Reader.new start []
      start-IsGood refl (response-IsAnswer, _)
      (sym (append-nil (response_bytes little response ++ [])))

-- The server is gone before the first asked.
abbrev gone : Client
gone = broken (new false)

gone_reading : gone.reading ≡ false
unfolding broken fail_all_pending fail_each
gone_reading = refl

gone-Accounted : Accounted gone
gone-Accounted =
    Steps.Reach-Accounted {order = little} (new-Accounted false)
      (Steps.Reach.next Steps.Reach.here (Steps.Step.breaks refl))

gone_cid : gone.next_cid + 1 < 2 ^ 64
unfolding broken fail_all_pending fail_each
gone_cid = omega arith

pread_stranded_example :
    ((pread little 70 2 0 5 gone).1 ≡ pos 0)
    × (called gone.next_cid (pread little 70 2 0 5 gone).0.calls ≡ 0)
    × (find gone.next_cid (pread little 70 2 0 5 gone).0.pending ≡ some asked)
pread_stranded_example =
    pread_stranded little 70 2 0 5 gone (pread little 70 2 0 5 gone).0 gone_reading gone-Accounted
      gone_cid (omega arith) Stranded.Quiet.here
