-- ===== src/EndToEnd/System/Tests.antt =====
-- Two calls of `pread`, the first of which is refused for its size.
use mathlib.Core.List.{Permᴰ}
use easybd.Base.{
  All, ℕ, ◌^◌, ◌<◌, ◌≡◌, refl, sym, ap, ◌∙◌, subst, List, [], ◌∷◌, ◌++◌, map, true, false, length,
  arith, append-nil, drop, drop_all, flatten,
}
use easybd.Mutex.{lock, unlock, await_ready, await_suspend}
use easybd.WaitGroup
use easybd.Turns
use easybd.Turns.{Turns, enter, frame_of, release, put, send_returns}
use easybd.Turns.Whole.{Run}
use easybd.LibcStream
use easybd.LibcStream.{Recv, got, closed, Ring}
use easybd.LibcStream.Contract.{IsGood, libc_stream}
use easybd.LibcStream.Start.{new-IsGood}
use easybd.Reader.{new}
use easybd.Reader.Exact.{available}
use easybd.Wire.{little, encode_request, encode_response, op_read}
use easybd.Wire.RoundTrip.{length-encode_request, length-encode_response}
use easybd.Base.Int.{pos}
use easybd.Session.{Job, Stop, read_job, connection}
use easybd.Session.Handlers.{run_job, run_jobs, handle_read, response_bytes}
use easybd.Session.Serving.{
  Serving, start, over, spawn_next, respond, send_part, handler_returns, leave, read_ends, Step,
  Reach,
}
use easybd.Session.Serving.Ended.{replies, Reach-HasServed}
use easybd.Client
use easybd.Client.{Client, Pending, reader_loop, send_request}
use easybd.Client.Receive.{Answered}
use easybd.Capi.Requests.{Call, reads}
use easybd.EndToEnd.{Request, sent, HasRoom, connection-sent}
use easybd.EndToEnd.Responses.{served}
use easybd.EndToEnd.RoundTrip.{requests_of}
use easybd.EndToEnd.Tests.{all_room, full_device, full_device-IsBounded, positive_append}
use easybd.EndToEnd.Issued.{issue, asked_by, issue-sent, asked_by-IsSendable}
use easybd.EndToEnd.System.{Run-wire, system_round_trip}

abbrev calls : List Call
calls = reads 71 (2 ^ 40) 0 9 ∷ reads 70 2 0 5 ∷ []

abbrev client : Client
client = Client.new true

abbrev asked : List (Pending × Request)
asked = asked_by true 1 calls

abbrev message : List ℕ
message = send_request little 1 0 2 op_read []

abbrev sends : Turns
sends = send_returns [] (put [] (length message) message [] (enter 0 message Turns.new))

all_sent : (msg : List ℕ) → drop (length msg) msg ∷ [] ≡ [] ∷ []
all_sent msg = ap (λ l. l ∷ []) (drop_all (length msg) msg (omega arith))

sends_one : Run (message ∷ []) sends
unfolding enter lock await_ready await_suspend put
sends_one =
    Run.returns [] [] (all_sent message)
      (Run.puts [] (length message) message [] refl (Run.asks 0 message Run.starts))

messages_asked : map (sent little) (requests_of asked) ≡ message ∷ []
unfolding asked_by
messages_asked = refl

sends_all : Run (issue little calls client).1 sends
sends_all =
    subst (λ l. Run l sends) (sym (issue-sent little calls client (omega arith) ∙ messages_asked))
      sends_one

sends_ended : (sends.sending ≡ []) × (sends.failed ≡ false)
unfolding enter lock await_ready await_suspend put send_returns release unlock frame_of
sends_ended = (refl, refl)

sends_wire : sends.wire ≡ flatten (message ∷ [])
sends_wire = Run-wire sends_one sends_ended.0 sends_ended.1

message_positive : 0 < length (flatten (message ∷ []))
unfolding send_request
message_positive =
    positive_append (encode_request little (record { cid = 1; offset = 0; size = 2; op = op_read }))
      []
      (omega (
        arith,
        length-encode_request little (record { cid = 1; offset = 0; size = 2; op = op_read }),
      ))

abbrev serving : Ring × List Recv
serving = (LibcStream.new 2 (λ i. []), got sends.wire ∷ closed ∷ [])

serving-IsGood : IsGood serving
serving-IsGood =
    new-IsGood 2 (λ i. []) serving.1 (omega arith)
      (subst (λ w. 0 < length w) (sym sends_wire) message_positive, _)

abbrev job : Job
job = read_job 1 0 2

abbrev reply : List ℕ
reply = response_bytes little (run_job full_device 0 job).0

abbrev replied : Serving full_device
replied =
    respond full_device little [] 0 job []
      (spawn_next full_device job [] (start full_device (job ∷ []) 0))

abbrev ended : Serving full_device
ended = read_ends full_device (
    leave full_device 0
      (handler_returns full_device [] (send_part full_device [] (length reply) reply [] replied)))

ran : Reach full_device little (start full_device (job ∷ []) 0) ended
unfolding spawn_next respond send_part handler_returns leave read_ends enter lock await_ready
    await_suspend frame_of release unlock put send_returns WaitGroup.add WaitGroup.done
    WaitGroup.wait run_job handle_read
ran =
    let r1 = Reach.next Reach.here (Step.spawns job [] refl refl) in
    let r2 = Reach.next r1 (Step.responds [] 0 job [] refl) in
    let r3 = Reach.next r2 (Step.sends [] (length reply) reply [] refl) in
    let r4 = Reach.next r3 (Step.returns [] [] (all_sent reply)) in
    let r5 = Reach.next r4 (Step.leaves 0 refl) in Reach.next r5 (Step.reads_end refl refl)

ended_over : ended.stage ≡ over
unfolding spawn_next respond send_part handler_returns leave read_ends WaitGroup.add WaitGroup.done
    WaitGroup.wait
ended_over = refl

none_lost : (ended.lost ≡ []) × (ended.turns.failed ≡ false)
unfolding spawn_next respond send_part handler_returns leave read_ends enter lock await_ready
    await_suspend frame_of release unlock put send_returns
none_lost = (refl, refl)

completed_one : ended.completed ≡ job ∷ []
unfolding spawn_next respond send_part handler_returns leave read_ends
completed_one = refl

reply_positive : 0 < length (replies full_device little 0 (job ∷ []))
unfolding run_jobs run_job handle_read response_bytes
reply_positive =
    positive_append (encode_response little (record { cid = 1; res = pos 2 }) ++ 33 ∷ 44 ∷ []) _ (
      positive_append (encode_response little (record { cid = 1; res = pos 2 })) _
        (omega (arith, length-encode_response little (record { cid = 1; res = pos 2 }))))

wire_positive : 0 < length ended.turns.wire
wire_positive =
    subst (λ w. 0 < length w)
      (sym (
        (Reach-HasServed full_device little (job ∷ []) 0 ran ended_over).wire none_lost.1
        ∙ ap (replies full_device little 0) completed_one))
      reply_positive

abbrev replying : Ring × List Recv
replying = (LibcStream.new 2 (λ i. []), got ended.turns.wire ∷ closed ∷ [])

replying-IsGood : IsGood replying
replying-IsGood = new-IsGood 2 (λ i. []) replying.1 (omega arith) (wire_positive, _)

asked_room : All (HasRoom all_room) (requests_of asked)
unfolding asked_by
asked_room = (tt, tt)

parsed : (connection little all_room libc_stream 3 new serving).0 ≡ job ∷ []
unfolding asked_by
parsed =
    ap (λ (j : List Job × Stop). j.0)
      (connection-sent little all_room libc_stream (requests_of asked) 3 new serving serving-IsGood
        (asked_by-IsSendable true 1 calls (omega arith) (omega arith)) asked_room (omega arith)
        (append-nil sends.wire ∙ sends_wire ∙ ap flatten (sym messages_asked)))

ran_for_calls :
    Reach full_device little
      (start full_device (connection little all_room libc_stream 3 new serving).0 0)
      ended
ran_for_calls =
    subst (λ js. Reach full_device little (start full_device js 0) ended) (sym parsed) ran

system_round_trip_example :
    let c = (issue little calls client).0 in
    let (c2, r', s') = reader_loop little libc_stream (length asked) c new replying in
    (ys : List (Pending × Request)) × Permᴰ ys asked
    × Answered (served full_device 0 ys) c c2
    × (available libc_stream r' s' ≡ [])
system_round_trip_example =
    system_round_trip little all_room libc_stream libc_stream full_device calls client 3 new new
      serving replying 0 sends ended serving-IsGood replying-IsGood full_device-IsBounded
      (omega arith) asked_room (omega arith) (omega arith) refl sends_all sends_ended.0
      sends_ended.1 (append-nil sends.wire) ran_for_calls ended_over none_lost.0 none_lost.1
      (append-nil ended.turns.wire)
