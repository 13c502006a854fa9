-- ===== src/Session.antt =====
-- server/session.cpp: the requests of one connection, and what is spawned for each.
pub mod Parse
pub mod Handlers
pub mod Serving
mod Tests
use easybd.Base.{
  ℕ, zero, suc, List, [], ◌∷◌, Bool, true, false, not, ◌&&◌, ◌||◌, ltb, ◌==◌, if◌then◌else◌,
}
use easybd.Stream.{RecvStream}
use easybd.Reader.{Thrown, Result, ok, throw, out_of_fuel, Reader, read_exact, read_exact_into}
use easybd.Wire.{
  RequestHeader, ByteOrder, decode_request, request_header_size, max_payload_size, emsgsize,
  op_read, op_write, op_write_sync,
}

-- A handler that is spawned, with its arguments: `handle_write(cid, offset, payload, durable)`,
-- `handle_read(cid, offset, size)` or `send_error(cid, err)`.
pub data Job : Type 0 where
  write_job : ℕ → ℕ → List ℕ → Bool → Job
  read_job : ℕ → ℕ → ℕ → Job
  error_job : ℕ → ℕ → Job

-- Why the loop of `handle_connection` ends: a read threw, or the loop itself, or there was no memory for a
-- write's payload.
pub data Stop : Type 0 where
  thrown : Thrown → Stop
  too_large invalid_op out_of_memory no_fuel : Stop

-- `wg.add(); easyio::spawn(tracked(…))`: the jobs are listed in the order of their `wg.add`.
abbrev pub spawn : Job → List Job × Stop → List Job × Stop
spawn j (js, stop) = (j ∷ js, stop)

abbrev pub is_write : ℕ → Bool
is_write op = op == op_write || op == op_write_sync

-- The error reply of a read that is too large, or the read.
abbrev pub read_or_error : RequestHeader → Job
read_or_error req =
    if ltb max_payload_size req.size
    then error_job req.cid emsgsize
    else read_job req.cid req.offset req.size

-- Whether `AlignedBuffer(req.size)` throws, which allocates nothing for 0 bytes; `room` says what
-- `posix_memalign` has for a request.
abbrev pub no_buffer : (RequestHeader → Bool) → RequestHeader → Bool
no_buffer room req = not (room req) && not (req.size == 0)

module _ (order : ByteOrder) (room : RequestHeader → Bool) (stream : RecvStream) where
  open stream use {State}

  -- The payload of a write, once it was read.
  pub with_payload :
      RequestHeader
      → Result (List ℕ) × Reader × State
      → (Reader → State → List Job × Stop)
      → List Job × Stop
  with_payload req (ok payload, r, s) next =
      spawn (write_job req.cid req.offset payload (req.op == op_write_sync)) (next r s)
  with_payload req (throw e, r, s) next = ([], thrown e)
  with_payload req (out_of_fuel, r, s) next = ([], no_fuel)

  -- The body of the loop after the header was read.
  pub request :
      RequestHeader → Reader → State → (Reader → State → List Job × Stop) → List Job × Stop
  unfolding with_payload
  request req r s next =
      if is_write req.op
      then (if ltb max_payload_size req.size
          then ([], too_large)
          else if no_buffer room req
          then ([], out_of_memory)
          else with_payload req (read_exact_into stream req.size r s) next)
      else if req.op == op_read
      then spawn (read_or_error req) (next r s)
      else ([], invalid_op)

  pub with_header :
      Result (List ℕ) × Reader × State → (Reader → State → List Job × Stop) → List Job × Stop
  unfolding request
  with_header (ok header, r, s) next = request (decode_request order header) r s next
  with_header (throw e, r, s) next = ([], thrown e)
  with_header (out_of_fuel, r, s) next = ([], no_fuel)

  -- `for (;;)`: every round reads a header, so more rounds than bytes suffice.
  pub connection : ℕ → Reader → State → List Job × Stop
  unfolding with_header
  connection zero r s = ([], no_fuel)
  connection (suc f) r s = with_header (read_exact stream request_header_size r s) (connection f)
