-- ===== src/Client.antt =====
-- client/client.cpp: one connection's requests in flight, and what calls their callbacks.
pub mod Account
pub mod Receive
pub mod Steps
pub mod Suspended
pub mod Grows
pub mod Stranded
pub mod Destroy
mod Tests
use easybd.Base.{
  ℕ, zero, suc, ◌+◌, ◌%◌, ◌^◌, ◌<◌, List, [], ◌∷◌, ◌++◌, map, Bool, true, false, ◌&&◌, ◌||◌, Option,
  none, some, ltb, ◌==◌, if◌then◌else◌, length,
}
use easybd.Base.Int.{ℤ, pos, neg, is_pos, to_ℕ}
use easybd.Stream.{RecvStream}
use easybd.Reader.{Thrown, Result, ok, throw, out_of_fuel, Reader, read_exact}
use easybd.Wire.{
  RequestHeader, ResponseHeader, ByteOrder, encode_request, decode_response, response_header_size,
  max_payload_size, emsgsize, op_read, op_write, op_write_sync,
}

-- `ECONNRESET`
abbrev pub econnreset : ℕ
econnreset = 104

-- `Client::Pending`: the buffer of a read and the callback with its user data, each by a number.
pub record Pending : Type 0 where
  pub is_read : Bool
  pub buf : ℕ
  pub user_data : ℕ

-- One call of a callback: the request's cid, the user data and the result.
pub record Call : Type 0 where
  pub cid : ℕ
  pub user_data : ℕ
  pub res : ℤ

-- `Client`: `pending` is `_pending` by cid, `reading` whether `reader_loop` still runs, `calls` the
-- callbacks that were called, newest first, and `copied` the `memcpy`s into the callers' buffers.
pub record Client : Type 0 where
  pub sync_writes : Bool
  pub next_cid : ℕ
  pub pending : List (ℕ × Pending)
  pub total_dispatched : ℕ
  pub reading : Bool
  pub calls : List Call
  pub copied : List (ℕ × List ℕ)

-- A connected client; `reader_loop` has been spawned.
abbrev pub new : Bool → Client
new sync = record {
  sync_writes = sync;
  next_cid = 1;
  pending = [];
  total_dispatched = 0;
  reading = true;
  calls = [];
  copied = [];
}

-- `_pending.find(cid)`
unfoldable pub find : ℕ → List (ℕ × Pending) → Option Pending
find cid [] = none
find cid ((c, p) ∷ ps) = if c == cid then some p else find cid ps

-- `_pending.erase(cid)`
unfoldable pub erase : ℕ → List (ℕ × Pending) → List (ℕ × Pending)
erase cid [] = []
erase cid ((c, p) ∷ ps) = if c == cid then erase cid ps else (c, p) ∷ erase cid ps

-- `++_total_dispatched; pending.cb(res, pending.user_data);`
abbrev pub dispatch : ℕ → Pending → ℤ → Client → Client
dispatch cid p res c = record c {
  total_dispatched = c.total_dispatched + 1;
  calls = record { cid = cid; user_data = p.user_data; res = res } ∷ c.calls;
}

-- The second loop of `fail_all_pending`.
unfoldable pub fail_each : List (ℕ × Pending) → ℕ → Client → Client
fail_each [] err c = c
fail_each ((cid, p) ∷ ps) err c = fail_each ps err (dispatch cid p (neg (pos err)) c)

unfoldable pub fail_all_pending : ℕ → Client → Client
unfolding fail_each
fail_all_pending err c = fail_each c.pending err (record c { pending = [] })

-- What `send_request` sends: the header, and the payload of a write behind it.
unfoldable pub send_request : ByteOrder → ℕ → ℕ → ℕ → ℕ → List ℕ → List ℕ
send_request order cid offset size op payload =
    let header : RequestHeader = record { cid = cid; offset = offset; size = size; op = op } in
    if op == op_write || op == op_write_sync
    then encode_request order header ++ payload
    else encode_request order header

-- The `catch` of `send_request`.
unfoldable pub send_failed : ℕ → Client → Client
unfolding find erase
send_failed cid c = elim (find cid c.pending) [
  | none ↦ c
  | some p ↦ dispatch cid p (neg (pos econnreset)) (record c { pending = erase cid c.pending })
]

-- `pread` and `pwrite`: the client, the return value, and the bytes that the spawned `send_request`
-- is to send.
unfoldable pub pread : ByteOrder → ℕ → ℕ → ℕ → ℕ → Client → Client × ℤ × List ℕ
unfolding send_request
pread order buf size offset user_data c =
    let p : Pending = record { is_read = true; buf = buf; user_data = user_data } in
    if ltb max_payload_size size then (c, neg (pos emsgsize), []) else (
      record c {
        next_cid = (c.next_cid + 1) % 2 ^ 64;
        pending = (c.next_cid, p) ∷ erase c.next_cid c.pending;
      },
      pos 0,
      send_request order c.next_cid offset size op_read [],
    )

unfoldable pub pwrite : ByteOrder → List ℕ → ℕ → ℕ → Client → Client × ℤ × List ℕ
unfolding send_request
pwrite order payload offset user_data c =
    let p : Pending = record { is_read = false; buf = 0; user_data = user_data } in
    let op = (if c.sync_writes then op_write_sync else op_write) in
    if ltb max_payload_size (length payload) then (c, neg (pos emsgsize), []) else (
      record c {
        next_cid = (c.next_cid + 1) % 2 ^ 64;
        pending = (c.next_cid, p) ∷ erase c.next_cid c.pending;
      },
      pos 0,
      send_request order c.next_cid offset (length payload) op payload,
    )

-- The end of a round of `reader_loop`: the body, if any, is copied, the entry erased, the callback
-- called.
unfoldable pub complete : ResponseHeader → Pending → Option (List ℕ) → Client → Client
unfolding erase
complete resp p body c = dispatch resp.cid p resp.res (record c {
  pending = erase resp.cid c.pending;
  copied = elim body [ none ↦ c.copied | some bytes ↦ (p.buf, bytes) ∷ c.copied ];
})

-- The `catch` of `reader_loop`, after which it returns.
unfoldable pub broken : Client → Client
unfolding fail_all_pending
broken c = fail_all_pending econnreset (record c { reading = false })

module _ (order : ByteOrder) (stream : RecvStream) where
  open stream use {State}

  pub with_body :
      ResponseHeader → Pending → Client → Result (List ℕ) × Reader × State → Client × Reader × State
  unfolding complete broken
  with_body resp p c (ok body, r, s) = (complete resp p (some body) c, r, s)
  with_body resp p c (throw e, r, s) = (broken c, r, s)
  with_body resp p c (out_of_fuel, r, s) = (broken c, r, s)

  pub with_response : ResponseHeader → Client → Reader → State → Client × Reader × State
  unfolding with_body complete broken
  with_response resp c r s = elim (find resp.cid c.pending) [
    | none ↦ (broken c, r, s)
    | some p ↦
        if p.is_read && is_pos resp.res
        then with_body resp p c (read_exact stream (to_ℕ resp.res) r s)
        else (complete resp p none c, r, s)
  ]

  pub with_header : Client → Result (List ℕ) × Reader × State → Client × Reader × State
  unfolding with_response broken
  with_header c (ok header, r, s) = with_response (decode_response order header) c r s
  with_header c (throw e, r, s) = (broken c, r, s)
  with_header c (out_of_fuel, r, s) = (broken c, r, s)

  -- One round of `reader_loop`, its `catch` included.
  pub receive : Client → Reader → State → Client × Reader × State
  unfolding with_header
  receive c r s = with_header c (read_exact stream response_header_size r s)

  -- `reader_loop`, for as many rounds as `n` while it runs.
  pub reader_loop : ℕ → Client → Reader → State → Client × Reader × State
  unfolding receive
  reader_loop zero c r s = (c, r, s)
  reader_loop (suc n) c r s = elim c.reading [
    | false ↦ (c, r, s)
    | true ↦ let (c', r', s') = receive c r s in reader_loop n c' r' s'
  ]
