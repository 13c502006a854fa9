-- ===== src/Capi/Requests.antt =====
-- client/capi.cpp, `easybd_client_pread` and `easybd_client_pwrite`, over `Client::pread` and
-- `Client::pwrite`, which may find no memory.
pub mod Queued
mod Tests
use easybd.Base.{ℕ, ◌+◌, ◌%◌, ◌^◌, List, [], ◌∷◌, true, false, length, ltb, if◌then◌else◌}
use easybd.Base.Int.{ℤ}
use easybd.System.{bad_alloc}
use easybd.Wire.{ByteOrder, max_payload_size}
use easybd.Client
use easybd.Client.{Client, Pending}
use easybd.Capi.{error_of}

-- What memory there is: enough, none for the entry of `_pending`, or none for the frame of `send_request`.
pub data Room : Type 0 where
  enough no_entry no_frame : Room

-- A call of the C interface, but for its callback: its buffer or its bytes, its offset and its user data.
pub data Call : Type 0 where
  reads : ℕ → ℕ → ℕ → ℕ → Call
  writes : List ℕ → ℕ → ℕ → Call

abbrev pub size_of : Call → ℕ
size_of (reads buf size offset user_data) = size
size_of (writes payload offset user_data) = length payload

abbrev pub pending_of : Call → Pending
pending_of (reads buf size offset user_data) = record {
  is_read = true;
  buf = buf;
  user_data = user_data;
}
pending_of (writes payload offset user_data) = record {
  is_read = false;
  buf = 0;
  user_data = user_data;
}

-- `Client::pread` or `Client::pwrite`
abbrev pub request : ByteOrder → Call → Client → Client × ℤ × List ℕ
request order (reads buf size offset user_data) c = Client.pread order buf size offset user_data c
request order (writes payload offset user_data) c = Client.pwrite order payload offset user_data c

-- `_next_cid++`
abbrev take_cid : Client → Client
take_cid c = record c { next_cid = (c.next_cid + 1) % 2 ^ 64 }

-- `_pending[cid] = …`
abbrev enter_pending : ℕ → Pending → Client → Client
enter_pending cid p c = record c { pending = (cid, p) ∷ Client.erase cid c.pending }

-- What the spawned `send_request` does before the call comes back: it waits, for the lock or for its socket,
-- it sends everything, or its send throws.
pub data Sender : Type 0 where
  suspends sends fails : Sender

-- `spawn(send_request(cid, …))`, in a call that returns this.
abbrev pub run_sender : Sender → ℕ → Client × ℤ × List ℕ → Client × ℤ × List ℕ
run_sender suspends cid (c, ret, bytes) = (c, ret, bytes)
run_sender sends cid (c, ret, bytes) = (c, ret, bytes)
run_sender fails cid (c, ret, bytes) = (Client.send_failed cid c, ret, bytes)

-- The rest of the call, up to a `throw` when memory runs out; the size was checked before.
abbrev throws_in : Room → Sender → ByteOrder → Call → Client → Client × ℤ × List ℕ
unfolding error_of
throws_in enough run order k c = run_sender run c.next_cid (request order k c)
throws_in no_entry run order k c = (take_cid c, error_of bad_alloc, [])
throws_in no_frame run order k c =
    (enter_pending c.next_cid (pending_of k) (take_cid c), error_of bad_alloc, [])

-- `easybd_client_pread` or `easybd_client_pwrite`: the client, the return value, and the bytes that
-- `send_request` is to send.
unfoldable pub client_request : Room → Sender → ByteOrder → Call → Client → Client × ℤ × List ℕ
unfolding error_of
client_request room run order k c =
    if ltb max_payload_size (size_of k) then request order k c else throws_in room run order k c
