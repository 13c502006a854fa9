-- ===== src/Capi.antt =====
-- client/client.cpp: how a client connects, and what `wait` returns; client/capi.cpp: what the C interface
-- makes of an exception. What the system's calls return is an argument.
pub mod Create
pub mod Waiting
pub mod Requests
mod Tests
use easybd.Base.{
  ℕ, zero, suc, ◌+◌, ◌-◌, ◌%◌, ◌^◌, List, [], ◌∷◌, Bool, true, false, Option, none, some, ltb,
  if◌then◌else◌,
}
use easybd.Base.Int.{ℤ, pos, neg}
use easybd.System
use easybd.System.{
  Os, ok, err, Thrown, system_error, invalid_argument, bad_alloc, Backend, io_uring, libc, NewQueue,
  uring_queue, libc_queue, no_queue, close_fd, set_nonblocking, set_tcp_nodelay,
}
use easybd.Client.{Client}

-- `resolve_ipv4`: `literal` is the address when `inet_pton` accepts the host, `resolved` what
-- `getaddrinfo` returns.
pub data Resolved : Type 0 where
  address : ℕ → Resolved
  unresolved : Thrown → Resolved

pub resolve_ipv4 : Option ℕ → Os → Resolved
resolve_ipv4 (some literal) resolved = address literal
resolve_ipv4 none (ok addr) = address addr
resolve_ipv4 none (err e) = unresolved invalid_argument

-- What one `step` of the constructor's loop does: nothing for it, the end of the connect, or a throw.
pub data Pumped : Type 0 where
  nothing : Pumped
  connected : Os → Pumped
  step_throws : Thrown → Pumped

-- How the constructor ends: a client of this descriptor, an exception, it still waits, or the process was
-- terminated.
pub data Made : Type 0 where
  made : ℕ → Made
  raised : Thrown → Made
  still_waiting terminated : Made

-- What `spawn(reader_loop())` does: the loop runs up to its first wait, or to its end; there is no memory for
-- a coroutine's frame; or `recv_stream`, which stands before the loop's `try`, throws in the detached
-- coroutine.
pub data LoopSpawn : Type 0 where
  starts no_frame no_stream : LoopSpawn

pub spawn_reader : LoopSpawn → ℕ → Made
spawn_reader starts fd = made fd
spawn_reader no_frame fd = raised bad_alloc
spawn_reader no_stream fd = terminated

-- `connect_task`: what it leaves in `connect_err`.
pub connect_task : Os → Option Thrown
connect_task (ok n) = none
connect_task (err e) = some (system_error e)

-- `if (connect_err)`, and the spawn of `reader_loop`.
pub finish_connect : Option Thrown → LoopSpawn → ℕ → List ℕ → Made × List ℕ
unfolding spawn_reader
finish_connect none loop fd open_fds = (spawn_reader loop fd, open_fds)
finish_connect (some e) loop fd open_fds = (raised e, close_fd fd open_fds)

-- `while (!connected) _queue->step(-1);`, over what its steps do.
pub pump : List Pumped → LoopSpawn → ℕ → List ℕ → Made × List ℕ
unfolding finish_connect connect_task
pump [] loop fd open_fds = (still_waiting, open_fds)
pump (nothing ∷ steps) loop fd open_fds = pump steps loop fd open_fds
pump (step_throws e ∷ steps) loop fd open_fds = (raised e, open_fds)
pump (connected r ∷ steps) loop fd open_fds = finish_connect (connect_task r) loop fd open_fds

pub record ConnectCalls : Type 0 where
  pub with_liburing : Bool
  pub init : ℤ
  pub socket : Os
  pub getfl : Os
  pub setfl : Os
  pub nodelay : Os
  pub literal : Option ℕ
  pub resolved : Os
  pub steps : List Pumped
  pub loop : LoopSpawn

-- `addr.sin_addr = resolve_ipv4(host)` and what follows.
pub connect_to : Resolved → List Pumped → LoopSpawn → ℕ → List ℕ → Made × List ℕ
unfolding pump
connect_to (unresolved e) steps loop fd open_fds = (raised e, close_fd fd open_fds)
connect_to (address a) steps loop fd open_fds = pump steps loop fd open_fds

-- `set_nonblocking` and `set_tcp_nodelay`, by what they throw.
pub prepare_socket : Option Thrown → Option Thrown → ConnectCalls → ℕ → List ℕ → Made × List ℕ
unfolding connect_to resolve_ipv4
prepare_socket (some e) nodelay c fd open_fds = (raised e, open_fds)
prepare_socket none (some e) c fd open_fds = (raised e, open_fds)
prepare_socket none none c fd open_fds =
    connect_to (resolve_ipv4 c.literal c.resolved) c.steps c.loop fd open_fds

pub open_socket : Os → ConnectCalls → List ℕ → Made × List ℕ
unfolding prepare_socket
open_socket (err e) c open_fds = (raised (system_error e), open_fds)
open_socket (ok fd) c open_fds =
    prepare_socket (set_nonblocking c.getfl c.setfl) (set_tcp_nodelay c.nodelay) c fd
      (fd ∷ open_fds)

pub with_queue : NewQueue → ConnectCalls → List ℕ → Made × List ℕ
unfolding open_socket
with_queue (no_queue e) c open_fds = (raised e, open_fds)
with_queue (uring_queue q) c open_fds = open_socket c.socket c open_fds
with_queue libc_queue c open_fds = open_socket c.socket c open_fds

-- `Client::Client`, from the descriptors that are open to those that are open after it.
pub construct : Backend → ConnectCalls → List ℕ → Made × List ℕ
unfolding with_queue
construct backend c open_fds = with_queue (System.create c.with_liburing c.init backend) c open_fds

-- `to_easyio_backend`, by the enum's number.
pub to_easyio_backend : ℕ → Option Backend
to_easyio_backend zero = some io_uring
to_easyio_backend (suc zero) = some libc
to_easyio_backend (suc (suc n)) = none

-- The handlers of every function of the C interface: `ENOMEM` is 12 and `EINVAL` 22.
pub error_of : Thrown → ℤ
error_of (system_error e) = neg (pos e)
error_of bad_alloc = neg (pos 12)
error_of invalid_argument = neg (pos 22)

-- What `easybd_client_create` returns, and what it stores in `*out`.
pub record Returned : Type 0 where
  pub ret : ℤ
  pub out : Option ℕ

pub return_made : Made → Option Returned
unfolding error_of
return_made (made fd) = some (record { ret = pos 0; out = some fd })
return_made (raised e) = some (record { ret = error_of e; out = none })
return_made still_waiting = none
return_made terminated = none

pub create_with : Option Backend → ConnectCalls → List ℕ → Option Returned × List ℕ
unfolding construct return_made error_of
create_with none c open_fds = (return_made (raised invalid_argument), open_fds)
create_with (some b) c open_fds =
    let (m, open_fds') = construct b c open_fds in (return_made m, open_fds')

-- `easybd_client_create`; none while it blocks, or when the process is gone.
pub client_create : ℕ → ConnectCalls → List ℕ → Option Returned × List ℕ
unfolding create_with to_easyio_backend
client_create backend c open_fds = create_with (to_easyio_backend backend) c open_fds

-- `static_cast<int>` of a `size_t`.
pub to_int : ℕ → ℤ
to_int n = let low = n % 2 ^ 32 in if ltb low (2 ^ 31) then pos low else neg (pos (2 ^ 32 - low))

-- `Client::wait`, from the client before its `step` to the client after it.
pub wait : Client → Client → ℤ
wait before after =
    to_int ((after.total_dispatched + (2 ^ 64 - before.total_dispatched % 2 ^ 64)) % 2 ^ 64)

-- `easybd_client_wait`, by what `step` throws.
pub client_wait : Option Thrown → Client → Client → ℤ
unfolding error_of
client_wait none before after = wait before after
client_wait (some e) before after = error_of e
