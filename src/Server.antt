-- ===== src/Server.antt =====
-- server/server.cpp: the sockets and files of a server, its accept loop, and its threads.
pub mod Accepts
pub mod Opens
pub mod Interleaving
pub mod Stashed
pub mod Safety
pub mod Shutdown
mod Tests
use easybd.System.{Os, ok, err, Thrown, system_error, invalid_argument, close_fd, set_nonblocking}
use easybd.Base.{
  ℕ, zero, suc, List, [], ◌∷◌, ◌++◌, Bool, true, false, not, Option, none, some, ◌==◌,
  if◌then◌else◌, is_empty,
}

pub data Result : Type 0 where
  returned : ℕ → Result
  threw : Thrown → Result

-- What the calls of `open_listen_socket` do: `parsed` is whether `inet_pton` accepts the host, and `getfl`
-- and `setfl` what `set_nonblocking` gets from `fcntl`.
pub record ListenCalls : Type 0 where
  pub socket : Os
  pub parsed : Bool
  pub bind : Os
  pub listen : Os
  pub getfl : Os
  pub setfl : Os

-- `set_nonblocking(fd); return fd;`
pub return_fd : Option Thrown → ℕ → List ℕ → Result × List ℕ
return_fd none fd open_fds = (returned fd, open_fds)
return_fd (some e) fd open_fds = (threw e, open_fds)

-- The end of `open_listen_socket`, once the address is bound.
pub listen_on : ℕ → ListenCalls → List ℕ → Result × List ℕ
unfolding return_fd
listen_on fd c open_fds = elim c.listen [
  | err e ↦ (threw (system_error e), close_fd fd open_fds)
  | ok n ↦ return_fd (set_nonblocking c.getfl c.setfl) fd open_fds
]

pub bind_to : ℕ → ListenCalls → List ℕ → Result × List ℕ
unfolding listen_on
bind_to fd c open_fds = if not c.parsed then (threw invalid_argument, open_fds) else elim c.bind [
  | err e ↦ (threw (system_error e), close_fd fd open_fds)
  | ok n ↦ listen_on fd c open_fds
]

-- `open_listen_socket`, from the descriptors that are open to those that are open after it.
pub open_listen_socket : ListenCalls → List ℕ → Result × List ℕ
unfolding bind_to
open_listen_socket c open_fds = elim c.socket [
  | err e ↦ (threw (system_error e), open_fds)
  | ok fd ↦ bind_to fd c (fd ∷ open_fds)
]

-- What `open` and `fstat` do, the latter with the file's size.
pub record FileCalls : Type 0 where
  pub opened : Os
  pub stat : Os

pub stat_file : ℕ → FileCalls → List ℕ → (Result × ℕ) × List ℕ
stat_file fd c open_fds = elim c.stat [
  | err e ↦ ((threw (system_error e), 0), close_fd fd open_fds)
  | ok size ↦ ((returned fd, size), open_fds)
]

-- `open_backing_file`, with `out_size`.
pub open_backing_file : FileCalls → List ℕ → (Result × ℕ) × List ℕ
unfolding stat_file
open_backing_file c open_fds = elim c.opened [
  | err e ↦ ((threw (system_error e), 0), open_fds)
  | ok fd ↦ stat_file fd c (fd ∷ open_fds)
]

-- The start of `run_server`: the backing file, then the socket, of which the descriptor is returned.
pub open_socket_after : Result → ListenCalls → List ℕ → Result × List ℕ
unfolding open_listen_socket
open_socket_after (threw e) c open_fds = (threw e, open_fds)
open_socket_after (returned fd) c open_fds = open_listen_socket c open_fds

pub open_both : FileCalls → ListenCalls → List ℕ → Result × List ℕ
unfolding open_backing_file open_socket_after
open_both f c open_fds =
    let (r, open_fds') = open_backing_file f open_fds in open_socket_after r.0 c open_fds'

-- How a coroutine ends.
pub data Ended : Type 0 where
  returns throws : Ended

-- What a connection did: it was handled, and its descriptor closed.
pub data Did : Type 0 where
  handled : ℕ → Ended → Did
  closed : ℕ → Did

-- `accept_one`: whatever the connection's task and the close throw is swallowed.
pub accept_one : ℕ → Ended → Ended → List Did × Ended
accept_one fd connection closing = (handled fd connection ∷ closed fd ∷ [], returns)

-- What a `co_await queue.accept(listen_fd)` gives: a descriptor, or an exception, with whether a
-- shutdown is requested when it is caught.
pub data Accept : Type 0 where
  accepted : ℕ → Accept
  failed : Bool → Accept

-- `accept_loop`, over the accepts that have completed: the connections that it spawned, and whether it
-- returned.
pub accept_loop : List Accept → List ℕ × Bool
accept_loop [] = ([], false)
accept_loop (accepted fd ∷ calls) = let (fds, over) = accept_loop calls in (fd ∷ fds, over)
accept_loop (failed shutdown ∷ calls) =
    let later = accept_loop calls in if shutdown then ([], true) else later

-- Where a thread is in `worker_main`: it makes its queue, tests `g_shutdown_requested`, is in `step`, has
-- caught an exception, is to request the shutdown, or has returned.
pub data Worker : Type 0 where
  creating at_test stepping flagging stopped : Worker
  caught : ℕ → Worker

-- What `Queue::create` or `step` does in a thread.
pub data Answer : Type 0 where
  fine : Answer
  throws_error : ℕ → Answer

pub step_to : Answer → Worker
step_to fine = at_test
step_to (throws_error e) = caught e

-- `worker_main`, from one access to what the threads share to the next.
pub worker_turn : Answer → Bool → Worker → Worker
unfolding step_to
worker_turn a shutdown creating = step_to a
worker_turn a shutdown at_test = if shutdown then stopped else stepping
worker_turn a shutdown stepping = step_to a
worker_turn a shutdown (caught e) = flagging
worker_turn a shutdown flagging = stopped
worker_turn a shutdown stopped = stopped

-- `if (!g_worker_exception) g_worker_exception = std::current_exception()`
pub stash_of : Worker → Option ℕ → Option ℕ
stash_of (caught e) none = some e
stash_of (caught e) (some x) = some x
stash_of creating stash = stash
stash_of at_test stash = stash
stash_of stepping stash = stash
stash_of flagging stash = stash
stash_of stopped stash = stash

-- `g_shutdown_requested` after the turn.
pub shutdown_of : Worker → Bool → Bool
shutdown_of flagging shutdown = true
shutdown_of (caught e) shutdown = shutdown
shutdown_of creating shutdown = shutdown
shutdown_of at_test shutdown = shutdown
shutdown_of stepping shutdown = shutdown
shutdown_of stopped shutdown = shutdown

-- Where `run_server` is: it has so many threads to start, waits for the shutdown, joins, or has ended, with
-- the exception that it rethrows; or its first thread could not be started, whose exception left it, or a
-- later one, and the destructors of the threads before it called `std::terminate`.
pub data Main : Type 0 where
  spawning : ℕ → Main
  polling joining aborted : Main
  finished : Option ℕ → Main
  unstarted : ℕ → Main

-- The threads of a server and what they share; `fds_open` is whether `listen_fd` and `file_fd` are.
pub record Threads : Type 0 where
  pub main : Main
  pub workers : List Worker
  pub shutdown : Bool
  pub stash : Option ℕ
  pub fds_open : Bool

-- `run_server`, once its descriptors are open.
pub run_server : ℕ → Threads
run_server threads = record {
  main = spawning threads;
  workers = [];
  shutdown = false;
  stash = none;
  fds_open = true;
}

-- `run_server`, from one access to what the threads share to the next; its joins return once every thread
-- has returned, which `joined` says.
pub main_turn : Bool → Threads → Main → Threads
main_turn joined t (spawning zero) = record t { main = polling }
main_turn joined t (spawning (suc n)) = record t {
  main = spawning n;
  workers = t.workers ++ creating ∷ [];
}
main_turn joined t polling = if t.shutdown then record t { main = joining } else t
main_turn joined t joining =
    if joined then record t { main = finished t.stash; fds_open = false } else t
main_turn joined t (finished e) = t
main_turn joined t (unstarted e) = t
main_turn joined t aborted = t

-- `workers.emplace_back(…)` throws: the threads in `workers` are joinable, and `listen_fd` and `file_fd` are
-- plain numbers, which nothing closes.
pub start_fails : ℕ → Threads → Threads
start_fails e t = record t { main = if is_empty t.workers then unstarted e else aborted }
