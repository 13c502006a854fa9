-- ===== src/LibcQueue/Operations.antt =====
-- libc_queue.cpp: the operations that a caller awaits. The system's calls answer at once in the operations on
-- files; in those on sockets they may ask to wait, until the queue is told that the descriptor is
-- ready, or cancels.
pub mod Backends
use easybd.Base.{ℕ, List, [], ◌∷◌, Option, none, some}
use easybd.Base.Int.{ℤ, pos, neg, negsuc}
use easybd.UringQueue.{Outcome, value, thrown}
use easybd.System.{Os, ok, err}
use easybd.LibcQueue.{
  Accepted, accepted, again, refused, try_accept, Connected, connected, in_progress, try_connect,
  connect_on_ready,
}

-- `ECANCELED`
abbrev pub ecanceled : ℕ
ecanceled = 125

-- `if (r < 0) throw_errno(errno, …)`: what a call with this answer gives the caller.
abbrev pub of_call : Os → Outcome
of_call (ok n) = value n
of_call (err e) = thrown e

-- `open`, `close`, `pread`, `pwrite` and `pwrite_dsync`
pub open_file : Os → Outcome
open_file r = of_call r

-- `close` has no value.
pub close : Os → Outcome
close (ok n) = value 0
close (err e) = thrown e

pub pread : Os → Outcome
pread r = of_call r

pub pwrite : Os → Outcome
pwrite r = of_call r

pub pwrite_dsync : Os → Outcome
pwrite_dsync r = of_call r

-- `if (res < 0) throw_errno(-res, …)`, after `co_await` of an awaiter.
abbrev pub of_result : ℤ → Outcome
of_result (pos n) = value n
of_result (negsuc e) = thrown (ℕ.suc e)

-- What happens to an awaiter that was registered: the descriptor is ready, with what the call then answers, or
-- the queue cancels it.
pub data Event {ℓ} (A : Type ℓ) : Type ℓ where
  ready : A → Event A
  cancelled : Event A

-- `on_ready` and `cancel`, until the coroutine is resumed; none while it waits.
pub wait_accept : List (Event Accepted) → Option ℤ
unfolding try_accept
wait_accept [] = none
wait_accept (cancelled ∷ es) = some (neg (pos ecanceled))
wait_accept (ready a ∷ es) =
    let later = wait_accept es in elim (try_accept a) [ some res ↦ some res | none ↦ later ]

abbrev resume_with : Option ℤ → Option ℤ → Option ℤ
resume_with (some res) later = some res
resume_with none later = later

abbrev given : Option ℤ → Option Outcome
given none = none
given (some res) = some (of_result res)

-- `accept`: the call in `await_ready`, and then what happens.
pub accept : Accepted → List (Event Accepted) → Option Outcome
unfolding try_accept wait_accept
accept a es = given (resume_with (try_accept a) (wait_accept es))

-- The `SO_ERROR` of a connect that was in progress, or the errno of `getsockopt`.
pub wait_connect : List (Event ℕ) → Option ℤ
unfolding connect_on_ready
wait_connect [] = none
wait_connect (cancelled ∷ es) = some (neg (pos ecanceled))
wait_connect (ready e ∷ es) = some (connect_on_ready e)

-- `connect`
pub connect : Connected → List (Event ℕ) → Option Outcome
unfolding try_connect wait_connect
connect c es = given (resume_with (try_connect c) (wait_connect es))
