-- ===== src/UringStream/Tests.antt =====
-- uring_recv_stream.cpp, multishot: a ring of two buffers that the reader is slow to give back.
use easybd.Base.{◌≡◌, refl, [], ◌∷◌, arith, true, false}
use easybd.UringStream.{
  Stream, received, ran_dry, shut_down, deliver, receive_into, on_cqe, ready, take_batch,
  return_checked_out, maybe_resubmit, submit_recv,
}
use easybd.UringStream.Ownership.{IsOwned, here, next, delivers, takes, Reach-IsOwned}
use easybd.UringStream.Progress.{Runs, Reach-Runs}
use easybd.Stream.{Delivers}
use easybd.UringStream.Batch.{Use, next_batch}
use easybd.UringStream.Contract.{IsGood, rest, ending, multishot-Delivers}

-- As after `setup_multishot` and `submit_recv`.
abbrev fresh : Stream
fresh = record {
  entries = 2;
  ring = 0 ∷ 1 ∷ [];
  buf = λ i. [];
  live = true;
  submitted = 1;
  pending = [];
  checked_out = [];
  eof = false;
  error = 0;
  needs_resubmit = false;
  waiter = false;
}

fresh-IsOwned : IsOwned fresh
fresh-IsOwned i = ground arith

fresh-Runs : Runs fresh
fresh-Runs = record { running = λ e. refl; not_both = refl; blocked = λ e. ground arith }

-- One message has come, into the first buffer.
abbrev after_one : Stream
after_one = deliver (received (5 ∷ []) true) fresh

one_received : (after_one.ring ≡ 1 ∷ []) × (after_one.live ≡ true)
unfolding deliver receive_into on_cqe
one_received = (refl, refl)

Reach-IsOwned_example : IsOwned (take_batch 64 100 after_one).1
Reach-IsOwned_example =
    Reach-IsOwned fresh-IsOwned
      (next (next here (delivers (received (5 ∷ []) true) refl)) (takes 64 100))

Reach-Runs_example : Runs (deliver ran_dry (take_batch 64 100 after_one).1)
unfolding deliver receive_into on_cqe take_batch
Reach-Runs_example = Reach-Runs fresh-Runs (
    next (next (next here (delivers (received (5 ∷ []) true) refl)) (takes 64 100))
      (delivers ran_dry refl))

-- The ring ran dry while the reader held a buffer, which it gives back with its next call.
abbrev dry : Stream
dry = record fresh { ring = 1 ∷ []; live = false; checked_out = 0 ∷ []; needs_resubmit = true }

resubmitted : (ready dry).0.submitted ≡ 2
unfolding ready return_checked_out maybe_resubmit submit_recv
resubmitted = refl

-- Two segments for a ring of two buffers, of which the first comes before the call, and the peer's
-- shutdown.
abbrev connection_use : Use
connection_use = record {
  stream = fresh;
  events = received (5 ∷ 6 ∷ []) true ∷ received (7 ∷ []) false ∷ shut_down ∷ [];
  early = 1 ∷ [];
}

connection_use-IsGood : IsGood connection_use
connection_use-IsGood = record {
  kept = record {
    owned = fresh-IsOwned;
    runs = fresh-Runs;
    some_buffer = omega arith;
    full = tt;
    running_open = λ e. refl;
    ends = λ e. (omega arith, (omega arith, tt));
  };
}

to_come : rest connection_use ≡ 5 ∷ 6 ∷ 7 ∷ []
to_come = refl

multishot-Delivers_example :
    Delivers 4096
      (rest connection_use)
      (ending connection_use)
      (rest (next_batch connection_use 64 4096).1)
      (next_batch connection_use 64 4096).0
multishot-Delivers_example =
    multishot-Delivers connection_use 64 4096 connection_use-IsGood (omega arith) (omega arith)
