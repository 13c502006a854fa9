-- ===== src/SingleShot/Tests.antt =====
-- uring_recv_stream.cpp, single shot: two bytes arrive and are taken.
use easybd.Base.{◌≡◌, refl, arith, [], ◌∷◌, true, false}
use easybd.SingleShot.{new, deliver, take_batch, ready, received}
use easybd.SingleShot.Exclusive.{
  Use, IsSound, here, next, delivers, takes, after_deliver, after_take, Reach-IsSound,
}
use easybd.Stream.{Delivers}
use easybd.SingleShot.Batch
use easybd.SingleShot.Batch.{next_batch, serve, arrive, advance_if, await, complete_recv}
use easybd.SingleShot.Keeps.{IsGood, rest, ending}
use easybd.SingleShot.Contract.{single_shot-Delivers}

abbrev start : Use
start = record {
  stream = record {
    live = true;
    submitted = 1;
    buf = 0 ∷ 0 ∷ 0 ∷ [];
    len = 0;
    has_chunk = false;
    checked_out = false;
    eof = false;
    error = 0;
    waiter = false;
  };
  received_bytes = [];
  taken = [];
}

start_new : new (0 ∷ 0 ∷ 0 ∷ []) ≡ start.stream
unfolding new
start_new = refl

start-IsSound : IsSound start
start-IsSound = record {
  exclusive = record { kernel = λ e. refl; reader = refl; busy = λ e. refl };
  bytes = refl;
}

abbrev two : Use
two = after_deliver (received (5 ∷ 6 ∷ [])) start

taken_bytes : (after_take 64 two).taken ≡ 5 ∷ 6 ∷ []
unfolding take_batch deliver
taken_bytes = refl

Reach-IsSound_example : IsSound (after_take 64 two)
Reach-IsSound_example =
    Reach-IsSound start-IsSound
      (next (next here (delivers (received (5 ∷ 6 ∷ [])) refl)) (takes 64))

-- A segment that comes before the first call, and the peer's shutdown during the second.
abbrev peer : Batch.Use
peer = record {
  stream = start.stream;
  events = received (5 ∷ 6 ∷ []) ∷ received [] ∷ [];
  early = true ∷ [];
}

peer-IsGood : IsGood peer
peer-IsGood = record {
  kept = record {
    exclusive = start-IsSound.exclusive;
    live_open = λ e. refl;
    filled = λ e. ground arith;
    ends = λ e. tt;
  };
}

first_bytes : rest peer ≡ 5 ∷ 6 ∷ []
first_bytes = refl

no_bytes_left : rest (next_batch peer 64 4096).1 ≡ []
unfolding next_batch serve arrive advance_if await complete_recv ready take_batch deliver
no_bytes_left = refl

single_shot-Delivers_example :
    Delivers 4096
      (rest peer)
      (ending peer)
      (rest (next_batch peer 64 4096).1)
      (next_batch peer 64 4096).0
single_shot-Delivers_example =
    single_shot-Delivers peer 64 4096 peer-IsGood (omega arith) (omega arith)
