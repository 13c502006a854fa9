-- ===== src/LibcStream/Tests.antt =====
-- libc_recv_stream.cpp: a ring of two slots over a socket that gives three bytes and then one.
use easybd.Base.{ℕ, ◌≡◌, map, false, refl, List, [], ◌∷◌, true, arith}
use easybd.Stream.{Delivers, data_chunk}
use easybd.LibcStream.{
  take_batch, serve, Recv, got, again, closed, Ring, new, on_ready, next_batch, drain, receive,
}
use easybd.LibcStream.Invariant.{IsValid, Ends, rest, ending}
use easybd.LibcStream.Contract.{IsGood, next_batch-Delivers}
use easybd.LibcStream.Start.{new-IsGood}

abbrev blank : ℕ → List ℕ
blank i = []

abbrev socket : List Recv
socket = again ∷ got (1 ∷ 2 ∷ 3 ∷ []) ∷ got (4 ∷ []) ∷ got (5 ∷ []) ∷ closed ∷ []

socket-Ends : Ends socket
socket-Ends = omega arith

abbrev fresh : Ring
fresh = new 2 blank

fresh-IsGood : IsGood (fresh, socket)
fresh-IsGood = new-IsGood 2 blank socket (omega arith) socket-Ends

-- The third chunk stays in the socket: the ring has two slots.
drain_full : (drain (got (1 ∷ []) ∷ got (2 ∷ []) ∷ got (3 ∷ []) ∷ []) fresh).1 ≡ got (3 ∷ []) ∷ []
unfolding drain receive
drain_full = refl

-- The first batch of at most four bytes: the socket's first chunk, after waiting, and the second.
first_batch :
    (next_batch (fresh, socket) 64 4).0 ≡ map data_chunk ((1 ∷ 2 ∷ 3 ∷ []) ∷ (4 ∷ []) ∷ [])
unfolding next_batch receive take_batch serve on_ready
first_batch = refl

next_batch-Delivers_example :
    let (cs, s') = next_batch (fresh, socket) 64 4 in
    Delivers 4 (rest fresh socket) (ending fresh socket) (rest s'.0 s'.1) cs
next_batch-Delivers_example =
    next_batch-Delivers (fresh, socket) 64 4 fresh-IsGood (omega arith) (omega arith)

-- A reader that is armed on the fresh ring.
abbrev waiting : Ring
waiting = record {
  entries = 2;
  buf = blank;
  write_idx = 0;
  pending = [];
  checked_out_count = 0;
  eof = false;
  error = 0;
  waiter = true;
}

waiting-IsValid : IsValid waiting
waiting-IsValid = record {
  start = 0;
  slots = omega arith;
  room = omega arith;
  chain = refl;
  positive = _;
  lens = refl;
  one_end = λ e. refl;
}

-- One slot handed out, with the byte 7 in it, and room in the other.
abbrev lent : Ring
lent = record {
  entries = 2;
  buf = λ i. 7 ∷ [];
  write_idx = 1;
  pending = [];
  checked_out_count = 1;
  eof = false;
  error = 0;
  waiter = false;
}
