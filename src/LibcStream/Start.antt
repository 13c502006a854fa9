-- ===== src/LibcStream/Start.antt =====
-- libc_recv_stream.cpp, the constructor: a new stream keeps the contract from the start.
use native.Mathlib.Nat.{zero-mod}
use easybd.Base.{ℕ, ◌<◌, ◌≡◌, refl, sym, List, [], ◌∷◌, arith}
use easybd.Stream.{IsProper}
use easybd.LibcStream.{Recv, got, again, closed, refused, new}
use easybd.LibcStream.Invariant.{IsValid, Ends, socket_ending, rest, arriving}
use easybd.LibcStream.Contract.{IsGood}

IsProper-of_Ends : (os : List Recv) → Ends os → IsProper (socket_ending os)
IsProper-of_Ends [] en = absurd en
IsProper-of_Ends (got bs ∷ os) en = IsProper-of_Ends os en.1
IsProper-of_Ends (again ∷ os) en = IsProper-of_Ends os en
IsProper-of_Ends (closed ∷ os) en = _
IsProper-of_Ends (refused e ∷ os) en = en

new-IsValid : (entries : ℕ) (buf : ℕ → List ℕ) → 0 < entries → IsValid (new entries buf)
new-IsValid entries buf h = record {
  start = 0;
  slots = h;
  room = omega arith;
  chain = sym (zero-mod entries);
  positive = _;
  lens = refl;
  one_end = λ e. refl;
}

pub new-IsGood :
    (entries : ℕ) (buf : ℕ → List ℕ) (os : List Recv)
    → 0 < entries
    → Ends os
    → IsGood (new entries buf, os)
new-IsGood entries buf os h en = record {
  valid = new-IsValid entries buf h;
  ends = λ k. en;
  proper = IsProper-of_Ends os en;
}

-- All that a new stream's readers will get is what its socket gives.
pub rest-new :
    (entries : ℕ) (buf : ℕ → List ℕ) (os : List Recv) → rest (new entries buf) os ≡ arriving os
rest-new entries buf os = refl
