-- ===== src/Stream.antt =====
-- easyio/include/easyio/recv_stream.hpp: what a backend's recv stream hands out, and the contract
-- that readers of it rely on. A wait is part of the call that waits.
use easybd.Base.{ℕ, ◌-◌, ◌<◌, ◌≡◌, List, [], ◌∷◌, ◌++◌, map, All, length, flatten}
use easybd.Base.Int.{ℤ, pos, neg}

-- `RecvStream::Chunk`: `error` is 0, or -errno; no bytes and no error is the end of the stream.
pub record Chunk : Type 0 where
  pub bytes : List ℕ
  pub error : ℤ

abbrev pub data_chunk : List ℕ → Chunk
data_chunk d = record { bytes = d; error = pos 0 }

-- How a stream of bytes ends: the peer's shutdown, or an errno.
pub data Ending : Type 0 where
  eof : Ending
  failed : ℕ → Ending

abbrev pub end_chunk : Ending → Chunk
end_chunk eof = record { bytes = []; error = pos 0 }
end_chunk (failed e) = record { bytes = []; error = neg (pos e) }

-- An errno is not 0.
abbrev pub IsProper : Ending → Type 0
IsProper eof = Unit {0}
IsProper (failed e) = 0 < e

-- Every chunk is taken while fewer than `max` bytes have been taken before it.
abbrev pub Fits : ℕ → List (List ℕ) → Type 0
Fits max [] = Unit {0}
Fits max (d ∷ ds) = (0 < max) × Fits (max - length d) ds

-- What one `next_batch` may return when `all` is still to come, ending in `fin`, and `later` is to
-- come after it: some chunks of it in order, or, after its last byte, the end.
pub data Delivers (max : ℕ) (all : List ℕ) (fin : Ending) (later : List ℕ) (cs : List Chunk)
    : Type 0 where
  some_data :
      (d : List ℕ) (ds : List (List ℕ))
      → cs ≡ map data_chunk (d ∷ ds)
      → All (λ x. 0 < length x) (d ∷ ds)
      → Fits max (d ∷ ds)
      → flatten (d ∷ ds) ++ later ≡ all
      → Delivers max all fin later cs
  the_end : all ≡ [] → cs ≡ end_chunk fin ∷ [] → Delivers max all fin later cs

-- A stream, seen by a reader: what each `next_batch(out, max_bytes)` returns, with the bytes that
-- are still to be delivered and the ending, which no caller can compute.
pub record RecvStream : Type 1 where
  pub State : Type 0
  pub next_batch : State → ℕ → ℕ → List Chunk × State
  pub rest : State → List ℕ
  pub ending : State → Ending
  pub IsValid : State → Type 0
  pub proper : (s : State) → IsValid s → IsProper (ending s)
  pub delivers :
      (s : State) (size max : ℕ)
      → IsValid s
      → 0 < size
      → 0 < max
      → Delivers max (rest s) (ending s) (rest (next_batch s size max).1) (next_batch s size max).0
  pub keeps_ending :
      (s : State) (size max : ℕ) → IsValid s → ending (next_batch s size max).1 ≡ ending s
  pub keeps_IsValid :
      (s : State) (size max : ℕ)
      → IsValid s
      → 0 < size
      → 0 < max
      → IsValid (next_batch s size max).1
