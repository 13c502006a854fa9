-- ===== src/Reader.antt =====
-- easyio/src/framed_reader.cpp: exact byte counts out of a stream's chunks.
pub mod Absorb
pub mod Exact
pub mod Into
pub mod Refine
mod Tests
use easybd.Base.{
  ℕ, zero, suc, ◌+◌, ◌-◌, min, List, [], ◌∷◌, ◌++◌, Bool, true, false, ltb, if◌then◌else◌, is_empty,
  length, take, drop, not,
}
use easybd.Base.Int.{ℤ, neg, is_zero}
use easybd.Stream.{Chunk, RecvStream}

-- What a read may throw: `std::system_error` with its code, or `std::runtime_error` for a
-- connection that closes in the middle of a message.
pub data Thrown : Type 0 where
  system_error : ℤ → Thrown
  closed_mid_message : Thrown

-- The loops run on fuel; the theorems show that it never runs out.
pub data Result {ℓ} (A : Type ℓ) : Type ℓ where
  ok : A → Result A
  throw : Thrown → Result A
  out_of_fuel : Result A

-- The fields of `FramedReader` but the stream, whose state is an argument beside it.
pub record Reader : Type 0 where
  pub buf : List ℕ
  pub consumed : ℕ

abbrev pub new : Reader
new = record { buf = []; consumed = 0 }

-- `kBatchCapacity`
abbrev pub batch_capacity : ℕ
batch_capacity = 64

-- `_buf.erase(_buf.begin(), _buf.begin() + _consumed); _consumed = 0;`
abbrev pub erase_consumed : Reader → Reader
erase_consumed r = record { buf = drop r.consumed r.buf; consumed = 0 }

-- The `for` loop of `read_exact` over one batch; what a throw leaves in the buffer is kept.
pub absorb : List Chunk → List ℕ → List ℕ × Result (Unit {0})
absorb [] buf = (buf, ok tt)
absorb (c ∷ cs) buf =
    if not (is_zero c.error)
    then (buf, throw (system_error (neg c.error)))
    else if is_empty c.bytes
    then (buf, throw closed_mid_message)
    else absorb cs (buf ++ c.bytes)

-- The `for` loop of `read_exact_into` over one batch: `dest` holds the `got` bytes copied so far.
pub copy : List Chunk → ℕ → List ℕ → Reader → List ℕ × Reader × Result (Unit {0})
copy [] n dest r = (dest, r, ok tt)
copy (c ∷ cs) n dest r =
    let part = min (length c.bytes) (n - length dest) in
    let left : Reader = record { buf = drop part c.bytes; consumed = 0 } in
    if not (is_zero c.error)
    then (dest, r, throw (system_error (neg c.error)))
    else if is_empty c.bytes
    then (dest, r, throw closed_mid_message)
    else copy cs n (dest ++ take part c.bytes) (if ltb part (length c.bytes) then left else r)

-- What of the buffer goes to `dest` before the stream is asked for more.
abbrev pub hand_over : ℕ → Reader → List ℕ × Reader
hand_over n r =
    if is_empty r.buf
    then ([], r)
    else (take (min (length r.buf) n) r.buf, record r { consumed = min (length r.buf) n })

module _ (stream : RecvStream) where
  open stream use {State, next_batch}

  -- `while (_buf.size() < n)`
  pub fill : ℕ → State → ℕ → List ℕ → List ℕ × State × Result (Unit {0})
  fill zero s n buf = (buf, s, out_of_fuel)
  fill (suc f) s n buf = elim (ltb (length buf) n) [
    | false ↦ (buf, s, ok tt)
    | true ↦
        let (cs, s') = next_batch s batch_capacity (n - length buf) in
        let (buf', r) = absorb cs buf in
        elim r [
          | ok u ↦ fill f s' n buf'
          | throw e ↦ (buf', s', throw e)
          | out_of_fuel ↦ (buf', s', out_of_fuel)
        ]
  ]

  -- `_consumed = n` and the span that is returned, unless the loop threw.
  abbrev pub finish : ℕ → List ℕ × State × Result (Unit {0}) → Result (List ℕ) × Reader × State
  finish n (buf, s', ok u) = (ok (take n buf), record { buf = buf; consumed = n }, s')
  finish n (buf, s', throw e) = (throw e, record { buf = buf; consumed = 0 }, s')
  finish n (buf, s', out_of_fuel) = (out_of_fuel, record { buf = buf; consumed = 0 }, s')

  -- The bytes that a read returns, and the reader and the stream after it. Every round of the loop
  -- adds a byte or throws, so `n + 1` rounds suffice.
  pub read_exact : ℕ → Reader → State → Result (List ℕ) × Reader × State
  unfolding fill absorb
  read_exact n r s = finish n (fill (suc n) s n (erase_consumed r).buf)

  -- `while (got < n)`
  pub fetch : ℕ → State → ℕ → List ℕ → Reader → List ℕ × Reader × State × Result (Unit {0})
  fetch zero s n dest r = (dest, r, s, out_of_fuel)
  fetch (suc f) s n dest r = elim (ltb (length dest) n) [
    | false ↦ (dest, r, s, ok tt)
    | true ↦
        let (cs, s') = next_batch s batch_capacity (n - length dest) in
        let (dest', r', res) = copy cs n dest r in
        elim res [
          | ok u ↦ fetch f s' n dest' r'
          | throw e ↦ (dest', r', s', throw e)
          | out_of_fuel ↦ (dest', r', s', out_of_fuel)
        ]
  ]

  abbrev pub finish_into :
      List ℕ × Reader × State × Result (Unit {0}) → Result (List ℕ) × Reader × State
  finish_into (dest, r, s', ok u) = (ok dest, r, s')
  finish_into (dest, r, s', throw e) = (throw e, r, s')
  finish_into (dest, r, s', out_of_fuel) = (out_of_fuel, r, s')

  pub read_exact_into : ℕ → Reader → State → Result (List ℕ) × Reader × State
  unfolding fetch copy
  read_exact_into n r s =
      let (dest, r') = hand_over n (erase_consumed r) in finish_into (fetch (suc n) s n dest r')
