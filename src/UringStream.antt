-- ===== src/UringStream.antt =====
-- easyio/src/uring_recv_stream.cpp, multishot: `RecvSink` and `RecvStreamImpl` over a ring of buffers
-- that the kernel picks from.
pub mod Ownership
pub mod Progress
pub mod Effects
pub mod Batch
pub mod Keeps
pub mod Turns
pub mod Awaits
pub mod Taken
pub mod Contract
mod Tests
use easybd.Base.{
  ℕ, zero, suc, ◌+◌, ◌<◌, List, [], ◌∷◌, ◌++◌, map, Bool, true, false, not, ◌&&◌, ◌||◌, Option,
  none, some, ltb, ◌==◌, if◌then◌else◌, is_empty, length, take, drop,
}
use easybd.Base.Int.{ℤ, pos, neg, negsuc}
use easybd.Stream.{Chunk, data_chunk}

-- `ENOBUFS`
abbrev pub enobufs : ℕ
enobufs = 105

-- `RecvStreamImpl::Pending`
pub record Pending : Type 0 where
  pub buf_idx : ℕ
  pub len : ℕ

-- `RecvStreamImpl` with its `RecvSink`: `ring` is the indices of the buffers that the kernel may
-- pick from, `buf` what each buffer holds, `live` the sink's `_live`, `submitted` how often a multishot
-- recv was submitted, and `waiter` whether a coroutine waits.
pub record Stream : Type 0 where
  pub entries : ℕ
  pub ring : List ℕ
  pub buf : ℕ → List ℕ
  pub live : Bool
  pub submitted : ℕ
  pub pending : List Pending
  pub checked_out : List ℕ
  pub eof : Bool
  pub error : ℕ
  pub needs_resubmit : Bool
  pub waiter : Bool

-- A completion: `res`, IORING_CQE_F_MORE, and the buffer's index under IORING_CQE_F_BUFFER.
pub record Cqe : Type 0 where
  pub res : ℤ
  pub more : Bool
  pub buffer : Option ℕ

-- `_error == 0 && !_eof`
abbrev pub is_open : Stream → Bool
is_open s = s.error == 0 && not s.eof

-- `!_pending.empty() || _eof || _error != 0`
abbrev pub is_ready : Stream → Bool
is_ready s = not (is_empty s.pending) || (s.eof || not (s.error == 0))

-- `RecvSink::submit_recv`
pub submit_recv : Stream → Stream
submit_recv s = record s { live = true; submitted = s.submitted + 1 }

pub maybe_resubmit : Stream → Stream
unfolding submit_recv
maybe_resubmit s =
    if s.needs_resubmit && is_empty s.checked_out
    then submit_recv (record s { needs_resubmit = false })
    else s

-- The first part of `handle_cqe`, by `res`, the buffer and `more`: what the completion means, and
-- whether the ring ran dry.
pub absorb : ℤ → Option ℕ → Bool → Stream → Stream × Bool
absorb (negsuc e) buffer more s =
    if suc e == enobufs
    then (record s { needs_resubmit = true }, true)
    else (record s { error = suc e }, false)
absorb (pos n) (some idx) more s =
    let s' : Stream = record s { pending = s.pending ++ record { buf_idx = idx; len = n } ∷ [] } in
    if not more then (record s' { needs_resubmit = true }, true) else (s', false)
absorb (pos n) none more s = (record s { eof = true }, false)

-- `if (_waiter && …) std::exchange(_waiter, nullptr).resume()`: the stream, and whether it resumed.
pub wake : Stream → Stream × Bool
wake s = if s.waiter && is_ready s then (record s { waiter = false }, true) else (s, false)

-- A multishot recv that ended with no marker is the end of the stream.
pub end_if : Bool → Stream → Stream
end_if ended s = if ended then record s { eof = true } else s

pub resubmit_if : Bool → Stream → Stream
unfolding maybe_resubmit
resubmit_if dry s = if dry then maybe_resubmit s else s

-- `RecvStreamImpl::handle_cqe`
pub handle_cqe : Cqe → Stream → Stream × Bool
unfolding absorb resubmit_if end_if wake
handle_cqe c s =
    let (s1, dry) = absorb c.res c.buffer c.more s in
    wake (resubmit_if dry (end_if (not c.more && (is_open s1 && not dry)) s1))

-- `RecvSink::on_cqe` while the sink has its owner.
abbrev pub mark_live : Bool → Stream → Stream
mark_live more s = if not more then record s { live = false } else s

pub on_cqe : Cqe → Stream → Stream × Bool
unfolding handle_cqe
on_cqe c s = handle_cqe c (mark_live c.more s)

-- `_return_checked_out`: the buffers go back behind those that the kernel still has.
pub return_checked_out : Stream → Stream
unfolding maybe_resubmit
return_checked_out s =
    maybe_resubmit (record s { ring = s.ring ++ s.checked_out; checked_out = [] })

-- `_ready`
pub ready : Stream → Stream × Bool
unfolding return_checked_out
ready s = let s' = return_checked_out s in (s', is_ready s')

-- `_arm`
pub arm : Stream → Stream
arm s = record s { waiter = true }

abbrev pub last_chunk : Stream → Chunk
last_chunk s =
    if not (s.error == 0)
    then record { bytes = []; error = neg (pos s.error) }
    else record { bytes = []; error = pos 0 }

abbrev pub chunk_bytes : (ℕ → List ℕ) → Pending → List ℕ
chunk_bytes buf p = take p.len (buf p.buf_idx)

-- `_take`
pub take_one : Stream → Chunk × Stream
take_one s = elim s.pending [
  | p ∷ ps ↦ (
    data_chunk (chunk_bytes s.buf p),
    record s { pending = ps; checked_out = s.checked_out ++ p.buf_idx ∷ [] },
  )
  | [] ↦ (last_chunk s, s)
]

-- The `while` loop of `_take_batch`.
pub take_loop : List Pending → ℕ → ℕ → ℕ → ℕ → Stream → List Chunk × Stream
take_loop [] count bytes size max s = ([], s)
take_loop (p ∷ ps) count bytes size max s =
    let (cs, s') =
      take_loop ps (count + 1) (bytes + p.len) size max
        (record s { pending = ps; checked_out = s.checked_out ++ p.buf_idx ∷ [] }) in
    if ltb count size && ltb bytes max then (data_chunk (chunk_bytes s.buf p) ∷ cs, s') else ([], s)

-- `_take_batch`
pub take_batch : ℕ → ℕ → Stream → List Chunk × Stream
unfolding take_loop
take_batch size max s =
    let (cs, s') = take_loop s.pending 0 0 size max s in
    if is_empty cs then (last_chunk s' ∷ [], s') else (cs, s')

abbrev pub update : (ℕ → List ℕ) → ℕ → List ℕ → ℕ → List ℕ
update buf i v j = if j == i then v else buf j

-- What the kernel does to a live multishot recv: bytes into the next buffer of the ring, an empty
-- ring, an errno, or the peer's shutdown. Only bytes may leave the operation running.
pub data Event : Type 0 where
  received : List ℕ → Bool → Event
  ran_dry shut_down : Event
  fails : ℕ → Event

abbrev pub data_cqe : ℕ → ℕ → Bool → Cqe
data_cqe len idx more = record { res = pos len; more = more; buffer = some idx }

abbrev pub dry_cqe : Cqe
dry_cqe = record { res = neg (pos enobufs); more = false; buffer = none }

abbrev pub shut_cqe : Cqe
shut_cqe = record { res = pos 0; more = false; buffer = none }

-- `e` is the errno less one.
abbrev pub error_cqe : ℕ → Cqe
error_cqe e = record { res = negsuc e; more = false; buffer = none }

abbrev pub fill : ℕ → List ℕ → List ℕ → Stream → Stream
fill idx bs ring s = record s {
  ring = ring;
  buf = update s.buf idx (bs ++ drop (length bs) (s.buf idx));
}

-- The kernel takes the first buffer of the ring; with none left it says ENOBUFS.
pub receive_into : List ℕ → List ℕ → Bool → Stream → Stream
unfolding on_cqe
receive_into [] bs more s = (on_cqe dry_cqe s).0
receive_into (idx ∷ ring) bs more s =
    (on_cqe (data_cqe (length bs) idx more) (fill idx bs ring s)).0

-- Whether that completion resumed the reader.
pub receive_resumes : List ℕ → List ℕ → Bool → Stream → Bool
unfolding on_cqe
receive_resumes [] bs more s = (on_cqe dry_cqe s).1
receive_resumes (idx ∷ ring) bs more s =
    (on_cqe (data_cqe (length bs) idx more) (fill idx bs ring s)).1

-- The stream after an event. `io_uring_prep_recv_multishot(3)`: a completion names the buffer that it
-- used up, and with an empty ring it is ENOBUFS.
pub deliver : Event → Stream → Stream
unfolding receive_into on_cqe
deliver (received bs more) s = receive_into s.ring bs more s
deliver ran_dry s = (on_cqe dry_cqe s).0
deliver shut_down s = (on_cqe shut_cqe s).0
deliver (fails e) s = (on_cqe (error_cqe e) s).0

-- Whether `handle_cqe` resumed the reader for it.
pub resumes : Event → Stream → Bool
unfolding receive_resumes on_cqe
resumes (received bs more) s = receive_resumes s.ring bs more s
resumes ran_dry s = (on_cqe dry_cqe s).1
resumes shut_down s = (on_cqe shut_cqe s).1
resumes (fails e) s = (on_cqe (error_cqe e) s).1
