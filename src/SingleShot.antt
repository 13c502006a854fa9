-- ===== src/SingleShot.antt =====
-- easyio/src/uring_recv_stream.cpp, `SingleShotRecvSink` and `SingleShotRecvStreamImpl`: one plain recv
-- in flight at a time, into one buffer.
pub mod Exclusive
pub mod Batch
pub mod Keeps
pub mod Contract
mod Tests
use easybd.Base.{
  ℕ, suc, ◌+◌, List, [], ◌∷◌, ◌++◌, Bool, true, false, not, ◌&&◌, ◌||◌, ◌==◌, if◌then◌else◌, length,
  take, drop, zero,
}
use easybd.Base.Int.{ℤ, pos, neg, negsuc}
use easybd.Stream.{Chunk, data_chunk}

-- `SingleShotRecvStreamImpl` with its sink: `buf` is what the sink's buffer holds, `live` the sink's
-- `_live`, `submitted` how often a recv was submitted, `waiter` whether a coroutine waits.
pub record SingleShot : Type 0 where
  pub live : Bool
  pub submitted : ℕ
  pub buf : List ℕ
  pub len : ℕ
  pub has_chunk : Bool
  pub checked_out : Bool
  pub eof : Bool
  pub error : ℕ
  pub waiter : Bool

abbrev pub is_open : SingleShot → Bool
is_open s = s.error == 0 && not s.eof

-- `_has_chunk || _eof || _error != 0`
abbrev pub is_ready : SingleShot → Bool
is_ready s = s.has_chunk || (s.eof || not (s.error == 0))

-- `SingleShotRecvSink::submit_recv`
pub submit_recv : SingleShot → SingleShot
submit_recv s = record s { live = true; submitted = s.submitted + 1 }

-- The constructors: the recv is submitted at once.
pub new : List ℕ → SingleShot
unfolding submit_recv
new buf = submit_recv (record {
  live = false;
  submitted = 0;
  buf = buf;
  len = 0;
  has_chunk = false;
  checked_out = false;
  eof = false;
  error = 0;
  waiter = false;
})

-- The first part of `handle_cqe`.
pub absorb : ℤ → SingleShot → SingleShot
absorb (negsuc e) s = record s { error = suc e }
absorb (pos zero) s = record s { eof = true }
absorb (pos (suc n)) s = record s { len = suc n; has_chunk = true }

pub wake : SingleShot → SingleShot × Bool
wake s = if s.waiter && is_ready s then (record s { waiter = false }, true) else (s, false)

-- `handle_cqe`
pub handle_cqe : ℤ → SingleShot → SingleShot × Bool
unfolding absorb wake
handle_cqe res s = wake (absorb res s)

-- `on_cqe` while the sink has its owner.
pub on_cqe : ℤ → SingleShot → SingleShot × Bool
unfolding handle_cqe
on_cqe res s = handle_cqe res (record s { live = false })

-- `_reclaim`
pub reclaim : SingleShot → SingleShot
unfolding submit_recv
reclaim s =
    let s' : SingleShot = record s { checked_out = false } in
    if s.checked_out then (if is_open s then submit_recv s' else s') else s

-- `_ready`
pub ready : SingleShot → SingleShot × Bool
unfolding reclaim
ready s = let s' = reclaim s in (s', is_ready s')

-- `_arm`
pub arm : SingleShot → SingleShot
arm s = record s { waiter = true }

-- `_take`
pub take_one : SingleShot → Chunk × SingleShot
take_one s =
    if s.has_chunk
    then (data_chunk (take s.len s.buf), record s { has_chunk = false; checked_out = true })
    else if not (s.error == 0)
    then (record { bytes = []; error = neg (pos s.error) }, s)
    else (record { bytes = []; error = pos 0 }, s)

-- `_take_batch` for an `out` of `size` chunks.
pub take_batch : ℕ → SingleShot → List Chunk × SingleShot
unfolding take_one
take_batch size s = if size == 0 then ([], s) else (let (c, s') = take_one s in (c ∷ [], s'))

-- What the kernel does to the recv in flight, by recv(2): it writes the bytes at the start of the
-- buffer and completes with their number, or it completes with 0 or an errno (less one).
pub data Event : Type 0 where
  received : List ℕ → Event
  fails : ℕ → Event

pub deliver : Event → SingleShot → SingleShot
unfolding on_cqe
deliver (received bs) s =
    (on_cqe (pos (length bs)) (record s { buf = bs ++ drop (length bs) s.buf })).0
deliver (fails e) s = (on_cqe (negsuc e) s).0

-- Whether `handle_cqe` resumed the reader for it.
pub resumes : Event → SingleShot → Bool
unfolding on_cqe
resumes (received bs) s =
    (on_cqe (pos (length bs)) (record s { buf = bs ++ drop (length bs) s.buf })).1
resumes (fails e) s = (on_cqe (negsuc e) s).1
