-- ===== src/UringSink.antt =====
-- easyio/src/uring_recv_stream.cpp: the lifetime of `RecvSink` and `SingleShotRecvSink`, which an
-- operation in the kernel may outlive its stream with.
pub mod Freed
mod Tests
use easybd.Base.{ℕ, ◌+◌, Bool, true, false, not, ◌&&◌, if◌then◌else◌}

-- A sink: whether it has its owner, its `_live`, the cancellations queued for it, and how often it was
-- deleted.
pub record Sink : Type 0 where
  pub owned : Bool
  pub live : Bool
  pub cancels : ℕ
  pub freed : ℕ

-- The streams' constructors: the sink submits its first operation and gets its owner.
abbrev pub new : Sink
new = record { owned = true; live = true; cancels = 0; freed = 0 }

-- `detach`
abbrev pub detach : Sink → Sink
detach k = record k { owned = false }

-- `request_cancel`, where `room` is whether `_get_sqe` gave an entry.
abbrev pub request_cancel : Bool → Sink → Sink
request_cancel room k = if room then record k { cancels = k.cancels + 1 } else k

abbrev pub free : Sink → Sink
free k = record k { freed = k.freed + 1 }

-- The streams' destructors.
pub destroy : Bool → Sink → Sink
destroy room k = if k.live then request_cancel room (detach k) else free (detach k)

-- `RecvSink::on_cqe`, where `resubmits` is whether the owner's `handle_cqe` submits the operation
-- again.
pub on_cqe : Bool → Bool → Sink → Sink
on_cqe more resubmits k =
    let k' : Sink = (if not more then record k { live = false } else k) in
    if k'.owned
    then (if resubmits then record k' { live = true } else k')
    else if not k'.live
    then free k'
    else k'

-- `SingleShotRecvSink::on_cqe`, whose owner never submits in it.
pub on_single_cqe : Sink → Sink
on_single_cqe k = let k' : Sink = record k { live = false } in if k'.owned then k' else free k'

-- `submit_recv`
abbrev pub submit : Sink → Sink
submit k = record k { live = true }
