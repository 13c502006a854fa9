-- ===== src/UringSink/Freed.antt =====
-- uring_recv_stream.cpp: a sink is deleted once, when nothing can reach it any more.
use easybd.Base.{◌≡◌, Bool, true, false, ◌||◌, if◌then◌else◌, arith}
use easybd.UringSink.{Sink, destroy, on_cqe, on_single_cqe, submit}

-- Completions come while an operation is live; the owner submits when none is, and goes away once,
-- whether or not its cancellation finds room.
pub data Step (k : Sink) : Sink → Type 0 where
  completes : (more resubmits : Bool) → k.live ≡ true → Step k (on_cqe more resubmits k)
  completes_single : k.live ≡ true → Step k (on_single_cqe k)
  submits : k.owned ≡ true → k.live ≡ false → Step k (submit k)
  destroys : (room : Bool) → k.owned ≡ true → Step k (destroy room k)

pub data Reach (k : Sink) : Sink → Type 0 where
  here : Reach k k
  next : {l n : Sink} → Reach k l → Step l n → Reach k n

-- Deleted once if neither the owner nor the kernel has it, and else not at all.
abbrev pub IsHeld : Sink → Type 0
IsHeld k = k.freed ≡ (if k.owned || k.live then 0 else 1)

Step-IsHeld : {k l : Sink} → Step k l → IsHeld k → IsHeld l
unfolding on_cqe on_single_cqe destroy
Step-IsHeld {k} (completes more resubmits l) h = ground (arith, h)
Step-IsHeld {k} (completes_single l) h = ground (arith, h)
Step-IsHeld {k} (submits o l) h = ground (arith, h)
Step-IsHeld {k} (destroys room o) h = ground (arith, h)

-- From a sink that is held as it should be, after any completions, submissions and the end of its
-- stream, whether or not the cancellation found room: it was deleted exactly once if neither its
-- stream nor an operation in the kernel has it, and not at all while one of them does.
pub Reach-IsHeld : {k l : Sink} → IsHeld k → Reach k l → IsHeld l
Reach-IsHeld h here = h
Reach-IsHeld h (next r st) = Step-IsHeld st (Reach-IsHeld h r)
