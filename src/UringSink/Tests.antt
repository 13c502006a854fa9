-- ===== src/UringSink/Tests.antt =====
-- uring_recv_stream.cpp: a stream ends while its recv is live, and the recv is cancelled.
use easybd.Base.{◌≡◌, refl, true, false}
use easybd.UringSink.{new, destroy, on_cqe}
use easybd.UringSink.Freed.{IsHeld, here, next, completes, destroys, Reach-IsHeld}

still_live : (destroy true new).live ≡ true
unfolding destroy
still_live = refl

freed_once : (on_cqe false false (destroy true new)).freed ≡ 1
unfolding on_cqe destroy
freed_once = refl

Reach-IsHeld_example : IsHeld (on_cqe false false (destroy true new))
Reach-IsHeld_example =
    Reach-IsHeld {k = new} refl
      (next (next here (destroys true refl)) (completes false false still_live))
