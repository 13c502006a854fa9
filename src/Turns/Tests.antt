-- ===== src/Turns/Tests.antt =====
-- Two coroutines: the second waits for the lock until the first has sent its two bytes, one by one.
use easybd.Base.{◌≡◌, refl, [], ◌∷◌}
use easybd.Mutex.{lock, unlock, await_ready, await_suspend}
use easybd.Turns.{Turns, new, enter, frame_of, release, put, send_returns}
use easybd.Turns.Whole.{Run, IsWhole, asked, Run-IsWhole}

abbrev sends_both : Turns
sends_both =
    put [] 1 (2 ∷ []) [] (put [] 1 (1 ∷ 2 ∷ []) [] (enter 8 (3 ∷ []) (enter 7 (1 ∷ 2 ∷ []) new)))

abbrev hands_over : Turns
hands_over = send_returns [] sends_both

ran : Run ((1 ∷ 2 ∷ []) ∷ (3 ∷ []) ∷ []) hands_over
unfolding enter lock await_ready await_suspend put send_returns release unlock frame_of
ran =
    let r1 = Run.asks 7 (1 ∷ 2 ∷ []) Run.starts in
    let r2 = Run.asks 8 (3 ∷ []) r1 in
    let r3 = Run.puts [] 1 (1 ∷ 2 ∷ []) [] refl r2 in
    let r4 = Run.puts [] 1 (2 ∷ []) [] refl r3 in Run.returns [] [] refl r4

second_sends : hands_over.sending ≡ (3 ∷ []) ∷ []
unfolding enter lock await_ready await_suspend put send_returns release unlock frame_of
second_sends = refl

Run-IsWhole_example : IsWhole hands_over × (asked hands_over ≡ (1 ∷ 2 ∷ []) ∷ (3 ∷ []) ∷ [])
Run-IsWhole_example = Run-IsWhole ran
