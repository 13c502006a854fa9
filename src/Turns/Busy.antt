-- ===== src/Turns/Busy.antt =====
-- How many coroutines wait for the lock or send.
use easybd.Base.{
  ℕ, suc, ◌+◌, ◌≡◌, refl, List, [], ◌∷◌, ◌++◌, Bool, true, false, arith, length, length-append,
  drop,
}
use easybd.Mutex.{lock, unlock, await_ready, await_suspend}
use easybd.Turns.{Frame, Turns, enter, release, put, send_returns, send_throws}
use easybd.Turns.Whole.{handles, frame_of_first, IsWhole, sending-HasTurn}

abbrev pub busy : Turns → ℕ
busy t = length t.queued + length t.sending

busy-enter_of :
    (b : Bool) (h : ℕ) (msg : List ℕ) (t : Turns)
    → t.mutex.locked ≡ b
    → busy (enter h msg t) ≡ suc (busy t)
unfolding enter lock await_ready await_suspend
busy-enter_of false h msg t e = rw e (omega arith)
busy-enter_of true h msg t e = rw e (omega (arith, length-append t.queued ((h, msg) ∷ [])))

pub busy-enter : (h : ℕ) (msg : List ℕ) (t : Turns) → busy (enter h msg t) ≡ suc (busy t)
busy-enter h msg t = busy-enter_of t.mutex.locked h msg t refl

pub busy-put :
    (before : List (List ℕ)) (n : ℕ) (rest : List ℕ) (after : List (List ℕ)) (t : Turns)
    → t.sending ≡ before ++ rest ∷ after
    → busy (put before n rest after t) ≡ busy t
unfolding put
busy-put before n rest after t h =
    rw h (
      omega
        (arith, length-append before (rest ∷ after), length-append before (drop n rest ∷ after)))

busy-release_of :
    (waiters : List ℕ) (queued : List Frame) (t : Turns)
    → t.mutex.waiters ≡ waiters
    → t.queued ≡ queued
    → waiters ≡ handles queued
    → t.sending ≡ []
    → busy (release t) ≡ length t.queued
unfolding release unlock
busy-release_of [] [] t e q h o = rw (e, q, o) refl
busy-release_of [] (f ∷ l) t e q h o = absurd (cc)
busy-release_of (x ∷ xs) [] t e q h o = absurd (cc)
busy-release_of (x ∷ xs) ((y, msg) ∷ l) t e q h o =
    let same : y ≡ x = cc in rw (e, q, o, frame_of_first x y msg l same) (omega arith)

busy-release :
    (t : Turns)
    → t.mutex.waiters ≡ handles t.queued
    → t.sending ≡ []
    → busy (release t) ≡ length t.queued
busy-release t = busy-release_of t.mutex.waiters t.queued t refl refl

pub busy-send_returns :
    (before after : List (List ℕ)) (t : Turns)
    → t.sending ≡ before ++ [] ∷ after
    → IsWhole t
    → suc (busy (send_returns (before ++ after) t)) ≡ busy t
unfolding send_returns
busy-send_returns before after t h w =
    let u = sending-HasTurn before [] after t w h in
    rw (h, u.first, u.last) (omega (arith, busy-release (record t { sending = [] }) w.waits refl))

pub busy-send_throws :
    (before : List (List ℕ)) (rest : List ℕ) (after : List (List ℕ)) (t : Turns)
    → t.sending ≡ before ++ rest ∷ after
    → IsWhole t
    → suc (busy (send_throws (before ++ after) t)) ≡ busy t
unfolding send_throws
busy-send_throws before rest after t h w =
    let u = sending-HasTurn before rest after t w h in
    rw (h, u.first, u.last)
      (omega (arith, busy-release (record t { sending = []; failed = true }) w.waits refl))
