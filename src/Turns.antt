-- ===== src/Turns.antt =====
-- easyio/include/easyio/mutex.hpp, `lock_guard` and `MutexGuard`, around `send_all`: the coroutines that
-- take turns on one connection, as the handlers of server/session.cpp and `send_request` of
-- client/client.cpp do.
pub mod Whole
pub mod Busy
mod Tests
use easybd.Base.{
  ℕ, List, [], ◌∷◌, ◌++◌, Bool, true, false, Option, none, some, ◌==◌, if◌then◌else◌, take, drop,
}
use easybd.Mutex
use easybd.Mutex.{Mutex, lock, unlock}

-- A frame that is suspended in `lock_guard`: its handle, and what it is to send.
abbrev pub Frame : Type 0
Frame = ℕ × List ℕ

-- The connection and its coroutines: the mutex; the frames that wait for it; what each coroutine in
-- `send_all` has left to send; the bytes that the connection has taken; all messages whose coroutine
-- got the lock, in order; and whether a `send_all` has thrown.
pub record Turns : Type 0 where
  pub mutex : Mutex
  pub queued : List Frame
  pub sending : List (List ℕ)
  pub wire : List ℕ
  pub turns : List (List ℕ)
  pub failed : Bool

abbrev pub new : Turns
new = record { mutex = Mutex.new; queued = []; sending = []; wire = []; turns = []; failed = false }

-- A coroutine that has the guard begins its `send_all`.
abbrev pub begin_send : List ℕ → Turns → Turns
begin_send msg t = record t { sending = msg ∷ t.sending; turns = t.turns ++ msg ∷ [] }

abbrev after_lock : Option ℕ → ℕ → List ℕ → Turns → Turns
after_lock (some k) h msg t = begin_send msg t
after_lock none h msg t = record t { queued = t.queued ++ (h, msg) ∷ [] }

-- `auto guard = co_await lock_guard(mtx)` of the coroutine `h`.
unfoldable pub enter : ℕ → List ℕ → Turns → Turns
enter h msg t = let (got, m) = lock h t.mutex in after_lock got h msg (record t { mutex = m })

abbrev put_back : Frame → Option (List ℕ × List Frame) → Option (List ℕ × List Frame)
put_back f none = none
put_back f (some (msg, l)) = some (msg, f ∷ l)

-- The frame behind a handle, and the other ones.
unfoldable pub frame_of : ℕ → List Frame → Option (List ℕ × List Frame)
frame_of h [] = none
frame_of h ((k, msg) ∷ l) =
    let later = frame_of h l in if k == h then some (msg, l) else put_back (k, msg) later

abbrev resume : Option (List ℕ × List Frame) → Turns → Turns
resume none t = t
resume (some (msg, l)) t = begin_send msg (record t { queued = l })

abbrev after_unlock : Option ℕ → Turns → Turns
unfolding frame_of
after_unlock none t = t
after_unlock (some h) t = resume (frame_of h t.queued) t

-- `~MutexGuard`: the coroutine that gets the lock goes on.
unfoldable pub release : Turns → Turns
unfolding frame_of
release t = let (next, m) = unlock t.mutex in after_unlock next (record t { mutex = m })

-- A `send` of `send_all` takes n bytes; `before` and `after` are the other coroutines in `send_all`.
unfoldable pub put : List (List ℕ) → ℕ → List ℕ → List (List ℕ) → Turns → Turns
put before n rest after t = record t {
  sending = before ++ drop n rest ∷ after;
  wire = t.wire ++ take n rest;
}

-- The coroutine that is left out of `others` returns from its `send_all`.
unfoldable pub send_returns : List (List ℕ) → Turns → Turns
unfolding release
send_returns others t = release (record t { sending = others })

-- Or its `send_all` throws; the guard is released all the same.
unfoldable pub send_throws : List (List ℕ) → Turns → Turns
unfolding release
send_throws others t = release (record t { sending = others; failed = true })
