-- ===== src/Mutex.antt =====
-- easyio/include/easyio/mutex.hpp: the lock of coroutines on one thread.
pub mod Fifo
mod Tests
use easybd.Base.{ℕ, List, [], ◌∷◌, ◌++◌, Bool, true, false, Option, none, some}

-- `Mutex`: a waiting coroutine is a number.
pub record Mutex : Type 0 where
  pub locked : Bool
  pub waiters : List ℕ

abbrev pub new : Mutex
new = record { locked = false; waiters = [] }

-- `LockAwaiter::await_ready`
unfoldable pub await_ready : Mutex → Bool × Mutex
await_ready m = elim m.locked [ false ↦ (true, record m { locked = true }) | true ↦ (false, m) ]

-- `LockAwaiter::await_suspend`
unfoldable pub await_suspend : ℕ → Mutex → Mutex
await_suspend h m = record m { waiters = m.waiters ++ h ∷ [] }

-- `co_await lock()` of `h`: who holds the lock then, if it does at once.
unfoldable pub lock : ℕ → Mutex → Option ℕ × Mutex
unfolding await_ready await_suspend
lock h m =
    let (ready, m') = await_ready m in
    elim ready [ true ↦ (some h, m') | false ↦ (none, await_suspend h m') ]

-- `unlock`: the coroutine that is resumed, if any.
unfoldable pub unlock : Mutex → Option ℕ × Mutex
unlock m = elim m.waiters [
  | h ∷ hs ↦ (some h, record m { waiters = hs })
  | [] ↦ (none, record m { locked = false })
]
