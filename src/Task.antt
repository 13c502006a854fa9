-- ===== src/Task.antt =====
-- easyio/include/easyio/task.hpp: a coroutine that is a `Task`, from its creation to its end. Who owns
-- its frame is in Owning.
pub mod Life
pub mod Detached
mod Tests
use easybd.Base.{ℕ, List, [], ◌∷◌, ◌++◌, Bool, true, false, ◌||◌, Option, none, some}

-- What a body ends with: `return_value`, or the exception of `unhandled_exception`.
pub data Outcome {ℓ} (A : Type ℓ) : Type ℓ where
  returned : A → Outcome A
  raised : ℕ → Outcome A

-- Where a body is: at `initial_suspend`, running, suspended at a `co_await` of its own, or at its final
-- suspension.
pub data Phase : Type 0 where
  created running suspended over : Phase

-- The frame with its promise: `resumed` is the coroutines that the final suspension resumed.
pub record Frame {ℓ} (A : Type ℓ) : Type ℓ where
  pub phase : Phase
  pub continuation : Option ℕ
  pub result : Option (Outcome A)
  pub resumed : List ℕ

abbrev pub is_over : Phase → Bool
is_over over = true
is_over created = false
is_over running = false
is_over suspended = false

-- Who awaits a task.
abbrev pub awaiters : Option ℕ → List ℕ
awaiters none = []
awaiters (some c) = c ∷ []

module _ {ℓ} {A : Type ℓ} where
  -- `get_return_object` and `initial_suspend`
  pub new : Frame A
  new = record { phase = created; continuation = none; result = none; resumed = [] }

  -- `await_ready`, for a task that has a frame or has none.
  pub await_ready : Option (Frame A) → Bool
  await_ready none = true
  await_ready (some t) = is_over t.phase

  -- `await_suspend`: the frame that it returns is resumed.
  pub await_suspend : ℕ → Frame A → Frame A
  await_suspend awaiting t = record t { continuation = some awaiting; phase = running }

  -- `start`
  pub start : Frame A → Frame A
  start t = elim t.phase [
    | over ↦ t
    | created ↦ record t { phase = running }
    | running ↦ record t { phase = running }
    | suspended ↦ record t { phase = running }
  ]

  -- `FinalAwaiter::await_suspend`: whoever awaits is resumed, or `noop_coroutine`.
  pub final_suspend : Frame A → Frame A
  final_suspend t = record t { phase = over; resumed = t.resumed ++ awaiters t.continuation }

  -- `return_value` or `unhandled_exception`, and the final suspension.
  pub finish : Outcome A → Frame A → Frame A
  unfolding final_suspend
  finish o t = final_suspend (record t { result = some o })

  -- `take_result`, none when there is no result.
  pub take_result : Frame A → Option (Outcome A)
  take_result t = t.result
