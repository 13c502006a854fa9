-- ===== src/Task/Tests.antt =====
-- task.hpp: a task that is awaited, waits once, and returns 7.
use easybd.Base.{ℕ, ◌≡◌, refl, [], ◌∷◌, some}
use easybd.Task.{
  await_ready, returned, Frame, running, suspended, new, await_suspend, final_suspend, finish,
  take_result,
}
use easybd.Task.Detached
use easybd.Task.Detached.{
  Spawned, spawn, detached_frame, IsSpawned, IsPending, Ends, Reach-IsSpawned,
}
use easybd.Task.Life.{Reach, here, next, awaits, waits, goes_on, ends, IsAwaited, Reach-IsAwaited}

abbrev awaited : Frame ℕ
awaited = await_suspend 3 new

abbrev ended : Frame ℕ
ended = finish (returned 7) (record (record awaited { phase = suspended }) { phase = running })

ended_resumed : ended.resumed ≡ 3 ∷ []
unfolding new await_suspend finish final_suspend
ended_resumed = refl

ended_result : take_result ended ≡ some (returned 7)
unfolding take_result finish final_suspend
ended_result = refl

ended-Reach : Reach new (some 3) ended
unfolding new await_suspend
ended-Reach =
    next (next (next (next here (awaits 3 refl)) (waits refl)) (goes_on refl))
      (ends (returned 7) refl)

Reach-IsAwaited_example : IsAwaited (some 3) ended
Reach-IsAwaited_example = Reach-IsAwaited ended-Reach

-- The same task, spawned: it waits once.
abbrev spawned : Spawned ℕ
spawned = spawn new

abbrev running_spawned : Frame ℕ
running_spawned = await_suspend detached_frame new

abbrev spawned_waits : Spawned ℕ
spawned_waits = record spawned { task = some (record running_spawned { phase = suspended }) }

waits_once : Detached.Reach spawned spawned_waits
unfolding spawn await_ready await_suspend new
waits_once = Detached.Reach.next Detached.Reach.here (Detached.Step.waits running_spawned refl refl)

Reach-IsSpawned_example :
    IsSpawned spawned_waits × ((t : Frame ℕ) → IsPending spawned_waits t → Ends spawned_waits t)
Reach-IsSpawned_example = Reach-IsSpawned waits_once
