-- ===== src/Task/Detached.antt =====
-- easyio/include/easyio/task.hpp: `spawn`, whose coroutine awaits a task for nobody, and what becomes of both
-- frames.
use easybd.Base.{
  ℕ, suc, ◌==◌, ◌≡◌, refl, sym, ap, ◌∙◌, List, [], ◌∷◌, Bool, true, false, Option, none, some,
  if◌then◌else◌,
}
use easybd.Task.{
  Outcome, returned, raised, Frame, Phase, running, suspended, is_over, new, await_ready,
  await_suspend, finish, final_suspend, take_result,
}

-- Where the coroutine of `spawn` is: at its `co_await`, at its end, or `std::terminate` was called.
pub data Place : Type 0 where
  awaiting gone terminated : Place

-- The frame of the task, which the parameter of `spawn` owns; the coroutine of `spawn`; and the frames
-- that were destroyed, newest first.
pub record Spawned {ℓ} (A : Type ℓ) : Type ℓ where
  pub task : Option (Frame A)
  pub place : Place
  pub destroyed : List ℕ

-- The handles of the two frames.
abbrev pub detached_frame : ℕ
detached_frame = 0

abbrev pub task_frame : ℕ
task_frame = 1

-- `await_ready` of `std::suspend_never`, which ends a coroutine of `spawn`.
abbrev pub suspend_never_ready : Bool
suspend_never_ready = true

-- How often a frame was destroyed.
abbrev pub times : ℕ → List ℕ → ℕ
times frame [] = 0
times frame (f ∷ fs) = let rest = times frame fs in if f == frame then suc rest else rest

module _ {ℓ} {A : Type ℓ} where
  -- `~Task`, which is `destroy`, of the parameter.
  unfoldable pub destroy_task : Spawned A → Spawned A
  destroy_task s = elim s.task [
    | none ↦ s
    | some t ↦ record s { task = none; destroyed = task_frame ∷ s.destroyed }
  ]

  -- The frame of a coroutine is destroyed: its parameter, then the frame itself.
  unfoldable pub destroy_detached : Spawned A → Spawned A
  unfolding destroy_task
  destroy_detached s =
      let s' = destroy_task s in record s' { destroyed = detached_frame ∷ s'.destroyed }

  -- The final `std::suspend_never`: is it ready, the coroutine goes on to its end and its frame is
  -- destroyed; otherwise it would stay, suspended.
  unfoldable pub end_detached : Spawned A → Spawned A
  unfolding destroy_detached
  end_detached s =
      let at_end = record s { place = gone } in
      if suspend_never_ready then destroy_detached at_end else at_end

  -- `await_resume` in the coroutine of `spawn`, and `return_void`. An exception reaches
  -- `unhandled_exception`, and so does the `std::bad_variant_access` of a task with no result.
  pub resume_detached : Frame A → Spawned A → Spawned A
  unfolding take_result
  resume_detached t s = elim (take_result t) [
    | some (returned v) ↦ end_detached s
    | some (raised e) ↦ record s { place = terminated }
    | none ↦ record s { place = terminated }
  ]

  -- `spawn(std::move(task))`
  unfoldable pub spawn : Frame A → Spawned A
  unfolding await_ready await_suspend resume_detached
  spawn t =
      let s : Spawned A = record { task = some t; place = awaiting; destroyed = [] } in
      if await_ready (some t)
      then resume_detached t s
      else record s { task = some (await_suspend detached_frame t) }

  -- The final suspension goes to the coroutine that awaits, if there is one.
  pub transfer : Option ℕ → Frame A → Spawned A → Spawned A
  unfolding resume_detached
  transfer none t s = record s { task = some t }
  transfer (some h) t s = resume_detached t (record s { task = some t })

  -- The task's body ends.
  pub end_task : Outcome A → Frame A → Spawned A → Spawned A
  unfolding finish transfer
  end_task o t s = transfer t.continuation (finish o t) s

  -- What may happen next to a spawned task.
  pub data Step (s : Spawned A) : Spawned A → Type ℓ where
    waits :
        (t : Frame A)
        → s.task ≡ some t
        → t.phase ≡ running
        → Step s (record s { task = some (record t { phase = suspended }) })
    goes_on :
        (t : Frame A)
        → s.task ≡ some t
        → t.phase ≡ suspended
        → Step s (record s { task = some (record t { phase = running }) })
    ends :
        (t : Frame A) (o : Outcome A)
        → s.task ≡ some t
        → t.phase ≡ running
        → Step s (end_task o t s)

  pub data Reach (s : Spawned A) : Spawned A → Type ℓ where
    here : Reach s s
    next : {t u : Spawned A} → Reach s t → Step t u → Reach s u

  -- Its task runs or waits, and nothing was destroyed.
  pub record IsPending (s : Spawned A) (t : Frame A) : Type ℓ where
    pub task : s.task ≡ some t
    pub runs : is_over t.phase ≡ false
    pub awaited : t.continuation ≡ some detached_frame
    pub kept : s.destroyed ≡ []

  -- Its task ended with an exception, and the process with it.
  pub record IsTerminated (s : Spawned A) (t : Frame A) (e : ℕ) : Type ℓ where
    pub task : s.task ≡ some t
    pub over : is_over t.phase ≡ true
    pub exception : take_result t ≡ some (raised e)
    pub kept : s.destroyed ≡ []

  -- Both frames were destroyed, each once.
  pub record IsFreed (s : Spawned A) : Type ℓ where
    pub task : s.task ≡ none
    pub task_once : times task_frame s.destroyed ≡ 1
    pub detached_once : times detached_frame s.destroyed ≡ 1

  pub data IsSpawned (s : Spawned A) : Type ℓ where
    pending : (t : Frame A) → IsPending s t → s.place ≡ awaiting → IsSpawned s
    freed : IsFreed s → s.place ≡ gone → IsSpawned s
    killed : (t : Frame A) (e : ℕ) → IsTerminated s t e → s.place ≡ terminated → IsSpawned s

  running_on :
      {t u : Frame A} {p : Phase}
      → is_over p ≡ false
      → t.phase ≡ p
      → u ≡ t
      → is_over u.phase ≡ false
  running_on n r e = ap (λ f. is_over f.phase) e ∙ ap is_over r ∙ n

  moves-IsSpawned :
      (s : Spawned A) (t : Frame A) (p q : Phase)
      → is_over p ≡ false
      → is_over q ≡ false
      → s.task ≡ some t
      → t.phase ≡ p
      → IsSpawned s
      → IsSpawned (record s { task = some (record t { phase = q }) })
  moves-IsSpawned s t p q n m e r (pending u w h) =
      let same : u ≡ t = cc in
      pending (record t { phase = q })
        (record {
          task = refl;
          runs = m;
          awaited = ap (λ f. f.continuation) (sym same) ∙ w.awaited;
          kept = w.kept;
        })
        h
  moves-IsSpawned s t p q n m e r (freed w h) = absurd (cc)
  moves-IsSpawned s t p q n m e r (killed u x w h) =
      let running_still = running_on {t = t} {u = u} n r (cc) in absurd (cc)

  -- What the end of a task that is pending makes of the two frames.
  pub record Ends (s : Spawned A) (t : Frame A) : Type ℓ where
    pub returns :
        (v : A) → IsFreed (end_task (returned v) t s) × ((end_task (returned v) t s).place ≡ gone)
    pub raises :
        (e : ℕ)
        → IsTerminated (end_task (raised e) t s) (finish (raised e) t) e
          × ((end_task (raised e) t s).place ≡ terminated)

  pending-Ends :
      (s : Spawned A) (t : Frame A)
      → t.continuation ≡ some detached_frame
      → s.destroyed ≡ []
      → Ends s t
  unfolding end_task transfer resume_detached end_detached destroy_detached destroy_task finish
      final_suspend take_result
  pending-Ends s t e k = record {
    returns = λ v. rw (e, k) (record { task = refl; task_once = refl; detached_once = refl }, refl);
    raises = λ x. rw e (record { task = refl; over = refl; exception = refl; kept = k }, refl);
  }

  outcome-IsSpawned :
      (s : Spawned A) (t : Frame A) (o : Outcome A) → Ends s t → IsSpawned (end_task o t s)
  outcome-IsSpawned s t (returned v) h = freed (h.returns v).0 (h.returns v).1
  outcome-IsSpawned s t (raised e) h = killed _ e (h.raises e).0 (h.raises e).1

  ends-IsSpawned :
      (s : Spawned A) (t : Frame A) (o : Outcome A)
      → s.task ≡ some t
      → t.phase ≡ running
      → IsSpawned s
      → IsSpawned (end_task o t s)
  ends-IsSpawned s t o e r (pending u w h) =
      let same : u ≡ t = cc in
      outcome-IsSpawned s t o
        (pending-Ends s t (ap (λ f. f.continuation) (sym same) ∙ w.awaited) w.kept)
  ends-IsSpawned s t o e r (freed w h) = absurd (cc)
  ends-IsSpawned s t o e r (killed u x w h) =
      let running_still = running_on {t = t} {u = u} refl r (cc) in absurd (cc)

  Step-IsSpawned : {s u : Spawned A} → Step s u → IsSpawned s → IsSpawned u
  Step-IsSpawned {s} (waits t e r) w = moves-IsSpawned s t running suspended refl refl e r w
  Step-IsSpawned {s} (goes_on t e r) w = moves-IsSpawned s t suspended running refl refl e r w
  Step-IsSpawned {s} (ends t o e r) w = ends-IsSpawned s t o e r w

  spawn-IsSpawned : IsSpawned (spawn new)
  unfolding spawn await_ready await_suspend new
  spawn-IsSpawned =
      pending (await_suspend detached_frame new)
        (record { task = refl; runs = refl; awaited = refl; kept = refl }) refl

  reached : {s : Spawned A} → Reach (spawn new) s → IsSpawned s
  reached here = spawn-IsSpawned
  reached (next r s) = Step-IsSpawned s (reached r)

  -- Whatever a spawned task waits for and however it ends: it is pending, awaited by the coroutine of
  -- `spawn`, with no frame destroyed; or both frames were destroyed, each once; or an exception left it and
  -- the process was terminated. From the first of these a task that returns leads to the second, and one
  -- that raises to the third.
  pub Reach-IsSpawned :
      {s : Spawned A}
      → Reach (spawn new) s
      → IsSpawned s × ((t : Frame A) → IsPending s t → Ends s t)
  Reach-IsSpawned {s} r = (reached r, λ t w. pending-Ends s t w.awaited w.kept)
