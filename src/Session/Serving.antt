-- ===== src/Session/Serving.antt =====
-- session.cpp: the handlers that `handle_connection` has spawned, in any interleaving, with the lock and the
-- wait group that they share, and the end of the connection.
pub mod Parts
pub mod Invariant
pub mod Ended
use easybd.Base.{
  ℕ, suc, ◌+◌, ◌≡◌, List, [], ◌∷◌, ◌++◌, Bool, true, false, Option, none, some, if◌then◌else◌,
}
use easybd.WaitGroup
use easybd.WaitGroup.{WaitGroup}
use easybd.Turns
use easybd.Turns.{Turns, enter, put, send_returns, send_throws}
use easybd.Wire.{ByteOrder}
use easybd.Session.{Job, write_job, read_job, error_job}
use easybd.Session.Handlers.{Device, Response, run_job, response_bytes}

-- Where the coroutine of `handle_connection` is: in its loop, in `co_await wg.wait()`, or at its end.
pub data Stage : Type 0 where
  reading waiting over : Stage

module _ (device : Device) where
  -- The coroutines of one connection: the jobs that its loop has still to spawn; the handlers whose I/O on
  -- the backing file is in flight, by handle; those that send or wait to; how many have released the
  -- guard and not yet called `wg.done()`; `wg`; the coroutine of the connection itself; the backing file;
  -- how many were spawned; and the jobs that are over: those whose I/O completed, in that order, and
  -- those whose handler threw before it.
  pub record Serving : Type 0 where
    pub to_spawn : List Job
    pub working : List (ℕ × Job)
    pub turns : Turns
    pub leaving : ℕ
    pub group : WaitGroup
    pub stage : Stage
    pub file : device.State
    pub spawned : ℕ
    pub completed : List Job
    pub lost : List Job

  abbrev pub start : List Job → device.State → Serving
  start jobs d = record {
    to_spawn = jobs;
    working = [];
    turns = Turns.new;
    leaving = 0;
    group = WaitGroup.new;
    stage = reading;
    file = d;
    spawned = 0;
    completed = [];
    lost = [];
  }

  -- `wg.add(); easyio::spawn(tracked(…));`
  unfoldable pub spawn_next : Job → List Job → Serving → Serving
  spawn_next j later s = record s {
    to_spawn = later;
    working = s.working ++ (s.spawned, j) ∷ [];
    group = WaitGroup.add s.group;
    spawned = s.spawned + 1;
  }

  -- The I/O of the handler `h` completes, and it asks for the lock with its response; `send_error`
  -- does the same with no I/O.
  unfoldable pub respond : ByteOrder → List (ℕ × Job) → ℕ → Job → List (ℕ × Job) → Serving → Serving
  respond order before h j after s =
      let (x, d) = run_job device s.file j in
      record s {
        working = before ++ after;
        turns = enter h (response_bytes order x) s.turns;
        file = d;
        completed = s.completed ++ j ∷ [];
      }

  -- The `AlignedBuffer` of `handle_read` throws `std::bad_alloc`.
  unfoldable pub run_out : List (ℕ × Job) → Job → List (ℕ × Job) → Serving → Serving
  run_out before j after s = record s {
    working = before ++ after;
    leaving = suc s.leaving;
    lost = s.lost ++ j ∷ [];
  }

  unfoldable pub send_part : List (List ℕ) → ℕ → List ℕ → List (List ℕ) → Serving → Serving
  send_part before n rest after s = record s { turns = put before n rest after s.turns }

  -- The `send_all` of a handler returns, or throws, which `tracked` catches.
  unfoldable pub handler_returns : List (List ℕ) → Serving → Serving
  handler_returns others s = record s {
    turns = send_returns others s.turns;
    leaving = suc s.leaving;
  }

  unfoldable pub handler_throws : List (List ℕ) → Serving → Serving
  handler_throws others s = record s { turns = send_throws others s.turns; leaving = suc s.leaving }

  abbrev pub resumed : Option ℕ → Stage → Stage
  resumed none stage = stage
  resumed (some h) stage = over

  -- `wg.done()` in `tracked`, which resumes the connection's coroutine after the last handler.
  unfoldable pub leave : ℕ → Serving → Serving
  leave n s =
      let (woken, g) = WaitGroup.done s.group in
      record s { leaving = n; group = g; stage = resumed woken s.stage }

  -- The loop of `handle_connection` has ended: `co_await wg.wait()`.
  unfoldable pub read_ends : Serving → Serving
  read_ends s =
      let (at_once, g) = WaitGroup.wait 0 s.group in
      record s { group = g; stage = if at_once then over else waiting }

  -- What may happen next on a connection.
  pub data Step (order : ByteOrder) (s : Serving) : Serving → Type 0 where
    spawns :
        (j : Job) (later : List Job)
        → s.stage ≡ reading
        → s.to_spawn ≡ j ∷ later
        → Step order s (spawn_next j later s)
    responds :
        (before : List (ℕ × Job)) (h : ℕ) (j : Job) (after : List (ℕ × Job))
        → s.working ≡ before ++ (h, j) ∷ after
        → Step order s (respond order before h j after s)
    runs_out :
        (before : List (ℕ × Job)) (h cid offset size : ℕ) (after : List (ℕ × Job))
        → s.working ≡ before ++ (h, read_job cid offset size) ∷ after
        → Step order s (run_out before (read_job cid offset size) after s)
    sends :
        (before : List (List ℕ)) (n : ℕ) (rest : List ℕ) (after : List (List ℕ))
        → s.turns.sending ≡ before ++ rest ∷ after
        → Step order s (send_part before n rest after s)
    returns :
        (before after : List (List ℕ))
        → s.turns.sending ≡ before ++ [] ∷ after
        → Step order s (handler_returns (before ++ after) s)
    throws :
        (before : List (List ℕ)) (rest : List ℕ) (after : List (List ℕ))
        → s.turns.sending ≡ before ++ rest ∷ after
        → Step order s (handler_throws (before ++ after) s)
    leaves : (n : ℕ) → s.leaving ≡ suc n → Step order s (leave n s)
    reads_end : s.stage ≡ reading → s.to_spawn ≡ [] → Step order s (read_ends s)

  -- Any number of steps.
  pub data Reach (order : ByteOrder) (s : Serving) : Serving → Type 0 where
    here : Reach order s s
    next : {t u : Serving} → Reach order s t → Step order t u → Reach order s u
