-- ===== src/Server/Interleaving.antt =====
-- server.cpp: the threads of a server, in any interleaving.
use easybd.Base.{ℕ, suc, ◌≡◌, refl, List, [], ◌∷◌, ◌++◌, Bool, true, false, ◌&&◌, arith}
use easybd.Server.{
  Worker, creating, at_test, stepping, flagging, stopped, caught, Answer, worker_turn, stash_of,
  shutdown_of, Main, spawning, polling, joining, finished, unstarted, aborted, Threads, main_turn,
  start_fails,
}

abbrev pub is_stopped : Worker → Bool
is_stopped stopped = true
is_stopped creating = false
is_stopped at_test = false
is_stopped stepping = false
is_stopped flagging = false
is_stopped (caught e) = false

abbrev pub all_stopped : List Worker → Bool
all_stopped [] = true
all_stopped (w ∷ ws) = is_stopped w && all_stopped ws

abbrev pub is_finished : Main → Bool
is_finished (finished e) = true
is_finished (spawning n) = false
is_finished polling = false
is_finished joining = false
is_finished aborted = false
is_finished (unstarted e) = false

abbrev pub is_aborted : Main → Bool
is_aborted aborted = true
is_aborted (finished e) = false
is_aborted (unstarted e) = false
is_aborted (spawning n) = false
is_aborted polling = false
is_aborted joining = false

abbrev pub worker_moves : List Worker → Worker → Answer → List Worker → Threads → Threads
worker_moves before x a after t = record t {
  workers = before ++ worker_turn a t.shutdown x ∷ after;
  stash = stash_of x t.stash;
  shutdown = shutdown_of x t.shutdown;
}

abbrev pub main_moves : Threads → Threads
main_moves t = main_turn (all_stopped t.workers) t t.main

abbrev pub signalled : Threads → Threads
signalled t = record t { shutdown = true }

-- The exceptions that were caught, in the order in which they get the lock.
abbrev pub caught_of : Worker → List ℕ → List ℕ
caught_of (caught e) es = es ++ e ∷ []
caught_of creating es = es
caught_of at_test es = es
caught_of stepping es = es
caught_of flagging es = es
caught_of stopped es = es

-- A turn of a thread, of `run_server`, a thread that cannot be started, or SIGINT or SIGTERM.
pub data Step (t : Threads) (es : List ℕ) : Threads → List ℕ → Type 0 where
  works :
      (before : List Worker) (x : Worker) (a : Answer) (after : List Worker)
      → t.workers ≡ before ++ x ∷ after
      → is_aborted t.main ≡ false
      → Step t es (worker_moves before x a after t) (caught_of x es)
  runs : Step t es (main_moves t) es
  fails_to_start : (n e : ℕ) → t.main ≡ spawning (suc n) → Step t es (start_fails e t) es
  signals : Step t es (signalled t) es

pub data Reach (s : Threads) : Threads → List ℕ → Type 0 where
  here : Reach s s []
  next : {t u : Threads} {es fs : List ℕ} → Reach s t es → Step t es u fs → Reach s u fs

pub all_stopped-append :
    (xs ys : List Worker) → all_stopped (xs ++ ys) ≡ (all_stopped xs && all_stopped ys)
all_stopped-append [] ys = refl
all_stopped-append (x ∷ xs) ys = ground (arith, all_stopped-append xs ys)
