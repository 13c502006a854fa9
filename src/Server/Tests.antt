-- ===== src/Server/Tests.antt =====
-- server.cpp: a server of two threads, one of which fails to make its queue.
use easybd.Base.{◌≤◌, ◌≡◌, refl, [], ◌∷◌, true, false, none, some}
use easybd.Server.{
  Threads, run_server, main_turn, worker_turn, step_to, stash_of, creating, stepping, stopped,
  caught, fine, throws_error, joining, start_fails, aborted, unstarted,
}
use easybd.Server.Interleaving.{worker_moves, main_moves, works, runs, Reach, here, next}
use easybd.Server.Stashed.{IsSafe}
use easybd.Server.Safety.{Reach-IsSafe}
use easybd.Server.Shutdown
use easybd.Server.Shutdown.{Run, Turn, rank, is_over, Run-ends}

-- Both threads have started, and the second cannot make its queue.
abbrev started : Threads
started = main_moves (main_moves (run_server 2))

abbrev one_failed : Threads
one_failed = worker_moves (creating ∷ []) creating (throws_error 12) [] started

abbrev one_stashed : Threads
one_stashed = worker_moves (creating ∷ []) (caught 12) fine [] one_failed

one_stashed_first : one_stashed.stash ≡ some 12
unfolding run_server main_turn stash_of
one_stashed_first = refl

one_stashed-Reach : Reach (run_server 2) one_stashed (12 ∷ [])
unfolding run_server main_turn worker_turn step_to
one_stashed-Reach =
    next
      (next (next (next here runs) runs)
        (works (creating ∷ []) creating (throws_error 12) [] refl refl))
      (works (creating ∷ []) (caught 12) fine [] refl refl)

Reach-IsSafe_example : IsSafe one_stashed (12 ∷ [])
Reach-IsSafe_example = Reach-IsSafe 2 one_stashed-Reach

-- A shutdown while one thread waits in `step` and one has returned.
abbrev ending : Threads
ending = record {
  main = joining;
  workers = stopped ∷ stepping ∷ [];
  shutdown = true;
  stash = none;
  fds_open = true;
}

abbrev ended_step : Threads
ended_step = worker_moves (stopped ∷ []) stepping fine [] ending

Run-ends_example :
    (1 ≤ rank ending) × (is_over ended_step.main ≡ false → (u : Threads) × Turn ended_step u)
Run-ends_example =
    Run-ends refl
      (Shutdown.next Shutdown.here (Shutdown.works (stopped ∷ []) stepping fine [] refl refl refl))

-- The third of three threads cannot be started, and then the first of one.
third_fails : (start_fails 11 (main_moves (main_moves (run_server 3)))).main ≡ aborted
unfolding run_server main_turn start_fails
third_fails = refl

first_fails : (start_fails 11 (run_server 1)).main ≡ unstarted 11
unfolding run_server start_fails
first_fails = refl
