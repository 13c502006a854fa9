-- ===== src/Server/Stashed.antt =====
-- server.cpp: what holds of the threads of a server, and what a thread's turn does to the stashed exception.
use easybd.Base.{
  ℕ, ◌≡◌, refl, List, [], ◌∷◌, ◌++◌, Bool, true, false, ◌||◌, Option, none, some, arith, is_empty,
}
use easybd.Server.{
  Worker, creating, at_test, stepping, flagging, stopped, caught, Answer, fine, throws_error,
  worker_turn, step_to, stash_of, shutdown_of, Main, spawning, polling, joining, finished,
  unstarted, aborted, Threads,
}
use easybd.Server.Interleaving.{is_stopped, all_stopped, is_finished, caught_of}

abbrev pub first : List ℕ → Option ℕ
first [] = none
first (e ∷ es) = some e

abbrev pub is_flagging : Worker → Bool
is_flagging flagging = true
is_flagging creating = false
is_flagging at_test = false
is_flagging stepping = false
is_flagging stopped = false
is_flagging (caught e) = false

abbrev pub any_flagging : List Worker → Bool
any_flagging [] = false
any_flagging (w ∷ ws) = is_flagging w || any_flagging ws

-- What `run_server` rethrows, once it has ended.
abbrev pub Rethrows : Option ℕ → Main → Type 0
Rethrows stash (finished e) = e ≡ stash
Rethrows stash (spawning n) = Unit {0}
Rethrows stash polling = Unit {0}
Rethrows stash joining = Unit {0}
Rethrows stash aborted = Unit {0}
Rethrows stash (unstarted e) = Unit {0}

-- No thread is there when the first one could not be started.
abbrev pub Alone : List Worker → Main → Type 0
Alone ws (unstarted e) = ws ≡ []
Alone ws (finished e) = Unit {0}
Alone ws (spawning n) = Unit {0}
Alone ws polling = Unit {0}
Alone ws joining = Unit {0}
Alone ws aborted = Unit {0}

-- The descriptors are open as long as a thread has not returned; the stashed exception is the first that
-- was caught, and what `run_server` rethrows; and it was followed, or soon is, by a shutdown.
pub record IsSafe (t : Threads) (es : List ℕ) : Type 0 where
  pub held : is_finished t.main ≡ false → t.fds_open ≡ true
  pub over : is_finished t.main ≡ true → all_stopped t.workers ≡ true
  pub stashed : t.stash ≡ first es
  pub rethrown : Rethrows t.stash t.main
  pub alone : Alone t.workers t.main
  pub asked : is_empty es ≡ false → (t.shutdown || any_flagging t.workers) ≡ true

pub any_flagging-append :
    (xs ys : List Worker) → any_flagging (xs ++ ys) ≡ (any_flagging xs || any_flagging ys)
any_flagging-append [] ys = refl
any_flagging-append (x ∷ xs) ys = ground (arith, any_flagging-append xs ys)

pub stopped-stays :
    (x : Worker) (a : Answer) (b : Bool)
    → is_stopped x ≡ true
    → is_stopped (worker_turn a b x) ≡ true
unfolding worker_turn step_to
stopped-stays stopped a b h = refl
stopped-stays creating a b h = absurd (ground arith)
stopped-stays at_test a b h = absurd (ground arith)
stopped-stays stepping a b h = absurd (ground arith)
stopped-stays flagging a b h = absurd (ground arith)
stopped-stays (caught e) a b h = absurd (ground arith)

pub stash-stopped : (x : Worker) (st : Option ℕ) → is_stopped x ≡ true → stash_of x st ≡ st
unfolding stash_of
stash-stopped stopped st h = refl
stash-stopped creating st h = refl
stash-stopped at_test st h = refl
stash-stopped stepping st h = refl
stash-stopped flagging st h = refl
stash-stopped (caught e) st h = absurd (ground arith)

pub stash-first : (x : Worker) (es : List ℕ) → stash_of x (first es) ≡ first (caught_of x es)
unfolding stash_of
stash-first stopped es = refl
stash-first creating es = refl
stash-first at_test es = refl
stash-first stepping es = refl
stash-first flagging es = refl
stash-first (caught e) [] = refl
stash-first (caught e) (x ∷ es) = refl

pub asked-turn :
    (x : Worker) (a : Answer) (b f : Bool) (es : List ℕ)
    → (is_empty es ≡ false → (b || (is_flagging x || f)) ≡ true)
    → is_empty (caught_of x es) ≡ false
    → (shutdown_of x b || (is_flagging (worker_turn a b x) || f)) ≡ true
unfolding worker_turn step_to shutdown_of
asked-turn stopped a b f es s h = s h
asked-turn creating fine b f es s h = s h
asked-turn creating (throws_error e) b f es s h = s h
asked-turn at_test a b f es s h = ground (arith, s h)
asked-turn stepping fine b f es s h = s h
asked-turn stepping (throws_error e) b f es s h = s h
asked-turn flagging a b f es s h = refl
asked-turn (caught e) a b f es s h = ground arith
