-- ===== src/Server/Safety.antt =====
-- server.cpp: the descriptors stay open while a thread may use them, and the first exception is rethrown.
use easybd.Base.{
  ℕ, zero, suc, ◌≡◌, refl, sym, ap, ◌∙◌, List, [], ◌∷◌, ◌++◌, true, false, ◌&&◌, ◌||◌, arith,
  Bool-cases, inl, inr,
}
use easybd.Server.{
  Worker, creating, Answer, worker_turn, stash_of, Main, spawning, polling, joining, finished,
  unstarted, aborted, Threads, run_server, main_turn, start_fails,
}
use easybd.Server.Interleaving.{
  is_stopped, all_stopped, is_finished, worker_moves, caught_of, Step, works, runs, fails_to_start,
  signals, Reach, here, next, all_stopped-append,
}
use easybd.Server.Stashed.{
  is_flagging, any_flagging, Rethrows, Alone, IsSafe, any_flagging-append, stopped-stays,
  stash-stopped, stash-first, asked-turn,
}

main_turn-IsSafe :
    (m : Main) (t : Threads) (es : List ℕ)
    → t.main ≡ m
    → IsSafe t es
    → IsSafe (main_turn (all_stopped t.workers) t m) es
unfolding main_turn
main_turn-IsSafe (spawning zero) t es e s = record {
  held = λ h. s.held (ap is_finished e);
  over = λ h. absurd (ground arith);
  stashed = s.stashed;
  rethrown = tt;
  alone = tt;
  asked = s.asked;
}
main_turn-IsSafe (spawning (suc n)) t es e s = record {
  held = λ h. s.held (ap is_finished e);
  over = λ h. absurd (ground arith);
  stashed = s.stashed;
  rethrown = tt;
  alone = tt;
  asked = ground (arith, s.asked, any_flagging-append t.workers (creating ∷ []));
}
main_turn-IsSafe polling t es e s = elim (Bool-cases t.shutdown) [
  | inl b ↦ rw b (record {
    held = λ h. s.held (ap is_finished e);
    over = λ h. absurd (ground arith);
    stashed = s.stashed;
    rethrown = tt;
    alone = tt;
    asked = λ h. refl;
  })
  | inr b ↦ rw b (record {
    held = s.held;
    over = s.over;
    stashed = s.stashed;
    rethrown = s.rethrown;
    alone = s.alone;
    asked = rw b at s.asked;
  })
]
main_turn-IsSafe joining t es e s = elim (Bool-cases (all_stopped t.workers)) [
  | inl b ↦ rw b (record {
    held = λ h. absurd (ground arith);
    over = λ h. b;
    stashed = s.stashed;
    rethrown = refl;
    alone = tt;
    asked = s.asked;
  })
  | inr b ↦ rw b s
]
main_turn-IsSafe (finished r) t es e s = s
main_turn-IsSafe (unstarted r) t es e s = s
main_turn-IsSafe aborted t es e s = s

no_thread : (before : List Worker) (x : Worker) (after : List Worker) → [] ≡ before ++ x ∷ after → ⊥
no_thread [] x after e = cc
no_thread (b ∷ before) x after e = cc

start_fails-IsSafe :
    (e : ℕ) (t : Threads) (es : List ℕ) (ws : List Worker)
    → t.workers ≡ ws
    → is_finished t.main ≡ false
    → IsSafe t es
    → IsSafe (start_fails e t) es
unfolding start_fails
start_fails-IsSafe e t es [] k h s = rw k (record {
  held = λ n. s.held h;
  over = λ n. absurd (ground arith);
  stashed = s.stashed;
  rethrown = tt;
  alone = refl;
  asked = rw k at s.asked;
})
start_fails-IsSafe e t es (w ∷ ws) k h s = rw k (record {
  held = λ n. s.held h;
  over = λ n. absurd (ground arith);
  stashed = s.stashed;
  rethrown = tt;
  alone = tt;
  asked = rw k at s.asked;
})

worker-IsSafe :
    (before : List Worker) (x : Worker) (a : Answer) (after : List Worker) (t : Threads)
    (es : List ℕ)
    → t.workers ≡ before ++ x ∷ after
    → IsSafe t es
    → IsSafe (worker_moves before x a after t) (caught_of x es)
worker-IsSafe before x a after t es e s = record {
  held = s.held;
  over = λ h. ground (arith, stays (s.over h));
  stashed = ap (stash_of x) s.stashed ∙ stash-first x es;
  rethrown = same_rethrown t.main refl;
  alone = not_alone t.main refl;
  asked = λ h.
      let y = worker_turn a t.shutdown x in
      let f = any_flagging before || any_flagging after in
      ground (
        arith,
        any_flagging-append before (y ∷ after),
        asked-turn x a t.shutdown f es (λ k. ground (arith, s.asked k, flagged)) h,
      );
}
  where
    was : all_stopped t.workers ≡ (all_stopped before && (is_stopped x && all_stopped after))
    was = ap all_stopped e ∙ all_stopped-append before (x ∷ after)

    stays :
        all_stopped t.workers ≡ true
        → all_stopped (before ++ worker_turn a t.shutdown x ∷ after) ≡ true
    stays h = ground (
      arith,
      was,
      all_stopped-append before (worker_turn a t.shutdown x ∷ after),
      stopped-stays x a t.shutdown,
    )

    flagged :
        any_flagging t.workers ≡ (any_flagging before || (is_flagging x || any_flagging after))
    flagged = ap any_flagging e ∙ any_flagging-append before (x ∷ after)

    stopped_over : is_finished t.main ≡ true → is_stopped x ≡ true
    stopped_over h = ground (arith, was, s.over h)

    not_alone :
        (m : Main) → t.main ≡ m → Alone (before ++ worker_turn a t.shutdown x ∷ after) t.main
    not_alone (spawning n) k = rw k tt
    not_alone polling k = rw k tt
    not_alone joining k = rw k tt
    not_alone aborted k = rw k tt
    not_alone (finished r) k = rw k tt
    not_alone (unstarted r) k =
        let none : t.workers ≡ [] = rw k at s.alone in
        absurd (no_thread before x after (sym none ∙ e))

    same_rethrown : (m : Main) → t.main ≡ m → Rethrows (stash_of x t.stash) t.main
    same_rethrown (spawning n) k = rw k tt
    same_rethrown polling k = rw k tt
    same_rethrown joining k = rw k tt
    same_rethrown aborted k = rw k tt
    same_rethrown (unstarted r) k = rw k tt
    same_rethrown (finished r) k =
        rw (stash-stopped x t.stash (stopped_over (ap is_finished k))) s.rethrown

Step-IsSafe : {t u : Threads} {es fs : List ℕ} → Step t es u fs → IsSafe t es → IsSafe u fs
Step-IsSafe {t} {es = es} (works before x a after e n) s = worker-IsSafe before x a after t es e s
Step-IsSafe {t} {es = es} runs s = main_turn-IsSafe t.main t es refl s
Step-IsSafe {t} {es = es} (fails_to_start n e h) s =
    start_fails-IsSafe e t es t.workers refl (ap is_finished h) s
Step-IsSafe signals s = record {
  held = s.held;
  over = s.over;
  stashed = s.stashed;
  rethrown = s.rethrown;
  alone = s.alone;
  asked = λ h. refl;
}

-- For any number of threads, however they, `run_server` and signals interleave, and whether or not all threads
-- can be started: the descriptors are open until `run_server` has joined its threads, and then every
-- thread has returned; when an exception leaves it before, no thread was started; what it rethrows is the first
-- exception that a thread caught, and nothing when none did; and once one was caught, a shutdown is
-- requested, or the thread that caught it is about to.
pub Reach-IsSafe :
    (threads : ℕ) {t : Threads} {es : List ℕ} → Reach (run_server threads) t es → IsSafe t es
unfolding run_server
Reach-IsSafe n here = record {
  held = λ h. refl;
  over = λ h. absurd (ground arith);
  stashed = refl;
  rethrown = tt;
  alone = tt;
  asked = λ h. absurd (ground arith);
}
Reach-IsSafe n (next r s) = Step-IsSafe s (Reach-IsSafe n r)
