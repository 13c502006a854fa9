-- ===== src/Server/Shutdown.antt =====
-- server.cpp: once a shutdown is requested, the server ends.
use easybd.Base.{
  ℕ, zero, suc, ◌+◌, ◌*◌, ◌<◌, ◌≤◌, ◌≡◌, refl, ap, ◌∙◌, List, [], ◌∷◌, ◌++◌, Bool, true, false, not,
  arith, Bool-cases, inl, inr,
}
use easybd.Server.{
  Worker, creating, at_test, stepping, flagging, stopped, caught, Answer, fine, throws_error,
  worker_turn, step_to, shutdown_of, Main, spawning, polling, joining, finished, unstarted, aborted,
  Threads, main_turn, start_fails,
}
use easybd.Server.Interleaving.{is_stopped, is_aborted, all_stopped, worker_moves, main_moves}

-- How many turns a thread takes at most, once a shutdown is requested.
abbrev pub turns_left : Worker → ℕ
turns_left stopped = 0
turns_left at_test = 1
turns_left flagging = 1
turns_left (caught e) = 2
turns_left stepping = 3
turns_left creating = 4

abbrev pub all_turns : List Worker → ℕ
all_turns [] = 0
all_turns (w ∷ ws) = turns_left w + all_turns ws

abbrev pub main_turns : Main → ℕ
main_turns (finished e) = 0
main_turns joining = 1
main_turns aborted = 0
main_turns (unstarted e) = 0
main_turns polling = 2
main_turns (spawning n) = 3 + 5 * n

abbrev pub rank : Threads → ℕ
rank t = main_turns t.main + all_turns t.workers

-- `run_server` sleeps or is in a join, or has ended.
abbrev pub waits : Bool → Bool → Main → Bool
waits joined shutdown (finished e) = true
waits joined shutdown (unstarted e) = true
waits joined shutdown aborted = true
waits joined shutdown joining = not joined
waits joined shutdown polling = not shutdown
waits joined shutdown (spawning n) = false

-- `run_server` has ended, by returning or by an exception, or the process has.
abbrev pub is_over : Main → Bool
is_over (finished e) = true
is_over (unstarted e) = true
is_over aborted = true
is_over joining = false
is_over polling = false
is_over (spawning n) = false

-- A turn of a thread that has not returned, or of `run_server` when it does not wait, or a thread that cannot be
-- started.
pub data Turn (t : Threads) : Threads → Type 0 where
  works :
      (before : List Worker) (x : Worker) (a : Answer) (after : List Worker)
      → t.workers ≡ before ++ x ∷ after
      → is_stopped x ≡ false
      → is_aborted t.main ≡ false
      → Turn t (worker_moves before x a after t)
  runs : waits (all_stopped t.workers) t.shutdown t.main ≡ false → Turn t (main_moves t)
  fails_to_start : (n e : ℕ) → t.main ≡ spawning (suc n) → Turn t (start_fails e t)

-- So many turns, in any interleaving.
pub data Run (s : Threads) : ℕ → Threads → Type 0 where
  here : Run s 0 s
  next : {n : ℕ} {t u : Threads} → Run s n t → Turn t u → Run s (suc n) u

all_turns-append : (xs ys : List Worker) → all_turns (xs ++ ys) ≡ all_turns xs + all_turns ys
all_turns-append [] ys = omega arith
all_turns-append (x ∷ xs) ys = omega (arith, all_turns-append xs ys)

turns_left-turn :
    (x : Worker) (a : Answer)
    → is_stopped x ≡ false
    → turns_left (worker_turn a true x) < turns_left x
unfolding worker_turn step_to
turns_left-turn stopped a h = absurd (ground arith)
turns_left-turn at_test a h = omega arith
turns_left-turn flagging a h = omega arith
turns_left-turn (caught e) a h = omega arith
turns_left-turn stepping fine h = omega arith
turns_left-turn stepping (throws_error e) h = omega arith
turns_left-turn creating fine h = omega arith
turns_left-turn creating (throws_error e) h = omega arith

shutdown-stays : (x : Worker) → shutdown_of x true ≡ true
unfolding shutdown_of
shutdown-stays stopped = refl
shutdown-stays at_test = refl
shutdown-stays flagging = refl
shutdown-stays (caught e) = refl
shutdown-stays stepping = refl
shutdown-stays creating = refl

-- A turn under a requested shutdown.
record Nears (t u : Threads) : Type 0 where
  still : u.shutdown ≡ true
  nearer : rank u < rank t

main-Nears :
    (m : Main) (t : Threads)
    → t.main ≡ m
    → t.shutdown ≡ true
    → waits (all_stopped t.workers) t.shutdown m ≡ false
    → Nears t (main_turn (all_stopped t.workers) t m)
unfolding main_turn
main-Nears (spawning zero) t e s h = record { still = s; nearer = omega (arith, ap main_turns e) }
main-Nears (spawning (suc n)) t e s h = record {
  still = s;
  nearer = omega (arith, ap main_turns e, all_turns-append t.workers (creating ∷ []));
}
main-Nears polling t e s h = rw s (record { still = refl; nearer = omega (arith, ap main_turns e) })
main-Nears joining t e s h = elim (Bool-cases (all_stopped t.workers)) [
  | inl b ↦ rw b (record { still = s; nearer = omega (arith, ap main_turns e) })
  | inr b ↦ absurd (ground arith)
]
main-Nears (finished r) t e s h = absurd (ground arith)
main-Nears (unstarted r) t e s h = absurd (ground arith)
main-Nears aborted t e s h = absurd (ground arith)

start_fails-Nears :
    (n e : ℕ) (t : Threads) (ws : List Worker)
    → t.workers ≡ ws
    → t.main ≡ spawning (suc n)
    → t.shutdown ≡ true
    → Nears t (start_fails e t)
unfolding start_fails
start_fails-Nears n e t [] k h s =
    rw k (record { still = s; nearer = omega (arith, ap main_turns h, ap all_turns k) })
start_fails-Nears n e t (w ∷ ws) k h s =
    rw k (record { still = s; nearer = omega (arith, ap main_turns h, ap all_turns k) })

Turn-Nears : {t u : Threads} → t.shutdown ≡ true → Turn t u → Nears t u
Turn-Nears {t} s (runs h) = main-Nears t.main t refl s h
Turn-Nears {t} s (fails_to_start n e h) = start_fails-Nears n e t t.workers refl h s
Turn-Nears {t} s (works before x a after e h k) = record {
  still = ap (shutdown_of x) s ∙ shutdown-stays x;
  nearer = omega (
    arith,
    ap all_turns e,
    all_turns-append before (x ∷ after),
    all_turns-append before (worker_turn a t.shutdown x ∷ after),
    ap (λ b. turns_left (worker_turn a b x)) s,
    turns_left-turn x a h,
  );
}

Run-shutdown :
    {s t : Threads} {n : ℕ}
    → s.shutdown ≡ true
    → Run s n t
    → (t.shutdown ≡ true) × (n + rank t ≤ rank s)
Run-shutdown s here = (s, omega arith)
Run-shutdown s (next r x) =
    let y = Run-shutdown s r in let z = Turn-Nears y.0 x in (z.still, omega (arith, y.1, z.nearer))

-- A thread that has not returned.
find_running :
    (ws : List Worker)
    → all_stopped ws ≡ false
    → (before : List Worker) × (x : Worker) × (after : List Worker) × (ws ≡ before ++ x ∷ after)
      × (is_stopped x ≡ false)
find_running [] h = absurd (ground arith)
find_running (w ∷ ws) h = elim (Bool-cases (is_stopped w)) [
  | inr b ↦ ([], w, ws, refl, b)
  | inl b ↦
      let (before, x, after, e, k) = find_running ws (ground arith) in
      (w ∷ before, x, after, ap (λ l. w ∷ l) e, k)
]

progress : (t : Threads) → t.shutdown ≡ true → is_over t.main ≡ false → (u : Threads) × Turn t u
progress t s f = go t.main refl
  where
    main_goes :
        (m : Main)
        → t.main ≡ m
        → waits (all_stopped t.workers) t.shutdown m ≡ false
        → (u : Threads) × Turn t u
    main_goes m e h = (main_moves t, runs (ap (waits (all_stopped t.workers) t.shutdown) e ∙ h))

    go : (m : Main) → t.main ≡ m → (u : Threads) × Turn t u
    go (spawning n) e = main_goes (spawning n) e refl
    go polling e = main_goes polling e (ap not s)
    go (finished r) e = absurd (ground (arith, f, ap is_over e))
    go (unstarted r) e = absurd (ground (arith, f, ap is_over e))
    go aborted e = absurd (ground (arith, f, ap is_over e))
    go joining e = elim (Bool-cases (all_stopped t.workers)) [
      | inl b ↦ main_goes joining e (ap not b)
      | inr b ↦
          let (before, x, after, k, h) = find_running t.workers b in
          (worker_moves before x fine after t, works before x fine after k h (ap is_aborted e))
    ]

-- Once a shutdown is requested, however the turns of the threads and of `run_server` interleave, each of
-- which returns: there are at most `rank` more of them, and as long as `run_server` has not ended there is
-- one that can be taken; so every thread returns and `run_server` ends, unless a thread cannot be started
-- and the process ends first.
pub Run-ends :
    {s t : Threads} {n : ℕ}
    → s.shutdown ≡ true
    → Run s n t
    → (n ≤ rank s) × (is_over t.main ≡ false → (u : Threads) × Turn t u)
Run-ends {t = t} s r = let y = Run-shutdown s r in (omega (arith, y.1), progress t y.0)
