-- ===== src/Session/Serving/Invariant.antt =====
-- What holds in every interleaving of the handlers of a connection.
use mathlib.Core.List.{Permᴰ}
use mathlib.Core.List.Permᴰ as Perm
use easybd.Base.{
  ℕ, zero, suc, ◌+◌, ◌≡◌, refl, sym, ap, ◌∙◌, subst, List, [], ◌∷◌, ◌++◌, map, none, arith,
  append_assoc, length, if◌then◌else◌, length-append,
}
use easybd.Base.Int.{pos}
use easybd.WaitGroup
use easybd.WaitGroup.{WaitGroup, increment, decrement}
use easybd.Turns.{Turns, enter, put, send_returns, send_throws}
use easybd.Turns.Whole.{
  IsWhole, asked, map-append_one, enter-IsWhole, put-IsWhole, send_returns-IsWhole,
  send_throws-IsWhole,
}
use easybd.Turns.Busy.{busy, busy-enter, busy-put, busy-send_returns, busy-send_throws}
use easybd.Wire.{ByteOrder}
use easybd.Session.{Job}
use easybd.Session.Handlers.{Device, run_job, run_jobs, response_bytes}
use easybd.Session.Serving.{
  Stage, reading, waiting, over, Serving, start, spawn_next, respond, run_out, send_part,
  handler_returns, handler_throws, resumed, leave, read_ends, Step, Reach,
}
use easybd.Session.Serving.Parts.{
  jobs_of, jobs_of-append, Staged, completes, is_lost, length_one_less, run_jobs-append_one, live,
  IsServed,
}

module _ (device : Device) where
  module _ (order : ByteOrder) (jobs : List Job) (d : device.State) (s : Serving device)
      (v : IsServed device order jobs d s) where
    spawn_next-IsServed :
        (j : Job) (later : List Job)
        → s.stage ≡ reading
        → s.to_spawn ≡ j ∷ later
        → IsServed device order jobs d (spawn_next device j later s)
    unfolding spawn_next WaitGroup.add
    spawn_next-IsServed j later r e = record {
      whole = v.whole;
      parts =
          subst (λ l. Permᴰ (s.completed ++ (s.lost ++ l)) jobs)
            (ap (λ t. jobs_of s.working ++ t) e
              ∙ sym (append_assoc (jobs_of s.working) (j ∷ []) later)
              ∙ ap (λ l. l ++ later) (sym (jobs_of-append s.working ((s.spawned, j) ∷ []))))
            v.parts;
      answered = v.answered;
      file = v.file;
      counted =
          ap increment v.counted
          ∙ ap pos (omega (arith, length-append s.working ((s.spawned, j) ∷ [])));
      staged = rw r (rw r at (v.staged));
    }

    -- A step that moves a handler on, and leaves the wait group alone.
    counted_as : (n : ℕ) → n ≡ live device s → s.group.remaining ≡ pos n
    counted_as n e = v.counted ∙ ap pos (sym e)

    staged_as : (n : ℕ) → n ≡ live device s → Staged s.stage s.group.waiter s.to_spawn n
    staged_as n e = subst (λ k. Staged s.stage s.group.waiter s.to_spawn k) (sym e) v.staged

    working_as :
        (before : List (ℕ × Job)) (h : ℕ) (j : Job) (after : List (ℕ × Job))
        → s.working ≡ before ++ (h, j) ∷ after
        → jobs_of s.working ≡ jobs_of before ++ j ∷ jobs_of after
    working_as before h j after e = ap jobs_of e ∙ jobs_of-append before ((h, j) ∷ after)

    respond-IsServed :
        (before : List (ℕ × Job)) (h : ℕ) (j : Job) (after : List (ℕ × Job))
        → s.working ≡ before ++ (h, j) ∷ after
        → IsServed device order jobs d (respond device order before h j after s)
    unfolding respond
    respond-IsServed before h j after e =
        let msg = response_bytes order (run_job device s.file j).0 in
        let (w, a) = enter-IsWhole h msg s.turns v.whole in
        let ran = run_jobs-append_one device d s.completed j in
        let q : length (before ++ after) + busy (enter h msg s.turns) + s.leaving ≡ live device s =
          omega
            (arith, busy-enter h msg s.turns, length_one_less before (h, j) after s.working e) in
        record {
          whole = w;
          parts =
              Permᴰ.trans
                (rw (jobs_of-append before after)
                  (completes s.completed s.lost (jobs_of before) j (jobs_of after) s.to_spawn))
                (subst (λ l. Permᴰ (s.completed ++ (s.lost ++ (l ++ s.to_spawn))) jobs)
                  (working_as before h j after e) v.parts);
          answered =
              ap (λ r. map (response_bytes order) r.0) ran
              ∙ map-append_one (response_bytes order) (run_jobs device d s.completed).0 _
              ∙ ap
                  (λ f.
                    map (response_bytes order) (run_jobs device d s.completed).0
                    ++ response_bytes order (run_job device f j).0 ∷ [])
                  v.file
              ∙ ap (λ l. l ++ msg ∷ []) v.answered
              ∙ sym a;
          file = ap (λ r. r.1) ran ∙ ap (λ f. (run_job device f j).1) v.file;
          counted = counted_as _ q;
          staged = staged_as _ q;
        }

    run_out-IsServed :
        (before : List (ℕ × Job)) (h : ℕ) (j : Job) (after : List (ℕ × Job))
        → s.working ≡ before ++ (h, j) ∷ after
        → IsServed device order jobs d (run_out device before j after s)
    unfolding run_out
    run_out-IsServed before h j after e =
        let q : length (before ++ after) + busy s.turns + suc s.leaving ≡ live device s =
          omega (arith, length_one_less before (h, j) after s.working e) in
        record {
          whole = v.whole;
          parts =
              Permᴰ.trans
                (rw (jobs_of-append before after)
                  (is_lost s.completed s.lost (jobs_of before) j (jobs_of after) s.to_spawn))
                (subst (λ l. Permᴰ (s.completed ++ (s.lost ++ (l ++ s.to_spawn))) jobs)
                  (working_as before h j after e) v.parts);
          answered = v.answered;
          file = v.file;
          counted = counted_as _ q;
          staged = staged_as _ q;
        }

    -- A step of the handlers that take turns.
    turns-IsServed :
        (t : Turns) (n : ℕ)
        → IsWhole t
        → asked t ≡ asked s.turns
        → n + busy t ≡ s.leaving + busy s.turns
        → IsServed device order jobs d (record s { turns = t; leaving = n })
    turns-IsServed t n w a b =
        let q : length s.working + busy t + n ≡ live device s = omega arith in
        record {
          whole = w;
          parts = v.parts;
          answered = v.answered ∙ sym a;
          file = v.file;
          counted = counted_as _ q;
          staged = staged_as _ q;
        }

    send_part-IsServed :
        (before : List (List ℕ)) (n : ℕ) (rest : List ℕ) (after : List (List ℕ))
        → s.turns.sending ≡ before ++ rest ∷ after
        → IsServed device order jobs d (send_part device before n rest after s)
    unfolding send_part
    send_part-IsServed before n rest after e =
        let (w, a) = put-IsWhole before n rest after s.turns e v.whole in
        turns-IsServed (put before n rest after s.turns) s.leaving w a
          (omega (arith, busy-put before n rest after s.turns e))

    handler_returns-IsServed :
        (before after : List (List ℕ))
        → s.turns.sending ≡ before ++ [] ∷ after
        → IsServed device order jobs d (handler_returns device (before ++ after) s)
    unfolding handler_returns
    handler_returns-IsServed before after e =
        let (w, a) = send_returns-IsWhole before after s.turns e v.whole in
        turns-IsServed (send_returns (before ++ after) s.turns) (suc s.leaving) w a
          (omega (arith, busy-send_returns before after s.turns e v.whole))

    handler_throws-IsServed :
        (before : List (List ℕ)) (rest : List ℕ) (after : List (List ℕ))
        → s.turns.sending ≡ before ++ rest ∷ after
        → IsServed device order jobs d (handler_throws device (before ++ after) s)
    unfolding handler_throws
    handler_throws-IsServed before rest after e =
        let (w, a) = send_throws-IsWhole before rest after s.turns e v.whole in
        turns-IsServed (send_throws (before ++ after) s.turns) (suc s.leaving) w a
          (omega (arith, busy-send_throws before rest after s.turns e v.whole))

    -- What `wg.done()` and `wg.wait()` make of the stage.
    after_done :
        (stage : Stage) (m : ℕ)
        → Staged stage s.group.waiter s.to_spawn (suc m)
        → let (woken, g) = WaitGroup.done s.group in
          s.group.remaining ≡ pos (suc m)
          → (g.remaining ≡ pos m) × Staged (resumed device woken stage) g.waiter s.to_spawn m
    unfolding WaitGroup.done
    after_done reading zero w e = rw (e, w) (refl, refl)
    after_done reading (suc m) w e = rw (e, w) (refl, refl)
    after_done waiting zero (w, t, l) e = rw (e, w) (refl, (t, refl))
    after_done waiting (suc m) (w, t, l) e = rw (e, w) (refl, (refl, t, omega arith))
    after_done over m w e = absurd (omega arith)

    leave-IsServed : (n : ℕ) → s.leaving ≡ suc n → IsServed device order jobs d (leave device n s)
    unfolding leave
    leave-IsServed n e =
        let m = length s.working + busy s.turns + n in
        let q : suc m ≡ live device s = omega arith in
        let (c, t) = after_done s.stage m (staged_as (suc m) q) (counted_as (suc m) q) in
        record {
          whole = v.whole;
          parts = v.parts;
          answered = v.answered;
          file = v.file;
          counted = c;
          staged = t;
        }

    after_wait :
        (m : ℕ)
        → s.to_spawn ≡ []
        → s.group.waiter ≡ none
        → s.group.remaining ≡ pos m
        → let (at_once, g) = WaitGroup.wait 0 s.group in
          (g.remaining ≡ pos m) × Staged (if at_once then over else waiting) g.waiter s.to_spawn m
    unfolding WaitGroup.wait
    after_wait zero t w e = rw e (refl, (t, refl))
    after_wait (suc m) t w e = rw e (refl, (refl, t, omega arith))

    read_ends-IsServed :
        s.stage ≡ reading → s.to_spawn ≡ [] → IsServed device order jobs d (read_ends device s)
    unfolding read_ends
    read_ends-IsServed r e =
        let (c, t) = after_wait (live device s) e (rw r at (v.staged)) v.counted in
        record {
          whole = v.whole;
          parts = v.parts;
          answered = v.answered;
          file = v.file;
          counted = c;
          staged = t;
        }

  module _ (order : ByteOrder) (jobs : List Job) (d : device.State) where
    start-IsServed : IsServed device order jobs d (start device jobs d)
    unfolding run_jobs
    start-IsServed = record {
      whole = record { one = (refl, refl); waits = refl; whole = λ n. refl };
      parts = Perm.refl jobs;
      answered = refl;
      file = refl;
      counted = refl;
      staged = refl;
    }

    Step-IsServed :
        {s t : Serving device}
        → Step device order s t
        → IsServed device order jobs d s
        → IsServed device order jobs d t
    Step-IsServed {s} (Step.spawns j later r e) v = spawn_next-IsServed order jobs d s v j later r e
    Step-IsServed {s} (Step.responds before h j after e) v =
        respond-IsServed order jobs d s v before h j after e
    Step-IsServed {s} (Step.runs_out before h cid offset size after e) v =
        run_out-IsServed order jobs d s v before h _ after e
    Step-IsServed {s} (Step.sends before n rest after e) v =
        send_part-IsServed order jobs d s v before n rest after e
    Step-IsServed {s} (Step.returns before after e) v =
        handler_returns-IsServed order jobs d s v before after e
    Step-IsServed {s} (Step.throws before rest after e) v =
        handler_throws-IsServed order jobs d s v before rest after e
    Step-IsServed {s} (Step.leaves n e) v = leave-IsServed order jobs d s v n e
    Step-IsServed {s} (Step.reads_end r e) v = read_ends-IsServed order jobs d s v r e

    -- In every interleaving of the handlers of a connection that spawns `jobs`: each job is still to be
    -- spawned, in work, completed or lost, once; the responses went to the lock in the order in which the
    -- jobs completed, one after another on the backing file; until a send throws the wire holds the
    -- responses whose turn came, whole, but for what the only sender has left; and the wait group counts
    -- the handlers that live.
    pub Reach-IsServed :
        {s : Serving device}
        → Reach device order (start device jobs d) s
        → IsServed device order jobs d s
    Reach-IsServed Reach.here = start-IsServed
    Reach-IsServed (Reach.next r st) = Step-IsServed st (Reach-IsServed r)
