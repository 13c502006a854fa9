-- ===== src/Session/Serving/Ended.antt =====
-- How the coroutine of `handle_connection` comes to its end, and what is true there.
use mathlib.Core.List.{Permᴰ}
use easybd.Base.{
  ℕ, zero, suc, ◌<◌, ◌≤◌, ◌≡◌, ◌⊎◌, inl, inr, refl, sym, ap, ◌∙◌, subst, List, [], ◌∷◌, ◌++◌, map,
  Bool, true, false, arith, append-nil, length, flatten, eq-nil_of_length,
}
use easybd.Turns.Whole.{OneSends, IsWhole, asked}
use easybd.Turns.Busy.{busy}
use easybd.Wire.{ByteOrder}
use easybd.Session.{Job}
use easybd.Session.Handlers.{Device, run_jobs, response_bytes}
use easybd.Session.Serving.{Stage, reading, waiting, over, Serving, start, Step, Reach}
use easybd.Session.Serving.Parts.{Staged, live, IsServed}
use easybd.Session.Serving.Invariant.{Reach-IsServed}

module _ (device : Device) where
  -- No coroutine of the connection is left: none works, waits for the lock, sends, or has still to call
  -- `wg.done()`.
  pub record HasNoHandler (s : Serving device) : Type 0 where
    pub working : s.working ≡ []
    pub queued : s.turns.queued ≡ []
    pub sending : s.turns.sending ≡ []
    pub leaving : s.leaving ≡ 0

  live-HasNoHandler : (s : Serving device) → live device s ≡ 0 → HasNoHandler s
  live-HasNoHandler s e = record {
    working = eq-nil_of_length s.working (omega arith);
    queued = eq-nil_of_length s.turns.queued (omega arith);
    sending = eq-nil_of_length s.turns.sending (omega arith);
    leaving = omega arith;
  }

  -- The bytes of the responses to jobs that run one after another.
  abbrev pub replies : ByteOrder → device.State → List Job → List ℕ
  replies order d jobs = flatten (map (response_bytes order) (run_jobs device d jobs).0)

  -- The end of a connection that was to serve `jobs`.
  pub record HasServed (order : ByteOrder) (jobs : List Job) (d : device.State) (s : Serving device)
      : Type 0 where
    pub idle : HasNoHandler s
    pub each : Permᴰ (s.completed ++ s.lost) jobs
    pub file : (run_jobs device d s.completed).1 ≡ s.file
    pub wire : s.turns.failed ≡ false → s.turns.wire ≡ replies order d s.completed

  module _ (order : ByteOrder) (jobs : List Job) (d : device.State) where
    IsServed-HasServed :
        (s : Serving device)
        → s.stage ≡ over
        → IsServed device order jobs d s
        → HasServed order jobs d s
    IsServed-HasServed s o v =
        let st : Staged over s.group.waiter s.to_spawn (live device s) = rw o at (v.staged) in
        let i = live-HasNoHandler s st.1 in
        let a : asked s.turns ≡ s.turns.turns = rw i.queued (append-nil s.turns.turns) in
        record {
          idle = i;
          each =
              subst (λ l. Permᴰ (s.completed ++ l) jobs) (rw (i.working, st.0) (append-nil s.lost))
                v.parts;
          file = v.file;
          wire = λ n.
              sym (append-nil s.turns.wire)
              ∙ rw i.sending at (v.whole.whole n)
              ∙ ap flatten (sym (v.answered ∙ a));
        }

    -- When the coroutine of a connection is past `wg.wait()`, in whatever interleaving it came there, no
    -- handler is left that could still use the connection's lock, wait group or descriptor; each job was
    -- completed or lost its buffer, once; the backing file is what the completed jobs make of it one after
    -- another; and if no send has thrown, the bytes on the wire are the responses to these jobs, whole,
    -- in the order in which their I/O completed.
    pub Reach-HasServed :
        {s : Serving device}
        → Reach device order (start device jobs d) s
        → s.stage ≡ over
        → HasServed order jobs d s
    Reach-HasServed {s} r o = IsServed-HasServed s o (Reach-IsServed device order jobs d r)

    -- A coroutine goes on: with no send that throws and no buffer that cannot be had, and a write of a
    -- response takes some of its bytes.
    abbrev pub GoesOn : {s t : Serving device} → Step device order s t → Type 0
    GoesOn (Step.spawns j l r e) = Unit {0}
    GoesOn (Step.responds before h j after e) = Unit {0}
    GoesOn (Step.runs_out before h cid offset size after e) = ⊥
    GoesOn (Step.sends before n rest after e) = (0 < n) × (n ≤ length rest)
    GoesOn (Step.returns before after e) = Unit {0}
    GoesOn (Step.throws before rest after e) = ⊥
    GoesOn (Step.leaves n e) = Unit {0}
    GoesOn (Step.reads_end r e) = Unit {0}

    -- Such a step is next.
    abbrev pub Next : Serving device → Type 0
    Next s = (t : Serving device) × (p : Step device order s t) × GoesOn p

    reading-Next : (l : List Job) (s : Serving device) → s.stage ≡ reading → s.to_spawn ≡ l → Next s
    reading-Next [] s r e = (_, Step.reads_end r e, tt)
    reading-Next (j ∷ l) s r e = (_, Step.spawns j l r e, tt)

    sending-Next :
        (rest : List ℕ) (l : List (List ℕ)) (s : Serving device)
        → s.turns.sending ≡ rest ∷ l
        → Next s
    sending-Next [] l s e = (_, Step.returns [] l e, tt)
    sending-Next (x ∷ rest) l s e =
        (_, Step.sends [] (length (x ∷ rest)) (x ∷ rest) l e, (omega arith, omega arith))

    turns-Next : (b : Bool) (s : Serving device) → OneSends b s.turns → 0 < busy s.turns → Next s
    turns-Next false s o h = absurd (omega (arith, ap length o.0, ap length o.1))
    turns-Next true s (rest, e) h = sending-Next rest [] s e

    live-Next :
        (working : List (ℕ × Job)) (leaving : ℕ) (s : Serving device)
        → s.working ≡ working
        → s.leaving ≡ leaving
        → IsWhole s.turns
        → 0 < live device s
        → Next s
    live-Next ((h, j) ∷ l) n s e k w p = (_, Step.responds [] h j l e, tt)
    live-Next [] (suc n) s e k w p = (_, Step.leaves n k, tt)
    live-Next [] zero s e k w p =
        turns-Next s.turns.mutex.locked s w.one (omega (arith, ap length e))

    stage-Next :
        (g : Stage) (s : Serving device)
        → s.stage ≡ g
        → IsServed device order jobs d s
        → (g ≡ over) ⊎ Next s
    stage-Next reading s e v = inr (reading-Next s.to_spawn s e refl)
    stage-Next waiting s e v =
        let st : Staged waiting s.group.waiter s.to_spawn (live device s) = rw e at (v.staged) in
        inr (live-Next s.working s.leaving s refl refl v.whole st.2)
    stage-Next over s e v = inl refl

    -- The coroutines of a connection never wait for one another in a circle: in every state that they reach, in
    -- whatever interleaving, the connection is over or some coroutine can go on: with no send that throws,
    -- no buffer that cannot be had, and, if what goes on is a send, at least one more byte on the wire.
    pub Reach-goes_on :
        {s : Serving device}
        → Reach device order (start device jobs d) s
        → (s.stage ≡ over) ⊎ Next s
    Reach-goes_on {s} r = stage-Next s.stage s refl (Reach-IsServed device order jobs d r)
