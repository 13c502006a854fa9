-- ===== src/UringQueue/Answered.antt =====
-- uring_queue.cpp: what becomes of an operation's awaiter.
use easybd.Base.{
  ℕ, ◌+◌, ◌≡◌, refl, sym, ap, ◌∙◌, List, [], ◌∷◌, ◌++◌, Bool, Option, none, some, if◌then◌else◌,
  arith, ltb, ◌==◌, append-nil, append_assoc,
}
use easybd.Base.Int.{ℤ}
use easybd.UringQueue.{
  Queue, Sqe, Cqe, Timespec, Slots, step, dispatch, dispatch_each, resume, after_wait, Outcome,
  outcome,
}
use easybd.UringQueue.World.{
  World, Call, call, Step, Reach, here, next, finish_entry, calls, completes, steps, rebinds, fresh,
}
use easybd.UringQueue.Atomic.{Unchanged, Added, started, failed, call-Atomic}

abbrev pub is_for : ℕ → Option ℕ → ℕ
is_for id none = 0
is_for id (some x) = if x == id then 1 else 0

abbrev pub count_flight : ℕ → List Sqe → ℕ
count_flight id [] = 0
count_flight id (s ∷ l) = is_for id s.user_data + count_flight id l

abbrev pub count_cq : ℕ → List Cqe → ℕ
count_cq id [] = 0
count_cq id (c ∷ l) = is_for id c.user_data + count_cq id l

abbrev pub count_results : ℕ → List (ℕ × Outcome) → ℕ
count_results id [] = 0
count_results id ((x, o) ∷ l) = (if x == id then 1 else 0) + count_results id l

-- Where an awaiter is: in the kernel, in a completion, or resumed.
abbrev pub places : ℕ → Queue → ℕ
places id q = count_flight id q.flight + count_cq id q.cq + count_results id q.results

abbrev pub IsAnswered : Queue → Type 0
IsAnswered q = (id : ℕ) → places id q ≡ (if ltb id q.next_id then 1 else 0)

count_flight-append :
    (id : ℕ) (l m : List Sqe) → count_flight id (l ++ m) ≡ count_flight id l + count_flight id m
count_flight-append id [] m = omega arith
count_flight-append id (s ∷ l) m = omega (arith, count_flight-append id l m)

count_cq-append : (id : ℕ) (l m : List Cqe) → count_cq id (l ++ m) ≡ count_cq id l + count_cq id m
count_cq-append id [] m = omega arith
count_cq-append id (c ∷ l) m = omega (arith, count_cq-append id l m)

count_results-append :
    (id : ℕ) (l m : List (ℕ × Outcome))
    → count_results id (l ++ m) ≡ count_results id l + count_results id m
count_results-append id [] m = omega arith
count_results-append id ((x, o) ∷ l) m = omega (arith, count_results-append id l m)

-- What the awaiters of these completions are resumed with.
abbrev pub answers : List Cqe → List (ℕ × Outcome)
answers [] = []
answers (c ∷ cs) = elim c.user_data [
  | none ↦ answers cs
  | some id ↦ (id, outcome c.res) ∷ answers cs
]

count_results-answers : (id : ℕ) (cs : List Cqe) → count_results id (answers cs) ≡ count_cq id cs
count_results-answers id [] = refl
count_results-answers id (c ∷ cs) = ground (arith, count_results-answers id cs)

-- Every awaiter of these completions is resumed, in their order, each with its own result.
pub record Resumes (cs : List Cqe) (q q' : Queue) : Type 0 where
  pub results : q'.results ≡ q.results ++ answers cs
  pub flight : q'.flight ≡ q.flight
  pub cq : q'.cq ≡ []
  pub next_id : q'.next_id ≡ q.next_id

dispatch_each-Resumes : (cs : List Cqe) (q : Queue) → q.cq ≡ [] → Resumes cs q (dispatch_each cs q)
unfolding dispatch_each resume
dispatch_each-Resumes [] q e = record {
  results = sym (append-nil q.results);
  flight = refl;
  cq = e;
  next_id = refl;
}
dispatch_each-Resumes (c ∷ cs) q e = go (dispatch_each-Resumes cs) c.user_data refl
  where
    go :
        ((q : Queue) → q.cq ≡ [] → Resumes cs q (dispatch_each cs q))
        → (o : Option ℕ) → c.user_data ≡ o
        → Resumes (c ∷ cs) q (dispatch_each (c ∷ cs) q)
    go later none h =
        let r = later q e in
        rw h (record { results = r.results; flight = r.flight; cq = r.cq; next_id = r.next_id })
    go later (some id) h =
        let r = later (record q { results = q.results ++ (id, outcome c.res) ∷ [] }) e in
        rw h (record {
          results = r.results ∙ append_assoc q.results _ _;
          flight = r.flight;
          cq = r.cq;
          next_id = r.next_id;
        })

pub dispatch-Resumes : (q : Queue) → Resumes q.cq q (dispatch q)
unfolding dispatch
dispatch-Resumes q =
    let r = dispatch_each-Resumes q.cq (record q { cq = [] }) refl in
    record { results = r.results; flight = r.flight; cq = r.cq; next_id = r.next_id }

abbrev pub one_below : ℕ → ℕ → ℕ
one_below id n = if ltb id n then 1 else 0

IsAnswered-of_Unchanged : (q q' : Queue) → Unchanged q q' → IsAnswered q → IsAnswered q'
IsAnswered-of_Unchanged q q' u x id = omega (
  arith,
  x id,
  ap (count_flight id) u.flight,
  ap (count_cq id) u.cq,
  ap (count_results id) u.results,
  ap (one_below id) u.next_id,
)

IsAnswered-of_Resumes : (q q' : Queue) → Resumes q.cq q q' → IsAnswered q → IsAnswered q'
IsAnswered-of_Resumes q q' r x id = omega (
  arith,
  x id,
  ap (count_flight id) r.flight,
  ap (count_cq id) r.cq,
  ap (count_results id) r.results,
  count_results-append id q.results (answers q.cq),
  count_results-answers id q.cq,
  ap (one_below id) r.next_id,
)

IsAnswered-of_Added : (q q' : Queue) → Added q q' → IsAnswered q → IsAnswered q'
IsAnswered-of_Added q q' d x id = go d.awaited d.number d.next_id
  where
    go :
        (b : Bool)
        → d.sqe.user_data ≡ (if b then some q.next_id else none)
        → q'.next_id ≡ q.next_id + (if b then 1 else 0)
        → places id q' ≡ one_below id q'.next_id
    go b n m = ground (
      arith,
      x id,
      ap (is_for id) n,
      ap (one_below id) m,
      ap (count_flight id) d.flight,
      count_flight-append id q.flight (d.sqe ∷ []),
      ap (count_cq id) d.cq,
      ap (count_results id) d.results,
    )

finish_entry-IsAnswered :
    (before : List Sqe) (s : Sqe) (res : ℤ) (after : List Sqe) (q : Queue)
    → q.flight ≡ before ++ s ∷ after
    → IsAnswered q
    → IsAnswered (finish_entry before s res after q)
finish_entry-IsAnswered before s res after q e x id = omega (
  arith,
  x id,
  ap (count_flight id) e,
  count_flight-append id before (s ∷ after),
  count_flight-append id before after,
  count_cq-append id q.cq (record { res = res; user_data = s.user_data } ∷ []),
)

step-IsAnswered :
    (wait : Option Timespec → ℤ) (t : ℤ) (q : Queue) → IsAnswered q → IsAnswered (step wait t q).1
unfolding step after_wait
step-IsAnswered wait t q x =
    ground (arith, IsAnswered-of_Resumes q (dispatch q) (dispatch-Resumes q) x)

call-IsAnswered :
    (a : Slots) (ret : ℤ) (c : Call) (q : Queue) → IsAnswered q → IsAnswered (call a ret c q).1
call-IsAnswered a ret c q x = elim (call-Atomic a ret c q) [
  | started r h d k ↦ IsAnswered-of_Added q _ d x
  | failed r h p u ↦ IsAnswered-of_Unchanged q _ u x
]

Step-IsAnswered : {v w : World} → Step v w → IsAnswered v.queue → IsAnswered w.queue
Step-IsAnswered {v} (calls a ret c) x = call-IsAnswered a ret c v.queue x
Step-IsAnswered {v} (completes b s res a e) x = finish_entry-IsAnswered b s res a v.queue e x
Step-IsAnswered {v} (steps wait t) x = step-IsAnswered wait t v.queue x
Step-IsAnswered {v} (rebinds fd f e) x = x

-- From a new queue, whatever was called, completed and dispatched since: every awaiter that was started
-- is in exactly one place, an entry that has not completed, a completion that was not dispatched, or
-- the results; so none is resumed twice or lost, and a completion never finds its awaiter gone.
pub Reach-IsAnswered :
    {files : ℤ → Option ℕ} {w : World} → Reach (fresh files) w → IsAnswered w.queue
Reach-IsAnswered here = λ id. ground arith
Reach-IsAnswered (next r s) = Step-IsAnswered s (Reach-IsAnswered r)
