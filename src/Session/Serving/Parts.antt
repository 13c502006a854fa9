-- ===== src/Session/Serving/Parts.antt =====
-- The jobs of a connection, and what holds of them while its handlers run.
use mathlib.Core.List.{Permᴰ}
use mathlib.Core.List.Permᴰ as Perm
use easybd.Base.{
  ℕ, suc, ◌+◌, ◌<◌, ◌≡◌, refl, ap, List, [], ◌∷◌, ◌++◌, map, Option, none, some, arith,
  append_assoc, length, length-append,
}
use easybd.Base.Int.{pos}
use easybd.Turns.Whole.{IsWhole, asked}
use easybd.Turns.Busy.{busy}
use easybd.Wire.{ByteOrder}
use easybd.Session.{Job}
use easybd.Session.Handlers.{Device, run_job, run_jobs, response_bytes}
use easybd.Session.Serving.{Stage, reading, waiting, over, Serving}

abbrev pub jobs_of : List (ℕ × Job) → List Job
jobs_of l = map (λ w. w.1) l

pub jobs_of-append : (xs ys : List (ℕ × Job)) → jobs_of (xs ++ ys) ≡ jobs_of xs ++ jobs_of ys
jobs_of-append [] ys = refl
jobs_of-append (x ∷ xs) ys = ap (λ l. x.1 ∷ l) (jobs_of-append xs ys)

-- A connection that reads waits for nothing; one that waits has spawned all its jobs and has live
-- handlers; one that is over has none.
abbrev pub Staged : Stage → Option ℕ → List Job → ℕ → Type 0
Staged reading waiter to_spawn live = waiter ≡ none
Staged waiting waiter to_spawn live = (waiter ≡ some 0) × (to_spawn ≡ []) × (0 < live)
Staged over waiter to_spawn live = (to_spawn ≡ []) × (live ≡ 0)

-- A job whose turn it is, moved behind the completed ones.
pub completes :
    (c l b : List Job) (j : Job) (a ts : List Job)
    → Permᴰ ((c ++ j ∷ []) ++ (l ++ ((b ++ a) ++ ts))) (c ++ (l ++ ((b ++ j ∷ a) ++ ts)))
completes c l b j a ts = simp append_assoc (
    Perm.append_left c (
      Permᴰ.trans (Perm.symm (Perm.middle j l (b ++ (a ++ ts))))
        (Perm.append_left l (Perm.symm (Perm.middle j b (a ++ ts))))))

pub is_lost :
    (c l b : List Job) (j : Job) (a ts : List Job)
    → Permᴰ (c ++ ((l ++ j ∷ []) ++ ((b ++ a) ++ ts))) (c ++ (l ++ ((b ++ j ∷ a) ++ ts)))
is_lost c l b j a ts =
    simp append_assoc
      (Perm.append_left c (Perm.append_left l (Perm.symm (Perm.middle j b (a ++ ts)))))

pub length_one_less :
    (before : List (ℕ × Job)) (x : ℕ × Job) (after working : List (ℕ × Job))
    → working ≡ before ++ x ∷ after
    → length working ≡ suc (length (before ++ after))
length_one_less before x after working e =
    omega (arith, ap length e, length-append before (x ∷ after), length-append before after)

module _ (device : Device) where
  pub run_jobs-append_one :
      (d : device.State) (xs : List Job) (j : Job)
      → let (responses, d') = run_jobs device d xs in
        let (x, d'') = run_job device d' j in
        run_jobs device d (xs ++ j ∷ []) ≡ (responses ++ x ∷ [], d'')
  unfolding run_jobs
  run_jobs-append_one d [] j = refl
  run_jobs-append_one d (x ∷ xs) j =
      ap (λ r. ((run_job device d x).0 ∷ r.0, r.1))
        (run_jobs-append_one (run_job device d x).1 xs j)

  -- The handlers for which `wg.done()` was not yet called.
  abbrev pub live : Serving device → ℕ
  live s = length s.working + busy s.turns + s.leaving

  abbrev pub all_jobs : Serving device → List Job
  all_jobs s = s.completed ++ (s.lost ++ (jobs_of s.working ++ s.to_spawn))

  -- Of the jobs none is lost from sight; the responses that went to the lock are those of the completed
  -- jobs, run one after another; and `wg` counts the live handlers.
  pub record IsServed (order : ByteOrder) (jobs : List Job) (d : device.State) (s : Serving device)
      : Type 0 where
    pub whole : IsWhole s.turns
    pub parts : Permᴰ (all_jobs s) jobs
    pub answered : map (response_bytes order) (run_jobs device d s.completed).0 ≡ asked s.turns
    pub file : (run_jobs device d s.completed).1 ≡ s.file
    pub counted : s.group.remaining ≡ pos (live s)
    pub staged : Staged s.stage s.group.waiter s.to_spawn (live s)
