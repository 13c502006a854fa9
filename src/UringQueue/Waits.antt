-- ===== src/UringQueue/Waits.antt =====
-- uring_queue.cpp: `step`, whatever the wait returns.
use easybd.Base.{
  ℕ, ◌+◌, ◌*◌, ◌<◌, ◌≡◌, refl, arith, false, Option, none, some, Bool-cases, inl, inr, ◌⊎◌,
  if◌then◌else◌, suc,
}
use easybd.Base.Int.{ℤ, pos, negsuc, neg, is_neg, same, same→eq, to_ℕ}
use easybd.UringQueue.{Queue, Timespec, timespec, step, after_wait, minus_etime, minus_eintr}
use easybd.UringQueue.Answered.{Resumes, dispatch-Resumes}

-- For every timeout: the seconds and nanoseconds that `step` passes on are the timeout, and there are
-- fewer than a thousand million nanoseconds, which the kernel requires.
pub timespec-exact :
    (timeout_ms : ℕ)
    → ((timespec timeout_ms).tv_sec * 1000000000 + (timespec timeout_ms).tv_nsec
        ≡ timeout_ms * 1000000)
      × ((timespec timeout_ms).tv_nsec < 1000000000)
unfolding timespec
timespec-exact timeout_ms = omega arith

-- What the wait returns.
abbrev pub returned : (Option Timespec → ℤ) → ℤ → ℤ
returned wait timeout_ms =
    if is_neg timeout_ms then wait none else wait (some (timespec (to_ℕ timeout_ms)))

-- `step` resumes every awaiter whose completion is there; or it was interrupted; or it throws.
pub data Turn (timeout_ms ret : ℤ) (q : Queue) (r : Option ℕ × Queue) : Type 0 where
  dispatched :
      (is_neg ret ≡ false) ⊎ ((is_neg timeout_ms ≡ false) × (ret ≡ minus_etime))
      → r.0 ≡ none
      → Resumes q.cq q r.1
      → Turn timeout_ms ret q r
  interrupted : ret ≡ minus_eintr → r ≡ (none, q) → Turn timeout_ms ret q r
  failed : (e : ℕ) → 0 < e → ret ≡ neg (pos e) → r ≡ (some e, q) → Turn timeout_ms ret q r

after_wait-Turn : (timeout_ms ret : ℤ) (q : Queue) → Turn timeout_ms ret q (after_wait ret q)
unfolding after_wait
after_wait-Turn t (pos n) q = dispatched (inl refl) refl (dispatch-Resumes q)
after_wait-Turn t (negsuc n) q = elim (Bool-cases (same (negsuc n) minus_eintr)) [
  | inl e ↦ rw e (interrupted (same→eq (negsuc n) minus_eintr e) refl)
  | inr e ↦ rw e (failed (suc n) (omega arith) refl refl)
]

-- Whatever the wait returns, for a timeout or none: `step` resumes every awaiter whose completion is
-- there, in order and each with its own result, when the wait succeeded or a timeout expired; it changes
-- nothing when it was interrupted; and it throws the errno and changes nothing otherwise.
pub step-Turn :
    (wait : Option Timespec → ℤ) (timeout_ms : ℤ) (q : Queue)
    → Turn timeout_ms (returned wait timeout_ms) q (step wait timeout_ms q)
unfolding step
step-Turn wait (negsuc n) q = after_wait-Turn _ (wait none) q
step-Turn wait (pos n) q = elim (Bool-cases (same (wait (some (timespec n))) minus_etime)) [
  | inl e ↦ rw e (
      dispatched (inr (refl, same→eq (wait (some (timespec n))) minus_etime e)) refl
        (dispatch-Resumes q))
  | inr e ↦ rw e (after_wait-Turn _ (wait (some (timespec n))) q)
]
