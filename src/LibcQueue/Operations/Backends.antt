-- ===== src/LibcQueue/Operations/Backends.antt =====
-- libc_queue.cpp: what an open, close, read, write, accept or connect gives its caller, against the number that
-- io_uring completes with for the same answers of the system.
use easybd.Base.{
  ℕ, zero, suc, ◌≡◌, refl, ap, ◌∙◌, List, [], ◌∷◌, ◌++◌, Option, none, some, ◌<◌, arith, false, not,
  ◌==◌, if◌then◌else◌,
}
use easybd.Base.Int.{ℤ, pos, neg, negsuc}
use easybd.UringQueue.{Outcome, Queue, dispatch, outcome}
use easybd.System.{Os, ok, err}
use easybd.LibcQueue.{
  Accepted, accepted, again, refused, try_accept, Connected, connected, in_progress, try_connect,
  connect_on_ready,
}
use easybd.LibcQueue.Operations.{
  Event, ready, cancelled, ecanceled, of_call, of_result, open_file, close, pread, pwrite,
  pwrite_dsync, wait_accept, accept, wait_connect, connect,
}

-- An operation of `Queue`, with how the system answers it: the calls on files at once; `accept4` when it is first
-- made, and at each later event of the descriptor; `connect` at once, or by SO_ERROR later.
pub data Operation : Type 0 where
  opens closes reads writes writes_dsync : Os → Operation
  accepts : Accepted → List (Event Accepted) → Operation
  connects : Connected → List (Event ℕ) → Operation

-- The libc backend.
abbrev pub libc_gives : Operation → Option Outcome
libc_gives (opens r) = some (open_file r)
libc_gives (closes r) = some (close r)
libc_gives (reads r) = some (pread r)
libc_gives (writes r) = some (pwrite r)
libc_gives (writes_dsync r) = some (pwrite_dsync r)
libc_gives (accepts a es) = accept a es
libc_gives (connects c es) = connect c es

-- The completion that io_uring documents for it: the value of the call, or the negated errno of its end, which
-- for a cancelled operation is ECANCELED.
abbrev pub answer : Os → ℤ
answer (ok n) = pos n
answer (err e) = neg (pos e)

unfoldable pub accepted_at : Accepted → List (Event Accepted) → Option ℤ
accepted_at (accepted fd) es = some (pos fd)
accepted_at (refused e) es = some (neg (pos e))
accepted_at again [] = none
accepted_at again (cancelled ∷ es) = some (neg (pos ecanceled))
accepted_at again (ready a ∷ es) = accepted_at a es

unfoldable pub connected_at : Connected → List (Event ℕ) → Option ℤ
connected_at connected es = some (pos 0)
connected_at (refused e) es = some (neg (pos e))
connected_at in_progress [] = none
connected_at in_progress (cancelled ∷ es) = some (neg (pos ecanceled))
connected_at in_progress (ready e ∷ es) = some (neg (pos e))

abbrev pub completion : Operation → Option ℤ
completion (opens r) = some (answer r)
completion (closes (ok n)) = some (pos 0)
completion (closes (err e)) = some (neg (pos e))
completion (reads r) = some (answer r)
completion (writes r) = some (answer r)
completion (writes_dsync r) = some (answer r)
completion (accepts a es) = accepted_at a es
completion (connects c es) = connected_at c es

-- The errnos of the calls are positive.
abbrev pub IsErrno : Os → Type 0
IsErrno (ok n) = Unit {0}
IsErrno (err e) = 0 < e

abbrev pub HasErrnos : Operation → Type 0
HasErrnos (opens r) = IsErrno r
HasErrnos (closes r) = IsErrno r
HasErrnos (reads r) = IsErrno r
HasErrnos (writes r) = IsErrno r
HasErrnos (writes_dsync r) = IsErrno r
HasErrnos (accepts a es) = Unit {0}
HasErrnos (connects c es) = Unit {0}

abbrev caller_gets : Option ℤ → Option Outcome
caller_gets none = none
caller_gets (some res) = some (outcome res)

of_result-outcome : (res : ℤ) → of_result res ≡ outcome res
of_result-outcome (pos n) = refl
of_result-outcome (negsuc e) = refl

accept-caller_gets :
    (a : Accepted) (es : List (Event Accepted)) → accept a es ≡ caller_gets (accepted_at a es)
unfolding accept accepted_at wait_accept try_accept
accept-caller_gets (accepted fd) es = refl
accept-caller_gets (refused e) es = ap some (of_result-outcome (neg (pos e)))
accept-caller_gets again [] = refl
accept-caller_gets again (cancelled ∷ es) = refl
accept-caller_gets again (ready again ∷ es) = accept-caller_gets again es
accept-caller_gets again (ready (accepted fd) ∷ es) = refl
accept-caller_gets again (ready (refused e) ∷ es) = ap some (of_result-outcome (neg (pos e)))

connect-caller_gets :
    (c : Connected) (es : List (Event ℕ)) → connect c es ≡ caller_gets (connected_at c es)
unfolding connect connected_at wait_connect try_connect connect_on_ready
connect-caller_gets connected es = refl
connect-caller_gets (refused e) es = ap some (of_result-outcome (neg (pos e)))
connect-caller_gets in_progress [] = refl
connect-caller_gets in_progress (cancelled ∷ es) = refl
connect-caller_gets in_progress (ready zero ∷ es) = refl
connect-caller_gets in_progress (ready (suc e) ∷ es) =
    let failed : (suc e == 0) ≡ false = ground arith in
    ap (λ b. some (of_result (if not b then negsuc e else pos 0))) failed

answer-caller_gets : (r : Os) → IsErrno r → of_call r ≡ outcome (answer r)
answer-caller_gets (ok n) h = refl
answer-caller_gets (err zero) h = absurd (omega arith)
answer-caller_gets (err (suc e)) h = refl

close-caller_gets : (r : Os) → IsErrno r → some (close r) ≡ caller_gets (completion (closes r))
unfolding close
close-caller_gets (ok n) h = refl
close-caller_gets (err zero) h = absurd (omega arith)
close-caller_gets (err (suc e)) h = refl

libc_gives-caller_gets : (o : Operation) → HasErrnos o → libc_gives o ≡ caller_gets (completion o)
unfolding open_file pread pwrite pwrite_dsync
libc_gives-caller_gets (opens r) h = ap some (answer-caller_gets r h)
libc_gives-caller_gets (closes r) h = close-caller_gets r h
libc_gives-caller_gets (reads r) h = ap some (answer-caller_gets r h)
libc_gives-caller_gets (writes r) h = ap some (answer-caller_gets r h)
libc_gives-caller_gets (writes_dsync r) h = ap some (answer-caller_gets r h)
libc_gives-caller_gets (accepts a es) h = accept-caller_gets a es
libc_gives-caller_gets (connects c es) h = connect-caller_gets c es

-- For an open, close, read, write, accept or connect that the system ends, with an errno that is not 0 if it fails:
-- when io_uring completes it with the value or the errno that the system's answers amount to, `_dispatch` resumes its awaiter with the same value, or the same errno to throw, that
-- the libc backend gives for the system's answers, EAGAIN and EINPROGRESS with the events behind
-- them and cancellation included.
pub backends-Agree :
    (o : Operation) (q : Queue) (id : ℕ) (res : ℤ)
    → HasErrnos o
    → completion o ≡ some res
    → (out : Outcome) × (libc_gives o ≡ some out)
      × ((dispatch (record q { cq = record { res = res; user_data = some id } ∷ [] })).results
          ≡ q.results ++ (id, out) ∷ [])
unfolding dispatch
backends-Agree o q id res h e = (outcome res, libc_gives-caller_gets o h ∙ ap caller_gets e, refl)
