-- ===== src/UringStream/Effects.antt =====
-- uring_recv_stream.cpp, multishot: what each kind of completion, and each call, does to the data and the
-- end of the stream.
use easybd.Base.{ℕ, suc, ◌≡◌, refl, List, [], ◌∷◌, ◌++◌, Bool, true, false, ◌||◌, arith, ◌==◌}
use easybd.UringStream.{
  Event, received, receive_into, receive_resumes, deliver, resumes, ran_dry, shut_down, fails,
  Stream, is_ready, submit_recv, maybe_resubmit, on_cqe, return_checked_out, ready, data_cqe,
  dry_cqe, shut_cqe, error_cqe, enobufs,
}

-- The data, the end and the size of a stream.
pub record SameData (s t : Stream) : Type 0 where
  pub pending : t.pending ≡ s.pending
  pub buf : t.buf ≡ s.buf
  pub eof : t.eof ≡ s.eof
  pub error : t.error ≡ s.error
  pub entries : t.entries ≡ s.entries

-- A chunk more.
pub record MoreData (s t : Stream) (len idx : ℕ) : Type 0 where
  pub pending : t.pending ≡ s.pending ++ record { buf_idx = idx; len = len } ∷ []
  pub buf : t.buf ≡ s.buf
  pub eof : t.eof ≡ s.eof
  pub error : t.error ≡ s.error
  pub entries : t.entries ≡ s.entries

-- The end, with no operation running.
pub record Over (s t : Stream) (over : Bool) (code : ℕ) : Type 0 where
  pub pending : t.pending ≡ s.pending
  pub buf : t.buf ≡ s.buf
  pub eof : t.eof ≡ over
  pub error : t.error ≡ code
  pub entries : t.entries ≡ s.entries
  pub live : t.live ≡ false
  pub wanted : t.needs_resubmit ≡ s.needs_resubmit

pub on_cqe-MoreData :
    (len idx : ℕ) (more : Bool) (s : Stream)
    → MoreData s (on_cqe (data_cqe len idx more) s).0 len idx
unfolding on_cqe maybe_resubmit submit_recv
on_cqe-MoreData len idx more s = ground arith

on_cqe-SameData : (s : Stream) → SameData s (on_cqe dry_cqe s).0
unfolding on_cqe maybe_resubmit submit_recv
on_cqe-SameData s = ground arith

on_cqe_shut : (s : Stream) → Over s (on_cqe shut_cqe s).0 true s.error
unfolding on_cqe maybe_resubmit submit_recv
on_cqe_shut s = ground arith

on_cqe_error :
    (e : ℕ) (s : Stream)
    → (suc e == enobufs) ≡ false
    → Over s (on_cqe (error_cqe e) s).0 s.eof (suc e)
unfolding on_cqe maybe_resubmit submit_recv
on_cqe_error e s h = ground arith

pub ready-SameData : (s : Stream) → SameData s (ready s).0
unfolding ready return_checked_out maybe_resubmit submit_recv
ready-SameData s = ground arith

pub deliver-SameData : (s : Stream) → SameData s (deliver ran_dry s)
unfolding deliver
deliver-SameData s = on_cqe-SameData s

pub deliver_shut : (s : Stream) → Over s (deliver shut_down s) true s.error
unfolding deliver
deliver_shut s = on_cqe_shut s

pub deliver_error :
    (e : ℕ) (s : Stream) → (suc e == enobufs) ≡ false → Over s (deliver (fails e) s) s.eof (suc e)
unfolding deliver
deliver_error e s h = on_cqe_error e s h

deliver_into-checked_out :
    (ring bs : List ℕ) (more : Bool) (s : Stream)
    → (receive_into ring bs more s).checked_out ≡ s.checked_out
unfolding receive_into on_cqe maybe_resubmit submit_recv
deliver_into-checked_out [] bs more s = ground arith
deliver_into-checked_out (idx ∷ ring) bs more s = ground arith

pub deliver-checked_out : (e : Event) (s : Stream) → (deliver e s).checked_out ≡ s.checked_out
unfolding deliver on_cqe maybe_resubmit submit_recv
deliver-checked_out (received bs more) s = deliver_into-checked_out s.ring bs more s
deliver-checked_out ran_dry s = ground arith
deliver-checked_out shut_down s = ground arith
deliver-checked_out (fails e) s = ground arith

-- A completion resumes a reader that waits exactly when something is at hand then; and a reader that was not
-- resumed still waits.
pub record Wakes (s t : Stream) (bit : Bool) : Type 0 where
  pub resumed : s.waiter ≡ true → bit ≡ is_ready t
  pub waits : bit ≡ false → t.waiter ≡ s.waiter

receive-Wakes :
    (ring bs : List ℕ) (more : Bool) (s : Stream)
    → Wakes s (receive_into ring bs more s) (receive_resumes ring bs more s)
unfolding receive_into receive_resumes on_cqe maybe_resubmit submit_recv
receive-Wakes [] bs more s = record { resumed = λ h. ground arith; waits = λ h. ground arith }
receive-Wakes (idx ∷ ring) bs more s = record {
  resumed = λ h. ground arith;
  waits = λ h. ground arith;
}

pub deliver-Wakes : (e : Event) (s : Stream) → Wakes s (deliver e s) (resumes e s)
unfolding deliver resumes on_cqe maybe_resubmit submit_recv
deliver-Wakes (received bs more) s = receive-Wakes s.ring bs more s
deliver-Wakes ran_dry s = record { resumed = λ h. ground arith; waits = λ h. ground arith }
deliver-Wakes shut_down s = record { resumed = λ h. ground arith; waits = λ h. ground arith }
deliver-Wakes (fails e) s = record { resumed = λ h. ground arith; waits = λ h. ground arith }

pub ready-running :
    (s : Stream)
    → ((ready s).0.live || (ready s).0.needs_resubmit) ≡ true
    → (s.live || s.needs_resubmit) ≡ true
unfolding ready return_checked_out maybe_resubmit submit_recv
ready-running s h = ground arith

pub ready-is_ready : (s : Stream) → is_ready (ready s).0 ≡ (ready s).1
unfolding ready
ready-is_ready s = refl
