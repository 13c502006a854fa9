-- ===== src/UringStream/Progress.antt =====
-- uring_recv_stream.cpp: when the multishot recv is running, and when it is submitted again.
use easybd.Base.{
  ℕ, ◌+◌, ◌≡◌, refl, sym, ◌∙◌, inl, inr, List, [], ◌∷◌, ◌++◌, Bool, true, false, ◌&&◌, ◌||◌, ltb,
  is_empty, length, arith, Bool-cases,
}
use easybd.UringStream.{
  Pending, Stream, is_open, take_one, submit_recv, maybe_resubmit, on_cqe, return_checked_out,
  ready, arm, take_loop, take_batch, Event, received, ran_dry, shut_down, fails, deliver,
  receive_into, fill, data_cqe, dry_cqe, shut_cqe, error_cqe,
}
use easybd.UringStream.Ownership.{
  Step, delivers, readies, arms, takes, takes_one, Reach, here, next,
}

-- While the stream is open the recv runs, or is to be submitted again, never both; and it is left
-- unsubmitted only while the reader still holds buffers.
pub record Runs (s : Stream) : Type 0 where
  pub running : is_open s ≡ true → (s.live || s.needs_resubmit) ≡ true
  pub not_both : (s.live && s.needs_resubmit) ≡ false
  pub blocked : s.needs_resubmit ≡ true → is_empty s.checked_out ≡ false

-- One live operation completes with each kind of completion.
on_cqe-Runs_data :
    (len idx : ℕ) (more : Bool) (s : Stream)
    → s.live ≡ true
    → Runs s
    → Runs (on_cqe (data_cqe len idx more) s).0
unfolding on_cqe maybe_resubmit submit_recv
on_cqe-Runs_data len idx more s l v = ground arith

on_cqe-Runs_dry : (s : Stream) → s.live ≡ true → Runs s → Runs (on_cqe dry_cqe s).0
unfolding on_cqe maybe_resubmit submit_recv
on_cqe-Runs_dry s l v = ground arith

on_cqe-Runs_shut : (s : Stream) → s.live ≡ true → Runs s → Runs (on_cqe shut_cqe s).0
unfolding on_cqe maybe_resubmit submit_recv
on_cqe-Runs_shut s l v = ground arith

on_cqe-Runs_error : (e : ℕ) (s : Stream) → s.live ≡ true → Runs s → Runs (on_cqe (error_cqe e) s).0
unfolding on_cqe maybe_resubmit submit_recv
on_cqe-Runs_error e s l v = ground arith

receive_into-Runs :
    (ring bs : List ℕ) (more : Bool) (s : Stream)
    → s.live ≡ true
    → Runs s
    → Runs (receive_into ring bs more s)
unfolding receive_into
receive_into-Runs [] bs more s l v = on_cqe-Runs_dry s l v
receive_into-Runs (idx ∷ ring) bs more s l v =
    on_cqe-Runs_data (length bs) idx more (fill idx bs ring s) l
      (record { running = v.running; not_both = v.not_both; blocked = v.blocked })

deliver-Runs : (e : Event) (s : Stream) → s.live ≡ true → Runs s → Runs (deliver e s)
unfolding deliver
deliver-Runs (received bs more) s l v = receive_into-Runs s.ring bs more s l v
deliver-Runs ran_dry s l v = on_cqe-Runs_dry s l v
deliver-Runs shut_down s l v = on_cqe-Runs_shut s l v
deliver-Runs (fails e) s l v = on_cqe-Runs_error e s l v

-- Taking chunks leaves the recv as it is.
record Same (s s' : Stream) : Type 0 where
  live : s'.live ≡ s.live
  wanted : s'.needs_resubmit ≡ s.needs_resubmit
  opened : is_open s' ≡ is_open s
  kept : is_empty s.checked_out ≡ false → is_empty s'.checked_out ≡ false

Runs-of_Same : (s s' : Stream) → Same s s' → Runs s → Runs s'
Runs-of_Same s s' m v = record {
  running = λ o. rw (m.live, m.wanted) (v.running (sym m.opened ∙ o));
  not_both = rw (m.live, m.wanted) v.not_both;
  blocked = λ w. m.kept (v.blocked (sym m.wanted ∙ w));
}

is_empty-snoc : (xs : List ℕ) (x : ℕ) → is_empty (xs ++ x ∷ []) ≡ false
is_empty-snoc [] x = refl
is_empty-snoc (y ∷ xs) x = refl

take_loop-Same :
    (ps : List Pending) (n bytes size max : ℕ) (s : Stream)
    → Same s (take_loop ps n bytes size max s).1
unfolding take_loop
take_loop-Same [] n bytes size max s = record {
  live = refl;
  wanted = refl;
  opened = refl;
  kept = λ h. h;
}
take_loop-Same (p ∷ ps) n bytes size max s = elim (Bool-cases (ltb n size && ltb bytes max)) [
  | inr b ↦ rw b (record { live = refl; wanted = refl; opened = refl; kept = λ h. h })
  | inl b ↦
      let s' : Stream = record s { pending = ps; checked_out = s.checked_out ++ p.buf_idx ∷ [] } in
      let h = take_loop-Same ps (n + 1) (bytes + p.len) size max s' in
      rw b (record {
        live = h.live;
        wanted = h.wanted;
        opened = h.opened;
        kept = λ e. h.kept (is_empty-snoc s.checked_out p.buf_idx);
      })
]

take_batch-Same : (size max : ℕ) (s : Stream) → Same s (take_batch size max s).1
unfolding take_batch
take_batch-Same size max s = elim (Bool-cases (is_empty (take_loop s.pending 0 0 size max s).0)) [
  | inl e ↦ rw e (take_loop-Same s.pending 0 0 size max s)
  | inr e ↦ rw e (take_loop-Same s.pending 0 0 size max s)
]

take_one-Same_of : (ps : List Pending) (s : Stream) → s.pending ≡ ps → Same s (take_one s).1
unfolding take_one
take_one-Same_of [] s e = rw e (record { live = refl; wanted = refl; opened = refl; kept = λ h. h })
take_one-Same_of (p ∷ ps) s e = rw e (record {
  live = refl;
  wanted = refl;
  opened = refl;
  kept = λ h. is_empty-snoc s.checked_out p.buf_idx;
})

ready-Runs : (s : Stream) → Runs s → Runs (ready s).0
unfolding ready return_checked_out maybe_resubmit submit_recv
ready-Runs s v = ground arith

pub Step-Runs : {s t : Stream} → Step s t → Runs s → Runs t
unfolding arm
Step-Runs {s} (delivers e l) v = deliver-Runs e s l v
Step-Runs {s} readies v = ready-Runs s v
Step-Runs {s} arms v = record { running = v.running; not_both = v.not_both; blocked = v.blocked }
Step-Runs {s} takes_one v = Runs-of_Same s (take_one s).1 (take_one-Same_of s.pending s refl) v
Step-Runs {s} (takes size max) v =
    Runs-of_Same s (take_batch size max s).1 (take_batch-Same size max s) v

-- From a state where this holds, whatever the reader does and the kernel delivers while the recv
-- runs: while the stream is open its multishot recv runs or is to be submitted again, never
-- both; and it waits to be submitted again only while the reader holds buffers.
pub Reach-Runs : {s t : Stream} → Runs s → Reach s t → Runs t
Reach-Runs v here = v
Reach-Runs v (next r st) = Step-Runs st (Reach-Runs v r)

-- On a stream whose recv runs or is to be submitted again as it should, the reader asks whether
-- chunks are ready and gets no: then the stream is open, the reader holds no buffer and the recv
-- runs, so the completion it suspends for can come.
pub ready-live :
    (s : Stream)
    → Runs s
    → (ready s).1 ≡ false
    → ((ready s).0.live ≡ true) × ((ready s).0.checked_out ≡ []) × (is_open (ready s).0 ≡ true)
unfolding ready return_checked_out maybe_resubmit submit_recv
ready-live s v e = ground arith
