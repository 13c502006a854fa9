-- ===== src/UringStream/Ownership.antt =====
-- uring_recv_stream.cpp: who holds each buffer of the provided ring.
use easybd.Base.{
  ℕ, ◌+◌, ◌≡◌, refl, ap, ◌∙◌, inl, inr, List, [], ◌∷◌, ◌++◌, Bool, true, not, ◌&&◌, Option, none,
  some, ltb, ◌==◌, if◌then◌else◌, is_empty, length, arith, Bool-cases,
}
use easybd.Base.Int.{ℤ, pos, negsuc}
use easybd.UringStream.{
  end_if, resubmit_if, mark_live, is_open, Pending, Stream, Cqe, submit_recv, maybe_resubmit,
  absorb, wake, handle_cqe, on_cqe, return_checked_out, ready, arm, take_one, take_loop, take_batch,
  Event, received, ran_dry, shut_down, fails, deliver, receive_into, fill, data_cqe, dry_cqe,
  shut_cqe, error_cqe,
}

abbrev pub count : ℕ → List ℕ → ℕ
count i [] = 0
count i (x ∷ xs) = (if x == i then 1 else 0) + count i xs

abbrev pub count_pending : ℕ → List Pending → ℕ
count_pending i [] = 0
count_pending i (p ∷ ps) = (if p.buf_idx == i then 1 else 0) + count_pending i ps

-- How many hold buffer `i`: the kernel, the pending chunks, and the reader.
abbrev pub holders : ℕ → Stream → ℕ
holders i s = count i s.ring + count_pending i s.pending + count i s.checked_out

-- Every buffer has one holder.
abbrev pub IsOwned : Stream → Type 0
IsOwned s = (i : ℕ) → holders i s ≡ (if ltb i s.entries then 1 else 0)

count-append : (i : ℕ) (xs ys : List ℕ) → count i (xs ++ ys) ≡ count i xs + count i ys
count-append i [] ys = omega arith
count-append i (x ∷ xs) ys = omega (arith, count-append i xs ys)

count_pending-snoc :
    (i : ℕ) (ps : List Pending) (p : Pending)
    → count_pending i (ps ++ p ∷ []) ≡ count_pending i ps + (if p.buf_idx == i then 1 else 0)
count_pending-snoc i [] p = omega arith
count_pending-snoc i (q ∷ ps) p = omega (arith, count_pending-snoc i ps p)

-- What a step leaves alone, as far as buffers go.
record Moves (i extra : ℕ) (s s' : Stream) : Type 0 where
  held : holders i s' ≡ extra + holders i s
  same : s'.entries ≡ s.entries

maybe_resubmit-Moves : (i : ℕ) (s : Stream) → Moves i 0 s (maybe_resubmit s)
unfolding maybe_resubmit submit_recv
maybe_resubmit-Moves i s = ground arith

wake-Moves : (i : ℕ) (s : Stream) → Moves i 0 s (wake s).0
unfolding wake
wake-Moves i s = ground arith

-- The buffer that a completion names.
abbrev named : ℕ → ℤ → Option ℕ → ℕ
named i (negsuc e) buffer = 0
named i (pos n) none = 0
named i (pos n) (some idx) = if idx == i then 1 else 0

absorb-Moves :
    (i : ℕ) (res : ℤ) (buffer : Option ℕ) (more : Bool) (s : Stream)
    → Moves i (named i res buffer) s (absorb res buffer more s).0
unfolding absorb
absorb-Moves i (negsuc e) buffer more s = ground arith
absorb-Moves i (pos n) none more s = ground arith
absorb-Moves i (pos n) (some idx) more s =
    ground (arith, count_pending-snoc i s.pending (record { buf_idx = idx; len = n }))

end_if-Moves : (i : ℕ) (b : Bool) (s : Stream) → Moves i 0 s (end_if b s)
unfolding end_if
end_if-Moves i b s = ground arith

resubmit_if-Moves : (i : ℕ) (b : Bool) (s : Stream) → Moves i 0 s (resubmit_if b s)
unfolding resubmit_if
resubmit_if-Moves i b s = ground (arith, maybe_resubmit-Moves i s)

mark_live-Moves : (i : ℕ) (b : Bool) (s : Stream) → Moves i 0 s (mark_live b s)
mark_live-Moves i b s = ground arith

Moves-trans : {i m n : ℕ} {s t u : Stream} → Moves i m s t → Moves i n t u → Moves i (n + m) s u
Moves-trans a b = record { held = omega (arith, a.held, b.held); same = b.same ∙ a.same }

handle_cqe-Moves :
    (i : ℕ) (c : Cqe) (s : Stream) → Moves i (named i c.res c.buffer) s (handle_cqe c s).0
unfolding handle_cqe
handle_cqe-Moves i c s =
    let a = absorb-Moves i c.res c.buffer c.more s in
    let s1 = absorb c.res c.buffer c.more s in
    let ended = not c.more && (is_open s1.0 && not s1.1) in
    let e = end_if-Moves i ended s1.0 in
    let d = resubmit_if-Moves i s1.1 (end_if ended s1.0) in
    let w = wake-Moves i (resubmit_if s1.1 (end_if ended s1.0)) in
    record {
      held = omega (arith, a.held, e.held, d.held, w.held);
      same = w.same ∙ d.same ∙ e.same ∙ a.same;
    }

on_cqe-Moves : (i : ℕ) (c : Cqe) (s : Stream) → Moves i (named i c.res c.buffer) s (on_cqe c s).0
unfolding on_cqe
on_cqe-Moves i c s =
    let m = mark_live-Moves i c.more s in
    let h = handle_cqe-Moves i c (mark_live c.more s) in
    record { held = omega (arith, m.held, h.held); same = h.same ∙ m.same }

receive_into-Moves :
    (i : ℕ) (ring bs : List ℕ) (more : Bool) (s : Stream)
    → s.ring ≡ ring
    → Moves i 0 s (receive_into ring bs more s)
unfolding receive_into
receive_into-Moves i [] bs more s e = on_cqe-Moves i dry_cqe s
receive_into-Moves i (idx ∷ ring) bs more s e =
    let h = on_cqe-Moves i (data_cqe (length bs) idx more) (fill idx bs ring s) in
    record { held = omega (arith, h.held, ap (count i) e); same = h.same }

deliver-Moves : (i : ℕ) (e : Event) (s : Stream) → Moves i 0 s (deliver e s)
unfolding deliver
deliver-Moves i (received bs more) s = receive_into-Moves i s.ring bs more s refl
deliver-Moves i ran_dry s = on_cqe-Moves i dry_cqe s
deliver-Moves i shut_down s = on_cqe-Moves i shut_cqe s
deliver-Moves i (fails e) s = on_cqe-Moves i (error_cqe e) s

return_checked_out-Moves : (i : ℕ) (s : Stream) → Moves i 0 s (return_checked_out s)
unfolding return_checked_out
return_checked_out-Moves i s =
    let m =
      maybe_resubmit-Moves i (record s { ring = s.ring ++ s.checked_out; checked_out = [] }) in
    record { held = omega (arith, m.held, count-append i s.ring s.checked_out); same = m.same }

take_loop-Moves :
    (i : ℕ) (ps : List Pending) (n bytes size max : ℕ) (s : Stream)
    → s.pending ≡ ps
    → Moves i 0 s (take_loop ps n bytes size max s).1
unfolding take_loop
take_loop-Moves i [] n bytes size max s e = record {
  held = omega (arith, ap (count_pending i) e);
  same = refl;
}
take_loop-Moves i (p ∷ ps) n bytes size max s e = elim (Bool-cases (ltb n size && ltb bytes max)) [
  | inr b ↦ rw b (record { held = omega (arith, ap (count_pending i) e); same = refl })
  | inl b ↦
      let s' : Stream = record s { pending = ps; checked_out = s.checked_out ++ p.buf_idx ∷ [] } in
      let h = take_loop-Moves i ps (n + 1) (bytes + p.len) size max s' refl in
      rw b (record {
        held =
            omega (
              arith,
              h.held,
              ap (count_pending i) e,
              count-append i s.checked_out (p.buf_idx ∷ []),
            );
        same = h.same;
      })
]

take_batch-Moves : (i size max : ℕ) (s : Stream) → Moves i 0 s (take_batch size max s).1
unfolding take_batch
take_batch-Moves i size max s =
    elim (Bool-cases (is_empty (take_loop s.pending 0 0 size max s).0)) [
      | inl e ↦ rw e (take_loop-Moves i s.pending 0 0 size max s refl)
      | inr e ↦ rw e (take_loop-Moves i s.pending 0 0 size max s refl)
    ]

take_one-Moves_of :
    (i : ℕ) (ps : List Pending) (s : Stream) → s.pending ≡ ps → Moves i 0 s (take_one s).1
unfolding take_one
take_one-Moves_of i [] s e = rw e (record { held = omega arith; same = refl })
take_one-Moves_of i (p ∷ ps) s e = rw e (record {
  held = omega (arith, ap (count_pending i) e, count-append i s.checked_out (p.buf_idx ∷ []));
  same = refl;
})

take_one-Moves : (i : ℕ) (s : Stream) → Moves i 0 s (take_one s).1
take_one-Moves i s = take_one-Moves_of i s.pending s refl

-- Whatever the reader and the kernel do, in any order.
pub data Step (s : Stream) : Stream → Type 0 where
  delivers : (e : Event) → s.live ≡ true → Step s (deliver e s)
  readies : Step s (ready s).0
  arms : Step s (arm s)
  takes_one : Step s (take_one s).1
  takes : (size max : ℕ) → Step s (take_batch size max s).1

pub data Reach (s : Stream) : Stream → Type 0 where
  here : Reach s s
  next : {t u : Stream} → Reach s t → Step t u → Reach s u

abbrev one_below : ℕ → ℕ → ℕ
one_below i n = if ltb i n then 1 else 0

IsOwned-of_Moves : (s t : Stream) → ((i : ℕ) → Moves i 0 s t) → IsOwned s → IsOwned t
IsOwned-of_Moves s t m o i = omega (arith, (m i).held, o i, ap (λ n. one_below i n) (m i).same)

pub Step-IsOwned : {s t : Stream} → Step s t → IsOwned s → IsOwned t
unfolding ready arm
Step-IsOwned {s} (delivers e l) o = IsOwned-of_Moves s _ (λ i. deliver-Moves i e s) o
Step-IsOwned {s} readies o = IsOwned-of_Moves s _ (λ i. return_checked_out-Moves i s) o
Step-IsOwned {s} arms o = o
Step-IsOwned {s} takes_one o = IsOwned-of_Moves s _ (λ i. take_one-Moves i s) o
Step-IsOwned {s} (takes size max) o = IsOwned-of_Moves s _ (λ i. take_batch-Moves i size max s) o

-- From a state where each of the ring's buffers is held once, and whatever the reader does and
-- the kernel delivers while the recv runs: each is held once, by the kernel, by a chunk that
-- waits to be taken, or by the reader. So none is lost or given back twice.
pub Reach-IsOwned : {s t : Stream} → IsOwned s → Reach s t → IsOwned t
Reach-IsOwned o here = o
Reach-IsOwned o (next r st) = Step-IsOwned st (Reach-IsOwned o r)
