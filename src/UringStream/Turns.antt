-- ===== src/UringStream/Turns.antt =====
-- uring_recv_stream.cpp, multishot: no completion loses or repeats a byte.
use easybd.Base.{
  ℕ, suc, ap₂, ◌≡◌, refl, sym, ap, ◌∙◌, subst, Bool-cases, inl, inr, List, [], ◌∷◌, ◌++◌, map, Bool,
  true, false, not, ◌&&◌, All, All-append, drop, length, flatten, take-length-append, arith,
  if◌then◌else◌, append-nil, append_assoc, ◌==◌, is_empty, flatten-append, ==_refl,
}
use mathlib.Core.List.{map-append}
use easybd.Stream.{eof, failed}
use easybd.UringStream.{
  Stream, Pending, is_open, Event, received, ran_dry, shut_down, fails, deliver, receive_into,
  on_cqe, fill, update, chunk_bytes, data_cqe,
}
use easybd.UringStream.Ownership.{IsOwned, count, count_pending, delivers, Step-IsOwned}
use easybd.UringStream.Progress.{Runs, Step-Runs}
use easybd.UringStream.Effects.{
  MoreData, Over, on_cqe-MoreData, deliver-SameData, deliver_shut, deliver_error,
}
use easybd.UringStream.Batch.{kernel_turn, kernel_step}
use easybd.UringStream.Keeps.{
  arriving, kernel_ending, Ends, waiting, rest_of, ending_of, IsFull, IsKept, live_open, Keeps,
  Keeps-refl, Keeps-of_SameData,
}

-- A buffer that the kernel has is not one of a chunk that waits.
free_buffer :
    (idx : ℕ) (ring : List ℕ) (s : Stream)
    → s.ring ≡ idx ∷ ring
    → IsOwned s
    → count_pending idx s.pending ≡ 0
free_buffer idx ring s e o = ground (arith, o idx, ap (count idx) e)

-- So what those chunks hold stays.
other_buffer :
    (idx : ℕ) (p : Pending) (ps : List Pending)
    → count_pending idx (p ∷ ps) ≡ 0
    → ((p.buf_idx == idx) ≡ false) × (count_pending idx ps ≡ 0)
other_buffer idx p ps h = (ground (arith, h), ground (arith, h))

update-chunk :
    (idx : ℕ) (v : List ℕ) (buf : ℕ → List ℕ) (p : Pending)
    → (p.buf_idx == idx) ≡ false
    → chunk_bytes (update buf idx v) p ≡ chunk_bytes buf p
update-chunk idx v buf p h = rw h refl

update-waiting :
    (idx : ℕ) (v : List ℕ) (buf : ℕ → List ℕ) (ps : List Pending)
    → count_pending idx ps ≡ 0
    → map (chunk_bytes (update buf idx v)) ps ≡ map (chunk_bytes buf) ps
update-waiting idx v buf [] h = refl
update-waiting idx v buf (p ∷ ps) h =
    let x = other_buffer idx p ps h in
    ap₂ (λ c cs. c ∷ cs) (update-chunk idx v buf p x.0) (update-waiting idx v buf ps x.1)

update-full :
    (idx : ℕ) (v : List ℕ) (buf : ℕ → List ℕ) (ps : List Pending)
    → count_pending idx ps ≡ 0
    → All (IsFull buf) ps
    → All (IsFull (update buf idx v)) ps
update-full idx v buf [] h f = tt
update-full idx v buf (p ∷ ps) h f =
    let x = other_buffer idx p ps h in
    ((f.0.0, ap length (update-chunk idx v buf p x.0) ∙ f.0.1), update-full idx v buf ps x.1 f.1)

new_chunk :
    (idx : ℕ) (bs : List ℕ) (buf : ℕ → List ℕ)
    → chunk_bytes
        (update buf idx (bs ++ drop (length bs) (buf idx)))
        (record { buf_idx = idx; len = length bs })
      ≡ bs
new_chunk idx bs buf = rw (==_refl idx) (take-length-append bs (drop (length bs) (buf idx)))

rest_of_open :
    (s : Stream) (es : List Event) → is_open s ≡ true → rest_of s es ≡ waiting s ++ arriving es
rest_of_open s es h = rw h refl

ending_of_open :
    (s : Stream) (es : List Event) → is_open s ≡ true → ending_of s es ≡ kernel_ending es
ending_of_open s es h = rw h refl

rest_of_closed : (s : Stream) (es : List Event) → is_open s ≡ false → rest_of s es ≡ waiting s ++ []
rest_of_closed s es h = rw h refl

ending_of_closed :
    (s : Stream) (es : List Event)
    → is_open s ≡ false
    → ending_of s es ≡ (if s.error == 0 then eof else failed s.error)
ending_of_closed s es h = rw h refl

waiting-snoc :
    (f : Pending → List ℕ) (ps : List Pending) (p : Pending)
    → flatten (map f (ps ++ p ∷ [])) ≡ flatten (map f ps) ++ f p
waiting-snoc f ps p =
    ap flatten (map-append f ps (p ∷ []))
    ∙ flatten-append (map f ps) (f p ∷ [])
    ∙ ap (λ t. flatten (map f ps) ++ t) (append-nil (f p))

-- Bytes into a buffer of the ring.
receive-Keeps :
    (idx : ℕ) (ring bs : List ℕ) (more : Bool) (es : List Event) (s : Stream)
    → s.ring ≡ idx ∷ ring
    → s.live ≡ true
    → IsKept s (received bs more ∷ es)
    → Keeps s (received bs more ∷ es) (deliver (received bs more) s) es
unfolding deliver receive_into
receive-Keeps idx ring bs more es s e l k =
    subst (λ t. Keeps s (received bs more ∷ es) t es) (sym same)
      (record {
        kept = record {
          owned = subst IsOwned same (Step-IsOwned (delivers (received bs more) l) k.owned);
          runs = subst Runs same (Step-Runs (delivers (received bs more) l) k.runs);
          some_buffer = rw d.entries k.some_buffer;
          full = rw (d.buf, d.pending) (All-append (IsFull filled.buf) s.pending _ old (new, tt));
          running_open = λ h. same_open ∙ live_open s _ k l;
          ends = λ h. (k.ends (live_open s _ k l)).1;
        };
        same_rest =
            rest_of_open after es (same_open ∙ was_open)
            ∙ ap (λ w. w ++ arriving es) more_waiting
            ∙ append_assoc (waiting s) bs (arriving es)
            ∙ sym (rest_of_open s (received bs more ∷ es) was_open);
        same_ending =
            ending_of_open after es (same_open ∙ was_open)
            ∙ sym (ending_of_open s (received bs more ∷ es) was_open);
      })
  where
    was_open : is_open s ≡ true
    was_open = live_open s _ k l

    filled : Stream
    filled = fill idx bs ring s

    after : Stream
    after = (on_cqe (data_cqe (length bs) idx more) filled).0

    same : deliver (received bs more) s ≡ after
    same = ap (λ r. receive_into r bs more s) e

    d : MoreData filled after (length bs) idx
    d = on_cqe-MoreData (length bs) idx more filled

    free : count_pending idx s.pending ≡ 0
    free = free_buffer idx ring s e k.owned

    same_open : is_open after ≡ is_open s
    same_open = rw (d.eof, d.error) refl

    old : All (IsFull filled.buf) s.pending
    old = update-full idx _ s.buf s.pending free k.full

    new : IsFull filled.buf (record { buf_idx = idx; len = length bs })
    new = ((k.ends (live_open s _ k l)).0, ap length (new_chunk idx bs s.buf))

    more_waiting : waiting after ≡ waiting s ++ bs
    more_waiting =
        rw (d.buf, d.pending)
          (waiting-snoc (chunk_bytes filled.buf) s.pending
              (record { buf_idx = idx; len = length bs })
            ∙ ap₂ (λ x y. x ++ y) (ap flatten (update-waiting idx _ s.buf s.pending free))
                (new_chunk idx bs s.buf))

-- The end of the connection.
Over-Keeps :
    (x : Event) (es : List Event) (s : Stream) (over : Bool) (code : ℕ)
    → Over s (deliver x s) over code
    → (code == 0 && not over) ≡ false
    → arriving (x ∷ es) ≡ []
    → (if code == 0 then eof else failed code) ≡ kernel_ending (x ∷ es)
    → s.live ≡ true
    → IsKept s (x ∷ es)
    → Keeps s (x ∷ es) (deliver x s) es
Over-Keeps x es s over code d c a b l k = record {
  kept = record {
    owned = Step-IsOwned (delivers x l) k.owned;
    runs = Step-Runs (delivers x l) k.runs;
    some_buffer = rw d.entries k.some_buffer;
    full = rw (d.buf, d.pending) k.full;
    running_open = λ h. absurd (ground (arith, h, d.live, d.wanted, k.runs.not_both, l));
    ends = λ h. absurd (ground (arith, h, closed));
  };
  same_rest =
      rest_of_closed (deliver x s) es closed
      ∙ ap₂ (λ w r. w ++ r) same_waiting (sym a)
      ∙ sym (rest_of_open s (x ∷ es) (live_open s _ k l));
  same_ending =
      ending_of_closed (deliver x s) es closed
      ∙ ap (λ n. if n == 0 then eof else failed n) d.error
      ∙ b
      ∙ sym (ending_of_open s (x ∷ es) (live_open s _ k l));
}
  where
    closed : is_open (deliver x s) ≡ false
    closed = rw (d.eof, d.error) c

    same_waiting : waiting (deliver x s) ≡ waiting s
    same_waiting = rw (d.buf, d.pending) refl

-- ENOBUFS, said for bytes that are kept or by itself.
dry-Keeps :
    (es fs : List Event) (s : Stream)
    → s.live ≡ true
    → arriving fs ≡ arriving es
    → kernel_ending fs ≡ kernel_ending es
    → (Ends es → Ends fs)
    → IsKept s es
    → Keeps s es (deliver ran_dry s) fs
dry-Keeps es fs s l a b n k =
    Keeps-of_SameData s (deliver ran_dry s) es fs (deliver-SameData s)
      (Step-IsOwned {s = s} (delivers ran_dry l) k.owned)
      (Step-Runs {s = s} (delivers ran_dry l) k.runs) (λ h. live_open s _ k l) (λ h. n (k.ends h)) a
      b k

error_zero : (s : Stream) → is_open s ≡ true → (s.error == 0) ≡ true
error_zero s h = ground (arith, h)

head_of : (xs : List ℕ) → is_empty xs ≡ false → (x : ℕ) × (ys : List ℕ) × (xs ≡ x ∷ ys)
head_of [] h = absurd (ground arith)
head_of (x ∷ xs) h = (x, xs, refl)

kernel_turn-Keeps :
    (e : Event) (es : List Event) (s : Stream)
    → s.live ≡ true
    → IsKept s (e ∷ es)
    → Keeps s (e ∷ es) (kernel_turn e es s).0 (kernel_turn e es s).1
unfolding kernel_turn
kernel_turn-Keeps ran_dry es s l k = dry-Keeps (ran_dry ∷ es) es s l refl refl (λ h. h) k
kernel_turn-Keeps shut_down es s l k =
    Over-Keeps shut_down es s true s.error (deliver_shut s) (ground arith) refl
      (rw (error_zero s (live_open s _ k l)) refl) l k
kernel_turn-Keeps (fails e) es s l k =
    Over-Keeps (fails e) es s s.eof (suc e) (deliver_error e s (k.ends (live_open s _ k l)))
      (ground arith) refl (ground arith) l k
kernel_turn-Keeps (received bs more) es s l k = elim (Bool-cases (is_empty s.ring)) [
  | inl e ↦
      rw e (dry-Keeps (received bs more ∷ es) (received bs more ∷ es) s l refl refl (λ h. h) k)
  | inr e ↦
      let (idx, ring, h) = head_of s.ring e in rw e (receive-Keeps idx ring bs more es s h l k)
]

pub kernel_step-Keeps :
    (live : Bool) (es : List Event) (s : Stream)
    → s.live ≡ live
    → IsKept s es
    → Keeps s es (kernel_step live es s).0 (kernel_step live es s).1
unfolding kernel_step
kernel_step-Keeps false es s l k = Keeps-refl s es k
kernel_step-Keeps true [] s l k = Keeps-refl s [] k
kernel_step-Keeps true (e ∷ es) s l k = kernel_turn-Keeps e es s l k
