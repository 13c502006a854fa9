-- ===== src/UringStream/Contract.antt =====
-- uring_recv_stream.cpp, multishot: the stream keeps the contract of a recv stream.
use mathlib.Core.List.{map-append}
use mathlib.Core.Path.{subst₂}
use easybd.Base.{
  ℕ, ◌<◌, ◌≡◌, refl, sym, ap, ap₂, ◌∙◌, subst, Bool-cases, inl, inr, List, [], ◌∷◌, ◌++◌, map, All,
  true, false, ◌||◌, length, arith, if◌then◌else◌, is_empty, flatten, flatten-append, append_assoc,
  ◌==◌,
}
use easybd.Stream.{
  Chunk, data_chunk, end_chunk, Ending, IsProper, Fits, Delivers, some_data, the_end, RecvStream,
}
use easybd.UringStream.{
  Stream, Pending, is_open, is_ready, chunk_bytes, last_chunk, take_loop, take_batch, Event,
  received, ran_dry, shut_down, fails,
}
use easybd.UringStream.Ownership.{IsOwned, takes, Step-IsOwned}
use easybd.UringStream.Progress.{Runs, Step-Runs}
use easybd.UringStream.Batch.{Use, serve, next_batch}
use easybd.UringStream.Keeps.{IsKept, rest_of, ending_of, arriving}
use easybd.UringStream.Taken.{Takes, take_loop-Takes, take_loop-some}
use easybd.UringStream.Awaits.{serve-Keeps}

abbrev pub rest : Use → List ℕ
rest u = rest_of u.stream u.events

abbrev pub ending : Use → Ending
ending u = ending_of u.stream u.events

-- A stream and its kernel between calls.
pub record IsGood (u : Use) : Type 0 where
  pub kept : IsKept u.stream u.events

abbrev looped : ℕ → ℕ → Stream → List Chunk × Stream
looped size max s = take_loop s.pending 0 0 size max s

looped-Takes :
    (size max : ℕ) (s : Stream) (es : List Event)
    → IsKept s es
    → Takes s s.pending max (looped size max s)
looped-Takes size max s es k =
    subst (λ m. Takes s s.pending m (looped size max s)) (omega arith)
      (take_loop-Takes s.pending 0 0 size max s refl k.full)

-- What is taken and what is left are what was there.
looped-rest :
    (s : Stream) (es : List Event) (limit : ℕ) (out : List Chunk × Stream)
    → (t : Takes s s.pending limit out)
    → flatten (map (chunk_bytes s.buf) t.taken) ++ rest_of out.1 es ≡ rest_of s es
looped-rest s es limit out t =
    rw (t.pending, t.buf, t.eof, t.error)
      (sym (
          append_assoc (flatten (map (chunk_bytes s.buf) t.taken))
            (flatten (map (chunk_bytes s.buf) t.left)) _)
        ∙ ap (λ w. w ++ (if is_open s then arriving es else []))
            (sym (flatten-append (map (chunk_bytes s.buf) t.taken) (map (chunk_bytes s.buf) t.left))
              ∙ ap flatten (
                  sym (map-append (chunk_bytes s.buf) t.taken t.left)
                  ∙ ap (map (chunk_bytes s.buf)) t.joined)))

none_pending :
    (size max : ℕ) (s : Stream)
    → 0 < size
    → 0 < max
    → is_empty (looped size max s).0 ≡ true
    → s.pending ≡ []
none_pending size max s hs hm e = go s.pending refl
  where
    go : (ps : List Pending) → s.pending ≡ ps → s.pending ≡ []
    go [] h = h
    go (p ∷ ps) h =
        let some = take_loop-some p ps size max s hs hm in
        absurd (ground (arith, e, some, ap (λ l. is_empty (take_loop l 0 0 size max s).0) h))

closed_of : (s : Stream) → s.pending ≡ [] → is_ready s ≡ true → is_open s ≡ false
closed_of s e r = ground (arith, r, ap is_empty e)

last_chunk-end :
    (s t : Stream) (es : List Event)
    → is_open s ≡ false
    → t.error ≡ s.error
    → last_chunk t ≡ end_chunk (ending_of s es)
last_chunk-end s t es c e = elim (Bool-cases (s.error == 0)) [
  | inl b ↦ rw (e, c, b) refl
  | inr b ↦ rw (e, c, b) refl
]

nothing_left :
    (s : Stream) (es : List Event) → s.pending ≡ [] → is_open s ≡ false → rest_of s es ≡ []
nothing_left s es e c =
    ap₂ (λ ps b. flatten (map (chunk_bytes s.buf) ps) ++ (if b then arriving es else [])) e c

take_batch-Delivers :
    (size max : ℕ) (s : Stream) (es : List Event)
    → 0 < size
    → 0 < max
    → IsKept s es
    → is_ready s ≡ true
    → Delivers max
        (rest_of s es)
        (ending_of s es)
        (rest_of (take_batch size max s).1 es)
        (take_batch size max s).0
unfolding take_batch
take_batch-Delivers size max s es hs hm k ready =
    elim (Bool-cases (is_empty (looped size max s).0)) [
      | inl e ↦
          let p = none_pending size max s hs hm e in
          let c = closed_of s p ready in
          rw e (
            the_end (nothing_left s es p c)
              (ap (λ x. x ∷ []) (last_chunk-end s (looped size max s).1 es c t.error)))
      | inr e ↦ rw e (go t.taken refl e)
    ]
  where
    t : Takes s s.pending max (looped size max s)
    t = looped-Takes size max s es k

    go :
        (taken : List Pending)
        → t.taken ≡ taken
        → is_empty (looped size max s).0 ≡ false
        → Delivers max
            (rest_of s es)
            (ending_of s es)
            (rest_of (looped size max s).1 es)
            (looped size max s).0
    go [] h e = absurd (ground (arith, e, ap is_empty t.chunks, ap is_empty h))
    go (p ∷ ps) h e =
        some_data (chunk_bytes s.buf p) (map (chunk_bytes s.buf) ps)
          (t.chunks ∙ ap (λ l. map data_chunk (map (chunk_bytes s.buf) l)) h)
          (subst (λ l. All (λ d. 0 < length d) (map (chunk_bytes s.buf) l)) h t.positive)
          (subst (λ l. Fits max (map (chunk_bytes s.buf) l)) h t.fits)
          (ap (λ l. flatten (map (chunk_bytes s.buf) l) ++ rest_of (looped size max s).1 es) (sym h)
            ∙ looped-rest s es max (looped size max s) t)

-- `_take_batch` changes neither what is to come from the kernel nor who holds a buffer.
looped-IsKept :
    (s : Stream) (es : List Event) (limit : ℕ) (out : List Chunk × Stream)
    → Takes s s.pending limit out
    → IsOwned out.1
    → Runs out.1
    → IsKept s es
    → IsKept out.1 es × (ending_of out.1 es ≡ ending_of s es)
looped-IsKept s es limit out t o r k = (
  record {
    owned = o;
    runs = r;
    some_buffer = rw t.entries k.some_buffer;
    full = rw (t.buf, t.pending) t.left_full;
    running_open = λ h.
        same_open ∙ k.running_open (ap₂ (λ a b. a || b) (sym t.running.0) (sym t.running.1) ∙ h);
    ends = λ h. k.ends (sym same_open ∙ h);
  },
  rw (t.eof, t.error) refl,
)
  where
    same_open : is_open out.1 ≡ is_open s
    same_open = rw (t.eof, t.error) refl

take_batch_state : (size max : ℕ) (s : Stream) → (take_batch size max s).1 ≡ (looped size max s).1
unfolding take_batch
take_batch_state size max s = elim (Bool-cases (is_empty (looped size max s).0)) [
  | inl e ↦ rw e refl
  | inr e ↦ rw e refl
]

take_batch-IsKept :
    (size max : ℕ) (s : Stream) (es : List Event)
    → IsKept s es
    → IsKept (take_batch size max s).1 es
      × (ending_of (take_batch size max s).1 es ≡ ending_of s es)
take_batch-IsKept size max s es k =
    subst (λ u. IsKept u es × (ending_of u es ≡ ending_of s es)) (sym e)
      (looped-IsKept s es max (looped size max s) (looped-Takes size max s es k)
        (subst IsOwned e (Step-IsOwned {s = s} (takes size max) k.owned))
        (subst Runs e (Step-Runs {s = s} (takes size max) k.runs)) k)
  where
    e : (take_batch size max s).1 ≡ (looped size max s).1
    e = take_batch_state size max s

-- From a good stream, for a positive capacity and byte limit, however many completions come before the
-- call, and when the buffers run out meanwhile: the batch holds chunks of the bytes that the kernel
-- received, the next ones, in order and each taken while fewer than `max` bytes were taken before it; or
-- it is the end of the stream alone, and then no byte is left.
pub multishot-Delivers :
    (u : Use) (size max : ℕ)
    → IsGood u
    → 0 < size
    → 0 < max
    → let (cs, u') = next_batch u size max in Delivers max (rest u) (ending u) (rest u') cs
unfolding next_batch
multishot-Delivers u size max g hs hm =
    let (k, ready, resumed) = serve-Keeps u g.kept in
    let x = serve u in
    rw resumed (
      subst₂
        (λ all fin.
          Delivers max all fin (rest_of (take_batch size max x.0).1 x.1)
            (take_batch size max x.0).0)
        k.same_rest k.same_ending (take_batch-Delivers size max x.0 x.1 hs hm k.kept ready))

pub next_batch-ending :
    (u : Use) (size max : ℕ) → IsGood u → ending (next_batch u size max).1 ≡ ending u
unfolding next_batch
next_batch-ending u size max g =
    let (k, ready, resumed) = serve-Keeps u g.kept in
    rw resumed ((take_batch-IsKept size max (serve u).0 (serve u).1 k.kept).1 ∙ k.same_ending)

pub next_batch-IsGood : (u : Use) (size max : ℕ) → IsGood u → IsGood (next_batch u size max).1
unfolding next_batch
next_batch-IsGood u size max g =
    let (k, ready, resumed) = serve-Keeps u g.kept in
    record { kept = rw resumed (take_batch-IsKept size max (serve u).0 (serve u).1 k.kept).0 }

pub ending-IsProper : (u : Use) → IsProper (ending u)
ending-IsProper u = go u.events
  where
    go : (es : List Event) → IsProper (ending_of u.stream es)
    go [] = ground arith
    go (received bs more ∷ es) = go es
    go (ran_dry ∷ es) = go es
    go (shut_down ∷ es) = ground arith
    go (fails e ∷ es) = ground arith

-- The io_uring backend's multishot stream, as its readers see it.
abbrev pub uring_stream : RecvStream
uring_stream = record {
  State = Use;
  next_batch = next_batch;
  rest = rest;
  ending = ending;
  IsValid = IsGood;
  proper = λ u g. ending-IsProper u;
  delivers = multishot-Delivers;
  keeps_ending = next_batch-ending;
  keeps_IsValid = λ u size max g hs hm. next_batch-IsGood u size max g;
}
