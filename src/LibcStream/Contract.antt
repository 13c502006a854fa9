-- ===== src/LibcStream/Contract.antt =====
-- libc_recv_stream.cpp, `next_batch`: the ring keeps the contract of a recv stream.
use mathlib.Core.List.{map-append}
use mathlib.Core.Path.{subst₂}
use easybd.Base.{
  ℕ, suc, ◌+◌, ◌<◌, ◌≡◌, refl, sym, ap, subst, ◌∙◌, inl, inr, List, [], ◌∷◌, ◌++◌, map, true, All,
  length, flatten, arith, append_assoc, if◌then◌else◌, Bool-cases, flatten-append,
}
use easybd.Stream.{data_chunk, IsProper, Fits, Delivers, some_data, the_end, RecvStream}
use easybd.LibcStream.{
  Recv, Pending, Ring, is_ready, is_open, chunk_bytes, arm, ready, serve, take_batch, next_batch,
}
use easybd.LibcStream.Window.{Chain}
use easybd.LibcStream.Invariant.{
  IsValid, Ends, arriving, rest, ending, Keeps, Keeps-refl, Keeps-trans,
}
use easybd.LibcStream.Drain.{waiter-Keeps}
use easybd.LibcStream.Await.{await_lem}
use easybd.LibcStream.Serve.{
  Splits, split, split_takes, split_of_valid, taken_from-IsValid, take_batch_some, take_batch_none,
}

-- A ring and its socket.
pub record IsGood (s : Ring × List Recv) : Type 0 where
  pub valid : IsValid s.0
  pub ends : is_open s.0 ≡ true → Ends s.1
  pub proper : IsProper (ending s.0 s.1)

-- `_take_batch`, once there is something to take.
take_batch-Delivers :
    (size max : ℕ) (r : Ring) (os : List Recv)
    → 0 < size
    → 0 < max
    → IsValid r
    → is_ready r ≡ true
    → Delivers max
        (rest r os)
        (ending r os)
        (rest (take_batch size max r).1 os)
        (take_batch size max r).0
take_batch-Delivers size max r os hs hm v ready = go (split size max r) refl
  where
    sp : Splits r.buf r.pending max (split size max r)
    sp = split_of_valid size max r v

    whole :
        (xs ys : List Pending)
        → xs ++ ys ≡ r.pending
        → flatten (map (chunk_bytes r.buf) xs) ++ rest (record r { pending = ys }) os ≡ rest r os
    whole xs ys j =
        sym (
          append_assoc (flatten (map (chunk_bytes r.buf) xs)) (flatten (map (chunk_bytes r.buf) ys))
            _)
        ∙ ap (λ t. t ++ (if is_open r then arriving os else []))
            (sym (flatten-append (map (chunk_bytes r.buf) xs) (map (chunk_bytes r.buf) ys))
              ∙ ap flatten
                  (sym (map-append (chunk_bytes r.buf) xs ys) ∙ ap (map (chunk_bytes r.buf)) j))

    go :
        (out : List Pending × List Pending)
        → split size max r ≡ out
        → Delivers max
            (rest r os)
            (ending r os)
            (rest (take_batch size max r).1 os)
            (take_batch size max r).0
    go ([], left) e =
        let none_pending : r.pending ≡ [] =
          split_takes r.pending size max hs hm (ap (λ x. x.0) e) in
        rw (take_batch_none size max r (ap (λ x. x.0) e)) (the_end (ground arith) (ground arith))
    go (p ∷ ps, left) e = rw (take_batch_some size max r p ps (ap (λ x. x.0) e)) (
        some_data (chunk_bytes r.buf p) (map (chunk_bytes r.buf) ps)
          (ap (λ (x : List Pending × List Pending). map data_chunk (map (chunk_bytes r.buf) x.0)) e)
          (subst
            (λ (x : List Pending × List Pending).
              All (λ x. 0 < length x) (map (chunk_bytes r.buf) x.0))
            e sp.nonempty)
          (subst (λ (x : List Pending × List Pending). Fits max (map (chunk_bytes r.buf) x.0)) e
            sp.fits)
          (whole (p ∷ ps) (split size max r).1 (
            subst (λ (x : List Pending × List Pending). x.0 ++ (split size max r).1 ≡ r.pending) e
              sp.joined)))

-- `_take_batch` keeps the ring valid, and does not change what ended the stream.
take_batch-Keeps :
    (size max : ℕ) (r : Ring) (os : List Recv)
    → IsValid r
    → IsValid (take_batch size max r).1
      × (ending (take_batch size max r).1 os ≡ ending r os)
      × (is_open (take_batch size max r).1 ≡ is_open r)
take_batch-Keeps size max r os v = go (split size max r).0 refl
  where
    go :
        (taken : List Pending)
        → (split size max r).0 ≡ taken
        → IsValid (take_batch size max r).1
          × (ending (take_batch size max r).1 os ≡ ending r os)
          × (is_open (take_batch size max r).1 ≡ is_open r)
    go [] e = rw (take_batch_none size max r e) (taken_from-IsValid size max r v, refl, refl)
    go (p ∷ ps) e =
        rw (take_batch_some size max r p ps e) (taken_from-IsValid size max r v, refl, refl)

ready-IsValid : (r : Ring) → IsValid r → IsValid (record r { checked_out_count = 0 })
ready-IsValid r v = record {
  start = v.start + r.checked_out_count;
  slots = v.slots;
  room = omega (arith, v.room);
  chain = subst (λ k. Chain r.entries k r.pending r.write_idx) (omega arith) v.chain;
  positive = v.positive;
  lens = v.lens;
  one_end = v.one_end;
}

-- Whether it waits or not, a call of `next_batch` goes on with a chunk or the end at hand.
serve_lem :
    (r : Ring) (os : List Recv)
    → IsGood (r, os)
    → Keeps (record r { checked_out_count = 0 }) os (serve (r, os)).0 (serve (r, os)).1
      × (is_ready (serve (r, os)).0 ≡ true)
unfolding serve ready
serve_lem r os g = elim (Bool-cases (is_ready r)) [
  | inl e ↦ rw e (Keeps-refl _ os (ready-IsValid r g.valid) g.ends, e)
  | inr e ↦
      let r' : Ring = record r { checked_out_count = 0 } in
      let v : IsValid r' = ready-IsValid r g.valid in
      let k : Keeps r' os (arm r') os = waiter-Keeps r' os true v g.ends in
      let w =
        await_lem (suc (length os)) os (arm r') (omega arith) k.valid (g.ends (ground arith))
          (refl, e, refl) in
      rw e (Keeps-trans k w.0, w.1)
]

-- Waiting loses nothing.
serve-rest :
    (s : Ring × List Recv)
    → IsGood s
    → IsGood (serve s)
      × (rest (serve s).0 (serve s).1 ≡ rest s.0 s.1)
      × (ending (serve s).0 (serve s).1 ≡ ending s.0 s.1)
serve-rest (r, os) g =
    let k = (serve_lem r os g).0 in
    (
      record {
        valid = k.valid;
        ends = k.ends;
        proper = subst IsProper (sym k.same_ending) g.proper;
      },
      k.same_rest,
      k.same_ending,
    )

-- From a good ring and socket, for a positive capacity and byte limit: a batch, waited for or
-- not, holds chunks of bytes that are still to come, in order and each taken while fewer than
-- `max` bytes were taken before it; or it is the end of the stream alone, and then no byte is
-- left.
pub next_batch-Delivers :
    (s : Ring × List Recv) (size max : ℕ)
    → IsGood s
    → 0 < size
    → 0 < max
    → let (cs, s') = next_batch s size max in
      Delivers max (rest s.0 s.1) (ending s.0 s.1) (rest s'.0 s'.1) cs
unfolding next_batch
next_batch-Delivers s size max g hs hm =
    let k = serve-rest s g in
    let (r, os) = serve s in
    subst₂
      (λ all fin.
        Delivers max all fin (rest (take_batch size max r).1 os) (take_batch size max r).0)
      k.1 k.2 (take_batch-Delivers size max r os hs hm k.0.valid (serve_lem s.0 s.1 g).1)

pub next_batch-ending :
    (s : Ring × List Recv) (size max : ℕ)
    → IsGood s
    → ending (next_batch s size max).1.0 (next_batch s size max).1.1 ≡ ending s.0 s.1
unfolding next_batch
next_batch-ending s size max g =
    let k = serve-rest s g in (take_batch-Keeps size max (serve s).0 (serve s).1 k.0.valid).1 ∙ k.2

pub next_batch-IsGood :
    (s : Ring × List Recv) (size max : ℕ) → IsGood s → IsGood (next_batch s size max).1
unfolding next_batch
next_batch-IsGood s size max g =
    let k = serve-rest s g in
    let t = take_batch-Keeps size max (serve s).0 (serve s).1 k.0.valid in
    record {
      valid = t.0;
      ends = λ h. k.0.ends (sym t.2 ∙ h);
      proper = subst IsProper (sym t.1) k.0.proper;
    }

-- The libc backend's stream, as its readers see it: `RecvStreamImpl` over any socket keeps the contract.
abbrev pub libc_stream : RecvStream
libc_stream = record {
  State = Ring × List Recv;
  next_batch = next_batch;
  rest = λ s. rest s.0 s.1;
  ending = λ s. ending s.0 s.1;
  IsValid = IsGood;
  proper = λ s g. g.proper;
  delivers = next_batch-Delivers;
  keeps_ending = next_batch-ending;
  keeps_IsValid = λ s size max g hs hm. next_batch-IsGood s size max g;
}
