-- ===== src/SingleShot/Contract.antt =====
-- uring_recv_stream.cpp, single shot: the stream keeps the contract of a recv stream.
use mathlib.Core.Path.{subst₂}
use easybd.Base.{
  ℕ, suc, ◌<◌, ◌≡◌, refl, ◌∙◌, Bool-cases, inl, inr, List, [], ◌∷◌, Bool, true, false, ◌&&◌, take,
  zero, arith, append-nil, subst,
}
use easybd.Stream.{data_chunk, end_chunk, IsProper, Delivers, some_data, the_end, RecvStream}
use easybd.SingleShot.{
  SingleShot, is_open, is_ready, ready, arm, take_batch, Event, received, fails,
}
use easybd.SingleShot.Exclusive.{take-IsExclusive}
use easybd.SingleShot.Batch.{Use, complete_recv, advance_if, await, arrive, serve, next_batch}
use easybd.SingleShot.Keeps.{
  Ends, rest_of, ending_of, rest, ending, IsKept, IsGood, Keeps, deliver-Keeps, ready-Keeps,
  deliver-is_ready, deliver-resumes, ready-is_ready, ready-live, arm-IsKept,
}

take_chunk :
    (n : ℕ) (s : SingleShot)
    → s.has_chunk ≡ true
    → take_batch (suc n) s
      ≡ (data_chunk (take s.len s.buf) ∷ [], record s { has_chunk = false; checked_out = true })
unfolding take_batch
take_chunk n s h = ground arith

take_end :
    (n : ℕ) (s : SingleShot) (es : List Event)
    → s.has_chunk ≡ false
    → is_open s ≡ false
    → take_batch (suc n) s ≡ (end_chunk (ending_of s es) ∷ [], s)
unfolding take_batch
take_end n s es h o = ground arith

take-Delivers :
    (size max : ℕ) (s : SingleShot) (es : List Event)
    → 0 < size
    → 0 < max
    → IsKept s es
    → is_ready s ≡ true
    → Delivers max
        (rest_of s es)
        (ending_of s es)
        (rest_of (take_batch size s).1 es)
        (take_batch size s).0
take-Delivers zero max s es hs hm k r = elim hs [ ]
take-Delivers (suc n) max s es hs hm k r = elim (Bool-cases s.has_chunk) [
  | inl e ↦ rw (take_chunk n s e) (
      some_data (take s.len s.buf) [] refl (ground (arith, k.filled e), tt) (hm, tt)
        (ground (arith, append-nil (take s.len s.buf))))
  | inr e ↦ rw (take_end n s es e (ground arith)) (the_end (ground arith) refl)
]

Keeps-refl : (s : SingleShot) (es : List Event) → IsKept s es → Keeps s es s es
Keeps-refl s es k = record { kept = k; same_rest = refl; same_ending = refl }

Keeps-trans :
    {s t u : SingleShot} {es fs gs : List Event}
    → Keeps s es t fs
    → Keeps t fs u gs
    → Keeps s es u gs
Keeps-trans k l = record {
  kept = l.kept;
  same_rest = l.same_rest ∙ k.same_rest;
  same_ending = l.same_ending ∙ k.same_ending;
}

complete_recv-Keeps :
    (u : Use)
    → u.stream.live ≡ true
    → IsKept u.stream u.events
    → Keeps u.stream u.events (complete_recv u).0.stream (complete_recv u).0.events
unfolding complete_recv
complete_recv-Keeps u l k = go u.events refl
  where
    go :
        (es : List Event)
        → u.events ≡ es
        → Keeps u.stream u.events (complete_recv u).0.stream (complete_recv u).0.events
    go [] e = absurd (subst Ends e (k.ends (k.live_open l)))
    go (x ∷ es) e = rw e (deliver-Keeps x es u.stream l (rw e at k))

complete_recv-is_ready :
    (u : Use)
    → u.stream.live ≡ true
    → IsKept u.stream u.events
    → is_ready (complete_recv u).0.stream ≡ true
unfolding complete_recv
complete_recv-is_ready u l k = go u.events refl
  where
    go : (es : List Event) → u.events ≡ es → is_ready (complete_recv u).0.stream ≡ true
    go [] e = absurd (subst Ends e (k.ends (k.live_open l)))
    go (x ∷ es) e = rw e (deliver-is_ready x u.stream)

complete_recv-resumes :
    (u : Use)
    → u.stream.live ≡ true
    → u.stream.waiter ≡ true
    → IsKept u.stream u.events
    → (complete_recv u).1 ≡ true
unfolding complete_recv
complete_recv-resumes u l w k = go u.events refl
  where
    go : (es : List Event) → u.events ≡ es → (complete_recv u).1 ≡ true
    go [] e = absurd (subst Ends e (k.ends (k.live_open l)))
    go (x ∷ es) e = rw e (deliver-resumes x u.stream w)

advance_if-Keeps :
    (b : Bool) (u : Use)
    → (b ≡ true → u.stream.live ≡ true)
    → IsKept u.stream u.events
    → Keeps u.stream u.events (advance_if b u).stream (advance_if b u).events
unfolding advance_if
advance_if-Keeps true u l k = complete_recv-Keeps u (l refl) k
advance_if-Keeps false u l k = Keeps-refl _ _ k

arrive-Keeps :
    (u : Use)
    → IsKept u.stream u.events
    → Keeps u.stream u.events (arrive u).stream (arrive u).events
unfolding arrive
arrive-Keeps u k = go u.early refl
  where
    go :
        (bs : List Bool)
        → u.early ≡ bs
        → Keeps u.stream u.events (arrive u).stream (arrive u).events
    go [] e = rw e (Keeps-refl _ _ k)
    go (b ∷ bs) e =
        rw e (advance_if-Keeps (b && u.stream.live) (record u { early = bs }) (ground arith) k)

-- The reader waits only while the recv is in flight.
await-Keeps :
    (x : SingleShot × Bool) (u : Use)
    → is_ready x.0 ≡ x.1
    → (x.1 ≡ false → x.0.live ≡ true)
    → IsKept x.0 u.events
    → Keeps x.0 u.events (await x u).0.stream (await x u).0.events
      × (is_ready (await x u).0.stream ≡ true)
      × ((await x u).1 ≡ true)
unfolding await arm
await-Keeps (s, true) u e l k = (Keeps-refl _ _ k, e, refl)
await-Keeps (s, false) u e l k =
    let k' : IsKept (arm s) u.events = arm-IsKept s u.events k in
    let c = complete_recv-Keeps (record u { stream = arm s }) (l refl) k' in
    (
      record { kept = c.kept; same_rest = c.same_rest; same_ending = c.same_ending },
      complete_recv-is_ready (record u { stream = arm s }) (l refl) k',
      complete_recv-resumes (record u { stream = arm s }) (l refl) refl k',
    )

-- Waited for or not, the reader goes on, with something at hand.
serve-Keeps :
    (u : Use)
    → IsKept u.stream u.events
    → Keeps u.stream u.events (serve u).0.stream (serve u).0.events
      × (is_ready (serve u).0.stream ≡ true)
      × ((serve u).1 ≡ true)
unfolding serve
serve-Keeps u k =
    let a = arrive-Keeps u k in
    let r = ready-Keeps (arrive u).events (arrive u).stream a.kept in
    let w =
      await-Keeps (ready (arrive u).stream) (arrive u) (ready-is_ready (arrive u).stream)
        (ready-live (arrive u).stream a.kept.exclusive) r.kept in
    (Keeps-trans a (Keeps-trans r w.0), w.1, w.2)

take-Keeps :
    (size : ℕ) (s : SingleShot) (es : List Event)
    → IsKept s es
    → IsKept (take_batch size s).1 es × (ending_of (take_batch size s).1 es ≡ ending_of s es)
unfolding take_batch
take-Keeps size s es k = (
  record {
    exclusive = take-IsExclusive size s k.exclusive;
    live_open = ground (arith, k.live_open);
    filled = ground (arith, k.filled);
    ends = ground (arith, k.ends);
  },
  ground arith,
)

-- From a good stream, for a positive capacity and byte limit, whether the completion of the recv in
-- flight comes before the call or while it waits: the batch is one chunk, the next bytes that the kernel
-- received; or it is the end of the stream alone, and then no byte is left.
pub single_shot-Delivers :
    (u : Use) (size max : ℕ)
    → IsGood u
    → 0 < size
    → 0 < max
    → let (cs, u') = next_batch u size max in Delivers max (rest u) (ending u) (rest u') cs
unfolding next_batch
single_shot-Delivers u size max g hs hm =
    let (k, ready, resumed) = serve-Keeps u g.kept in
    rw resumed (
      subst₂
        (λ all fin.
          Delivers max all fin (rest_of (take_batch size (serve u).0.stream).1 (serve u).0.events)
            (take_batch size (serve u).0.stream).0)
        k.same_rest k.same_ending
        (take-Delivers size max (serve u).0.stream (serve u).0.events hs hm k.kept ready))

pub next_batch-ending :
    (u : Use) (size max : ℕ) → IsGood u → ending (next_batch u size max).1 ≡ ending u
unfolding next_batch
next_batch-ending u size max g =
    let (k, ready, resumed) = serve-Keeps u g.kept in
    rw resumed ((take-Keeps size (serve u).0.stream (serve u).0.events k.kept).1 ∙ k.same_ending)

pub next_batch-IsGood : (u : Use) (size max : ℕ) → IsGood u → IsGood (next_batch u size max).1
unfolding next_batch
next_batch-IsGood u size max g =
    let (k, ready, resumed) = serve-Keeps u g.kept in
    record { kept = rw resumed (take-Keeps size (serve u).0.stream (serve u).0.events k.kept).0 }

pub ending-IsProper : (u : Use) → IsProper (ending u)
ending-IsProper u = go u.events
  where
    go : (es : List Event) → IsProper (ending_of u.stream es)
    go [] = ground arith
    go (received [] ∷ es) = ground arith
    go (received (b ∷ bs) ∷ es) = go es
    go (fails e ∷ es) = ground arith

-- The io_uring backend's single-shot stream, as its readers see it.
abbrev pub single_shot_stream : RecvStream
single_shot_stream = record {
  State = Use;
  next_batch = next_batch;
  rest = rest;
  ending = ending;
  IsValid = IsGood;
  proper = λ u g. ending-IsProper u;
  delivers = single_shot-Delivers;
  keeps_ending = next_batch-ending;
  keeps_IsValid = λ u size max g hs hm. next_batch-IsGood u size max g;
}
