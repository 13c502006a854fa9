-- ===== src/SingleShot/Exclusive.antt =====
-- uring_recv_stream.cpp, single shot: who has the buffer, and which bytes go through it.
use easybd.Base.{
  ℕ, ◌≡◌, sym, ap, ◌∙◌, Bool-cases, inl, inr, List, [], ◌∷◌, ◌++◌, true, false, ◌&&◌, ◌||◌, take,
  take-length-append, arith, if◌then◌else◌, append-nil, append_assoc,
}
use easybd.Stream.{Chunk}
use easybd.SingleShot.{
  SingleShot, is_open, submit_recv, ready, arm, take_batch, Event, received, fails, deliver,
}

-- The buffer is the kernel's, waits to be taken or is the reader's: one at most, and one while the
-- stream is open.
pub record IsExclusive (s : SingleShot) : Type 0 where
  pub kernel : s.live ≡ true → (s.has_chunk || s.checked_out) ≡ false
  pub reader : (s.has_chunk && s.checked_out) ≡ false
  pub busy : is_open s ≡ true → (s.live || (s.has_chunk || s.checked_out)) ≡ true

-- A stream in use, with the bytes that the kernel received and those that the reader took.
pub record Use : Type 0 where
  pub stream : SingleShot
  pub received_bytes : List ℕ
  pub taken : List ℕ

-- The bytes that wait to be taken.
abbrev pub waiting : SingleShot → List ℕ
waiting s = if s.has_chunk then take s.len s.buf else []

pub record IsSound (u : Use) : Type 0 where
  pub exclusive : IsExclusive u.stream
  pub bytes : u.taken ++ waiting u.stream ≡ u.received_bytes

abbrev pub event_bytes : Event → List ℕ
event_bytes (received bs) = bs
event_bytes (fails e) = []

abbrev pub chunks_bytes : List Chunk → List ℕ
chunks_bytes [] = []
chunks_bytes (c ∷ cs) = c.bytes ++ chunks_bytes cs

abbrev pub after_deliver : Event → Use → Use
after_deliver e u = record {
  stream = deliver e u.stream;
  received_bytes = u.received_bytes ++ event_bytes e;
  taken = u.taken;
}

abbrev pub after_take : ℕ → Use → Use
after_take size u = record {
  stream = (take_batch size u.stream).1;
  received_bytes = u.received_bytes;
  taken = u.taken ++ chunks_bytes (take_batch size u.stream).0;
}

-- What the kernel, and a reader in any order, may do.
pub data Step (u : Use) : Use → Type 0 where
  delivers : (e : Event) → u.stream.live ≡ true → Step u (after_deliver e u)
  readies : Step u (record u { stream = (ready u.stream).0 })
  arms : Step u (record u { stream = arm u.stream })
  takes : (size : ℕ) → Step u (after_take size u)

pub data Reach (u : Use) : Use → Type 0 where
  here : Reach u u
  next : {v w : Use} → Reach u v → Step v w → Reach u w

pub deliver-IsExclusive :
    (e : Event) (s : SingleShot) → s.live ≡ true → IsExclusive s → IsExclusive (deliver e s)
unfolding deliver
deliver-IsExclusive (received []) s l x = ground arith
deliver-IsExclusive (received (b ∷ bs)) s l x = ground arith
deliver-IsExclusive (fails e) s l x = ground arith

pub deliver-waiting :
    (e : Event) (s : SingleShot) → s.has_chunk ≡ false → waiting (deliver e s) ≡ event_bytes e
unfolding deliver
deliver-waiting (received []) s h = ground arith
deliver-waiting (received (b ∷ bs)) s h = elim (Bool-cases s.waiter) [
  | inl e ↦ rw e (take-length-append (b ∷ bs) _)
  | inr e ↦ rw e (take-length-append (b ∷ bs) _)
]
deliver-waiting (fails e) s h = ground arith

pub ready-IsExclusive : (s : SingleShot) → IsExclusive s → IsExclusive (ready s).0
unfolding ready submit_recv
ready-IsExclusive s x = ground arith

pub ready-waiting : (s : SingleShot) → waiting (ready s).0 ≡ waiting s
unfolding ready submit_recv
ready-waiting s = ground arith

pub take-IsExclusive :
    (size : ℕ) (s : SingleShot) → IsExclusive s → IsExclusive (take_batch size s).1
unfolding take_batch
take-IsExclusive size s x = ground arith

take-waiting :
    (size : ℕ) (s : SingleShot)
    → chunks_bytes (take_batch size s).0 ++ waiting (take_batch size s).1 ≡ waiting s
unfolding take_batch
take-waiting size s = ground (arith, append-nil (take s.len s.buf))

Step-IsSound : {u v : Use} → Step u v → IsSound u → IsSound v
unfolding arm
Step-IsSound {u} (delivers e l) x =
    let idle : u.stream.has_chunk ≡ false = ground (arith, x.exclusive.kernel l) in
    record {
      exclusive = deliver-IsExclusive e u.stream l x.exclusive;
      bytes =
          ap (λ w. u.taken ++ w) (deliver-waiting e u.stream idle)
          ∙ ap (λ t. t ++ event_bytes e) (nothing_waits idle);
    }
  where
    nothing_waits : u.stream.has_chunk ≡ false → u.taken ≡ u.received_bytes
    nothing_waits idle = sym (append-nil u.taken) ∙ rw idle at x.bytes
Step-IsSound {u} readies x = record {
  exclusive = ready-IsExclusive u.stream x.exclusive;
  bytes = ap (λ w. u.taken ++ w) (ready-waiting u.stream) ∙ x.bytes;
}
Step-IsSound {u} arms x = record {
  exclusive = record {
    kernel = x.exclusive.kernel;
    reader = x.exclusive.reader;
    busy = x.exclusive.busy;
  };
  bytes = x.bytes;
}
Step-IsSound {u} (takes size) x = record {
  exclusive = take-IsExclusive size u.stream x.exclusive;
  bytes = append_assoc u.taken _ _ ∙ ap (λ w. u.taken ++ w) (take-waiting size u.stream) ∙ x.bytes;
}

-- From a stream in use as it should be, whatever the kernel delivers while the recv is in flight and
-- the reader does: at most one of the kernel, a chunk that waits and the reader has the buffer, one of
-- them while the stream is open; and the bytes that were taken, with those that wait, are those that
-- were received, in order, so the recv never overwrites a byte before it was taken.
pub Reach-IsSound : {u v : Use} → IsSound u → Reach u v → IsSound v
Reach-IsSound x here = x
Reach-IsSound x (next r st) = Step-IsSound st (Reach-IsSound x r)

-- From a stream in use as it should be, after anything that may happen: when the reader asks whether a
-- chunk is there and gets no, the recv is in flight, so the completion it suspends for can come.
pub Reach-ready_live :
    {u v : Use}
    → IsSound u
    → Reach u v
    → (ready v.stream).1 ≡ false
    → (ready v.stream).0.live ≡ true
unfolding ready submit_recv
Reach-ready_live x r e = let y = (Reach-IsSound x r).exclusive in ground arith
