-- ===== src/Client/Account.antt =====
-- client.cpp: every accepted request is pending or was called back, and is so exactly once.
use easybd.Base.{
  ℕ, ◌+◌, ◌%◌, ◌^◌, ◌<◌, ◌≡◌, refl, inl, inr, List, [], ◌∷◌, Bool, true, false, ◌&&◌, Option, some,
  ltb, ◌==◌, if◌then◌else◌, length, arith, Bool-cases, Option-cases, ==_iff,
}
use easybd.Base.Int.{ℤ, pos, neg}
use easybd.Wire.{ResponseHeader, ByteOrder, max_payload_size}
use easybd.Client.{
  Pending, Call, Client, new, find, erase, dispatch, fail_each, fail_all_pending, send_failed,
  pread, pwrite, complete, broken, econnreset,
}

-- How often a cid is pending, and how often its callback was called.
abbrev pub in_flight : ℕ → List (ℕ × Pending) → ℕ
in_flight i [] = 0
in_flight i ((c, p) ∷ ps) = (if c == i then 1 else 0) + in_flight i ps

abbrev pub called : ℕ → List Call → ℕ
called i [] = 0
called i (k ∷ ks) = (if k.cid == i then 1 else 0) + called i ks

-- The cids that have been given out.
abbrev pub is_issued : ℕ → Client → Bool
is_issued i c = ltb 0 i && ltb i c.next_cid

pub record Accounted (c : Client) : Type 0 where
  pub once : (i : ℕ) → in_flight i c.pending + called i c.calls ≡ (if is_issued i c then 1 else 0)
  pub counted : c.total_dispatched ≡ length c.calls
  pub below : (0 < c.next_cid) × (c.next_cid < 2 ^ 64)

in_flight-erase :
    (i cid : ℕ) (ps : List (ℕ × Pending))
    → in_flight i (erase cid ps) ≡ (if i == cid then 0 else in_flight i ps)
unfolding erase
in_flight-erase i cid [] = ground arith
in_flight-erase i cid ((c, p) ∷ ps) = ground (arith, in_flight-erase i cid ps)

pub in_flight_of_find :
    (cid : ℕ) (ps : List (ℕ × Pending)) (p : Pending) → find cid ps ≡ some p → 0 < in_flight cid ps
unfolding find
in_flight_of_find cid [] p e = cc
in_flight_of_find cid ((c, q) ∷ ps) p e = ground (arith, in_flight_of_find cid ps p)

pub new-Accounted : (sync : Bool) → Accounted (new sync)
new-Accounted sync = record {
  once = λ i. ground arith;
  counted = refl;
  below = (omega arith, omega arith);
}

-- A request that is taken out of `pending` and called back is still counted once.
taken-Accounted :
    (cid : ℕ) (p q : Pending) (res : ℤ) (copied : List (ℕ × List ℕ)) (c : Client)
    → find cid c.pending ≡ some p
    → Accounted c
    → Accounted (dispatch cid q res (record c { pending = erase cid c.pending; copied = copied }))
taken-Accounted cid p q res copied c e a = record {
  once = λ i. ground (
    arith,
    a.once i,
    in_flight-erase i cid c.pending,
    in_flight_of_find cid c.pending p e,
    a.once cid,
    ==_iff i cid,
  );
  counted = omega (arith, a.counted);
  below = a.below;
}

pub complete-Accounted :
    (resp : ResponseHeader) (p : Pending) (body : Option (List ℕ)) (c : Client)
    → find resp.cid c.pending ≡ some p
    → Accounted c
    → Accounted (complete resp p body c)
unfolding complete
complete-Accounted resp p body c e a = taken-Accounted resp.cid p p resp.res _ c e a

pub send_failed-Accounted : (cid : ℕ) (c : Client) → Accounted c → Accounted (send_failed cid c)
unfolding send_failed
send_failed-Accounted cid c a = elim (Option-cases (find cid c.pending)) [
  | inl e ↦ rw (e, send_failed) a
  | inr (p, e) ↦ rw (e, send_failed) (taken-Accounted cid p p (neg (pos econnreset)) c.copied c e a)
]

-- A new request takes a cid that nobody has.
issued-Accounted :
    (p : Pending) (c : Client)
    → c.next_cid + 1 < 2 ^ 64
    → Accounted c
    → Accounted (record c {
      next_cid = (c.next_cid + 1) % 2 ^ 64;
      pending = (c.next_cid, p) ∷ erase c.next_cid c.pending;
    })
issued-Accounted p c h a = record {
  once = λ i.
      ground (arith, a.once i, a.once c.next_cid, in_flight-erase i c.next_cid c.pending, a.below);
  counted = a.counted;
  below = (omega (arith, h), omega (arith, h));
}

pub pread-Accounted :
    (order : ByteOrder) (buf size offset user_data : ℕ) (c : Client)
    → c.next_cid + 1 < 2 ^ 64
    → Accounted c
    → Accounted (pread order buf size offset user_data c).0
unfolding pread
pread-Accounted order buf size offset user_data c h a =
    elim (Bool-cases (ltb max_payload_size size)) [
      | inl e ↦ rw e a
      | inr e ↦ rw e (issued-Accounted _ c h a)
    ]

pub pwrite-Accounted :
    (order : ByteOrder) (payload : List ℕ) (offset user_data : ℕ) (c : Client)
    → c.next_cid + 1 < 2 ^ 64
    → Accounted c
    → Accounted (pwrite order payload offset user_data c).0
unfolding pwrite
pwrite-Accounted order payload offset user_data c h a =
    elim (Bool-cases (ltb max_payload_size (length payload))) [
      | inl e ↦ rw e a
      | inr e ↦ rw e (issued-Accounted _ c h a)
    ]

called-fail_each :
    (i err : ℕ) (ps : List (ℕ × Pending)) (c : Client)
    → called i (fail_each ps err c).calls ≡ in_flight i ps + called i c.calls
unfolding fail_each
called-fail_each i err [] c = omega arith
called-fail_each i err ((cid, p) ∷ ps) c =
    omega (arith, called-fail_each i err ps (dispatch cid p (neg (pos err)) c))

-- `fail_all_pending` changes nothing but the calls and their count.
record Failed (ps : List (ℕ × Pending)) (c c' : Client) : Type 0 where
  calls_length : length c'.calls ≡ length ps + length c.calls
  total : c'.total_dispatched ≡ length ps + c.total_dispatched
  none_left : c'.pending ≡ c.pending
  next : c'.next_cid ≡ c.next_cid

fail_each-Failed :
    (err : ℕ) (ps : List (ℕ × Pending)) (c : Client) → Failed ps c (fail_each ps err c)
unfolding fail_each
fail_each-Failed err [] c = record {
  calls_length = omega arith;
  total = omega arith;
  none_left = refl;
  next = refl;
}
fail_each-Failed err ((cid, p) ∷ ps) c =
    let ih = fail_each-Failed err ps (dispatch cid p (neg (pos err)) c) in
    record {
      calls_length = omega (arith, ih.calls_length);
      total = omega (arith, ih.total);
      none_left = ih.none_left;
      next = ih.next;
    }

pub broken-Accounted : (c : Client) → Accounted c → Accounted (broken c)
unfolding broken fail_all_pending
broken-Accounted c a =
    let start : Client = record c { reading = false; pending = [] } in
    let f = fail_each-Failed econnreset c.pending start in
    record {
      once = λ i.
          rw (f.none_left, f.next)
            (omega (arith, a.once i, called-fail_each i econnreset c.pending start));
      counted = omega (arith, f.calls_length, f.total, a.counted);
      below = rw f.next a.below;
    }

-- When `reader_loop` ends at a client whose requests are accounted for: every cid that was given
-- out has been called back exactly once, and none is pending.
pub broken-called :
    (c : Client) (i : ℕ)
    → Accounted c
    → is_issued i c ≡ true
    → (called i (broken c).calls ≡ 1) × ((broken c).pending ≡ [])
unfolding broken fail_all_pending
broken-called c i a e =
    let start : Client = record c { reading = false; pending = [] } in
    (
      omega (arith, called-fail_each i econnreset c.pending start, rw e at (a.once i)),
      (fail_each-Failed econnreset c.pending start).none_left,
    )

pub broken-pending : (c : Client) → (broken c).pending ≡ []
unfolding broken fail_all_pending
broken-pending c =
    (fail_each-Failed econnreset c.pending (record c { reading = false; pending = [] })).none_left
