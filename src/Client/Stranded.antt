-- ===== src/Client/Stranded.antt =====
-- client.cpp: a request that is accepted after `reader_loop` has returned.
use easybd.Base.{
  ℕ, ◌+◌, ◌%◌, ◌^◌, ◌≤◌, ◌<◌, ◌≡◌, refl, ◌∙◌, inl, inr, List, [], ◌∷◌, Bool, true, false, some,
  ◌==◌, ltb, le→ltb, length, arith, Bool-cases, Option-cases, ==_iff,
}
use easybd.Base.Int.{pos}
use easybd.Wire.{ByteOrder, max_payload_size}
use easybd.Client.{Pending, Client, find, erase, send_failed, pread, pwrite}
use easybd.Client.Account.{Accounted, called}
use easybd.Client.Steps.{Step, reads, writes, responds, breaks, send_fails}

-- Whether an event is the failure of the send of `cid`.
abbrev pub is_send_failure : {order : ByteOrder} {c d : Client} → ℕ → Step order c d → Bool
is_send_failure cid (reads buf size offset user_data h) = false
is_send_failure cid (writes payload offset user_data h) = false
is_send_failure cid (responds resp p body h e) = false
is_send_failure cid (breaks h) = false
is_send_failure cid (send_fails i) = i == cid

-- Any events but the failure of that send.
pub data Quiet (order : ByteOrder) (cid : ℕ) (c : Client) : Client → Type 0 where
  here : Quiet order cid c c
  next :
      {d e : Client}
      → Quiet order cid c d
      → (st : Step order d e) → is_send_failure cid st ≡ false
      → Quiet order cid c e

pub find-erase_ne :
    (cid i : ℕ) (ps : List (ℕ × Pending)) → (i == cid) ≡ false → find cid (erase i ps) ≡ find cid ps
unfolding find erase
find-erase_ne cid i [] h = refl
find-erase_ne cid i ((c, p) ∷ ps) h = ground (arith, find-erase_ne cid i ps h)

-- What stays of a request that waits for a reader that is gone.
pub record Waits (cid : ℕ) (p : Pending) (n : ℕ) (c : Client) : Type 0 where
  pub gone : c.reading ≡ false
  pub pending : find cid c.pending ≡ some p
  pub issued : cid < c.next_cid
  pub calls : called cid c.calls ≡ n

send_failed-Waits :
    (cid i n : ℕ) (p : Pending) (c : Client)
    → (i == cid) ≡ false
    → Waits cid p n c
    → Waits cid p n (send_failed i c)
unfolding send_failed
send_failed-Waits cid i n p c h w = elim (Option-cases (find i c.pending)) [
  | inl e ↦ rw (e, send_failed) w
  | inr (q, e) ↦
      rw (e, send_failed)
        (record {
          gone = w.gone;
          pending = find-erase_ne cid i c.pending h ∙ w.pending;
          issued = w.issued;
          calls = ground (arith, w.calls);
        })
]

submitted-Waits :
    (cid n : ℕ) (p q : Pending) (c : Client)
    → c.next_cid + 1 < 2 ^ 64
    → Waits cid p n c
    → Waits cid p n (record c {
      next_cid = (c.next_cid + 1) % 2 ^ 64;
      pending = (c.next_cid, q) ∷ erase c.next_cid c.pending;
    })
unfolding find
submitted-Waits cid n p q c h w = record {
  gone = w.gone;
  pending = ground (arith, w.pending, w.issued, find-erase_ne cid c.next_cid c.pending);
  issued = omega (arith, w.issued, h);
  calls = w.calls;
}

Step-Waits :
    {order : ByteOrder} {c d : Client} (cid n : ℕ) (p : Pending) (st : Step order c d)
    → is_send_failure cid st ≡ false
    → Waits cid p n c
    → Waits cid p n d
unfolding pread pwrite
Step-Waits {c = c} cid n p (reads buf size offset user_data h) q w =
    elim (Bool-cases (ltb max_payload_size size)) [
      | inl e ↦ rw e w
      | inr e ↦ rw e (submitted-Waits cid n p _ c h w)
    ]
Step-Waits {c = c} cid n p (writes payload offset user_data h) q w =
    elim (Bool-cases (ltb max_payload_size (length payload))) [
      | inl e ↦ rw e w
      | inr e ↦ rw e (submitted-Waits cid n p _ c h w)
    ]
Step-Waits cid n p (responds resp r body h e) q w = absurd (cc (w.gone))
Step-Waits cid n p (breaks h) q w = absurd (cc (w.gone))
Step-Waits {c = c} cid n p (send_fails i) q w = send_failed-Waits cid i n p c q w

Quiet-Waits :
    {order : ByteOrder} (cid n : ℕ) (p : Pending) {c d : Client}
    → Waits cid p n c
    → Quiet order cid c d
    → Waits cid p n d
Quiet-Waits cid n p w here = w
Quiet-Waits cid n p w (next r st q) = Step-Waits cid n p st q (Quiet-Waits cid n p w r)

-- After `reader_loop` has returned, at a client whose requests are accounted for and whose cids
-- do not wrap round, `pread` of at most the maximal size returns 0 and registers the request;
-- after any events but the failure of that request's own send it is still pending, and its
-- callback was not called.
pub pread_stranded :
    (order : ByteOrder) (buf size offset user_data : ℕ) (c d : Client)
    → c.reading ≡ false
    → Accounted c
    → c.next_cid + 1 < 2 ^ 64
    → size ≤ max_payload_size
    → Quiet order c.next_cid (pread order buf size offset user_data c).0 d
    → ((pread order buf size offset user_data c).1 ≡ pos 0)
      × (called c.next_cid d.calls ≡ 0)
      × (find c.next_cid d.pending
          ≡ some (record { is_read = true; buf = buf; user_data = user_data }))
pread_stranded order buf size offset user_data c d gone a h small q =
    (unfold pread in rw (le→ltb max_payload_size size small), w.calls, w.pending)
  where
    p : Pending
    p = record { is_read = true; buf = buf; user_data = user_data }

    start : Waits c.next_cid p 0 (pread order buf size offset user_data c).0
    start =
        unfold pread find in
        rw (le→ltb max_payload_size size small) (record {
          gone = gone;
          pending = rw ((==_iff c.next_cid c.next_cid).1 refl);
          issued = omega (arith, h);
          calls = ground (arith, a.once c.next_cid, a.below);
        })

    w : Waits c.next_cid p 0 d
    w = Quiet-Waits c.next_cid 0 p start q
