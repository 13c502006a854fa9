-- ===== src/Capi/Requests/Queued.antt =====
-- What the return value of a request says of it.
use easybd.Base.{
  ℕ, ◌+◌, ◌%◌, ◌^◌, ◌≡◌, ◌≢◌, ◌⊎◌, inl, inr, refl, List, [], ◌∷◌, true, false, ltb, Bool-cases, ap,
  ◌∙◌, ◌==◌, ==_refl, arith, some,
}
use easybd.Base.Int.{ℤ, pos, neg, is_neg}
use easybd.Wire.{ByteOrder, max_payload_size}
use easybd.Client
use easybd.Client.{Client, Pending}
use easybd.Capi.{error_of}
use easybd.Capi.Requests.{
  Room, enough, no_entry, no_frame, Sender, suspends, sends, fails, Call, reads, writes, size_of,
  pending_of, request, client_request,
}

-- A request that was queued under the next cid.
pub record IsQueued (k : Call) (c d : Client) (ret : ℤ) : Type 0 where
  pub returned : ret ≡ pos 0
  pub pending : d.pending ≡ (c.next_cid, pending_of k) ∷ Client.erase c.next_cid c.pending
  pub calls : d.calls ≡ c.calls
  pub next : d.next_cid ≡ (c.next_cid + 1) % 2 ^ 64

-- A request that was not: nothing of it is left.
pub record IsRefused (c d : Client) (ret : ℤ) : Type 0 where
  pub returned : is_neg ret ≡ true
  pub pending : d.pending ≡ c.pending
  pub calls : d.calls ≡ c.calls

-- A request whose send failed inside the call: its callback was called, once, and it is not pending.
pub record IsFailed (k : Call) (c d : Client) (ret : ℤ) : Type 0 where
  pub returned : ret ≡ pos 0
  pub pending : d.pending ≡ Client.erase c.next_cid c.pending
  pub calls :
      d.calls
      ≡ record {
        cid = c.next_cid;
        user_data = (pending_of k).user_data;
        res = neg (pos Client.econnreset);
      }
        ∷ c.calls
  pub counted : d.total_dispatched ≡ c.total_dispatched + 1
  pub next : d.next_cid ≡ (c.next_cid + 1) % 2 ^ 64

-- What the call leaves, by what its sender did.
abbrev pub IsSpawned : Sender → Call → Client → Client → ℤ → Type 0
IsSpawned suspends k c d ret = IsQueued k c d ret
IsSpawned sends k c d ret = IsQueued k c d ret
IsSpawned fails k c d ret = IsFailed k c d ret

abbrev pub Answers : Sender → Call → Client → Client × ℤ × List ℕ → Type 0
Answers run k c (d, ret, bytes) = IsSpawned run k c d ret ⊎ (IsRefused c d ret × (bytes ≡ []))

-- `erase` leaves no entry to erase.
erase-erase :
    (cid : ℕ) (ps : List (ℕ × Pending))
    → Client.erase cid (Client.erase cid ps) ≡ Client.erase cid ps
unfolding Client.erase
erase-erase cid [] = refl
erase-erase cid ((c, p) ∷ ps) = elim (Bool-cases (c == cid)) [
  | inl e ↦ rw e (erase-erase cid ps)
  | inr e ↦ rw (e, e) (ap (λ l. (c, p) ∷ l) (erase-erase cid ps))
]

small-IsQueued :
    (order : ByteOrder) (k : Call) (c : Client)
    → ltb max_payload_size (size_of k) ≡ false
    → IsQueued k c (request order k c).0 (request order k c).1
unfolding Client.pread Client.pwrite
small-IsQueued order (reads buf size offset user_data) c h = record {
  returned = rw h refl;
  pending = rw h refl;
  calls = rw h refl;
  next = rw h refl;
}
small-IsQueued order (writes payload offset user_data) c h = record {
  returned = rw h refl;
  pending = rw h refl;
  calls = rw h refl;
  next = rw h refl;
}

-- A send that fails finds the request that was just entered.
entered-IsFailed :
    (k : Call) (c d : Client) (ret : ℤ)
    → IsQueued k c d ret
    → d.total_dispatched ≡ c.total_dispatched
    → IsFailed k c (Client.send_failed c.next_cid d) ret
unfolding Client.send_failed Client.find Client.erase
entered-IsFailed k c d ret q t =
    rw (e, Client.send_failed)
      (record {
        returned = q.returned;
        pending =
            ap (Client.erase c.next_cid) q.pending
            ∙ rw (==_refl c.next_cid) (erase-erase c.next_cid c.pending);
        calls = ap (λ l. answered ∷ l) q.calls;
        counted = ap (λ n. n + 1) t;
        next = q.next;
      })
  where
    answered : Client.Call
    answered = record {
      cid = c.next_cid;
      user_data = (pending_of k).user_data;
      res = neg (pos Client.econnreset);
    }

    e : Client.find c.next_cid d.pending ≡ some (pending_of k)
    e = ap (Client.find c.next_cid) q.pending ∙ rw (==_refl c.next_cid) refl

request-counted :
    (order : ByteOrder) (k : Call) (c : Client)
    → (request order k c).0.total_dispatched ≡ c.total_dispatched
unfolding Client.pread Client.pwrite
request-counted order (reads buf size offset user_data) c = ground arith
request-counted order (writes payload offset user_data) c = ground arith

large-IsRefused :
    (order : ByteOrder) (k : Call) (c : Client)
    → ltb max_payload_size (size_of k) ≡ true
    → IsRefused c (request order k c).0 (request order k c).1 × ((request order k c).2 ≡ [])
unfolding Client.pread Client.pwrite
large-IsRefused order (reads buf size offset user_data) c h =
    rw h (record { returned = refl; pending = refl; calls = refl }, refl)
large-IsRefused order (writes payload offset user_data) c h =
    rw h (record { returned = refl; pending = refl; calls = refl }, refl)

small-Answers :
    (room : Room) (run : Sender) (order : ByteOrder) (k : Call) (c : Client)
    → room ≢ no_frame
    → ltb max_payload_size (size_of k) ≡ false
    → Answers run k c (client_request room run order k c)
unfolding client_request error_of
small-Answers enough suspends order k c n h = rw h (inl (small-IsQueued order k c h))
small-Answers enough sends order k c n h = rw h (inl (small-IsQueued order k c h))
small-Answers enough fails order k c n h = rw h (
    inl (
      entered-IsFailed k c (request order k c).0 (request order k c).1 (small-IsQueued order k c h)
        (request-counted order k c)))
small-Answers no_entry run order k c n h =
    rw h (inr (record { returned = refl; pending = refl; calls = refl }, refl))
small-Answers no_frame run order k c n h = absurd (n refl)

-- Whatever the size, the memory, as long as there is some for the coroutine's frame, and whatever the spawned
-- `send_request` does before the call comes back: a request of the C interface returns a negative errno, has
-- entered nothing, sends nothing and calls no callback; or it returns 0 and is pending under the next cid,
-- with its buffer and user data, and no callback was called; or, when its send failed within the call, it
-- returns 0, is not pending, and its callback was called once, with -ECONNRESET, before the call returned.
pub client_request-Answers :
    (room : Room) (run : Sender) (order : ByteOrder) (k : Call) (c : Client)
    → room ≢ no_frame
    → Answers run k c (client_request room run order k c)
unfolding client_request
client_request-Answers room run order k c n = elim (Bool-cases (ltb max_payload_size (size_of k))) [
  | inl h ↦ rw h (inr (large-IsRefused order k c h))
  | inr h ↦ small-Answers room run order k c n h
]

-- Without a frame, the call returns a negative errno for a request that stays pending.
no_frame-stays :
    (run : Sender) (order : ByteOrder) (k : Call) (c : Client)
    → ltb max_payload_size (size_of k) ≡ false
    → let (d, ret, bytes) = client_request no_frame run order k c in
      (is_neg ret ≡ true)
      × (d.pending ≡ (c.next_cid, pending_of k) ∷ Client.erase c.next_cid c.pending)
unfolding client_request error_of
no_frame-stays run order k c h = rw h (refl, refl)
