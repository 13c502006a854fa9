-- ===== src/EndToEnd/Issued.antt =====
-- The client's calls of `pread` and `pwrite`, client/client.cpp, one after the other: what they leave in
-- `_pending`, and what their `send_request`s are to send.
use native.Mathlib.Nat.{mod-eq_of_lt}
use easybd.Base.{
  ℕ, suc, ◌+◌, ◌%◌, ◌^◌, ◌≤◌, ◌<◌, ◌≡◌, refl, sym, ap, ◌∙◌, subst, inl, inr, List, [], ◌∷◌, map,
  Bool, true, false, All, length, arith, ltb, ◌==◌, if◌then◌else◌, some, Bool-cases, ltb→le,
  ==_refl,
}
use easybd.Base.Int.{pos, neg, is_neg}
use easybd.Wire.{ByteOrder, max_payload_size, emsgsize}
use easybd.Client.{Pending, Client, find, erase, pread, pwrite}
use easybd.Client.Stranded.{find-erase_ne}
use easybd.Capi.Requests.{Call, reads, writes, size_of, pending_of, request}
use easybd.EndToEnd.{Request, read_request, write_request, sent, IsSendable}
use easybd.EndToEnd.Responses.{cid_of, IsAsked, AllAsked}
use easybd.EndToEnd.RoundTrip.{requests_of}

-- The client after the calls, and the messages of those that were not refused.
unfoldable pub issue : ByteOrder → List Call → Client → Client × List (List ℕ)
issue order [] c = (c, [])
issue order (k ∷ ks) c =
    let (c', ret, bytes) = request order k c in
    let (c2, later) = issue order ks c' in (c2, if is_neg ret then later else bytes ∷ later)

-- The requests that calls make, from a cid on.
abbrev pub request_of : Bool → ℕ → Call → Pending × Request
request_of sync cid (reads buf size offset user_data) =
    (pending_of (reads buf size offset user_data), read_request cid offset size)
request_of sync cid (writes payload offset user_data) =
    (pending_of (writes payload offset user_data), write_request cid offset payload sync)

unfoldable pub asked_by : Bool → ℕ → List Call → List (Pending × Request)
asked_by sync cid [] = []
asked_by sync cid (k ∷ ks) = elim (ltb max_payload_size (size_of k)) [
  | true ↦ asked_by sync cid ks
  | false ↦ request_of sync cid k ∷ asked_by sync (cid + 1) ks
]

abbrev pub offset_of : Call → ℕ
offset_of (reads buf size offset user_data) = offset
offset_of (writes payload offset user_data) = offset

abbrev pub AllFit : List Call → Type 0
AllFit ks = All (λ k. offset_of k < 2 ^ 64) ks

-- The client behind a call that was not refused.
abbrev queued : Call → Client → Client
queued k c = record c {
  next_cid = (c.next_cid + 1) % 2 ^ 64;
  pending = (c.next_cid, pending_of k) ∷ erase c.next_cid c.pending;
}

request_large :
    (order : ByteOrder) (k : Call) (c : Client)
    → ltb max_payload_size (size_of k) ≡ true
    → request order k c ≡ (c, neg (pos emsgsize), [])
unfolding pread pwrite
request_large order (reads buf size offset user_data) c h = rw h refl
request_large order (writes payload offset user_data) c h = rw h refl

request_small :
    (order : ByteOrder) (k : Call) (c : Client)
    → ltb max_payload_size (size_of k) ≡ false
    → request order k c ≡ (queued k c, pos 0, sent order (request_of c.sync_writes c.next_cid k).1)
unfolding pread pwrite
request_small order (reads buf size offset user_data) c h = rw h refl
request_small order (writes payload offset user_data) c h = rw h refl

issue_large :
    (order : ByteOrder) (k : Call) (ks : List Call) (c : Client)
    → ltb max_payload_size (size_of k) ≡ true
    → issue order (k ∷ ks) c ≡ issue order ks c
unfolding issue
issue_large order k ks c h = rw (request_large order k c h) refl

issue_small :
    (order : ByteOrder) (k : Call) (ks : List Call) (c : Client)
    → ltb max_payload_size (size_of k) ≡ false
    → issue order (k ∷ ks) c ≡ (
        let (c', later) = issue order ks (queued k c) in
        (c', sent order (request_of c.sync_writes c.next_cid k).1 ∷ later))
unfolding issue
issue_small order k ks c h = rw (request_small order k c h) refl

next_cid_small : (n m : ℕ) → n + suc m < 2 ^ 64 → (n + 1) % 2 ^ 64 ≡ n + 1
next_cid_small n m h = mod-eq_of_lt {n = n + 1} {m = 2 ^ 64} (omega arith)

next_cid_bound : (n m : ℕ) → n + suc m < 2 ^ 64 → (n + 1) % 2 ^ 64 + m < 2 ^ 64
next_cid_bound n m h = omega (arith, next_cid_small n m h)

find-queued : (k : Call) (c : Client) → find c.next_cid (queued k c).pending ≡ some (pending_of k)
unfolding find
find-queued k c = rw (==_refl c.next_cid) refl

pub reading-issue :
    (order : ByteOrder) (ks : List Call) (c : Client) → (issue order ks c).0.reading ≡ c.reading
unfolding issue
reading-issue order [] c = refl
reading-issue order (k ∷ ks) c = elim (Bool-cases (ltb max_payload_size (size_of k))) [
  | inl e ↦
      ap (λ (x : Client × List (List ℕ)). x.0.reading) (issue_large order k ks c e)
      ∙ reading-issue order ks c
  | inr e ↦
      ap (λ (x : Client × List (List ℕ)). x.0.reading) (issue_small order k ks c e)
      ∙ reading-issue order ks (queued k c)
]

-- What `pread` and `pwrite` queued is sent in the order of the calls.
pub issue-sent :
    (order : ByteOrder) (ks : List Call) (c : Client)
    → c.next_cid + length ks < 2 ^ 64
    → (issue order ks c).1 ≡ map (sent order) (requests_of (asked_by c.sync_writes c.next_cid ks))
unfolding asked_by issue
issue-sent order [] c h = refl
issue-sent order (k ∷ ks) c h = elim (Bool-cases (ltb max_payload_size (size_of k))) [
  | inl e ↦
      rw (asked_by, e)
        (ap (λ x. x.1) (issue_large order k ks c e) ∙ issue-sent order ks c (omega arith))
  | inr e ↦
      rw (asked_by, e)
        (ap (λ x. x.1) (issue_small order k ks c e)
          ∙ ap (λ l. sent order (request_of c.sync_writes c.next_cid k).1 ∷ l)
              (issue-sent order ks (queued k c) (next_cid_bound c.next_cid (length ks) h)
                ∙ ap (λ n. map (sent order) (requests_of (asked_by c.sync_writes n ks)))
                    (next_cid_small c.next_cid (length ks) h)))
]

-- Calls leave the requests before them as they are.
find-issue :
    (order : ByteOrder) (i : ℕ) (ks : List Call) (c : Client)
    → i < c.next_cid
    → c.next_cid + length ks < 2 ^ 64
    → find i (issue order ks c).0.pending ≡ find i c.pending
unfolding issue
find-issue order i [] c b h = refl
find-issue order i (k ∷ ks) c b h = elim (Bool-cases (ltb max_payload_size (size_of k))) [
  | inl e ↦
      ap (λ (x : Client × List (List ℕ)). find i x.0.pending) (issue_large order k ks c e)
      ∙ find-issue order i ks c b (omega arith)
  | inr e ↦
      let other : (c.next_cid == i) ≡ false = ground arith in
      ap (λ (x : Client × List (List ℕ)). find i x.0.pending) (issue_small order k ks c e)
      ∙ find-issue order i ks (queued k c) (omega (arith, next_cid_small c.next_cid (length ks) h))
          (next_cid_bound c.next_cid (length ks) h)
      ∙ (unfold find in rw other (find-erase_ne i c.next_cid c.pending other))
]

asked_by-above :
    (sync : Bool) (m n : ℕ) (ks : List Call)
    → m < n
    → All (λ (y : Pending × Request). (m == cid_of y.1) ≡ false) (asked_by sync n ks)
unfolding asked_by
asked_by-above sync m n [] h = tt
asked_by-above sync m n (k ∷ ks) h = elim (Bool-cases (ltb max_payload_size (size_of k))) [
  | inl e ↦ rw (asked_by, e) (asked_by-above sync m n ks h)
  | inr e ↦ rw (asked_by, e) (cid_above k, asked_by-above sync m (n + 1) ks (omega arith))
]
  where
    cid_above : (k : Call) → (m == cid_of (request_of sync n k).1) ≡ false
    cid_above (reads buf size offset user_data) = ground (arith, h)
    cid_above (writes payload offset user_data) = ground (arith, h)

cid_of-request_of : (sync : Bool) (n : ℕ) (k : Call) → cid_of (request_of sync n k).1 ≡ n
cid_of-request_of sync n (reads buf size offset user_data) = refl
cid_of-request_of sync n (writes payload offset user_data) = refl

queued-IsAsked :
    (sync : Bool) (k : Call) (n : ℕ) (c : Client)
    → find n c.pending ≡ some (pending_of k)
    → n < 2 ^ 64
    → IsAsked c (request_of sync n k).0 (request_of sync n k).1
queued-IsAsked sync (reads buf size offset user_data) n c e b = record {
  known = e;
  kind = refl;
  cid = b;
}
queued-IsAsked sync (writes payload offset user_data) n c e b = record {
  known = e;
  kind = refl;
  cid = b;
}

-- Every request that was sent is pending under its own cid.
pub issue-AllAsked :
    (order : ByteOrder) (ks : List Call) (c : Client)
    → c.next_cid + length ks < 2 ^ 64
    → AllAsked (issue order ks c).0 (asked_by c.sync_writes c.next_cid ks)
unfolding asked_by
issue-AllAsked order [] c h = tt
issue-AllAsked order (k ∷ ks) c h = elim (Bool-cases (ltb max_payload_size (size_of k))) [
  | inl e ↦ rw (asked_by, e, issue_large order k ks c e) (issue-AllAsked order ks c (omega arith))
  | inr e ↦
      let known =
        find-issue order c.next_cid ks (queued k c)
          (omega (arith, next_cid_small c.next_cid (length ks) h))
          (next_cid_bound c.next_cid (length ks) h)
        ∙ find-queued k c in
      let above = asked_by-above c.sync_writes c.next_cid (c.next_cid + 1) ks (omega arith) in
      let later = issue-AllAsked order ks (queued k c) (next_cid_bound c.next_cid (length ks) h) in
      let all : AllAsked (issue order ks (queued k c)).0
          (asked_by c.sync_writes c.next_cid (k ∷ ks)) =
        rw (asked_by, e)
          (
            queued-IsAsked c.sync_writes k c.next_cid _ known (omega arith),
            rw (cid_of-request_of c.sync_writes c.next_cid k) above,
            subst (λ n. AllAsked (issue order ks (queued k c)).0 (asked_by c.sync_writes n ks))
                (next_cid_small c.next_cid (length ks) h) later,
          ) in
      subst
        (λ (x : Client × List (List ℕ)). AllAsked x.0 (asked_by c.sync_writes c.next_cid (k ∷ ks)))
        (sym (issue_small order k ks c e)) all
]

request_of-IsSendable :
    (sync : Bool) (n : ℕ) (k : Call)
    → n < 2 ^ 64
    → offset_of k < 2 ^ 64
    → ltb max_payload_size (size_of k) ≡ false
    → IsSendable (request_of sync n k).1
request_of-IsSendable sync n (reads buf size offset user_data) b o e =
    (b, o, ltb→le max_payload_size size e)
request_of-IsSendable sync n (writes payload offset user_data) b o e =
    (b, o, ltb→le max_payload_size (length payload) e)

pub asked_by-IsSendable :
    (sync : Bool) (n : ℕ) (ks : List Call)
    → n + length ks < 2 ^ 64
    → AllFit ks
    → All IsSendable (requests_of (asked_by sync n ks))
unfolding asked_by
asked_by-IsSendable sync n [] h o = tt
asked_by-IsSendable sync n (k ∷ ks) h o = elim (Bool-cases (ltb max_payload_size (size_of k))) [
  | inl e ↦ rw (asked_by, e) (asked_by-IsSendable sync n ks (omega arith) o.1)
  | inr e ↦
      rw (asked_by, e)
        (
          request_of-IsSendable sync n k (omega arith) o.0 e,
          asked_by-IsSendable sync (n + 1) ks (omega arith) o.1,
        )
]

pub length-asked_by :
    (sync : Bool) (n : ℕ) (ks : List Call) → length (requests_of (asked_by sync n ks)) ≤ length ks
unfolding asked_by
length-asked_by sync n [] = omega arith
length-asked_by sync n (k ∷ ks) = elim (Bool-cases (ltb max_payload_size (size_of k))) [
  | inl e ↦ rw (asked_by, e) (omega (arith, length-asked_by sync n ks))
  | inr e ↦ rw (asked_by, e) (omega (arith, length-asked_by sync (n + 1) ks))
]
