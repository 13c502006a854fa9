-- ===== src/Client/Receive.antt =====
-- client.cpp, `reader_loop`: responses in any order are matched to the requests that they answer.
use easybd.Base.{
  ℕ, suc, ◌^◌, ◌<◌, ◌≡◌, ◌⊎◌, inl, inr, refl, sym, ap, ◌∙◌, subst, List, [], ◌∷◌, ◌++◌, Bool, true,
  ◌&&◌, Option, none, some, length, arith, if◌then◌else◌, append_assoc, length-append,
  take-eq_of_append, drop-eq_of_append, Bool-cases, eq-nil_of_length,
}
use easybd.Base.Int.{is_pos, to_ℕ}
use easybd.Stream.{RecvStream}
use easybd.Reader.{Result, ok, Reader, read_exact}
use easybd.Reader.Exact.{available, Succeeds, Fails, read_exact_lem}
use easybd.Wire.{ByteOrder, encode_response, response_header_size}
use easybd.Wire.RoundTrip.{IsInt64, length-encode_response, decode-encode_response}
use easybd.Session.Handlers.{Response, response_bytes}
use easybd.Client.{
  Pending, Call, Client, find, erase, complete, with_body, with_response, with_header, receive,
  reader_loop,
}

-- Whether a payload follows a response to `p`.
abbrev pub has_body : Pending → Response → Bool
has_body p x = p.is_read && is_pos x.header.res

abbrev pub body_of : Pending → Response → Option (List ℕ)
body_of p x = if has_body p x then some x.payload else none

-- A response to the pending request `p`, as the protocol describes it.
pub record IsAnswer (c : Client) (p : Pending) (x : Response) : Type 0 where
  pub known : find x.header.cid c.pending ≡ some p
  pub cid : x.header.cid < 2 ^ 64
  pub res : IsInt64 x.header.res
  pub payload : length x.payload ≡ (if has_body p x then to_ℕ x.header.res else 0)

-- Responses that come one after another, each to a request that is then pending.
abbrev pub Answers : Client → List (Pending × Response) → Type 0
Answers c [] = Unit {0}
Answers c ((p, x) ∷ xs) = IsAnswer c p x × Answers (complete x.header p (body_of p x) c) xs

-- What they do to the client, one after another.
abbrev pub completed : List (Pending × Response) → Client → Client
completed [] c = c
completed ((p, x) ∷ xs) c = completed xs (complete x.header p (body_of p x) c)

-- The calls of callbacks and the copies into buffers that answers bring about, newest first, and the
-- requests that they leave pending.
abbrev pub answered_calls : List (Pending × Response) → List Call → List Call
answered_calls [] calls = calls
answered_calls ((p, x) ∷ xs) calls =
    answered_calls xs
      (record { cid = x.header.cid; user_data = p.user_data; res = x.header.res } ∷ calls)

abbrev pub answered_copies : List (Pending × Response) → List (ℕ × List ℕ) → List (ℕ × List ℕ)
answered_copies [] copied = copied
answered_copies ((p, x) ∷ xs) copied =
    answered_copies xs (if has_body p x then (p.buf, x.payload) ∷ copied else copied)

abbrev pub unanswered : List (Pending × Response) → List (ℕ × Pending) → List (ℕ × Pending)
unanswered [] pending = pending
unanswered ((p, x) ∷ xs) pending = unanswered xs (erase x.header.cid pending)

pub record Answered (xs : List (Pending × Response)) (c d : Client) : Type 0 where
  pub called : d.calls ≡ answered_calls xs c.calls
  pub copied : d.copied ≡ answered_copies xs c.copied
  pub left : d.pending ≡ unanswered xs c.pending

completed-Answered : (xs : List (Pending × Response)) (c : Client) → Answered xs c (completed xs c)
completed-Answered [] c = record { called = refl; copied = refl; left = refl }
completed-Answered ((p, x) ∷ xs) c =
    let a = completed-Answered xs (complete x.header p (body_of p x) c) in
    record {
      called = a.called ∙ unfold complete in refl;
      copied = a.copied ∙ ap (answered_copies xs) (unfold complete in ground arith);
      left = a.left ∙ unfold complete in refl;
    }

abbrev pub answers_bytes : ByteOrder → List (Pending × Response) → List ℕ
answers_bytes order [] = []
answers_bytes order ((p, x) ∷ xs) = response_bytes order x ++ answers_bytes order xs

module _ (order : ByteOrder) (stream : RecvStream) where
  open stream use {State, ending, IsValid}

  -- A client and its stream after some rounds.
  record Arrives (c : Client) (later : List ℕ) (out : Client × Reader × State) : Type 0 where
    client : out.0 ≡ c
    left : available stream out.1 out.2 ≡ later
    valid : IsValid out.2

  -- A read of a part that is there succeeds with that part.
  read_part :
      (n : ℕ) (r : Reader) (s : State) (part later : List ℕ)
      → IsValid s
      → length part ≡ n
      → available stream r s ≡ part ++ later
      → (r' : Reader) × (s' : State) × (read_exact stream n r s ≡ (ok part, r', s'))
        × (available stream r' s' ≡ later)
        × IsValid s'
  read_part n r s part later v len e =
      go (read_exact stream n r s) refl (read_exact_lem stream n r s v)
    where
      go :
          (out : Result (List ℕ) × Reader × State)
          → read_exact stream n r s ≡ out
          → Succeeds stream n (available stream r s) (ending s) out
            ⊎ Fails stream n (available stream r s) (ending s) out
          → (r' : Reader) × (s' : State) × (read_exact stream n r s ≡ (ok part, r', s'))
            × (available stream r' s' ≡ later)
            × IsValid s'
      go (res, r', s') q (inl g) = (
        r',
        s',
        q
            ∙ ap (λ t. (t, r', s'))
                (g.returned ∙ ap ok (take-eq_of_append n part later _ len (sym e))),
        g.remains ∙ drop-eq_of_append n part later _ len (sym e),
        g.still_valid,
      )
      go (res, r', s') q (inr b) =
          absurd (omega (arith, b.short, ap length e, length-append part later, len))

  with_response_lem :
      (p : Pending) (x : Response) (c : Client) (r : Reader) (s : State) (later : List ℕ)
      → IsValid s
      → IsAnswer c p x
      → available stream r s ≡ x.payload ++ later
      → Arrives
          (complete x.header p (body_of p x) c)
          later
          (with_response order stream x.header c r s)
  unfolding with_response with_body
  with_response_lem p x c r s later v a e = elim (Bool-cases (has_body p x)) [
    | inl b ↦
        let (r', s', q, left, v') =
          read_part (to_ℕ x.header.res) r s x.payload later v (rw b at (a.payload)) e in
        rw (a.known, with_response, b, q) (record { client = refl; left = left; valid = v' })
    | inr b ↦
        let none_follows : x.payload ≡ [] = eq-nil_of_length x.payload (rw b at (a.payload)) in
        rw (a.known, with_response, b)
          (record { client = refl; left = e ∙ ap (λ t. t ++ later) none_follows; valid = v })
  ]

  -- One round.
  receive_lem :
      (p : Pending) (x : Response) (c : Client) (r : Reader) (s : State) (later : List ℕ)
      → IsValid s
      → IsAnswer c p x
      → available stream r s ≡ response_bytes order x ++ later
      → Arrives (complete x.header p (body_of p x) c) later (receive order stream c r s)
  unfolding receive response_bytes
  receive_lem p x c r s later v a e =
      let (r', s', q, left, v') =
        read_part response_header_size r s (encode_response order x.header) (x.payload ++ later) v
          (length-encode_response order x.header)
          (e ∙ append_assoc (encode_response order x.header) x.payload later) in
      rw (q, with_header, decode-encode_response order x.header a.cid a.res)
        (with_response_lem p x c r' s' later v' a left)

  complete-reading :
      (p : Pending) (x : Response) (c : Client)
      → (complete x.header p (body_of p x) c).reading ≡ c.reading
  unfolding complete
  complete-reading p x c = refl

  reader_loop_step :
      (n : ℕ) (c : Client) (r : Reader) (s : State) (out : Client × Reader × State)
      → c.reading ≡ true
      → receive order stream c r s ≡ out
      → reader_loop order stream (suc n) c r s ≡ reader_loop order stream n out.0 out.1 out.2
  unfolding reader_loop
  reader_loop_step n c r s out h e = rw (h, reader_loop, ← e)

  -- The rounds of `reader_loop` are the completions of the answers.
  reader_loop-completed :
      (xs : List (Pending × Response)) (c : Client) (r : Reader) (s : State) (later : List ℕ)
      → IsValid s
      → c.reading ≡ true
      → Answers c xs
      → available stream r s ≡ answers_bytes order xs ++ later
      → let (c', r', s') = reader_loop order stream (length xs) c r s in
        (c' ≡ completed xs c) × (available stream r' s' ≡ later)
  reader_loop-completed [] c r s later v h a e = unfold reader_loop in (refl, e)
  reader_loop-completed ((p, x) ∷ xs) c r s later v h a e =
      rw (reader_loop_step (length xs) c r s (receive order stream c r s) h refl) (
        go (receive order stream c r s)
          (receive_lem p x c r s (answers_bytes order xs ++ later) v a.0
            (e ∙ append_assoc (response_bytes order x) (answers_bytes order xs) later))
          (reader_loop-completed xs))
    where
      c' : Client
      c' = complete x.header p (body_of p x) c

      go :
          (out : Client × Reader × State)
          → Arrives c' (answers_bytes order xs ++ later) out
          → ((d : Client) (r' : Reader) (s' : State) (l : List ℕ)
              → IsValid s'
              → d.reading ≡ true
              → Answers d xs
              → available stream r' s' ≡ answers_bytes order xs ++ l
              → let (d', r'', s'') = reader_loop order stream (length xs) d r' s' in
                (d' ≡ completed xs d) × (available stream r'' s'' ≡ l))
          → let (d', r'', s'') = reader_loop order stream (length xs) out.0 out.1 out.2 in
            (d' ≡ completed xs c') × (available stream r'' s'' ≡ later)
      go (d, r', s') w ih =
          rw w.client (ih c' r' s' later w.valid (complete-reading p x c ∙ h) a.1 w.left)

  -- For answers to pending requests, in any order and split into chunks in any way by a valid
  -- stream: `reader_loop` matches each to its request by the cid, gives its payload to that
  -- request's buffer, calls that callback with its result, and stops before the bytes that
  -- follow.
  pub reader_loop_lem :
      (xs : List (Pending × Response)) (c : Client) (r : Reader) (s : State) (later : List ℕ)
      → IsValid s
      → c.reading ≡ true
      → Answers c xs
      → available stream r s ≡ answers_bytes order xs ++ later
      → let (c', r', s') = reader_loop order stream (length xs) c r s in
        Answered xs c c' × (available stream r' s' ≡ later)
  reader_loop_lem xs c r s later v h a e =
      let out = reader_loop-completed xs c r s later v h a e in
      (subst (Answered xs c) (sym out.0) (completed-Answered xs c), out.1)
