-- ===== src/Session/Parse.antt =====
-- session.cpp: the loop of `handle_connection`, against a parser of the connection's bytes.
use easybd.Base.{
  ℕ, zero, suc, ◌≤◌, ◌<◌, ◌≡◌, ◌≢◌, refl, ap, ap₂, ◌∙◌, ◌⊎◌, inl, inr, List, [], ◌∷◌, ◌||◌, Bool,
  length, take, drop, arith, ltb, lt→ltb, le→ltb, ltb→le, Bool-cases, if◌then◌else◌, ◌==◌,
  length-drop,
}
use easybd.Stream.{Ending, RecvStream}
use easybd.Reader.{Result, Reader, read_exact, read_exact_into}
use easybd.Reader.Absorb.{thrown_of}
use easybd.Reader.Exact.{available, Succeeds, Fails, read_exact_lem}
use easybd.Reader.Into.{read_exact_into_lem}
use easybd.Wire.{
  RequestHeader, ByteOrder, decode_request, request_header_size, max_payload_size, op_read,
}
use easybd.Session.{
  Job, write_job, read_job, error_job, Stop, thrown, too_large, invalid_op, out_of_memory, no_fuel,
  no_buffer, spawn, is_write, read_or_error, with_payload, request, with_header, connection,
}

-- A handler before those of the later requests.
abbrev first : Job → List Job × Stop → List Job × Stop
first j later = (j ∷ later.0, later.1)

-- What a read of the protocol, op 0, asks for: its bytes, or `EMSGSIZE` for too many.
abbrev pub asked_read : RequestHeader → Job
asked_read req =
    if ltb max_payload_size req.size
    then error_job req.cid 90
    else read_job req.cid req.offset req.size

module _ (order : ByteOrder) (room : RequestHeader → Bool) (fin : Ending) where
  -- One request out of the bytes after its header, by the numbers of protocol.h: 1 and 2 are the plain and
  -- the durable write. A write with no bytes needs no memory.
  unfoldable pub parse_request :
      RequestHeader → List ℕ → (List ℕ → List Job × Stop) → List Job × Stop
  parse_request req all next =
      if req.op == 1 || req.op == 2
      then (if ltb max_payload_size req.size
          then ([], too_large)
          else if room req || req.size == 0
          then (if ltb (length all) req.size
              then ([], thrown (thrown_of fin))
              else first (write_job req.cid req.offset (take req.size all) (req.op == 2))
                  (next (drop req.size all)))
          else ([], out_of_memory))
      else if req.op == 0
      then first (asked_read req) (next all)
      else ([], invalid_op)

  -- The requests in a connection's bytes, up to the first that is not one or finds no memory.
  unfoldable pub parse : ℕ → List ℕ → List Job × Stop
  unfolding parse_request
  parse zero all = ([], no_fuel)
  parse (suc f) all =
      let rest =
        parse_request (decode_request order (take request_header_size all))
          (drop request_header_size all) (parse f) in
      if ltb (length all) request_header_size then ([], thrown (thrown_of fin)) else rest

module _ (order : ByteOrder) (room : RequestHeader → Bool) (stream : RecvStream) where
  open stream use {State, ending, IsValid}

  -- Two continuations that agree wherever the stream is valid and still ends in `fin`.
  abbrev Agree : Ending → (Reader → State → List Job × Stop) → (List ℕ → List Job × Stop) → Type 0
  Agree fin next next' =
      (r : Reader) (s : State)
      → IsValid s
      → ending s ≡ fin
      → next r s ≡ next' (available stream r s)

  -- `AlignedBuffer` throws for some bytes that there is no room for.
  has_buffer :
      (room : RequestHeader → Bool) (req : RequestHeader) (x y : List Job × Stop)
      → (if no_buffer room req then x else y) ≡ (if room req || req.size == 0 then y else x)
  has_buffer room req x y = ground arith

  request_refines :
      (req : RequestHeader) (r : Reader) (s : State) (next : Reader → State → List Job × Stop)
      (next' : List ℕ → List Job × Stop)
      → IsValid s
      → Agree (ending s) next next'
      → request order room stream req r s next
        ≡ parse_request order room (ending s) req (available stream r s) next'
  unfolding request parse_request
  request_refines req r s next next' v agree = elim (Bool-cases (is_write req.op)) [
    | inl w ↦ rw w (
        ap
          (λ t.
            if ltb max_payload_size req.size
            then ([], too_large)
            else if no_buffer room req
            then ([], out_of_memory)
            else t)
          (payload (read_exact_into stream req.size r s)
            (read_exact_into_lem stream req.size r s v))
        ∙ ap (λ t. if ltb max_payload_size req.size then ([], too_large) else t)
            (has_buffer room req ([], out_of_memory) _))
    | inr n ↦ rw n (
        ap (λ t. if req.op == op_read then spawn (read_or_error req) t else ([], invalid_op))
          (agree r s v refl))
  ]
    where
      all : List ℕ
      all = available stream r s

      payload :
          (out : Result (List ℕ) × Reader × State)
          → Succeeds stream req.size all (ending s) out ⊎ Fails stream req.size all (ending s) out
          → with_payload order room stream req out next ≡ (
              if ltb (length all) req.size
              then ([], thrown (thrown_of (ending s)))
              else first
                  (write_job req.cid req.offset (take req.size all) (req.op == 2))
                  (next' (drop req.size all)))
      payload (res, r', s') (inl g) =
          rw (g.returned, le→ltb _ _ g.enough)
            (ap (first (write_job req.cid req.offset (take req.size all) (req.op == 2)))
              (agree r' s' g.still_valid g.same_ending ∙ ap next' g.remains))
      payload (res, r', s') (inr b) = rw (b.thrown, lt→ltb _ _ b.short)

  -- On a valid stream, for every fuel and whatever memory there is: `handle_connection` spawns, in order, the
  -- handlers of exactly the requests that its bytes hold up to the first write that finds no memory,
  -- however the backend splits them into chunks, and ends for the reason that the bytes, or the memory,
  -- give.
  pub connection_refines :
      (f : ℕ) (r : Reader) (s : State)
      → IsValid s
      → connection order room stream f r s ≡ parse order room (ending s) f (available stream r s)
  unfolding connection parse
  connection_refines zero r s v = refl
  connection_refines (suc f) r s v =
      header (read_exact stream request_header_size r s)
        (read_exact_lem stream request_header_size r s v)
        (λ r' s' v' e.
          connection_refines f r' s' v'
          ∙ ap (λ fin. parse order room fin f (available stream r' s')) e)
    where
      all : List ℕ
      all = available stream r s

      header :
          (out : Result (List ℕ) × Reader × State)
          → Succeeds stream request_header_size all (ending s) out
            ⊎ Fails stream request_header_size all (ending s) out
          → Agree (ending s) (connection order room stream f) (parse order room (ending s) f)
          → with_header order room stream out (connection order room stream f) ≡ (
              if ltb (length all) request_header_size
              then ([], thrown (thrown_of (ending s)))
              else parse_request order room
                  (ending s)
                  (decode_request order (take request_header_size all))
                  (drop request_header_size all)
                  (parse order room (ending s) f))
      header (res, r', s') (inl g) ih =
          rw (g.returned, le→ltb _ _ g.enough)
            (unfold with_header in
              request_refines (decode_request order (take request_header_size all)) r' s'
                (connection order room stream f) (parse order room (ending s) f) g.still_valid
                (λ r'' s'' v' e. ih r'' s'' v' (e ∙ g.same_ending))
              ∙ ap₂
                  (λ fin bytes.
                    parse_request order room fin
                      (decode_request order (take request_header_size all)) bytes
                      (parse order room (ending s) f))
                  g.same_ending g.remains)
      header (res, r', s') (inr b) ih = rw (b.thrown, lt→ltb _ _ b.short)

module _ (order : ByteOrder) (room : RequestHeader → Bool) (fin : Ending) where
  parse_request-total :
      (req : RequestHeader) (all : List ℕ) (next : List ℕ → List Job × Stop)
      → ((bytes : List ℕ) → length bytes ≤ length all → (next bytes).1 ≢ no_fuel)
      → (parse_request order room fin req all next).1 ≢ no_fuel
  unfolding parse_request
  parse_request-total req all next h =
      ground (arith, h all, h (drop req.size all), length-drop req.size all)

  -- A parse never runs out of fuel once it has more than there are bytes.
  pub parse-total :
      (f : ℕ) (all : List ℕ) → length all < f → (parse order room fin f all).1 ≢ no_fuel
  unfolding parse
  parse-total zero all h = absurd (omega arith)
  parse-total (suc f) all h = elim (Bool-cases (ltb (length all) request_header_size)) [
    | inl e ↦ rw e (λ k. cc)
    | inr e ↦ rw e (
        parse_request-total (decode_request order (take request_header_size all))
          (drop request_header_size all) (parse order room fin f)
          (λ bytes le.
            parse-total f bytes
              (omega (arith, h, le, ltb→le _ _ e, length-drop request_header_size all))))
  ]

-- On a valid stream, with more fuel than bytes to come, the loop of a connection ends by a
-- reason of its own: it reads at most one header for each byte.
pub connection-total :
    (order : ByteOrder) (room : RequestHeader → Bool) (stream : RecvStream) (f : ℕ) (r : Reader)
    (s : stream.State)
    → stream.IsValid s
    → length (available stream r s) < f
    → (connection order room stream f r s).1 ≢ no_fuel
connection-total order room stream f r s v h =
    rw (connection_refines order room stream f r s v)
      (parse-total order room (stream.ending s) f (available stream r s) h)
