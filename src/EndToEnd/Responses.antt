-- ===== src/EndToEnd/Responses.antt =====
-- The server's bytes at the client: the handlers of server/session.cpp against `reader_loop` of
-- client/client.cpp.
use easybd.Base.{
  ℕ, zero, suc, ◌^◌, ◌<◌, ◌≡◌, refl, sym, ap, ◌∙◌, subst, List, [], ◌∷◌, ◌++◌, map, Bool, true,
  false, All, length, flatten, take, arith, if◌then◌else◌, ◌==◌, some, append-nil, take_all,
}
use easybd.Base.Int.{is_pos, to_ℕ}
use easybd.Stream.{RecvStream}
use easybd.Reader.{Reader}
use easybd.Reader.Exact.{available}
use easybd.Wire.{ByteOrder}
use easybd.Wire.RoundTrip.{IsInt64}
use easybd.Session.Handlers.{
  Device, Response, Io, finished, errno, run_job, run_jobs, response_bytes, res_of_bytes,
  res_of_count, buf_of, handle_read, handle_write,
}
use easybd.Client.{Pending, Client, find, erase, complete, reader_loop}
use easybd.Client.Stranded.{find-erase_ne}
use easybd.Client.Receive.{body_of, IsAnswer, Answers, Answered, answers_bytes, reader_loop_lem}
use easybd.EndToEnd.{Request, read_request, write_request, job_of}

abbrev pub cid_of : Request → ℕ
cid_of (read_request cid offset size) = cid
cid_of (write_request cid offset payload durable) = cid

abbrev pub is_read_request : Request → Bool
is_read_request (read_request cid offset size) = true
is_read_request (write_request cid offset payload durable) = false

-- A request that the client has sent, and its entry in `_pending`.
pub record IsAsked (c : Client) (p : Pending) (q : Request) : Type 0 where
  pub known : find (cid_of q) c.pending ≡ some p
  pub kind : p.is_read ≡ is_read_request q
  pub cid : cid_of q < 2 ^ 64

-- Requests under different cids.
abbrev pub AllAsked : Client → List (Pending × Request) → Type 0
AllAsked c [] = Unit {0}
AllAsked c ((p, q) ∷ xs) =
    IsAsked c p q
    × All (λ (y : Pending × Request). (cid_of q == cid_of y.1) ≡ false) xs
    × AllAsked c xs

-- The results of the backing file's operations fit the response's field.
pub record IsBounded (device : Device) : Type 0 where
  pub reads :
      (d : device.State) (size offset : ℕ) → IsInt64 (res_of_bytes (device.pread d size offset).0)
  pub writes :
      (d : device.State) (payload : List ℕ) (offset : ℕ)
      → IsInt64 (res_of_count (device.pwrite d payload offset).0)
  pub syncs :
      (d : device.State) (payload : List ℕ) (offset : ℕ)
      → IsInt64 (res_of_count (device.pwrite_dsync d payload offset).0)

module _ (device : Device) where
  -- Each request with the response of its handler.
  abbrev pub served : device.State → List (Pending × Request) → List (Pending × Response)
  served d [] = []
  served d ((p, q) ∷ xs) =
      (p, (run_job device d (job_of q)).0) ∷ served (run_job device d (job_of q)).1 xs

  length-served :
      (d : device.State) (xs : List (Pending × Request)) → length (served d xs) ≡ length xs
  length-served d [] = refl
  length-served d ((p, q) ∷ xs) = ap suc (length-served (run_job device d (job_of q)).1 xs)

  answers_bytes-served :
      (order : ByteOrder) (d : device.State) (xs : List (Pending × Request))
      → answers_bytes order (served d xs)
        ≡ flatten (map (response_bytes order) (run_jobs device d (map (λ x. job_of x.1) xs)).0)
  unfolding run_jobs
  answers_bytes-served order d [] = refl
  answers_bytes-served order d ((p, q) ∷ xs) =
      ap (λ bytes. response_bytes order (run_job device d (job_of q)).0 ++ bytes)
        (answers_bytes-served order (run_job device d (job_of q)).1 xs)

  read_payload :
      (io : Io (List ℕ))
      → length (if is_pos (res_of_bytes io) then take (to_ℕ (res_of_bytes io)) (buf_of io) else [])
        ≡ (if is_pos (res_of_bytes io) then to_ℕ (res_of_bytes io) else 0)
  read_payload (finished []) = refl
  read_payload (finished (b ∷ bs)) = ap length (take_all (length (b ∷ bs)) (b ∷ bs) (omega arith))
  read_payload (errno zero) = refl
  read_payload (errno (suc e)) = refl

  run_job-IsAnswer :
      (c : Client) (p : Pending) (q : Request) (d : device.State)
      → IsBounded device
      → IsAsked c p q
      → IsAnswer c p (run_job device d (job_of q)).0
  unfolding run_job handle_read handle_write
  run_job-IsAnswer c p (read_request cid offset size) d b a = record {
    known = a.known;
    cid = a.cid;
    res = b.reads d size offset;
    payload = rw a.kind (read_payload (device.pread d size offset).0);
  }
  run_job-IsAnswer c p (write_request cid offset payload true) d b a = record {
    known = a.known;
    cid = a.cid;
    res = b.syncs d payload offset;
    payload = rw a.kind refl;
  }
  run_job-IsAnswer c p (write_request cid offset payload false) d b a = record {
    known = a.known;
    cid = a.cid;
    res = b.writes d payload offset;
    payload = rw a.kind refl;
  }

  run_job-cid :
      (q : Request) (d : device.State) → (run_job device d (job_of q)).0.header.cid ≡ cid_of q
  unfolding run_job handle_read handle_write
  run_job-cid (read_request cid offset size) d = refl
  run_job-cid (write_request cid offset payload durable) d = refl

  -- An answer to one request leaves the others as they were.
  IsAsked-erase :
      (i : ℕ) (c c' : Client) (p : Pending) (q : Request)
      → c'.pending ≡ erase i c.pending
      → (i == cid_of q) ≡ false
      → IsAsked c p q
      → IsAsked c' p q
  IsAsked-erase i c c' p q e n a = record {
    known = ap (find (cid_of q)) e ∙ find-erase_ne (cid_of q) i c.pending n ∙ a.known;
    kind = a.kind;
    cid = a.cid;
  }

  AllAsked-erase :
      (i : ℕ) (c c' : Client) (xs : List (Pending × Request))
      → c'.pending ≡ erase i c.pending
      → All (λ (y : Pending × Request). (i == cid_of y.1) ≡ false) xs
      → AllAsked c xs
      → AllAsked c' xs
  AllAsked-erase i c c' [] e n a = tt
  AllAsked-erase i c c' ((p, q) ∷ xs) e n a =
      (IsAsked-erase i c c' p q e n.0 a.0, a.1, AllAsked-erase i c c' xs e n.1 a.2)

  complete-pending :
      (p : Pending) (x : Response) (c : Client)
      → (complete x.header p (body_of p x) c).pending ≡ erase x.header.cid c.pending
  unfolding complete
  complete-pending p x c = refl

  Answers-served :
      (xs : List (Pending × Request)) (c : Client) (d : device.State)
      → IsBounded device
      → AllAsked c xs
      → Answers c (served d xs)
  Answers-served [] c d b a = tt
  Answers-served ((p, q) ∷ xs) c d b a =
      let x = (run_job device d (job_of q)).0 in
      let c' = complete x.header p (body_of p x) c in
      (
        run_job-IsAnswer c p q d b a.0,
        Answers-served xs c' (run_job device d (job_of q)).1 b (
            AllAsked-erase (cid_of q) c c' xs
              (complete-pending p x c ∙ ap (λ i. erase i c.pending) (run_job-cid q d)) a.1 a.2),
      )

  -- For requests in flight under different cids, a backing file whose results fit the response's field, and
  -- a valid stream, of any backend, that brings the bytes of the server's handlers, in the order in which
  -- they finished: `reader_loop` takes all of them; it calls each request's callback with the result that
  -- the backing file gave for that request, and copies what a read gave into that request's buffer.
  pub reader_loop-served :
      (order : ByteOrder) (stream : RecvStream) (xs : List (Pending × Request)) (c : Client)
      (r : Reader) (s : stream.State) (d : device.State)
      → stream.IsValid s
      → c.reading ≡ true
      → IsBounded device
      → AllAsked c xs
      → available stream r s
        ≡ flatten (map (response_bytes order) (run_jobs device d (map (λ x. job_of x.1) xs)).0)
      → let (c', r', s') = reader_loop order stream (length xs) c r s in
        Answered (served d xs) c c' × (available stream r' s' ≡ [])
  reader_loop-served order stream xs c r s d v h b a e =
      subst
        (λ n.
          let (c', r', s') = reader_loop order stream n c r s in
          Answered (served d xs) c c' × (available stream r' s' ≡ []))
        (length-served d xs)
        (reader_loop_lem order stream (served d xs) c r s [] v h (Answers-served xs c d b a) (
          e
          ∙ sym (answers_bytes-served order d xs)
          ∙ sym (append-nil (answers_bytes order (served d xs)))))
