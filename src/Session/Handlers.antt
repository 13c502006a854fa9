-- ===== src/Session/Handlers.antt =====
-- session.cpp: `handle_write`, `handle_read` and `send_error`, up to the bytes of their response. The
-- backing file, behind `Queue::pread` and `Queue::pwrite`, is a parameter.
use easybd.Base.{ℕ, List, [], ◌∷◌, ◌++◌, Bool, if◌then◌else◌, length, take}
use easybd.Base.Int.{ℤ, pos, neg, is_pos, to_ℕ}
use easybd.Wire.{ResponseHeader, ByteOrder, encode_response}
use easybd.Session.{Job, write_job, read_job, error_job}

-- What an I/O task gives: a value, or `std::system_error` with an errno.
pub data Io {ℓ} (A : Type ℓ) : Type ℓ where
  finished : A → Io A
  errno : ℕ → Io A

-- The backing file. `pread size offset` gives the bytes that were read, the writes how many bytes
-- were written.
pub record Device : Type 1 where
  pub State : Type 0
  pub pread : State → ℕ → ℕ → Io (List ℕ) × State
  pub pwrite : State → List ℕ → ℕ → Io ℕ × State
  pub pwrite_dsync : State → List ℕ → ℕ → Io ℕ × State

-- `res`: a count of bytes, or -errno.
abbrev pub res_of_count : Io ℕ → ℤ
res_of_count (finished n) = pos n
res_of_count (errno e) = neg (pos e)

abbrev pub res_of_bytes : Io (List ℕ) → ℤ
res_of_bytes (finished bs) = pos (length bs)
res_of_bytes (errno e) = neg (pos e)

-- What the read left in `buf`.
abbrev pub buf_of : Io (List ℕ) → List ℕ
buf_of (finished bs) = bs
buf_of (errno e) = []

-- A response: its header, and the payload that follows it.
pub record Response : Type 0 where
  pub header : ResponseHeader
  pub payload : List ℕ

module _ (device : Device) where
  open device use {State, pread, pwrite, pwrite_dsync}

  pub send_error : ℕ → ℕ → Response
  send_error cid err = record { header = record { cid = cid; res = neg (pos err) }; payload = [] }

  unfoldable pub handle_write : State → ℕ → ℕ → List ℕ → Bool → Response × State
  handle_write d cid offset payload durable =
      let (io, d') = (if durable then pwrite_dsync d payload offset else pwrite d payload offset) in
      (record { header = record { cid = cid; res = res_of_count io }; payload = [] }, d')

  -- The payload goes out only behind a positive result, and is `res` bytes of the buffer.
  unfoldable pub handle_read : State → ℕ → ℕ → ℕ → Response × State
  handle_read d cid offset size =
      let (io, d') = pread d size offset in
      let res = res_of_bytes io in
      (
        record {
          header = record { cid = cid; res = res };
          payload = if is_pos res then take (to_ℕ res) (buf_of io) else [];
        },
        d',
      )

  unfoldable pub run_job : State → Job → Response × State
  unfolding send_error handle_write handle_read
  run_job d (write_job cid offset payload durable) = handle_write d cid offset payload durable
  run_job d (read_job cid offset size) = handle_read d cid offset size
  run_job d (error_job cid err) = (send_error cid err, d)

  -- Handlers in the order in which their I/O completes.
  unfoldable pub run_jobs : State → List Job → List Response × State
  unfolding run_job
  run_jobs d [] = ([], d)
  run_jobs d (j ∷ js) =
      let (response, d') = run_job d j in
      let (responses, d'') = run_jobs d' js in (response ∷ responses, d'')

-- The bytes that `send_all` puts on the connection for a response, under the lock of `send_mtx`.
unfoldable pub response_bytes : ByteOrder → Response → List ℕ
response_bytes order response = encode_response order response.header ++ response.payload
