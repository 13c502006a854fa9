-- ===== src/LibcStream.antt =====
-- easyio/src/libc_recv_stream.cpp: a ring of receive buffers that is filled whenever the socket is
-- readable. The socket is the list of what the next `::recv` calls return.
pub mod Window
pub mod Invariant
pub mod Drain
pub mod Await
pub mod Serve
pub mod Contract
pub mod Safety
pub mod Start
mod Tests
use easybd.Base.{
  ℕ, zero, suc, ◌+◌, ◌%◌, ◌<◌, List, [], ◌∷◌, ◌++◌, map, Bool, true, false, not, ◌&&◌, ◌||◌, ltb,
  ◌==◌, if◌then◌else◌, is_empty, length, take, drop,
}
use easybd.Base.Int.{pos, neg}
use easybd.Stream.{Chunk, data_chunk}

-- One `::recv` call: bytes, nothing yet (EAGAIN), the peer's shutdown (0), or an errno.
pub data Recv : Type 0 where
  got : List ℕ → Recv
  again closed : Recv
  refused : ℕ → Recv

-- `RecvStreamImpl::Pending`
pub record Pending : Type 0 where
  pub idx : ℕ
  pub len : ℕ

-- `RecvStreamImpl`: `buf` is what each slot of `_buf_base` holds, `waiter` whether a coroutine waits.
pub record Ring : Type 0 where
  pub entries : ℕ
  pub buf : ℕ → List ℕ
  pub write_idx : ℕ
  pub pending : List Pending
  pub checked_out_count : ℕ
  pub eof : Bool
  pub error : ℕ
  pub waiter : Bool

abbrev pub update : (ℕ → List ℕ) → ℕ → List ℕ → ℕ → List ℕ
update buf i v j = if j == i then v else buf j

-- `ECANCELED`
abbrev pub ecanceled : ℕ
ecanceled = 125

-- `_pending.empty()` negated, `_eof` or `_error != 0`: a reader can be served.
abbrev pub is_ready : Ring → Bool
is_ready r = not (is_empty r.pending) || (r.eof || not (r.error == 0))

-- `_error == 0 && !_eof`
abbrev pub is_open : Ring → Bool
is_open r = r.error == 0 && not r.eof

abbrev pub has_room : Ring → Bool
has_room r = is_open r && ltb (length r.pending + r.checked_out_count) r.entries

-- `::recv` writes at the start of the slot; the rest of the slot stays.
pub receive : List ℕ → Ring → Ring
receive bs r = record r {
  buf = update r.buf r.write_idx (bs ++ drop (length bs) (r.buf r.write_idx));
  write_idx = (r.write_idx + 1) % r.entries;
  pending = r.pending ++ record { idx = r.write_idx; len = length bs } ∷ [];
}

-- The `while` loop of `on_ready`. A socket with nothing left answers EAGAIN.
pub drain : List Recv → Ring → Ring × List Recv
drain [] r = (r, [])
drain (o ∷ os) r = elim (has_room r) [
  | false ↦ (r, o ∷ os)
  | true ↦ elim o [
    | got bs ↦ drain os (receive bs r)
    | again ↦ (r, os)
    | closed ↦ (record r { eof = true }, os)
    | refused e ↦ (record r { error = e }, os)
  ]
]

-- The `if (_waiter && …)` of `on_ready`: the ring, and whether the reader was resumed.
abbrev pub wake : Ring → Ring × Bool
wake r = if r.waiter && is_ready r then (record r { waiter = false }, true) else (r, false)

-- `on_ready` always returns false: the stream stays registered.
pub on_ready : List Recv → Ring → (Ring × Bool) × List Recv
unfolding drain
on_ready os r = let (r', os') = drain os r in (wake r', os')

-- `cancel` resumes whoever waits.
pub cancel : Ring → Ring × Bool
cancel r =
    let r' = (if is_open r then record r { error = ecanceled } else r) in
    if r'.waiter then (record r' { waiter = false }, true) else (r', false)

-- `_ready`: the slots that the previous call handed out are free again.
pub ready : Ring → Ring × Bool
ready r = let r' : Ring = record r { checked_out_count = 0 } in (r', is_ready r')

-- `_arm`
abbrev pub arm : Ring → Ring
arm r = record r { waiter = true }

abbrev pub chunk_bytes : (ℕ → List ℕ) → Pending → List ℕ
chunk_bytes buf p = take p.len (buf p.idx)

-- The chunk at the end of the data.
abbrev pub last_chunk : Ring → Chunk
last_chunk r =
    if not (r.error == 0)
    then record { bytes = []; error = neg (pos r.error) }
    else record { bytes = []; error = pos 0 }

-- `_take`
pub take_one : Ring → Chunk × Ring
take_one r = elim r.pending [
  | p ∷ ps ↦ (
    data_chunk (chunk_bytes r.buf p),
    record r { pending = ps; checked_out_count = r.checked_out_count + 1 },
  )
  | [] ↦ (last_chunk r, r)
]

-- The `while` loop of `_take_batch`: what is taken and what stays.
pub split_batch : List Pending → ℕ → ℕ → ℕ → ℕ → List Pending × List Pending
split_batch [] count bytes size max = ([], [])
split_batch (p ∷ ps) count bytes size max =
    let (taken, left) = split_batch ps (count + 1) (bytes + p.len) size max in
    if ltb count size && ltb bytes max then (p ∷ taken, left) else ([], p ∷ ps)

-- `_take_batch(out, max_bytes)` for an `out` of `size` chunks.
pub take_batch : ℕ → ℕ → Ring → List Chunk × Ring
unfolding split_batch
take_batch size max r =
    let (taken, left) = split_batch r.pending 0 0 size max in
    let r' : Ring = record r {
      pending = left;
      checked_out_count = r.checked_out_count + length taken;
    } in
    if is_empty taken
    then (last_chunk r ∷ [], r')
    else (map data_chunk (map (chunk_bytes r.buf) taken), r')

-- The constructor, without the first `on_ready`.
abbrev pub new : ℕ → (ℕ → List ℕ) → Ring
new entries buf = record {
  entries = entries;
  buf = buf;
  write_idx = 0;
  pending = [];
  checked_out_count = 0;
  eof = false;
  error = 0;
  waiter = false;
}

-- The rounds of the poll loop until the armed reader is resumed.
pub await : ℕ → List Recv → Ring → Ring × List Recv
await zero os r = (r, os)
await (suc f) os r =
    let ((r', resumed), os') = on_ready os r in
    elim resumed [ true ↦ (r', os') | false ↦ await f os' r' ]

-- The wait of `co_await`: none where something is at hand, and else until the reader is resumed.
pub serve : Ring × List Recv → Ring × List Recv
unfolding await ready
serve (r, os) =
    let (r', at_hand) = ready r in
    let waited = await (suc (length os)) os (arm r') in if at_hand then (r', os) else waited

-- `co_await next_batch(out, max_bytes)`
pub next_batch : Ring × List Recv → ℕ → ℕ → List Chunk × (Ring × List Recv)
next_batch s size max =
    let (r, os) = serve s in let (cs, r') = take_batch size max r in (cs, (r', os))
