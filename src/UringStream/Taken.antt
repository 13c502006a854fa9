-- ===== src/UringStream/Taken.antt =====
-- uring_recv_stream.cpp, multishot: which chunks `_take_batch` hands out.
use easybd.Base.{
  ℕ, ◌+◌, ◌-◌, ◌<◌, ◌≡◌, refl, ap, subst, Bool-cases, inl, inr, List, [], ◌∷◌, ◌++◌, map, All,
  false, ◌&&◌, length, arith, is_empty, ltb,
}
use easybd.Stream.{Chunk, data_chunk, Fits}
use easybd.UringStream.{Stream, Pending, chunk_bytes, take_loop}
use easybd.UringStream.Keeps.{IsFull}

-- What the loop takes off the chunks that wait, and what it leaves.
pub record Takes (s : Stream) (ps : List Pending) (limit : ℕ) (out : List Chunk × Stream)
    : Type 0 where
  pub taken : List Pending
  pub left : List Pending
  pub joined : taken ++ left ≡ ps
  pub chunks : out.0 ≡ map data_chunk (map (chunk_bytes s.buf) taken)
  pub pending : out.1.pending ≡ left
  pub buf : out.1.buf ≡ s.buf
  pub eof : out.1.eof ≡ s.eof
  pub error : out.1.error ≡ s.error
  pub entries : out.1.entries ≡ s.entries
  pub running : (out.1.live ≡ s.live) × (out.1.needs_resubmit ≡ s.needs_resubmit)
  pub fits : Fits limit (map (chunk_bytes s.buf) taken)
  pub positive : All (λ d. 0 < length d) (map (chunk_bytes s.buf) taken)
  pub left_full : All (IsFull s.buf) left

none_taken :
    (s : Stream) (ps : List Pending) (limit : ℕ)
    → s.pending ≡ ps
    → All (IsFull s.buf) ps
    → Takes s ps limit ([], s)
none_taken s ps limit e f = record {
  taken = [];
  left = ps;
  joined = refl;
  chunks = refl;
  pending = e;
  buf = refl;
  eof = refl;
  error = refl;
  entries = refl;
  running = (refl, refl);
  fits = tt;
  positive = tt;
  left_full = f;
}

pub take_loop-Takes :
    (ps : List Pending) (n bytes size max : ℕ) (s : Stream)
    → s.pending ≡ ps
    → All (IsFull s.buf) ps
    → Takes s ps (max - bytes) (take_loop ps n bytes size max s)
unfolding take_loop
take_loop-Takes [] n bytes size max s e f = none_taken s [] (max - bytes) e f
take_loop-Takes (p ∷ ps) n bytes size max s e f = elim (Bool-cases (ltb n size && ltb bytes max)) [
  | inr b ↦ rw b (none_taken s (p ∷ ps) (max - bytes) e f)
  | inl b ↦
      let s' : Stream = record s { pending = ps; checked_out = s.checked_out ++ p.buf_idx ∷ [] } in
      let t = take_loop-Takes ps (n + 1) (bytes + p.len) size max s' refl f.1 in
      rw b (record {
        taken = p ∷ t.taken;
        left = t.left;
        joined = ap (λ l. p ∷ l) t.joined;
        chunks = ap (λ cs. data_chunk (chunk_bytes s.buf p) ∷ cs) t.chunks;
        pending = t.pending;
        buf = t.buf;
        eof = t.eof;
        error = t.error;
        entries = t.entries;
        running = t.running;
        fits = (
          ground (arith, b),
          subst (λ m. Fits m (map (chunk_bytes s.buf) t.taken)) (omega (arith, f.0.1)) t.fits,
        );
        positive = (omega (arith, f.0.0, f.0.1), t.positive);
        left_full = t.left_full;
      })
]

-- A loop that may take a chunk and has one takes one.
pub take_loop-some :
    (p : Pending) (ps : List Pending) (size max : ℕ) (s : Stream)
    → 0 < size
    → 0 < max
    → is_empty (take_loop (p ∷ ps) 0 0 size max s).0 ≡ false
unfolding take_loop
take_loop-some p ps size max s hs hm = ground (arith, hs, hm)
