-- ===== src/LibcStream/Invariant.antt =====
-- libc_recv_stream.cpp: what holds of the ring between calls, and what `on_ready` does to the bytes.
use mathlib.Core.List.{map-append}
use easybd.Base.{
  ℕ, ◌+◌, ◌≤◌, ◌<◌, ◌≡◌, refl, sym, ap, ap₂, ◌∙◌, List, [], ◌∷◌, ◌++◌, map, true, false, not, All,
  All-append, length, take, flatten, arith, if◌then◌else◌, length-append, take-length-append,
  is_empty,
}
use easybd.Stream.{Ending, eof, failed}
use easybd.LibcStream.{
  Recv, got, again, closed, refused, Pending, Ring, is_ready, is_open, has_room, receive,
  chunk_bytes,
}
use easybd.LibcStream.Window.{Chain, Chain-snoc, chunks-update, update_self}

abbrev pub chunks : Ring → List (List ℕ)
chunks r = map (chunk_bytes r.buf) r.pending

-- The slots in use, handed out or pending, are consecutive and at most all of them; a pending chunk
-- holds the bytes that were received into it.
pub record IsValid (r : Ring) : Type 0 where
  pub start : ℕ
  pub slots : 0 < r.entries
  pub room : length r.pending + r.checked_out_count ≤ r.entries
  pub chain : Chain r.entries (start + r.checked_out_count) r.pending r.write_idx
  pub positive : All (λ (p : Pending). 0 < p.len) r.pending
  pub lens : map (λ (p : Pending). p.len) r.pending ≡ map length (chunks r)
  pub one_end : r.eof ≡ true → r.error ≡ 0

-- The bytes that a socket will still give, up to its end.
abbrev pub arriving : List Recv → List ℕ
arriving [] = []
arriving (got bs ∷ os) = bs ++ arriving os
arriving (again ∷ os) = arriving os
arriving (closed ∷ os) = []
arriving (refused e ∷ os) = []

abbrev pub socket_ending : List Recv → Ending
socket_ending [] = eof
socket_ending (got bs ∷ os) = socket_ending os
socket_ending (again ∷ os) = socket_ending os
socket_ending (closed ∷ os) = eof
socket_ending (refused e ∷ os) = failed e

-- `recv(2)`: bytes come in a positive number, an errno is not 0, and the connection ends some time.
abbrev pub Ends : List Recv → Type 0
Ends [] = ⊥
Ends (got bs ∷ os) = (0 < length bs) × Ends os
Ends (again ∷ os) = Ends os
Ends (closed ∷ os) = Unit {0}
Ends (refused e ∷ os) = 0 < e

-- The bytes that a reader will still get, and how they end.
abbrev pub rest : Ring → List Recv → List ℕ
rest r os = flatten (chunks r) ++ (if is_open r then arriving os else [])

abbrev pub ending : Ring → List Recv → Ending
ending r os = if is_open r then socket_ending os else if r.eof then eof else failed r.error

-- A ring with what its socket will do, and the same later: nothing is lost, repeated or reordered.
pub record Keeps (r : Ring) (os : List Recv) (r' : Ring) (os' : List Recv) : Type 0 where
  pub valid : IsValid r'
  pub ends : is_open r' ≡ true → Ends os'
  pub same_rest : rest r' os' ≡ rest r os
  pub same_ending : ending r' os' ≡ ending r os
  pub same_out : r'.checked_out_count ≡ r.checked_out_count
  pub still_ready : is_ready r ≡ true → is_ready r' ≡ true

pub room_facts :
    (r : Ring)
    → has_room r ≡ true
    → (r.error ≡ 0) × (r.eof ≡ false) × (length r.pending + r.checked_out_count < r.entries)
room_facts r h = ground arith

pub chunks-receive :
    (bs : List ℕ) (r : Ring) (v : IsValid r)
    → length r.pending < r.entries
    → chunks (receive bs r) ≡ chunks r ++ bs ∷ []
unfolding receive
chunks-receive bs r v h =
    map-append _ r.pending _
    ∙ ap₂ ◌++◌
        (chunks-update r.entries (v.start + r.checked_out_count) r.pending r.write_idx r.buf _
          v.chain h)
        (ap (λ t. take (length bs) t ∷ []) (update_self r.buf r.write_idx _)
          ∙ ap (λ t. t ∷ []) (take-length-append bs _))

pub receive-IsValid :
    (bs : List ℕ) (r : Ring)
    → 0 < length bs
    → length r.pending + r.checked_out_count < r.entries
    → IsValid r
    → IsValid (receive bs r)
receive-IsValid bs r ne h v = record {
  start = v.start;
  slots = unfold receive in v.slots;
  room = unfold receive in omega (arith, h, length-append r.pending (last ∷ []));
  chain = unfold receive in Chain-snoc r.entries _ r.pending r.write_idx (length bs) v.chain;
  positive = unfold receive in All-append _ r.pending (last ∷ []) v.positive (ne, tt);
  lens =
      lens_of_pending
      ∙ ap (λ t. t ++ length bs ∷ []) v.lens
      ∙ sym (
          ap (map length) (chunks-receive bs r v (omega (arith, h)))
          ∙ map-append length (chunks r) (bs ∷ []));
  one_end = unfold receive in v.one_end;
}
  where
    last : Pending
    last = record { idx = r.write_idx; len = length bs }

    lens_of_pending :
        map (λ (p : Pending). p.len) (receive bs r).pending
        ≡ map (λ (p : Pending). p.len) r.pending ++ length bs ∷ []
    lens_of_pending = unfold receive in map-append (λ (p : Pending). p.len) r.pending (last ∷ [])

not-is_empty-snoc : (ps : List Pending) (p : Pending) → not (is_empty (ps ++ p ∷ [])) ≡ true
not-is_empty-snoc [] p = refl
not-is_empty-snoc (q ∷ ps) p = refl

pub receive-is_ready : (bs : List ℕ) (r : Ring) → is_ready (receive bs r) ≡ true
unfolding receive
receive-is_ready bs r = rw (not-is_empty-snoc r.pending _)

pub Keeps-refl :
    (r : Ring) (os : List Recv) → IsValid r → (is_open r ≡ true → Ends os) → Keeps r os r os
Keeps-refl r os v h = record {
  valid = v;
  ends = h;
  same_rest = refl;
  same_ending = refl;
  same_out = refl;
  still_ready = λ k. k;
}

pub Keeps-trans :
    {r r' r'' : Ring} {os os' os'' : List Recv}
    → Keeps r os r' os'
    → Keeps r' os' r'' os''
    → Keeps r os r'' os''
Keeps-trans a b = record {
  valid = b.valid;
  ends = b.ends;
  same_rest = b.same_rest ∙ a.same_rest;
  same_ending = b.same_ending ∙ a.same_ending;
  same_out = b.same_out ∙ a.same_out;
  still_ready = λ k. b.still_ready (a.still_ready k);
}
