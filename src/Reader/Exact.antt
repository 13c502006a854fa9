-- ===== src/Reader/Exact.antt =====
-- framed_reader.cpp: what `read_exact` and `read_exact_into` return, over any recv stream.
use easybd.Base.{
  ℕ, zero, suc, ◌-◌, ◌≤◌, ◌<◌, ◌≡◌, refl, sym, ap, ◌∙◌, ◌⊎◌, inl, inr, List, ◌∷◌, ◌++◌, length,
  flatten, take, drop, arith, append-nil, append_assoc, ltb, ltb→lt, le→ltb, tests, Bool-cases,
  length-append, take-append_left, drop-append_left,
}
use mathlib.Core.Path.{subst₂}
use easybd.Stream.{Chunk, Ending, RecvStream, Delivers, some_data, the_end}
use easybd.Reader.{
  Thrown, Result, ok, throw, Reader, absorb, fill, read_exact, batch_capacity, finish,
}
use easybd.Reader.Absorb.{thrown_of, unread, absorb-data, absorb-end}

module _ (stream : RecvStream) where
  open stream use {
    State, next_batch, rest, ending, IsValid, proper, delivers, keeps_ending, keeps_IsValid,
  }

  -- All that a reader will still see.
  abbrev pub available : Reader → State → List ℕ
  available r s = unread r ++ rest s

  -- A read of `n` bytes that succeeds: the next `n` bytes, and what follows them stays.
  pub record Succeeds (n : ℕ) (all : List ℕ) (fin : Ending) (out : Result (List ℕ) × Reader × State)
      : Type 0 where
    pub enough : n ≤ length all
    pub returned : out.0 ≡ ok (take n all)
    pub remains : available out.1 out.2 ≡ drop n all
    pub same_ending : ending out.2 ≡ fin
    pub still_valid : IsValid out.2

  -- A read that fails: the stream ends before the `n` bytes, and the ending is what is thrown.
  pub record Fails (n : ℕ) (all : List ℕ) (fin : Ending) (out : Result (List ℕ) × Reader × State)
      : Type 0 where
    pub short : length all < n
    pub thrown : out.0 ≡ throw (thrown_of fin)

  -- What the loop of `read_exact` leaves.
  data Filled (n : ℕ) (all : List ℕ) (fin : Ending) (out : List ℕ × State × Result (Unit {0}))
      : Type 0 where
    full :
        out.2 ≡ ok tt
        → n ≤ length out.0
        → out.0 ++ rest out.1 ≡ all
        → ending out.1 ≡ fin
        → IsValid out.1
        → Filled n all fin out
    short : out.2 ≡ throw (thrown_of fin) → length all < n → Filled n all fin out

  Filled-eq :
      {n : ℕ} {all all' : List ℕ} {fin fin' : Ending} {out : List ℕ × State × Result (Unit {0})}
      → all ≡ all'
      → fin ≡ fin'
      → Filled n all fin out
      → Filled n all' fin' out
  Filled-eq {n} {out = out} p q = subst₂ (λ all fin. Filled n all fin out) p q

  abbrev batch : State → ℕ → ℕ → List Chunk
  batch s n got = (next_batch s batch_capacity (n - got)).0

  abbrev after : State → ℕ → ℕ → State
  after s n got = (next_batch s batch_capacity (n - got)).1

  fill_more :
      (f n : ℕ) (s : State) (buf buf' : List ℕ)
      → length buf < n
      → absorb (batch s n (length buf)) buf ≡ (buf', ok tt)
      → fill stream (suc f) s n buf ≡ fill stream f (after s n (length buf)) n buf'
  unfolding fill
  fill_more f n s buf buf' h e = ground arith

  fill_thrown :
      (f n : ℕ) (s : State) (buf buf' : List ℕ) (t : Thrown)
      → length buf < n
      → absorb (batch s n (length buf)) buf ≡ (buf', throw t)
      → fill stream (suc f) s n buf ≡ (buf', after s n (length buf), throw t)
  unfolding fill
  fill_thrown f n s buf buf' t h e = ground arith

  fill_done :
      (f n : ℕ) (s : State) (buf : List ℕ)
      → n ≤ length buf
      → fill stream (suc f) s n buf ≡ (buf, s, ok tt)
  unfolding fill
  fill_done f n s buf h = rw (le→ltb _ _ h, fill)

  fill-Filled :
      (f n : ℕ) (s : State) (buf : List ℕ)
      → IsValid s
      → n - length buf < f
      → Filled n (buf ++ rest s) (ending s) (fill stream f s n buf)
  fill-Filled zero n s buf v h = absurd (omega arith)
  fill-Filled (suc f) n s buf v h = elim (Bool-cases (ltb (length buf) n)) [
    | inr e ↦ rw (fill_done f n s buf (omega (tests, e))) (full refl (omega (tests, e)) refl refl v)
    | inl e ↦
        let more : length buf < n = ltb→lt _ _ e in
        round more (delivers s batch_capacity (n - length buf) v (omega arith) (omega arith))
          (fill-Filled f n (after s n (length buf)))
  ]
    where
      round :
          length buf < n
          → Delivers
              (n - length buf)
              (rest s)
              (ending s)
              (rest (after s n (length buf)))
              (batch s n (length buf))
          → ((buf' : List ℕ)
              → IsValid (after s n (length buf))
              → n - length buf' < f
              → Filled n
                  (buf' ++ rest (after s n (length buf)))
                  (ending (after s n (length buf)))
                  (fill stream f (after s n (length buf)) n buf'))
          → Filled n (buf ++ rest s) (ending s) (fill stream (suc f) s n buf)
      round more (some_data d ds e ne fits tot) ih =
          rw
            (fill_more f n s buf (buf ++ flatten (d ∷ ds)) more
              (rw e (absorb-data (d ∷ ds) buf ne)))
            (Filled-eq (append_assoc buf (flatten (d ∷ ds)) _ ∙ ap (λ t. buf ++ t) tot)
              (keeps_ending s batch_capacity (n - length buf) v)
              (ih (buf ++ flatten (d ∷ ds))
                (keeps_IsValid s batch_capacity (n - length buf) v (omega arith) (omega arith))
                (omega (
                  arith,
                  more,
                  h,
                  ne.0,
                  length-append buf (d ++ flatten ds),
                  length-append d (flatten ds),
                ))))
      round more (the_end none_left e) ih =
          rw
            (
              fill_thrown f n s buf buf (thrown_of (ending s)) more
                  (rw e (absorb-end (ending s) buf (proper s v))),
              none_left,
              append-nil,
            )
            (short refl more)

  -- `read_exact(n)` on a valid stream: the next `n` bytes, however they were split into chunks,
  -- and nothing after them is lost; or, if fewer than `n` are to come, it throws what ended the
  -- stream.
  pub read_exact_lem :
      (n : ℕ) (r : Reader) (s : State)
      → IsValid s
      → Succeeds n (available r s) (ending s) (read_exact stream n r s)
        ⊎ Fails n (available r s) (ending s) (read_exact stream n r s)
  unfolding read_exact
  read_exact_lem n r s v =
      go (fill stream (suc n) s n (unread r)) (fill-Filled (suc n) n s (unread r) v (omega arith))
    where
      go :
          (out : List ℕ × State × Result (Unit {0}))
          → Filled n (available r s) (ending s) out
          → Succeeds n (available r s) (ending s) (finish stream n out)
            ⊎ Fails n (available r s) (ending s) (finish stream n out)
      go (buf, s', res) (full e le tot fin v') = rw e (
          inl (record {
            enough = omega (arith, le, ap length tot, length-append buf (rest s'));
            returned = ap ok (sym (take-append_left n buf (rest s') le) ∙ ap (take n) tot);
            remains = sym (drop-append_left n buf (rest s') le) ∙ ap (drop n) tot;
            same_ending = fin;
            still_valid = v';
          }))
      go (buf, s', res) (short e lt) = rw e (inr (record { short = lt; thrown = refl }))
