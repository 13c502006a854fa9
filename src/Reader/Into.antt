-- ===== src/Reader/Into.antt =====
-- framed_reader.cpp: what `read_exact_into` copies to its destination, over any recv stream.
use mathlib.Core.Path.{subst₂}
use easybd.Base.{
  ℕ, zero, suc, ◌-◌, ◌≤◌, ◌<◌, min, ◌≡◌, refl, sym, ap, ◌∙◌, ◌⊎◌, inl, inr, List, [], ◌∷◌, ◌++◌,
  length, flatten, arith, append-nil, append_assoc, ltb, ltb→lt, le→ltb, tests, Bool-cases,
  length-append, length-take, take-append-drop, drop_all, take-eq_of_append, drop-eq_of_append,
}
use easybd.Stream.{Chunk, Ending, RecvStream, Delivers, some_data, the_end}
use easybd.Reader.{
  Thrown, Result, ok, throw, Reader, copy, fetch, read_exact_into, batch_capacity, erase_consumed,
  finish_into, hand_over,
}
use easybd.Reader.Absorb.{thrown_of, unread, Copied, copy-Copied, copy-end}
use easybd.Reader.Exact.{available, Succeeds, Fails}

-- The buffered bytes go first, as many as are wanted.
record Handed (n : ℕ) (buf : List ℕ) (out : List ℕ × Reader) : Type 0 where
  kept : out.0 ++ unread out.1 ≡ buf
  bounded : length out.0 ≤ n
  drained : length out.0 < n → unread out.1 ≡ []

hand_over-Handed :
    (n : ℕ) (buf : List ℕ) → Handed n buf (hand_over n (record { buf = buf; consumed = 0 }))
hand_over-Handed n [] = record { kept = refl; bounded = omega arith; drained = λ h. refl }
hand_over-Handed n (x ∷ xs) =
    let all : List ℕ = x ∷ xs in
    let got : ℕ = min (length all) n in
    record {
      kept = take-append-drop got all;
      bounded = omega (arith, length-take got all);
      drained = λ h. drop_all got all (omega (arith, h, length-take got all));
    }

regroup :
    (xs ys xs' ys' zs later all : List ℕ)
    → xs ++ ys ≡ (xs' ++ ys') ++ zs
    → zs ++ later ≡ all
    → xs ++ (ys ++ later) ≡ xs' ++ (ys' ++ all)
regroup xs ys xs' ys' zs later all p q =
    sym (append_assoc xs ys later)
    ∙ ap (λ t. t ++ later) p
    ∙ append_assoc (xs' ++ ys') zs later
    ∙ ap (λ t. (xs' ++ ys') ++ t) q
    ∙ append_assoc xs' ys' all

module _ (stream : RecvStream) where
  open stream use {
    State, next_batch, rest, ending, IsValid, proper, delivers, keeps_ending, keeps_IsValid,
  }

  -- What the loop of `read_exact_into` leaves.
  data Fetched (n : ℕ) (all : List ℕ) (fin : Ending)
      (out : List ℕ × Reader × State × Result (Unit {0})) : Type 0 where
    full :
        out.3 ≡ ok tt
        → length out.0 ≡ n
        → out.0 ++ (unread out.1 ++ rest out.2) ≡ all
        → ending out.2 ≡ fin
        → IsValid out.2
        → Fetched n all fin out
    short : out.3 ≡ throw (thrown_of fin) → length all < n → Fetched n all fin out

  Fetched-eq :
      {n : ℕ} {all all' : List ℕ} {fin fin' : Ending}
      {out : List ℕ × Reader × State × Result (Unit {0})}
      → all ≡ all'
      → fin ≡ fin'
      → Fetched n all fin out
      → Fetched n all' fin' out
  Fetched-eq {n} {out = out} p q = subst₂ (λ all fin. Fetched n all fin out) p q

  abbrev batch : State → ℕ → ℕ → List Chunk
  batch s n got = (next_batch s batch_capacity (n - got)).0

  abbrev after : State → ℕ → ℕ → State
  after s n got = (next_batch s batch_capacity (n - got)).1

  fetch_more :
      (f n : ℕ) (s : State) (dest : List ℕ) (r : Reader)
      → length dest < n
      → let out = copy (batch s n (length dest)) n dest r in
        out.2 ≡ ok tt
        → fetch stream (suc f) s n dest r ≡ fetch stream f (after s n (length dest)) n out.0 out.1
  unfolding fetch
  fetch_more f n s dest r h e = ground arith

  fetch_thrown :
      (f n : ℕ) (s : State) (dest : List ℕ) (r : Reader) (t : Thrown)
      → length dest < n
      → copy (batch s n (length dest)) n dest r ≡ (dest, r, throw t)
      → fetch stream (suc f) s n dest r ≡ (dest, r, after s n (length dest), throw t)
  unfolding fetch
  fetch_thrown f n s dest r t h e = ground arith

  fetch_done :
      (f n : ℕ) (s : State) (dest : List ℕ) (r : Reader)
      → n ≤ length dest
      → fetch stream (suc f) s n dest r ≡ (dest, r, s, ok tt)
  unfolding fetch
  fetch_done f n s dest r h = rw (le→ltb _ _ h, fetch)

  -- A batch that does not fill `dest` adds to it.
  Copied-grows :
      (n : ℕ) (dest d : List ℕ) (ds : List (List ℕ)) (r : Reader)
      (out : List ℕ × Reader × Result (Unit {0}))
      → Copied n ((dest ++ unread r) ++ flatten (d ∷ ds)) out
      → 0 < length d
      → length dest < n
      → (n - length out.0) < n - length dest
  Copied-grows n dest d ds r out c ne more = elim (Bool-cases (ltb (length out.0) n)) [
    | inr e ↦ omega (tests, e, more)
    | inl e ↦ omega (
      tests,
      e,
      ne,
      more,
      ap length (c.drained (ltb→lt _ _ e)),
      ap length c.kept,
      length-append out.0 (unread out.1),
      length-append (dest ++ unread r) (d ++ flatten ds),
      length-append dest (unread r),
      length-append d (flatten ds),
    )
  ]

  fetch-Fetched :
      (f n : ℕ) (s : State) (dest : List ℕ) (r : Reader)
      → IsValid s
      → length dest ≤ n
      → (length dest < n → unread r ≡ [])
      → n - length dest < f
      → Fetched n (dest ++ (unread r ++ rest s)) (ending s) (fetch stream f s n dest r)
  fetch-Fetched zero n s dest r v le dr h = absurd (omega arith)
  fetch-Fetched (suc f) n s dest r v le dr h = elim (Bool-cases (ltb (length dest) n)) [
    | inr e ↦
        rw (fetch_done f n s dest r (omega (tests, e))) (full refl (omega (tests, e)) refl refl v)
    | inl e ↦
        let more : length dest < n = ltb→lt _ _ e in
        round more (delivers s batch_capacity (n - length dest) v (omega arith) (omega arith))
          (fetch-Fetched f n (after s n (length dest)))
  ]
    where
      round :
          length dest < n
          → Delivers
              (n - length dest)
              (rest s)
              (ending s)
              (rest (after s n (length dest)))
              (batch s n (length dest))
          → ((dest' : List ℕ) (r' : Reader)
              → IsValid (after s n (length dest))
              → length dest' ≤ n
              → (length dest' < n → unread r' ≡ [])
              → n - length dest' < f
              → Fetched n
                  (dest' ++ (unread r' ++ rest (after s n (length dest))))
                  (ending (after s n (length dest)))
                  (fetch stream f (after s n (length dest)) n dest' r'))
          → Fetched n (dest ++ (unread r ++ rest s)) (ending s) (fetch stream (suc f) s n dest r)
      round more (some_data d ds e ne fits tot) ih =
          let out : List ℕ × Reader × Result (Unit {0}) = copy (batch s n (length dest)) n dest r in
          let c : Copied n ((dest ++ unread r) ++ flatten (d ∷ ds)) out =
            rw e (copy-Copied (d ∷ ds) n dest r ne fits le dr) in
          rw (fetch_more f n s dest r more c.returned) (
            Fetched-eq
              (regroup out.0 (unread out.1) dest (unread r) (flatten (d ∷ ds)) _ (rest s) c.kept
                tot)
              (keeps_ending s batch_capacity (n - length dest) v)
              (ih out.0 out.1
                (keeps_IsValid s batch_capacity (n - length dest) v (omega arith) (omega arith))
                c.bounded c.drained (omega (arith, h, Copied-grows n dest d ds r out c ne.0 more))))
      round more (the_end none_left e) ih =
          rw
            (
              fetch_thrown f n s dest r (thrown_of (ending s)) more
                  (rw e (copy-end (ending s) n dest r (proper s v))),
              none_left,
              dr more,
              append-nil,
            )
            (short refl more)

  -- `read_exact_into(dest, n)` on a valid stream: the next `n` bytes, with what a chunk carried
  -- behind them kept for the next read; or, if fewer than `n` are to come, it throws what ended
  -- the stream.
  pub read_exact_into_lem :
      (n : ℕ) (r : Reader) (s : State)
      → IsValid s
      → Succeeds stream n (available stream r s) (ending s) (read_exact_into stream n r s)
        ⊎ Fails stream n (available stream r s) (ending s) (read_exact_into stream n r s)
  unfolding read_exact_into
  read_exact_into_lem n r s v = go (fetch stream (suc n) s n handed.0 handed.1) (
      Fetched-eq (sym (append_assoc handed.0 _ _) ∙ ap (λ t. t ++ rest s) first.kept) refl
        (fetch-Fetched (suc n) n s handed.0 handed.1 v first.bounded first.drained (omega arith)))
    where
      handed : List ℕ × Reader
      handed = hand_over n (erase_consumed r)

      first : Handed n (unread r) handed
      first = hand_over-Handed n (unread r)

      go :
          (out : List ℕ × Reader × State × Result (Unit {0}))
          → Fetched n (available stream r s) (ending s) out
          → Succeeds stream n (available stream r s) (ending s) (finish_into stream out)
            ⊎ Fails stream n (available stream r s) (ending s) (finish_into stream out)
      go (dest, r', s', res) (full e len tot fin v') = rw e (
          inl (record {
            enough = omega (arith, len, ap length tot, length-append dest (unread r' ++ rest s'));
            returned = ap ok (sym (take-eq_of_append n dest _ _ len tot));
            remains = sym (drop-eq_of_append n dest _ _ len tot);
            same_ending = fin;
            still_valid = v';
          }))
      go (dest, r', s', res) (short e lt) = rw e (inr (record { short = lt; thrown = refl }))
