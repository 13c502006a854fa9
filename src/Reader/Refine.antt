-- ===== src/Reader/Refine.antt =====
-- framed_reader.cpp: any sequence of reads, against reads of a plain list of bytes.
use easybd.Base.{
  ℕ, ◌≡◌, refl, ◌∙◌, ap, inl, inr, List, [], ◌∷◌, length, take, drop, ltb, lt→ltb, le→ltb,
  if◌then◌else◌, ap₂, ◌⊎◌,
}
use easybd.Stream.{Ending, RecvStream}
use easybd.Reader.{Result, ok, throw, out_of_fuel, Reader, read_exact, read_exact_into}
use easybd.Reader.Absorb.{thrown_of}
use easybd.Reader.Exact.{available, Succeeds, Fails, read_exact_lem}
use easybd.Reader.Into.{read_exact_into_lem}

-- The two ways to ask for bytes, each with a count.
pub data Read : Type 0 where
  exact into : ℕ → Read

abbrev pub size : Read → ℕ
size (exact n) = n
size (into n) = n

-- What a caller sees of its reads on a stream whose bytes are all known; the first failure is the
-- last answer.
abbrev pub reads : List Read → List ℕ → Ending → List (Result (List ℕ))
reads [] all fin = []
reads (op ∷ ops) all fin =
    let later = reads ops (drop (size op) all) fin in
    if ltb (length all) (size op)
    then throw (thrown_of fin) ∷ []
    else ok (take (size op) all) ∷ later

module _ (stream : RecvStream) where
  open stream use {State, ending, IsValid}

  abbrev pub read : Read → Reader → State → Result (List ℕ) × Reader × State
  read (exact n) = read_exact stream n
  read (into n) = read_exact_into stream n

  abbrev pub answer : Result (List ℕ) → List (Result (List ℕ)) → List (Result (List ℕ))
  answer (ok x) later = ok x ∷ later
  answer (throw e) later = throw e ∷ []
  answer out_of_fuel later = out_of_fuel ∷ []

  pub run : List Read → Reader → State → List (Result (List ℕ))
  run [] r s = []
  run (op ∷ ops) r s = let (res, r', s') = read op r s in answer res (run ops r' s')

  read_lem :
      (op : Read) (r : Reader) (s : State)
      → IsValid s
      → Succeeds stream (size op) (available stream r s) (ending s) (read op r s)
        ⊎ Fails stream (size op) (available stream r s) (ending s) (read op r s)
  read_lem (exact n) r s v = read_exact_lem stream n r s v
  read_lem (into n) r s v = read_exact_into_lem stream n r s v

  -- On a valid stream, however it splits the bytes into chunks and batches, a sequence of reads
  -- of both kinds is answered as on the plain list of the bytes that are still to come.
  pub run_refines :
      (ops : List Read) (r : Reader) (s : State)
      → IsValid s
      → run ops r s ≡ reads ops (available stream r s) (ending s)
  unfolding run
  run_refines [] r s v = refl
  run_refines (op ∷ ops) r s v = go (read op r s) (read_lem op r s v) (run_refines ops)
    where
      go :
          (out : Result (List ℕ) × Reader × State)
          → Succeeds stream (size op) (available stream r s) (ending s) out
            ⊎ Fails stream (size op) (available stream r s) (ending s) out
          → ((r' : Reader) (s' : State)
              → IsValid s'
              → run ops r' s' ≡ reads ops (available stream r' s') (ending s'))
          → answer out.0 (run ops out.1 out.2) ≡ reads (op ∷ ops) (available stream r s) (ending s)
      go (res, r', s') (inl g) ih =
          rw (g.returned, le→ltb _ _ g.enough)
            (ap (λ l. ok (take (size op) (available stream r s)) ∷ l)
              (ih r' s' g.still_valid ∙ ap₂ (reads ops) g.remains g.same_ending))
      go (res, r', s') (inr b) ih = rw (b.thrown, lt→ltb _ _ b.short)
