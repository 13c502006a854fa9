-- ===== src/Reader/Absorb.antt =====
-- framed_reader.cpp, the `for` loops over one batch, on chunks as a stream delivers them.
use easybd.Base.{
  ℕ, ◌+◌, ◌-◌, ◌≤◌, ◌<◌, min, ◌≡◌, refl, sym, ap, subst, ◌∙◌, inl, inr, List, [], ◌∷◌, ◌++◌, map,
  All, length, flatten, take, drop, arith, append-nil, append_assoc, ltb, tests, Bool-cases,
  length-append, length-take, take-append-drop, drop_all, if◌then◌else◌,
}
use easybd.Base.Int.{pos, neg-neg, is_zero-neg}
use easybd.Stream.{Chunk, data_chunk, Ending, eof, failed, end_chunk, IsProper, Fits}
use easybd.Reader.{
  Thrown, system_error, closed_mid_message, Result, ok, throw, Reader, absorb, copy,
}

-- What a read throws at the end of a stream.
abbrev pub thrown_of : Ending → Thrown
thrown_of eof = closed_mid_message
thrown_of (failed e) = system_error (pos e)

-- The bytes that an earlier read left behind.
abbrev pub unread : Reader → List ℕ
unread r = drop r.consumed r.buf

absorb_cons :
    (d : List ℕ) (cs : List Chunk) (buf : List ℕ)
    → 0 < length d
    → absorb (data_chunk d ∷ cs) buf ≡ absorb cs (buf ++ d)
unfolding absorb
absorb_cons [] cs buf h = absurd (omega arith)
absorb_cons (x ∷ d) cs buf h = refl

pub absorb-data :
    (ds : List (List ℕ)) (buf : List ℕ)
    → All (λ x. 0 < length x) ds
    → absorb (map data_chunk ds) buf ≡ (buf ++ flatten ds, ok tt)
absorb-data [] buf h = unfold absorb in rw append-nil
absorb-data (d ∷ ds) buf h =
    absorb_cons d (map data_chunk ds) buf h.0
    ∙ absorb-data ds (buf ++ d) h.1
    ∙ ap (λ x. (x, ok tt)) (append_assoc buf d (flatten ds))

pub absorb-end :
    (fin : Ending) (buf : List ℕ)
    → IsProper fin
    → absorb (end_chunk fin ∷ []) buf ≡ (buf, throw (thrown_of fin))
unfolding absorb
absorb-end eof buf h = refl
absorb-end (failed e) buf h = rw (is_zero-neg e h, neg-neg (pos e))

-- After a batch: nothing is lost or reordered, `dest` is not overrun, and bytes are left over only
-- once `dest` is full.
pub record Copied (n : ℕ) (all : List ℕ) (out : List ℕ × Reader × Result (Unit {0})) : Type 0 where
  pub returned : out.2 ≡ ok tt
  pub kept : out.0 ++ unread out.1 ≡ all
  pub bounded : length out.0 ≤ n
  pub drained : length out.0 < n → unread out.1 ≡ []

abbrev left_over : ℕ → List ℕ → Reader → Reader
left_over part d r = if ltb part (length d) then record { buf = drop part d; consumed = 0 } else r

copy_cons :
    (d : List ℕ) (cs : List Chunk) (n : ℕ) (dest : List ℕ) (r : Reader)
    → 0 < length d
    → let part = min (length d) (n - length dest) in
      copy (data_chunk d ∷ cs) n dest r ≡ copy cs n (dest ++ take part d) (left_over part d r)
unfolding copy
copy_cons [] cs n dest r h = absurd (omega arith)
copy_cons (x ∷ d) cs n dest r h = refl

-- A chunk that overshoots leaves its tail behind; any other leaves the reader as it was.
unread-left_over :
    (part : ℕ) (d : List ℕ) (r : Reader) → unread r ≡ [] → unread (left_over part d r) ≡ drop part d
unread-left_over part d r e = elim (Bool-cases (ltb part (length d))) [
  | inl h ↦ rw h
  | inr h ↦ rw (h, drop_all part d (omega (tests, h))) e
]

length-dest :
    (n : ℕ) (dest d : List ℕ)
    → let part = min (length d) (n - length dest) in
      length (dest ++ take part d) ≡ length dest + part
length-dest n dest d = omega (
  arith,
  length-append dest (take (min (length d) (n - length dest)) d),
  length-take (min (length d) (n - length dest)) d,
)

copy_kept :
    (part : ℕ) (dest d : List ℕ) (r : Reader) (later : List ℕ)
    → unread r ≡ []
    → ((dest ++ take part d) ++ unread (left_over part d r)) ++ later
      ≡ (dest ++ unread r) ++ (d ++ later)
copy_kept part dest d r later e =
    rw (unread-left_over part d r e, e)
      (simp (append_assoc, append-nil)
        (ap (λ t. dest ++ t)
          (sym (append_assoc (take part d) (drop part d) later)
            ∙ ap (λ t. t ++ later) (take-append-drop part d))))

pub copy-Copied :
    (ds : List (List ℕ)) (n : ℕ) (dest : List ℕ) (r : Reader)
    → All (λ x. 0 < length x) ds
    → Fits (n - length dest) ds
    → length dest ≤ n
    → (length dest < n → unread r ≡ [])
    → Copied n ((dest ++ unread r) ++ flatten ds) (copy (map data_chunk ds) n dest r)
copy-Copied [] n dest r ne fits le dr =
    unfold copy in record { returned = refl; kept = rw append-nil; bounded = le; drained = dr }
copy-Copied (d ∷ ds) n dest r ne fits le dr =
    let part : ℕ = min (length d) (n - length dest) in
    let none_left : unread r ≡ [] = dr (omega (arith, fits.0)) in
    rw
      (
        copy_cons d (map data_chunk ds) n dest r ne.0,
        ← copy_kept part dest d r (flatten ds) none_left,
      )
      (copy-Copied ds n (dest ++ take part d) (left_over part d r) ne.1
        (subst (λ k. Fits k ds) (omega (arith, length-dest n dest d)) fits.1)
        (omega (arith, length-dest n dest d))
        (λ h.
          unread-left_over part d r none_left
          ∙ drop_all part d (omega (arith, h, length-dest n dest d))))

pub copy-end :
    (fin : Ending) (n : ℕ) (dest : List ℕ) (r : Reader)
    → IsProper fin
    → copy (end_chunk fin ∷ []) n dest r ≡ (dest, r, throw (thrown_of fin))
unfolding copy
copy-end eof n dest r h = refl
copy-end (failed e) n dest r h = rw (is_zero-neg e h, neg-neg (pos e))
