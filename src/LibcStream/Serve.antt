-- ===== src/LibcStream/Serve.antt =====
-- libc_recv_stream.cpp, `_take_batch`: which of the pending chunks it takes.
use easybd.Base.{
  ℕ, ◌+◌, ◌-◌, ◌<◌, ◌≡◌, refl, sym, ap, ap₂, subst, inl, inr, List, [], ◌∷◌, ◌++◌, map, ◌&&◌, All,
  length, arith, ltb, Bool-cases, length-append,
}
use easybd.Stream.{data_chunk, Fits}
use easybd.LibcStream.{Pending, Ring, chunk_bytes, split_batch, take_batch, last_chunk}
use easybd.LibcStream.Window.{Chain}
use easybd.LibcStream.Invariant.{IsValid}

abbrev pub Sized : (ℕ → List ℕ) → List Pending → Type 0
Sized buf = All (λ (p : Pending). (0 < p.len) × (p.len ≡ length (chunk_bytes buf p)))

Sized-of_valid :
    (buf : ℕ → List ℕ) (ps : List Pending)
    → All (λ (p : Pending). 0 < p.len) ps
    → map (λ (p : Pending). p.len) ps ≡ map length (map (chunk_bytes buf) ps)
    → Sized buf ps
Sized-of_valid buf [] h e = tt
Sized-of_valid buf (p ∷ ps) h e = ((h.0, cc), Sized-of_valid buf ps h.1 (cc))

lens_of_Sized :
    (buf : ℕ → List ℕ) (ps : List Pending)
    → Sized buf ps
    → All (λ (p : Pending). 0 < p.len) ps
      × (map (λ (p : Pending). p.len) ps ≡ map length (map (chunk_bytes buf) ps))
lens_of_Sized buf [] h = (tt, refl)
lens_of_Sized buf (p ∷ ps) h =
    ((h.0.0, (lens_of_Sized buf ps h.1).0), ap₂ ◌∷◌ h.0.1 (lens_of_Sized buf ps h.1).1)

Chain-drop :
    (n i j : ℕ) (ps qs : List Pending) (w : ℕ)
    → i + length ps ≡ j
    → Chain n i (ps ++ qs) w
    → Chain n j qs w
Chain-drop n i j [] qs w e c = subst (λ k. Chain n k qs w) (omega (arith, e)) c
Chain-drop n i j (p ∷ ps) qs w e c = Chain-drop n (i + 1) j ps qs w (omega (arith, e)) c.1

-- The loop of `_take_batch` cuts the pending chunks in two, and takes while there is room for more.
pub record Splits (buf : ℕ → List ℕ) (ps : List Pending) (max : ℕ)
    (out : List Pending × List Pending) : Type 0 where
  pub joined : out.0 ++ out.1 ≡ ps
  pub fits : Fits max (map (chunk_bytes buf) out.0)
  pub nonempty : All (λ x. 0 < length x) (map (chunk_bytes buf) out.0)
  pub left_sized : Sized buf out.1

split-Splits :
    (buf : ℕ → List ℕ) (ps : List Pending) (count bytes size max : ℕ)
    → Sized buf ps
    → Splits buf ps (max - bytes) (split_batch ps count bytes size max)
unfolding split_batch
split-Splits buf [] count bytes size max h = record {
  joined = refl;
  fits = tt;
  nonempty = tt;
  left_sized = tt;
}
split-Splits buf (p ∷ ps) count bytes size max h =
    let ih = split-Splits buf ps (count + 1) (bytes + p.len) size max h.1 in
    elim (Bool-cases (ltb count size && ltb bytes max)) [
      | inl e ↦
          let less : max - (bytes + p.len) ≡ max - bytes - length (chunk_bytes buf p) =
            omega (arith, h.0.1) in
          rw (e, split_batch)
            (record {
              joined = ap (λ t. p ∷ t) ih.joined;
              fits = (
                ground arith,
                subst
                    (λ k. Fits k (
                      map (chunk_bytes buf)
                        (split_batch ps (count + 1) (bytes + p.len) size max).0))
                    less ih.fits,
              );
              nonempty = (omega (arith, h.0.0, h.0.1), ih.nonempty);
              left_sized = ih.left_sized;
            })
      | inr e ↦
          rw (e, split_batch) (record { joined = refl; fits = tt; nonempty = tt; left_sized = h })
    ]

pub split_takes :
    (ps : List Pending) (size max : ℕ)
    → 0 < size
    → 0 < max
    → (split_batch ps 0 0 size max).0 ≡ []
    → ps ≡ []
unfolding split_batch
split_takes [] size max hs hm e = refl
split_takes (p ∷ ps) size max hs hm e = absurd (ground arith)

abbrev pub split : ℕ → ℕ → Ring → List Pending × List Pending
split size max r = split_batch r.pending 0 0 size max

abbrev pub taken_from : ℕ → ℕ → Ring → Ring
taken_from size max r = record r {
  pending = (split size max r).1;
  checked_out_count = r.checked_out_count + length (split size max r).0;
}

pub split_of_valid :
    (size max : ℕ) (r : Ring) → IsValid r → Splits r.buf r.pending max (split size max r)
split_of_valid size max r v =
    subst (λ k. Splits r.buf r.pending k (split size max r)) (omega arith)
      (split-Splits r.buf r.pending 0 0 size max (Sized-of_valid r.buf r.pending v.positive v.lens))

pub taken_from-IsValid : (size max : ℕ) (r : Ring) → IsValid r → IsValid (taken_from size max r)
taken_from-IsValid size max r v =
    let sp : Splits r.buf r.pending max (split size max r) = split_of_valid size max r v in
    let sized = lens_of_Sized r.buf (split size max r).1 sp.left_sized in
    record {
      start = v.start;
      slots = v.slots;
      room = omega (
        arith,
        v.room,
        ap length sp.joined,
        length-append (split size max r).0 (split size max r).1,
      );
      chain =
          Chain-drop r.entries (v.start + r.checked_out_count) _ (split size max r).0 _ r.write_idx
            (omega arith)
            (subst (λ ps. Chain r.entries (v.start + r.checked_out_count) ps r.write_idx)
              (sym sp.joined) v.chain);
      positive = sized.0;
      lens = sized.1;
      one_end = v.one_end;
    }

pub take_batch_some :
    (size max : ℕ) (r : Ring) (p : Pending) (ps : List Pending)
    → (split size max r).0 ≡ p ∷ ps
    → take_batch size max r
      ≡ (map data_chunk (map (chunk_bytes r.buf) (split size max r).0), taken_from size max r)
unfolding take_batch
take_batch_some size max r p ps e = ground arith

pub take_batch_none :
    (size max : ℕ) (r : Ring)
    → (split size max r).0 ≡ []
    → take_batch size max r ≡ (last_chunk r ∷ [], taken_from size max r)
unfolding take_batch
take_batch_none size max r e = ground arith
