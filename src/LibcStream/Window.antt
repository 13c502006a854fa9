-- ===== src/LibcStream/Window.antt =====
-- libc_recv_stream.cpp: the slots in use are consecutive, so `::recv` never writes into one of them.
use native.Mathlib.Nat.{mod-add-mod, mod-eq_of_lt, mod-eq-sub-mod}
use native.Mathlib.Decide.{dec_lt}
use easybd.Base.{
  ℕ, ◌+◌, ◌-◌, ◌%◌, ◌<◌, ◌≡◌, ◌≢◌, refl, sym, ap, ap₂, ◌∙◌, inl, inr, List, [], ◌∷◌, ◌++◌, map,
  length, take, arith, ◌==◌, ==_iff, Bool-cases,
}
use easybd.LibcStream.{Pending, update, chunk_bytes}

-- Fewer than `n` steps round a ring of `n` do not come back.
mod-ne_small : (h d n : ℕ) → h < n → 0 < d → d < n → (h + d) % n ≢ h
mod-ne_small h d n hh hd hn = elim (dec_lt (h + d) n) [
  | yes p ↦ omega (arith, mod-eq_of_lt p)
  | no p ↦ omega (
    arith,
    mod-eq-sub-mod {n = h + d} {m = n} (omega arith),
    mod-eq_of_lt {n = h + d - n} {m = n} (omega arith),
  )
]

pub mod-ne : (i j n : ℕ) → i < j → j < i + n → i % n ≢ j % n
mod-ne i j n h k e =
    mod-ne_small (i % n) (j - i) n (omega arith) (omega arith) (omega arith)
      (mod-add-mod i n (j - i) ∙ ap (λ t. t % n) (omega arith) ∙ sym e)

-- The slots of `ps` are those of the positions `i`, `i + 1`, …, and `w` is the slot after them.
abbrev pub Chain : ℕ → ℕ → List Pending → ℕ → Type 0
Chain n i [] w = w ≡ i % n
Chain n i (p ∷ ps) w = (p.idx ≡ i % n) × Chain n (i + 1) ps w

pub Chain-end : (n i : ℕ) (ps : List Pending) (w : ℕ) → Chain n i ps w → w ≡ (i + length ps) % n
Chain-end n i [] w c = c ∙ ap (λ t. t % n) (omega arith)
Chain-end n i (p ∷ ps) w c = Chain-end n (i + 1) ps w c.1 ∙ ap (λ t. t % n) (omega arith)

pub Chain-snoc :
    (n i : ℕ) (ps : List Pending) (w len : ℕ)
    → Chain n i ps w
    → Chain n i (ps ++ record { idx = w; len = len } ∷ []) ((w + 1) % n)
Chain-snoc n i [] w len c = (c, ap (λ t. (t + 1) % n) c ∙ mod-add-mod i n 1)
Chain-snoc n i (p ∷ ps) w len c = (c.0, Chain-snoc n (i + 1) ps w len c.1)

pub update_ne : (buf : ℕ → List ℕ) (i j : ℕ) (v : List ℕ) → j ≢ i → update buf i v j ≡ buf j
update_ne buf i j v h = elim (Bool-cases (j == i)) [
  | inl e ↦ absurd (h ((==_iff j i).0 e))
  | inr e ↦ rw e
]

pub update_self : (buf : ℕ → List ℕ) (i : ℕ) (v : List ℕ) → update buf i v i ≡ v
update_self buf i v = rw ((==_iff i i).1 refl)

-- A write to the slot after the chain leaves the bytes of every chunk of it.
pub chunks-update :
    (n i : ℕ) (ps : List Pending) (w : ℕ) (buf : ℕ → List ℕ) (v : List ℕ)
    → Chain n i ps w
    → length ps < n
    → map (chunk_bytes (update buf w v)) ps ≡ map (chunk_bytes buf) ps
chunks-update n i [] w buf v c h = refl
chunks-update n i (p ∷ ps) w buf v c h =
    ap₂ ◌∷◌ (ap (λ t. take p.len t) (update_ne buf w p.idx v ne))
      (chunks-update n (i + 1) ps w buf v c.1 (omega arith))
  where
    ne : p.idx ≢ w
    ne e =
        mod-ne i (i + 1 + length ps) n (omega arith) (omega arith)
          (sym c.0 ∙ e ∙ Chain-end n (i + 1) ps w c.1)
