-- ===== src/UringBuffers/Layout.antt =====
-- Where the buffers of a ring lie.
use easybd.Base.{
  ℕ, zero, suc, ◌+◌, ◌*◌, ◌^◌, ◌≤◌, ◌<◌, ◌≡◌, refl, ap₂, List, [], ◌∷◌, map, All, arith,
}
use easybd.UringBuffers.{ring_len, huge_len, Buffer, BufferRing, add_buffers}

-- The indices from i on.
abbrev pub indices : ℕ → ℕ → List ℕ
indices zero i = []
indices (suc n) i = i ∷ indices n (i + 1)

-- Each buffer ends before those behind it begin.
abbrev pub Apart : List Buffer → Type 0
Apart [] = Unit {0}
Apart (b ∷ l) = All (λ (c : Buffer). b.addr + b.len ≤ c.addr) l × Apart l

abbrev pub Within : ℕ → ℕ → List Buffer → Type 0
Within lo hi l = All (λ (b : Buffer). (lo ≤ b.addr) × (b.addr + b.len ≤ hi)) l

-- A ring's buffers lie in its mapping, behind the array of their descriptors, apart from one another, and
-- are numbered from 0 in that order; each has the size that was asked for.
pub record IsLaidOut (entry_size entries : ℕ) (r : BufferRing) : Type 0 where
  pub within : Within (r.base + 16 * entries) (r.base + r.mmap_len) r.buffers
  pub apart : Apart r.buffers
  pub numbered : map (λ (b : Buffer). b.bid) r.buffers ≡ indices entries 0
  pub sized : All (λ (b : Buffer). b.len ≡ entry_size) r.buffers

times_add : (i n size : ℕ) → (i + n) * size ≡ i * size + n * size
times_add i n size = grind arith

module _ (base size : ℕ) (small : size < 2 ^ 32) where
  add_buffers-Above :
      (n i lo : ℕ)
      → lo ≤ base + i * size
      → All (λ (b : Buffer). lo ≤ b.addr) (add_buffers n i base size)
  unfolding add_buffers
  add_buffers-Above zero i lo h = tt
  add_buffers-Above (suc n) i lo h =
      (h, add_buffers-Above n (i + 1) lo (omega (arith, times_add i 1 size)))

  add_buffers-Within :
      (n i lo hi : ℕ)
      → lo ≤ base + i * size
      → base + (i + n) * size ≤ hi
      → Within lo hi (add_buffers n i base size)
  unfolding add_buffers
  add_buffers-Within zero i lo hi h k = tt
  add_buffers-Within (suc n) i lo hi h k = (
    (h, omega (arith, times_add i (suc n) size, times_add 1 n size)),
    add_buffers-Within n (i + 1) lo hi (omega (arith, times_add i 1 size)) (
        omega (
          arith,
          times_add i (suc n) size,
          times_add (i + 1) n size,
          times_add 1 n size,
          times_add i 1 size,
        )),
  )

  add_buffers-Apart : (n i : ℕ) → Apart (add_buffers n i base size)
  unfolding add_buffers
  add_buffers-Apart zero i = tt
  add_buffers-Apart (suc n) i = (
    add_buffers-Above n (i + 1) _ (omega (arith, times_add i 1 size)),
    add_buffers-Apart n (i + 1),
  )

  add_buffers-sized : (n i : ℕ) → All (λ (b : Buffer). b.len ≡ size) (add_buffers n i base size)
  unfolding add_buffers
  add_buffers-sized zero i = tt
  add_buffers-sized (suc n) i = (omega arith, add_buffers-sized n (i + 1))

  add_buffers-numbered :
      (n i : ℕ)
      → i + n ≤ 2 ^ 16
      → map (λ (b : Buffer). b.bid) (add_buffers n i base size) ≡ indices n i
  unfolding add_buffers
  add_buffers-numbered zero i h = refl
  add_buffers-numbered (suc n) i h =
      ap₂ (λ x l. x ∷ l) (omega arith) (add_buffers-numbered n (i + 1) (omega arith))

pub huge_len-ge : (len : ℕ) → len + 2 ^ 21 ≤ 2 ^ 64 → len ≤ huge_len len
unfolding huge_len
huge_len-ge len h = omega arith

pub ring_len-exact :
    (entry_size entries : ℕ)
    → 16 * entries + entry_size * entries + 2 ^ 21 ≤ 2 ^ 64
    → ring_len entry_size entries ≡ 16 * entries + entry_size * entries
unfolding ring_len
ring_len-exact entry_size entries h = omega arith

-- A ring in a mapping that has room for it.
pub add_buffers-IsLaidOut :
    (r : BufferRing) (entry_size entries : ℕ)
    → entry_size < 2 ^ 32
    → entries ≤ 2 ^ 16
    → 16 * entries + entry_size * entries ≤ r.mmap_len
    → r.buffers ≡ add_buffers entries 0 (r.base + 16 * entries) entry_size
    → IsLaidOut entry_size entries r
add_buffers-IsLaidOut r size n small few room e =
    let b = r.base + 16 * n in
    record {
      within = rw e (
          add_buffers-Within b size small n 0 b (r.base + r.mmap_len) (omega arith)
            (omega (arith, times_add 0 n size)));
      apart = rw e (add_buffers-Apart b size small n 0);
      numbered = rw e (add_buffers-numbered b size small n 0 (omega arith));
      sized = rw e (add_buffers-sized b size small n 0);
    }
