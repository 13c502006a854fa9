-- ===== src/UringBuffers/Lifetime.antt =====
-- What the constructors of the sinks take, and what their destructors give back.
use easybd.Base.{
  ℕ, ◌+◌, ◌*◌, ◌^◌, ◌≤◌, ◌<◌, ◌≡◌, refl, sym, ap, ap₂, subst, List, [], ◌∷◌, false, All, arith,
  Option, none, some, ◌==◌, Bool-cases, inl, inr,
}
use easybd.Base.Int.{is_neg}
use easybd.UringQueue.{Slots, slot, threw, get_sqe}
use easybd.UringBuffers.{
  Held, unmap, remove, BufferRing, Created, created, out_of_memory, refused, RingCalls, map_ring,
  with_mapping, submit_ring, register_ring, create_ring, destroy_ring, create_block, destroy_block,
}
use easybd.UringBuffers.Layout.{IsLaidOut, huge_len-ge, ring_len-exact, add_buffers-IsLaidOut}

-- An address that no mapping has, and a group or a block that is not in the list.
abbrev pub IsUnmapped : List (ℕ × ℕ) → ℕ → Type 0
IsUnmapped l a = All (λ (m : ℕ × ℕ). (m.0 == a) ≡ false) l

abbrev pub IsNew : List ℕ → ℕ → Type 0
IsNew l x = All (λ y. (y == x) ≡ false) l

abbrev pub Gives : Option ℕ → (ℕ → Type 0) → Type 0
Gives none P = Unit {0}
Gives (some a) P = P a

unmap_new : (a n : ℕ) (l : List (ℕ × ℕ)) → IsUnmapped l a → unmap a n l ≡ l
unfolding unmap
unmap_new a n [] h = refl
unmap_new a n (m ∷ l) h = ground (arith, unmap_new a n l h.1, h.0)

unmap-cons : (a n : ℕ) (l : List (ℕ × ℕ)) → IsUnmapped l a → unmap a n ((a, n) ∷ l) ≡ l
unfolding unmap
unmap-cons a n l h = ground (arith, unmap_new a n l h)

remove_new : (x : ℕ) (l : List ℕ) → IsNew l x → remove x l ≡ l
unfolding remove
remove_new x [] h = refl
remove_new x (y ∷ l) h = ground (arith, remove_new x l h.1, h.0)

remove-cons : (x : ℕ) (l : List ℕ) → IsNew l x → remove x (x ∷ l) ≡ l
unfolding remove
remove-cons x l h = ground (arith, remove_new x l h)

-- Of a constructor that returned, its ring is laid out and its destructor gives all back; of one that threw,
-- nothing is held.
abbrev pub CreatesRing : ℕ → ℕ → Held → Created BufferRing × Held → Type 0
CreatesRing entry_size entries k (created r, k') =
    IsLaidOut entry_size entries r × (destroy_ring r k' ≡ k)
CreatesRing entry_size entries k (out_of_memory, k') = k' ≡ k
CreatesRing entry_size entries k (refused e, k') = k' ≡ k

-- What `mmap` and `io_uring_register_buf_ring` document: a mapping has an address of its own, and a group that is
-- registered is refused.
pub record IsDocumented (c : RingCalls) (group : ℕ) (k : Held) : Type 0 where
  pub huge : Gives c.huge (IsUnmapped k.mappings)
  pub ordinary : Gives c.ordinary (IsUnmapped k.mappings)
  pub new_group : is_neg c.registered ≡ false → IsNew k.groups group

-- A mapping of an address of its own that is long enough.
abbrev Fits : ℕ → Held → Option (ℕ × ℕ) → Type 0
Fits len k none = Unit {0}
Fits len k (some (a, n)) = IsUnmapped k.mappings a × (len ≤ n)

map_ring-Fits :
    (huge ordinary : Option ℕ) (len : ℕ) (k : Held)
    → len + 2 ^ 21 ≤ 2 ^ 64
    → Gives huge (IsUnmapped k.mappings)
    → Gives ordinary (IsUnmapped k.mappings)
    → Fits len k (map_ring huge ordinary len)
unfolding map_ring
map_ring-Fits (some base) o len k h u v = (u, huge_len-ge len h)
map_ring-Fits none (some base) len k h u v = (v, omega arith)
map_ring-Fits none none len k h u v = tt

module _ (c : RingCalls) (size n group : ℕ) (k : Held) (small : size < 2 ^ 32) (few : n ≤ 2 ^ 16)
    (room : get_sqe c.slots ≡ slot)
    (new_group : is_neg c.registered ≡ false → IsNew k.groups group) where
  register_ring-CreatesRing :
      (base len : ℕ)
      → IsUnmapped k.mappings base
      → 16 * n + size * n ≤ len
      → CreatesRing size n k (register_ring c size n group (base, len) k)
  unfolding register_ring submit_ring destroy_ring
  register_ring-CreatesRing base len u h = elim (Bool-cases (is_neg c.registered)) [
    | inl e ↦ rw e (ap (λ l. record k { mappings = l }) (unmap-cons base len k.mappings u))
    | inr e ↦
        rw (e, room)
          (
            add_buffers-IsLaidOut _ size n small few h refl,
            ap₂ (λ l g. record k { mappings = l; groups = g }) (unmap-cons base len k.mappings u)
                (remove-cons group k.groups (new_group e)),
          )
  ]

  with_mapping-CreatesRing :
      (m : Option (ℕ × ℕ))
      → Fits (16 * n + size * n) k m
      → CreatesRing size n k (with_mapping c size n group m k)
  with_mapping-CreatesRing none h = refl
  with_mapping-CreatesRing (some (base, len)) (u, h) = register_ring-CreatesRing base len u h

-- For buffers of less than 2^32 bytes, at most 2^16 of them, in a ring that a `size_t` measures, and when there is
-- room for the first recv: whatever `mmap` and the registration answer, `RecvSink` is created with its
-- buffers apart in its mapping, behind their descriptors, and numbered in order, and then `~RecvSink`
-- unmaps exactly what was mapped and unregisters its group; or the constructor throws, and leaves no
-- mapping and no group behind.
pub create_ring-CreatesRing :
    (c : RingCalls) (size n group : ℕ) (k : Held)
    → size < 2 ^ 32
    → n ≤ 2 ^ 16
    → 16 * n + size * n + 2 ^ 21 ≤ 2 ^ 64
    → get_sqe c.slots ≡ slot
    → IsDocumented c group k
    → CreatesRing size n k (create_ring c size n group k)
unfolding create_ring
create_ring-CreatesRing c size n group k small few total room d =
    with_mapping-CreatesRing c size n group k small few room d.new_group _ (
      subst (λ len. Fits (16 * n + size * n) k (map_ring c.huge c.ordinary len))
        (sym (ring_len-exact size n total))
        (map_ring-Fits c.huge c.ordinary (16 * n + size * n) k total d.huge d.ordinary))

-- Where `_get_sqe` throws in the constructor, the mapping and the group stay: no destructor runs.
pub register_ring_leaks :
    (c : RingCalls) (size n group base len e : ℕ) (k : Held)
    → get_sqe c.slots ≡ threw e
    → is_neg c.registered ≡ false
    → register_ring c size n group (base, len) k
      ≡ (refused e, record k { mappings = (base, len) ∷ k.mappings; groups = group ∷ k.groups })
unfolding register_ring submit_ring
register_ring_leaks c size n group base len e k g r = rw (r, g) refl

abbrev pub CreatesBlock : Held → Created ℕ × Held → Type 0
CreatesBlock k (created buf, k') = destroy_block buf k' ≡ k
CreatesBlock k (out_of_memory, k') = k' ≡ k
CreatesBlock k (refused e, k') = k' ≡ k

-- The same of `SingleShotRecvSink` and its buffer.
pub create_block-CreatesBlock :
    (answer : Option ℕ) (slots : Slots) (k : Held)
    → get_sqe slots ≡ slot
    → Gives answer (IsNew k.blocks)
    → CreatesBlock k (create_block answer slots k)
unfolding create_block destroy_block
create_block-CreatesBlock none slots k room h = refl
create_block-CreatesBlock (some buf) slots k room h =
    rw room (ap (λ l. record k { blocks = l }) (remove-cons buf k.blocks h))
