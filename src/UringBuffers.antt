-- ===== src/UringBuffers.antt =====
-- easyio/src/uring_recv_stream.cpp: the memory of `RecvSink`, a ring of buffers in one mapping that is
-- registered with the kernel, and of `SingleShotRecvSink`. What the system's and liburing's calls return is
-- an argument.
pub mod Layout
pub mod Lifetime
mod Tests
use easybd.Base.{
  ℕ, zero, suc, ◌+◌, ◌-◌, ◌*◌, ◌%◌, ◌^◌, List, [], ◌∷◌, Bool, true, false, ◌&&◌, Option, none, some,
  ◌==◌, if◌then◌else◌,
}
use easybd.Base.Int.{ℤ, neg, is_neg, to_ℕ}
use easybd.UringQueue.{Slots, Got, slot, threw, get_sqe}

-- What the process holds: mappings, by address and length, the buffer groups that are registered with a
-- ring, and blocks of the heap, by address.
pub record Held : Type 0 where
  pub mappings : List (ℕ × ℕ)
  pub groups : List ℕ
  pub blocks : List ℕ

-- `munmap` of a whole mapping.
pub unmap : ℕ → ℕ → List (ℕ × ℕ) → List (ℕ × ℕ)
unmap addr len [] = []
unmap addr len ((a, n) ∷ l) =
    let later = unmap addr len l in if a == addr && n == len then later else (a, n) ∷ later

-- `io_uring_unregister_buf_ring`, and `free`
pub remove : ℕ → List ℕ → List ℕ
remove x [] = []
remove x (y ∷ l) = let later = remove x l in if y == x then later else y ∷ later

-- `next_buffer_group_id`: the group, and the counter after it, an `unsigned short`.
pub next_buffer_group_id : ℕ → ℕ × ℕ
next_buffer_group_id counter = (counter, (counter + 1) % 2 ^ 16)

-- `kHugePageSize`
abbrev pub huge_page_size : ℕ
huge_page_size = 2 ^ 21

-- `sizeof(io_uring_buf) * _entries + _entry_size * _entries`
pub ring_len : ℕ → ℕ → ℕ
ring_len entry_size entries = (16 * entries + entry_size * entries) % 2 ^ 64

-- `(_mmap_len + kHugePageSize - 1) & ~(kHugePageSize - 1)`
pub huge_len : ℕ → ℕ
huge_len len = let n = (len + (huge_page_size - 1)) % 2 ^ 64 in n - n % huge_page_size

-- What `io_uring_buf_ring_add` tells the kernel of a buffer.
pub record Buffer : Type 0 where
  pub addr : ℕ
  pub len : ℕ
  pub bid : ℕ

-- `RecvSink`
pub record BufferRing : Type 0 where
  pub base : ℕ
  pub mmap_len : ℕ
  pub buf_base : ℕ
  pub group : ℕ
  pub buffers : List Buffer

-- `for (unsigned int i = 0; i < _entries; ++i)`, from i on, with so many rounds left.
pub add_buffers : ℕ → ℕ → ℕ → ℕ → List Buffer
add_buffers zero i buf_base entry_size = []
add_buffers (suc n) i buf_base entry_size =
    record { addr = buf_base + i * entry_size; len = entry_size % 2 ^ 32; bid = i % 2 ^ 16 }
    ∷ add_buffers n (i + 1) buf_base entry_size

-- How a constructor ends.
pub data Created {ℓ} (A : Type ℓ) : Type ℓ where
  created : A → Created A
  out_of_memory : Created A
  refused : ℕ → Created A

-- What the constructor's calls return: the address of the `mmap` of huge pages, that of the ordinary one,
-- `io_uring_register_buf_ring`, and the calls of `_get_sqe`.
pub record RingCalls : Type 0 where
  pub huge : Option ℕ
  pub ordinary : Option ℕ
  pub registered : ℤ
  pub slots : Slots

-- The mapping: huge pages, or an ordinary one, or none.
pub map_ring : Option ℕ → Option ℕ → ℕ → Option (ℕ × ℕ)
unfolding huge_len
map_ring (some base) ordinary len = some (base, huge_len len)
map_ring none (some base) len = some (base, len)
map_ring none none len = none

-- `submit_recv()`, whose throw leaves the constructor.
pub submit_ring : Got → BufferRing → Held → Created BufferRing × Held
submit_ring slot r k = (created r, k)
submit_ring (threw e) r k = (refused e, k)

-- From the registration on.
pub register_ring : RingCalls → ℕ → ℕ → ℕ → ℕ × ℕ → Held → Created BufferRing × Held
unfolding unmap add_buffers submit_ring get_sqe
register_ring c entry_size entries group (base, len) k =
    let mapped : Held = record k { mappings = (base, len) ∷ k.mappings } in
    let buf_base = base + 16 * entries in
    let r : BufferRing = record {
      base = base;
      mmap_len = len;
      buf_base = buf_base;
      group = group;
      buffers = add_buffers entries 0 buf_base entry_size;
    } in
    if is_neg c.registered
    then (
      refused (to_ℕ (neg c.registered)),
      record mapped { mappings = unmap base len mapped.mappings },
    )
    else submit_ring (get_sqe c.slots) r (record mapped { groups = group ∷ k.groups })

abbrev pub with_mapping : RingCalls → ℕ → ℕ → ℕ → Option (ℕ × ℕ) → Held → Created BufferRing × Held
with_mapping c entry_size entries group none k = (out_of_memory, k)
with_mapping c entry_size entries group (some m) k = register_ring c entry_size entries group m k

-- `RecvSink::RecvSink`
pub create_ring : RingCalls → ℕ → ℕ → ℕ → Held → Created BufferRing × Held
unfolding map_ring
create_ring c entry_size entries group k =
    with_mapping c entry_size entries group
      (map_ring c.huge c.ordinary (ring_len entry_size entries)) k

-- `~RecvSink`
pub destroy_ring : BufferRing → Held → Held
unfolding unmap remove
destroy_ring r k = record k {
  mappings = unmap r.base r.mmap_len k.mappings;
  groups = remove r.group k.groups;
}

abbrev submit_block : Got → ℕ → Held → Created ℕ × Held
submit_block slot buf k = (created buf, k)
submit_block (threw e) buf k = (refused e, k)

-- `SingleShotRecvSink::SingleShotRecvSink`, by what `posix_memalign` gives.
pub create_block : Option ℕ → Slots → Held → Created ℕ × Held
unfolding get_sqe
create_block none slots k = (out_of_memory, k)
create_block (some buf) slots k =
    submit_block (get_sqe slots) buf (record k { blocks = buf ∷ k.blocks })

-- `~SingleShotRecvSink`
pub destroy_block : ℕ → Held → Held
unfolding remove
destroy_block buf k = record k { blocks = remove buf k.blocks }
