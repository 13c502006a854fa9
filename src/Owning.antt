-- ===== src/Owning.antt =====
-- The handles that have one owner: the coroutine frame of a `Task`, easyio/include/easyio/task.hpp, and the
-- memory of an `AlignedBuffer`, server/aligned_buffer.hpp. Both move by `std::exchange`.
pub mod Once
mod Tests
use easybd.Base.{
  ℕ, zero, suc, ◌+◌, List, [], ◌∷◌, ◌++◌, Bool, true, false, Option, none, some, ◌==◌,
  if◌then◌else◌,
}

-- The objects of such a class, each with `_handle` or `_ptr`, which may be null; what was destroyed or
-- freed, newest first; and the number of the next frame or block.
pub record Owners : Type 0 where
  pub objects : List (Option ℕ)
  pub freed : List ℕ
  pub next : ℕ

-- `std::exchange(other._handle, {})` of the object at this place.
pub exchange : ℕ → List (Option ℕ) → Option ℕ × List (Option ℕ)
exchange i [] = (none, [])
exchange zero (h ∷ hs) = (h, none ∷ hs)
exchange (suc i) (h ∷ hs) = let (x, rest) = exchange i hs in (x, h ∷ rest)

-- `_handle = …` for the object at this place.
pub store : ℕ → Option ℕ → List (Option ℕ) → List (Option ℕ)
store i x [] = []
store zero x (h ∷ hs) = x ∷ hs
store (suc i) x (h ∷ hs) = h ∷ store i x hs

-- `if (_handle) _handle.destroy();`, and `free(_ptr)`, which does nothing for null.
pub free_handle : Option ℕ → List ℕ → List ℕ
free_handle none freed = freed
free_handle (some x) freed = x ∷ freed

-- A new object with a new handle: `get_return_object`, or `AlignedBuffer(size)` for a size that is not 0
-- when `posix_memalign` succeeds.
pub create : Owners → Owners
create o = record o { objects = o.objects ++ some o.next ∷ []; next = o.next + 1 }

-- A new object with none: `Task()`, or `AlignedBuffer(0)`.
pub create_empty : Owners → Owners
create_empty o = record o { objects = o.objects ++ none ∷ [] }

-- `destroy()`: the handle is destroyed and the object has none.
pub destroy : ℕ → Owners → Owners
unfolding exchange free_handle
destroy i o =
    let (h, objects) = exchange i o.objects in
    record o { objects = objects; freed = free_handle h o.freed }

-- The move constructor, from the object at this place.
pub move_construct : ℕ → Owners → Owners
unfolding exchange
move_construct j o =
    let (h, objects) = exchange j o.objects in record o { objects = objects ++ h ∷ [] }

-- `operator=(T&& other)`, to the object at `i` from that at `j`.
pub move_assign : ℕ → ℕ → Owners → Owners
unfolding destroy exchange store
move_assign i j o =
    let o' = destroy i o in
    let (h, objects) = exchange j o'.objects in
    if i == j then o else record o' { objects = store i h objects }
