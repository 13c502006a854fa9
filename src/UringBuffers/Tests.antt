-- ===== src/UringBuffers/Tests.antt =====
-- The ring of a server's connection, in one huge page; and one that the kernel refuses.
use easybd.Base.{◌≡◌, refl, [], ◌∷◌, true, none, some, arith}
use easybd.Base.Int.{pos, negsuc}
use easybd.UringQueue
use easybd.UringQueue.{Slots, get_sqe}
use easybd.UringBuffers.{
  Held, RingCalls, create_ring, map_ring, ring_len, huge_len, register_ring, unmap, refused,
  next_buffer_group_id,
}
use easybd.UringBuffers.Lifetime.{CreatesRing, create_ring-CreatesRing}

abbrev room : Slots
room = record { first = true; submitted = pos 0; second = true }

abbrev huge_calls : RingCalls
huge_calls = record { huge = some 2097152; ordinary = none; registered = pos 0; slots = room }

-- Another stream's ring.
abbrev other : Held
other = record { mappings = (8388608, 2097152) ∷ []; groups = 1 ∷ []; blocks = [] }

one_page : huge_len (ring_len 131072 4) ≡ 2097152
unfolding huge_len ring_len
one_page = refl

group_wraps : next_buffer_group_id 65535 ≡ (65535, 0)
unfolding next_buffer_group_id
group_wraps = refl

is_refused :
    create_ring (record huge_calls { registered = negsuc 16 }) 131072 4 2 other
    ≡ (refused 17, other)
unfolding create_ring map_ring ring_len huge_len register_ring unmap
is_refused = refl

room_there : get_sqe room ≡ UringQueue.slot
unfolding get_sqe
room_there = refl

create_ring-CreatesRing_example :
    CreatesRing 131072 4 other (create_ring huge_calls 131072 4 2 other)
create_ring-CreatesRing_example =
    create_ring-CreatesRing huge_calls 131072 4 2 other (omega arith) (omega arith) (omega arith)
      room_there (record { huge = (refl, tt); ordinary = tt; new_group = λ e. (refl, tt) })
