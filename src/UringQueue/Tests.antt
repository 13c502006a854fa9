-- ===== src/UringQueue/Tests.antt =====
-- uring_queue.cpp: a read of the backing file, whose descriptor gets registered.
use easybd.Base.{ℕ, ◌≡◌, refl, [], ◌∷◌, true, false, Option, none, some}
use easybd.Base.Int.{ℤ, pos, negsuc}
use easybd.UringQueue.{
  read, Slots, slot, threw, get_sqe, start, prepare, use_fixed_file, pread, step, after_wait,
  dispatch, dispatch_each, resume, value, fixed,
}
use easybd.UringQueue.World.{
  World, call, Reach, here, next, after_call, finish_entry, calls, completes, steps, fresh, file_op,
  preads, calls_file, resolve, bind,
}
use easybd.UringQueue.Fixed.{AddsOn, Reach-target}
use easybd.UringQueue.Answered.{IsAnswered, Reach-IsAnswered}
use easybd.UringQueue.Atomic.{Atomic}

-- Descriptor 3 is the backing file, number 30.
abbrev files : ℤ → Option ℕ
files = bind (pos 3) (some 30) (λ x. none)

abbrev room : Slots
room = record { first = true; submitted = pos 0; second = true }

abbrev full : Slots
full = record { first = false; submitted = pos 4; second = false }

abbrev read_file : World → World
read_file w = after_call room (pos 0) (calls_file preads (pos 3) 512 4096) w

abbrev one_read : World
one_read = read_file (fresh files)

one_read-Reach : Reach (fresh files) one_read
one_read-Reach = next here (calls room (pos 0) (calls_file preads (pos 3) 512 4096))

room_slot : get_sqe room ≡ slot
unfolding get_sqe
room_slot = refl

full_throws : get_sqe full ≡ threw 105
unfolding get_sqe
full_throws = refl

was_registered : one_read.slot ≡ some 30
unfolding call file_op pread use_fixed_file start prepare get_sqe
was_registered = refl

Reach-target_example :
    AddsOn (some 30) one_read (after_call room (pos 0) (calls_file preads (pos 3) 512 0) one_read)
unfolding call file_op pread use_fixed_file start prepare get_sqe
Reach-target_example = Reach-target room (pos 0) (pos 3) preads 512 0 one_read-Reach refl room_slot

-- The kernel completes the read with 512 bytes, and a turn of `step` resumes its awaiter.
abbrev one_done : World
one_done = record one_read {
  queue =
      finish_entry []
        (record {
          opcode = read;
          target = fixed 0;
          size = 512;
          offset = 4096;
          dsync = false;
          user_data = some 0;
        })
        (pos 512) [] one_read.queue;
}

abbrev one_resumed : World
one_resumed = record one_done { queue = (step (λ t. pos 1) (negsuc 0) one_done.queue).1 }

one_resumed_result : one_resumed.queue.results ≡ (0, value 512) ∷ []
unfolding step after_wait dispatch dispatch_each resume call file_op pread
one_resumed_result = refl

one_resumed-Reach : Reach (fresh files) one_resumed
unfolding call file_op pread use_fixed_file start prepare get_sqe
one_resumed-Reach =
    next (next one_read-Reach (completes [] _ (pos 512) [] refl)) (steps (λ t. pos 1) (negsuc 0))

Reach-IsAnswered_example : IsAnswered one_resumed.queue
Reach-IsAnswered_example = Reach-IsAnswered one_resumed-Reach

-- When the registered descriptor is closed and its number given to another file, reads still go to the
-- first file.
abbrev reopened : World
reopened = record one_read { files = bind (pos 3) (some 31) files }

stale_target : resolve (read_file reopened) (fixed 0) ≡ some 30
unfolding call file_op pread use_fixed_file start prepare get_sqe
stale_target = refl
