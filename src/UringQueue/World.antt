-- ===== src/UringQueue/World.antt =====
-- uring_queue.cpp: a queue with the kernel and the process around it.
use easybd.Base.{ℕ, zero, suc, ◌≡◌, List, [], ◌∷◌, ◌++◌, false, Option, none, if◌then◌else◌}
use easybd.Base.Int.{ℤ, same}
use easybd.UringQueue.{
  Queue, Sqe, Target, plain, fixed, path, Slots, Got, Timespec, minus_one, open_file, close, pread,
  pwrite, pwrite_dsync, accept, connect, send, sendmsg, cancel_fd, step,
}

pub data FileOp : Type 0 where
  preads pwrites pwrites_dsync : FileOp

unfoldable pub file_op : FileOp → Slots → ℤ → ℤ → ℕ → ℕ → Queue → Got × Queue
file_op preads a ret fd size offset q = pread a ret fd size offset q
file_op pwrites a ret fd size offset q = pwrite a ret fd size offset q
file_op pwrites_dsync a ret fd size offset q = pwrite_dsync a ret fd size offset q

-- A call of the queue's interface, with its descriptor.
pub data Call : Type 0 where
  calls_open : Call
  calls_close calls_accept calls_connect calls_cancel_fd : ℤ → Call
  calls_send calls_sendmsg : ℤ → ℕ → Call
  calls_file : FileOp → ℤ → ℕ → ℕ → Call

unfoldable pub call : Slots → ℤ → Call → Queue → Got × Queue
call a ret calls_open q = open_file a q
call a ret (calls_close fd) q = close a fd q
call a ret (calls_accept fd) q = accept a fd q
call a ret (calls_connect fd) q = connect a fd q
call a ret (calls_cancel_fd fd) q = cancel_fd a fd q
call a ret (calls_send fd size) q = send a fd size q
call a ret (calls_sendmsg fd iovcnt) q = sendmsg a fd iovcnt q
call a ret (calls_file op fd size offset) q = file_op op a ret fd size offset q

-- `files` is what each descriptor of the process stands for, `slot` what file 0 of the ring is; one file is
-- registered, so the ring has no other.
pub record World : Type 0 where
  pub queue : Queue
  pub files : ℤ → Option ℕ
  pub slot : Option ℕ

-- The file that an entry acts on.
abbrev pub resolve : World → Target → Option ℕ
resolve w (plain fd) = w.files fd
resolve w (fixed zero) = w.slot
resolve w (fixed (suc i)) = none
resolve w path = none

-- A registration puts the file that the descriptor stands for then into the ring.
abbrev pub register : World → Queue → World
register w q = record w {
  queue = q;
  slot = if same q.registered_fd w.queue.registered_fd then w.slot else w.files q.registered_fd;
}

abbrev pub after_call : Slots → ℤ → Call → World → World
after_call a ret c w = register w (call a ret c w.queue).1

abbrev pub bind : ℤ → Option ℕ → (ℤ → Option ℕ) → ℤ → Option ℕ
bind fd f files x = if same x fd then f else files x

abbrev pub finish_entry : List Sqe → Sqe → ℤ → List Sqe → Queue → Queue
finish_entry before s res after q = record q {
  flight = before ++ after;
  cq = q.cq ++ record { res = res; user_data = s.user_data } ∷ [];
}

-- What may happen: a call, an entry that the kernel completes, a turn of `step`, and any other
-- opening or closing of a descriptor that is not the registered one.
pub data Step (w : World) : World → Type 0 where
  calls : (a : Slots) (ret : ℤ) (c : Call) → Step w (after_call a ret c w)
  completes :
      (before : List Sqe) (s : Sqe) (res : ℤ) (after : List Sqe)
      → w.queue.flight ≡ before ++ s ∷ after
      → Step w (record w { queue = finish_entry before s res after w.queue })
  steps :
      (wait : Option Timespec → ℤ) (timeout_ms : ℤ)
      → Step w (record w { queue = (step wait timeout_ms w.queue).1 })
  rebinds :
      (fd : ℤ) (f : Option ℕ)
      → same w.queue.registered_fd fd ≡ false
      → Step w (record w { files = bind fd f w.files })

pub data Reach (v : World) : World → Type 0 where
  here : Reach v v
  next : {w u : World} → Reach v w → Step w u → Reach v u

-- A new queue, in a process with these files.
abbrev pub fresh : (ℤ → Option ℕ) → World
fresh files = record {
  queue = record { registered_fd = minus_one; flight = []; cq = []; results = []; next_id = 0 };
  files = files;
  slot = none;
}
