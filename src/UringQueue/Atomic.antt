-- ===== src/UringQueue/Atomic.antt =====
-- uring_queue.cpp: an operation is started as a whole, with the entry that asks for it, or not at all.
use easybd.Base.{
  ℕ, ◌+◌, ◌<◌, ◌≡◌, refl, ap, [], ◌∷◌, ◌++◌, Bool, true, false, not, ◌&&◌, ◌||◌, none, some,
  if◌then◌else◌, arith, ◌∙◌, Bool-cases, inl, inr,
}
use easybd.Base.Int.{ℤ, pos, negsuc, is_neg, to_ℕ, neg}
use easybd.UringQueue.{
  Queue, Sqe, Opcode, openat, close_fd, read, write, accept_on, connect_to, send_to, sendmsg_to,
  plain, cancel, entry, Slots, Got, slot, threw, get_sqe, start, prepare, use_fixed_file, open_file,
  close, pread, pwrite, pwrite_dsync, accept, connect, send, sendmsg, cancel_fd, prepare_cancel,
}
use easybd.UringQueue.World.{
  Call, call, preads, pwrites, pwrites_dsync, file_op, calls_file, calls_open, calls_close,
  calls_accept, calls_connect, calls_cancel_fd, calls_send, calls_sendmsg,
}

-- Nothing but the registration may differ.
pub record Unchanged (q q' : Queue) : Type 0 where
  pub flight : q'.flight ≡ q.flight
  pub cq : q'.cq ≡ q.cq
  pub results : q'.results ≡ q.results
  pub next_id : q'.next_id ≡ q.next_id

-- One entry more, with a new awaiter's number or with none.
pub record Added (q q' : Queue) : Type 0 where
  pub sqe : Sqe
  pub awaited : Bool
  pub number : sqe.user_data ≡ (if awaited then some q.next_id else none)
  pub flight : q'.flight ≡ q.flight ++ sqe ∷ []
  pub cq : q'.cq ≡ q.cq
  pub results : q'.results ≡ q.results
  pub next_id : q'.next_id ≡ q.next_id + (if awaited then 1 else 0)

-- What the entry of each call asks the kernel for.
abbrev pub opcode_of : Call → Opcode
opcode_of calls_open = openat
opcode_of (calls_close fd) = close_fd
opcode_of (calls_accept fd) = accept_on
opcode_of (calls_connect fd) = connect_to
opcode_of (calls_cancel_fd fd) = cancel
opcode_of (calls_send fd size) = send_to
opcode_of (calls_sendmsg fd iovcnt) = sendmsg_to
opcode_of (calls_file preads fd size offset) = read
opcode_of (calls_file pwrites fd size offset) = write
opcode_of (calls_file pwrites_dsync fd size offset) = write

abbrev pub entry_size : Call → ℕ
entry_size calls_open = 0
entry_size (calls_close fd) = 0
entry_size (calls_accept fd) = 0
entry_size (calls_connect fd) = 0
entry_size (calls_cancel_fd fd) = 0
entry_size (calls_send fd size) = size
entry_size (calls_sendmsg fd iovcnt) = iovcnt
entry_size (calls_file op fd size offset) = size

abbrev pub entry_offset : Call → ℕ
entry_offset calls_open = 0
entry_offset (calls_close fd) = 0
entry_offset (calls_accept fd) = 0
entry_offset (calls_connect fd) = 0
entry_offset (calls_cancel_fd fd) = 0
entry_offset (calls_send fd size) = 0
entry_offset (calls_sendmsg fd iovcnt) = 0
entry_offset (calls_file op fd size offset) = offset

abbrev pub is_durable : Call → Bool
is_durable calls_open = false
is_durable (calls_close fd) = false
is_durable (calls_accept fd) = false
is_durable (calls_connect fd) = false
is_durable (calls_cancel_fd fd) = false
is_durable (calls_send fd size) = false
is_durable (calls_sendmsg fd iovcnt) = false
is_durable (calls_file preads fd size offset) = false
is_durable (calls_file pwrites fd size offset) = false
is_durable (calls_file pwrites_dsync fd size offset) = true

abbrev pub is_awaited : Call → Bool
is_awaited calls_open = true
is_awaited (calls_close fd) = true
is_awaited (calls_accept fd) = true
is_awaited (calls_connect fd) = true
is_awaited (calls_cancel_fd fd) = false
is_awaited (calls_send fd size) = true
is_awaited (calls_sendmsg fd iovcnt) = true
is_awaited (calls_file op fd size offset) = true

pub record IsFor (c : Call) (s : Sqe) (awaited : Bool) : Type 0 where
  pub opcode : s.opcode ≡ opcode_of c
  pub size : s.size ≡ entry_size c
  pub offset : s.offset ≡ entry_offset c
  pub durable : s.dsync ≡ is_durable c
  pub awaits : awaited ≡ is_awaited c

-- Whether the ring has room for an entry, at once or when what it holds was submitted; and the errno when it
-- has none, `ENOBUFS` when the submission itself went well.
abbrev pub gets_entry : Slots → Bool
gets_entry a = a.first || (not (is_neg a.submitted) && a.second)

abbrev pub entry_errno : Slots → ℕ
entry_errno a = if is_neg a.submitted then to_ℕ (neg a.submitted) else 105

-- All or nothing, and when which.
pub data Atomic (a : Slots) (c : Call) (q : Queue) (r : Got × Queue) : Type 0 where
  started :
      gets_entry a ≡ true
      → r.0 ≡ slot
      → (d : Added q r.1) → IsFor c d.sqe d.awaited
      → Atomic a c q r
  failed :
      gets_entry a ≡ false
      → r.0 ≡ threw (entry_errno a)
      → 0 < entry_errno a
      → Unchanged q r.1
      → Atomic a c q r

errno_positive : (r : ℤ) → is_neg r ≡ true → 0 < to_ℕ (neg r)
errno_positive (pos n) h = ground arith
errno_positive (negsuc n) h = omega arith

entry_errno-positive : (a : Slots) → 0 < entry_errno a
entry_errno-positive a = ground (arith, errno_positive a.submitted)

get_sqe-eq : (a : Slots) → get_sqe a ≡ (if gets_entry a then slot else threw (entry_errno a))
unfolding get_sqe
get_sqe-eq a = ground arith

start-Atomic :
    (c : Call) (a : Slots) (s : Sqe) (q q' : Queue)
    → Unchanged q q'
    → IsFor c s true
    → Atomic a c q (start a s q')
unfolding start prepare
start-Atomic c a s q q' u k = elim (Bool-cases (gets_entry a)) [
  | inl e ↦
      let g : get_sqe a ≡ slot = get_sqe-eq a ∙ rw e refl in
      rw g (
        started e refl
          (record {
            sqe = record s { user_data = some q'.next_id };
            awaited = true;
            number = ap some u.next_id;
            flight = ap (λ l. l ++ record s { user_data = some q'.next_id } ∷ []) u.flight;
            cq = u.cq;
            results = u.results;
            next_id = ap (λ n. n + 1) u.next_id;
          })
          (record {
            opcode = k.opcode;
            size = k.size;
            offset = k.offset;
            durable = k.durable;
            awaits = k.awaits;
          }))
  | inr e ↦
      let g : get_sqe a ≡ threw (entry_errno a) = get_sqe-eq a ∙ rw e refl in
      rw g (failed e refl (entry_errno-positive a) u)
]

cancel_fd-Atomic :
    (a : Slots) (fd : ℤ) (q : Queue) → Atomic a (calls_cancel_fd fd) q (cancel_fd a fd q)
unfolding cancel_fd prepare_cancel
cancel_fd-Atomic a fd q = elim (Bool-cases (gets_entry a)) [
  | inl e ↦
      let g : get_sqe a ≡ slot = get_sqe-eq a ∙ rw e refl in
      rw g (
        started e refl
          (record {
            sqe = entry cancel (plain fd) 0 0 false;
            awaited = false;
            number = refl;
            flight = refl;
            cq = refl;
            results = refl;
            next_id = omega arith;
          })
          (record { opcode = refl; size = refl; offset = refl; durable = refl; awaits = refl }))
  | inr e ↦
      let g : get_sqe a ≡ threw (entry_errno a) = get_sqe-eq a ∙ rw e refl in
      rw g (
        failed e refl (entry_errno-positive a)
          (record { flight = refl; cq = refl; results = refl; next_id = refl }))
]

use_fixed_file-Unchanged : (ret fd : ℤ) (q : Queue) → Unchanged q (use_fixed_file ret fd q).1
unfolding use_fixed_file
use_fixed_file-Unchanged ret fd q = ground arith

pub call-Atomic : (a : Slots) (ret : ℤ) (c : Call) (q : Queue) → Atomic a c q (call a ret c q)
unfolding call file_op open_file close accept connect send sendmsg pread pwrite pwrite_dsync
call-Atomic a ret c q = go c
  where
    same : Unchanged q q
    same = record { flight = refl; cq = refl; results = refl; next_id = refl }

    fixed_same : (fd : ℤ) → Unchanged q (use_fixed_file ret fd q).1
    fixed_same fd = use_fixed_file-Unchanged ret fd q

    go : (c : Call) → Atomic a c q (call a ret c q)
    go calls_open =
        start-Atomic _ a _ q q same
          (record { opcode = refl; size = refl; offset = refl; durable = refl; awaits = refl })
    go (calls_close fd) =
        start-Atomic _ a _ q q same
          (record { opcode = refl; size = refl; offset = refl; durable = refl; awaits = refl })
    go (calls_accept fd) =
        start-Atomic _ a _ q q same
          (record { opcode = refl; size = refl; offset = refl; durable = refl; awaits = refl })
    go (calls_connect fd) =
        start-Atomic _ a _ q q same
          (record { opcode = refl; size = refl; offset = refl; durable = refl; awaits = refl })
    go (calls_cancel_fd fd) = cancel_fd-Atomic a fd q
    go (calls_send fd size) =
        start-Atomic _ a _ q q same
          (record { opcode = refl; size = refl; offset = refl; durable = refl; awaits = refl })
    go (calls_sendmsg fd iovcnt) =
        start-Atomic _ a _ q q same
          (record { opcode = refl; size = refl; offset = refl; durable = refl; awaits = refl })
    go (calls_file preads fd size offset) =
        start-Atomic _ a _ q _ (fixed_same fd)
          (record { opcode = refl; size = refl; offset = refl; durable = refl; awaits = refl })
    go (calls_file pwrites fd size offset) =
        start-Atomic _ a _ q _ (fixed_same fd)
          (record { opcode = refl; size = refl; offset = refl; durable = refl; awaits = refl })
    go (calls_file pwrites_dsync fd size offset) =
        start-Atomic _ a _ q _ (fixed_same fd)
          (record { opcode = refl; size = refl; offset = refl; durable = refl; awaits = refl })
