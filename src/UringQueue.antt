-- ===== src/UringQueue.antt =====
-- easyio/src/uring_queue.cpp: the operations as submission entries, and `step`, which waits and
-- dispatches the completions. What liburing's calls return is an argument of each operation.
pub mod World
pub mod Fixed
pub mod Atomic
pub mod Answered
pub mod Waits
mod Tests
use easybd.Base.{
  ℕ, zero, suc, ◌+◌, ◌*◌, ◌/◌, ◌%◌, List, [], ◌∷◌, ◌++◌, Bool, true, false, not, ◌&&◌, ◌||◌, Option,
  none, some, ◌==◌, if◌then◌else◌,
}
use easybd.Base.Int.{ℤ, pos, neg, negsuc, is_neg, to_ℕ, same}

-- `ENOBUFS`, `-ETIME` and `-EINTR`
abbrev pub enobufs : ℕ
enobufs = 105

abbrev pub minus_etime : ℤ
minus_etime = negsuc 61

abbrev pub minus_eintr : ℤ
minus_eintr = negsuc 3

abbrev pub minus_one : ℤ
minus_one = negsuc 0

pub data Opcode : Type 0 where
  openat close_fd read write accept_on connect_to send_to sendmsg_to cancel : Opcode

-- What an entry acts on: a descriptor, a registered file under IOSQE_FIXED_FILE, or a path.
pub data Target : Type 0 where
  plain : ℤ → Target
  fixed : ℕ → Target
  path : Target

-- `io_uring_sqe`; `user_data` is the awaiter's number.
pub record Sqe : Type 0 where
  pub opcode : Opcode
  pub target : Target
  pub size : ℕ
  pub offset : ℕ
  pub dsync : Bool
  pub user_data : Option ℕ

pub record Cqe : Type 0 where
  pub res : ℤ
  pub user_data : Option ℕ

-- What an awaited operation gives its caller: a value, or a `std::system_error` with this errno.
pub data Outcome : Type 0 where
  value : ℕ → Outcome
  thrown : ℕ → Outcome

-- `Queue`: `flight` is the entries that are prepared or submitted and have not completed, `cq` the
-- completions that were not dispatched, `results` what the awaiters were resumed with, in order, and
-- `next_id` the number of the next awaiter.
pub record Queue : Type 0 where
  pub registered_fd : ℤ
  pub flight : List Sqe
  pub cq : List Cqe
  pub results : List (ℕ × Outcome)
  pub next_id : ℕ

-- The constructor, by what `io_uring_queue_init` returns.
pub data Created : Type 0 where
  created : Queue → Created
  refused : ℕ → Created

unfoldable pub create : ℤ → Created
create ret =
    if is_neg ret
    then refused (to_ℕ (neg ret))
    else created
        (record { registered_fd = minus_one; flight = []; cq = []; results = []; next_id = 0 })

-- What `io_uring_get_sqe`, `io_uring_submit`, and `io_uring_get_sqe` again, would return.
pub record Slots : Type 0 where
  pub first : Bool
  pub submitted : ℤ
  pub second : Bool

pub data Got : Type 0 where
  slot : Got
  threw : ℕ → Got

-- `_get_sqe`
unfoldable pub get_sqe : Slots → Got
get_sqe a =
    if a.first
    then slot
    else if is_neg a.submitted
    then threw (to_ℕ (neg a.submitted))
    else if a.second
    then slot
    else threw enobufs

-- `SqeAwaiter` and `SendMsgAwaiter`: the entry with this awaiter as its data, or the throw of
-- `_get_sqe`, which leaves nothing behind.
pub prepare : Got → Sqe → Queue → Got × Queue
prepare (threw e) sqe q = (threw e, q)
prepare slot sqe q = (
  slot,
  record q {
    flight = q.flight ++ record sqe { user_data = some q.next_id } ∷ [];
    next_id = q.next_id + 1;
  },
)

pub start : Slots → Sqe → Queue → Got × Queue
unfolding get_sqe prepare
start a sqe q = prepare (get_sqe a) sqe q

-- `_use_fixed_file`, by what `io_uring_register_files` would return.
pub use_fixed_file : ℤ → ℤ → Queue → Bool × Queue
use_fixed_file ret fd q =
    if same q.registered_fd fd
    then (true, q)
    else if not (same q.registered_fd minus_one)
    then (false, q)
    else if is_neg ret
    then (false, q)
    else (true, record q { registered_fd = fd })

-- `fixed ? 0 : fd`, with the flag.
abbrev pub file_target : Bool → ℤ → Target
file_target b fd = if b then fixed 0 else plain fd

abbrev pub entry : Opcode → Target → ℕ → ℕ → Bool → Sqe
entry opcode target size offset dsync = record {
  opcode = opcode;
  target = target;
  size = size;
  offset = offset;
  dsync = dsync;
  user_data = none;
}

pub open_file : Slots → Queue → Got × Queue
unfolding start
open_file a q = start a (entry openat path 0 0 false) q

pub close : Slots → ℤ → Queue → Got × Queue
unfolding start
close a fd q = start a (entry close_fd (plain fd) 0 0 false) q

pub pread : Slots → ℤ → ℤ → ℕ → ℕ → Queue → Got × Queue
unfolding start use_fixed_file
pread a ret fd size offset q =
    let (b, q') = use_fixed_file ret fd q in
    start a (entry read (file_target b fd) size offset false) q'

pub pwrite : Slots → ℤ → ℤ → ℕ → ℕ → Queue → Got × Queue
unfolding start use_fixed_file
pwrite a ret fd size offset q =
    let (b, q') = use_fixed_file ret fd q in
    start a (entry write (file_target b fd) size offset false) q'

pub pwrite_dsync : Slots → ℤ → ℤ → ℕ → ℕ → Queue → Got × Queue
unfolding start use_fixed_file
pwrite_dsync a ret fd size offset q =
    let (b, q') = use_fixed_file ret fd q in
    start a (entry write (file_target b fd) size offset true) q'

pub accept : Slots → ℤ → Queue → Got × Queue
unfolding start
accept a fd q = start a (entry accept_on (plain fd) 0 0 false) q

pub connect : Slots → ℤ → Queue → Got × Queue
unfolding start
connect a fd q = start a (entry connect_to (plain fd) 0 0 false) q

pub send : Slots → ℤ → ℕ → Queue → Got × Queue
unfolding start
send a fd size q = start a (entry send_to (plain fd) size 0 false) q

pub sendmsg : Slots → ℤ → ℕ → Queue → Got × Queue
unfolding start
sendmsg a fd iovcnt q = start a (entry sendmsg_to (plain fd) iovcnt 0 false) q

-- The entry of `cancel_fd` has no awaiter.
pub prepare_cancel : Got → ℤ → Queue → Got × Queue
prepare_cancel (threw e) fd q = (threw e, q)
prepare_cancel slot fd q =
    (slot, record q { flight = q.flight ++ entry cancel (plain fd) 0 0 false ∷ [] })

pub cancel_fd : Slots → ℤ → Queue → Got × Queue
unfolding get_sqe prepare_cancel
cancel_fd a fd q = prepare_cancel (get_sqe a) fd q

-- What every operation does with its awaiter's result.
abbrev pub outcome : ℤ → Outcome
outcome (pos n) = value n
outcome (negsuc e) = thrown (suc e)

-- `SqeAwaiter::on_cqe`, for a completion that has a sink.
unfoldable pub resume : Cqe → Queue → Queue
resume c q = elim c.user_data [
  | none ↦ q
  | some id ↦ record q { results = q.results ++ (id, outcome c.res) ∷ [] }
]

-- The loop of `_dispatch`.
unfoldable pub dispatch_each : List Cqe → Queue → Queue
unfolding resume
dispatch_each [] q = q
dispatch_each (c ∷ cs) q = dispatch_each cs (resume c q)

-- `_dispatch`
unfoldable pub dispatch : Queue → Queue
unfolding dispatch_each
dispatch q = dispatch_each q.cq (record q { cq = [] })

-- The `__kernel_timespec` of a timeout in milliseconds.
pub record Timespec : Type 0 where
  pub tv_sec : ℕ
  pub tv_nsec : ℕ

pub timespec : ℕ → Timespec
timespec timeout_ms = record { tv_sec = timeout_ms / 1000; tv_nsec = timeout_ms % 1000 * 1000000 }

-- The end of `step`, by what the wait returned: the errno that it throws, if it does.
pub after_wait : ℤ → Queue → Option ℕ × Queue
unfolding dispatch
after_wait ret q =
    if is_neg ret
    then if same ret minus_eintr then (none, q) else (some (to_ℕ (neg ret)), q)
    else (none, dispatch q)

-- `step`: `wait` is `io_uring_submit_and_wait`, or the one with a timeout.
pub step : (Option Timespec → ℤ) → ℤ → Queue → Option ℕ × Queue
unfolding dispatch after_wait timespec
step wait timeout_ms q =
    if is_neg timeout_ms
    then after_wait (wait none) q
    else let ret = wait (some (timespec (to_ℕ timeout_ms))) in
      if same ret minus_etime then (none, dispatch q) else after_wait ret q
