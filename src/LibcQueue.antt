-- ===== src/LibcQueue.antt =====
-- easyio/src/libc_queue.cpp: the operations that wait for a file descriptor, and `step`, which polls
-- and dispatches.
pub mod Acts
pub mod Rearm
pub mod Operations
pub mod Destructor
mod Tests
use easybd.Base.{
  ℕ, zero, suc, ◌+◌, ◌%◌, ◌^◌, List, [], ◌∷◌, ◌++◌, Bool, true, false, not, ◌&&◌, ◌||◌, Option,
  none, some, ◌==◌, if◌then◌else◌, is_empty,
}
use easybd.Base.Int.{ℤ, pos, neg}

-- `AcceptAwaiter::_try`, by what `::accept4` does: a descriptor, EAGAIN, or an errno.
pub data Accepted : Type 0 where
  accepted : ℕ → Accepted
  again : Accepted
  refused : ℕ → Accepted

unfoldable pub try_accept : Accepted → Option ℤ
try_accept (accepted fd) = some (pos fd)
try_accept again = none
try_accept (refused e) = some (neg (pos e))

-- `ConnectAwaiter`, by what `::connect` does, and later by SO_ERROR, or the errno of `getsockopt`.
pub data Connected : Type 0 where
  connected in_progress : Connected
  refused : ℕ → Connected

unfoldable pub try_connect : Connected → Option ℤ
try_connect connected = some (pos 0)
try_connect in_progress = none
try_connect (refused e) = some (neg (pos e))

unfoldable pub connect_on_ready : ℕ → ℤ
connect_on_ready err = if not (err == 0) then neg (pos err) else pos 0

-- `FdState`: an operation is a number.
pub record FdState : Type 0 where
  pub read_op : Option ℕ
  pub read_op_gen : ℕ
  pub write_queue : List ℕ

-- `_fds`
abbrev pub Table : Type 0
Table = List (ℕ × FdState)

abbrev pub is_none : Option ℕ → Bool
is_none none = true
is_none (some op) = false

-- `FdState::empty`
abbrev pub empty : FdState → Bool
empty st = is_none st.read_op && is_empty st.write_queue

abbrev pub new_state : FdState
new_state = record { read_op = none; read_op_gen = 0; write_queue = [] }

-- `_fds.find(fd)`
unfoldable pub find : ℕ → Table → Option FdState
find fd [] = none
find fd ((k, st) ∷ t) = if k == fd then some st else find fd t

-- `_fds.erase(fd)`
unfoldable pub erase : ℕ → Table → Table
erase fd [] = []
erase fd ((k, st) ∷ t) = let later = erase fd t in if k == fd then later else (k, st) ∷ later

-- The table with a changed entry, which `_fds[fd]` inserts.
unfoldable pub put : ℕ → FdState → Table → Table
unfolding erase
put fd st t = (fd, st) ∷ erase fd t

abbrev pub or_new : Option FdState → FdState
or_new none = new_state
or_new (some st) = st

-- `_fds[fd]`
unfoldable pub state_of : ℕ → Table → FdState
unfolding find
state_of fd t = or_new (find fd t)

-- `_set_read_op`
pub set_read_op : ℕ → ℕ → Table → Table
unfolding state_of put
set_read_op fd op t =
    let st = state_of fd t in
    put fd (record st { read_op = some op; read_op_gen = (st.read_op_gen + 1) % 2 ^ 64 }) t

abbrev pub is_op : ℕ → Option ℕ → Bool
is_op op none = false
is_op op (some x) = x == op

-- `if (it->second.empty()) _fds.erase(it)`
unfoldable pub erase_empty : ℕ → Table → Table
unfolding find erase
erase_empty fd t = elim (find fd t) [ none ↦ t | some st ↦ if empty st then erase fd t else t ]

-- `_clear_read_op`
unfoldable pub clear_read_op : ℕ → ℕ → Table → Table
unfolding find put erase_empty
clear_read_op fd op t = elim (find fd t) [
  | none ↦ t
  | some st ↦
      if is_op op st.read_op then erase_empty fd (put fd (record st { read_op = none }) t) else t
]

-- `_push_write_op`
unfoldable pub push_write_op : ℕ → ℕ → Table → Table
unfolding state_of put
push_write_op fd op t =
    let st = state_of fd t in put fd (record st { write_queue = st.write_queue ++ op ∷ [] }) t

abbrev pub ops_of : FdState → List ℕ
ops_of st = elim st.read_op [ none ↦ st.write_queue | some op ↦ op ∷ st.write_queue ]

-- `cancel_fd`: the operations whose `cancel` is then called, in order, and the table before.
unfoldable pub cancel_fd : ℕ → Table → List ℕ × Table
unfolding find erase
cancel_fd fd t = elim (find fd t) [ none ↦ ([], t) | some st ↦ (ops_of st, erase fd t) ]

-- `~Queue`: the operations that are cancelled, when none changes the table meanwhile.
unfoldable pub cancel_all : Table → List ℕ
cancel_all [] = []
cancel_all ((k, st) ∷ t) = ops_of st ++ cancel_all t

-- A `pollfd`: whether POLLIN and POLLOUT are asked for, or came.
pub record PollFd : Type 0 where
  pub fd : ℕ
  pub input : Bool
  pub output : Bool

-- What `step` polls.
pub pfds : Table → List PollFd
pfds [] = []
pfds ((fd, st) ∷ t) =
    let later = pfds t in
    let p : PollFd = record {
      fd = fd;
      input = not (is_none st.read_op);
      output = not (is_empty st.write_queue);
    } in
    if p.input || p.output then p ∷ later else later

-- After a read operation was done: it is dropped unless another was registered meanwhile.
pub drop_read_op : ℕ → ℕ → Table → Table
unfolding find put
drop_read_op fd gen t = elim (find fd t) [
  | none ↦ t
  | some st ↦ if st.read_op_gen == gen then put fd (record st { read_op = none }) t else t
]

abbrev pub front_is : ℕ → List ℕ → Bool
front_is op [] = false
front_is op (x ∷ xs) = x == op

abbrev pub pop_front : List ℕ → List ℕ
pop_front [] = []
pop_front (x ∷ xs) = xs

-- After a write operation was done: it is popped if it is still at the front.
pub drop_write_op : ℕ → ℕ → Table → Table
unfolding find put
drop_write_op fd op t = elim (find fd t) [
  | none ↦ t
  | some st ↦
      if front_is op st.write_queue
      then put fd (record st { write_queue = pop_front st.write_queue }) t
      else t
]

-- How `::poll` returns.
pub data Polled : Type 0 where
  interrupted : Polled
  failed : ℕ → Polled
  polled : List PollFd → Polled

-- `on_ready` of an operation, with all that the coroutine it resumes does to the table.
module _ {World : Type 0} (on_ready : ℕ → Table × World → Bool × (Table × World)) where
  -- The POLLIN part of the dispatch.
  pub dispatch_read : ℕ → Table × World → Table × World
  unfolding find drop_read_op
  dispatch_read fd (t, w) = elim (find fd t) [
    | none ↦ (t, w)
    | some st ↦ elim st.read_op [
      | none ↦ (t, w)
      | some op ↦
          let (finished, (t', w')) = on_ready op (t, w) in
          if finished then (drop_read_op fd st.read_op_gen t', w') else (t', w')
    ]
  ]

  -- The POLLOUT part, for as many operations as the fuel.
  pub dispatch_write : ℕ → ℕ → Table × World → Table × World
  unfolding find drop_write_op
  dispatch_write zero fd (t, w) = (t, w)
  dispatch_write (suc f) fd (t, w) = elim (find fd t) [
    | none ↦ (t, w)
    | some st ↦ elim st.write_queue [
      | [] ↦ (t, w)
      | op ∷ ops ↦
          let (finished, (t', w')) = on_ready op (t, w) in
          let later = dispatch_write f fd (drop_write_op fd op t', w') in
          if finished then later else (t', w')
    ]
  ]

  -- The body of the loop of `step` for one descriptor with events.
  pub dispatch : ℕ → PollFd → Table × World → Table × World
  unfolding dispatch_read dispatch_write erase_empty
  dispatch f p s =
      let s1 = (if p.input then dispatch_read p.fd s else s) in
      let (t, w) = (if p.output then dispatch_write f p.fd s1 else s1) in
      if p.input || p.output then (erase_empty p.fd t, w) else s

  pub dispatch_all : ℕ → List PollFd → Table × World → Table × World
  unfolding dispatch
  dispatch_all f [] s = s
  dispatch_all f (p ∷ ps) s = dispatch_all f ps (dispatch f p s)

  -- `step`: the errno that it throws, if any.
  pub step : ℕ → (List PollFd → Polled) → Table × World → Option ℕ × (Table × World)
  unfolding pfds dispatch_all
  step f poll (t, w) = elim (poll (pfds t)) [
    | interrupted ↦ (none, (t, w))
    | failed e ↦ (some e, (t, w))
    | polled ps ↦ (none, dispatch_all f ps (t, w))
  ]
