-- ===== src/System.antt =====
-- easyio/src/queue.cpp: the helpers on descriptors and the choice of a backend, over what the system's
-- calls return.
use easybd.Base.{
  ℕ, ◌<◌, ◌≡◌, refl, subst, arith, ==_refl, Bool, true, false, Option, none, some, if◌then◌else◌,
  ◌==◌, List, [], ◌∷◌,
}
use easybd.Base.Int.{ℤ, pos, negsuc}
use easybd.UringQueue
use easybd.UringQueue.{Queue, created, refused}

-- A call of the system: its value, or an errno.
pub data Os : Type 0 where
  ok : ℕ → Os
  err : ℕ → Os

-- What is thrown: `std::system_error`, `std::invalid_argument` or `std::bad_alloc`.
pub data Thrown : Type 0 where
  system_error : ℕ → Thrown
  invalid_argument bad_alloc : Thrown

-- `close`, on the descriptors that are open.
unfoldable pub close_fd : ℕ → List ℕ → List ℕ
close_fd fd [] = []
close_fd fd (x ∷ xs) = let rest = close_fd fd xs in if x == fd then xs else x ∷ rest

pub close_fd-head : (fd : ℕ) (fds : List ℕ) → close_fd fd (fd ∷ fds) ≡ fds
unfolding close_fd
close_fd-head fd fds = rw (==_refl fd) refl

-- `set_nonblocking`, by what `fcntl` returns for F_GETFL and F_SETFL: what it throws.
unfoldable pub set_nonblocking : Os → Os → Option Thrown
set_nonblocking (err e) set = some (system_error e)
set_nonblocking (ok flags) (err e) = some (system_error e)
set_nonblocking (ok flags) (ok n) = none

unfoldable pub set_tcp_nodelay : Os → Option Thrown
set_tcp_nodelay (err e) = some (system_error e)
set_tcp_nodelay (ok n) = none

pub data Backend : Type 0 where
  io_uring libc : Backend

-- A queue of one backend or the other, or an exception.
pub data NewQueue : Type 0 where
  uring_queue : Queue → NewQueue
  libc_queue : NewQueue
  no_queue : Thrown → NewQueue

pub of_created : UringQueue.Created → NewQueue
of_created (created q) = uring_queue q
of_created (refused e) = no_queue (system_error e)

-- `Queue::create`: `with_liburing` is EASYIO_WITH_LIBURING, and `init` what `io_uring_queue_init` returns.
pub create : Bool → ℤ → Backend → NewQueue
unfolding of_created
create with_liburing init libc = libc_queue
create with_liburing init io_uring =
    if with_liburing then of_created (UringQueue.create init) else no_queue invalid_argument

-- The errno of what is thrown: `ENOMEM` is 12 and `EINVAL` 22.
abbrev pub errno_of : Thrown → ℕ
errno_of (system_error e) = e
errno_of bad_alloc = 12
errno_of invalid_argument = 22

abbrev queue_errno : NewQueue → ℕ
queue_errno (no_queue e) = errno_of e
queue_errno (uring_queue q) = 1
queue_errno libc_queue = 1

created-errno : (init : ℤ) → 0 < queue_errno (of_created (UringQueue.create init))
unfolding of_created UringQueue.create
created-errno (pos n) = omega arith
created-errno (negsuc n) = omega arith

create-errno : (w : Bool) (init : ℤ) (b : Backend) → 0 < queue_errno (create w init b)
unfolding create
create-errno w init libc = omega arith
create-errno true init io_uring = created-errno init
create-errno false init io_uring = omega arith

pub create-throws :
    (w : Bool) (init : ℤ) (b : Backend) (e : Thrown) → create w init b ≡ no_queue e → 0 < errno_of e
create-throws w init b e h = subst (λ q. 0 < queue_errno q) h (create-errno w init b)
