-- ===== src/Server/Opens.antt =====
-- server.cpp: which descriptors stay open when the server does not start.
use easybd.Base.{ℕ, ◌≡◌, refl, ap, ◌∙◌, List, ◌∷◌, true, none}
use easybd.System.{Os, ok, err, system_error, close_fd-head, set_nonblocking}
use easybd.Server.{
  Result, returned, threw, open_both, open_socket_after, ListenCalls, listen_on, return_fd, bind_to,
  open_listen_socket, FileCalls, stat_file, open_backing_file,
}

-- What may be open afterwards: the descriptor that was returned; or nothing new, when an errno was thrown.
pub data Owns (before : List ℕ) (r : Result) (after : List ℕ) : Type 0 where
  keeps : (fd : ℕ) → r ≡ returned fd → after ≡ fd ∷ before → Owns before r after
  releases : (e : ℕ) → r ≡ threw (system_error e) → after ≡ before → Owns before r after

-- For every host that parses, when the descriptor can be made nonblocking, and whatever the other calls do:
-- `open_listen_socket` returns the one descriptor that it opened, or throws an errno and leaves none open.
pub open_listen_socket-Owns :
    (c : ListenCalls) (fds : List ℕ)
    → c.parsed ≡ true
    → set_nonblocking c.getfl c.setfl ≡ none
    → Owns fds (open_listen_socket c fds).0 (open_listen_socket c fds).1
unfolding open_listen_socket bind_to listen_on return_fd
open_listen_socket-Owns c fds p b = go c.socket refl
  where
    returned_fd :
        (fd : ℕ)
        → let x = return_fd (set_nonblocking c.getfl c.setfl) fd (fd ∷ fds) in Owns fds x.0 x.1
    returned_fd fd = rw b (keeps fd refl refl)

    go_listen :
        (fd : ℕ) (l : Os)
        → c.listen ≡ l
        → Owns fds (listen_on fd c (fd ∷ fds)).0 (listen_on fd c (fd ∷ fds)).1
    go_listen fd (err e) k = rw k (releases e refl (close_fd-head fd fds))
    go_listen fd (ok m) k = rw k (returned_fd fd)

    go_bind :
        (fd : ℕ) (l : Os)
        → c.bind ≡ l
        → Owns fds (bind_to fd c (fd ∷ fds)).0 (bind_to fd c (fd ∷ fds)).1
    go_bind fd (err e) k = rw (p, k) (releases e refl (close_fd-head fd fds))
    go_bind fd (ok m) k = rw (p, k) (go_listen fd c.listen refl)

    go :
        (l : Os) → c.socket ≡ l → Owns fds (open_listen_socket c fds).0 (open_listen_socket c fds).1
    go (err e) k = rw k (releases e refl refl)
    go (ok fd) k = rw k (go_bind fd c.bind refl)

-- `open_backing_file` returns the one descriptor that it opened, or throws an errno and leaves none open.
pub open_backing_file-Owns :
    (c : FileCalls) (fds : List ℕ)
    → Owns fds (open_backing_file c fds).0.0 (open_backing_file c fds).1
unfolding open_backing_file stat_file
open_backing_file-Owns c fds = go c.opened c.stat
  where
    go :
        (o s : Os)
        → let x = open_backing_file (record { opened = o; stat = s }) fds in Owns fds x.0.0 x.1
    go (err e) s = releases e refl refl
    go (ok fd) (err e) = releases e refl (close_fd-head fd fds)
    go (ok fd) (ok size) = keeps fd refl refl

-- What the start of a server leaves open.
pub data Starts (before : List ℕ) (r : Result) (after : List ℕ) : Type 0 where
  both_open : (file fd : ℕ) → r ≡ returned fd → after ≡ fd ∷ file ∷ before → Starts before r after
  no_file : (e : ℕ) → r ≡ threw (system_error e) → after ≡ before → Starts before r after
  no_socket :
      (file e : ℕ) → r ≡ threw (system_error e) → after ≡ file ∷ before → Starts before r after

-- For every host that parses, when the socket can be made nonblocking, and whatever the other calls do:
-- `run_server` has both descriptors open, and no other; or it throws an errno, with none open when the
-- backing file was refused, and with the file's alone when the socket was.
pub open_both-Starts :
    (f : FileCalls) (c : ListenCalls) (fds : List ℕ)
    → c.parsed ≡ true
    → set_nonblocking c.getfl c.setfl ≡ none
    → Starts fds (open_both f c fds).0 (open_both f c fds).1
unfolding open_both open_socket_after
open_both-Starts f c fds p b = elim (open_backing_file-Owns f fds) [
  | releases e k l ↦ rw k (no_file e refl l)
  | keeps file k l ↦ rw k (elim (open_listen_socket-Owns c (open_backing_file f fds).1 p b) [
    | releases e m n ↦ no_socket file e m (n ∙ l)
    | keeps fd m n ↦ both_open file fd m (n ∙ ap (λ x. fd ∷ x) l)
  ])
]
