-- ===== src/Sending.antt =====
-- easyio/src/queue.cpp, `send_all`, over `Queue::send` and `Queue::sendmsg` of the libc backend in
-- easyio/src/libc_queue.cpp. The socket is the list of what the next `::send` calls do.
pub mod Laws
mod Tests
use easybd.Base.{
  ℕ, zero, suc, ◌+◌, ◌-◌, min, List, [], ◌∷◌, ◌++◌, Bool, true, false, ltb, ◌==◌, if◌then◌else◌,
  length, take, drop, flatten, Option, none, some,
}
use easybd.Base.Int.{ℤ, pos, neg, negsuc}

-- One `::send` or `::sendmsg`: room for at most so many bytes, no room yet (EAGAIN), or an errno less
-- one.
pub data Answer : Type 0 where
  takes : ℕ → Answer
  full : Answer
  refused : ℕ → Answer

-- A socket, and the bytes that it has taken so far.
pub record Socket : Type 0 where
  pub answers : List Answer
  pub wire : List ℕ

-- `_try`: the result, or none when the operation must wait.
abbrev pub try_send : List ℕ → Answer → Option ℤ
try_send bytes (takes n) = some (pos (min n (length bytes)))
try_send bytes full = none
try_send bytes (refused e) = some (negsuc e)

abbrev pub written : List ℕ → Answer → List ℕ
written bytes (takes n) = take (min n (length bytes)) bytes
written bytes full = []
written bytes (refused e) = []

-- What `co_await` of the awaiter gives: `_try` in `await_ready`, and again in each `on_ready` while
-- the socket has no room. None: the socket never has room again.
pub transfer : List ℕ → List Answer → List ℕ → Option ℤ × Socket
transfer bytes [] wire = (none, record { answers = []; wire = wire })
transfer bytes (a ∷ later) wire =
    let waited = transfer bytes later wire in
    elim (try_send bytes a) [
      | some res ↦ (some res, record { answers = later; wire = wire ++ written bytes a })
      | none ↦ waited
    ]

-- How `send_all` ends: it returns, throws an errno (less one), waits for ever, or is out of fuel.
pub data Outcome : Type 0 where
  done blocked no_fuel : Outcome
  thrown : ℕ → Outcome

-- `Queue::send`
abbrev pub send : List ℕ → Socket → Option ℤ × Socket
send bytes s = transfer bytes s.answers s.wire

-- `Queue::sendmsg`
abbrev pub sendmsg : List (List ℕ) → Socket → Option ℤ × Socket
sendmsg iov s = transfer (flatten iov) s.answers s.wire

-- `while (off < size)`
pub send_loop : ℕ → List ℕ → ℕ → Socket → Outcome × Socket
unfolding transfer
send_loop zero buf off s = (no_fuel, s)
send_loop (suc f) buf off s = elim (ltb off (length buf)) [
  | false ↦ (done, s)
  | true ↦
      let (res, s') = send (drop off buf) s in
      elim res [
        | some (pos n) ↦ send_loop f buf (off + n) s'
        | some (negsuc e) ↦ (thrown e, s')
        | none ↦ (blocked, s')
      ]
]

-- `send_all(queue, fd, buf, size)`
pub send_all : List ℕ → Socket → Outcome × Socket
unfolding send_loop
send_all buf s = send_loop (suc (length buf)) buf 0 s

-- `while (n > 0)`: `iov` is what there is from `first` on.
pub advance : ℕ → List (List ℕ) → List (List ℕ)
advance n [] = []
advance n (v ∷ vs) =
    let later = advance (n - length v) vs in
    if n == 0 then v ∷ vs else if ltb n (length v) then drop n v ∷ vs else later

-- `while (sent < total)`
pub send_iov_loop : ℕ → List (List ℕ) → ℕ → ℕ → Socket → Outcome × Socket
unfolding transfer advance
send_iov_loop zero iov sent total s = (no_fuel, s)
send_iov_loop (suc f) iov sent total s = elim (ltb sent total) [
  | false ↦ (done, s)
  | true ↦
      let (res, s') = sendmsg iov s in
      elim res [
        | some (pos n) ↦ send_iov_loop f (advance n iov) (sent + n) total s'
        | some (negsuc e) ↦ (thrown e, s')
        | none ↦ (blocked, s')
      ]
]

-- `send_all(queue, fd, buf1, size1, buf2, size2)`
pub send_all_pair : List ℕ → List ℕ → Socket → Outcome × Socket
unfolding send_iov_loop
send_all_pair buf1 buf2 s =
    let total = length buf1 + length buf2 in send_iov_loop (suc total) (buf1 ∷ buf2 ∷ []) 0 total s
