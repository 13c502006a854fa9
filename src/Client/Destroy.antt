-- ===== src/Client/Destroy.antt =====
-- client.cpp, `~Client` over the libc backend: the coroutines that `cancel_fd` resumes, what they register anew,
-- and what `~Queue` then resumes, when the client's members are gone.
pub mod Lasts
mod Tests
use easybd.Base.{ℕ, zero, suc, List, [], ◌∷◌}
use easybd.LibcQueue
use easybd.LibcQueue.{Table, clear_read_op, push_write_op}
use easybd.Client.{Client, broken, send_failed}

-- How the `send_all` of a sender that gets the lock goes until it ends or waits for room.
pub data Sent : Type 0 where
  completes waits fails : Sent

-- The table of the queue, the client, and the cids whose `send_request` waits for `_send_mtx`.
abbrev pub State : Type 0
State = Table × Client × List ℕ

-- The operations by number: the stream's, and the send of a request by its cid.
abbrev pub reader_op : ℕ
reader_op = 0

abbrev pub send_op : ℕ → ℕ
send_op cid = suc cid

module _ (fd : ℕ) (room : ℕ → Sent) where
  -- `~MutexGuard` in `send_request`: the next sender goes on, which may end too.
  pub next_sender : List ℕ → Table → Client → State
  unfolding push_write_op send_failed
  next_sender [] t c = (t, c, [])
  next_sender (cid ∷ cids) t c =
      let sent = next_sender cids t c in
      let failed = next_sender cids t (send_failed cid c) in
      elim (room cid) [
        | completes ↦ sent
        | waits ↦ (push_write_op fd (send_op cid) t, c, cids)
        | fails ↦ failed
      ]

  -- `cancel` of an operation. The stream's ends `reader_loop`, which destroys the stream; a send throws
  -- inside `send_request`, which returns.
  pub cancel_op : ℕ → State → State
  unfolding next_sender clear_read_op broken
  cancel_op zero (t, c, q) = (clear_read_op fd reader_op t, broken c, q)
  cancel_op (suc cid) (t, c, q) = next_sender q t (send_failed cid c)

  pub cancel_each : List ℕ → State → State
  unfolding cancel_op
  cancel_each [] s = s
  cancel_each (op ∷ ops) s = cancel_each ops (cancel_op op s)

  -- `_queue->cancel_fd(_fd)`
  pub cancel_client : State → State
  unfolding cancel_each
  cancel_client (t, c, q) = let (ops, t') = LibcQueue.cancel_fd fd t in cancel_each ops (t', c, q)

  -- `~Client`: the client as `cancel_fd` left it, and the operations whose coroutines `~Queue` then
  -- resumes, after `_pending` and `_send_mtx` were destroyed.
  pub destroy : State → Client × List ℕ
  unfolding cancel_client LibcQueue.cancel_all
  destroy s = let (t, c, q) = cancel_client s in (c, LibcQueue.cancel_all t)
