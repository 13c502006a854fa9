-- ===== src/LibcQueue/Destructor.antt =====
-- libc_queue.cpp, `~Queue`: its loops over `_fds` and over each entry's operations, with the coroutines that
-- `cancel` resumes, which change `_fds` meanwhile.
pub mod Entries
pub mod Erased
mod Tests
use easybd.Base.{
  ℕ, List, [], ◌∷◌, ◌++◌, Bool, true, false, ◌&&◌, ◌||◌, Option, none, some, ◌==◌, if◌then◌else◌,
  length,
}
use easybd.LibcQueue.{FdState, Table, find}

-- How the loops end: at the end of `_fds`; or where the code goes on with something that is gone: an entry
-- that was erased, an iterator of a `std::deque` that has grown, or one of a map that has grown.
pub data End : Type 0 where
  ended grew_map : End
  erased grew_queue : ℕ → End

abbrev pub is_key : ℕ → List ℕ → Bool
is_key fd [] = false
is_key fd (k ∷ ks) = k == fd || is_key fd ks

abbrev pub keys_of : Table → List ℕ
keys_of [] = []
keys_of ((k, st) ∷ t) = k ∷ keys_of t

-- Whether no descriptor but these has an entry.
unfoldable pub has_only : List ℕ → Table → Bool
has_only keys [] = true
has_only keys ((k, st) ∷ t) = is_key k keys && has_only keys t

-- `cancel` of the read operation, and of a write operation, of a descriptor, with all that the coroutine it
-- resumes does.
module _ {World : Type 0} (cancel_read cancel_write : ℕ → ℕ → Table × World → Table × World) where
  -- `if (state.read_op) state.read_op->cancel();`, and the operation that was cancelled.
  abbrev pub cancel_read_op : ℕ → Option ℕ → Table × World → List ℕ × (Table × World)
  cancel_read_op fd none s = ([], s)
  cancel_read_op fd (some op) s = (op ∷ [], cancel_read fd op s)

  -- The loop over `state.write_queue`, which had `n` operations when it began.
  pub cancel_writes : ℕ → ℕ → List ℕ → Table × World → End × List ℕ × (Table × World)
  unfolding find
  cancel_writes fd n [] s = (ended, [], s)
  cancel_writes fd n (op ∷ ops) s =
      let s' = cancel_write fd op s in
      let (end, calls, s2) = cancel_writes fd n ops s' in
      elim (find fd s'.0) [
        | none ↦ (erased fd, op ∷ [], s')
        | some st ↦
            if length st.write_queue == n
            then (end, op ∷ calls, s2)
            else (grew_queue fd, op ∷ [], s')
      ]

  -- The body of the loop over `_fds`, for one entry.
  pub cancel_entry : ℕ → FdState → Table × World → End × List ℕ × (Table × World)
  unfolding find cancel_writes
  cancel_entry fd st s =
      let (called, s') = cancel_read_op fd st.read_op s in
      elim (find fd s'.0) [
        | none ↦ (erased fd, called, s')
        | some st' ↦
            let ops = st'.write_queue in
            let (end, calls, s2) = cancel_writes fd (length ops) ops s' in
            (end, called ++ calls, s2)
      ]

  -- To the next entry, unless the loop is already lost.
  abbrev pub go_on : End → Bool → List ℕ → End × List ℕ → End × List ℕ
  go_on ended true calls (end, later) = (end, calls ++ later)
  go_on ended false calls rest = (grew_map, calls)
  go_on grew_map same calls rest = (grew_map, calls)
  go_on (erased fd) same calls rest = (erased fd, calls)
  go_on (grew_queue fd) same calls rest = (grew_queue fd, calls)

  -- The loop over `_fds`, of whose entries those of `keys` were there when it began.
  pub cancel_from : List ℕ → List ℕ → Table × World → End × List ℕ
  unfolding find cancel_entry has_only
  cancel_from keys [] s = (ended, [])
  cancel_from keys (fd ∷ fds) s = elim (find fd s.0) [
    | none ↦ cancel_from keys fds s
    | some st ↦
        let (end, calls, s') = cancel_entry fd st s in
        go_on end (has_only keys s'.0) calls (cancel_from keys fds s')
  ]

  -- `~Queue`: how its loops end, and the operations that were cancelled, in order.
  pub destroy : Table × World → End × List ℕ
  unfolding cancel_from
  destroy s = cancel_from (keys_of s.0) (keys_of s.0) s
