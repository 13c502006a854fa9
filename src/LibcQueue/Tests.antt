-- ===== src/LibcQueue/Tests.antt =====
-- libc_queue.cpp: an accept loop that arms its next accept while the first is dispatched.
use easybd.Base.{ℕ, ◌+◌, ◌%◌, ◌^◌, ◌≡◌, refl, List, [], ◌∷◌, Bool, true, some, arith}
use easybd.LibcQueue.{FdState, Table, find, dispatch_read}
use easybd.LibcQueue.Acts.{Act, sets, pushes, run_acts}
use easybd.LibcQueue.Rearm.{dispatch_read-last}

abbrev listening : FdState
listening = record { read_op = some 10; read_op_gen = 1; write_queue = [] }

abbrev table : Table
table = (3, listening) ∷ []

-- The new connection 4 is read, and the next accept, operation 12, is armed.
abbrev accepts : List Act
accepts = sets 4 11 ∷ sets 3 12 ∷ pushes 4 13 ∷ []

abbrev arms_next : ℕ → Table × ℕ → Bool × (Table × ℕ)
arms_next op (t, w) = (true, (run_acts accepts t, w + 1))

table_found : find 3 table ≡ some listening
unfolding find
table_found = refl

dispatch_read-last_example :
    find 3 (dispatch_read arms_next 3 (table, 0)).0
    ≡ some
        (record { read_op = some 12; read_op_gen = (1 + (0 + (1 + 0))) % 2 ^ 64; write_queue = [] })
dispatch_read-last_example =
    dispatch_read-last arms_next 3 10 table 0 1 listening accepts table_found refl (omega arith)
      (tt, (tt, (tt, tt))) (omega arith) refl
