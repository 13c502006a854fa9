-- ===== src/LibcQueue/Destructor/Tests.antt =====
-- A listening socket and two connections that are idle, whose coroutines end when they are cancelled.
use easybd.Base.{ℕ, ◌+◌, ◌≡◌, refl, [], ◌∷◌, Bool, not, some, ◌==◌, if◌then◌else◌}
use easybd.LibcQueue.{FdState, Table, clear_read_op}
use easybd.LibcQueue.Destructor.{erased, destroy}
use easybd.LibcQueue.Destructor.Erased.{expected, lost_at, destroy-expected}

abbrev read_by : ℕ → FdState
read_by op = record { read_op = some op; read_op_gen = 1; write_queue = [] }

abbrev table : Table
table = (3, read_by 10) ∷ (4, read_by 11) ∷ (5, read_by 12) ∷ []

abbrev ends : ℕ → Bool
ends fd = not (fd == 3)

abbrev cancel_read : ℕ → ℕ → Table × ℕ → Table × ℕ
cancel_read fd op (t, w) = (if ends fd then clear_read_op fd op t else t, w + 1)

abbrev cancel_write : ℕ → ℕ → Table × ℕ → Table × ℕ
cancel_write fd op (t, w) = (t, w + 1)

destroy-expected_example : destroy cancel_read cancel_write (table, 0) ≡ (erased 4, 10 ∷ 11 ∷ [])
unfolding expected lost_at
destroy-expected_example =
    destroy-expected cancel_read cancel_write ends (λ fd op s. refl) (λ fd op s. refl) table 0
      ((refl, (refl, tt)), ((refl, tt), (tt, tt)))
