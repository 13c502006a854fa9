-- ===== src/Client/Destroy/Tests.antt =====
-- A client with three reads in flight: the first waits for room, the second's send fails, and the third
-- waits for room anew, in the destructor.
use easybd.Base.{ℕ, zero, suc, ◌≡◌, refl, [], ◌∷◌, true, false, some, arith}
use easybd.Wire.{little}
use easybd.LibcQueue.{FdState}
use easybd.Client.{Client, new, pread}
use easybd.Client.Account.{Accounted, called, is_issued, new-Accounted, pread-Accounted}
use easybd.Client.Destroy.{Sent, waits, fails, destroy, send_op, reader_op}
use easybd.Client.Destroy.Lasts.{survivors, destroy-Calls}

abbrev asks : ℕ → Client → Client
asks buf c = (pread little buf 512 0 5 c).0

abbrev asked : Client
asked = asks 90 (asks 80 (asks 70 (new false)))

asked-Accounted : Accounted asked
unfolding pread
asked-Accounted = pread-Accounted little 90 512 0 5 (asks 80 (asks 70 (new false))) (omega arith) (
    pread-Accounted little 80 512 0 5 (asks 70 (new false)) (omega arith)
      (pread-Accounted little 70 512 0 5 (new false) (omega arith) (new-Accounted false)))

abbrev registered : FdState
registered = record { read_op = some reader_op; read_op_gen = 1; write_queue = send_op 1 ∷ [] }

abbrev third_waits : ℕ → Sent
third_waits zero = fails
third_waits (suc zero) = fails
third_waits (suc (suc zero)) = fails
third_waits (suc (suc (suc n))) = waits

third_is_issued : is_issued 3 asked ≡ true
unfolding pread
third_is_issued = refl

-- The coroutine of the third request is left to `~Queue`.
third_survives : survivors third_waits (some 1) (2 ∷ 3 ∷ []) ≡ send_op 3 ∷ []
third_survives = refl

destroy-Calls_example :
    let (c', left) = destroy 6 third_waits ((6, registered) ∷ [], asked, 2 ∷ 3 ∷ []) in
    (called 3 c'.calls ≡ 1)
    × (c'.pending ≡ [])
    × (left ≡ survivors third_waits (some 1) (2 ∷ 3 ∷ []))
destroy-Calls_example =
    destroy-Calls 6 third_waits registered (some 1) (2 ∷ 3 ∷ []) asked 3 asked-Accounted
      third_is_issued refl refl
