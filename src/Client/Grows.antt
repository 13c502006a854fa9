-- ===== src/Client/Grows.antt =====
-- client.cpp: `_total_dispatched` never falls.
use easybd.Base.{ℕ, ◌≤◌, List, [], ◌∷◌, arith, Option-cases, inl, inr}
use easybd.Base.Int.{pos, neg}
use easybd.Wire.{ByteOrder}
use easybd.Client.{
  Client, Pending, dispatch, fail_each, broken, fail_all_pending, send_failed, complete, pread,
  pwrite, find,
}
use easybd.Client.Steps.{Step, Reach, here, next, reads, writes, responds, breaks, send_fails}

fail_each-grows :
    (ps : List (ℕ × Pending)) (e : ℕ) (c : Client)
    → c.total_dispatched ≤ (fail_each ps e c).total_dispatched
unfolding fail_each
fail_each-grows [] e c = omega arith
fail_each-grows ((cid, p) ∷ ps) e c =
    omega (arith, fail_each-grows ps e (dispatch cid p (neg (pos e)) c))

send_failed-grows :
    (cid : ℕ) (c : Client) → c.total_dispatched ≤ (send_failed cid c).total_dispatched
unfolding send_failed
send_failed-grows cid c = elim (Option-cases (find cid c.pending)) [
  | inl e ↦ rw (e, send_failed) (omega arith)
  | inr (p, e) ↦ rw (e, send_failed) (omega arith)
]

Step-grows :
    {order : ByteOrder} {c d : Client} → Step order c d → c.total_dispatched ≤ d.total_dispatched
unfolding pread pwrite complete broken fail_all_pending
Step-grows {c = c} (reads buf size offset user_data h) = ground arith
Step-grows {c = c} (writes payload offset user_data h) = ground arith
Step-grows {c = c} (responds resp p body h e) = omega arith
Step-grows {c = c} (breaks h) = fail_each-grows c.pending _ _
Step-grows {c = c} (send_fails cid) = send_failed-grows cid c

pub Reach-grows :
    {order : ByteOrder} {c d : Client} → Reach order c d → c.total_dispatched ≤ d.total_dispatched
Reach-grows here = omega arith
Reach-grows (next r s) = omega (arith, Reach-grows r, Step-grows s)
