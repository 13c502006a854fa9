-- ===== src/Capi/Waiting.antt =====
-- client.cpp, `wait`, and its C interface: the number of the callbacks that were called.
use easybd.Base.{ℕ, ◌+◌, ◌-◌, ◌^◌, ◌%◌, ◌<◌, ◌≤◌, ◌≡◌, arith, length, none}
use easybd.Base.Int.{pos}
use easybd.Wire.{ByteOrder}
use easybd.Client.{Client}
use easybd.Client.Account.{Accounted}
use easybd.Client.Steps.{Reach, Reach-Accounted}
use easybd.Client.Grows.{Reach-grows}
use easybd.Capi.{wait, to_int, client_wait}

to_int_exact : (n : ℕ) → n < 2 ^ 31 → to_int n ≡ pos n
unfolding to_int
to_int_exact n h = ground (arith, h)

difference_exact : (a b : ℕ) → b ≤ a → a - b < 2 ^ 31 → (a + (2 ^ 64 - b % 2 ^ 64)) % 2 ^ 64 ≡ a - b
difference_exact a b h k = omega arith

-- From a client whose requests are accounted for, when `step` throws nothing and whatever it makes happen
-- to the client, with fewer than 2^31 callbacks: `easybd_client_wait` returns the number of the callbacks
-- that were called meanwhile, whatever the counter's size and however often it was called before.
pub client_wait-counts :
    {order : ByteOrder} {c d : Client}
    → Accounted c
    → Reach order c d
    → length d.calls - length c.calls < 2 ^ 31
    → client_wait none c d ≡ pos (length d.calls - length c.calls)
unfolding client_wait wait
client_wait-counts {c = c} {d} a r h =
    let b = Reach-Accounted a r in
    rw (a.counted, b.counted)
      (rw
        (difference_exact (length d.calls) (length c.calls)
          (omega (arith, Reach-grows r, a.counted, b.counted)) h)
        (to_int_exact (length d.calls - length c.calls) h))
