-- ===== src/WaitGroup.antt =====
-- easyio/include/easyio/wait_group.hpp: one coroutine waits for those that it has spawned.
pub mod Drained
mod Tests
use easybd.Base.{ℕ, zero, suc, ◌+◌, Bool, true, false, Option, none, some, if◌then◌else◌}
use easybd.Base.Int.{ℤ, pos, negsuc}

-- `WaitGroup`
pub record WaitGroup : Type 0 where
  pub remaining : ℤ
  pub waiter : Option ℕ

abbrev pub new : WaitGroup
new = record { remaining = pos 0; waiter = none }

abbrev pub increment : ℤ → ℤ
increment (pos n) = pos (suc n)
increment (negsuc zero) = pos 0
increment (negsuc (suc n)) = negsuc n

abbrev pub decrement : ℤ → ℤ
decrement (pos zero) = negsuc 0
decrement (pos (suc n)) = pos n
decrement (negsuc n) = negsuc (suc n)

-- `_remaining <= 0`
abbrev pub is_drained : ℤ → Bool
is_drained (pos zero) = true
is_drained (pos (suc n)) = false
is_drained (negsuc n) = true

-- `add()`
unfoldable pub add : WaitGroup → WaitGroup
add w = record w { remaining = increment w.remaining }

-- `done`: the coroutine that is resumed, if any.
unfoldable pub done : WaitGroup → Option ℕ × WaitGroup
done w =
    let w' : WaitGroup = record w { remaining = decrement w.remaining } in
    if is_drained w'.remaining then (w.waiter, record w' { waiter = none }) else (none, w')

-- `co_await wait()` of `h`: whether it goes on at once.
unfoldable pub wait : ℕ → WaitGroup → Bool × WaitGroup
wait h w = if is_drained w.remaining then (true, w) else (false, record w { waiter = some h })
