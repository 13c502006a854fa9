-- ===== src/Owning/Tests.antt =====
-- A task that is moved into another variable, which then goes out of scope.
use easybd.Base.{◌≡◌, refl, [], ◌∷◌, arith}
use easybd.Owning.{Owners, exchange, store, free_handle, create, create_empty, destroy, move_assign}
use easybd.Owning.Once.{
  IsOwnedOnce, here, next, creates, creates_empty, destroys, assigns, start, Reach-IsOwnedOnce,
}

abbrev moved : Owners
moved = move_assign 1 0 (create_empty (create start))

abbrev gone : Owners
gone = destroy 0 (destroy 1 moved)

gone_once : gone.freed ≡ 0 ∷ []
unfolding create create_empty move_assign destroy exchange store free_handle
gone_once = refl

Reach-IsOwnedOnce_example : IsOwnedOnce gone
unfolding create create_empty
Reach-IsOwnedOnce_example = Reach-IsOwnedOnce (
    next
      (next (next (next (next here creates) creates_empty) (assigns 1 0 (omega arith)))
        (destroys 1))
      (destroys 0))
