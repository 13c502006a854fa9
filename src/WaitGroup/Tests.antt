-- ===== src/WaitGroup/Tests.antt =====
-- wait_group.hpp: two handlers, of which one is done before the wait.
use easybd.Base.Int.{pos}
use easybd.Base.{some, ◌≡◌, ◌↔◌, refl, arith, true, false}
use easybd.WaitGroup.Drained.{Use, start, IsCounted, here, wait_over_iff}

abbrev one_left : Use
one_left = record {
  group = record { remaining = pos 1; waiter = some 7 };
  running = 1;
  waits = true;
  over = false;
}

start-IsCounted : IsCounted start
start-IsCounted = record {
  count = refl;
  early = λ e. (refl, refl);
  waiting = λ e. ground arith;
  drained = λ e. refl;
}

one_left-IsCounted : IsCounted one_left
one_left-IsCounted = record {
  count = refl;
  early = λ e. ground arith;
  waiting = λ e k. (omega arith, refl);
  drained = λ e. ground arith;
}

wait_over_iff_example : (one_left.over ≡ true) ↔ (one_left.running ≡ 0)
wait_over_iff_example = wait_over_iff one_left-IsCounted here refl
