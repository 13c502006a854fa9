-- ===== src/Mutex/Tests.antt =====
-- mutex.hpp: three coroutines ask for the lock, and the first gives it up.
use easybd.Base.{◌≡◌, refl, [], ◌∷◌, some}
use easybd.Mutex.{lock, unlock}
use easybd.Mutex.Fifo.{Use, start, IsFair, after_lock, after_unlock}

start-IsFair : IsFair start
start-IsFair = record { in_order = refl; locked = refl; free = λ e. refl }

abbrev three : Use
three = after_lock 3 (after_lock 2 (after_lock 1 start))

handed_over : (after_unlock three).got ≡ 1 ∷ 2 ∷ []
unfolding lock unlock
handed_over = refl

first_holds : three.holder ≡ some 1
unfolding lock
first_holds = refl
