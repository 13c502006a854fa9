-- ===== src/Server/Accepts.antt =====
-- server.cpp: `accept_loop` and the connections that it spawns.
use easybd.Base.{ℕ, ◌≡◌, refl, ap, List, [], ◌∷◌, ◌++◌, All, Bool, true, false}
use easybd.Server.{Accept, accepted, failed, accept_loop}

-- Nothing here ends the loop.
abbrev pub GoesOn : Accept → Type 0
GoesOn (accepted fd) = Unit {0}
GoesOn (failed shutdown) = shutdown ≡ false

abbrev pub fds_of : List Accept → List ℕ
fds_of [] = []
fds_of (accepted fd ∷ calls) = fd ∷ fds_of calls
fds_of (failed shutdown ∷ calls) = fds_of calls

-- Whatever accepts succeed and fail, as long as no shutdown is requested: the loop spawns a connection
-- for each descriptor, in order, and goes on; and a failing accept under a requested shutdown ends it,
-- whatever would come later.
pub accept_loop_lem :
    (calls later : List Accept)
    → All GoesOn calls
    → (accept_loop calls ≡ (fds_of calls, false))
      × (accept_loop (calls ++ failed true ∷ later) ≡ (fds_of calls, true))
unfolding accept_loop
accept_loop_lem [] later h = (refl, refl)
accept_loop_lem (accepted fd ∷ calls) later h =
    let x = accept_loop_lem calls later h.1 in
    (
      ap (λ (y : List ℕ × Bool). (fd ∷ y.0, y.1)) x.0,
      ap (λ (y : List ℕ × Bool). (fd ∷ y.0, y.1)) x.1,
    )
accept_loop_lem (failed shutdown ∷ calls) later h =
    let x = accept_loop_lem calls later h.1 in rw (h.0) x
