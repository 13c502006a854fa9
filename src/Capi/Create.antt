-- ===== src/Capi/Create.antt =====
-- client.cpp and capi.cpp: what `easybd_client_create` returns, and what it leaves open.
use easybd.Base.{ℕ, ◌<◌, ◌≡◌, List, [], ◌∷◌, Option, none, some}
use easybd.Base.Int.{pos, neg}
use easybd.System
use easybd.System.{Os, ok, err, Thrown, errno_of, set_nonblocking, set_tcp_nodelay}
use easybd.Capi.{
  Pumped, nothing, connected, step_throws, Made, made, raised, starts, ConnectCalls, Returned,
}

-- An errno is not 0.
abbrev pub IsErrno : Os → Type 0
IsErrno (ok n) = Unit {0}
IsErrno (err e) = 0 < e

-- The connect completes some time, and no `step` throws before.
abbrev pub Completes : List Pumped → Type 0
Completes [] = ⊥
Completes (nothing ∷ steps) = Completes steps
Completes (step_throws e ∷ steps) = ⊥
Completes (connected r ∷ steps) = IsErrno r

-- What the constructor may do.
pub data Makes (before : List ℕ) (m : Made) (after : List ℕ) : Type 0 where
  makes : (fd : ℕ) → m ≡ made fd → after ≡ fd ∷ before → Makes before m after
  raises : (e : Thrown) → 0 < errno_of e → m ≡ raised e → after ≡ before → Makes before m after

pub record IsOrdinary (c : ConnectCalls) : Type 0 where
  pub nonblocking : set_nonblocking c.getfl c.setfl ≡ none
  pub nodelay : set_tcp_nodelay c.nodelay ≡ none
  pub socket : IsErrno c.socket
  pub connects : Completes c.steps
  pub loop : c.loop ≡ starts

-- What the C interface promises: 0 and a client, whose descriptor is open; or a negative errno, with `*out`
-- untouched and nothing more open than before.
pub data Creates (before : List ℕ) (r : Option Returned) (after : List ℕ) : Type 0 where
  creates :
      (fd : ℕ)
      → r ≡ some (record { ret = pos 0; out = some fd })
      → after ≡ fd ∷ before
      → Creates before r after
  refuses :
      (e : ℕ)
      → 0 < e
      → r ≡ some (record { ret = neg (pos e); out = none })
      → after ≡ before
      → Creates before r after
