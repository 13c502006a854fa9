-- ===== src/WaitGroup/Drained.antt =====
-- wait_group.hpp, as `handle_connection` uses it: it spawns, then waits, and goes on when all is done.
use easybd.Base.{
  ℕ, suc, zero, ◌+◌, ◌-◌, ◌<◌, ◌≡◌, refl, ◌↔◌, ◌⊎◌, inl, inr, Bool, true, false, Option, none, some,
  if◌then◌else◌, arith,
}
use easybd.Base.Int.{pos}
use easybd.WaitGroup.{WaitGroup, new, add, done, wait}

-- A wait group in use: how many handlers run, whether their spawner has called `wait`, and whether it
-- has gone on.
pub record Use : Type 0 where
  pub group : WaitGroup
  pub running : ℕ
  pub waits : Bool
  pub over : Bool

abbrev pub start : Use
start = record { group = new; running = 0; waits = false; over = false }

abbrev pub is_some : Option ℕ → Bool
is_some none = false
is_some (some h) = true

-- The spawner adds before it waits, and waits once; a handler that runs is done once.
pub data Step (u : Use) : Use → Type 0 where
  spawns : u.waits ≡ false → Step u (record u { group = add u.group; running = u.running + 1 })
  finishes :
      0 < u.running
      → Step u (record u {
        group = (done u.group).1;
        running = u.running - 1;
        over = if is_some (done u.group).0 then true else u.over;
      })
  awaits :
      (h : ℕ)
      → u.waits ≡ false
      → Step u (record u { group = (wait h u.group).1; waits = true; over = (wait h u.group).0 })

pub data Reach (u : Use) : Use → Type 0 where
  here : Reach u u
  next : {v w : Use} → Reach u v → Step v w → Reach u w

-- The count is that of the handlers; after the `wait`, the spawner has gone on exactly if none runs.
pub record IsCounted (u : Use) : Type 0 where
  pub count : u.group.remaining ≡ pos u.running
  pub early : u.waits ≡ false → (is_some u.group.waiter ≡ false) × (u.over ≡ false)
  pub waiting : u.waits ≡ true → u.over ≡ false → (0 < u.running) × (is_some u.group.waiter ≡ true)
  pub drained : u.over ≡ true → u.running ≡ 0

zero_or_suc : (n : ℕ) → (n ≡ 0) ⊎ ((m : ℕ) × (n ≡ suc m))
zero_or_suc zero = inl refl
zero_or_suc (suc n) = inr (n, refl)

spawns-IsCounted :
    (u : Use)
    → u.waits ≡ false
    → IsCounted u
    → IsCounted (record u { group = add u.group; running = u.running + 1 })
unfolding add
spawns-IsCounted u h c = rw c.count (ground arith)

finishes-IsCounted_of :
    (n : ℕ) (o : Option ℕ) (u : Use)
    → u.running ≡ suc n
    → u.group.waiter ≡ o
    → IsCounted u
    → IsCounted (record u {
      group = (done u.group).1;
      running = n;
      over = if is_some (done u.group).0 then true else u.over;
    })
unfolding done
finishes-IsCounted_of zero none u h k c =
    rw (c.count, h, k) (ground (arith, c.early, c.waiting, rw k at c.waiting))
finishes-IsCounted_of zero (some x) u h k c = rw (c.count, h, k) (ground arith)
finishes-IsCounted_of (suc n) o u h k c = rw (c.count, h) (ground arith)

awaits-IsCounted :
    (h : ℕ) (u : Use)
    → u.waits ≡ false
    → IsCounted u
    → IsCounted (record u { group = (wait h u.group).1; waits = true; over = (wait h u.group).0 })
unfolding wait
awaits-IsCounted h u e c = elim (zero_or_suc u.running) [
  | inl z ↦ rw (c.count, z) (ground arith)
  | inr (n, z) ↦ rw (c.count, z) (ground arith)
]

suc_of_positive : (n : ℕ) → 0 < n → n ≡ suc (n - 1)
suc_of_positive n h = omega arith

Step-IsCounted : {u v : Use} → Step u v → IsCounted u → IsCounted v
Step-IsCounted {u} (spawns h) c = spawns-IsCounted u h c
Step-IsCounted {u} (finishes h) c =
    finishes-IsCounted_of (u.running - 1) u.group.waiter u (suc_of_positive u.running h) refl c
Step-IsCounted {u} (awaits h e) c = awaits-IsCounted h u e c

-- From a wait group in use as it should be, after handlers were spawned before the wait and finished at
-- any time: the count is the number of handlers that run; before the wait nobody waits; after it, while
-- handlers run, the spawner waits or has not gone on yet, and it has gone on only if none runs.
pub Reach-IsCounted : {u v : Use} → IsCounted u → Reach u v → IsCounted v
Reach-IsCounted c here = c
Reach-IsCounted c (next r st) = Step-IsCounted st (Reach-IsCounted c r)

-- From a wait group in use as it should be, after anything that may happen: once the spawner has called
-- `wait`, it has gone on if and only if no handler runs. So no wake-up is lost and none comes early.
pub wait_over_iff :
    {u v : Use} → IsCounted u → Reach u v → v.waits ≡ true → (v.over ≡ true) ↔ (v.running ≡ 0)
wait_over_iff c r w = let d = Reach-IsCounted c r in ground arith
