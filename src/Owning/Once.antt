-- ===== src/Owning/Once.antt =====
-- task.hpp and aligned_buffer.hpp: every handle has one owner, or was destroyed once.
use easybd.Base.{
  ℕ, zero, suc, ◌+◌, ◌<◌, ◌≡◌, List, [], ◌∷◌, ◌++◌, Option, none, some, arith, ltb, ◌==◌,
  if◌then◌else◌, length, Bool-cases, inl, inr,
}
use easybd.Owning.{
  Owners, exchange, store, free_handle, create, create_empty, destroy, move_construct, move_assign,
}

abbrev pub is_for : ℕ → Option ℕ → ℕ
is_for x none = 0
is_for x (some y) = if y == x then 1 else 0

abbrev pub count_owners : ℕ → List (Option ℕ) → ℕ
count_owners x [] = 0
count_owners x (h ∷ hs) = is_for x h + count_owners x hs

abbrev pub count_freed : ℕ → List ℕ → ℕ
count_freed x [] = 0
count_freed x (y ∷ ys) = (if y == x then 1 else 0) + count_freed x ys

-- Every handle that was created has one owner and was never destroyed, or has none and was destroyed once.
abbrev pub IsOwnedOnce : Owners → Type 0
IsOwnedOnce o =
    (x : ℕ) → count_owners x o.objects + count_freed x o.freed ≡ (if ltb x o.next then 1 else 0)

-- What a program may do with the objects, in any order.
pub data Step (o : Owners) : Owners → Type 0 where
  creates : Step o (create o)
  creates_empty : Step o (create_empty o)
  destroys : (i : ℕ) → Step o (destroy i o)
  moves : (j : ℕ) → Step o (move_construct j o)
  assigns : (i j : ℕ) → i < length o.objects → Step o (move_assign i j o)

pub data Reach (o : Owners) : Owners → Type 0 where
  here : Reach o o
  next : {p q : Owners} → Reach o p → Step p q → Reach o q

abbrev pub start : Owners
start = record { objects = []; freed = []; next = 0 }

count_owners-append :
    (x : ℕ) (hs ks : List (Option ℕ))
    → count_owners x (hs ++ ks) ≡ count_owners x hs + count_owners x ks
count_owners-append x [] ks = omega arith
count_owners-append x (h ∷ hs) ks = omega (arith, count_owners-append x hs ks)

exchange-count :
    (x i : ℕ) (hs : List (Option ℕ))
    → is_for x (exchange i hs).0 + count_owners x (exchange i hs).1 ≡ count_owners x hs
unfolding exchange
exchange-count x i [] = omega arith
exchange-count x zero (h ∷ hs) = omega arith
exchange-count x (suc i) (h ∷ hs) = omega (arith, exchange-count x i hs)

free_handle-count :
    (x : ℕ) (h : Option ℕ) (freed : List ℕ)
    → count_freed x (free_handle h freed) ≡ is_for x h + count_freed x freed
unfolding free_handle
free_handle-count x none freed = omega arith
free_handle-count x (some y) freed = omega arith

-- The object at this place has no handle.
abbrev IsNull : ℕ → List (Option ℕ) → Type 0
IsNull i [] = ⊥
IsNull zero (none ∷ hs) = Unit {0}
IsNull zero (some x ∷ hs) = ⊥
IsNull (suc i) (h ∷ hs) = IsNull i hs

exchange-IsNull : (i : ℕ) (hs : List (Option ℕ)) → i < length hs → IsNull i (exchange i hs).1
unfolding exchange
exchange-IsNull i [] h = absurd (omega (arith, h))
exchange-IsNull zero (x ∷ hs) h = tt
exchange-IsNull (suc i) (x ∷ hs) h = exchange-IsNull i hs (omega (arith, h))

exchange-keeps_IsNull : (i j : ℕ) (hs : List (Option ℕ)) → IsNull i hs → IsNull i (exchange j hs).1
unfolding exchange
exchange-keeps_IsNull i j [] h = h
exchange-keeps_IsNull zero zero (none ∷ hs) h = tt
exchange-keeps_IsNull zero zero (some x ∷ hs) h = elim h [ ]
exchange-keeps_IsNull zero (suc j) (none ∷ hs) h = tt
exchange-keeps_IsNull zero (suc j) (some x ∷ hs) h = elim h [ ]
exchange-keeps_IsNull (suc i) zero (x ∷ hs) h = h
exchange-keeps_IsNull (suc i) (suc j) (x ∷ hs) h = exchange-keeps_IsNull i j hs h

store-count :
    (x i : ℕ) (k : Option ℕ) (hs : List (Option ℕ))
    → IsNull i hs
    → count_owners x (store i k hs) ≡ is_for x k + count_owners x hs
unfolding store
store-count x i k [] h = elim h [ ]
store-count x zero k (none ∷ hs) h = omega arith
store-count x zero k (some y ∷ hs) h = elim h [ ]
store-count x (suc i) k (y ∷ hs) h = omega (arith, store-count x i k hs h)

destroy-IsOwnedOnce : (i : ℕ) (o : Owners) → IsOwnedOnce o → IsOwnedOnce (destroy i o)
unfolding destroy
destroy-IsOwnedOnce i o w x =
    omega (
      arith,
      w x,
      exchange-count x i o.objects,
      free_handle-count x (exchange i o.objects).0 o.freed,
    )

assign-IsOwnedOnce :
    (i j : ℕ) (o : Owners) → i < length o.objects → IsOwnedOnce o → IsOwnedOnce (move_assign i j o)
unfolding move_assign destroy
assign-IsOwnedOnce i j o h w x = elim (Bool-cases (i == j)) [
  | inl e ↦ rw e (w x)
  | inr e ↦
      let objects = (exchange i o.objects).1 in
      rw e (
        omega (
          arith,
          destroy-IsOwnedOnce i o w x,
          exchange-count x j objects,
          store-count x i (exchange j objects).0 (exchange j objects).1
              (exchange-keeps_IsNull i j objects (exchange-IsNull i o.objects h)),
        ))
]

Step-IsOwnedOnce : {o p : Owners} → Step o p → IsOwnedOnce o → IsOwnedOnce p
unfolding create create_empty move_construct
Step-IsOwnedOnce {o} creates w =
    λ x. ground (arith, w x, count_owners-append x o.objects (some o.next ∷ []))
Step-IsOwnedOnce {o} creates_empty w =
    λ x. omega (arith, w x, count_owners-append x o.objects (none ∷ []))
Step-IsOwnedOnce {o} (destroys i) w = destroy-IsOwnedOnce i o w
Step-IsOwnedOnce {o} (moves j) w = λ x.
    let y = exchange j o.objects in
    omega (arith, w x, exchange-count x j o.objects, count_owners-append x y.1 (y.0 ∷ []))
Step-IsOwnedOnce {o} (assigns i j h) w = assign-IsOwnedOnce i j o h w

-- However tasks, or aligned buffers, are created, moved, assigned, an object to itself too, and destroyed:
-- every frame or block has exactly one owner and was not destroyed, or has none and was destroyed once.
pub Reach-IsOwnedOnce : {o : Owners} → Reach start o → IsOwnedOnce o
Reach-IsOwnedOnce here = λ x. ground arith
Reach-IsOwnedOnce (next r s) = Step-IsOwnedOnce s (Reach-IsOwnedOnce r)
