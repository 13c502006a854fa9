-- ===== src/EndToEnd/Rearranged.antt =====
-- Requests in flight in another order.
use mathlib.Core.List.{Permᴰ}
use easybd.Base.{
  ℕ, suc, ◌≡◌, refl, sym, ap, subst, List, [], ◌∷◌, map, false, All, length, arith, ◌==◌,
}
use easybd.Client.{Pending, Client}
use easybd.EndToEnd.{Request}
use easybd.EndToEnd.Responses.{cid_of, AllAsked}

-- A rearrangement of images comes from one of the arguments.
perm-unmap_of {ℓ κ} :
    {A : Type ℓ} {B : Type κ} (f : A → B) {l m : List B} (xs : List A)
    → Permᴰ l m
    → m ≡ map f xs
    → (ys : List A) × Permᴰ ys xs × (map f ys ≡ l)
perm-unmap_of f [] Permᴰ.nil e = ([], Permᴰ.nil, refl)
perm-unmap_of f (x ∷ xs) Permᴰ.nil e = absurd (cc)
perm-unmap_of f [] (Permᴰ.cons q p) e = absurd (cc)
perm-unmap_of f (x ∷ xs) (Permᴰ.cons q p) e =
    let (ys, r, h) = perm-unmap_of f xs p (cc) in (x ∷ ys, Permᴰ.cons refl r, cc)
perm-unmap_of f [] (Permᴰ.swap q r) e = absurd (cc)
perm-unmap_of f (x ∷ []) (Permᴰ.swap q r) e = absurd (cc)
perm-unmap_of f (x ∷ y ∷ xs) (Permᴰ.swap q r) e = (y ∷ x ∷ xs, Permᴰ.swap refl refl, cc)
perm-unmap_of f xs (Permᴰ.trans p q) e =
    let (ys, r, h) = perm-unmap_of f xs q e in
    let (zs, t, k) = perm-unmap_of f ys p (sym h) in (zs, Permᴰ.trans t r, k)

pub perm-unmap {ℓ κ} :
    {A : Type ℓ} {B : Type κ} (f : A → B) (l : List B) (xs : List A)
    → Permᴰ l (map f xs)
    → (ys : List A) × Permᴰ ys xs × (map f ys ≡ l)
perm-unmap f l xs p = perm-unmap_of f xs p refl

pub length-perm {ℓ} : {A : Type ℓ} {l m : List A} → Permᴰ l m → length l ≡ length m
length-perm Permᴰ.nil = refl
length-perm (Permᴰ.cons q p) = ap suc (length-perm p)
length-perm (Permᴰ.swap q r) = refl
length-perm (Permᴰ.trans p q) = omega (arith, length-perm p, length-perm q)

All-perm {ℓ κ} : {A : Type ℓ} (P : A → Type κ) {l m : List A} → Permᴰ l m → All P m → All P l
All-perm P Permᴰ.nil h = h
All-perm P (Permᴰ.cons q p) (x, h) = (subst P (sym q) x, All-perm P p h)
All-perm P (Permᴰ.swap q r) (x, (y, h)) = (subst P (sym q) y, (subst P (sym r) x, h))
All-perm P (Permᴰ.trans p q) h = All-perm P p (All-perm P q h)

==-false_comm : (a b : ℕ) → (a == b) ≡ false → (b == a) ≡ false
==-false_comm a b h = ground arith

-- Which requests are in flight does not depend on their order.
pub AllAsked-perm :
    (c : Client) {l m : List (Pending × Request)} → Permᴰ l m → AllAsked c m → AllAsked c l
AllAsked-perm c Permᴰ.nil h = h
AllAsked-perm c (Permᴰ.cons {a} {b} {l₁} q p) (x, n, h) =
    subst (λ y. AllAsked c (y ∷ l₁)) (sym q) (x, All-perm _ p n, AllAsked-perm c p h)
AllAsked-perm c (Permᴰ.swap {a} {b} {a'} {b'} {l} q r) (x, (ne, nx), (y, ny, h)) =
    subst (λ u. AllAsked c (u ∷ b ∷ l)) (sym q)
      (subst (λ u. AllAsked c (b' ∷ u ∷ l)) (sym r)
        (y, (==-false_comm (cid_of a'.1) (cid_of b'.1) ne, ny), (x, nx, h)))
AllAsked-perm c (Permᴰ.trans p q) h = AllAsked-perm c p (AllAsked-perm c q h)
