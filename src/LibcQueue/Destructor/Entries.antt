-- ===== src/LibcQueue/Destructor/Entries.antt =====
-- The entries of `_fds` while `~Queue` goes through them.
use easybd.Base.{
  ℕ, ◌≡◌, refl, sym, inl, inr, List, [], ◌∷◌, true, false, All, none, some, ◌==◌, if◌then◌else◌,
  is_empty, arith, Bool-cases, ==_iff, ==_refl,
}
use easybd.LibcQueue.{FdState, Table, find, put, erase, erase_empty, clear_read_op}
use easybd.LibcQueue.Acts.{find-put_same}
use easybd.LibcQueue.Destructor.{is_key, keys_of, has_only}

-- No descriptor has two entries.
abbrev pub IsTable : Table → Type 0
IsTable [] = Unit {0}
IsTable ((k, st) ∷ t) = All (λ (e : ℕ × FdState). (k == e.0) ≡ false) t × IsTable t

has_only-erase :
    (keys : List ℕ) (fd : ℕ) (t : Table)
    → has_only keys t ≡ true
    → has_only keys (erase fd t) ≡ true
unfolding has_only erase
has_only-erase keys fd [] h = refl
has_only-erase keys fd ((k, st) ∷ t) h = ground (arith, has_only-erase keys fd t)

pub has_only-find :
    (keys : List ℕ) (fd : ℕ) (t : Table) (st : FdState)
    → has_only keys t ≡ true
    → find fd t ≡ some st
    → is_key fd keys ≡ true
unfolding has_only find
has_only-find keys fd [] st h e = ground arith
has_only-find keys fd ((k, s) ∷ t) st h e = elim (Bool-cases (k == fd)) [
  | inl b ↦ let same : fd ≡ k = sym ((==_iff k fd).0 b) in rw same (ground arith)
  | inr b ↦ ground (arith, has_only-find keys fd t st)
]

pub has_only-put :
    (keys : List ℕ) (fd : ℕ) (st : FdState) (t : Table)
    → is_key fd keys ≡ true
    → has_only keys t ≡ true
    → has_only keys (put fd st t) ≡ true
unfolding has_only put
has_only-put keys fd st t k h = rw (k, has_only-erase keys fd t h) refl

-- An entry whose read operation is cleared, with the other ones as they were.
pub clear_read_op-find :
    (fd op : ℕ) (t : Table) (st : FdState)
    → find fd t ≡ some st
    → st.read_op ≡ some op
    → clear_read_op fd op t ≡ (
        if is_empty st.write_queue
        then erase fd (put fd (record st { read_op = none }) t)
        else put fd (record st { read_op = none }) t)
unfolding clear_read_op erase_empty
clear_read_op-find fd op t st e r =
    rw
      (
        clear_read_op,
        e,
        r,
        ==_refl op,
        erase_empty,
        find-put_same fd (record st { read_op = none }) t,
      )
      refl

pub All-both :
    {P Q R : ℕ × FdState → Type 0} (t : Table)
    → All P t
    → All Q t
    → ((x : ℕ × FdState) → P x → Q x → R x)
    → All R t
All-both [] p q f = tt
All-both (x ∷ t) (p, ps) (q, qs) f = (f x p q, All-both t ps qs f)

pub find_each : (t : Table) → IsTable t → All (λ (e : ℕ × FdState). find e.0 t ≡ some e.1) t
unfolding find
find_each [] d = tt
find_each ((k, st) ∷ t) (d, ds) =
    (rw (==_refl k) refl, All-both t d (find_each t ds) (λ x a b. rw (find, a) b))

has_only-cons :
    (k : ℕ) (keys : List ℕ) (t : Table) → has_only keys t ≡ true → has_only (k ∷ keys) t ≡ true
unfolding has_only
has_only-cons k keys [] h = refl
has_only-cons k keys ((j, st) ∷ t) h = ground (arith, has_only-cons k keys t)

pub has_only-keys_of : (t : Table) → has_only (keys_of t) t ≡ true
unfolding has_only
has_only-keys_of [] = refl
has_only-keys_of ((k, st) ∷ t) = rw (==_refl k) (has_only-cons k (keys_of t) t (has_only-keys_of t))
