-- ===== src/Mutex/Fifo.antt =====
-- mutex.hpp: one holder at a time, in the order of the calls of `lock`.
use easybd.Base.{
  ℕ, ◌≡◌, refl, sym, ap, ◌∙◌, List, [], ◌∷◌, ◌++◌, arith, Bool, true, false, Option, none, some,
  append_assoc, append-nil,
}
use easybd.Mutex.{Mutex, new, await_ready, await_suspend, lock, unlock}

abbrev pub as_list : Option ℕ → List ℕ
as_list none = []
as_list (some h) = h ∷ []

-- A mutex in use: who holds it, and all that asked for it and that got it, in order.
pub record Use : Type 0 where
  pub mutex : Mutex
  pub holder : Option ℕ
  pub asked : List ℕ
  pub got : List ℕ

abbrev pub start : Use
start = record { mutex = new; holder = none; asked = []; got = [] }

-- Who holds the lock after `lock` returned `entered`.
abbrev holder_or : Option ℕ → Option ℕ → Option ℕ
holder_or (some h) old = some h
holder_or none old = old

abbrev pub after_lock : ℕ → Use → Use
after_lock h u = record {
  mutex = (lock h u.mutex).1;
  holder = holder_or (lock h u.mutex).0 u.holder;
  asked = u.asked ++ h ∷ [];
  got = u.got ++ as_list (lock h u.mutex).0;
}

abbrev pub after_unlock : Use → Use
after_unlock u = record {
  mutex = (unlock u.mutex).1;
  holder = (unlock u.mutex).0;
  asked = u.asked;
  got = u.got ++ as_list (unlock u.mutex).0;
}

-- Any coroutine may lock; only the holder unlocks.
pub data Step (u : Use) : Use → Type 0 where
  locks : (h : ℕ) → Step u (after_lock h u)
  unlocks : (h : ℕ) → u.holder ≡ some h → Step u (after_unlock u)

pub data Reach (u : Use) : Use → Type 0 where
  here : Reach u u
  next : {v w : Use} → Reach u v → Step v w → Reach u w

abbrev held : Option ℕ → Bool
held none = false
held (some h) = true

-- Who asked and waits has the lock later, in the order of asking; nobody waits for a free lock.
pub record IsFair (u : Use) : Type 0 where
  pub in_order : u.got ++ u.mutex.waiters ≡ u.asked
  pub locked : u.mutex.locked ≡ held u.holder
  pub free : u.holder ≡ none → u.mutex.waiters ≡ []

not_held : (o : Option ℕ) → held o ≡ false → o ≡ none
not_held none e = refl
not_held (some h) e = ground arith

held_not_none : (o : Option ℕ) → o ≡ none → held o ≡ true → ⊥
held_not_none none n e = ground arith
held_not_none (some h) n e = ground arith

lock-IsFair_of :
    (b : Bool) (h : ℕ) (u : Use) → u.mutex.locked ≡ b → IsFair u → IsFair (after_lock h u)
unfolding lock await_ready await_suspend
lock-IsFair_of false h u e f =
    let idle : u.holder ≡ none = not_held u.holder (sym f.locked ∙ e) in
    rw (e, f.free idle)
      (record {
        in_order = append-nil _ ∙ ap (λ t. t ++ h ∷ []) (got_all idle);
        locked = refl;
        free = λ n. refl;
      })
  where
    got_all : u.holder ≡ none → u.got ≡ u.asked
    got_all idle = sym (append-nil u.got) ∙ ap (λ w. u.got ++ w) (sym (f.free idle)) ∙ f.in_order
lock-IsFair_of true h u e f = rw e (record {
  in_order =
      ap (λ g. g ++ (u.mutex.waiters ++ h ∷ [])) (append-nil u.got)
      ∙ sym (append_assoc u.got u.mutex.waiters (h ∷ []))
      ∙ ap (λ t. t ++ h ∷ []) f.in_order;
  locked = sym e ∙ f.locked;
  free = λ n. absurd (held_not_none u.holder n (sym f.locked ∙ e));
})

unlock-IsFair_of :
    (hs : List ℕ) (h : ℕ) (u : Use)
    → u.mutex.waiters ≡ hs
    → u.holder ≡ some h
    → IsFair u
    → IsFair (after_unlock u)
unfolding unlock
unlock-IsFair_of [] h u e k f = rw e (record {
  in_order = append-nil _ ∙ ap (λ w. u.got ++ w) (sym e) ∙ f.in_order;
  locked = refl;
  free = λ n. refl;
})
unlock-IsFair_of (x ∷ hs) h u e k f = rw e (record {
  in_order = append_assoc u.got (x ∷ []) hs ∙ ap (λ w. u.got ++ w) (sym e) ∙ f.in_order;
  locked = f.locked ∙ ap held k;
  free = λ n. ground arith;
})

Step-IsFair : {u v : Use} → Step u v → IsFair u → IsFair v
Step-IsFair {u} (locks h) f = lock-IsFair_of u.mutex.locked h u refl f
Step-IsFair {u} (unlocks h k) f = unlock-IsFair_of u.mutex.waiters h u refl k f

-- From a mutex in use as it should be, after any calls of `lock`, and of `unlock` by the coroutine that
-- holds the lock: the coroutines that got the lock, followed by those that wait, are those that asked
-- for it, in the same order; the mutex is locked if and only if one holds it; and none waits while it
-- is free.
pub Reach-IsFair : {u v : Use} → IsFair u → Reach u v → IsFair v
Reach-IsFair f here = f
Reach-IsFair f (next r st) = Step-IsFair st (Reach-IsFair f r)
