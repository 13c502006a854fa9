-- ===== src/LibcQueue/Acts.antt =====
-- libc_queue.cpp: what the operations of the table do to one descriptor's entry.
use native.Mathlib.Nat.{mod-eq_of_lt, mod-lt, mod-add-mod}
use easybd.Base.{
  All, ℕ, ◌+◌, ◌%◌, ◌^◌, ◌<◌, ◌≡◌, refl, sym, ap, ◌∙◌, subst, inl, inr, List, [], ◌∷◌, ◌++◌, false,
  Option, none, some, ◌==◌, if◌then◌else◌, arith, Bool-cases, Option-cases, ==_iff, append-nil,
  append_assoc,
}
use easybd.LibcQueue.{
  FdState, Table, find, erase, put, state_of, set_read_op, erase_empty, clear_read_op,
  push_write_op, cancel_fd, empty, is_op, or_new,
}

pub find-erase_same : (fd : ℕ) (t : Table) → find fd (erase fd t) ≡ none
unfolding find erase
find-erase_same fd [] = refl
find-erase_same fd ((k, st) ∷ t) = elim (Bool-cases (k == fd)) [
  | inl e ↦ rw e (find-erase_same fd t)
  | inr e ↦ rw (e, e) (find-erase_same fd t)
]

pub find-erase_other : (k fd : ℕ) (t : Table) → (k == fd) ≡ false → find fd (erase k t) ≡ find fd t
unfolding find erase
find-erase_other k fd [] h = refl
find-erase_other k fd ((j, st) ∷ t) h = elim (Bool-cases (j == k)) [
  | inl e ↦ rw (e, ap (λ i. i == fd) ((==_iff j k).0 e), h) (find-erase_other k fd t h)
  | inr e ↦ ground (arith, find-erase_other k fd t h)
]

pub find-put_same : (fd : ℕ) (st : FdState) (t : Table) → find fd (put fd st t) ≡ some st
unfolding find put
find-put_same fd st t = ground arith

pub find-put_other :
    (k fd : ℕ) (st : FdState) (t : Table) → (k == fd) ≡ false → find fd (put k st t) ≡ find fd t
unfolding find put
find-put_other k fd st t h = rw h (find-erase_other k fd t h)

-- What a resumed coroutine may do to the table.
pub data Act : Type 0 where
  sets pushes clears : ℕ → ℕ → Act
  cancels : ℕ → Act

abbrev pub act : Act → Table → Table
act (sets k op) t = set_read_op k op t
act (pushes k op) t = push_write_op k op t
act (clears k op) t = clear_read_op k op t
act (cancels k) t = (cancel_fd k t).1

abbrev pub run_acts : List Act → Table → Table
run_acts [] t = t
run_acts (a ∷ later) t = run_acts later (act a t)

-- An action that takes nothing from `fd`.
abbrev pub Spares : ℕ → Act → Type 0
Spares fd (sets k op) = Unit {0}
Spares fd (pushes k op) = Unit {0}
Spares fd (clears k op) = (k == fd) ≡ false
Spares fd (cancels k) = (k == fd) ≡ false

-- The operation that some actions register last for reading `fd`, or `old`; how often they register
-- one; and the writes that they queue.
abbrev pub last_set : ℕ → List Act → Option ℕ → Option ℕ
last_set fd [] old = old
last_set fd (sets k op ∷ later) old = last_set fd later (if k == fd then some op else old)
last_set fd (pushes k op ∷ later) old = last_set fd later old
last_set fd (clears k op ∷ later) old = last_set fd later old
last_set fd (cancels k ∷ later) old = last_set fd later old

abbrev pub count_sets : ℕ → List Act → ℕ
count_sets fd [] = 0
count_sets fd (sets k op ∷ later) = (if k == fd then 1 else 0) + count_sets fd later
count_sets fd (pushes k op ∷ later) = count_sets fd later
count_sets fd (clears k op ∷ later) = count_sets fd later
count_sets fd (cancels k ∷ later) = count_sets fd later

abbrev pub pushed : ℕ → List Act → List ℕ
pushed fd [] = []
pushed fd (sets k op ∷ later) = pushed fd later
pushed fd (pushes k op ∷ later) = (if k == fd then op ∷ [] else []) ++ pushed fd later
pushed fd (clears k op ∷ later) = pushed fd later
pushed fd (cancels k ∷ later) = pushed fd later

-- The entry of `fd` after some actions.
abbrev pub after : ℕ → List Act → FdState → FdState
after fd later st = record {
  read_op = last_set fd later st.read_op;
  read_op_gen = (st.read_op_gen + count_sets fd later) % 2 ^ 64;
  write_queue = st.write_queue ++ pushed fd later;
}

erase_empty-other :
    (k fd : ℕ) (t : Table) → (k == fd) ≡ false → find fd (erase_empty k t) ≡ find fd t
unfolding erase_empty
erase_empty-other k fd t h = elim (Option-cases (find k t)) [
  | inl e ↦ rw (e, erase_empty) refl
  | inr (st, e) ↦ elim (Bool-cases (empty st)) [
    | inl b ↦ rw (e, erase_empty, b) (find-erase_other k fd t h)
    | inr b ↦ rw (e, erase_empty, b) refl
  ]
]

clear-other :
    (k op fd : ℕ) (t : Table) → (k == fd) ≡ false → find fd (clear_read_op k op t) ≡ find fd t
unfolding clear_read_op
clear-other k op fd t h = elim (Option-cases (find k t)) [
  | inl e ↦ rw (e, clear_read_op) refl
  | inr (st, e) ↦ elim (Bool-cases (is_op op st.read_op)) [
    | inl b ↦
        rw (e, clear_read_op, b)
          (erase_empty-other k fd (put k (record st { read_op = none }) t) h
            ∙ find-put_other k fd _ t h)
    | inr b ↦ rw (e, clear_read_op, b) refl
  ]
]

cancel-other : (k fd : ℕ) (t : Table) → (k == fd) ≡ false → find fd (cancel_fd k t).1 ≡ find fd t
unfolding cancel_fd
cancel-other k fd t h = elim (Option-cases (find k t)) [
  | inl e ↦ rw (e, cancel_fd) refl
  | inr (st, e) ↦ rw (e, cancel_fd) (find-erase_other k fd t h)
]

state_of-find : (fd : ℕ) (t : Table) (st : FdState) → find fd t ≡ some st → state_of fd t ≡ st
unfolding state_of
state_of-find fd t st e = ap or_new e

pub gen_same : (n : ℕ) → n < 2 ^ 64 → n ≡ (n + 0) % 2 ^ 64
gen_same n g = sym (mod-eq_of_lt {n = n + 0} {m = 2 ^ 64} (omega arith) ∙ omega arith)

after_nothing :
    (st : FdState)
    → st.read_op_gen < 2 ^ 64
    → st ≡ record {
      read_op = st.read_op;
      read_op_gen = (st.read_op_gen + 0) % 2 ^ 64;
      write_queue = st.write_queue ++ [];
    }
after_nothing st g =
    λ i. record { read_op = st.read_op; read_op_gen = gen i; write_queue = queue i }
  where
    gen : st.read_op_gen ≡ (st.read_op_gen + 0) % 2 ^ 64
    gen = gen_same st.read_op_gen g

    queue : st.write_queue ≡ st.write_queue ++ []
    queue = sym (append-nil st.write_queue)

set-same :
    (k op fd : ℕ) (t : Table) (st : FdState)
    → k ≡ fd
    → find fd t ≡ some st
    → find fd (set_read_op k op t)
      ≡ some (record st { read_op = some op; read_op_gen = (st.read_op_gen + 1) % 2 ^ 64 })
unfolding set_read_op
set-same k op fd t st q e =
    subst
      (λ j.
        find fd (set_read_op j op t)
        ≡ some (record st { read_op = some op; read_op_gen = (st.read_op_gen + 1) % 2 ^ 64 }))
      (sym q)
      (find-put_same fd _ t
        ∙ ap
            (λ (s : FdState).
              some (record s { read_op = some op; read_op_gen = (s.read_op_gen + 1) % 2 ^ 64 }))
            (state_of-find fd t st e))

push-same :
    (k op fd : ℕ) (t : Table) (st : FdState)
    → k ≡ fd
    → find fd t ≡ some st
    → find fd (push_write_op k op t) ≡ some (record st { write_queue = st.write_queue ++ op ∷ [] })
unfolding push_write_op
push-same k op fd t st q e =
    subst
      (λ j.
        find fd (push_write_op j op t)
        ≡ some (record st { write_queue = st.write_queue ++ op ∷ [] }))
      (sym q)
      (find-put_same fd _ t
        ∙ ap (λ (s : FdState). some (record s { write_queue = s.write_queue ++ op ∷ [] }))
            (state_of-find fd t st e))

set-other : (k op fd : ℕ) (t : Table) → (k == fd) ≡ false → find fd (set_read_op k op t) ≡ find fd t
unfolding set_read_op
set-other k op fd t h = find-put_other k fd _ t h

push-other :
    (k op fd : ℕ) (t : Table) → (k == fd) ≡ false → find fd (push_write_op k op t) ≡ find fd t
unfolding push_write_op
push-other k op fd t h = find-put_other k fd _ t h

act-find :
    (a : Act) (fd : ℕ) (t : Table) (st : FdState)
    → Spares fd a
    → find fd t ≡ some st
    → st.read_op_gen < 2 ^ 64
    → find fd (act a t) ≡ some (after fd (a ∷ []) st)
act-find (sets k op) fd t st h e g = elim (Bool-cases (k == fd)) [
  | inl b ↦ rw b (
      set-same k op fd t st ((==_iff k fd).0 b) e
      ∙ ap
          (λ q. some (record {
            read_op = some op;
            read_op_gen = (st.read_op_gen + 1) % 2 ^ 64;
            write_queue = q;
          }))
          (sym (append-nil st.write_queue)))
  | inr b ↦ rw b (set-other k op fd t b ∙ e ∙ ap some (after_nothing st g))
]
act-find (pushes k op) fd t st h e g = elim (Bool-cases (k == fd)) [
  | inl b ↦ rw b (
      push-same k op fd t st ((==_iff k fd).0 b) e
      ∙ ap
          (λ n. some (record {
            read_op = st.read_op;
            read_op_gen = n;
            write_queue = st.write_queue ++ op ∷ [];
          }))
          (gen_same st.read_op_gen g))
  | inr b ↦ rw b (push-other k op fd t b ∙ e ∙ ap some (after_nothing st g))
]
act-find (clears k op) fd t st h e g = clear-other k op fd t h ∙ e ∙ ap some (after_nothing st g)
act-find (cancels k) fd t st h e g = cancel-other k fd t h ∙ e ∙ ap some (after_nothing st g)

last_set-cons :
    (a : Act) (fd : ℕ) (later : List Act) (o : Option ℕ)
    → last_set fd later (last_set fd (a ∷ []) o) ≡ last_set fd (a ∷ later) o
last_set-cons (sets k op) fd later o = refl
last_set-cons (pushes k op) fd later o = refl
last_set-cons (clears k op) fd later o = refl
last_set-cons (cancels k) fd later o = refl

count_sets-cons :
    (a : Act) (fd : ℕ) (later : List Act)
    → count_sets fd (a ∷ []) + count_sets fd later ≡ count_sets fd (a ∷ later)
count_sets-cons (sets k op) fd later = omega arith
count_sets-cons (pushes k op) fd later = omega arith
count_sets-cons (clears k op) fd later = omega arith
count_sets-cons (cancels k) fd later = omega arith

pushed-cons :
    (a : Act) (fd : ℕ) (later : List Act)
    → pushed fd (a ∷ []) ++ pushed fd later ≡ pushed fd (a ∷ later)
pushed-cons (sets k op) fd later = refl
pushed-cons (pushes k op) fd later = ap (λ l. l ++ pushed fd later) (append-nil _)
pushed-cons (clears k op) fd later = refl
pushed-cons (cancels k) fd later = refl

after-cons :
    (a : Act) (fd : ℕ) (later : List Act) (st : FdState)
    → after fd later (after fd (a ∷ []) st) ≡ after fd (a ∷ later) st
after-cons a fd later st =
    λ i. record { read_op = op i; read_op_gen = gen i; write_queue = queue i }
  where
    op : last_set fd later (last_set fd (a ∷ []) st.read_op) ≡ last_set fd (a ∷ later) st.read_op
    op = last_set-cons a fd later st.read_op

    gen :
        ((st.read_op_gen + count_sets fd (a ∷ [])) % 2 ^ 64 + count_sets fd later) % 2 ^ 64
        ≡ (st.read_op_gen + count_sets fd (a ∷ later)) % 2 ^ 64
    gen =
        mod-add-mod (st.read_op_gen + count_sets fd (a ∷ [])) (2 ^ 64) (count_sets fd later)
        ∙ ap (λ n. n % 2 ^ 64) (omega (arith, count_sets-cons a fd later))

    queue :
        (st.write_queue ++ pushed fd (a ∷ [])) ++ pushed fd later
        ≡ st.write_queue ++ pushed fd (a ∷ later)
    queue = append_assoc st.write_queue _ _ ∙ ap (λ l. st.write_queue ++ l) (pushed-cons a fd later)

-- What is registered for `fd` after any actions that spare it.
pub run_acts-find :
    (later : List Act) (fd : ℕ) (t : Table) (st : FdState)
    → All (Spares fd) later
    → find fd t ≡ some st
    → st.read_op_gen < 2 ^ 64
    → find fd (run_acts later t) ≡ some (after fd later st)
run_acts-find [] fd t st h e g = e ∙ ap some (after_nothing st g)
run_acts-find (a ∷ later) fd t st h e g =
    run_acts-find later fd (act a t) (after fd (a ∷ []) st) h.1 (act-find a fd t st h.0 e g)
      (mod-lt (st.read_op_gen + count_sets fd (a ∷ [])) {m = 2 ^ 64} (omega arith))
    ∙ ap some (after-cons a fd later st)
