-- ===== src/LibcQueue/Rearm.antt =====
-- libc_queue.cpp: what is registered for a descriptor, while coroutines that are resumed change it.
use native.Mathlib.Nat.{mod-eq_of_lt}
use easybd.LibcStream.Window.{mod-ne}
use easybd.Base.{
  All, ℕ, ◌+◌, ◌%◌, ◌^◌, ◌<◌, ◌≡◌, ◌≢◌, refl, sym, ap, ◌∙◌, inl, inr, List, [], ◌∷◌, ◌++◌, Bool,
  true, false, Option, none, some, ◌==◌, if◌then◌else◌, arith, Bool-cases, ==_iff, ==_refl,
}
use easybd.LibcQueue.Acts.{
  Act, sets, pushes, clears, cancels, run_acts, Spares, last_set, count_sets, pushed, after,
  gen_same, run_acts-find, find-put_same,
}
use easybd.LibcQueue.{FdState, Table, find, drop_read_op, dispatch_read}

zero_add : (n : ℕ) → n ≡ 0 + n
zero_add n = omega arith

last_set-old :
    (later : List Act) (fd : ℕ) (old : Option ℕ)
    → last_set fd later old ≡ (if count_sets fd later == 0 then old else last_set fd later none)
last_set-old [] fd old = refl
last_set-old (sets k op ∷ later) fd old = elim (Bool-cases (k == fd)) [
  | inl e ↦ rw e (ground (arith, count_sets fd later))
  | inr e ↦ rw e (
      last_set-old later fd old
      ∙ ap (λ n. if n == 0 then old else last_set fd later none) (zero_add (count_sets fd later)))
]
last_set-old (pushes k op ∷ later) fd old = last_set-old later fd old
last_set-old (clears k op ∷ later) fd old = last_set-old later fd old
last_set-old (cancels k ∷ later) fd old = last_set-old later fd old

not_equal : (m n : ℕ) → m ≢ n → (m == n) ≡ false
not_equal m n h = ground arith

drop-find :
    (fd gen : ℕ) (t : Table) (st : FdState)
    → find fd t ≡ some st
    → find fd (drop_read_op fd gen t)
      ≡ some (if st.read_op_gen == gen then record st { read_op = none } else st)
unfolding drop_read_op
drop-find fd gen t st e = elim (Bool-cases (st.read_op_gen == gen)) [
  | inl b ↦ rw (e, drop_read_op, b) (find-put_same fd _ t)
  | inr b ↦ rw (e, drop_read_op, b) e
]

other_gen : (n g : ℕ) → g < 2 ^ 64 → n < 2 ^ 64 → (n == 0) ≡ false → ((g + n) % 2 ^ 64 == g) ≡ false
other_gen n g h k z =
    let ne : g % 2 ^ 64 ≢ (g + n) % 2 ^ 64 =
      mod-ne g (g + n) (2 ^ 64) (ground (arith, z)) (omega (arith, k)) in
    not_equal ((g + n) % 2 ^ 64) g (λ e. ne (mod-eq_of_lt {n = g} {m = 2 ^ 64} h ∙ sym e))

-- What the generation tells after some actions: nothing was registered, or something was.
drop-after :
    (later : List Act) (fd op : ℕ) (st : FdState)
    → st.read_op ≡ some op
    → st.read_op_gen < 2 ^ 64
    → count_sets fd later < 2 ^ 64
    → (if (after fd later st).read_op_gen == st.read_op_gen
        then record (after fd later st) { read_op = none }
        else after fd later st)
      ≡ after fd later (record st { read_op = none })
drop-after later fd op st h g c = elim (Bool-cases (count_sets fd later == 0)) [
  | inl z ↦
      let same : (st.read_op_gen + count_sets fd later) % 2 ^ 64 ≡ st.read_op_gen =
        ap (λ n. (st.read_op_gen + n) % 2 ^ 64) ((==_iff _ 0).0 z)
        ∙ sym (gen_same st.read_op_gen g) in
      rw (ap (λ n. n == st.read_op_gen) same, ==_refl st.read_op_gen)
        (ap
          (λ o. record {
            read_op = o;
            read_op_gen = (st.read_op_gen + count_sets fd later) % 2 ^ 64;
            write_queue = st.write_queue ++ pushed fd later;
          })
          (sym (last_set-old later fd none ∙ rw z refl)))
  | inr z ↦ rw (other_gen (count_sets fd later) st.read_op_gen g c z) (
      ap
        (λ o. record {
          read_op = o;
          read_op_gen = (st.read_op_gen + count_sets fd later) % 2 ^ 64;
          write_queue = st.write_queue ++ pushed fd later;
        })
        (last_set-old later fd st.read_op ∙ rw z refl))
]

-- When the dispatch of POLLIN runs the operation `op` of `fd`, which finishes, and the coroutines that
-- it resumes register, queue, clear and cancel in any order, but take nothing from `fd` and register
-- fewer than 2 ^ 64 operations on it: then the operation registered for reading `fd` is the last one
-- that they registered, or none, and the writes that they queued on it are queued. So a finished
-- operation never stays, and one that was armed meanwhile is never lost.
pub dispatch_read-last :
    {World : Type 0} (on_ready : ℕ → Table × World → Bool × (Table × World)) (fd op : ℕ) (t : Table)
    (w w' : World) (st : FdState) (later : List Act)
    → find fd t ≡ some st
    → st.read_op ≡ some op
    → st.read_op_gen < 2 ^ 64
    → All (Spares fd) later
    → count_sets fd later < 2 ^ 64
    → on_ready op (t, w) ≡ (true, (run_acts later t, w'))
    → find fd (dispatch_read on_ready fd (t, w)).0
      ≡ some (after fd later (record st { read_op = none }))
unfolding dispatch_read
dispatch_read-last on_ready fd op t w w' st later e h g s c r =
    rw (e, dispatch_read, h, r)
      (drop-find fd st.read_op_gen (run_acts later t) (after fd later st)
          (run_acts-find later fd t st s e g)
        ∙ ap some (drop-after later fd op st h g c))
