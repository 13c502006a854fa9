-- ===== src/UringQueue/Fixed.antt =====
-- uring_queue.cpp: which file an operation with a registered descriptor acts on.
use easybd.Base.{
  ℕ, ◌≡◌, refl, sym, ap, ◌∙◌, List, [], ◌∷◌, ◌++◌, Bool, true, false, Option, none, some, arith,
  Bool-cases, inl, inr,
}
use easybd.Base.Int.{ℤ, same, same→eq}
use easybd.UringQueue.{
  Queue, Sqe, Cqe, Timespec, Opcode, read, write, entry, Slots, slot, get_sqe, start, prepare,
  use_fixed_file, minus_one, pread, pwrite, pwrite_dsync, step, dispatch, dispatch_each, resume,
  after_wait, file_target,
}
use easybd.UringQueue.World.{
  World, call, Step, Reach, here, next, after_call, register, resolve, bind, calls, completes,
  steps, rebinds, fresh, FileOp, preads, pwrites, pwrites_dsync, file_op, calls_file,
}

-- The ring's file 0 is what the registered descriptor stands for.
abbrev pub IsCurrent : World → Type 0
IsCurrent w = same w.queue.registered_fd minus_one ≡ false → w.slot ≡ w.files w.queue.registered_fd

register-IsCurrent : (w : World) (q : Queue) → IsCurrent w → IsCurrent (register w q)
register-IsCurrent w q c = elim (Bool-cases (same q.registered_fd w.queue.registered_fd)) [
  | inl e ↦
      λ h. let k = same→eq q.registered_fd w.queue.registered_fd e in rw (e, k) (c (rw k at h))
  | inr e ↦ rw e (λ h. refl)
]

dispatch_each-registered :
    (cs : List Cqe) (q : Queue) → (dispatch_each cs q).registered_fd ≡ q.registered_fd
unfolding dispatch_each resume
dispatch_each-registered [] q = refl
dispatch_each-registered (c ∷ cs) q = dispatch_each-registered cs (resume c q) ∙ go c.user_data refl
  where
    go : (o : Option ℕ) → c.user_data ≡ o → (resume c q).registered_fd ≡ q.registered_fd
    go none e = rw e refl
    go (some id) e = rw e refl

dispatch-registered : (q : Queue) → (dispatch q).registered_fd ≡ q.registered_fd
unfolding dispatch
dispatch-registered q = dispatch_each-registered q.cq (record q { cq = [] })

step-registered :
    (wait : Option Timespec → ℤ) (t : ℤ) (q : Queue)
    → (step wait t q).1.registered_fd ≡ q.registered_fd
unfolding step after_wait
step-registered wait t q = ground (arith, dispatch-registered q)

bind-other :
    (fd x : ℤ) (f : Option ℕ) (files : ℤ → Option ℕ)
    → same x fd ≡ false
    → bind fd f files x ≡ files x
bind-other fd x f files e = ground arith

Step-IsCurrent : {v w : World} → Step v w → IsCurrent v → IsCurrent w
Step-IsCurrent {v} (calls a ret x) c = register-IsCurrent v (call a ret x v.queue).1 c
Step-IsCurrent {v} (completes b s res a e) c = c
Step-IsCurrent {v} (steps wait t) c =
    λ h. let k = step-registered wait t v.queue in rw k (c (rw k at h))
Step-IsCurrent {v} (rebinds fd f e) c =
    λ h. c h ∙ sym (bind-other fd v.queue.registered_fd f v.files e)

Reach-IsCurrent : {v w : World} → Reach v w → IsCurrent v → IsCurrent w
Reach-IsCurrent here c = c
Reach-IsCurrent (next r s) c = Step-IsCurrent s (Reach-IsCurrent r c)

-- An operation uses the registered file only for its own descriptor.
use_fixed_file-own :
    (ret fd : ℤ) (q : Queue)
    → (use_fixed_file ret fd q).0 ≡ true
    → (use_fixed_file ret fd q).1.registered_fd ≡ fd
unfolding use_fixed_file
use_fixed_file-own ret fd q h = elim (Bool-cases (same q.registered_fd fd)) [
  | inl e ↦ rw e (same→eq q.registered_fd fd e)
  | inr e ↦ ground arith
]

-- The entry acts on what the descriptor stands for.
target_lem :
    (ret fd : ℤ) (w : World)
    → IsCurrent w
    → same fd minus_one ≡ false
    → resolve
        (register w (use_fixed_file ret fd w.queue).1)
        (file_target (use_fixed_file ret fd w.queue).0 fd)
      ≡ w.files fd
target_lem ret fd w c h = elim (Bool-cases (use_fixed_file ret fd w.queue).0) [
  | inr e ↦ rw e refl
  | inl e ↦
      let k = use_fixed_file-own ret fd w.queue e in
      let c' = register-IsCurrent w (use_fixed_file ret fd w.queue).1 c in
      rw e (c' (rw k h) ∙ ap w.files k)
]

use_fixed_file-flight : (ret fd : ℤ) (q : Queue) → (use_fixed_file ret fd q).1.flight ≡ q.flight
unfolding use_fixed_file
use_fixed_file-flight ret fd q = ground arith

-- An entry was added that acts on this file.
abbrev pub AddsOn : Option ℕ → World → World → Type 0
AddsOn f w w' = (s : Sqe) × (w'.queue.flight ≡ w.queue.flight ++ s ∷ []) × (resolve w' s.target ≡ f)

start-AddsOn :
    (a : Slots) (ret fd : ℤ) (op : Opcode) (size offset : ℕ) (dsync : Bool) (w : World)
    → IsCurrent w
    → same fd minus_one ≡ false
    → get_sqe a ≡ slot
    → let (b, q) = use_fixed_file ret fd w.queue in
      AddsOn
        (w.files fd)
        w
        (register w (start a (entry op (file_target b fd) size offset dsync) q).1)
unfolding start prepare
start-AddsOn a ret fd op size offset dsync w c h g =
    let u = use_fixed_file ret fd w.queue in
    let e : Sqe = entry op (file_target u.0 fd) size offset dsync in
    rw g (
      record e { user_data = some u.1.next_id },
      ap (λ l. l ++ record e { user_data = some u.1.next_id } ∷ [])
          (use_fixed_file-flight ret fd w.queue),
      target_lem ret fd w c h,
    )

-- From a new queue, whatever was called, completed, dispatched, opened and closed since, the registered
-- descriptor excepted: when a read or a write of a file, for a descriptor that is not -1, gets an entry,
-- it adds one, and the entry acts on the file that the descriptor stands for, fixed or not.
pub Reach-target :
    {files : ℤ → Option ℕ} {w : World} (a : Slots) (ret fd : ℤ) (op : FileOp) (size offset : ℕ)
    → Reach (fresh files) w
    → same fd minus_one ≡ false
    → get_sqe a ≡ slot
    → AddsOn (w.files fd) w (after_call a ret (calls_file op fd size offset) w)
unfolding call file_op pread pwrite pwrite_dsync
Reach-target {files} {w} a ret fd op size offset r h g = go op
  where
    c : IsCurrent w
    c = Reach-IsCurrent r (λ e. ground arith)

    go : (op : FileOp) → AddsOn (w.files fd) w (after_call a ret (calls_file op fd size offset) w)
    go preads = start-AddsOn a ret fd read size offset false w c h g
    go pwrites = start-AddsOn a ret fd write size offset false w c h g
    go pwrites_dsync = start-AddsOn a ret fd write size offset true w c h g
