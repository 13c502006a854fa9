-- ===== src/UringStream/Awaits.antt =====
-- uring_recv_stream.cpp, multishot: waiting ends with something at hand, and loses nothing.
use easybd.Base.{
  ℕ, zero, suc, ◌<◌, ◌≡◌, refl, sym, ap, ◌∙◌, Bool-cases, inl, inr, List, [], ◌∷◌, Bool, true,
  false, length, arith, is_empty,
}
use easybd.UringStream.{
  Stream, Pending, is_ready, ready, arm, Event, received, ran_dry, shut_down, fails,
}
use easybd.UringStream.Ownership.{count, count_pending, readies, Step-IsOwned}
use easybd.UringStream.Progress.{Step-Runs, ready-live}
use easybd.UringStream.Effects.{
  Wakes, deliver-Wakes, deliver-checked_out, ready-SameData, ready-running, ready-is_ready,
}
use easybd.UringStream.Batch.{
  Use, kernel_turn, kernel_step, arrive, wait, await, serve, first_early,
}
use easybd.UringStream.Keeps.{
  IsKept, Keeps, Keeps-refl, Keeps-trans, Keeps-of_SameData, Ends, live_open,
}
use easybd.UringStream.Turns.{kernel_step-Keeps}

-- The reader waits, holds no buffer and nothing is at hand.
pub record IsIdle (s : Stream) : Type 0 where
  pub none_out : s.checked_out ≡ []
  pub unready : is_ready s ≡ false
  pub waits : s.waiter ≡ true

idle_live : (s : Stream) (es : List Event) → IsKept s es → IsIdle s → s.live ≡ true
idle_live s es k i =
    let blocked : s.needs_resubmit ≡ true → is_empty s.checked_out ≡ false = k.runs.blocked in
    ground (arith, k.runs.running, i.unready, blocked, ap is_empty i.none_out)

-- So the kernel has every buffer.
none_pending : (s : Stream) → is_ready s ≡ false → s.pending ≡ []
none_pending s h = go s.pending refl
  where
    go : (ps : List Pending) → s.pending ≡ ps → s.pending ≡ []
    go [] e = e
    go (p ∷ ps) e = absurd (ground (arith, h, ap is_empty e))

ring_left : (s : Stream) (es : List Event) → IsKept s es → IsIdle s → is_empty s.ring ≡ false
ring_left s es k i = go s.ring refl
  where
    go : (xs : List ℕ) → s.ring ≡ xs → is_empty s.ring ≡ false
    go (x ∷ xs) e = ap is_empty e
    go [] e = absurd (
        ground (
          arith,
          k.owned 0,
          k.some_buffer,
          ap (count 0) e,
          ap (count 0) i.none_out,
          ap (count_pending 0) (none_pending s i.unready),
        ))

kernel_turn-shrinks :
    (e : Event) (es : List Event) (s : Stream)
    → is_empty s.ring ≡ false
    → (kernel_turn e es s).1 ≡ es
unfolding kernel_turn
kernel_turn-shrinks (received bs more) es s h = rw h refl
kernel_turn-shrinks ran_dry es s h = refl
kernel_turn-shrinks shut_down es s h = refl
kernel_turn-shrinks (fails e) es s h = refl

kernel_turn-checked_out :
    (e : Event) (es : List Event) (s : Stream) → (kernel_turn e es s).0.checked_out ≡ s.checked_out
unfolding kernel_turn
kernel_turn-checked_out (received bs more) es s = elim (Bool-cases (is_empty s.ring)) [
  | inl h ↦ rw h (deliver-checked_out ran_dry s)
  | inr h ↦ rw h (deliver-checked_out (received bs more) s)
]
kernel_turn-checked_out ran_dry es s = deliver-checked_out ran_dry s
kernel_turn-checked_out shut_down es s = deliver-checked_out shut_down s
kernel_turn-checked_out (fails e) es s = deliver-checked_out (fails e) s

kernel_step-checked_out :
    (b : Bool) (es : List Event) (s : Stream) → (kernel_step b es s).0.checked_out ≡ s.checked_out
unfolding kernel_step
kernel_step-checked_out false es s = refl
kernel_step-checked_out true [] s = refl
kernel_step-checked_out true (e ∷ es) s = kernel_turn-checked_out e es s

kernel_turn-Wakes :
    (e : Event) (es : List Event) (s : Stream)
    → Wakes s (kernel_turn e es s).0 (kernel_turn e es s).2
unfolding kernel_turn
kernel_turn-Wakes (received bs more) es s = elim (Bool-cases (is_empty s.ring)) [
  | inl h ↦ rw h (deliver-Wakes ran_dry s)
  | inr h ↦ rw h (deliver-Wakes (received bs more) s)
]
kernel_turn-Wakes ran_dry es s = deliver-Wakes ran_dry s
kernel_turn-Wakes shut_down es s = deliver-Wakes shut_down s
kernel_turn-Wakes (fails e) es s = deliver-Wakes (fails e) s

kernel_step-Wakes :
    (b : Bool) (es : List Event) (s : Stream)
    → is_ready s ≡ false
    → Wakes s (kernel_step b es s).0 (kernel_step b es s).2
unfolding kernel_step
kernel_step-Wakes false es s h = record { resumed = λ w. sym h; waits = λ w. refl }
kernel_step-Wakes true [] s h = record { resumed = λ w. sym h; waits = λ w. refl }
kernel_step-Wakes true (e ∷ es) s h = kernel_turn-Wakes e es s

-- While the reader waits, each step of the kernel uses up an event.
kernel_step-shrinks :
    (b : Bool) (es : List Event) (s : Stream)
    → b ≡ true
    → Ends es
    → is_empty s.ring ≡ false
    → length (kernel_step b es s).1 < length es
unfolding kernel_step
kernel_step-shrinks false es s l n h = absurd (ground arith)
kernel_step-shrinks true [] s l n h = elim n [ ]
kernel_step-shrinks true (e ∷ es) s l n h = omega (arith, ap length (kernel_turn-shrinks e es s h))

-- On enough fuel, more than there are events, the reader is resumed, with something at hand.
wait_lem :
    (f : ℕ) (es : List Event) (s : Stream)
    → length es < f
    → IsKept s es
    → IsIdle s
    → Keeps s es (wait f (s, es)).0 (wait f (s, es)).1
      × (is_ready (wait f (s, es)).0 ≡ true)
      × ((wait f (s, es)).2 ≡ true)
unfolding wait
wait_lem zero es s h k i = absurd (omega (arith, h))
wait_lem (suc f) es s h k i =
    let a = kernel_step-Keeps s.live es s refl k in
    let x = kernel_step s.live es s in
    let l = idle_live s es k i in
    let n = kernel_step-shrinks s.live es s l (k.ends (live_open s es k l)) (ring_left s es k i) in
    let woken = kernel_step-Wakes s.live es s i.unready in
    elim (Bool-cases x.2) [
      | inl e ↦ rw e (a, sym (woken.resumed i.waits) ∙ e, refl)
      | inr e ↦
          let r = wait_lem f x.1 x.0 (omega (arith, n, h)) a.kept (record {
            none_out = kernel_step-checked_out s.live es s ∙ i.none_out;
            unready = sym (woken.resumed i.waits) ∙ e;
            waits = woken.waits e ∙ i.waits;
          }) in
          rw e (Keeps-trans a r.0, r.1, r.2)
    ]

arm-IsKept : (s : Stream) (es : List Event) → IsKept s es → IsKept (arm s) es
unfolding arm
arm-IsKept s es k = record {
  owned = k.owned;
  runs = record { running = k.runs.running; not_both = k.runs.not_both; blocked = k.runs.blocked };
  some_buffer = k.some_buffer;
  full = k.full;
  running_open = k.running_open;
  ends = k.ends;
}

pub arrive-Keeps :
    (n : ℕ) (es : List Event) (s : Stream)
    → IsKept s es
    → Keeps s es (arrive n (s, es)).0 (arrive n (s, es)).1
unfolding arrive
arrive-Keeps zero es s k = Keeps-refl s es k
arrive-Keeps (suc n) es s k =
    let a = kernel_step-Keeps s.live es s refl k in
    Keeps-trans a (arrive-Keeps n (kernel_step s.live es s).1 (kernel_step s.live es s).0 a.kept)

ready-Keeps : (es : List Event) (s : Stream) → IsKept s es → Keeps s es (ready s).0 es
ready-Keeps es s k =
    Keeps-of_SameData s (ready s).0 es es (ready-SameData s) (Step-IsOwned {s = s} readies k.owned)
      (Step-Runs {s = s} readies k.runs) (λ h. k.running_open (ready-running s h)) k.ends refl refl
      k

await-Keeps :
    (x : Stream × Bool) (es : List Event)
    → is_ready x.0 ≡ x.1
    → (x.1 ≡ false → x.0.checked_out ≡ [])
    → IsKept x.0 es
    → Keeps x.0 es (await x es).0 (await x es).1
      × (is_ready (await x es).0 ≡ true)
      × ((await x es).2 ≡ true)
unfolding await arm
await-Keeps (s, true) es e o k = (Keeps-refl s es k, e, refl)
await-Keeps (s, false) es e o k =
    let w =
      wait_lem (suc (length es)) es (arm s) (omega arith) (arm-IsKept s es k)
        (record { none_out = o refl; unready = e; waits = refl }) in
    (record { kept = w.0.kept; same_rest = w.0.same_rest; same_ending = w.0.same_ending }, w.1, w.2)

-- Waited for or not, the reader goes on, with something at hand.
pub serve-Keeps :
    (u : Use)
    → IsKept u.stream u.events
    → Keeps u.stream u.events (serve u).0 (serve u).1
      × (is_ready (serve u).0 ≡ true)
      × ((serve u).2 ≡ true)
unfolding serve
serve-Keeps u k =
    let a = arrive-Keeps (first_early u.early) u.events u.stream k in
    let x = arrive (first_early u.early) (u.stream, u.events) in
    let r = ready-Keeps x.1 x.0 a.kept in
    let w =
      await-Keeps (ready x.0) x.1 (ready-is_ready x.0) (λ h. (ready-live x.0 a.kept.runs h).1)
        r.kept in
    (Keeps-trans a (Keeps-trans r w.0), w.1, w.2)
