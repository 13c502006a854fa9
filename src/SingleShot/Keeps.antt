-- ===== src/SingleShot/Keeps.antt =====
-- uring_recv_stream.cpp, single shot: what is still to come, through each operation.
use easybd.Base.{
  ℕ, suc, ◌<◌, ◌≡◌, refl, sym, ap, ◌∙◌, List, [], ◌∷◌, ◌++◌, true, false, length, arith,
  if◌then◌else◌, ◌==◌, subst,
}
use easybd.Stream.{Ending, eof, failed}
use easybd.SingleShot.{
  SingleShot, is_open, is_ready, submit_recv, ready, arm, Event, received, fails, deliver, resumes,
}
use easybd.SingleShot.Exclusive.{
  IsExclusive, waiting, event_bytes, deliver-IsExclusive, deliver-waiting, ready-IsExclusive,
}
use easybd.SingleShot.Batch.{Use}

-- The bytes that the kernel will still deliver, up to the end, and what the end is.
abbrev pub arriving : List Event → List ℕ
arriving [] = []
arriving (received [] ∷ es) = []
arriving (received (b ∷ bs) ∷ es) = (b ∷ bs) ++ arriving es
arriving (fails e ∷ es) = []

abbrev pub kernel_ending : List Event → Ending
kernel_ending [] = eof
kernel_ending (received [] ∷ es) = eof
kernel_ending (received (b ∷ bs) ∷ es) = kernel_ending es
kernel_ending (fails e ∷ es) = failed (suc e)

-- The connection ends some time.
abbrev pub Ends : List Event → Type 0
Ends [] = ⊥
Ends (received [] ∷ es) = Unit {0}
Ends (received (b ∷ bs) ∷ es) = Ends es
Ends (fails e ∷ es) = Unit {0}

abbrev pub rest_of : SingleShot → List Event → List ℕ
rest_of s es = waiting s ++ (if is_open s then arriving es else [])

abbrev pub ending_of : SingleShot → List Event → Ending
ending_of s es =
    if is_open s then kernel_ending es else if s.error == 0 then eof else failed s.error

abbrev pub rest : Use → List ℕ
rest u = rest_of u.stream u.events

abbrev pub ending : Use → Ending
ending u = ending_of u.stream u.events

-- A stream and its kernel between calls.
pub record IsKept (s : SingleShot) (es : List Event) : Type 0 where
  pub exclusive : IsExclusive s
  pub live_open : s.live ≡ true → is_open s ≡ true
  pub filled : s.has_chunk ≡ true → 0 < length (waiting s)
  pub ends : is_open s ≡ true → Ends es

pub record IsGood (u : Use) : Type 0 where
  pub kept : IsKept u.stream u.events

-- Nothing lost, and nothing repeated.
pub record Keeps (s : SingleShot) (es : List Event) (s' : SingleShot) (es' : List Event)
    : Type 0 where
  pub kept : IsKept s' es'
  pub same_rest : rest_of s' es' ≡ rest_of s es
  pub same_ending : ending_of s' es' ≡ ending_of s es

pub deliver-Keeps :
    (e : Event) (es : List Event) (s : SingleShot)
    → s.live ≡ true
    → IsKept s (e ∷ es)
    → Keeps s (e ∷ es) (deliver e s) es
unfolding deliver
deliver-Keeps e es s l k = record {
  kept = record {
    exclusive = deliver-IsExclusive e s l k.exclusive;
    live_open = live_open e;
    filled = λ h. subst (λ w. 0 < length w) (sym (deliver-waiting e s idle)) (positive e h);
    ends = ends e k.ends;
  };
  same_rest =
      ap (λ w. w ++ (if is_open (deliver e s) then arriving es else [])) (deliver-waiting e s idle)
      ∙ rests e;
  same_ending = endings e;
}
  where
    is_open_now : is_open s ≡ true
    is_open_now = k.live_open l

    idle : s.has_chunk ≡ false
    idle = ground (arith, k.exclusive.kernel l)

    live_open : (e : Event) → (deliver e s).live ≡ true → is_open (deliver e s) ≡ true
    live_open (received []) = ground arith
    live_open (received (b ∷ bs)) = ground arith
    live_open (fails e) = ground arith

    positive : (e : Event) → (deliver e s).has_chunk ≡ true → 0 < length (event_bytes e)
    positive (received []) h = ground arith
    positive (received (b ∷ bs)) h = omega arith
    positive (fails e) h = ground arith

    ends : (e : Event) → (is_open s ≡ true → Ends (e ∷ es)) → is_open (deliver e s) ≡ true → Ends es
    ends (received []) f h = ground arith
    ends (received (b ∷ bs)) f h = f is_open_now
    ends (fails e) f h = ground arith

    rests :
        (e : Event)
        → event_bytes e ++ (if is_open (deliver e s) then arriving es else []) ≡ rest_of s (e ∷ es)
    rests (received []) = ground arith
    rests (received (b ∷ bs)) = ground arith
    rests (fails e) = ground arith

    endings : (e : Event) → ending_of (deliver e s) es ≡ ending_of s (e ∷ es)
    endings (received []) = ground arith
    endings (received (b ∷ bs)) = ground arith
    endings (fails e) = ground arith

pub ready-Keeps : (es : List Event) (s : SingleShot) → IsKept s es → Keeps s es (ready s).0 es
unfolding ready submit_recv
ready-Keeps es s k = record {
  kept = record {
    exclusive = ready-IsExclusive s k.exclusive;
    live_open = ground (arith, k.live_open);
    filled = ground (arith, k.filled);
    ends = ground (arith, k.ends);
  };
  same_rest = ground arith;
  same_ending = ground arith;
}

pub deliver-is_ready : (e : Event) (s : SingleShot) → is_ready (deliver e s) ≡ true
unfolding deliver
deliver-is_ready (received []) s = ground arith
deliver-is_ready (received (b ∷ bs)) s = ground arith
deliver-is_ready (fails e) s = ground arith

-- Whatever the recv completes with, it resumes a reader that waits.
pub deliver-resumes : (e : Event) (s : SingleShot) → s.waiter ≡ true → resumes e s ≡ true
unfolding resumes
deliver-resumes (received []) s h = ground arith
deliver-resumes (received (b ∷ bs)) s h = ground arith
deliver-resumes (fails e) s h = ground arith

pub ready-is_ready : (s : SingleShot) → is_ready (ready s).0 ≡ (ready s).1
unfolding ready
ready-is_ready s = refl

pub ready-live : (s : SingleShot) → IsExclusive s → (ready s).1 ≡ false → (ready s).0.live ≡ true
unfolding ready submit_recv
ready-live s x e = ground arith

pub arm-IsKept : (s : SingleShot) (es : List Event) → IsKept s es → IsKept (arm s) es
unfolding arm
arm-IsKept s es k = record {
  exclusive = record {
    kernel = k.exclusive.kernel;
    reader = k.exclusive.reader;
    busy = k.exclusive.busy;
  };
  live_open = k.live_open;
  filled = k.filled;
  ends = k.ends;
}
