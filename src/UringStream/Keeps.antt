-- ===== src/UringStream/Keeps.antt =====
-- uring_recv_stream.cpp, multishot: what is still to come, through the completions.
use easybd.Base.{
  ℕ, suc, ◌<◌, ◌≡◌, refl, sym, ap, ◌∙◌, List, [], ◌∷◌, ◌++◌, map, Bool, true, false, not, ◌&&◌,
  ◌||◌, All, length, flatten, if◌then◌else◌, ◌==◌,
}
use easybd.Stream.{Ending, eof, failed}
use easybd.UringStream.{
  Stream, Pending, is_open, Event, received, ran_dry, shut_down, fails, chunk_bytes, enobufs,
}
use easybd.UringStream.Ownership.{IsOwned}
use easybd.UringStream.Progress.{Runs}
use easybd.UringStream.Effects.{SameData}

-- The bytes that the kernel will still deliver, up to the end, and what the end is.
abbrev pub arriving : List Event → List ℕ
arriving [] = []
arriving (received bs more ∷ es) = bs ++ arriving es
arriving (ran_dry ∷ es) = arriving es
arriving (shut_down ∷ es) = []
arriving (fails e ∷ es) = []

abbrev pub kernel_ending : List Event → Ending
kernel_ending [] = eof
kernel_ending (received bs more ∷ es) = kernel_ending es
kernel_ending (ran_dry ∷ es) = kernel_ending es
kernel_ending (shut_down ∷ es) = eof
kernel_ending (fails e ∷ es) = failed (suc e)

-- The connection ends some time, bytes come at least one at a time, and ENOBUFS is not its failure.
abbrev pub Ends : List Event → Type 0
Ends [] = ⊥
Ends (received bs more ∷ es) = (0 < length bs) × Ends es
Ends (ran_dry ∷ es) = Ends es
Ends (shut_down ∷ es) = Unit {0}
Ends (fails e ∷ es) = (suc e == enobufs) ≡ false

-- The bytes that wait to be taken.
abbrev pub waiting : Stream → List ℕ
waiting s = flatten (map (chunk_bytes s.buf) s.pending)

abbrev pub rest_of : Stream → List Event → List ℕ
rest_of s es = waiting s ++ (if is_open s then arriving es else [])

abbrev pub ending_of : Stream → List Event → Ending
ending_of s es =
    if is_open s then kernel_ending es else if s.error == 0 then eof else failed s.error

-- A chunk is not empty, and its buffer has its bytes.
abbrev pub IsFull : (ℕ → List ℕ) → Pending → Type 0
IsFull buf p = (0 < p.len) × (length (chunk_bytes buf p) ≡ p.len)

-- A stream and its kernel.
pub record IsKept (s : Stream) (es : List Event) : Type 0 where
  pub owned : IsOwned s
  pub runs : Runs s
  pub some_buffer : 0 < s.entries
  pub full : All (IsFull s.buf) s.pending
  pub running_open : (s.live || s.needs_resubmit) ≡ true → is_open s ≡ true
  pub ends : is_open s ≡ true → Ends es

pub live_open : (s : Stream) (es : List Event) → IsKept s es → s.live ≡ true → is_open s ≡ true
live_open s es k l = k.running_open (ap (λ b. b || s.needs_resubmit) l)

-- Nothing lost, and nothing repeated.
pub record Keeps (s : Stream) (es : List Event) (t : Stream) (fs : List Event) : Type 0 where
  pub kept : IsKept t fs
  pub same_rest : rest_of t fs ≡ rest_of s es
  pub same_ending : ending_of t fs ≡ ending_of s es

pub Keeps-refl : (s : Stream) (es : List Event) → IsKept s es → Keeps s es s es
Keeps-refl s es k = record { kept = k; same_rest = refl; same_ending = refl }

pub Keeps-trans :
    {s t u : Stream} {es fs gs : List Event} → Keeps s es t fs → Keeps t fs u gs → Keeps s es u gs
Keeps-trans k l = record {
  kept = l.kept;
  same_rest = l.same_rest ∙ k.same_rest;
  same_ending = l.same_ending ∙ k.same_ending;
}

-- The data of a stream as far as they are to come.
abbrev data_rest : List Pending → (ℕ → List ℕ) → Bool → ℕ → List ℕ → List ℕ
data_rest ps buf over code later =
    flatten (map (chunk_bytes buf) ps) ++ (if code == 0 && not over then later else [])

open_of : (s t : Stream) → t.eof ≡ s.eof → t.error ≡ s.error → is_open t ≡ is_open s
open_of s t e f = rw (e, f) refl

-- With the data and the end as they were, and as much to come.
pub Keeps-of_SameData :
    (s t : Stream) (es fs : List Event)
    → SameData s t
    → IsOwned t
    → Runs t
    → ((t.live || t.needs_resubmit) ≡ true → is_open s ≡ true)
    → (is_open s ≡ true → Ends fs)
    → arriving fs ≡ arriving es
    → kernel_ending fs ≡ kernel_ending es
    → IsKept s es
    → Keeps s es t fs
Keeps-of_SameData s t es fs d o r l n a b k = record {
  kept = record {
    owned = o;
    runs = r;
    some_buffer = rw d.entries k.some_buffer;
    full = rw (d.buf, d.pending) k.full;
    running_open = λ h. open_of s t d.eof d.error ∙ l h;
    ends = λ h. n (sym (open_of s t d.eof d.error) ∙ h);
  };
  same_rest = rw (d.buf, d.pending, d.eof, d.error, a) refl;
  same_ending = rw (d.eof, d.error, b) refl;
}
