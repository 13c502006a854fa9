-- ===== src/Task/Life.antt =====
-- task.hpp: whoever awaits a task is resumed once, with its result there.
use easybd.Base.{ℕ, ◌≡◌, refl, List, [], ◌∷◌, ◌++◌, Bool, true, false, Option, none, some, ap, ◌∙◌}
use easybd.Task.{
  Outcome, Phase, created, running, suspended, Frame, is_over, new, await_suspend, start, awaiters,
  final_suspend, finish,
}

-- Whom a task must have resumed, once.
abbrev pub due : Bool → Option ℕ → List ℕ
due false asked = []
due true none = []
due true (some c) = c ∷ []

awaiters-due : (a : Option ℕ) → awaiters a ≡ due true a
awaiters-due none = refl
awaiters-due (some c) = refl

module _ {ℓ} {A : Type ℓ} where
  -- A task is awaited, or started, before it has run; then its body waits for operations, goes on, and ends.
  -- The `Option ℕ` is the coroutine that has said `co_await`, whatever the frame remembers of it.
  pub data Step (asked : Option ℕ) (t : Frame A) : Option ℕ → Frame A → Type ℓ where
    awaits :
        (awaiting : ℕ) → t.phase ≡ created → Step asked t (some awaiting) (await_suspend awaiting t)
    starts : t.phase ≡ created → Step asked t asked (start t)
    waits : t.phase ≡ running → Step asked t asked (record t { phase = suspended })
    goes_on : t.phase ≡ suspended → Step asked t asked (record t { phase = running })
    ends : (o : Outcome A) → t.phase ≡ running → Step asked t asked (finish o t)

  -- Nobody has awaited the task at first.
  pub data Reach (t : Frame A) : Option ℕ → Frame A → Type ℓ where
    here : Reach t none t
    next : {a b : Option ℕ} {u v : Frame A} → Reach t a u → Step a u b v → Reach t b v

  abbrev pub has_result : Frame A → Bool
  has_result t = elim t.result [ none ↦ false | some o ↦ true ]

  -- The frame knows who awaits it. Until its end it has resumed nobody and has no result; then it has
  -- resumed whoever asked for it.
  pub record IsAwaited (asked : Option ℕ) (t : Frame A) : Type ℓ where
    pub known : t.continuation ≡ asked
    pub resumed : t.resumed ≡ due (is_over t.phase) asked
    pub result : has_result t ≡ is_over t.phase

  before :
      {a : Option ℕ} (t : Frame A) (p : Phase)
      → t.phase ≡ p
      → is_over p ≡ false
      → IsAwaited a t
      → t.resumed ≡ []
  before {a} t p e o w = w.resumed ∙ ap (λ b. due b a) (ap is_over e ∙ o)

  Step-IsAwaited : {a b : Option ℕ} {t u : Frame A} → Step a t b u → IsAwaited a t → IsAwaited b u
  unfolding await_suspend start finish final_suspend
  Step-IsAwaited {t = t} (awaits h e) w = record {
    known = refl;
    resumed = before t created e refl w;
    result = w.result ∙ ap is_over e;
  }
  Step-IsAwaited {t = t} (starts e) w = rw e (record {
    known = w.known;
    resumed = before t created e refl w;
    result = w.result ∙ ap is_over e;
  })
  Step-IsAwaited {t = t} (waits e) w = record {
    known = w.known;
    resumed = before t running e refl w;
    result = w.result ∙ ap is_over e;
  }
  Step-IsAwaited {t = t} (goes_on e) w = record {
    known = w.known;
    resumed = before t suspended e refl w;
    result = w.result ∙ ap is_over e;
  }
  Step-IsAwaited {t = t} (ends o e) w = record {
    known = w.known;
    resumed =
        ap (λ l. l ++ awaiters t.continuation) (before t running e refl w)
        ∙ ap awaiters w.known
        ∙ awaiters-due _;
    result = refl;
  }

  -- For a task that was awaited, started, suspended and resumed in any way that the coroutine machinery
  -- allows: its frame knows the coroutine that has awaited it, if any. Until its end it has resumed nobody
  -- and has no result; at its end it has a result, and has resumed that coroutine once, or nobody when
  -- none has awaited it.
  pub Reach-IsAwaited : {a : Option ℕ} {t : Frame A} → Reach new a t → IsAwaited a t
  unfolding new
  Reach-IsAwaited here = record { known = refl; resumed = refl; result = refl }
  Reach-IsAwaited (next r s) = Step-IsAwaited s (Reach-IsAwaited r)
