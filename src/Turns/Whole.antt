-- ===== src/Turns/Whole.antt =====
-- The messages of coroutines that take turns go out whole, and in the order in which they asked.
use easybd.Base.{
  ℕ, ◌≡◌, refl, sym, ap, ◌∙◌, List, [], ◌∷◌, ◌++◌, map, Bool, true, false, some, arith,
  append_assoc, append-nil, flatten, flatten-append, subst, take, drop, take-append-drop,
}
use easybd.Mutex.{lock, unlock, await_ready, await_suspend}
use easybd.Turns.{Frame, Turns, new, enter, frame_of, release, put, send_returns, send_throws}

abbrev pub messages : List Frame → List (List ℕ)
messages l = map (λ f. f.1) l

abbrev pub handles : List Frame → List ℕ
handles l = map (λ f. f.0) l

-- What coroutines do on a connection, with all messages in the order in which their coroutines asked.
pub data Run : List (List ℕ) → Turns → Type 0 where
  starts : Run [] new
  asks :
      {l : List (List ℕ)} {t : Turns} (h : ℕ) (msg : List ℕ)
      → Run l t
      → Run (l ++ msg ∷ []) (enter h msg t)
  puts :
      {l : List (List ℕ)} {t : Turns} (before : List (List ℕ)) (n : ℕ) (rest : List ℕ)
      (after : List (List ℕ))
      → t.sending ≡ before ++ rest ∷ after
      → Run l t
      → Run l (put before n rest after t)
  returns :
      {l : List (List ℕ)} {t : Turns} (before after : List (List ℕ))
      → t.sending ≡ before ++ [] ∷ after
      → Run l t
      → Run l (send_returns (before ++ after) t)
  throws :
      {l : List (List ℕ)} {t : Turns} (before : List (List ℕ)) (rest : List ℕ)
      (after : List (List ℕ))
      → t.sending ≡ before ++ rest ∷ after
      → Run l t
      → Run l (send_throws (before ++ after) t)

-- Nobody sends or waits on a free mutex; one coroutine sends on a held one.
abbrev pub OneSends : Bool → Turns → Type 0
OneSends false t = (t.sending ≡ []) × (t.queued ≡ [])
OneSends true t = (rest : List ℕ) × (t.sending ≡ rest ∷ [])

-- One coroutine at most sends, and exactly while the mutex is held; the mutex's waiters are the frames
-- that wait; and until a send throws, the bytes on the wire and what the sender has left are the
-- messages whose turn came, one whole after another.
pub record IsWhole (t : Turns) : Type 0 where
  pub one : OneSends t.mutex.locked t
  pub waits : t.mutex.waiters ≡ handles t.queued
  pub whole : t.failed ≡ false → t.wire ++ flatten t.sending ≡ flatten t.turns

-- All messages, in the order in which their coroutines asked.
abbrev pub asked : Turns → List (List ℕ)
asked t = t.turns ++ messages t.queued

pub map-append_one {ℓ κ} :
    {A : Type ℓ} {B : Type κ} (f : A → B) (xs : List A) (x : A)
    → map f (xs ++ x ∷ []) ≡ map f xs ++ f x ∷ []
map-append_one f [] x = refl
map-append_one f (y ∷ xs) x = ap (λ l. f y ∷ l) (map-append_one f xs x)

flatten_one : (l : List (List ℕ)) (msg : List ℕ) → flatten (l ++ msg ∷ []) ≡ flatten l ++ msg
flatten_one l msg = flatten-append l (msg ∷ []) ∙ ap (λ t. flatten l ++ t) (append-nil msg)

-- The only sender.
pub only :
    (before : List (List ℕ)) (x y : List ℕ) (after : List (List ℕ))
    → x ∷ [] ≡ before ++ y ∷ after
    → (before ≡ []) × (x ≡ y) × (after ≡ [])
only [] x y after e = (refl, cc, cc)
only (b ∷ []) x y after e = absurd (cc)
only (b ∷ c ∷ before) x y after e = absurd (cc)

pub no_sender :
    (before : List (List ℕ)) (y : List ℕ) (after : List (List ℕ)) → [] ≡ before ++ y ∷ after → ⊥
no_sender [] y after e = cc
no_sender (b ∷ before) y after e = cc

enter-IsWhole_of :
    (b : Bool) (h : ℕ) (msg : List ℕ) (t : Turns)
    → t.mutex.locked ≡ b
    → IsWhole t
    → IsWhole (enter h msg t) × (asked (enter h msg t) ≡ asked t ++ msg ∷ [])
unfolding enter lock await_ready await_suspend
enter-IsWhole_of false h msg t e w =
    let o : OneSends false t = subst (λ b. OneSends b t) e w.one in
    rw (e, o.0, o.1)
      (
        record {
          one = (msg, refl);
          waits = w.waits ∙ ap handles o.1;
          whole = λ n.
              ap (λ x. t.wire ++ x) (append-nil msg)
              ∙ ap (λ x. x ++ msg) (sym (append-nil t.wire) ∙ rw o.0 at (w.whole n))
              ∙ sym (flatten_one t.turns msg);
        },
        append-nil _ ∙ ap (λ l. l ++ msg ∷ []) (sym (append-nil t.turns)),
      )
enter-IsWhole_of true h msg t e w =
    let o : OneSends true t = subst (λ b. OneSends b t) e w.one in
    rw e (
      record {
        one = o;
        waits = ap (λ l. l ++ h ∷ []) w.waits ∙ sym (map-append_one (λ f. f.0) t.queued (h, msg));
        whole = w.whole;
      },
      ap (λ l. t.turns ++ l) (map-append_one (λ f. f.1) t.queued (h, msg))
          ∙ sym (append_assoc t.turns _ _),
    )

pub frame_of_first :
    (x y : ℕ) (msg : List ℕ) (l : List Frame) → y ≡ x → frame_of x ((y, msg) ∷ l) ≡ some (msg, l)
unfolding frame_of
frame_of_first x y msg l e = ground arith

-- The coroutine whose turn is over, and whose rest may be lost.
release-IsWhole_of :
    (waiters : List ℕ) (queued : List Frame) (t : Turns)
    → t.mutex.waiters ≡ waiters
    → t.queued ≡ queued
    → waiters ≡ handles queued
    → t.mutex.locked ≡ true
    → t.sending ≡ []
    → (t.failed ≡ false → t.wire ≡ flatten t.turns)
    → IsWhole (release t) × (asked (release t) ≡ asked t)
unfolding release unlock frame_of
release-IsWhole_of [] [] t e q h k o n =
    rw (e, q, o)
      (record { one = (refl, refl); waits = refl; whole = λ m. append-nil t.wire ∙ n m }, refl)
release-IsWhole_of [] (f ∷ l) t e q h k o n = absurd (cc)
release-IsWhole_of (x ∷ xs) [] t e q h k o n = absurd (cc)
release-IsWhole_of (x ∷ xs) ((y, msg) ∷ l) t e q h k o n =
    let same : y ≡ x = cc in
    let rest : xs ≡ handles l = cc in
    rw (e, q, o, frame_of_first x y msg l same)
      (
        record {
          one = rw k (msg, refl);
          waits = rest;
          whole = λ m.
              ap (λ b. t.wire ++ b) (append-nil msg)
              ∙ ap (λ b. b ++ msg) (n m)
              ∙ sym (flatten_one t.turns msg);
        },
        append_assoc t.turns (msg ∷ []) (messages l),
      )

release-IsWhole :
    (t : Turns)
    → t.mutex.waiters ≡ handles t.queued
    → t.mutex.locked ≡ true
    → t.sending ≡ []
    → (t.failed ≡ false → t.wire ≡ flatten t.turns)
    → IsWhole (release t) × (asked (release t) ≡ asked t)
release-IsWhole t w = release-IsWhole_of t.mutex.waiters t.queued t refl refl w

-- Who is in `send_all` holds the lock, alone.
pub record HasTurn (before : List (List ℕ)) (rest : List ℕ) (after : List (List ℕ)) (t : Turns)
    : Type 0 where
  pub locked : t.mutex.locked ≡ true
  pub first : before ≡ []
  pub last : after ≡ []

turn_of :
    (b : Bool) (before : List (List ℕ)) (rest : List ℕ) (after : List (List ℕ)) (t : Turns)
    → t.mutex.locked ≡ b
    → OneSends b t
    → t.sending ≡ before ++ rest ∷ after
    → HasTurn before rest after t
turn_of false before rest after t e o h = absurd (no_sender before rest after (sym o.0 ∙ h))
turn_of true before rest after t e (x, o) h =
    let (b, same, a) = only before x rest after (sym o ∙ h) in
    record { locked = e; first = b; last = a }

pub sending-HasTurn :
    (before : List (List ℕ)) (rest : List ℕ) (after : List (List ℕ)) (t : Turns)
    → IsWhole t
    → t.sending ≡ before ++ rest ∷ after
    → HasTurn before rest after t
sending-HasTurn before rest after t w h = turn_of t.mutex.locked before rest after t refl w.one h

pub enter-IsWhole :
    (h : ℕ) (msg : List ℕ) (t : Turns)
    → IsWhole t
    → IsWhole (enter h msg t) × (asked (enter h msg t) ≡ asked t ++ msg ∷ [])
enter-IsWhole h msg t w = enter-IsWhole_of t.mutex.locked h msg t refl w

pub put-IsWhole :
    (before : List (List ℕ)) (n : ℕ) (rest : List ℕ) (after : List (List ℕ)) (t : Turns)
    → t.sending ≡ before ++ rest ∷ after
    → IsWhole t
    → IsWhole (put before n rest after t) × (asked (put before n rest after t) ≡ asked t)
unfolding put
put-IsWhole before n rest after t h w =
    let u = sending-HasTurn before rest after t w h in
    (
      record {
        one = rw (u.locked, u.first, u.last) (drop n rest, refl);
        waits = w.waits;
        whole = λ m.
            rw (u.first, u.last)
              (append_assoc t.wire (take n rest) (drop n rest ++ [])
                ∙ ap (λ b. t.wire ++ b)
                    (sym (append_assoc (take n rest) (drop n rest) [])
                      ∙ ap (λ b. b ++ []) (take-append-drop n rest))
                ∙ rw (h, u.first, u.last) at (w.whole m));
      },
      refl,
    )

pub send_returns-IsWhole :
    (before after : List (List ℕ)) (t : Turns)
    → t.sending ≡ before ++ [] ∷ after
    → IsWhole t
    → IsWhole (send_returns (before ++ after) t)
      × (asked (send_returns (before ++ after) t) ≡ asked t)
unfolding send_returns
send_returns-IsWhole before after t h w =
    let u = sending-HasTurn before [] after t w h in
    rw (u.first, u.last)
      (release-IsWhole (record t { sending = [] }) w.waits u.locked refl
        (λ m. sym (append-nil t.wire) ∙ rw (h, u.first, u.last) at (w.whole m)))

pub send_throws-IsWhole :
    (before : List (List ℕ)) (rest : List ℕ) (after : List (List ℕ)) (t : Turns)
    → t.sending ≡ before ++ rest ∷ after
    → IsWhole t
    → IsWhole (send_throws (before ++ after) t)
      × (asked (send_throws (before ++ after) t) ≡ asked t)
unfolding send_throws
send_throws-IsWhole before rest after t h w =
    let u = sending-HasTurn before rest after t w h in
    rw (u.first, u.last)
      (release-IsWhole (record t { sending = []; failed = true }) w.waits u.locked refl (λ m. cc))

-- However coroutines that send on one connection interleave: one at most is in `send_all`, and exactly
-- while the lock is held; turns come in the order in which the coroutines asked; and until a send throws,
-- the wire holds the messages whose turn came, each whole behind the one before, but for what the sender
-- has left.
pub Run-IsWhole : {l : List (List ℕ)} {t : Turns} → Run l t → IsWhole t × (asked t ≡ l)
Run-IsWhole starts = (record { one = (refl, refl); waits = refl; whole = λ n. refl }, refl)
Run-IsWhole (asks {t = t} h msg r) =
    let (w, e) = Run-IsWhole r in
    let (w', e') = enter-IsWhole h msg t w in (w', e' ∙ ap (λ l. l ++ msg ∷ []) e)
Run-IsWhole (puts {t = t} before n rest after h r) =
    let (w, e) = Run-IsWhole r in
    let (w', e') = put-IsWhole before n rest after t h w in (w', e' ∙ e)
Run-IsWhole (returns {t = t} before after h r) =
    let (w, e) = Run-IsWhole r in
    let (w', e') = send_returns-IsWhole before after t h w in (w', e' ∙ e)
Run-IsWhole (throws {t = t} before rest after h r) =
    let (w, e) = Run-IsWhole r in
    let (w', e') = send_throws-IsWhole before rest after t h w in (w', e' ∙ e)
