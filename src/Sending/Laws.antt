-- ===== src/Sending/Laws.antt =====
-- queue.cpp, `send_all`: the bytes on the wire.
use easybd.Base.{
  ℕ, zero, suc, ◌+◌, ◌-◌, ◌≤◌, ◌<◌, ◌≡◌, refl, sym, ap, ◌∙◌, inl, inr, min, List, [], ◌∷◌, ◌++◌,
  ltb, ltb→lt, ltb→le, ◌==◌, length, length-append, length-drop, take, drop, flatten, Option, none,
  some, arith, append_assoc, append-nil, drop-append_left, drop_all, take_all, Bool-cases, ==_iff,
}
use easybd.Base.Int.{ℤ, pos, negsuc}
use easybd.Sending.{
  Answer, takes, full, refused, Socket, transfer, Outcome, done, blocked, thrown, send, send_loop,
  send_all, advance, send_iov_loop, send_all_pair,
}

suc_add : (m n : ℕ) → suc (m + n) ≡ suc m + n
suc_add m n = omega arith

module _ {ℓ} {A : Type ℓ} where
  drop-drop : (m n : ℕ) (xs : List A) → drop n (drop m xs) ≡ drop (m + n) xs
  drop-drop zero n xs = ap (λ k. drop k xs) (omega arith)
  drop-drop (suc m) n [] = drop_all n [] (omega arith) ∙ sym (drop_all (suc m + n) [] (omega arith))
  drop-drop (suc m) n (x ∷ xs) = drop-drop m n xs ∙ ap (λ k. drop k (x ∷ xs)) (suc_add m n)

  drop-append_right :
      (n : ℕ) (xs ys : List A) → length xs ≤ n → drop n (xs ++ ys) ≡ drop (n - length xs) ys
  drop-append_right n [] ys h = ap (λ k. drop k ys) (omega arith)
  drop-append_right zero (x ∷ xs) ys h = absurd (omega arith)
  drop-append_right (suc n) (x ∷ xs) ys h =
      drop-append_right n xs ys (omega arith) ∙ ap (λ k. drop k ys) (omega arith)

  take-take_add : (m n : ℕ) (xs : List A) → take m xs ++ take n (drop m xs) ≡ take (m + n) xs
  take-take_add zero n xs = ap (λ k. take k xs) (omega arith)
  take-take_add (suc m) n [] =
      take_all n [] (omega arith) ∙ sym (take_all (suc m + n) [] (omega arith))
  take-take_add (suc m) n (x ∷ xs) =
      ap (λ t. x ∷ t) (take-take_add m n xs) ∙ ap (λ k. take k (x ∷ xs)) (suc_add m n)

flatten-advance : (n : ℕ) (iov : List (List ℕ)) → flatten (advance n iov) ≡ drop n (flatten iov)
unfolding advance
flatten-advance zero [] = refl
flatten-advance (suc n) [] = refl
flatten-advance n (v ∷ vs) = elim (Bool-cases (n == 0)) [
  | inl e ↦ rw e (ap (λ k. drop k (v ++ flatten vs)) (sym ((==_iff n 0).0 e)))
  | inr e ↦ elim (Bool-cases (ltb n (length v))) [
    | inl k ↦
        rw (e, k) (sym (drop-append_left n v (flatten vs) (omega (arith, ltb→lt n (length v) k))))
    | inr k ↦
        rw (e, k)
          (flatten-advance (n - length v) vs
            ∙ sym (drop-append_right n v (flatten vs) (ltb→le n (length v) k)))
  ]
]

send_iov_loop-eq :
    (f : ℕ) (iov : List (List ℕ)) (buf : List ℕ) (sent : ℕ) (s : Socket)
    → flatten iov ≡ drop sent buf
    → send_iov_loop f iov sent (length buf) s ≡ send_loop f buf sent s
unfolding send_iov_loop send_loop
send_iov_loop-eq zero iov buf sent s h = refl
send_iov_loop-eq (suc f) iov buf sent s h = elim (Bool-cases (ltb sent (length buf))) [
  | inr e ↦ rw (e, send_loop, send_iov_loop) refl
  | inl e ↦
      rw (e, send_loop, send_iov_loop)
        (ap next_round (ap (λ bytes. transfer bytes s.answers s.wire) h)
          ∙ go (send (drop sent buf) s).0 (send (drop sent buf) s).1 (λ n s'.
            send_iov_loop-eq f (advance n iov) buf (sent + n) s'
              (flatten-advance n iov ∙ ap (drop n) h ∙ drop-drop sent n buf)))
]
  where
    next_round : Option ℤ × Socket → Outcome × Socket
    next_round (res, s') = elim res [
      | some (pos n) ↦ send_iov_loop f (advance n iov) (sent + n) (length buf) s'
      | some (negsuc x) ↦ (thrown x, s')
      | none ↦ (blocked, s')
    ]

    go :
        (res : Option ℤ) (s' : Socket)
        → ((n : ℕ) (s'' : Socket)
            → send_iov_loop f (advance n iov) (sent + n) (length buf) s''
              ≡ send_loop f buf (sent + n) s'')
        → elim res as (λ x. Outcome × Socket) [
          | some (pos n) ↦ send_iov_loop f (advance n iov) (sent + n) (length buf) s'
          | some (negsuc x) ↦ (thrown x, s')
          | none ↦ (blocked, s')
        ]
          ≡ elim res as (λ x. Outcome × Socket) [
            | some (pos n) ↦ send_loop f buf (sent + n) s'
            | some (negsuc x) ↦ (thrown x, s')
            | none ↦ (blocked, s')
          ]
    go (some (pos n)) s' ih = ih n s'
    go (some (negsuc x)) s' ih = refl
    go none s' ih = refl

-- Header and payload in two parts go out as the one message that they make up: the same calls
-- succeed, the same bytes go on the wire, and it ends in the same way, whatever the socket does.
pub send_all_pair-eq :
    (buf1 buf2 : List ℕ) (s : Socket) → send_all_pair buf1 buf2 s ≡ send_all (buf1 ++ buf2) s
unfolding send_all_pair send_all
send_all_pair-eq buf1 buf2 s =
    ap (λ total. send_iov_loop (suc total) (buf1 ∷ buf2 ∷ []) 0 total s)
      (sym (length-append buf1 buf2))
    ∙ send_iov_loop-eq (suc (length (buf1 ++ buf2))) (buf1 ∷ buf2 ∷ []) (buf1 ++ buf2) 0 s
        (ap (λ t. buf1 ++ t) (append-nil buf2))

-- What a socket promises: with room it takes a byte at least.
abbrev pub Takes : List Answer → Type 0
Takes [] = Unit {0}
Takes (takes n ∷ later) = (0 < n) × Takes later
Takes (full ∷ later) = Takes later
Takes (refused e ∷ later) = Takes later

-- How a call that was given `bytes` ended: it wrote the first `n`, or none.
data Transfers (bytes wire : List ℕ) : Option ℤ × Socket → Type 0 where
  wrote :
      (n : ℕ) (later : List Answer)
      → 0 < n
      → n ≤ length bytes
      → Takes later
      → Transfers bytes wire (some (pos n), record { answers = later; wire = wire ++ take n bytes })
  fails : (e : ℕ) (s : Socket) → s.wire ≡ wire → Transfers bytes wire (some (negsuc e), s)
  waits : (s : Socket) → s.wire ≡ wire → Transfers bytes wire (none, s)

transfer-Transfers :
    (bytes : List ℕ) (answers : List Answer) (wire : List ℕ)
    → 0 < length bytes
    → Takes answers
    → Transfers bytes wire (transfer bytes answers wire)
unfolding transfer
transfer-Transfers bytes [] wire h t = waits _ refl
transfer-Transfers bytes (takes n ∷ later) wire h t =
    wrote (min n (length bytes)) later (omega (arith, t)) (omega arith) t.1
transfer-Transfers bytes (full ∷ later) wire h t = transfer-Transfers bytes later wire h t
transfer-Transfers bytes (refused e ∷ later) wire h t = fails e _ (append-nil wire)

-- How `send_all` of `bytes` ended: with all of them on the wire, or with less and an error.
pub data Sends (bytes wire : List ℕ) : Outcome × Socket → Type 0 where
  all_sent : (s : Socket) → s.wire ≡ wire ++ bytes → Sends bytes wire (done, s)
  failed :
      (e k : ℕ) (s : Socket)
      → k < length bytes
      → s.wire ≡ wire ++ take k bytes
      → Sends bytes wire (thrown e, s)
  stuck :
      (k : ℕ) (s : Socket)
      → k < length bytes
      → s.wire ≡ wire ++ take k bytes
      → Sends bytes wire (blocked, s)

send_loop-Sends :
    (f : ℕ) (buf wire : List ℕ) (off : ℕ) (s : Socket)
    → length buf < off + f
    → off ≤ length buf
    → Takes s.answers
    → s.wire ≡ wire ++ take off buf
    → Sends buf wire (send_loop f buf off s)
unfolding send_loop
send_loop-Sends zero buf wire off s h le t w = absurd (omega arith)
send_loop-Sends (suc f) buf wire off s h le t w = elim (Bool-cases (ltb off (length buf))) [
  | inr e ↦
      rw (e, send_loop)
        (all_sent s (w ∙ ap (λ x. wire ++ x) (take_all off buf (ltb→le off (length buf) e))))
  | inl e ↦
      rw (e, send_loop)
        (go (send (drop off buf) s)
          (transfer-Transfers (drop off buf) s.answers s.wire
            (omega (arith, ltb→lt off (length buf) e, length-drop off buf)) t)
          (ltb→lt off (length buf) e) (λ n s'. send_loop-Sends f buf wire (off + n) s'))
]
  where
    go :
        (out : Option ℤ × Socket)
        → Transfers (drop off buf) s.wire out
        → off < length buf
        → ((n : ℕ) (s' : Socket)
            → length buf < off + n + f
            → off + n ≤ length buf
            → Takes s'.answers
            → s'.wire ≡ wire ++ take (off + n) buf
            → Sends buf wire (send_loop f buf (off + n) s'))
        → Sends buf wire (elim out.0 as (λ x. Outcome × Socket) [
          | some (pos n) ↦ send_loop f buf (off + n) out.1
          | some (negsuc x) ↦ (thrown x, out.1)
          | none ↦ (blocked, out.1)
        ])
    go out (wrote n later pos_n le_n t') lt ih =
        ih n _ (omega arith) (omega (arith, length-drop off buf)) t' (
          ap (λ x. x ++ take n (drop off buf)) w
          ∙ append_assoc wire (take off buf) (take n (drop off buf))
          ∙ ap (λ x. wire ++ x) (take-take_add off n buf))
    go out (fails x s' e) lt ih = failed x off s' lt (e ∙ w)
    go out (waits s' e) lt ih = stuck off s' lt (e ∙ w)

-- On a socket that takes a byte at least whenever it has room: `send_all` returns with exactly the
-- bytes of its buffer behind those already on the wire, however little each call takes; or it throws
-- or waits for ever, and then the wire ends in a proper prefix of them. It never runs out of fuel.
pub send_all-Sends :
    (buf : List ℕ) (s : Socket) → Takes s.answers → Sends buf s.wire (send_all buf s)
unfolding send_all
send_all-Sends buf s t =
    send_loop-Sends (suc (length buf)) buf s.wire 0 s (omega arith) (omega arith) t
      (sym (append-nil s.wire))
