-- ===== src/LibcQueue/Destructor/Erased.antt =====
-- What becomes of `~Queue` when the coroutines it resumes end.
use easybd.Base.{
  ℕ, ◌≡◌, refl, ap, ◌∙◌, inl, inr, List, [], ◌∷◌, ◌++◌, Bool, true, false, not, ◌&&◌, All, Option,
  none, some, ◌==◌, if◌then◌else◌, is_empty, arith, Bool-cases, length, ==_refl,
}
use easybd.LibcQueue.{FdState, Table, find, put, erase, clear_read_op, ops_of, is_none, cancel_all}
use easybd.LibcQueue.Acts.{find-put_same, find-put_other, find-erase_same}
use easybd.LibcQueue.Destructor.{
  End, ended, erased, keys_of, has_only, cancel_read_op, cancel_writes, cancel_entry, cancel_from,
  destroy,
}
use easybd.LibcQueue.Destructor.Entries.{
  IsTable, has_only-find, has_only-put, clear_read_op-find, All-both, find_each, has_only-keys_of,
}

-- Whether a descriptor is read by a coroutine that ends, and no write waits for it.
unfoldable pub lost_at : (ℕ → Bool) → ℕ → FdState → Bool
lost_at ends fd st = ends fd && not (is_none st.read_op) && is_empty st.write_queue

-- How the loops of `~Queue` end, and what they cancel until then.
unfoldable pub expected : (ℕ → Bool) → Table → End × List ℕ
unfolding lost_at
expected ends [] = (ended, [])
expected ends ((fd, st) ∷ t) =
    let (end, calls) = expected ends t in
    if lost_at ends fd st then (erased fd, ops_of st) else (end, ops_of st ++ calls)

module _ {World : Type 0} (cancel_read cancel_write : ℕ → ℕ → Table × World → Table × World)
    (ends : ℕ → Bool)
    (reads : (fd op : ℕ) (s : Table × World)
      → (cancel_read fd op s).0 ≡ (if ends fd then clear_read_op fd op s.0 else s.0))
    (writes : (fd op : ℕ) (s : Table × World) → (cancel_write fd op s).0 ≡ s.0) where
  -- What the loop over writes does that leave the table as it is.
  abbrev Quiet : ℕ → ℕ → List ℕ → Table × World → Type 0
  Quiet fd n ops s =
      (r : Table × World) × (cancel_writes cancel_read cancel_write fd n ops s ≡ (ended, ops, r))
      × (r.0 ≡ s.0)

  cancel_writes_next :
      (fd op : ℕ) (ops : List ℕ) (s : Table × World) (st : FdState)
      → find fd (cancel_write fd op s).0 ≡ some st
      → Quiet fd (length st.write_queue) ops (cancel_write fd op s)
      → Quiet fd (length st.write_queue) (op ∷ ops) s
  unfolding cancel_writes
  cancel_writes_next fd op ops s st e (r, h, k) =
      (r, rw (cancel_writes, e, h, ==_refl (length st.write_queue)) refl, k ∙ writes fd op s)

  cancel_writes-Quiet :
      (fd : ℕ) (ops : List ℕ) (s : Table × World) (st : FdState)
      → find fd s.0 ≡ some st
      → Quiet fd (length st.write_queue) ops s
  unfolding cancel_writes
  cancel_writes-Quiet fd [] s st e = (s, refl, refl)
  cancel_writes-Quiet fd (op ∷ ops) s st e =
      let e' : find fd (cancel_write fd op s).0 ≡ some st = ap (find fd) (writes fd op s) ∙ e in
      cancel_writes_next fd op ops s st e' (cancel_writes-Quiet fd ops (cancel_write fd op s) st e')

  -- What is called and what there is after the read operation of an entry.
  abbrev after_read : ℕ → FdState → Table × World → List ℕ × (Table × World)
  after_read fd st s = cancel_read_op cancel_read cancel_write fd st.read_op s

  cancel_entry-done :
      (fd : ℕ) (st st' : FdState) (s : Table × World)
      → find fd (after_read fd st s).1.0 ≡ some st'
      → (r : Table × World) × (cancel_entry cancel_read cancel_write fd st s
          ≡ (ended, (after_read fd st s).0 ++ st'.write_queue, r))
        × (r.0 ≡ (after_read fd st s).1.0)
  unfolding cancel_entry
  cancel_entry-done fd st st' s e =
      let (r, h, k) = cancel_writes-Quiet fd st'.write_queue (after_read fd st s).1 st' e in
      (r, rw (cancel_entry, e, h) refl, k)

  cancel_entry-lost :
      (fd : ℕ) (st : FdState) (s : Table × World)
      → find fd (after_read fd st s).1.0 ≡ none
      → cancel_entry cancel_read cancel_write fd st s
        ≡ (erased fd, (after_read fd st s).0, (after_read fd st s).1)
  unfolding cancel_entry
  cancel_entry-lost fd st s e = rw (cancel_entry, e) refl

  -- What an entry that is not lost leaves behind.
  abbrev Keeps : List ℕ → ℕ → FdState → Table × World → Type 0
  Keeps keys fd st s =
      (r : Table × World) × (cancel_entry cancel_read cancel_write fd st s ≡ (ended, ops_of st, r))
      × ((k : ℕ) → (fd == k) ≡ false → find k r.0 ≡ find k s.0)
      × (has_only keys r.0 ≡ true)

  abbrev state : Option ℕ → ℕ → List ℕ → FdState
  state op gen queue = record { read_op = op; read_op_gen = gen; write_queue = queue }

  -- The table after the coroutine that reads a descriptor has ended.
  reads_end :
      (fd op gen : ℕ) (queue : List ℕ) (s : Table × World)
      → find fd s.0 ≡ some (state (some op) gen queue)
      → ends fd ≡ true
      → (cancel_read fd op s).0 ≡ (
          if is_empty queue
          then erase fd (put fd (state none gen queue) s.0)
          else put fd (state none gen queue) s.0)
  reads_end fd op gen queue s e l =
      reads fd op s
      ∙ ap (λ b. if b then clear_read_op fd op s.0 else s.0) l
      ∙ clear_read_op-find fd op s.0 (state (some op) gen queue) e refl

  reads_on : (fd op : ℕ) (s : Table × World) → ends fd ≡ false → (cancel_read fd op s).0 ≡ s.0
  reads_on fd op s l = reads fd op s ∙ ap (λ b. if b then clear_read_op fd op s.0 else s.0) l

  entry_lost :
      (fd : ℕ) (op : Option ℕ) (gen : ℕ) (queue : List ℕ) (s : Table × World)
      → find fd s.0 ≡ some (state op gen queue)
      → lost_at ends fd (state op gen queue) ≡ true
      → (r : Table × World) × (cancel_entry cancel_read cancel_write fd (state op gen queue) s
          ≡ (erased fd, ops_of (state op gen queue), r))
  unfolding lost_at
  entry_lost fd none gen queue s e l = absurd (ground arith)
  entry_lost fd (some op) gen (x ∷ queue) s e l = absurd (ground arith)
  entry_lost fd (some op) gen [] s e l =
      let gone = ap (find fd) (reads_end fd op gen [] s e (ground arith)) ∙ find-erase_same fd _ in
      (cancel_read fd op s, cancel_entry-lost fd (state (some op) gen []) s gone)

  -- One whose table is known after its read operation.
  kept_of :
      (keys : List ℕ) (fd : ℕ) (st st' : FdState) (s : Table × World)
      → find fd (after_read fd st s).1.0 ≡ some st'
      → (after_read fd st s).0 ++ st'.write_queue ≡ ops_of st
      → ((k : ℕ) → (fd == k) ≡ false → find k (after_read fd st s).1.0 ≡ find k s.0)
      → has_only keys (after_read fd st s).1.0 ≡ true
      → Keeps keys fd st s
  kept_of keys fd st st' s e q others o =
      let (r, h, k) = cancel_entry-done fd st st' s e in
      (
        r,
        h ∙ ap (λ ops. (ended, ops, r)) q,
        λ j d. ap (find j) k ∙ others j d,
        ap (has_only keys) k ∙ o,
      )

  entry_kept :
      (keys : List ℕ) (fd : ℕ) (op : Option ℕ) (gen : ℕ) (queue : List ℕ) (s : Table × World)
      → find fd s.0 ≡ some (state op gen queue)
      → has_only keys s.0 ≡ true
      → lost_at ends fd (state op gen queue) ≡ false
      → Keeps keys fd (state op gen queue) s
  unfolding lost_at
  entry_kept keys fd none gen queue s e o l =
      kept_of keys fd (state none gen queue) (state none gen queue) s e refl (λ k d. refl) o
  entry_kept keys fd (some op) gen queue s e o l = elim (Bool-cases (ends fd)) [
    | inl b ↦
        let t = reads_end fd op gen queue s e b in
        let full : is_empty queue ≡ false = ground arith in
        let t' =
          t
          ∙ ap
              (λ b.
                if b
                then erase fd (put fd (state none gen queue) s.0)
                else put fd (state none gen queue) s.0)
              full in
        kept_of keys fd (state (some op) gen queue) (state none gen queue) s
          (ap (find fd) t' ∙ find-put_same fd _ s.0) refl
          (λ k d. ap (find k) t' ∙ find-put_other fd k _ s.0 d)
          (ap (has_only keys) t' ∙ has_only-put keys fd _ s.0 (has_only-find keys fd s.0 _ o e) o)
    | inr b ↦
        let t = reads_on fd op s b in
        kept_of keys fd (state (some op) gen queue) (state (some op) gen queue) s
          (ap (find fd) t ∙ e) refl (λ k d. ap (find k) t) (ap (has_only keys) t ∙ o)
  ]

  cancel_from-lost :
      (keys fds ops : List ℕ) (fd : ℕ) (st : FdState) (s r : Table × World)
      → find fd s.0 ≡ some st
      → cancel_entry cancel_read cancel_write fd st s ≡ (erased fd, ops, r)
      → cancel_from cancel_read cancel_write keys (fd ∷ fds) s ≡ (erased fd, ops)
  unfolding cancel_from
  cancel_from-lost keys fds ops fd st s r e h = rw (cancel_from, e, h) refl

  cancel_from-kept :
      (keys fds ops : List ℕ) (fd : ℕ) (st : FdState) (s r : Table × World)
      → find fd s.0 ≡ some st
      → cancel_entry cancel_read cancel_write fd st s ≡ (ended, ops, r)
      → has_only keys r.0 ≡ true
      → cancel_from cancel_read cancel_write keys (fd ∷ fds) s ≡ (
          let (end, later) = cancel_from cancel_read cancel_write keys fds r in (end, ops ++ later))
  unfolding cancel_from
  cancel_from-kept keys fds ops fd st s r e h o = rw (cancel_from, e, h, o) refl

  cancel_from-expected :
      (keys : List ℕ) (t : Table) (s : Table × World)
      → All (λ (e : ℕ × FdState). find e.0 s.0 ≡ some e.1) t
      → IsTable t
      → has_only keys s.0 ≡ true
      → cancel_from cancel_read cancel_write keys (keys_of t) s ≡ expected ends t
  unfolding cancel_from expected
  cancel_from-expected keys [] s f d o = refl
  cancel_from-expected keys ((fd, st) ∷ t) s (e, f) (d, ds) o =
      elim (Bool-cases (lost_at ends fd st)) [
        | inl l ↦
            let (r, h) = entry_lost fd st.read_op st.read_op_gen st.write_queue s e l in
            rw l (cancel_from-lost keys (keys_of t) (ops_of st) fd st s r e h)
        | inr l ↦
            let (r, h, others, o') =
              entry_kept keys fd st.read_op st.read_op_gen st.write_queue s e o l in
            let later =
              cancel_from-expected keys t r (All-both t d f (λ x a b. others x.0 a ∙ b)) ds o' in
            rw l (
              cancel_from-kept keys (keys_of t) (ops_of st) fd st s r e h o'
              ∙ ap (λ (x : End × List ℕ). (x.0, ops_of st ++ x.1)) later)
      ]

  -- When no descriptor has two entries, the cancelling of a write leaves `_fds` as it is, and that of a read
  -- operation leaves it too or ends the coroutine that reads, whose stream clears the operation: `~Queue`
  -- cancels the operations of one entry after the other, once each, until the first entry where the reading
  -- coroutine ends and no write waits; there the stream's destructor has erased the entry that the loop
  -- is at. Without such an entry the loop ends.
  pub destroy-expected :
      (t : Table) (w : World)
      → IsTable t
      → destroy cancel_read cancel_write (t, w) ≡ expected ends t
  unfolding destroy
  destroy-expected t w d =
      cancel_from-expected (keys_of t) t (t, w) (find_each t d) d (has_only-keys_of t)

  expected_all :
      (t : Table)
      → All (λ (e : ℕ × FdState). lost_at ends e.0 e.1 ≡ false) t
      → expected ends t ≡ (ended, cancel_all t)
  unfolding expected cancel_all
  expected_all [] h = refl
  expected_all ((fd, st) ∷ t) (h, hs) = rw (h, expected_all t hs) refl

  -- Where no such entry is, the operations that `cancel_all` lists are cancelled.
  pub destroy-cancel_all :
      (t : Table) (w : World)
      → IsTable t
      → All (λ (e : ℕ × FdState). lost_at ends e.0 e.1 ≡ false) t
      → destroy cancel_read cancel_write (t, w) ≡ (ended, cancel_all t)
  destroy-cancel_all t w d h = destroy-expected t w d ∙ expected_all t h
