-- ===== src/EndToEnd/Interleaved/Tests.antt =====
-- A connection with a write and a read: the read's I/O completes first, and its handler sends while the
-- write's waits for the lock, and the connection's coroutine for both.
use easybd.Base.{ℕ, ◌≡◌, ◌⊎◌, refl, ap, List, [], ◌∷◌, true, false, length, arith, drop, drop_all}
use easybd.Mutex.{lock, unlock, await_ready, await_suspend}
use easybd.WaitGroup
use easybd.Turns.{enter, frame_of, release, put, send_returns}
use easybd.Wire.{little}
use easybd.Session.{Job, write_job, read_job}
use easybd.Session.Handlers.{run_job, handle_read, handle_write, response_bytes}
use easybd.Session.Serving.{
  Serving, start, over, spawn_next, respond, send_part, handler_returns, leave, read_ends, Step,
  Reach,
}
use easybd.Session.Serving.Ended.{HasServed, Reach-HasServed, Next, Reach-goes_on}
use easybd.EndToEnd.Tests.{full_device}

abbrev write_it : Job
write_it = write_job 2 4096 (7 ∷ []) true

abbrev read_it : Job
read_it = read_job 1 0 2

abbrev both : List Job
both = write_it ∷ read_it ∷ []

abbrev write_reply : List ℕ
write_reply = response_bytes little (run_job full_device 0 write_it).0

abbrev read_reply : List ℕ
read_reply = response_bytes little (run_job full_device 0 read_it).0

abbrev spawned_both : Serving full_device
spawned_both =
    spawn_next full_device read_it []
      (spawn_next full_device write_it (read_it ∷ []) (start full_device both 0))

-- The read is to send, and the connection has no more to read.
abbrev read_first : Serving full_device
read_first =
    read_ends full_device
      (respond full_device little ((0, write_it) ∷ []) 1 read_it [] spawned_both)

-- The read has sent all, and the write waits for the lock.
abbrev write_waits : Serving full_device
write_waits =
    respond full_device little [] 0 write_it []
      (send_part full_device [] (length read_reply) read_reply [] read_first)

-- The write has the lock, and has sent all.
abbrev write_sent : Serving full_device
write_sent =
    send_part full_device [] (length write_reply) write_reply []
      (leave full_device 0 (handler_returns full_device [] write_waits))

abbrev ended : Serving full_device
ended = leave full_device 0 (handler_returns full_device [] write_sent)

all_sent : (msg : List ℕ) → drop (length msg) msg ∷ [] ≡ [] ∷ []
all_sent msg = ap (λ l. l ∷ []) (drop_all (length msg) msg (omega arith))

ran : Reach full_device little (start full_device both 0) ended
unfolding spawn_next respond send_part handler_returns leave read_ends enter lock await_ready
    await_suspend frame_of release unlock put send_returns WaitGroup.add WaitGroup.done
    WaitGroup.wait run_job handle_read handle_write
ran =
    let r1 = Reach.next Reach.here (Step.spawns write_it (read_it ∷ []) refl refl) in
    let r2 = Reach.next r1 (Step.spawns read_it [] refl refl) in
    let r3 = Reach.next r2 (Step.responds ((0, write_it) ∷ []) 1 read_it [] refl) in
    let r4 = Reach.next r3 (Step.reads_end refl refl) in
    let r5 = Reach.next r4 (Step.sends [] (length read_reply) read_reply [] refl) in
    let r6 = Reach.next r5 (Step.responds [] 0 write_it [] refl) in
    let r7 = Reach.next r6 (Step.returns [] [] (all_sent read_reply)) in
    let r8 = Reach.next r7 (Step.leaves 0 refl) in
    let r9 = Reach.next r8 (Step.sends [] (length write_reply) write_reply [] refl) in
    let r10 = Reach.next r9 (Step.returns [] [] (all_sent write_reply)) in
    Reach.next r10 (Step.leaves 0 refl)

ended_over : ended.stage ≡ over
unfolding spawn_next respond send_part handler_returns leave read_ends WaitGroup.add WaitGroup.done
    WaitGroup.wait
ended_over = refl

Reach-HasServed_example : HasServed full_device little both 0 ended
Reach-HasServed_example = Reach-HasServed full_device little both 0 ran ended_over

none_lost : (ended.lost ≡ []) × (ended.turns.failed ≡ false)
unfolding spawn_next respond send_part handler_returns leave read_ends enter lock await_ready
    await_suspend frame_of release unlock put send_returns
none_lost = (refl, refl)

in_order : ended.completed ≡ read_it ∷ write_it ∷ []
unfolding spawn_next respond send_part handler_returns leave read_ends
in_order = refl

Reach-goes_on_example : (ended.stage ≡ over) ⊎ Next full_device little both 0 ended
Reach-goes_on_example = Reach-goes_on full_device little both 0 ran
