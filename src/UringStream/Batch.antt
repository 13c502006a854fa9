-- ===== src/UringStream/Batch.antt =====
-- uring_recv_stream.cpp, multishot, under `co_await next_batch(…)` of recv_stream.hpp. The kernel is the
-- list of what happens to the connection.
use easybd.Base.{ℕ, zero, suc, List, [], ◌∷◌, Bool, true, false, if◌then◌else◌, is_empty, length}
use easybd.Stream.{Chunk}
use easybd.UringStream.{
  Stream, ready, arm, take_batch, Event, received, ran_dry, shut_down, fails, deliver, resumes,
}

-- A stream, what is to happen, and for each call how many completions come before it.
pub record Use : Type 0 where
  pub stream : Stream
  pub events : List Event
  pub early : List ℕ

-- What the kernel did and whether it resumed the reader.
abbrev after_event : Event → List Event → Stream → Stream × List Event × Bool
after_event e es s = (deliver e s, es, resumes e s)

-- The kernel goes on with its operation. Bytes that find no buffer are kept for a later one.
unfoldable pub kernel_turn : Event → List Event → Stream → Stream × List Event × Bool
kernel_turn (received bs more) es s =
    if is_empty s.ring
    then after_event ran_dry (received bs more ∷ es) s
    else after_event (received bs more) es s
kernel_turn ran_dry es s = after_event ran_dry es s
kernel_turn shut_down es s = after_event shut_down es s
kernel_turn (fails e) es s = after_event (fails e) es s

-- Only while an operation is there, and something happens.
unfoldable pub kernel_step : Bool → List Event → Stream → Stream × List Event × Bool
kernel_step false es s = (s, es, false)
kernel_step true [] s = (s, [], false)
kernel_step true (e ∷ es) s = kernel_turn e es s

-- What `step` dispatched before a call, when nobody waits.
unfoldable pub arrive : ℕ → Stream × List Event → Stream × List Event
arrive zero x = x
arrive (suc n) (s, es) = let x = kernel_step s.live es s in arrive n (x.0, x.1)

-- The wait of `co_await`: completions come until `handle_cqe` resumes the reader, if it ever does.
unfoldable pub wait : ℕ → Stream × List Event → Stream × List Event × Bool
wait zero (s, es) = (s, es, false)
wait (suc f) (s, es) =
    let x = kernel_step s.live es s in let rest = wait f (x.0, x.1) in if x.2 then x else rest

-- Whether the reader goes on: at once, or resumed.
unfoldable pub await : Stream × Bool → List Event → Stream × List Event × Bool
await (s, true) es = (s, es, true)
await (s, false) es = wait (suc (length es)) (arm s, es)

abbrev pub first_early : List ℕ → ℕ
first_early [] = 0
first_early (n ∷ ns) = n

unfoldable pub serve : Use → Stream × List Event × Bool
serve u = let x = arrive (first_early u.early) (u.stream, u.events) in await (ready x.0) x.1

abbrev pub later_early : List ℕ → List ℕ
later_early [] = []
later_early (n ∷ ns) = ns

-- `await_resume`, for a reader that goes on; one that is not resumed gets nothing.
abbrev pub await_resume : Bool → ℕ → ℕ → Stream → List Chunk × Stream
await_resume false size max s = ([], s)
await_resume true size max s = take_batch size max s

unfoldable pub next_batch : Use → ℕ → ℕ → List Chunk × Use
next_batch u size max =
    let x = serve u in
    let (cs, s) = await_resume x.2 size max x.0 in
    (cs, record { stream = s; events = x.1; early = later_early u.early })
