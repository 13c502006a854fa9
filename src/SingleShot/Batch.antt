-- ===== src/SingleShot/Batch.antt =====
-- uring_recv_stream.cpp, single shot, under `co_await next_batch(…)` of recv_stream.hpp. The kernel is
-- the list of the completions that the recvs will have.
use easybd.Base.{ℕ, List, [], ◌∷◌, Bool, true, false, ◌&&◌}
use easybd.Stream.{Chunk}
use easybd.SingleShot.{SingleShot, ready, arm, take_batch, Event, deliver, resumes}

-- A stream, the completions to come, and for each call whether the completion of the recv in flight
-- comes before the call or while it waits.
pub record Use : Type 0 where
  pub stream : SingleShot
  pub events : List Event
  pub early : List Bool

-- The recv in flight completes: what becomes of the stream, and whether `handle_cqe` resumed the reader.
unfoldable pub complete_recv : Use → Use × Bool
complete_recv u = elim u.events [
  | [] ↦ (u, false)
  | e ∷ es ↦ (record u { stream = deliver e u.stream; events = es }, resumes e u.stream)
]

unfoldable pub advance_if : Bool → Use → Use
advance_if true u = (complete_recv u).0
advance_if false u = u

-- What `step` dispatched before a call.
unfoldable pub arrive : Use → Use
unfolding advance_if
arrive u = elim u.early [
  | [] ↦ u
  | b ∷ bs ↦ advance_if (b && u.stream.live) (record u { early = bs })
]

-- `await_ready` gave this; or else the wait of `co_await`, for the one recv in flight. Whether the reader
-- goes on: at once, or resumed by that completion.
unfoldable pub await : SingleShot × Bool → Use → Use × Bool
unfolding arm
await (s, true) u = (record u { stream = s }, true)
await (s, false) u = complete_recv (record u { stream = arm s })

unfoldable pub serve : Use → Use × Bool
serve u = let u' = arrive u in await (ready u'.stream) u'

-- `await_resume`, for a reader that goes on; one that is not resumed gets nothing.
abbrev pub await_resume : Bool → ℕ → SingleShot → List Chunk × SingleShot
await_resume false size s = ([], s)
await_resume true size s = take_batch size s

unfoldable pub next_batch : Use → ℕ → ℕ → List Chunk × Use
next_batch u size max =
    let (u', resumed) = serve u in
    let (cs, s) = await_resume resumed size u'.stream in (cs, record u' { stream = s })
