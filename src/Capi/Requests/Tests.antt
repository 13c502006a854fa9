-- ===== src/Capi/Requests/Tests.antt =====
-- A write whose send fails within the call.
use easybd.Base.{◌≢◌, [], ◌∷◌, false}
use easybd.Wire.{little}
use easybd.Client.{new}
use easybd.Capi.Requests.{enough, no_frame, fails, Call, writes, client_request}
use easybd.Capi.Requests.Queued.{Answers, client_request-Answers}

abbrev small_write : Call
small_write = writes (7 ∷ 8 ∷ []) 4096 6

enough-ne : enough ≢ no_frame
enough-ne = λ e. cc

client_request-Answers_example :
    Answers fails small_write
      (new false)
      (client_request enough fails little small_write (new false))
client_request-Answers_example =
    client_request-Answers enough fails little small_write (new false) enough-ne
