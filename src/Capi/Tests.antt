-- ===== src/Capi/Tests.antt =====
-- capi.cpp: a client that connects, one that is refused, and one that cannot be made nonblocking.
use easybd.Base.{◌-◌, ◌^◌, ◌<◌, ◌≡◌, refl, [], ◌∷◌, true, false, none, some, arith, length}
use easybd.Base.Int.{pos}
use easybd.System.{ok, err, set_nonblocking, system_error}
use easybd.Wire.{little}
use easybd.Client.{Client, new, broken, pread, erase, fail_all_pending, fail_each}
use easybd.Client.Account.{pread-Accounted, new-Accounted}
use easybd.Client.Steps.{here, next, breaks}
use easybd.Capi.{
  ConnectCalls, nothing, connected, starts, client_wait, open_socket, prepare_socket, raised,
}
use easybd.Capi.Waiting.{client_wait-counts}

abbrev refused_calls : ConnectCalls
refused_calls = record {
  with_liburing = true;
  init = pos 0;
  socket = ok 5;
  getfl = ok 2;
  setfl = ok 0;
  nodelay = ok 0;
  literal = some 127;
  resolved = err 2;
  steps = nothing ∷ connected (err 111) ∷ [];
  loop = starts;
}

-- When the socket cannot be made nonblocking, its descriptor stays open.
leaks :
    open_socket (ok 5) (record refused_calls { setfl = err 22 }) (3 ∷ [])
    ≡ (raised (system_error 22), 5 ∷ 3 ∷ [])
unfolding open_socket prepare_socket set_nonblocking
leaks = refl

-- A client that asks for two bytes, and whose server goes away while it waits.
abbrev asked : Client
asked = (pread little 70 2 0 5 (new false)).0

asked-eq : asked.pending ≡ (1, record { is_read = true; buf = 70; user_data = 5 }) ∷ []
unfolding pread erase
asked-eq = refl

is_reading : asked.reading ≡ true
unfolding pread
is_reading = refl

few_calls : length (broken asked).calls - length asked.calls < 2 ^ 31
unfolding broken fail_all_pending fail_each pread erase
few_calls = omega arith

client_wait-counts_example :
    client_wait none asked (broken asked) ≡ pos (length (broken asked).calls - length asked.calls)
client_wait-counts_example =
    client_wait-counts {order = little} {c = asked} {d = broken asked}
      (pread-Accounted little 70 2 0 5 (new false) (omega arith) (new-Accounted false))
      (next here (breaks is_reading)) few_calls
