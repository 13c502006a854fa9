-- ===== src/Sending/Tests.antt =====
-- queue.cpp, `send_all`, on a socket that takes three bytes, has no room, and takes the rest.
use easybd.Base.{ℕ, ◌≡◌, refl, List, [], ◌∷◌, ◌++◌, arith}
use easybd.Sending.{Socket, takes, full, done, send_all, send_all_pair}
use easybd.Sending.Laws.{Sends, send_all-Sends, send_all_pair-eq}

abbrev socket : Socket
socket = record { answers = takes 3 ∷ full ∷ takes 9 ∷ []; wire = 8 ∷ [] }

abbrev header : List ℕ
header = 1 ∷ 2 ∷ []

abbrev payload : List ℕ
payload = 3 ∷ 4 ∷ 5 ∷ []

sent :
    send_all_pair header payload socket
    ≡ (done, record { answers = []; wire = 8 ∷ 1 ∷ 2 ∷ 3 ∷ 4 ∷ 5 ∷ [] })
unfolding send_all_pair
sent = refl

send_all-Sends_example : Sends payload socket.wire (send_all payload socket)
send_all-Sends_example = send_all-Sends payload socket (omega arith)

send_all_pair-eq_example : send_all_pair header payload socket ≡ send_all (header ++ payload) socket
send_all_pair-eq_example = send_all_pair-eq header payload socket
