-- ===== src/Session/Tests.antt =====
-- session.cpp over the libc backend: one read request, which the socket gives in two parts.
use easybd.Base.{ℕ, ◌≡◌, refl, List, [], ◌∷◌, ◌++◌, Bool, true, false, arith}
use easybd.LibcStream
use easybd.LibcStream.{Recv, got, again, closed, Ring}
use easybd.LibcStream.Contract.{IsGood, libc_stream}
use easybd.LibcStream.Start.{new-IsGood}
use easybd.Reader.{new, closed_mid_message}
use easybd.Reader.Exact.{available}
use easybd.Session.{read_job, write_job, thrown, invalid_op, out_of_memory, connection}
use easybd.Session.Parse.{parse, parse_request, connection_refines}
use easybd.Stream.{eof}
use easybd.Wire.{RequestHeader, little, decode_request, op_write}

abbrev all_room : RequestHeader → Bool
all_room req = true

abbrev first_part : List ℕ
first_part = 9 ∷ 0 ∷ 0 ∷ 0 ∷ 0 ∷ 0 ∷ 0 ∷ []

abbrev second_part : List ℕ
second_part = 0 ∷ 0 ∷ 16 ∷ 0 ∷ 0 ∷ 0 ∷ 0 ∷ 0 ∷ 0 ∷ 5 ∷ 0 ∷ 0 ∷ 0 ∷ 0 ∷ 0 ∷ 0 ∷ 0 ∷ 0 ∷ []

abbrev start : Ring × List Recv
start = (LibcStream.new 2 (λ i. []), got first_part ∷ again ∷ got second_part ∷ closed ∷ [])

start-IsGood : IsGood start
start-IsGood = new-IsGood 2 (λ i. []) start.1 (omega arith) (omega arith)

read_parsed :
    parse little all_room eof 2 (first_part ++ second_part)
    ≡ (read_job 9 4096 5 ∷ [], thrown closed_mid_message)
unfolding parse parse_request decode_request
read_parsed = refl

connection_refines_example :
    connection little all_room libc_stream 26 new start
    ≡ parse little all_room eof 26 (available libc_stream new start)
connection_refines_example =
    connection_refines little all_room libc_stream 26 new start start-IsGood

abbrev no_room : RequestHeader → Bool
no_room req = false

-- A write for which there is no memory ends the loop, and one of no bytes does not need any.
write_short :
    parse_request little no_room eof
      (record { cid = 1; offset = 0; size = 2; op = op_write })
      (7 ∷ 8 ∷ [])
      (λ rest. ([], invalid_op))
    ≡ ([], out_of_memory)
unfolding parse_request
write_short = refl

write_none :
    parse_request little no_room eof
      (record { cid = 1; offset = 0; size = 0; op = op_write })
      (7 ∷ 8 ∷ [])
      (λ rest. ([], invalid_op))
    ≡ (write_job 1 0 [] false ∷ [], invalid_op)
unfolding parse_request
write_none = refl
