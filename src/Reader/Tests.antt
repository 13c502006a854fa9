-- ===== src/Reader/Tests.antt =====
-- framed_reader.cpp over the libc backend: a header of three bytes, a payload of four, and the end.
use easybd.Base.{◌≡◌, ◌⊎◌, refl, List, [], ◌∷◌, arith}
use easybd.LibcStream
use easybd.LibcStream.{Recv, got, again, closed, Ring}
use easybd.LibcStream.Contract.{IsGood, libc_stream}
use easybd.LibcStream.Start.{new-IsGood}
use easybd.Reader.{ok, throw, closed_mid_message, new, read_exact}
use easybd.Reader.Exact.{available, Succeeds, Fails, read_exact_lem}
use easybd.Reader.Refine.{Read, exact, into, run, reads, run_refines}
use easybd.Stream.{eof}

abbrev socket : List Recv
socket = got (1 ∷ 2 ∷ []) ∷ again ∷ got (3 ∷ 4 ∷ 5 ∷ []) ∷ got (6 ∷ 7 ∷ 8 ∷ []) ∷ closed ∷ []

abbrev start : Ring × List Recv
start = (LibcStream.new 2 (λ i. []), socket)

start-IsGood : IsGood start
start-IsGood = new-IsGood 2 (λ i. []) socket (omega arith) (omega arith)

abbrev script : List Read
script = exact 3 ∷ into 4 ∷ exact 2 ∷ []

answers :
    reads script (1 ∷ 2 ∷ 3 ∷ 4 ∷ 5 ∷ 6 ∷ 7 ∷ 8 ∷ []) eof
    ≡ ok (1 ∷ 2 ∷ 3 ∷ []) ∷ ok (4 ∷ 5 ∷ 6 ∷ 7 ∷ []) ∷ throw closed_mid_message ∷ []
answers = refl

run_refines_example :
    run libc_stream script new start ≡ reads script (available libc_stream new start) eof
run_refines_example = run_refines libc_stream script new start start-IsGood

read_exact_lem_example :
    Succeeds libc_stream 3
      (available libc_stream new start)
      eof
      (read_exact libc_stream 3 new start)
    ⊎ Fails libc_stream 3 (available libc_stream new start) eof (read_exact libc_stream 3 new start)
read_exact_lem_example = read_exact_lem libc_stream 3 new start start-IsGood
