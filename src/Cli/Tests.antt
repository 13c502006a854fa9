-- ===== src/Cli/Tests.antt =====
-- main.cpp: `--bind ::1:80 --file d`.
use easybd.Base.{ℕ, ◌≡◌, refl, List, [], ◌∷◌, ◌++◌, true, false, none}
use easybd.Cli.{Config, Opt, bind, file, parse_bind_addr, goes_on, main}
use easybd.System.{libc}
use easybd.Cli.Checked.{IsRunnable, main-IsRunnable}

-- "::1" and "80"
abbrev host : List ℕ
host = 58 ∷ 58 ∷ 49 ∷ []

abbrev port : List ℕ
port = 56 ∷ 48 ∷ []

abbrev config : Config
config = record {
  bind_host = host;
  bind_port = 80;
  file_path = 100 ∷ [];
  backend = libc;
  queue_depth = 128;
  threads = 4;
  multishot_recv = false;
  direct_io = true;
}

abbrev args : List Opt
args = bind (host ++ 58 ∷ port) ∷ file (100 ∷ []) ∷ []

ran : main false 4 false args ≡ goes_on config
unfolding main
ran = refl

no_port : parse_bind_addr (host ++ 58 ∷ []) ≡ none
unfolding parse_bind_addr
no_port = refl

main-IsRunnable_example : IsRunnable false config
main-IsRunnable_example = main-IsRunnable false 4 false args config ran
