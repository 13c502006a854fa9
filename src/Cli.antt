-- ===== src/Cli.antt =====
-- server/main.cpp: the command line of the server. Text is a list of bytes; what getopt_long finds is
-- the list of the options with their arguments.
pub mod Checked
mod Tests
use easybd.System.{Backend, io_uring, libc}
use easybd.Base.{
  ℕ, zero, suc, ◌+◌, ◌-◌, ◌*◌, ◌%◌, ◌^◌, min, List, [], ◌∷◌, ◌++◌, Bool, true, false, not, ◌&&◌,
  ◌||◌, ltb, leb, ◌==◌, if◌then◌else◌, Option, none, some, is_empty,
}

-- `ServerConfig`
pub record Config : Type 0 where
  pub bind_host : List ℕ
  pub bind_port : ℕ
  pub file_path : List ℕ
  pub backend : Backend
  pub queue_depth : ℕ
  pub threads : ℕ
  pub multishot_recv : Bool
  pub direct_io : Bool

-- `isdigit`
abbrev pub is_digit : ℕ → Bool
is_digit c = leb 48 c && leb c 57

abbrev pub all_digits : List ℕ → Bool
all_digits [] = true
all_digits (c ∷ cs) = is_digit c && all_digits cs

-- The value of digits in base 10, behind the value `n` of those before them.
abbrev pub digits_value : ℕ → List ℕ → ℕ
digits_value n [] = n
digits_value n (c ∷ cs) = digits_value (10 * n + (c - 48)) cs

-- `std::strtol` on digits: values above LONG_MAX are LONG_MAX.
abbrev pub strtol : List ℕ → ℕ
strtol cs = min (digits_value 0 cs) (2 ^ 63 - 1)

-- `s.rfind(':')` with the text before and behind it.
pub split_last : List ℕ → Option (List ℕ × List ℕ)
split_last [] = none
split_last (c ∷ cs) = elim (split_last cs) [
  | some (host, port) ↦ some (c ∷ host, port)
  | none ↦ if c == 58 then some ([], cs) else none
]

-- The checks of `parse_bind_addr` on a host and a port.
abbrev pub check_addr : List ℕ → List ℕ → Option (List ℕ × ℕ)
check_addr host port =
    if is_empty host || is_empty port
    then none
    else if not (all_digits port)
    then none
    else if strtol port == 0 || ltb 65535 (strtol port)
    then none
    else some (host, strtol port)

-- `parse_bind_addr`; none is `std::invalid_argument`, here and below.
pub parse_bind_addr : List ℕ → Option (List ℕ × ℕ)
unfolding split_last
parse_bind_addr s = elim (split_last s) [ none ↦ none | some (host, port) ↦ check_addr host port ]

abbrev pub equal_bytes : List ℕ → List ℕ → Bool
equal_bytes [] [] = true
equal_bytes [] (y ∷ ys) = false
equal_bytes (x ∷ xs) [] = false
equal_bytes (x ∷ xs) (y ∷ ys) = x == y && equal_bytes xs ys

-- "io_uring" and "libc"
abbrev pub io_uring_name : List ℕ
io_uring_name = 105 ∷ 111 ∷ 95 ∷ 117 ∷ 114 ∷ 105 ∷ 110 ∷ 103 ∷ []

abbrev pub libc_name : List ℕ
libc_name = 108 ∷ 105 ∷ 98 ∷ 99 ∷ []

-- `parse_queue_type`, where `available` is `easyio::io_uring_available()`.
abbrev pub parse_queue_type : Bool → List ℕ → Option Backend
parse_queue_type available s =
    if equal_bytes s io_uring_name
    then (if not available then none else some io_uring)
    else if equal_bytes s libc_name
    then some libc
    else none

-- `parse_direct`: "1" or "0".
abbrev pub parse_direct : List ℕ → Option Bool
parse_direct s =
    if equal_bytes s (49 ∷ [])
    then some true
    else if equal_bytes s (48 ∷ [])
    then some false
    else none

-- An option that `getopt_long` returned, with `optarg`; `numeric` arguments went through `strtoul` and
-- the cast to `unsigned int`.
pub data Opt : Type 0 where
  bind file queue_type direct : List ℕ → Opt
  queue_depth threads : ℕ → Opt
  feature_multishot help version unknown : Opt

-- The variables of `main`.
pub record State : Type 0 where
  pub config : Config
  pub have_bind : Bool
  pub have_file : Bool

-- `main` goes on, or returns an exit status.
pub data Flow {ℓ} (A : Type ℓ) : Type ℓ where
  goes_on : A → Flow A
  exits : ℕ → Flow A

-- An exception of a parser ends `main` with 1.
abbrev pub or_exit : Option State → Flow State
or_exit none = exits 1
or_exit (some s) = goes_on s

abbrev pub with_bind : State → Option (List ℕ × ℕ) → Option State
with_bind s none = none
with_bind s (some (host, port)) =
    some (record s {
      config = record s.config { bind_host = host; bind_port = port };
      have_bind = true;
    })

abbrev pub with_backend : State → Option Backend → Option State
with_backend s none = none
with_backend s (some b) = some (record s { config = record s.config { backend = b } })

abbrev pub with_direct : State → Option Bool → Option State
with_direct s none = none
with_direct s (some d) = some (record s { config = record s.config { direct_io = d } })

-- The `switch`.
pub option : Bool → Opt → State → Flow State
unfolding parse_bind_addr
option available (bind arg) s = or_exit (with_bind s (parse_bind_addr arg))
option available (file arg) s =
    goes_on (record s { config = record s.config { file_path = arg }; have_file = true })
option available (queue_type arg) s = or_exit (with_backend s (parse_queue_type available arg))
option available (queue_depth n) s =
    goes_on (record s { config = record s.config { queue_depth = n } })
option available (threads n) s = goes_on (record s { config = record s.config { threads = n } })
option available feature_multishot s =
    goes_on (record s { config = record s.config { multishot_recv = true } })
option available (direct arg) s = or_exit (with_direct s (parse_direct arg))
option available help s = exits 0
option available version s = exits 0
option available unknown s = exits 2

-- The `while` loop.
pub options : Bool → List Opt → State → Flow State
unfolding option
options available [] s = goes_on s
options available (o ∷ os) s = elim (option available o s) [
  | goes_on s' ↦ options available os s'
  | exits code ↦ exits code
]

-- The checks behind the loop, where `positional` is `optind < argc`: the configuration that
-- `run_server` gets.
pub check : Bool → State → Flow Config
check positional s =
    if positional
    then exits 2
    else if not s.have_bind || not s.have_file
    then exits 2
    else if s.config.threads == 0
    then exits 2
    else goes_on s.config

abbrev pub default_backend : Bool → Backend
default_backend available = if available then io_uring else libc

-- The start of `main`, where `cores` is `std::thread::hardware_concurrency()`.
abbrev pub start : Bool → ℕ → State
start available cores = record {
  config = record {
    bind_host = [];
    bind_port = 0;
    file_path = [];
    backend = default_backend available;
    queue_depth = 128;
    threads = if ltb cores 1 then 1 else cores;
    multishot_recv = false;
    direct_io = true;
  };
  have_bind = false;
  have_file = false;
}

-- `main`, up to the call of `run_server`.
pub main : Bool → ℕ → Bool → List Opt → Flow Config
unfolding options check
main available cores positional os = elim (options available os (start available cores)) [
  | goes_on s ↦ check positional s
  | exits code ↦ exits code
]
