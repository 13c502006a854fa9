-- ===== src/Cli/Checked.antt =====
-- main.cpp: which configurations `run_server` gets.
use easybd.Base.{
  ℕ, ◌^◌, ◌<◌, ◌≡◌, refl, subst, ◌-◌, inl, inr, min, List, [], ◌∷◌, ◌++◌, Bool, true, false, not,
  ◌||◌, ltb, ◌==◌, Option, none, some, is_empty, arith, Bool-cases,
}
use easybd.System.{Backend, io_uring, libc}
use easybd.Cli.{
  Config, all_digits, digits_value, strtol, split_last, check_addr, parse_bind_addr,
  parse_queue_type, parse_direct, Opt, bind, file, queue_type, direct, queue_depth, threads,
  feature_multishot, help, version, unknown, State, Flow, goes_on, exits, or_exit, with_bind,
  equal_bytes, io_uring_name, libc_name, with_backend, with_direct, option, options, check, start,
  main,
}

abbrev pub is_io_uring : Backend → Bool
is_io_uring io_uring = true
is_io_uring libc = false

-- An address to bind to.
pub record IsAddr (host : List ℕ) (port : ℕ) : Type 0 where
  pub named : is_empty host ≡ false
  pub positive : 0 < port
  pub bounded : port < 2 ^ 16

-- What holds of the variables of `main` in its loop.
record IsParsed (available : Bool) (s : State) : Type 0 where
  bound : s.have_bind ≡ true → IsAddr s.config.bind_host s.config.bind_port
  backend : is_io_uring s.config.backend ≡ true → available ≡ true

-- What holds after a step of the loop, if it goes on.
abbrev GoesOn : {A : Type 0} → (A → Type 0) → Flow A → Type 0
GoesOn P (goes_on a) = P a
GoesOn P (exits code) = Unit {0}

abbrev IsSome : (List ℕ × ℕ → Type 0) → Option (List ℕ × ℕ) → Type 0
IsSome P none = Unit {0}
IsSome P (some a) = P a

check_addr-IsAddr : (host port : List ℕ) → IsSome (λ a. IsAddr a.0 a.1) (check_addr host port)
check_addr-IsAddr host port = elim (Bool-cases (is_empty host || is_empty port)) [
  | inl e ↦ rw e _
  | inr e ↦ elim (Bool-cases (not (all_digits port))) [
    | inl k ↦ rw (e, k) _
    | inr k ↦ elim (Bool-cases (strtol port == 0 || ltb 65535 (strtol port))) [
      | inl b ↦ rw (e, k, b) _
      | inr b ↦
          rw (e, k, b)
            (record {
              named = ground (arith, e);
              positive = ground (arith, b);
              bounded = ground (arith, b);
            })
    ]
  ]
]

parse_bind_addr-IsAddr : (s : List ℕ) → IsSome (λ a. IsAddr a.0 a.1) (parse_bind_addr s)
unfolding parse_bind_addr
parse_bind_addr-IsAddr s = go (split_last s)
  where
    go :
        (o : Option (List ℕ × List ℕ))
        → IsSome
            (λ a. IsAddr a.0 a.1)
            (elim o as (λ x. Option (List ℕ × ℕ)) [
              | none ↦ none
              | some (host, port) ↦ check_addr host port
            ])
    go none = _
    go (some (host, port)) = check_addr-IsAddr host port

with_bind-IsParsed :
    (available : Bool) (s : State) (o : Option (List ℕ × ℕ))
    → IsSome (λ a. IsAddr a.0 a.1) o
    → IsParsed available s
    → GoesOn (IsParsed available) (or_exit (with_bind s o))
with_bind-IsParsed available s none h v = _
with_bind-IsParsed available s (some (host, port)) h v = record {
  bound = λ e. h;
  backend = v.backend;
}

with_backend-IsParsed :
    (available : Bool) (s : State) (arg : List ℕ)
    → IsParsed available s
    → GoesOn (IsParsed available) (or_exit (with_backend s (parse_queue_type available arg)))
with_backend-IsParsed available s arg v = elim (Bool-cases (equal_bytes arg io_uring_name)) [
  | inl e ↦ elim (Bool-cases (not available)) [
    | inl k ↦ rw (e, k) _
    | inr k ↦ rw (e, k) (record { bound = v.bound; backend = λ b. ground (arith, k) })
  ]
  | inr e ↦ elim (Bool-cases (equal_bytes arg libc_name)) [
    | inl k ↦ rw (e, k) (record { bound = v.bound; backend = λ b. ground (arith, b) })
    | inr k ↦ rw (e, k) _
  ]
]

with_direct-IsParsed :
    (available : Bool) (s : State) (o : Option Bool)
    → IsParsed available s
    → GoesOn (IsParsed available) (or_exit (with_direct s o))
with_direct-IsParsed available s none v = _
with_direct-IsParsed available s (some d) v = record { bound = v.bound; backend = v.backend }

option-IsParsed :
    (available : Bool) (o : Opt) (s : State)
    → IsParsed available s
    → GoesOn (IsParsed available) (option available o s)
unfolding option
option-IsParsed available (bind arg) s v =
    with_bind-IsParsed available s (parse_bind_addr arg) (parse_bind_addr-IsAddr arg) v
option-IsParsed available (file arg) s v = record { bound = v.bound; backend = v.backend }
option-IsParsed available (queue_type arg) s v = with_backend-IsParsed available s arg v
option-IsParsed available (queue_depth n) s v = record { bound = v.bound; backend = v.backend }
option-IsParsed available (threads n) s v = record { bound = v.bound; backend = v.backend }
option-IsParsed available feature_multishot s v = record { bound = v.bound; backend = v.backend }
option-IsParsed available (direct arg) s v = with_direct-IsParsed available s (parse_direct arg) v
option-IsParsed available help s v = _
option-IsParsed available version s v = _
option-IsParsed available unknown s v = _

options-IsParsed :
    (available : Bool) (os : List Opt) (s : State)
    → IsParsed available s
    → GoesOn (IsParsed available) (options available os s)
unfolding options
options-IsParsed available [] s v = v
options-IsParsed available (o ∷ os) s v =
    go (option available o s) (option-IsParsed available o s v) (options-IsParsed available os)
  where
    go :
        (f : Flow State)
        → GoesOn (IsParsed available) f
        → ((s' : State)
            → IsParsed available s'
            → GoesOn (IsParsed available) (options available os s'))
        → GoesOn (IsParsed available) (elim f as (λ x. Flow State) [
          | goes_on s' ↦ options available os s'
          | exits code ↦ exits code
        ])
    go (goes_on s') w ih = ih s' w
    go (exits code) w ih = _

-- A configuration that the server can run with.
pub record IsRunnable (available : Bool) (c : Config) : Type 0 where
  pub addr : IsAddr c.bind_host c.bind_port
  pub backend : is_io_uring c.backend ≡ true → available ≡ true
  pub threads : 0 < c.threads

check-IsRunnable :
    (available positional : Bool) (s : State)
    → IsParsed available s
    → GoesOn (IsRunnable available) (check positional s)
unfolding check
check-IsRunnable available true s v = _
check-IsRunnable available false s v = elim (Bool-cases (not s.have_bind || not s.have_file)) [
  | inl e ↦ rw e _
  | inr e ↦ elim (Bool-cases (s.config.threads == 0)) [
    | inl k ↦ rw (e, k) _
    | inr k ↦
        rw (e, k)
          (record {
            addr = v.bound (ground (arith, e));
            backend = v.backend;
            threads = ground (arith, k);
          })
  ]
]

start-IsParsed : (available : Bool) (cores : ℕ) → IsParsed available (start available cores)
start-IsParsed true cores = record { bound = λ e. ground (arith, e); backend = λ e. refl }
start-IsParsed false cores = record {
  bound = λ e. ground (arith, e);
  backend = λ e. ground (arith, e);
}

main-GoesOn :
    (available : Bool) (cores : ℕ) (positional : Bool) (os : List Opt)
    → GoesOn (IsRunnable available) (main available cores positional os)
unfolding main
main-GoesOn available cores positional os =
    go (options available os (start available cores))
      (options-IsParsed available os (start available cores) (start-IsParsed available cores))
  where
    go :
        (f : Flow State)
        → GoesOn (IsParsed available) f
        → GoesOn (IsRunnable available) (elim f as (λ x. Flow Config) [
          | goes_on s ↦ check positional s
          | exits code ↦ exits code
        ])
    go (goes_on s) v = check-IsRunnable available positional s v
    go (exits code) v = _

-- Whatever the options are: the configuration that `main` gives to `run_server` has a host, a port
-- from 1 to 65535 and a worker thread at least, and asks for io_uring only where it is available.
pub main-IsRunnable :
    (available : Bool) (cores : ℕ) (positional : Bool) (os : List Opt) (c : Config)
    → main available cores positional os ≡ goes_on c
    → IsRunnable available c
main-IsRunnable available cores positional os c e =
    subst (GoesOn (IsRunnable available)) e (main-GoesOn available cores positional os)

digits_tail : (c : ℕ) (cs : List ℕ) → all_digits (c ∷ cs) ≡ true → all_digits cs ≡ true
digits_tail c cs d = ground (arith, d)

digit_not_colon : (c : ℕ) (cs : List ℕ) → all_digits (c ∷ cs) ≡ true → (c == 58) ≡ false
digit_not_colon c cs d = ground (arith, d)

split_last-none : (s : List ℕ) → all_digits s ≡ true → split_last s ≡ none
unfolding split_last
split_last-none [] d = refl
split_last-none (c ∷ cs) d =
    rw (split_last-none cs (digits_tail c cs d), split_last, digit_not_colon c cs d) refl

split_last-join :
    (host port : List ℕ)
    → all_digits port ≡ true
    → split_last (host ++ 58 ∷ port) ≡ some (host, port)
unfolding split_last
split_last-join [] port d = rw (split_last-none port d, split_last) refl
split_last-join (c ∷ cs) port d = rw (split_last-join cs port d, split_last) refl

small : (n : ℕ) → n < 2 ^ 16 → min n (2 ^ 63 - 1) ≡ n
small n u = omega arith

in_range : (n : ℕ) → 0 < n → n < 2 ^ 16 → (n == 0 || ltb 65535 n) ≡ false
in_range n l u = ground arith

-- An address that is written as a host, a colon and a port in decimal is read back, whatever colons
-- the host contains, if neither is empty and the port is from 1 to 65535.
pub parse_bind_addr-join :
    (host port : List ℕ)
    → is_empty host ≡ false
    → is_empty port ≡ false
    → all_digits port ≡ true
    → 0 < digits_value 0 port
    → digits_value 0 port < 2 ^ 16
    → parse_bind_addr (host ++ 58 ∷ port) ≡ some (host, digits_value 0 port)
unfolding parse_bind_addr
parse_bind_addr-join host port h p d l u =
    rw (split_last-join host port d, parse_bind_addr, h, p, d, small (digits_value 0 port) u)
      (rw (in_range (digits_value 0 port) l u) refl)
