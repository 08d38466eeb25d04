-- ===== src/Client.antt =====
-- The command line client, src/bin/client.rs: how it reads its arguments, and what it chooses by them.
-- `args` is the whole command line, the program's name first. Parsing of numbers and addresses is an
-- argument; an `unwrap` of its error panics.
use Prim.Native.Char.{code}
use Prim.Native.String.{String}
use murmel.Common.{
  ℕ, Bool, true, false, not, ◌&&◌, Option, none, some, List, [], ◌∷◌, nat_eq, ◌==◌, String-Eq,
  if◌then◌else◌,
}
use murmel.External.{Network, bitcoin, testnet}
use murmel.Outcome.{Outcome, ok, panic, ◌>>=◌}
pub mod Pairs
pub mod Tests

-- `starts_with("--")`.
unfoldable pub is_key : String → Bool
is_key (String.◌∷◌ c (String.◌∷◌ d s)) = nat_eq (code c) b'-' && nat_eq (code d) b'-'
is_key (String.◌∷◌ c String.[]) = false
is_key String.[] = false

-- `split_off(2)`.
unfoldable pub split_off : String → String
split_off (String.◌∷◌ c (String.◌∷◌ d s)) = s
split_off (String.◌∷◌ c String.[]) = ""
split_off String.[] = ""

unfoldable pub key_args : List String → List String
key_args [] = []
key_args (arg ∷ args) =
    let rest = key_args args in if is_key arg then split_off arg ∷ rest else rest

unfoldable pub values_of : List String → List String
values_of [] = []
values_of (arg ∷ args) = let rest = values_of args in if is_key arg then rest else arg ∷ rest

-- `skip(1)`.
unfoldable pub val_args : List String → List String
val_args [] = []
val_args (program ∷ args) = values_of args

unfoldable pub zip : List String → List String → List (String × String)
zip [] vs = []
zip (k ∷ ks) [] = []
zip (k ∷ ks) (v ∷ vs) = (k, v) ∷ zip ks vs

unfoldable pub zipped_args : List String → List (String × String)
zipped_args args = zip (key_args args) (val_args args)

unfoldable pub contains : List String → String → Bool
contains [] key = false
contains (k ∷ ks) key = if k == key then true else contains ks key

unfoldable pub find_opt : List String → String → Bool
find_opt args key = contains (key_args args) key

unfoldable pub first_of : List (String × String) → String → Option String
first_of [] key = none
first_of ((k, v) ∷ kvs) key = if k == key then some v else first_of kvs key

unfoldable pub find_arg : List String → String → Option String
find_arg args key = first_of (zipped_args args) key

unfoldable pub all_of : List (String × String) → String → List String
all_of [] key = []
all_of ((k, v) ∷ kvs) key = let rest = all_of kvs key in if k == key then v ∷ rest else rest

unfoldable pub find_args : List String → String → List String
find_args args key = all_of (zipped_args args) key

pub data Level : Type 0 where
  error warn info debug trace : Level

-- What `main` starts the node with; `birth` is `none` for the time of the start.
pub record Choices : Type 0 where
  pub level : Level
  pub network : Network
  pub peers : List ℕ
  pub connections : ℕ
  pub listen : List ℕ
  pub birth : Option ℕ
  pub db : String

unfoldable pub level_of : Option String → Level
level_of none = debug
level_of (some l) =
    if l == "error"
    then error
    else if l == "warn"
    then warn
    else if l == "info"
    then info
    else if l == "debug"
    then debug
    else if l == "trace"
    then trace
    else info

unfoldable pub network_of : Option String → Network
network_of none = bitcoin
network_of (some n) = if n == "main" then bitcoin else if n == "test" then testnet else bitcoin

module _ (socket_addr number : String → Option ℕ) (localhost : ℕ) where
  -- `unwrap`.
  unfoldable pub parsed : Option ℕ → Outcome ℕ
  parsed none = panic
  parsed (some n) = ok n

  unfoldable pub addresses : List String → Outcome (List ℕ)
  addresses [] = ok []
  addresses (s ∷ ss) = parsed (socket_addr s) >>= (λ a. addresses ss >>= (λ more. ok (a ∷ more)))

  unfoldable pub get_peers : List String → Outcome (List ℕ)
  get_peers args = addresses (find_args args "peer")

  unfoldable pub get_listeners : List String → Outcome (List ℕ)
  get_listeners args = addresses (find_args args "listen")

  unfoldable pub or_localhost : List ℕ → List ℕ
  or_localhost [] = localhost ∷ []
  or_localhost (a ∷ more) = a ∷ more

  unfoldable pub number_or : Option String → ℕ → Outcome ℕ
  number_or none n = ok n
  number_or (some s) n = parsed (number s)

  unfoldable pub birth_of : Option String → Outcome (Option ℕ)
  birth_of none = ok none
  birth_of (some s) = parsed (number s) >>= (λ t. ok (some t))

  unfoldable pub db_of : Option String → String
  db_of none = "client.db"
  db_of (some path) = path

  -- `main`, up to the start of the node; `none` after `--help`.
  unfoldable pub main : List String → Outcome (Option Choices)
  main args =
      if find_opt args "help"
      then ok none
      else get_peers args >>= (λ peers.
        number_or (find_arg args "connections") 1 >>= (λ connections.
          get_listeners args >>= (λ listen. birth_of (find_arg args "birth") >>= (λ birth. ok (
            some (record {
              level = level_of (find_arg args "log");
              network = network_of (find_arg args "network");
              peers = or_localhost peers;
              connections = connections;
              listen = listen;
              birth = birth;
              db = db_of (find_arg args "db");
            }))))))
