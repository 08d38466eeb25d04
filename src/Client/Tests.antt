-- ===== src/Client/Tests.antt =====
-- Runs of the client in src/bin/client.rs at small command lines.
use Prim.Native.String.{String}
use murmel.Common.{ℕ, ◌≡◌, refl, false, Option, none, some, List, [], ◌∷◌, String-Eq}
use murmel.External.{testnet}
use murmel.Outcome.{ok, panic}
use murmel.Client.{
  is_key, split_off, key_args, values_of, val_args, zip, zipped_args, contains, find_opt, first_of,
  find_arg, all_of, find_args, debug, level_of, network_of, parsed, addresses, get_peers,
  get_listeners, or_localhost, number_or, birth_of, db_of, main,
}
use murmel.Client.Pairs.{zipped_args-flag}

abbrev seven : String → Option ℕ
seven s = some 7

abbrev command : List String
command = "murmel" ∷ "--network" ∷ "test" ∷ "--peer" ∷ "1.2.3.4:18333" ∷ "--connections" ∷ "3" ∷ []

chosen :
    main seven seven 1 command
    ≡ ok (
        some (record {
          level = debug;
          network = testnet;
          peers = 7 ∷ [];
          connections = 7;
          listen = [];
          birth = none;
          db = "client.db";
        }))
unfolding main is_key split_off key_args values_of val_args zip zipped_args contains find_opt
    first_of find_arg all_of find_args level_of network_of parsed addresses get_peers get_listeners
    or_localhost number_or birth_of db_of
chosen = refl

-- An address that does not parse is a panic.
bad_peer : main (λ s. none) seven 1 command ≡ panic
unfolding main is_key split_off key_args values_of val_args zip zipped_args contains find_opt
    first_of find_arg all_of find_args parsed addresses get_peers
bad_peer = refl

plain_program : is_key "murmel" ≡ false
unfolding is_key
plain_program = refl

plain_value : is_key "test" ≡ false
unfolding is_key
plain_value = refl

zipped_args-flag_example :
    zipped_args
      ("murmel" ∷ "--db" ∷ "test" ∷ "--nodns" ∷ "--network" ∷ "test" ∷ "--peer" ∷ "test" ∷ [])
    ≡ ("db", "test") ∷ ("nodns", "test") ∷ ("network", "test") ∷ []
zipped_args-flag_example =
    zipped_args-flag "murmel" (("db", "test") ∷ []) "nodns"
      (("network", "test") ∷ ("peer", "test") ∷ []) plain_program (plain_value, tt)
      (plain_value, (plain_value, tt))
