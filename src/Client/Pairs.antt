-- ===== src/Client/Pairs.antt =====
-- How the client in src/bin/client.rs pairs keys and values.
use Prim.Native.String.{String}
use murmel.Common.{◌≡◌, refl, ap, false, List, [], ◌∷◌, ◌++◌}
use murmel.Client.{is_key, split_off, key_args, values_of, val_args, zip, zipped_args}

-- `--` and a name.
abbrev pub dashes : String → String
dashes key = String.◌∷◌ "-" (String.◌∷◌ "-" key)

-- A command line of options that have a value each.
abbrev options : List (String × String) → List String
options [] = []
options ((k, v) ∷ kvs) = dashes k ∷ v ∷ options kvs

-- No value begins with `--`.
abbrev ArePlain : List (String × String) → Type 0
ArePlain [] = Unit
ArePlain ((k, v) ∷ kvs) = (is_key v ≡ false) × ArePlain kvs

keys-options :
    (kvs : List (String × String))
    → ArePlain kvs
    → zip (key_args (options kvs)) (values_of (options kvs)) ≡ kvs
unfolding key_args values_of zip is_key split_off
keys-options [] p = refl
keys-options ((k, v) ∷ kvs) (p, ps) = rw p (ap ((k, v) ∷◌) (keys-options kvs ps))

-- If the name of the program does not begin with `--`, and no value does, then the pairs that the
-- client reads from options with one value each are exactly those on the command line, in order.
zipped_args-options :
    (program : String) (kvs : List (String × String))
    → is_key program ≡ false
    → ArePlain kvs
    → zipped_args (program ∷ options kvs) ≡ kvs
unfolding zipped_args key_args val_args
zipped_args-options program kvs n p = rw n (keys-options kvs p)

-- The pairs if an option without a value stands before options that have one each: every value is taken
-- for the key before its own.
abbrev pub shifted : String → List (String × String) → List (String × String)
shifted flag [] = []
shifted flag ((k, v) ∷ kvs) = (flag, v) ∷ shifted k kvs

keys-flag :
    (flag : String) (kvs : List (String × String))
    → ArePlain kvs
    → zip (flag ∷ key_args (options kvs)) (values_of (options kvs)) ≡ shifted flag kvs
unfolding key_args values_of zip is_key split_off
keys-flag flag [] p = refl
keys-flag flag ((k, v) ∷ kvs) (p, ps) = rw p (ap ((flag, v) ∷◌) (keys-flag k kvs ps))

pairs-flag :
    (before : List (String × String)) (flag : String) (behind : List (String × String))
    → ArePlain before
    → ArePlain behind
    → let args = options before ++ dashes flag ∷ options behind in
      zip (key_args args) (values_of args) ≡ before ++ shifted flag behind
unfolding key_args values_of zip is_key split_off
pairs-flag [] flag behind p q = keys-flag flag behind q
pairs-flag ((k, v) ∷ before) flag behind (p, ps) q =
    rw p (ap ((k, v) ∷◌) (pairs-flag before flag behind ps q))

-- On a command line of options with one value each and, among them, one option without a value, as
-- `--nodns`, the client reads the options before it as they are; but it takes for that option the value
-- of the one behind it, and for each later option the value of the next, and the last one is left with
-- none. Neither the program's name nor a value begins with `--`.
pub zipped_args-flag :
    (program : String) (before : List (String × String)) (flag : String)
    (behind : List (String × String))
    → is_key program ≡ false
    → ArePlain before
    → ArePlain behind
    → zipped_args (program ∷ (options before ++ dashes flag ∷ options behind))
      ≡ before ++ shifted flag behind
unfolding zipped_args key_args val_args
zipped_args-flag program before flag behind n p q = rw n (pairs-flag before flag behind p q)
