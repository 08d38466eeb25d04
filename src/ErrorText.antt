-- ===== src/ErrorText.antt =====
-- The texts of src/error.rs, and its conversions from and to errors of other crates.
use Prim.Native.String.{String, ◌++◌ as joined}
use murmel.Common.{◌≡◌, refl, Option, none, some}
use murmel.Outcome.{
  Foreign, Error, spv_bad_target, spv_bad_proof_of_work, unconnected_header, no_tip, no_peers,
  unknown_utxo, bad_merkle_root, handshake, downstream, lost, io, util, serialize, hammersbald,
}

unfoldable pub description : Error → String
description spv_bad_target = "bad proof of work target"
description spv_bad_proof_of_work = "bad proof of work"
description unconnected_header = "unconnected header"
description no_tip = "no chain tip found"
description unknown_utxo = "unknown utxo"
description no_peers = "no peers"
description bad_merkle_root = "merkle root of header does not match transaction list"
description (downstream s) = s
description (io e) = e.description
description (util e) = e.description
description (hammersbald e) = e.description
description (serialize e) = e.description
description handshake = "handshake"
description (lost s) = s

unfoldable pub source : Error → Option Foreign
source spv_bad_target = none
source spv_bad_proof_of_work = none
source unconnected_header = none
source no_tip = none
source no_peers = none
source unknown_utxo = none
source (downstream s) = none
source bad_merkle_root = none
source (io e) = some e
source (util e) = some e
source (hammersbald e) = some e
source (serialize e) = some e
source handshake = none
source (lost s) = none

-- `Display`, and `Debug`.
unfoldable pub display : Error → String
unfolding description
display (io e) = joined "IO error: " e.display
display (util e) = joined "Util error: " e.display
display (hammersbald e) = joined "Hammersbald error: " e.display
display (serialize e) = joined "Serialize error: " e.display
display (lost s) = s
display (downstream s) = s
display spv_bad_target = description spv_bad_target
display spv_bad_proof_of_work = description spv_bad_proof_of_work
display unconnected_header = description unconnected_header
display no_tip = description no_tip
display no_peers = description no_peers
display bad_merkle_root = description bad_merkle_root
display handshake = description handshake
display unknown_utxo = description unknown_utxo

-- `io::Error` from an error: the one it wraps, or one made of the description.
unfoldable pub into_io : (String → Foreign) → Error → Foreign
unfolding description
into_io other (io e) = e
into_io other spv_bad_target = other (description spv_bad_target)
into_io other spv_bad_proof_of_work = other (description spv_bad_proof_of_work)
into_io other unconnected_header = other (description unconnected_header)
into_io other no_tip = other (description no_tip)
into_io other no_peers = other (description no_peers)
into_io other unknown_utxo = other (description unknown_utxo)
into_io other bad_merkle_root = other (description bad_merkle_root)
into_io other handshake = other (description handshake)
into_io other (downstream s) = other (description (downstream s))
into_io other (lost s) = other (description (lost s))
into_io other (util e) = other (description (util e))
into_io other (serialize e) = other (description (serialize e))
into_io other (hammersbald e) = other (description (hammersbald e))

-- `bip158::Error`.
pub data Bip158Error : Type 0 where
  io_error : Foreign → Bip158Error
  utxo_missing : Foreign → Bip158Error

-- The conversions of the errors of other crates.
unfoldable pub from_io : Foreign → Error
from_io e = io e

unfoldable pub from_util : Foreign → Error
from_util e = util e

unfoldable pub from_hammersbald : Foreign → Error
from_hammersbald e = hammersbald e

unfoldable pub from_encode : Foreign → Error
from_encode e = serialize e

unfoldable pub from_box : Foreign → Error
from_box e = downstream e.description

unfoldable pub from_bip158 : Bip158Error → Error
from_bip158 (io_error e) = io e
from_bip158 (utxo_missing e) = unknown_utxo

-- Converting an error of another crate keeps its description, and an IO error that is converted comes
-- back as it was.
pub into_io-from_io :
    (other : String → Foreign) (e : Foreign)
    → (into_io other (from_io e) ≡ e)
      × (into_io other (from_bip158 (io_error e)) ≡ e)
      × (into_io other (from_util e) ≡ other e.description)
      × (into_io other (from_hammersbald e) ≡ other e.description)
      × (into_io other (from_encode e) ≡ other e.description)
      × (into_io other (from_box e) ≡ other e.description)
unfolding into_io description from_io from_bip158 from_util from_hammersbald from_encode from_box
into_io-from_io other e = (refl, refl, refl, refl, refl, refl)

-- An error without a source displays as its description.
pub display-description : (e : Error) → source e ≡ none → display e ≡ description e
unfolding display source description
display-description spv_bad_target h = refl
display-description spv_bad_proof_of_work h = refl
display-description unconnected_header h = refl
display-description no_tip h = refl
display-description no_peers h = refl
display-description unknown_utxo h = refl
display-description bad_merkle_root h = refl
display-description handshake h = refl
display-description (downstream s) h = refl
display-description (lost s) h = refl
display-description (io e) h = absurd (cc)
display-description (util e) h = absurd (cc)
display-description (serialize e) h = absurd (cc)
display-description (hammersbald e) h = absurd (cc)
