-- ===== src/Constructor/Tests.antt =====
-- Runs of the connection keeper of src/constructor.rs at small inputs.
use murmel.Common.{◌≡◌, refl, some, [], ◌∷◌}
use murmel.Constructor.{KeepConnected, contains, eligible, poll}
use murmel.Constructor.Keeping.{Chosen, poll-Chosen}

abbrev keeper : KeepConnected
keeper = record { dns = 4 ∷ 5 ∷ 6 ∷ []; earlier = 5 ∷ []; min_connections = 2 }

-- The second of the two that were not tried.
chosen : (poll keeper 1 3).1 ≡ some 6
unfolding poll eligible contains
chosen = refl

poll-Chosen_example : Chosen keeper 1 (poll keeper 1 3)
poll-Chosen_example = poll-Chosen keeper 1 3
