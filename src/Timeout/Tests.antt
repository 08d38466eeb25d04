-- ===== src/Timeout/Tests.antt =====
-- Runs of the timeouts at small inputs.
use murmel.Common.{ℕ, ◌<◌, ◌≡◌, refl, true, [], ◌∷◌, inl, In}
use murmel.Common.Map
use murmel.Network.{PeerId, PeerId-Eq}
use murmel.Network
use murmel.Timeout.{
  Timeout, ExpectedReply, ExpectedReply-Eq, pong, new, expect, owed, check, late, bans, owes_any,
}
use murmel.Timeout.Check.{OnClock}
use murmel.Timeout.Bans.{expects, receives, checks, calls, calls-OnClock, check-bans, IsForgotten}

abbrev pid : PeerId
pid = record { network = "bitcoin"; token = 3 }

-- A peer that owes a pong until second 60.
abbrev waiting : Timeout ExpectedReply
waiting = record { timeouts = (pid, 60) ∷ []; expected = (pid, (pong, 1) ∷ []) ∷ [] }

expect-waiting : expect new 0 pid 1 pong ≡ waiting
unfolding expect new Map.get Map.insert
expect-waiting = refl

calls-OnClock_example :
    OnClock (calls new (expects 0 pid 1 pong ∷ receives 5 pid 1 pong ∷ checks 61 (pong ∷ []) ∷ []))
calls-OnClock_example =
    calls-OnClock (expects 0 pid 1 pong ∷ receives 5 pid 1 pong ∷ checks 61 (pong ∷ []) ∷ [])

pid_banned : In (Network.ban pid 100) (check {Message = ℕ} waiting 61 (pong ∷ [])).1
unfolding check late bans owed Map.get
pid_banned = inl refl

check-bans_example :
    ((limit : ℕ) × In (pid, limit) waiting.timeouts
      × (limit < 61)
      × (owes_any waiting pid (pong ∷ []) ≡ true))
    × IsForgotten (check {Message = ℕ} waiting 61 (pong ∷ [])).0 pid
check-bans_example = check-bans ℕ waiting 61 (pong ∷ []) pid 100 pid_banned
