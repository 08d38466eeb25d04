-- ===== src/Ping/Tests.antt =====
-- A run of the ping loop at small inputs.
use murmel.Common.{◌≡◌, refl, List, [], ◌∷◌, inl, inr, In, arith}
use murmel.Common.Map
use murmel.Network.{PeerId, PeerId-Eq}
use murmel.Network
use murmel.Messages
use murmel.Timeout.{Timeout, ExpectedReply, ExpectedReply-Eq, pong, headers, owed, is_busy}
use murmel.Timeout
use murmel.Timeout.Check.{OnClock}
use murmel.Timeout.Bans.{expects, call}
use murmel.Ping.{
  Event, message, pause, shared, new, on_pong, on_message, ask, ask_all, on_pause, run,
}
use murmel.Ping.Fair.{IsForeign, IsFair, run-IsFair}

abbrev pid : PeerId
pid = record { network = "bitcoin"; token = 3 }

abbrev nothing : Timeout ExpectedReply
nothing = record { timeouts = []; expected = [] }

nothing-OnClock : OnClock nothing
unfolding owed Map.get
nothing-OnClock q w h = absurd (omega (arith, h))

nothing-owed : (q : PeerId) → owed nothing q pong ≡ 0
unfolding owed Map.get
nothing-owed q = refl

-- The peer is pinged, answers, is pinged again and stays silent, while headers are asked for.
abbrev events : List Event
events =
    pause 100 ((pid, 7) ∷ [])
    ∷ message 101 (Network.incoming pid (Messages.pong 7))
    ∷ pause 160 ((pid, 8) ∷ [])
    ∷ shared (expects 161 pid 1 headers)
    ∷ pause 300 []
    ∷ []

events-IsForeign : (e : Event) → In e events → IsForeign e
events-IsForeign e (inl h) = rw (← h) tt
events-IsForeign e (inr (inl h)) = rw (← h) tt
events-IsForeign e (inr (inr (inl h))) = rw (← h) tt
events-IsForeign e (inr (inr (inr (inl h)))) = rw (← h) (λ q. cc)
events-IsForeign e (inr (inr (inr (inr (inl h))))) = rw (← h) tt
events-IsForeign e (inr (inr (inr (inr (inr z))))) = absurd z

-- The silent peer is banned.
ran :
    (run (new nothing) events).controls
    ≡ Network.send pid (Messages.ping 7)
      ∷ Network.send pid (Messages.ping 8)
      ∷ Network.ban pid 100
      ∷ []
unfolding run new on_pause on_message on_pong ask_all ask Timeout.check Timeout.late Timeout.bans
    Timeout.expect Timeout.received Timeout.extend Timeout.settle_entry Timeout.forget
    Timeout.forget_all owed is_busy call Map.get Map.insert Map.remove
ran = refl

run-IsFair_example : IsFair (run (new nothing) events)
run-IsFair_example = run-IsFair nothing events nothing-OnClock nothing-owed events-IsForeign
