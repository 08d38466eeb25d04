-- ===== src/Timeout.antt =====
-- `Timeout` of src/timeout.rs: which peers owe replies, and until when. The time is an argument. A
-- call returns the new state; `check` also returns the bans it sends to the network layer.
pub mod Laws
pub mod Check
pub mod Bans
pub mod Tests
use murmel.Common.{
  ℕ, ◌+◌, ◌-◌, ◌≡◌, refl, sym, ap, ◌∙◌, ◌↔◌, min, Bool, true, false, Option, none, some, List, [],
  ◌∷◌, ◌++◌, ltb, nat_eq, is_some, if◌then◌else◌, Eq, ◌==◌, arith, ◌&&◌,
}
use murmel.Common.Map
use murmel.Network.{PeerId, PeerId-Eq, P2PControl}
use murmel.Network

-- `TIMEOUT`.
abbrev pub timeout_seconds : ℕ
timeout_seconds = 60

pub data ExpectedReply : Type 0 where
  block headers pong filter_header filter_checkpoints filter : ExpectedReply

abbrev pub number : ExpectedReply → ℕ
number block = 0
number headers = 1
number pong = 2
number filter_header = 3
number filter_checkpoints = 4
number filter = 5

-- The reply with a number.
abbrev pub reply : ℕ → ExpectedReply
reply n =
    if nat_eq n 0
    then block
    else if nat_eq n 1
    then headers
    else if nat_eq n 2
    then pong
    else if nat_eq n 3
    then filter_header
    else if nat_eq n 4
    then filter_checkpoints
    else filter

pub reply-number : (a : ExpectedReply) → reply (number a) ≡ a
reply-number block = refl
reply-number headers = refl
reply-number pong = refl
reply-number filter_header = refl
reply-number filter_checkpoints = refl
reply-number filter = refl

pub number_injective : (a b : ExpectedReply) → number a ≡ number b → a ≡ b
number_injective a b h = sym (reply-number a) ∙ (ap reply h ∙ reply-number b)

pub reply_eq_iff : (a b : ExpectedReply) → (nat_eq (number a) (number b) ≡ true) ↔ (a ≡ b)
reply_eq_iff a b = (λ h. number_injective a b (ground (arith, h)), λ h. rw h (ground arith))

instance abbrev pub ExpectedReply-Eq : Eq ExpectedReply
ExpectedReply-Eq = record { beq = λ a b. nat_eq (number a) (number b); beq_iff = reply_eq_iff }

pub record Timeout (Reply : Type 0) : Type 0 where
  pub timeouts : List (PeerId × ℕ)
  pub expected : List (PeerId × List (Reply × ℕ))

-- `entry(k).or_insert(v)`: the value found, or the one put in.
abbrev pub or_insert {ℓ} : {A : Type ℓ} → Option A → A → A
or_insert none a = a
or_insert (some b) a = b

-- `P2PControl::Ban` of each peer.
unfoldable pub bans : {Message : Type 0} → List PeerId → List (P2PControl Message)
bans [] = []
bans (p ∷ ps) = Network.ban p 100 ∷ bans ps

module _ {Reply : Type 0} ⦃r : Eq Reply⦄ where
  unfoldable pub new : Timeout Reply
  new = record { timeouts = []; expected = [] }

  unfoldable pub forget : Timeout Reply → PeerId → Timeout Reply
  forget t peer = record {
    timeouts = Map.remove t.timeouts peer;
    expected = Map.remove t.expected peer;
  }

  unfoldable pub expect : Timeout Reply → ℕ → PeerId → ℕ → Reply → Timeout Reply
  expect t now peer n what =
      let entry = or_insert (Map.get t.expected peer) [] in
      record {
        timeouts = Map.insert t.timeouts peer (now + timeout_seconds);
        expected =
            Map.insert t.expected peer
              (Map.insert entry what (or_insert (Map.get entry what) 0 + n));
      }

  -- How many replies of a kind a peer owes.
  unfoldable pub owed : Timeout Reply → PeerId → Reply → ℕ
  owed t peer what = or_insert (Map.get (or_insert (Map.get t.expected peer) []) what) 0

  abbrev pub all_zero : List (Reply × ℕ) → Bool
  all_zero [] = true
  all_zero ((k, n) ∷ m) = nat_eq n 0 && all_zero m

  -- The first block of `received`: a reply that was owed extends the time.
  unfoldable pub extend : Timeout Reply → ℕ → PeerId → Reply → Timeout Reply
  unfolding owed
  extend t now peer what =
      if ltb 0 (owed t peer what)
      then record t { timeouts = Map.insert t.timeouts peer (now + timeout_seconds) }
      else t

  -- The entry of the peer after the second block.
  unfoldable pub settle_entry : Timeout Reply → PeerId → ℕ → Reply → List (Reply × ℕ)
  settle_entry t peer n what =
      let entry = or_insert (Map.get t.expected peer) [] in
      let m = or_insert (Map.get entry what) n in Map.insert entry what (m - min n m)

  unfoldable pub received : Timeout Reply → ℕ → PeerId → ℕ → Reply → Timeout Reply
  unfolding extend settle_entry
  received t now peer n what =
      let e = extend t now peer what in
      let entry = settle_entry t peer n what in
      record {
        timeouts = if all_zero entry then Map.remove e.timeouts peer else e.timeouts;
        expected = Map.insert e.expected peer entry;
      }

  unfoldable pub is_busy : Timeout Reply → PeerId → Bool
  is_busy t peer = is_some (Map.get t.timeouts peer)

  unfoldable pub is_busy_with : Timeout Reply → PeerId → Reply → Bool
  unfolding owed
  is_busy_with t peer what =
      if is_some (Map.get t.timeouts peer) then ltb 0 (owed t peer what) else false

  abbrev pub owes_any : Timeout Reply → PeerId → List Reply → Bool
  owes_any t peer [] = false
  owes_any t peer (what ∷ ws) = if ltb 0 (owed t peer what) then true else owes_any t peer ws

  -- The peers that are too late.
  unfoldable pub late : Timeout Reply → ℕ → List Reply → List (PeerId × ℕ) → List PeerId
  unfolding owed
  late t now ws [] = []
  late t now ws ((peer, timeout) ∷ ps) =
      let rest = late t now ws ps in
      if ltb timeout now then (if owes_any t peer ws then peer ∷ rest else rest) else rest

  unfoldable pub forget_all : Timeout Reply → List PeerId → Timeout Reply
  unfolding forget
  forget_all t [] = t
  forget_all t (p ∷ ps) = forget_all (forget t p) ps

  unfoldable pub check :
      {Message : Type 0}
      → Timeout Reply
      → ℕ
      → List Reply
      → Timeout Reply × List (P2PControl Message)
  unfolding late forget_all bans
  check t now ws = let banned = late t now ws t.timeouts in (forget_all t banned, bans banned)
