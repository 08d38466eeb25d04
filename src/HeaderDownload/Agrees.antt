-- ===== src/HeaderDownload/Agrees.antt =====
-- The parts of `HeaderDownload` of src/headerdownload.rs that only ask for headers.
use murmel.Common.{ℕ, ◌≡◌, refl, List, inl, inr, List-cases, Option-cases, Bool-cases}
use murmel.External.{BlockHeader, External, Network}
use murmel.Network.{PeerId, PeerId-Eq}
use murmel.Messages.{Inventory}
use murmel.Timeout
use murmel.Timeout.{ExpectedReply-Eq}
use murmel.HeaderCache.{locator_hashes}
use murmel.ChainDb.{Database}
use murmel.HeaderDownload.{HeaderDownload, Batch, send, finish, get_headers, announces, inv}

-- The store and what was told of it are the same.
abbrev pub Agrees : {D : Type 0} → HeaderDownload D → HeaderDownload D → Type 0
Agrees s r = (r.chaindb ≡ s.chaindb) × (r.downstream ≡ s.downstream)

module _ {D : Type 0} (x : External) (base : Database D)
    (genesis_block : Network → BlockHeader) where
  pub get_headers-Agrees :
      (s : HeaderDownload D) (now : ℕ) (peer : PeerId)
      → Agrees s (get_headers x base genesis_block s now peer)
  unfolding get_headers send
  get_headers-Agrees s now peer =
      elim (Bool-cases (Timeout.is_busy_with s.timeout peer Timeout.headers)) [
        | inl b ↦ rw (b, get_headers) (refl, refl)
        | inr b ↦ elim (List-cases (locator_hashes s.chaindb.headercache)) [
          | inl q ↦ rw (b, get_headers) (rw (q, get_headers) (refl, refl))
          | inr (h, hs, q) ↦ rw (b, get_headers) (rw (q, get_headers) (refl, refl))
        ]
      ]

  pub finish-Agrees :
      (s : HeaderDownload D) (b : Batch D) (now : ℕ) (peer : PeerId)
      → Agrees s (finish x base genesis_block s b now peer)
  unfolding finish send
  finish-Agrees s b now peer = elim (Bool-cases b.some_new) [
    | inl n ↦ elim (Option-cases b.moved_tip) [
      | inl m ↦ rw (m, finish) (rw n (get_headers-Agrees s now peer))
      | inr (t, m) ↦ rw (m, finish) (rw n (get_headers-Agrees s now peer))
    ]
    | inr n ↦ elim (Option-cases b.moved_tip) [
      | inl m ↦ rw (m, finish) (rw n (refl, refl))
      | inr (t, m) ↦ rw (m, finish) (rw n (refl, refl))
    ]
  ]

  pub inv-Agrees :
      (s : HeaderDownload D) (now : ℕ) (is : List Inventory) (peer : PeerId)
      → Agrees s (inv x base genesis_block s now is peer)
  unfolding inv
  inv-Agrees s now is peer = elim (Bool-cases (announces x base genesis_block s is)) [
    | inl a ↦ rw (a, inv) (get_headers-Agrees s now peer)
    | inr a ↦ rw (a, inv) (refl, refl)
  ]
