-- ===== src/HeaderDownload/Turns.antt =====
-- One turn of the inner loop of `headers` in src/headerdownload.rs.
use murmel.Common.{
  ◌≡◌, ◌≢◌, refl, none, some, Option, List, [], ◌∷◌, ◌++◌, inl, inr, ◌⊎◌, Option-cases, arith,
}
use murmel.External.{BlockHeader, External, Network}
use murmel.Outcome.{Error, Outcome, ok, unfinished, Outcome-cases}
use murmel.HeaderCache.Add.{Added}
use murmel.ChainDb.{Database, ChainDb}
use murmel.ChainDb
use murmel.HeaderDownload.{
  Batch, Ending, bad_work, failed, drained, panics, unending, drain, noted, headers_of, ending_of,
}

pub Ending-cases :
    (e : Ending)
    → (e ≡ drained) ⊎ ((e ≡ bad_work) ⊎ ((e ≡ failed) ⊎ ((e ≡ panics) ⊎ (e ≡ unending))))
Ending-cases drained = inl refl
Ending-cases bad_work = inr (inl refl)
Ending-cases failed = inr (inr (inl refl))
Ending-cases panics = inr (inr (inr (inl refl)))
Ending-cases unending = inr (inr (inr (inr refl)))

ending_of-ends : (e : Error) → ending_of e ≢ unending
unfolding ending_of
ending_of-ends e z = ground (arith, z)

module _ {D : Type 0} (x : External) (base : Database D)
    (genesis_block : Network → BlockHeader) where
  abbrev pub stored : Batch D → BlockHeader → ChainDb D × Outcome (Option Added)
  stored b h = ChainDb.add_header x base genesis_block b.chaindb h

  -- A header was taken from the queue, and is noted as connected if it was added.
  pub record Took (b : Batch D) (h : BlockHeader) (hs : List BlockHeader) (b2 : Batch D)
      : Type 0 where
    pub chain : b2.chaindb ≡ (stored b h).0
    pub rest : b2.queue ≡ hs
    pub noted_as :
        (b2.connected ≡ b.connected)
        ⊎ ((a : Added) × ((stored b h).1 ≡ ok (some a))
            × (b2.connected ≡ b.connected ++ ((a.cached.header, a.cached.height) ∷ [])))

  -- The loop goes on with the rest, or ends here.
  abbrev pub Turns : Batch D → BlockHeader → List BlockHeader → Type 0
  Turns b h hs =
      (b2 : Batch D) × Took b h hs b2
      × ((drain x base genesis_block b (h ∷ hs) ≡ drain x base genesis_block b2 hs)
          ⊎ ((e : Ending) × (drain x base genesis_block b (h ∷ hs) ≡ (b2, e))
              × (e ≡ unending → (stored b h).1 ≡ unfinished)))

  abbrev took : Batch D → BlockHeader → List BlockHeader → Batch D
  took b h hs = record b { chaindb = (stored b h).0; queue = hs }

  took-Took : (b : Batch D) (h : BlockHeader) (hs : List BlockHeader) → Took b h hs (took b h hs)
  took-Took b h hs = record { chain = refl; rest = refl; noted_as = inl refl }

  noted-Took :
      (b : Batch D) (h : BlockHeader) (hs : List BlockHeader) (a : Added) (b2 : Batch D)
      → (stored b h).1 ≡ ok (some a)
      → noted x base genesis_block (took b h hs) a ≡ some b2
      → Took b h hs b2
  unfolding noted
  noted-Took b h hs a b2 o n = record {
    chain = ground (arith, n);
    rest = ground (arith, n);
    noted_as = inr (a, o, ground (arith, n));
  }

  added-Turns :
      (b : Batch D) (h : BlockHeader) (hs : List BlockHeader) (a : Added)
      → (stored b h).1 ≡ ok (some a)
      → Turns b h hs
  unfolding drain
  added-Turns b h hs a o = elim (Option-cases (noted x base genesis_block (took b h hs) a)) [
    | inl n ↦
        (took b h hs, took-Took b h hs, inr (panics, rw (o, drain) (rw n refl), λ z. absurd (cc)))
    | inr (b2, n) ↦
        let t = noted-Took b h hs a b2 o n in
        elim (Option-cases a.unwinds) [
          | inl u ↦ (b2, t, inl (rw (o, drain) (rw (n, drain) (rw u refl))))
          | inr (ids, u) ↦
              elim (Option-cases (headers_of x base genesis_block (stored b h).0 ids)) [
                | inl g ↦ (
                  b2,
                  t,
                  inr (
                    panics,
                    rw (o, drain) (rw (n, drain) (rw (u, drain) (rw g refl))),
                    λ z. absurd (cc),
                  ),
                )
                | inr (gone, g) ↦ (
                  record b2 { disconnected = b2.disconnected ++ gone },
                  record { chain = t.chain; rest = t.rest; noted_as = t.noted_as },
                  inr (
                    drained,
                    rw (o, drain) (rw (n, drain) (rw (u, drain) (rw g refl))),
                    λ z. absurd (cc),
                  ),
                )
              ]
        ]
  ]

  pub drain-Turns : (b : Batch D) (h : BlockHeader) (hs : List BlockHeader) → Turns b h hs
  unfolding drain
  drain-Turns b h hs = elim (Outcome-cases (stored b h).1) [
    | inl (none, o) ↦ (took b h hs, took-Took b h hs, inl (rw (o, drain) refl))
    | inl (some a, o) ↦ added-Turns b h hs a o
    | inr (inl (e, o)) ↦ (
      took b h hs,
      took-Took b h hs,
      inr (ending_of e, rw (o, drain) refl, λ z. absurd (ending_of-ends e z)),
    )
    | inr (inr (inl o)) ↦
        (took b h hs, took-Took b h hs, inr (panics, rw (o, drain) refl, λ z. absurd (cc)))
    | inr (inr (inr o)) ↦
        (took b h hs, took-Took b h hs, inr (unending, rw (o, drain) refl, λ z. o))
  ]
