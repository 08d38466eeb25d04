-- ===== src/HeaderCache/Scan.antt =====
-- `required_work` of src/headercache.rs ends: its scans have enough turns.
use murmel.Common.{
  ℕ, zero, suc, ◌+◌, ◌-◌, ◌%◌, ◌*◌, ◌^◌, ◌<◌, ◌≡◌, ◌≢◌, refl, sym, ◌∙◌, inl, inr, none, some,
  Option, arith, ℕ-Eq, false, Option-cases, Bool-cases, if_both, length, get_elem?, ltb, nat_eq,
  eq_of_some,
}
use murmel.Common.Map
use murmel.External.{BlockHeader, External, default}
use murmel.Outcome.{Outcome, ok, err, panic, unfinished, ◌>>=◌}
use murmel.Pow.{CachedHeader, unwrap, mantissa, target, max_target}
use murmel.HeaderCache.{HeaderCache, tip_hash}
use murmel.HeaderCache.Difficulty.{
  diffchange_interval, is_some_of, scan_back, interval_start, retarget, testnet_scan, required_work,
  is_testnet, target_block_spacing,
}
use murmel.HeaderCache.Tree.{IsTree}
use murmel.HeaderCache.Genesis.{HasGenesis}

pub >>=-finishes :
    {A B : Type 0} (o : Outcome A) (k : A → Outcome B)
    → o ≢ unfinished
    → ((a : A) → k a ≢ unfinished)
    → (o >>= k) ≢ unfinished
>>=-finishes (ok a) k n f = f a
>>=-finishes (err e) k n f = λ h. cc
>>=-finishes panic k n f = λ h. cc
>>=-finishes unfinished k n f = absurd (n refl)

pub ok-finishes : {A : Type 0} (a : A) → ok a ≢ unfinished
ok-finishes a h = cc

unwrap-finishes : {A : Type 0} (o : Option A) → unwrap o ≢ unfinished
unwrap-finishes none h = cc
unwrap-finishes (some a) h = cc

scan_back-finishes : (c : HeaderCache) (n : ℕ) (e : CachedHeader) → scan_back c n e ≢ unfinished
unfolding scan_back
scan_back-finishes c zero e = λ h. cc
scan_back-finishes c (suc n) e = elim (Option-cases (Map.get c.headers e.header.prev_blockhash)) [
  | inl g ↦ rw (g, scan_back) (λ h. cc)
  | inr (p, g) ↦ rw (g, scan_back) (scan_back-finishes c n p)
]

module _ (x : External) where
  pub target-finishes : (e : CachedHeader) → target x e ≢ unfinished
  unfolding target
  target-finishes e =
      if_both (λ o. o ≢ unfinished) (ltb 0x7fffff (mantissa e.header.bits)) (ok-finishes _)
        (>>=-finishes _ _ (unwrap-finishes _) (λ m. ok-finishes _))

  max_target-finishes : max_target x ≢ unfinished
  unfolding max_target
  max_target-finishes = >>=-finishes _ _ (unwrap-finishes _) (λ m. ok-finishes _)

  retarget-finishes : (e : CachedHeader) (span : ℕ) → retarget x e span ≢ unfinished
  unfolding retarget
  retarget-finishes e span = >>=-finishes _ _ (target-finishes e) (λ t.
      >>=-finishes _ _ (unwrap-finishes _)
        (λ s. >>=-finishes _ _ max_target-finishes (λ m. ok-finishes _)))

  interval_start-finishes : (c : HeaderCache) (e : CachedHeader) → interval_start c e ≢ unfinished
  unfolding interval_start
  interval_start-finishes c e =
      if_both (λ o. o ≢ unfinished) (is_some_of (tip_hash c) e.header.prev_blockhash)
        (if_both (λ o. o ≢ unfinished) (ltb (length c.trunk) (diffchange_interval + 2)) (λ h. cc)
          (>>=-finishes (unwrap (get_elem? c.trunk (length c.trunk - diffchange_interval - 2))) _
            (unwrap-finishes _) (λ id. unwrap-finishes (Map.get c.headers id))))
        (scan_back-finishes c (diffchange_interval - 1) e)

  module _ {root : ℕ} (c : HeaderCache) (t : IsTree root c) (g : HasGenesis root c) where
    one_lower :
        (k : ℕ) (e p : CachedHeader) {n : ℕ}
        → Map.get c.headers k ≡ some e
        → Map.get c.headers e.header.prev_blockhash ≡ some p
        → nat_eq (e.height % diffchange_interval) 0 ≡ false
        → nat_eq e.header.prev_blockhash default ≡ false
        → e.height % diffchange_interval < suc n
        → p.height % diffchange_interval < n
    one_lower k e p {n} m mp a b l = elim (t.parent k e m) [
      | inl z ↦
          let d : e.header.prev_blockhash ≡ default = g.genesis e (rw z at m) in
          absurd (ground (arith, b, d))
      | inr (q, mq, h) ↦
          let same : p ≡ q = eq_of_some (sym mp ∙ mq) in
          let positive : e.height % diffchange_interval ≢ 0 = ground (arith, a) in
          let higher : e.height ≡ suc p.height = rw same h in omega (arith, positive, higher, l)
    ]

    -- The scan goes back to a height that is a multiple of 2016, or to the genesis header, at most.
    testnet_scan-finishes :
        (fuel max k : ℕ) (e : CachedHeader)
        → Map.get c.headers k ≡ some e
        → e.height % diffchange_interval < fuel
        → testnet_scan x fuel c max e e.height ≢ unfinished
    unfolding testnet_scan
    testnet_scan-finishes zero max k e m l = absurd (omega (arith, l))
    testnet_scan-finishes (suc fuel) max k e m l =
        >>=-finishes (target x e) _ (target-finishes e) (λ now.
          elim (Bool-cases (nat_eq (e.height % diffchange_interval) 0)) [
            | inl a ↦ rw a (ok-finishes e)
            | inr a ↦ elim (Bool-cases (nat_eq e.header.prev_blockhash default)) [
              | inl b ↦ rw (a, b) (ok-finishes e)
              | inr b ↦ elim (Bool-cases (nat_eq now max)) [
                | inr d ↦ rw (a, b, d) (ok-finishes e)
                | inl d ↦ elim (Option-cases (Map.get c.headers e.header.prev_blockhash)) [
                  | inl n ↦ rw (a, b, d) (rw n (λ h. cc))
                  | inr (p, n) ↦
                      rw (a, b, d)
                        (rw n (
                          testnet_scan-finishes fuel max e.header.prev_blockhash p n
                            (one_lower k e p m n a b l)))
                ]
              ]
            ]
          ])

    pub required_work-finishes :
        (k : ℕ) (prev : CachedHeader) (next : BlockHeader)
        → Map.get c.headers k ≡ some prev
        → required_work x c prev next ≢ unfinished
    unfolding required_work
    required_work-finishes k prev next m =
        if_both (λ o. o ≢ unfinished) (nat_eq ((prev.height + 1) % 2 ^ 32 % diffchange_interval) 0)
          (>>=-finishes _ _ (interval_start-finishes c prev) (λ scan. retarget-finishes prev _))
          (if_both (λ o. o ≢ unfinished) (is_testnet c.network)
            (if_both (λ o. o ≢ unfinished)
              (ltb ((prev.header.time + 2 * target_block_spacing) % 2 ^ 32) next.time)
              max_target-finishes
              (>>=-finishes (max_target x) _ max_target-finishes (λ max.
                >>=-finishes _ _
                  (testnet_scan-finishes diffchange_interval max k prev m (omega arith))
                  (λ scan. target-finishes scan))))
            (target-finishes prev))
