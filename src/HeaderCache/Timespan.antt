-- ===== src/HeaderCache/Timespan.antt =====
-- The timespan of a difficulty change in src/headercache.rs.
use murmel.Common.{ℕ, ◌+◌, ◌-◌, ◌*◌, ◌/◌, ◌%◌, ◌^◌, ◌≤◌, ◌<◌, ◌≡◌, min, max, arith}
use murmel.HeaderCache.Difficulty.{clamped_timespan, diffchange_timespan}

-- With times in order and below 2^32, the clamped timespan of an interval is its length, kept between
-- a quarter of two weeks and four times two weeks.
clamped_timespan-min-max :
    (last first : ℕ)
    → first ≤ last
    → last < 2 ^ 32
    → clamped_timespan last first
      ≡ min (diffchange_timespan * 4) (max (diffchange_timespan / 4) (last - first))
unfolding clamped_timespan
clamped_timespan-min-max last first o h =
    let e : (last + 2 ^ 32 - first) % 2 ^ 32 ≡ last - first = omega arith in rw e (ground arith)
