-- ===== src/Platform/Cache.antt =====
-- internal/platform/platform.go: the cache, and the delays of the database and the queue. A draw is
-- what `rand.Float64` gives.
use Prim.Native.String.{String}
use loadgen.Base.{
  ℕ, ◌+◌, ◌*◌, pos_part, Bool, false, not, if◌then◌else◌, [], Option, none, ℤ, pos, ltb_ℤ,
}
use loadgen.Base.Float.{Float64}
use loadgen.Chaos.Kind.{known, db_slow, queue_backlog}
use loadgen.Chaos.State.{World}
use loadgen.Chaos.Query
use loadgen.Platform.Assoc.{Assoc, lookup, insert, remove}
use loadgen.SysState.Incident.{System, cache_stampede, connection_pool}
use loadgen.SysState.Health.{EpochInfo, is_active, fault_health, scaled_error_rate}

abbrev pub Cache : Type 0 → Type 0
Cache R = Assoc R

abbrev pub new_cache : {R : Type 0} → Cache R
new_cache = []

module _ {R : Type 0} where
  unfoldable pub cache_set : String → R → Cache R → Cache R
  cache_set key value cache = insert key value cache

  unfoldable pub cache_delete : String → Cache R → Cache R
  cache_delete key cache = remove key cache

-- What the simulated incidents do, and when.
pub record Faults (F : Type 0) : Type 0 where
  pub epoch_info : EpochInfo F
  pub system : System F

module _ {F : Type 0} ⦃d : Float64 F⦄ where
  -- Whether a draw evicts a key: during a cache stampede most keys.
  unfoldable pub is_evicted : Faults F → F → Bool
  is_evicted f draw =
      if is_active f.epoch_info f.system cache_stampede
      then d.lt draw (
          scaled_error_rate (d.lit 0) (d.lit 900)
            (fault_health f.epoch_info f.system cache_stampede))
      else false

  unfoldable pub cache_get : {R : Type 0} → Faults F → F → String → Cache R → Option R
  cache_get f draw key cache = if is_evicted f draw then none else lookup key cache

  -- Nanoseconds of the pause of `applyDBSlowChaosDelay`.
  unfoldable pub db_slow_delay : World F → ℤ
  db_slow_delay w =
      if not (Query.is_active w (known db_slow))
      then pos 0
      else let extra =
          d.trunc (d.mul (d.of_int (pos 700_000_000)) (Query.get_intensity w (known db_slow))) in
        if ltb_ℤ extra (pos 10_000_000) then pos 10_000_000 else extra

  -- The pause of `applyQueueBacklogDelay` for the chaos fault.
  unfoldable pub queue_backlog_delay : World F → ℤ
  queue_backlog_delay w =
      if not (Query.is_active w (known queue_backlog))
      then pos 0
      else let extra =
          d.trunc
            (d.mul (d.of_int (pos 900_000_000)) (Query.get_intensity w (known queue_backlog))) in
        if ltb_ℤ extra (pos 20_000_000) then pos 20_000_000 else extra

  -- The wait for a connection, of two draws: whether to wait, and for how long after 8 seconds. Where
  -- the rate is not at most the draw, the call waits.
  unfoldable pub pool_wait : Faults F → F → F → ℕ
  pool_wait f roll draw =
      let rate =
        scaled_error_rate (d.lit 0) (d.lit 450)
          (fault_health f.epoch_info f.system connection_pool) in
      let extra = pos_part (d.trunc (d.mul (d.mul draw (d.lit 12_000)) (d.lit 1_000_000))) in
      if not (is_active f.epoch_info f.system connection_pool)
      then 0
      else if d.le rate roll
      then 0
      else 8_000_000_000 + extra * 1_000_000
