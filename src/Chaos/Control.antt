-- ===== src/Chaos/Control.antt =====
-- internal/chaos: the remediation endpoints of ops.go, the kill switch, and the list of active
-- types.
pub mod Remedy
use loadgen.Base.{if◌then◌else◌, Option, none, some, List, [], ◌∷◌, select}
use loadgen.Base.Float.{Float64}
use loadgen.Chaos.Kind.{
  Kind, cpu_stress, memory_leak, error_injection, latency_injection, log_storm, db_slow,
  queue_backlog, pod_crash, novel_log, error_budget, latency_tail, known,
}
use loadgen.Chaos.State.{CampaignState, World}
use loadgen.Chaos.Enable.{disable}
use loadgen.Chaos.Query.{is_active, set_capacity}
use mathlib.Core.Bool.{false}

-- The remediations of `opsClears`.
pub data Action : Type 0 where
  restart reset_pool clear_backlog : Action

abbrev pub ops_clears : Action → List Kind
ops_clears restart =
    cpu_stress ∷ memory_leak ∷ error_injection ∷ latency_injection ∷ log_storm ∷ novel_log
    ∷ error_budget ∷ latency_tail ∷ []
ops_clears reset_pool = db_slow ∷ []
ops_clears clear_backlog = queue_backlog ∷ []

-- The keys in the order of their names.
abbrev pub sorted_kinds : List Kind
sorted_kinds =
    cpu_stress ∷ db_slow ∷ error_budget ∷ error_injection ∷ latency_injection ∷ latency_tail
    ∷ log_storm ∷ memory_leak ∷ novel_log ∷ pod_crash ∷ queue_backlog ∷ []

-- `ActiveTypes`: the enabled types, sorted by name, whether or not their time is up.
unfoldable pub active_types : {F : Type 0} → World F → List Kind
active_types w = select (λ k. (w.states k).enabled) sorted_kinds

abbrev pub stop_campaign : Option CampaignState → Option CampaignState
stop_campaign none = none
stop_campaign (some c) = some (record c { running = false })

module _ {F : Type 0} ⦃d : Float64 F⦄ where
  unfoldable pub disable_each : List Kind → World F → World F
  disable_each [] w = w
  disable_each (k ∷ ks) w = disable_each ks (disable (known k) w)

  -- `DisableAll`, for the order in which this iteration of the map meets its keys.
  unfoldable pub disable_all : List Kind → World F → World F
  unfolding disable_each
  disable_all order w =
      let w' = disable_each order w in record w' { campaign = stop_campaign w'.campaign }

  -- The loop of `makeOpsHandler`: what it clears, and the names that it reports.
  unfoldable pub clear_active : List Kind → World F → World F × List Kind
  clear_active [] w = (w, [])
  clear_active (k ∷ ks) w =
      let hit = is_active w (known k) in
      let (w', names) = clear_active ks (if hit then disable (known k) w else w) in
      (w', if hit then k ∷ names else names)

  -- A POST to /ops/<action>; only a restart resets the capacity.
  unfoldable pub run_op : Action → World F → World F × List Kind
  unfolding clear_active set_capacity
  run_op restart w =
      let (w', names) = clear_active (ops_clears restart) w in (set_capacity (d.lit 1000) w', names)
  run_op a w = clear_active (ops_clears a) w
