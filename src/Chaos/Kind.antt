-- ===== src/Chaos/Kind.antt =====
-- internal/chaos/chaos.go: the fault types, and the keys of the map `states`.
use Prim.Native.String.{String}
use loadgen.Base.{List, [], ◌∷◌}

-- The constants of `ChaosType`: exactly the keys that `states` is built with.
pub data Kind : Type 0 where
  cpu_stress memory_leak error_injection latency_injection log_storm db_slow queue_backlog : Kind
  pod_crash novel_log error_budget latency_tail : Kind

unfoldable pub Kind-discrete : Discrete Kind
Kind-discrete = hlevel

-- A `ChaosType` is any text: one of the constants, or a text that is no key of `states`.
pub data ChaosType : Type 0 where
  known : Kind → ChaosType
  unknown : String → ChaosType

-- The keys of `states` as they are written. No entry is ever added or deleted.
abbrev pub all_kinds : List Kind
all_kinds =
    cpu_stress ∷ memory_leak ∷ error_injection ∷ latency_injection ∷ log_storm ∷ db_slow
    ∷ queue_backlog ∷ pod_crash ∷ novel_log ∷ error_budget ∷ latency_tail ∷ []
