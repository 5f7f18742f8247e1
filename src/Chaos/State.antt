-- ===== src/Chaos/State.antt =====
-- internal/chaos/chaos.go: the state that the package keeps, and the goroutines that it starts.
-- Times are nanoseconds of the monotonic clock, with 0 for the zero `time.Time`.
use Prim.Native.String.{String}
use loadgen.Base.{ℕ, Bool, true, false, List, [], Option, none, some, ite, ℤ, pos}
use loadgen.Base.Float.{Float64}
use loadgen.Chaos.Kind.{Kind, Kind-discrete, ChaosType, known, unknown}

-- The field `onset`: the four constants, the empty text, and any other text.
pub data Onset : Type 0 where
  unset step ramp slow_leak flap : Onset
  other : String → Onset

-- The state of one fault.
pub record State (F : Type 0) : Type 0 where
  pub enabled : Bool
  pub intensity : F
  pub duration : ℤ
  pub duration_s : F
  pub started_at : ℕ
  pub onset : Onset
  pub ramp_seconds : F
  pub flap_period_seconds : F
  pub sticky : Bool
  pub scope_percent : F

pub record Spec (F : Type 0) : Type 0 where
  pub type : ChaosType
  pub intensity : F
  pub duration : ℤ
  pub onset : Onset
  pub ramp_seconds : F
  pub flap_period_seconds : F
  pub sticky : Bool
  pub scope_percent : F

pub record CampaignStep (F : Type 0) : Type 0 where
  pub type : ChaosType
  pub intensity : F
  pub duration_seconds : F
  pub start_after_seconds : F

pub record CampaignState : Type 0 where
  pub campaign_id : String
  pub started_at : ℕ
  pub dry_run : Bool
  pub step_count : ℕ
  pub running : Bool

-- A goroutine that sleeps or ticks, with the time before which it does not go on.
pub data Task (F : Type 0) : Type 0 where
  -- The timer of `EnableSpec`: the type, the `StartedAt` that it captured, and its due time.
  auto_disable : ChaosType → ℕ → ℕ → Task F
  -- One step of a campaign, and the goroutine that ends a campaign by its id.
  enable_step : CampaignStep F → ℕ → Task F
  end_campaign : String → ℕ → Task F
  -- The memory leak: bytes of a chunk, chunks left, and the pause between two chunks.
  leak : ℤ → ℕ → ℤ → ℕ → Task F
  -- Lines per second or per minute, until a deadline: these write logs only.
  storm : ℤ → ℕ → Task F
  novel : ℤ → ℕ → Task F
  crash : ℕ → Task F

-- The package's variables, the goroutines at work, and the host's clock and processors.
pub record World (F : Type 0) : Type 0 where
  pub now : ℕ
  pub num_cpu : ℤ
  pub states : Kind → State F
  pub capacity : F
  pub campaign : Option CampaignState
  -- The channel that stops the CPU burners, and the burners by their channel.
  pub cpu_cancel : Option ℕ
  pub next_chan : ℕ
  pub burners : List (record { chan : ℕ; count : ℤ })
  -- The sizes of the retained chunks.
  pub ballast : List ℤ
  pub tasks : List (Task F)
  -- Whether the process has not exited.
  pub alive : Bool

-- `states[ct]`, with `ok`.
abbrev pub lookup : {F : Type 0} → World F → ChaosType → Option (State F)
lookup w (known k) = some (w.states k)
lookup w (unknown s) = none

-- A write through the pointer that the map holds.
abbrev pub put : {F : Type 0} → (Kind → State F) → Kind → State F → Kind → State F
put states k s j = ite (Kind-discrete k j) s (states j)

module _ {F : Type 0} ⦃d : Float64 F⦄ where
  -- The zero value, which every entry starts with.
  abbrev pub zero_state : State F
  zero_state = record {
    enabled = false;
    intensity = d.lit 0;
    duration = pos 0;
    duration_s = d.lit 0;
    started_at = 0;
    onset = unset;
    ramp_seconds = d.lit 0;
    flap_period_seconds = d.lit 0;
    sticky = false;
    scope_percent = d.lit 0;
  }

  -- The package's variables as a process starts with them.
  abbrev pub init : ℤ → ℕ → World F
  init cpus start = record {
    now = start;
    num_cpu = cpus;
    states = λ k. zero_state;
    capacity = d.lit 1000;
    campaign = none;
    cpu_cancel = none;
    next_chan = 0;
    burners = [];
    ballast = [];
    tasks = [];
    alive = true;
  }
