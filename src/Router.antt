-- ===== src/Router.antt =====
-- models/router.py: candidates, requests and the health of candidates. The sets of the program are
-- lists without repetitions, times are milliseconds of the monotonic clock, and floats are those of
-- the section's argument.
pub mod Route
pub mod Request
pub mod Adapter
pub mod Stream
pub mod Counts
pub mod Preferred
pub mod Sound
pub mod Fallback
pub mod Circuit
use Prim.Native.String.{◌++◌ as append}
use cogito_agent.Prelude.{
  ℕ, ◌+◌, max, String, Bool, true, false, Option, none, some, List, leb, ◌=s◌, if◌then◌else◌, Dict,
  dict_get, dict_set,
}
use cogito_agent.Gate.Judge.{Floats}

pub data RouteErrorCode : Type 0 where
  no_model_candidate no_vision_model_available unsupported_modality no_structured_output_model :
      RouteErrorCode

pub data HealthStatus : Type 0 where
  healthy degraded unhealthy probing : HealthStatus

abbrev pub is_unhealthy : HealthStatus → Bool
is_unhealthy s = elim s [ unhealthy ↦ true | _ ↦ false ]

module _ (F : Floats) where
  open F use {Float, decimal, add, mul, div}

  pub record RouteRequest : Type 0 where
    pub required_capabilities : List String
    pub required_input_modalities : List String
    pub required_output_formats : List String
    pub role : String
    pub task_kind : String
    pub estimated_input_tokens : ℕ
    pub max_output_tokens : ℕ
    pub min_quality_score : Float
    pub max_latency_ms : Option ℕ
    pub max_cost_usd : Option Float
    pub preferred_provider : String
    pub preferred_model : String
    pub preferred_candidates : List String
    pub strict_preferred_candidates : Bool
    pub chat_fallback_role : Bool

  pub record Candidate : Type 0 where
    pub candidate_id : String
    pub provider : String
    pub model : String
    pub capabilities : List String
    pub roles : List String
    pub input_modalities : List String
    pub output_formats : List String
    pub context_window : ℕ
    pub quality_score : Float
    pub expected_latency_ms : ℕ
    pub input_cost_per_million : Float
    pub output_cost_per_million : Float
    pub priority : ℕ
    pub enabled : Bool

  -- The property `id`.
  abbrev pub id_of : Candidate → String
  id_of c = if c.candidate_id =s "" then append c.provider (append ":" c.model) else c.candidate_id

  unfoldable pub estimated_cost : Candidate → RouteRequest → Float
  estimated_cost c r =
      div
        (add (mul (decimal r.estimated_input_tokens 0) c.input_cost_per_million)
          (mul (decimal r.max_output_tokens 0) c.output_cost_per_million))
        (decimal 1000000 0)

pub record Health : Type 0 where
  pub candidate_id : String
  pub status : HealthStatus
  pub consecutive_failures : ℕ
  pub opened_until : ℕ
  pub last_error : String

abbrev pub new_health : String → Health
new_health k = record {
  candidate_id = k;
  status = healthy;
  consecutive_failures = 0;
  opened_until = 0;
  last_error = "";
}

-- The settings of the circuit breaker, after the bounds of `__init__`.
pub record Breaker : Type 0 where
  pub failure_threshold : ℕ
  pub recovery : ℕ

abbrev pub new_breaker : ℕ → ℕ → Breaker
new_breaker threshold recovery = record { failure_threshold = max 1 threshold; recovery = recovery }

abbrev pub or_new : String → Option Health → Health
or_new k none = new_health k
or_new k (some h) = h

-- `self._health.setdefault(candidate_id, …)`
abbrev pub health_of : String → Dict Health → Health
health_of k d = or_new k (dict_get k d)

abbrev pub probed : ℕ → Health → Health
probed now h =
    if is_unhealthy h.status
    then (if leb h.opened_until now then record h { status = probing } else h)
    else h

-- `get_health`: the health of a candidate, and the table with it.
unfoldable pub get_health : ℕ → String → Dict Health → Dict Health × Health
get_health now k d = let h = probed now (health_of k d) in (dict_set k h d, h)

-- `report_success`
unfoldable pub report_success : String → Dict Health → Dict Health
report_success k d = dict_set k (new_health k) d

abbrev pub failed_once : Breaker → ℕ → String → Health → Health
failed_once b now error h =
    let count = h.consecutive_failures + 1 in
    let h' = record h { consecutive_failures = count; last_error = error } in
    if leb b.failure_threshold count
    then record h' { status = unhealthy; opened_until = now + b.recovery }
    else record h' { status = degraded }

-- `report_failure`
unfoldable pub report_failure : Breaker → ℕ → String → String → Dict Health → Dict Health
report_failure b now k error d = dict_set k (failed_once b now error (health_of k d)) d
