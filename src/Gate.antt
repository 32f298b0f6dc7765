-- ===== src/Gate.antt =====
-- autonomy/events.py, autonomy/decision.py and the tables behind autonomy/gate.py.
pub mod Quiet
pub mod Quota
pub mod Judge
pub mod Evaluate
pub mod Pushes
pub mod Notify
pub mod Once
use Prim.Native.String.{◌++◌ as append}
use cogito_agent.Prelude.{
  ℕ, String, Bool, true, false, Option, none, some, List, leb, ◌=s◌, if◌then◌else◌,
}

pub data PriorityLevel : Type 0 where
  low normal high urgent : PriorityLevel

pub data DecisionAction : Type 0 where
  push skip defer require_approval : DecisionAction

-- Times are seconds since the epoch, in UTC.
pub record AutonomyEvent : Type 0 where
  pub event_id : String
  pub source : String
  pub workspace_id : String
  pub user_id : String
  pub title : String
  pub body : String
  pub created_at : ℕ
  pub priority : PriorityLevel
  pub category : String
  pub expires_at : Option ℕ
  pub dedup_key : String
  pub quiet_hours_override : Bool
  pub trace_id : String

-- `build_dedup_key`, over `hashlib.sha256`.
unfoldable pub build_dedup_key : (String → String) → AutonomyEvent → String
build_dedup_key sha256 e =
    if e.dedup_key =s ""
    then sha256 (append e.source (append "|" (append e.title (append "|" e.category))))
    else e.dedup_key

-- `is_expired`
unfoldable pub is_expired : ℕ → AutonomyEvent → Bool
is_expired now e = elim e.expires_at [ none ↦ false | some t ↦ leb t now ]

-- Rows of `notifications` and of `workspace_settings`; quiet hours are minutes of the day, and
-- none is the empty text.
pub record Notification : Type 0 where
  pub id : String
  pub workspace_id : String
  pub event_hash : String
  pub title : String
  pub body : String
  pub decision : String
  pub priority : String
  pub sent_at : ℕ
  pub feedback : Option String

pub record WorkspaceSettings : Type 0 where
  pub workspace_id : String
  pub quiet_hours_start : Option ℕ
  pub quiet_hours_end : Option ℕ
  pub max_daily_notifications : Option ℕ

pub record GateDb : Type 0 where
  pub notifications : List Notification
  pub settings : List WorkspaceSettings

-- The keys of the configuration that the deterministic part reads; none is a missing key.
pub record Config : Type 0 where
  pub quiet_hours_enabled : Option Bool
  pub quiet_hours_start : Option (Option ℕ)
  pub quiet_hours_end : Option (Option ℕ)
  pub urgent_bypass_quiet_hours : Option Bool
  pub daily_quota : Option ℕ
  pub hourly_quota : Option ℕ
  pub urgent_bypass_quota : Option Bool
  pub dedup_window_minutes : Option ℕ

abbrev pub no_config : Config
no_config = record {
  quiet_hours_enabled = none;
  quiet_hours_start = none;
  quiet_hours_end = none;
  urgent_bypass_quiet_hours = none;
  daily_quota = none;
  hourly_quota = none;
  urgent_bypass_quota = none;
  dedup_window_minutes = none;
}

-- `cfg.get(key, default)`
abbrev pub get_default {ℓ} : {A : Type ℓ} → Option A → A → A
get_default none d = d
get_default (some a) d = a

abbrev pub is_urgent : PriorityLevel → Bool
is_urgent urgent = true
is_urgent _ = false
