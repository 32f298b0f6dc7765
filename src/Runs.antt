-- ===== src/Runs.antt =====
-- runs/repository.py: the durable lifecycle of background runs, on the tables `runs`, `run_events`
-- and `run_outputs`.
pub mod Lifecycle
pub mod Spec
pub mod Claims
pub mod Moves
pub mod Leases
pub mod Events
pub mod Ops
pub mod Rows
pub mod Terminal
pub mod Create
pub mod Expiry
use cogito_agent.Prelude.{
  ℕ, zero, suc, ◌+◌, String, Bool, true, false, not, ◌&&◌, ◌||◌, Option, none, some, List, [], ◌∷◌,
  ◌++◌, map, max, min, leb, ltb, ◌==◌, ◌=s◌, is_some, if◌then◌else◌, keep, take,
}
use cogito_agent.Sql.{find, update, rowcount, select}

-- The texts that the column `status` takes; `finish` is given any text at all.
pub data RunStatus : Type 0 where
  pending running waiting_approval succeeded failed cancelled abandoned : RunStatus
  other : String → RunStatus

abbrev pub is_pending : RunStatus → Bool
is_pending pending = true
is_pending _ = false

abbrev pub is_running : RunStatus → Bool
is_running running = true
is_running _ = false

abbrev pub is_waiting : RunStatus → Bool
is_waiting waiting_approval = true
is_waiting _ = false

abbrev pub is_abandoned : RunStatus → Bool
is_abandoned abandoned = true
is_abandoned _ = false

-- `TERMINAL_STATUSES`
abbrev pub is_terminal : RunStatus → Bool
is_terminal succeeded = true
is_terminal failed = true
is_terminal cancelled = true
is_terminal abandoned = true
is_terminal _ = false

pub record Run : Type 0 where
  pub id : String
  pub run_type : String
  pub definition_id : String
  pub parent_run_id : Option String
  pub workspace_id : String
  pub status : RunStatus
  pub priority : String
  pub idempotency_key : String
  pub scheduled_at : Option String
  pub claimed_by : Option String
  pub lease_expires_at : Option ℕ
  pub heartbeat_at : Option ℕ
  pub attempt_count : ℕ
  pub max_attempts : ℕ
  pub input_json : String
  pub result_json : String
  pub error_code : String
  pub error_message : String
  pub trace_id : String
  pub created_at : ℕ
  pub started_at : Option ℕ
  pub finished_at : Option ℕ

pub record RunEvent : Type 0 where
  pub id : String
  pub run_id : String
  pub sequence : ℕ
  pub event_type : String
  pub payload_json : String
  pub created_at : ℕ

pub record RunOutput : Type 0 where
  pub id : String
  pub run_id : String
  pub output_type : String
  pub reference_id : String
  pub created_at : ℕ

pub record RunDb : Type 0 where
  pub runs : List Run
  pub events : List RunEvent
  pub outputs : List RunOutput

abbrev pub empty : RunDb
empty = record { runs = []; events = []; outputs = [] }

-- What one call takes from outside: the clock in seconds, at the call and at its events, the
-- texts that uuid4 returns in turn, `json.dumps` and the redaction of texts.
pub record Env : Type 0 where
  pub now : ℕ
  pub event_now : ℕ → ℕ
  pub uuid : ℕ → String
  pub dumps : List (String × String) → String
  pub redact : String → String

abbrev pub has_id : String → Run → Bool
has_id k r = r.id =s k

-- `get`
unfoldable pub get : RunDb → String → Option Run
get db run_id = find (has_id run_id) db.runs

abbrev pub of_run : String → RunEvent → Bool
of_run k e = e.run_id =s k

-- COALESCE(MAX(sequence), 0) over the events of a run.
unfoldable pub max_sequence : String → List RunEvent → ℕ
max_sequence k [] = 0
max_sequence k (e ∷ es) =
    if of_run k e then max e.sequence (max_sequence k es) else max_sequence k es

-- `append_event`, with the number of the event within the call.
unfoldable pub append_event : Env → ℕ → String → String → List (String × String) → RunDb → RunDb
unfolding max_sequence
append_event env n run_id event_type payload db = record db {
  events =
      db.events
      ++ (record {
        id = env.uuid n;
        run_id = run_id;
        sequence = max_sequence run_id db.events + 1;
        event_type = event_type;
        payload_json = env.redact (env.dumps payload);
        created_at = env.event_now n;
      })
        ∷ [];
}

abbrev pub when_one : Env → String → String → List (String × String) → ℕ → RunDb → RunDb × Bool
when_one env run_id event_type payload count db =
    if count == 1 then (append_event env 0 run_id event_type payload db, true) else (db, false)

-- The common shape: UPDATE runs SET … WHERE id=? AND guard, and an event when it changed one row.
unfoldable pub update_run :
    Env
    → String
    → String
    → List (String × String)
    → (Run → Bool)
    → (Run → Run)
    → RunDb
    → RunDb × Bool
update_run env run_id event_type payload guard f db =
    let sel = λ (r : Run). has_id run_id r && guard r in
    when_one env run_id event_type payload (rowcount sel db.runs)
      (record db { runs = update sel f db.runs })
