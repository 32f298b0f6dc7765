-- ===== src/Gate/Notify.antt =====
-- autonomy/gate.py: the operations that write: notifications, feedback, quiet hours, the inbox, and
-- `should_notify` with `try_notify_or_inbox`.
use cogito_agent.Prelude.{
  ℕ, String, Bool, true, false, ◌&&◌, Option, none, some, List, [], ◌∷◌, ◌++◌, ◌=s◌, is_some, leb,
  not, keep, if◌then◌else◌, ◌+◌, ◌*◌,
}
use cogito_agent.Sql.{find, update, rowcount}
use cogito_agent.Gate.{
  AutonomyEvent, push, PriorityLevel, low, normal, high, urgent, GateDb, WorkspaceSettings,
  build_dedup_key,
}
use cogito_agent.Gate.Judge.{Floats, default_judge}
use cogito_agent.Gate.Evaluate.{NotificationDecision, Gate, evaluate}

pub record InboxItem : Type 0 where
  pub id : String
  pub workspace_id : String
  pub title : String
  pub body : String
  pub source : String
  pub priority : String
  pub trace_id : Option String
  pub read_at : Option ℕ
  pub created_at : ℕ

-- A row of `notification_decisions`: the decision, its identifier and its time.
pub record StoredDecision : Type 0 where
  pub id : String
  pub decision : NotificationDecision
  pub created_at : ℕ

pub record NotifyDb : Type 0 where
  pub gate_db : GateDb
  pub decisions : List StoredDecision
  pub inbox : List InboxItem

-- `datetime.now` and the identifiers that `uuid4` gives to a row of each table.
pub record NotifyEnv : Type 0 where
  pub now : ℕ
  pub event_id : String
  pub decision_id : String
  pub notification_id : String
  pub inbox_id : String
  pub trace_id : String

-- `persist_decision`
unfoldable pub persist_decision : NotifyEnv → NotificationDecision → NotifyDb → NotifyDb
persist_decision env d db = record db {
  decisions =
      db.decisions ++ record { id = env.decision_id; decision = d; created_at = env.now } ∷ [];
}

-- `record_notification`
unfoldable pub record_notification :
    NotifyEnv → String → String → String → String → String → String → GateDb → GateDb
record_notification env w title body decision priority key db = record db {
  notifications =
      db.notifications
      ++ record {
        id = env.notification_id;
        workspace_id = w;
        event_hash = key;
        title = title;
        body = body;
        decision = decision;
        priority = priority;
        sent_at = env.now;
        feedback = none;
      }
        ∷ [];
}

-- `record_feedback`
unfoldable pub record_feedback : String → String → GateDb → GateDb
record_feedback id feedback db = record db {
  notifications =
      update (λ n. n.id =s id) (λ n. record n { feedback = some feedback }) db.notifications;
}

abbrev settings_of : String → WorkspaceSettings → Bool
settings_of w s = s.workspace_id =s w

-- `set_quiet_hours`: an upsert.
unfoldable pub set_quiet_hours : String → Option ℕ → Option ℕ → ℕ → GateDb → GateDb
set_quiet_hours w start end max_daily db =
    let row : WorkspaceSettings = record {
      workspace_id = w;
      quiet_hours_start = start;
      quiet_hours_end = end;
      max_daily_notifications = some max_daily;
    } in
    if is_some (find (settings_of w) db.settings)
    then record db { settings = update (settings_of w) (λ s. row) db.settings }
    else record db { settings = db.settings ++ row ∷ [] }

-- `write_inbox`
unfoldable pub write_inbox :
    NotifyEnv → String → String → String → String → String → String → NotifyDb → NotifyDb
write_inbox env w title body source priority trace db = record db {
  inbox =
      db.inbox
      ++ record {
        id = env.inbox_id;
        workspace_id = w;
        title = title;
        body = body;
        source = source;
        priority = priority;
        trace_id = if trace =s "" then none else some trace;
        read_at = none;
        created_at = env.now;
      }
        ∷ [];
}

-- `mark_inbox_read`
unfoldable pub mark_inbox_read : NotifyEnv → String → NotifyDb → NotifyDb
mark_inbox_read env id db = record db {
  inbox = update (λ i. i.id =s id) (λ i. record i { read_at = some env.now }) db.inbox;
}

-- `clear_inbox`
unfoldable pub clear_inbox : String → NotifyDb → NotifyDb
clear_inbox w db = record db {
  inbox = if w =s "*" then [] else keep (λ i. not (i.workspace_id =s w)) db.inbox;
}

abbrev pub pushes : NotificationDecision → Bool
pushes d = elim d.action [ push ↦ true | _ ↦ false ]

-- `count_push_recent`
unfoldable pub count_push_recent : String → ℕ → ℕ → NotifyDb → ℕ
count_push_recent w minutes now db =
    rowcount
      (λ s.
        s.decision.workspace_id =s w
        && (pushes s.decision && leb now (s.created_at + minutes * 60)))
      db.decisions

-- `PriorityLevel(priority)`, with the default on an unknown text.
unfoldable pub priority_level : String → PriorityLevel
priority_level p =
    if p =s "low"
    then low
    else if p =s "high"
    then high
    else if p =s "urgent"
    then urgent
    else normal

-- The event of `should_notify`.
abbrev pub plain_event : NotifyEnv → String → String → String → String → AutonomyEvent
plain_event env w title body priority = record {
  event_id = env.event_id;
  source = "system";
  workspace_id = w;
  user_id = "";
  title = title;
  body = body;
  created_at = env.now;
  priority = priority_level priority;
  category = "";
  expires_at = none;
  dedup_key = "";
  quiet_hours_override = false;
  trace_id = "";
}

-- `reason_map.get(code, code)`
unfoldable pub reason_of : String → String
reason_of code =
    if code =s "dedup"
    then "duplicate"
    else if code =s "quota_deferred"
    then "daily_quota_exceeded"
    else if code =s "quota_exceeded_high_priority"
    then "daily_quota_exceeded"
    else if code =s "requires_approval"
    then "governance_requires_approval"
    else code

module _ (F : Floats) where
  -- `should_notify`
  unfoldable pub should_notify :
      Gate → NotifyEnv → String → String → String → String → NotifyDb → NotifyDb × Bool × String
  unfolding persist_decision record_notification
  should_notify g env w title body priority db =
      let e = plain_event env w title body priority in
      let d = evaluate F g none (default_judge F) db.gate_db env.now e in
      let db' = persist_decision env d db in
      if pushes d
      then (
        record db' {
          gate_db =
              record_notification env w title body "push" priority (build_dedup_key g.sha256 e)
                db'.gate_db;
        },
        true,
        env.notification_id,
      )
      else (db', false, reason_of d.reason_code)

  -- `try_notify_or_inbox`: "notified" or "inbox", and the identifier of the row.
  unfoldable pub try_notify_or_inbox :
      Gate
      → NotifyEnv
      → String
      → String
      → String
      → String
      → String
      → NotifyDb
      → NotifyDb × String × String
  try_notify_or_inbox g env w title body priority trace db =
      let r = should_notify g env w title body priority db in
      if r.1
      then (r.0, "notified", r.2)
      else (write_inbox env w title body "system" priority trace r.0, "inbox", env.inbox_id)
