-- ===== src/Queue.antt =====
-- storage/input_queue_repository.py and queue/message.py: the persisted queue of inbound messages.
pub mod Recovery
pub mod Loop
pub mod Pending
pub mod Kept
pub mod Counter
pub mod Outcome
use cogito_agent.Prelude.{
  ℕ, ◌+◌, ◌*◌, String, Bool, true, false, not, ◌&&◌, ◌||◌, Option, none, some, List, [], ◌∷◌, ◌++◌,
  ltb, leb, ◌=s◌, keep, if◌then◌else◌,
}
use cogito_agent.Sql.{update, rowcount, select, find}

-- The status column; `pending → processing → done | failed`.
pub data QueueStatus : Type 0 where
  pending processing done failed : QueueStatus

abbrev pub is_pending : QueueStatus → Bool
is_pending s = elim s [ pending ↦ true | _ ↦ false ]

abbrev pub is_processing : QueueStatus → Bool
is_processing s = elim s [ processing ↦ true | _ ↦ false ]

-- `media` and the rest of `metadata` are their JSON texts; `queue_id` is the entry of `metadata`.
pub record InboundMessage : Type 0 where
  pub channel : String
  pub session_id : String
  pub workspace_id : String
  pub content : String
  pub media : String
  pub metadata : String
  pub queue_id : Option String

-- A row of `input_queue`; times are seconds, as the columns hold them.
pub record QueueRow : Type 0 where
  pub id : String
  pub payload : InboundMessage
  pub status : QueueStatus
  pub task_type : String
  pub retry_count : ℕ
  pub started_at : Option ℕ
  pub done_at : Option ℕ
  pub error : Option String
  pub created_at : ℕ

abbrev pub has_id : String → QueueRow → Bool
has_id k r = r.id =s k

-- `insert`, with the identifier that `uuid4` gives.
unfoldable pub insert : ℕ → String → InboundMessage → String → List QueueRow → List QueueRow
insert now id msg task_type rows =
    rows
    ++ record {
      id = id;
      payload = msg;
      status = pending;
      task_type = task_type;
      retry_count = 0;
      started_at = none;
      done_at = none;
      error = none;
      created_at = now;
    }
      ∷ []

-- The SET clause of `update_status`.
unfoldable pub set_status : ℕ → QueueStatus → String → QueueRow → QueueRow
set_status now processing e r = record r {
  status = processing;
  started_at = some now;
  retry_count = r.retry_count + 1;
}
set_status now done e r = record r { status = done; done_at = some now }
set_status now failed e r = record r { status = failed; done_at = some now; error = some e }
set_status now pending e r = record r { status = pending }

-- `update_status`
unfoldable pub update_status : ℕ → String → QueueStatus → String → List QueueRow → List QueueRow
unfolding set_status
update_status now id status e rows = update (has_id id) (set_status now status e) rows

-- `row_to_inbound`; `json.loads` gives back the payload that `insert` wrote.
abbrev pub row_to_inbound : QueueRow → InboundMessage
row_to_inbound r = record r.payload { queue_id = some r.id }

-- `t < now - duration`, where NULL compares as false.
abbrev over_since : ℕ → ℕ → Option ℕ → Bool
over_since now duration none = false
over_since now duration (some t) = ltb (t + duration) now

abbrev of_type : Option String → QueueRow → Bool
of_type none r = true
of_type (some t) r = t =s "" || r.task_type =s t

-- In processing for longer than the timeout.
abbrev pub stale : ℕ → ℕ → QueueRow → Bool
stale now timeout r = is_processing r.status && over_since now timeout r.started_at

-- The WHERE clause of `recover_pending`.
abbrev pub recoverable : ℕ → ℕ → Option String → QueueRow → Bool
recoverable now timeout task_type r =
    (is_pending r.status || stale now timeout r) && of_type task_type r

-- `ORDER BY created_at ASC`, with equal times in the order of insertion.
unfoldable pub insert_created : QueueRow → List QueueRow → List QueueRow
insert_created r [] = r ∷ []
insert_created r (x ∷ xs) =
    if leb r.created_at x.created_at then r ∷ x ∷ xs else x ∷ insert_created r xs

unfoldable pub by_created : List QueueRow → List QueueRow
unfolding insert_created
by_created [] = []
by_created (r ∷ rs) = insert_created r (by_created rs)

abbrev pub reset : QueueRow → QueueRow
reset r = record r { status = pending; started_at = none }

-- The loop that resets the expired rows.
unfoldable pub reset_rows : List QueueRow → List QueueRow → List QueueRow
reset_rows [] rows = rows
reset_rows (x ∷ xs) rows =
    if is_processing x.status
    then reset_rows xs (update (has_id x.id) reset rows)
    else reset_rows xs rows

-- `recover_pending`: the table, and the rows as they were selected.
unfoldable pub recover_pending :
    ℕ → ℕ → Option String → List QueueRow → List QueueRow × List QueueRow
unfolding reset_rows by_created
recover_pending now timeout task_type rows =
    let found = by_created (select (recoverable now timeout task_type) rows) in
    (reset_rows found rows, found)

-- `count_by_status`, of one status.
unfoldable pub count_by_status : (QueueStatus → Bool) → List QueueRow → ℕ
count_by_status is rows = rowcount (λ r. is r.status) rows

abbrev over : QueueStatus → Bool
over s = elim s [ done ↦ true | failed ↦ true | _ ↦ false ]

abbrev old : ℕ → ℕ → QueueRow → Bool
old now days r = over r.status && over_since now (days * 86400) r.done_at

-- `delete_old_done`: the table, and the number of rows deleted.
unfoldable pub delete_old_done : ℕ → ℕ → List QueueRow → List QueueRow × ℕ
delete_old_done now days rows =
    (keep (λ r. not (old now days r)) rows, rowcount (old now days) rows)
