-- ===== src/Dispatcher.antt =====
-- autonomy/dispatcher.py and autonomy/outbox.py: the table `outbox_messages` and what writes to it.
pub mod Send
pub mod Backoff
pub mod Due
pub mod Drain
pub mod Verdict
pub mod Ranking
pub mod Frame
use cogito_agent.Prelude.{
  ℕ, ◌==◌, String, Bool, true, false, ◌&&◌, ◌||◌, Option, none, some, List, [], ◌∷◌, ◌++◌, leb,
  ◌=s◌, is_some, take, if◌then◌else◌,
}
use Prim.Native.Nat.{Ordering}
use Prim.Native.String.{compare}
use cogito_agent.Sql.{find, update, rowcount, select}

pub data OutboxStatus : Type 0 where
  pending delivering sent failed retrying dead_letter skipped : OutboxStatus

abbrev pub is_waiting : OutboxStatus → Bool
is_waiting s = elim s [ pending ↦ true | retrying ↦ true | _ ↦ false ]

-- A row of `outbox_messages`; none is NULL.
pub record Message : Type 0 where
  pub id : String
  pub event_id : String
  pub decision_id : String
  pub workspace_id : String
  pub user_id : String
  pub title : String
  pub body : String
  pub status : OutboxStatus
  pub priority : String
  pub source : String
  pub trace_id : String
  pub delivery_attempts : ℕ
  pub last_error : Option String
  pub next_retry_at : Option ℕ
  pub created_at : ℕ
  pub updated_at : Option ℕ
  pub delivered_at : Option ℕ
  pub failed_at : Option ℕ
  pub read_at : Option ℕ
  pub dismissed_at : Option ℕ
  pub sent_at : Option ℕ

-- A new value where there is one.
abbrev pub or_kept {ℓ} : {A : Type ℓ} → Option A → Option A → Option A
or_kept none old = old
or_kept (some a) old = some a

abbrev pub has_id : String → Message → Bool
has_id k m = m.id =s k

-- `Outbox.enqueue`, with the identifier that `uuid4` gives.
unfoldable pub enqueue :
    ℕ
    → String
    → String
    → String
    → String
    → String
    → String
    → String
    → String
    → String
    → String
    → List Message
    → List Message
enqueue now id event_id decision_id title body workspace_id user_id priority source trace_id rows =
    rows
    ++ record {
      id = id;
      event_id = event_id;
      decision_id = decision_id;
      workspace_id = workspace_id;
      user_id = user_id;
      title = title;
      body = body;
      status = pending;
      priority = priority;
      source = source;
      trace_id = trace_id;
      delivery_attempts = 0;
      last_error = none;
      next_retry_at = none;
      created_at = now;
      updated_at = none;
      delivered_at = none;
      failed_at = none;
      read_at = none;
      dismissed_at = none;
      sent_at = none;
    }
      ∷ []

-- `OutboxRepository.update_status`, with the entries of `extra` that are there.
unfoldable pub update_status :
    String → OutboxStatus → Option ℕ → Option String → List Message → List Message
update_status id status sent_at error rows =
    update (has_id id)
      (λ m. record m {
        status = status;
        sent_at = or_kept sent_at m.sent_at;
        last_error = or_kept error m.last_error;
      })
      rows

-- `Outbox.mark_sent`
unfoldable pub mark_sent : ℕ → String → List Message → List Message
unfolding update_status
mark_sent now id rows = update_status id sent (some now) none rows

-- `Outbox.mark_failed`: a second update writes the error, where there is one.
unfoldable pub mark_failed : ℕ → String → String → List Message → List Message
unfolding update_status
mark_failed now id error rows =
    let rows' = update_status id failed (some now) none rows in
    if error =s "" then rows' else update_status id failed none (some error) rows'

-- `Outbox.mark_read`
unfoldable pub mark_read : ℕ → String → List Message → List Message × Bool
mark_read now id rows =
    (update (has_id id) (λ m. record m { read_at = some now }) rows, rowcount (has_id id) rows == 1)

-- `Outbox.dismiss`
unfoldable pub dismiss : ℕ → String → List Message → List Message × Bool
dismiss now id rows = (
  update (has_id id) (λ m. record m { dismissed_at = some now; status = skipped }) rows,
  rowcount (has_id id) rows == 1,
)

-- `Outbox.retry`
unfoldable pub retry : String → List Message → List Message × Bool
retry id rows = (
  update (has_id id)
      (λ m. record m {
        status = pending;
        last_error = none;
        next_retry_at = none;
        delivery_attempts = 0;
      })
      rows,
  rowcount (has_id id) rows == 1,
)

-- The SET clause of `retry_message`.
abbrev pub reset_message : Message → Message
reset_message m = record m { status = pending; last_error = none; next_retry_at = none }

-- `OutboxDispatcher.retry_message`
unfoldable pub retry_message : String → List Message → List Message × Bool
retry_message id rows = elim (find (has_id id) rows) [
  | none ↦ (rows, false)
  | some _ ↦ (update (has_id id) reset_message rows, true)
]

-- `next_retry_at IS NULL OR next_retry_at <= ?`
abbrev due_at : ℕ → Option ℕ → Bool
due_at now none = true
due_at now (some t) = leb t now

-- The WHERE clause of `_pending_messages`.
abbrev pub due : ℕ → Message → Bool
due now m = is_waiting m.status && due_at now m.next_retry_at

-- `ORDER BY priority DESC, created_at ASC`: the priorities are compared as texts.
unfoldable pub comes_first : Message → Message → Bool
comes_first a b = elim (compare a.priority b.priority) [
  | Ordering.gt ↦ true
  | Ordering.lt ↦ false
  | Ordering.eq ↦ leb a.created_at b.created_at
]

unfoldable pub insert_ordered : Message → List Message → List Message
unfolding comes_first
insert_ordered m [] = m ∷ []
insert_ordered m (x ∷ xs) = if comes_first m x then m ∷ x ∷ xs else x ∷ insert_ordered m xs

unfoldable pub ordered : List Message → List Message
unfolding insert_ordered
ordered [] = []
ordered (m ∷ ms) = insert_ordered m (ordered ms)

-- `BATCH_SIZE`
abbrev pub batch_size : ℕ
batch_size = 20

-- `_pending_messages`
unfoldable pub pending_messages : ℕ → List Message → List Message
unfolding ordered
pending_messages now rows = take batch_size (ordered (select (due now) rows))
