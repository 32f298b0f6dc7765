-- ===== src/Dispatcher/Send.antt =====
-- autonomy/dispatcher.py: the delivery of a message, of a batch and of all that are due.
use Prim.Native.String.{◌++◌ as append}
use cogito_agent.Prelude.{
  ℕ, zero, suc, ◌+◌, ◌-◌, ◌*◌, ◌^◌, min, ◌==◌, String, Bool, true, false, Option, none, some, List,
  [], ◌∷◌, leb, ◌=s◌, if◌then◌else◌,
}
use cogito_agent.Sql.{update}
use cogito_agent.Policy.{PolicyEngine, PolicyRequest, DecisionType}
use cogito_agent.Policy
use cogito_agent.Dispatcher.{
  or_kept, OutboxStatus, delivering, sent, failed, retrying, dead_letter, skipped, Message, has_id,
  pending_messages,
}

-- `MAX_RETRIES`, `BASE_BACKOFF_SECONDS` and `MAX_BACKOFF_SECONDS`
abbrev pub max_retries : ℕ
max_retries = 5

abbrev pub base_backoff : ℕ
base_backoff = 30

abbrev pub max_backoff : ℕ
max_backoff = 3600

-- `_compute_backoff`
unfoldable pub compute_backoff : ℕ → ℕ
compute_backoff attempt = min (base_backoff * 2 ^ (attempt - 1)) max_backoff

-- What the adapter's `deliver` does: a result with its status and error, or an exception.
pub data Delivery : Type 0 where
  delivered : Delivery
  refused : String → Delivery
  passed_over : String → Delivery
  raised : String → Delivery

-- The dispatcher's collaborators; `clip` is `error[:500]`.
pub record Dispatcher : Type 0 where
  pub policy : PolicyEngine
  pub deliver : ℕ → Message → Delivery
  pub clip : String → String

abbrev failed_time : ℕ → OutboxStatus → Option ℕ → Option ℕ
failed_time now failed t = some now
failed_time now dead_letter t = some now
failed_time now _ t = t

abbrev sent_time : ℕ → OutboxStatus → Option ℕ → Option ℕ
sent_time now sent t = some now
sent_time now _ t = t

-- The SET clause of `_set_status`: an empty error, no attempts and no retry leave their columns.
unfoldable pub with_status :
    Dispatcher → ℕ → OutboxStatus → String → ℕ → Option ℕ → Message → Message
with_status d now status error attempts next_retry m = record m {
  status = status;
  updated_at = some now;
  last_error = if error =s "" then m.last_error else some (d.clip error);
  delivery_attempts = if attempts == 0 then m.delivery_attempts else attempts;
  next_retry_at = or_kept next_retry m.next_retry_at;
  delivered_at = sent_time now status m.delivered_at;
  failed_at = failed_time now status m.failed_at;
}

-- `_set_status`
unfoldable pub set_status :
    Dispatcher → ℕ → String → OutboxStatus → String → ℕ → Option ℕ → List Message → List Message
unfolding with_status
set_status d now id status error attempts next_retry rows =
    update (has_id id) (with_status d now status error attempts next_retry) rows

abbrev pub policy_request : Message → PolicyRequest
policy_request m = record {
  actor_id = "outbox_dispatcher";
  capability_name = "notification.send";
  resource = append "workspace/" m.workspace_id;
  operation = "send";
  context = "background";
}

abbrev permits : DecisionType → Bool
permits DecisionType.deny = false
permits _ = true

-- `_check_policy`
unfoldable pub check_policy : PolicyEngine → Message → Bool
check_policy policy m = permits (Policy.evaluate policy (policy_request m)).decision

-- The result of `_deliver_one` is the status of a DeliveryResult and its error.
pub data DeliveryStatus : Type 0 where
  is_sent is_skipped is_failed : DeliveryStatus

abbrev outcome : Delivery → DeliveryStatus × String
outcome delivered = (is_sent, "")
outcome (refused e) = (is_failed, e)
outcome (passed_over e) = (is_skipped, e)
outcome (raised e) = (is_failed, e)

-- `_deliver_one`, less the trace and the audit.
unfoldable pub deliver_one : Dispatcher → ℕ → Message → DeliveryStatus × String
unfolding check_policy
deliver_one d now m =
    if check_policy d.policy m
    then outcome (d.deliver now m)
    else (is_skipped, "Policy denied delivery")

-- `_process_message` after the delivery.
unfoldable pub record_result :
    Dispatcher → ℕ → Message → DeliveryStatus × String → List Message → List Message
unfolding set_status compute_backoff
record_result d now m (is_sent, error) rows =
    set_status d now m.id sent "" (m.delivery_attempts + 1) none rows
record_result d now m (is_skipped, error) rows =
    set_status d now m.id skipped error (m.delivery_attempts + 1) none rows
record_result d now m (is_failed, error) rows =
    let attempts = m.delivery_attempts + 1 in
    if leb max_retries attempts
    then set_status d now m.id dead_letter error attempts none rows
    else set_status d now m.id retrying error attempts (some (now + compute_backoff attempts)) rows

-- `_process_message`
unfoldable pub process_message : Dispatcher → ℕ → Message → List Message → List Message
unfolding set_status deliver_one record_result
process_message d now m rows =
    record_result d now m (deliver_one d now m)
      (set_status d now m.id delivering "" (m.delivery_attempts + 1) none rows)

unfoldable pub process_messages : Dispatcher → ℕ → List Message → List Message → List Message
unfolding process_message
process_messages d now [] rows = rows
process_messages d now (m ∷ ms) rows = process_messages d now ms (process_message d now m rows)

-- `process_batch`: the table, and the messages processed.
unfoldable pub process_batch : Dispatcher → ℕ → List Message → List Message × List Message
unfolding process_messages pending_messages
process_batch d now rows =
    let batch = pending_messages now rows in (process_messages d now batch rows, batch)

abbrev pub on_batch :
    List Message → Option (List Message) → Option (List Message) → Option (List Message)
on_batch [] stop rest = stop
on_batch (m ∷ ms) stop rest = rest

-- `process_all` from batch `k` on, which is read and processed at `clock k`, on fuel for the
-- batches; none where it runs out.
unfoldable pub process_all : Dispatcher → (ℕ → ℕ) → ℕ → ℕ → List Message → Option (List Message)
unfolding process_batch
process_all d clock k zero rows = none
process_all d clock k (suc fuel) rows =
    let r = process_batch d (clock k) rows in
    let rest = process_all d clock (suc k) fuel r.0 in on_batch r.1 (some rows) rest
