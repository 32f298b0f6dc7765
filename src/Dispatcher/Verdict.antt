-- ===== src/Dispatcher/Verdict.antt =====
-- autonomy/dispatcher.py: what one delivery does to its row, and a message that is retried by hand.
use mathlib.Core.Option as Opt
use cogito_agent.Policy.{new_engine}
use cogito_agent.Policy.Safety.{background_send_denied}
use cogito_agent.Sql.{update}
use cogito_agent.Prelude.{
  if-cases, leb, ◌≤◌, ◌==◌, false, true, ◌∙◌, refl, ℕ, ◌+◌, ◌≤◌, ◌≡◌, refl, ap, ◌∙◌, ◌==◌, String,
  true, false, Option, none, some, List, leb, arith, if◌then◌else◌, if-cases, ltb,
}
use cogito_agent.Sql.{find, update}
use cogito_agent.Sql.Laws.{find-update, find_holds}
use cogito_agent.Policy.{new_engine}
use cogito_agent.Policy.Safety.{background_send_denied}
use cogito_agent.Dispatcher.{
  or_kept, retry_message, reset_message, OutboxStatus, delivering, sent, retrying, dead_letter,
  skipped, Message, has_id, retry_message,
}
use cogito_agent.Dispatcher.Send.{
  check_policy, deliver_one, record_result, process_message, max_retries, Dispatcher,
  compute_backoff, with_status, set_status, check_policy, DeliveryStatus, is_sent, is_skipped,
  is_failed, deliver_one, record_result, process_message, max_retries,
}

-- What a delivery is to do to a row: its status, its attempts and the time of its next attempt.
pub record Fate : Type 0 where
  pub status : OutboxStatus
  pub attempts : ℕ
  pub next_retry : Option ℕ

abbrev pub fate_of : Message → Fate
fate_of m = record {
  status = m.status;
  attempts = m.delivery_attempts;
  next_retry = m.next_retry_at;
}

-- The fate by the result: the fifth failure is the last.
abbrev pub fate : ℕ → DeliveryStatus → Message → Fate
fate now is_sent m = record {
  status = sent;
  attempts = m.delivery_attempts + 1;
  next_retry = m.next_retry_at;
}
fate now is_skipped m = record {
  status = skipped;
  attempts = m.delivery_attempts + 1;
  next_retry = m.next_retry_at;
}
fate now is_failed m =
    if ltb m.delivery_attempts 4
    then record {
      status = retrying;
      attempts = m.delivery_attempts + 1;
      next_retry = some (now + compute_backoff (m.delivery_attempts + 1));
    }
    else record {
      status = dead_letter;
      attempts = m.delivery_attempts + 1;
      next_retry = m.next_retry_at;
    }

abbrev pub fates : String → List Message → Option Fate
fates id rows = Opt.map fate_of (find (has_id id) rows)

set_status-find :
    (d : Dispatcher) (now : ℕ) (id : String) (status : OutboxStatus) (e : String) (a : ℕ)
    (t : Option ℕ) (rows : List Message) (m : Message)
    → find (has_id id) rows ≡ some m
    → find (has_id id) (set_status d now id status e a t rows)
      ≡ some (with_status d now status e a t m)
unfolding set_status with_status
set_status-find d now id status e a t rows m found =
    find-update (has_id id) (has_id id) (with_status d now status e a t) rows (λ r. refl)
    ∙ rw (found, find_holds (has_id id) rows m found) refl

last_attempt : (a : ℕ) → leb max_retries (a + 1) ≡ true → ltb a 4 ≡ false
last_attempt a h = ground arith

more_attempts : (a : ℕ) → leb max_retries (a + 1) ≡ false → ltb a 4 ≡ true
more_attempts a h = ground arith

no_more : (a : ℕ) → 5 ≤ a → ltb a 4 ≡ false
no_more a h = ground arith

suc_test : (a : ℕ) → (a + 1 == 0) ≡ false
suc_test a = ground arith

fate-set_status :
    (d : Dispatcher) (now : ℕ) (id : String) (status : OutboxStatus) (e : String) (a : ℕ)
    (t : Option ℕ) (rows : List Message) (m : Message)
    → find (has_id id) rows ≡ some m
    → fates id (set_status d now id status e (a + 1) t rows)
      ≡ some (record { status = status; attempts = a + 1; next_retry = or_kept t m.next_retry_at })
unfolding with_status
fate-set_status d now id status e a t rows m found =
    ap (Opt.map fate_of) (set_status-find d now id status e (a + 1) t rows m found)
    ∙ rw (suc_test a) refl

fate-record_result :
    (d : Dispatcher) (now : ℕ) (m m' : Message) (x : DeliveryStatus × String) (rows : List Message)
    → find (has_id m.id) rows ≡ some m'
    → m'.next_retry_at ≡ m.next_retry_at
    → fates m.id (record_result d now m x rows) ≡ some (fate now x.0 m)
unfolding record_result
fate-record_result d now m m' (is_sent, e) rows found same =
    fate-set_status d now m.id sent "" m.delivery_attempts none rows m' found ∙ rw same refl
fate-record_result d now m m' (is_skipped, e) rows found same =
    fate-set_status d now m.id skipped e m.delivery_attempts none rows m' found ∙ rw same refl
fate-record_result d now m m' (is_failed, e) rows found same =
    let a = m.delivery_attempts in
    let later = some (now + compute_backoff (a + 1)) in
    if-cases (λ (x : List Message). fates m.id x ≡ some (fate now is_failed m))
      (leb max_retries (a + 1)) (set_status d now m.id dead_letter e (a + 1) none rows)
      (set_status d now m.id retrying e (a + 1) later rows)
      (λ y.
        fate-set_status d now m.id dead_letter e a none rows m' found
        ∙ rw (same, last_attempt a y) refl)
      (λ n.
        fate-set_status d now m.id retrying e a later rows m' found ∙ rw (more_attempts a n) refl)

-- After a delivery the row of the message has counted the attempt and is sent, skipped, or after a
-- failure retrying with its next attempt after the delay, and dead from the fifth failure on.
pub process_message-fate :
    (d : Dispatcher) (now : ℕ) (m : Message) (rows : List Message)
    → find (has_id m.id) rows ≡ some m
    → fates m.id (process_message d now m rows) ≡ some (fate now (deliver_one d now m).0 m)
unfolding process_message with_status
process_message-fate d now m rows found =
    let a = m.delivery_attempts + 1 in
    fate-record_result d now m (with_status d now delivering "" a none m) (deliver_one d now m)
      (set_status d now m.id delivering "" a none rows)
      (set_status-find d now m.id delivering "" a none rows m found) refl

default_policy_denies : (m : Message) → check_policy (new_engine none none) m ≡ false
unfolding check_policy
default_policy_denies m = rw (background_send_denied _ _ _)

default_skipped :
    (d : Dispatcher) (now : ℕ) (m : Message)
    → d.policy ≡ new_engine none none
    → (deliver_one d now m).0 ≡ is_skipped
unfolding deliver_one
default_skipped d now m p = rw (p, default_policy_denies m) refl

retry_message-found :
    (rows : List Message) (m : Message)
    → find (has_id m.id) rows ≡ some m
    → (retry_message m.id rows).0 ≡ update (has_id m.id) reset_message rows
unfolding retry_message
retry_message-found rows m found = rw (retry_message, found) refl

reset-find :
    (rows : List Message) (m : Message)
    → find (has_id m.id) rows ≡ some m
    → find (has_id m.id) (update (has_id m.id) reset_message rows) ≡ some (reset_message m)
reset-find rows m found =
    find-update (has_id m.id) (has_id m.id) reset_message rows (λ r. refl)
    ∙ rw (found, find_holds (has_id m.id) rows m found) refl

-- With the default policy engine and no light model in it, each message is skipped at its first
-- attempt, whatever the adapter would do.
pub default_engine_skips :
    (d : Dispatcher) (now : ℕ) (m : Message) (rows : List Message)
    → d.policy ≡ new_engine none none
    → find (has_id m.id) rows ≡ some m
    → fates m.id (process_message d now m rows) ≡ some (fate now is_skipped m)
default_engine_skips d now m rows p found =
    process_message-fate d now m rows found
    ∙ ap (λ (x : DeliveryStatus). some (fate now x m)) (default_skipped d now m p)

-- A dead message that is retried by `retry_message` has one attempt: it is dead again after its
-- next failure.
pub retried_once :
    (d : Dispatcher) (now : ℕ) (m : Message) (rows : List Message)
    → find (has_id m.id) rows ≡ some m
    → 5 ≤ m.delivery_attempts
    → (deliver_one d now (reset_message m)).0 ≡ is_failed
    → fates m.id (process_message d now (reset_message m) (retry_message m.id rows).0)
      ≡ some
          (record { status = dead_letter; attempts = m.delivery_attempts + 1; next_retry = none })
retried_once d now m rows found dead fails = rw (retry_message-found rows m found) (
    process_message-fate d now (reset_message m) (update (has_id m.id) reset_message rows)
      (reset-find rows m found)
    ∙ rw (fails, no_more m.delivery_attempts dead) refl)
