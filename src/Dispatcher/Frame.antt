-- ===== src/Dispatcher/Frame.antt =====
-- autonomy/dispatcher.py: the rows that a batch does not select.
use cogito_agent.Prelude.{
  ℕ, ◌+◌, ◌≤◌, ◌≡◌, refl, ap, ◌∙◌, String, Bool, true, false, ◌&&◌, Option, none, some, List, [],
  ◌∷◌, leb, arith, eq_iff, ◌=s◌, if-cases,
}
use cogito_agent.Sql.{find, rowcount, select}
use cogito_agent.Sql.Laws.{find-update_other, rowcount-select, rowcount_key, count_of}
use cogito_agent.Dispatcher.{
  OutboxStatus, delivering, sent, skipped, dead_letter, retrying, Message, has_id, due, ordered,
  pending_messages, batch_size,
}
use cogito_agent.Dispatcher.Send.{
  Dispatcher, compute_backoff, with_status, set_status, DeliveryStatus, is_sent, is_skipped,
  is_failed, deliver_one, record_result, process_message, process_messages, process_batch,
  max_retries,
}
use cogito_agent.Dispatcher.Drain.{rowcount-ordered, rowcount-take}

apart :
    (id other : String) (r : Message)
    → (other =s id) ≡ false
    → has_id id r ≡ true
    → has_id other r ≡ false
apart id other r n h = ground (arith, eq_iff r.id id, eq_iff r.id other, eq_iff other id)

set_status-other :
    (d : Dispatcher) (now : ℕ) (id other : String) (status : OutboxStatus) (e : String) (a : ℕ)
    (t : Option ℕ) (rows : List Message)
    → (other =s id) ≡ false
    → find (has_id id) (set_status d now other status e a t rows) ≡ find (has_id id) rows
unfolding set_status with_status
set_status-other d now id other status e a t rows n =
    find-update_other (has_id id) (has_id other) (with_status d now status e a t) rows (λ r. refl)
      (λ r h. apart id other r n h)

record_result-other :
    (d : Dispatcher) (now : ℕ) (id : String) (m : Message) (x : DeliveryStatus × String)
    (rows : List Message)
    → has_id id m ≡ false
    → find (has_id id) (record_result d now m x rows) ≡ find (has_id id) rows
unfolding record_result
record_result-other d now id m (is_sent, e) rows n =
    set_status-other d now id m.id sent "" (m.delivery_attempts + 1) none rows n
record_result-other d now id m (is_skipped, e) rows n =
    set_status-other d now id m.id skipped e (m.delivery_attempts + 1) none rows n
record_result-other d now id m (is_failed, e) rows n =
    let a = m.delivery_attempts + 1 in
    let later = some (now + compute_backoff a) in
    if-cases (λ (x : List Message). find (has_id id) x ≡ find (has_id id) rows) (leb max_retries a)
      (set_status d now m.id dead_letter e a none rows)
      (set_status d now m.id retrying e a later rows)
      (λ y. set_status-other d now id m.id dead_letter e a none rows n)
      (λ y. set_status-other d now id m.id retrying e a later rows n)

process_messages-other :
    (d : Dispatcher) (now : ℕ) (id : String) (ms rows : List Message)
    → rowcount (has_id id) ms ≡ 0
    → find (has_id id) (process_messages d now ms rows) ≡ find (has_id id) rows
unfolding process_messages process_message rowcount
process_messages-other d now id [] rows h = refl
process_messages-other d now id (m ∷ ms) rows h =
    let n : has_id id m ≡ false = ground (arith, h) in
    let a = m.delivery_attempts + 1 in
    let rows' = set_status d now m.id delivering "" a none rows in
    process_messages-other d now id ms (record_result d now m (deliver_one d now m) rows')
      (ground (arith, h))
    ∙ record_result-other d now id m (deliver_one d now m) rows' n
    ∙ set_status-other d now id m.id delivering "" a none rows n

first : (a b : Bool) → (a && b) ≡ true → a ≡ true
first a b h = ground arith

not_selected :
    (now : ℕ) (id : String) (rows : List Message) (m : Message)
    → rowcount (has_id id) rows ≤ 1
    → find (has_id id) rows ≡ some m
    → due now m ≡ false
    → rowcount (λ r. has_id id r && due now r) rows ≡ 0
not_selected now id rows m key found n =
    let sel = λ (r : Message). has_id id r && due now r in
    rowcount_key (has_id id) sel rows (λ r h. first (has_id id r) (due now r) h) key
    ∙ ap (count_of sel) found
    ∙ ground (arith, n)

-- A batch leaves the row of an id as it was where it is the only one with the id and is not due:
-- so with a message that was left in delivering, at whatever time.
pub process_batch-other :
    (d : Dispatcher) (now : ℕ) (id : String) (rows : List Message) (m : Message)
    → rowcount (has_id id) rows ≤ 1
    → find (has_id id) rows ≡ some m
    → due now m ≡ false
    → find (has_id id) (process_batch d now rows).0 ≡ some m
unfolding process_batch pending_messages
process_batch-other d now id rows m key found n =
    let batch = select (due now) rows in
    process_messages-other d now id (pending_messages now rows) rows (
      omega (
        arith,
        rowcount-take (has_id id) batch_size (ordered batch),
        rowcount-ordered (has_id id) batch,
        rowcount-select (has_id id) (due now) rows,
        not_selected now id rows m key found n,
      ))
    ∙ found
