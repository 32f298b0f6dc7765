-- ===== src/Dispatcher/Due.antt =====
-- autonomy/dispatcher.py: the messages that are due, before and after a delivery.
use cogito_agent.Prelude.{
  ℕ, ◌+◌, ◌≤◌, ◌<◌, ◌≡◌, refl, String, Bool, false, ◌&&◌, Option, none, some, List, [], ◌∷◌, leb,
  arith, if-cases,
}
use cogito_agent.Sql.{update, rowcount}
use cogito_agent.Dispatcher.{
  OutboxStatus, delivering, sent, retrying, dead_letter, skipped, is_waiting, Message, has_id, due,
}
use cogito_agent.Dispatcher.Send.{
  Dispatcher, compute_backoff, with_status, set_status, DeliveryStatus, is_sent, is_skipped,
  is_failed, deliver_one, record_result, process_message, process_messages, max_retries,
}
use cogito_agent.Dispatcher.Backoff.{backoff_bounds}

-- An update after which no row that it touches is due takes away just the due rows it touches.
rowcount-settle :
    (q sel : Message → Bool) (f : Message → Message) (rows : List Message)
    → ((r : Message) → q (f r) ≡ false)
    → rowcount q (update sel f rows) + rowcount (λ r. sel r && q r) rows ≡ rowcount q rows
unfolding rowcount update
rowcount-settle q sel f [] h = refl
rowcount-settle q sel f (r ∷ rows) h = ground (arith, h r, rowcount-settle q sel f rows h)

not_due :
    (d : Dispatcher) (now limit : ℕ) (status : OutboxStatus) (e : String) (a : ℕ) (t : Option ℕ)
    (r : Message)
    → is_waiting status ≡ false
    → due limit (with_status d now status e a t r) ≡ false
unfolding with_status
not_due d now limit status e a t r h = rw h refl

retry_not_due :
    (d : Dispatcher) (now limit : ℕ) (e : String) (a : ℕ) (r : Message)
    → limit < now + 30
    → due limit (with_status d now retrying e a (some (now + compute_backoff a)) r) ≡ false
unfolding with_status
retry_not_due d now limit e a r h = let b = backoff_bounds a in ground (arith, b.0)

settle_le :
    (d : Dispatcher) (now limit : ℕ) (id : String) (status : OutboxStatus) (e : String) (a : ℕ)
    (t : Option ℕ) (rows : List Message)
    → ((r : Message) → due limit (with_status d now status e a t r) ≡ false)
    → rowcount (due limit) (set_status d now id status e a t rows)
        + rowcount (λ r. has_id id r && due limit r) rows
      ≡ rowcount (due limit) rows
unfolding set_status
settle_le d now limit id status e a t rows h =
    rowcount-settle (due limit) (has_id id) (with_status d now status e a t) rows h

le_of_sum : (a b c : ℕ) → a + b ≡ c → a ≤ c
le_of_sum a b c h = omega (arith, h)

record_result_le :
    (d : Dispatcher) (now limit : ℕ) (m : Message) (x : DeliveryStatus × String)
    (rows : List Message)
    → limit < now + 30
    → rowcount (due limit) (record_result d now m x rows) ≤ rowcount (due limit) rows
unfolding record_result
record_result_le d now limit m (is_sent, e) rows h = le_of_sum _ _ _ (
    settle_le d now limit m.id sent "" (m.delivery_attempts + 1) none rows
      (λ r. not_due d now limit sent "" (m.delivery_attempts + 1) none r refl))
record_result_le d now limit m (is_skipped, e) rows h = le_of_sum _ _ _ (
    settle_le d now limit m.id skipped e (m.delivery_attempts + 1) none rows
      (λ r. not_due d now limit skipped e (m.delivery_attempts + 1) none r refl))
record_result_le d now limit m (is_failed, e) rows h =
    let a = m.delivery_attempts + 1 in
    let later = some (now + compute_backoff a) in
    if-cases (λ (x : List Message). rowcount (due limit) x ≤ rowcount (due limit) rows)
      (leb max_retries a) (set_status d now m.id dead_letter e a none rows)
      (set_status d now m.id retrying e a later rows)
      (λ y. le_of_sum _ _ _ (
        settle_le d now limit m.id dead_letter e a none rows
          (λ r. not_due d now limit dead_letter e a none r refl)))
      (λ n. le_of_sum _ _ _ (
        settle_le d now limit m.id retrying e a later rows
          (λ r. retry_not_due d now limit e a r h)))

-- A message that is processed is no longer due, and no other becomes due.
pub process_message_count :
    (d : Dispatcher) (now limit : ℕ) (m : Message) (rows : List Message)
    → limit < now + 30
    → rowcount (due limit) (process_message d now m rows)
        + rowcount (λ r. has_id m.id r && due limit r) rows
      ≤ rowcount (due limit) rows
unfolding process_message
process_message_count d now limit m rows h =
    let a = m.delivery_attempts + 1 in
    let rows' = set_status d now m.id delivering "" a none rows in
    omega (
      arith,
      record_result_le d now limit m (deliver_one d now m) rows' h,
      settle_le d now limit m.id delivering "" a none rows
          (λ r. not_due d now limit delivering "" a none r refl),
    )

pub process_messages_le :
    (d : Dispatcher) (now limit : ℕ) (ms rows : List Message)
    → limit < now + 30
    → rowcount (due limit) (process_messages d now ms rows) ≤ rowcount (due limit) rows
unfolding process_messages
process_messages_le d now limit [] rows h = omega arith
process_messages_le d now limit (m ∷ ms) rows h = omega (
  arith,
  process_message_count d now limit m rows h,
  process_messages_le d now limit ms (process_message d now m rows) h,
)
