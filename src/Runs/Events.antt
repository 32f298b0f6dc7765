-- ===== src/Runs/Events.antt =====
-- runs/repository.py: the sequence numbers of the events of a run.
use cogito_agent.Prelude.{
  ◌&&◌, ℕ, suc, ◌+◌, max, ◌≡◌, ap, String, Bool, true, List, [], ◌∷◌, ◌++◌, length, arith,
  if◌then◌else◌, Bool-cases, inl, inr, ◌==◌, eq_iff,
}
use cogito_agent.Sql.{select, rowcount, update}
use cogito_agent.Runs.{
  Run, RunEvent, RunDb, Env, of_run, max_sequence, append_event, update_run, RunStatus, has_id,
  is_terminal,
}
use cogito_agent.Runs.Lifecycle.{
  claimable, claimed, pausable, paused, resumable, resumed, cancellable, cancelled_run, retryable,
  retried, finishable, finished, claim, heartbeat, pause_for_approval, resume_waiting, set_trace_id,
  cancel, retry, status_text,
}
use cogito_agent.Runs.Create.{or_empty, new_run, NewRun, create, add_output, violates}
use cogito_agent.Runs.Expiry.{expired, abandon_rows, abandon_expired, expiry_events}
use cogito_agent.Runs.Rows.{finish_refused, finish_accepted}
use cogito_agent.Runs.Ops.{
  Op, create_op, claim_op, heartbeat_op, pause_op, resume_op, trace_op, finish_op, cancel_op,
  retry_op, abandon_op, output_op, apply, run_ops, run_ops_induction,
}

-- The numbers are n + 1, n + 2, … in the order of the list.
abbrev pub NumberedFrom : ℕ → List RunEvent → Type 0
NumberedFrom n [] = Unit
NumberedFrom n (e ∷ es) = (e.sequence ≡ suc n) × NumberedFrom (suc n) es

-- Of each run the events are numbered 1, 2, 3, … in the order in which they were appended.
abbrev pub IsNumbered : RunDb → Type 0
IsNumbered db = (id : String) → NumberedFrom 0 (select (of_run id) db.events)

max_numbered_head :
    (k : String) (e : RunEvent) (es : List RunEvent) (n : ℕ)
    → (e.sequence ≡ suc n) × NumberedFrom (suc n) (select (of_run k) es)
    → (NumberedFrom (suc n) (select (of_run k) es)
        → max (suc n) (max_sequence k es) ≡ suc n + length (select (of_run k) es))
    → max n (max e.sequence (max_sequence k es)) ≡ n + suc (length (select (of_run k) es))
max_numbered_head k e es n h rest = omega (arith, h.0, rest h.1)

max_numbered :
    (k : String) (es : List RunEvent) (n : ℕ)
    → NumberedFrom n (select (of_run k) es)
    → max n (max_sequence k es) ≡ n + length (select (of_run k) es)
unfolding max_sequence select
max_numbered k [] n h = omega arith
max_numbered k (e ∷ es) n h = elim (Bool-cases (of_run k e)) [
  | inr other_run ↦ rw other_run (max_numbered k es n (rw other_run at h))
  | inl own ↦ rw own (max_numbered_head k e es n (rw own at h) (max_numbered k es (suc n)))
]

numbered_append :
    (n : ℕ) (es : List RunEvent) (e : RunEvent)
    → NumberedFrom n es
    → e.sequence ≡ suc (n + length es)
    → NumberedFrom n (es ++ e ∷ [])
numbered_append n [] e h s = (omega arith, tt)
numbered_append n (x ∷ es) e h s = (h.0, numbered_append (suc n) es e h.1 (omega arith))

select-append_one :
    (k : String) (es : List RunEvent) (e : RunEvent)
    → select (of_run k) (es ++ e ∷ [])
      ≡ (if of_run k e then select (of_run k) es ++ e ∷ [] else select (of_run k) es)
unfolding select
select-append_one k [] e = ground arith
select-append_one k (x ∷ es) e = ground (arith, select-append_one k es e)

numbered_insert :
    (k : String) (es : List RunEvent) (e : RunEvent)
    → NumberedFrom 0 (select (of_run k) es)
    → (of_run k e ≡ true → e.sequence ≡ max_sequence k es + 1)
    → NumberedFrom 0 (select (of_run k) (es ++ e ∷ []))
numbered_insert k es e h next = rw (select-append_one k es e) (elim (Bool-cases (of_run k e)) [
  | inr other_run ↦ rw other_run h
  | inl own ↦ rw own (
      numbered_append 0 (select (of_run k) es) e h (omega (arith, next own, max_numbered k es 0 h)))
])

append_event-IsNumbered :
    (env : Env) (n : ℕ) (run_id ty : String) (payload : List (String × String)) (db : RunDb)
    → IsNumbered db
    → IsNumbered (append_event env n run_id ty payload db)
unfolding append_event
append_event-IsNumbered env n run_id ty payload db h k =
    numbered_insert k db.events
      (record {
        id = env.uuid n;
        run_id = run_id;
        sequence = max_sequence run_id db.events + 1;
        event_type = ty;
        payload_json = env.redact (env.dumps payload);
        created_at = env.event_now n;
      })
      (h k) (λ own. ap (λ i. max_sequence i db.events + 1) ((eq_iff run_id k).0 own))

update_run-IsNumbered :
    (env : Env) (id ty : String) (payload : List (String × String)) (guard : Run → Bool)
    (f : Run → Run) (db : RunDb)
    → IsNumbered db
    → IsNumbered (update_run env id ty payload guard f db).0
unfolding update_run
update_run-IsNumbered env id ty payload guard f db h =
    elim (Bool-cases (rowcount (λ r. has_id id r && guard r) db.runs == 1)) [
      | inr none_changed ↦ rw none_changed h
      | inl one ↦ rw one (
          append_event-IsNumbered env 0 id ty payload
            (record db { runs = update (λ r. has_id id r && guard r) f db.runs }) h)
    ]

expiry_events-IsNumbered :
    (env : Env) (n : ℕ) (xs : List Run) (db : RunDb)
    → IsNumbered db
    → IsNumbered (expiry_events env n xs db)
unfolding expiry_events
expiry_events-IsNumbered env n [] db h = h
expiry_events-IsNumbered env n (x ∷ xs) db h =
    expiry_events-IsNumbered env (suc n) xs (append_event env n x.id "lease_expired" [] db)
      (append_event-IsNumbered env n x.id "lease_expired" [] db h)

create-IsNumbered :
    (env : Env) (a : NewRun) (db : RunDb) → IsNumbered db → IsNumbered (create env a db).0
unfolding create
create-IsNumbered env a db h = elim (Bool-cases (violates env a db)) [
  | inl old ↦ rw old h
  | inr new ↦ rw new (
      append_event-IsNumbered env 1 (env.uuid 0) "created"
        (("scheduled_at", or_empty a.scheduled_at) ∷ [])
        (record db { runs = db.runs ++ new_run env a ∷ [] }) h)
]

finish-IsNumbered :
    (env : Env) (id : String) (s : RunStatus) (d : List (String × String)) (c m : String)
    (db : RunDb)
    → IsNumbered db
    → IsNumbered (apply (finish_op env id s d c m) db)
finish-IsNumbered env id s d c m db h = elim (Bool-cases (is_terminal s)) [
  | inr refused ↦ rw (finish_refused env id s d c m db refused) h
  | inl terminal ↦ rw (finish_accepted env id s d c m db terminal) (
      update_run-IsNumbered env id "finished" (("status", status_text s) ∷ ("error_code", c) ∷ [])
        finishable (finished env s (env.redact (env.dumps d)) c (env.redact m)) db h)
]

events-add_output :
    (env : Env) (id ty ref : String) (db : RunDb)
    → (add_output env id ty ref db).0.events ≡ db.events
unfolding add_output
events-add_output env id ty ref db = ground arith

apply-IsNumbered : (o : Op) (db : RunDb) → IsNumbered db → IsNumbered (apply o db)
unfolding apply claim heartbeat pause_for_approval resume_waiting set_trace_id cancel retry
    abandon_expired
apply-IsNumbered (create_op env a) db h = create-IsNumbered env a db h
apply-IsNumbered (claim_op env id w l) db h =
    update_run-IsNumbered env id "claimed" (("worker_id", w) ∷ []) claimable (claimed env w l) db h
apply-IsNumbered (heartbeat_op env id w l) db h = h
apply-IsNumbered (pause_op env id approval) db h =
    update_run-IsNumbered env id "waiting_approval" (("approval_id", approval) ∷ []) pausable paused
      db h
apply-IsNumbered (resume_op env id w l) db h =
    update_run-IsNumbered env id "resumed" (("worker_id", w) ∷ []) resumable (resumed env w l) db h
apply-IsNumbered (trace_op id t) db h = h
apply-IsNumbered (finish_op env id s d c m) db h = finish-IsNumbered env id s d c m db h
apply-IsNumbered (cancel_op env id why) db h =
    update_run-IsNumbered env id "cancelled" (("reason", env.redact why) ∷ []) cancellable
      (cancelled_run env (env.redact why)) db h
apply-IsNumbered (retry_op env id) db h =
    update_run-IsNumbered env id "retry_requested" [] retryable retried db h
apply-IsNumbered (abandon_op env t) db h =
    expiry_events-IsNumbered env 0 (select (expired env.now t) db.runs)
      (record db { runs = abandon_rows env.now (select (expired env.now t) db.runs) db.runs }) h
apply-IsNumbered (output_op env id t ref) db h = rw (events-add_output env id t ref db) h

-- After any sequence of calls on tables with numbered events, and so on empty ones, the events of
-- each run are numbered 1, 2, 3, … without a gap or a repetition, in the order of their insertion.
pub events-IsNumbered : (os : List Op) (db : RunDb) → IsNumbered db → IsNumbered (run_ops os db)
events-IsNumbered = run_ops_induction IsNumbered apply-IsNumbered
