-- ===== src/Runs/Terminal.antt =====
-- runs/repository.py: a run that has succeeded.
use mathlib.Core.Option as Opt
use cogito_agent.Prelude.{
  ◌≡◌, refl, ap, ◌∙◌, String, ℕ, Bool, true, ◌&&◌, Option, some, List, [], ◌∷◌, ◌++◌, arith,
  Bool-cases, inl, inr, ◌=s◌,
}
use cogito_agent.Sql.{find, update, select, change}
use cogito_agent.Sql.Laws.{find-update, find-append_old}
use cogito_agent.Runs.{
  RunStatus, succeeded, is_running, is_terminal, Run, RunDb, Env, has_id, get, update_run,
}
use cogito_agent.Runs.Lifecycle.{
  claim, claimable, claimed, heartbeat, beats, beaten, pause_for_approval, pausable, paused,
  resume_waiting, resumable, resumed, set_trace_id, finishable, finished, cancel, cancellable,
  cancelled_run, retry, retryable, retried, status_text,
}
use cogito_agent.Runs.Create.{NewRun, create, new_run}
use cogito_agent.Runs.Expiry.{abandon_expired, abandon_rows, expired, abandon, running_id}
use cogito_agent.Runs.Spec.{runs-update_run}
use cogito_agent.Runs.Rows.{
  IsKept, runs-expiry_events, runs-create, runs-add_output, finish_refused, finish_accepted,
}
use cogito_agent.Runs.Ops.{
  Op, create_op, claim_op, heartbeat_op, pause_op, resume_op, trace_op, finish_op, cancel_op,
  retry_op, abandon_op, output_op, apply, run_ops, run_ops_induction,
}

module _ (Q : Run → Type 0) (k : String) where
  -- The run `k` is there, and has the property.
  abbrev Has : List Run → Type 0
  Has rows = (r : Run) × (find (has_id k) rows ≡ some r) × Q r

  Has-update :
      (sel : Run → Bool) (f : Run → Run) (rows : List Run)
      → ((r : Run) → (f r).id ≡ r.id)
      → ((r : Run) → Q r → sel r ≡ true → Q (f r))
      → Has rows
      → Has (update sel f rows)
  Has-update sel f rows ids keep (r, found, q) = (
    change sel f r,
    find-update (has_id k) sel f rows (λ x. ap (λ i. i =s k) (ids x))
        ∙ ap (Opt.map (change sel f)) found,
    elim (Bool-cases (sel r)) [ inl e ↦ rw e (keep r q e) | inr e ↦ rw e q ],
  )

  second : (a b : Bool) → (a && b) ≡ true → b ≡ true
  second a b h = ground arith

  Has-guarded :
      (id : String) (guard : Run → Bool) (f : Run → Run) (rows : List Run)
      → ((r : Run) → (f r).id ≡ r.id)
      → ((r : Run) → Q r → guard r ≡ true → Q (f r))
      → Has rows
      → Has (update (λ r. has_id id r && guard r) f rows)
  Has-guarded id guard f rows ids keep =
      Has-update (λ r. has_id id r && guard r) f rows ids
        (λ r q s. keep r q (second (has_id id r) (guard r) s))

  Has-update_run :
      (env : Env) (id ty : String) (payload : List (String × String)) (guard : Run → Bool)
      (f : Run → Run) (db : RunDb)
      → ((r : Run) → (f r).id ≡ r.id)
      → ((r : Run) → Q r → guard r ≡ true → Q (f r))
      → Has db.runs
      → Has (update_run env id ty payload guard f db).0.runs
  Has-update_run env id ty payload guard f db ids keep h =
      rw (runs-update_run env id ty payload guard f ids db)
        (Has-guarded id guard f db.runs ids keep h)

  Has-abandoned :
      (now : ℕ) (xs rows : List Run)
      → ((r : Run) → Q r → is_running r.status ≡ true → Q (abandon now r))
      → Has rows
      → Has (abandon_rows now xs rows)
  unfolding abandon_rows
  Has-abandoned now [] rows keep h = h
  Has-abandoned now (x ∷ xs) rows keep h =
      Has-abandoned now xs (update (running_id x.id) (abandon now) rows) keep
        (Has-guarded x.id (λ r. is_running r.status) (abandon now) rows (λ r. refl) keep h)

  Has-more : (rows : List Run) (x : Run) → Has rows → Has (rows ++ x ∷ [])
  Has-more rows x (r, found, q) = (r, find-append_old (has_id k) rows x r found, q)

module _ (Q : Run → Type 0) (k : String) (keep : IsKept Q) where
  Has-create :
      (env : Env) (a : NewRun) (db : RunDb) → Has Q k db.runs → Has Q k (create env a db).0.runs
  Has-create env a db h = elim (runs-create env a db) [
    | inl same ↦ rw same h
    | inr more ↦ rw more (Has-more Q k db.runs (new_run env a) h)
  ]

  Has-finish :
      (env : Env) (id : String) (s : RunStatus) (d : List (String × String)) (c m : String)
      (db : RunDb)
      → Has Q k db.runs
      → Has Q k (apply (finish_op env id s d c m) db).runs
  Has-finish env id s d c m db h = elim (Bool-cases (is_terminal s)) [
    | inr refused ↦ rw (finish_refused env id s d c m db refused) h
    | inl terminal ↦ rw (finish_accepted env id s d c m db terminal) (
        Has-update_run Q k env id "finished" (("status", status_text s) ∷ ("error_code", c) ∷ [])
          finishable (finished env s (env.redact (env.dumps d)) c (env.redact m)) db (λ r. refl)
          (λ r q g. keep.at_finish env s (env.redact (env.dumps d)) c (env.redact m) r q terminal g)
          h)
  ]

  Has-apply : (o : Op) (db : RunDb) → Has Q k db.runs → Has Q k (apply o db).runs
  unfolding apply claim heartbeat pause_for_approval resume_waiting set_trace_id cancel retry
      abandon_expired
  Has-apply (create_op env a) db h = Has-create env a db h
  Has-apply (claim_op env id w l) db h =
      Has-update_run Q k env id "claimed" (("worker_id", w) ∷ []) claimable (claimed env w l) db
        (λ r. refl) (keep.at_claim env w l) h
  Has-apply (heartbeat_op env id w l) db h =
      Has-guarded Q k id (beats w) (beaten env l) db.runs (λ r. refl) (keep.at_heartbeat env w l) h
  Has-apply (pause_op env id approval) db h =
      Has-update_run Q k env id "waiting_approval" (("approval_id", approval) ∷ []) pausable paused
        db (λ r. refl) keep.at_pause h
  Has-apply (resume_op env id w l) db h =
      Has-update_run Q k env id "resumed" (("worker_id", w) ∷ []) resumable (resumed env w l) db
        (λ r. refl) (keep.at_resume env w l) h
  Has-apply (trace_op id t) db h =
      Has-update Q k (has_id id) (λ r. record r { trace_id = t }) db.runs (λ r. refl)
        (λ r q s. keep.at_trace t r q) h
  Has-apply (finish_op env id s d c m) db h = Has-finish env id s d c m db h
  Has-apply (cancel_op env id why) db h =
      Has-update_run Q k env id "cancelled" (("reason", env.redact why) ∷ []) cancellable
        (cancelled_run env (env.redact why)) db (λ r. refl) (keep.at_cancel env (env.redact why)) h
  Has-apply (retry_op env id) db h =
      Has-update_run Q k env id "retry_requested" [] retryable retried db (λ r. refl) keep.at_retry
        h
  Has-apply (abandon_op env t) db h =
      rw (runs-expiry_events env 0 (select (expired env.now t) db.runs)) (
        Has-abandoned Q k env.now (select (expired env.now t) db.runs) db.runs
          (keep.at_abandon env.now) h)
  Has-apply (output_op env id t ref) db h = rw (runs-add_output env id t ref db) h

-- The run has succeeded with this result, after so many attempts, and ended then.
pub record HasSucceeded (result : String) (attempts : ℕ) (ended : Option ℕ) (r : Run) : Type 0 where
  pub status : r.status ≡ succeeded
  pub result_json : r.result_json ≡ result
  pub attempt_count : r.attempt_count ≡ attempts
  pub finished_at : r.finished_at ≡ ended

HasSucceeded-kept : (j : String) (n : ℕ) (t : Option ℕ) → IsKept (HasSucceeded j n t)
HasSucceeded-kept j n t = record {
  at_claim = λ env w l r p g. ground (arith, p.status);
  at_heartbeat = λ env w l r p g. ground (arith, p.status);
  at_pause = λ r p g. ground (arith, p.status);
  at_resume = λ env w l r p g. ground (arith, p.status);
  at_trace = λ t r p. ground arith;
  at_finish = λ env s d c m r p t g. ground (arith, p.status);
  at_cancel = λ env why r p g. ground (arith, p.status);
  at_retry = λ r p g. ground (arith, p.status);
  at_abandon = λ now r p g. ground (arith, p.status);
}

-- Success is final: once a run has succeeded, no sequence of calls removes it or changes its
-- status, its result, its number of attempts or its end time.
pub succeeded_is_final :
    (os : List Op) (db : RunDb) (id : String) (r : Run)
    → get db id ≡ some r
    → r.status ≡ succeeded
    → (r' : Run) × (get (run_ops os db) id ≡ some r')
      × HasSucceeded r.result_json r.attempt_count r.finished_at r'
unfolding get
succeeded_is_final os db id r found done =
    let Q = HasSucceeded r.result_json r.attempt_count r.finished_at in
    run_ops_induction (λ db. Has Q id db.runs)
      (Has-apply Q id (HasSucceeded-kept r.result_json r.attempt_count r.finished_at)) os db
      (
        r,
        found,
        record { status = done; result_json = refl; attempt_count = refl; finished_at = refl },
      )
