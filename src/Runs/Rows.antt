-- ===== src/Runs/Rows.antt =====
-- runs/repository.py: what holds of each run, kept by each of the calls.
use cogito_agent.Prelude.{
  ◌⊎◌, ◌≡◌, refl, String, Bool, true, false, ◌&&◌, List, [], ◌∷◌, ◌++◌, All, arith, suc, ℕ,
  Bool-cases, inl, inr,
}
use cogito_agent.Sql.{update, select}
use cogito_agent.Sql.Laws.{All-update, All-append_one}
use cogito_agent.Runs.{
  is_terminal, is_running, RunStatus, Run, RunDb, Env, has_id, append_event, update_run,
}
use cogito_agent.Runs.Lifecycle.{
  status_text, claim, claimable, claimed, heartbeat, beats, beaten, pause_for_approval, pausable,
  paused, resume_waiting, resumable, resumed, set_trace_id, finish, finishable, finished, cancel,
  cancellable, cancelled_run, retry, retryable, retried,
}
use cogito_agent.Runs.Create.{NewRun, create, add_output, new_run, violates}
use cogito_agent.Runs.Expiry.{
  expired, abandon_expired, abandon_rows, expiry_events, abandon, running_id,
}
use cogito_agent.Runs.Spec.{runs-update_run}
use cogito_agent.Runs.Ops.{
  Op, create_op, claim_op, heartbeat_op, pause_op, resume_op, trace_op, finish_op, cancel_op,
  retry_op, abandon_op, output_op, apply,
}

-- `P` is kept by what each call does to a run that its guard admits.
pub record IsKept (P : Run → Type 0) : Type 0 where
  pub at_claim :
      (env : Env) (w : String) (l : ℕ) (r : Run) → P r → claimable r ≡ true → P (claimed env w l r)
  pub at_heartbeat :
      (env : Env) (w : String) (l : ℕ) (r : Run) → P r → beats w r ≡ true → P (beaten env l r)
  pub at_pause : (r : Run) → P r → pausable r ≡ true → P (paused r)
  pub at_resume :
      (env : Env) (w : String) (l : ℕ) (r : Run) → P r → resumable r ≡ true → P (resumed env w l r)
  pub at_trace : (t : String) (r : Run) → P r → P (record r { trace_id = t })
  pub at_finish :
      (env : Env) (s : RunStatus) (d c m : String) (r : Run)
      → P r
      → is_terminal s ≡ true
      → finishable r ≡ true
      → P (finished env s d c m r)
  pub at_cancel :
      (env : Env) (why : String) (r : Run)
      → P r
      → cancellable r ≡ true
      → P (cancelled_run env why r)
  pub at_retry : (r : Run) → P r → retryable r ≡ true → P (retried r)
  pub at_abandon : (now : ℕ) (r : Run) → P r → is_running r.status ≡ true → P (abandon now r)

module _ (P : Run → Type 0) where
  abbrev pub EachRun : RunDb → Type 0
  EachRun db = All P db.runs

  second : (a b : Bool) → (a && b) ≡ true → b ≡ true
  second a b h = ground arith

  each_update :
      (k : String) (guard : Run → Bool) (f : Run → Run) (rows : List Run)
      → ((r : Run) → P r → guard r ≡ true → P (f r))
      → All P rows
      → All P (update (λ r. has_id k r && guard r) f rows)
  each_update k guard f rows keep h =
      All-update P (λ r. has_id k r && guard r) f rows
        (λ r p s. keep r p (second (has_id k r) (guard r) s)) h

  each_update_run :
      (env : Env) (k ty : String) (payload : List (String × String)) (guard : Run → Bool)
      (f : Run → Run) (db : RunDb)
      → ((r : Run) → (f r).id ≡ r.id)
      → ((r : Run) → P r → guard r ≡ true → P (f r))
      → EachRun db
      → EachRun (update_run env k ty payload guard f db).0
  each_update_run env k ty payload guard f db ids keep h =
      rw (runs-update_run env k ty payload guard f ids db) (each_update k guard f db.runs keep h)

  each_abandoned :
      (now : ℕ) (xs rows : List Run)
      → ((r : Run) → P r → is_running r.status ≡ true → P (abandon now r))
      → All P rows
      → All P (abandon_rows now xs rows)
  unfolding abandon_rows
  each_abandoned now [] rows keep h = h
  each_abandoned now (x ∷ xs) rows keep h =
      each_abandoned now xs (update (running_id x.id) (abandon now) rows) keep
        (each_update x.id (λ r. is_running r.status) (abandon now) rows keep h)

pub runs-expiry_events :
    (env : Env) (n : ℕ) (xs : List Run) (db : RunDb) → (expiry_events env n xs db).runs ≡ db.runs
unfolding expiry_events append_event
runs-expiry_events env n [] db = refl
runs-expiry_events env n (x ∷ xs) db =
    runs-expiry_events env (suc n) xs (append_event env n x.id "lease_expired" [] db)

pub runs-create :
    (env : Env) (a : NewRun) (db : RunDb)
    → ((create env a db).0.runs ≡ db.runs)
      ⊎ ((create env a db).0.runs ≡ db.runs ++ new_run env a ∷ [])
unfolding create append_event
runs-create env a db = elim (Bool-cases (violates env a db)) [
  | inl old ↦ inl (ground arith)
  | inr new ↦ inr (ground arith)
]

pub runs-add_output :
    (env : Env) (id ty ref : String) (db : RunDb) → (add_output env id ty ref db).0.runs ≡ db.runs
unfolding add_output
runs-add_output env id ty ref db = ground arith

pub finish_refused :
    (env : Env) (id : String) (s : RunStatus) (d : List (String × String)) (c m : String)
    (db : RunDb)
    → is_terminal s ≡ false
    → apply (finish_op env id s d c m) db ≡ db
unfolding apply finish
finish_refused env id s d c m db h = ground arith

pub finish_accepted :
    (env : Env) (id : String) (s : RunStatus) (d : List (String × String)) (c m : String)
    (db : RunDb)
    → is_terminal s ≡ true
    → apply (finish_op env id s d c m) db
      ≡ (update_run env id "finished"
          (("status", status_text s) ∷ ("error_code", c) ∷ [])
          finishable
          (finished env s (env.redact (env.dumps d)) c (env.redact m))
          db).0
unfolding apply finish
finish_accepted env id s d c m db h = ground arith

module _ (P : Run → Type 0) (k : IsKept P)
    (made : (env : Env) (a : NewRun) → P (new_run env a)) where
  each_create : (env : Env) (a : NewRun) (db : RunDb) → EachRun P db → EachRun P (create env a db).0
  each_create env a db h = elim (runs-create env a db) [
    | inl same ↦ rw same h
    | inr more ↦ rw more (All-append_one P db.runs (new_run env a) h (made env a))
  ]

  each_finish :
      (env : Env) (id : String) (s : RunStatus) (d : List (String × String)) (c m : String)
      (db : RunDb)
      → EachRun P db
      → EachRun P (apply (finish_op env id s d c m) db)
  each_finish env id s d c m db h = elim (Bool-cases (is_terminal s)) [
    | inr refused ↦ rw (finish_refused env id s d c m db refused) h
    | inl terminal ↦ rw (finish_accepted env id s d c m db terminal) (
        each_update_run P env id "finished" (("status", status_text s) ∷ ("error_code", c) ∷ [])
          finishable (finished env s (env.redact (env.dumps d)) c (env.redact m)) db (λ r. refl)
          (λ r p g. k.at_finish env s (env.redact (env.dumps d)) c (env.redact m) r p terminal g) h)
  ]

  -- A property of single runs that each change keeps holds of every run after any call.
  pub EachRun-apply : (o : Op) (db : RunDb) → EachRun P db → EachRun P (apply o db)
  unfolding apply claim heartbeat pause_for_approval resume_waiting set_trace_id cancel retry
      abandon_expired
  EachRun-apply (create_op env a) db h = each_create env a db h
  EachRun-apply (claim_op env id w l) db h =
      each_update_run P env id "claimed" (("worker_id", w) ∷ []) claimable (claimed env w l) db
        (λ r. refl) (k.at_claim env w l) h
  EachRun-apply (heartbeat_op env id w l) db h =
      each_update P id (beats w) (beaten env l) db.runs (k.at_heartbeat env w l) h
  EachRun-apply (pause_op env id approval) db h =
      each_update_run P env id "waiting_approval" (("approval_id", approval) ∷ []) pausable paused
        db (λ r. refl) k.at_pause h
  EachRun-apply (resume_op env id w l) db h =
      each_update_run P env id "resumed" (("worker_id", w) ∷ []) resumable (resumed env w l) db
        (λ r. refl) (k.at_resume env w l) h
  EachRun-apply (trace_op id t) db h =
      All-update P (has_id id) (λ r. record r { trace_id = t }) db.runs (λ r p s. k.at_trace t r p)
        h
  EachRun-apply (finish_op env id s d c m) db h = each_finish env id s d c m db h
  EachRun-apply (cancel_op env id why) db h =
      each_update_run P env id "cancelled" (("reason", env.redact why) ∷ []) cancellable
        (cancelled_run env (env.redact why)) db (λ r. refl) (k.at_cancel env (env.redact why)) h
  EachRun-apply (retry_op env id) db h =
      each_update_run P env id "retry_requested" [] retryable retried db (λ r. refl) k.at_retry h
  EachRun-apply (abandon_op env t) db h =
      rw (runs-expiry_events env 0 (select (expired env.now t) db.runs)) (
        each_abandoned P env.now (select (expired env.now t) db.runs) db.runs (k.at_abandon env.now)
          h)
  EachRun-apply (output_op env id t ref) db h = rw (runs-add_output env id t ref db) h
