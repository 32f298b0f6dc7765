-- ===== src/Runs/Claims.antt =====
-- runs/repository.py: claims, heartbeats, retries: who holds a run.
use cogito_agent.Prelude.{
  ◌<◌, ◌⊎◌, inl, inr, none, Option, Bool, ◌∙◌, sym, ap, ℕ, ◌+◌, ◌≤◌, ◌≡◌, refl, String, true, false,
  some, [], ◌∷◌, arith, ◌=s◌,
}
use cogito_agent.Runs.{RunStatus, Run, RunDb, Env, get}
use cogito_agent.Runs.Lifecycle.{
  coalesce, claim, claimable, claimed, heartbeat, beats, retry, retryable, retried,
}
use cogito_agent.Runs.Spec.{
  IsKeyed, permits, when_permitted, update_run_result, get-update_run, get-update_run_other,
  IsKeyed-update_run, permitted, guarded_count,
}

retried-claimable : (r : Run) → claimable (retried r) ≡ true
retried-claimable r = ground arith

-- What a failed guard leaves.
unpermitted :
    (guard : Run → Bool) (f : Run → Run) (o : Option Run)
    → permits guard o ≡ false
    → when_permitted guard f o ≡ o
unpermitted guard f none h = refl
unpermitted guard f (some r) h = rw h refl

-- `claim` on a table keyed by the id: it succeeds exactly when the run exists, is pending or
-- abandoned and has attempts left; then that run is running, leased to the worker until the lease
-- is over and has one more attempt; every other run is as it was, and so is the table on failure.
pub claim_exact :
    (env : Env) (id worker : String) (lease : ℕ) (db : RunDb)
    → IsKeyed db
    → ((claim env id worker lease db).1 ≡ permits claimable (get db id))
      × (get (claim env id worker lease db).0 id
          ≡ when_permitted claimable (claimed env worker lease) (get db id))
      × ((j : String) → (id =s j) ≡ false → get (claim env id worker lease db).0 j ≡ get db j)
unfolding claim
claim_exact env id worker lease db key =
    let payload = ("worker_id", worker) ∷ [] in
    (
      update_run_result env id "claimed" payload claimable (claimed env worker lease) (λ r. refl) db
          key,
      get-update_run env id "claimed" payload claimable (claimed env worker lease) (λ r. refl) db,
      get-update_run_other env id "claimed" payload claimable (claimed env worker lease) (λ r. refl)
          db,
    )

IsKeyed-claim :
    (env : Env) (id worker : String) (lease : ℕ) (db : RunDb)
    → IsKeyed db
    → IsKeyed (claim env id worker lease db).0
unfolding claim
IsKeyed-claim env id worker lease db =
    IsKeyed-update_run env id "claimed" (("worker_id", worker) ∷ []) claimable
      (claimed env worker lease) (λ r. refl) db

-- A successful claim, with the run that it leaves behind.
pub claim_success :
    (env : Env) (id worker : String) (lease : ℕ) (db : RunDb)
    → IsKeyed db
    → (claim env id worker lease db).1 ≡ true
    → (r : Run) × (get db id ≡ some r)
      × (claimable r ≡ true)
      × (get (claim env id worker lease db).0 id ≡ some (claimed env worker lease r))
claim_success env id worker lease db key won =
    let (result, now, others) = claim_exact env id worker lease db key in
    let (r, found, ok, left) =
      permitted claimable (claimed env worker lease) (get db id) (sym result ∙ won) in
    (r, found, ok, now ∙ left)

-- Who may claim a run, in words of its row.
abbrev pub IsFree : Run → Type 0
IsFree r =
    ((r.status ≡ RunStatus.pending) ⊎ (r.status ≡ RunStatus.abandoned))
    × (r.attempt_count < r.max_attempts)

-- The row of a run after its claim, field by field; the others are as they were.
abbrev pub leased_row : ℕ → String → ℕ → Run → Run
leased_row now worker lease r = record r {
  status = RunStatus.running;
  claimed_by = some worker;
  lease_expires_at = some (now + lease);
  heartbeat_at = some now;
  started_at = elim r.started_at [ none ↦ some now | some t ↦ some t ];
  attempt_count = r.attempt_count + 1;
}

first_start :
    (o : Option ℕ) (now : ℕ) → coalesce o now ≡ elim o [ none ↦ some now | some t ↦ some t ]
first_start none now = refl
first_start (some t) now = refl

free_claimable : (r : Run) → IsFree r → claimable r ≡ true
free_claimable r (inl h, left) = rw h (ground (arith, left))
free_claimable r (inr h, left) = rw h (ground (arith, left))

claimable-IsFree : (r : Run) → claimable r ≡ true → IsFree r
claimable-IsFree r h = ground (arith, h)

-- `claim` on a table keyed by the id, against the rows: a claim succeeds exactly where the run is
-- there, pending or abandoned, with fewer attempts than it may have; then its row is running, of the
-- worker, with the lease, the heartbeat and one more attempt, and with its first start; a claim that
-- fails leaves the run as it was; and every other run is as it was.
pub claim_refines :
    (env : Env) (id worker : String) (lease : ℕ) (db : RunDb)
    → IsKeyed db
    → let x = claim env id worker lease db in
      ((r : Run) → get db id ≡ some r → IsFree r → x.1 ≡ true)
      × (x.1 ≡ true
          → (r : Run) × (get db id ≡ some r)
            × IsFree r
            × (get x.0 id ≡ some (leased_row env.now worker lease r)))
      × (x.1 ≡ false → get x.0 id ≡ get db id)
      × ((j : String) → (id =s j) ≡ false → get x.0 j ≡ get db j)
claim_refines env id worker lease db key =
    let (result, now, others) = claim_exact env id worker lease db key in
    (
      λ r found free. result ∙ ap (permits claimable) found ∙ free_claimable r free,
      λ won.
          let (r, found, ok, after) = claim_success env id worker lease db key won in
          (
            r,
            found,
            claimable-IsFree r ok,
            after
                ∙ ap (λ t. some (record (leased_row env.now worker lease r) { started_at = t }))
                    (first_start r.started_at env.now),
          ),
      λ lost.
          now ∙ unpermitted claimable (claimed env worker lease) (get db id) (sym result ∙ lost),
      others,
    )

-- `heartbeat` on a keyed table, for any worker.
heartbeat_result :
    (env : Env) (id worker : String) (lease : ℕ) (db : RunDb)
    → IsKeyed db
    → (heartbeat env id worker lease db).1 ≡ permits (beats worker) (get db id)
unfolding heartbeat
heartbeat_result env id worker lease db key = guarded_count id (beats worker) db key

-- Two workers never hold one run: after a successful claim every further claim of the run
-- fails, whoever makes it, and at whatever time; the heartbeat succeeds for the worker that
-- claimed, and for no other.
pub claim_exclusive :
    (env env' : Env) (id worker worker' : String) (lease lease' : ℕ) (db : RunDb)
    → IsKeyed db
    → (claim env id worker lease db).1 ≡ true
    → let db' = (claim env id worker lease db).0 in
      ((claim env' id worker' lease' db').1 ≡ false)
      × ((heartbeat env' id worker' lease' db').1 ≡ (worker =s worker'))
claim_exclusive env env' id worker worker' lease lease' db key won =
    let db' = (claim env id worker lease db).0 in
    let key' = IsKeyed-claim env id worker lease db key in
    let (r, found, ok, now) = claim_success env id worker lease db key won in
    (
      (claim_exact env' id worker' lease' db' key').0 ∙ ap (permits claimable) now,
      heartbeat_result env' id worker' lease' db' key' ∙ ap (permits (beats worker')) now,
    )

-- A claimed run has made at least one attempt and at most as many as it may.
pub claim_within_attempts :
    (env : Env) (id worker : String) (lease : ℕ) (db : RunDb)
    → IsKeyed db
    → (claim env id worker lease db).1 ≡ true
    → (r : Run) × (get (claim env id worker lease db).0 id ≡ some r)
      × (1 ≤ r.attempt_count)
      × (r.attempt_count ≤ r.max_attempts)
      × (r.lease_expires_at ≡ some (env.now + lease))
claim_within_attempts env id worker lease db key won =
    let (r, found, ok, now) = claim_success env id worker lease db key won in
    (claimed env worker lease r, now, omega arith, ground arith, refl)

-- A retried run can be claimed at once, by any worker: the retry makes it pending and leaves it
-- an attempt, also where all of them were used up.
pub retry_then_claim :
    (env env' : Env) (id worker : String) (lease : ℕ) (db : RunDb)
    → IsKeyed db
    → (retry env id db).1 ≡ true
    → (claim env' id worker lease (retry env id db).0).1 ≡ true
unfolding retry
retry_then_claim env env' id worker lease db key done =
    let result =
      update_run_result env id "retry_requested" [] retryable retried (λ r. refl) db key in
    let row = get-update_run env id "retry_requested" [] retryable retried (λ r. refl) db in
    let key' =
      IsKeyed-update_run env id "retry_requested" [] retryable retried (λ r. refl) db key in
    let (r, found, ok, left) = permitted retryable retried (get db id) (sym result ∙ done) in
    (claim_exact env' id worker lease (retry env id db).0 key').0
    ∙ ap (permits claimable) (row ∙ left)
    ∙ retried-claimable r
