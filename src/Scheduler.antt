-- ===== src/Scheduler.antt =====
-- autonomy/scheduler.py and shared/schedule.py: the persisted jobs and the operations on their table.
pub mod State
pub mod Stages
pub mod Execute
pub mod Tick
pub mod Due
pub mod Finish
pub mod Governed
pub mod Once
pub mod Table
use cogito_agent.Prelude.{
  ℕ, String, Bool, true, false, ◌&&◌, Option, none, some, List, [], ◌∷◌, ◌++◌, leb, ltb, ◌==◌, ◌=s◌,
  or_else, is_some, if◌then◌else◌, sort_by,
}
use cogito_agent.Sql.{find, update, rowcount, select}

pub data JobStatus : Type 0 where
  pending running completed failed skipped cancelled : JobStatus

-- A row of `scheduled_jobs`; times are seconds, quiet hours are minutes of the day, and an empty
-- text is NULL.
pub record ScheduleJob : Type 0 where
  pub id : String
  pub name : String
  pub workspace_id : String
  pub actor : String
  pub capability_name : String
  pub input_json : String
  pub schedule_type : String
  pub run_at : Option ℕ
  pub interval_seconds : Option ℕ
  pub max_retries : ℕ
  pub retry_count : ℕ
  pub quiet_hours_start : Option ℕ
  pub quiet_hours_end : Option ℕ
  pub timezone : String
  pub enabled : Bool
  pub dry_run : Bool
  pub status : JobStatus
  pub last_error : Option String
  pub last_run_at : Option ℕ
  pub next_run_at : Option ℕ
  pub created_at : ℕ
  pub updated_at : ℕ

abbrev pub has_id : String → ScheduleJob → Bool
has_id k j = j.id =s k

abbrev pub is_running : JobStatus → Bool
is_running s = elim s [ running ↦ true | _ ↦ false ]

-- `status IN ('pending', 'failed')`
abbrev pub is_open : JobStatus → Bool
is_open s = elim s [ pending ↦ true | failed ↦ true | _ ↦ false ]

-- `a or b` on times.
abbrev pub first_time : Option ℕ → Option ℕ → Option ℕ
first_time none b = b
first_time (some t) b = some t

abbrev pub time_or : Option ℕ → ℕ → ℕ
time_or none t = t
time_or (some t) d = t

-- The row that `schedule` inserts; it does not write `last_error`.
abbrev pub scheduled : ℕ → String → ScheduleJob → ScheduleJob
scheduled now jid j = record j {
  id = jid;
  last_error = none;
  next_run_at = some (time_or (first_time j.next_run_at j.run_at) now);
  created_at = now;
  updated_at = now;
}

-- `schedule`, with the text of `uuid4`; `none` is the IntegrityError on the primary key.
unfoldable pub schedule :
    ℕ → String → ScheduleJob → List ScheduleJob → Option (List ScheduleJob × String)
schedule now uuid job jobs =
    let jid = or_else job.id uuid in
    if is_some (find (has_id jid) jobs)
    then none
    else some (jobs ++ scheduled now jid job ∷ [], jid)

abbrev cancel_job : ℕ → ScheduleJob → ScheduleJob
cancel_job now j = record j { status = cancelled; enabled = false; updated_at = now }

-- `cancel`
unfoldable pub cancel : ℕ → String → List ScheduleJob → List ScheduleJob × Bool
cancel now job_id jobs =
    (update (has_id job_id) (cancel_job now) jobs, ltb 0 (rowcount (has_id job_id) jobs))

-- `get_job`
unfoldable pub get_job : String → List ScheduleJob → Option ScheduleJob
get_job job_id jobs = find (has_id job_id) jobs

abbrev newer : ScheduleJob → ScheduleJob → Bool
newer a b = leb b.created_at a.created_at

-- `list_jobs`, ORDER BY created_at DESC.
unfoldable pub list_jobs : String → List ScheduleJob → List ScheduleJob
list_jobs workspace_id jobs =
    if workspace_id =s "*"
    then sort_by newer jobs
    else sort_by newer (select (λ j. j.workspace_id =s workspace_id) jobs)

abbrev is_failed : JobStatus → Bool
is_failed s = elim s [ failed ↦ true | _ ↦ false ]

-- `get_job_failures`
unfoldable pub get_job_failures : String → ℕ → List ScheduleJob → ℕ
get_job_failures workspace_id since jobs =
    rowcount (λ j. j.workspace_id =s workspace_id && (is_failed j.status && leb since j.updated_at))
      jobs

abbrev pub running_job : String → ScheduleJob → Bool
running_job k j = has_id k j && is_running j.status

abbrev cleared : ℕ → ScheduleJob → ScheduleJob
cleared now j = record j { status = pending; retry_count = 0; last_error = none; updated_at = now }

-- `reset_job`
unfoldable pub reset_job : ℕ → String → List ScheduleJob → List ScheduleJob × Bool
reset_job now job_id jobs =
    (update (running_job job_id) (cleared now) jobs, ltb 0 (rowcount (running_job job_id) jobs))

-- `t IS NULL OR t <= now`
abbrev pub reached : ℕ → Option ℕ → Bool
reached now none = true
reached now (some t) = leb t now

-- The WHERE clause of `tick` and of `_claim_job`.
unfoldable pub is_due : ℕ → ScheduleJob → Bool
is_due now j =
    j.enabled && (is_open j.status && (reached now j.next_run_at && reached now j.run_at))

abbrev null_first : Option ℕ → Option ℕ → Bool
null_first none b = true
null_first (some t) none = false
null_first (some t) (some u) = leb t u

abbrev sooner : ScheduleJob → ScheduleJob → Bool
sooner a b = null_first a.next_run_at b.next_run_at

-- The SELECT of `tick`, ORDER BY next_run_at ASC with NULL first.
unfoldable pub due_jobs : ℕ → List ScheduleJob → List ScheduleJob
unfolding is_due
due_jobs now jobs = sort_by sooner (select (is_due now) jobs)

abbrev pub claiming : ℕ → String → ScheduleJob → Bool
claiming now k j = has_id k j && is_due now j

abbrev pub claimed_job : ℕ → ScheduleJob → ScheduleJob
claimed_job now j = record j { status = running; updated_at = now }

-- `_claim_job`
unfoldable pub claim_job : ℕ → String → List ScheduleJob → List ScheduleJob × Bool
unfolding is_due
claim_job now job_id jobs =
    (update (claiming now job_id) (claimed_job now) jobs, rowcount (claiming now job_id) jobs == 1)

abbrev pub released : ℕ → ScheduleJob → ScheduleJob
released now j = record j { status = pending; updated_at = now }

-- The `executemany` of `_recover_expired_runs`, over the definitions of the abandoned runs.
unfoldable pub release_jobs : ℕ → List String → List ScheduleJob → List ScheduleJob
release_jobs now [] jobs = jobs
release_jobs now (k ∷ ks) jobs = release_jobs now ks (update (running_job k) (released now) jobs)
