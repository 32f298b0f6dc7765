-- ===== src/Scheduler/Table.antt =====
-- autonomy/scheduler.py: `schedule` against `get_job`.

use cogito_agent.Prelude.{
  ap, ◌∙◌, Option, refl, ℕ, ◌≡◌, String, false, none, some, List, [], ◌∷◌, ◌++◌, arith, ◌=s◌,
  =s_refl,
}
use cogito_agent.Sql.{find}
use cogito_agent.Sql.Laws.{find-append}
use cogito_agent.Scheduler.{first_time, time_or, ScheduleJob, has_id, schedule, scheduled, get_job}

apart :
    (now : ℕ) (job : ScheduleJob) (jid j : String)
    → (jid =s j) ≡ false
    → (rows : List ScheduleJob)
    → find (has_id j) (rows ++ scheduled now jid job ∷ []) ≡ find (has_id j) rows
unfolding find
apart now job jid j ne [] = ground (arith, ne)
apart now job jid j ne (r ∷ rows) = ground (arith, apart now job jid j ne rows)

inverted :
    (now : ℕ) (uuid : String) (job : ScheduleJob) (jobs jobs' : List ScheduleJob) (jid : String)
    → schedule now uuid job jobs ≡ some (jobs', jid)
    → (find (has_id jid) jobs ≡ none) × (jobs' ≡ jobs ++ scheduled now jid job ∷ [])
unfolding schedule
inverted now uuid job jobs jobs' jid done = ground arith

-- The next run of a new job: its own, else its start, else now.
abbrev pub first_run_at : ℕ → Option ℕ → Option ℕ → ℕ
first_run_at now (some t) start = t
first_run_at now none (some t) = t
first_run_at now none none = now

first_run :
    (now : ℕ) (o start : Option ℕ) → time_or (first_time o start) now ≡ first_run_at now o start
first_run now (some t) start = refl
first_run now none (some t) = refl
first_run now none none = refl

-- The inserted row, field by field.
abbrev pub inserted_row : ℕ → String → ScheduleJob → ScheduleJob
inserted_row now jid job = record {
  id = jid;
  name = job.name;
  workspace_id = job.workspace_id;
  actor = job.actor;
  capability_name = job.capability_name;
  input_json = job.input_json;
  schedule_type = job.schedule_type;
  run_at = job.run_at;
  interval_seconds = job.interval_seconds;
  max_retries = job.max_retries;
  retry_count = job.retry_count;
  quiet_hours_start = job.quiet_hours_start;
  quiet_hours_end = job.quiet_hours_end;
  timezone = job.timezone;
  enabled = job.enabled;
  dry_run = job.dry_run;
  status = job.status;
  last_error = none;
  last_run_at = job.last_run_at;
  next_run_at = some (first_run_at now job.next_run_at job.run_at);
  created_at = now;
  updated_at = now;
}

-- A job that was scheduled is found under the identifier that was returned, with its own fields,
-- created and updated now, without an error and with a next run; every other job is as it was.
pub schedule-get_job :
    (now : ℕ) (uuid : String) (job : ScheduleJob) (jobs jobs' : List ScheduleJob) (jid : String)
    → schedule now uuid job jobs ≡ some (jobs', jid)
    → (get_job jid jobs' ≡ some (inserted_row now jid job))
      × ((j : String) → (jid =s j) ≡ false → get_job j jobs' ≡ get_job j jobs)
unfolding schedule get_job
schedule-get_job now uuid job jobs jobs' jid done =
    let (fresh, rows) = inverted now uuid job jobs jobs' jid done in
    rw rows (
      ground (arith, find-append (has_id jid) jobs (scheduled now jid job) fresh, =s_refl jid)
          ∙ ap (λ t. some (record (inserted_row now jid job) { next_run_at = some t }))
              (first_run now job.next_run_at job.run_at),
      λ j ne. apart now job jid j ne jobs,
    )
