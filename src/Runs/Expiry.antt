-- ===== src/Runs/Expiry.antt =====
-- runs/repository.py: `abandon_expired`, the recovery of runs whose lease has run out.
pub mod Exact
use cogito_agent.Prelude.{
  ℕ, suc, String, Bool, true, false, ◌&&◌, Option, none, some, List, [], ◌∷◌, ◌=s◌, ltb,
}
use cogito_agent.Sql.{update, select}
use cogito_agent.Runs.{abandoned, is_running, Run, RunDb, Env, has_id, append_event}

abbrev pub lease_over : ℕ → Option ℕ → Bool
lease_over now none = false
lease_over now (some t) = ltb t now

abbrev of_type : Option String → Run → Bool
of_type none r = true
of_type (some t) r = r.run_type =s t

-- The SELECT: running, with a lease that is over, and of the type if one is given.
abbrev pub expired : ℕ → Option String → Run → Bool
expired now run_type r =
    (is_running r.status && lease_over now r.lease_expires_at) && of_type run_type r

abbrev pub abandon : ℕ → Run → Run
abandon now r = record r { status = abandoned; finished_at = some now; lease_expires_at = none }

abbrev pub running_id : String → Run → Bool
running_id k r = has_id k r && is_running r.status

-- The `executemany` over the selected rows.
unfoldable pub abandon_rows : ℕ → List Run → List Run → List Run
abandon_rows now [] runs = runs
abandon_rows now (x ∷ xs) runs = abandon_rows now xs (update (running_id x.id) (abandon now) runs)

-- One event for each selected row, in turn.
unfoldable pub expiry_events : Env → ℕ → List Run → RunDb → RunDb
expiry_events env n [] db = db
expiry_events env n (x ∷ xs) db =
    expiry_events env (suc n) xs (append_event env n x.id "lease_expired" [] db)

-- `abandon_expired`: the tables, and the rows as they were selected.
unfoldable pub abandon_expired : Env → Option String → RunDb → RunDb × List Run
unfolding abandon_rows expiry_events
abandon_expired env run_type db =
    let rows = select (expired env.now run_type) db.runs in
    (expiry_events env 0 rows (record db { runs = abandon_rows env.now rows db.runs }), rows)
