-- ===== src/Runs/Create.antt =====
-- runs/repository.py: creation with idempotency keys, outputs, and the listings.
use cogito_agent.Prelude.{
  =s_refl, leb, arith, ◌≡◌, Bool-cases, inl, inr, ℕ, ◌≡◌, String, Bool, true, false, not, ◌&&◌,
  ◌||◌, Option, none, some, List, [], ◌∷◌, ◌++◌, ◌=s◌, if◌then◌else◌, is_some, max, min, take,
  arith,
}
use cogito_agent.Sql.Laws.{find-append}
use cogito_agent.Sql.{find, select}
use cogito_agent.Runs.{
  pending, Run, RunEvent, RunOutput, RunDb, Env, has_id, get, of_run, append_event,
}
use cogito_agent.Runs.Lifecycle.{status_text}

-- The arguments of `create`.
pub record NewRun : Type 0 where
  pub run_type : String
  pub workspace_id : String
  pub definition_id : String
  pub parent_run_id : Option String
  pub idempotency_key : String
  pub scheduled_at : Option String
  pub priority : String
  pub max_attempts : ℕ
  pub input_data : List (String × String)

abbrev pub same_key : String → String → Run → Bool
same_key run_type key r = r.run_type =s run_type && r.idempotency_key =s key

-- `get_by_idempotency`
unfoldable pub get_by_idempotency : String → String → RunDb → Option Run
get_by_idempotency run_type key db = find (same_key run_type key) db.runs

abbrev pub new_run : Env → NewRun → Run
new_run env a = record {
  id = env.uuid 0;
  run_type = a.run_type;
  definition_id = a.definition_id;
  parent_run_id = a.parent_run_id;
  workspace_id = a.workspace_id;
  status = pending;
  priority = a.priority;
  idempotency_key = a.idempotency_key;
  scheduled_at = a.scheduled_at;
  claimed_by = none;
  lease_expires_at = none;
  heartbeat_at = none;
  attempt_count = 0;
  max_attempts = a.max_attempts;
  input_json = env.redact (env.dumps a.input_data);
  result_json = "{}";
  error_code = "";
  error_message = "";
  trace_id = "";
  created_at = env.now;
  started_at = none;
  finished_at = none;
}

-- The INSERT raises IntegrityError on the primary key, or on the unique index over the type and a
-- key that is not empty.
abbrev pub violates : Env → NewRun → RunDb → Bool
violates env a db =
    is_some (get db (env.uuid 0))
    || (not (a.idempotency_key =s "")
        && is_some (get_by_idempotency a.run_type a.idempotency_key db))

abbrev pub or_empty : Option String → String
or_empty none = ""
or_empty (some s) = s

abbrev insert : Env → NewRun → RunDb → RunDb
insert env a db =
    append_event env 1 (env.uuid 0) "created" (("scheduled_at", or_empty a.scheduled_at) ∷ [])
      (record db { runs = db.runs ++ new_run env a ∷ [] })

-- `create`: the tables, and the run, or none where an exception is raised.
unfoldable pub create : Env → NewRun → RunDb → RunDb × Option Run
create env a db =
    if violates env a db
    then (
      db,
      if a.idempotency_key =s "" then none else get_by_idempotency a.run_type a.idempotency_key db,
    )
    else (insert env a db, get (insert env a db) (env.uuid 0))

abbrev same_output : String → String → String → RunOutput → Bool
same_output run_id output_type reference_id o =
    o.run_id =s run_id && (o.output_type =s output_type && o.reference_id =s reference_id)

abbrev output_of : Env → String → String → String → RunDb → Option RunOutput → RunDb × String
output_of env run_id output_type reference_id db (some o) = (db, o.id)
output_of env run_id output_type reference_id db none = (
  record db {
    outputs =
        db.outputs
        ++ (record {
          id = env.uuid 0;
          run_id = run_id;
          output_type = output_type;
          reference_id = reference_id;
          created_at = env.now;
        })
          ∷ [];
  },
  env.uuid 0,
)

-- `add_output`: one row for a run, a type and a reference.
unfoldable pub add_output : Env → String → String → String → RunDb → RunDb × String
add_output env run_id output_type reference_id db =
    output_of env run_id output_type reference_id db
      (find (same_output run_id output_type reference_id) db.outputs)

abbrev wanted : Option String → String → Bool
wanted none s = true
wanted (some w) s = w =s "" || s =s w

-- ORDER BY created_at DESC. SQLite leaves the order of equal times open; here it is that of insertion.
unfoldable pub insert_newest : Run → List Run → List Run
insert_newest r [] = r ∷ []
insert_newest r (x ∷ xs) =
    if leb x.created_at r.created_at then r ∷ x ∷ xs else x ∷ insert_newest r xs

unfoldable pub newest_first : List Run → List Run
newest_first [] = []
newest_first (r ∷ rs) = insert_newest r (newest_first rs)

-- `list_runs`, with its limit between 1 and 500.
unfoldable pub list_runs : Option String → Option String → Option String → ℕ → RunDb → List Run
unfolding newest_first status_text
list_runs workspace_id status run_type limit db = take (max 1 (min limit 500)) (
    newest_first (
      select
        (λ r.
          wanted workspace_id r.workspace_id
          && (wanted status (status_text r.status) && wanted run_type r.run_type))
        db.runs))

-- `list_events`: the events of a run are inserted with rising sequence numbers, and so ORDER BY
-- sequence is the order of insertion.
unfoldable pub list_events : String → RunDb → List RunEvent
list_events run_id db = select (of_run run_id) db.events

second :
    (env : Env) (b : NewRun) (db : RunDb) (r : Run)
    → (b.idempotency_key =s "") ≡ false
    → get_by_idempotency b.run_type b.idempotency_key db ≡ some r
    → create env b db ≡ (db, some r)
unfolding create
second env b db r key found = ground arith

-- What a creation with a key returns is what the key finds afterwards.
keyed_create :
    (env : Env) (a : NewRun) (db : RunDb) (r : Run)
    → (a.idempotency_key =s "") ≡ false
    → (create env a db).1 ≡ some r
    → get_by_idempotency a.run_type a.idempotency_key (create env a db).0 ≡ some r
unfolding create get_by_idempotency append_event get
keyed_create env a db r key made = elim (Bool-cases (violates env a db)) [
  | inl old ↦ ground arith
  | inr new ↦ ground (
    arith,
    find-append (has_id (env.uuid 0)) db.runs (new_run env a),
    find-append (same_key a.run_type a.idempotency_key) db.runs (new_run env a),
    =s_refl (env.uuid 0),
    =s_refl a.run_type,
    =s_refl a.idempotency_key,
  )
]

-- A creation with a key that is not empty happens once: a second one with the same type and key,
-- whatever its other arguments, returns the run of the first and changes nothing.
pub create_idempotent :
    (env env' : Env) (a b : NewRun) (db : RunDb) (r : Run)
    → (a.idempotency_key =s "") ≡ false
    → b.run_type ≡ a.run_type
    → b.idempotency_key ≡ a.idempotency_key
    → (create env a db).1 ≡ some r
    → create env' b (create env a db).0 ≡ ((create env a db).0, some r)
create_idempotent env env' a b db r key type same made =
    second env' b (create env a db).0 r (rw same key)
      (rw (type, same) (keyed_create env a db r key made))
