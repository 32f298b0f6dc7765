-- ===== src/Runs/Spec.antt =====
-- runs/repository.py: what an UPDATE of one run by its id does to the run and to the others.
use mathlib.Core.Option as Opt
use cogito_agent.Prelude.{
  ◌∙◌, ◌≤◌, ◌≡◌, refl, String, Bool, true, false, ◌&&◌, Option, none, some, List, arith, ◌==◌, ◌=s◌,
  ap, if◌then◌else◌, eq_iff,
}
use cogito_agent.Sql.{find, update, rowcount, change}
use cogito_agent.Sql.Laws.{
  find-update, find-update_other, rowcount-update, rowcount_key, count_of, find_holds,
}
use cogito_agent.Runs.{Run, RunDb, Env, has_id, get, update_run, append_event}

-- The primary key: no two runs have one id.
abbrev pub IsKeyed : RunDb → Type 0
IsKeyed db = (k : String) → rowcount (has_id k) db.runs ≤ 1

-- The guard holds of the run, if there is one.
abbrev pub permits : (Run → Bool) → Option Run → Bool
permits guard none = false
permits guard (some r) = guard r

abbrev pub when_permitted : (Run → Bool) → (Run → Run) → Option Run → Option Run
when_permitted guard f none = none
when_permitted guard f (some r) = if guard r then some (f r) else some r

abbrev pub KeepsId : (Run → Run) → Type 0
KeepsId f = (r : Run) → (f r).id ≡ r.id

abbrev selects : String → (Run → Bool) → Run → Bool
selects k guard r = has_id k r && guard r

-- A row found by its id is selected exactly when the guard holds of it.
found_selected :
    (k : String) (guard : Run → Bool) (f : Run → Run) (rows : List Run) (o : Option Run)
    → find (has_id k) rows ≡ o
    → ((count_of (selects k guard) o == 1) ≡ permits guard o)
      × (Opt.map (change (selects k guard) f) o ≡ when_permitted guard f o)
found_selected k guard f rows none e = (refl, refl)
found_selected k guard f rows (some r) e =
    let here = find_holds (has_id k) rows r e in (ground arith, ground arith)

has_id_kept : (f : Run → Run) → KeepsId f → (k : String) (r : Run) → has_id k (f r) ≡ has_id k r
has_id_kept f keeps k r = ap (λ i. i =s k) (keeps r)

selects_id :
    (k : String) (guard : Run → Bool) (r : Run) → selects k guard r ≡ true → has_id k r ≡ true
selects_id k guard r h = ground arith

apart :
    (k j : String) (guard : Run → Bool) (r : Run)
    → (k =s j) ≡ false
    → has_id j r ≡ true
    → selects k guard r ≡ false
apart k j guard r ne h = ground (arith, eq_iff r.id j, eq_iff r.id k, eq_iff k j)

-- The rowcount of an UPDATE by id and guard is one exactly when the guard holds of the run.
pub guarded_count :
    (k : String) (guard : Run → Bool) (db : RunDb)
    → IsKeyed db
    → (rowcount (λ r. has_id k r && guard r) db.runs == 1) ≡ permits guard (get db k)
unfolding get
guarded_count k guard db key =
    let here = found_selected k guard (λ r. r) db.runs (find (has_id k) db.runs) refl in
    let count = rowcount_key (has_id k) (selects k guard) db.runs (selects_id k guard) (key k) in
    ground (arith, here.0, count)

module _ (env : Env) (run_id event_type : String) (payload : List (String × String))
    (guard : Run → Bool) (f : Run → Run) (keeps : KeepsId f) (db : RunDb) where
  abbrev after : RunDb × Bool
  after = update_run env run_id event_type payload guard f db

  pub runs-update_run : after.0.runs ≡ update (λ r. has_id run_id r && guard r) f db.runs
  unfolding update_run append_event
  runs-update_run = ground arith

  pub update_run_result : IsKeyed db → after.1 ≡ permits guard (get db run_id)
  unfolding update_run
  update_run_result key = ground (arith, guarded_count run_id guard db key)

  pub get-update_run : get after.0 run_id ≡ when_permitted guard f (get db run_id)
  unfolding get
  get-update_run = rw runs-update_run (
      find-update (has_id run_id) (selects run_id guard) f db.runs (has_id_kept f keeps run_id)
      ∙ (found_selected run_id guard f db.runs (find (has_id run_id) db.runs) refl).1)

  pub get-update_run_other : (j : String) → (run_id =s j) ≡ false → get after.0 j ≡ get db j
  unfolding get
  get-update_run_other j ne = rw runs-update_run (
      find-update_other (has_id j) (selects run_id guard) f db.runs (has_id_kept f keeps j)
        (λ r. apart run_id j guard r ne))

  pub IsKeyed-update_run : IsKeyed db → IsKeyed after.0
  IsKeyed-update_run key k = rw runs-update_run (
      rw (rowcount-update (has_id k) (selects run_id guard) f db.runs (has_id_kept f keeps k))
        (key k))

pub permitted :
    (guard : Run → Bool) (f : Run → Run) (o : Option Run)
    → permits guard o ≡ true
    → (r : Run) × (o ≡ some r) × (guard r ≡ true) × (when_permitted guard f o ≡ some (f r))
permitted guard f none h = absurd (cc)
permitted guard f (some r) h = (r, refl, h, rw h)
