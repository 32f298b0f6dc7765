-- ===== src/Runs/Expiry/Exact.antt =====
-- runs/repository.py: `abandon_expired`, run by run.
use mathlib.Core.Option as Opt
use cogito_agent.Prelude.{
  ℕ, ◌≤◌, ◌≡◌, refl, sym, ap, ◌∙◌, String, Bool, true, false, ◌&&◌, Option, none, some, List, [],
  ◌∷◌, arith, any, ltb, eq_iff,
}
use cogito_agent.Sql.{find, update, select, rowcount, change}
use cogito_agent.Sql.Laws.{
  update_twice, update_none, any-select, find-update, rowcount_key, count_of, find_holds,
}
use cogito_agent.Runs.{Run, RunDb, Env, has_id, get, is_running}
use cogito_agent.Runs.Spec.{IsKeyed, when_permitted}
use cogito_agent.Runs.Rows.{runs-expiry_events}
use cogito_agent.Runs.Expiry.{abandon_expired, abandon_rows, expired, abandon, running_id}

-- One of the rows has the id of `r`.
hit : List Run → Run → Bool
hit xs r = any (λ x. has_id x.id r) xs

hit_both :
    (now : ℕ) (x : Run) (xs : List Run) (r : Run)
    → change
        (λ r. hit xs r && is_running r.status)
        (abandon now)
        (change (running_id x.id) (abandon now) r)
      ≡ change (λ r. hit (x ∷ xs) r && is_running r.status) (abandon now) r
unfolding hit
hit_both now x xs r = ground arith

hit_nil : (r : Run) → (hit [] r && is_running r.status) ≡ false
unfolding hit
hit_nil r = refl

-- The loop of updates is one update of the running rows whose ids were selected.
abandon_rows_lem :
    (now : ℕ) (xs rows : List Run)
    → abandon_rows now xs rows ≡ update (λ r. hit xs r && is_running r.status) (abandon now) rows
unfolding abandon_rows
abandon_rows_lem now [] rows =
    sym (update_none (λ r. hit [] r && is_running r.status) (abandon now) rows hit_nil)
abandon_rows_lem now (x ∷ xs) rows =
    abandon_rows_lem now xs (update (running_id x.id) (abandon now) rows)
    ∙ update_twice (running_id x.id) (λ r. hit xs r && is_running r.status)
        (λ r. hit (x ∷ xs) r && is_running r.status) (abandon now) rows (hit_both now x xs)

hit_id : (r : Run) (xs : List Run) → hit xs r ≡ any (has_id r.id) xs
unfolding hit
hit_id r [] = refl
hit_id r (x ∷ xs) = ground (arith, eq_iff r.id x.id, eq_iff x.id r.id, hit_id r xs)

first : (a b : Bool) → (a && b) ≡ true → a ≡ true
first a b h = ground arith

found_expired_test :
    (now : ℕ) (t : Option String) (k : String) (rows : List Run) (r : Run)
    → hit (select (expired now t) rows) r
      ≡ ltb 0 (rowcount (λ x. has_id k x && expired now t x) rows)
    → rowcount (λ x. has_id k x && expired now t x) rows
      ≡ count_of (λ x. has_id k x && expired now t x) (some r)
    → has_id k r ≡ true
    → (hit (select (expired now t) rows) r && is_running r.status) ≡ expired now t r
found_expired_test now t k rows r a b c = ground arith

-- Of the run that its id finds: it is hit and running exactly when it was expired.
found_expired :
    (now : ℕ) (t : Option String) (k : String) (rows : List Run) (r : Run)
    → rowcount (has_id k) rows ≤ 1
    → find (has_id k) rows ≡ some r
    → (hit (select (expired now t) rows) r && is_running r.status) ≡ expired now t r
found_expired now t k rows r key found =
    let own = (eq_iff r.id k).0 (find_holds (has_id k) rows r found) in
    let sel = λ (x : Run). has_id k x && expired now t x in
    let count =
      rowcount_key (has_id k) sel rows (λ x h. first (has_id k x) (expired now t x) h) key in
    found_expired_test now t k rows r
      (hit_id r (select (expired now t) rows)
        ∙ ap (λ i. any (has_id i) (select (expired now t) rows)) own
        ∙ any-select (has_id k) (expired now t) rows)
      (count ∙ ap (count_of sel) found) (find_holds (has_id k) rows r found)

abandoned_row :
    (now : ℕ) (t : Option String) (k : String) (rows : List Run) (o : Option Run)
    → find (has_id k) rows ≡ o
    → rowcount (has_id k) rows ≤ 1
    → Opt.map
        (change (λ r. hit (select (expired now t) rows) r && is_running r.status) (abandon now))
        o
      ≡ when_permitted (expired now t) (abandon now) o
abandoned_row now t k rows none e key = refl
abandoned_row now t k rows (some r) e key = rw (found_expired now t k rows r key e) (ground arith)

-- On a keyed table `abandon_expired` abandons each run that is running, has a lease that ended
-- before now and is of the type asked for, with now as its end; every other run is as it was.
pub abandon_exact :
    (env : Env) (t : Option String) (db : RunDb) (id : String)
    → IsKeyed db
    → get (abandon_expired env t db).0 id
      ≡ when_permitted (expired env.now t) (abandon env.now) (get db id)
unfolding get abandon_expired
abandon_exact env t db id key =
    let rows = select (expired env.now t) db.runs in
    let sel = λ (r : Run). hit rows r && is_running r.status in
    rw
      (
        runs-expiry_events env 0 rows (record db { runs = abandon_rows env.now rows db.runs }),
        abandon_rows_lem env.now rows db.runs,
      )
      (find-update (has_id id) sel (abandon env.now) db.runs (λ r. refl)
        ∙ abandoned_row env.now t id db.runs (find (has_id id) db.runs) refl (key id))
