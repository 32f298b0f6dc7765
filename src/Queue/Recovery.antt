-- ===== src/Queue/Recovery.antt =====
-- storage/input_queue_repository.py: `recover_pending`, its rows and its resets.
use mathlib.Core.Option as Opt
use cogito_agent.Prelude.{
  inl, inr, Bool-cases, =s_refl, ℕ, ◌≤◌, ◌≡◌, refl, sym, ap, ◌∙◌, String, Bool, true, false, ◌&&◌,
  Option, none, some, List, [], ◌∷◌, arith, any, ltb, eq_iff,
}
use cogito_agent.Sql.{find, update, select, rowcount, change}
use cogito_agent.Sql.Laws.{
  find-update, rowcount_key, count_of, find_holds, update_twice, update_none, any-select,
  rowcount-select,
}
use cogito_agent.Queue.{
  QueueRow, has_id, is_processing, recoverable, reset, reset_rows, insert_created, by_created,
  recover_pending,
}

-- A row that was selected as processing has the id of `r`.
abbrev pub claims : QueueRow → QueueRow → Bool
claims r x = has_id x.id r && is_processing x.status

unfoldable pub hit : List QueueRow → QueueRow → Bool
hit xs r = any (claims r) xs

hit_both :
    (x : QueueRow) (xs : List QueueRow) (r : QueueRow)
    → is_processing x.status ≡ true
    → change (hit xs) reset (change (has_id x.id) reset r) ≡ change (hit (x ∷ xs)) reset r
unfolding hit
hit_both x xs r h = ground arith

hit_skip :
    (x : QueueRow) (xs : List QueueRow) (r : QueueRow)
    → is_processing x.status ≡ false
    → change (hit xs) reset r ≡ change (hit (x ∷ xs)) reset r
unfolding hit
hit_skip x xs r h = ground arith

hit_nil : (r : QueueRow) → hit [] r ≡ false
unfolding hit
hit_nil r = refl

update-change :
    (sel sel' : QueueRow → Bool) (f : QueueRow → QueueRow) (rows : List QueueRow)
    → ((r : QueueRow) → change sel f r ≡ change sel' f r)
    → update sel f rows ≡ update sel' f rows
unfolding update
update-change sel sel' f [] h = refl
update-change sel sel' f (r ∷ rows) h = cc (h r, update-change sel sel' f rows h)

-- The loop of updates is one update of the rows whose ids were selected as processing.
pub reset_rows_lem : (xs rows : List QueueRow) → reset_rows xs rows ≡ update (hit xs) reset rows
unfolding reset_rows
reset_rows_lem [] rows = sym (update_none (hit []) reset rows hit_nil)
reset_rows_lem (x ∷ xs) rows = elim (Bool-cases (is_processing x.status)) [
  | inl h ↦ rw h (
      reset_rows_lem xs (update (has_id x.id) reset rows)
      ∙ update_twice (has_id x.id) (hit xs) (hit (x ∷ xs)) reset rows (λ r. hit_both x xs r h))
  | inr h ↦ rw h (
      reset_rows_lem xs rows
      ∙ update-change (hit xs) (hit (x ∷ xs)) reset rows (λ r. hit_skip x xs r h))
]

rowcount-insert_created :
    (q : QueueRow → Bool) (r : QueueRow) (xs : List QueueRow)
    → rowcount q (insert_created r xs) ≡ rowcount q (r ∷ xs)
unfolding insert_created rowcount
rowcount-insert_created q r [] = refl
rowcount-insert_created q r (x ∷ xs) = ground (arith, rowcount-insert_created q r xs)

-- Sorting keeps the number of rows of any kind.
pub rowcount-by_created :
    (q : QueueRow → Bool) (xs : List QueueRow) → rowcount q (by_created xs) ≡ rowcount q xs
unfolding by_created rowcount
rowcount-by_created q [] = refl
rowcount-by_created q (x ∷ xs) =
    ground (arith, rowcount-insert_created q x (by_created xs), rowcount-by_created q xs)

any-rowcount : (q : QueueRow → Bool) (xs : List QueueRow) → any q xs ≡ ltb 0 (rowcount q xs)
unfolding rowcount
any-rowcount q [] = refl
any-rowcount q (x ∷ xs) = ground (arith, any-rowcount q xs)

pub any-by_created : (q : QueueRow → Bool) (xs : List QueueRow) → any q (by_created xs) ≡ any q xs
any-by_created q xs =
    any-rowcount q (by_created xs) ∙ ap (ltb 0) (rowcount-by_created q xs) ∙ sym (any-rowcount q xs)

found_hit_sub :
    (now timeout : ℕ) (t : Option String) (id : String) (r x : QueueRow)
    → has_id id r ≡ true
    → (claims r x && recoverable now timeout t x) ≡ true
    → has_id id x ≡ true
found_hit_sub now timeout t id r x own h =
    ground (arith, eq_iff r.id id, eq_iff r.id x.id, eq_iff x.id id)

-- The row that its id finds is reset exactly when it was recoverable and processing.
found_hit :
    (now timeout : ℕ) (t : Option String) (id : String) (rows : List QueueRow) (r : QueueRow)
    → rowcount (has_id id) rows ≤ 1
    → find (has_id id) rows ≡ some r
    → hit (by_created (select (recoverable now timeout t) rows)) r
      ≡ (recoverable now timeout t r && is_processing r.status)
unfolding hit
found_hit now timeout t id rows r key found =
    let q = recoverable now timeout t in
    let sel = λ (x : QueueRow). claims r x && q x in
    let own = find_holds (has_id id) rows r found in
    let count =
      rowcount_key (has_id id) sel rows (λ x h. found_hit_sub now timeout t id r x own h) key in
    any-by_created (claims r) (select q rows)
    ∙ any-select (claims r) q rows
    ∙ ap (ltb 0) (count ∙ ap (count_of sel) found)
    ∙ rw (=s_refl r.id) (ground arith)

found_reset :
    (now timeout : ℕ) (t : Option String) (id : String) (rows : List QueueRow) (o : Option QueueRow)
    → find (has_id id) rows ≡ o
    → rowcount (has_id id) rows ≤ 1
    → Opt.map (change (hit (by_created (select (recoverable now timeout t) rows))) reset) o
      ≡ Opt.map (change (λ r. recoverable now timeout t r && is_processing r.status) reset) o
found_reset now timeout t id rows none e key = refl
found_reset now timeout t id rows (some r) e key = rw (found_hit now timeout t id rows r key e) refl

-- Where an id is that of one row at most, recovery resets that row to pending with no start time
-- exactly when it is recoverable and processing, and else leaves it alone; and it returns, of any
-- kind of rows, as many as are recoverable.
pub recover_exact :
    (now timeout : ℕ) (t : Option String) (rows : List QueueRow) (id : String) (q : QueueRow → Bool)
    → rowcount (has_id id) rows ≤ 1
    → (find (has_id id) (recover_pending now timeout t rows).0
        ≡ Opt.map
            (change (λ r. recoverable now timeout t r && is_processing r.status) reset)
            (find (has_id id) rows))
      × (rowcount q (recover_pending now timeout t rows).1
          ≡ rowcount (λ r. q r && recoverable now timeout t r) rows)
unfolding recover_pending
recover_exact now timeout t rows id q key =
    let found = by_created (select (recoverable now timeout t) rows) in
    (
      rw (reset_rows_lem found rows) (find-update (has_id id) (hit found) reset rows (λ r. refl))
          ∙ found_reset now timeout t id rows (find (has_id id) rows) refl key,
      rowcount-by_created q (select (recoverable now timeout t) rows)
          ∙ rowcount-select q (recoverable now timeout t) rows,
    )
