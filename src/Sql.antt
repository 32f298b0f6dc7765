-- ===== src/Sql.antt =====
-- The statements that the repositories run on SQLite (src/cogito_agent/storage), on a table as the
-- list of its rows in the order of insertion: SELECT, UPDATE with its rowcount, and their laws.
pub mod Laws
use cogito_agent.Prelude.{ℕ, ◌+◌, Bool, Option, none, some, List, [], ◌∷◌, if◌then◌else◌}

module _ {ℓ} {Row : Type ℓ} where
  -- SELECT * FROM t WHERE q, fetchone.
  unfoldable pub find : (Row → Bool) → List Row → Option Row
  find q [] = none
  find q (r ∷ rs) = if q r then some r else find q rs

  -- What UPDATE t SET f WHERE sel does to a row.
  abbrev pub change : (Row → Bool) → (Row → Row) → Row → Row
  change sel f r = if sel r then f r else r

  -- UPDATE t SET f WHERE sel.
  unfoldable pub update : (Row → Bool) → (Row → Row) → List Row → List Row
  update sel f [] = []
  update sel f (r ∷ rs) = change sel f r ∷ update sel f rs

  -- The number of rows that a WHERE clause selects: COUNT(*), or the rowcount of an UPDATE.
  unfoldable pub rowcount : (Row → Bool) → List Row → ℕ
  rowcount sel [] = 0
  rowcount sel (r ∷ rs) = (if sel r then 1 else 0) + rowcount sel rs

  -- SELECT * FROM t WHERE q, fetchall in the order of insertion.
  unfoldable pub select : (Row → Bool) → List Row → List Row
  select q [] = []
  select q (r ∷ rs) = let rest = select q rs in if q r then r ∷ rest else rest
