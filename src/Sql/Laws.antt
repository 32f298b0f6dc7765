-- ===== src/Sql/Laws.antt =====
-- Laws of the table operations.
use mathlib.Core.Option as Opt
use mathlib.Core.Path.{subst}
use cogito_agent.Prelude.{
  inl, inr, ℕ, ◌+◌, ◌≤◌, ◌≡◌, refl, Bool, true, false, Option, none, some, List, [], ◌∷◌, ◌++◌,
  if◌then◌else◌, arith, Bool-cases, All, any, ltb, ◌&&◌,
}
use cogito_agent.Sql.{find, change, update, rowcount, select}

module _ {ℓ} {Row : Type ℓ} where
  -- A WHERE clause that an update does not affect finds the same row, changed.
  pub find-update :
      (q sel : Row → Bool) (f : Row → Row) (rows : List Row)
      → ((r : Row) → q (f r) ≡ q r)
      → find q (update sel f rows) ≡ Opt.map (change sel f) (find q rows)
  unfolding find update
  find-update q sel f [] keep = refl
  find-update q sel f (r ∷ rs) keep = ground (arith, keep r, find-update q sel f rs keep)

  -- Rows that the second clause does not touch are found as they were.
  pub find-update_other :
      (q sel : Row → Bool) (f : Row → Row) (rows : List Row)
      → ((r : Row) → q (f r) ≡ q r)
      → ((r : Row) → q r ≡ true → sel r ≡ false)
      → find q (update sel f rows) ≡ find q rows
  unfolding find update
  find-update_other q sel f [] keep apart = refl
  find-update_other q sel f (r ∷ rs) keep apart =
      ground (arith, keep r, apart r, find-update_other q sel f rs keep apart)

  pub rowcount-update :
      (q sel : Row → Bool) (f : Row → Row) (rows : List Row)
      → ((r : Row) → q (f r) ≡ q r)
      → rowcount q (update sel f rows) ≡ rowcount q rows
  unfolding rowcount update
  rowcount-update q sel f [] keep = refl
  rowcount-update q sel f (r ∷ rs) keep = ground (arith, keep r, rowcount-update q sel f rs keep)

  pub rowcount_zero :
      (q sel : Row → Bool) (rows : List Row)
      → ((r : Row) → sel r ≡ true → q r ≡ true)
      → rowcount q rows ≡ 0
      → rowcount sel rows ≡ 0
  unfolding rowcount
  rowcount_zero q sel [] sub h = refl
  rowcount_zero q sel (r ∷ rs) sub h = ground (arith, sub r, rowcount_zero q sel rs sub)

  abbrev pub count_of : (Row → Bool) → Option Row → ℕ
  count_of sel none = 0
  count_of sel (some r) = if sel r then 1 else 0

  -- Under a key, an update touches one row or none, and its rowcount tells which.
  pub rowcount_key :
      (q sel : Row → Bool) (rows : List Row)
      → ((r : Row) → sel r ≡ true → q r ≡ true)
      → rowcount q rows ≤ 1
      → rowcount sel rows ≡ count_of sel (find q rows)
  unfolding rowcount find
  rowcount_key q sel [] sub h = refl
  rowcount_key q sel (r ∷ rs) sub h =
      ground (arith, sub r, rowcount_zero q sel rs sub, rowcount_key q sel rs sub)

  pub find-append :
      (q : Row → Bool) (rows : List Row) (r : Row)
      → find q rows ≡ none
      → find q (rows ++ r ∷ []) ≡ (if q r then some r else none)
  unfolding find
  find-append q [] r h = refl
  find-append q (x ∷ rows) r h = ground (arith, find-append q rows r)

  pub find-append_old :
      (q : Row → Bool) (rows : List Row) (r x : Row)
      → find q rows ≡ some x
      → find q (rows ++ r ∷ []) ≡ some x
  unfolding find
  find-append_old q [] r x h = cc
  find-append_old q (y ∷ rows) r x h = ground (arith, find-append_old q rows r x)

  pub rowcount-append :
      (q : Row → Bool) (rows : List Row) (r : Row)
      → rowcount q (rows ++ r ∷ []) ≡ rowcount q rows + (if q r then 1 else 0)
  unfolding rowcount
  rowcount-append q [] r = ground arith
  rowcount-append q (x ∷ rows) r = ground (arith, rowcount-append q rows r)

  pub find_holds : (q : Row → Bool) (rows : List Row) (r : Row) → find q rows ≡ some r → q r ≡ true
  unfolding find
  find_holds q [] r h = cc
  find_holds q (x ∷ rows) r h = ground (arith, find_holds q rows r)

  pub find-none-rowcount :
      (q : Row → Bool) (rows : List Row) → find q rows ≡ none → rowcount q rows ≡ 0
  unfolding find rowcount
  find-none-rowcount q [] h = refl
  find-none-rowcount q (x ∷ rows) h = ground (arith, find-none-rowcount q rows)

  -- What holds of every row and is kept by the change holds of every row after the update.
  pub All-update {κ} :
      (P : Row → Type κ) (sel : Row → Bool) (f : Row → Row) (rows : List Row)
      → ((r : Row) → P r → sel r ≡ true → P (f r))
      → All P rows
      → All P (update sel f rows)
  unfolding update
  All-update P sel f [] keep h = tt
  All-update P sel f (r ∷ rs) keep h = (All-update_row r h.0, All-update P sel f rs keep h.1)
    where
      All-update_row : (r : Row) → P r → P (change sel f r)
      All-update_row r p = elim (Bool-cases (sel r)) [ inl e ↦ rw e (keep r p e) | inr e ↦ rw e p ]

  pub All-append_one {κ} :
      (P : Row → Type κ) (rows : List Row) (r : Row) → All P rows → P r → All P (rows ++ r ∷ [])
  All-append_one P [] r h p = (p, tt)
  All-append_one P (x ∷ rows) r h p = (h.0, All-append_one P rows r h.1 p)

  pub find-All {κ} :
      (P : Row → Type κ) (q : Row → Bool) (rows : List Row) (r : Row)
      → All P rows
      → find q rows ≡ some r
      → P r
  unfolding find
  find-All P q [] r h f = cc
  find-All P q (x ∷ rows) r h f = elim (Bool-cases (q x)) [
    | inl e ↦ subst P (Opt.some-injective x r (rw e at f)) h.0
    | inr e ↦ find-All P q rows r h.1 (rw e at f)
  ]

  pub update_twice :
      (sel sel' both : Row → Bool) (f : Row → Row) (rows : List Row)
      → ((r : Row) → change sel' f (change sel f r) ≡ change both f r)
      → update sel' f (update sel f rows) ≡ update both f rows
  unfolding update
  update_twice sel sel' both f [] h = refl
  update_twice sel sel' both f (r ∷ rows) h = cc (h r, update_twice sel sel' both f rows h)

  pub update_none :
      (sel : Row → Bool) (f : Row → Row) (rows : List Row)
      → ((r : Row) → sel r ≡ false)
      → update sel f rows ≡ rows
  unfolding update
  update_none sel f [] h = refl
  update_none sel f (r ∷ rows) h = ground (arith, h r, update_none sel f rows h)

  pub any-select :
      (p q : Row → Bool) (rows : List Row)
      → any p (select q rows) ≡ ltb 0 (rowcount (λ r. p r && q r) rows)
  unfolding select rowcount
  any-select p q [] = refl
  any-select p q (r ∷ rows) = ground (arith, any-select p q rows)

  pub rowcount-select :
      (p q : Row → Bool) (rows : List Row)
      → rowcount p (select q rows) ≡ rowcount (λ r. p r && q r) rows
  unfolding select rowcount
  rowcount-select p q [] = refl
  rowcount-select p q (r ∷ rows) = ground (arith, rowcount-select p q rows)

  pub All-weaken {κ} :
      {P Q : Row → Type κ} (rows : List Row) → ((r : Row) → P r → Q r) → All P rows → All Q rows
  All-weaken [] f h = tt
  All-weaken (r ∷ rows) f h = (f r h.0, All-weaken rows f h.1)

  pub All-change {κ} :
      (P Q : Row → Type κ) (sel : Row → Bool) (f : Row → Row) (rows : List Row)
      → ((r : Row) → P r → Q (change sel f r))
      → All P rows
      → All Q (update sel f rows)
  unfolding update
  All-change P Q sel f [] keep h = tt
  All-change P Q sel f (r ∷ rows) keep h = (keep r h.0, All-change P Q sel f rows keep h.1)
