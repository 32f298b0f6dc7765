-- ===== src/Compression/Covered.antt =====
-- context/compression.py: a message is summarized once.
use mathlib.Core.Path.{subst}
use cogito_agent.Prelude.{
  ℕ, ◌≤◌, ◌≡◌, refl, String, Bool, true, false, not, ◌&&◌, Option, none, some, List, [], ◌∷◌, ◌++◌,
  ◌=s◌, =s_refl, arith, if◌then◌else◌, if-cases, Bool-cases, inl, inr, ◌∙◌, All, sym,
}
use cogito_agent.Compression.{
  SessionMessage, SummaryRow, CompressionService, SummaryDb, newer, summary_of_session, latest_of,
  get_latest, in_session, rowid_of, newer_than, keep_newer, messages_after, through_of,
  last_message, new_summary, summarized, update_summary, should_compress,
}

-- The rows are in the order of their rowids.
abbrev pub InOrder : List SessionMessage → Type 0
InOrder [] = Unit
InOrder (m ∷ ms) = All (λ n. m.rowid ≤ n.rowid) ms × InOrder ms

last_le :
    (m : SessionMessage) (ms : List SessionMessage)
    → InOrder (m ∷ ms)
    → m.rowid ≤ (last_message m ms).rowid
last_le m [] h = omega arith
last_le m (n ∷ ms) h = omega (arith, h.0.0, last_le n ms h.1)

up_to_last :
    (m : SessionMessage) (ms : List SessionMessage)
    → InOrder (m ∷ ms)
    → All (λ n. n.rowid ≤ (last_message m ms).rowid) (m ∷ ms)
up_to_last m [] h = (omega arith, tt)
up_to_last m (n ∷ ms) h = (last_le m (n ∷ ms) h, up_to_last n ms h.1)

last-All :
    (P : SessionMessage → Type 0) (m : SessionMessage) (ms : List SessionMessage)
    → All P (m ∷ ms)
    → P (last_message m ms)
last-All P m [] h = h.0
last-All P m (n ∷ ms) h = last-All P n ms h.1

module _ (w s : String) where
  keep_newer-All :
      (P : SessionMessage → Type 0) (after : ℕ) (ms : List SessionMessage)
      → All P ms
      → All (λ n. P n × (newer_than w s after n ≡ true)) (keep_newer w s after ms)
  unfolding keep_newer
  keep_newer-All P after [] h = tt
  keep_newer-All P after (m ∷ ms) h =
      if-cases (All (λ n. P n × (newer_than w s after n ≡ true))) (newer_than w s after m) _ _
        (λ k. ((h.0, k), keep_newer-All P after ms h.1)) (λ k. keep_newer-All P after ms h.1)

  first-All :
      (P Q : SessionMessage → Type 0) (ms : List SessionMessage)
      → All (λ n. P n × Q n) ms
      → All P ms
  first-All P Q [] h = tt
  first-All P Q (m ∷ ms) h = (h.0.0, first-All P Q ms h.1)

  keep_newer-InOrder :
      (after : ℕ) (ms : List SessionMessage) → InOrder ms → InOrder (keep_newer w s after ms)
  unfolding keep_newer
  keep_newer-InOrder after [] h = tt
  keep_newer-InOrder after (m ∷ ms) h =
      if-cases InOrder (newer_than w s after m) _ _
        (λ k. (
          first-All (λ n. m.rowid ≤ n.rowid) (λ n. newer_than w s after n ≡ true)
              (keep_newer w s after ms) (keep_newer-All (λ n. m.rowid ≤ n.rowid) after ms h.0),
          keep_newer-InOrder after ms h.1,
        ))
        (λ k. keep_newer-InOrder after ms h.1)

  not_newer :
      (after last : ℕ) (m : SessionMessage)
      → newer_than w s after m ≡ false
      → after ≤ last
      → newer_than w s last m ≡ false
  not_newer after last m h k = ground (arith, h, k)

  bounded_not_newer :
      (last : ℕ) (m : SessionMessage) → m.rowid ≤ last → newer_than w s last m ≡ false
  bounded_not_newer last m h = ground (arith, h)

  split_kept :
      (P : SessionMessage → Type 0) (b : Bool) (m : SessionMessage) (ms : List SessionMessage)
      → All P (if b then m ∷ ms else ms)
      → (b ≡ true → P m) × All P ms
  split_kept P true m ms h = (λ e. h.0, h.1)
  split_kept P false m ms h = (λ e. cc, h)

  none_newer :
      (after last : ℕ) (ms : List SessionMessage)
      → after ≤ last
      → All (λ n. n.rowid ≤ last) (keep_newer w s after ms)
      → keep_newer w s last ms ≡ []
  unfolding keep_newer
  none_newer after last [] h k = refl
  none_newer after last (m ∷ ms) h k =
      let (head, tail) =
        split_kept (λ n. n.rowid ≤ last) (newer_than w s after m) m (keep_newer w s after ms) k in
      let old : newer_than w s last m ≡ false = elim (Bool-cases (newer_than w s after m)) [
        | inl e ↦ bounded_not_newer last m (head e)
        | inr e ↦ not_newer after last m e h
      ] in
      rw old (none_newer after last ms h tail)

  latest_of-append :
      (best : Option SummaryRow) (rs : List SummaryRow) (r : SummaryRow)
      → summary_of_session w s r ≡ true
      → latest_of w s best (rs ++ r ∷ []) ≡ newer (latest_of w s best rs) r
  unfolding latest_of
  latest_of-append best [] r h = rw h refl
  latest_of-append best (q ∷ rs) r h =
      latest_of-append (if summary_of_session w s q then newer best q else best) rs r h

-- A message of the session is found under its identifier, which is not empty.
abbrev pub HasKey : String → String → List SessionMessage → SessionMessage → Type 0
HasKey w s rows m =
    (in_session w s m ≡ true → rowid_of w s m.id rows ≡ m.rowid) × ((m.id =s "") ≡ false)

after_last :
    (w s : String) (after : ℕ) (rows : List SessionMessage) (m : SessionMessage)
    (ms : List SessionMessage)
    → InOrder rows
    → All (HasKey w s rows) rows
    → keep_newer w s after rows ≡ m ∷ ms
    → messages_after w s (last_message m ms).id rows ≡ []
unfolding messages_after
after_last w s after rows m ms order keyed eq =
    let facts =
      subst (λ x. All (λ n. HasKey w s rows n × (newer_than w s after n ≡ true)) x) eq
        (keep_newer-All w s (HasKey w s rows) after rows keyed) in
    let sorted = subst (λ x. InOrder x) eq (keep_newer-InOrder w s after rows order) in
    let last = last_message m ms in
    let ((key, named), newer) =
      last-All (λ n. HasKey w s rows n × (newer_than w s after n ≡ true)) m ms facts in
    let within : in_session w s last ≡ true = ground (arith, newer) in
    let later : after ≤ last.rowid = ground (arith, newer) in
    let bounds = subst (λ x. All (λ n. n.rowid ≤ last.rowid) x) (sym eq) (up_to_last m ms sorted) in
    rw named (rw (key within) (none_newer w s after last.rowid rows later bounds))

own_session :
    (C : CompressionService) (w s id : String) (now : ℕ) (previous : Option SummaryRow)
    (m : SessionMessage) (ms : List SessionMessage)
    → summary_of_session w s (new_summary C w s id now previous m ms) ≡ true
own_session C w s id now previous m ms = rw (=s_refl w) (rw (=s_refl s) refl)

newest :
    (best : Option SummaryRow) (r : SummaryRow)
    → ((b : SummaryRow) → best ≡ some b → b.created_at ≤ r.created_at)
    → newer best r ≡ some r
newest none r h = refl
newest (some b) r h = ground (arith, h b refl)

-- Nothing is left to summarize after the latest summary.
abbrev pub IsCovered : String → String → SummaryDb → Type 0
IsCovered w s db = messages_after w s (through_of (get_latest w s db)) db.messages ≡ []

summarized-IsCovered :
    (C : CompressionService) (w s : String) (force : Bool) (id : String) (now after : ℕ)
    (db : SummaryDb) (msgs : List SessionMessage) (r : SummaryRow)
    → InOrder db.messages
    → All (HasKey w s db.messages) db.messages
    → ((b : SummaryRow) → get_latest w s db ≡ some b → b.created_at ≤ now)
    → keep_newer w s after db.messages ≡ msgs
    → (summarized C w s force id now (get_latest w s db) msgs db).1 ≡ some r
    → IsCovered w s (summarized C w s force id now (get_latest w s db) msgs db).0
summarized-IsCovered C w s force id now after db [] r order keyed clock eq h = cc
summarized-IsCovered C w s force id now after db (m ∷ ms) r order keyed clock eq h =
    let previous = get_latest w s db in
    let new = new_summary C w s id now previous m ms in
    let latest : latest_of w s none (db.summaries ++ new ∷ []) ≡ some new =
      latest_of-append w s none db.summaries new (own_session C w s id now previous m ms)
      ∙ newest previous new clock in
    if-cases (λ (out : SummaryDb × Option SummaryRow). out.1 ≡ some r → IsCovered w s out.0)
      (not force && not (should_compress C (m ∷ ms))) _ _ (λ e k. cc)
      (λ e k. rw latest (after_last w s after db.messages m ms order keyed eq)) h

-- Where the messages of the table are in order and found under identifiers that are not empty, and the
-- latest summary is not from the future: after a call that makes a summary, another one of the
-- session makes none, even when it is forced, and changes nothing.
pub summarized_once :
    (C : CompressionService) (w s : String) (force again : Bool) (id id' : String) (now now' : ℕ)
    (db : SummaryDb) (r : SummaryRow)
    → InOrder db.messages
    → All (HasKey w s db.messages) db.messages
    → ((b : SummaryRow) → get_latest w s db ≡ some b → b.created_at ≤ now)
    → (update_summary C w s force id now db).1 ≡ some r
    → let out = (update_summary C w s force id now db).0 in
      update_summary C w s again id' now' out ≡ (out, none)
unfolding update_summary messages_after
summarized_once C w s force again id id' now now' db r order keyed clock h =
    let through = through_of (get_latest w s db) in
    let after = if through =s "" then 0 else rowid_of w s through db.messages in
    let covered =
      summarized-IsCovered C w s force id now after db (keep_newer w s after db.messages) r order
        keyed clock refl h in
    rw covered refl
