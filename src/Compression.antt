-- ===== src/Compression.antt =====
-- context/compression.py: the summaries of a session. The messages are in the order of their rowids,
-- and the summaries in the order of their insertion.
pub mod Covered
use cogito_agent.Prelude.{
  ℕ, ◌+◌, String, Bool, true, false, not, ◌&&◌, ◌||◌, Option, none, some, List, [], ◌∷◌, ◌++◌, ◌=s◌,
  ltb, leb, length, if◌then◌else◌,
}

pub record SessionMessage : Type 0 where
  pub rowid : ℕ
  pub id : String
  pub workspace_id : String
  pub session_id : String
  pub role : String
  pub content : String

pub record SummaryRow : Type 0 where
  pub id : String
  pub workspace_id : String
  pub session_id : String
  pub parent_summary_id : Option String
  pub strategy : String
  pub summary : String
  pub source_message_count : ℕ
  pub through_message_id : String
  pub created_at : ℕ

pub record CompressionPolicy : Type 0 where
  pub min_new_messages : ℕ
  pub min_new_characters : ℕ

-- The service with its strategy, and the length of a text.
pub record CompressionService : Type 0 where
  pub strategy_name : String
  pub summarize : String → List SessionMessage → String
  pub policy : CompressionPolicy
  pub text_length : String → ℕ

pub record SummaryDb : Type 0 where
  pub messages : List SessionMessage
  pub summaries : List SummaryRow

abbrev characters : (String → ℕ) → List SessionMessage → ℕ
characters len [] = 0
characters len (m ∷ ms) = len m.content + characters len ms

-- `should_compress`
unfoldable pub should_compress : CompressionService → List SessionMessage → Bool
should_compress C ms =
    leb C.policy.min_new_messages (length ms)
    || leb C.policy.min_new_characters (characters C.text_length ms)

abbrev pub newer : Option SummaryRow → SummaryRow → Option SummaryRow
newer none r = some r
newer (some b) r = if leb b.created_at r.created_at then some r else some b

abbrev pub summary_of_session : String → String → SummaryRow → Bool
summary_of_session w s r = (r.workspace_id =s w) && (r.session_id =s s)

-- ORDER BY created_at DESC, rowid DESC LIMIT 1
unfoldable pub latest_of : String → String → Option SummaryRow → List SummaryRow → Option SummaryRow
latest_of w s best [] = best
latest_of w s best (r ∷ rs) =
    latest_of w s (if summary_of_session w s r then newer best r else best) rs

-- `get_latest`
abbrev pub get_latest : String → String → SummaryDb → Option SummaryRow
get_latest w s db = latest_of w s none db.summaries

abbrev pub in_session : String → String → SessionMessage → Bool
in_session w s m = (m.workspace_id =s w) && (m.session_id =s s)

-- The rowid of a message of the session, or 0 where there is none.
unfoldable pub rowid_of : String → String → String → List SessionMessage → ℕ
rowid_of w s id [] = 0
rowid_of w s id (m ∷ ms) =
    let rest = rowid_of w s id ms in if (m.id =s id) && in_session w s m then m.rowid else rest

abbrev pub newer_than : String → String → ℕ → SessionMessage → Bool
newer_than w s after m = in_session w s m && ltb after m.rowid

unfoldable pub keep_newer : String → String → ℕ → List SessionMessage → List SessionMessage
keep_newer w s after [] = []
keep_newer w s after (m ∷ ms) =
    let rest = keep_newer w s after ms in if newer_than w s after m then m ∷ rest else rest

-- `_messages_after`
unfoldable pub messages_after : String → String → String → List SessionMessage → List SessionMessage
unfolding rowid_of keep_newer
messages_after w s through ms =
    keep_newer w s (if through =s "" then 0 else rowid_of w s through ms) ms

abbrev pub id_of : Option SummaryRow → Option String
id_of none = none
id_of (some r) = if r.id =s "" then none else some r.id

abbrev pub through_of : Option SummaryRow → String
through_of none = ""
through_of (some r) = r.through_message_id

abbrev pub text_of : Option SummaryRow → String
text_of none = ""
text_of (some r) = r.summary

abbrev pub last_message : SessionMessage → List SessionMessage → SessionMessage
last_message m [] = m
last_message m (n ∷ ms) = last_message n ms

abbrev pub new_summary :
    CompressionService
    → String
    → String
    → String
    → ℕ
    → Option SummaryRow
    → SessionMessage
    → List SessionMessage
    → SummaryRow
new_summary C w s id now previous m ms = record {
  id = id;
  workspace_id = w;
  session_id = s;
  parent_summary_id = id_of previous;
  strategy = C.strategy_name;
  summary = C.summarize (text_of previous) (m ∷ ms);
  source_message_count = length (m ∷ ms);
  through_message_id = (last_message m ms).id;
  created_at = now;
}

abbrev pub summarized :
    CompressionService
    → String
    → String
    → Bool
    → String
    → ℕ
    → Option SummaryRow
    → List SessionMessage
    → SummaryDb
    → SummaryDb × Option SummaryRow
summarized C w s force id now previous [] db = (db, none)
summarized C w s force id now previous (m ∷ ms) db =
    let r = new_summary C w s id now previous m ms in
    if not force && not (should_compress C (m ∷ ms))
    then (db, none)
    else (record db { summaries = db.summaries ++ r ∷ [] }, some r)

-- `update_summary`, with the identifier of the new summary and the time of its insertion.
unfoldable pub update_summary :
    CompressionService
    → String
    → String
    → Bool
    → String
    → ℕ
    → SummaryDb
    → SummaryDb × Option SummaryRow
unfolding should_compress latest_of messages_after
update_summary C w s force id now db =
    let previous = get_latest w s db in
    summarized C w s force id now previous (messages_after w s (through_of previous) db.messages) db
