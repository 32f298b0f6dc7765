-- ===== src/Context.antt =====
-- context/engine.py: the items of a context, and the order in which `build` collects them. The scores
-- and the evidence of an item take no part in the selection and are left out.
pub mod Select
pub mod Shares
pub mod Within
use Prim.Native.String.{◌++◌ as append}
use cogito_agent.Prelude.{
  ℕ, suc, ◌+◌, String, Bool, true, false, Option, none, some, List, [], ◌∷◌, ◌++◌, ◌=s◌,
  if◌then◌else◌,
}

pub record ContextItem : Type 0 where
  pub source_type : String
  pub source_id : String
  pub text : String
  pub rank : ℕ
  pub token_estimate : ℕ
  pub included : Bool
  pub reason : String
  pub role : String
  pub exclusion_reason : String

pub record SessionSummary : Type 0 where
  pub id : String
  pub summary : String

pub record HistoryMessage : Type 0 where
  pub id : String
  pub content : String
  pub role : String

-- `lineage_reason` is the reason in a `lineage_info`, where there is one.
pub record MemoryEntry : Type 0 where
  pub id : String
  pub text : String
  pub retrieval_source : Option String
  pub lineage_reason : Option String

pub record ToolEntry : Type 0 where
  pub tool : Option String
  pub summary : String
  pub error : String

pub record FileEntry : Type 0 where
  pub id : Option String
  pub text : String

-- `estimate_tokens` counts the tokens of a text; `part percent n` is the percentage of `n`, computed
-- in floats and cut to an integer; and `load_memory_file` reads a file of a workspace.
pub record ContextEngine : Type 0 where
  pub budget : ℕ
  pub estimate_tokens : String → ℕ
  pub part : ℕ → ℕ → ℕ
  pub load_memory_file : String → String → String
  pub show_number : ℕ → String

-- The arguments of `build`.
pub record ContextSources : Type 0 where
  pub recent_messages : List HistoryMessage
  pub memories : List MemoryEntry
  pub current_message : String
  pub tool_results : List ToolEntry
  pub file_context : List FileEntry
  pub system_text : String
  pub session_summary : Option SessionSummary
  pub workspace_path : String

abbrev pub item : ContextEngine → String → String → String → ℕ → String → ContextItem
item E source_type source_id text rank reason = record {
  source_type = source_type;
  source_id = source_id;
  text = text;
  rank = rank;
  token_estimate = E.estimate_tokens text;
  included = true;
  reason = reason;
  role = "";
  exclusion_reason = "";
}

abbrev pub or_given : Option String → String → String
or_given none d = d
or_given (some t) d = t

abbrev pub system_items : ContextEngine → String → List ContextItem
system_items E text = if text =s "" then [] else item E "system" "" text 0 "system_policy" ∷ []

abbrev pub summary_items : ContextEngine → Option SessionSummary → List ContextItem
summary_items E none = []
summary_items E (some s) =
    if s.summary =s ""
    then []
    else item E "session_summary" s.id s.summary 0 "derived_incremental_summary" ∷ []

abbrev pub file_items : ContextEngine → String → List (String × String) → List ContextItem
file_items E path [] = []
file_items E path ((name, id) ∷ fs) =
    let rest = file_items E path fs in
    let text = E.load_memory_file path name in
    if text =s "" then rest else item E "memory_file" id text 0 "memory_file" ∷ rest

abbrev pub memory_file_items : ContextEngine → String → List ContextItem
memory_file_items E path =
    if path =s ""
    then []
    else file_items E path (
        ("SELF.md", "self")
        ∷ ("MEMORY.md", "memory")
        ∷ ("RECENT_CONTEXT.md", "recent_context")
        ∷ ("SESSION_SUMMARY.md", "session_summary")
        ∷ [])

abbrev pub message_items : ContextEngine → ℕ → List HistoryMessage → List ContextItem
message_items E i [] = []
message_items E i (m ∷ ms) =
    record (item E "message" m.id m.content (i + 1) "recent_history") { role = m.role }
    ∷ message_items E (i + 1) ms

abbrev memory_type : String → String
memory_type source = if source =s "resident" then "memory_resident" else "memory_retrieved"

abbrev pub memory_items : ContextEngine → ℕ → List MemoryEntry → List ContextItem
memory_items E i [] = []
memory_items E i (m ∷ ms) =
    let source = or_given m.retrieval_source "retrieved" in
    item E (memory_type source) m.id m.text (i + 1) (or_given m.lineage_reason source)
    ∷ memory_items E (i + 1) ms

abbrev pub tool_items : ContextEngine → ℕ → List ToolEntry → List ContextItem
tool_items E i [] = []
tool_items E i (t ∷ ts) =
    let rest = tool_items E (i + 1) ts in
    let text = if t.summary =s "" then t.error else t.summary in
    let name = or_given t.tool (append "tool_" (E.show_number i)) in
    if text =s "" then rest else item E "tool" name text (i + 1) "tool_result" ∷ rest

abbrev pub context_file_items : ContextEngine → ℕ → List FileEntry → List ContextItem
context_file_items E i [] = []
context_file_items E i (f ∷ fs) =
    let rest = context_file_items E (i + 1) fs in
    let name = or_given f.id (append "file_" (E.show_number i)) in
    if f.text =s "" then rest else item E "file" name f.text (i + 1) "file_context" ∷ rest

-- The items of `build`, before the selection.
unfoldable pub collect_items : ContextEngine → ContextSources → List ContextItem
collect_items E x =
    system_items E x.system_text
    ++ item E "current_message" "" x.current_message 0 "required"
      ∷ summary_items E x.session_summary
    ++ memory_file_items E x.workspace_path
    ++ message_items E 0 x.recent_messages
    ++ memory_items E 0 x.memories
    ++ tool_items E 0 x.tool_results
    ++ context_file_items E 0 x.file_context
