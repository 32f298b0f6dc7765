-- ===== src/Mcp/Bound.antt =====
-- mcp/trust.py: a grant holds for the schema that it was given for.

use mathlib.Core.Option as Opt
use cogito_agent.Prelude.{
  ap, not, if-cases, eq_iff, false, ℕ, ◌≡◌, ◌∙◌, sym, refl, String, Bool, true, Option, none, some,
  List, [], ◌∷◌, arith, ◌=s◌,
}
use cogito_agent.Sql.{change, find, rowcount}
use cogito_agent.Sql.Laws.{find-update, rowcount_key, count_of}
use cogito_agent.Mcp.{
  Hashes, tool_schema_hash, get_tool_grant, Tool, TrustDb, ToolGrant, of_tool, is_live,
  get_any_grant,
}
use cogito_agent.Mcp.Trust.{put_grant, is_changed, stage_tool, grant_tool, granted, of_schema}
use cogito_agent.Mcp.Grants.{put_grant-get_tool_grant, IsKeyed, live_of}

any_live :
    (s t : String) (gs : List ToolGrant) (g : ToolGrant)
    → find (of_tool s t) gs ≡ some g
    → is_live g ≡ true
    → find (live_of s t) gs ≡ some g
unfolding find
any_live s t [] g found live = cc
any_live s t (x ∷ gs) g found live = ground (arith, any_live s t gs g)

counted :
    (s t hash : String) (o : Option ToolGrant)
    → count_of (of_schema s t hash) o ≡ 1
    → (g : ToolGrant) × (o ≡ some g) × (of_schema s t hash g ≡ true)
counted s t hash none h = ground arith
counted s t hash (some g) h = (g, refl, ground arith)

-- The row of a grant that was made.
grant_tool-row :
    (now : ℕ) (s t hash : String) (sources : List String) (approval : Bool) (db : TrustDb)
    → IsKeyed db
    → (grant_tool now s t hash sources approval db).1 ≡ true
    → (g : ToolGrant) × (get_any_grant s t (grant_tool now s t hash sources approval db).0
        ≡ some (granted now sources approval g))
      × ((g.schema_hash =s hash) ≡ true)
unfolding grant_tool get_any_grant
grant_tool-row now s t hash sources approval db key done =
    let one : rowcount (of_schema s t hash) db.grants ≡ 1 = ground arith in
    let count =
      rowcount_key (of_tool s t) (of_schema s t hash) db.grants (λ r h. ground arith) (key s t) in
    let (g, found, chosen) = counted s t hash (find (of_tool s t) db.grants) (sym count ∙ one) in
    (
      g,
      find-update (of_tool s t) (of_schema s t hash) (granted now sources approval) db.grants
            (λ r. refl)
          ∙ ap (Opt.map (change (of_schema s t hash) (granted now sources approval))) found
          ∙ rw chosen refl,
      ground arith,
    )

changed_of :
    (H : Hashes) (t : Tool) (o : Option ToolGrant) (g : ToolGrant)
    → o ≡ some g
    → is_changed (tool_schema_hash H t) o ≡ not (g.schema_hash =s tool_schema_hash H t)
changed_of H t o g row = ap (is_changed (tool_schema_hash H t)) row

pub stage_other :
    (H : Hashes) (s : String) (t : Tool) (db : TrustDb) (g : ToolGrant)
    → get_any_grant s t.name db ≡ some g
    → (g.schema_hash =s tool_schema_hash H t) ≡ false
    → get_tool_grant s t.name (stage_tool H s t db).0 ≡ none
unfolding stage_tool
stage_other H s t db g row ne =
    let hash = tool_schema_hash H t in
    if-cases (λ (x : TrustDb). get_tool_grant s t.name x ≡ none)
      (is_changed hash (get_any_grant s t.name db)) (put_grant s t.name hash db) db
      (λ changed. put_grant-get_tool_grant s t.name hash db)
      (λ same. absurd (changed_of H t (get_any_grant s t.name db) g row ∙ ap not ne) same)
  where
    absurd : {A : Type 0} {b : Bool} → b ≡ true → b ≡ false → A
    absurd p q = cc

stage_same :
    (H : Hashes) (s : String) (t : Tool) (db : TrustDb) (g : ToolGrant)
    → get_any_grant s t.name db ≡ some g
    → (g.schema_hash =s tool_schema_hash H t) ≡ true
    → (stage_tool H s t db).0 ≡ db
unfolding stage_tool
stage_same H s t db g row same =
    rw (changed_of H t (get_any_grant s t.name db) g row ∙ ap not same) refl

-- A grant that was made stays live with its sources and its approval when the tool is staged with the
-- schema that was granted, and is live no more when it is staged with another.
pub grant_bound_to_schema :
    (H : Hashes) (now : ℕ) (s : String) (t : Tool) (hash : String) (sources : List String)
    (approval : Bool) (db : TrustDb)
    → IsKeyed db
    → (grant_tool now s t.name hash sources approval db).1 ≡ true
    → let granted_db = (grant_tool now s t.name hash sources approval db).0 in
      let after = get_tool_grant s t.name (stage_tool H s t granted_db).0 in
      ((hash =s tool_schema_hash H t) ≡ false → after ≡ none)
      × ((hash =s tool_schema_hash H t) ≡ true
          → (g : ToolGrant) × (after ≡ some (granted now sources approval g))
            × (g.schema_hash ≡ hash))
unfolding get_tool_grant get_any_grant
grant_bound_to_schema H now s t hash sources approval db key done =
    let (g, row, same) = grant_tool-row now s t.name hash sources approval db key done in
    let eq = (eq_iff g.schema_hash hash).0 same in
    let made = (grant_tool now s t.name hash sources approval db).0 in
    let h = tool_schema_hash H t in
    (
      λ ne. stage_other H s t made (granted now sources approval g) row (ap (λ u. u =s h) eq ∙ ne),
      λ e. (
        g,
        ap (get_tool_grant s t.name)
              (stage_same H s t made (granted now sources approval g) row (ap (λ u. u =s h) eq ∙ e))
            ∙ any_live s t.name made.grants (granted now sources approval g) row refl,
        eq,
      ),
    )
