-- ===== src/Mcp/Staged.antt =====
-- mcp/trust.py: the grants that are live when a tool is staged.
use mathlib.Core.Path.{subst}
use cogito_agent.Prelude.{
  ◌≡◌, ◌∙◌, sym, refl, String, true, false, ◌&&◌, inl, inr, Option, none, some, List, [], ◌∷◌, ◌++◌,
  arith, ◌=s◌, eq_iff, Bool-cases, if-cases, is_some,
}
use cogito_agent.Sql.{find, update}
use cogito_agent.Mcp.{
  Tool, TrustDb, ToolGrant, Hashes, tool_schema_hash, of_tool, get_tool_grant, get_any_grant,
}
use cogito_agent.Mcp.Trust.{stage_tool, put_grant, is_changed, ungranted}
use cogito_agent.Mcp.Grants.{live_of, put_grant-get_tool_grant}

reset_other :
    (s t s' t' hash : String) (gs : List ToolGrant)
    → (s' =s s && t' =s t) ≡ false
    → find (live_of s t) (update (of_tool s' t') (λ g. ungranted g.server_name g.tool_name hash) gs)
      ≡ find (live_of s t) gs
unfolding find update
reset_other s t s' t' hash [] ne = refl
reset_other s t s' t' hash (g ∷ gs) ne = ground (
  arith,
  ne,
  reset_other s t s' t' hash gs ne,
  eq_iff g.server_name s,
  eq_iff g.server_name s',
  eq_iff s' s,
  eq_iff g.tool_name t,
  eq_iff g.tool_name t',
  eq_iff t' t,
)

appended_other :
    (s t s' t' hash : String) (gs : List ToolGrant)
    → find (live_of s t) (gs ++ ungranted s' t' hash ∷ []) ≡ find (live_of s t) gs
unfolding find
appended_other s t s' t' hash [] = ground arith
appended_other s t s' t' hash (g ∷ gs) = ground (arith, appended_other s t s' t' hash gs)

put_other :
    (s t s' t' hash : String) (db : TrustDb)
    → (s' =s s && t' =s t) ≡ false
    → get_tool_grant s t (put_grant s' t' hash db) ≡ get_tool_grant s t db
unfolding put_grant get_tool_grant
put_other s t s' t' hash db ne = elim (Bool-cases (is_some (get_any_grant s' t' db))) [
  | inl old ↦ rw old (reset_other s t s' t' hash db.grants ne)
  | inr fresh ↦ rw fresh (appended_other s t s' t' hash db.grants)
]

put_same :
    (s t s' t' hash : String) (db : TrustDb)
    → (s' =s s && t' =s t) ≡ true
    → get_tool_grant s t (put_grant s' t' hash db) ≡ none
put_same s t s' t' hash db eq =
    let p : s' ≡ s = ground (arith, eq_iff s' s) in
    let q : t' ≡ t = ground (arith, eq_iff t' t) in
    subst (λ u. get_tool_grant u t (put_grant s' t' hash db) ≡ none) p
      (subst (λ v. get_tool_grant s' v (put_grant s' t' hash db) ≡ none) q
        (put_grant-get_tool_grant s' t' hash db))

-- Staging a tool makes no grant live.
pub live_before :
    (H : Hashes) (s t s' : String) (t' : Tool) (db : TrustDb) (g : ToolGrant)
    → get_tool_grant s t (stage_tool H s' t' db).0 ≡ some g
    → get_tool_grant s t db ≡ some g
unfolding stage_tool
live_before H s t s' t' db g live =
    let hash = tool_schema_hash H t' in
    if-cases (λ (x : TrustDb). get_tool_grant s t x ≡ some g → get_tool_grant s t db ≡ some g)
      (is_changed hash (get_any_grant s' t'.name db)) (put_grant s' t'.name hash db) db
      (λ changed after. elim (Bool-cases (s' =s s && t'.name =s t)) [
        | inl eq ↦ absurd (put_same s t s' t'.name hash db eq) after
        | inr ne ↦ sym (put_other s t s' t'.name hash db ne) ∙ after
      ])
      (λ same after. after) live
  where
    absurd : {A : Type 0} {o : Option ToolGrant} → o ≡ none → o ≡ some g → A
    absurd a b = cc
