-- ===== src/Mcp/Grants.antt =====
-- mcp/trust.py: which grants are live after each operation of the trust store.
use cogito_agent.Prelude.{
  ℕ, ◌≤◌, ◌≡◌, ◌∙◌, refl, String, Bool, false, ◌&&◌, none, List, [], ◌∷◌, arith, if◌then◌else◌,
  ◌=s◌, eq_iff, Bool-cases, Option-cases, inl, inr,
}
use cogito_agent.Sql.{find, update, rowcount}
use cogito_agent.Sql.Laws.{find-append, find-none-rowcount}
use cogito_agent.Mcp.{
  ServerConfig, is_pending, TrustDb, ToolGrant, Hashes, fingerprint, of_server, of_tool, is_live,
  get_server, get_tool_grant, get_any_grant,
}
use cogito_agent.Mcp.Trust.{stage_server, put_server, status_of, revoked, put_grant, ungranted}

-- The primary key of the grants.
abbrev pub IsKeyed : TrustDb → Type 0
IsKeyed db = (server tool : String) → rowcount (of_tool server tool) db.grants ≤ 1

abbrev pub live_of : String → String → ToolGrant → Bool
live_of s t g = of_tool s t g && is_live g

pub revoked_server :
    (now : ℕ) (s t : String) (gs : List ToolGrant)
    → find (live_of s t) (update (of_server s) (revoked now) gs) ≡ none
unfolding find update
revoked_server now s t [] = refl
revoked_server now s t (g ∷ gs) = ground (arith, revoked_server now s t gs)

revoked_other :
    (now : ℕ) (s s' t : String) (gs : List ToolGrant)
    → (s =s s') ≡ false
    → find (live_of s' t) (update (of_server s) (revoked now) gs) ≡ find (live_of s' t) gs
unfolding find update
revoked_other now s s' t [] ne = refl
revoked_other now s s' t (g ∷ gs) ne = ground (
  arith,
  ne,
  revoked_other now s s' t gs ne,
  eq_iff g.server_name s,
  eq_iff g.server_name s',
  eq_iff s s',
)

-- Staging a server keeps its status where its configuration is the one on record, else the server is
-- pending; then none of its grants is live. The grants of a server that is not pending, and those of
-- every other server, are as they were.
pub stage_server-get_tool_grant :
    (H : Hashes) (now : ℕ) (c : ServerConfig) (db : TrustDb) (tool : String)
    → let status = status_of (fingerprint H c) (get_server c.name db) in
      let after = stage_server H now c db in
      (after.1 ≡ status)
      × (get_tool_grant c.name tool after.0
          ≡ (if is_pending status then none else get_tool_grant c.name tool db))
      × ((other : String)
          → (c.name =s other) ≡ false
          → get_tool_grant other tool after.0 ≡ get_tool_grant other tool db)
unfolding stage_server put_server get_tool_grant
stage_server-get_tool_grant H now c db tool =
    elim (Bool-cases (is_pending (status_of (fingerprint H c) (get_server c.name db)))) [
      | inl e ↦ (
        refl,
        rw e (revoked_server now c.name tool db.grants),
        λ other ne. rw e (revoked_other now c.name other tool db.grants ne),
      )
      | inr e ↦ (refl, rw e refl, λ other ne. rw e refl)
    ]

absent_not-live :
    (s t : String) (gs : List ToolGrant)
    → rowcount (of_tool s t) gs ≡ 0
    → find (live_of s t) gs ≡ none
unfolding find rowcount
absent_not-live s t [] h = refl
absent_not-live s t (g ∷ gs) h = ground (arith, absent_not-live s t gs)

reset_not-live :
    (s t hash : String) (gs : List ToolGrant)
    → find (live_of s t) (update (of_tool s t) (λ g. ungranted g.server_name g.tool_name hash) gs)
      ≡ none
unfolding find update
reset_not-live s t hash [] = refl
reset_not-live s t hash (g ∷ gs) = ground (arith, reset_not-live s t hash gs)

pub put_grant-get_tool_grant :
    (s t hash : String) (db : TrustDb) → get_tool_grant s t (put_grant s t hash db) ≡ none
unfolding put_grant get_tool_grant get_any_grant
put_grant-get_tool_grant s t hash db = elim (Option-cases (find (of_tool s t) db.grants)) [
  | inl fresh ↦ rw fresh (
      find-append (live_of s t) db.grants (ungranted s t hash)
        (absent_not-live s t db.grants (find-none-rowcount (of_tool s t) db.grants fresh))
      ∙ ground arith)
  | inr (g, old) ↦ rw old (reset_not-live s t hash db.grants)
]
