-- ===== src/Mcp/Trust.antt =====
-- mcp/trust.py: the operations of the trust store.
use cogito_agent.Prelude.{
  ℕ, String, Bool, true, not, ◌&&◌, Option, none, some, List, [], ◌∷◌, ◌++◌, ◌==◌, ◌=s◌, is_some,
  if◌then◌else◌,
}
use cogito_agent.Sql.{update, rowcount, select}
use cogito_agent.Mcp.{
  ServerConfig, Tool, TrustStatus, pending, trusted, blocked, is_pending, ServerRow, ToolGrant,
  TrustDb, Hashes, fingerprint, tool_schema_hash, named, of_server, of_tool, get_server,
  get_any_grant, new_server, restaged,
}

-- INSERT … ON CONFLICT(name) DO UPDATE
unfoldable pub put_server : ℕ → String → TrustStatus → ServerConfig → TrustDb → TrustDb
unfolding get_server
put_server now hash status c db = record db {
  servers =
      if is_some (get_server c.name db)
      then update (named c.name) (restaged now hash status c) db.servers
      else db.servers ++ new_server now hash status c ∷ [];
}

abbrev pub revoked : ℕ → ToolGrant → ToolGrant
revoked now g = record g { revoked_at = some now }

abbrev pub revoke_all : ℕ → String → TrustDb → TrustDb
revoke_all now name db = record db { grants = update (of_server name) (revoked now) db.grants }

abbrev pub status_of : String → Option ServerRow → TrustStatus
status_of hash none = pending
status_of hash (some s) = if s.config_hash =s hash then s.trust_status else pending

-- `stage_server`
unfoldable pub stage_server : Hashes → ℕ → ServerConfig → TrustDb → TrustDb × TrustStatus
unfolding put_server get_server
stage_server H now c db =
    let hash = fingerprint H c in
    let status = status_of hash (get_server c.name db) in
    let db' = put_server now hash status c db in
    (if is_pending status then revoke_all now c.name db' else db', status)

abbrev pub set_trust : ℕ → TrustStatus → ServerRow → ServerRow
set_trust now status s = record s { trust_status = status; updated_at = now }

-- `trust_server`
unfoldable pub trust_server : ℕ → String → TrustDb → TrustDb × Bool
trust_server now name db = (
  record db { servers = update (named name) (set_trust now trusted) db.servers },
  rowcount (named name) db.servers == 1,
)

-- `block_server`
unfoldable pub block_server : ℕ → String → TrustDb → TrustDb × Bool
block_server now name db = (
  revoke_all now name
      (record db { servers = update (named name) (set_trust now blocked) db.servers }),
  rowcount (named name) db.servers == 1,
)

abbrev pub not_redacted : String × String → Bool
not_redacted e = not (e.1 =s "[REDACTED]")

abbrev pub config_of : Option ServerRow → Option ServerConfig
config_of none = none
config_of (some s) = some (record s.config { env = select not_redacted s.config.env })

-- `get_server_config`
unfoldable pub get_server_config : String → TrustDb → Option ServerConfig
unfolding get_server
get_server_config name db = config_of (get_server name db)

abbrev pub ungranted : String → String → String → ToolGrant
ungranted server tool hash = record {
  server_name = server;
  tool_name = tool;
  schema_hash = hash;
  risk_level = "high";
  allowed_sources = "interactive" ∷ [];
  requires_approval = true;
  granted_at = none;
  revoked_at = none;
}

abbrev pub is_changed : String → Option ToolGrant → Bool
is_changed hash none = true
is_changed hash (some g) = not (g.schema_hash =s hash)

-- INSERT … ON CONFLICT(server_name, tool_name) DO UPDATE
unfoldable pub put_grant : String → String → String → TrustDb → TrustDb
unfolding get_any_grant
put_grant server tool hash db = record db {
  grants =
      if is_some (get_any_grant server tool db)
      then update (of_tool server tool) (λ g. ungranted g.server_name g.tool_name hash) db.grants
      else db.grants ++ ungranted server tool hash ∷ [];
}

-- `stage_tool`
unfoldable pub stage_tool : Hashes → String → Tool → TrustDb → TrustDb × Bool
unfolding put_grant get_any_grant
stage_tool H server t db =
    let hash = tool_schema_hash H t in
    let changed = is_changed hash (get_any_grant server t.name db) in
    (if changed then put_grant server t.name hash db else db, changed)

abbrev pub sources_or : List String → List String
sources_or [] = "interactive" ∷ []
sources_or (s ∷ ss) = s ∷ ss

abbrev pub granted : ℕ → List String → Bool → ToolGrant → ToolGrant
granted now sources approval g = record g {
  allowed_sources = sources_or sources;
  requires_approval = approval;
  granted_at = some now;
  revoked_at = none;
}

abbrev pub of_schema : String → String → String → ToolGrant → Bool
of_schema server tool hash g = of_tool server tool g && g.schema_hash =s hash

-- `grant_tool`; no list of sources is the empty one.
unfoldable pub grant_tool :
    ℕ → String → String → String → List String → Bool → TrustDb → TrustDb × Bool
grant_tool now server tool hash sources approval db = (
  record db {
    grants = update (of_schema server tool hash) (granted now sources approval) db.grants;
  },
  rowcount (of_schema server tool hash) db.grants == 1,
)

abbrev pub unrevoked : String → String → ToolGrant → Bool
unrevoked server tool g = of_tool server tool g && not (is_some g.revoked_at)

-- `revoke_tool`
unfoldable pub revoke_tool : ℕ → String → String → TrustDb → TrustDb × Bool
revoke_tool now server tool db = (
  record db { grants = update (unrevoked server tool) (revoked now) db.grants },
  rowcount (unrevoked server tool) db.grants == 1,
)
