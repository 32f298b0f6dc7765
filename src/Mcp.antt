-- ===== src/Mcp.antt =====
-- mcp/trust.py and mcp/server.py: the servers that are trusted, and the tools that are granted.
pub mod Trust
pub mod Grants
pub mod Bound
pub mod Manager
pub mod Calls
pub mod Staged
pub mod Registered
pub mod Withdrawn
use cogito_agent.Prelude.{
  ℕ, String, Bool, true, false, not, ◌&&◌, Option, none, some, List, [], ◌∷◌, ◌++◌, ◌==◌, ◌=s◌, map,
  is_some, if◌then◌else◌,
}
use cogito_agent.Sql.{find, update, rowcount, select}

-- `env` is a list of names and values.
pub record ServerConfig : Type 0 where
  pub name : String
  pub command : String
  pub args : List String
  pub env : List (String × String)
  pub cwd : Option String
  pub enabled : Bool

-- A tool, as a server lists it; `input_schema` is its JSON text with sorted keys.
pub record Tool : Type 0 where
  pub name : String
  pub description : String
  pub input_schema : String

pub data TrustStatus : Type 0 where
  pending trusted blocked : TrustStatus

abbrev pub is_pending : TrustStatus → Bool
is_pending s = elim s [ pending ↦ true | _ ↦ false ]

abbrev pub is_trusted : TrustStatus → Bool
is_trusted s = elim s [ trusted ↦ true | _ ↦ false ]

-- A row of `mcp_servers`; `config` is what its JSON holds.
pub record ServerRow : Type 0 where
  pub name : String
  pub config_hash : String
  pub config : ServerConfig
  pub trust_status : TrustStatus
  pub enabled : Bool
  pub created_at : ℕ
  pub updated_at : ℕ

-- A row of `mcp_tool_grants`.
pub record ToolGrant : Type 0 where
  pub server_name : String
  pub tool_name : String
  pub schema_hash : String
  pub risk_level : String
  pub allowed_sources : List String
  pub requires_approval : Bool
  pub granted_at : Option ℕ
  pub revoked_at : Option ℕ

pub record TrustDb : Type 0 where
  pub servers : List ServerRow
  pub grants : List ToolGrant

-- SHA-256, over the JSON text of a configuration without `enabled`, or of a schema.
pub record Hashes : Type 0 where
  pub sha256 : String → String
  pub config_text : ServerConfig → String

abbrev pub fingerprint : Hashes → ServerConfig → String
fingerprint H c = H.sha256 (H.config_text (record c { enabled = true }))

abbrev pub tool_schema_hash : Hashes → Tool → String
tool_schema_hash H t = H.sha256 t.input_schema

abbrev pub named : String → ServerRow → Bool
named k s = s.name =s k

abbrev pub of_server : String → ToolGrant → Bool
of_server k g = g.server_name =s k

abbrev pub of_tool : String → String → ToolGrant → Bool
of_tool k t g = g.server_name =s k && g.tool_name =s t

-- `get_server`
unfoldable pub get_server : String → TrustDb → Option ServerRow
get_server name db = find (named name) db.servers

-- A grant that was given and not revoked.
abbrev pub is_live : ToolGrant → Bool
is_live g = is_some g.granted_at && not (is_some g.revoked_at)

-- `get_tool_grant`, and the same with `include_revoked`.
unfoldable pub get_tool_grant : String → String → TrustDb → Option ToolGrant
get_tool_grant server tool db = find (λ g. of_tool server tool g && is_live g) db.grants

unfoldable pub get_any_grant : String → String → TrustDb → Option ToolGrant
get_any_grant server tool db = find (of_tool server tool) db.grants

abbrev pub redacted : ServerConfig → ServerConfig
redacted c = record c { env = map (λ (e : String × String). (e.0, "[REDACTED]")) c.env }

abbrev pub new_server : ℕ → String → TrustStatus → ServerConfig → ServerRow
new_server now hash status c = record {
  name = c.name;
  config_hash = hash;
  config = redacted c;
  trust_status = status;
  enabled = c.enabled;
  created_at = now;
  updated_at = now;
}

abbrev pub restaged : ℕ → String → TrustStatus → ServerConfig → ServerRow → ServerRow
restaged now hash status c s = record s {
  config_hash = hash;
  config = redacted c;
  trust_status = status;
  enabled = c.enabled;
  updated_at = now;
}
