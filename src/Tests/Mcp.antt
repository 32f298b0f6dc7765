-- ===== src/Tests/Mcp.antt =====
-- The MCP trust store and manager (mcp/trust.py, mcp/manager.py) with one server.
use cogito_agent.Prelude.{
  dict_set, ◌≡◌, ◌⊎◌, refl, true, false, none, some, [], ◌∷◌, arith, ◌=s◌, dict_get,
}
use cogito_agent.Sql.{find, rowcount, update}
use cogito_agent.Mcp.{
  ServerConfig, Tool, ToolGrant, ServerRow, TrustDb, Hashes, trusted, pending, is_trusted,
  fingerprint, get_server, get_tool_grant, get_any_grant,
}
use cogito_agent.Mcp.Trust as Trust
use cogito_agent.Mcp.Trust.{
  put_server, put_grant, stage_server, stage_tool, grant_tool, granted, status_of,
}
use cogito_agent.Mcp.Grants.{IsKeyed}
use cogito_agent.Mcp.Bound.{grant_bound_to_schema}
use cogito_agent.Mcp.Manager.{
  Manager, McpWorld, McpCapability, Client, admit_tools, admit_tool, register_tool, add_server,
  connect_server,
}
use cogito_agent.Mcp.Calls.{block_server}
use cogito_agent.Mcp.Registered.{IsGranted, add_server_governed}
use cogito_agent.Mcp.Withdrawn.{IsWithdrawn, block_server-IsWithdrawn}

abbrev plain : Hashes
plain = record { sha256 = λ s. s; config_text = λ c. c.command }

abbrev files : ServerConfig
files = record {
  name = "files";
  command = "serve";
  args = [];
  env = [];
  cwd = none;
  enabled = true;
}

abbrev read : Tool
read = record { name = "read"; description = "Reads."; input_schema = "{}" }

abbrev read_more : Tool
read_more = record read { input_schema = "{path}" }

abbrev read_grant : ToolGrant
read_grant = record {
  server_name = "files";
  tool_name = "read";
  schema_hash = "{}";
  risk_level = "high";
  allowed_sources = "interactive" ∷ [];
  requires_approval = true;
  granted_at = some 1;
  revoked_at = none;
}

abbrev files_row : ServerRow
files_row = record {
  name = "files";
  config_hash = "serve";
  config = files;
  trust_status = trusted;
  enabled = true;
  created_at = 1;
  updated_at = 1;
}

abbrev store : TrustDb
store = record { servers = files_row ∷ []; grants = read_grant ∷ [] }

abbrev read_capability : McpCapability
read_capability = record {
  description = "Reads.";
  input_schema = "{}";
  allowed_contexts = "interactive" ∷ [];
  approval_required = true;
  server = "files";
  tool = "read";
}

abbrev client : Client
client = record { config = files; tools = read ∷ [] }

abbrev manager : Manager
manager = record {
  clients = ("files", client) ∷ [];
  pending_configs = [];
  registered_tools = ("files", "mcp_files_read" ∷ []) ∷ [];
  registry = ("mcp_files_read", read_capability) ∷ [];
  trust = store;
}

abbrev unconnected : Manager
unconnected = record manager { clients = []; registered_tools = []; registry = [] }

abbrev surroundings : McpWorld
surroundings = record {
  has_trust = true;
  hashes = plain;
  now = 5;
  connect = λ c. some (read ∷ []);
  is_connected = λ c. true;
}

store-IsKeyed : IsKeyed store
unfolding rowcount
store-IsKeyed s t = ground arith

read_is_granted : (grant_tool 5 "files" "read" "{}" [] false store).1 ≡ true
unfolding grant_tool rowcount
read_is_granted = refl

grant_bound_to_schema_example :
    let after =
      get_tool_grant "files" "read"
        (stage_tool plain "files" read_more
          (grant_tool 5 "files" "read" "{}" [] false store).0).0 in
    (("{}" =s "{path}") ≡ false → after ≡ none)
    × (("{}" =s "{path}") ≡ true
        → (g : ToolGrant) × (after ≡ some (granted 5 [] false g)) × (g.schema_hash ≡ "{}"))
grant_bound_to_schema_example =
    grant_bound_to_schema plain 5 "files" read_more "{}" [] false store store-IsKeyed
      read_is_granted

read_registered :
    dict_get "mcp_files_read" (add_server surroundings files unconnected).0.registry
    ≡ some read_capability
unfolding add_server connect_server stage_server get_server put_server find update admit_tools
    admit_tool stage_tool get_any_grant get_tool_grant register_tool dict_set dict_get put_grant
read_registered = refl

add_server_governed_example :
    (dict_get "mcp_files_read" [] ≡ some read_capability)
    ⊎ ((is_trusted (status_of (fingerprint plain files) (get_server "files" store)) ≡ true)
        × IsGranted surroundings "files" unconnected read_capability)
add_server_governed_example =
    add_server_governed surroundings files unconnected "mcp_files_read" read_capability refl
      read_registered

files_blocked : (block_server surroundings "files" manager).1 ≡ true
unfolding block_server Trust.block_server rowcount
files_blocked = refl

block_server-IsWithdrawn_example :
    IsWithdrawn "files" manager (block_server surroundings "files" manager).0
block_server-IsWithdrawn_example =
    block_server-IsWithdrawn surroundings "files" manager files_blocked

abbrev other_files : ServerConfig
other_files = record files { command = "serve2" }

other_is_pending : status_of (fingerprint plain other_files) (get_server "files" store) ≡ pending
unfolding get_server find
other_is_pending = refl

abbrev changed_world : McpWorld
changed_world = record surroundings { connect = λ c. some (read_more ∷ []) }

read_known : get_any_grant "files" "read" store ≡ some read_grant
unfolding get_any_grant find
read_known = refl
