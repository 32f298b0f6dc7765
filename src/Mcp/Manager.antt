-- ===== src/Mcp/Manager.antt =====
-- mcp/manager.py: the connected servers, and the tools of theirs that are registered as capabilities.
use Prim.Native.String.{◌++◌ as append}
use cogito_agent.Prelude.{
  ℕ, String, Bool, true, false, Option, none, some, List, [], ◌∷◌, ◌++◌, ◌=s◌, if◌then◌else◌, Dict,
  dict_get, dict_set, dict_pop, any,
}
use cogito_agent.Mcp.{
  ServerConfig, Tool, is_trusted, ToolGrant, TrustDb, Hashes, tool_schema_hash, get_tool_grant,
}
use cogito_agent.Mcp.Trust.{stage_server, stage_tool}

-- A capability of a server: what `_register_tool` puts in its manifest, and the tool that it calls.
pub record McpCapability : Type 0 where
  pub description : String
  pub input_schema : String
  pub allowed_contexts : List String
  pub approval_required : Bool
  pub server : String
  pub tool : String

pub record Client : Type 0 where
  pub config : ServerConfig
  pub tools : List Tool

-- The manager's own state, the trust store, and the capabilities of the registry.
pub record Manager : Type 0 where
  pub clients : Dict Client
  pub pending_configs : Dict ServerConfig
  pub registered_tools : Dict (List String)
  pub registry : Dict McpCapability
  pub trust : TrustDb

-- The surroundings of one call: whether there is a trust store, the clock, the tools that a server
-- lists when it is connected, or none where that raises, and whether a client is still connected.
pub record McpWorld : Type 0 where
  pub has_trust : Bool
  pub hashes : Hashes
  pub now : ℕ
  pub connect : ServerConfig → Option (List Tool)
  pub is_connected : Client → Bool

abbrev pub mcp_tool_name : String → String → String
mcp_tool_name server tool = append "mcp_" (append server (append "_" tool))

abbrev pub or_none : Option (List String) → List String
or_none none = []
or_none (some xs) = xs

-- `set.add`
abbrev pub add_name : String → List String → List String
add_name k ks = if any (λ j. j =s k) ks then ks else ks ++ k ∷ []

abbrev pub remember : String → String → Manager → Dict (List String)
remember server k m =
    dict_set server (add_name k (or_none (dict_get server m.registered_tools))) m.registered_tools

abbrev pub capability_of : ServerConfig → Tool → Option ToolGrant → McpCapability
capability_of c t none = record {
  description = t.description;
  input_schema = t.input_schema;
  allowed_contexts = "interactive" ∷ [];
  approval_required = true;
  server = c.name;
  tool = t.name;
}
capability_of c t (some g) = record {
  description = t.description;
  input_schema = t.input_schema;
  allowed_contexts = g.allowed_sources;
  approval_required = g.requires_approval;
  server = c.name;
  tool = t.name;
}

abbrev pub grant_of : McpWorld → ServerConfig → Tool → Manager → Option ToolGrant
grant_of W c t m = if W.has_trust then get_tool_grant c.name t.name m.trust else none

-- `_register_tool`
unfoldable pub register_tool : McpWorld → ServerConfig → Tool → Manager → Manager
register_tool W c t m =
    let k = mcp_tool_name c.name t.name in
    record m {
      registry = dict_set k (capability_of c t (grant_of W c t m)) m.registry;
      registered_tools = remember c.name k m;
    }

abbrev pub admits : Hashes → Tool → Option ToolGrant → Bool
admits H t none = false
admits H t (some g) = g.schema_hash =s tool_schema_hash H t

-- The body of the loop over the tools of a client.
unfoldable pub admit_tool : McpWorld → ServerConfig → Tool → Manager → Manager
unfolding register_tool stage_tool
admit_tool W c t m =
    if W.has_trust
    then (let m' = record m { trust = (stage_tool W.hashes c.name t m.trust).0 } in
        if admits W.hashes t (get_tool_grant c.name t.name m'.trust)
        then register_tool W c t m'
        else m')
    else register_tool W c t m

unfoldable pub admit_tools : McpWorld → ServerConfig → List Tool → Manager → Manager
unfolding admit_tool
admit_tools W c [] m = m
admit_tools W c (t ∷ ts) m = admit_tools W c ts (admit_tool W c t m)

abbrev pub connected_with : McpWorld → ServerConfig → Manager → Option (List Tool) → Manager × Bool
connected_with W c m none = (m, false)
connected_with W c m (some tools) =
    let client : Client = record { config = c; tools = tools } in
    (admit_tools W c tools (record m { clients = dict_set c.name client m.clients }), true)

-- `_connect_server`, and whether it returned or raised.
unfoldable pub connect_server : McpWorld → ServerConfig → Manager → Manager × Bool
unfolding admit_tools
connect_server W c m = connected_with W c m (W.connect c)

abbrev pub staged : McpWorld → ServerConfig → Manager → Manager
staged W c m = record m {
  trust = (stage_server W.hashes W.now c m.trust).0;
  pending_configs = dict_set c.name c m.pending_configs;
}

-- `add_server`
unfoldable pub add_server : McpWorld → ServerConfig → Manager → Manager × Bool
unfolding connect_server stage_server
add_server W c m =
    if W.has_trust
    then (if is_trusted (stage_server W.hashes W.now c m.trust).1
        then connect_server W c (staged W c m)
        else (staged W c m, true))
    else connect_server W c m

unfoldable pub unregister_all : List String → Dict McpCapability → Dict McpCapability
unregister_all [] d = d
unregister_all (k ∷ ks) d = unregister_all ks (dict_pop k d)

-- `remove_server`
unfoldable pub remove_server : String → Manager → Manager
unfolding unregister_all
remove_server name m = record m {
  clients = dict_pop name m.clients;
  registered_tools = dict_pop name m.registered_tools;
  registry = unregister_all (or_none (dict_get name m.registered_tools)) m.registry;
}
