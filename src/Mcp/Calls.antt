-- ===== src/Mcp/Calls.antt =====
-- mcp/manager.py: trusting, granting, revoking, blocking, and the synchronisation with a directory.
use cogito_agent.Prelude.{
  String, Bool, true, false, not, Option, none, some, List, [], ◌∷◌, ◌++◌, ◌=s◌, if◌then◌else◌,
  Dict, dict_get, dict_set, dict_pop, keep, is_some,
}
use cogito_agent.Mcp.{ServerConfig, Tool, is_trusted}
use cogito_agent.Mcp.Trust as Trust
use cogito_agent.Mcp.Trust.{get_server_config, stage_server}
use cogito_agent.Mcp.Manager.{
  Manager, McpWorld, Client, connect_server, register_tool, remove_server, mcp_tool_name, or_none,
  staged, add_server,
}

abbrev pub first_config : Option ServerConfig → Option ServerConfig → Option ServerConfig
first_config none b = b
first_config (some c) b = some c

abbrev pub config_for : String → Manager → Option ServerConfig
config_for name m = first_config (dict_get name m.pending_configs) (get_server_config name m.trust)

abbrev connect_found : McpWorld → Option ServerConfig → Manager → Manager × Option Bool
connect_found W none m = (m, some false)
connect_found W (some c) m = let r = connect_server W c m in (r.0, if r.1 then some true else none)

-- `trust_server`: its result, or none where an exception is raised.
unfoldable pub trust_server : McpWorld → String → Manager → Manager × Option Bool
unfolding connect_server Trust.trust_server get_server_config
trust_server W name m =
    if W.has_trust
    then (let r = Trust.trust_server W.now name m.trust in
        let m' = record m { trust = r.0 } in
        if r.1 then connect_found W (config_for name m') m' else (m', some false))
    else (m, some false)

-- `next(item for item in client.tools if …)`
unfoldable pub find_tool : String → List Tool → Option Tool
find_tool name [] = none
find_tool name (t ∷ ts) = if t.name =s name then some t else find_tool name ts

abbrev register_found : McpWorld → Option ServerConfig → String → Option Client → Manager → Manager
register_found W none tool client m = m
register_found W (some c) tool none m = m
register_found W (some c) tool (some client) m = elim (find_tool tool client.tools) [
  | none ↦ m
  | some t ↦ register_tool W c t m
]

-- `grant_tool`
unfoldable pub grant_tool :
    McpWorld → String → String → String → List String → Bool → Manager → Manager × Bool
unfolding register_tool find_tool Trust.grant_tool get_server_config
grant_tool W server tool hash sources approval m =
    if W.has_trust
    then (let r = Trust.grant_tool W.now server tool hash sources approval m.trust in
        let m' = record m { trust = r.0 } in
        if r.1
        then (register_found W (config_for server m') tool (dict_get server m'.clients) m', true)
        else (m', false))
    else (m, false)

abbrev forget : String → String → Manager → Dict (List String)
forget server k m =
    dict_set server (keep (λ j. not (j =s k)) (or_none (dict_get server m.registered_tools)))
      m.registered_tools

-- `revoke_tool`
unfoldable pub revoke_tool : McpWorld → String → String → Manager → Manager × Bool
unfolding Trust.revoke_tool
revoke_tool W server tool m =
    if W.has_trust
    then (let r = Trust.revoke_tool W.now server tool m.trust in
        let k = mcp_tool_name server tool in
        if r.1
        then (
          record m {
            trust = r.0;
            registry = dict_pop k m.registry;
            registered_tools = forget server k m;
          },
          true,
        )
        else (record m { trust = r.0 }, false))
    else (m, false)

-- `block_server`
unfoldable pub block_server : McpWorld → String → Manager → Manager × Bool
unfolding remove_server Trust.block_server
block_server W name m =
    if W.has_trust
    then (let r = Trust.block_server W.now name m.trust in
        let m' = record m { trust = r.0 } in
        if r.1 then (remove_server name m', true) else (m', false))
    else (m, false)

-- What `sync` reports: the servers discovered, and those reconnected.
abbrev Report : Type 0
Report = List String × List String

abbrev discovered : String → Manager × Bool → Report → Manager × Report
discovered name (m, true) (d, r) = (m, (d ++ name ∷ [], r))
discovered name (m, false) (d, r) = (m, (d, r))

abbrev reconnected : String → Manager × Bool → Report → Manager × Report
reconnected name (m, true) (d, r) = (m, (d, r ++ name ∷ []))
reconnected name (m, false) (d, r) = (m, (d, r))

-- A client that is no longer connected.
abbrev reconnect : McpWorld → ServerConfig → Manager → Report → Manager × Report
reconnect W c m out =
    if W.has_trust
    then (if is_trusted (stage_server W.hashes W.now c m.trust).1
        then reconnected c.name (connect_server W c (staged W c m)) out
        else (remove_server c.name (staged W c m), out))
    else reconnected c.name (connect_server W c m) out

abbrev sync_client : McpWorld → ServerConfig → Option Client → Manager → Report → Manager × Report
sync_client W c none m out = discovered c.name (add_server W c m) out
sync_client W c (some client) m out =
    if W.is_connected client then (m, out) else reconnect W c m out

-- The body of the loop of `sync`; what raises is passed over.
unfoldable pub sync_server : McpWorld → ServerConfig → Manager → Report → Manager × Report
unfolding add_server connect_server stage_server remove_server
sync_server W c m out =
    if c.enabled
    then sync_client W c (dict_get c.name m.clients) m out
    else (if is_some (dict_get c.name m.clients) then (remove_server c.name m, out) else (m, out))

-- The loop of `sync`, over the configurations of the directory.
unfoldable pub sync : McpWorld → List ServerConfig → Manager → Report → Manager × Report
unfolding sync_server
sync W [] m out = (m, out)
sync W (c ∷ cs) m out = let r = sync_server W c m out in sync W cs r.0 r.1
