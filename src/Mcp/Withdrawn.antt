-- ===== src/Mcp/Withdrawn.antt =====
-- mcp/manager.py: the capabilities of a server that is blocked, or that has changed.
use cogito_agent.Prelude.{
  dict_set, ◌≡◌, ◌∙◌, refl, ap, String, Bool, true, false, inl, inr, none, some, List, [], ◌∷◌,
  arith, if◌then◌else◌, ◌=s◌, eq_iff, Bool-cases, if-cases, any, dict_get, dict_pop,
  dict_get-dict_pop, dict_get-dict_pop_other, Dict,
}
use mathlib.Core.Path.{subst}
use cogito_agent.Mcp.{
  ServerConfig, pending, is_trusted, fingerprint, get_server, Tool, ToolGrant, tool_schema_hash,
  get_tool_grant, get_any_grant,
}
use cogito_agent.Mcp.Trust as Trust
use cogito_agent.Mcp.Trust.{stage_tool, stage_server, status_of}
use cogito_agent.Mcp.Grants.{revoked_server, stage_server-get_tool_grant}
use cogito_agent.Mcp.Bound.{stage_other}
use cogito_agent.Mcp.Manager.{
  Client, Manager, McpWorld, McpCapability, or_none, admit_tool, admit_tools, connect_server,
  staged, add_server, unregister_all, remove_server,
}
use cogito_agent.Mcp.Calls.{block_server}

pop_none :
    {A : Type 0} (j k : String) (d : Dict A)
    → dict_get k d ≡ none
    → dict_get k (dict_pop j d) ≡ none
pop_none j k d gone = elim (Bool-cases (j =s k)) [
  | inl same ↦
      subst (λ i. dict_get i (dict_pop j d) ≡ none) ((eq_iff j k).0 same) (dict_get-dict_pop j d)
  | inr other ↦ dict_get-dict_pop_other j k d other ∙ gone
]

stays_gone :
    (k : String) (ks : List String) (d : Dict McpCapability)
    → dict_get k d ≡ none
    → dict_get k (unregister_all ks d) ≡ none
unfolding unregister_all
stays_gone k [] d gone = gone
stays_gone k (j ∷ ks) d gone = stays_gone k ks (dict_pop j d) (pop_none j k d gone)

unregistered :
    (k : String) (ks : List String) (d : Dict McpCapability)
    → any (λ j. j =s k) ks ≡ true
    → dict_get k (unregister_all ks d) ≡ none
unfolding unregister_all
unregistered k [] d h = cc
unregistered k (j ∷ ks) d h = elim (Bool-cases (j =s k)) [
  | inl same ↦
      stays_gone k ks (dict_pop j d) (
        subst (λ i. dict_get i (dict_pop j d) ≡ none) ((eq_iff j k).0 same) (dict_get-dict_pop j d))
  | inr other ↦ unregistered k ks (dict_pop j d) (ground arith)
]

-- No client, none of the capabilities that were registered, and no live grant.
abbrev pub IsWithdrawn : String → Manager → Manager → Type 0
IsWithdrawn name m m' =
    (dict_get name m'.clients ≡ none)
    × ((k : String)
        → any (λ j. j =s k) (or_none (dict_get name m.registered_tools)) ≡ true
        → dict_get k m'.registry ≡ none)
    × ((tool : String) → get_tool_grant name tool m'.trust ≡ none)

-- A server that was blocked has no client, none of the capabilities that were registered for it, and
-- no live grant.
pub block_server-IsWithdrawn :
    (W : McpWorld) (name : String) (m : Manager)
    → (block_server W name m).1 ≡ true
    → IsWithdrawn name m (block_server W name m).0
unfolding block_server remove_server Trust.block_server get_tool_grant
block_server-IsWithdrawn W name m done =
    let r = Trust.block_server W.now name m.trust in
    let m' = record m { trust = r.0 } in
    if-cases (λ (x : Manager × Bool). x.1 ≡ true → IsWithdrawn name m x.0) W.has_trust
      (if r.1 then (remove_server name m', true) else (m', false)) (m, false)
      (λ on.
        if-cases (λ (x : Manager × Bool). x.1 ≡ true → IsWithdrawn name m x.0) r.1
          (remove_server name m', true) (m', false)
          (λ ok h. (
            dict_get-dict_pop name m.clients,
            (λ k here. unregistered k (or_none (dict_get name m.registered_tools)) m.registry here),
            (λ tool. revoked_server W.now name tool m.trust.grants),
          ))
          (λ missing h. absurd h))
      (λ off h. absurd h) done
  where
    absurd : {A : Type 0} → false ≡ true → A
    absurd h = cc

add_server_waits :
    (W : McpWorld) (c : ServerConfig) (m : Manager)
    → W.has_trust ≡ true
    → is_trusted (stage_server W.hashes W.now c m.trust).1 ≡ false
    → add_server W c m ≡ (staged W c m, true)
unfolding add_server
add_server_waits W c m on waits = rw (on, waits) refl

-- Where a server is added again under another configuration, its grants are revoked, and yet all its
-- capabilities stay registered and its client stays.
pub changed_server_stays :
    (W : McpWorld) (c : ServerConfig) (m : Manager)
    → W.has_trust ≡ true
    → status_of (fingerprint W.hashes c) (get_server c.name m.trust) ≡ pending
    → let after = (add_server W c m).0 in
      ((tool : String) → get_tool_grant c.name tool after.trust ≡ none)
      × (after.registry ≡ m.registry)
      × (after.clients ≡ m.clients)
unfolding add_server
changed_server_stays W c m on changed =
    let waits : is_trusted (stage_server W.hashes W.now c m.trust).1 ≡ false =
      ap is_trusted ((stage_server-get_tool_grant W.hashes W.now c m.trust "").0 ∙ changed) in
    rw (add_server_waits W c m on waits) (
      (λ tool. (stage_server-get_tool_grant W.hashes W.now c m.trust tool).1 ∙ rw changed refl),
      refl,
      refl,
    )

admit_tool_dead :
    (W : McpWorld) (c : ServerConfig) (t : Tool) (m : Manager)
    → W.has_trust ≡ true
    → get_tool_grant c.name t.name (stage_tool W.hashes c.name t m.trust).0 ≡ none
    → admit_tool W c t m ≡ record m { trust = (stage_tool W.hashes c.name t m.trust).0 }
unfolding admit_tool
admit_tool_dead W c t m on dead = rw (on, dead) refl

-- Where a server lists a tool with another schema than the one on record, connecting it leaves no live
-- grant for the tool, and yet the capability that was registered before stays as it was.
pub changed_tool_stays :
    (W : McpWorld) (c : ServerConfig) (t : Tool) (m : Manager) (g : ToolGrant)
    → W.has_trust ≡ true
    → W.connect c ≡ some (t ∷ [])
    → get_any_grant c.name t.name m.trust ≡ some g
    → (g.schema_hash =s tool_schema_hash W.hashes t) ≡ false
    → let after = (connect_server W c m).0 in
      (get_tool_grant c.name t.name after.trust ≡ none) × (after.registry ≡ m.registry)
unfolding connect_server admit_tools
changed_tool_stays W c t m g on listed known other =
    let dead = stage_other W.hashes c.name t m.trust g known other in
    let client : Client = record { config = c; tools = t ∷ [] } in
    let met = record m { clients = dict_set c.name client m.clients } in
    rw listed (rw (admit_tool_dead W c t met on dead) (dead, refl))
