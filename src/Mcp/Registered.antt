-- ===== src/Mcp/Registered.antt =====
-- mcp/manager.py: what stands behind the capabilities that are registered for a server.
use mathlib.Core.Path.{subst}
use mathlib.Core.Option as Opt
use cogito_agent.Prelude.{
  ◌≡◌, ◌∙◌, sym, refl, ap, String, Bool, true, false, ◌⊎◌, inl, inr, Option, none, some, List, [],
  ◌∷◌, arith, if◌then◌else◌, ◌=s◌, eq_iff, Option-cases, Bool-cases, if-cases, dict_get, dict_set,
  dict_get-dict_set, dict_get-dict_set_other,
}
use cogito_agent.Mcp.{
  ServerConfig, TrustStatus, is_trusted, is_pending, fingerprint, get_server, Tool, ToolGrant,
  tool_schema_hash, get_tool_grant,
}
use cogito_agent.Mcp.Trust.{stage_tool, stage_server, status_of}
use cogito_agent.Mcp.Grants.{stage_server-get_tool_grant}
use cogito_agent.Mcp.Staged.{live_before}
use cogito_agent.Mcp.Manager.{
  Manager, McpWorld, McpCapability, capability_of, mcp_tool_name, register_tool, admit_tool,
  admit_tools, admits, grant_of, connected_with, connect_server, staged, add_server,
}

-- The capability is of a tool of the server with a live grant, for the very schema, the sources and
-- the approval of the capability.
abbrev pub IsGranted : McpWorld → String → Manager → McpCapability → Type 0
IsGranted W name m e =
    (g : ToolGrant) × (get_tool_grant name e.tool m.trust ≡ some g)
    × (g.schema_hash ≡ W.hashes.sha256 e.input_schema)
    × (e.allowed_contexts ≡ g.allowed_sources)
    × (e.approval_required ≡ g.requires_approval)

registered :
    (W : McpWorld) (c : ServerConfig) (t : Tool) (m : Manager) (k : String) (e : McpCapability)
    → W.has_trust ≡ true
    → admits W.hashes t (get_tool_grant c.name t.name m.trust) ≡ true
    → dict_get k (register_tool W c t m).registry ≡ some e
    → (dict_get k m.registry ≡ some e) ⊎ IsGranted W c.name m e
unfolding register_tool
registered W c t m k e on ok found =
    let name = mcp_tool_name c.name t.name in
    let cap = capability_of c t (grant_of W c t m) in
    elim (Option-cases (get_tool_grant c.name t.name m.trust)) [
      | inl missing ↦ absurd (ap (admits W.hashes t) missing) ok
      | inr (g, live) ↦ elim (Bool-cases (name =s k)) [
        | inr other ↦ inl (sym (dict_get-dict_set_other name k cap m.registry other) ∙ found)
        | inl here ↦
            let given : grant_of W c t m ≡ some g = rw on live in
            let at : dict_get k (dict_set name cap m.registry) ≡ some cap =
              subst (λ j. dict_get j (dict_set name cap m.registry) ≡ some cap)
                ((eq_iff name k).0 here) (dict_get-dict_set name cap m.registry) in
            let same : cap ≡ e = Opt.some-injective cap e (sym at ∙ found) in
            inr (
              subst (IsGranted W c.name m) (ap (capability_of c t) (sym given) ∙ same) (
                g,
                live,
                (eq_iff g.schema_hash (tool_schema_hash W.hashes t)).0
                    (sym (ap (admits W.hashes t) live) ∙ ok),
                refl,
                refl,
              ))
      ]
    ]
  where
    absurd : {A : Type 0} {b : Bool} → b ≡ false → b ≡ true → A
    absurd a b = cc

-- The registry of a call against the one before it: what is registered was, or is granted.
abbrev pub OnlyGranted : McpWorld → String → Manager → Manager → Type 0
OnlyGranted W name m m' =
    (k : String) (e : McpCapability)
    → dict_get k m'.registry ≡ some e
    → (dict_get k m.registry ≡ some e) ⊎ IsGranted W name m e

-- Live grants of the second are live in the first.
abbrev NoNewGrant : String → Manager → Manager → Type 0
NoNewGrant name m m' =
    (tool : String) (g : ToolGrant)
    → get_tool_grant name tool m'.trust ≡ some g
    → get_tool_grant name tool m.trust ≡ some g

OnlyGranted-then :
    (W : McpWorld) (name : String) (m m1 m2 : Manager)
    → NoNewGrant name m m1
    → OnlyGranted W name m m1
    → OnlyGranted W name m1 m2
    → OnlyGranted W name m m2
OnlyGranted-then W name m m1 m2 older a b k e found = elim (b k e found) [
  | inl before ↦ a k e before
  | inr (g, live, schema, sources, approval) ↦
      inr (g, older e.tool g live, schema, sources, approval)
]

abbrev IsKept : McpWorld → String → Manager → Manager → Type 0
IsKept W name m x = OnlyGranted W name m x × NoNewGrant name m x

admit_tool-OnlyGranted :
    (W : McpWorld) (c : ServerConfig) (t : Tool) (m : Manager)
    → W.has_trust ≡ true
    → OnlyGranted W c.name m (admit_tool W c t m) × NoNewGrant c.name m (admit_tool W c t m)
unfolding admit_tool register_tool
admit_tool-OnlyGranted W c t m on =
    let m' = record m { trust = (stage_tool W.hashes c.name t m.trust).0 } in
    let older =
      λ (tool : String) (g : ToolGrant) (live : get_tool_grant c.name tool m'.trust ≡ some g).
        live_before W.hashes c.name tool c.name t m.trust g live in
    if-cases (IsKept W c.name m) W.has_trust
      (if admits W.hashes t (get_tool_grant c.name t.name m'.trust)
        then register_tool W c t m'
        else m')
      (register_tool W c t m)
      (λ h.
        if-cases (IsKept W c.name m) (admits W.hashes t (get_tool_grant c.name t.name m'.trust))
          (register_tool W c t m') m'
          (λ ok. (
            OnlyGranted-then W c.name m m' (register_tool W c t m') older (λ k e found. inl found)
                (λ k e found. registered W c t m' k e on ok found),
            older,
          ))
          (λ no_grant. ((λ k e found. inl found), older)))
      (λ off. absurd on off)
  where
    absurd : {A : Type 0} → W.has_trust ≡ true → W.has_trust ≡ false → A
    absurd a b = cc

admit_tools-OnlyGranted :
    (W : McpWorld) (c : ServerConfig) (ts : List Tool) (m : Manager)
    → W.has_trust ≡ true
    → OnlyGranted W c.name m (admit_tools W c ts m)
unfolding admit_tools
admit_tools-OnlyGranted W c [] m on = λ k e found. inl found
admit_tools-OnlyGranted W c (t ∷ ts) m on =
    let (first, older) = admit_tool-OnlyGranted W c t m on in
    OnlyGranted-then W c.name m (admit_tool W c t m) (admit_tools W c ts (admit_tool W c t m)) older
      first (admit_tools-OnlyGranted W c ts (admit_tool W c t m) on)

connected-OnlyGranted :
    (W : McpWorld) (c : ServerConfig) (m : Manager) (o : Option (List Tool))
    → W.has_trust ≡ true
    → OnlyGranted W c.name m (connected_with W c m o).0
connected-OnlyGranted W c m none on = λ k e found. inl found
connected-OnlyGranted W c m (some tools) on =
    admit_tools-OnlyGranted W c tools
      (record m { clients = dict_set c.name (record { config = c; tools = tools }) m.clients }) on

not_pending : (st : TrustStatus) → is_trusted st ≡ true → is_pending st ≡ false
not_pending st h = ground arith

-- Staging a server that is trusted leaves its grants alone.
staged_grants :
    (W : McpWorld) (c : ServerConfig) (m : Manager)
    → is_trusted (stage_server W.hashes W.now c m.trust).1 ≡ true
    → (is_trusted (status_of (fingerprint W.hashes c) (get_server c.name m.trust)) ≡ true)
      × NoNewGrant c.name m (staged W c m)
staged_grants W c m ok =
    let st = status_of (fingerprint W.hashes c) (get_server c.name m.trust) in
    let now_trusted : is_trusted st ≡ true =
      sym (ap is_trusted (stage_server-get_tool_grant W.hashes W.now c m.trust "").0) ∙ ok in
    (
      now_trusted,
      λ tool g live.
          sym (
            (stage_server-get_tool_grant W.hashes W.now c m.trust tool).1
            ∙ rw (not_pending st now_trusted) refl)
          ∙ live,
    )

-- With a trust store, whatever `add_server` adds to the registry is of a server that was trusted under
-- this very configuration, and of a tool that had a live grant for this very schema before.
pub add_server_governed :
    (W : McpWorld) (c : ServerConfig) (m : Manager) (k : String) (e : McpCapability)
    → W.has_trust ≡ true
    → dict_get k (add_server W c m).0.registry ≡ some e
    → (dict_get k m.registry ≡ some e)
      ⊎ ((is_trusted (status_of (fingerprint W.hashes c) (get_server c.name m.trust)) ≡ true)
          × IsGranted W c.name m e)
unfolding add_server connect_server
add_server_governed W c m k e on found =
    if-cases Goal W.has_trust _ (connect_server W c m)
      (λ h.
        if-cases Goal (is_trusted (stage_server W.hashes W.now c m.trust).1)
          (connect_server W c (staged W c m)) (staged W c m, true)
          (λ ok after.
            let (now_trusted, older) = staged_grants W c m ok in
            elim (connected-OnlyGranted W c (staged W c m) (W.connect c) on k e after) [
              | inl before ↦ inl before
              | inr (g, live, schema, sources, approval) ↦
                  inr (now_trusted, (g, older e.tool g live, schema, sources, approval))
            ])
          (λ waits after. inl after))
      (λ off. absurd on off) found
  where
    Goal : Manager × Bool → Type 0
    Goal x =
        dict_get k x.0.registry ≡ some e
        → (dict_get k m.registry ≡ some e)
          ⊎ ((is_trusted (status_of (fingerprint W.hashes c) (get_server c.name m.trust)) ≡ true)
              × IsGranted W c.name m e)

    absurd : {A : Type 0} → W.has_trust ≡ true → W.has_trust ≡ false → A
    absurd a b = cc
