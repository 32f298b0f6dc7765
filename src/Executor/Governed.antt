-- ===== src/Executor/Governed.antt =====
-- execution/executor.py: the guards before an invocation.
use cogito_agent.Prelude.{
  ◌∷◌, List, Option, none, some, refl, inl, inr, String, ◌<◌, ◌≡◌, ◌⊎◌, false, some, [], arith,
}
use cogito_agent.Policy.{PolicyDecision}
use cogito_agent.Executor.{
  Manifest, ExecutionRequest, ExecutionResult, Executor, ExecutorState, repeats_of, count_call,
  write_record, findings_of, policy_request, create_approval,
}
use cogito_agent.Executor.Steps.{
  guardian_stage, manifest_stage, execute, is_deny, is_approval, approval_stage, policy_stage,
  guard_stage,
}

-- The request is of a registered capability, no guardian objects, it is not the fourth of its kind
-- in a row, the policy neither denies it nor asks for an approval, and nor does the manifest.
abbrev pub IsPermitted : Executor → ExecutionRequest → ExecutorState → Type 0
IsPermitted e r s =
    (m : Manifest) × (e.get_manifest r.capability_name ≡ some m)
    × (findings_of r m e.guardians ≡ [])
    × (repeats_of e r s < 3)
    × (is_deny (e.policy (policy_request r m)).decision ≡ false)
    × (is_approval (e.policy (policy_request r m)).decision ≡ false)
    × (m.approval_required ≡ false)

abbrev Unchanged : ExecutorState × ExecutionResult → ExecutorState → Type 0
Unchanged x s = x.0.invocations ≡ s.invocations

approval_stage-Unchanged :
    (e : Executor) (r : ExecutionRequest) (m : Manifest) (d : PolicyDecision) (s : ExecutorState)
    → Unchanged (approval_stage e r m d s) s
unfolding approval_stage create_approval write_record
approval_stage-Unchanged e r m d s = ground arith

policy_stage-Unchanged :
    (e : Executor) (r : ExecutionRequest) (m : Manifest) (s : ExecutorState)
    → Unchanged (policy_stage e r m s) s
      ⊎ ((is_deny (e.policy (policy_request r m)).decision ≡ false)
          × (is_approval (e.policy (policy_request r m)).decision ≡ false)
          × (m.approval_required ≡ false))
unfolding policy_stage write_record
policy_stage-Unchanged e r m s =
    let d = e.policy (policy_request r m) in ground (arith, approval_stage-Unchanged e r m d s)

guard_stage-Unchanged :
    (e : Executor) (r : ExecutionRequest) (m : Manifest) (s : ExecutorState)
    → Unchanged (guard_stage e r m s) s
      ⊎ ((repeats_of e r s < 3)
          × (is_deny (e.policy (policy_request r m)).decision ≡ false)
          × (is_approval (e.policy (policy_request r m)).decision ≡ false)
          × (m.approval_required ≡ false))
unfolding guard_stage write_record count_call
guard_stage-Unchanged e r m s = ground (arith, policy_stage-Unchanged e r m (count_call e r s))

manifest_stage-Unchanged :
    (e : Executor) (r : ExecutionRequest) (s : ExecutorState) (o : Option Manifest)
    → e.get_manifest r.capability_name ≡ o
    → Unchanged (manifest_stage e r s o) s ⊎ IsPermitted e r s
unfolding write_record
manifest_stage-Unchanged e r s none g = inl refl
manifest_stage-Unchanged e r s (some m) g =
    guardian_stage-Unchanged (findings_of r m e.guardians) refl
  where
    guardian_stage-Unchanged :
        (fs : List String)
        → findings_of r m e.guardians ≡ fs
        → Unchanged (guardian_stage e r m s fs) s ⊎ IsPermitted e r s
    guardian_stage-Unchanged (f ∷ fs) h = inl refl
    guardian_stage-Unchanged [] h = elim (guard_stage-Unchanged e r m s) [
      | inl u ↦ inl u
      | inr p ↦ inr (m, g, h, p.0, p.1, p.2, p.3)
    ]

-- A call of `execute` invokes a capability only where the capability is registered, no guardian
-- objects, the call is not the fourth of its kind in a row, the policy allows it and neither the
-- policy nor the manifest asks for an approval.
pub execute-IsPermitted :
    (e : Executor) (r : ExecutionRequest) (s : ExecutorState)
    → ((execute e r s).0.invocations ≡ s.invocations) ⊎ IsPermitted e r s
unfolding execute
execute-IsPermitted e r s = manifest_stage-Unchanged e r s (e.get_manifest r.capability_name) refl
