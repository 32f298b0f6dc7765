-- ===== src/Skill/Preflight.antt =====
-- skill/runner.py: the checks before the first step of a run.
use Prim.Native.String.{◌++◌ as append}
use cogito_agent.Prelude.{
  ℕ, String, Bool, false, not, ◌&&◌, Option, none, some, List, [], ◌∷◌, ◌=s◌, ltb, is_some,
  if◌then◌else◌,
}
use cogito_agent.Policy.{PolicyRequest}
use cogito_agent.Executor.Steps.{is_deny}
use cogito_agent.Skill.{StepKind, SkillStep, SkillManifest, SkillRunner}

abbrev pub preflight_request : String → PolicyRequest
preflight_request capability = record {
  actor_id = "skill";
  capability_name = capability;
  resource = "workspace_file";
  operation = "read";
  context = "interactive";
}

module _ {F : Type 0} (R : SkillRunner F) where
  abbrev pub is_refused : SkillStep F → Bool
  is_refused step = elim step.kind [
    | StepKind.capability ↦
        (not (step.uses_capability =s "") && is_some (R.executor.get_manifest step.uses_capability))
        && is_deny (R.policy (preflight_request step.uses_capability)).decision
    | _ ↦ false
  ]

  -- `_preflight_all`: the error, if there is one.
  unfoldable pub preflight_all : List (SkillStep F) → Option String
  preflight_all [] = none
  preflight_all (step ∷ steps) =
      let later = preflight_all steps in
      if is_refused step
      then some (append "Policy denied step '" (append step.id (append "': " step.uses_capability)))
      else later

  abbrev major_of : Option String → Option ℕ
  major_of none = none
  major_of (some v) = elim (R.parse_semver v) [ none ↦ none | some t ↦ some t.0 ]

  abbrev is_above : Option ℕ → Option ℕ → Bool
  is_above (some old) (some new) = ltb old new
  is_above _ _ = false

  -- `_check_semver`; the versions in its text are left out.
  unfoldable pub check_semver : SkillManifest F → Option String
  check_semver M =
      if is_above (major_of (R.previous_version M.name)) (major_of (some M.version))
      then some
          (append "Major version upgrade for skill '" (append M.name "' requires re-approval"))
      else none

  abbrev pub preflight_error : SkillManifest F → Option String
  preflight_error M = elim (preflight_all M.steps) [ some x ↦ some x | none ↦ check_semver M ]
