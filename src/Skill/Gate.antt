-- ===== src/Skill/Gate.antt =====
-- skill/runner.py: approval steps, in `run` and in `resume`.
use mathlib.Core.Path.{subst}
use mathlib.Core.Option as Opt
use cogito_agent.Prelude.{
  ap, Bool, false, Option, none, if◌then◌else◌, ◌≡◌, ◌∙◌, refl, sym, String, true, some, List, ◌∷◌,
  ◌++◌,
}
use cogito_agent.Sql.{find}
use cogito_agent.Runs.Lifecycle.{claim, set_trace_id}
use cogito_agent.Runs.Create.{create}
use cogito_agent.Skill.Preflight.{preflight_error}
use cogito_agent.Skill.Run.{
  SkillCall, place_of, new_log, first_progress, after_loop, persist_run_log, finish_durable_run,
  claimed_stage, claim_stage, skill_run, rebound, run,
}
use cogito_agent.Skill.{
  trace, trace_created, Attempted, SkillRunLog, SkillStep, SkillManifest, LogStatus, ResumeData,
  RunLogRow, ApprovalRow, SkillState, SkillRunner, SkillWorld,
}
use cogito_agent.Skill.Loop.{Progress, LoopEnd, over, paused, step_loop}
use cogito_agent.Skill.Resume.{has_log_id, has_approval_id, resume}
use cogito_agent.Skill.Resumed.{resume_decided}
use cogito_agent.Skill.Stops.{IsPlainApproval, SameEnd, pause_of, loop_stops, loop_alone}

-- The manifest with other steps.
abbrev pub with_steps : {F : Type 0} → List (SkillStep F) → SkillManifest F → SkillManifest F
with_steps steps M = record M { steps = steps }

-- What holds where an option is not there.
none_rule :
    {A B : Type 0} (P : B → Type 0) (o : Option A) (n : B) (g : A → B)
    → o ≡ none
    → P n
    → P (elim o [ none ↦ n | some y ↦ g y ])
none_rule P o n g h p = subst (λ o. P (elim o [ none ↦ n | some y ↦ g y ])) (sym h) p

if_both :
    {A : Type 0} (P : A → A → Type 0) (b : Bool) (x x' y y' : A)
    → P x x'
    → P y y'
    → P (if b then x else y) (if b then x' else y')
if_both P true x x' y y' h k = h
if_both P false x x' y y' h k = k

option_both :
    {A B : Type 0} (P : B → B → Type 0) (o : Option A) (n n' : B) (g g' : A → B)
    → P n n'
    → ((a : A) → P (g a) (g' a))
    → P (elim o [ none ↦ n | some a ↦ g a ]) (elim o [ none ↦ n' | some a ↦ g' a ])
option_both P none n n' g g' h k = h
option_both P (some a) n n' g g' h k = k a

module _ {F : Type 0} (R : SkillRunner F) (w : SkillWorld) where
  -- Two calls of `run` return or raise the same and leave the same behind, but for the data of a
  -- resumption, which hold the steps that remain.
  abbrev pub SameRun :
      SkillState F × Attempted SkillRunLog → SkillState F × Attempted SkillRunLog → Type 0
  SameRun x y =
      (x.1 ≡ y.1)
      × (x.0.executor ≡ y.0.executor)
      × (x.0.runs ≡ y.0.runs)
      × (x.0.approvals ≡ y.0.approvals)
      × (x.0.traced ≡ y.0.traced)
      × (x.0.audited ≡ y.0.audited)
      × (x.0.executions ≡ y.0.executions)
      × (x.0.pauses ≡ y.0.pauses)

  SameRun-refl : (x : SkillState F × Attempted SkillRunLog) → SameRun x x
  SameRun-refl x = (refl, refl, refl, refl, refl, refl, refl, refl)

  after_loop-SameRun :
      (M : SkillManifest F) (c : SkillCall) (p : Progress F) (s : SkillState F)
      (steps : List (SkillStep F)) (e e' : LoopEnd F)
      → pause_of R w e ≡ pause_of R w e'
      → SameRun (after_loop R w M c p s e) (after_loop R w (with_steps steps M) c p s e')
  unfolding after_loop persist_run_log finish_durable_run
  after_loop-SameRun M c p s steps over over h = SameRun-refl (after_loop R w M c p s over)
  after_loop-SameRun M c p s steps over (paused id step left) h = absurd (cc)
  after_loop-SameRun M c p s steps (paused id step left) over h = absurd (cc)
  after_loop-SameRun M c p s steps (paused id step left) (paused id' step' left') h =
      let same : id ≡ id' = ap (λ (x : String × SkillStep F). x.0) (Opt.some-injective _ _ h) in
      subst
        (λ i.
          SameRun (after_loop R w M c p s (paused id step left))
            (after_loop R w (with_steps steps M) c p s (paused i step' left')))
        same (refl, refl, refl, refl, refl, refl, refl, refl)

  claimed_stage-SameRun :
      (M : SkillManifest F) (c : SkillCall) (k : String) (s : SkillState F)
      (before : List (SkillStep F)) (a : SkillStep F) (rest rest' : List (SkillStep F))
      → IsPlainApproval a
      → M.steps ≡ before ++ a ∷ rest
      → preflight_error R M ≡ none
      → preflight_error R (with_steps (before ++ a ∷ rest') M) ≡ none
      → SameRun
          (claimed_stage R w M c k s)
          (claimed_stage R w (with_steps (before ++ a ∷ rest') M) c k s)
  unfolding claimed_stage
  claimed_stage-SameRun M c k s before a rest rest' plain at fine fine' =
      let s1 = trace (trace_created w.trace_id) s in
      let s2 = record s1 { runs = set_trace_id k w.trace_id s1.runs } in
      let p = first_progress R (new_log R w M k) in
      let N = with_steps (before ++ a ∷ rest') M in
      let x = step_loop R true w M (place_of c) M.steps p s2 in
      let y = step_loop R true w N (place_of c) N.steps p s2 in
      let (state, progress, pause) : SameEnd R w x y =
        subst (λ u. SameEnd R w u y)
          (sym (
            ap (λ l. step_loop R true w M (place_of c) l p s2) at
            ∙ loop_alone R w M (before ++ a ∷ rest') (place_of c) (before ++ a ∷ rest) p s2))
          (loop_stops R w N (place_of c) before a rest rest' p s2 plain) in
      none_rule (λ u. SameRun u (claimed_stage R w N c k s)) (preflight_error R M) _ _ fine
        (none_rule (λ u. SameRun (after_loop R w M c x.1 x.0 x.2) u) (preflight_error R N) _ _ fine'
          (subst (λ q. SameRun (after_loop R w M c x.1 x.0 x.2) (after_loop R w N c q y.0 y.2))
            progress
            (subst (λ q. SameRun (after_loop R w M c x.1 x.0 x.2) (after_loop R w N c x.1 q y.2))
              state (after_loop-SameRun M c x.1 x.0 (before ++ a ∷ rest') x.2 y.2 pause))))

  claim_stage-SameRun :
      (M : SkillManifest F) (c : SkillCall) (k : String) (s : SkillState F)
      (before : List (SkillStep F)) (a : SkillStep F) (rest rest' : List (SkillStep F))
      → IsPlainApproval a
      → M.steps ≡ before ++ a ∷ rest
      → preflight_error R M ≡ none
      → preflight_error R (with_steps (before ++ a ∷ rest') M) ≡ none
      → SameRun
          (claim_stage R w M c k s)
          (claim_stage R w (with_steps (before ++ a ∷ rest') M) c k s)
  unfolding claim_stage
  claim_stage-SameRun M c k s before a rest rest' plain at fine fine' =
      let x = claim w.claim_env k R.worker_id 300 s.runs in
      if_both SameRun x.1 _ _ _ _
        (claimed_stage-SameRun M c k (record s { runs = x.0 }) before a rest rest' plain at fine
          fine')
        (refl, refl, refl, refl, refl, refl, refl, refl)

-- Where two manifests differ only in the steps behind an approval step without a timeout and without
-- an output schema, and the preflight refuses neither of them, `run` returns or raises the same with
-- both and leaves the same calls, runs, approvals, traces, audits and executions behind; what differs
-- is the data of a resumption, which hold the steps.
pub gate_holds :
    {F : Type 0} (R : SkillRunner F) (w : SkillWorld) (M : SkillManifest F) (c : SkillCall)
    (k : Option String) (s : SkillState F) (before : List (SkillStep F)) (a : SkillStep F)
    (rest rest' : List (SkillStep F))
    → IsPlainApproval a
    → M.steps ≡ before ++ a ∷ rest
    → preflight_error R M ≡ none
    → preflight_error R (with_steps (before ++ a ∷ rest') M) ≡ none
    → SameRun R w (run R w M c k s) (run R w (with_steps (before ++ a ∷ rest') M) c k s)
unfolding run
gate_holds R w M c (some k) s before a rest rest' plain at fine fine' =
    claim_stage-SameRun R w M c k (rebound R s) before a rest rest' plain at fine fine'
gate_holds R w M c none s before a rest rest' plain at fine fine' =
    let x = create w.create_env (skill_run M c) s.runs in
    option_both (SameRun R w) x.1 _ _ _ _ (refl, refl, refl, refl, refl, refl, refl, refl)
      (λ r.
        claim_stage-SameRun R w M c r.id (record (rebound R s) { runs = x.0 }) before a rest rest'
          plain at fine fine')

-- A log that waits is resumed alike with any two approvals that have the same decision, whatever they
-- were asked for.
pub any_approval_resumes :
    {F : Type 0} (R : SkillRunner F) (w : SkillWorld) (run_log_id id id' : String)
    (s : SkillState F) (row : RunLogRow F) (d : ResumeData F) (a a' : ApprovalRow)
    → find (has_log_id run_log_id) s.run_logs ≡ some row
    → row.status ≡ LogStatus.pending_approval
    → row.resume_data ≡ some d
    → find (has_approval_id id) s.approvals ≡ some a
    → find (has_approval_id id') s.approvals ≡ some a'
    → a.decision ≡ a'.decision
    → resume R w run_log_id id s ≡ resume R w run_log_id id' s
any_approval_resumes R w run_log_id id id' s row d a a' found pending saved first second same =
    resume_decided R w run_log_id id s row d a found pending saved first
    ∙ rw same (sym (resume_decided R w run_log_id id' s row d a' found pending saved second))
