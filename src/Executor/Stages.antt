-- ===== src/Executor/Stages.antt =====
-- execution/executor.py: the stages past the tool-loop guard.
use cogito_agent.Policy.{PolicyDecision}
use cogito_agent.Executor.Steps.{
  is_deny, is_approval, finish, invoke_stage, approval_stage, policy_stage,
}
use cogito_agent.Prelude.{
  ◌++◌, or_else, ap, if-cases, if◌then◌else◌, none, Option-cases, ◌||◌, ℕ, zero, suc, ◌+◌, ◌≤◌, ◌≡◌,
  refl, ◌∙◌, ◌⊎◌, inl, inr, String, Option, some, [], ◌∷◌, arith, length, length-append,
}
use cogito_agent.Executor.{
  Manifest, ExecutionResult, write_record, attempts_of, create_approval, policy_request,
  ExecutionRequest, ToolResult, Invocation, returned, raised, Executor, ExecutorState, attempt_loop,
  invoked, pause,
}

-- From one state to another: the guard's memory and the audit are kept, and at most `n` invocations
-- are made.
abbrev pub IsWithin : ℕ → ExecutorState → ExecutorState → Type 0
IsWithin n s s' =
    (s'.last_call ≡ s.last_call)
    × (s'.repeat_count ≡ s.repeat_count)
    × (length s'.invocations ≤ length s.invocations + n)
    × (s'.audited ≡ s.audited)

pause-IsWithin : (attempt left : ℕ) (s : ExecutorState) → IsWithin 0 s (pause attempt left s)
pause-IsWithin attempt zero s = (refl, refl, omega arith, refl)
pause-IsWithin attempt (suc left) s = (refl, refl, omega arith, refl)

invoked-IsWithin : (r : ExecutionRequest) (s : ExecutorState) → IsWithin 1 s (invoked r s)
invoked-IsWithin r s = (refl, refl, omega (arith, length-append s.invocations (r ∷ [])), refl)

IsWithin-then :
    (n k : ℕ) (s t u : ExecutorState) → IsWithin n s t → IsWithin k t u → IsWithin (n + k) s u
IsWithin-then n k s t u a b = (b.0 ∙ a.0, b.1 ∙ a.1, omega (arith, a.2, b.2), b.3 ∙ a.3)

IsWithin-more : (n k : ℕ) (s t : ExecutorState) → n ≤ k → IsWithin n s t → IsWithin k s t
IsWithin-more n k s t h a = (a.0, a.1, omega (arith, h, a.2), a.3)

Invocation-cases :
    (i : Invocation) → ((t : ToolResult) × (i ≡ returned t)) ⊎ ((x : String) × (i ≡ raised x))
Invocation-cases (returned t) = inl (t, refl)
Invocation-cases (raised x) = inr (x, refl)

attempt_loop-IsWithin :
    (e : Executor) (r : ExecutionRequest) (attempt left : ℕ) (err : Option String)
    (s : ExecutorState)
    → IsWithin left s (attempt_loop e r attempt left err s).0
unfolding attempt_loop
attempt_loop-IsWithin e r attempt zero err s = (refl, refl, omega arith, refl)
attempt_loop-IsWithin e r attempt (suc left) err s =
    elim (Invocation-cases (e.invoke (length s.invocations) r)) [
      | inl (t, h) ↦
          rw (attempt_loop, h)
            (IsWithin-more 1 (suc left) s (invoked r s) (omega arith) (invoked-IsWithin r s))
      | inr (x, h) ↦
          let s1 = invoked r s in
          let s2 = pause attempt left s1 in
          rw (attempt_loop, h)
            (IsWithin-more (1 + (0 + left)) (suc left) s
              (attempt_loop e r (attempt + 1) left (some x) s2).0 (omega arith)
              (IsWithin-then 1 (0 + left) s s1 (attempt_loop e r (attempt + 1) left (some x) s2).0
                (invoked-IsWithin r s)
                (IsWithin-then 0 left s1 s2 (attempt_loop e r (attempt + 1) left (some x) s2).0
                  (pause-IsWithin attempt left s1)
                  (attempt_loop-IsWithin e r (attempt + 1) left (some x) s2))))
    ]

-- The same for a result that was recorded.
abbrev pub IsRecorded :
    Executor → ExecutionRequest → ExecutorState → ExecutorState × ExecutionResult → Type 0
IsRecorded e r s x =
    (x.0.last_call ≡ s.last_call)
    × (x.0.repeat_count ≡ s.repeat_count)
    × (length x.0.invocations ≤ length s.invocations + 3)
    × (x.0.audited ≡ (if e.has_audit then s.audited ++ (r, x.1) ∷ [] else s.audited))

pub finish-IsRecorded :
    (e : Executor) (r : ExecutionRequest) (y : ExecutionResult) (s t : ExecutorState)
    → IsWithin 3 s t
    → IsRecorded e r s (finish e r y t)
unfolding write_record
finish-IsRecorded e r y s t a =
    (a.0, a.1, a.2, ap (λ rows. if e.has_audit then rows ++ (r, y) ∷ [] else rows) a.3)

attempts_three : (m : Manifest) → attempts_of m ≤ 3
attempts_three m = ground arith

pub same-IsWithin : (s : ExecutorState) → IsWithin 3 s s
same-IsWithin s = (refl, refl, omega arith, refl)

invoke_stage-IsRecorded :
    (e : Executor) (r : ExecutionRequest) (m : Manifest) (d : PolicyDecision) (s : ExecutorState)
    → IsRecorded e r s (invoke_stage e r m d s)
unfolding invoke_stage
invoke_stage-IsRecorded e r m d s =
    let t = (attempt_loop e r 0 (attempts_of m) none s).0 in
    finish-IsRecorded e r _ s t (
      IsWithin-more (attempts_of m) 3 s t (attempts_three m)
        (attempt_loop-IsWithin e r 0 (attempts_of m) none s))

create_approval-IsWithin :
    (e : Executor) (r : ExecutionRequest) (m : Manifest) (reason : String) (s : ExecutorState)
    → IsWithin 3 s (create_approval e r m reason s).0
unfolding create_approval
create_approval-IsWithin e r m reason s = elim (Option-cases e.approvals) [
  | inl h ↦ rw (create_approval, h) (same-IsWithin s)
  | inr (f, h) ↦ rw (create_approval, h) (refl, refl, omega arith, refl)
]

approval_stage-IsRecorded :
    (e : Executor) (r : ExecutionRequest) (m : Manifest) (d : PolicyDecision) (s : ExecutorState)
    → IsRecorded e r s (approval_stage e r m d s)
unfolding approval_stage
approval_stage-IsRecorded e r m d s =
    let reason = or_else d.reason "Manifest requires approval" in
    finish-IsRecorded e r _ s (create_approval e r m reason s).0
      (create_approval-IsWithin e r m reason s)

pub policy_stage-IsRecorded :
    (e : Executor) (r : ExecutionRequest) (m : Manifest) (s : ExecutorState)
    → IsRecorded e r s (policy_stage e r m s)
unfolding policy_stage
policy_stage-IsRecorded e r m s =
    let d = e.policy (policy_request r m) in
    if-cases (IsRecorded e r s) (is_deny d.decision) _ _
      (λ h. finish-IsRecorded e r _ s s (same-IsWithin s))
      (λ h.
        if-cases (IsRecorded e r s) (is_approval d.decision || m.approval_required) _ _
          (λ k. approval_stage-IsRecorded e r m d s) (λ k. invoke_stage-IsRecorded e r m d s))
