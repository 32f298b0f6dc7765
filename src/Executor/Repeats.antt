-- ===== src/Executor/Repeats.antt =====
-- execution/executor.py: the same request again and again, and the rows of the audit.
use cogito_agent.Prelude.{
  ℕ, zero, suc, ◌+◌, ◌-◌, ◌*◌, ◌≤◌, ◌<◌, ◌≡◌, refl, ap, String, true, false, Option, none, some,
  List, [], ◌∷◌, ◌++◌, leb, arith, if-cases, if◌then◌else◌, length, =s_refl,
}
use cogito_agent.Executor.{
  denied, not_found, Manifest, ExecutionRequest, ExecutionResult, Executor, ExecutorState,
  max_repeat, repeats_of, count_call, current_call, is_call, write_record, findings_of,
}
use cogito_agent.Policy.{DecisionType}
use cogito_agent.Executor.Steps.{
  refusal, loop_reason, finish, policy_stage, guard_stage, guardian_stage, manifest_stage, execute,
}
use cogito_agent.Executor.Stages.{policy_stage-IsRecorded}

-- The calls of the request that the guard still lets through.
abbrev room : Executor → ExecutionRequest → ExecutorState → ℕ
room e r s = 3 - repeats_of e r s

-- A call pays for its invocations with the room it takes, and its result is recorded.
abbrev IsCharged :
    Executor → ExecutionRequest → ExecutorState → ExecutorState × ExecutionResult → Type 0
IsCharged e r s x =
    (length x.0.invocations + 3 * room e r x.0 ≤ length s.invocations + 3 * room e r s)
    × (x.0.audited ≡ (if e.has_audit then s.audited ++ (r, x.1) ∷ [] else s.audited))

is_call_refl : (c : String × String) → is_call c (some c) ≡ true
is_call_refl (a, b) = ground (arith, =s_refl a, =s_refl b)

repeats_of-counted :
    (e : Executor) (r : ExecutionRequest) (s t : ExecutorState)
    → t.last_call ≡ some (current_call e r)
    → t.repeat_count ≡ repeats_of e r s
    → repeats_of e r t ≡ repeats_of e r s + 1
unfolding repeats_of
repeats_of-counted e r s t l c = rw (l, is_call_refl (current_call e r), c) refl

charge :
    (e : Executor) (r : ExecutionRequest) (s t : ExecutorState)
    → repeats_of e r t ≡ repeats_of e r s + 1
    → repeats_of e r s < 3
    → length t.invocations ≤ length s.invocations + 3
    → length t.invocations + 3 * room e r t ≤ length s.invocations + 3 * room e r s
charge e r s t c l h = omega (arith, c, l, h)

charge_blocked :
    (e : Executor) (r : ExecutionRequest) (s t : ExecutorState)
    → repeats_of e r t ≡ repeats_of e r s + 1
    → t.invocations ≡ s.invocations
    → length t.invocations + 3 * room e r t ≤ length s.invocations + 3 * room e r s
charge_blocked e r s t c h = omega (arith, c, ap length h)

below_max : (n : ℕ) → leb max_repeat n ≡ false → n < 3
below_max n h = ground arith

finish-kept :
    (e : Executor) (r : ExecutionRequest) (y : ExecutionResult) (t : ExecutorState)
    → ((finish e r y t).0.invocations ≡ t.invocations)
      × ((finish e r y t).0.last_call ≡ t.last_call)
      × ((finish e r y t).0.repeat_count ≡ t.repeat_count)
      × ((finish e r y t).0.audited ≡ (if e.has_audit then t.audited ++ (r, y) ∷ [] else t.audited))
unfolding write_record
finish-kept e r y t = (refl, refl, refl, refl)

blocked-IsCharged :
    (e : Executor) (r : ExecutionRequest) (s : ExecutorState) (y : ExecutionResult)
    → IsCharged e r s (finish e r y (count_call e r s))
unfolding count_call
blocked-IsCharged e r s y =
    let t = count_call e r s in
    let k = finish-kept e r y t in
    let u = (finish e r y t).0 in
    (charge_blocked e r s u (repeats_of-counted e r s u k.1 k.2) k.0, k.3)

passed-IsCharged :
    (e : Executor) (r : ExecutionRequest) (m : Manifest) (s : ExecutorState)
    → repeats_of e r s < 3
    → IsCharged e r s (policy_stage e r m (count_call e r s))
unfolding count_call
passed-IsCharged e r m s l =
    let t = count_call e r s in
    let k = policy_stage-IsRecorded e r m t in
    let u = (policy_stage e r m t).0 in
    (charge e r s u (repeats_of-counted e r s u k.0 k.1) l k.2, k.3)

guard_stage-IsCharged :
    (e : Executor) (r : ExecutionRequest) (m : Manifest) (s : ExecutorState)
    → IsCharged e r s (guard_stage e r m s)
unfolding guard_stage count_call
guard_stage-IsCharged e r m s =
    let t = count_call e r s in
    if-cases (IsCharged e r s) (leb max_repeat t.repeat_count)
      (finish e r (refusal denied DecisionType.deny (loop_reason r) [] "") t) (policy_stage e r m t)
      (λ h. blocked-IsCharged e r s (refusal denied DecisionType.deny (loop_reason r) [] ""))
      (λ h. passed-IsCharged e r m s (below_max (repeats_of e r s) h))

-- A call that ends before the tool-loop guard leaves its memory alone.
early-IsCharged :
    (e : Executor) (r : ExecutionRequest) (s : ExecutorState) (y : ExecutionResult)
    → IsCharged e r s (finish e r y s)
unfolding write_record repeats_of
early-IsCharged e r s y = (omega arith, refl)

guardian_stage-IsCharged :
    (e : Executor) (r : ExecutionRequest) (m : Manifest) (s : ExecutorState) (fs : List String)
    → IsCharged e r s (guardian_stage e r m s fs)
guardian_stage-IsCharged e r m s [] = guard_stage-IsCharged e r m s
guardian_stage-IsCharged e r m s (f ∷ fs) =
    early-IsCharged e r s (refusal denied DecisionType.deny (e.join (f ∷ fs)) (f ∷ fs) "")

manifest_stage-IsCharged :
    (e : Executor) (r : ExecutionRequest) (s : ExecutorState) (o : Option Manifest)
    → IsCharged e r s (manifest_stage e r s o)
manifest_stage-IsCharged e r s none =
    early-IsCharged e r s (refusal not_found DecisionType.deny "Capability not registered" [] "")
manifest_stage-IsCharged e r s (some m) =
    guardian_stage-IsCharged e r m s (findings_of r m e.guardians)

execute-IsCharged :
    (e : Executor) (r : ExecutionRequest) (s : ExecutorState) → IsCharged e r s (execute e r s)
unfolding execute
execute-IsCharged e r s = manifest_stage-IsCharged e r s (e.get_manifest r.capability_name)

-- Every call of `execute`, on whichever path it ends, adds exactly one row to the audit, where
-- there is one: the request with the result that the caller gets.
pub execute-audited :
    (e : Executor) (r : ExecutionRequest) (s : ExecutorState)
    → (execute e r s).0.audited
      ≡ (if e.has_audit then s.audited ++ (r, (execute e r s).1) ∷ [] else s.audited)
execute-audited e r s = (execute-IsCharged e r s).1

-- The same request, `n` times in a row.
unfoldable pub execute_again : Executor → ExecutionRequest → ℕ → ExecutorState → ExecutorState
execute_again e r zero s = s
execute_again e r (suc n) s = execute_again e r n (execute e r s).0

again-room :
    (e : Executor) (r : ExecutionRequest) (n : ℕ) (s : ExecutorState)
    → length (execute_again e r n s).invocations ≤ length s.invocations + 3 * room e r s
unfolding execute_again
again-room e r zero s = omega arith
again-room e r (suc n) s =
    omega (arith, (execute-IsCharged e r s).0, again-room e r n (execute e r s).0)

-- However often the same request is made in a row, it is invoked nine times at most, all attempts
-- counted.
pub execute_again_bounded :
    (e : Executor) (r : ExecutionRequest) (n : ℕ) (s : ExecutorState)
    → length (execute_again e r n s).invocations ≤ length s.invocations + 9
execute_again_bounded e r n s = omega (arith, again-room e r n s)
