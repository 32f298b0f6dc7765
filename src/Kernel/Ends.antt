-- ===== src/Kernel/Ends.antt =====
-- runtime/kernel.py: the result of a turn against the state of the machine, and the turn after it.
use cogito_agent.Prelude.{◌≡◌, ◌⊎◌, inl, inr, refl, String, true, false, Option, some}
use cogito_agent.Turn.{TurnState, transition, is_allowed}
use cogito_agent.Kernel.{
  RuntimeEvent, budget_error, policy_denied_error, approval_required_error, other_error, done,
  failure, KernelState, Kernel, Stage, write, trace_started,
}
use cogito_agent.Kernel.Model.{refusal_text, move, safe_move, pre_model_phase}
use cogito_agent.Kernel.Process.{run_turn, settle, restart, process, TurnResult, is_final}
use cogito_agent.Kernel.Settled.{At, Leads}
use cogito_agent.Kernel.Turned.{run_turn-Leads}

-- The state of a result against that of the machine.
abbrev pub Agrees : TurnState → TurnState → Type 0
Agrees result machine =
    ((result ≡ TurnState.completed) × (machine ≡ TurnState.completed))
    ⊎ (((result ≡ TurnState.failed) × (machine ≡ TurnState.failed))
        ⊎ (((result ≡ TurnState.denied) × (machine ≡ TurnState.model_calling))
            ⊎ ((result ≡ TurnState.waiting_approval) × (machine ≡ TurnState.planning_tool))))

moved_to_failed :
    (s : KernelState)
    → is_allowed s.machine.state TurnState.failed ≡ true
    → (safe_move TurnState.failed s).machine.state ≡ TurnState.failed
unfolding safe_move transition
moved_to_failed s ok = rw (safe_move, transition, ok) refl

not_moved :
    (st target : TurnState) (s : KernelState)
    → At st s
    → is_allowed st target ≡ false
    → (safe_move target s).machine.state ≡ st
unfolding safe_move transition
not_moved st target s at refused = rw (safe_move, transition, at, refused) at

settle-Agrees :
    (x : Stage String)
    → Leads TurnState.completed x
    → Agrees (settle x).1.state (settle x).0.machine.state
unfolding settle is_allowed
settle-Agrees (s, done output) at = inl (refl, at)
settle-Agrees (s, failure (budget_error x)) ok = inr (inl (refl, moved_to_failed s ok))
settle-Agrees (s, failure (other_error x)) ok = inr (inl (refl, moved_to_failed s ok))
settle-Agrees (s, failure (policy_denied_error x)) at =
    inr (inr (inl (refl, not_moved TurnState.model_calling TurnState.denied s at refl)))
settle-Agrees (s, failure (approval_required_error x id)) at =
    inr (inr (inr (refl, not_moved TurnState.planning_tool TurnState.waiting_approval s at refl)))

-- A turn may begin: the machine is new, or in a final state.
abbrev pub MayBegin : KernelState → Type 0
MayBegin s = (s.machine.state ≡ TurnState.received) ⊎ (is_final s.machine.state ≡ true)

pub restart-At : (s : KernelState) → MayBegin s → At TurnState.received (restart s)
unfolding restart
restart-At s (inl new) = rw new refl
restart-At s (inr over) = rw over refl

-- Without a presence tracker, a turn that begins where it may ends with a result. The machine is in
-- completed or failed as the result is; a result that is denied leaves it in model_calling, and one
-- that waits for an approval in planning_tool.
pub process-Agrees :
    (K : Kernel) (e : RuntimeEvent) (s : KernelState)
    → K.has_presence ≡ false
    → MayBegin s
    → let out = process K e s in
      (r : TurnResult) × (out.1 ≡ some r) × Agrees r.state out.0.machine.state
unfolding process
process-Agrees K e s off begins =
    let x = run_turn K e (write trace_started (restart s)) in
    rw off (
      (settle x).1,
      refl,
      settle-Agrees x (run_turn-Leads K e (write trace_started (restart s)) (restart-At s begins)),
    )

move_refused :
    (target : TurnState) (s : KernelState)
    → is_allowed s.machine.state target ≡ false
    → (x : String) × (move target s ≡ (s, failure (other_error x)))
unfolding move transition
move_refused target s refused =
    (refusal_text s.machine.state target, rw (move, transition, refused) refl)

run_turn_refused :
    (K : Kernel) (e : RuntimeEvent) (s : KernelState)
    → is_allowed s.machine.state TurnState.loading_session ≡ false
    → (x : String) × (run_turn K e s ≡ (s, failure (other_error x)))
unfolding run_turn pre_model_phase
run_turn_refused K e s refused =
    let (x, stays) = move_refused TurnState.loading_session s refused in (x, rw stays refl)

-- Failing from a state that allows it changes nothing but the machine.
pub failed_move :
    (s : KernelState)
    → is_allowed s.machine.state TurnState.failed ≡ true
    → safe_move TurnState.failed s
      ≡ record s { machine = record s.machine { state = TurnState.failed } }
unfolding safe_move transition
failed_move s ok = rw (safe_move, transition, ok) refl

-- The turn failed, and neither the model nor a tool was called.
abbrev pub FailsQuietly : KernelState → KernelState × Option TurnResult → Type 0
FailsQuietly s out =
    ((r : TurnResult) × (out.1 ≡ some r) × (r.state ≡ TurnState.failed))
    × (out.0.machine.state ≡ TurnState.failed)
    × (out.0.asked ≡ s.asked)
    × (out.0.executor ≡ s.executor)

refused_turn :
    (K : Kernel) (e : RuntimeEvent) (s : KernelState)
    → K.has_presence ≡ false
    → is_final s.machine.state ≡ false
    → is_allowed s.machine.state TurnState.loading_session ≡ false
    → is_allowed s.machine.state TurnState.failed ≡ true
    → FailsQuietly s (process K e s)
unfolding process restart settle
refused_turn K e s off open_turn refused ok =
    let s1 = write trace_started s in
    let (x, raised) = run_turn_refused K e s1 refused in
    rw off (rw open_turn (rw raised (rw (failed_move s1 ok) ((_, refl, refl), refl, refl, refl))))

-- A turn on a machine in model_calling or planning_tool, whatever the event, fails without a call of
-- the model or of a tool.
pub stuck_turn-FailsQuietly :
    (K : Kernel) (e : RuntimeEvent) (s : KernelState)
    → K.has_presence ≡ false
    → (s.machine.state ≡ TurnState.model_calling) ⊎ (s.machine.state ≡ TurnState.planning_tool)
    → FailsQuietly s (process K e s)
unfolding is_allowed
stuck_turn-FailsQuietly K e s off (inl at) =
    refused_turn K e s off (rw at refl) (rw at refl) (rw at refl)
stuck_turn-FailsQuietly K e s off (inr at) =
    refused_turn K e s off (rw at refl) (rw at refl) (rw at refl)
