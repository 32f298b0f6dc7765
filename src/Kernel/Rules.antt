-- ===== src/Kernel/Rules.antt =====
-- Rules for the stages of a turn: what holds after a stage, and after an exception.
use cogito_agent.Prelude.{Option, none, some}
use cogito_agent.Kernel.{TurnError, done, failure, KernelState, Stage, and_then}

-- `P` holds of the result and the state where a stage returns, `Q` of the exception and the state
-- where it raises.
abbrev pub Post :
    {A : Type 0}
    → (A → KernelState → Type 0)
    → (TurnError → KernelState → Type 0)
    → Stage A
    → Type 0
Post P Q (s, done a) = P a s
Post P Q (s, failure e) = Q e s

-- The rule of sequence.
pub and_then-Post :
    {A B : Type 0} (P : A → KernelState → Type 0) (R : B → KernelState → Type 0)
    (Q : TurnError → KernelState → Type 0) (x : Stage A) (next : A → KernelState → Stage B)
    → Post P Q x
    → ((a : A) (s : KernelState) → P a s → Post R Q (next a s))
    → Post R Q (and_then x next)
and_then-Post P R Q (s, done a) next h k = k a s h
and_then-Post P R Q (s, failure e) next h k = h

-- What holds in both branches of a conditional on an optional value.
pub option_rule :
    {A B : Type 0} (P : B → Type 0) (o : Option A) (x : B) (f : A → B)
    → P x
    → ((a : A) → P (f a))
    → P (elim o [ none ↦ x | some a ↦ f a ])
option_rule P none x f h k = h
option_rule P (some a) x f h k = k a
