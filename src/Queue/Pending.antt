-- ===== src/Queue/Pending.antt =====
-- queue/message_queue.py: the pending rows of the table and the messages that wait.
use cogito_agent.Prelude.{
  one_of, inl, inr, ℕ, ◌≡◌, refl, String, Bool, true, false, not, ◌&&◌, ◌||◌, Option, none, some,
  List, [], ◌∷◌, ◌++◌, ◌=s◌, =s_refl, eq_iff, any, All, arith, Bool-cases,
}
use mathlib.Core.List.{append_assoc}
use cogito_agent.Sql.{change}
use cogito_agent.Sql.Laws.{All-change, All-append_one, All-weaken}
use cogito_agent.Queue.{
  QueueRow, InboundMessage, QueueStatus, pending, processing, done, failed, is_pending, has_id,
  insert, set_status, update_status,
}
use cogito_agent.Queue.Loop.{
  consume, consumed, begun, complete_taken, Outcome, result, exception, settle_by, called_back,
  LoopState, Outcome, result, exception, settle_by, called_back, queue_id_of, put, publish,
  settle_future, mark, task_done, begin, fail_message, complete_message, KernelResult, output,
  raised, take_at, complete, Step, publish_step, publish_and_wait_step,
}

abbrev pub carries : String → InboundMessage → Bool
carries k m = queue_id_of m =s k

-- A row with an id, which is among the messages if it is pending.
abbrev pub queued : List InboundMessage → QueueRow → Bool
queued memory r = (not (is_pending r.status) || any (carries r.id) memory) && not (r.id =s "")

-- The messages that wait for a task to begin: those of the tasks made and those in memory.
abbrev pub held : LoopState → List InboundMessage
held s = s.tasks ++ s.memory

-- Every row of the table has an id, and every pending one has a copy that waits.
abbrev pub IsQueued : LoopState → Type 0
IsQueued s = All (λ (r : QueueRow). queued (held s) r ≡ true) s.rows

-- The identifiers that a step gives are not empty.
abbrev pub IsNamed : Step → Type 0
IsNamed (publish_step now id m) = (id =s "") ≡ false
IsNamed (publish_and_wait_step now id m) = (id =s "") ≡ false
IsNamed _ = Unit

pub any-append {ℓ} :
    {A : Type ℓ} (p : A → Bool) (xs ys : List A) → any p (xs ++ ys) ≡ (any p xs || any p ys)
any-append p [] ys = refl
any-append p (x ∷ xs) ys = ground (arith, any-append p xs ys)

pub queued-append :
    (memory more : List InboundMessage) (r : QueueRow)
    → queued memory r ≡ true
    → queued (memory ++ more) r ≡ true
queued-append memory more r h = ground (arith, any-append (carries r.id) memory more)

pub publish-IsQueued :
    (now : ℕ) (id : String) (m : InboundMessage) (s : LoopState)
    → (id =s "") ≡ false
    → IsQueued s
    → IsQueued (publish now id m s)
unfolding publish put insert
publish-IsQueued now id m s named h =
    let more = record m { queue_id = some id } ∷ [] in
    rw⁻¹ (append_assoc s.tasks s.memory more) (
      All-append_one (λ (r : QueueRow). queued (held s ++ more) r ≡ true) s.rows _
        (All-weaken s.rows (λ r q. queued-append (held s) more r q) h)
        (ground (arith, any-append (carries id) (held s) more, =s_refl id)))

pub consume-IsQueued : (s : LoopState) → IsQueued s → IsQueued (consume s)
unfolding consume
consume-IsQueued s h = consumed-IsQueued s.memory h
  where
    consumed-IsQueued :
        (ms : List InboundMessage)
        → All (λ (r : QueueRow). queued (s.tasks ++ ms) r ≡ true) s.rows
        → IsQueued (consumed s ms)
    consumed-IsQueued [] q = h
    consumed-IsQueued (m ∷ ms) q = rw (append_assoc s.tasks (m ∷ []) ms) q

queued-set_status :
    (now : ℕ) (status : QueueStatus) (e : String) (memory : List InboundMessage) (r : QueueRow)
    → is_pending status ≡ false
    → not (r.id =s "") ≡ true
    → queued memory (set_status now status e r) ≡ true
unfolding set_status
queued-set_status now pending e memory r a b = cc
queued-set_status now processing e memory r a b = b
queued-set_status now done e memory r a b = b
queued-set_status now failed e memory r a b = b

taken_row :
    (now : ℕ) (m : InboundMessage) (ms : List InboundMessage) (r : QueueRow)
    → (queue_id_of m =s "") ≡ false
    → queued (m ∷ ms) r ≡ true
    → queued ms (change (has_id (queue_id_of m)) (set_status now processing "") r) ≡ true
unfolding set_status
taken_row now m ms r named h =
    ground (arith, eq_iff r.id (queue_id_of m), eq_iff (queue_id_of m) r.id)

unnamed_row :
    (m : InboundMessage) (ms : List InboundMessage) (r : QueueRow)
    → (queue_id_of m =s "") ≡ true
    → queued (m ∷ ms) r ≡ true
    → queued ms r ≡ true
unnamed_row m ms r named h = ground (
  arith,
  eq_iff r.id (queue_id_of m),
  eq_iff r.id "",
  eq_iff (queue_id_of m) "",
  eq_iff (queue_id_of m) r.id,
)

taken-IsQueued :
    (now : ℕ) (m : InboundMessage) (ms : List InboundMessage) (s : LoopState)
    → All (λ (r : QueueRow). queued (m ∷ ms) r ≡ true) s.rows
    → held s ≡ ms
    → IsQueued (mark now m processing "" s)
unfolding mark update_status
taken-IsQueued now m ms s h e = elim (Bool-cases (queue_id_of m =s "")) [
  | inl b ↦ rw (b, e) (All-weaken s.rows (λ r q. unnamed_row m ms r b q) h)
  | inr b ↦
      rw (b, e)
        (All-change _ _ (has_id (queue_id_of m)) (set_status now processing "") s.rows
          (λ r q. taken_row now m ms r b q) h)
]

begun-IsQueued :
    (now : ℕ) (s : LoopState) (ms : List InboundMessage)
    → All (λ (r : QueueRow). queued (ms ++ s.memory) r ≡ true) s.rows
    → s.tasks ≡ ms
    → IsQueued (begun now s ms)
begun-IsQueued now s [] h e = rw e h
begun-IsQueued now s (m ∷ ms) h e =
    taken-IsQueued now m (ms ++ s.memory)
      (record s { tasks = ms; in_flight = s.in_flight ++ m ∷ [] }) h refl

pub begin-IsQueued : (now : ℕ) (s : LoopState) → IsQueued s → IsQueued (begin now s)
unfolding begin
begin-IsQueued now s h = begun-IsQueued now s s.tasks h refl

marked_row :
    (now : ℕ) (k : String) (status : QueueStatus) (e : String) (memory : List InboundMessage)
    (r : QueueRow)
    → is_pending status ≡ false
    → queued memory r ≡ true
    → queued memory (change (has_id k) (set_status now status e) r) ≡ true
marked_row now k status e memory r a h = ground (arith, queued-set_status now status e memory r a)

mark-IsQueued :
    (now : ℕ) (m : InboundMessage) (status : QueueStatus) (e : String) (s : LoopState)
    → is_pending status ≡ false
    → IsQueued s
    → IsQueued (mark now m status e s)
unfolding mark update_status
mark-IsQueued now m status e s a h = elim (Bool-cases (queue_id_of m =s "")) [
  | inl b ↦ rw b h
  | inr b ↦ rw b (
      All-change _ _ (has_id (queue_id_of m)) (set_status now status e) s.rows
        (λ r q. marked_row now (queue_id_of m) status e (held s) r a q) h)
]

settle_future-IsQueued :
    (id : String) (o : Outcome) (s : LoopState) → IsQueued s → IsQueued (settle_future id o s)
unfolding settle_future
settle_future-IsQueued id o s h = elim (Bool-cases (one_of id s.waiting)) [
  | inl b ↦ rw b h
  | inr b ↦ rw b h
]

settle_by-IsQueued :
    (m : InboundMessage) (o : Outcome) (s : LoopState) → IsQueued s → IsQueued (settle_by m o s)
settle_by-IsQueued m o s h = elim (Bool-cases (queue_id_of m =s "")) [
  | inl b ↦ rw b h
  | inr b ↦ rw b (settle_future-IsQueued (queue_id_of m) o s h)
]

task_done-IsQueued : (s : LoopState) → IsQueued s → IsQueued (task_done s).0
unfolding task_done
task_done-IsQueued s h = h

fail_message-IsQueued :
    (now : ℕ) (m : InboundMessage) (e : String) (s : LoopState)
    → IsQueued s
    → IsQueued (fail_message now m e s)
unfolding fail_message
fail_message-IsQueued now m e s h =
    let r = task_done (mark now m failed e s) in
    let q : IsQueued r.0 =
      task_done-IsQueued (mark now m failed e s) (mark-IsQueued now m failed e s refl h) in
    elim (Bool-cases r.1) [
      | inl b ↦ rw b q
      | inr b ↦ rw b (settle_by-IsQueued m (exception e) r.0 q)
    ]

called_back-IsQueued :
    (now : ℕ) (m : InboundMessage) (callback : Option String) (s : LoopState)
    → IsQueued s
    → IsQueued (called_back now m callback s)
called_back-IsQueued now m none s h = h
called_back-IsQueued now m (some e) s h = fail_message-IsQueued now m e s h

complete_message-IsQueued :
    (now : ℕ) (m : InboundMessage) (answer : KernelResult) (callback : Option String)
    (s : LoopState)
    → IsQueued s
    → IsQueued (complete_message now m answer callback s)
unfolding complete_message
complete_message-IsQueued now m (raised e) callback s h = fail_message-IsQueued now m e s h
complete_message-IsQueued now m (output text) callback s h =
    let r = task_done (mark now m done "" s) in
    let q : IsQueued r.0 =
      task_done-IsQueued (mark now m done "" s) (mark-IsQueued now m done "" s refl h) in
    elim (Bool-cases r.1) [
      | inl b ↦ rw b (fail_message-IsQueued now m "task_done() called too many times" r.0 q)
      | inr b ↦ rw b (
          called_back-IsQueued now m callback (settle_by m (result text) r.0)
            (settle_by-IsQueued m (result text) r.0 q))
    ]

complete_taken-IsQueued :
    (now : ℕ) (answer : KernelResult) (callback : Option String) (s : LoopState)
    (o : Option (InboundMessage × List InboundMessage))
    → IsQueued s
    → IsQueued (complete_taken now answer callback s o)
complete_taken-IsQueued now answer callback s none h = h
complete_taken-IsQueued now answer callback s (some (m, rest)) h =
    complete_message-IsQueued now m answer callback (record s { in_flight = rest }) h

pub complete-IsQueued :
    (now k : ℕ) (answer : KernelResult) (callback : Option String) (s : LoopState)
    → IsQueued s
    → IsQueued (complete now k answer callback s)
unfolding complete
complete-IsQueued now k answer callback s h =
    complete_taken-IsQueued now answer callback s (take_at k s.in_flight) h
