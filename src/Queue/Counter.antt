-- ===== src/Queue/Counter.antt =====
-- queue/agent_loop.py: the counter of `asyncio.Queue` and `task_done`.
use cogito_agent.Prelude.{
  ap, if-cases, ℕ, zero, suc, ◌+◌, ◌≡◌, refl, String, false, Option, none, some, List, [], ◌∷◌,
  ◌++◌, arith, length, length-append, map, All,
}
use cogito_agent.Queue.{
  insert, processing, failed, done, InboundMessage, QueueStatus, recover_pending, row_to_inbound,
}
use cogito_agent.Queue.Loop.{
  consume_step, consume, consumed, after_head, LoopState, Outcome, empty, publish, publish_and_wait,
  response_timeout, mark, task_done, settle_future, settle_by, fail_message, KernelResult, output,
  raised, complete_message, begun, exception, result, complete_taken, complete, take_at, begin,
  enqueue_recovered, restart, put, put_all, Step, step, steps, publish_step, publish_and_wait_step,
  timeout_step, begin_step, complete_step, start_step, restart_step,
}

abbrev counted : LoopState → ℕ
counted s = length s.tasks + length s.memory + length s.in_flight

abbrev pub IsCounted : LoopState → Type 0
IsCounted s = s.unfinished ≡ counted s

-- The step's callback does not raise.
abbrev pub IsQuiet : Step → Type 0
IsQuiet (complete_step now k answer callback) = callback ≡ none
IsQuiet _ = Unit

mark_counts :
    (now : ℕ) (m : InboundMessage) (status : QueueStatus) (e : String) (s : LoopState)
    → ((mark now m status e s).unfinished ≡ s.unfinished)
      × ((mark now m status e s).tasks ≡ s.tasks)
      × ((mark now m status e s).memory ≡ s.memory)
      × ((mark now m status e s).in_flight ≡ s.in_flight)
unfolding mark
mark_counts now m status e s = ground arith

settle_counts :
    (m : InboundMessage) (o : Outcome) (s : LoopState)
    → ((settle_by m o s).unfinished ≡ s.unfinished)
      × ((settle_by m o s).tasks ≡ s.tasks)
      × ((settle_by m o s).memory ≡ s.memory)
      × ((settle_by m o s).in_flight ≡ s.in_flight)
unfolding settle_future
settle_counts m o s = ground arith

put-IsCounted : (m : InboundMessage) (s : LoopState) → IsCounted s → IsCounted (put m s)
unfolding put
put-IsCounted m s h = omega (arith, length-append s.memory (m ∷ []))

put_all-IsCounted :
    (ms : List InboundMessage) (s : LoopState) → IsCounted s → IsCounted (put_all ms s)
unfolding put_all
put_all-IsCounted [] s h = h
put_all-IsCounted (m ∷ ms) s h = put_all-IsCounted ms (put m s) (put-IsCounted m s h)

-- Neither a mark nor a future changes what is counted: with `extra` messages more.
mark-IsCounted :
    (now : ℕ) (m : InboundMessage) (status : QueueStatus) (e : String) (s : LoopState) (extra : ℕ)
    → s.unfinished ≡ extra + counted s
    → (mark now m status e s).unfinished ≡ extra + counted (mark now m status e s)
mark-IsCounted now m status e s extra h =
    let c = mark_counts now m status e s in rw (c.0, c.1, c.2, c.3) h

settle_by-IsCounted :
    (m : InboundMessage) (o : Outcome) (s : LoopState) → IsCounted s → IsCounted (settle_by m o s)
settle_by-IsCounted m o s h = let c = settle_counts m o s in rw (c.0, c.1, c.2, c.3) h

task_done-IsCounted :
    (s : LoopState)
    → s.unfinished ≡ 1 + counted s
    → IsCounted (task_done s).0 × ((task_done s).1 ≡ false)
unfolding task_done
task_done-IsCounted s h = (omega (arith, h), ground (arith, h))

begun-IsCounted :
    (now : ℕ) (s : LoopState) (ms : List InboundMessage)
    → s.tasks ≡ ms
    → IsCounted s
    → IsCounted (begun now s ms)
unfolding mark
begun-IsCounted now s [] e h = h
begun-IsCounted now s (m ∷ ms) e h =
    let t = record s { tasks = ms; in_flight = s.in_flight ++ m ∷ [] } in
    let u : t.unfinished ≡ counted t =
      omega (arith, ap length e, h, length-append s.in_flight (m ∷ [])) in
    omega (arith, mark-IsCounted now m processing "" t 0 (omega (arith, u)))

begin-IsCounted : (now : ℕ) (s : LoopState) → IsCounted s → IsCounted (begin now s)
unfolding begin
begin-IsCounted now s h = begun-IsCounted now s s.tasks refl h

consume-IsCounted :
    (s : LoopState) (ms : List InboundMessage)
    → s.memory ≡ ms
    → IsCounted s
    → IsCounted (consumed s ms)
consume-IsCounted s [] e h = h
consume-IsCounted s (m ∷ ms) e h = omega (arith, ap length e, h, length-append s.tasks (m ∷ []))

-- One message less is counted, from a state that counts one more.
fail_message-counted :
    (now : ℕ) (m : InboundMessage) (e : String) (s : LoopState)
    → s.unfinished ≡ 1 + counted s
    → IsCounted (fail_message now m e s)
unfolding fail_message
fail_message-counted now m e s h =
    let t = mark now m failed e s in
    let d = task_done-IsCounted t (mark-IsCounted now m failed e s 1 h) in
    if-cases IsCounted (task_done t).1 (task_done t).0 (settle_by m (exception e) (task_done t).0)
      (λ z. d.0) (λ z. settle_by-IsCounted m (exception e) (task_done t).0 d.0)

complete_message-counted :
    (now : ℕ) (m : InboundMessage) (answer : KernelResult) (s : LoopState)
    → s.unfinished ≡ 1 + counted s
    → IsCounted (complete_message now m answer none s)
unfolding complete_message
complete_message-counted now m (raised e) s h = fail_message-counted now m e s h
complete_message-counted now m (output text) s h =
    let t = mark now m done "" s in
    let d = task_done-IsCounted t (mark-IsCounted now m done "" s 1 h) in
    let r = (task_done t).0 in
    if-cases IsCounted (task_done t).1 (fail_message now m "task_done() called too many times" r)
      (settle_by m (result text) r) (λ z. cc) (λ z. settle_by-IsCounted m (result text) r d.0)

abbrev taken_count {ℓ} : {A : Type ℓ} → ℕ → Option (A × List A) → ℕ
taken_count n none = n
taken_count n (some (a, rest)) = 1 + length rest

taken_count-suc {ℓ} :
    {A : Type ℓ} (n : ℕ) (x : A) (o : Option (A × List A))
    → n ≡ taken_count n o
    → suc n ≡ taken_count (suc n) (after_head x o)
taken_count-suc n x none h = refl
taken_count-suc n x (some (a, rest)) h = omega (arith, h)

length-take_at {ℓ} :
    {A : Type ℓ} (k : ℕ) (xs : List A) → length xs ≡ taken_count (length xs) (take_at k xs)
unfolding take_at
length-take_at k [] = refl
length-take_at zero (x ∷ xs) = omega arith
length-take_at (suc k) (x ∷ xs) = taken_count-suc (length xs) x (take_at k xs) (length-take_at k xs)

complete_taken-IsCounted :
    (now : ℕ) (answer : KernelResult) (s : LoopState)
    (o : Option (InboundMessage × List InboundMessage))
    → length s.in_flight ≡ taken_count (length s.in_flight) o
    → IsCounted s
    → IsCounted (complete_taken now answer none s o)
complete_taken-IsCounted now answer s none e h = h
complete_taken-IsCounted now answer s (some (m, rest)) e h =
    complete_message-counted now m answer (record s { in_flight = rest }) (omega (arith, h, e))

enqueue-IsCounted : (now : ℕ) (s : LoopState) → IsCounted s → IsCounted (enqueue_recovered now s)
unfolding enqueue_recovered
enqueue-IsCounted now s h =
    let r = recover_pending now 300 none s.rows in
    put_all-IsCounted (map row_to_inbound r.1) (record s { rows = r.0 }) h

publish-IsCounted :
    (now : ℕ) (id : String) (m : InboundMessage) (s : LoopState)
    → IsCounted s
    → IsCounted (publish now id m s)
unfolding publish
publish-IsCounted now id m s h =
    put-IsCounted (record m { queue_id = some id })
      (record s { rows = insert now id m "user_message" s.rows }) h

step-IsCounted : (x : Step) (s : LoopState) → IsQuiet x → IsCounted s → IsCounted (step x s)
unfolding step consume publish_and_wait response_timeout restart complete
step-IsCounted (publish_step now id m) s q h = publish-IsCounted now id m s h
step-IsCounted (publish_and_wait_step now id m) s q h = publish-IsCounted now id m s h
step-IsCounted (timeout_step id) s q h = h
step-IsCounted consume_step s q h = consume-IsCounted s s.memory refl h
step-IsCounted (begin_step now) s q h = begin-IsCounted now s h
step-IsCounted (complete_step now k answer callback) s q h =
    rw q (
      complete_taken-IsCounted now answer s (take_at k s.in_flight) (length-take_at k s.in_flight)
        h)
step-IsCounted (start_step now) s q h = enqueue-IsCounted now s h
step-IsCounted (restart_step now) s q h =
    enqueue-IsCounted now
      (record s { memory = []; unfinished = 0; tasks = []; in_flight = []; waiting = [] }) refl

steps-IsCounted :
    (xs : List Step) (s : LoopState) → All IsQuiet xs → IsCounted s → IsCounted (steps xs s)
unfolding steps
steps-IsCounted [] s q h = h
steps-IsCounted (x ∷ xs) s q h = steps-IsCounted xs (step x s) q.1 (step-IsCounted x s q.0 h)

-- After any steps from the empty queue whose callbacks return, the counter of unfinished messages
-- is the number of those in memory, in tasks that have not begun and in flight.
pub unfinished-IsCounted : (xs : List Step) → All IsQuiet xs → IsCounted (steps xs empty)
unfinished-IsCounted xs q = steps-IsCounted xs empty q refl
