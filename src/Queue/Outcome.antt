-- ===== src/Queue/Outcome.antt =====
-- queue/agent_loop.py: how the row of a message ends, and a message that is published before the
-- loop starts.
use mathlib.Core.Option as Opt
use cogito_agent.Prelude.{
  if-cases, ℕ, ◌≡◌, refl, sym, ap, ◌∙◌, String, true, false, Option, none, some, List, [], ◌∷◌,
  ◌==◌, ◌=s◌, arith, if◌then◌else◌,
}
use cogito_agent.Sql.{find, change, select}
use cogito_agent.Sql.Laws.{find-update, find_holds}
use cogito_agent.Queue.{
  QueueRow, QueueStatus, InboundMessage, done, failed, pending, processing, has_id, set_status,
  update_status, recover_pending, by_created, insert_created, insert,
}
use cogito_agent.Queue.Loop.{
  LoopState, empty, Outcome, exception, result, queue_id_of, mark, task_done, settle_future,
  settle_by, fail_message, called_back, KernelResult, output, raised, complete_message, publish,
  enqueue_recovered, put, put_all,
}

-- The status that a message's row ends with: the kernel's answer, the callback, and whether the
-- counter of the queue was at zero already.
abbrev pub verdict : KernelResult → Option String → ℕ → QueueStatus
verdict (raised e) callback unfinished = failed
verdict (output text) (some e) unfinished = failed
verdict (output text) none unfinished = if unfinished == 0 then failed else done

abbrev pub statuses : String → LoopState → Option QueueStatus
statuses id s = Opt.map (λ (r : QueueRow). r.status) (find (has_id id) s.rows)

set_status-status :
    (now : ℕ) (status : QueueStatus) (e : String) (r : QueueRow)
    → (set_status now status e r).status ≡ status
unfolding set_status
set_status-status now pending e r = refl
set_status-status now processing e r = refl
set_status-status now done e r = refl
set_status-status now failed e r = refl

set_status-id :
    (now : ℕ) (status : QueueStatus) (e : String) (r : QueueRow)
    → (set_status now status e r).id ≡ r.id
unfolding set_status
set_status-id now pending e r = refl
set_status-id now processing e r = refl
set_status-id now done e r = refl
set_status-id now failed e r = refl

marked_status :
    (now : ℕ) (id : String) (status : QueueStatus) (e : String) (rows : List QueueRow)
    (o : Option QueueRow)
    → find (has_id id) rows ≡ o
    → Opt.map
        (λ (r : QueueRow). r.status)
        (Opt.map (change (has_id id) (set_status now status e)) o)
      ≡ Opt.map (λ (r : QueueRow). status) o
marked_status now id status e rows none f = refl
marked_status now id status e rows (some r) f =
    rw (find_holds (has_id id) rows r f) (ap some (set_status-status now status e r))

mark-statuses :
    (now : ℕ) (m : InboundMessage) (status : QueueStatus) (e : String) (s : LoopState)
    → (queue_id_of m =s "") ≡ false
    → statuses (queue_id_of m) (mark now m status e s)
      ≡ Opt.map (λ (r : QueueRow). status) (find (has_id (queue_id_of m)) s.rows)
unfolding mark update_status
mark-statuses now m status e s named =
    let id = queue_id_of m in
    rw
      (
        named,
        find-update (has_id id) (has_id id) (set_status now status e) s.rows
            (λ r. ap (λ i. i =s id) (set_status-id now status e r)),
      )
      (marked_status now id status e s.rows (find (has_id id) s.rows) refl)

settle_by-rows :
    (m : InboundMessage) (o : Outcome) (s : LoopState) → (settle_by m o s).rows ≡ s.rows
unfolding settle_future
settle_by-rows m o s = ground arith

fail_message-rows :
    (now : ℕ) (m : InboundMessage) (e : String) (s : LoopState)
    → (fail_message now m e s).rows ≡ (mark now m failed e s).rows
unfolding fail_message task_done
fail_message-rows now m e s =
    ground (arith, settle_by-rows m (exception e) (task_done (mark now m failed e s)).0)

const_map :
    (f : QueueRow → QueueRow) (status : QueueStatus) (o : Option QueueRow)
    → Opt.map (λ (r : QueueRow). status) (Opt.map f o) ≡ Opt.map (λ (r : QueueRow). status) o
const_map f status none = refl
const_map f status (some r) = refl

-- Marking a message keeps its row in the table.
mark-found :
    (now : ℕ) (m : InboundMessage) (status status' : QueueStatus) (e : String) (s : LoopState)
    → (queue_id_of m =s "") ≡ false
    → Opt.map
        (λ (r : QueueRow). status')
        (find (has_id (queue_id_of m)) (mark now m status e s).rows)
      ≡ Opt.map (λ (r : QueueRow). status') (find (has_id (queue_id_of m)) s.rows)
unfolding mark update_status
mark-found now m status status' e s named =
    let id = queue_id_of m in
    rw
      (
        named,
        find-update (has_id id) (has_id id) (set_status now status e) s.rows
            (λ r. ap (λ i. i =s id) (set_status-id now status e r)),
      )
      (const_map (change (has_id id) (set_status now status e)) status' (find (has_id id) s.rows))

abbrev after_done : ℕ → InboundMessage → LoopState → LoopState
after_done now m s = (task_done (mark now m done "" s)).0

fail_message-statuses :
    (now : ℕ) (m : InboundMessage) (e : String) (s : LoopState)
    → (queue_id_of m =s "") ≡ false
    → statuses (queue_id_of m) (fail_message now m e s)
      ≡ Opt.map (λ (r : QueueRow). failed) (find (has_id (queue_id_of m)) s.rows)
fail_message-statuses now m e s named =
    rw (fail_message-rows now m e s) (mark-statuses now m failed e s named)

-- A failure after the message was marked done.
refailed :
    (now : ℕ) (m : InboundMessage) (e : String) (s t : LoopState)
    → (queue_id_of m =s "") ≡ false
    → t.rows ≡ (mark now m done "" s).rows
    → statuses (queue_id_of m) (fail_message now m e t)
      ≡ Opt.map (λ (r : QueueRow). failed) (find (has_id (queue_id_of m)) s.rows)
refailed now m e s t named same =
    fail_message-statuses now m e t named ∙ rw same (mark-found now m done failed "" s named)

called_back-statuses :
    (now : ℕ) (m : InboundMessage) (text : String) (callback : Option String) (s : LoopState)
    (t : LoopState)
    → (queue_id_of m =s "") ≡ false
    → (s.unfinished == 0) ≡ false
    → t.rows ≡ (mark now m done "" s).rows
    → statuses (queue_id_of m) (called_back now m callback t)
      ≡ Opt.map
          (λ (r : QueueRow). verdict (output text) callback s.unfinished)
          (find (has_id (queue_id_of m)) s.rows)
called_back-statuses now m text none s t named u same =
    rw (u, same) (mark-statuses now m done "" s named)
called_back-statuses now m text (some e) s t named u same = refailed now m e s t named same

mark-unfinished :
    (now : ℕ) (m : InboundMessage) (status : QueueStatus) (e : String) (s : LoopState)
    → (mark now m status e s).unfinished ≡ s.unfinished
unfolding mark
mark-unfinished now m status e s = ground arith

verdict_zero :
    (text : String) (callback : Option String) (n : ℕ)
    → (n == 0) ≡ true
    → verdict (output text) callback n ≡ failed
verdict_zero text none n h = rw h refl
verdict_zero text (some e) n h = refl

-- The row of a message whose id is not empty ends as done when the kernel answers, the callback
-- returns and the counter of unfinished messages was not at zero, and as failed in every other
-- case, also when the callback raises after the row was marked done.
pub complete_verdict :
    (now : ℕ) (m : InboundMessage) (answer : KernelResult) (callback : Option String)
    (s : LoopState)
    → (queue_id_of m =s "") ≡ false
    → statuses (queue_id_of m) (complete_message now m answer callback s)
      ≡ Opt.map
          (λ (r : QueueRow). verdict answer callback s.unfinished)
          (find (has_id (queue_id_of m)) s.rows)
unfolding complete_message
complete_verdict now m (raised e) callback s named = fail_message-statuses now m e s named
complete_verdict now m (output text) callback s named =
    let t = after_done now m s in
    let id = queue_id_of m in
    let row = find (has_id id) s.rows in
    let same = ap (λ n. n == 0) (mark-unfinished now m done "" s) in
    if-cases
      (λ (x : LoopState).
        statuses id x ≡ Opt.map (λ (r : QueueRow). verdict (output text) callback s.unfinished) row)
      ((mark now m done "" s).unfinished == 0)
      (fail_message now m "task_done() called too many times" t)
      (called_back now m callback (settle_by m (result text) t))
      (λ z.
        refailed now m "task_done() called too many times" s t named refl
        ∙ ap (λ (v : QueueStatus). Opt.map (λ (r : QueueRow). v) row)
            (sym (verdict_zero text callback s.unfinished (sym same ∙ z))))
      (λ p.
        called_back-statuses now m text callback s (settle_by m (result text) t) named
          (sym same ∙ p) (settle_by-rows m (result text) t))

-- A message that is published before the loop starts is in memory twice once it has started.
pub published_twice :
    (now later : ℕ) (id : String) (m : InboundMessage)
    → (enqueue_recovered later (publish now id m empty)).memory
      ≡ record m { queue_id = some id } ∷ record m { queue_id = some id } ∷ []
unfolding enqueue_recovered publish put put_all insert recover_pending by_created insert_created
    select
published_twice now later id m = refl
