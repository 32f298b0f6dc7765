-- ===== src/Queue/Kept.antt =====
-- queue/message_queue.py: recovery, restarts and the pending rows.
use cogito_agent.Prelude.{
  ap, sym, ◌∙◌, inl, inr, ℕ, ◌≡◌, refl, String, Bool, true, not, ◌&&◌, ◌||◌, none, List, [], ◌∷◌,
  ◌++◌, ◌=s◌, =s_refl, eq_iff, map, any, All, arith, Bool-cases, if◌then◌else◌,
}
use mathlib.Core.List.{append-nil, append_assoc}
use cogito_agent.Sql.{select, change}
use cogito_agent.Sql.Laws.{All-change, All-weaken}
use cogito_agent.Queue.{
  QueueRow, InboundMessage, is_pending, recoverable, reset, by_created, recover_pending, reset_rows,
  row_to_inbound,
}
use cogito_agent.Queue.Recovery.{hit, reset_rows_lem, any-by_created}
use cogito_agent.Queue.Loop.{
  consume_step, LoopState, empty, put, put_all, enqueue_recovered, restart, Step, step, steps,
  publish_step, publish_and_wait, response_timeout, publish_and_wait_step, timeout_step, begin_step,
  complete_step, start_step, restart_step,
}
use cogito_agent.Queue.Pending.{
  held, consume-IsQueued, carries, queued, IsQueued, IsNamed, any-append, publish-IsQueued,
  begin-IsQueued, complete-IsQueued,
}

abbrev with_id : QueueRow → Bool
with_id r = not (r.id =s "")

-- A pending row is among those that the recovery selects.
abbrev covered : List QueueRow → QueueRow → Bool
covered found r =
    (not (is_pending r.status) || any (λ (x : QueueRow). x.id =s r.id) found) && with_id r

cover_weaken :
    (x : QueueRow) (found : List QueueRow) (r : QueueRow)
    → covered found r ≡ true
    → covered (x ∷ found) r ≡ true
cover_weaken x found r h = ground arith

cover_keep :
    (p : QueueRow → Bool) (x : QueueRow) (found rows : List QueueRow)
    → All (λ (r : QueueRow). covered found r ≡ true) rows
    → All (λ (r : QueueRow). covered (if p x then x ∷ found else found) r ≡ true) rows
cover_keep p x found rows h = elim (Bool-cases (p x)) [
  | inl b ↦ rw b (All-weaken rows (λ r q. cover_weaken x found r q) h)
  | inr b ↦ rw b h
]

covered_head :
    (now timeout : ℕ) (x : QueueRow) (found : List QueueRow)
    → with_id x ≡ true
    → covered (if recoverable now timeout none x then x ∷ found else found) x ≡ true
covered_head now timeout x found h = ground (arith, =s_refl x.id)

select_covers :
    (now timeout : ℕ) (rows : List QueueRow)
    → All (λ (r : QueueRow). with_id r ≡ true) rows
    → All (λ (r : QueueRow). covered (select (recoverable now timeout none) rows) r ≡ true) rows
unfolding select
select_covers now timeout [] h = tt
select_covers now timeout (x ∷ rows) h =
    let found = select (recoverable now timeout none) rows in
    (
      covered_head now timeout x found h.0,
      cover_keep (recoverable now timeout none) x found rows (select_covers now timeout rows h.1),
    )

any-map_row :
    (k : String) (found : List QueueRow)
    → any (carries k) (map row_to_inbound found) ≡ any (λ (x : QueueRow). x.id =s k) found
any-map_row k [] = refl
any-map_row k (x ∷ found) = ground (arith, any-map_row k found)

hit-any :
    (found : List QueueRow) (r : QueueRow)
    → hit found r ≡ true
    → any (λ (x : QueueRow). x.id =s r.id) found ≡ true
unfolding hit
hit-any [] r h = cc
hit-any (x ∷ found) r h = ground (arith, eq_iff r.id x.id, eq_iff x.id r.id, hit-any found r)

-- A row that is covered has a copy among the messages put, whether it was reset or not.
recovered_row :
    (memory : List InboundMessage) (found : List QueueRow) (r : QueueRow)
    → covered found r ≡ true
    → queued (memory ++ map row_to_inbound found) (change (hit found) reset r) ≡ true
recovered_row memory found r h = ground (
  arith,
  any-append (carries r.id) memory (map row_to_inbound found),
  any-map_row r.id found,
  hit-any found r,
)

held-put :
    (m : InboundMessage) (ms : List InboundMessage) (s : LoopState)
    → held (put m s) ++ ms ≡ held s ++ m ∷ ms
unfolding put
held-put m ms s =
    ap (λ xs. xs ++ ms) (sym (append_assoc s.tasks s.memory (m ∷ [])))
    ∙ append_assoc (held s) (m ∷ []) ms

put_all-IsQueued :
    (ms : List InboundMessage) (s : LoopState)
    → All (λ (r : QueueRow). queued (held s ++ ms) r ≡ true) s.rows
    → IsQueued (put_all ms s)
unfolding put_all put
put_all-IsQueued [] s h = rw (append-nil (held s)) at h
put_all-IsQueued (m ∷ ms) s h = put_all-IsQueued ms (put m s) (rw (held-put m ms s) h)

covered-by_created :
    (rows found : List QueueRow)
    → All (λ (r : QueueRow). covered found r ≡ true) rows
    → All (λ (r : QueueRow). covered (by_created found) r ≡ true) rows
covered-by_created rows found h =
    All-weaken rows (λ r q. rw (any-by_created (λ (x : QueueRow). x.id =s r.id) found) q) h

enqueue-IsQueued :
    (now : ℕ) (s : LoopState)
    → All (λ (r : QueueRow). with_id r ≡ true) s.rows
    → IsQueued (enqueue_recovered now s)
unfolding enqueue_recovered recover_pending
enqueue-IsQueued now s h =
    let found = by_created (select (recoverable now 300 none) s.rows) in
    let c =
      covered-by_created s.rows (select (recoverable now 300 none) s.rows)
        (select_covers now 300 s.rows h) in
    put_all-IsQueued (map row_to_inbound found) (record s { rows = reset_rows found s.rows })
      (rw (reset_rows_lem found s.rows)
        (All-change _ _ (hit found) reset s.rows (λ r q. recovered_row (held s) found r q) c))

named-rows :
    (memory : List InboundMessage) (rows : List QueueRow)
    → All (λ (r : QueueRow). queued memory r ≡ true) rows
    → All (λ (r : QueueRow). with_id r ≡ true) rows
named-rows memory rows h = All-weaken rows (λ r q. ground (arith, q)) h

step-IsQueued : (x : Step) (s : LoopState) → IsNamed x → IsQueued s → IsQueued (step x s)
unfolding step publish_and_wait response_timeout restart
step-IsQueued (publish_step now id m) s n h = publish-IsQueued now id m s n h
step-IsQueued (publish_and_wait_step now id m) s n h = publish-IsQueued now id m s n h
step-IsQueued (timeout_step id) s n h = h
step-IsQueued consume_step s n h = consume-IsQueued s h
step-IsQueued (begin_step now) s n h = begin-IsQueued now s h
step-IsQueued (complete_step now k answer callback) s n h =
    complete-IsQueued now k answer callback s h
step-IsQueued (start_step now) s n h = enqueue-IsQueued now s (named-rows (held s) s.rows h)
step-IsQueued (restart_step now) s n h = enqueue-IsQueued now _ (named-rows (held s) s.rows h)

steps-IsQueued :
    (xs : List Step) (s : LoopState) → All IsNamed xs → IsQueued s → IsQueued (steps xs s)
unfolding steps
steps-IsQueued [] s n h = h
steps-IsQueued (x ∷ xs) s n h = steps-IsQueued xs (step x s) n.1 (step-IsQueued x s n.0 h)

-- After any steps from the empty queue, crashes and restarts among them, whose new identifiers are
-- not empty, every pending row of the table has a copy in memory or in a task that has not begun.
pub pending_kept : (xs : List Step) → All IsNamed xs → IsQueued (steps xs empty)
pending_kept xs n = steps-IsQueued xs empty n tt
