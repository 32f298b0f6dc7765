-- ===== src/Dispatcher/Drain.antt =====
-- autonomy/dispatcher.py: the loop of `process_all`.
use cogito_agent.Prelude.{
  ℕ, zero, suc, ◌+◌, ◌≤◌, ◌<◌, ◌≡◌, refl, ap, ◌∙◌, String, Bool, ◌&&◌, some, List, [], ◌∷◌, arith,
  =s_refl, take,
}
use cogito_agent.Sql.{rowcount, select}
use cogito_agent.Sql.Laws.{rowcount-select}
use cogito_agent.Dispatcher.{
  Message, has_id, due, insert_ordered, ordered, pending_messages, batch_size,
}
use cogito_agent.Dispatcher.Send.{
  Dispatcher, process_message, process_messages, process_batch, process_all, on_batch,
}
use cogito_agent.Dispatcher.Due.{process_message_count, process_messages_le}

rowcount-insert_ordered :
    (q : Message → Bool) (m : Message) (xs : List Message)
    → rowcount q (insert_ordered m xs) ≡ rowcount q (m ∷ xs)
unfolding insert_ordered rowcount
rowcount-insert_ordered q m [] = refl
rowcount-insert_ordered q m (x ∷ xs) = ground (arith, rowcount-insert_ordered q m xs)

pub rowcount-ordered :
    (q : Message → Bool) (xs : List Message) → rowcount q (ordered xs) ≡ rowcount q xs
unfolding ordered rowcount
rowcount-ordered q [] = refl
rowcount-ordered q (x ∷ xs) =
    ground (arith, rowcount-insert_ordered q x (ordered xs), rowcount-ordered q xs)

pub rowcount-take :
    (q : Message → Bool) (n : ℕ) (xs : List Message) → rowcount q (take n xs) ≤ rowcount q xs
unfolding rowcount
rowcount-take q zero xs = omega arith
rowcount-take q (suc n) [] = omega arith
rowcount-take q (suc n) (x ∷ xs) = omega (arith, rowcount-take q n xs)

due_later :
    (now limit : ℕ) (id : String) (rows : List Message)
    → now ≤ limit
    → rowcount (λ r. has_id id r && due now r) rows
      ≤ rowcount (λ r. has_id id r && due limit r) rows
unfolding rowcount
due_later now limit id [] h = omega arith
due_later now limit id (r ∷ rows) h = ground (arith, due_later now limit id rows h)

head_count : (m : Message) (ms : List Message) → 1 ≤ rowcount (has_id m.id) (m ∷ ms)
unfolding rowcount
head_count m ms = ground (arith, =s_refl m.id)

-- The first message of a batch has its id from a row that is due.
batch_head :
    (now limit : ℕ) (rows : List Message) (m : Message) (ms : List Message)
    → now ≤ limit
    → pending_messages now rows ≡ m ∷ ms
    → 1 ≤ rowcount (λ r. has_id m.id r && due limit r) rows
unfolding pending_messages
batch_head now limit rows m ms h e =
    let found = select (due now) rows in
    omega (
      arith,
      head_count m ms,
      ap (rowcount (has_id m.id)) e,
      rowcount-take (has_id m.id) batch_size (ordered found),
      rowcount-ordered (has_id m.id) found,
      rowcount-select (has_id m.id) (due now) rows,
      due_later now limit m.id rows h,
    )

-- A batch that is not empty leaves fewer messages due.
batch_decreases :
    (d : Dispatcher) (now limit : ℕ) (rows : List Message) (m : Message) (ms : List Message)
    → now ≤ limit
    → limit < now + 30
    → pending_messages now rows ≡ m ∷ ms
    → rowcount (due limit) (process_batch d now rows).0 < rowcount (due limit) rows
unfolding process_batch process_messages
batch_decreases d now limit rows m ms h l e = rw e (
    omega (
      arith,
      batch_head now limit rows m ms h e,
      process_message_count d now limit m rows l,
      process_messages_le d now limit ms (process_message d now m rows) l,
    ))

-- The loop has come to an end: with these rows, at a batch that is empty.
abbrev pub HasDrained : Dispatcher → (ℕ → ℕ) → ℕ → ℕ → List Message → Type 0
HasDrained d clock k fuel rows =
    (rows' : List Message) × (j : ℕ) × (process_all d clock k fuel rows ≡ some rows')
    × (pending_messages (clock j) rows' ≡ [])

process_all_batch :
    (d : Dispatcher) (clock : ℕ → ℕ) (k fuel : ℕ) (rows batch : List Message)
    → pending_messages (clock k) rows ≡ batch
    → process_all d clock k (suc fuel) rows
      ≡ on_batch batch
          (some rows)
          (process_all d clock (suc k) fuel (process_batch d (clock k) rows).0)
unfolding process_all process_batch
process_all_batch d clock k fuel rows batch e = rw e refl

HasDrained-batch :
    (d : Dispatcher) (clock : ℕ → ℕ) (k fuel : ℕ) (rows batch : List Message)
    → pending_messages (clock k) rows ≡ batch
    → ((m : Message) (ms : List Message)
        → pending_messages (clock k) rows ≡ m ∷ ms
        → HasDrained d clock (suc k) fuel (process_batch d (clock k) rows).0)
    → HasDrained d clock k (suc fuel) rows
HasDrained-batch d clock k fuel rows [] e rest =
    (rows, k, process_all_batch d clock k fuel rows [] e, e)
HasDrained-batch d clock k fuel rows (m ∷ ms) e rest =
    let r = rest m ms e in (r.0, r.1, process_all_batch d clock k fuel rows (m ∷ ms) e ∙ r.2, r.3)

-- Where all batches lie within half a minute, `process_all` comes to an end within one batch more
-- than there are messages due by then, and nothing is due at its last look.
pub process_all-HasDrained :
    (d : Dispatcher) (clock : ℕ → ℕ) (limit k fuel : ℕ) (rows : List Message)
    → ((j : ℕ) → (clock j ≤ limit) × (limit < clock j + 30))
    → rowcount (due limit) rows < fuel
    → HasDrained d clock k fuel rows
process_all-HasDrained d clock limit k zero rows c h =
    let none_left : ⊥ = omega (arith, h) in absurd none_left
process_all-HasDrained d clock limit k (suc fuel) rows c h =
    HasDrained-batch d clock k fuel rows (pending_messages (clock k) rows) refl (λ m ms e.
      process_all-HasDrained d clock limit (suc k) fuel (process_batch d (clock k) rows).0 c
        (omega (arith, h, batch_decreases d (clock k) limit rows m ms (c k).0 (c k).1 e)))
