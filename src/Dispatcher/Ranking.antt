-- ===== src/Dispatcher/Ranking.antt =====
-- autonomy/dispatcher.py: the order in which waiting messages are delivered.
use cogito_agent.Prelude.{◌≡◌, refl, ap, false, List, [], ◌∷◌, ◌++◌, ◌⊎◌, inl, inr, All, if-cases}
use cogito_agent.Dispatcher.{Message, comes_first, insert_ordered, ordered}

-- A priority of an event other than high.
abbrev pub IsOther : Message → Type 0
IsOther m = (m.priority ≡ "urgent") ⊎ (m.priority ≡ "normal") ⊎ (m.priority ≡ "low")

comes_first-high : (a b : Message) → a.priority ≡ "high" → IsOther b → comes_first a b ≡ false
unfolding comes_first
comes_first-high a b h (inl u) = rw (h, u) refl
comes_first-high a b h (inr (inl u)) = rw (h, u) refl
comes_first-high a b h (inr (inr u)) = rw (h, u) refl

insert_ordered-high :
    (m : Message) (ms : List Message)
    → m.priority ≡ "high"
    → All IsOther ms
    → insert_ordered m ms ≡ ms ++ m ∷ []
unfolding insert_ordered
insert_ordered-high m [] h o = refl
insert_ordered-high m (x ∷ ms) h o =
    rw (comes_first-high m x h o.0) (ap (λ xs. x ∷ xs) (insert_ordered-high m ms h o.1))

insert_ordered-All :
    (m : Message) (ms : List Message)
    → IsOther m
    → All IsOther ms
    → All IsOther (insert_ordered m ms)
unfolding insert_ordered
insert_ordered-All m [] p o = (p, tt)
insert_ordered-All m (x ∷ ms) p o =
    if-cases (All IsOther) (comes_first m x) (m ∷ x ∷ ms) (x ∷ insert_ordered m ms) (λ y. (p, o))
      (λ n. (o.0, insert_ordered-All m ms p o.1))

ordered-All : (ms : List Message) → All IsOther ms → All IsOther (ordered ms)
unfolding ordered
ordered-All [] o = tt
ordered-All (m ∷ ms) o = insert_ordered-All m (ordered ms) o.0 (ordered-All ms o.1)

-- The priorities are ranked as texts: a message of priority high goes last, after all those that
-- are urgent, normal or low, whenever they were created.
pub high_goes_last :
    (m : Message) (ms : List Message)
    → m.priority ≡ "high"
    → All IsOther ms
    → ordered (m ∷ ms) ≡ ordered ms ++ m ∷ []
unfolding ordered
high_goes_last m ms h o = insert_ordered-high m (ordered ms) h (ordered-All ms o)
