-- ===== src/Router/Circuit.antt =====
-- models/router.py: the health of a candidate after any calls of the router.
use mathlib.Core.Path.{subst}
use cogito_agent.Prelude.{
  ◌||◌, sym, ap, Option, some, eq_iff, Bool-cases, inl, inr, dict_set, dict_get, dict_get-dict_set,
  dict_get-dict_set_other, ℕ, ◌+◌, ◌≤◌, ◌≡◌, refl, String, Bool, true, false, List, [], ◌∷◌, arith,
  leb, if◌then◌else◌, ◌=s◌, Dict, ◌==◌,
}
use cogito_agent.Router.{
  degraded, health_of, or_new, get_health, report_failure, report_success, HealthStatus, healthy,
  unhealthy, probing, Health, Breaker, new_health, probed, failed_once, get_health, report_success,
  report_failure,
}

-- A call on the table: a report, or a look at a candidate's health, at a time.
pub data HealthCall : Type 0 where
  succeeded_call : String → HealthCall
  failed_call : ℕ → String → String → HealthCall
  looked_up : ℕ → String → HealthCall

abbrev pub apply_call : Breaker → HealthCall → Dict Health → Dict Health
apply_call b (succeeded_call k) d = report_success k d
apply_call b (failed_call now k e) d = report_failure b now k e d
apply_call b (looked_up now k) d = (get_health now k d).0

-- The latest call comes first.
abbrev pub apply_calls : Breaker → List HealthCall → Dict Health
apply_calls b [] = []
apply_calls b (c ∷ cs) = apply_call b c (apply_calls b cs)

-- How often a candidate has failed since it last succeeded.
abbrev pub failures : String → List HealthCall → ℕ
failures k [] = 0
failures k (succeeded_call j ∷ cs) = let n = failures k cs in if j =s k then 0 else n
failures k (failed_call now j e ∷ cs) = let n = failures k cs in if j =s k then n + 1 else n
failures k (looked_up now j ∷ cs) = failures k cs

-- When it last failed.
abbrev pub last_failure : String → List HealthCall → ℕ
last_failure k [] = 0
last_failure k (failed_call now j e ∷ cs) = let t = last_failure k cs in if j =s k then now else t
last_failure k (_ ∷ cs) = last_failure k cs

-- Whether its health was looked at since it last failed or succeeded, at a time when the recovery time
-- after the last failure was over.
abbrev pub was_probed : Breaker → String → List HealthCall → Bool
was_probed b k [] = false
was_probed b k (succeeded_call j ∷ cs) = let p = was_probed b k cs in if j =s k then false else p
was_probed b k (failed_call now j e ∷ cs) = let p = was_probed b k cs in if j =s k then false else p
was_probed b k (looked_up now j ∷ cs) =
    let p = was_probed b k cs in if j =s k then leb (last_failure k cs + b.recovery) now || p else p

-- The status after so many failures.
abbrev pub status_after : Breaker → ℕ → Bool → HealthStatus
status_after b n looked =
    if n == 0
    then healthy
    else if leb b.failure_threshold n
    then (if looked then probing else unhealthy)
    else degraded

-- The failures are counted; without one the candidate is healthy, below the threshold degraded, from
-- the threshold on unhealthy, and probing once it is looked at after the recovery time.
abbrev pub HasCounted : Breaker → ℕ → ℕ → Bool → Health → Type 0
HasCounted b n last looked h =
    (h.consecutive_failures ≡ n)
    × (h.status ≡ status_after b n looked)
    × (leb b.failure_threshold n ≡ true → h.opened_until ≡ last + b.recovery)

new-HasCounted :
    (b : Breaker) (k : String) (last : ℕ)
    → 1 ≤ b.failure_threshold
    → HasCounted b 0 last false (new_health k)
new-HasCounted b k last pos = (refl, refl, ground (arith, pos))

failed-HasCounted :
    (b : Breaker) (now : ℕ) (e : String) (n last : ℕ) (looked : Bool) (h : Health)
    → HasCounted b n last looked h
    → HasCounted b (n + 1) now false (failed_once b now e h)
failed-HasCounted b now e n last looked h c =
    (ground (arith, c.0), ground (arith, c.0), ground (arith, c.0))

probed-HasCounted :
    (b : Breaker) (now n last : ℕ) (looked : Bool) (h : Health)
    → 1 ≤ b.failure_threshold
    → HasCounted b n last looked h
    → HasCounted b n last (leb (last + b.recovery) now || looked) (probed now h)
probed-HasCounted b now n last looked h pos c = ground (arith, pos, c.0, c.1, c.2)

or_new-some : (k : String) (o : Option Health) (h : Health) → o ≡ some h → or_new k o ≡ h
or_new-some k o h p = ap (or_new k) p

set_here :
    (j k : String) (h : Health) (d : Dict Health)
    → (j =s k) ≡ true
    → health_of k (dict_set j h d) ≡ h
set_here j k h d same =
    subst (λ i. health_of i (dict_set j h d) ≡ h) ((eq_iff j k).0 same)
      (or_new-some j _ h (dict_get-dict_set j h d))

set_other :
    (j k : String) (h : Health) (d : Dict Health)
    → (j =s k) ≡ false
    → health_of k (dict_set j h d) ≡ health_of k d
set_other j k h d other = ap (or_new k) (dict_get-dict_set_other j k h d other)

-- What a write of one candidate's health leaves of another's, or of its own.
written :
    (P : Bool → Health → Type 0) (j k : String) (h : Health) (d : Dict Health)
    → ((j =s k) ≡ true → P true h)
    → P false (health_of k d)
    → P (j =s k) (health_of k (dict_set j h d))
written P j k h d new old = elim (Bool-cases (j =s k)) [
  | inl same ↦ rw same (subst (P true) (sym (set_here j k h d same)) (new same))
  | inr other ↦ rw other (subst (P false) (sym (set_other j k h d other)) old)
]

same_health : (j k : String) (d : Dict Health) → (j =s k) ≡ true → health_of k d ≡ health_of j d
same_health j k d same = ap (λ i. health_of i d) (sym ((eq_iff j k).0 same))

-- After any calls, of which the latest is the first of the list, the health of each candidate counts
-- its failures since its last success; it is healthy without one, degraded below the threshold,
-- unhealthy from the threshold on, and probing once its health was looked at when the recovery time
-- after the last failure was over, and not before.
pub health-HasCounted :
    (b : Breaker) (k : String) (cs : List HealthCall)
    → 1 ≤ b.failure_threshold
    → HasCounted b
        (failures k cs)
        (last_failure k cs)
        (was_probed b k cs)
        (health_of k (apply_calls b cs))
unfolding report_success report_failure get_health dict_get
health-HasCounted b k [] pos = new-HasCounted b k 0 pos
health-HasCounted b k (succeeded_call j ∷ cs) pos =
    let t = last_failure k cs in
    let p = was_probed b k cs in
    written
      (λ here h. HasCounted b (if here then 0 else failures k cs) t (if here then false else p) h) j
      k (new_health j) (apply_calls b cs) (λ same. new-HasCounted b j t pos)
      (health-HasCounted b k cs pos)
health-HasCounted b k (failed_call now j e ∷ cs) pos =
    let d = apply_calls b cs in
    let n = failures k cs in
    let t = last_failure k cs in
    let p = was_probed b k cs in
    let old = health-HasCounted b k cs pos in
    written
      (λ here h.
        HasCounted b (if here then n + 1 else n) (if here then now else t)
          (if here then false else p) h)
      j k (failed_once b now e (health_of j d)) d
      (λ same.
        failed-HasCounted b now e n t p (health_of j d)
          (subst (HasCounted b n t p) (same_health j k d same) old))
      old
health-HasCounted b k (looked_up now j ∷ cs) pos =
    let d = apply_calls b cs in
    let n = failures k cs in
    let t = last_failure k cs in
    let p = was_probed b k cs in
    let old = health-HasCounted b k cs pos in
    written (λ here h. HasCounted b n t (if here then leb (t + b.recovery) now || p else p) h) j k
      (probed now (health_of j d)) d
      (λ same.
        probed-HasCounted b now n t p (health_of j d) pos
          (subst (HasCounted b n t p) (same_health j k d same) old))
      old
