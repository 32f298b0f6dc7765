-- ===== src/Router/Adapter.antt =====
-- models/router.py: `RoutedModelAdapter`, the calls of the candidates in their order.
use Prim.Native.String.{◌++◌ as append}
use cogito_agent.Prelude.{
  ℕ, suc, String, Option, none, some, List, [], ◌∷◌, ◌++◌, length, ◌=s◌, or_else, if◌then◌else◌,
  Dict,
}
use cogito_agent.Gate.Judge.{Floats}
use cogito_agent.Router.{
  RouteErrorCode, Candidate, id_of, Health, Breaker, report_success, report_failure,
}
use cogito_agent.Router.Request.{Content, RouteArguments, request_for}
use cogito_agent.Router.Route.{Decision, route}

pub record Response : Type 0 where
  pub content : String
  pub model : String
  pub provider : String
  pub error : Option String

-- A call of an adapter returns or raises.
pub data Reply : Type 0 where
  answered : Response → Reply
  raised : String → Reply

-- What the caller gets: a response, or an exception.
pub data ChatResult : Type 0 where
  response : Response → ChatResult
  no_candidate : RouteErrorCode → ChatResult
  all_failed : List String → ChatResult

-- The error of an attempt: an exception, or a response that carries one.
abbrev pub reply_error : Reply → Option String
reply_error (raised e) = some e
reply_error (answered r) = elim r.error [ none ↦ none | some e ↦ if e =s "" then none else some e ]

module _ (F : Floats) where
  -- The telemetry of a route; the decision, which is that of the call, is left out.
  pub data RouteEvent : Type 0 where
    decision_made : RouteEvent
    attempt_failed : String → ℕ → ℕ → String → RouteEvent
    attempt_succeeded : String → ℕ → ℕ → RouteEvent

  -- The adapter, its router's table of health, and the events that were emitted.
  pub record AdapterState : Type 0 where
    pub health : Dict Health
    pub provider : String
    pub model : String
    pub events : List RouteEvent

  -- The surroundings of a call: the candidates, the clock, and what each candidate's adapter does in
  -- the attempt of a number.
  pub record RouterWorld : Type 0 where
    pub candidates : List (Candidate F)
    pub breaker : Breaker
    pub clock : ℕ → ℕ
    pub attempt_clock : ℕ → ℕ
    pub call : ℕ → Candidate F → Reply

  -- `_ordered_candidates`
  unfoldable pub ordered_candidates : Decision F → List (Candidate F)
  ordered_candidates d = elim d.selected [ none ↦ [] | some c ↦ c ∷ d.fallback_order ]

  abbrev pub emit : RouteEvent → AdapterState → AdapterState
  emit e s = record s { events = s.events ++ e ∷ [] }

  abbrev pub at_candidate : Candidate F → AdapterState → AdapterState
  at_candidate c s = record s { provider = c.provider; model = c.model }

  abbrev pub failure_text : Candidate F → String → String
  failure_text c e = append (id_of F c) (append ": " e)

  -- A failed attempt, with the candidates that are left.
  unfoldable pub note_failure :
      RouterWorld → ℕ → ℕ → Candidate F → String → AdapterState → AdapterState
  unfolding report_failure
  note_failure W index left c e s = emit (attempt_failed (id_of F c) index left e) (record s {
    health = report_failure W.breaker (W.attempt_clock index) (id_of F c) e s.health;
  })

  unfoldable pub note_success : ℕ → ℕ → Candidate F → AdapterState → AdapterState
  unfolding report_success
  note_success index left c s =
      emit (attempt_succeeded (id_of F c) index left)
        (record s { health = report_success (id_of F c) s.health })

  abbrev pub named : Candidate F → Reply → Response
  named c (raised e) = record {
    content = "";
    model = c.model;
    provider = c.provider;
    error = some e;
  }
  named c (answered r) = record r {
    provider = or_else r.provider c.provider;
    model = or_else r.model c.model;
  }

  -- The loop of `chat`, with the errors so far.
  unfoldable pub chat_loop :
      RouterWorld → ℕ → List (Candidate F) → List String → AdapterState → AdapterState × ChatResult
  unfolding note_failure note_success
  chat_loop W index [] errors s = (s, all_failed errors)
  chat_loop W index (c ∷ cs) errors s =
      let reply = W.call index c in
      let e = reply_error reply in
      let won : AdapterState × ChatResult =
        (note_success index (length cs) c (at_candidate c s), response (named c reply)) in
      let lost = λ (x : String).
        chat_loop W (suc index) cs (errors ++ failure_text c x ∷ [])
          (note_failure W index (length cs) c x (at_candidate c s)) in
      elim e [ none ↦ won | some x ↦ lost x ]

  abbrev pub code_of : Option RouteErrorCode → RouteErrorCode
  code_of none = RouteErrorCode.no_model_candidate
  code_of (some e) = e

  abbrev chat_from :
      RouterWorld → Decision F → List (Candidate F) → AdapterState → AdapterState × ChatResult
  chat_from W d [] s = (s, no_candidate (code_of d.error_code))
  chat_from W d (c ∷ cs) s = chat_loop W 1 (c ∷ cs) [] s

  -- `chat`
  unfoldable pub chat :
      RouterWorld → List Content → RouteArguments F → AdapterState → AdapterState × ChatResult
  unfolding request_for route ordered_candidates chat_loop
  chat W messages k s =
      let r = route F (request_for F messages k) W.clock W.candidates s.health in
      chat_from W r.1 (ordered_candidates r.1) (emit decision_made (record s { health = r.0 }))

-- What the caller of `stream_chat` gets after the chunks: nothing more, or an exception.
pub data StreamResult : Type 0 where
  finished : StreamResult
  failed_after_output : String → StreamResult
  no_stream_candidate : RouteErrorCode → StreamResult
  all_streams_failed : List String → StreamResult
