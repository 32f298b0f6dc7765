-- ===== src/Router/Stream.antt =====
-- models/router.py: `stream_chat`, which falls back only before the first chunk.
use cogito_agent.Prelude.{
  ℕ, suc, String, Bool, Option, none, some, List, [], ◌∷◌, ◌++◌, length, ◌=s◌, if◌then◌else◌,
}
use cogito_agent.Gate.Judge.{Floats}
use cogito_agent.Router.{Candidate, id_of}
use cogito_agent.Router.Request.{Content, RouteArguments, request_for}
use cogito_agent.Router.Route.{Decision, route}
use cogito_agent.Router.Adapter.{
  RouterWorld, AdapterState, Reply, answered, raised, reply_error, ordered_candidates, note_failure,
  note_success, at_candidate, emit, decision_made, failure_text, code_of, StreamResult, finished,
  failed_after_output, no_stream_candidate, all_streams_failed,
}

-- The chunks of an attempt, and its error.
abbrev pub Attempt : Type 0
Attempt = List String × Option String

abbrev content_chunk : String → List String
content_chunk s = if s =s "" then [] else s ∷ []

abbrev chunks_of : Reply → List String
chunks_of (raised e) = []
chunks_of (answered r) = content_chunk r.content

-- An adapter that does not stream: the content of its response is the one chunk.
abbrev pub whole_answer : Reply → Attempt
whole_answer reply = elim (reply_error reply) [
  | none ↦ (chunks_of reply, none)
  | some e ↦ ([], some e)
]

module _ (F : Floats) where
  -- What the adapters do besides `chat`: whether they stream, and the chunks and the error of a stream.
  pub record Streams : Type 0 where
    pub supports_streaming : Candidate F → Bool
    pub stream_chat : ℕ → Candidate F → Attempt

  unfoldable pub attempt : RouterWorld F → Streams → ℕ → Candidate F → Attempt
  attempt W T index c =
      if T.supports_streaming c then T.stream_chat index c else whole_answer (W.call index c)

  -- The state, the chunks that were yielded, and how the stream ended.
  abbrev pub Streamed : Type 0
  Streamed = AdapterState F × List String × StreamResult

  -- One attempt, with what follows where it fails before its first chunk.
  abbrev pub stream_one :
      RouterWorld F
      → ℕ
      → ℕ
      → Candidate F
      → AdapterState F
      → (String → Streamed)
      → Attempt
      → Streamed
  stream_one W index left c s rest (chunks, none) =
      (note_success F index left c s, chunks, finished)
  stream_one W index left c s rest ([], some e) = rest e
  stream_one W index left c s rest (chunk ∷ more, some e) =
      (note_failure F W index 0 c e s, chunk ∷ more, failed_after_output (id_of F c))

  -- The loop of `stream_chat`.
  unfoldable pub stream_loop :
      RouterWorld F → Streams → ℕ → List (Candidate F) → List String → AdapterState F → Streamed
  unfolding attempt note_failure note_success
  stream_loop W T index [] errors s = (s, [], all_streams_failed errors)
  stream_loop W T index (c ∷ cs) errors s =
      stream_one W index (length cs) c (at_candidate F c s)
        (λ e.
          stream_loop W T (suc index) cs (errors ++ failure_text F c e ∷ [])
            (note_failure F W index (length cs) c e (at_candidate F c s)))
        (attempt W T index c)

  abbrev stream_from :
      RouterWorld F → Streams → Decision F → List (Candidate F) → AdapterState F → Streamed
  stream_from W T d [] s = (s, [], no_stream_candidate (code_of F d.error_code))
  stream_from W T d (c ∷ cs) s = stream_loop W T 1 (c ∷ cs) [] s

  -- `stream_chat`
  unfoldable pub stream_chat :
      RouterWorld F → Streams → List Content → RouteArguments F → AdapterState F → Streamed
  unfolding request_for route ordered_candidates stream_loop
  stream_chat W T messages k s =
      let r = route F (request_for F messages k) W.clock W.candidates s.health in
      stream_from W T r.1 (ordered_candidates F r.1)
        (emit F decision_made (record s { health = r.0 }))
