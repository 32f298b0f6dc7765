-- ===== src/Injection.antt =====
-- retrieval/injection.py: the memories that are put into a prompt. Scores are floats, a type with its
-- operations as an argument; the clipping of a text and the print of a time are arguments too.
pub mod Build
pub mod Quotas
use Prim.Native.String.{◌++◌ as append, count}
use cogito_agent.Prelude.{
  ℕ, ◌+◌, ◌-◌, String, Bool, true, false, not, ◌&&◌, ◌||◌, List, [], ◌∷◌, ◌++◌, ◌=s◌, ltb, leb,
  or_else, if◌then◌else◌, Option, none, some,
}

pub record Scores (F : Type 0) : Type 0 where
  pub zero_score : F
  pub add : F → F → F
  pub less : F → F → Bool

-- A retrieved item; `final_score` is none where it is missing or zero.
pub record Retrieved (F : Type 0) : Type 0 where
  pub id : String
  pub memory_id : String
  pub mem_type : String
  pub text : String
  pub summary : String
  pub final_score : Option F
  pub rrf_score : F
  pub has_tool_requirement : Bool
  pub happened_at : String
  pub created_at : String

pub record InjectionBuilder (F : Type 0) : Type 0 where
  pub scores : Scores F
  pub max_chars : ℕ
  pub max_forced : ℕ
  pub max_procedure_preference : ℕ
  pub max_event_profile : ℕ
  pub line_max : ℕ
  pub high_inject_delta : F
  pub clip : ℕ → String → String
  pub strip : String → String
  pub show_time : String → String

-- The thresholds of the four types, and the one of all others.
pub record Thresholds (F : Type 0) : Type 0 where
  pub procedure : F
  pub preference : F
  pub event : F
  pub profile : F
  pub default_threshold : F

-- The lines of a section, each with the identifier of its memory, and their number.
pub record Section : Type 0 where
  pub entries : List (String × String)
  pub size : ℕ

pub record Picked : Type 0 where
  pub forced : Section
  pub norms : Section
  pub events : Section

module _ {F : Type 0} (B : InjectionBuilder F) (T : Thresholds F) where
  abbrev pub score_of : Retrieved F → F
  score_of i = elim i.final_score [ none ↦ B.scores.zero_score | some x ↦ x ]

  abbrev pub sort_key : Retrieved F → F
  sort_key i = elim i.final_score [ none ↦ i.rrf_score | some x ↦ x ]

  -- `sorted(…, reverse=True)`, which keeps the order of equal keys.
  abbrev pub ranks_before : Retrieved F → Retrieved F → Bool
  ranks_before a b = not (B.scores.less (sort_key a) (sort_key b))

  abbrev pub threshold_of : F → String → F
  threshold_of other t =
      if t =s "procedure"
      then T.procedure
      else if t =s "preference"
      then T.preference
      else if t =s "event"
      then T.event
      else if t =s "profile"
      then T.profile
      else other

  abbrev pub confidence : Retrieved F → String
  confidence i =
      let base = threshold_of B.scores.zero_score i.mem_type in
      if B.scores.less B.scores.zero_score base
        && B.scores.less (score_of i) (B.scores.add base B.high_inject_delta)
      then " [有印象，不确定]"
      else ""

  abbrev pub time_label : Retrieved F → String
  time_label i =
      let at = or_else i.happened_at i.created_at in
      let shown = if at =s "" then "" else B.show_time at in
      if shown =s "" then "" else append " (" (append shown ")")

  abbrev pub text_of : Retrieved F → String
  text_of i = B.strip (or_else i.text i.summary)

  -- `_format_line`
  unfoldable pub format_line : Retrieved F → String
  format_line i =
      let text = text_of i in
      let short =
        if ltb B.line_max (count text) then append (B.clip (B.line_max - 3) text) "..." else text in
      append short (append (confidence i) (time_label i))

  abbrev pub id_of : Retrieved F → String
  id_of i = or_else i.id i.memory_id

  abbrev pub enter : Retrieved F → Section → Section
  enter i s = record { entries = s.entries ++ (id_of i, format_line i) ∷ []; size = s.size + 1 }

  abbrev pub is_norm : String → Bool
  is_norm t = t =s "procedure" || t =s "preference"

  abbrev pub is_event : String → Bool
  is_event t = t =s "event" || t =s "profile"

  abbrev pub is_forced : Retrieved F → Bool
  is_forced i = (i.mem_type =s "procedure") && i.has_tool_requirement

  abbrev pub is_too_low : Retrieved F → Bool
  is_too_low i = B.scores.less (score_of i) (threshold_of T.default_threshold i.mem_type)

  -- The body of the loop of `build`.
  unfoldable pub pick_one : Retrieved F → Picked → Picked
  unfolding format_line
  pick_one i p =
      if id_of i =s "" || text_of i =s ""
      then p
      else if is_forced i
      then (if leb B.max_forced p.forced.size then p else record p { forced = enter i p.forced })
      else if is_too_low i
      then p
      else if is_norm i.mem_type
      then (if leb B.max_procedure_preference p.norms.size
          then p
          else record p { norms = enter i p.norms })
      else if is_event i.mem_type
      then (if leb B.max_event_profile p.events.size
          then p
          else record p { events = enter i p.events })
      else p

  unfoldable pub pick_all : List (Retrieved F) → Picked → Picked
  unfolding pick_one
  pick_all [] p = p
  pick_all (i ∷ is) p = pick_all is (pick_one i p)
