-- ===== src/Router/Request.antt =====
-- models/router.py: `_request_for`, the request that a call of the adapter makes.
use cogito_agent.Prelude.{
  ℕ, ◌+◌, ◌/◌, max, String, Bool, true, false, Option, none, some, List, [], ◌∷◌, ◌++◌, any,
}
use cogito_agent.Gate.Judge.{Floats}
use cogito_agent.Router.{RouteRequest}

-- A part of a message's content; a text is its length.
pub data Part : Type 0 where
  image_part file_part other_part : Part
  text_part : ℕ → Part

pub data Content : Type 0 where
  text_content : ℕ → Content
  parts_content : List Part → Content
  other_content : Content

module _ (F : Floats) where
  open F use {decimal}

  -- The keyword arguments that choose a route.
  pub record RouteArguments : Type 0 where
    pub route_request : Option (RouteRequest F)
    pub role : String
    pub task_kind : String
    pub has_tools : Bool
    pub max_tokens : Option ℕ
    pub preferred_candidates : List String
    pub strict_preferred : Bool

  abbrev part_size : Part → ℕ
  part_size (text_part n) = n
  part_size _ = 0

  abbrev is_image : Part → Bool
  is_image image_part = true
  is_image _ = false

  abbrev is_file : Part → Bool
  is_file file_part = true
  is_file _ = false

  abbrev parts_size : List Part → ℕ
  parts_size [] = 0
  parts_size (p ∷ ps) = part_size p + parts_size ps

  abbrev content_size : Content → ℕ
  content_size (text_content n) = n
  content_size (parts_content ps) = parts_size ps
  content_size other_content = 0

  abbrev has_part : (Part → Bool) → Content → Bool
  has_part is (parts_content ps) = any is ps
  has_part is _ = false

  abbrev text_size : List Content → ℕ
  text_size [] = 0
  text_size (c ∷ cs) = content_size c + text_size cs

  abbrev when : Bool → String → List String
  when true s = s ∷ []
  when false s = []

  abbrev tokens_or : Option ℕ → ℕ
  tokens_or none = 4000
  tokens_or (some n) = n

  abbrev built_request : List Content → RouteArguments → RouteRequest F
  built_request messages k = record {
    required_capabilities =
        "chat" ∷ when (any (has_part is_image) messages) "vision" ++ when k.has_tools "tools";
    required_input_modalities =
        "text" ∷ when (any (has_part is_image) messages) "image"
        ++ when (any (has_part is_file) messages) "file";
    required_output_formats = [];
    role = k.role;
    task_kind = k.task_kind;
    estimated_input_tokens = max 1 (text_size messages / 4);
    max_output_tokens = tokens_or k.max_tokens;
    min_quality_score = decimal 0 0;
    max_latency_ms = none;
    max_cost_usd = none;
    preferred_provider = "";
    preferred_model = "";
    preferred_candidates = k.preferred_candidates;
    strict_preferred_candidates = k.strict_preferred;
    chat_fallback_role = true;
  }

  -- `_request_for`
  unfoldable pub request_for : List Content → RouteArguments → RouteRequest F
  request_for messages k = elim k.route_request [ none ↦ built_request messages k | some r ↦ r ]
