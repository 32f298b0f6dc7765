-- ===== src/Gate/Judge.antt =====
-- autonomy/gate.py: the judge: the light model's three dimensions and the weighted score. The
-- program computes with floats; they are a type with its operations, an argument of the section.
use cogito_agent.Prelude.{
  ℕ, ◌-◌, Bool, false, Option, none, some, List, [], ◌∷◌, max, min, ltb, if◌then◌else◌, ◌||◌,
}

pub record Floats : Type 1 where
  pub Float : Type 0
  -- `decimal m k` is m / 10 ^ k.
  pub decimal : ℕ → ℕ → Float
  pub add : Float → Float → Float
  pub sub : Float → Float → Float
  pub mul : Float → Float → Float
  pub div : Float → Float → Float
  pub max_of : Float → Float → Float
  pub min_of : Float → Float → Float
  pub lt : Float → Float → Bool
  pub is_zero : Float → Bool

-- The model's answer, once parsed into three numbers; a negative one reads as 0.
pub record Dimensions : Type 0 where
  pub information_gap : ℕ
  pub relevance : ℕ
  pub expected_impact : ℕ

abbrev clamp : ℕ → ℕ
clamp n = max 1 (min 5 n)

-- `_judge_llm_dims`: none where there is no model or anything raises.
unfoldable pub judge_llm_dims : Option (Option Dimensions) → Option Dimensions
judge_llm_dims none = none
judge_llm_dims (some none) = none
judge_llm_dims (some (some d)) = some (record {
  information_gap = clamp d.information_gap;
  relevance = clamp d.relevance;
  expected_impact = clamp d.expected_impact;
})

module _ (F : Floats) where
  open F use {Float, decimal, add, sub, mul, div, max_of, min_of, lt, is_zero}

  -- The judge's part of the configuration, with the defaults put in.
  pub record JudgeConfig : Type 0 where
    pub daily_max : ℕ
    pub urgency_horizon_hours : Float
    pub veto_balance_min : Float
    pub veto_llm_dim_min : ℕ
    pub weight_urgency : Float
    pub weight_balance : Float
    pub weight_dynamics : Float
    pub weight_information_gap : Float
    pub weight_relevance : Float
    pub weight_expected_impact : Float
    pub send_threshold : Float

  abbrev pub default_judge : JudgeConfig
  default_judge = record {
    daily_max = 8;
    urgency_horizon_hours = decimal 12 0;
    veto_balance_min = decimal 1 1;
    veto_llm_dim_min = 2;
    weight_urgency = decimal 15 2;
    weight_balance = decimal 10 2;
    weight_dynamics = decimal 10 2;
    weight_information_gap = decimal 25 2;
    weight_relevance = decimal 20 2;
    weight_expected_impact = decimal 20 2;
    send_threshold = decimal 60 2;
  }

  abbrev zero_float : Float
  zero_float = decimal 0 0

  abbrev one_float : Float
  one_float = decimal 1 0

  unfoldable pub urgency : JudgeConfig → Float → Float
  urgency c age =
      max_of zero_float
        (sub one_float (div (max_of age zero_float) (max_of one_float c.urgency_horizon_hours)))

  unfoldable pub balance : JudgeConfig → ℕ → Float
  balance c sent =
      max_of zero_float (sub one_float (div (decimal sent 0) (decimal (max 1 c.daily_max) 0)))

  unfoldable pub dynamics : Float → Float
  dynamics interrupt =
      add (decimal 6 1) (mul (decimal 4 1) (max_of zero_float (min_of one_float interrupt)))

  -- `sum` over the entries of `dims`, each with its weight, from the left.
  unfoldable pub weighted : Float → List (Float × Float) → Float
  weighted acc [] = acc
  weighted acc ((w, d) ∷ rest) = weighted (add acc (mul w d)) rest

  unfoldable pub weight_sum : Float → List (Float × Float) → Float
  weight_sum acc [] = acc
  weight_sum acc ((w, d) ∷ rest) = weight_sum (add acc w) rest

  abbrev normalised : ℕ → Float
  normalised raw = div (decimal (raw - 1) 0) (decimal 4 0)

  abbrev llm_entries : JudgeConfig → Option Dimensions → List (Float × Float)
  llm_entries c none = []
  llm_entries c (some d) =
      (c.weight_information_gap, normalised d.information_gap)
      ∷ (c.weight_relevance, normalised d.relevance)
      ∷ (c.weight_expected_impact, normalised d.expected_impact)
      ∷ []

  -- A dimension below the minimum.
  abbrev pub has_low_dim : JudgeConfig → Dimensions → Bool
  has_low_dim c d =
      ltb d.information_gap c.veto_llm_dim_min
      || (ltb d.relevance c.veto_llm_dim_min || ltb d.expected_impact c.veto_llm_dim_min)

  abbrev pub low_dims : JudgeConfig → Option Dimensions → Bool
  low_dims c none = false
  low_dims c (some d) = has_low_dim c d

  abbrev not_positive : Float → Bool
  not_positive x = lt x zero_float || is_zero x

  -- `_compute_judge_final_score`: the score; the vetoes give 0.
  unfoldable pub judge_final_score : JudgeConfig → Float → ℕ → Float → Option Dimensions → Float
  unfolding urgency balance dynamics weighted weight_sum
  judge_final_score c age sent interrupt dims =
      let entries =
        (c.weight_urgency, urgency c age)
        ∷ (c.weight_balance, balance c sent)
        ∷ (c.weight_dynamics, dynamics interrupt)
        ∷ llm_entries c dims in
      if lt (balance c sent) c.veto_balance_min || low_dims c dims
      then zero_float
      else if not_positive (weight_sum zero_float entries)
      then zero_float
      else div (weighted zero_float entries) (weight_sum zero_float entries)
