-- ===== src/Orchestrator/Verifiers.antt =====
-- crates/tako-orchestrator/src/verifiers.rs: the two verifiers that score the rollouts of a tree search.
-- The regular expression and `str::parse` of a float are arguments.
use Prim.Native.Char.{code}
use tako_ai_core.Common.{
  ℕ, ◌+◌, ◌≡◌, inl, inr, Bool, true, false, Bool-cases, not, ◌&&◌, ◌==◌, leb, if◌then◌else◌, String,
  str_eq, string_append, Option, none, some, Option-cases, List, [], ◌∷◌,
}
use tako_ai_core.Core.Effects.{pure, ◌>>=◌}
use tako_ai_core.Core.Types.{
  user_message, new_request, ChatResponse, FinishReason, stop, length, tool_calls,
}
use tako_ai_core.Core.Traits.{LlmProvider, Verifier}
use tako_ai_core.Orchestrator.Single.{model_of, all_text}
use tako_ai_core.Orchestrator.Conductor.Plan.{byte_len}
use tako_ai_core.Orchestrator.Routing.Features.{Float32}

pub record RuleBasedVerifier : Type 0 where
  pub min_chars : ℕ
  pub pattern : Option (String → Bool)

abbrev pub new_rules : ℕ → RuleBasedVerifier
new_rules min_chars = record { min_chars = min_chars; pattern = none }

abbrev pub with_pattern : RuleBasedVerifier → (String → Bool) → RuleBasedVerifier
with_pattern v is_match = record v { pattern = some is_match }

abbrev pub one_if : Bool → ℕ
one_if b = if b then 1 else 0

-- the texts between the characters that pass the test
unfoldable pub split_at : (ℕ → Bool) → String → List String
split_at p String.[] = String.[] ∷ []
split_at p (String.◌∷◌ c s) = elim (split_at p s) [
  | [] ↦ []
  | l ∷ ls ↦ if p (code c) then String.[] ∷ l ∷ ls else String.◌∷◌ c l ∷ ls
]

-- what a number is not made of
abbrev pub is_separator : ℕ → Bool
is_separator c = not (leb b'0' c && leb c b'9') && not (c == b'.') && not (c == b'-')

abbrev pub judge_prompt : String → String → String → String
judge_prompt rubric prompt output = string_append rubric (
    string_append "\n\nThe original task was:\n---\n" (
      string_append prompt (
        string_append "\n---\n\nThe candidate answer is:\n---\n" (
          string_append output
            "\n---\n\nReply with ONLY a decimal between 0 and 1 representing your assessment of the answer's quality. No other text."))))

-- the reasons after which a judge's answer is read
unfoldable pub is_answer : FinishReason → Bool
is_answer stop = true
is_answer length = true
is_answer tool_calls = true
is_answer _ = false

module _ (f : Float32) where
  unfoldable pub score_text : RuleBasedVerifier → String → f.F
  score_text v output =
      let long = one_if (leb v.min_chars (byte_len output)) in
      elim v.pattern [
        | none ↦ f.div (f.of_nat long) (f.of_nat 1)
        | some is_match ↦ f.div (f.of_nat (long + one_if (is_match output))) (f.of_nat 2)
      ]

  unfoldable pub rule_based : {W : Type 0} → RuleBasedVerifier → Verifier W f.F
  rule_based v = record {
    score = λ _ _ output. pure (score_text v output);
    evaluate_streaming = λ _ partial. pure (some (score_text v partial));
  }

  -- `clamp(0.0, 1.0)`
  unfoldable pub clamp : f.F → f.F
  clamp x =
      if f.gt (f.of_nat 0) x then f.of_nat 0 else if f.gt x (f.of_nat 1) then f.of_nat 1 else x

  module _ (parse_f32 : String → Option f.F) where
    -- the first non-empty text that is a number
    unfoldable pub first_number : List String → Option f.F
    first_number [] = none
    first_number (s ∷ rest) =
        let later = first_number rest in
        if str_eq s "" then later else elim (parse_f32 s) [ some x ↦ some x | none ↦ later ]

    unfoldable pub parse_score : String → Option f.F
    parse_score text = elim (first_number (split_at is_separator text)) [
      | some x ↦ some (clamp x)
      | none ↦ none
    ]

    unfoldable pub read_score : ChatResponse → f.F
    read_score resp =
        if is_answer resp.finish_reason
        then elim (parse_score (all_text resp.message.content)) [ some x ↦ x | none ↦ f.half ]
        else f.half

    -- `LlmJudgeVerifier`, whose fields are the judge and the rubric
    unfoldable pub llm_judge :
        {W Stream : Type 0} → LlmProvider W f.F Stream → String → Verifier W f.F
    llm_judge judge rubric = record {
      score = λ principal prompt output.
          judge.chat principal (
            new_request (model_of judge.id) (user_message (judge_prompt rubric prompt output) ∷ []))
          >>= λ resp. pure (read_score resp);
      evaluate_streaming = λ _ _. pure none;
    }

  module _ (one_nought : f.gt (f.of_nat 0) (f.of_nat 1) ≡ false)
      (nought : f.gt (f.of_nat 0) (f.of_nat 0) ≡ false)
      (one : f.gt (f.of_nat 1) (f.of_nat 1) ≡ false) (half_low : f.gt (f.of_nat 0) f.half ≡ false)
      (half_high : f.gt f.half (f.of_nat 1) ≡ false) where
    abbrev pub InRange : f.F → Type 0
    InRange x = (f.gt (f.of_nat 0) x ≡ false) × (f.gt x (f.of_nat 1) ≡ false)

    clamp-InRange : (x : f.F) → InRange (clamp x)
    unfolding clamp
    clamp-InRange x = elim (Bool-cases (f.gt (f.of_nat 0) x)) [
      | inl low ↦ rw (clamp, low) (nought, one_nought)
      | inr not_low ↦ elim (Bool-cases (f.gt x (f.of_nat 1))) [
        | inl high ↦ rw (clamp, not_low, high) (one_nought, one)
        | inr not_high ↦ rw (clamp, not_low, not_high) (not_low, not_high)
      ]
    ]

    -- A judge's score is never below 0 or above 1, whatever the judge answers.
    pub read_score-InRange :
        (parse_f32 : String → Option f.F) (resp : ChatResponse)
        → InRange (read_score parse_f32 resp)
    unfolding read_score parse_score
    read_score-InRange parse_f32 resp = elim (Bool-cases (is_answer resp.finish_reason)) [
      | inr cut_off ↦ rw (read_score, cut_off) (half_low, half_high)
      | inl whole ↦
          elim (Option-cases
            (first_number parse_f32 (split_at is_separator (all_text resp.message.content)))) [
              | inl nothing ↦ rw (read_score, whole, parse_score, nothing) (half_low, half_high)
              | inr (x, found) ↦ rw (read_score, whole, parse_score, found) (clamp-InRange x)
            ]
    ]
