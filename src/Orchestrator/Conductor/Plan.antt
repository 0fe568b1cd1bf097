-- ===== src/Orchestrator/Conductor/Plan.antt =====
-- crates/tako-orchestrator/src/conductor.rs: what the coordinator reads and writes. serde_json's
-- parser and `{:?}` of a text are arguments; a slice inside a character, where Rust panics, gives `none`.
use Prim.Native.Char.{code}
use tako_ai_core.Common.{
  ℕ, zero, suc, ◌+◌, ◌-◌, Bool, true, false, ◌==◌, ◌&&◌, ltb, leb, if◌then◌else◌, String, Option,
  none, some, List, [], ◌∷◌, Dict, trim, string_append,
}
use tako_ai_core.Core.Traits.{LlmProvider}
use tako_ai_core.Mcp.Registry.{str_le}
use tako_ai_core.Orchestrator.AbMcts.Search.{join_lines}
use tako_ai_core.Orchestrator.Conductor.Workers.{
  WorkerDispatch, WorkerOutcome, succeeded, failed, WorkerResult,
}

pub record DispatchPlan : Type 0 where
  pub thought : Option String
  pub dispatch : List WorkerDispatch
  pub halt : Bool
  pub final_answer : Option String

-- `Result<DispatchPlan, String>`
pub data Parsed : Type 0 where
  parsed : DispatchPlan → Parsed
  rejected : String → Parsed

pub record Formats : Type 0 where
  pub from_str : String → Parsed
  pub debug : String → String

-- `strip_prefix`
unfoldable pub strip_prefix : String → String → Option String
strip_prefix String.[] s = some s
strip_prefix (String.◌∷◌ c p) String.[] = none
strip_prefix (String.◌∷◌ c p) (String.◌∷◌ d s) = if code c == code d then strip_prefix p s else none

-- whether a text is a number of fences, of three backticks each
unfoldable pub fences : String → Bool
fences String.[] = true
fences (String.◌∷◌ c (String.◌∷◌ d (String.◌∷◌ e s))) =
    code c == b'`' && code d == b'`' && code e == b'`' && fences s
fences _ = false

-- `trim_end_matches("```")`
unfoldable pub trim_end_fences : String → String
unfolding fences
trim_end_fences String.[] = String.[]
trim_end_fences (String.◌∷◌ c s) =
    if fences (String.◌∷◌ c s) then String.[] else String.◌∷◌ c (trim_end_fences s)

-- the JSON inside the outermost pair of fences
unfoldable pub unfenced : String → String
unfolding strip_prefix trim_end_fences
unfenced raw = elim (strip_prefix "```json" (trim raw)) [
  | some rest ↦ trim (trim_end_fences rest)
  | none ↦ elim (strip_prefix "```" (trim raw)) [
    | some rest ↦ trim (trim_end_fences rest)
    | none ↦ trim raw
  ]
]

unfoldable pub parse_dispatch_plan : Formats → String → Parsed
unfolding unfenced
parse_dispatch_plan formats raw = formats.from_str (unfenced raw)

-- the bytes of a character in UTF-8, and of a text
abbrev pub utf8_len : ℕ → ℕ
utf8_len c = if ltb c 0x80 then 1 else if ltb c 0x800 then 2 else if ltb c 0x10000 then 3 else 4

unfoldable pub byte_len : String → ℕ
byte_len String.[] = 0
byte_len (String.◌∷◌ c s) = utf8_len (code c) + byte_len s

-- `&s[..n]`
unfoldable pub cut : String → ℕ → Option String
cut s zero = some String.[]
cut String.[] (suc n) = none
cut (String.◌∷◌ c s) (suc n) = elim (cut s (suc n - utf8_len (code c))) [
  | none ↦ none
  | some p ↦ if leb (utf8_len (code c)) (suc n) then some (String.◌∷◌ c p) else none
]

unfoldable pub short : String → Option String
unfolding byte_len cut
short s =
    if leb (byte_len (trim s)) 60
    then some (trim s)
    else elim (cut (trim s) 57) [ none ↦ none | some p ↦ some (string_append p "...") ]

abbrev pub said : WorkerOutcome → String
said (succeeded text) = text
said (failed error) = string_append "ERROR: " error

-- the lines of the summary
unfoldable pub result_lines : Formats → List WorkerResult → Option String
unfolding short
result_lines formats [] = some ""
result_lines formats (r ∷ rs) = elim (short r.task) [
  | none ↦ none
  | some task ↦ elim (result_lines formats rs) [
    | none ↦ none
    | some rest ↦ some (
        string_append "- " (
          string_append r.name (
            string_append " (task: " (
              string_append (formats.debug task)
                (string_append "): " (string_append (said r.outcome) (string_append "\n" rest)))))))
  ]
]

unfoldable pub render_worker_results : Formats → List WorkerResult → Option String
unfolding result_lines
render_worker_results formats results = elim (result_lines formats results) [
  | none ↦ none
  | some lines ↦ some (string_append "Worker results:\n" lines)
]

-- `roles.sort()`
unfoldable pub place_line : String → List String → List String
place_line s [] = s ∷ []
place_line s (t ∷ ts) = let later = place_line s ts in if str_le s t then s ∷ t ∷ ts else t ∷ later

unfoldable pub role_lines : {W R Stream : Type 0} → Dict (LlmProvider W R Stream) → List String
unfolding place_line
role_lines [] = []
role_lines (worker ∷ rest) =
    place_line
      (string_append "  - `"
        (string_append worker.0 (string_append "` (provider: `" (string_append worker.1.id "`)"))))
      (role_lines rest)

abbrev pub or_no_roles : List String → String
or_no_roles [] = "  (no workers registered)"
or_no_roles (r ∷ rs) = join_lines (r ∷ rs)

unfoldable pub system_prompt : {W R Stream : Type 0} → Dict (LlmProvider W R Stream) → String
unfolding role_lines
system_prompt workers =
    string_append
      "You are the COORDINATOR in a multi-agent system. At each turn you MUST emit a single JSON object (no prose, no markdown) matching this schema:\n\n{\n  \"thought\": \"<internal monologue>\",\n  \"dispatch\": [\n    {\"worker\": \"<role>\", \"task\": \"<task>\"}, ...\n  ],\n  \"halt\": <bool>,\n  \"final_answer\": \"<answer when halt is true>\"\n}\n\nAvailable worker roles:\n"
      (string_append (or_no_roles (role_lines workers))
        "\n\nSet `halt: true` and provide `final_answer` only when the user's request is fully addressed. Otherwise dispatch one or more workers in parallel; their results will come back as a single user-role message before your next turn.")
