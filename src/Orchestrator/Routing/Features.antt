-- ===== src/Orchestrator/Routing/Features.antt =====
-- crates/tako-orchestrator/src/features.rs: the features of a request's last user message. `f32` is an
-- argument without laws; so is `to_lowercase`.
use Prim.Native.Char.{code}
use tako_ai_core.Common.{
  ℕ, ◌+◌, Bool, true, false, ◌==◌, ◌&&◌, ◌||◌, leb, ltb, if◌then◌else◌, String, Option, none, some,
  List, [], ◌∷◌, any, is_whitespace, contains_text,
}
use tako_ai_core.Core.Types.{Role, user, ContentPart, as_text, Message, ChatRequest}
use tako_ai_core.Orchestrator.AbMcts.Search.{join_lines}
use tako_ai_core.Orchestrator.Conductor.Plan.{byte_len}

pub record Float32 : Type 1 where
  pub F : Type 0
  pub of_nat : ℕ → F
  -- 0.5
  pub half : F
  pub add : F → F → F
  pub div : F → F → F
  pub log10 : F → F
  pub min : F → F → F
  pub gt : F → F → Bool

-- how many characters pass a test; the tests below pass one-byte characters only
unfoldable pub count_chars : (ℕ → Bool) → String → ℕ
count_chars p String.[] = 0
count_chars p (String.◌∷◌ c s) = (if p (code c) then 1 else 0) + count_chars p s

unfoldable pub any_char : (ℕ → Bool) → String → Bool
any_char p String.[] = false
any_char p (String.◌∷◌ c s) = p (code c) || any_char p s

-- `split_whitespace().count()`, and whether the text goes on with a word begun before
unfoldable pub count_words : Bool → String → ℕ
count_words in_word String.[] = 0
count_words in_word (String.◌∷◌ c s) =
    if is_whitespace (code c)
    then count_words false s
    else (if in_word then 0 else 1) + count_words true s

abbrev pub code_kw : List String
code_kw = "fn " ∷ "def " ∷ "class " ∷ "import " ∷ "function " ∷ "return " ∷ "let " ∷ "const " ∷ []

abbrev pub is_math_char : ℕ → Bool
is_math_char c =
    c == b'='
    || c == b'+'
    || c == b'*'
    || c == b'/'
    || c == b'^'
    || c == 0x222b
    || c == 0x2211
    || c == 0x221a

abbrev pub is_punctuation : ℕ → Bool
is_punctuation c = c == b'.' || c == b',' || c == b';' || c == b':' || c == b'!'

unfoldable pub has_code_block : String → Bool
has_code_block t = contains_text t "```" || any_char (λ c. c == b'`') t

unfoldable pub has_math_symbol : String → Bool
has_math_symbol t = any_char is_math_char t

unfoldable pub has_any : List String → String → Bool
has_any words lower = any (contains_text lower) words

unfoldable pub text_parts : List ContentPart → List String
text_parts [] = []
text_parts (p ∷ ps) = elim (as_text p) [ some t ↦ t ∷ text_parts ps | none ↦ text_parts ps ]

abbrev pub is_user : Role → Bool
is_user user = true
is_user _ = false

-- the loop over the messages from the last to the first, as the last of the rest or else this one
unfoldable pub last_user_text : List Message → Option String
last_user_text [] = none
last_user_text (m ∷ ms) = elim (last_user_text ms) [
  | some t ↦ some t
  | none ↦
      let t = join_lines (text_parts m.content) in
      if is_user m.role && ltb 0 (byte_len t) then some t else none
]

module _ (f : Float32) (lowercase : String → String) where
  abbrev pub flag : Bool → f.F
  flag b = if b then f.of_nat 1 else f.of_nat 0

  -- a number of bytes over the length of the text
  abbrev pub density : ℕ → ℕ → f.F
  density n len =
      if f.gt (f.of_nat len) (f.of_nat 0) then f.div (f.of_nat n) (f.of_nat len) else f.of_nat 0

  unfoldable pub featurise_text : String → List f.F
  featurise_text text =
      let lower = lowercase text in
      let len = byte_len text in
      let opens = count_chars (λ c. c == b'(') text in
      let closes = count_chars (λ c. c == b')') text in
      f.log10 (f.add (f.of_nat 1) (f.of_nat len))
      ∷ f.min (f.div (f.of_nat (count_words false text)) (f.of_nat 100)) (f.of_nat 1)
      ∷ flag (any_char (λ c. c == b'?') text)
      ∷ flag (has_code_block text)
      ∷ flag (has_any code_kw lower)
      ∷ flag (has_math_symbol text)
      ∷ density (count_chars (λ c. leb b'0' c && leb c b'9') text) len
      ∷ density (count_chars (λ c. leb b'A' c && leb c b'Z') text) len
      ∷ flag (contains_text lower "code")
      ∷ flag (has_any ("math" ∷ "solve" ∷ []) lower)
      ∷ flag (has_any ("explain" ∷ "describe" ∷ []) lower)
      ∷ flag (has_any ("verify" ∷ "check" ∷ "prove" ∷ []) lower)
      ∷ f.min (f.div (f.of_nat (count_chars (λ c. c == 10) text)) (f.of_nat 20)) (f.of_nat 1)
      ∷ density (count_chars is_punctuation text) len
      ∷ flag (ltb 0 opens && (opens == closes))
      ∷ f.of_nat 1
      ∷ []

  unfoldable pub featurise : {R : Type 0} → ChatRequest R → List f.F
  featurise req = featurise_text (elim (last_user_text req.messages) [ some t ↦ t | none ↦ "" ])
