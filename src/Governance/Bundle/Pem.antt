-- ===== src/Governance/Bundle/Pem.antt =====
-- crates/tako-governance/src/sigstore.rs: splitting a text into the PEM blocks of its certificates.
use Prim.Native.Char.{Char, code}
use tako_ai_core.Common.{
  Bool, true, false, ◌==◌, ◌&&◌, if◌then◌else◌, String, Option, none, some, List, [], ◌∷◌,
  string_append, contains_text,
}
use tako_ai_core.Core.Error.{lit, invalid}
use tako_ai_core.Core.Effects.{Result, ok, err, Foreign, map_err, and_then}
use tako_ai_core.Governance.Chain.{Certificate, TrustRoot}

-- the character in front of the first of the lines
abbrev pub put_char : Char → List String → List String
put_char c [] = String.◌∷◌ c String.[] ∷ []
put_char c (l ∷ ls) = String.◌∷◌ c l ∷ ls

-- `lines()`: the end of a line is "\n" or "\r\n" and does not belong to it
unfoldable pub lines : String → List String
lines String.[] = []
lines (String.◌∷◌ c String.[]) =
    if code c == 10 then String.[] ∷ [] else String.◌∷◌ c String.[] ∷ []
lines (String.◌∷◌ c (String.◌∷◌ d s)) =
    let rest = lines (String.◌∷◌ d s) in
    if code c == 10
    then String.[] ∷ rest
    else if (code c == 13) && (code d == 10)
    then rest
    else put_char c rest

abbrev pub line_added : String → String → String
line_added buf line = string_append buf (string_append line "\n")

module _ (from_pem : String → Foreign Certificate) where
  -- the loop over the lines, with the block read so far and whether one is open
  unfoldable pub pem_blocks : String → Bool → List String → Result (List Certificate)
  unfolding contains_text
  pem_blocks buf in_block [] = ok []
  pem_blocks buf in_block (line ∷ rest) = elim (contains_text line "-----BEGIN CERTIFICATE-----") [
    | true ↦ pem_blocks (line_added "" line) true rest
    | false ↦ elim (contains_text line "-----END CERTIFICATE-----") [
      | true ↦
          and_then
            (map_err (λ e. invalid (lit "sigstore: chain cert parse: " ∷ e))
              (from_pem (line_added buf line)))
            λ cert. and_then (pem_blocks "" false rest) λ certs. ok (cert ∷ certs)
      | false ↦ pem_blocks (if in_block then line_added buf line else buf) in_block rest
    ]
  ]

  unfoldable pub parse_pem_chain : String → Result (List Certificate)
  unfolding lines pem_blocks
  parse_pem_chain pem = pem_blocks "" false (lines pem)

  -- `TrustRoot::from_pem`
  unfoldable pub trust_root_from_pem : String → Option String → Result TrustRoot
  unfolding parse_pem_chain
  trust_root_from_pem roots_pem intermediates_pem = and_then (parse_pem_chain roots_pem) λ roots.
      elim roots [
        | [] ↦ err (invalid (lit "sigstore: trust root has no root certificates" ∷ []))
        | r ∷ rs ↦ elim intermediates_pem [
          | none ↦ ok (record { roots = r ∷ rs; intermediates = [] })
          | some pem ↦
              and_then (parse_pem_chain pem)
                λ intermediates. ok (record { roots = r ∷ rs; intermediates = intermediates })
        ]
      ]
