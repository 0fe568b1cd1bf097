-- ===== src/Prefetch/Fetch.antt =====
-- `UrlPrefetchConfig`: one fetch with its checks, and the rewriting of a request. The model takes
-- the vendor's name, which stands in the messages, as an argument.
pub mod Checks
pub mod Rewrite
pub mod Examples
use tako_ai_core.Common.{
  ℕ, String, Option, none, some, List, [], ◌∷◌, ◌++◌, Bool, true, false, not, ◌&&◌, ◌||◌, leb, ltb,
  ◌==◌, str_eq, if◌then◌else◌, length, trim, before_char, trim_start_matches, trim_end_matches,
}
use tako_ai_core.Core.Error.{TakoError, Text, Fragment, lit, num, invalid, transport}
use tako_ai_core.Core.Effects.{
  Io, Outcome, returns, raises, Result, ok, err, Foreign, ForeignOutcome, comes, breaks_off,
  map_err, map_err_io, lift, pure, fail, ◌>>=◌, ◌>>◌,
}
use tako_ai_core.Core.Types.{
  ContentPart, text, image, image_url, tool_call, tool_result, Message, ChatRequest,
}
use tako_ai_core.Prefetch.Addr.{IpAddr, is_blocked_ip}
use tako_ai_core.Prefetch.AllowList.{IpNets, AllowList, contains, contains_ip}

-- the parts of a parsed URL that are read
pub record Url : Type 0 where
  pub scheme : String
  pub host_str : Option String

-- `content_type` is `none` where the header is missing or is no text.
pub record Response (W : Type 0) : Type 0 where
  pub status : ℕ
  pub content_length : Option ℕ
  pub content_type : Option String
  pub body_text : W → ForeignOutcome W Text
  pub bytes : W → ForeignOutcome W (List ℕ)

-- `reqwest`, the address parser and printer, and the base64 encoder
pub record Web (W : Type 0) : Type 0 where
  pub parse_url : String → Foreign Url
  pub parse_ip : String → Option IpAddr
  pub show_ip : IpAddr → String
  pub get : String → W → ForeignOutcome W (Response W)
  pub base64 : List ℕ → String

pub record UrlPrefetchConfig (Net : Type 0) : Type 0 where
  pub allow_http : Bool
  pub max_bytes : ℕ
  pub block_private_ips : Bool
  pub allow_hosts : AllowList Net

unfoldable pub is_supported_mime : String → Bool
is_supported_mime mime =
    str_eq mime "image/jpeg"
    || str_eq mime "image/png"
    || str_eq mime "image/gif"
    || str_eq mime "image/webp"

-- `StatusCode::is_success`
abbrev pub is_success : ℕ → Bool
is_success status = leb 200 status && ltb status 300

-- `host_str` without the brackets of an IPv6 literal
abbrev pub unbracket : String → String
unbracket host = trim_end_matches (λ c. c == b']') (trim_start_matches (λ c. c == b'[') host)

abbrev or_empty : Option String → String
or_empty none = ""
or_empty (some s) = s

-- the header's value up to the first semicolon
unfoldable pub media_type : Option String → String
media_type header = trim (before_char b';' (or_empty header))

module _ {Net : Type 0} (vendor : String) (cfg : UrlPrefetchConfig Net) where
  unfoldable pub check_scheme : String → Result (Unit {0})
  check_scheme scheme =
      if str_eq scheme "https" || cfg.allow_http && str_eq scheme "http"
      then ok tt
      else err (
          invalid (
            lit vendor
            ∷ lit ": prefetch URL scheme `"
            ∷ lit scheme
            ∷ lit
                "` rejected (only `https://` allowed; use `with_url_prefetch_allow_http` to allow `http://`)"
            ∷ []))

  -- the test of one address written in the URL
  unfoldable pub check_ip :
      IpNets Net → (IpAddr → String) → String → String → IpAddr → Result (Unit {0})
  check_ip nets show_ip url host ip =
      if not (contains cfg.allow_hosts host || contains_ip nets cfg.allow_hosts ip)
        && is_blocked_ip ip
      then err (
          invalid (
            lit vendor
            ∷ lit ": prefetch URL `"
            ∷ lit url
            ∷ lit "` resolves to blocked IP `"
            ∷ lit (show_ip ip)
            ∷ lit
                "` (use `with_url_prefetch_allow_private_ips` to opt out, `with_url_prefetch_allow_host` to permit this host, or `with_url_prefetch_allow_cidr` to permit this subnet)"
            ∷ []))
      else ok tt

  unfoldable pub check_literal :
      IpNets Net
      → (String → Option IpAddr)
      → (IpAddr → String)
      → String
      → Option String
      → Result (Unit {0})
  check_literal nets parse_ip show_ip url none = ok tt
  check_literal nets parse_ip show_ip url (some host) =
      if cfg.block_private_ips
      then elim (parse_ip (unbracket host)) [
        | some ip ↦ check_ip nets show_ip url host ip
        | none ↦ ok tt
      ]
      else ok tt

  unfoldable pub check_length : Option ℕ → Result (Unit {0})
  check_length none = ok tt
  check_length (some len) =
      if ltb cfg.max_bytes len
      then err (
          invalid (
            lit vendor
            ∷ lit ": prefetch response Content-Length "
            ∷ num len
            ∷ lit " exceeds max "
            ∷ num cfg.max_bytes
            ∷ []))
      else ok tt

  unfoldable pub check_mime : String → Result (Unit {0})
  check_mime content_type =
      if is_supported_mime content_type
      then ok tt
      else err (
          invalid (
            lit vendor
            ∷ lit ": prefetch Content-Type `"
            ∷ lit content_type
            ∷ lit "` not supported (need one of image/jpeg, image/png, image/gif, image/webp)"
            ∷ []))

  unfoldable pub check_size : List ℕ → Result (Unit {0})
  check_size bytes =
      if ltb cfg.max_bytes (length bytes)
      then err (
          invalid (
            lit vendor
            ∷ lit ": prefetch response body "
            ∷ num (length bytes)
            ∷ lit " bytes exceeds max "
            ∷ num cfg.max_bytes
            ∷ []))
      else ok tt

module _ {W Net : Type 0} (web : Web W) (nets : IpNets Net) (vendor : String) where
  -- an unsuccessful status is an error with the body in it; a body that cannot be read is empty
  unfoldable pub check_status : String → Response W → Io W (Unit {0})
  check_status url resp w =
      if is_success resp.status then returns tt w else elim (resp.body_text w) [
        | comes body w' ↦
            raises
              (invalid (
                lit vendor
                ∷ lit ": prefetch GET "
                ∷ lit url
                ∷ lit " returned "
                ∷ num resp.status
                ∷ lit ": "
                ∷ body))
              w'
        | breaks_off _ w' ↦
            raises
              (invalid (
                lit vendor
                ∷ lit ": prefetch GET "
                ∷ lit url
                ∷ lit " returned "
                ∷ num resp.status
                ∷ lit ": "
                ∷ []))
              w'
      ]

  pub fetch_one : UrlPrefetchConfig Net → String → Io W (String × List ℕ)
  fetch_one cfg url = do
    parsed ← lift (
        map_err (λ e. invalid (lit vendor ∷ lit ": prefetch URL parse failed: " ∷ e))
          (web.parse_url url))
    lift (check_scheme vendor cfg parsed.scheme)
    lift (check_literal vendor cfg nets web.parse_ip web.show_ip url parsed.host_str)
    resp ←
        map_err_io (λ e. transport (lit vendor ∷ lit ": prefetch GET " ∷ lit url ∷ lit ": " ∷ e))
          (web.get url)
    check_status url resp
    lift (check_length vendor cfg resp.content_length)
    let content_type = media_type resp.content_type
    lift (check_mime vendor cfg content_type)
    bytes ← map_err_io (λ e. transport (lit vendor ∷ lit ": prefetch read body: " ∷ e)) resp.bytes
    lift (check_size vendor cfg bytes)
    pure (content_type, bytes)

-- A walk that changes its subject in place: finished, or stopped by an error half way.
pub data Walk (W S : Type 0) : Type 0 where
  finished : S → W → Walk W S
  stopped : TakoError → S → W → Walk W S

abbrev pub on_subject : {W S T : Type 0} → (S → T) → Walk W S → Walk W T
on_subject f (finished s w) = finished (f s) w
on_subject f (stopped e s w) = stopped e (f s) w

module _ {W Net : Type 0} (web : Web W) (nets : IpNets Net) (vendor : String)
    (cfg : UrlPrefetchConfig Net) where
  -- the inner loop, over the parts of one message
  pub rewrite_parts : List ContentPart → W → Walk W (List ContentPart)
  rewrite_parts [] w = finished [] w
  rewrite_parts (image_url url mime ∷ rest) w = elim (fetch_one web nets vendor cfg url w) [
    | returns (got, bytes) w' ↦
        on_subject (λ ps. image got (web.base64 bytes) ∷ ps) (rewrite_parts rest w')
    | raises e w' ↦ stopped e (image_url url mime ∷ rest) w'
  ]
  rewrite_parts (text s ∷ rest) w = on_subject (λ ps. text s ∷ ps) (rewrite_parts rest w)
  rewrite_parts (image m d ∷ rest) w = on_subject (λ ps. image m d ∷ ps) (rewrite_parts rest w)
  rewrite_parts (tool_call i n a ∷ rest) w =
      on_subject (λ ps. tool_call i n a ∷ ps) (rewrite_parts rest w)
  rewrite_parts (tool_result i r x ∷ rest) w =
      on_subject (λ ps. tool_result i r x ∷ ps) (rewrite_parts rest w)

  -- the outer loop, over the messages
  pub rewrite_messages : List Message → W → Walk W (List Message)
  rewrite_messages [] w = finished [] w
  rewrite_messages (m ∷ rest) w = elim (rewrite_parts m.content w) [
    | finished ps w' ↦ on_subject (λ ms. record m { content = ps } ∷ ms) (rewrite_messages rest w')
    | stopped e ps w' ↦ stopped e (record m { content = ps } ∷ rest) w'
  ]

  pub rewrite : {R : Type 0} → ChatRequest R → W → Walk W (ChatRequest R)
  rewrite req w = on_subject (λ ms. record req { messages = ms }) (rewrite_messages req.messages w)
