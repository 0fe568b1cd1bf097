-- ===== src/Prefetch/Fetch/Examples.antt =====
-- The theorems on fetches at concrete inputs.
use tako_ai_core.Common.{
  ℕ, ◌+◌, ◌≡◌, refl, inl, inr, String, none, some, List, [], ◌∷◌, true, false, trim, before_char,
  trim_start_matches, trim_end_matches,
}
use tako_ai_core.Core.Effects.{returns, gives, comes}
use tako_ai_core.Core.Types.{ChatRequest, new_request, Role, ContentPart, text, image, image_url}
use tako_ai_core.Prefetch.Addr.{IpAddr}
use tako_ai_core.Prefetch.AllowList.Examples.{no_networks, built_list}
use tako_ai_core.Prefetch.Fetch.{
  Url, Response, Web, UrlPrefetchConfig, fetch_one, check_scheme, check_literal, check_length,
  check_mime, check_size, check_status, media_type, is_supported_mime, finished, rewrite,
  rewrite_messages, rewrite_parts,
}
use tako_ai_core.Prefetch.Fetch.Checks.{Passed, SchemeAllowed, LiteralAllowed, fetch_one-Passed}
use tako_ai_core.Prefetch.Fetch.Rewrite.{RequestWalked, rewrite-RequestWalked}

abbrev picture : Response ℕ
picture = record {
  status = 200;
  content_length = some 3;
  content_type = some "image/png; x=1";
  body_text = λ n. comes [] n;
  bytes = λ n. comes (1 ∷ 2 ∷ 3 ∷ []) n;
}

abbrev https_url : Url
https_url = record { scheme = "https"; host_str = some "images.example" }

abbrev ftp_url : Url
ftp_url = record { scheme = "ftp"; host_str = some "images.example" }

-- a web over a counter of requests, in which every URL is the same one
abbrev pub web_of : Url → Web ℕ
web_of u = record {
  parse_url = λ s. gives u;
  parse_ip = λ s. none;
  show_ip = λ ip. "";
  get = λ url n. comes picture (n + 1);
  base64 = λ bytes. "AQID";
}

abbrev config : UrlPrefetchConfig IpAddr
config = record {
  allow_http = false;
  max_bytes = 100;
  block_private_ips = true;
  allow_hosts = built_list;
}

abbrev url : String
url = "https://images.example/a.png"

png_fetched :
    fetch_one (web_of https_url) no_networks "bedrock" config url 0
    ≡ returns ("image/png", 1 ∷ 2 ∷ 3 ∷ []) 1
unfolding fetch_one check_scheme check_literal check_length check_mime check_size check_status
    media_type is_supported_mime trim before_char trim_start_matches trim_end_matches
png_fetched = refl

fetch_one-Passed_example :
    Passed (web_of https_url) no_networks "bedrock" config url "image/png" (1 ∷ 2 ∷ 3 ∷ []) 0 1
fetch_one-Passed_example =
    fetch_one-Passed (web_of https_url) no_networks "bedrock" config url "image/png"
      (1 ∷ 2 ∷ 3 ∷ []) 0 1 png_fetched

ftp_is_not_allowed :
    ¬ (SchemeAllowed config ftp_url × LiteralAllowed (web_of ftp_url) no_networks config ftp_url)
ftp_is_not_allowed (inl e, _) = cc
ftp_is_not_allowed (inr (e, _), _) = cc

abbrev with_picture : List ContentPart → ChatRequest ℕ
with_picture parts = new_request "some-model" (record { role = Role.user; content = parts } ∷ [])

abbrev by_url : ChatRequest ℕ
by_url = with_picture (text "what is this?" ∷ image_url url none ∷ [])

abbrev in_place : ChatRequest ℕ
in_place = with_picture (text "what is this?" ∷ image "image/png" "AQID" ∷ [])

rewrite-RequestWalked_example :
    RequestWalked
      (web_of https_url)
      no_networks
      "bedrock"
      config
      by_url
      (rewrite (web_of https_url) no_networks "bedrock" config by_url 0)
rewrite-RequestWalked_example =
    rewrite-RequestWalked (web_of https_url) no_networks "bedrock" config by_url 0

picture_is_rewritten :
    rewrite (web_of https_url) no_networks "bedrock" config by_url 0 ≡ finished in_place 1
unfolding rewrite rewrite_messages rewrite_parts fetch_one check_scheme check_literal check_length
    check_mime check_size check_status media_type is_supported_mime trim before_char
    trim_start_matches trim_end_matches
picture_is_rewritten = refl
