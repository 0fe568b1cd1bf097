-- ===== src/Prefetch/Fetch/Checks.antt =====
-- What a fetched image has passed, and what is never asked for.
use tako_ai_core.Common.{
  sym, ℕ, ◌≤◌, String, ◌≡◌, ◌⊎◌, inl, inr, ap, subst, refl, ◌∙◌, ◌<◌, Option, none, some, List, [],
  ◌∷◌, true, false, length, In, here, there, Bool-cases, eq_iff, arith,
}
use tako_ai_core.Core.Error.{TakoError, Text, invalid}
use tako_ai_core.Core.Effects.{
  Outcome, returns, raises, ok, err, gives, Result-cases, comes, ForeignOutcome-cases, bind-returns,
  lift, map_err_io, pure, ◌>>=◌, ◌>>◌, test-returns, given-returns, call-returns,
}
use tako_ai_core.Prefetch.Addr.{IpAddr, is_blocked_ip}
use tako_ai_core.Prefetch.AllowList.{IpNets, contains, contains_ip}
use tako_ai_core.Prefetch.Fetch.{
  Url, Response, Web, UrlPrefetchConfig, is_supported_mime, unbracket, check_scheme, check_literal,
  check_ip, check_mime, check_size, check_status, check_length, media_type, is_success, fetch_one,
}

abbrev pub image_types : List String
image_types = "image/jpeg" ∷ "image/png" ∷ "image/gif" ∷ "image/webp" ∷ []

-- The scheme is `https`, or `http` where the operator allows it.
abbrev pub SchemeAllowed : {Net : Type 0} → UrlPrefetchConfig Net → Url → Type 0
SchemeAllowed cfg u = (u.scheme ≡ "https") ⊎ ((cfg.allow_http ≡ true) × (u.scheme ≡ "http"))

-- With the guard on, an address written as the host is allowed by name or network, or not blocked.
abbrev pub LiteralAllowed :
    {W Net : Type 0} → Web W → IpNets Net → UrlPrefetchConfig Net → Url → Type 0
LiteralAllowed web nets cfg u =
    (host : String) (ip : IpAddr)
    → cfg.block_private_ips ≡ true
    → u.host_str ≡ some host
    → web.parse_ip (unbracket host) ≡ some ip
    → (contains cfg.allow_hosts host ≡ true)
      ⊎ (contains_ip nets cfg.allow_hosts ip ≡ true)
      ⊎ (is_blocked_ip ip ≡ false)

fetched-parts :
    {W : Type 0} (m mime : String) (b bytes : List ℕ) (w v : W)
    → ◌≡◌ {A = Outcome W (String × List ℕ)} (returns (m, b) w) (returns (mime, bytes) v)
    → (m ≡ mime) × (b ≡ bytes) × (w ≡ v)
fetched-parts m mime b bytes w v h = (cc, cc, cc)

module _ {W Net : Type 0} (web : Web W) (nets : IpNets Net) (vendor : String)
    (cfg : UrlPrefetchConfig Net) where
  -- What a fetch from one world to another has passed: the URL's own tests, the one request that is
  -- sent, and the tests of its response, from the status to the body that was read last.
  pub record Passed (url mime : String) (bytes : List ℕ) (w w' : W) : Type 0 where
    pub parsed : Url
    pub parses : web.parse_url url ≡ gives parsed
    pub scheme : SchemeAllowed cfg parsed
    pub literal : LiteralAllowed web nets cfg parsed
    pub resp : Response W
    pub sent : W
    pub answers : web.get url w ≡ comes resp sent
    pub status : (200 ≤ resp.status) × (resp.status < 300)
    pub declared : (len : ℕ) → resp.content_length ≡ some len → len ≤ cfg.max_bytes
    pub mime_of : media_type resp.content_type ≡ mime
    pub mime_type : In mime image_types
    pub body : resp.bytes sent ≡ comes bytes w'
    pub size : length bytes ≤ cfg.max_bytes

  scheme-allowed : (u : Url) → check_scheme vendor cfg u.scheme ≡ ok tt → SchemeAllowed cfg u
  unfolding check_scheme
  scheme-allowed u h = ground (arith, eq_iff u.scheme "https", eq_iff u.scheme "http")

  literal-allowed :
      (u : Url) (url : String)
      → check_literal vendor cfg nets web.parse_ip web.show_ip url u.host_str ≡ ok tt
      → LiteralAllowed web nets cfg u
  unfolding check_literal check_ip
  literal-allowed u url h host ip b e p = ground arith

  mime_cases :
      (m : String)
      → check_mime vendor cfg m ≡ ok tt
      → (m ≡ "image/jpeg") ⊎ (m ≡ "image/png") ⊎ (m ≡ "image/gif") ⊎ (m ≡ "image/webp")
  unfolding check_mime is_supported_mime
  mime_cases m h = ground (
    arith,
    eq_iff m "image/jpeg",
    eq_iff m "image/png",
    eq_iff m "image/gif",
    eq_iff m "image/webp",
  )

  mime-supported : (m : String) → check_mime vendor cfg m ≡ ok tt → In m image_types
  mime-supported m h = elim (mime_cases m h) [
    | inl e ↦ rw e here
    | inr (inl e) ↦ rw e (there here)
    | inr (inr (inl e)) ↦ rw e (there (there here))
    | inr (inr (inr e)) ↦ rw e (there (there (there here)))
  ]

  size-small : (bytes : List ℕ) → check_size vendor cfg bytes ≡ ok tt → length bytes ≤ cfg.max_bytes
  unfolding check_size
  size-small bytes h = ground arith

  length-small :
      (declared : Option ℕ)
      → check_length vendor cfg declared ≡ ok tt
      → (len : ℕ) → declared ≡ some len
      → len ≤ cfg.max_bytes
  unfolding check_length
  length-small none h len e = cc
  length-small (some n) h len e = ground arith

  status-success :
      (url : String) (resp : Response W) (w w' : W)
      → check_status web nets vendor url resp w ≡ returns tt w'
      → (200 ≤ resp.status) × (resp.status < 300) × (w ≡ w')
  unfolding check_status
  status-success url resp w w' h = elim (Bool-cases (is_success resp.status)) [
    | inl yes_it_is ↦ (ground arith, ground arith, ground arith)
    | inr failed ↦ elim (ForeignOutcome-cases (resp.body_text w)) [
      | inl (body, v, x) ↦ absurd (ground arith)
      | inr (e, v, x) ↦ absurd (ground arith)
    ]
  ]

  -- from the body to the end
  body_checks :
      (f : Text → TakoError) (resp : Response W) (type mime : String) (bytes : List ℕ) (w w' : W)
      → (map_err_io f resp.bytes >>= λ b.
            lift (check_size vendor cfg b) >> pure {A = String × List ℕ} (type, b))
          w
        ≡ returns (mime, bytes) w'
      → (type ≡ mime) × (resp.bytes w ≡ comes bytes w') × (check_size vendor cfg bytes ≡ ok tt)
  body_checks f resp type mime bytes w w' h =
      let (read, v, body, h1) = call-returns w w' (mime, bytes) f resp.bytes _ h in
      let (small, h2) = test-returns v w' (mime, bytes) (check_size vendor cfg read) _ h1 in
      let (type_is, bytes_are, ends) = fetched-parts type mime read bytes v w' h2 in
      (
        type_is,
        body ∙ rw (bytes_are, ends) refl,
        subst (λ b. check_size vendor cfg b ≡ ok tt) bytes_are small,
      )

  -- from the response to the end
  response_checks :
      (f : Text → TakoError) (url : String) (resp : Response W) (type mime : String)
      (bytes : List ℕ) (w w' : W)
      → (check_status web nets vendor url resp
            >> (lift (check_length vendor cfg resp.content_length)
                >> (lift (check_mime vendor cfg type)
                    >> (map_err_io f resp.bytes >>= λ b.
                        lift (check_size vendor cfg b) >> pure {A = String × List ℕ} (type, b)))))
          w
        ≡ returns (mime, bytes) w'
      → (check_status web nets vendor url resp w ≡ returns tt w)
        × (check_length vendor cfg resp.content_length ≡ ok tt)
        × (type ≡ mime)
        × (check_mime vendor cfg mime ≡ ok tt)
        × (resp.bytes w ≡ comes bytes w')
        × (check_size vendor cfg bytes ≡ ok tt)
  response_checks f url resp type mime bytes w w' h =
      let (_, v, x, h1) =
        bind-returns (check_status web nets vendor url resp) _ w w' (mime, bytes) h in
      let (_, _, same) = status-success url resp w v x in
      let (declared, h2) =
        test-returns v w' (mime, bytes) (check_length vendor cfg resp.content_length) _ h1 in
      let (supported, h3) = test-returns v w' (mime, bytes) (check_mime vendor cfg type) _ h2 in
      let (type_is, read, small) = body_checks f resp type mime bytes v w' h3 in
      (
        subst (λ z. check_status web nets vendor url resp w ≡ returns tt z) (sym same) x,
        declared,
        type_is,
        subst (λ m. check_mime vendor cfg m ≡ ok tt) type_is supported,
        ap resp.bytes same ∙ read,
        small,
      )

  fetch_checks :
      (url mime : String) (bytes : List ℕ) (w w' : W)
      → fetch_one web nets vendor cfg url w ≡ returns (mime, bytes) w'
      → (u : Url) × (web.parse_url url ≡ gives u)
        × (check_scheme vendor cfg u.scheme ≡ ok tt)
        × (check_literal vendor cfg nets web.parse_ip web.show_ip url u.host_str ≡ ok tt)
        × (resp : Response W) × (sent : W) × (web.get url w ≡ comes resp sent)
        × (check_status web nets vendor url resp sent ≡ returns tt sent)
        × (check_length vendor cfg resp.content_length ≡ ok tt)
        × (media_type resp.content_type ≡ mime)
        × (check_mime vendor cfg mime ≡ ok tt)
        × (resp.bytes sent ≡ comes bytes w')
        × (check_size vendor cfg bytes ≡ ok tt)
  unfolding fetch_one
  fetch_checks url mime bytes w w' h =
      let (u, parses, h1) = given-returns w w' (mime, bytes) _ (web.parse_url url) _ h in
      let (s, h2) = test-returns w w' (mime, bytes) (check_scheme vendor cfg u.scheme) _ h1 in
      let (l, h3) =
        test-returns w w' (mime, bytes)
          (check_literal vendor cfg nets web.parse_ip web.show_ip url u.host_str) _ h2 in
      let (resp, sent, got, h4) = call-returns w w' (mime, bytes) _ (web.get url) _ h3 in
      let (accepted, declared, type_is, supported, read, small) =
        response_checks _ url resp (media_type resp.content_type) mime bytes sent w' h4 in
      (u, parses, s, l, resp, sent, got, accepted, declared, type_is, supported, read, small)

  -- An image is fetched only if its URL parses, with an allowed scheme and no blocked address for a
  -- host; one request is sent for it, whose response has a status from 200 to 299, declares no length
  -- above the maximum and has one of the four image types; and its body, as read, is the image and
  -- is no longer than the maximum.
  pub fetch_one-Passed :
      (url mime : String) (bytes : List ℕ) (w w' : W)
      → fetch_one web nets vendor cfg url w ≡ returns (mime, bytes) w'
      → Passed url mime bytes w w'
  fetch_one-Passed url mime bytes w w' h =
      let (u, parses, a, b, resp, sent, got, s, l, m, c, read, d) =
        fetch_checks url mime bytes w w' h in
      let (low, high, same) = status-success url resp sent sent s in
      record {
        parsed = u;
        parses = parses;
        scheme = scheme-allowed u a;
        literal = literal-allowed u url b;
        resp = resp;
        sent = sent;
        answers = got;
        status = (low, high);
        declared = length-small resp.content_length l;
        mime_of = m;
        mime_type = mime-supported mime c;
        body = read;
        size = size-small bytes d;
      }

  scheme-err :
      (u : Url) (e : TakoError)
      → check_scheme vendor cfg u.scheme ≡ err e
      → (msg : Text) × (e ≡ invalid msg)
  unfolding check_scheme
  scheme-err u e h = ground arith

  literal-err :
      (u : Url) (url : String) (e : TakoError)
      → check_literal vendor cfg nets web.parse_ip web.show_ip url u.host_str ≡ err e
      → (msg : Text) × (e ≡ invalid msg)
  unfolding check_literal check_ip
  literal-err u url e h = ground arith

  module _ (url : String) (u : Url) (w : W) (parsed : web.parse_url url ≡ gives u) where
    scheme_stops :
        (msg : Text)
        → check_scheme vendor cfg u.scheme ≡ err (invalid msg)
        → fetch_one web nets vendor cfg url w ≡ raises (invalid msg) w
    unfolding fetch_one
    scheme_stops msg h = ground arith

    literal_stops :
        (msg : Text)
        → check_scheme vendor cfg u.scheme ≡ ok tt
        → check_literal vendor cfg nets web.parse_ip web.show_ip url u.host_str ≡ err (invalid msg)
        → fetch_one web nets vendor cfg url w ≡ raises (invalid msg) w
    unfolding fetch_one
    literal_stops msg s h = ground arith

  -- A URL whose scheme is not allowed, or whose host is a blocked address that no entry allows, is
  -- refused before anything is sent: the error is `Invalid`, and the world is as it was.
  pub fetch_one_refuses :
      (url : String) (u : Url) (w : W)
      → web.parse_url url ≡ gives u
      → ¬ (SchemeAllowed cfg u × LiteralAllowed web nets cfg u)
      → (msg : Text) × (fetch_one web nets vendor cfg url w ≡ raises (invalid msg) w)
  fetch_one_refuses url u w parsed bad = elim (Result-cases (check_scheme vendor cfg u.scheme)) [
    | inr (e, h) ↦
        let (msg, q) = scheme-err u e h in (msg, scheme_stops url u w parsed msg (h ∙ ap err q))
    | inl (_, s) ↦
        elim (Result-cases
          (check_literal vendor cfg nets web.parse_ip web.show_ip url u.host_str)) [
            | inr (e, h) ↦
                let (msg, q) = literal-err u url e h in
                (msg, literal_stops url u w parsed msg s (h ∙ ap err q))
            | inl (_, l) ↦ absurd (bad (scheme-allowed u s, literal-allowed u url l))
          ]
  ]
