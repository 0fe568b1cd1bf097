-- ===== src/Prefetch/Fetch/Rewrite.antt =====
-- What `rewrite` leaves of a request, finished or stopped.
use tako_ai_core.Common.{ℕ, String, ◌≡◌, ◌⊎◌, inl, inr, refl, subst, Option, List, [], ◌∷◌, All}
use tako_ai_core.Core.Error.{TakoError}
use tako_ai_core.Core.Effects.{returns, raises, Outcome-cases}
use tako_ai_core.Core.Types.{
  ContentPart, text, image, image_url, tool_call, tool_result, Message, ChatRequest,
}
use tako_ai_core.Prefetch.AllowList.{IpNets}
use tako_ai_core.Prefetch.Fetch.{
  Web, UrlPrefetchConfig, fetch_one, Walk, finished, stopped, on_subject, rewrite_parts,
  rewrite_messages, rewrite,
}

module _ {W Net : Type 0} (web : Web W) (nets : IpNets Net) (vendor : String)
    (cfg : UrlPrefetchConfig Net) where
  -- Not an image by URL.
  abbrev pub IsInline : ContentPart → Type 0
  IsInline (image_url u m) = ⊥
  IsInline (text s) = Unit
  IsInline (image m d) = Unit
  IsInline (tool_call i n a) = Unit
  IsInline (tool_result i r e) = Unit

  -- A part after the walk: itself, or in an image's place what some fetch of its URL returned.
  pub data Fetches : ContentPart → ContentPart → Type 0 where
    kept : {p : ContentPart} → IsInline p → Fetches p p
    fetched :
        {url got : String} {hint : Option String} {bytes : List ℕ} (w w' : W)
        → fetch_one web nets vendor cfg url w ≡ returns (got, bytes) w'
        → Fetches (image_url url hint) (image got (web.base64 bytes))

  pub data Rewritten : List ContentPart → List ContentPart → Type 0 where
    done : Rewritten [] []
    more :
        {p q : ContentPart} {ps qs : List ContentPart}
        → Fetches p q
        → Rewritten ps qs
        → Rewritten (p ∷ ps) (q ∷ qs)

  -- A walk that an error stopped: the parts before the failing image are rewritten, that image and
  -- all behind it are as they were.
  pub data Stopped : TakoError → List ContentPart → List ContentPart → Type 0 where
    at_image :
        {url : String} {hint : Option String} {ps : List ContentPart} {e : TakoError} (w w' : W)
        → fetch_one web nets vendor cfg url w ≡ raises e w'
        → Stopped e (image_url url hint ∷ ps) (image_url url hint ∷ ps)
    later :
        {p q : ContentPart} {ps qs : List ContentPart} {e : TakoError}
        → Fetches p q
        → Stopped e ps qs
        → Stopped e (p ∷ ps) (q ∷ qs)

  abbrev pub PartsWalked : List ContentPart → Walk W (List ContentPart) → Type 0
  PartsWalked ps (finished qs w) = Rewritten ps qs
  PartsWalked ps (stopped e qs w) = Stopped e ps qs

  walk_on :
      {p q : ContentPart} (ps : List ContentPart) (r : Walk W (List ContentPart))
      → Fetches p q
      → PartsWalked ps r
      → PartsWalked (p ∷ ps) (on_subject (λ qs. q ∷ qs) r)
  walk_on ps (finished qs w) f h = more f h
  walk_on ps (stopped e qs w) f h = later f h

  rewrite_parts-walked :
      (ps : List ContentPart) (w : W) → PartsWalked ps (rewrite_parts web nets vendor cfg ps w)
  unfolding rewrite_parts
  rewrite_parts-walked [] w = done
  rewrite_parts-walked (image_url url hint ∷ ps) w =
      elim (Outcome-cases (fetch_one web nets vendor cfg url w)) [
        | inl ((got, bytes), w', h) ↦
            rw (h, rewrite_parts)
              (walk_on ps (rewrite_parts web nets vendor cfg ps w') (fetched w w' h)
                (rewrite_parts-walked ps w'))
        | inr (e, w', h) ↦ rw (h, rewrite_parts) (at_image w w' h)
      ]
  rewrite_parts-walked (text s ∷ ps) w = walk_on ps _ (kept tt) (rewrite_parts-walked ps w)
  rewrite_parts-walked (image m d ∷ ps) w = walk_on ps _ (kept tt) (rewrite_parts-walked ps w)
  rewrite_parts-walked (tool_call i n a ∷ ps) w = walk_on ps _ (kept tt) (rewrite_parts-walked ps w)
  rewrite_parts-walked (tool_result i r e ∷ ps) w =
      walk_on ps _ (kept tt) (rewrite_parts-walked ps w)

  pub data AllRewritten : List Message → List Message → Type 0 where
    none_left : AllRewritten [] []
    message :
        {m : Message} {qs : List ContentPart} {ms ns : List Message}
        → Rewritten m.content qs
        → AllRewritten ms ns
        → AllRewritten (m ∷ ms) (record m { content = qs } ∷ ns)

  pub data SomeStopped : TakoError → List Message → List Message → Type 0 where
    in_message :
        {m : Message} {qs : List ContentPart} {ms : List Message} {e : TakoError}
        → Stopped e m.content qs
        → SomeStopped e (m ∷ ms) (record m { content = qs } ∷ ms)
    in_later :
        {m : Message} {qs : List ContentPart} {ms ns : List Message} {e : TakoError}
        → Rewritten m.content qs
        → SomeStopped e ms ns
        → SomeStopped e (m ∷ ms) (record m { content = qs } ∷ ns)

  abbrev pub MessagesWalked : List Message → Walk W (List Message) → Type 0
  MessagesWalked ms (finished ns w) = AllRewritten ms ns
  MessagesWalked ms (stopped e ns w) = SomeStopped e ms ns

  next_message :
      (m : Message) {qs : List ContentPart} (ms : List Message) (r : Walk W (List Message))
      → Rewritten m.content qs
      → MessagesWalked ms r
      → MessagesWalked (m ∷ ms) (on_subject (λ ns. record m { content = qs } ∷ ns) r)
  next_message m ms (finished ns w) f h = message f h
  next_message m ms (stopped e ns w) f h = in_later f h

  Walk-cases :
      {S : Type 0} (r : Walk W S)
      → ((s : S) × (w : W) × (r ≡ finished s w))
        ⊎ ((e : TakoError) × (s : S) × (w : W) × (r ≡ stopped e s w))
  Walk-cases (finished s w) = inl (s, w, refl)
  Walk-cases (stopped e s w) = inr (e, s, w, refl)

  rewrite_messages-walked :
      (ms : List Message) (w : W) → MessagesWalked ms (rewrite_messages web nets vendor cfg ms w)
  unfolding rewrite_messages
  rewrite_messages-walked [] w = none_left
  rewrite_messages-walked (m ∷ ms) w =
      elim (Walk-cases (rewrite_parts web nets vendor cfg m.content w)) [
        | inl (qs, w', h) ↦
            rw (h, rewrite_messages)
              (next_message m ms (rewrite_messages web nets vendor cfg ms w')
                (subst (PartsWalked m.content) h (rewrite_parts-walked m.content w))
                (rewrite_messages-walked ms w'))
        | inr (e, qs, w', h) ↦
            rw (h, rewrite_messages)
              (in_message (subst (PartsWalked m.content) h (rewrite_parts-walked m.content w)))
      ]

  abbrev pub RequestWalked : {R : Type 0} → ChatRequest R → Walk W (ChatRequest R) → Type 0
  RequestWalked req (finished req' w) =
      (req' ≡ record req { messages = req'.messages }) × AllRewritten req.messages req'.messages
  RequestWalked req (stopped e req' w) =
      (req' ≡ record req { messages = req'.messages }) × SomeStopped e req.messages req'.messages

  on_request :
      {R : Type 0} (req : ChatRequest R) (r : Walk W (List Message))
      → MessagesWalked req.messages r
      → RequestWalked req (on_subject (λ ms. record req { messages = ms }) r)
  on_request req (finished ms w) h = (refl, h)
  on_request req (stopped e ms w) h = (refl, h)

  -- If the walk finishes, every image by URL, in every message, is in place replaced by what a
  -- fetch of its URL returned, and all else is kept. If a fetch fails, the walk stops with its
  -- error: the images before it are already replaced, and that image and all behind it are kept.
  pub rewrite-RequestWalked :
      {R : Type 0} (req : ChatRequest R) (w : W)
      → RequestWalked req (rewrite web nets vendor cfg req w)
  unfolding rewrite
  rewrite-RequestWalked req w = on_request req _ (rewrite_messages-walked req.messages w)

  Rewritten-IsInline : {ps qs : List ContentPart} → Rewritten ps qs → All IsInline qs
  Rewritten-IsInline done = tt
  Rewritten-IsInline (more (kept i) r) = (i, Rewritten-IsInline r)
  Rewritten-IsInline (more (fetched w w' h) r) = (tt, Rewritten-IsInline r)

  AllRewritten-IsInline :
      {ms ns : List Message} → AllRewritten ms ns → All (λ m. All IsInline m.content) ns
  AllRewritten-IsInline none_left = tt
  AllRewritten-IsInline (message r h) = (Rewritten-IsInline r, AllRewritten-IsInline h)

  -- A request that was rewritten to its end holds no image by URL any more.
  pub rewrite-IsInline :
      {R : Type 0} (req req' : ChatRequest R) (w w' : W)
      → rewrite web nets vendor cfg req w ≡ finished req' w'
      → All (λ m. All IsInline m.content) req'.messages
  rewrite-IsInline req req' w w' h =
      AllRewritten-IsInline (subst (RequestWalked req) h (rewrite-RequestWalked req w)).1
