-- ===== src/Orchestrator/Single/Tools.antt =====
-- Which tools run, and how their results are passed back.
use tako_ai_core.Common.{
  ◌≡◌, refl, sym, ap, inl, inr, true, false, String, Option, some, List, [], ◌∷◌, arith, none, ◌⊎◌,
  Option-cases, subst, ◌∙◌,
}
use tako_ai_core.Core.Json.{Json, message, object, field, end}
use tako_ai_core.Core.Effects.{returns, raises, Outcome-cases, bind-returns}
use tako_ai_core.Core.Error.{TakoError}
use tako_ai_core.Core.Types.{
  Principal, Message, ContentPart, tool_result, PolicyDecision, allow, deny, redact_messages,
  redact_response, force_model, require_approval,
}
use tako_ai_core.Core.Traits.{PolicyEngine}
use tako_ai_core.Orchestrator.Single.{
  ToolRegistry, Texts, Call, obey, tool_context, consult, invoke_tool, run_tools,
}

-- A decision that lets a tool run: all but a denial and a demand for approval.
abbrev pub Permits : PolicyDecision → Type 0
Permits (deny reason) = ⊥
Permits (require_approval reason) = ⊥
Permits allow = Unit
Permits (redact_messages rs) = Unit
Permits (redact_response rs) = Unit
Permits (force_model m) = Unit

module _ {W : Type 0} (texts : Texts) (tools : ToolRegistry W) (policy : Option (PolicyEngine W))
    (principal : Principal) (model : String) (messages : List Message) where
  -- From one world to the next the engine, if there is one, is asked about the call, and its decision
  -- lets the tool run; without an engine nothing happens.
  abbrev pub Consulted : Call → W → W → Type 0
  Consulted call w v =
      ((policy ≡ none) × (w ≡ v))
      ⊎ ((engine : PolicyEngine W) × (d : PolicyDecision) × (policy ≡ some engine)
          × (engine.evaluate principal
                (tool_context texts tools policy principal model messages call) w
              ≡ returns d v)
          × Permits d)

  -- The tool runs once, and its value or its error is the result with the call's identifier.
  abbrev pub Invoked : Call → ContentPart → W → W → Type 0
  Invoked call part v u =
      ((r : Json) × (tools.invoke principal call.name call.args v ≡ returns r u)
        × (part ≡ tool_result call.id r false))
      ⊎ ((e : TakoError) × (tools.invoke principal call.name call.args v ≡ raises e u)
          × (part
              ≡ tool_result call.id (object (field "error" (message (texts.display e)) end)) true))

  -- Call after call, each first consulted about and then invoked, with one result each.
  abbrev pub Ran : List Call → List ContentPart → W → W → Type 0
  Ran [] [] w w' = w ≡ w'
  Ran (call ∷ calls) (part ∷ parts) w w' =
      (v : W) × (u : W) × Consulted call w v × Invoked call part v u × Ran calls parts u w'
  Ran _ _ w w' = ⊥

  obey-Permits :
      (name : String) (d : PolicyDecision) (w w' : W)
      → obey texts tools policy principal name d w ≡ returns tt w'
      → Permits d
  unfolding obey
  obey-Permits name (deny reason) w w' h = cc
  obey-Permits name (require_approval reason) w w' h = cc
  obey-Permits name allow w w' h = tt
  obey-Permits name (redact_messages rs) w w' h = tt
  obey-Permits name (redact_response rs) w w' h = tt
  obey-Permits name (force_model m) w w' h = tt

  obey_ends :
      (name : String) (d : PolicyDecision) (w w' : W)
      → obey texts tools policy principal name d w ≡ returns tt w'
      → w ≡ w'
  unfolding obey
  obey_ends name (deny reason) w w' h = cc
  obey_ends name (require_approval reason) w w' h = cc
  obey_ends name allow w w' h = cc
  obey_ends name (redact_messages rs) w w' h = cc
  obey_ends name (redact_response rs) w w' h = cc
  obey_ends name (force_model m) w w' h = cc

  consult-Consulted :
      (call : Call) (w w' : W)
      → consult texts tools policy principal model messages call w ≡ returns tt w'
      → Consulted call w w'
  unfolding consult
  consult-Consulted call w w' h = elim (Option-cases policy) [
    | inl nobody ↦
        inl (nobody, let q : returns tt w ≡ returns tt w' = rw (consult, nobody) at h in cc)
    | inr (engine, somebody) ↦
        let (d, v, asked, obeyed) =
          bind-returns
            (engine.evaluate principal
              (tool_context texts tools policy principal model messages call))
            (obey texts tools policy principal call.name) w w' tt (rw (consult, somebody) at h) in
        inr (
          engine,
          d,
          somebody,
          subst
              (λ z.
                engine.evaluate principal
                  (tool_context texts tools policy principal model messages call) w
                ≡ returns d z)
              (obey_ends call.name d v w' obeyed) asked,
          obey-Permits call.name d v w' obeyed,
        )
  ]

  run_tools-next :
      (call : Call) (calls : List Call) (parts : List ContentPart) (w w' : W)
      → run_tools texts tools policy principal model messages (call ∷ calls) w ≡ returns parts w'
      → (v : W) × (u : W) × (part : ContentPart) × (rest : List ContentPart) × (consult texts tools
            policy principal model messages call w
          ≡ returns tt v)
        × (invoke_tool texts tools policy principal call v ≡ (part, u))
        × (run_tools texts tools policy principal model messages calls u ≡ returns rest w')
        × (parts ≡ part ∷ rest)
  unfolding run_tools
  run_tools-next call calls parts w w' h =
      elim (Outcome-cases (consult texts tools policy principal model messages call w)) [
        | inr (e, v, x) ↦ absurd (ground arith)
        | inl (_, v, x) ↦
            let (part, u) = invoke_tool texts tools policy principal call v in
            elim (Outcome-cases (
              run_tools texts tools policy principal model messages calls
                (invoke_tool texts tools policy principal call v).1)) [
                  | inr (e, z, y) ↦ absurd (ground arith)
                  | inl (rest, z, y) ↦ (
                    v,
                    (invoke_tool texts tools policy principal call v).1,
                    (invoke_tool texts tools policy principal call v).0,
                    rest,
                    x,
                    refl,
                    ground arith,
                    ground arith,
                  )
                ]
      ]

  invoke_tool-Invoked :
      (call : Call) (v u : W) (part : ContentPart)
      → invoke_tool texts tools policy principal call v ≡ (part, u)
      → Invoked call part v u
  unfolding invoke_tool
  invoke_tool-Invoked call v u part h =
      elim (Outcome-cases (tools.invoke principal call.name call.args v)) [
        | inl (r, z, x) ↦
            let q = rw (x, invoke_tool) at h in
            inl (r, x ∙ ap (λ p. returns r p.1) q, sym (ap (λ p. p.0) q))
        | inr (e, z, x) ↦
            let q = rw (x, invoke_tool) at h in
            inr (e, x ∙ ap (λ p. raises e p.1) q, sym (ap (λ p. p.0) q))
      ]

  -- If the calls of a turn all run, they run one after the other: the policy engine, if there is one,
  -- was asked about each and let it run, then its tool ran once, from the world the engine left, and
  -- its value or its error is its one result, with its identifier.
  pub run_tools-Ran :
      (calls : List Call) (parts : List ContentPart) (w w' : W)
      → run_tools texts tools policy principal model messages calls w ≡ returns parts w'
      → Ran calls parts w w'
  unfolding run_tools
  run_tools-Ran [] [] w w' h = cc
  run_tools-Ran [] (p ∷ parts) w w' h = cc
  run_tools-Ran (call ∷ calls) [] w w' h =
      let (v, u, part, rest, x, i, r, e) = run_tools-next call calls [] w w' h in absurd cc
  run_tools-Ran (call ∷ calls) (p ∷ parts) w w' h =
      let (v, u, part, rest, x, i, r, e) = run_tools-next call calls (p ∷ parts) w w' h in
      let same : part ≡ p = cc in
      let same_rest : rest ≡ parts = cc in
      (
        v,
        u,
        consult-Consulted call w v x,
        invoke_tool-Invoked call v u p (rw (same) at i),
        run_tools-Ran calls parts u w' (rw (same_rest) at r),
      )
