-- ===== src/Lib.antt =====
-- A model of tako-ai-core, a Rust workspace that runs chat requests against language models: who
-- is calling, what a call may cost, which provider answers, and how an orchestrator drives it.
--
-- Parts and files (paths from the repository's root):
--   Core          crates/tako-core/src: errors, messages, requests, budgets (Core/Error, Core/Types)
--                 and the traits of the interfaces (Core/Traits). A trait is a record of calls.
--   Runtime       crates/tako-runtime/src: fallback.rs (Runtime/Fallback), retry.rs (Runtime/Retry),
--                 budget.rs (Runtime/Budget); all three wrap the calls of an LlmProvider.
--   Auth          crates/tako-compat/src/auth: static_tokens.rs (Auth/Static) and chained.rs
--                 (Auth/Chained): from a bearer token to the Principal that all other calls carry.
--   Prefetch      crates/tako-providers/bedrock/src/url_prefetch.rs: the blocklist (Prefetch/Addr),
--                 the allow list (Prefetch/AllowList), the resolver (Prefetch/Resolver), and
--                 UrlPrefetchConfig's fetch_one and rewrite (Prefetch/Fetch), which a provider
--                 calls on a request before it converts it; UrlPrefetchOpts and the configuration
--                 made from it (Prefetch/Options). crates/tako-providers/ollama/src/url_prefetch.rs
--                 is the same code with another vendor in its messages and other MIME types
--                 (Prefetch/Ollama).
--   Governance    crates/tako-governance/src/sigstore.rs: verify_bundle (Governance/Bundle), with the
--                 PEM blocks (Bundle/Pem), the leaf's identity (Bundle/Identity) and the entry's
--                 timestamp and checkpoint (Bundle/Transparency); verify_chain (Governance/Chain),
--                 verify_rekor_inclusion (Governance/Inclusion) over the log's data
--                 (Governance/Rekor), and the compare-and-exchange loop on the freshness anchor
--                 (Governance/Freshness), whose calls interleave by a schedule of single accesses;
--                 verify_bundle takes the loop as one step, and Bundle/Atomic compares the two.
--                 CatalogueVerifier, with a pinned key, is in Governance/Catalogue.
--                 sigstore_state.rs: the file that keeps the anchor (Governance/State).
--                 pii.rs: detect, apply and the Luhn check (Governance/Pii).
--   Mcp           crates/tako-mcp/src/registry.rs: the tools by name (Mcp/Registry); the agent of
--                 Orchestrator/Single reaches it through the two calls of its ToolRegistry record.
--   Orchestrator  crates/tako-orchestrator/src: single.rs (Orchestrator/Single), which picks a
--                 provider, checks its budget, calls it and runs the tools it asks for;
--                 self_caller.rs (Orchestrator/SelfCaller), which runs another orchestrator under
--                 a ConfidenceGuard; ab_mcts.rs (Orchestrator/AbMcts), which searches a tree of
--                 answers, with its rollouts (AbMcts/Rollout), its builder (AbMcts/Builder) and its
--                 runs (AbMcts/Search); conductor.rs (Orchestrator/Conductor), where a coordinator's
--                 plans (Conductor/Plan) are given to workers that share permits
--                 (Conductor/Workers); router.rs and features.rs (Orchestrator/Routing);
--                 verifiers.rs, which scores rollouts (Orchestrator/Verifiers); and trinity.rs
--                 (Orchestrator/Trinity), whose router picks a role for each turn.
--
-- A call that may fail and that touches the world is a function from the world W to an Outcome,
-- which returns a value or raises a TakoError and holds the new world; so the order of calls and
-- the effects that an error leaves behind are part of every statement. Floating point is a record
-- of operations (Core/Float) without laws. Error messages are lists of fragments, since numbers
-- in them are not spelled out.
--
-- Fuel and bounds: with_retry recurses on the attempts that are left, which start at
-- max_attempts, SelfCaller's loop on the rounds that are left, which start at max_depth + 1,
-- SingleAgent's, Conductor's and Trinity's on the steps that are left, which start at max_steps,
-- the tree search on the iterations that are left, and verify_chain on the 16 hops of its loop, all as the
-- ranges of the for loops do. The while loop of the inclusion proof has its index as fuel, which
-- each round halves. The selection loop of the tree search has the number of nodes as fuel, enough
-- since a child stands after its parent; a dispatch has four moves for each task as fuel, which is
-- what a task goes through. Where the code would panic (an index, a slice) the model says `none`.
-- Token sums saturate at 2^32 - 1 and 2^64 - 1, depths at 255. Maps are association lists, looked up
-- from the newest entry; Trinity's roles, which are also iterated, keep one entry for a name.
--
-- Not modelled: HTTP clients, URL, address and CIDR parsers, DNS, the file system, clocks, timers,
-- random numbers and the sampler of the gamma distribution, serde_json, base64, hex, SHA-256, X.509
-- parsing, signatures and regular expressions, which are parameters; the streaming runs of the tree
-- search, of the conductor and of Trinity; the ONNX router; the adapter of protobuf bundles; the
-- OIDC, JWT and Vault resolvers, the HTTP server and the policy engines; the vendors' converters
-- and streams; the bindings to Python; logging and tracing.
pub mod Auth
pub mod Common
pub mod Core
pub mod Governance
pub mod Mcp
pub mod Orchestrator
pub mod Prefetch
pub mod Runtime
