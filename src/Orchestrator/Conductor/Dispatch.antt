-- ===== src/Orchestrator/Conductor/Dispatch.antt =====
-- What the workers of one turn in crates/tako-orchestrator/src/conductor.rs bring back.
use tako_ai_core.Core.Float.{Float}
use tako_ai_core.Orchestrator.Conductor.Workers.{Runtime}
