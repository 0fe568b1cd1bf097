-- ===== src/Orchestrator/Conductor/Ends.antt =====
-- The ends of the workers' tasks in crates/tako-orchestrator/src/conductor.rs, and the results that are
-- collected from them.
use tako_ai_core.Common.{
  ℕ, ◌*◌, ◌≤◌, ◌<◌, ◌≡◌, refl, sym, ap, ◌∙◌, ◌⊎◌, inl, inr, false, String, Option, none, some, List,
  [], ◌∷◌, map, All, All-map, length, Dict, lookup, sum_of, arith,
}
use tako_ai_core.Core.Traits.{LlmProvider}
use tako_ai_core.Orchestrator.Conductor.Workers.{
  WorkerDispatch, WorkerOutcome, WorkerResult, unknown_worker, Phase, queued, permitted, checked,
  answered, finished, crashed, join_error, Task, permits, spawn, held, can_move, movable, collect,
}
use tako_ai_core.Orchestrator.Conductor.Permits.{movable_none, moves_left, work}

-- the worker and the text of an entry of the plan
abbrev plan_label : WorkerDispatch → String × String
plan_label d = (d.worker, d.task)

-- A phase that no move leaves: with an outcome, or after a panic of a worker that there is.
abbrev AtEnd : Phase → Type 0
AtEnd phase = ((o : WorkerOutcome) × (phase ≡ finished o)) ⊎ ((e : String) × (phase ≡ crashed e))

spent : (phase : Phase) → moves_left phase ≤ 0 → AtEnd phase
spent queued h = absurd (omega arith)
spent permitted h = absurd (omega arith)
spent checked h = absurd (omega arith)
spent (answered r) h = absurd (omega arith)
spent (finished o) h = inl (o, refl)
spent (crashed e) h = inr (e, refl)

outcome_of : {o o' : WorkerOutcome} → finished o ≡ finished o' → o ≡ o'
outcome_of h = cc

module _ {W R Stream : Type 0} where
  abbrev pub IsFinished : Task W R Stream → Type 0
  IsFinished t = AtEnd t.phase

  no_permit :
      (max_fanout in_use : ℕ) (worker : Option (LlmProvider W R Stream)) (name task : String)
      (phase : Phase)
      → can_move {R = R} max_fanout in_use
          (record { name = name; task = task; worker = worker; phase = phase })
        ≡ false
      → permits phase ≡ 0
  no_permit m u worker name task queued h = refl
  no_permit m u worker name task permitted h = cc
  no_permit m u worker name task checked h = cc
  no_permit m u worker name task (answered r) h = cc
  no_permit m u worker name task (finished o) h = refl
  no_permit m u worker name task (crashed e) h = refl

  none_held :
      (max_fanout in_use : ℕ) (tasks : List (Task W R Stream))
      → All (λ t. can_move max_fanout in_use t ≡ false) tasks
      → held tasks ≡ 0
  unfolding sum_of
  none_held m u [] h = refl
  none_held m u (t ∷ ts) (h, hs) =
      omega (arith, no_permit m u t.worker t.name t.task t.phase h, none_held m u ts hs)

  -- a task that cannot go on although a permit is free is at its end
  at_end :
      (max_fanout : ℕ) (worker : Option (LlmProvider W R Stream)) (name task : String)
      (phase : Phase)
      → 0 < max_fanout
      → can_move {R = R} max_fanout 0
          (record { name = name; task = task; worker = worker; phase = phase })
        ≡ false
      → AtEnd phase
  at_end m none name task queued room h = cc
  at_end m (some p) name task queued room h = absurd (ground arith)
  at_end m worker name task permitted room h = cc
  at_end m worker name task checked room h = cc
  at_end m worker name task (answered r) room h = cc
  at_end m worker name task (finished o) room h = inl (o, refl)
  at_end m worker name task (crashed e) room h = inr (e, refl)

  pub each_at_end :
      (max_fanout : ℕ) (tasks : List (Task W R Stream))
      → 0 < max_fanout
      → movable max_fanout (held tasks) tasks ≡ []
      → All IsFinished tasks
  each_at_end max_fanout tasks room h =
      let stuck = movable_none max_fanout (held tasks) tasks h in
      let stuck_free = rw (none_held max_fanout (held tasks) tasks stuck) at stuck in
      All-map (λ t. can_move max_fanout 0 t ≡ false) IsFinished tasks
        (λ t cannot. at_end max_fanout t.worker t.name t.task t.phase room cannot) stuck_free

  pub each_spent : (tasks : List (Task W R Stream)) → work tasks ≤ 0 → All IsFinished tasks
  unfolding sum_of
  each_spent [] h = tt
  each_spent (t ∷ ts) h = (spent t.phase (omega arith), each_spent ts (omega arith))

  -- what a task is to its entry of the plan
  abbrev pub label : Task W R Stream → String × String
  label t = (t.name, t.task)

  pub spawn-label :
      (workers : Dict (LlmProvider W R Stream)) (plan : List WorkerDispatch)
      → map label (spawn workers plan) ≡ map plan_label plan
  unfolding spawn
  spawn-label workers [] = refl
  spawn-label workers (d ∷ ds) = ap (λ l. (d.worker, d.task) ∷ l) (spawn-label workers ds)

  pub work-spawn :
      (workers : Dict (LlmProvider W R Stream)) (plan : List WorkerDispatch)
      → work (spawn workers plan) ≡ 4 * length plan
  unfolding spawn sum_of
  work-spawn workers [] = refl
  work-spawn workers (d ∷ ds) = omega (arith, work-spawn workers ds)

  pub held-spawn :
      (workers : Dict (LlmProvider W R Stream)) (plan : List WorkerDispatch)
      → held (spawn workers plan) ≡ 0
  unfolding spawn sum_of
  held-spawn workers [] = refl
  held-spawn workers (d ∷ ds) = omega (arith, held-spawn workers ds)

  -- A task without a worker is queued or has ended with that error.
  pub record IsHonest (workers : Dict (LlmProvider W R Stream)) (t : Task W R Stream) : Type 0 where
    pub worker : t.worker ≡ lookup t.name workers
    pub known_or_refused :
        ((p : LlmProvider W R Stream) × (t.worker ≡ some p))
        ⊎ ((t.phase ≡ queued) ⊎ (t.phase ≡ finished (unknown_worker t.name)))

  pub spawn-IsHonest :
      (workers : Dict (LlmProvider W R Stream)) (plan : List WorkerDispatch)
      → All (IsHonest workers) (spawn workers plan)
  unfolding spawn
  spawn-IsHonest workers [] = tt
  spawn-IsHonest workers (d ∷ ds) =
      (record { worker = refl; known_or_refused = inr (inl refl) }, spawn-IsHonest workers ds)

  -- What stands for an entry of the plan: a result with its worker and its text, which says so if the
  -- worker is unknown, or, of a worker that there is, the result of a panic.
  abbrev pub Answers : Dict (LlmProvider W R Stream) → WorkerDispatch → WorkerResult → Type 0
  Answers workers d r =
      ((r.name ≡ d.worker)
        × (r.task ≡ d.task)
        × (((p : LlmProvider W R Stream) × (lookup d.worker workers ≡ some p))
            ⊎ (r.outcome ≡ unknown_worker d.worker)))
      ⊎ ((e : String) × (p : LlmProvider W R Stream) × (lookup d.worker workers ≡ some p)
          × (r ≡ join_error e))

  -- one result for each entry of the plan, in its order
  abbrev pub AllAnswered :
      Dict (LlmProvider W R Stream) → List WorkerDispatch → List WorkerResult → Type 0
  AllAnswered workers [] [] = Unit
  AllAnswered workers (d ∷ ds) (r ∷ rs) = Answers workers d r × AllAnswered workers ds rs
  AllAnswered workers _ _ = ⊥

  outcome_explained :
      (workers : Dict (LlmProvider W R Stream)) (d : WorkerDispatch) (t : Task W R Stream)
      (o : WorkerOutcome)
      → label t ≡ plan_label d
      → IsHonest workers t
      → t.phase ≡ finished o
      → Answers workers d (record { name = t.name; task = t.task; outcome = o })
  outcome_explained workers d t o same honest at =
      let name : t.name ≡ d.worker = ap (λ l. l.0) same in
      let task : t.task ≡ d.task = ap (λ l. l.1) same in
      inl (
        name,
        task,
        elim honest.known_or_refused [
          | inl (p, known) ↦
              inl (p, ap (λ n. lookup n workers) (sym name) ∙ sym honest.worker ∙ known)
          | inr (inl waits) ↦ absurd (let never = sym waits ∙ at in ground arith)
          | inr (inr refused) ↦ inr (outcome_of (sym at ∙ refused) ∙ ap unknown_worker name)
        ],
      )

  crash_explained :
      (workers : Dict (LlmProvider W R Stream)) (d : WorkerDispatch) (t : Task W R Stream)
      (e : String)
      → label t ≡ plan_label d
      → IsHonest workers t
      → t.phase ≡ crashed e
      → Answers workers d (join_error e)
  crash_explained workers d t e same honest at =
      let name : t.name ≡ d.worker = ap (λ l. l.0) same in
      elim honest.known_or_refused [
        | inl (p, known) ↦
            inr (e, p, ap (λ n. lookup n workers) (sym name) ∙ sym honest.worker ∙ known, refl)
        | inr (inl waits) ↦ absurd (let never = sym waits ∙ at in ground arith)
        | inr (inr refused) ↦ absurd (let never = sym refused ∙ at in ground arith)
      ]

  pub collect-AllAnswered :
      (workers : Dict (LlmProvider W R Stream)) (plan : List WorkerDispatch)
      (tasks : List (Task W R Stream))
      → map label tasks ≡ map plan_label plan
      → All IsFinished tasks
      → All (IsHonest workers) tasks
      → AllAnswered workers plan (collect tasks)
  unfolding collect
  collect-AllAnswered workers [] [] same done honest = tt
  collect-AllAnswered workers [] (t ∷ ts) same done honest = absurd (cc)
  collect-AllAnswered workers (d ∷ ds) [] same done honest = absurd (cc)
  collect-AllAnswered workers (d ∷ ds) (t ∷ ts) same (inl (o, at), done) (h, honest) =
      let first : label t ≡ plan_label d = cc in
      let others : map label ts ≡ map plan_label ds = cc in
      rw (at, collect)
        (
          outcome_explained workers d t o first h at,
          collect-AllAnswered workers ds ts others done honest,
        )
  collect-AllAnswered workers (d ∷ ds) (t ∷ ts) same (inr (e, at), done) (h, honest) =
      let first : label t ≡ plan_label d = cc in
      let others : map label ts ≡ map plan_label ds = cc in
      rw (at, collect)
        (
          crash_explained workers d t e first h at,
          collect-AllAnswered workers ds ts others done honest,
        )
