-- ===== src/Orchestrator/Conductor/Permits.antt =====
-- The semaphore of crates/tako-orchestrator/src/conductor.rs: how many workers run at once.
use tako_ai_core.Common.{
  ℕ, zero, suc, ◌≤◌, ◌<◌, ◌≡◌, refl, sym, ◌⊎◌, inl, inr, true, false, Bool-cases, ltb→lt, String,
  Option, none, some, Option-cases, List, [], ◌∷◌, map, In, here, List-cases, In-cons, In-map-suc,
  get_elem?-In, All, get_elem?, modify, sum_of, sum_of-modify, arith,
}
use tako_ai_core.Core.Effects.{Outcome, Outcome-cases}
use tako_ai_core.Core.Float.{Float}
use tako_ai_core.Core.Types.{Principal, ChatResponse}
use tako_ai_core.Core.Traits.{LlmProvider}
use tako_ai_core.Runtime.Budget.{BudgetTracker}
use tako_ai_core.Orchestrator.Single.{budget_check, budget_record}
use tako_ai_core.Orchestrator.Conductor.Workers.{
  Timed, in_time, elapsed, panicked, Runtime, worker_request, Phase, queued, permitted, checked,
  answered, finished, crashed, Task, at_phase, by_reason, timed_out, failed, permits, held,
  can_move, movable, nth_or, advance, move, moves,
}

map_nil : (xs : List ℕ) → map suc xs ≡ [] → xs ≡ []
map_nil [] h = refl
map_nil (x ∷ xs) h = cc

module _ {W R Stream : Type 0} where
  -- what an index among the movable ones stands for
  movable-In :
      (max_fanout in_use : ℕ) (tasks : List (Task W R Stream)) (i : ℕ)
      → In i (movable max_fanout in_use tasks)
      → (t : Task W R Stream) × (get_elem? tasks i ≡ some t) × (can_move max_fanout in_use t ≡ true)
  unfolding movable get_elem?
  movable-In max_fanout in_use [] i at = elim at [ ]
  movable-In max_fanout in_use (t ∷ ts) i at =
      let deeper : In i (map suc (movable max_fanout in_use ts))
          → (t' : Task W R Stream) × (get_elem? (t ∷ ts) i ≡ some t')
            × (can_move max_fanout in_use t' ≡ true) =
        λ later.
          let (k, same, inner) = In-map-suc i (movable max_fanout in_use ts) later in
          let (t', stands, can) = movable-In max_fanout in_use ts k inner in
          (t', rw (same) stands, can) in
      elim (Bool-cases (can_move max_fanout in_use t)) [
        | inl can ↦
            elim (In-cons i 0 (map suc (movable max_fanout in_use ts)) (rw (can, movable) at at)) [
              | inl same ↦ (t, rw (same) refl, can)
              | inr later ↦ deeper later
            ]
        | inr cannot ↦ deeper (rw (cannot, movable) at at)
      ]

  -- with no index to choose from, no task can go on
  pub movable_none :
      (max_fanout in_use : ℕ) (tasks : List (Task W R Stream))
      → movable max_fanout in_use tasks ≡ []
      → All (λ t. can_move max_fanout in_use t ≡ false) tasks
  unfolding movable
  movable_none max_fanout in_use [] h = tt
  movable_none max_fanout in_use (t ∷ ts) h = elim (Bool-cases (can_move max_fanout in_use t)) [
    | inl can ↦ absurd (ground arith)
    | inr cannot ↦
        let rest : map suc (movable max_fanout in_use ts) ≡ [] = rw (cannot, movable) at h in
        (cannot, movable_none max_fanout in_use ts (map_nil _ rest))
  ]

-- the moves that are left to a task in a phase
abbrev pub moves_left : Phase → ℕ
moves_left queued = 4
moves_left permitted = 3
moves_left checked = 2
moves_left (answered _) = 1
moves_left (finished _) = 0
moves_left (crashed _) = 0

-- A phase after another: a move less is left, and a permit is taken only if one is free.
abbrev Follows : ℕ → ℕ → Phase → Phase → Type 0
Follows max_fanout in_use phase phase' =
    (moves_left phase' < moves_left phase)
    × ((permits phase' ≤ permits phase)
        ⊎ ((in_use < max_fanout) × (permits phase' ≡ suc (permits phase))))

pub Timed-cases :
    {W : Type 0} (t : Timed W)
    → ((w : W) × (t ≡ elapsed w))
      ⊎ ((o : Outcome W ChatResponse) × (t ≡ in_time o))
      ⊎ ((e : String) × (w : W) × (t ≡ panicked e w))
Timed-cases (elapsed w) = inl (w, refl)
Timed-cases (in_time o) = inr (inl (o, refl))
Timed-cases (panicked e w) = inr (inr (e, w, refl))

-- the sum of the moves that are left
abbrev pub work : {W R Stream : Type 0} → List (Task W R Stream) → ℕ
work = sum_of λ t. moves_left t.phase

nth_or-In : (first : ℕ) (others : List ℕ) (n : ℕ) → In (nth_or first others n) (first ∷ others)
nth_or-In first others n = elim (Option-cases (get_elem? (first ∷ others) n)) [
  | inl none_there ↦ rw (nth_or, none_there) here
  | inr (i, at) ↦ rw (nth_or, at) (get_elem?-In (first ∷ others) n i at)
]

module _ (F : Float) {W Stream : Type 0} (runtime : Runtime W)
    (budget : Option (BudgetTracker W F.Real)) (worker_timeout : ℕ) (principal : Principal) where
  open F use {Real}

  -- the phase that a task comes to
  pub record Advanced (max_fanout in_use : ℕ) (t : Task W Real Stream) (w : W) : Type 0 where
    pub next : Phase
    pub comes :
        (advance F runtime budget worker_timeout principal t w).0 ≡ at_phase {R = Real} t next
    pub follows : Follows max_fanout in_use t.phase next

  advances_from :
      (max_fanout in_use : ℕ) (name task : String) (worker : Option (LlmProvider W Real Stream))
      (phase : Phase) (w : W)
      → can_move {R = Real} max_fanout in_use
          (record { name = name; task = task; worker = worker; phase = phase })
        ≡ true
      → Advanced max_fanout in_use
          (record { name = name; task = task; worker = worker; phase = phase })
          w
  unfolding advance
  advances_from m u name task worker (finished o) w can = cc
  advances_from m u name task worker (crashed e) w can = cc
  advances_from m u name task none queued w can = record {
    next = _;
    comes = refl;
    follows = (omega arith, inl (omega arith));
  }
  advances_from m u name task none permitted w can = record {
    next = _;
    comes = refl;
    follows = (omega arith, inl (omega arith));
  }
  advances_from m u name task none checked w can = record {
    next = _;
    comes = refl;
    follows = (omega arith, inl (omega arith));
  }
  advances_from m u name task none (answered resp) w can = record {
    next = _;
    comes = refl;
    follows = (omega arith, inl (omega arith));
  }
  advances_from m u name task (some p) queued w can = record {
    next = permitted;
    comes = refl;
    follows = (omega arith, inr (ltb→lt u m can, refl));
  }
  advances_from m u name task (some p) permitted w can =
      elim (Outcome-cases
        (budget_check F budget principal (p.estimate_cost_usd (worker_request p task)) 0 w)) [
          | inl (ok, v, x) ↦ record {
            next = checked;
            comes = rw (advance, x) refl;
            follows = (omega arith, inl (omega arith));
          }
          | inr (e, v, x) ↦ record {
            next = finished (failed (runtime.display e));
            comes = rw (advance, x) refl;
            follows = (omega arith, inl (omega arith));
          }
        ]
  advances_from m u name task (some p) checked w can =
      elim (Timed-cases
        (runtime.within worker_timeout (p.chat principal (worker_request p task)) w)) [
          | inl (v, x) ↦ record {
            next = finished (timed_out runtime worker_timeout);
            comes = rw (advance, x) refl;
            follows = (omega arith, inl (omega arith));
          }
          | inr (inr (e, v, x)) ↦ record {
            next = crashed e;
            comes = rw (advance, x) refl;
            follows = (omega arith, inl (omega arith));
          }
          | inr (inl (o, x)) ↦ elim (Outcome-cases o) [
            | inl (resp, v, y) ↦ record {
              next = answered resp;
              comes = rw (advance, x, y) refl;
              follows = (omega arith, inl (omega arith));
            }
            | inr (e, v, y) ↦ record {
              next = finished (failed (runtime.display e));
              comes = rw (advance, x, y) refl;
              follows = (omega arith, inl (omega arith));
            }
          ]
        ]
  advances_from m u name task (some p) (answered resp) w can =
      elim (Outcome-cases (
        budget_record F budget principal (p.estimate_cost_usd (worker_request p task)) resp.usage
          w)) [
            | inl (ok, v, x) ↦ record {
              next = finished (by_reason resp);
              comes = rw (advance, x) refl;
              follows = (omega arith, inl (omega arith));
            }
            | inr (e, v, x) ↦ record {
              next = finished (failed (runtime.display e));
              comes = rw (advance, x) refl;
              follows = (omega arith, inl (omega arith));
            }
          ]

  -- A task that can go on has a move less to go, and takes a permit only if one is free.
  pub advances :
      (max_fanout in_use : ℕ) (t : Task W Real Stream) (w : W)
      → can_move max_fanout in_use t ≡ true
      → Advanced max_fanout in_use t w
  advances m u t w can = advances_from m u t.name t.task t.worker t.phase w can

  -- the task that a move advances
  pub record Moved (max_fanout : ℕ) (tasks : List (Task W Real Stream)) (i : ℕ) (w : W)
      : Type 0 where
    pub task : Task W Real Stream
    pub stands : get_elem? tasks i ≡ some task
    pub can : can_move max_fanout (held tasks) task ≡ true
    pub moved : move F runtime budget worker_timeout principal i tasks w ≡ (
      modify i (λ _. (advance F runtime budget worker_timeout principal task w).0) tasks,
      (advance F runtime budget worker_timeout principal task w).1,
    )

  pub moves-Moved :
      (max_fanout : ℕ) (tasks : List (Task W Real Stream)) (first : ℕ) (others : List ℕ) (n : ℕ)
      (w : W)
      → movable max_fanout (held tasks) tasks ≡ first ∷ others
      → Moved max_fanout tasks (nth_or first others n) w
  unfolding move
  moves-Moved max_fanout tasks first others n w h =
      let i = nth_or first others n in
      let (t, stands, can) =
        movable-In max_fanout (held tasks) tasks i (rw (sym h) at (nth_or-In first others n)) in
      record { task = t; stands = stands; can = can; moved = rw (stands, move) refl }

  -- a move keeps the permits within the fanout, and leaves less to do
  pub move_effect :
      (max_fanout : ℕ) (tasks : List (Task W Real Stream)) (i : ℕ) (w : W)
      → Moved max_fanout tasks i w
      → held tasks ≤ max_fanout
      → (held (move F runtime budget worker_timeout principal i tasks w).0 ≤ max_fanout)
        × (work (move F runtime budget worker_timeout principal i tasks w).0 < work tasks)
  move_effect max_fanout tasks i w m within =
      let step = advances max_fanout (held tasks) m.task w m.can in
      let t' = at_phase m.task step.next in
      let (fewer, permit) = step.follows in
      let holds = sum_of-modify (λ t. permits t.phase) i tasks m.task t' m.stands in
      let works = sum_of-modify (λ t. moves_left t.phase) i tasks m.task t' m.stands in
      rw (m.moved, step.comes)
        (
          elim permit [ inl no_more ↦ omega arith | inr (free, one_more) ↦ omega arith ],
          omega arith,
        )

  -- However the tasks are scheduled, at no moment more than max_fanout of them hold a permit.
  pub moves-capped :
      (max_fanout : ℕ) (pick : W → ℕ) (fuel : ℕ) (tasks : List (Task W Real Stream)) (w : W)
      → held tasks ≤ max_fanout
      → held (moves F runtime budget worker_timeout principal max_fanout pick fuel tasks w).0
        ≤ max_fanout
  unfolding moves
  moves-capped max_fanout pick zero tasks w within = within
  moves-capped max_fanout pick (suc fuel) tasks w within =
      elim (List-cases (movable max_fanout (held tasks) tasks)) [
        | inl nothing ↦ rw (moves, nothing) within
        | inr (first, others, h) ↦
            let m = moves-Moved max_fanout tasks first others (pick w) w h in
            rw (moves, h)
              (moves-capped max_fanout pick fuel _ _ (move_effect max_fanout tasks _ w m within).0)
      ]
