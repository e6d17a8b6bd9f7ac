-- ===== src/Agent/Execution/Ends.antt =====
-- The run of an agent ends where its pointers only lead forward.
use mathlib.Core.List.Memᴰ
use auth_backend.Base.{
  ℕ, zero, suc, ◌+◌, ◌≤◌, ◌<◌, ◌≡◌, inl, inr, refl, sym, ap, ◌∙◌, String, Bool, Option, none, some,
  List, [], ◌∷◌, ◌++◌, Memᴰ, filter, length, ltb, ◌==◌, if◌then◌else◌, Bool-cases, Option-cases,
  ==_iff, arith,
}
use auth_backend.Model.Json.{Json}
use auth_backend.Agent.Steps.{AgentStep, Agent, AgentExecution, completed, Outside}
use auth_backend.Agent.Execution.{
  AgentRun, find_step, first_step, rest_after, pointer, get_next_step, advance, run_steps, complete,
  begin, execute_agent,
}

-- Each step has a smaller order than those behind it.
abbrev pub IsAscending : List AgentStep → Type 0
IsAscending [] = Unit
IsAscending (s ∷ ss) = ((t : AgentStep) → Memᴰ t ss → s.order < t.order) × IsAscending ss

abbrev pub HasUniqueIds : List AgentStep → Type 0
HasUniqueIds steps =
    (s t : AgentStep) → Memᴰ s steps → Memᴰ t steps → s.id ≡ t.id → s.order ≡ t.order

-- No pointer of a step leads to the step itself or to one before it.
abbrev pub IsForward : List AgentStep → Type 0
IsForward steps =
    (s t : AgentStep) (success : Bool)
    → Memᴰ s steps
    → Memᴰ t steps
    → pointer s success ≡ some t.id
    → s.order < t.order

find_step-mem :
    (i : ℕ) (ss : List AgentStep) (t : AgentStep) → find_step i ss ≡ some t → Memᴰ t ss × (t.id ≡ i)
find_step-mem i [] t e = cc
find_step-mem i (s ∷ ss) t e = elim (Bool-cases (s.id == i)) [
  | inl here ↦
      let same : s ≡ t = ground arith in
      (Memᴰ.head (sym same), ap (λ (s : AgentStep). s.id) (sym same) ∙ (==_iff s.id i).0 here)
  | inr out ↦ let (m, h) = find_step-mem i ss t (ground arith) in (Memᴰ.tail m, h)
]

rest_after-later :
    (s : AgentStep) (ss : List AgentStep)
    → IsAscending ss
    → ((t : AgentStep) → Memᴰ t ss → t.id ≡ s.id → t.order ≡ s.order)
    → Memᴰ s ss
    → (rest : List AgentStep) × (rest_after s.id ss ≡ some rest)
      × ((t : AgentStep) → Memᴰ t rest → Memᴰ t ss × (s.order < t.order))
rest_after-later s [] asc same m = elim m [ ]
rest_after-later s (x ∷ xs) asc same m = elim (Bool-cases (x.id == s.id)) [
  | inl here ↦ (
    xs,
    rw (here, if◌then◌else◌) refl,
    λ t k. (
      Memᴰ.tail k,
      omega (arith, asc.0 t k, same x (Memᴰ.head refl) ((==_iff x.id s.id).0 here)),
    ),
  )
  | inr out ↦ elim (Memᴰ.cases_cons m) [
    | inl e ↦ absurd (ground (arith, ap (λ (s : AgentStep). s.id) e, out))
    | inr later ↦
        let (rest, eq, all) = rest_after-later s xs asc.1 (λ t k e. same t (Memᴰ.tail k) e) later in
        (rest, rw (out, if◌then◌else◌) eq, λ t k. let (n, lt) = all t k in (Memᴰ.tail n, lt))
  ]
]

first_step-mem : (ss : List AgentStep) (t : AgentStep) → first_step ss ≡ some t → Memᴰ t ss
first_step-mem [] t e = cc
first_step-mem (s ∷ ss) t e = Memᴰ.head (let same : s ≡ t = ground arith in sym same)

module _ (steps : List AgentStep) (asc : IsAscending steps) (unique : HasUniqueIds steps)
    (forward : IsForward steps) where
  -- The next step is a later one.
  next_step-later :
      (s t : AgentStep) (success : Bool)
      → Memᴰ s steps
      → get_next_step steps s success ≡ some t
      → Memᴰ t steps × (s.order < t.order)
  unfolding get_next_step
  next_step-later s t success m e = elim (Option-cases (pointer s success)) [
    | inl missing ↦
        let (rest, found, all) = rest_after-later s steps asc (λ t k same. unique t s k m same) m in
        let first : first_step rest ≡ some t = rw (missing, found) at e in
        all t (first_step-mem rest t first)
    | inr (i, here) ↦
        let (k, same) = find_step-mem i steps t (rw here at e) in
        (k, forward s t success m k (rw same here))
  ]

  abbrev later : ℕ → ℕ
  later order = length (filter (λ t. ltb order t.order) steps)

  -- Fewer steps are behind a later step.
  later-less : (s t : AgentStep) → Memᴰ t steps → s.order < t.order → later t.order < later s.order
  later-less s t m lt = counted steps m
    where
      fewer :
          (xs : List AgentStep)
          → length (filter (λ u. ltb t.order u.order) xs)
            ≤ length (filter (λ u. ltb s.order u.order) xs)
      fewer [] = omega arith
      fewer (x ∷ xs) = ground (arith, fewer xs, lt)

      counted :
          (xs : List AgentStep)
          → Memᴰ t xs
          → length (filter (λ u. ltb t.order u.order) xs)
            < length (filter (λ u. ltb s.order u.order) xs)
      counted [] k = elim k [ ]
      counted (x ∷ xs) k = elim (Memᴰ.cases_cons k) [
        | inl e ↦ ground (arith, fewer xs, lt, ap (λ (s : AgentStep). s.order) e)
        | inr n ↦ ground (arith, counted xs n, lt)
      ]

  -- The row has the path of the context.
  abbrev IsStored : AgentRun → Type 0
  IsStored run = run.stored.execution_path ≡ run.context.execution_path

  module _ (out : Outside) where
    abbrev EndsWithin : ℕ → Option AgentStep → AgentRun → Type 0
    EndsWithin fuel at_step run =
        (after : AgentRun) × (run_steps out fuel steps at_step run ≡ some after)
        × (length after.context.execution_path ≤ length run.context.execution_path + fuel)
        × (IsStored run → IsStored after)

    -- One step more in front of a run that ends.
    goes_on :
        (fuel : ℕ) (s : AgentStep) (run : AgentRun) (o : Option AgentStep)
        → get_next_step steps s (advance out s run).1 ≡ o
        → EndsWithin fuel o (advance out s run).0
        → EndsWithin (suc fuel) (some s) run
    unfolding run_steps advance
    goes_on fuel s run o e (after, ran, size, path) = (
      after,
      ap (λ o. run_steps out fuel steps o (advance out s run).0) e ∙ ran,
      omega (arith, size, path_grows s run),
      λ h. path refl,
    )
      where
        longer : (path : List ℕ) (i : ℕ) → length (path ++ i ∷ []) ≡ length path + 1
        longer [] i = omega arith
        longer (j ∷ path) i = omega (arith, longer path i)

        path_grows :
            (s : AgentStep) (run : AgentRun)
            → length (advance out s run).0.context.execution_path
              ≡ length run.context.execution_path + 1
        path_grows s run = longer run.context.execution_path s.id

    -- Fuel for a step and those behind it is enough.
    run_steps-EndsWithin :
        (fuel : ℕ) (s : AgentStep) (run : AgentRun)
        → Memᴰ s steps
        → later s.order < fuel
        → EndsWithin fuel (some s) run
    unfolding run_steps
    run_steps-EndsWithin zero s run m lt = absurd (omega (arith, lt))
    run_steps-EndsWithin (suc fuel) s run m lt =
        goes_on fuel s run (get_next_step steps s (advance out s run).1) refl (
          from (get_next_step steps s (advance out s run).1) refl
            (λ t. run_steps-EndsWithin fuel t (advance out s run).0))
      where
        from :
            (o : Option AgentStep)
            → get_next_step steps s (advance out s run).1 ≡ o
            → ((t : AgentStep)
                → Memᴰ t steps
                → later t.order < fuel
                → EndsWithin fuel (some t) (advance out s run).0)
            → EndsWithin fuel o (advance out s run).0
        from none e rest = ((advance out s run).0, refl, omega arith, λ h. h)
        from (some t) e rest =
            let (k, after) = next_step-later s t (advance out s run).1 m e in
            rest t k (omega (arith, later-less s t k after, lt))

    later-bound : (s : AgentStep) → Memᴰ s steps → later s.order < length steps
    later-bound s m = counted steps m
      where
        all : (xs : List AgentStep) → length (filter (λ u. ltb s.order u.order) xs) ≤ length xs
        all [] = omega arith
        all (x ∷ xs) = ground (arith, all xs)

        counted :
            (xs : List AgentStep)
            → Memᴰ s xs
            → length (filter (λ u. ltb s.order u.order) xs) < length xs
        counted [] k = elim k [ ]
        counted (x ∷ xs) k = elim (Memᴰ.cases_cons k) [
          | inl e ↦ ground (arith, all xs, ap (λ (s : AgentStep). s.order) e)
          | inr n ↦ ground (arith, counted xs n)
        ]

    run-EndsWithin : (run : AgentRun) → EndsWithin (length steps) (first_step steps) run
    unfolding run_steps
    run-EndsWithin run = from (first_step steps) refl
      where
        from : (o : Option AgentStep) → first_step steps ≡ o → EndsWithin (length steps) o run
        from none e = (run, refl, omega arith, λ h. h)
        from (some s) e =
            let m = first_step-mem steps s e in
            run_steps-EndsWithin (length steps) s run m (later-bound s m)

-- When the steps of an agent are in ascending order, their ids are unique, and no pointer leads to
-- its own step or an earlier one, then as many turns of the loop as there are steps are enough:
-- the execution ends, it is completed whatever the steps returned or threw, and at most as many
-- steps ran as there are.
pub execute_agent_ends :
    (out : Outside) (agent_id : String) (agent : Agent) (input : Json)
    (asc : IsAscending agent.steps) (unique : HasUniqueIds agent.steps)
    (forward : IsForward agent.steps)
    → (e : AgentExecution) × (execute_agent out (length agent.steps) agent_id (some agent) input
        ≡ some e)
      × (e.status ≡ completed)
      × (length e.execution_path ≤ length agent.steps)
unfolding execute_agent
execute_agent_ends out agent_id agent input asc unique forward =
    let (after, ran, size, path) =
      run-EndsWithin agent.steps asc unique forward out (begin out input agent) in
    (complete out after, rw (execute_agent, ran) refl, refl, rw (path refl) (omega (arith, size)))
