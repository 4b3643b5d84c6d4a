-- ===== src/Collaboration/Workflow/Steps.antt =====
-- The steps of a run, on fuel: it is saved after each, with a result of each step so far.
use openclaw_enterprise_plug.Common.{
  ℕ, zero, suc, ◌+◌, ◌≤◌, ◌<◌, String, ◌≡◌, refl, sym, ap, ◌∙◌, ◌⊎◌, inl, inr, true, false, Option,
  none, some, List, [], ◌∷◌, ◌++◌, map, length, take, get_elem?, arith, eq_iff, if_intro, or_else,
  Bool-cases,
}
use openclaw_enterprise_plug.Kernel.Storage.Interface.{StorageBackend}
use openclaw_enterprise_plug.Collaboration.Workflow.{
  WorkflowStep, WorkflowDefinition, Instance, StepResult, task, condition_of, not_supported,
  signalled, Phase, executing, waiting, ended, running, waiting_signal, completed, failed, Run,
  workflow_instances, saved, changed, result_of, stepped, finished, run_step, end_run, step_once,
  is_executing, execute, execute_steps,
}

-- The step that a result is of.
abbrev pub result_id : StepResult → String
result_id (task id config) = id
result_id (condition_of id config) = id
result_id (not_supported id) = id
result_id (signalled id data_of) = id

get_elem?-lt :
    (l : List WorkflowStep) (i : ℕ) (s : WorkflowStep) → get_elem? l i ≡ some s → i < length l
get_elem?-lt [] i s h = cc
get_elem?-lt (x ∷ l) zero s h = omega arith
get_elem?-lt (x ∷ l) (suc i) s h = omega (arith, get_elem?-lt l i s h)

get_elem?-end : (l : List WorkflowStep) (i : ℕ) → get_elem? l i ≡ none → length l ≤ i
get_elem?-end [] i h = omega arith
get_elem?-end (x ∷ l) zero h = cc
get_elem?-end (x ∷ l) (suc i) h = omega (arith, get_elem?-end l i h)

-- The names of the steps before a position.
abbrev pub before : ℕ → List WorkflowStep → List String
before n l = map (λ s. s.id) (take n l)

before-suc :
    (l : List WorkflowStep) (i : ℕ) (s : WorkflowStep)
    → get_elem? l i ≡ some s
    → before (suc i) l ≡ before i l ++ s.id ∷ []
before-suc [] i s h = cc
before-suc (x ∷ l) zero s h = ap (λ o. elim o [ none ↦ [] | some y ↦ y.id ∷ [] ]) h
before-suc (x ∷ l) (suc i) s h = ap (λ m. x.id ∷ m) (before-suc l i s h)

map-result :
    (l : List StepResult) (r : StepResult)
    → map result_id (l ++ r ∷ []) ≡ map result_id l ++ result_id r ∷ []
map-result [] r = refl
map-result (x ∷ l) r = ap (λ m. result_id x ∷ m) (map-result l r)

result_of_id : (s : WorkflowStep) (x : StepResult) → result_of s ≡ some x → result_id x ≡ s.id
result_of_id s x h = ground (arith, h)

-- The steps before the index have their results, in their order.
abbrev pub HasResults : WorkflowDefinition → Instance → Type 0
HasResults d i = map result_id i.step_results ≡ before i.current_step_index d.steps

-- Where the run stands: while it goes on, it is running within the steps; it waits at a step, whose
-- name it holds; it ends behind the last step, or has failed.
abbrev pub IsAt : WorkflowDefinition → Phase → Instance → Type 0
IsAt d executing i = (i.state ≡ running) × (i.current_step_index ≤ length d.steps)
IsAt d (waiting ms) i =
    (s : WorkflowStep) × (i.state ≡ waiting_signal)
    × (get_elem? d.steps i.current_step_index ≡ some s)
    × (i.current_step_id ≡ some s.id)
IsAt d ended i =
    ((i.state ≡ completed) × (i.current_step_index ≡ length d.steps)) ⊎ (i.state ≡ failed)

module _ (b : StorageBackend Instance) (tenant : String) (d : WorkflowDefinition) where
  abbrev pub IsSaved : Run b → Type 0
  IsSaved r = b.read r.storage tenant workflow_instances r.instance_of.id ≡ some r.instance_of

  abbrev pub IsSound : Run b → Type 0
  IsSound r = IsSaved r × HasResults d r.instance_of × IsAt d r.phase r.instance_of

  pub changed-IsSaved :
      (now : ℕ) (i : Instance) (p : Phase) (r : Run b) → IsSaved (changed b tenant now i p r)
  unfolding saved
  changed-IsSaved now i p r = ground (
    arith,
    b.read-set now tenant workflow_instances i.id i r.storage tenant workflow_instances i.id,
    eq_iff tenant tenant,
    eq_iff workflow_instances workflow_instances,
    eq_iff i.id i.id,
  )

  -- A step with a result at once.
  pub stepped-IsSound :
      (now : ℕ) (s : WorkflowStep) (x : StepResult) (i : Instance) (r : Run b)
      → result_id x ≡ s.id
      → get_elem? d.steps i.current_step_index ≡ some s
      → i.state ≡ running
      → HasResults d i
      → IsSound (changed b tenant now (stepped b now x i) executing r)
  stepped-IsSound now s x i r e at st h = (
    changed-IsSaved now (stepped b now x i) executing r,
    map-result i.step_results x
        ∙ ap (λ l. l ++ result_id x ∷ []) h
        ∙ ap (λ n. before i.current_step_index d.steps ++ n ∷ []) e
        ∙ sym (before-suc d.steps i.current_step_index s at),
    (st, (let lt = get_elem?-lt d.steps i.current_step_index s at in omega (arith, lt))),
  )

  -- One call of a run that goes on: it ends or waits, or goes on one step further.
  abbrev Advances : ℕ → Run b → Type 0
  Advances n r = is_executing b r.phase ≡ true → r.instance_of.current_step_index ≡ suc n

  abbrev at_step : WorkflowStep → Instance → Instance
  at_step s i = record i { current_step_id = some s.id }

  -- The rest of a step, by its result.
  abbrev step_on : ℕ → WorkflowStep → Instance → Run b → Option StepResult → Run b
  step_on now s i r none =
      changed b tenant now (record i { state = waiting_signal })
        (waiting (or_else s.timeout_ms 86400000)) r
  step_on now s i r (some result) = changed b tenant now (stepped b now result i) executing r

  step_on-IsSound :
      (now : ℕ) (s : WorkflowStep) (i : Instance) (r : Run b) (o : Option StepResult)
      → ((x : StepResult) → o ≡ some x → result_id x ≡ s.id)
      → get_elem? d.steps i.current_step_index ≡ some s
      → i.state ≡ running
      → i.current_step_id ≡ some s.id
      → HasResults d i
      → IsSound (step_on now s i r o) × Advances i.current_step_index (step_on now s i r o)
  step_on-IsSound now s i r none ids at st c h =
      let w = record i { state = waiting_signal } in
      let ms = or_else s.timeout_ms 86400000 in
      ((changed-IsSaved now w (waiting ms) r, h, (s, refl, at, c)), λ e. ground (arith, e))
  step_on-IsSound now s i r (some x) ids at st c h =
      (stepped-IsSound now s x i r (ids x refl) at st h, λ _. refl)

  executing_at :
      (p : Phase) (i : Instance)
      → IsAt d p i
      → is_executing b p ≡ true
      → (i.state ≡ running) × (i.current_step_index ≤ length d.steps)
  executing_at executing i h e = h
  executing_at (waiting ms) i h e = absurd (ground (arith, e))
  executing_at ended i h e = absurd (ground (arith, e))

  end_run-IsSound :
      (now : ℕ) (r : Run b)
      → get_elem? d.steps r.instance_of.current_step_index ≡ none
      → r.instance_of.current_step_index ≤ length d.steps
      → HasResults d r.instance_of
      → IsSound (end_run b tenant now r)
  end_run-IsSound now r at le h =
      let past = get_elem?-end d.steps r.instance_of.current_step_index at in
      (
        changed-IsSaved now (finished b now r.instance_of) ended r,
        h,
        inl (refl, omega (arith, past, le)),
      )

  step_once-IsSound :
      (now : ℕ) (r : Run b)
      → IsSound r
      → is_executing b r.phase ≡ true
      → IsSound (step_once b tenant now d r)
        × Advances r.instance_of.current_step_index (step_once b tenant now d r)
  unfolding step_once
  step_once-IsSound now r h e =
      let (running_now, le) = executing_at r.phase r.instance_of h.2 e in
      by_step (get_elem? d.steps r.instance_of.current_step_index) refl running_now le
    where
      by_step :
          (o : Option WorkflowStep)
          → get_elem? d.steps r.instance_of.current_step_index ≡ o
          → r.instance_of.state ≡ running
          → r.instance_of.current_step_index ≤ length d.steps
          → IsSound (elim o [ none ↦ end_run b tenant now r | some s ↦ run_step b tenant now s r ])
            × Advances r.instance_of.current_step_index
                (elim o [ none ↦ end_run b tenant now r | some s ↦ run_step b tenant now s r ])
      by_step none at st le = (end_run-IsSound now r at le h.1, λ e. ground (arith, e))
      by_step (some s) at st le =
          step_on-IsSound now s (at_step s r.instance_of)
            (changed b tenant now (at_step s r.instance_of) executing r) (result_of s)
            (result_of_id s) at st refl h.1

  -- The run is sound and has come to a wait or an end.
  abbrev pub Rests : Run b → Type 0
  Rests r = IsSound r × (is_executing b r.phase ≡ false)

  -- Fuel for the steps that are left, and one call more, is enough.
  execute-Rests :
      (fuel now : ℕ) (r : Run b)
      → (is_executing b r.phase ≡ true → length d.steps < fuel + r.instance_of.current_step_index)
      → IsSound r
      → Rests (execute b fuel tenant now d r)
  execute-Rests zero now r l h = elim (Bool-cases (is_executing b r.phase)) [
    | inl e ↦
        let (st, le) = executing_at r.phase r.instance_of h.2 e in
        let lt = l e in absurd (omega (arith, lt, le))
    | inr e ↦ (h, e)
  ]
  execute-Rests (suc fuel) now r l h =
      if_intro Rests (is_executing b r.phase)
        (λ e.
          let (h', next) = step_once-IsSound now r h e in
          let lt = l e in
          execute-Rests fuel now (step_once b tenant now d r)
            (λ e'. (let n = next e' in omega (arith, n, lt))) h')
        (λ e. (h, e))

  pub execute_steps-Rests :
      (now : ℕ) (r : Run b) → IsSound r → Rests (execute_steps b tenant now d r)
  unfolding execute_steps
  execute_steps-Rests now r h = execute-Rests (suc (length d.steps)) now r (λ e. omega arith) h
