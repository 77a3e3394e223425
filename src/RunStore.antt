-- ===== src/RunStore.antt =====
-- app/run_store.py: the writes of the run aggregate and of its steps.
use enterprise_agentops.Base.{
  ℕ, ◌+◌, String, ◌<>◌, str_eq, Bool, true, false, ◌&&◌, Option, none, some, List, [], ◌∷◌, ◌++◌,
  map, select, maximum, ltb, sort_by,
}
use enterprise_agentops.Base.Table.{find, update}
use enterprise_agentops.Values.{Value, Items, nil}
use enterprise_agentops.Exceptions.{Exception}
use enterprise_agentops.Columns.{items_column, dump}
use enterprise_agentops.Exec.{Exec, pure, raise, lift, gets, modify, ◌>>=◌, ◌>>◌}
use enterprise_agentops.Storage.{
  RunStatus, running, waiting_for_approval, completed, failed, cancelled, StepType, Run, RunStep,
  Storage,
}
use enterprise_agentops.Storage.Host.{Host, utc_now, new_uuid}

abbrev pub unknown_run : String → Exception
unknown_run run_id = Exception.value_error "ValueError" ("Unknown run ID: " <> run_id)

abbrev pub is_running : RunStatus → Bool
is_running running = true
is_running _ = false

-- The numbers of the steps of one run, in the order of the table.
unfoldable pub step_numbers : String → List RunStep → List ℕ
step_numbers run_id steps =
    map (λ (r : RunStep). r.step_number) (select (λ (r : RunStep). str_eq r.run_id run_id) steps)

module _ {Outside : Type 0} (host : Host) where
  unfoldable pub create_run : String → Option String → Exec (Storage Outside) String
  create_run user_message requested_by_user_id = do
    timestamp ← utc_now host
    run_id ← new_uuid host
    let row : Run = record {
      run_id = run_id;
      status = running;
      requested_by_user_id = requested_by_user_id;
      user_message = user_message;
      final_answer = none;
      conversation = nil;
      created_at = timestamp;
      updated_at = timestamp;
    }
    modify (λ s. record s { runs = s.runs ++ row ∷ [] })
    pure run_id

  unfoldable pub get_run : String → Exec (Storage Outside) (Option Run)
  get_run run_id = gets (λ s. find (λ (r : Run). r.run_id) run_id s.runs)

  unfoldable pub write_run : String → (Run → Run) → Option Run → Exec (Storage Outside) Unit
  write_run run_id changes none = raise (unknown_run run_id)
  write_run run_id changes (some _) = do
    timestamp ← utc_now host
    modify (λ s. record s {
      runs =
          update (λ (r : Run). r.run_id) run_id (λ r. record (changes r) { updated_at = timestamp })
            s.runs;
    })

  -- `apply(run_id, **changes)`
  unfoldable pub apply : String → (Run → Run) → Exec (Storage Outside) Unit
  unfolding write_run get_run
  apply run_id changes = do found ← get_run run_id; write_run run_id changes found

  unfoldable pub save_conversation : String → Items → Exec (Storage Outside) Unit
  save_conversation run_id conversation = do
    column ← lift (items_column conversation)
    apply run_id (λ r. record r { conversation = column })

  unfoldable pub await_approval : String → Items → Exec (Storage Outside) Unit
  await_approval run_id conversation = do
    column ← lift (items_column conversation)
    apply run_id (λ r. record r { status = waiting_for_approval; conversation = column })

  unfoldable pub resume : String → Exec (Storage Outside) Unit
  resume run_id = apply run_id (λ r. record r { status = running })

  unfoldable pub complete : String → String → Exec (Storage Outside) Unit
  complete run_id answer =
      apply run_id (λ r. record r { status = completed; final_answer = some answer })

  unfoldable pub fail : String → String → Exec (Storage Outside) Unit
  fail run_id answer = apply run_id (λ r. record r { status = failed; final_answer = some answer })

  unfoldable pub cancel : String → String → Exec (Storage Outside) Unit
  cancel run_id answer =
      apply run_id (λ r. record r { status = cancelled; final_answer = some answer })

  -- `add_step`; an argument that is left out is None
  unfoldable pub add_step :
      String → StepType → Option String → Value → Value → Value → Exec (Storage Outside) ℕ
  add_step run_id step_type tool_name arguments result error = do
    used ← gets (λ s. step_numbers run_id s.steps)
    arguments_column ← lift (dump arguments)
    result_column ← lift (dump result)
    error_column ← lift (dump error)
    timestamp ← utc_now host
    let row : RunStep = record {
      run_id = run_id;
      step_number = maximum used + 1;
      step_type = step_type;
      tool_name = tool_name;
      arguments = arguments_column;
      result = result_column;
      error = error_column;
      created_at = timestamp;
    }
    modify (λ s. record s { steps = s.steps ++ row ∷ [] })
    pure (maximum used + 1)

-- `list_stale_running`: the ids of the runs still RUNNING and last updated before the cutoff,
-- by `updated_at`.
unfoldable pub stale : ℕ → Run → Bool
stale cutoff r = is_running r.status && ltb r.updated_at cutoff

unfoldable pub list_stale_running : {Outside : Type 0} → ℕ → Exec (Storage Outside) (List String)
list_stale_running cutoff = gets (λ s.
    map (λ (r : Run). r.run_id)
      (sort_by (λ (r : Run). r.updated_at) (select (stale cutoff) s.runs)))

-- `list_steps`: by step number
unfoldable pub list_steps : {Outside : Type 0} → String → Exec (Storage Outside) (List RunStep)
list_steps run_id = gets (λ s.
    sort_by (λ (r : RunStep). r.step_number)
      (select (λ (r : RunStep). str_eq r.run_id run_id) s.steps))
