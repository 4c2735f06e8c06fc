-- ===== src/Examples/Policies.antt =====
-- An execution whose action panics, and the theorem on the executor at it.
use oneops.Base.{◌≡◌, refl, true, false, some, [], ◌∷◌, Text, codes, text_eq}
use oneops.Domain.Errors.{Error}
use oneops.Events.World.{WorldOf}
use oneops.Policy.Types.{Policy, Execution, exec_pending}
use oneops.Policy.Tables.{PolicyTables, get_execution, get_policy}
use oneops.Policy.Actions.{Registry, panicked}
use oneops.Policy.Executor.{ExecutorConfig, attempt_execution}
use oneops.Policy.Executor.Recorded.{Recorded, runs, attempt_execution-Recorded}
use oneops.Examples.Deliveries.{calm}

abbrev panics : Registry
panics = (codes "boom", λ n ev config. panicked (codes "nil map")) ∷ []

abbrev quiet : Error → Text
quiet x = []

abbrev settings : ExecutorConfig
settings = record { batch_limit = 10; base_backoff = 5; max_backoff = 60 }

abbrev execution : Execution
execution = record {
  id = codes "pex_1";
  policy_id = codes "pol_1";
  event = record {
    event_id = codes "evt_1";
    operation_id = codes "op_1";
    operation = codes "ratification";
    actor = codes "alice";
    cfg_id = codes "cfg_1";
    seq = 1;
    occurred_at = 0;
    metadata = [];
  };
  status = exec_pending;
  retry_count = 0;
  error = [];
  started_at = 0;
  ended_at = 0;
  next_attempt_at = 0;
  created_at = 0;
}

abbrev policy : Policy
policy = record {
  id = codes "pol_1";
  name = codes "p";
  enabled = true;
  condition = record { operations = []; resources = []; actors = []; metadata = [] };
  action = record { action_type = codes "boom"; config = codes "{}" };
  max_retries = 3;
  created_at = 0;
  updated_at = 0;
}

abbrev executing : WorldOf PolicyTables
executing = record {
  audit = record { events = []; heads = [] };
  store = record {
    policies = policy ∷ [];
    executions = execution ∷ record execution { id = codes "pex_2" } ∷ [];
    cursors = [];
  };
  tick = 0;
}

another_id : text_eq (codes "pex_1") (codes "pex_2") ≡ false
unfolding text_eq
another_id = refl

found_execution : get_execution (codes "pex_1") executing.store ≡ some execution
unfolding get_execution text_eq
found_execution = refl

attempt_execution-Recorded_example :
    Recorded panics quiet calm settings
      (λ n. refl)
      execution
      (codes "pex_2")
      another_id
      (get_policy (codes "pol_1") executing.store)
      (runs panics quiet calm settings (λ n. refl) execution (codes "pex_2") another_id executing)
      executing
      (attempt_execution panics quiet calm settings execution executing)
attempt_execution-Recorded_example =
    attempt_execution-Recorded panics quiet calm settings (λ n. refl) execution (codes "pex_2")
      another_id executing found_execution
