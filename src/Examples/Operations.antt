-- ===== src/Examples/Operations.antt =====
-- The theorems on governance at a ratification, a withdrawal and the life of a withdrawn object.
use oneops.Base.{ℕ, ◌≡◌, refl, ◌⊎◌, ◌↔◌, false, none, trim_space}
use oneops.Domain.Errors.{Error, Result, ok, err, unsupported_operation}
use oneops.Domain.Enums.{
  Operation, ratification, amendment, withdrawn, draft, active, historical, RetentionClass,
  current_baseline, valid_role, valid_lifecycle, valid_retention, valid_authority, no_authority,
}
use oneops.Domain.Objects.{ConfigObject, validate_object, is_semver}
use oneops.Governance.Transition.{Command, Plan, planned, plan_transition}
use oneops.Governance.Transition.Laws.{
  Unsupported, Effects, plan_transition-Unsupported, plan_transition-Effects,
}
use oneops.Governance.Transition.Lifetimes.{
  WithdrawsBaseline, Evolves, plan_transition-valid, Evolves-withdrawn,
}
use oneops.Governance.Engine.{Outcome, execute}
use oneops.Governance.Engine.Atomicity.{Executed, execute-atomic}
use oneops.Governance.Tables.{Database, wiring}
use oneops.Governance.Tables.Execute.{Sound}
use oneops.Governance.Tables.Invariant.{Effect, execute-Effect}
use oneops.Domain.AuditTypes.{validate_input}
use oneops.Audit.Hash.{
  chain_hash, check_hash_input, genesis_prev_hash, derive_event_id, hash_fields, write_len_prefixed,
  write_uint64, hex,
}
use oneops.Audit.Verifier.{unix_nano}
use oneops.Audit.Resolve.{resolve, canonicalize, trim_newlines}
use oneops.Audit.Tables.{
  ensure_chain_head, read_chain_head, append_audit_event, upsert_chain_head, write_head,
}
use oneops.Audit.Appender.{append_tx, append_after}
use oneops.Governance.Engine.{
  transact, stage, validate_command, apply_plan, apply_update, apply_edge, emit_audit,
}
use oneops.Governance.Tables.{get_for_update, apply_dimensions, update_objects, append_audit}
use oneops.Examples.Fixtures.{checksum}
use oneops.Governance.Tables.History.{Call, execute_all, execute_all-verifies}
use oneops.Domain.AuditTypes.{VerifyResult}
use oneops.Audit.Verifier.{verify_chain}
use oneops.Audit.Tables.{verify_range_reader}
use oneops.Audit.Appender.Sealed.{rows}
use oneops.Audit.Appender.History.{max_int64}
use oneops.Base.{Bool, true, false, List, [], ◌∷◌, codes, length, trim_space, text_eq, ◌+◌}
use oneops.Domain.Enums.{withdrawal, valid_operation, operation_text}
use oneops.Examples.Fixtures.{
  sum32, text_json, any_jsonb, draft_object, ratify, one_object, empty_payload,
}

abbrev noon : ℕ
noon = 63900000000000000000

draft-valid : validate_object draft_object ≡ ok tt
unfolding validate_object is_semver trim_space valid_role valid_lifecycle valid_retention
    valid_authority no_authority
draft-valid = refl

one_object-Sound : Sound sum32 one_object
one_object-Sound = record {
  unique = (refl, tt);
  valid = (draft-valid, tt);
  audit = record { chain = λ c. tt; next = λ c. refl; last = λ c. refl };
}

execute-Effect_example :
    let run =
      execute
        (wiring sum32 any_jsonb (ok tt) (ok tt) noon empty_payload)
        text_json
        sum32
        ratify
        one_object in
    ((x : Error) × (run ≡ (err x, one_object)))
    ⊎ ((res : Outcome) × (u : Database) × (run ≡ (ok res, u))
        × Effect ratify res one_object u
        × Sound sum32 u)
execute-Effect_example =
    execute-Effect text_json sum32 any_jsonb (ok tt) (ok tt) noon empty_payload ratify one_object
      one_object-Sound

execute-atomic_example :
    let ports = wiring sum32 any_jsonb (ok tt) (ok tt) noon empty_payload in
    let run = execute ports text_json sum32 ratify one_object in
    ((x : Error) × (run ≡ (err x, one_object)))
    ⊎ ((res : Outcome) × (s' : Database) × (run ≡ (ok res, s'))
        × Executed ports text_json sum32 ratify one_object res s')
execute-atomic_example =
    execute-atomic (wiring sum32 any_jsonb (ok tt) (ok tt) noon empty_payload) text_json sum32
      ratify one_object

plan_transition-Unsupported_example :
    (plan_transition amendment draft_object ratify ≡ err (unsupported_operation amendment))
    ↔ Unsupported amendment
plan_transition-Unsupported_example = plan_transition-Unsupported amendment draft_object ratify

abbrev plan_of : Result Plan → Plan
plan_of (ok p) = p
plan_of (err x) = record {
  lifecycle = draft;
  retention = current_baseline;
  authority = active;
  remove = false;
  edge = none;
}

abbrev ratified_plan : Plan
ratified_plan = plan_of (plan_transition ratification draft_object ratify)

ratification-planned : plan_transition ratification draft_object ratify ≡ ok ratified_plan
unfolding plan_transition
ratification-planned = refl

ratification-kept : ratified_plan.remove ≡ false
unfolding plan_transition
ratification-kept = refl

plan_transition-Effects_example : Effects ratification draft_object ratify ratified_plan
plan_transition-Effects_example =
    plan_transition-Effects ratification draft_object ratify ratified_plan ratification-planned

plan_transition-valid_example :
    (validate_object (planned draft_object ratified_plan) ≡ ok tt)
    ↔ (¬ WithdrawsBaseline ratification draft_object)
plan_transition-valid_example =
    plan_transition-valid ratification draft_object ratify ratified_plan draft-valid
      ratification-planned ratification-kept

abbrev withdrawn_object : ConfigObject
withdrawn_object = record draft_object { lifecycle = withdrawn; authority = historical }

abbrev archive : Command
archive = record ratify {
  operation = Operation.archiving;
  target_retention = RetentionClass.audit_record;
}

abbrev archived_plan : Plan
archived_plan = plan_of (plan_transition Operation.archiving withdrawn_object archive)

archiving-planned : plan_transition Operation.archiving withdrawn_object archive ≡ ok archived_plan
unfolding plan_transition
archiving-planned = refl

archiving-kept : archived_plan.remove ≡ false
unfolding plan_transition
archiving-kept = refl

Evolves-withdrawn_example :
    ((planned withdrawn_object archived_plan).lifecycle ≡ withdrawn)
    × ((planned withdrawn_object archived_plan).authority ≡ historical)
Evolves-withdrawn_example =
    Evolves-withdrawn withdrawn_object (planned withdrawn_object archived_plan) refl (λ e. cc e)
      (Evolves.step Operation.archiving archive archived_plan Evolves.start archiving-planned
        archiving-kept)

abbrev withdraw : Command
withdraw = record ratify {
  operation = withdrawal;
  operation_id = codes "op_2";
  expected_row_version = 2;
}

abbrev two_operations : List Call
two_operations =
    record { begun = ok tt; committed = ok tt; now = noon; command = ratify }
    ∷ record { begun = ok tt; committed = ok tt; now = noon + 1000; command = withdraw }
    ∷ []

execute_all-verifies_example :
    let u = execute_all text_json sum32 any_jsonb empty_payload two_operations one_object in
    Sound sum32 u
    × (res : VerifyResult) × (verify_chain sum32
          (codes "cfg_1")
          (verify_range_reader (codes "cfg_1") 1 max_int64 u.audit)
        ≡ ok res)
    × (res.is_ok ≡ true)
    × (res.checked ≡ length (rows (codes "cfg_1") u.audit))
execute_all-verifies_example =
    execute_all-verifies text_json sum32 any_jsonb empty_payload two_operations one_object
      (codes "cfg_1") one_object-Sound

abbrev succeeded : Result Outcome → Bool
succeeded (ok res) = true
succeeded (err x) = false

abbrev ratified : Result Outcome × Database
ratified =
    execute (wiring sum32 any_jsonb (ok tt) (ok tt) noon empty_payload) text_json sum32 ratify
      one_object

ratified_test : succeeded ratified.0 ≡ true
unfolding execute transact stage validate_command get_for_update plan_transition apply_plan
    apply_update apply_dimensions update_objects apply_edge emit_audit resolve canonicalize
    trim_newlines validate_input append_audit append_tx append_after chain_hash check_hash_input
    genesis_prev_hash derive_event_id ensure_chain_head read_chain_head append_audit_event
    upsert_chain_head write_head hash_fields checksum write_len_prefixed write_uint64 hex
    operation_text unix_nano valid_operation validate_object is_semver trim_space valid_role
    valid_lifecycle valid_retention valid_authority no_authority text_eq
ratified_test = refl
