-- ===== src/Examples/Fixtures.antt =====
-- A hash of 32 bytes, a reader of JSON, events, objects and commands for the examples.
use oneops.Base.{ℕ, ◌+◌, ◌*◌, ◌%◌, Bool, true, false, [], ◌∷◌, ◌++◌, Text, codes, replicate, arith}
use oneops.Domain.Enums.{
  draft, working, working_material, non_normative, ratification, RetentionClass,
}
use oneops.Domain.Errors.{Result, ok}
use oneops.Domain.Objects.{ConfigObject}
use oneops.Audit.Hash.EventIds.{IsBytes}
use oneops.Audit.Resolve.{AppendInput, Json}
use oneops.Governance.Engine.{Outcome}
use oneops.Governance.Transition.{Command}
use oneops.Governance.Tables.{Database}

unfoldable pub checksum : Text → ℕ
checksum [] = 7
checksum (b ∷ s) = (b + 31 * checksum s) % 65521

-- A checksum in 32 bytes stands for SHA-256.
abbrev pub sum32 : Text → Text
sum32 s = (checksum s % 256) ∷ replicate 31 1

pub sum32-IsBytes : (s : Text) → IsBytes (sum32 s)
sum32-IsBytes s = ground arith

-- Texts as values.
abbrev pub text_json : Json
text_json = record {
  Value = Text;
  valid = λ s. true;
  decode = λ s. ok (s, []);
  more = λ rest. false;
  encode = λ v. ok (v ++ 10 ∷ []);
}

abbrev pub any_jsonb : Text → Bool
any_jsonb s = true

abbrev pub input_one : AppendInput
input_one = record {
  chain_id = codes "cfg_1";
  operation_id = codes "op_1";
  event_id = codes "evt_1";
  operation = ratification;
  actor = codes "alice";
  occurred_at = 63900000000000001234;
  payload_canonical = codes "{}";
}

abbrev pub input_two : AppendInput
input_two = record input_one { operation_id = codes "op_2"; event_id = codes "evt_2" }

abbrev pub draft_object : ConfigObject
draft_object = record {
  cfg_id = codes "cfg_1";
  artifact = codes "runbook";
  version = codes "1.0.0";
  role = working;
  lifecycle = draft;
  retention_class = working_material;
  authority = non_normative;
  ratified_by = [];
  review_cycle = [];
  retention_policy = codes "keep";
  metadata = [];
  row_version = 1;
  created_at = 1;
  updated_at = 1;
}

abbrev pub ratify : Command
ratify = record {
  operation = ratification;
  cfg_id = codes "cfg_1";
  actor = codes "alice";
  operation_id = codes "op_1";
  expected_row_version = 1;
  target_retention = RetentionClass.other [];
  successor_id = [];
}

abbrev pub one_object : Database
one_object = record {
  objects = draft_object ∷ [];
  edges = [];
  audit = record { events = []; heads = [] };
}

abbrev pub empty_payload : Outcome → Result Text
empty_payload res = ok (codes "{}")
