-- ===== src/Examples/Compliances.antt =====
-- A ratified object with a verified chain and two entries, and the theorem on its evidence at it.
use oneops.Base.{◌≡◌, refl, true, false, none, some, text_eq, [], ◌∷◌, Text, codes}
use oneops.Domain.Errors.{ok}
use oneops.Domain.Enums
use oneops.Domain.Objects.{ConfigObject}
use oneops.Domain.AuditTypes.{VerifyResult, sequence_gap}
use oneops.Timeline.Entries.{Entry}
use oneops.Timeline.Service.{Page}
use oneops.Compliance.Evidence.{
  Evidence, Summary, summary_of, count_passed, all_passed, flag_all, flag, lifecycle_text,
  authority_text, retention_text, add_entries, add_values,
}
use oneops.Compliance.Service.{
  Readers, build, reports, summaries, compose, evaluate_checks, no_break, reason, reason_text,
}

abbrev ratified_object : ConfigObject
ratified_object = record {
  cfg_id = codes "CFG-1";
  artifact = codes "DOC";
  version = codes "1.0";
  role = Enums.Role.governance;
  lifecycle = Enums.Lifecycle.ratified;
  retention_class = Enums.RetentionClass.current_baseline;
  authority = Enums.Authority.active;
  ratified_by = codes "alice";
  review_cycle = [];
  retention_policy = [];
  metadata = [];
  row_version = 2;
  created_at = 1;
  updated_at = 2;
}

abbrev verified_chain : VerifyResult
verified_chain = record {
  chain_id = codes "CFG-1";
  is_ok = true;
  checked = 1;
  head_seq = 1;
  head_hash = codes "h";
  first_break = none;
}

abbrev entry_of : Text → Text → Entry
entry_of component status = record {
  timestamp = 1;
  component = component;
  action = codes "done";
  status = status;
  duration_ms = 0;
  correlation = (codes "event_id", codes "evt_1") ∷ [];
  metadata = [];
}

abbrev two_entries : Page
two_entries = record {
  entries =
      entry_of (codes "audit") (codes "committed")
      ∷ entry_of (codes "policy") (codes "succeeded")
      ∷ [];
  next_offset = none;
}

abbrev answers : Readers
answers = record {
  get = λ id. ok ratified_object;
  list = λ limit cursor. ok (record { items = ratified_object ∷ []; next_cursor = [] });
  verify_chain = λ id. ok verified_chain;
  by_governance = λ id f. ok two_entries;
}

broken_reason : reason false (some (3, sequence_gap)) ≡ codes "sequence_gap"
unfolding reason reason_text
broken_reason = refl

abbrev report : Summary
report = record {
  governance_id = codes "CFG-1";
  lifecycle = codes "ratified";
  verified = true;
  compliant = true;
  checks_passed = 6;
  checks_total = 6;
  generated_at = 5;
}

one_report : reports answers (λ i. 5) [] 0 ≡ ok (record { items = report ∷ []; next_cursor = [] })
unfolding reports summaries build compose evaluate_checks summary_of count_passed all_passed
    flag_all flag lifecycle_text authority_text retention_text no_break text_eq add_entries
    add_values reason
one_report = refl
