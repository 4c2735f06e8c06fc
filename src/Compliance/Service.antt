-- ===== src/Compliance/Service.antt =====
-- The Service of internal/compliance/compliance.go and `evaluateChecks` of checks.go. The readers are
-- arguments; `now` is the time of a bundle, and metrics are left out.
use oneops.Base.{
  ℕ, suc, Bool, true, false, not, ◌||◌, Option, none, some, List, [], ◌∷◌, Text, codes,
  if◌then◌else◌, is_empty,
}
use oneops.Domain.Errors.{Result, ok, ◌>>=◌}
use oneops.Domain.Objects.{ConfigObject}
use oneops.Domain.AuditTypes.{
  VerifyResult, BreakReason, sequence_gap, sequence_duplicate, prev_hash_mismatch,
  this_hash_mismatch, hash_input_invalid, audit_chain_id,
}
use oneops.Audit.Hash.{below_one}
use oneops.Timeline.Entries.{Entry}
use oneops.Timeline.Service.{Filter, Page}
use oneops.Compliance.Evidence.{
  lifecycle_text, authority_text, retention_text, GovernanceSummary, IntegritySummary, Check,
  Evidence, Summary, summary_of, by_component, correlation_ids_of, all_passed, Flags, flag_all,
  lifecycle_complete,
}

unfoldable pub reason_text : BreakReason → Text
reason_text sequence_gap = codes "sequence_gap"
reason_text sequence_duplicate = codes "sequence_duplicate"
reason_text prev_hash_mismatch = codes "prev_hash_mismatch"
reason_text this_hash_mismatch = codes "this_hash_mismatch"
reason_text hash_input_invalid = codes "hash_input_invalid"

-- `reason`, with "verified" as what is said of a good chain. No break reason is empty.
unfoldable pub reason : Bool → Option (ℕ × BreakReason) → Text
reason true break = codes "verified"
reason false none = codes "not verified"
reason false (some b) = reason_text b.1

-- `FirstBreakSeq == nil`
unfoldable pub no_break : Option (ℕ × BreakReason) → Bool
no_break none = true
no_break (some b) = false

abbrev pub no_flags : Flags
no_flags = record { audit_present = false; failed_policy = false; has_approval = false }

-- `evaluateChecks`
unfoldable pub evaluate_checks : GovernanceSummary → IntegritySummary → List Entry → List Check
evaluate_checks gov integ entries =
    let f = flag_all no_flags entries in
    record {
      id = codes "audit-chain-verified";
      passed = integ.verified;
      detail = reason integ.verified integ.first_break;
    }
    ∷ record {
      id = codes "no-failed-integrity-verification";
      passed = no_break integ.first_break;
      detail = [];
    }
    ∷ record { id = codes "audit-events-present"; passed = f.audit_present; detail = [] }
    ∷ record {
      id = codes "governance-lifecycle-complete";
      passed = lifecycle_complete gov.lifecycle;
      detail = gov.lifecycle;
    }
    ∷ record {
      id = codes "required-approvals-present";
      passed = not (is_empty gov.ratified_by) || f.has_approval;
      detail = [];
    }
    ∷ record { id = codes "policy-executions-completed"; passed = not f.failed_policy; detail = [] }
    ∷ []

-- The answer of `GovernanceReader.List`: objects and the next cursor.
pub record ObjectPage : Type 0 where
  pub items : List ConfigObject
  pub next_cursor : Text

pub record ReportPage : Type 0 where
  pub items : List Summary
  pub next_cursor : Text

-- The three readers.
pub record Readers : Type 0 where
  pub get : Text → Result ConfigObject
  pub list : ℕ → Text → Result ObjectPage
  pub verify_chain : Text → Result VerifyResult
  pub by_governance : Text → Filter → Result Page

-- `timeline.Filter{Limit: 10000}`
abbrev pub whole_timeline : Filter
whole_timeline = record {
  from_time = 0;
  to_time = 0;
  component = [];
  status = [];
  offset = 0;
  limit = 10000;
}

-- `GovernanceSummary{…}` in `build`
abbrev pub governance_summary : ConfigObject → GovernanceSummary
governance_summary obj = record {
  cfg_id = obj.cfg_id;
  lifecycle = lifecycle_text obj.lifecycle;
  retention_class = retention_text obj.retention_class;
  authority = authority_text obj.authority;
  row_version = obj.row_version;
  ratified_by = obj.ratified_by;
  created_at = obj.created_at;
  updated_at = obj.updated_at;
}

-- `IntegritySummary{…}` in `build`
abbrev pub integrity_summary : Text → VerifyResult → IntegritySummary
integrity_summary chain_id vr = record {
  chain_id = chain_id;
  verified = vr.is_ok;
  checked = vr.checked;
  head_seq = vr.head_seq;
  first_break = vr.first_break;
}

-- The end of `build`, once all is read.
unfoldable pub compose : ℕ → Text → ConfigObject → VerifyResult → List Entry → Evidence
compose now gov_id obj vr entries =
    let gov = governance_summary obj in
    let integ = integrity_summary (audit_chain_id gov_id) vr in
    let results = evaluate_checks gov integ entries in
    record {
      governance_id = gov_id;
      generated_at = now;
      governance = gov;
      integrity = integ;
      timeline = entries;
      webhooks = by_component entries (codes "webhook");
      replays = by_component entries (codes "replay");
      policies = by_component entries (codes "policy");
      correlation_ids = correlation_ids_of entries;
      checks = results;
      compliant = all_passed results;
    }

module _ (readers : Readers) (now : ℕ) where
  -- `Service.build`
  unfoldable pub build : Text → Result Evidence
  build gov_id = readers.get gov_id >>= λ obj.
      readers.verify_chain (audit_chain_id gov_id) >>= λ vr.
      readers.by_governance gov_id whole_timeline >>= λ page.
      ok (compose now gov_id obj vr page.entries)

  -- `Service.Evidence`
  abbrev pub evidence : Text → Result Evidence
  evidence = build

  -- `Service.Summary`
  abbrev pub summary : Text → Result Summary
  summary gov_id = build gov_id >>= λ ev. ok (summary_of ev)

  -- `Service.Checks`
  abbrev pub checks : Text → Result (List Check)
  checks gov_id = build gov_id >>= λ ev. ok ev.checks

-- `clock` gives the time of each bundle of a report, in their order.
module _ (readers : Readers) (clock : ℕ → ℕ) where
  -- The loop of `Service.Reports`.
  unfoldable pub summaries : ℕ → List ConfigObject → Result (List Summary)
  summaries i [] = ok []
  summaries i (obj ∷ objs) =
      let rest = summaries (suc i) objs in
      build readers (clock i) obj.cfg_id >>= λ ev. rest >>= λ out. ok (summary_of ev ∷ out)

  -- `Service.Reports`
  unfoldable pub reports : Text → ℕ → Result ReportPage
  reports cursor limit = readers.list (if below_one limit then 50 else limit) cursor >>= λ page.
      summaries 0 page.items >>= λ out. ok (record { items = out; next_cursor = page.next_cursor })
