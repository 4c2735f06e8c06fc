-- ===== src/Compliance/Evidence.antt =====
-- The bundle of internal/compliance/compliance.go and the rules of checks.go. The descriptions of the
-- rules are left out. FirstBreakSeq and BreakReason are one option, as in VerifyResult.
use oneops.Base.{
  ℕ, suc, Bool, true, false, not, ◌&&◌, ◌||◌, Option, List, [], ◌∷◌, Text, codes, text_eq,
  if◌then◌else◌, is_empty, length, filter, StringMap, get_or_empty, mem,
}
use oneops.Base.Sorting.{sort_strings}
use oneops.Domain.Enums.{Lifecycle, RetentionClass, Authority}
use oneops.Domain.AuditTypes.{BreakReason}
use oneops.Timeline.Entries.{Entry}

-- `string(obj.Lifecycle)`
unfoldable pub lifecycle_text : Lifecycle → Text
lifecycle_text Lifecycle.draft = codes "draft"
lifecycle_text Lifecycle.in_review = codes "in_review"
lifecycle_text Lifecycle.ratified = codes "ratified"
lifecycle_text Lifecycle.approved = codes "approved"
lifecycle_text Lifecycle.in_progress = codes "in_progress"
lifecycle_text Lifecycle.complete = codes "complete"
lifecycle_text Lifecycle.suspended = codes "suspended"
lifecycle_text Lifecycle.deprecated = codes "deprecated"
lifecycle_text Lifecycle.withdrawn = codes "withdrawn"
lifecycle_text (Lifecycle.other s) = s

-- `string(obj.Authority)`
unfoldable pub authority_text : Authority → Text
authority_text Authority.active = codes "active"
authority_text Authority.historical = codes "historical"
authority_text Authority.non_normative = codes "non_normative"
authority_text (Authority.other s) = s

-- `string(obj.RetentionClass)`
unfoldable pub retention_text : RetentionClass → Text
retention_text RetentionClass.current_baseline = codes "current_baseline"
retention_text RetentionClass.current_planning = codes "current_planning"
retention_text RetentionClass.historical_record = codes "historical_record"
retention_text RetentionClass.superseded_plan = codes "superseded_planning"
retention_text RetentionClass.historical_evidence = codes "historical_evidence"
retention_text RetentionClass.audit_record = codes "audit_record"
retention_text RetentionClass.working_material = codes "working_material"
retention_text (RetentionClass.other s) = s

pub record GovernanceSummary : Type 0 where
  pub cfg_id : Text
  pub lifecycle : Text
  pub retention_class : Text
  pub authority : Text
  pub row_version : ℕ
  pub ratified_by : Text
  pub created_at : ℕ
  pub updated_at : ℕ

pub record IntegritySummary : Type 0 where
  pub chain_id : Text
  pub verified : Bool
  pub checked : ℕ
  pub head_seq : ℕ
  pub first_break : Option (ℕ × BreakReason)

pub record Check : Type 0 where
  pub id : Text
  pub passed : Bool
  pub detail : Text

pub record Evidence : Type 0 where
  pub governance_id : Text
  pub generated_at : ℕ
  pub governance : GovernanceSummary
  pub integrity : IntegritySummary
  pub timeline : List Entry
  pub webhooks : List Entry
  pub replays : List Entry
  pub policies : List Entry
  pub correlation_ids : List Text
  pub checks : List Check
  pub compliant : Bool

pub record Summary : Type 0 where
  pub governance_id : Text
  pub lifecycle : Text
  pub verified : Bool
  pub compliant : Bool
  pub checks_passed : ℕ
  pub checks_total : ℕ
  pub generated_at : ℕ

-- The loop of `summaryOf`.
unfoldable pub count_passed : ℕ → List Check → ℕ
count_passed passed [] = passed
count_passed passed (c ∷ cs) = count_passed (if c.passed then suc passed else passed) cs

-- `summaryOf`
unfoldable pub summary_of : Evidence → Summary
summary_of ev = record {
  governance_id = ev.governance_id;
  lifecycle = ev.governance.lifecycle;
  verified = ev.integrity.verified;
  compliant = ev.compliant;
  checks_passed = count_passed 0 ev.checks;
  checks_total = length ev.checks;
  generated_at = ev.generated_at;
}

-- `byComponent`
abbrev pub by_component : List Entry → Text → List Entry
by_component entries component = filter (λ e. text_eq e.component component) entries

-- The set `seen` of `correlationIDs`.
unfoldable pub add_values : List Text → StringMap → List Text
add_values seen [] = seen
add_values seen (kv ∷ kvs) =
    add_values (if is_empty kv.1 || mem kv.1 seen then seen else kv.1 ∷ seen) kvs

unfoldable pub add_entries : List Text → List Entry → List Text
add_entries seen [] = seen
add_entries seen (e ∷ es) = add_entries (add_values seen e.correlation) es

-- `correlationIDs`, whose sort leaves nothing of the order of the set.
abbrev pub correlation_ids_of : List Entry → List Text
correlation_ids_of entries = sort_strings (add_entries [] entries)

-- `allPassed`
unfoldable pub all_passed : List Check → Bool
all_passed [] = true
all_passed (c ∷ cs) = if not c.passed then false else all_passed cs

-- The flags of the loop of `evaluateChecks`.
pub record Flags : Type 0 where
  pub audit_present : Bool
  pub failed_policy : Bool
  pub has_approval : Bool

-- `e.Status == "failed" || e.Status == "dead_letter"`
abbrev pub is_failed : Entry → Bool
is_failed e = text_eq e.status (codes "failed") || text_eq e.status (codes "dead_letter")

-- `op == "ratification" || op == "approval"`
abbrev pub is_approval : Entry → Bool
is_approval e =
    let op = get_or_empty (codes "operation") e.metadata in
    text_eq op (codes "ratification") || text_eq op (codes "approval")

-- The body of the loop.
unfoldable pub flag : Flags → Entry → Flags
flag f e =
    if text_eq e.component (codes "audit")
    then record f { audit_present = true }
    else (if text_eq e.component (codes "policy")
        then (if is_failed e then record f { failed_policy = true } else f)
        else (if text_eq e.component (codes "governance")
            then (if is_approval e then record f { has_approval = true } else f)
            else f))

unfoldable pub flag_all : Flags → List Entry → Flags
flag_all f [] = f
flag_all f (e ∷ es) = flag_all (flag f e) es

-- `lifecycleComplete`
abbrev pub lifecycle_complete : Text → Bool
lifecycle_complete l =
    not (is_empty l) && not (text_eq l (codes "draft")) && not (text_eq l (codes "in_review"))
