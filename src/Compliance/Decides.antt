-- ===== src/Compliance/Decides.antt =====
-- What it takes for the evidence of internal/compliance to be compliant.
use oneops.Base.{◌≡◌, Bool, true, false, not, ◌&&◌, ◌||◌, List, codes, text_eq, is_empty, any}
use oneops.Domain.Objects.{ConfigObject}
use oneops.Domain.AuditTypes.{VerifyResult}
use oneops.Timeline.Entries.{Entry}
use oneops.Compliance.Evidence.{
  lifecycle_text, Evidence, is_failed, is_approval, lifecycle_complete,
}
use oneops.Compliance.Service.{no_break}

abbrev pub of_audit : Entry → Bool
of_audit e = text_eq e.component (codes "audit")

abbrev pub of_failed_policy : Entry → Bool
of_failed_policy e = text_eq e.component (codes "policy") && is_failed e

abbrev pub of_approval : Entry → Bool
of_approval e = text_eq e.component (codes "governance") && is_approval e

-- The conditions of the six rules, on what was read.
pub record Compliant (obj : ConfigObject) (vr : VerifyResult) (entries : List Entry) : Type 0 where
  pub verified : vr.is_ok ≡ true
  pub unbroken : no_break vr.first_break ≡ true
  pub audited : any of_audit entries ≡ true
  pub reviewed : lifecycle_complete (lifecycle_text obj.lifecycle) ≡ true
  pub approved : (not (is_empty obj.ratified_by) || any of_approval entries) ≡ true
  pub executed : any of_failed_policy entries ≡ false
