-- ===== src/Audit/Service.antt =====
-- internal/audit/service.go: the three ports and VerifyAndPublish. The other methods are the calls of
-- one port each.
pub mod Publishing
use oneops.Base.{ℕ, Bool, true, false, Option, none, some, Text}
use oneops.Domain.Errors.{Error, Result, ok, err}
use oneops.Domain.AuditTypes.{AuditEvent, VerifyResult}
use oneops.Audit.Resolve.{AppendInput}
use oneops.Audit.Anchor.{AnchorRequest, AnchorResult}

-- The ports over a state S of everything behind them.
pub record Service (S : Type 0) : Type 0 where
  pub append : AppendInput → S → Result AuditEvent × S
  pub verify_chain : Text → S → Result VerifyResult
  pub verify_range : Text → ℕ → ℕ → S → Result VerifyResult
  pub publish_anchor : AnchorRequest → S → Result AnchorResult × S

-- What VerifyAndPublish returns beside an error: the verdict, and the anchor if there is one.
pub record Published : Type 0 where
  pub verdict : Option VerifyResult
  pub anchor : Option AnchorResult
  pub failure : Option Error

abbrev pub request_of : VerifyResult → AnchorRequest
request_of res = record {
  chain_id = res.chain_id;
  head_seq = res.head_seq;
  head_hash = res.head_hash;
  verified = true;
}

module _ {S : Type 0} (service : Service S) where
  outcome : VerifyResult → Result AnchorResult × S → Published × S
  outcome res (ok a, s) = (record { verdict = some res; anchor = some a; failure = none }, s)
  outcome res (err x, s) = (record { verdict = some res; anchor = none; failure = some x }, s)

  publish_verified : VerifyResult → Bool → S → Published × S
  unfolding outcome
  publish_verified res false s = (record { verdict = some res; anchor = none; failure = none }, s)
  publish_verified res true s = outcome res (service.publish_anchor (request_of res) s)

  -- `VerifyAndPublish`
  unfoldable pub verify_and_publish : Text → S → Published × S
  unfolding publish_verified
  verify_and_publish chain_id s = elim (service.verify_chain chain_id s) [
    | err x ↦ (record { verdict = none; anchor = none; failure = some x }, s)
    | ok res ↦ publish_verified res res.is_ok s
  ]
