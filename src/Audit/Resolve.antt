-- ===== src/Audit/Resolve.antt =====
-- internal/audit/resolve.go, append.go and canonical.go. encoding/json is a parameter: it reads one
-- value from the head of a text, and prints a value with a newline at the end.
use oneops.Base.{ℕ, Bool, [], ◌∷◌, Text, is_blank, is_empty, ◌==◌, if◌then◌else◌}
use mathlib.Core.List.{reverse}
use oneops.Domain.Enums.{Operation}
use oneops.Domain.Errors.{
  Result, ok, empty_canonical_input, empty_actor, missing_occurred_at, message, reject_if, ◌>>=◌,
  ◌>>◌,
}
use oneops.Domain.AuditTypes.{EventInput, validate_input}
use oneops.Audit.Hash.{derive_event_id}

pub record Json : Type 1 where
  pub Value : Type 0
  -- json.Valid
  pub valid : Text → Bool
  -- Decoder.Decode with UseNumber: the value and the unread rest
  pub decode : Text → Result (Value × Text)
  -- Decoder.More on the rest
  pub more : Text → Bool
  -- Encoder.Encode without HTML escapes
  pub encode : Value → Result Text

drop_newlines : Text → Text
drop_newlines [] = []
drop_newlines (c ∷ s) = let rest = drop_newlines s in if c == 10 then rest else c ∷ s

-- bytes.TrimRight(b, "\n")
unfoldable pub trim_newlines : Text → Text
unfolding drop_newlines
trim_newlines s = reverse (drop_newlines (reverse s))

pub record AppendInput : Type 0 where
  pub chain_id : Text
  pub operation_id : Text
  pub event_id : Text
  pub operation : Operation
  pub actor : Text
  pub occurred_at : ℕ
  pub payload_canonical : Text

module _ (json : Json) where
  -- `Canonicalize`
  unfoldable pub canonicalize : Text → Result Text
  canonicalize raw = do
    reject_if (is_blank raw) empty_canonical_input
    decoded ← json.decode raw
    reject_if (json.more decoded.1) (message "audit: payload must be a single JSON value")
    out ← json.encode decoded.0
    ok (trim_newlines out)

  module _ (sha256 : Text → Text) where
    -- `Resolve`; `t.IsZero()` is that the time is 0.
    unfoldable pub resolve : EventInput → Text → ℕ → Result AppendInput
    resolve e actor occurred_at = do
      validate_input json.valid e
      reject_if (is_empty actor) empty_actor
      reject_if (occurred_at == 0) missing_occurred_at
      canonical ← canonicalize e.payload
      event_id ← derive_event_id sha256 e.operation_id
      ok (record {
        chain_id = e.chain_id;
        operation_id = e.operation_id;
        event_id = event_id;
        operation = e.operation;
        actor = actor;
        occurred_at = occurred_at;
        payload_canonical = canonical;
      })
