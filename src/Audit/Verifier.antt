-- ===== src/Audit/Verifier.antt =====
-- internal/audit/verifier.go. The reader is the stream that it delivers: events, then perhaps an
-- error. `errStop` of the callback is the flag that ends the loop.
pub mod Chains
pub mod Decides
use oneops.Base.{
  ℕ, ◌+◌, ◌-◌, ◌*◌, ◌%◌, ◌^◌, ◌≡◌, refl, Bool, true, false, not, Option, none, some, List, [], ◌∷◌,
  Text, text_eq, ◌==◌, if◌then◌else◌,
}
use oneops.Domain.Enums.{operation_text}
use oneops.Domain.Errors.{Error, Result, ok, err}
use oneops.Domain.AuditTypes.{
  AuditEvent, VerifyResult, BreakReason, sequence_gap, sequence_duplicate, prev_hash_mismatch,
  this_hash_mismatch, hash_input_invalid,
}
use oneops.Audit.Hash.{EventHashInput, genesis_prev_hash, chain_hash, int64_lt, int64_next}

-- What VerifyRangeReader does: the events that it passes on, and the error that it ends with.
pub record Stream : Type 0 where
  pub events : List AuditEvent
  pub failure : Option Error

-- time.Unix(0, 0) in nanoseconds since the zero time.
abbrev pub unix_epoch : ℕ
unix_epoch = 62135596800 * 1000000000

-- `t.UnixNano()`, an int64 that wraps.
unfoldable pub unix_nano : ℕ → ℕ
unix_nano t = (t + 2 ^ 64 * 4 - unix_epoch) % 2 ^ 64

-- The fields of a stored event that its hash binds.
unfoldable pub hash_input_of : AuditEvent → EventHashInput
hash_input_of e = record {
  chain_id = e.chain_id;
  seq = e.seq;
  event_id = e.event_id;
  operation = operation_text e.operation;
  actor = e.actor;
  occurred_at_unix_nanos = unix_nano e.occurred_at;
  payload_canonical = e.payload_canonical;
}

-- The variables that the callback of `VerifyRange` writes. `exp_prev` is none before it is known.
pub record Progress : Type 0 where
  pub result : VerifyResult
  pub exp_prev : Option Text
  pub exp_seq : ℕ

-- `setBreak`
unfoldable pub set_break : VerifyResult → ℕ → BreakReason → VerifyResult
set_break res seq reason = elim res.first_break [
  | none ↦ record res { first_break = some (seq, reason) }
  | some b ↦ res
]

-- The anchor: `expPrev`, or the first event's own previous hash.
abbrev anchor_of : Option Text → AuditEvent → Text
anchor_of none e = e.prev_hash
anchor_of (some p) e = p

-- The verdict, after the loop.
abbrev pub finish : Progress → VerifyResult
finish p = elim p.result.first_break [
  | none ↦ record p.result { is_ok = true }
  | some b ↦ record p.result { is_ok = false }
]

abbrev pub blank_result : Text → VerifyResult
blank_result chain_id = record {
  chain_id = chain_id;
  is_ok = false;
  checked = 0;
  head_seq = 0;
  head_hash = [];
  first_break = none;
}

abbrev pub start_progress : Text → ℕ → Progress
start_progress chain_id from_seq = record {
  result = blank_result chain_id;
  exp_prev = if from_seq == 1 then some genesis_prev_hash else none;
  exp_seq = from_seq;
}

module _ (sha256 : Text → Text) where
  -- Steps 3 and 4 of the callback: the hash is recomputed and compared.
  unfoldable pub check_hash : AuditEvent → Progress → Result Text → Progress × Bool
  check_hash e p (err x) = (record p { result = set_break p.result e.seq hash_input_invalid }, true)
  check_hash e p (ok got) =
      if not (text_eq got e.this_hash)
      then (record p { result = set_break p.result e.seq this_hash_mismatch }, true)
      else (
        record {
          result = record p.result {
            checked = p.result.checked + 1;
            head_seq = e.seq;
            head_hash = e.this_hash;
          };
          exp_prev = some e.this_hash;
          exp_seq = int64_next e.seq;
        },
        false,
      )

  -- The callback for one event; true is `errStop`.
  unfoldable pub on_event : AuditEvent → Progress → Progress × Bool
  unfolding check_hash set_break
  on_event e p =
      if not (e.seq == p.exp_seq)
      then (
        record p {
          result =
              set_break p.result e.seq
                (if int64_lt e.seq p.exp_seq then sequence_duplicate else sequence_gap);
        },
        true,
      )
      else let anchor = anchor_of p.exp_prev e in
        let q = record p { exp_prev = some anchor } in
        if not (text_eq e.prev_hash anchor)
        then (record q { result = set_break q.result e.seq prev_hash_mismatch }, true)
        else check_hash e q (chain_hash sha256 (hash_input_of e) e.prev_hash)

  -- The loop of the reader over the callback. An error of the reader is met only if no callback
  -- has stopped the loop.
  unfoldable pub run_stream : List AuditEvent → Option Error → Progress → Result Progress
  run_stream [] none p = ok p
  run_stream [] (some x) p = err x
  run_stream (e ∷ es) x p =
      let (q, stop) = on_event e p in let rest = run_stream es x q in if stop then ok q else rest

  -- `VerifyRange`, on what the reader streams for the range.
  unfoldable pub verify_range : Text → ℕ → Stream → Result VerifyResult
  verify_range chain_id from_seq s =
      elim (run_stream s.events s.failure (start_progress chain_id from_seq)) [
        | err x ↦ err x
        | ok p ↦ ok (finish p)
      ]

  -- `VerifyChain`
  unfoldable pub verify_chain : Text → Stream → Result VerifyResult
  unfolding verify_range
  verify_chain chain_id s = verify_range chain_id 1 s
