-- ===== src/Examples/Audits.antt =====
-- Two appends to a chain, and the theorems on the audit trail at them.
use oneops.Base.{◌≡◌, refl, true, false, List, [], ◌∷◌, Text, codes, none, length, text_eq}
use oneops.Domain.Errors.{Result, ok, err}
use oneops.Domain.Enums.{operation_text, valid_operation}
use oneops.Domain.AuditTypes.{AuditEvent, VerifyResult}
use oneops.Audit.Hash.{
  chain_hash, check_hash_input, genesis_prev_hash, hash_fields, write_len_prefixed, write_uint64,
}
use oneops.Audit.Verifier.{
  verify_chain, hash_input_of, unix_nano, blank_result, on_event, run_stream, verify_range,
  set_break, check_hash,
}
use oneops.Audit.Verifier.Chains.{Broken}
use oneops.Audit.Verifier.Decides.{Decided, verify_chain-decides, verify_chain-first_break}
use oneops.Audit.Resolve.{AppendInput}
use oneops.Audit.Tables.{
  AuditTables, verify_range_reader, append_audit_event, ensure_chain_head, read_chain_head,
  upsert_chain_head, write_head,
}
use oneops.Audit.Appender.{
  audit_store, append_tx, append_all, append_after, seal_input, sealed_event,
}
use oneops.Audit.Appender.Sealed.{Appended, rows, append_tx-Appended}
use oneops.Audit.Appender.Consistency.{Consistent, Appended-Consistent}
use oneops.Audit.Appender.History.{append_all-verifies, empty_tables, max_int64}
use oneops.Examples.Fixtures.{checksum, sum32, any_jsonb, input_one, input_two}

abbrev pub hash_of : Result Text → Text
hash_of (ok h) = h
hash_of (err x) = []

abbrev pub first_hash : Text
first_hash = hash_of (chain_hash sum32 (seal_input input_one 1) genesis_prev_hash)

abbrev pub first_event : AuditEvent
first_event = sealed_event input_one 1 genesis_prev_hash first_hash

abbrev pub second_hash : Text
second_hash = hash_of (chain_hash sum32 (seal_input input_two 2) first_hash)

abbrev pub second_event : AuditEvent
second_event = sealed_event input_two 2 first_hash second_hash

abbrev pub one_event : AuditTables
one_event = record {
  events = first_event ∷ [];
  heads = record { chain_id = codes "cfg_1"; last_seq = 1; last_hash = first_hash } ∷ [];
}

first_append :
    append_tx sum32 (audit_store any_jsonb) input_one empty_tables ≡ ok (first_event, one_event)
unfolding append_tx append_after chain_hash check_hash_input genesis_prev_hash ensure_chain_head
    read_chain_head append_audit_event upsert_chain_head write_head hash_fields checksum
    write_len_prefixed write_uint64 operation_text unix_nano valid_operation text_eq
first_append = refl

append_tx-Appended_example : Appended sum32 any_jsonb input_one empty_tables one_event first_event
append_tx-Appended_example =
    append_tx-Appended sum32 any_jsonb input_one empty_tables one_event first_event first_append

empty_Consistent : Consistent sum32 empty_tables
empty_Consistent = record { chain = λ c. tt; next = λ c. refl; last = λ c. refl }

pub one_event-Consistent : Consistent sum32 one_event
one_event-Consistent =
    Appended-Consistent sum32 any_jsonb input_one empty_tables one_event first_event
      (append_tx-Appended sum32 any_jsonb input_one empty_tables one_event first_event first_append)
      empty_Consistent

abbrev two_calls : List (Result (Unit {0}) × Result (Unit {0}) × AppendInput)
two_calls = (ok tt, ok tt, input_one) ∷ (ok tt, ok tt, input_two) ∷ []

append_all-verifies_example :
    let t = append_all sum32 (audit_store any_jsonb) two_calls empty_tables in
    (res : VerifyResult) × (verify_chain sum32
        (codes "cfg_1")
        (verify_range_reader (codes "cfg_1") 1 max_int64 t)
      ≡ ok res)
    × (res.is_ok ≡ true)
    × (res.checked ≡ length (rows (codes "cfg_1") t))
append_all-verifies_example = append_all-verifies sum32 any_jsonb two_calls (codes "cfg_1")

abbrev pub two_events : List AuditEvent
two_events = first_event ∷ second_event ∷ []

verify_chain-decides_example :
    (res : VerifyResult) × (verify_chain sum32
        (codes "cfg_1")
        (record { events = two_events; failure = none })
      ≡ ok res)
    × Decided sum32 two_events res
verify_chain-decides_example = verify_chain-decides sum32 (codes "cfg_1") two_events

abbrev tampered : List AuditEvent
tampered = first_event ∷ record second_event { payload_canonical = codes "{1}" } ∷ []

abbrev verdict_of : Result VerifyResult → VerifyResult
verdict_of (ok res) = res
verdict_of (err x) = blank_result []

abbrev tampered_verdict : VerifyResult
tampered_verdict =
    verdict_of (verify_chain sum32 (codes "cfg_1") (record { events = tampered; failure = none }))

tampered-got :
    verify_chain sum32 (codes "cfg_1") (record { events = tampered; failure = none })
    ≡ ok tampered_verdict
unfolding verify_chain verify_range run_stream on_event check_hash set_break hash_input_of
    chain_hash check_hash_input genesis_prev_hash hash_fields checksum write_len_prefixed
    write_uint64 operation_text unix_nano text_eq
tampered-got = refl

tampered-failed : tampered_verdict.is_ok ≡ false
unfolding verify_chain verify_range run_stream on_event check_hash set_break hash_input_of
    chain_hash check_hash_input genesis_prev_hash hash_fields checksum write_len_prefixed
    write_uint64 operation_text unix_nano text_eq
tampered-failed = refl

verify_chain-first_break_example :
    Broken sum32 1 genesis_prev_hash tampered (blank_result (codes "cfg_1")) tampered_verdict
verify_chain-first_break_example =
    verify_chain-first_break sum32 (codes "cfg_1") tampered tampered-got tampered-failed
