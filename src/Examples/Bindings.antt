-- ===== src/Examples/Bindings.antt =====
-- The theorems on hashes, event ids, anchors and publishing at concrete inputs.
use oneops.Base.{ℕ, ◌≡◌, refl, ◌⊎◌, true, false, [], Text, codes, replicate, All, arith, none, map}
use oneops.Domain.Errors.{Error, ok, err}
use oneops.Domain.Enums.{operation_text}
use oneops.Domain.AuditTypes.{VerifyResult}
use oneops.Audit.Hash.{
  EventHashInput, chain_hash, check_hash_input, genesis_prev_hash, derive_event_id, hash_fields,
  write_len_prefixed, write_uint64, hex,
}
use oneops.Audit.Hash.Binding.{Collision, Fits, hash_fields_inj, chain_hash-binding}
use oneops.Audit.Hash.EventIds.{derive_event_id_inj}
use oneops.Audit.Verifier.{hash_input_of, unix_nano, blank_result}
use oneops.Audit.Verifier.Chains.{Chain}
use oneops.Audit.Verifier.Decides.{Chain-binding}
use oneops.Audit.Anchor.{
  AnchorRequest, AnchorResult, Publisher, new_anchor, publish_anchor, anchor_payload,
  validate_anchor_request,
}
use oneops.Audit.Anchor.Idempotence.{publish_twice, anchor_id-binding}
use oneops.Audit.Service.{Service}
use oneops.Examples.Fixtures.{checksum, sum32, sum32-IsBytes}
use oneops.Examples.Audits.{two_events, hash_of}

abbrev first_input : EventHashInput
first_input = record {
  chain_id = codes "cfg_1";
  seq = 1;
  event_id = codes "evt_1";
  operation = codes "ratification";
  actor = codes "alice";
  occurred_at_unix_nanos = 1000;
  payload_canonical = codes "{}";
}

first_input-Fits : Fits first_input
first_input-Fits = ground arith

hash_fields_inj_example : first_input ≡ first_input
hash_fields_inj_example =
    hash_fields_inj first_input first_input first_input-Fits first_input-Fits refl

abbrev first_sum : Text
first_sum = hash_of (chain_hash sum32 first_input genesis_prev_hash)

first_hashed : chain_hash sum32 first_input genesis_prev_hash ≡ ok first_sum
unfolding chain_hash check_hash_input genesis_prev_hash
first_hashed = refl

chain_hash-binding_example :
    ((first_input ≡ first_input) × (genesis_prev_hash ≡ genesis_prev_hash)) ⊎ Collision sum32
chain_hash-binding_example =
    chain_hash-binding sum32 first_input first_input genesis_prev_hash genesis_prev_hash
      first_input-Fits first_input-Fits first_hashed first_hashed

two_events-Chain : Chain sum32 1 genesis_prev_hash two_events
unfolding hash_input_of chain_hash check_hash_input genesis_prev_hash hash_fields checksum
    write_len_prefixed write_uint64 operation_text unix_nano
two_events-Chain = ((refl, refl, refl), ((refl, refl, refl), tt))

two_events-Fits : All (λ e. Fits (hash_input_of e)) two_events
unfolding hash_input_of operation_text unix_nano
two_events-Fits = (ground arith, (ground arith, tt))

Chain-binding_example :
    ((map hash_input_of two_events ≡ map hash_input_of two_events)
      × (genesis_prev_hash ≡ genesis_prev_hash))
    ⊎ Collision sum32
Chain-binding_example =
    Chain-binding sum32 two_events two_events 1 genesis_prev_hash genesis_prev_hash two_events-Fits
      two_events-Fits two_events-Chain two_events-Chain refl refl

abbrev first_id : Text
first_id = hash_of (derive_event_id sum32 (codes "op_1"))

first_derived : derive_event_id sum32 (codes "op_1") ≡ ok first_id
unfolding derive_event_id
first_derived = refl

derive_event_id_inj_example : (codes "op_1" ≡ codes "op_1") ⊎ Collision sum32
derive_event_id_inj_example =
    derive_event_id_inj sum32 sum32-IsBytes (codes "op_1") (codes "op_1") (ground arith)
      (ground arith) first_derived first_derived

abbrev head_hash : Text
head_hash = replicate 32 9

abbrev head_request : AnchorRequest
head_request = record {
  chain_id = codes "cfg_1";
  head_seq = 2;
  head_hash = head_hash;
  verified = true;
}

abbrev head_anchor : AnchorResult
head_anchor = record {
  anchor_id = hex (sum32 (anchor_payload (codes "cfg_1") 2 (head_hash)));
  chain_id = codes "cfg_1";
  head_seq = 2;
  head_hash = head_hash;
  payload = anchor_payload (codes "cfg_1") 2 (head_hash);
  already_published = false;
}

head_built : new_anchor sum32 head_request ≡ ok head_anchor
unfolding new_anchor validate_anchor_request
head_built = refl

abbrev nothing_published : Publisher
nothing_published = record { published = [] }

head_published : (publish_anchor sum32 none head_request nothing_published).0 ≡ ok head_anchor
unfolding publish_anchor new_anchor validate_anchor_request
head_published = refl

publish_twice_example :
    let q = (publish_anchor sum32 none head_request nothing_published).1 in
    publish_anchor sum32 none head_request q
    ≡ (ok (record head_anchor { already_published = true }), q)
publish_twice_example = publish_twice sum32 head_request nothing_published head_published

anchor_id-binding_example :
    ((codes "cfg_1" ≡ codes "cfg_1") × (◌≡◌ {A = ℕ} 2 2) × (head_hash ≡ head_hash))
    ⊎ Collision sum32
anchor_id-binding_example =
    anchor_id-binding sum32 sum32-IsBytes head_request head_request (ground arith) (ground arith)
      (ground arith) (ground arith) head_built head_built refl

-- A chain that verifies, and the publisher behind the service.
abbrev good_verdict : VerifyResult
good_verdict = record (blank_result (codes "cfg_1")) {
  is_ok = true;
  checked = 2;
  head_seq = 2;
  head_hash = head_hash;
}

abbrev small_service : Service Publisher
small_service = record {
  append = λ e s. (err Error.conflict, s);
  verify_chain = λ c s. ok good_verdict;
  verify_range = λ c a b s. ok good_verdict;
  publish_anchor = publish_anchor sum32 none;
}
