-- ===== src/Audit/Hash.antt =====
-- internal/audit/hash.go and eventid.go: framing, the chain hash and the event id. SHA-256 is the
-- argument `sha256`; an int64 is its 64-bit pattern, so `uint64(x)` is x.
pub mod Binding
pub mod EventIds
use oneops.Base.{
  ℕ, ◌+◌, ◌-◌, ◌/◌, ◌%◌, ◌^◌, ◌≡◌, refl, Bool, ◌||◌, not, List, [], ◌∷◌, ◌++◌, Text, codes, length,
  replicate, is_empty, if◌then◌else◌, leb, ltb, ◌==◌,
}
use oneops.Domain.Errors.{
  Result, ok, err, reject_if, empty_chain_id, empty_event_id, empty_operation, empty_actor,
  empty_payload, invalid_seq, prev_hash_len, empty_operation_id, ◌>>=◌, ◌>>◌,
}

abbrev pub hash_size : ℕ
hash_size = 32

-- x < 1 as an int64: zero, or the sign bit is set.
abbrev pub below_one : ℕ → Bool
below_one x = (x == 0) || leb (2 ^ 63) x

-- x < y as int64s: both are moved by 2^63.
abbrev pub int64_lt : ℕ → ℕ → Bool
int64_lt x y = ltb ((x + 2 ^ 63) % 2 ^ 64) ((y + 2 ^ 63) % 2 ^ 64)

-- x + 1 on an int64 wraps.
abbrev pub int64_next : ℕ → ℕ
int64_next x = (x + 1) % 2 ^ 64

unfoldable pub genesis_prev_hash : Text
genesis_prev_hash = replicate hash_size 0

pub record EventHashInput : Type 0 where
  pub chain_id : Text
  pub seq : ℕ
  pub event_id : Text
  pub operation : Text
  pub actor : Text
  pub occurred_at_unix_nanos : ℕ
  pub payload_canonical : Text

-- binary.BigEndian.PutUint32
abbrev put_uint32 : ℕ → Text
put_uint32 v = (v / 2 ^ 24 % 256) ∷ (v / 2 ^ 16 % 256) ∷ (v / 2 ^ 8 % 256) ∷ (v % 256) ∷ []

-- `writeUint64`: binary.BigEndian.PutUint64
unfoldable pub write_uint64 : ℕ → Text
write_uint64 v =
    (v / 2 ^ 56 % 256) ∷ (v / 2 ^ 48 % 256) ∷ (v / 2 ^ 40 % 256) ∷ (v / 2 ^ 32 % 256) ∷ put_uint32 v

-- `writeLenPrefixed`: `uint32(len(b))` wraps.
unfoldable pub write_len_prefixed : Text → Text
write_len_prefixed b = put_uint32 (length b % 2 ^ 32) ++ b

-- What `ChainHash` writes to the first hash.
unfoldable pub hash_fields : EventHashInput → Text
hash_fields e =
    write_len_prefixed e.chain_id
    ++ (write_uint64 e.seq
        ++ (write_len_prefixed e.event_id
            ++ (write_len_prefixed e.operation
                ++ (write_len_prefixed e.actor
                    ++ (write_uint64 e.occurred_at_unix_nanos
                        ++ write_len_prefixed e.payload_canonical)))))

-- The checks of `ChainHash`.
unfoldable pub check_hash_input : EventHashInput → Text → Result (Unit {0})
check_hash_input e prev_hash = do
  reject_if (is_empty e.chain_id) empty_chain_id
  reject_if (is_empty e.event_id) empty_event_id
  reject_if (is_empty e.operation) empty_operation
  reject_if (is_empty e.actor) empty_actor
  reject_if (is_empty e.payload_canonical) empty_payload
  reject_if (below_one e.seq) invalid_seq
  reject_if (not (length prev_hash == hash_size)) prev_hash_len

-- hex.EncodeToString
hex_digit : ℕ → ℕ
hex_digit d = if ltb d 10 then 48 + d else 87 + d

unfoldable pub hex : Text → Text
unfolding hex_digit
hex [] = []
hex (b ∷ s) = hex_digit (b / 16) ∷ hex_digit (b % 16) ∷ hex s

abbrev event_id_domain_tag : Text
event_id_domain_tag = codes "oneops.audit.event.v1"

abbrev event_id_prefix : Text
event_id_prefix = codes "evt_"

module _ (sha256 : Text → Text) where
  -- `ChainHash`: SHA256(prevHash ‖ SHA256(fields))
  unfoldable pub chain_hash : EventHashInput → Text → Result Text
  chain_hash e prev_hash = do
    check_hash_input e prev_hash
    ok (sha256 (prev_hash ++ sha256 (hash_fields e)))

  -- `DeriveEventID`
  unfoldable pub derive_event_id : Text → Result Text
  derive_event_id operation_id = do
    reject_if (is_empty operation_id) empty_operation_id
    ok (
        event_id_prefix
        ++ hex (sha256 (write_len_prefixed event_id_domain_tag ++ write_len_prefixed operation_id)))
