-- ===== src/Audit/Tables.antt =====
-- internal/store/postgres/audit_store.go over the tables of 20260723000001_audit.sql. A table is the
-- list of its rows in the order of insertion. A bigint is an int64 pattern. Failures of the connection
-- are not modelled. `jsonb_ok` says whether PostgreSQL casts a payload to jsonb.
use oneops.Base.{
  ℕ, Bool, not, ◌&&◌, ◌||◌, Option, none, some, List, [], ◌∷◌, ◌++◌, Text, codes, text_eq, ◌==◌,
  if◌then◌else◌, length, filter, any, find, take, map, is_empty,
}
use oneops.Base.Sorting.{sort_by, sort_strings}
use oneops.Domain.Enums.{operation_text, valid_operation}
use oneops.Domain.Errors.{Result, ok, err, conflict, not_found, external, reject_if, ◌>>◌}
use oneops.Domain.AuditTypes.{AuditEvent}
use oneops.Audit.Hash.{hash_size, int64_lt}
use oneops.Audit.Verifier.{Stream}

-- A row of audit_chain_head without `updated_at`.
pub record ChainHead : Type 0 where
  pub chain_id : Text
  pub last_seq : ℕ
  pub last_hash : Text

pub record AuditTables : Type 0 where
  pub events : List AuditEvent
  pub heads : List ChainHead

abbrev pub in_chain : Text → AuditEvent → Bool
in_chain chain_id e = text_eq e.chain_id chain_id

abbrev pub is_head : Text → ChainHead → Bool
is_head chain_id h = text_eq h.chain_id chain_id

-- The primary key and the two unique constraints of audit_event.
abbrev pub clashes : AuditEvent → AuditEvent → Bool
clashes e r =
    text_eq r.chain_id e.chain_id
    && ((r.seq == e.seq) || text_eq r.event_id e.event_id || text_eq r.this_hash e.this_hash)

abbrev check_violation : Text → Bool
check_violation hash = not (length hash == hash_size)

module _ (jsonb_ok : Text → Bool) where
  -- `AppendAuditEvent`, with the table's checks and unique constraints.
  unfoldable pub append_audit_event : AuditEvent → AuditTables → Result AuditTables
  append_audit_event e t = do
    reject_if (not (jsonb_ok e.payload_canonical)) (external (codes "append audit event: jsonb"))
    reject_if (check_violation e.prev_hash) (external (codes "ck_audit_prev_hash_len"))
    reject_if (check_violation e.this_hash) (external (codes "ck_audit_this_hash_len"))
    reject_if (not (valid_operation e.operation)) (external (codes "ck_audit_operation"))
    reject_if (any (clashes e) t.events) conflict
    ok (record t { events = t.events ++ e ∷ [] })

-- `EnsureChainHead`: ON CONFLICT DO NOTHING
unfoldable pub ensure_chain_head : Text → Text → AuditTables → Result AuditTables
ensure_chain_head chain_id genesis_hash t = do
  reject_if (check_violation genesis_hash) (external (codes "ck_head_hash_len"))
  ok (
      if any (is_head chain_id) t.heads then t else record t {
        heads =
            t.heads ++ record { chain_id = chain_id; last_seq = 0; last_hash = genesis_hash } ∷ [];
      })

abbrev head_pair : Option ChainHead → Option (ℕ × Text)
head_pair none = none
head_pair (some h) = some (h.last_seq, h.last_hash)

-- `ReadChainHead` and `HeadOf`
unfoldable pub read_chain_head : Text → AuditTables → Result (Option (ℕ × Text))
read_chain_head chain_id t = ok (head_pair (find (is_head chain_id) t.heads))

unfoldable pub write_head : ChainHead → List ChainHead → List ChainHead
write_head h [] = h ∷ []
write_head h (r ∷ rs) = if is_head h.chain_id r then h ∷ rs else r ∷ write_head h rs

-- `UpsertChainHead`: ON CONFLICT DO UPDATE
unfoldable pub upsert_chain_head : Text → ℕ → Text → AuditTables → Result AuditTables
unfolding write_head
upsert_chain_head chain_id last_seq last_hash t = do
  reject_if (check_violation last_hash) (external (codes "ck_head_hash_len"))
  ok (record t {
    heads =
        write_head (record { chain_id = chain_id; last_seq = last_seq; last_hash = last_hash })
          t.heads;
  })

-- `ListChainIDs`
unfoldable pub list_chain_ids : AuditTables → List Text
list_chain_ids t = sort_strings (map (λ h. h.chain_id) t.heads)

-- a <= b as int64s.
abbrev pub int64_le : ℕ → ℕ → Bool
int64_le a b = not (int64_lt b a)

abbrev pub seq_le : AuditEvent → AuditEvent → Bool
seq_le a b = int64_le a.seq b.seq

abbrev pub seq_ge : AuditEvent → AuditEvent → Bool
seq_ge a b = int64_le b.seq a.seq

abbrev past_cursor : Bool → ℕ → AuditEvent → Bool
past_cursor desc cursor e = if desc then int64_lt e.seq cursor else int64_lt cursor e.seq

abbrev has_operation : Text → AuditEvent → Bool
has_operation operation e = is_empty operation || text_eq (operation_text e.operation) operation

-- `ListEvents`: WHERE, ORDER BY seq, LIMIT
unfoldable pub list_events : Text → ℕ → Bool → ℕ → Text → AuditTables → List AuditEvent
list_events chain_id cursor desc limit operation t = take limit (
    sort_by (if desc then seq_ge else seq_le) (
      filter (λ e. in_chain chain_id e && (past_cursor desc cursor e && has_operation operation e))
        t.events))

-- `ReadEvent`
unfoldable pub read_event : Text → ℕ → AuditTables → Result AuditEvent
read_event chain_id seq t = elim (find (λ e. in_chain chain_id e && (e.seq == seq)) t.events) [
  | none ↦ err not_found
  | some e ↦ ok e
]

-- `VerifyRangeReader`: seq BETWEEN from AND to, ORDER BY seq
unfoldable pub verify_range_reader : Text → ℕ → ℕ → AuditTables → Stream
verify_range_reader chain_id from_seq to_seq t = record {
  events = sort_by seq_le (
      filter (λ e. in_chain chain_id e && (int64_le from_seq e.seq && int64_le e.seq to_seq))
        t.events);
  failure = none;
}
