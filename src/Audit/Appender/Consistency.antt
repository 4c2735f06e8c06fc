-- ===== src/Audit/Appender/Consistency.antt =====
-- The invariant of the audit tables under AppendTx.
use oneops.Base.{
  ℕ, ◌≡◌, ◌≢◌, ap, sym, subst, ◌∙◌, inl, inr, Bool, List, [], ◌∷◌, ◌++◌, Text, text_eq, text_eq_iff,
  filter, filter-append, arith, Bool-cases, append-nil,
}
use oneops.Domain.AuditTypes.{AuditEvent}
use oneops.Audit.Hash.{genesis_prev_hash, int64_next}
use oneops.Audit.Verifier.{hash_input_of}
use oneops.Audit.Verifier.Chains.{Links, Chain, next_seq, last_hash}
use oneops.Audit.Resolve.{AppendInput}
use oneops.Audit.Tables.{AuditTables, in_chain}
use oneops.Audit.Appender.Sealed.{
  rows, tip, Appended, Chain-append, next_seq-append, last_hash-append,
}

module _ (sha256 : Text → Text) where
  -- Each chain of the tables is a hash chain from sequence 1 and the genesis hash, and its head row
  -- holds its last sequence number and its last hash.
  pub record Consistent (t : AuditTables) : Type 0 where
    pub chain : (c : Text) → Chain sha256 1 genesis_prev_hash (rows c t)
    pub next : (c : Text) → int64_next (tip c t).0 ≡ next_seq 1 (rows c t)
    pub last : (c : Text) → (tip c t).1 ≡ last_hash genesis_prev_hash (rows c t)

  module _ (jsonb_ok : Text → Bool) (e : AppendInput) (t u : AuditTables) (event : AuditEvent)
      (a : Appended sha256 jsonb_ok e t u event) where
    pub own_rows : rows e.chain_id u ≡ rows e.chain_id t ++ event ∷ []
    own_rows =
        let own : event.chain_id ≡ e.chain_id = ap (λ (x : AuditEvent). x.chain_id) a.built in
        ap (filter (in_chain e.chain_id)) a.rows_grow
        ∙ filter-append (in_chain e.chain_id) t.events (event ∷ [])
        ∙ ap (λ (l : List AuditEvent). rows e.chain_id t ++ l)
            (ground (arith, own, text_eq_iff event.chain_id e.chain_id))

    pub other_rows : (d : Text) → d ≢ e.chain_id → rows d u ≡ rows d t
    other_rows d ne =
        let own : event.chain_id ≡ e.chain_id = ap (λ (x : AuditEvent). x.chain_id) a.built in
        let none_here : filter (in_chain d) (event ∷ []) ≡ [] =
          ground (arith, own, text_eq_iff event.chain_id d) in
        ap (filter (in_chain d)) a.rows_grow
        ∙ filter-append (in_chain d) t.events (event ∷ [])
        ∙ ap (λ (l : List AuditEvent). rows d t ++ l) none_here
        ∙ append-nil (rows d t)

    event-Links :
        Consistent t
        → Links sha256
            (next_seq 1 (rows e.chain_id t))
            (last_hash genesis_prev_hash (rows e.chain_id t))
            event
    unfolding hash_input_of
    event-Links k =
        let n = k.next e.chain_id in
        let h = k.last e.chain_id in
        subst
          (λ (x : AuditEvent).
            Links sha256 (next_seq 1 (rows e.chain_id t))
              (last_hash genesis_prev_hash (rows e.chain_id t)) x)
          (sym a.built) (n, h, a.sealed)

    -- one chain of the new tables
    record OneChain (c : Text) : Type 0 where
      chain : Chain sha256 1 genesis_prev_hash (rows c u)
      next : int64_next (tip c u).0 ≡ next_seq 1 (rows c u)
      last : (tip c u).1 ≡ last_hash genesis_prev_hash (rows c u)

    same_chain : Consistent t → OneChain e.chain_id
    same_chain k =
        let xs = rows e.chain_id t in
        let seq : event.seq ≡ int64_next (tip e.chain_id t).0 =
          ap (λ (x : AuditEvent). x.seq) a.built in
        let hash : event.this_hash ≡ a.this_hash = ap (λ (x : AuditEvent). x.this_hash) a.built in
        record {
          chain = rw own_rows (
              Chain-append sha256 xs 1 genesis_prev_hash event (k.chain e.chain_id)
                (event-Links k));
          next =
              ap (λ (x : ℕ × Text). int64_next x.0) a.own_tip
              ∙ ap int64_next (k.next e.chain_id)
              ∙ sym (next_seq-append xs 1 event)
              ∙ ap (next_seq 1) (sym own_rows);
          last =
              ap (λ (x : ℕ × Text). x.1) a.own_tip
              ∙ sym hash
              ∙ sym (last_hash-append xs genesis_prev_hash event)
              ∙ ap (last_hash genesis_prev_hash) (sym own_rows);
        }

    other_chain : Consistent t → (d : Text) → d ≢ e.chain_id → OneChain d
    other_chain k d ne =
        let r = other_rows d ne in
        let p = a.other_tips d ne in
        record {
          chain = rw r (k.chain d);
          next = ap (λ (x : ℕ × Text). int64_next x.0) p ∙ k.next d ∙ ap (next_seq 1) (sym r);
          last = ap (λ (x : ℕ × Text). x.1) p ∙ k.last d ∙ ap (last_hash genesis_prev_hash) (sym r);
        }

    each_chain : Consistent t → (d : Text) → OneChain d
    each_chain k d = elim (Bool-cases (text_eq d e.chain_id)) [
      | inl same ↦ subst OneChain (sym ((text_eq_iff d e.chain_id).0 same)) (same_chain k)
      | inr other ↦ other_chain k d (λ p. cc (other, (text_eq_iff d e.chain_id).1 p))
    ]

    -- An append that went through keeps the tables consistent.
    pub Appended-Consistent : Consistent t → Consistent u
    Appended-Consistent k = record {
      chain = λ c. (each_chain k c).chain;
      next = λ c. (each_chain k c).next;
      last = λ c. (each_chain k c).last;
    }
