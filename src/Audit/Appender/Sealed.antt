-- ===== src/Audit/Appender/Sealed.antt =====
-- AppendTx of internal/store/postgres/audit_appender.go over the audit tables.
use oneops.Base.{
  ℕ, ◌≡◌, ◌≢◌, refl, ap, sym, subst, ◌∙◌, inl, inr, Bool, Option, none, some, List, [], ◌∷◌, ◌++◌,
  Text, text_eq, text_eq_iff, text_eq_refl, if◌then◌else◌, filter, find, any, find-append, arith,
  Bool-cases, Option-cases,
}
use oneops.Domain.Errors.{ok, >>=-eq-ok}
use oneops.Domain.AuditTypes.{AuditEvent}
use oneops.Audit.Hash.{genesis_prev_hash, chain_hash, int64_next}
use oneops.Audit.Verifier.Chains.{Links, Chain, next_seq, last_hash}
use oneops.Audit.Resolve.{AppendInput}
use oneops.Audit.Tables.{
  AuditTables, ChainHead, append_audit_event, ensure_chain_head, read_chain_head, upsert_chain_head,
  write_head, in_chain, is_head,
}
use oneops.Audit.Appender.{audit_store, append_tx, append_after, seal_input, sealed_event}

-- The rows of a chain, and what its head row says; a chain without a head row is empty.
abbrev pub rows : Text → AuditTables → List AuditEvent
rows c t = filter (in_chain c) t.events

abbrev tip_of : Option ChainHead → ℕ × Text
tip_of none = (0, genesis_prev_hash)
tip_of (some h) = (h.last_seq, h.last_hash)

abbrev pub tip : Text → AuditTables → ℕ × Text
tip c t = tip_of (find (is_head c) t.heads)

ensured_tip :
    (c : Text) (t : AuditTables) {u : AuditTables}
    → ensure_chain_head c genesis_prev_hash t ≡ ok u
    → (u.events ≡ t.events) × ((d : Text) → tip d u ≡ tip d t)
unfolding ensure_chain_head
ensured_tip c t h = elim (Bool-cases (any (is_head c) t.heads)) [
  | inl old ↦ ground arith
  | inr new ↦ (
    ground arith,
    λ d. ground (
      arith,
      find-append (is_head d) t.heads
          (record { chain_id = c; last_seq = 0; last_hash = genesis_prev_hash }),
    ),
  )
]

find-write_head :
    (c : Text) (h : ChainHead) (hs : List ChainHead)
    → find (is_head c) (write_head h hs)
      ≡ (if text_eq h.chain_id c then some h else find (is_head c) hs)
unfolding write_head
find-write_head c h [] = refl
find-write_head c h (r ∷ rs) = ground (
  arith,
  find-write_head c h rs,
  text_eq_iff h.chain_id c,
  text_eq_iff r.chain_id c,
  text_eq_iff r.chain_id h.chain_id,
)

module _ (sha256 : Text → Text) where
  -- A chain and the event after it.
  pub Chain-append :
      (xs : List AuditEvent) (s : ℕ) (h : Text) (e : AuditEvent)
      → Chain sha256 s h xs
      → Links sha256 (next_seq s xs) (last_hash h xs) e
      → Chain sha256 s h (xs ++ e ∷ [])
  Chain-append [] s h e c l = (l, tt)
  Chain-append (x ∷ xs) s h e c l = (c.0, Chain-append xs (int64_next s) x.this_hash e c.1 l)

pub next_seq-append :
    (xs : List AuditEvent) (s : ℕ) (e : AuditEvent)
    → next_seq s (xs ++ e ∷ []) ≡ int64_next (next_seq s xs)
next_seq-append [] s e = refl
next_seq-append (x ∷ xs) s e = next_seq-append xs (int64_next s) e

pub last_hash-append :
    (xs : List AuditEvent) (h : Text) (e : AuditEvent) → last_hash h (xs ++ e ∷ []) ≡ e.this_hash
last_hash-append [] h e = refl
last_hash-append (x ∷ xs) h e = last_hash-append xs x.this_hash e

module _ (sha256 : Text → Text) (jsonb_ok : Text → Bool) where
  -- What a successful append did to the tables: one event, sealed on the tip of its chain, is the
  -- new last row, and only the head of its chain moved.
  pub record Appended (e : AppendInput) (t u : AuditTables) (event : AuditEvent) : Type 0 where
    pub this_hash : Text
    pub sealed :
        chain_hash sha256 (seal_input e (int64_next (tip e.chain_id t).0)) (tip e.chain_id t).1
        ≡ ok this_hash
    pub built :
        event ≡ sealed_event e (int64_next (tip e.chain_id t).0) (tip e.chain_id t).1 this_hash
    pub rows_grow : u.events ≡ t.events ++ event ∷ []
    pub own_tip : tip e.chain_id u ≡ (int64_next (tip e.chain_id t).0, this_hash)
    pub other_tips : (d : Text) → d ≢ e.chain_id → tip d u ≡ tip d t

  record After (e : AppendInput) (n : ℕ) (h : Text) (s u : AuditTables) (event : AuditEvent)
      : Type 0 where
    this_hash : Text
    sealed : chain_hash sha256 (seal_input e (int64_next n)) h ≡ ok this_hash
    built : event ≡ sealed_event e (int64_next n) h this_hash
    events : u.events ≡ s.events ++ event ∷ []
    heads :
        u.heads
        ≡ write_head
            (record { chain_id = e.chain_id; last_seq = int64_next n; last_hash = this_hash })
            s.heads

  appended_rows :
      (event : AuditEvent) (s a : AuditTables)
      → append_audit_event jsonb_ok event s ≡ ok a
      → a ≡ record s { events = s.events ++ event ∷ [] }
  unfolding append_audit_event
  appended_rows event s a h = ground arith

  upserted_heads :
      (c : Text) (n : ℕ) (h : Text) (s a : AuditTables)
      → upsert_chain_head c n h s ≡ ok a
      → a ≡ record s {
        heads = write_head (record { chain_id = c; last_seq = n; last_hash = h }) s.heads;
      }
  unfolding upsert_chain_head
  upserted_heads c n h s a e = ground arith

  append_after-After :
      (e : AppendInput) (n : ℕ) (h : Text) (s u : AuditTables) (event : AuditEvent)
      → append_after sha256 (audit_store jsonb_ok) e (some (n, h)) s ≡ ok (event, u)
      → After e n h s u event
  unfolding append_after
  append_after-After e n h s u event p =
      let (this, sealed, p1) = >>=-eq-ok (chain_hash sha256 (seal_input e (int64_next n)) h) _ p in
      let sealed_now = sealed_event e (int64_next n) h this in
      let (a, wrote, p2) = >>=-eq-ok (append_audit_event jsonb_ok sealed_now s) _ p1 in
      let (b, moved, p3) = >>=-eq-ok (upsert_chain_head e.chain_id (int64_next n) this a) _ p2 in
      let wa = appended_rows sealed_now s a wrote in
      let wb = upserted_heads e.chain_id (int64_next n) this a b moved in
      record {
        this_hash = this;
        sealed = sealed;
        built = cc p3;
        events = ground (arith, p3, wa, wb);
        heads = ground (arith, p3, wa, wb);
      }

  After-Appended :
      (e : AppendInput) (s t u : AuditTables) (event : AuditEvent)
      → s.events ≡ t.events
      → ((d : Text) → tip d s ≡ tip d t)
      → After e (tip e.chain_id t).0 (tip e.chain_id t).1 s u event
      → Appended e t u event
  After-Appended e s t u event same tips a =
      let row : ChainHead = record {
        chain_id = e.chain_id;
        last_seq = int64_next (tip e.chain_id t).0;
        last_hash = a.this_hash;
      } in
      let moved = λ (d : Text).
        ap (λ (hs : List ChainHead). tip_of (find (is_head d) hs)) a.heads
        ∙ ap tip_of (find-write_head d row s.heads) in
      record {
        this_hash = a.this_hash;
        sealed = a.sealed;
        built = a.built;
        rows_grow = a.events ∙ ap (λ (l : List AuditEvent). l ++ event ∷ []) same;
        own_tip = moved e.chain_id ∙ rw (text_eq_refl e.chain_id);
        other_tips = λ d ne. moved d ∙ ground (arith, text_eq_iff e.chain_id d, tips d);
      }

  -- A successful `AppendTx` appends exactly one row. The row has the next sequence number after the
  -- head of its chain and the head's hash, and its own hash is the chain hash of its fields; the
  -- head moves to it, and no other head moves.
  pub append_tx-Appended :
      (e : AppendInput) (t u : AuditTables) (event : AuditEvent)
      → append_tx sha256 (audit_store jsonb_ok) e t ≡ ok (event, u)
      → Appended e t u event
  unfolding append_tx read_chain_head
  append_tx-Appended e t u event h =
      let (s, got, rest) = >>=-eq-ok (ensure_chain_head e.chain_id genesis_prev_hash t) _ h in
      let (same, tips) = ensured_tip e.chain_id t got in
      elim (Option-cases (find (is_head e.chain_id) s.heads)) [
        | inl missing ↦ absurd (cc (rw missing at rest))
        | inr (r, found) ↦
            let at_tip : ◌≡◌ {A = ℕ × Text} (r.last_seq, r.last_hash) (tip e.chain_id t) =
              ap tip_of (sym found) ∙ tips e.chain_id in
            let a = append_after-After e r.last_seq r.last_hash s u event (rw found at rest) in
            After-Appended e s t u event same tips (subst (λ x. After e x.0 x.1 s u event) at_tip a)
      ]
