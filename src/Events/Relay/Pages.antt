-- ===== src/Events/Relay/Pages.antt =====
-- The pages that ListEvents gives the relay (internal/events/relay.go) on consistent audit tables.
use oneops.Base.{
  ℕ, zero, suc, ◌≡◌, ap, ◌∙◌, sym, subst, inl, inr, Bool, true, false, List, [], ◌∷◌, ◌++◌, Text,
  filter, take, All, All-imp, Bool-cases, arith, filter-filter, if◌then◌else◌, ◌&&◌, refl,
}
use mathlib.Core.Path.{fun_ext}
use oneops.Base.Sorting.{Ascending, sort_by, sort_by-Ascending}
use oneops.Domain.AuditTypes.{AuditEvent}
use oneops.Audit.Hash.{int64_lt, int64_next}
use oneops.Audit.Verifier.Chains.{Chain, last_seq}
use oneops.Audit.Tables.{AuditTables, in_chain, seq_le, int64_le, list_events}
use oneops.Audit.Appender.Sealed.{rows}
use oneops.Audit.Appender.Consistency.{Consistent}
use oneops.Audit.Appender.History.{Links-below_one}
use oneops.Events.Relay.{max_seq}

abbrev pub past : ℕ → AuditEvent → Bool
past k e = int64_lt k e.seq

-- Sequence numbers rise, from above `k`.
abbrev pub Above : ℕ → List AuditEvent → Type 0
Above k [] = Unit
Above k (e ∷ es) = (past k e ≡ true) × Above e.seq es

-- The rows of a chain rise from above zero.
pub Chain-Above :
    (sha256 : Text → Text) (xs : List AuditEvent) (k : ℕ) (h : Text)
    → Chain sha256 (int64_next k) h xs
    → Above k xs
Chain-Above sha256 [] k h c = tt
Chain-Above sha256 (e ∷ xs) k h c =
    let b = Links-below_one sha256 (int64_next k) h e c.0 in
    let seq = c.0.0 in
    let rest : Chain sha256 (int64_next e.seq) e.this_hash xs = rw seq c.1 in
    (ground arith, Chain-Above sha256 xs e.seq e.this_hash rest)

int64_lt_trans : (a b c : ℕ) → int64_lt a b ≡ true → int64_lt b c ≡ true → int64_lt a c ≡ true
int64_lt_trans a b c p q = ground arith

pub Above-All : (k : ℕ) (xs : List AuditEvent) → Above k xs → All (λ e. past k e ≡ true) xs
Above-All k [] a = tt
Above-All k (e ∷ es) a = (
  a.0,
  All-imp (λ f. past e.seq f ≡ true) (λ f. past k f ≡ true)
      (λ f p. int64_lt_trans k e.seq f.seq a.0 p) es (Above-All e.seq es a.1),
)

Above-same :
    (k j : ℕ) (xs : List AuditEvent) → int64_lt k j ≡ true → Above j xs → filter (past k) xs ≡ xs
Above-same k j [] l a = refl
Above-same k j (e ∷ es) l a =
    let p = int64_lt_trans k j e.seq l a.0 in
    rw p (ap (λ (r : List AuditEvent). e ∷ r) (Above-same k e.seq es p a.1))

Above-filter : (k j : ℕ) (xs : List AuditEvent) → Above j xs → Above k (filter (past k) xs)
Above-filter k j [] a = tt
Above-filter k j (e ∷ es) a = elim (Bool-cases (past k e)) [
  | inl p ↦ rw (p, Above-same k e.seq es p a.1) (p, a.1)
  | inr p ↦ rw p (Above-filter k e.seq es a.1)
]

Above-Ascending : (k : ℕ) (xs : List AuditEvent) → Above k xs → Ascending seq_le xs
Above-Ascending k [] a = tt
Above-Ascending k (e ∷ []) a = tt
Above-Ascending k (e ∷ f ∷ es) a =
    let p = a.1.0 in (ground arith, Above-Ascending e.seq (f ∷ es) a.1)

-- The rows of a chain past a cursor.
abbrev pub backlog : Text → ℕ → AuditTables → List AuditEvent
backlog c k t = filter (past k) (rows c t)

module _ (sha256 : Text → Text) (t : AuditTables) (ok_tables : Consistent sha256 t) (c : Text)
    (k : ℕ) where
  pub backlog-Above : Above k (backlog c k t)
  backlog-Above =
      Above-filter k 0 (rows c t) (Chain-Above sha256 (rows c t) 0 _ (ok_tables.chain c))

  -- A page is the start of the backlog.
  pub list_events-backlog :
      (limit : ℕ) → list_events c k false limit [] t ≡ take limit (backlog c k t)
  unfolding list_events
  list_events-backlog limit =
      let shown : (e : AuditEvent) → (past k e && true) ≡ past k e =
        λ (e : AuditEvent). ground arith in
      ap (λ (l : List AuditEvent). take limit (sort_by seq_le l))
        (filter-filter (in_chain c) (λ e. past k e && true) t.events
          ∙ ap (λ (q : AuditEvent → Bool). filter q (rows c t)) (fun_ext shown))
      ∙ ap (take limit) (
          sort_by-Ascending seq_le (backlog c k t)
            (Above-Ascending k (backlog c k t) backlog-Above))

pub max_seq-past :
    (k : ℕ) (e : AuditEvent) (xs : List AuditEvent)
    → past k e ≡ true
    → max_seq k (e ∷ xs) ≡ max_seq e.seq xs
unfolding max_seq
max_seq-past k e xs p = ap (λ (b : Bool). max_seq (if b then e.seq else k) xs) p

-- Where the first events of a list that rises have a property, all events up to their greatest have it.
pub take-covers :
    (P : AuditEvent → Type 0) (n k : ℕ) (xs : List AuditEvent)
    → Above k xs
    → All P (take n xs)
    → All (λ e. int64_le e.seq (max_seq k (take n xs)) ≡ true → P e) xs
unfolding max_seq
take-covers P zero k xs a h =
    All-imp (λ e. past k e ≡ true) (λ e. int64_le e.seq k ≡ true → P e)
      (λ e p q. absurd (ground (arith, p, q))) xs (Above-All k xs a)
take-covers P (suc n) k [] a h = tt
take-covers P (suc n) k (e ∷ es) a h =
    subst (λ (m : ℕ). All (λ f. int64_le f.seq m ≡ true → P f) (e ∷ es))
      (sym (max_seq-past k e (take n es) a.0)) ((λ q. h.0), take-covers P n e.seq es a.1 h.1)

-- What holds of the backlog up to `m`, and of all rows up to the cursor, holds of all rows up to `m`.
pub filter-covers :
    (P : AuditEvent → Type 0) (k m : ℕ) (xs : List AuditEvent)
    → All (λ e. int64_le e.seq k ≡ true → P e) xs
    → All (λ e. int64_le e.seq m ≡ true → P e) (filter (past k) xs)
    → All (λ e. int64_le e.seq m ≡ true → P e) xs
filter-covers P k m [] old new = tt
filter-covers P k m (e ∷ es) old new = elim (Bool-cases (past k e)) [
  | inl p ↦
      let both : (int64_le e.seq m ≡ true → P e)
          × All (λ f. int64_le f.seq m ≡ true → P f) (filter (past k) es) =
        rw p at new in
      (both.0, filter-covers P k m es old.1 both.1)
  | inr p ↦ ((λ q. old.0 (ground (arith, p))), filter-covers P k m es old.1 (rw p at new))
]

-- No row is past the last one.
pub Above-last :
    (k : ℕ) (xs : List AuditEvent)
    → Above k xs
    → (int64_le k (last_seq k xs) ≡ true) × All (λ e. int64_le e.seq (last_seq k xs) ≡ true) xs
Above-last k [] a = (ground arith, tt)
Above-last k (e ∷ es) a =
    let (here, rest) = Above-last e.seq es a.1 in (ground (arith, a.0), (here, rest))

pub max_seq-le :
    (b k : ℕ) (xs : List AuditEvent)
    → int64_le k b ≡ true
    → All (λ e. int64_le e.seq b ≡ true) xs
    → int64_le (max_seq k xs) b ≡ true
unfolding max_seq
max_seq-le b k [] l h = l
max_seq-le b k (e ∷ es) l h = elim (Bool-cases (int64_lt k e.seq)) [
  | inl p ↦ rw p (max_seq-le b e.seq es h.0 h.1)
  | inr p ↦ rw p (max_seq-le b k es l h.1)
]

-- The last row of a list that rises is past the rows before it.
pub Above-append :
    (k : ℕ) (xs : List AuditEvent) (e : AuditEvent)
    → Above k (xs ++ e ∷ [])
    → past (last_seq k xs) e ≡ true
Above-append k [] e a = a.0
Above-append k (x ∷ xs) e a = Above-append x.seq xs e a.1

pub last_seq-append :
    (k : ℕ) (xs : List AuditEvent) (e : AuditEvent) → last_seq k (xs ++ e ∷ []) ≡ e.seq
last_seq-append k [] e = refl
last_seq-append k (x ∷ xs) e = last_seq-append x.seq xs e
