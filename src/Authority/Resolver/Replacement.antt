-- ===== src/Authority/Resolver/Replacement.antt =====
-- resolveOne of internal/authority/resolver.go against the replacement test.
use oneops.Base.{
  ◌≡◌, ◌≢◌, refl, inl, inr, ◌↔◌, Bool, true, false, not, Option, none, some, List, [], Text,
  is_empty, arith, Bool-cases,
}
use oneops.Domain.Errors.{Result, ok, err, ◌>>=◌, >>=-eq-ok, Result-cases}
use oneops.Authority.Graph.{AuthorityGraph, AuthorityResult, AuthorityState, Active, ReachInfo}
use oneops.Authority.ActiveSet.{lookup}
use oneops.Authority.Clauses.{
  superseded_by, active_dependents_of, replacement_complete, active_artifact_citers_of,
  gap_after_removal,
}
use oneops.Authority.Resolver.{
  or_else, kept_if, is_baseline_root, dependency_clause, responsibility_clause, citation_clause,
  gap_clause, resolve_replaced, resolve_unreplaced, resolve_existing, resolve_one,
}

-- The value of a source that may be missing, if it is there, meets P.
abbrev pub Supplied {ℓ} : {A : Type 0} → Option A → (A → Type ℓ) → Type ℓ
Supplied none P = Unit
Supplied (some a) P = P a

-- The replacement test: the object exists and has superseders, it is no baseline root, and each of
-- the four clauses that has its source finds nothing that keeps the object active.
pub record Replaced (graph : AuthorityGraph) (id : Text) (active : Active) : Type 0 where
  pub exists : graph.object_exists id ≡ ok true
  pub superseders : List Text
  pub replaced_by : superseded_by graph id ≡ ok superseders
  pub some_superseder : superseders ≢ []
  pub no_root : is_baseline_root (lookup id active) ≡ false
  pub no_dependent : active_dependents_of graph id active ≡ ok []
  pub complete : Supplied graph.responsibilities (λ source.
      (m : List Text) × (replacement_complete graph source id superseders ≡ ok (true, m)))
  pub no_citer :
      Supplied graph.citations (λ source. active_artifact_citers_of graph source id active ≡ ok [])
  pub no_gap : Supplied graph.coverage (λ source. gap_after_removal graph source id active ≡ ok [])

abbrev IsHistorical : Result AuthorityResult → Type 0
IsHistorical r = (res : AuthorityResult) × (r ≡ ok res) × (res.state ≡ AuthorityState.historical)

-- A clause that decides keeps the object active.
or_else-IsHistorical :
    (c : Result (Option AuthorityResult)) (next : Result AuthorityResult)
    → ((r : AuthorityResult) → c ≡ ok (some r) → r.state ≡ AuthorityState.active)
    → IsHistorical (or_else c next)
    → (c ≡ ok none) × IsHistorical next
or_else-IsHistorical (err x) next a (res, e, s) = cc e
or_else-IsHistorical (ok none) next a h = (refl, h)
or_else-IsHistorical (ok (some r)) next a (res, e, s) = cc (e, s, a r refl)

kept_none :
    (c : Result (Bool × List Text)) (f : List Text → AuthorityResult)
    → ((c >>= λ r. ok (kept_if (not r.0) (f r.1))) ≡ ok none)
      ↔ ((m : List Text) × (c ≡ ok (true, m)))
kept_none (err x) f = ((λ h. cc h), (λ h. cc h.1))
kept_none (ok (true, m)) f = ((λ h. (m, refl)), (λ h. refl))
kept_none (ok (false, m)) f = ((λ h. cc h), (λ h. cc h.1))

supplied_none :
    {A : Type 0} (g : Option A) (c : A → Result (Bool × List Text))
    (f : List Text → AuthorityResult)
    → ((elim g [ none ↦ ok none | some a ↦ c a >>= λ r. ok (kept_if (not r.0) (f r.1)) ]) ≡ ok none)
      ↔ Supplied g (λ a. (m : List Text) × (c a ≡ ok (true, m)))
supplied_none none c f = ((λ h. tt), (λ h. refl))
supplied_none (some a) c f = kept_none (c a) f

module _ (graph : AuthorityGraph) (id : Text) (active : Active) (superseders : List Text) where
  dependency_clause-active :
      (r : AuthorityResult)
      → dependency_clause graph id active superseders ≡ ok (some r)
      → r.state ≡ AuthorityState.active
  unfolding dependency_clause
  dependency_clause-active r h = ground arith

  responsibility_clause-active :
      (r : AuthorityResult)
      → responsibility_clause graph id active superseders ≡ ok (some r)
      → r.state ≡ AuthorityState.active
  unfolding responsibility_clause
  responsibility_clause-active r h = ground arith

  citation_clause-active :
      (r : AuthorityResult)
      → citation_clause graph id active superseders ≡ ok (some r)
      → r.state ≡ AuthorityState.active
  unfolding citation_clause
  citation_clause-active r h = ground arith

  gap_clause-active :
      (r : AuthorityResult)
      → gap_clause graph id active superseders ≡ ok (some r)
      → r.state ≡ AuthorityState.active
  unfolding gap_clause
  gap_clause-active r h = ground arith

  dependency_clause-none :
      (dependency_clause graph id active superseders ≡ ok none)
      ↔ (active_dependents_of graph id active ≡ ok [])
  unfolding dependency_clause
  dependency_clause-none = ((λ h. ground arith), (λ h. ground arith))

  responsibility_clause-none :
      (responsibility_clause graph id active superseders ≡ ok none)
      ↔ Supplied graph.responsibilities (λ source.
        (m : List Text) × (replacement_complete graph source id superseders ≡ ok (true, m)))
  unfolding responsibility_clause
  responsibility_clause-none =
      supplied_none graph.responsibilities
        (λ source. replacement_complete graph source id superseders) _

  citation_clause-none :
      (citation_clause graph id active superseders ≡ ok none)
      ↔ Supplied graph.citations
          (λ source. active_artifact_citers_of graph source id active ≡ ok [])
  unfolding citation_clause
  citation_clause-none = ((λ h. ground arith), (λ h. ground arith))

  gap_clause-none :
      (gap_clause graph id active superseders ≡ ok none)
      ↔ Supplied graph.coverage (λ source. gap_after_removal graph source id active ≡ ok [])
  unfolding gap_clause
  gap_clause-none = ((λ h. ground arith), (λ h. ground arith))

  -- The clauses in turn.
  record Tested : Type 0 where
    no_root : is_baseline_root (lookup id active) ≡ false
    no_dependent : dependency_clause graph id active superseders ≡ ok none
    complete : responsibility_clause graph id active superseders ≡ ok none
    no_citer : citation_clause graph id active superseders ≡ ok none
    no_gap : gap_clause graph id active superseders ≡ ok none

  replaced-Tested : IsHistorical (resolve_replaced graph id active superseders) → Tested
  unfolding resolve_replaced
  replaced-Tested h = elim (Bool-cases (is_baseline_root (lookup id active))) [
    | inl e ↦ absurd (ground (arith, h.1, h.2, e))
    | inr e ↦
        let (d, h1) = or_else-IsHistorical _ _ dependency_clause-active (rw e at h) in
        let (r, h2) = or_else-IsHistorical _ _ responsibility_clause-active h1 in
        let (c, h3) = or_else-IsHistorical _ _ citation_clause-active h2 in
        let (g, h4) = or_else-IsHistorical _ _ gap_clause-active h3 in
        record { no_root = e; no_dependent = d; complete = r; no_citer = c; no_gap = g }
  ]

  Tested-replaced : Tested → IsHistorical (resolve_replaced graph id active superseders)
  unfolding resolve_replaced
  Tested-replaced t =
      rw (t.no_root, t.no_dependent, t.complete, t.no_citer, t.no_gap) (_, refl, refl)

module _ (graph : AuthorityGraph) (id : Text) (active : Active) where
  unreplaced-state :
      (i : Option ReachInfo) → (resolve_unreplaced id i).state ≢ AuthorityState.historical
  unfolding resolve_unreplaced
  unreplaced-state none h = cc h
  unreplaced-state (some i) h = cc h

  existing-Replaced :
      graph.object_exists id ≡ ok true
      → IsHistorical (resolve_existing graph id active)
      → Replaced graph id active
  unfolding resolve_existing
  existing-Replaced e (res, h, s) =
      let (by, got, rest) = >>=-eq-ok (superseded_by graph id) _ h in
      elim (Bool-cases (is_empty by)) [
        | inl none_there ↦
            let same : ok (resolve_unreplaced id (lookup id active)) ≡ ok res =
              rw none_there at rest in
            absurd (unreplaced-state (lookup id active) (cc (same, s)))
        | inr some_there ↦
            let t = replaced-Tested graph id active by (res, (rw some_there at rest), s) in
            record {
              exists = e;
              superseders = by;
              replaced_by = got;
              some_superseder = λ n. ground (arith, n, some_there);
              no_root = t.no_root;
              no_dependent = (dependency_clause-none graph id active by).0 t.no_dependent;
              complete = (responsibility_clause-none graph id active by).0 t.complete;
              no_citer = (citation_clause-none graph id active by).0 t.no_citer;
              no_gap = (gap_clause-none graph id active by).0 t.no_gap;
            }
      ]

  Replaced-existing : Replaced graph id active → IsHistorical (resolve_existing graph id active)
  unfolding resolve_existing
  Replaced-existing r =
      let by = r.superseders in
      let filled : is_empty by ≡ false = ground (arith, r.some_superseder) in
      let h = Tested-replaced graph id active by (record {
        no_root = r.no_root;
        no_dependent = (dependency_clause-none graph id active by).1 r.no_dependent;
        complete = (responsibility_clause-none graph id active by).1 r.complete;
        no_citer = (citation_clause-none graph id active by).1 r.no_citer;
        no_gap = (gap_clause-none graph id active by).1 r.no_gap;
      }) in
      rw (r.replaced_by, filled) h

  -- An object resolves to Historical exactly if it passes the replacement test.
  pub resolve_one-Replaced :
      ((res : AuthorityResult) × (resolve_one graph id active ≡ ok res)
        × (res.state ≡ AuthorityState.historical))
      ↔ Replaced graph id active
  unfolding resolve_one
  resolve_one-Replaced = (
    (λ h. elim (Result-cases (graph.object_exists id)) [
      | inr (x, got) ↦ absurd (cc (rw got at h.1))
      | inl (true, got) ↦ existing-Replaced got (h.0, (rw got at h.1), h.2)
      | inl (false, got) ↦ absurd (ground (arith, got, h.1, h.2))
    ]),
    (λ r. rw (r.exists, resolve_one) (Replaced-existing r)),
  )
