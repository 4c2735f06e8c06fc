-- ===== src/Governance/Tables/Rows.antt =====
-- The row updates and deletions of governance_store.go.
use oneops.Base.{
  ℕ, ◌≡◌, ◌≢◌, refl, sym, subst, ◌∙◌, inl, inr, Bool, false, not, none, some, List, [], ◌∷◌, Text,
  text_eq_iff, ==_iff, arith, find, any, filter, All, Bool-cases,
}
use oneops.Domain.Objects.{ConfigObject}
use oneops.Governance.Tables.{has_id, at_version, update_objects}

-- The primary key: no two rows have one id.
abbrev pub Unique : List ConfigObject → Type 0
Unique [] = Unit
Unique (o ∷ os) = (any (has_id o.cfg_id) os ≡ false) × Unique os

module _ (id : Text) (v : ℕ) (f : ConfigObject → ConfigObject)
    (keeps : (o : ConfigObject) → (f o).cfg_id ≡ o.cfg_id) where
  update_missing :
      (os : List ConfigObject)
      → any (has_id id) os ≡ false
      → update_objects (at_version id v) f os ≡ os
  unfolding update_objects
  update_missing [] h = refl
  update_missing (o ∷ os) h = ground (arith, update_missing os)

  pub any-update :
      (d : Text) (os : List ConfigObject)
      → any (has_id d) (update_objects (at_version id v) f os) ≡ any (has_id d) os
  unfolding update_objects
  any-update d [] = refl
  any-update d (o ∷ os) = ground (arith, any-update d os, keeps o)

  pub find-update_other :
      (d : Text) (os : List ConfigObject)
      → d ≢ id
      → find (has_id d) (update_objects (at_version id v) f os) ≡ find (has_id d) os
  unfolding update_objects
  find-update_other d [] ne = refl
  find-update_other d (o ∷ os) ne =
      ground
        (arith, find-update_other d os ne, keeps o, text_eq_iff o.cfg_id d, text_eq_iff o.cfg_id id)

  pub find-update :
      (os : List ConfigObject) (obj : ConfigObject)
      → find (has_id id) os ≡ some obj
      → obj.row_version ≡ v
      → find (has_id id) (update_objects (at_version id v) f os) ≡ some (f obj)
  unfolding update_objects
  find-update [] obj h e = cc
  find-update (o ∷ os) obj h e = ground (arith, find-update os obj, keeps o, ==_iff o.row_version v)

  pub update-Unique :
      (os : List ConfigObject) → Unique os → Unique (update_objects (at_version id v) f os)
  unfolding update_objects
  update-Unique [] u = tt
  update-Unique (o ∷ os) u = elim (Bool-cases (at_version id v o)) [
    | inl e ↦ rw e (
      subst (λ c. any (has_id c) (update_objects (at_version id v) f os) ≡ false) (sym (keeps o))
          (any-update o.cfg_id os ∙ u.0),
      update-Unique os u.1,
    )
    | inr e ↦ rw e (any-update o.cfg_id os ∙ u.0, update-Unique os u.1)
  ]

  -- A property that the found row has after the update, and the other rows have, holds of all.
  pub update-All :
      (P : ConfigObject → Type 0) (os : List ConfigObject) (obj : ConfigObject)
      → Unique os
      → find (has_id id) os ≡ some obj
      → P (f obj)
      → All P os
      → All P (update_objects (at_version id v) f os)
  unfolding update_objects
  update-All P [] obj u h p a = tt
  update-All P (o ∷ os) obj u h p a = elim (Bool-cases (has_id id o)) [
    | inr e ↦ rw e (a.0, update-All P os obj u.1 (rw e at h) p a.1)
    | inl e ↦
        let same : o ≡ obj = cc (rw e at h) in
        let own : o.cfg_id ≡ id = (text_eq_iff o.cfg_id id).0 e in
        let rest : All P (update_objects (at_version id v) f os) =
          rw (update_missing os (subst (λ c. any (has_id c) os ≡ false) own u.0)) a.1 in
        elim (Bool-cases (at_version id v o)) [
          | inl k ↦ rw k (subst (λ x. P (f x)) (sym same) p, rest)
          | inr k ↦ rw k (a.0, rest)
        ]
  ]

module _ (q : ConfigObject → Bool) where
  pub filter-All :
      (P : ConfigObject → Type 0) (os : List ConfigObject) → All P os → All P (filter q os)
  filter-All P [] a = tt
  filter-All P (o ∷ os) a = elim (Bool-cases (q o)) [
    | inl e ↦ rw e (a.0, filter-All P os a.1)
    | inr e ↦ rw e (filter-All P os a.1)
  ]

  any-filter :
      (p : ConfigObject → Bool) (os : List ConfigObject)
      → any p os ≡ false
      → any p (filter q os) ≡ false
  any-filter p [] h = refl
  any-filter p (o ∷ os) h = ground (arith, any-filter p os)

  pub filter-Unique : (os : List ConfigObject) → Unique os → Unique (filter q os)
  filter-Unique [] u = tt
  filter-Unique (o ∷ os) u = elim (Bool-cases (q o)) [
    | inl e ↦ rw e (any-filter (has_id o.cfg_id) os u.0, filter-Unique os u.1)
    | inr e ↦ rw e (filter-Unique os u.1)
  ]

abbrev pub survives : Text → ℕ → ConfigObject → Bool
survives id v o = not (at_version id v o)

pub find-remove_other :
    (id : Text) (v : ℕ) (d : Text) (os : List ConfigObject)
    → d ≢ id
    → find (has_id d) (filter (survives id v) os) ≡ find (has_id d) os
find-remove_other id v d [] ne = refl
find-remove_other id v d (o ∷ os) ne =
    ground (arith, find-remove_other id v d os ne, text_eq_iff o.cfg_id d, text_eq_iff o.cfg_id id)

find_missing :
    (id : Text) (v : ℕ) (os : List ConfigObject)
    → any (has_id id) os ≡ false
    → find (has_id id) (filter (survives id v) os) ≡ none
find_missing id v [] h = refl
find_missing id v (o ∷ os) h = ground (arith, find_missing id v os)

pub find-remove :
    (id : Text) (v : ℕ) (os : List ConfigObject) (obj : ConfigObject)
    → Unique os
    → find (has_id id) os ≡ some obj
    → obj.row_version ≡ v
    → find (has_id id) (filter (survives id v) os) ≡ none
find-remove id v [] obj u h e = cc
find-remove id v (o ∷ os) obj u h e = elim (Bool-cases (has_id id o)) [
  | inr k ↦ ground (arith, k, find-remove id v os obj u.1)
  | inl k ↦
      let own : o.cfg_id ≡ id = (text_eq_iff o.cfg_id id).0 k in
      let gone = find_missing id v os (subst (λ c. any (has_id c) os ≡ false) own u.0) in
      ground (arith, k, gone, ==_iff o.row_version v)
]

-- The first row of the id is the first of the id and its version.
pub find-at_version :
    (id : Text) (os : List ConfigObject) (obj : ConfigObject)
    → find (has_id id) os ≡ some obj
    → find (at_version id obj.row_version) os ≡ some obj
find-at_version id [] obj h = cc
find-at_version id (o ∷ os) obj h = elim (Bool-cases (has_id id o)) [
  | inr k ↦ ground (arith, k, h, find-at_version id os obj)
  | inl k ↦ ground (arith, k, h, ==_iff o.row_version obj.row_version)
]
