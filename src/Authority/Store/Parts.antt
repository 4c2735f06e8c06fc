-- ===== src/Authority/Store/Parts.antt =====
-- The parts of a metadata value (authority_citation_store.go and authority_gap_store.go of
-- internal/store/postgres) against the value.
use oneops.Base.{
  ℕ, ◌≡◌, ◌≢◌, refl, ap, sym, ◌∙◌, inl, inr, Option, some, List, [], ◌∷◌, Text, codes, ◌==◌, ==_iff,
  Bool-cases, All, arith,
}
use oneops.Domain.Errors.{ok}
use oneops.Domain.Objects.{ConfigObject}
use oneops.Traversal.Types.{join}
use oneops.Authority.Store.{split_commas, onto_first, parts_of, metadata_value, stored_citations}

-- No byte is a comma.
abbrev pub CommaFree : Text → Type 0
CommaFree = All (λ b. b ≢ 44)

onto_first-CommaFree :
    (b : ℕ) (parts : List Text) → b ≢ 44 → All CommaFree parts → All CommaFree (onto_first b parts)
onto_first-CommaFree b [] n h = ((n, tt), tt)
onto_first-CommaFree b (p ∷ parts) n h = ((n, h.0), h.1)

split_commas-CommaFree : (v : Text) → All CommaFree (split_commas v)
unfolding split_commas
split_commas-CommaFree [] = (tt, tt)
split_commas-CommaFree (b ∷ v) = elim (Bool-cases (b == 44)) [
  | inl e ↦ rw e (tt, split_commas-CommaFree v)
  | inr e ↦ rw e (
      onto_first-CommaFree b (split_commas v) (λ q. ground (arith, q, e))
        (split_commas-CommaFree v))
]

split_commas-some : (v : Text) → (p : Text) × (parts : List Text) × (split_commas v ≡ p ∷ parts)
unfolding split_commas
split_commas-some [] = ([], [], refl)
split_commas-some (b ∷ v) = elim (Bool-cases (b == 44)) [
  | inl e ↦ rw e ([], split_commas v, refl)
  | inr e ↦ let (p, parts, h) = split_commas-some v in rw (e, h) (b ∷ p, parts, refl)
]

join-one : (p : Text) → join (codes ",") (p ∷ []) ≡ p
unfolding join
join-one p = refl

join-onto_first :
    (b : ℕ) (p : Text) (parts : List Text)
    → join (codes ",") (onto_first b (p ∷ parts)) ≡ b ∷ join (codes ",") (p ∷ parts)
unfolding join
join-onto_first b p [] = refl
join-onto_first b p (q ∷ parts) = refl

join-comma :
    (p : Text) (parts : List Text)
    → join (codes ",") ([] ∷ p ∷ parts) ≡ 44 ∷ join (codes ",") (p ∷ parts)
unfolding join
join-comma p parts = refl

join-split_commas : (v : Text) → join (codes ",") (split_commas v) ≡ v
unfolding split_commas
join-split_commas [] = join-one []
join-split_commas (b ∷ v) =
    let (p, parts, h) = split_commas-some v in
    let rest : join (codes ",") (p ∷ parts) ≡ v =
      ap (λ (ps : List Text). join (codes ",") ps) (sym h) ∙ join-split_commas v in
    elim (Bool-cases (b == 44)) [
      | inl e ↦
          let comma : 44 ≡ b = sym ((==_iff b 44).0 e) in
          rw (e, h) (join-comma p parts ∙ cc (rest, comma))
      | inr e ↦ rw (e, h) (join-onto_first b p parts ∙ ap {B = Text} (λ r. b ∷ r) rest)
    ]

-- Where an object has citations in its metadata, Citations returns texts without a comma, and they, put
-- together with commas, are the stored value.
pub stored_citations-join :
    (objects : List ConfigObject) (id value : Text)
    → metadata_value objects (codes "citations") id ≡ some value
    → (parts : List Text) × (stored_citations objects id ≡ ok parts)
      × (join (codes ",") parts ≡ value)
      × All CommaFree parts
unfolding stored_citations
stored_citations-join objects id value h = (
  split_commas value,
  ap (λ (o : Option Text). ok (parts_of o)) h,
  join-split_commas value,
  split_commas-CommaFree value,
)
