-- ===== src/Authority/Store.antt =====
-- The store that fills the port of the resolver: authority_store.go, authority_responsibility_store.go,
-- authority_citation_store.go and authority_gap_store.go of internal/store/postgres, over the rows of the
-- governance store. A row of configuration_metadata is an entry of the metadata of its object.
pub mod Parts
use oneops.Base.{
  ℕ, not, Option, none, some, List, [], ◌∷◌, Text, codes, text_eq, ◌==◌, any, find, filter, map,
  is_empty, trim_space, if◌then◌else◌,
}
use oneops.Base.Sorting.{sort_strings}
use oneops.Domain.Errors.{Result, ok}
use oneops.Domain.Objects.{ConfigObject, DependencyEdge, is_baseline}
use oneops.Authority.Graph.{AuthorityGraph}

-- A byte put before the first part.
abbrev pub onto_first : ℕ → List Text → List Text
onto_first b [] = (b ∷ []) ∷ []
onto_first b (p ∷ parts) = (b ∷ p) ∷ parts

-- strings.Split with ",", which gives one part more than there are commas.
unfoldable pub split_commas : Text → List Text
split_commas [] = [] ∷ []
split_commas (b ∷ s) =
    let parts = split_commas s in if b == 44 then [] ∷ parts else onto_first b parts

-- `SELECT value FROM configuration_metadata WHERE cfg_id = $1 AND key = …`; `none` is ErrNoRows.
abbrev value_in : Text → Option ConfigObject → Option Text
value_in key none = none
value_in key (some o) = elim (find (λ kv. text_eq kv.0 key) o.metadata) [
  | none ↦ none
  | some kv ↦ some kv.1
]

abbrev pub metadata_value : List ConfigObject → Text → Text → Option Text
metadata_value objects key id = value_in key (find (λ o. text_eq o.cfg_id id) objects)

abbrev pub parts_of : Option Text → List Text
parts_of none = []
parts_of (some value) = split_commas value

-- `Responsibilities`: the parts, trimmed, without the empty ones.
unfoldable pub stored_responsibilities : List ConfigObject → Text → Result (List Text)
unfolding split_commas
stored_responsibilities objects id = ok (
    filter (λ p. not (is_empty p))
      (map trim_space (parts_of (metadata_value objects (codes "responsibilities") id))))

-- `Citations`: the parts as they are stored.
unfoldable pub stored_citations : List ConfigObject → Text → Result (List Text)
stored_citations objects id = ok (parts_of (metadata_value objects (codes "citations") id))

-- `Coverage`: the parts as they are stored.
unfoldable pub stored_coverage : List ConfigObject → Text → Result (List Text)
stored_coverage objects id = ok (parts_of (metadata_value objects (codes "coverage") id))

-- `AuthorityStore`, which is also the source of responsibilities, citations and coverage.
abbrev pub authority_store : List ConfigObject → List DependencyEdge → AuthorityGraph
authority_store objects edges = record {
  baseline_roots =
      ok (sort_strings (map (λ o. o.cfg_id) (filter (λ o. is_baseline o.retention_class) objects)));
  object_exists = λ id. ok (any (λ o. text_eq o.cfg_id id) objects);
  edges_from = λ id. ok (filter (λ e. text_eq e.from_cfg id) edges);
  edges_to = λ id. ok (filter (λ e. text_eq e.to_cfg id) edges);
  responsibilities = some (stored_responsibilities objects);
  citations = some (stored_citations objects);
  coverage = some (stored_coverage objects);
}
