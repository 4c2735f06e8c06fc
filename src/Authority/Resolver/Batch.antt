-- ===== src/Authority/Resolver/Batch.antt =====
-- The loop of ResolveBatch of internal/authority/resolver.go.
use oneops.Base.{◌≡◌, ap, ◌∙◌, List, [], ◌∷◌, Text, map}
use oneops.Domain.Errors.{ok, >>=-eq-ok}
use oneops.Authority.Graph.{AuthorityGraph, AuthorityResult, Active}
use oneops.Authority.Resolver.{resolve_one, resolve_each}

module _ (graph : AuthorityGraph) (active : Active) where
  -- The results of a batch that succeeds are those of resolveOne on each object, in the input order.
  resolve_each-map :
      (ids : List Text) (out : List AuthorityResult)
      → resolve_each graph ids active ≡ ok out
      → map (λ id. resolve_one graph id active) ids ≡ map ok out
  unfolding resolve_each
  resolve_each-map [] out h = let same : [] ≡ out = cc h in ap (map ok) same
  resolve_each-map (id ∷ ids) out h =
      let (res, first, h1) = >>=-eq-ok (resolve_one graph id active) _ h in
      let (rest, others, h2) = >>=-eq-ok (resolve_each graph ids active) _ h1 in
      let ih = resolve_each-map ids rest others in
      let built : res ∷ rest ≡ out = cc h2 in
      let each : map (λ a. resolve_one graph a active) (id ∷ ids) ≡ ok res ∷ map ok rest =
        cc (first, ih) in
      each ∙ ap (map ok) built
