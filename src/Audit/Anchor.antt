-- ===== src/Audit/Anchor.antt =====
-- internal/audit/anchor.go: the anchor record of a verified head, and the in-memory publisher.
pub mod Idempotence
use oneops.Base.{
  ℕ, ◌≡◌, refl, Bool, true, false, not, Option, none, some, List, [], ◌∷◌, ◌++◌, Text, codes,
  text_eq, is_empty, length, find, ◌==◌, if◌then◌else◌,
}
use oneops.Domain.Errors.{
  Error, Result, ok, err, empty_chain_id, invalid_head_seq, head_hash_len, chain_not_verified,
  reject_if, ◌>>=◌, ◌>>◌,
}
use oneops.Audit.Hash.{hash_size, below_one, write_uint64, write_len_prefixed, hex}

abbrev anchor_domain_tag : Text
anchor_domain_tag = codes "oneops.audit.anchor.v1"

pub record AnchorRequest : Type 0 where
  pub chain_id : Text
  pub head_seq : ℕ
  pub head_hash : Text
  pub verified : Bool

pub record AnchorResult : Type 0 where
  pub anchor_id : Text
  pub chain_id : Text
  pub head_seq : ℕ
  pub head_hash : Text
  pub payload : Text
  pub already_published : Bool

-- `validateAnchorRequest`
unfoldable pub validate_anchor_request : AnchorRequest → Result (Unit {0})
validate_anchor_request req = do
  reject_if (is_empty req.chain_id) empty_chain_id
  reject_if (below_one req.head_seq) invalid_head_seq
  reject_if (not (length req.head_hash == hash_size)) head_hash_len
  reject_if (not req.verified) chain_not_verified

-- `anchorPayload`
unfoldable pub anchor_payload : Text → ℕ → Text → Text
anchor_payload chain_id head_seq head_hash =
    write_len_prefixed anchor_domain_tag
    ++ (write_len_prefixed chain_id ++ (write_uint64 head_seq ++ write_len_prefixed head_hash))

-- `MemoryAnchorPublisher`: the map of what was published, by anchor id.
pub record Publisher : Type 0 where
  pub published : List (Text × AnchorResult)

abbrev pub has_id : Text → Text × AnchorResult → Bool
has_id id entry = text_eq entry.0 id

module _ (sha256 : Text → Text) where
  -- `NewAnchor`
  unfoldable pub new_anchor : AnchorRequest → Result AnchorResult
  new_anchor req = do
    validate_anchor_request req
    let payload = anchor_payload req.chain_id req.head_seq req.head_hash
    ok (record {
      anchor_id = hex (sha256 payload);
      chain_id = req.chain_id;
      head_seq = req.head_seq;
      head_hash = req.head_hash;
      payload = payload;
      already_published = false;
    })

  abbrev pub entry_for : Publisher → AnchorResult → Option (Text × AnchorResult)
  entry_for p res = find (has_id res.anchor_id) p.published

  unfoldable pub record_anchor :
      Publisher → AnchorResult → Option (Text × AnchorResult) → Result AnchorResult × Publisher
  record_anchor p res none =
      (ok res, record p { published = p.published ++ (res.anchor_id, res) ∷ [] })
  record_anchor p res (some (id, prev)) = (ok (record prev { already_published = true }), p)

  unfoldable pub publish_built : Publisher → Result AnchorResult → Result AnchorResult × Publisher
  unfolding record_anchor
  publish_built p (err x) = (err x, p)
  publish_built p (ok res) = record_anchor p res (entry_for p res)

  -- `PublishAnchor`; the first argument is `ctx.Err()`.
  unfoldable pub publish_anchor :
      Option Error → AnchorRequest → Publisher → Result AnchorResult × Publisher
  unfolding publish_built
  publish_anchor (some x) req p = (err x, p)
  publish_anchor none req p = publish_built p (new_anchor req)

-- `Count`
abbrev pub published_count : Publisher → ℕ
published_count p = length p.published
