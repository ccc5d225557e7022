-- ===== src/Pdp/Hashing.antt =====
-- `DecisionHash` and `decisionCacheKey` do not depend on the order in which Go visits a map.
use mathlib.Core.List.{Perm}
use mathlib.Core.List.Perm
use poc_dcs.Common.{
  String, ◌≡◌, refl, Map, lookup, keys, List, [], ◌∷◌, map, string_eq, Bool, Option,
}
use poc_dcs.Order.{sort_strings, sort-perm}
use poc_dcs.Types.{FieldAction, FieldMeta, Decision, PolicyInput}
use poc_dcs.Pdp.{Digests, decision_hash, decision_cache_key, field_entry}

-- Two maps with the same keys and values, in any order.
pub record SameMap {ℓ} {V : Type ℓ} (m n : Map String V) : Type ℓ where
  pub same_keys : Perm (keys m) (keys n)
  pub same_values : (k : String) → lookup k m ≡ lookup k n

abbrev pair_with : Map String FieldAction → String → String × Option FieldAction
pair_with m k = (k, lookup k m)

map-same_values :
    (m n : Map String FieldAction) (ks : List String)
    → ((k : String) → lookup k m ≡ lookup k n)
    → map (pair_with m) ks ≡ map (pair_with n) ks
map-same_values m n [] h = refl
map-same_values m n (k ∷ ks) h = cc (h k, map-same_values m n ks h)

module _ (digests : Digests) where
  -- Decisions with the same verdict, the same reason and the same field actions in any order have
  -- the same hash, whatever their recorded hashes are.
  pub decision_hash_deterministic :
      (d d' : Decision)
      → d.allow ≡ d'.allow
      → d.reason ≡ d'.reason
      → SameMap d.field_actions d'.field_actions
      → decision_hash digests d ≡ decision_hash digests d'
  unfolding decision_hash
  decision_hash_deterministic d d' same_allow same_reason same = cc (
    sort-perm same.same_keys,
    map-same_values d.field_actions d'.field_actions (sort_strings (keys d.field_actions))
        same.same_values,
  )

  -- The cache key of a request does not depend on the order of its labels and fields.
  pub decision_cache_key_deterministic :
      (dcs : Bool) (input : PolicyInput) (labels : List String) (fields : Map String FieldMeta)
      → Perm input.resource.labels labels
      → Perm input.resource.fields fields
      → decision_cache_key digests dcs input
        ≡ decision_cache_key digests dcs
            (record input { resource = record input.resource { labels = labels; fields = fields } })
  unfolding decision_cache_key
  decision_cache_key_deterministic dcs input labels fields same_labels same_fields =
      cc (sort-perm same_labels, sort-perm (Perm.map field_entry same_fields))
