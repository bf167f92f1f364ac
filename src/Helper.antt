-- ===== src/Helper.antt =====
-- internal/controller/helper.go: the objects that a selector names, and one value of a secret.
use garage_s3_operator.Base.{
  String, ◌<>◌, Option, none, some, List, [], ◌∷◌, ◌==◌, string_eq, if◌then◌else◌, Action, errorf,
  pure, fail, deref, ◌>>=◌,
}
use garage_s3_operator.Api.{
  Selector, namespaced_name, GarageBucket, GarageAccessKey, GarageCluster, KeySelector, Secret,
}
use garage_s3_operator.Platform.{Platform, World, on_kube}

-- `v, ok := m[key]` on a Go map.
unfoldable pub map_get : {V : Type 0} → String → List (String × V) → Option V
map_get k [] = none
map_get k ((j, v) ∷ m) = if j == k then some v else map_get k m

module _ (P : Platform) where
  open P use {client}

  unfoldable pub get_bucket : Option Selector → Action (World P) GarageBucket
  get_bucket none = fail (errorf "bucket selector is required")
  get_bucket (some s) = on_kube {P = P} (client.buckets.get (namespaced_name s))

  unfoldable pub get_key : Option Selector → Action (World P) GarageAccessKey
  get_key none = fail (errorf "key selector is required")
  get_key (some s) = on_kube {P = P} (client.access_keys.get (namespaced_name s))

  unfoldable pub get_cluster : Option Selector → Action (World P) GarageCluster
  get_cluster none = fail (errorf "cluster selector is required")
  get_cluster (some s) = on_kube {P = P} (client.clusters.get (namespaced_name s))

  -- The value under the selector's key, in a secret that was read.
  abbrev pub secret_value : KeySelector → Secret → Action (World P) String
  secret_value s secret = elim (map_get s.key secret.content) [
    | some v ↦ pure v
    | none ↦ fail (errorf ("key " <> (s.key <> (" not found in secret " <> s.name))))
  ]

  -- `s.Name` is read first, which panics at a nil selector.
  unfoldable pub get_secret_value : String → Option KeySelector → Action (World P) String
  get_secret_value namespace selector = do
    s ← deref selector
    secret ← on_kube {P = P} (client.secrets.get (record { name = s.name; namespace = namespace }))
    secret_value s secret
