-- ===== src/System/Frames.antt =====
-- Which reconciliations leave the GarageBucket objects alone and bring no bucket into being.
use garage_s3_operator.Base.{
  String, refl, ◌∙◌, Option, none, some, ◌==◌, string_eq, Action, Always, Preorder, Keeps,
  Keeps-pure, Keeps-fail, Keeps-deref, Keeps-bind, Keeps-wrap_error, Keeps-if, Keeps-option,
}
use garage_s3_operator.Api.{Selector, KeySelector, GarageCluster}
use garage_s3_operator.Platform.{Platform, World, on_kube, on_garage}
use garage_s3_operator.Helper.{get_bucket, get_key, get_cluster, get_secret_value, map_get}
use garage_s3_operator.Garage.{load_ca, tls_config, transport, new_garage_client}
use garage_s3_operator.System.Laws.{Objects, SameObjects, Leaves, ServerObjects}

module _ (P : Platform) (stored : Objects P.Kube) (R : Preorder P.Garage) where
  -- The same GarageBucket objects, and a later Garage.
  unfoldable pub Mild : Preorder (World P)
  Mild = record {
    later = λ w t. SameObjects stored w.kube t.kube × R.later w.garage t.garage;
    same = λ w. ((λ n. refl), R.same w.garage);
    chain = λ p q. ((λ n. q.0 n ∙ p.0 n), R.chain p.1 q.1);
  }

  pub Mild-on_kube :
      {A : Type 0} (m : Action P.Kube A) → Leaves stored m → Keeps Mild (on_kube {P = P} m)
  unfolding Mild
  Mild-on_kube m h = record { after = λ w. (h w.kube, R.same w.garage) }

  pub Mild-on_garage :
      {A : Type 0} (m : Action P.Garage A)
      → ((g : P.Garage) → Always (R.later g) (m g))
      → Keeps Mild (on_garage {P = P} m)
  unfolding Mild
  Mild-on_garage m h = record { after = λ w. ((λ n. refl), h w.garage) }

  module _ (kube : ServerObjects P stored) where
    pub get_cluster-Mild : (s : Option Selector) → Keeps Mild (get_cluster P s)
    unfolding get_cluster
    get_cluster-Mild none = Keeps-fail
    get_cluster-Mild (some s) = Mild-on_kube _ (kube.clusters.get _)

    pub get_key-Mild : (s : Option Selector) → Keeps Mild (get_key P s)
    unfolding get_key
    get_key-Mild none = Keeps-fail
    get_key-Mild (some s) = Mild-on_kube _ (kube.access_keys.get _)

    pub get_bucket-Mild : (s : Option Selector) → Keeps Mild (get_bucket P s)
    unfolding get_bucket
    get_bucket-Mild none = Keeps-fail
    get_bucket-Mild (some s) = Mild-on_kube _ (kube.get _)

    get_secret_value-Mild :
        (namespace : String) (s : Option KeySelector) → Keeps Mild (get_secret_value P namespace s)
    unfolding get_secret_value
    get_secret_value-Mild namespace s = Keeps-bind (Keeps-deref s) λ k.
        Keeps-bind (Mild-on_kube _ (kube.secrets.get _))
          λ secret. Keeps-option (map_get k.key secret.content) Keeps-fail λ v. Keeps-pure

    load_ca-Mild :
        (cluster : GarageCluster) (ref : Option KeySelector) → Keeps Mild (load_ca P cluster ref)
    unfolding load_ca
    load_ca-Mild cluster none = Keeps-pure
    load_ca-Mild cluster (some ref) =
        Keeps-bind (Keeps-wrap_error _ (get_secret_value-Mild _ _))
          λ ca. Keeps-if (P.util.append_certs_from_pem ca) Keeps-pure Keeps-fail

    transport-Mild :
        (cluster : GarageCluster) (scheme : String) → Keeps Mild (transport P cluster scheme)
    unfolding transport tls_config
    transport-Mild cluster scheme =
        Keeps-if (scheme == "https") (Keeps-bind (load_ca-Mild cluster _) λ roots. Keeps-pure)
          Keeps-pure

    pub new_garage_client-Mild :
        (cluster : GarageCluster) → Keeps Mild (new_garage_client P cluster)
    unfolding new_garage_client
    new_garage_client-Mild cluster =
        Keeps-option (P.util.parse_scheme cluster.spec.endpoint.url) Keeps-fail λ scheme.
          Keeps-bind (transport-Mild cluster scheme)
            λ tls. Keeps-bind (Keeps-wrap_error _ (get_secret_value-Mild _ _)) λ token. Keeps-pure
