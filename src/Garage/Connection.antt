-- ===== src/Garage/Connection.antt =====
-- Building the connection to Garage asks nothing of Garage.
use garage_s3_operator.Base.{
  String, ◌≡◌, Option, none, some, arith, Option-cases, Bool-cases, inl, inr, ◌==◌, string_eq,
  Action, Always, Always-bind, Always-wrap_error, wrap_error,
}
use garage_s3_operator.Api.{GarageCluster, KeySelector, Selector}
use garage_s3_operator.Platform.{Platform, World}
use garage_s3_operator.Helper.{get_secret_value, get_cluster}
use garage_s3_operator.Garage.Connect.{load_ca, tls_config, transport, new_garage_client}
use garage_s3_operator.Garage.Manager.{default_factory, choose_factory}

module _ (P : Platform) (g : P.Garage) where
  abbrev Same : World P → Type 0
  Same t = t.garage ≡ g

  get_secret_value-Same :
      (namespace : String) (s : Option KeySelector) (w : World P)
      → Same w
      → Always Same (get_secret_value P namespace s w)
  unfolding get_secret_value
  get_secret_value-Same namespace none w h = h
  get_secret_value-Same namespace (some s) w h = ground arith

  pub get_cluster-Same :
      (s : Option Selector) (w : World P) → Same w → Always Same (get_cluster P s w)
  unfolding get_cluster
  get_cluster-Same none w h = h
  get_cluster-Same (some s) w h = h

  load_ca-Same :
      (cluster : GarageCluster) (ref : Option KeySelector) (w : World P)
      → Same w
      → Always Same (load_ca P cluster ref w)
  unfolding load_ca
  load_ca-Same cluster none w h = h
  load_ca-Same cluster (some ref) w h =
      Always-bind Same (wrap_error "unable to fetch garage endpoint CA" ca) _ w
        (Always-wrap_error Same "unable to fetch garage endpoint CA" ca w
          (get_secret_value-Same cluster.meta.namespace (some ref) w h))
        λ text t same. ground arith
    where
      ca : Action (World P) String
      ca = get_secret_value P cluster.meta.namespace (some ref)

  transport-Same :
      (cluster : GarageCluster) (scheme : String) (w : World P)
      → Same w
      → Always Same (transport P cluster scheme w)
  unfolding transport tls_config
  transport-Same cluster scheme w h = elim (Bool-cases (scheme == "https")) [
    | inr plain ↦ rw plain h
    | inl https ↦ rw https (
        Always-bind Same (load_ca P cluster cluster.spec.endpoint.ca.secret_ref) _ w
          (load_ca-Same cluster cluster.spec.endpoint.ca.secret_ref w h) λ roots t same. same)
  ]

  pub new_garage_client-Same :
      (cluster : GarageCluster) (w : World P) → Same w → Always Same (new_garage_client P cluster w)
  unfolding new_garage_client
  new_garage_client-Same cluster w h =
      elim (Option-cases (P.util.parse_scheme cluster.spec.endpoint.url)) [
        | inl bad ↦ rw (bad, new_garage_client) h
        | inr (scheme, parsed) ↦
            rw (parsed, new_garage_client)
              (Always-bind Same (transport P cluster scheme) _ w (transport-Same cluster scheme w h)
                λ tls t same.
                  Always-bind Same (wrap_error "unable to get admin token" token) _ t
                    (Always-wrap_error Same "unable to get admin token" token t (
                      get_secret_value-Same cluster.meta.namespace
                        cluster.spec.admin_token_secret_ref t same))
                    λ text u same'. same')
      ]
    where
      token : Action (World P) String
      token = get_secret_value P cluster.meta.namespace cluster.spec.admin_token_secret_ref

  pub default_factory-Same :
      (cluster : GarageCluster) (w : World P)
      → Same w
      → Always Same (choose_factory P none cluster w)
  unfolding choose_factory default_factory
  default_factory-Same cluster w h =
      Always-bind Same (new_garage_client P cluster) _ w (new_garage_client-Same cluster w h)
        λ c t same. same
