-- ===== src/Api/Cluster.antt =====
-- api/v1alpha1/cluster_types.go. The status conditions are neither read nor written.
use garage_s3_operator.Base.{String, Bool, Option}
use garage_s3_operator.Api.Shared.{ObjectMeta, KeySelector}

pub record EndpointCa : Type 0 where
  pub secret_ref : Option KeySelector
  pub config_map_ref : Option KeySelector

pub record Endpoint : Type 0 where
  pub url : String
  pub insecure_skip_tls_verify : Bool
  pub ca : EndpointCa

pub record GarageClusterSpec : Type 0 where
  pub endpoint : Endpoint
  pub admin_token_secret_ref : Option KeySelector

pub record GarageCluster : Type 0 where
  pub meta : ObjectMeta
  pub spec : GarageClusterSpec
