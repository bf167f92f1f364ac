-- ===== src/Garage/Connect.antt =====
-- `newGarageClient`: the connection to the cluster that a GarageCluster describes.
use garage_s3_operator.Base.{
  String, Option, none, some, ◌==◌, string_eq, if◌then◌else◌, Action, errorf, pure, fail, ◌>>=◌,
  wrap_error,
}
use garage_s3_operator.Api.{GarageCluster, KeySelector}
use garage_s3_operator.Platform.{Platform, World, TlsConfig, Connection}
use garage_s3_operator.Helper.{get_secret_value}

module _ (P : Platform) where
  open P use {util}

  -- The pool of the CA certificates, if a secret is named for them.
  unfoldable pub load_ca : GarageCluster → Option KeySelector → Action (World P) (Option String)
  load_ca cluster none = pure none
  load_ca cluster (some ref) = do
    ca ←
        wrap_error "unable to fetch garage endpoint CA"
          (get_secret_value P cluster.meta.namespace (some ref))
    if util.append_certs_from_pem ca
        then pure (some ca)
        else fail (errorf "unable to parse garage endpoint CA PEM")

  unfoldable pub tls_config : GarageCluster → Action (World P) (Option TlsConfig)
  tls_config cluster = do
    roots ← load_ca cluster cluster.spec.endpoint.ca.secret_ref
    let insecure = cluster.spec.endpoint.insecure_skip_tls_verify
    pure (some (record { insecure_skip_verify = insecure; root_cas = roots }))

  -- The transport's TLS configuration; `none` is the default transport.
  unfoldable pub transport : GarageCluster → String → Action (World P) (Option TlsConfig)
  transport cluster scheme = if scheme == "https" then tls_config cluster else pure none

  unfoldable pub new_garage_client : GarageCluster → Action (World P) Connection
  new_garage_client cluster = elim (util.parse_scheme cluster.spec.endpoint.url) [
    | none ↦ fail (errorf "unable to parse garage endpoint URL")
    | some scheme ↦ do
      tls ← transport cluster scheme
      token ←
          wrap_error "unable to get admin token"
            (get_secret_value P cluster.meta.namespace cluster.spec.admin_token_secret_ref)
      pure (record { url = cluster.spec.endpoint.url; tls = tls; token = token })
  ]
