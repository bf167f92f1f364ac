-- ===== src/Startup/Servers.antt =====
-- The two servers of the process: HTTP/2, certificates and the protection of the metrics.
use garage_s3_operator.Base.{◌≡◌, ◌↔◌, true, some, List, [], ◌∷◌, string_eq, if◌then◌else◌, arith}
use garage_s3_operator.Startup.Options.{
  Flags, ServerTls, tls_opts, webhook_options, metrics_options, manager_options,
}

-- A configuration after a server has applied its options, in order.
pub configure : List (ServerTls → ServerTls) → ServerTls → ServerTls
configure [] c = c
configure (f ∷ fs) c = configure fs (f c)

module _ {FilterProvider : Type 0} (auth : FilterProvider) (flags : Flags) where
  -- Both servers, whatever their configuration, offer HTTP/1.1 only, but with the flag -enable-http2,
  -- which leaves what they offered; the metrics server has the filter that authenticates exactly if it
  -- serves HTTPS.
  pub manager_options_lem :
      (c : ServerTls)
      → ((configure (manager_options auth flags).metrics.tls_opts c).next_protos
          ≡ (if flags.enable_http2 then c.next_protos else "http/1.1" ∷ []))
        × ((configure (manager_options auth flags).webhook_server.tls_opts c).next_protos
            ≡ (if flags.enable_http2 then c.next_protos else "http/1.1" ∷ []))
        × (((manager_options auth flags).metrics.filter_provider ≡ some auth)
            ↔ ((manager_options auth flags).metrics.secure_serving ≡ true))
  unfolding manager_options metrics_options webhook_options tls_opts configure
  manager_options_lem c = (ground arith, ground arith, ground arith)
