-- ===== src/Startup/Options.antt =====
-- The flags of `main`, and the options that it makes of them.
use garage_s3_operator.Base.{
  String, Bool, true, false, not, Option, none, some, List, [], ◌∷◌, ◌==◌, string_eq, if◌then◌else◌,
}

-- The values of `main`'s variables after `flag.Parse()`.
pub record Flags : Type 0 where
  pub metrics_addr : String
  pub probe_addr : String
  pub enable_leader_election : Bool
  pub secure_metrics : Bool
  pub webhook_cert_path : String
  pub webhook_cert_name : String
  pub webhook_cert_key : String
  pub metrics_cert_path : String
  pub metrics_cert_name : String
  pub metrics_cert_key : String
  pub enable_http2 : Bool

-- A command line as Go's package flag reads it: the value of a flag of a name with a default.
pub record CommandLine : Type 0 where
  pub string_var : String → String → String
  pub bool_var : String → Bool → Bool

unfoldable pub parse_flags : CommandLine → Flags
parse_flags line = record {
  metrics_addr = line.string_var "metrics-bind-address" "0";
  probe_addr = line.string_var "health-probe-bind-address" ":8081";
  enable_leader_election = line.bool_var "leader-elect" false;
  secure_metrics = line.bool_var "metrics-secure" true;
  webhook_cert_path = line.string_var "webhook-cert-path" "";
  webhook_cert_name = line.string_var "webhook-cert-name" "tls.crt";
  webhook_cert_key = line.string_var "webhook-cert-key" "tls.key";
  metrics_cert_path = line.string_var "metrics-cert-path" "";
  metrics_cert_name = line.string_var "metrics-cert-name" "tls.crt";
  metrics_cert_key = line.string_var "metrics-cert-key" "tls.key";
  enable_http2 = line.bool_var "enable-http2" false;
}

-- The field of a server's `tls.Config` that an option of `main` writes.
pub record ServerTls : Type 0 where
  pub next_protos : List String

abbrev pub disable_http2 : ServerTls → ServerTls
disable_http2 c = record c { next_protos = "http/1.1" ∷ [] }

unfoldable pub tls_opts : Flags → List (ServerTls → ServerTls)
tls_opts flags = if not flags.enable_http2 then disable_http2 ∷ [] else []

pub record WebhookOptions : Type 0 where
  pub tls_opts : List (ServerTls → ServerTls)
  pub cert_dir : String
  pub cert_name : String
  pub key_name : String

unfoldable pub webhook_options : Flags → WebhookOptions
webhook_options flags =
    let options : WebhookOptions = record {
      tls_opts = tls_opts flags;
      cert_dir = "";
      cert_name = "";
      key_name = "";
    } in
    if not (flags.webhook_cert_path == "")
    then record options {
      cert_dir = flags.webhook_cert_path;
      cert_name = flags.webhook_cert_name;
      key_name = flags.webhook_cert_key;
    }
    else options

-- `FilterProvider` is the type of the providers of filters for the metrics server.
pub record MetricsOptions (FilterProvider : Type 0) : Type 0 where
  pub bind_address : String
  pub secure_serving : Bool
  pub tls_opts : List (ServerTls → ServerTls)
  pub filter_provider : Option FilterProvider
  pub cert_dir : String
  pub cert_name : String
  pub key_name : String

pub record ManagerOptions (FilterProvider : Type 0) : Type 0 where
  pub metrics : MetricsOptions FilterProvider
  pub webhook_server : WebhookOptions
  pub health_probe_bind_address : String
  pub leader_election : Bool
  pub leader_election_id : String

module _ {FilterProvider : Type 0} (with_authentication_and_authorization : FilterProvider) where
  unfoldable pub metrics_options : Flags → MetricsOptions FilterProvider
  metrics_options flags =
      let options : MetricsOptions FilterProvider = record {
        bind_address = flags.metrics_addr;
        secure_serving = flags.secure_metrics;
        tls_opts = tls_opts flags;
        filter_provider = none;
        cert_dir = "";
        cert_name = "";
        key_name = "";
      } in
      let filtered =
        if flags.secure_metrics
        then record options { filter_provider = some with_authentication_and_authorization }
        else options in
      if not (flags.metrics_cert_path == "")
      then record filtered {
        cert_dir = flags.metrics_cert_path;
        cert_name = flags.metrics_cert_name;
        key_name = flags.metrics_cert_key;
      }
      else filtered

  unfoldable pub manager_options : Flags → ManagerOptions FilterProvider
  manager_options flags = record {
    metrics = metrics_options flags;
    webhook_server = webhook_options flags;
    health_probe_bind_address = flags.probe_addr;
    leader_election = flags.enable_leader_election;
    leader_election_id = "01649b42.spiarh.fr";
  }
