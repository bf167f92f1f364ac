-- ===== src/AccessKey/SecretContent.antt =====
-- `getExpectedSecretContent`, and the secret that `reconcileSecret` asks for.
use garage_s3_operator.Base.{
  String, ◌<>◌, none, some, List, [], ◌∷◌, ◌==◌, string_eq, if◌then◌else◌, cmp_or, Outcome, returns,
  fails, panics,
}
use garage_s3_operator.Api.{Secret, GarageAccessKey, default_format, aws_config_format}
use garage_s3_operator.Platform.{Util, of_key}

-- The credentials file of the format "AWSConfig".
unfoldable pub aws_config : String → String → String
aws_config id secret =
    "\n[default]\naws_access_key_id=" <> (id <> ("\naws_secret_access_key=" <> (secret <> "\n")))

unfoldable pub expected_secret_content : String → String → String → List (String × String)
unfolding aws_config
expected_secret_content format id secret =
    if format == aws_config_format
    then ("config", aws_config id secret) ∷ []
    else ("AWS_ACCESS_KEY_ID", id) ∷ ("AWS_SECRET_ACCESS_KEY", secret) ∷ []

-- The format asked for; it stays the empty text where the spec has no `secret`.
unfoldable pub secret_format : GarageAccessKey → String
secret_format key = elim key.spec.secret [ none ↦ "" | some s ↦ cmp_or s.format default_format ]

unfoldable pub secret_name : GarageAccessKey → String
secret_name key = cmp_or key.spec.override_name key.meta.name

-- `corev1.SecretTypeOpaque`
abbrev pub opaque : String
opaque = "Opaque"

unfoldable pub new_secret : GarageAccessKey → Secret
unfolding secret_name
new_secret key = record {
  meta = record {
    name = secret_name key;
    namespace = key.meta.namespace;
    uid = "";
    finalizers = [];
    owner_references = [];
    deletion_timestamp = none;
  };
  secret_type = "";
  content = [];
}

-- The callback of `reconcileSecret`, with the key's id and secret as Garage gave them.
unfoldable pub mutate_secret : Util → GarageAccessKey → String → String → Secret → Outcome Secret
unfolding secret_format expected_secret_content
mutate_secret u key id secret_key secret = elim (u.set_owner_reference (of_key key) secret.meta) [
  | returns m ↦ returns (record {
    meta = m;
    secret_type = opaque;
    content = expected_secret_content (secret_format key) id secret_key;
  })
  | fails e ↦ fails e
  | panics ↦ panics
]
