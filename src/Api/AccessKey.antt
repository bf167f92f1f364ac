-- ===== src/Api/AccessKey.antt =====
-- api/v1alpha1/accesskey_types.go. The status conditions are neither read nor written.
use garage_s3_operator.Base.{String, ◌<>◌, Option, some, ◌==◌, string_eq, if◌then◌else◌}
use garage_s3_operator.Api.Shared.{Selector, ObjectMeta}

-- `Format` and `ReclaimPolicy` are Go strings: an object may carry any text.
abbrev pub default_format : String
default_format = "Default"

abbrev pub aws_config_format : String
aws_config_format = "AWSConfig"

abbrev pub retain : String
retain = "Retain"

abbrev pub delete : String
delete = "Delete"

pub record AccessKeySecret : Type 0 where
  pub name : String
  pub format : String

pub record GarageAccessKeySpec : Type 0 where
  pub cluster_ref : Option Selector
  pub override_name : String
  pub reclaim_policy : String
  pub secret : Option AccessKeySecret

pub record GarageAccessKeyStatus : Type 0 where
  pub id : String

pub record GarageAccessKey : Type 0 where
  pub meta : ObjectMeta
  pub spec : GarageAccessKeySpec
  pub status : GarageAccessKeyStatus

-- The name chosen by `TargetName`, before the namespace and the UID are put round it.
abbrev pub effective_name : GarageAccessKey → String
effective_name k = if k.spec.override_name == "" then k.meta.name else k.spec.override_name

-- `GarageAccessKey.TargetName`
unfoldable pub key_target_name : GarageAccessKey → String
key_target_name k = k.meta.namespace <> ("/" <> (effective_name k <> ("_" <> k.meta.uid)))

-- `GarageAccessKey.Selector`
abbrev pub key_selector : GarageAccessKey → Option Selector
key_selector k = some (record { name = k.meta.name; namespace = k.meta.namespace })
