-- ===== src/Api/Bucket.antt =====
-- api/v1alpha1/bucket_types.go. The status conditions are neither read nor written.
use garage_s3_operator.Base.{String, Bool, Option, some, ℤ, ◌==◌, string_eq, if◌then◌else◌}
use garage_s3_operator.Api.Shared.{Selector, ObjectMeta}
use garage_s3_operator.Api.Permission.{Permissions}

pub record BucketAccessKey : Type 0 where
  pub enabled : Bool
  pub permissions : Option Permissions
  pub format : String

-- Both fields are `int64`, which the code compares and passes on.
pub record BucketQuotas : Type 0 where
  pub max_objects : ℤ
  pub max_size : ℤ

pub record BucketSpec : Type 0 where
  pub cluster_ref : Option Selector
  pub override_name : String
  pub bucket_access_key : Option BucketAccessKey
  pub quotas : Option BucketQuotas
  pub reclaim_policy : String

pub record GarageBucketStatus : Type 0 where
  pub id : String

pub record GarageBucket : Type 0 where
  pub meta : ObjectMeta
  pub spec : BucketSpec
  pub status : GarageBucketStatus

-- `GarageBucket.TargetName`
unfoldable pub target_name : GarageBucket → String
target_name b = if b.spec.override_name == "" then b.meta.name else b.spec.override_name

-- `GarageBucket.Selector`
abbrev pub bucket_selector : GarageBucket → Option Selector
bucket_selector b = some (record { name = b.meta.name; namespace = b.meta.namespace })
