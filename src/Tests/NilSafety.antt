-- ===== src/Tests/NilSafety.antt =====
-- The memory platform under all three controllers: nothing panics.
use garage_s3_operator.Base.{none, arith, Calmly, string_eq, nat_eq}
use garage_s3_operator.Api.{object_key}
use garage_s3_operator.Bucket as BucketController
use garage_s3_operator.AccessKey as KeyController
use garage_s3_operator.Permission as PermissionController
use garage_s3_operator.System.CalmManager.{CalmServer}
use garage_s3_operator.System.CalmRequests.{reconcile_request-Calmly}
use garage_s3_operator.Tests.MemoryCalm.{
  memory_resource-Calm, memory_buckets-Calm, strict, strict-get_cluster, strict-get_permission,
  strict_permissions-Calm, strict-CalmSdk,
}
use garage_s3_operator.Tests.Data.{bucket}

strict-CalmServer : CalmServer strict
strict-CalmServer = record {
  get_cluster = strict-get_cluster;
  get_permission = strict-get_permission;
  buckets = memory_buckets-Calm;
  access_keys = memory_resource-Calm (λ x. x.meta) _ _ _;
  permissions = strict_permissions-Calm;
  secrets = memory_resource-Calm (λ x. x.meta) _ _ _;
  update_bucket = λ b. record { after = λ s. ground arith };
  update_key = λ k. record { after = λ s. ground arith };
  update_permission = λ p. record { after = λ s. ground arith };
  has_owner_reference = λ rs o e. cc;
  set_owner_reference = λ o m e. cc;
  sdk = strict-CalmSdk;
}

reconcile_request-Calmly_example :
    Calmly (BucketController.reconcile_request strict none (object_key bucket.meta))
    × Calmly (KeyController.reconcile_request strict none (object_key bucket.meta))
    × Calmly (PermissionController.reconcile_request strict none (object_key bucket.meta))
reconcile_request-Calmly_example =
    reconcile_request-Calmly strict strict-CalmServer (object_key bucket.meta)
