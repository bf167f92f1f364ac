-- ===== src/Tests/Witnesses.antt =====
-- The theorems at concrete inputs, on the memory platform.
use mathlib.Core.Option.{get_or}
use garage_s3_operator.Base.{
  ◌≡◌, ◌≢◌, refl, ◌⊎◌, true, none, some, string_eq, OnReturn, Always, returns,
}
use garage_s3_operator.Api.{
  object_key, GarageAccessKey, GaragePermission, target_name, all_permissions, key_selector,
  bucket_selector,
}
use garage_s3_operator.Platform.{BucketInfo, of_bucket}
use garage_s3_operator.Garage.Lawful.{garage_manager-LeavesKube}
use garage_s3_operator.Bucket.{reconcile_access_key, reconcile_permission}
use garage_s3_operator.Bucket as BucketController
use garage_s3_operator.Bucket.Ownership.{IsManaged}
use garage_s3_operator.Bucket.Managed.{
  reconcile_access_key-IsManaged, reconcile_permission-IsManaged,
}
use garage_s3_operator.Bucket.Deletion.{finalize-gone, finalize_guards}
use garage_s3_operator.Bucket.Retention.{dispatch_retained}
use garage_s3_operator.Bucket.Provision.{MeetsQuotas, reconcile-HasQuotas}
use garage_s3_operator.Permission.{grant}
use garage_s3_operator.Permission.Grants.{Granted, grant-Granted}
use garage_s3_operator.Tests.Memory.{memory, memory_view, memory_util, slot_object}
use garage_s3_operator.Tests.MemoryLaws.{
  delete≢retain, memory_accessors-AccessorLaws, memory_util-UtilLaws, manager-ApiLaws,
}
use garage_s3_operator.Tests.MemoryObjects.{
  memory_keys-ResourceLaws, memory_permissions-ResourceLaws, memory-PatchKeepsSpec,
}
use garage_s3_operator.Tests.Data.{
  connection, manager, access, bucket, deleted_bucket, retained_bucket, key, permission, world,
  empty_world,
}

finalize_guards_example :
    Always
      (λ t.
        (t.kube ≡ world.kube)
        ⊎ (memory_view.bucket_at t.garage (target_name deleted_bucket) ≡ none))
      (BucketController.finalize memory manager deleted_bucket world)
finalize_guards_example =
    finalize_guards memory manager memory_view manager-ApiLaws deleted_bucket
      (garage_manager-LeavesKube memory connection) world delete≢retain

finalize-gone_example :
    OnReturn
      (λ _ t. memory_view.bucket_at t.garage (target_name deleted_bucket) ≡ none)
      (BucketController.finalize memory manager deleted_bucket world)
unfolding string_eq
finalize-gone_example =
    finalize-gone memory manager memory_view manager-ApiLaws deleted_bucket world delete≢retain refl

reconcile-HasQuotas_example :
    OnReturn
      (λ _ t.
        (info : BucketInfo) × (memory_view.bucket_at t.garage (target_name bucket) ≡ some info)
        × MeetsQuotas memory.accessors bucket.spec.quotas info)
      (BucketController.reconcile memory manager bucket empty_world)
reconcile-HasQuotas_example =
    reconcile-HasQuotas memory manager memory_view manager-ApiLaws memory-PatchKeepsSpec bucket
      empty_world

dispatch_retained_example :
    Always
      (λ t. t.garage ≡ world.garage)
      (BucketController.dispatch memory none retained_bucket world)
dispatch_retained_example = dispatch_retained memory retained_bucket refl world refl

grant-Granted_example :
    OnReturn
      (λ _ t.
        Granted memory manager memory_view manager-ApiLaws memory_accessors-AccessorLaws bucket
          permission key t.garage)
      (grant memory manager bucket permission key world)
grant-Granted_example =
    grant-Granted memory manager memory_view manager-ApiLaws memory_accessors-AccessorLaws bucket
      permission key world

reconcile_access_key-IsManaged_example :
    OnReturn
      (λ k t.
        (slot_object (λ a. a.meta) t.kube.key (object_key bucket.meta) ≡ some k)
        × IsManaged memory_util bucket k.meta
        × (k.spec.cluster_ref ≡ bucket.spec.cluster_ref)
        × ((old : GarageAccessKey)
            → slot_object (λ a. a.meta) world.kube.key (object_key bucket.meta) ≡ some old
            → old.spec.cluster_ref ≢ none
            → memory_util.has_owner_reference old.meta.owner_references (of_bucket bucket)
              ≡ returns true))
      (reconcile_access_key memory bucket world)
reconcile_access_key-IsManaged_example =
    reconcile_access_key-IsManaged memory memory_util-UtilLaws bucket
      (λ k n. slot_object (λ a. a.meta) k.key n) memory_keys-ResourceLaws world

reconcile_permission-IsManaged_example :
    OnReturn
      (λ _ t.
        (perm : GaragePermission) × (slot_object
            (λ p. p.meta)
            t.kube.permission
            (object_key bucket.meta)
          ≡ some perm)
        × IsManaged memory_util bucket perm.meta
        × (perm.spec ≡ record {
          key_ref = key_selector key;
          bucket_ref = bucket_selector bucket;
          permissions = some (get_or access.permissions all_permissions);
        })
        × ((old : GaragePermission)
            → slot_object (λ p. p.meta) world.kube.permission (object_key bucket.meta) ≡ some old
            → old.spec.bucket_ref ≢ none
            → memory_util.has_owner_reference old.meta.owner_references (of_bucket bucket)
              ≡ returns true))
      (reconcile_permission memory bucket key world)
reconcile_permission-IsManaged_example =
    reconcile_permission-IsManaged memory memory_util-UtilLaws bucket
      (λ k n. slot_object (λ p. p.meta) k.permission n) memory_permissions-ResourceLaws key access
      world refl
