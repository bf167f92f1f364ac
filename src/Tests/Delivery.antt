-- ===== src/Tests/Delivery.antt =====
-- The three reconcilers one after the other, from an empty Garage.
use garage_s3_operator.Base.{Option, arith, string_eq, OnReturn}
use garage_s3_operator.Api.{NamespacedName, Secret}
use garage_s3_operator.Bucket as BucketController
use garage_s3_operator.AccessKey as KeyController
use garage_s3_operator.Permission.{grant}
use garage_s3_operator.System.Local.{LocalRequests, garage_manager-Local}
use garage_s3_operator.System.Delivery.{Usable, at, reconcile-Usable}
use garage_s3_operator.Tests.Memory.{memory, memory_view, slot_object, MemoryKube}
use garage_s3_operator.Tests.MemoryLaws.{manager-ApiLaws, memory_accessors-AccessorLaws}
use garage_s3_operator.Tests.MemoryObjects.{
  memory-PatchKeepsSpec, memory-KeyPatchKeeps, memory_secrets-ResourceLaws,
}
use garage_s3_operator.Tests.Data.{connection, manager, bucket, key, permission, world, empty_world}

memory-LocalRequests : LocalRequests memory memory_view connection
memory-LocalRequests = record {
  get_bucket_info = λ n g. ground arith;
  get_key_info = λ b n g. ground arith;
  list_keys = λ g. ground arith;
  allow_bucket_key = λ q g. ground arith;
  deny_bucket_key = λ q g. ground arith;
  create_key = λ n g. ground arith;
}

abbrev memory_secrets : MemoryKube → NamespacedName → Option Secret
memory_secrets k n = slot_object (λ s. s.meta) k.secret n

reconcile-Usable_example :
    OnReturn
      (λ _ t.
        OnReturn
          (λ _ u.
            OnReturn
              (λ _ x. Usable memory memory_view memory_secrets bucket key permission u x)
              (grant memory manager bucket permission key (at world.kube u)))
          (KeyController.reconcile memory manager key (at empty_world.kube t)))
      (BucketController.reconcile memory manager bucket empty_world)
reconcile-Usable_example =
    reconcile-Usable memory memory_view memory_secrets manager manager-ApiLaws
      memory_accessors-AccessorLaws memory_secrets-ResourceLaws memory-PatchKeepsSpec
      memory-KeyPatchKeeps (garage_manager-Local memory memory_view connection memory-LocalRequests)
      bucket key permission empty_world.kube world.kube empty_world
