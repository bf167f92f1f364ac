-- ===== src/Tests/Lifecycle.antt =====
-- The theorems on retained, disowned, delivered and revoked objects at concrete inputs.
use garage_s3_operator.Base.{◌≡◌, ◌⊎◌, refl, none, OnReturn, Always, string_eq}
use garage_s3_operator.AccessKey.{reconcile, dispatch}
use garage_s3_operator.AccessKey.Provision.{Delivered, reconcile-Delivered}
use garage_s3_operator.AccessKey.Retention.{key_dispatch_retained}
use garage_s3_operator.Permission.{revoke}
use garage_s3_operator.Permission as PermissionController
use garage_s3_operator.Permission.Deletion.{permission_finalize_guards}
use garage_s3_operator.Helper.{get_key}
use garage_s3_operator.Permission.Revocation.{Revoked, revoke-Revoked}
use garage_s3_operator.Tests.Memory.{memory, memory_view, memory_lists, slot_object}
use garage_s3_operator.Tests.MemoryLaws.{
  memory_accessors-AccessorLaws, memory-ServerLaws, memory-ListLaws, manager-ApiLaws,
}
use garage_s3_operator.Tests.MemoryObjects.{memory_secrets-ResourceLaws, memory-KeyPatchKeeps}
use garage_s3_operator.Tests.Data.{
  connection, manager, bucket, key, permission, retained_key, empty_world, world, owned_key,
}

key_dispatch_retained_example :
    Always (λ t. t.garage ≡ world.garage) (dispatch memory none retained_key world)
key_dispatch_retained_example = key_dispatch_retained memory retained_key refl world refl

reconcile-Delivered_example :
    OnReturn
      (λ _ t.
        Delivered memory manager memory_view manager-ApiLaws
          (λ k n. slot_object (λ s. s.meta) k.secret n)
          memory_secrets-ResourceLaws
          memory-KeyPatchKeeps
          key
          t)
      (reconcile memory manager key empty_world)
reconcile-Delivered_example =
    reconcile-Delivered memory manager memory_view manager-ApiLaws
      (λ k n. slot_object (λ s. s.meta) k.secret n) memory_secrets-ResourceLaws memory-KeyPatchKeeps
      key empty_world

revoke-Revoked_example :
    OnReturn
      (λ _ t.
        Revoked memory connection memory_view memory_lists
          (memory-ServerLaws connection)
          (memory-ListLaws connection)
          memory_accessors-AccessorLaws
          bucket
          key
          t.garage)
      (revoke memory manager bucket key world)
revoke-Revoked_example =
    revoke-Revoked memory connection memory_view memory_lists (memory-ServerLaws connection)
      (memory-ListLaws connection) memory_accessors-AccessorLaws bucket key world

permission_finalize_guards_example :
    Always
      (λ t.
        (t.kube ≡ world.kube)
        ⊎ Revoked memory connection memory_view memory_lists
            (memory-ServerLaws connection)
            (memory-ListLaws connection)
            memory_accessors-AccessorLaws
            bucket
            owned_key
            t.garage)
      (PermissionController.finalize memory manager permission bucket world)
unfolding get_key string_eq
permission_finalize_guards_example =
    permission_finalize_guards memory connection memory_view memory_lists
      (memory-ServerLaws connection) (memory-ListLaws connection) memory_accessors-AccessorLaws
      bucket permission owned_key world refl
