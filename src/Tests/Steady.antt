-- ===== src/Tests/Steady.antt =====
-- A second reconciliation at a concrete input.
use garage_s3_operator.Base.{◌≡◌, refl, arith, string_eq, OnReturn, Always}
use garage_s3_operator.System.Local.{garage_manager-Reads}
use garage_s3_operator.Api.{GarageBucket, target_name}
use garage_s3_operator.Bucket.{reconcile}
use garage_s3_operator.Bucket.Steady.{Reads, reconcile_idempotent}
use garage_s3_operator.Tests.Memory.{memory, memory_view}
use garage_s3_operator.Tests.MemoryLaws.{manager-ApiLaws}
use garage_s3_operator.Tests.MemoryObjects.{memory-PatchKeepsSpec}
use garage_s3_operator.Tests.Data.{connection, manager, bucket, world, empty_world}

memory-Reads : Reads memory manager
memory-Reads = garage_manager-Reads memory connection (λ n g. ground arith) λ n g. ground arith

-- The object as it is read again, with its id.
abbrev bucket_again : GarageBucket
bucket_again = record bucket { status = record { id = "bucket-1" } }

reconcile_idempotent_example :
    OnReturn
      (λ _ t.
        Always
          (λ u. u.garage ≡ t.garage)
          (reconcile memory manager bucket_again (record { kube = world.kube; garage = t.garage })))
      (reconcile memory manager bucket empty_world)
unfolding target_name
reconcile_idempotent_example =
    reconcile_idempotent memory manager memory_view manager-ApiLaws memory-Reads
      memory-PatchKeepsSpec bucket bucket_again world.kube empty_world refl refl
