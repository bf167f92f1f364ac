-- ===== src/Tests/Release.antt =====
-- Deletions that come to their end at concrete inputs.
use garage_s3_operator.Base.{some, true, String, ◌≡◌, refl, none, string_eq, Yields, arith}
use garage_s3_operator.Api.{GarageBucket, GarageAccessKey, target_name, key_target_name}
use garage_s3_operator.Platform.{BucketInfo}
use garage_s3_operator.Finalizer.{without_finalizer}
use garage_s3_operator.Garage.{
  garage_manager, get_bucket, delete_bucket, get_key_by_id, delete_key, set_permissions,
  split_permissions,
}
use garage_s3_operator.Garage.Lawful.{garage_manager-LeavesKube}
use garage_s3_operator.Bucket as BucketController
use garage_s3_operator.Bucket.Release.{Deletes, finalize-Yields}
use garage_s3_operator.AccessKey as KeyController
use garage_s3_operator.AccessKey.Release.{DeletesKey, key_finalize-Yields}
use garage_s3_operator.Permission.{expected_permissions, grant}
use garage_s3_operator.Permission.Settled.{Serves, grant-Yields}
use garage_s3_operator.Tests.Memory.{
  named_bucket, named_key, aimed, MemoryGarage, memory, memory_view, memory_client,
}
use garage_s3_operator.Tests.MemoryLaws.{
  manager-ApiLaws, memory_accessors-AccessorLaws, delete≢retain,
}
use garage_s3_operator.Tests.Data.{
  bucket, permission, bucket_info, connection, manager, deleted_bucket, key, world,
}

memory-Deletes : (name : String) → Deletes memory manager memory_view name
unfolding garage_manager get_bucket delete_bucket
memory-Deletes name = record {
  get_bucket = λ w. ground arith;
  delete_bucket = λ w info there. ground arith;
}

memory-DeletesKey : (name : String) → DeletesKey memory manager memory_view name
unfolding garage_manager get_key_by_id delete_key
memory-DeletesKey name = record {
  get_key = λ w. ground arith;
  delete_key = λ w info there. ground arith;
}

abbrev released_bucket : GarageBucket
released_bucket = record deleted_bucket { meta = without_finalizer memory.util deleted_bucket.meta }

finalize-Yields_example :
    Yields
      (λ _ t.
        (memory_view.bucket_at t.garage (target_name deleted_bucket) ≡ none)
        × (t.kube ≡ (memory_client.buckets.update released_bucket world.kube).1))
      (BucketController.finalize memory manager deleted_bucket world)
unfolding string_eq
finalize-Yields_example =
    finalize-Yields memory manager memory_view manager-ApiLaws
      (garage_manager-LeavesKube memory connection) deleted_bucket
      (memory-Deletes (target_name deleted_bucket)) world delete≢retain refl tt

abbrev released_key : GarageAccessKey
released_key = record key { meta = without_finalizer memory.util key.meta }

key_finalize-Yields_example :
    Yields
      (λ _ t.
        (memory_view.key_at t.garage (key_target_name key) ≡ none)
        × (t.kube ≡ (memory_client.access_keys.update released_key world.kube).1))
      (KeyController.finalize memory manager key world)
unfolding string_eq
key_finalize-Yields_example =
    key_finalize-Yields memory manager memory_view manager-ApiLaws
      (garage_manager-LeavesKube memory connection) key (memory-DeletesKey (key_target_name key))
      world delete≢retain refl tt

aimed_here :
    (g : MemoryGarage) (name key_name : String) (info : BucketInfo) (id : String)
    → named_bucket g name ≡ some info
    → named_key g key_name ≡ some id
    → aimed g id info.id ≡ true
aimed_here g name key_name info id there at = ground arith

memory-Serves : (name key_name : String) → Serves memory manager memory_view name key_name
unfolding garage_manager get_bucket get_key_by_id set_permissions split_permissions
memory-Serves name key_name = record {
  get_bucket = λ w info there. ground arith;
  get_key = λ w id there. ground arith;
  set_permissions = λ w info id p there at.
      let aim = aimed_here w.garage name key_name info id there at in rw aim (rw aim refl);
}

grant-Yields_example :
    Yields
      (λ _ t.
        (info : BucketInfo) × (id : String) × (memory_view.bucket_at t.garage (target_name bucket)
          ≡ some info)
        × (memory_view.key_at t.garage (key_target_name key) ≡ some id)
        × (memory_view.grants t.garage id info.id ≡ expected_permissions permission))
      (grant memory manager bucket permission key world)
unfolding string_eq target_name key_target_name
grant-Yields_example =
    grant-Yields memory manager memory_view manager-ApiLaws memory_accessors-AccessorLaws bucket
      permission key (memory-Serves (target_name bucket) (key_target_name key)) world
      ((bucket_info, refl), ("key-1", refl))
