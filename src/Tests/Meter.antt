-- ===== src/Tests/Meter.antt =====
-- Reconciliations on the memory platform with its requests to Garage counted.
use garage_s3_operator.Base.{◌≡◌, ◌≤◌, ◌+◌, refl, none, string_eq, int_eq, nat_eq, Always}
use garage_s3_operator.Api.{object_key, target_name, key_target_name}
use garage_s3_operator.Platform.{World}
use garage_s3_operator.Garage.{
  garage_manager, get_bucket, create_bucket, update_bucket, get_key_by_id, create_key, list_keys,
  find_key_in_list, find_key,
}
use garage_s3_operator.Bucket.{
  claim, mutate_key, mutate_permission, create_target, get_or_create_bucket, record_bucket_id,
  reconcile_quotas, quotas_differ, reconcile_access_key, reconcile_permission,
  reconcile_key_resources,
}
use garage_s3_operator.Bucket as BucketController
use garage_s3_operator.AccessKey as KeyController
use garage_s3_operator.AccessKey.{
  secret_format, secret_name, new_secret, aws_config, expected_secret_content, mutate_secret,
  ensure_key, record_key_id, reconcile_secret,
}
use garage_s3_operator.Permission as PermissionController
use garage_s3_operator.Requests.Metered.{metered, requests}
use garage_s3_operator.Requests.Bound.{reconcile_request-requests}
use garage_s3_operator.Tests.Memory.{memory}
use garage_s3_operator.Tests.Data.{connection, bucket, key, empty_world}

abbrev metered_world : World (metered memory)
metered_world = record { kube = empty_world.kube; garage = (0, empty_world.garage) }

-- A new bucket takes all three requests.
bucket_requests :
    requests memory
      (BucketController.reconcile
        (metered memory)
        (garage_manager (metered memory) connection)
        bucket
        metered_world).1
    ≡ 3
unfolding BucketController.reconcile target_name get_or_create_bucket create_target record_bucket_id
    reconcile_quotas quotas_differ reconcile_key_resources reconcile_access_key reconcile_permission
    mutate_key mutate_permission claim garage_manager get_bucket create_bucket update_bucket
    string_eq int_eq nat_eq requests
bucket_requests = refl

-- A new key takes all four.
key_requests :
    requests memory
      (KeyController.reconcile
        (metered memory)
        (garage_manager (metered memory) connection)
        key
        metered_world).1
    ≡ 4
unfolding KeyController.reconcile ensure_key record_key_id reconcile_secret new_secret secret_name
    secret_format mutate_secret expected_secret_content aws_config key_target_name garage_manager
    find_key_in_list find_key list_keys create_key get_key_by_id string_eq nat_eq requests
key_requests = refl

reconcile_request-requests_example :
    Always
      (λ t. requests memory t ≤ 3 + requests memory metered_world)
      (BucketController.reconcile_request
        (metered memory)
        none
        (object_key bucket.meta)
        metered_world)
    × Always
        (λ t. requests memory t ≤ 4 + requests memory metered_world)
        (KeyController.reconcile_request
          (metered memory)
          none
          (object_key bucket.meta)
          metered_world)
    × Always
        (λ t. requests memory t ≤ 4 + requests memory metered_world)
        (PermissionController.reconcile_request
          (metered memory)
          none
          (object_key bucket.meta)
          metered_world)
reconcile_request-requests_example =
    reconcile_request-requests memory (object_key bucket.meta) metered_world
