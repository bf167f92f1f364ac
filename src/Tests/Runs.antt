-- ===== src/Tests/Runs.antt =====
-- Runs on the memory platform: the theorems on actions that return are about runs that do.
use garage_s3_operator.Base.{◌≡◌, refl, returns, string_eq, int_eq, nat_eq}
use garage_s3_operator.Api.{target_name, key_target_name, permissions_eq}
use garage_s3_operator.Garage.{
  garage_manager, get_bucket, create_bucket, update_bucket, delete_bucket, get_key_by_id,
  create_key, list_keys, find_key_in_list, find_bucket_in_list, set_permissions,
  deny_all_permissions, find_key, find_bucket, split_permissions, every_perm,
}
use garage_s3_operator.Bucket.{
  claim, mutate_key, mutate_permission, create_target, get_or_create_bucket, record_bucket_id,
  reconcile_quotas, quotas_differ, reconcile_access_key, reconcile_permission,
  reconcile_key_resources,
}
use garage_s3_operator.Bucket as BucketController
use garage_s3_operator.AccessKey as KeyController
use garage_s3_operator.AccessKey.{
  secret_format, secret_name, new_secret, aws_config, expected_secret_content, mutate_secret,
  ensure_key, record_key_id, reconcile_secret,
}
use garage_s3_operator.Permission.{
  grant, revoke, revoke_key, set_if_different, bucket_has_permissions, current_permissions,
}
use garage_s3_operator.Tests.Memory.{memory, memory_view}
use garage_s3_operator.Tests.Data.{
  manager, bucket, deleted_bucket, key, permission, world, empty_world, read_write,
}

-- A new bucket is created.
bucket_run : (BucketController.reconcile memory manager bucket empty_world).0 ≡ returns tt
unfolding BucketController.reconcile target_name get_or_create_bucket create_target record_bucket_id
    reconcile_quotas quotas_differ reconcile_key_resources reconcile_access_key reconcile_permission
    mutate_key mutate_permission claim garage_manager get_bucket create_bucket update_bucket
    string_eq int_eq nat_eq
bucket_run = refl

-- A bucket is deleted.
deletion_run : (BucketController.finalize memory manager deleted_bucket world).0 ≡ returns tt
unfolding BucketController.finalize BucketController.reconcile_deletion target_name garage_manager
    get_bucket delete_bucket string_eq nat_eq
deletion_run = refl

-- A key is created, and its secret.
key_run : (KeyController.reconcile memory manager key empty_world).0 ≡ returns tt
unfolding KeyController.reconcile ensure_key record_key_id reconcile_secret new_secret secret_name
    secret_format mutate_secret expected_secret_content aws_config key_target_name garage_manager
    find_key_in_list find_key list_keys create_key get_key_by_id string_eq nat_eq
key_run = refl

-- A permission is granted and revoked.
permission_run :
    memory_view.grants
      (grant memory manager bucket permission key world).1.garage
      "key-1"
      "bucket-1"
    ≡ read_write
unfolding grant set_if_different bucket_has_permissions current_permissions target_name
    key_target_name garage_manager get_bucket get_key_by_id set_permissions split_permissions
    string_eq nat_eq permissions_eq
permission_run = refl

revocation_run : (revoke memory manager bucket key world).0 ≡ returns tt
unfolding revoke revoke_key target_name key_target_name garage_manager find_bucket_in_list
    find_bucket find_key_in_list find_key list_keys deny_all_permissions every_perm string_eq
revocation_run = refl
