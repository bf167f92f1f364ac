-- ===== src/Requests/Permissions.antt =====
-- The requests of the reconciliation of a GaragePermission.
use garage_s3_operator.Base.{
  none, Option, Costs-pure, Costs-fail, Costs-deref, Costs-handle, Costs-bind, Costs-bind_on,
  Costs-wrap_error, Costs-if, Costs-option, Costs-weaken, OnReturn-wrap_error, string_eq, Error,
  false, arith,
}
use garage_s3_operator.Api.{
  NamespacedName, GarageBucket, GarageAccessKey, GaragePermission, key_target_name, target_name,
}
use garage_s3_operator.Platform.{Platform, World, KeyInfo, BucketInfo, ListBucketsItem}
use garage_s3_operator.Garage.{GarageApi, choose_factory}
use garage_s3_operator.Http.{has_status, not_found}
use garage_s3_operator.Finalizer.{is_deleting, has_finalizer, with_finalizer, without_finalizer}
use garage_s3_operator.Permission.{
  bucket_has_permissions, expected_permissions, set_if_different, grant, revoke_key, revoke,
  without_bucket, reconcile, reconcile_deletion, finalize, keep, dispatch, reconcile_request,
}
use garage_s3_operator.Requests.Metered.{metered, Spends, Spends-on_kube}
use garage_s3_operator.Requests.Manager.{
  Metes, get_cluster-Spends, get_key-Spends, get_bucket-Spends, default_factory-Metes,
  default_factory-Spends,
}

module _ (P : Platform) where
  module _ (api : GarageApi (World (metered P))) (metes : Metes P api) where
    set_if_different-Spends :
        (bucket : GarageBucket) (perm : GaragePermission) (b : Option BucketInfo)
        (k : Option KeyInfo)
        → Spends P 2 (set_if_different (metered P) api bucket perm b k)
    unfolding set_if_different
    set_if_different-Spends bucket perm b k =
        Costs-if
          (bucket_has_permissions P.accessors (target_name bucket) (expected_permissions perm)
            (P.accessors.get_buckets k))
          Costs-pure
          (Costs-bind 2 0
            (metes.set_permissions (P.accessors.get_access_key_id k) (P.accessors.get_bucket_id b)
              (expected_permissions perm))
            λ r. Costs-option r.error Costs-pure λ e. Costs-fail)

    grant-Spends :
        (bucket : GarageBucket) (perm : GaragePermission) (key : GarageAccessKey)
        → Spends P 4 (grant (metered P) api bucket perm key)
    unfolding grant
    grant-Spends bucket perm key = Costs-bind 1 3 (metes.get_bucket (target_name bucket)) λ found.
        Costs-option found.error
          (Costs-bind 1 2 (metes.get_key_by_id (key_target_name key) false) λ info.
            Costs-option info.error (set_if_different-Spends bucket perm found.value info.value)
              λ e. Costs-if (has_status not_found info.resp) Costs-pure Costs-fail)
          λ e. Costs-if (has_status not_found found.resp) Costs-pure Costs-fail

    reconcile-Spends :
        (bucket : GarageBucket) (perm : GaragePermission)
        → Spends P 4 (reconcile (metered P) api bucket perm)
    unfolding reconcile
    reconcile-Spends bucket perm =
        Costs-handle 0 4 (get_key-Spends P _) (grant-Spends bucket perm)
          λ e. Costs-if (P.util.is_not_found e) Costs-pure Costs-fail

    revoke_key-Spends :
        (key : GarageAccessKey) (b : ListBucketsItem)
        → Spends P 2 (revoke_key (metered P) api key b)
    unfolding revoke_key
    revoke_key-Spends key b = Costs-bind 1 1 (Costs-wrap_error _ (metes.find_key_in_list _)) λ item.
        Costs-option item Costs-pure λ k.
          Costs-bind 1 0 (metes.deny_all_permissions k.id b.id)
            λ r. Costs-option r.error Costs-pure λ e. Costs-fail

    revoke-Spends :
        (bucket : GarageBucket) (key : GarageAccessKey)
        → Spends P 3 (revoke (metered P) api bucket key)
    unfolding revoke
    revoke-Spends bucket key =
        Costs-bind 1 2 (Costs-wrap_error _ (metes.find_bucket_in_list _))
          λ item. Costs-option item Costs-pure λ b. revoke_key-Spends key b

    reconcile_deletion-Spends :
        (perm : GaragePermission) (bucket : GarageBucket)
        → Spends P 3 (reconcile_deletion (metered P) api perm bucket)
    unfolding reconcile_deletion
    reconcile_deletion-Spends perm bucket =
        Costs-handle 0 3 (get_key-Spends P _) (revoke-Spends bucket)
          λ e. Costs-if (P.util.is_not_found e) Costs-pure Costs-fail

    finalize-Spends :
        (perm : GaragePermission) (bucket : GarageBucket)
        → Spends P 3 (finalize (metered P) api perm bucket)
    unfolding finalize
    finalize-Spends perm bucket =
        Costs-if (has_finalizer P.util perm.meta)
          (Costs-bind 3 0 (reconcile_deletion-Spends perm bucket) λ _.
            Costs-bind 0 0
              (Spends-on_kube P (
                P.client.permissions.update
                  (record perm { meta = without_finalizer P.util perm.meta })))
              λ p. Costs-pure)
          Costs-pure

    keep-Spends :
        (perm : GaragePermission) (bucket : GarageBucket)
        → Spends P 4 (keep (metered P) api perm bucket)
    unfolding keep
    keep-Spends perm bucket =
        Costs-bind 0 4
          (Costs-if (has_finalizer P.util perm.meta) Costs-pure (
            Spends-on_kube P (
              P.client.permissions.update
                (record perm { meta = with_finalizer P.util perm.meta }))))
          λ marked. reconcile-Spends bucket marked

  without_bucket-Spends :
      (perm : GaragePermission) (e : Error) → Spends P 0 (without_bucket (metered P) perm e)
  unfolding without_bucket
  without_bucket-Spends perm e =
      Costs-if (P.util.is_not_found e)
        (Costs-if (is_deleting P.util perm.meta)
          (Costs-bind 0 0 (Costs-deref perm.spec.bucket_ref) λ s.
            Costs-if (has_finalizer P.util perm.meta)
              (Costs-bind 0 0
                (Spends-on_kube P (
                  P.client.permissions.update
                    (record perm { meta = without_finalizer P.util perm.meta })))
                λ p. Costs-pure)
              Costs-pure)
          Costs-pure)
        Costs-fail

  dispatch-Spends :
      (perm : GaragePermission) (bucket : GarageBucket)
      → Spends P 4 (dispatch (metered P) none perm bucket)
  unfolding dispatch
  dispatch-Spends perm bucket =
      Costs-bind 0 4 (Costs-wrap_error _ (get_cluster-Spends P bucket.spec.cluster_ref)) λ cluster.
        Costs-bind_on 0 4 (Metes P) (Costs-wrap_error _ (default_factory-Spends P cluster))
          (λ w.
            OnReturn-wrap_error _ _ (choose_factory (metered P) none cluster) w
              (default_factory-Metes P cluster w))
          λ api metes.
            Costs-if (is_deleting P.util perm.meta)
              (Costs-weaken 3 4 (omega arith) (finalize-Spends api metes perm bucket))
              (keep-Spends api metes perm bucket)

  pub permission_request-Spends :
      (request : NamespacedName) → Spends P 4 (reconcile_request (metered P) none request)
  unfolding reconcile_request
  permission_request-Spends request =
      Costs-handle 0 4 (Spends-on_kube P (P.client.permissions.get request))
        (λ perm.
          Costs-handle 0 4 (get_bucket-Spends P perm.spec.bucket_ref) (dispatch-Spends perm)
            λ e. Costs-weaken 0 4 (omega arith) (without_bucket-Spends perm e))
        λ e. Costs-if (P.util.is_not_found e) Costs-pure Costs-fail
