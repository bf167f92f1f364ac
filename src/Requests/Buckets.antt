-- ===== src/Requests/Buckets.antt =====
-- The requests of the reconciliation of a GarageBucket.
use garage_s3_operator.Base.{
  String, none, Option, Outcome, Action, ◌==◌, string_eq, nat_eq, int_eq, wrap_error, lift, pure,
  ◌>>=◌, if◌then◌else◌, Bool, Costs-pure, Costs-fail, Costs-deref, Costs-lift, Costs-handle,
  Costs-bind, Costs-bind_on, Costs-wrap_error, Costs-if, Costs-option, Costs-weaken,
  OnReturn-wrap_error, arith,
}
use garage_s3_operator.Api.{
  NamespacedName, object_key, GarageBucket, GarageAccessKey, target_name, retain,
}
use garage_s3_operator.Platform.{Platform, World, BucketInfo, on_kube, of_bucket}
use garage_s3_operator.Garage.{GarageApi, choose_factory}
use garage_s3_operator.Http.{has_status, not_found}
use garage_s3_operator.Finalizer.{is_deleting, has_finalizer, with_finalizer, without_finalizer}
use garage_s3_operator.Bucket.{
  ignore_not_found, delete_managed_key, delete_managed_permission, reconcile_key_resources_deletion,
  reconcile_access_key, reconcile_permission, new_key, new_permission, mutate_key,
  mutate_permission, quotas_differ, key_enabled, create_target, get_or_create_bucket,
  record_bucket_id, reconcile_quotas, reconcile_key_resources, reconcile, reconcile_deletion,
  finalize, keep, dispatch, reconcile_request,
}
use garage_s3_operator.Requests.Metered.{metered, Spends, Spends-on_kube}
use garage_s3_operator.Requests.Manager.{
  Metes, get_cluster-Spends, default_factory-Metes, default_factory-Spends,
}

module _ (P : Platform) where
  reconcile_access_key-Spends :
      (bucket : GarageBucket) → Spends P 0 (reconcile_access_key (metered P) bucket)
  unfolding reconcile_access_key
  reconcile_access_key-Spends bucket =
      Costs-bind 0 0
        (Spends-on_kube P
          (P.client.access_keys.create_or_update (new_key bucket) (mutate_key P.util bucket)))
        λ p. Costs-pure

  reconcile_permission-Spends :
      (bucket : GarageBucket) (key : GarageAccessKey)
      → Spends P 0 (reconcile_permission (metered P) bucket key)
  unfolding reconcile_permission
  reconcile_permission-Spends bucket key =
      Costs-bind 0 0
        (Spends-on_kube P (
          P.client.permissions.create_or_update (new_permission bucket)
            (mutate_permission P.util bucket key)))
        λ p. Costs-pure

  ignore_not_found-Spends :
      (m : Action (World (metered P)) (Unit {0}))
      → Spends P 0 m
      → Spends P 0 (ignore_not_found (metered P) m)
  ignore_not_found-Spends m q =
      Costs-handle 0 0 q (λ u. Costs-pure)
        λ e. Costs-if (P.util.is_not_found e) Costs-pure Costs-fail

  delete_found-Spends :
      (owners : Outcome Bool) (inspect remove : String) (m : Action (World (metered P)) (Unit {0}))
      → Spends P 0 m
      → Spends P 0 (
          wrap_error inspect (lift owners) >>= λ owned.
          if owned then wrap_error remove (ignore_not_found (metered P) m) else pure tt)
  delete_found-Spends owners inspect remove m q =
      Costs-bind 0 0 (Costs-wrap_error inspect Costs-lift)
        λ owned. Costs-if owned (Costs-wrap_error remove (ignore_not_found-Spends m q)) Costs-pure

  delete_managed_key-Spends :
      (bucket : GarageBucket) → Spends P 0 (delete_managed_key (metered P) bucket)
  unfolding delete_managed_key
  delete_managed_key-Spends bucket =
      Costs-handle 0 0 (Spends-on_kube P (P.client.access_keys.get (object_key bucket.meta)))
        (λ key.
          delete_found-Spends
            (P.util.has_owner_reference key.meta.owner_references (of_bucket bucket)) _ _
            (on_kube {P = metered P} (P.client.access_keys.remove key))
            (Spends-on_kube P (P.client.access_keys.remove key)))
        λ e. Costs-if (P.util.is_not_found e) Costs-pure Costs-fail

  delete_managed_permission-Spends :
      (bucket : GarageBucket) → Spends P 0 (delete_managed_permission (metered P) bucket)
  unfolding delete_managed_permission
  delete_managed_permission-Spends bucket =
      Costs-handle 0 0 (Spends-on_kube P (P.client.permissions.get (object_key bucket.meta)))
        (λ perm.
          delete_found-Spends
            (P.util.has_owner_reference perm.meta.owner_references (of_bucket bucket)) _ _
            (on_kube {P = metered P} (P.client.permissions.remove perm))
            (Spends-on_kube P (P.client.permissions.remove perm)))
        λ e. Costs-if (P.util.is_not_found e) Costs-pure Costs-fail

  module _ (api : GarageApi (World (metered P))) (metes : Metes P api) where
    create_target-Spends : (name : String) → Spends P 1 (create_target (metered P) api name)
    unfolding create_target
    create_target-Spends name =
        Costs-bind 1 0 (metes.create_bucket name)
          λ made. Costs-option made.error Costs-pure λ e. Costs-fail

    get_or_create_bucket-Spends :
        (name : String) → Spends P 2 (get_or_create_bucket (metered P) api name)
    unfolding get_or_create_bucket
    get_or_create_bucket-Spends name = Costs-bind 1 1 (metes.get_bucket name) λ found.
        Costs-bind 0 1 {A = Unit {0}}
          (Costs-option found.error Costs-pure
            λ e. Costs-if (has_status not_found found.resp) Costs-pure Costs-fail)
          λ _.
            Costs-bind 0 1 (Costs-deref found.resp) λ resp.
              Costs-if (resp.status_code == not_found) (create_target-Spends name) Costs-pure

    record_bucket_id-Spends :
        (value : Option BucketInfo) (bucket : GarageBucket)
        → Spends P 0 (record_bucket_id (metered P) api value bucket)
    unfolding record_bucket_id
    record_bucket_id-Spends value bucket =
        Costs-if (bucket.status.id == "")
          (Costs-bind 0 0 (Costs-deref value)
            λ info. Costs-wrap_error _ (Spends-on_kube P (P.client.buckets.patch_status bucket _)))
          Costs-pure

    reconcile_quotas-Spends :
        (value : Option BucketInfo) (bucket : GarageBucket)
        → Spends P 1 (reconcile_quotas (metered P) api value bucket)
    unfolding reconcile_quotas
    reconcile_quotas-Spends value bucket = Costs-option bucket.spec.quotas Costs-pure λ quotas.
        Costs-bind 0 1 (Costs-deref value) λ info.
          Costs-if (quotas_differ P.accessors quotas info)
            (Costs-bind 1 0 (metes.update_bucket info.id quotas)
              λ r. Costs-option r.error Costs-pure λ e. Costs-fail)
            Costs-pure

    reconcile_key_resources-Spends :
        (bucket : GarageBucket) → Spends P 0 (reconcile_key_resources (metered P) api bucket)
    unfolding reconcile_key_resources reconcile_key_resources_deletion
    reconcile_key_resources-Spends bucket =
        Costs-if (key_enabled bucket)
          (Costs-bind 0 0 (Costs-wrap_error _ (reconcile_access_key-Spends bucket))
            λ key. Costs-wrap_error _ (reconcile_permission-Spends bucket key))
          (Costs-wrap_error _ (
            Costs-bind 0 0 (delete_managed_key-Spends bucket)
              λ _. delete_managed_permission-Spends bucket))

    reconcile-Spends : (bucket : GarageBucket) → Spends P 3 (reconcile (metered P) api bucket)
    unfolding reconcile
    reconcile-Spends bucket =
        Costs-bind 2 1 (get_or_create_bucket-Spends (target_name bucket)) λ info.
          Costs-bind 0 1 (record_bucket_id-Spends info bucket) λ patched.
            Costs-bind 1 0 (reconcile_quotas-Spends info patched)
              λ _. reconcile_key_resources-Spends patched

    reconcile_deletion-Spends :
        (bucket : GarageBucket) → Spends P 2 (reconcile_deletion (metered P) api bucket)
    unfolding reconcile_deletion
    reconcile_deletion-Spends bucket = Costs-if (bucket.spec.reclaim_policy == retain) Costs-pure (
        Costs-bind 1 1 (metes.get_bucket (target_name bucket)) λ found.
          Costs-option found.error
            (Costs-bind 0 1 (Costs-deref found.value) λ info.
              Costs-bind 1 0 (metes.delete_bucket info.id)
                λ gone. Costs-option gone.error Costs-pure λ e. Costs-fail)
            λ e. Costs-if (has_status not_found found.resp) Costs-pure Costs-fail)

    finalize-Spends : (bucket : GarageBucket) → Spends P 2 (finalize (metered P) api bucket)
    unfolding finalize
    finalize-Spends bucket =
        Costs-if (has_finalizer P.util bucket.meta)
          (Costs-bind 2 0 (reconcile_deletion-Spends bucket) λ _.
            Costs-bind 0 0
              (Spends-on_kube P (
                P.client.buckets.update
                  (record bucket { meta = without_finalizer P.util bucket.meta })))
              λ b. Costs-pure)
          Costs-pure

    keep-Spends : (bucket : GarageBucket) → Spends P 3 (keep (metered P) api bucket)
    unfolding keep
    keep-Spends bucket =
        Costs-bind 0 3
          (Costs-if (has_finalizer P.util bucket.meta) Costs-pure (
            Spends-on_kube P (
              P.client.buckets.update
                (record bucket { meta = with_finalizer P.util bucket.meta }))))
          λ marked. reconcile-Spends marked

  dispatch-Spends : (bucket : GarageBucket) → Spends P 3 (dispatch (metered P) none bucket)
  unfolding dispatch
  dispatch-Spends bucket =
      Costs-bind 0 3 (Costs-wrap_error _ (get_cluster-Spends P bucket.spec.cluster_ref)) λ cluster.
        Costs-bind_on 0 3 (Metes P) (Costs-wrap_error _ (default_factory-Spends P cluster))
          (λ w.
            OnReturn-wrap_error _ _ (choose_factory (metered P) none cluster) w
              (default_factory-Metes P cluster w))
          λ api metes.
            Costs-if (is_deleting P.util bucket.meta)
              (Costs-weaken 2 3 (omega arith) (finalize-Spends api metes bucket))
              (keep-Spends api metes bucket)

  pub bucket_request-Spends :
      (request : NamespacedName) → Spends P 3 (reconcile_request (metered P) none request)
  unfolding reconcile_request
  bucket_request-Spends request =
      Costs-handle 0 3 (Spends-on_kube P (P.client.buckets.get request)) dispatch-Spends
        λ e. Costs-if (P.util.is_not_found e) Costs-pure Costs-fail
