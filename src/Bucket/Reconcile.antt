-- ===== src/Bucket/Reconcile.antt =====
-- `Reconcile`, `reconcile` and `reconcileDeletion` of the bucket controller.
use garage_s3_operator.Base.{
  String, ◌<>◌, Bool, false, not, Option, none, some, ◌||◌, ◌==◌, string_eq, int_eq, nat_eq,
  if◌then◌else◌, Action, wrapped, pure, fail, deref, handle, ◌>>=◌, ◌>>◌, wrap_error,
}
use garage_s3_operator.Api.{NamespacedName, GarageBucket, BucketQuotas, target_name, retain}
use garage_s3_operator.Platform.{Platform, World, on_kube, Response, BucketInfo, Accessors}
use garage_s3_operator.Helper.{get_cluster}
use garage_s3_operator.Garage.{GarageApi, GarageManagerFactory, choose_factory}
use garage_s3_operator.Http.{has_status, not_found}
use garage_s3_operator.Finalizer.{is_deleting, has_finalizer, with_finalizer, without_finalizer}
use garage_s3_operator.Bucket.Resources.{
  reconcile_key_resources_deletion, reconcile_access_key, reconcile_permission,
}

-- Whether a limit differs from what Garage has.
unfoldable pub quotas_differ : Accessors → BucketQuotas → BucketInfo → Bool
quotas_differ a q info =
    not (q.max_objects == a.get_max_objects info.quotas)
    || not (q.max_size == a.get_max_size info.quotas)

-- `bucket.Spec.BucketAccessKey != nil && bucket.Spec.BucketAccessKey.Enabled`
abbrev pub key_enabled : GarageBucket → Bool
key_enabled bucket = elim bucket.spec.bucket_access_key [ none ↦ false | some a ↦ a.enabled ]

-- The text of an error from `deleteBucket`, with the status of the response if there is one.
abbrev pub delete_error : Option Response → String
delete_error none = "unable to delete target bucket"
delete_error (some r) = "unable to delete target bucket " <> r.status

module _ (P : Platform) (api : GarageApi (World P)) where
  open P use {client, util, accessors}

  unfoldable pub create_target : String → Action (World P) (Option BucketInfo)
  create_target name = do
    made ← api.create_bucket name
    elim made.error [ none ↦ pure made.value | some e ↦ fail e ]

  -- The target bucket, created if Garage answers that there is none.
  unfoldable pub get_or_create_bucket : String → Action (World P) (Option BucketInfo)
  get_or_create_bucket name = do
    found ← api.get_bucket name
    elim found.error [
      | none ↦ pure tt
      | some e ↦
          if has_status not_found found.resp
          then pure tt
          else fail (wrapped "unable to get target bucket info" e)
    ]
    resp ← deref found.resp
    if resp.status_code == not_found then create_target name else pure found.value

  -- The bucket's status gets the id once; the object is then as the server answered it.
  unfoldable pub record_bucket_id : Option BucketInfo → GarageBucket → Action (World P) GarageBucket
  record_bucket_id found bucket =
      if bucket.status.id == ""
      then (do
        info ← deref found
        wrap_error "unable to patch GarageBucket status" (
            on_kube {P = P} (
              client.buckets.patch_status bucket
                (record bucket { status = record { id = info.id } }))))
      else pure bucket

  unfoldable pub reconcile_quotas : Option BucketInfo → GarageBucket → Action (World P) (Unit {0})
  unfolding quotas_differ
  reconcile_quotas found bucket = elim bucket.spec.quotas [
    | none ↦ pure tt
    | some quotas ↦ do
      info ← deref found
      if quotas_differ accessors quotas info
          then (do
            r ← api.update_bucket info.id quotas
            elim r.error [ none ↦ pure tt | some e ↦ fail (wrapped "unable to set quotas" e) ])
          else pure tt
  ]

  -- The managed key and permission: kept if the access key is enabled, deleted if not.
  unfoldable pub reconcile_key_resources : GarageBucket → Action (World P) (Unit {0})
  reconcile_key_resources bucket =
      if key_enabled bucket
      then (do
        key ← wrap_error "GarageAccessKey reconciliation failed" (reconcile_access_key P bucket)
        wrap_error "GaragePermission reconciliation failed" (reconcile_permission P bucket key))
      else wrap_error "unable to delete managed key resources"
          (reconcile_key_resources_deletion P bucket)

  unfoldable pub reconcile : GarageBucket → Action (World P) (Unit {0})
  reconcile bucket = do
    info ← get_or_create_bucket (target_name bucket)
    patched ← record_bucket_id info bucket
    reconcile_quotas info patched
    reconcile_key_resources patched

  unfoldable pub reconcile_deletion : GarageBucket → Action (World P) (Unit {0})
  reconcile_deletion bucket = if bucket.spec.reclaim_policy == retain then pure tt else (do
    found ← api.get_bucket (target_name bucket)
    elim found.error [
      | some e ↦
          if has_status not_found found.resp
          then pure tt
          else fail (wrapped "unable to get target bucket info" e)
      | none ↦ do
        info ← deref found.value
        gone ← api.delete_bucket info.id
        elim gone.error [ none ↦ pure tt | some e ↦ fail (wrapped (delete_error gone.resp) e) ]
    ])

  -- The part of `Reconcile` for an object that is being deleted.
  unfoldable pub finalize : GarageBucket → Action (World P) (Unit {0})
  finalize bucket =
      if has_finalizer util bucket.meta
      then (do
        reconcile_deletion bucket
        on_kube {P = P}
            (client.buckets.update (record bucket { meta = without_finalizer util bucket.meta }))
        pure tt)
      else pure tt

  -- The part of `Reconcile` for a live object.
  unfoldable pub keep : GarageBucket → Action (World P) (Unit {0})
  keep bucket = do
    marked ←
        if has_finalizer util bucket.meta
        then pure bucket
        else on_kube {P = P}
            (client.buckets.update (record bucket { meta = with_finalizer util bucket.meta }))
    reconcile marked

module _ (P : Platform) where
  open P use {client, util}

  unfoldable pub dispatch :
      Option (GarageManagerFactory P) → GarageBucket → Action (World P) (Unit {0})
  dispatch factory bucket = do
    cluster ← wrap_error "unable to fetch Cluster" (get_cluster P bucket.spec.cluster_ref)
    api ← wrap_error "unable to create garage manager" (choose_factory P factory cluster)
    if is_deleting util bucket.meta then finalize P api bucket else keep P api bucket

  -- `Reconcile`
  unfoldable pub reconcile_request :
      Option (GarageManagerFactory P) → NamespacedName → Action (World P) (Unit {0})
  reconcile_request factory request =
      handle (on_kube {P = P} (client.buckets.get request)) (dispatch factory)
        (λ e. if util.is_not_found e then pure tt else fail e)
