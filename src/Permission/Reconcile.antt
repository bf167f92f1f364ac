-- ===== src/Permission/Reconcile.antt =====
-- `Reconcile`, `reconcile` and `reconcileDeletion` of the permission controller.
use mathlib.Core.Option.{get_or}
use garage_s3_operator.Base.{
  String, Bool, false, Option, none, some, List, [], ◌∷◌, ◌==◌, contains, string_eq, nat_eq,
  if◌then◌else◌, Action, Error, wrapped, pure, fail, deref, handle, ◌>>=◌, ◌>>◌, wrap_error,
}
use garage_s3_operator.Api.{
  NamespacedName, GarageBucket, GarageAccessKey, GaragePermission, Permissions, permissions_eq,
  all_permissions, target_name, key_target_name,
}
use garage_s3_operator.Platform.{
  Platform, World, on_kube, KeyBucket, KeyInfo, ListBucketsItem, BucketInfo, ApiBucketKeyPerm,
  Accessors,
}
use garage_s3_operator.Helper.{get_bucket, get_key, get_cluster}
use garage_s3_operator.Garage.{GarageApi, GarageManagerFactory, choose_factory}
use garage_s3_operator.Finalizer.{is_deleting, has_finalizer, with_finalizer, without_finalizer}
use garage_s3_operator.Http.{has_status, not_found}

module _ (a : Accessors) where
  -- The rights that an SDK permission value stands for.
  unfoldable pub current_permissions : ApiBucketKeyPerm → Permissions
  current_permissions p = record {
    owner = a.get_owner p;
    read = a.get_read p;
    write = a.get_write p;
  }

  -- The loop of `reconcile`: the first bucket with the alias decides.
  unfoldable pub bucket_has_permissions : String → Permissions → List KeyBucket → Bool
  unfolding current_permissions permissions_eq
  bucket_has_permissions alias expected [] = false
  bucket_has_permissions alias expected (b ∷ bs) =
      if contains (a.get_global_aliases b) alias
      then current_permissions b.permissions == expected
      else bucket_has_permissions alias expected bs

-- The permissions of the spec, or all of them.
abbrev pub expected_permissions : GaragePermission → Permissions
expected_permissions perm = get_or perm.spec.permissions all_permissions

module _ (P : Platform) (api : GarageApi (World P)) where
  open P use {client, util, accessors}

  -- The end of `reconcile`: what Garage answered about the bucket and the key is at hand.
  unfoldable pub set_if_different :
      GarageBucket
      → GaragePermission
      → Option BucketInfo
      → Option KeyInfo
      → Action (World P) (Unit {0})
  set_if_different bucket perm bucket_info key_info =
      if bucket_has_permissions accessors (target_name bucket) (expected_permissions perm)
        (accessors.get_buckets key_info)
      then pure tt
      else (do
        r ←
            api.set_permissions (accessors.get_access_key_id key_info)
              (accessors.get_bucket_id bucket_info) (expected_permissions perm)
        elim r.error [
          | none ↦ pure tt
          | some e ↦ fail (wrapped "unable to set permissions on bucket" e)
        ])

  -- The part of `reconcile` after the GarageAccessKey was read.
  unfoldable pub grant :
      GarageBucket → GaragePermission → GarageAccessKey → Action (World P) (Unit {0})
  grant bucket perm key = do
    found ← api.get_bucket (target_name bucket)
    elim found.error [
      | some e ↦
          if has_status not_found found.resp
          then pure tt
          else fail (wrapped "unable to get target bucket info" e)
      | none ↦ do
        info ← api.get_key_by_id (key_target_name key) false
        elim info.error [
          | some e ↦
              if has_status not_found info.resp
              then pure tt
              else fail (wrapped "unable to get target key info" e)
          | none ↦ set_if_different bucket perm found.value info.value
        ]
    ]

  unfoldable pub reconcile : GarageBucket → GaragePermission → Action (World P) (Unit {0})
  reconcile bucket perm =
      handle (get_key P perm.spec.key_ref) (grant bucket perm)
        (λ e. if util.is_not_found e then pure tt else fail (wrapped "unable to fetch key" e))

  -- The part of `reconcileDeletion` after the bucket was found in Garage.
  unfoldable pub revoke_key : GarageAccessKey → ListBucketsItem → Action (World P) (Unit {0})
  revoke_key key b = do
    key_item ←
        wrap_error "unable to find key in Garage" (api.find_key_in_list (key_target_name key))
    elim key_item [
      | none ↦ pure tt
      | some k ↦ do
        r ← api.deny_all_permissions k.id b.id
        elim r.error [
          | none ↦ pure tt
          | some e ↦ fail (wrapped "unable to revoke permissions on bucket" e)
        ]
    ]

  -- The part of `reconcileDeletion` after the GarageAccessKey was read.
  unfoldable pub revoke : GarageBucket → GarageAccessKey → Action (World P) (Unit {0})
  revoke bucket key = do
    bucket_item ←
        wrap_error "unable to find bucket in Garage" (api.find_bucket_in_list (target_name bucket))
    elim bucket_item [ none ↦ pure tt | some b ↦ revoke_key key b ]

  unfoldable pub reconcile_deletion : GaragePermission → GarageBucket → Action (World P) (Unit {0})
  reconcile_deletion perm bucket =
      handle (get_key P perm.spec.key_ref) (revoke bucket)
        (λ e. if util.is_not_found e then pure tt else fail (wrapped "unable to fetch key" e))

  -- The part of `Reconcile` for an object that is being deleted.
  unfoldable pub finalize : GaragePermission → GarageBucket → Action (World P) (Unit {0})
  finalize perm bucket =
      if has_finalizer util perm.meta
      then (do
        reconcile_deletion perm bucket
        on_kube {P = P}
            (client.permissions.update (record perm { meta = without_finalizer util perm.meta }))
        pure tt)
      else pure tt

  -- The part of `Reconcile` for a live object.
  unfoldable pub keep : GaragePermission → GarageBucket → Action (World P) (Unit {0})
  keep perm bucket = do
    marked ←
        if has_finalizer util perm.meta
        then pure perm
        else on_kube {P = P}
            (client.permissions.update (record perm { meta = with_finalizer util perm.meta }))
    reconcile bucket marked

module _ (P : Platform) where
  open P use {client, util}

  -- The part of `Reconcile` where the GarageBucket could not be read. The log line formats
  -- `*perm.Spec.BucketRef`, which panics at a nil selector.
  unfoldable pub without_bucket : GaragePermission → Error → Action (World P) (Unit {0})
  without_bucket perm e =
      if util.is_not_found e
      then (if is_deleting util perm.meta
          then (do
            deref perm.spec.bucket_ref
            if has_finalizer util perm.meta
                then (do
                  on_kube {P = P} (
                      client.permissions.update
                        (record perm { meta = without_finalizer util perm.meta }))
                  pure tt)
                else pure tt)
          else pure tt)
      else fail e

  unfoldable pub dispatch :
      Option (GarageManagerFactory P)
      → GaragePermission
      → GarageBucket
      → Action (World P) (Unit {0})
  dispatch factory perm bucket = do
    cluster ← wrap_error "unable to fetch GarageCluster" (get_cluster P bucket.spec.cluster_ref)
    api ← wrap_error "unable to create garage manager" (choose_factory P factory cluster)
    if is_deleting util perm.meta then finalize P api perm bucket else keep P api perm bucket

  -- `Reconcile`
  unfoldable pub reconcile_request :
      Option (GarageManagerFactory P) → NamespacedName → Action (World P) (Unit {0})
  reconcile_request factory request =
      handle (on_kube {P = P} (client.permissions.get request))
        (λ perm.
          handle (get_bucket P perm.spec.bucket_ref) (dispatch factory perm) (without_bucket perm))
        (λ e. if util.is_not_found e then pure tt else fail e)
