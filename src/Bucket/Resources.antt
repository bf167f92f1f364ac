-- ===== src/Bucket/Resources.antt =====
-- The GarageAccessKey and the GaragePermission that a bucket manages in its own namespace.
use mathlib.Core.Option.{get_or}
use garage_s3_operator.Base.{
  Bool, true, false, not, Option, none, some, [], ◌&&◌, ◌==◌, string_eq, if◌then◌else◌, cmp_or,
  Action, Outcome, returns, fails, panics, errorf, wrapped, pure, fail, lift, handle, ◌>>=◌, ◌>>◌,
  wrap_error,
}
use garage_s3_operator.Api.{
  ObjectMeta, object_key, GarageBucket, GarageAccessKey, GaragePermission, all_permissions,
  bucket_selector, key_selector, default_format, BucketAccessKey,
}
use garage_s3_operator.Platform.{Platform, World, on_kube, of_bucket, Util}
use garage_s3_operator.Finalizer.{ensure_finalizer}

-- `p != nil`
abbrev pub is_set : {A : Type 0} → Option A → Bool
is_set none = false
is_set (some _) = true

-- The metadata of a new object: a name and a namespace.
abbrev pub fresh_meta : GarageBucket → ObjectMeta
fresh_meta bucket = record {
  name = bucket.meta.name;
  namespace = bucket.meta.namespace;
  uid = "";
  finalizers = [];
  owner_references = [];
  deletion_timestamp = none;
}

abbrev pub new_key : GarageBucket → GarageAccessKey
new_key bucket = record {
  meta = fresh_meta bucket;
  spec = record { cluster_ref = none; override_name = ""; reclaim_policy = ""; secret = none };
  status = record { id = "" };
}

abbrev pub new_permission : GarageBucket → GaragePermission
new_permission bucket = record {
  meta = fresh_meta bucket;
  spec = record { key_ref = none; bucket_ref = none; permissions = none };
}

-- The end of both callbacks: with the metadata claimed, the bucket's access key settings are read
-- through a pointer.
abbrev pub then_build :
    {A : Type 0}
    → Outcome ObjectMeta
    → Option BucketAccessKey
    → (ObjectMeta → BucketAccessKey → A)
    → Outcome A
then_build (returns m) (some access) build = returns (build m access)
then_build (returns m) none build = panics
then_build (fails e) access build = fails e
then_build panics access build = panics

module _ (u : Util) where
  -- In both callbacks: in the bucket's namespace, an object that is in use (`taken`) and is not
  -- owned by the bucket is refused, and the bucket becomes an owner of any other.
  unfoldable pub claim : GarageBucket → Bool → ObjectMeta → Outcome ObjectMeta
  claim bucket taken m =
      if bucket.meta.namespace == m.namespace
      then elim (u.has_owner_reference m.owner_references (of_bucket bucket)) [
        | returns owned ↦
            if taken && not owned
            then fails (errorf "key already exists and is not owned/managed by the bucket")
            else u.set_owner_reference (of_bucket bucket) m
        | fails e ↦ fails e
        | panics ↦ panics
      ]
      else returns m

  -- What the callback of `reconcileAccessKey` makes of a key, with its metadata claimed.
  abbrev pub managed_key :
      GarageBucket → GarageAccessKey → ObjectMeta → BucketAccessKey → GarageAccessKey
  managed_key bucket key m access = record {
    meta = ensure_finalizer u m;
    spec = record {
      cluster_ref = bucket.spec.cluster_ref;
      override_name = "";
      reclaim_policy = "";
      secret = some (record { name = ""; format = cmp_or access.format default_format });
    };
    status = key.status;
  }

  -- The callback of `reconcileAccessKey`.
  unfoldable pub mutate_key : GarageBucket → GarageAccessKey → Outcome GarageAccessKey
  mutate_key bucket key =
      then_build (claim bucket (is_set key.spec.cluster_ref) key.meta) bucket.spec.bucket_access_key
        (managed_key bucket key)

  -- What the callback of `reconcilePermission` makes of a permission.
  abbrev pub managed_permission :
      GarageBucket → GarageAccessKey → ObjectMeta → BucketAccessKey → GaragePermission
  managed_permission bucket key m access = record {
    meta = ensure_finalizer u m;
    spec = record {
      key_ref = key_selector key;
      bucket_ref = bucket_selector bucket;
      permissions = some (get_or access.permissions all_permissions);
    };
  }

  -- The callback of `reconcilePermission`.
  unfoldable pub mutate_permission :
      GarageBucket → GarageAccessKey → GaragePermission → Outcome GaragePermission
  mutate_permission bucket key perm =
      then_build (claim bucket (is_set perm.spec.bucket_ref) perm.meta)
        bucket.spec.bucket_access_key (managed_permission bucket key)

module _ (P : Platform) where
  open P use {client, util}

  unfoldable pub reconcile_access_key : GarageBucket → Action (World P) GarageAccessKey
  unfolding mutate_key
  reconcile_access_key bucket = do
    (key, op) ←
        on_kube {P = P}
          (client.access_keys.create_or_update (new_key bucket) (mutate_key util bucket))
    pure key

  unfoldable pub reconcile_permission : GarageBucket → GarageAccessKey → Action (World P) (Unit {0})
  unfolding mutate_permission
  reconcile_permission bucket key = do
    (perm, op) ← on_kube {P = P} (
        client.permissions.create_or_update (new_permission bucket)
          (mutate_permission util bucket key))
    pure tt

  -- A deletion whose "not found" is no error.
  abbrev pub ignore_not_found : Action (World P) (Unit {0}) → Action (World P) (Unit {0})
  ignore_not_found m = handle m pure (λ e. if util.is_not_found e then pure tt else fail e)

  unfoldable pub delete_managed_key : GarageBucket → Action (World P) (Unit {0})
  delete_managed_key bucket =
      handle (on_kube {P = P} (client.access_keys.get (object_key bucket.meta)))
        (λ key. do
          owned ←
              wrap_error "unable to inspect GarageAccessKey owner references"
                (lift (util.has_owner_reference key.meta.owner_references (of_bucket bucket)))
          if owned
              then wrap_error "unable to delete managed GarageAccessKey"
                  (ignore_not_found (on_kube {P = P} (client.access_keys.remove key)))
              else pure tt)
        (λ e.
          if util.is_not_found e
          then pure tt
          else fail (wrapped "unable to fetch managed GarageAccessKey" e))

  unfoldable pub delete_managed_permission : GarageBucket → Action (World P) (Unit {0})
  delete_managed_permission bucket =
      handle (on_kube {P = P} (client.permissions.get (object_key bucket.meta)))
        (λ perm. do
          owned ←
              wrap_error "unable to inspect GaragePermission owner references"
                (lift (util.has_owner_reference perm.meta.owner_references (of_bucket bucket)))
          if owned
              then wrap_error "unable to delete managed GaragePermission"
                  (ignore_not_found (on_kube {P = P} (client.permissions.remove perm)))
              else pure tt)
        (λ e.
          if util.is_not_found e
          then pure tt
          else fail (wrapped "unable to fetch managed GaragePermission" e))

  unfoldable pub reconcile_key_resources_deletion : GarageBucket → Action (World P) (Unit {0})
  unfolding delete_managed_key delete_managed_permission
  reconcile_key_resources_deletion bucket = do
    delete_managed_key bucket
    delete_managed_permission bucket
