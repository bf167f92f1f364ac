-- ===== src/Permission/NoPanic.antt =====
-- No branch of the reconciliation of a GaragePermission dereferences a nil pointer.
use garage_s3_operator.Base.{
  String, false, none, some, Option, Bool, Calmly, Calmly-pure, Calmly-fail, Calmly-handle,
  Calmly-bind, Calmly-wrap_error, Calmly-if, Calmly-option,
}
use garage_s3_operator.Api.{
  GarageBucket, GarageAccessKey, GaragePermission, NamespacedName, Permissions, Selector,
  key_target_name, target_name,
}
use garage_s3_operator.Platform.{Platform, World, KeyInfo, BucketInfo, ListBucketsItem}
use garage_s3_operator.Platform.Lifting.{Calmly-on_kube}
use garage_s3_operator.Helper.{get_key}
use garage_s3_operator.Garage.{GarageApi}
use garage_s3_operator.Http.{has_status, not_found}
use garage_s3_operator.Finalizer.{has_finalizer, with_finalizer}
use garage_s3_operator.Permission.Reconcile.{
  bucket_has_permissions, expected_permissions, set_if_different, grant, revoke_key, revoke,
  reconcile, reconcile_deletion, finalize, keep,
}

module _ (P : Platform) (api : GarageApi (World P)) where
  -- No call panics.
  pub record CalmPermissionCalls : Type 0 where
    pub get_bucket : (n : String) → Calmly (api.get_bucket n)
    pub get_key_by_id : (n : String) (b : Bool) → Calmly (api.get_key_by_id n b)
    pub set_permissions : (k b : String) (p : Permissions) → Calmly (api.set_permissions k b p)
    pub find_bucket_in_list : (n : String) → Calmly (api.find_bucket_in_list n)
    pub find_key_in_list : (n : String) → Calmly (api.find_key_in_list n)
    pub deny_all_permissions : (k b : String) → Calmly (api.deny_all_permissions k b)
    pub get_key : (n : NamespacedName) → Calmly (P.client.access_keys.get n)
    pub update : (p : GaragePermission) → Calmly (P.client.permissions.update p)

  module _ (calls : CalmPermissionCalls) where
    get_key-Calmly : (s : Option Selector) → Calmly (get_key P s)
    unfolding get_key
    get_key-Calmly none = Calmly-fail
    get_key-Calmly (some s) = Calmly-on_kube P _ (calls.get_key _)

    set_if_different-Calmly :
        (bucket : GarageBucket) (perm : GaragePermission) (b : Option BucketInfo)
        (k : Option KeyInfo)
        → Calmly (set_if_different P api bucket perm b k)
    unfolding set_if_different
    set_if_different-Calmly bucket perm b k =
        Calmly-if
          (bucket_has_permissions P.accessors (target_name bucket) (expected_permissions perm)
            (P.accessors.get_buckets k))
          Calmly-pure
          (Calmly-bind
            (calls.set_permissions (P.accessors.get_access_key_id k) (P.accessors.get_bucket_id b)
              (expected_permissions perm))
            λ r. Calmly-option r.error (λ _. Calmly-pure) λ e. Calmly-fail)

    grant-Calmly :
        (bucket : GarageBucket) (perm : GaragePermission) (key : GarageAccessKey)
        → Calmly (grant P api bucket perm key)
    unfolding grant
    grant-Calmly bucket perm key = Calmly-bind (calls.get_bucket (target_name bucket)) λ found.
        Calmly-option found.error
          (λ _. Calmly-bind (calls.get_key_by_id (key_target_name key) false) λ info.
            Calmly-option info.error
              (λ _. set_if_different-Calmly bucket perm found.value info.value)
              λ e. Calmly-if (has_status not_found info.resp) Calmly-pure Calmly-fail)
          λ e. Calmly-if (has_status not_found found.resp) Calmly-pure Calmly-fail

    reconcile-Calmly :
        (bucket : GarageBucket) (perm : GaragePermission) → Calmly (reconcile P api bucket perm)
    unfolding reconcile
    reconcile-Calmly bucket perm =
        Calmly-handle (get_key-Calmly _) (grant-Calmly bucket perm)
          λ e. Calmly-if (P.util.is_not_found e) Calmly-pure Calmly-fail

    revoke_key-Calmly :
        (key : GarageAccessKey) (b : ListBucketsItem) → Calmly (revoke_key P api key b)
    unfolding revoke_key
    revoke_key-Calmly key b = Calmly-bind (Calmly-wrap_error _ (calls.find_key_in_list _)) λ item.
        Calmly-option item (λ _. Calmly-pure)
          λ k.
            Calmly-bind (calls.deny_all_permissions k.id b.id)
              λ r. Calmly-option r.error (λ _. Calmly-pure) λ e. Calmly-fail

    revoke-Calmly :
        (bucket : GarageBucket) (key : GarageAccessKey) → Calmly (revoke P api bucket key)
    unfolding revoke
    revoke-Calmly bucket key =
        Calmly-bind (Calmly-wrap_error _ (calls.find_bucket_in_list _))
          λ item. Calmly-option item (λ _. Calmly-pure) λ b. revoke_key-Calmly key b

    reconcile_deletion-Calmly :
        (perm : GaragePermission) (bucket : GarageBucket)
        → Calmly (reconcile_deletion P api perm bucket)
    unfolding reconcile_deletion
    reconcile_deletion-Calmly perm bucket =
        Calmly-handle (get_key-Calmly _) (revoke-Calmly bucket)
          λ e. Calmly-if (P.util.is_not_found e) Calmly-pure Calmly-fail

    pub permission_finalize-Calmly :
        (perm : GaragePermission) (bucket : GarageBucket) → Calmly (finalize P api perm bucket)
    unfolding finalize
    permission_finalize-Calmly perm bucket =
        Calmly-if (has_finalizer P.util perm.meta)
          (Calmly-bind (reconcile_deletion-Calmly perm bucket)
            λ _. Calmly-bind (Calmly-on_kube P _ (calls.update _)) λ p. Calmly-pure)
          Calmly-pure

    pub permission_keep-Calmly :
        (perm : GaragePermission) (bucket : GarageBucket) → Calmly (keep P api perm bucket)
    unfolding keep
    permission_keep-Calmly perm bucket =
        Calmly-bind
          (Calmly-if (has_finalizer P.util perm.meta) Calmly-pure (
            Calmly-on_kube P _
              (calls.update (record perm { meta = with_finalizer P.util perm.meta }))))
          λ marked. reconcile-Calmly bucket marked
