-- ===== src/Permission/Calls.antt =====
-- What the grant of a GaragePermission keeps, from the calls that it makes.
use garage_s3_operator.Base.{
  String, Bool, false, Option, Preorder, Keeps, Keeps-pure, Keeps-fail, Keeps-bind, Keeps-if,
  Keeps-option,
}
use garage_s3_operator.Api.{
  GarageBucket, GarageAccessKey, GaragePermission, Permissions, key_target_name, target_name,
}
use garage_s3_operator.Platform.{Platform, World, KeyInfo, BucketInfo}
use garage_s3_operator.Garage.{GarageApi}
use garage_s3_operator.Http.{has_status, not_found}
use garage_s3_operator.Permission.Reconcile.{
  bucket_has_permissions, expected_permissions, set_if_different, grant,
}

module _ (P : Platform) (R : Preorder (World P)) (api : GarageApi (World P)) where
  pub record GrantCalls : Type 0 where
    pub get_bucket : (n : String) → Keeps R (api.get_bucket n)
    pub get_key_by_id : (n : String) (b : Bool) → Keeps R (api.get_key_by_id n b)
    pub set_permissions : (k b : String) (p : Permissions) → Keeps R (api.set_permissions k b p)

  module _ (calls : GrantCalls) where
    set_if_different-Keeps :
        (bucket : GarageBucket) (perm : GaragePermission) (b : Option BucketInfo)
        (k : Option KeyInfo)
        → Keeps R (set_if_different P api bucket perm b k)
    unfolding set_if_different
    set_if_different-Keeps bucket perm b k =
        Keeps-if
          (bucket_has_permissions P.accessors (target_name bucket) (expected_permissions perm)
            (P.accessors.get_buckets k))
          Keeps-pure
          (Keeps-bind
            (calls.set_permissions (P.accessors.get_access_key_id k) (P.accessors.get_bucket_id b)
              (expected_permissions perm))
            λ r. Keeps-option r.error Keeps-pure λ e. Keeps-fail)

    pub grant-Keeps :
        (bucket : GarageBucket) (perm : GaragePermission) (key : GarageAccessKey)
        → Keeps R (grant P api bucket perm key)
    unfolding grant
    grant-Keeps bucket perm key = Keeps-bind (calls.get_bucket (target_name bucket)) λ found.
        Keeps-option found.error
          (Keeps-bind (calls.get_key_by_id (key_target_name key) false) λ info.
            Keeps-option info.error (set_if_different-Keeps bucket perm found.value info.value)
              λ e. Keeps-if (has_status not_found info.resp) Keeps-pure Keeps-fail)
          λ e. Keeps-if (has_status not_found found.resp) Keeps-pure Keeps-fail
