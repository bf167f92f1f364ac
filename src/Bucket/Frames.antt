-- ===== src/Bucket/Frames.antt =====
-- The key resources of a bucket are Kubernetes objects only.
use garage_s3_operator.Base.{
  ◌≡◌, ◌∙◌, inl, inr, arith, Bool-cases, Always, Always-bind, Always-wrap_error, wrap_error,
}
use garage_s3_operator.Api.{GarageBucket, GarageAccessKey}
use garage_s3_operator.Platform.{Platform, World}
use garage_s3_operator.Garage.{GarageApi}
use garage_s3_operator.Bucket.Resources.{
  reconcile_access_key, reconcile_permission, delete_managed_key, delete_managed_permission,
  reconcile_key_resources_deletion,
}
use garage_s3_operator.Bucket.Reconcile.{key_enabled, reconcile_key_resources}

module _ (P : Platform) (api : GarageApi (World P)) (bucket : GarageBucket) where
  delete_managed_key-garage :
      (w : World P) → Always (λ t. t.garage ≡ w.garage) (delete_managed_key P bucket w)
  unfolding delete_managed_key
  delete_managed_key-garage w = ground arith

  delete_managed_permission-garage :
      (w : World P) → Always (λ t. t.garage ≡ w.garage) (delete_managed_permission P bucket w)
  unfolding delete_managed_permission
  delete_managed_permission-garage w = ground arith

  reconcile_access_key-garage :
      (w : World P) → Always (λ t. t.garage ≡ w.garage) (reconcile_access_key P bucket w)
  unfolding reconcile_access_key
  reconcile_access_key-garage w = ground arith

  reconcile_permission-garage :
      (key : GarageAccessKey) (w : World P)
      → Always (λ t. t.garage ≡ w.garage) (reconcile_permission P bucket key w)
  unfolding reconcile_permission
  reconcile_permission-garage key w = ground arith

  reconcile_key_resources_deletion-garage :
      (w : World P)
      → Always (λ t. t.garage ≡ w.garage) (reconcile_key_resources_deletion P bucket w)
  unfolding reconcile_key_resources_deletion
  reconcile_key_resources_deletion-garage w =
      Always-bind (λ t. t.garage ≡ w.garage) (delete_managed_key P bucket) _ w
        (delete_managed_key-garage w) λ _ t same. delete_managed_permission-garage t ∙ same

  -- The managed key and permission are reconciled without a request to Garage.
  pub reconcile_key_resources-garage :
      (w : World P) → Always (λ t. t.garage ≡ w.garage) (reconcile_key_resources P api bucket w)
  unfolding reconcile_key_resources
  reconcile_key_resources-garage w = elim (Bool-cases (key_enabled bucket)) [
    | inr off ↦ rw off (
        Always-wrap_error (λ t. t.garage ≡ w.garage) _ (reconcile_key_resources_deletion P bucket) w
          (reconcile_key_resources_deletion-garage w))
    | inl on ↦ rw on (
        Always-bind (λ t. t.garage ≡ w.garage)
          (wrap_error "GarageAccessKey reconciliation failed" (reconcile_access_key P bucket)) _ w
          (Always-wrap_error (λ t. t.garage ≡ w.garage) "GarageAccessKey reconciliation failed"
            (reconcile_access_key P bucket) w (reconcile_access_key-garage w))
          λ key t same.
            Always-wrap_error (λ u. u.garage ≡ w.garage) _ (reconcile_permission P bucket key) t
              (reconcile_permission-garage key t ∙ same))
  ]
