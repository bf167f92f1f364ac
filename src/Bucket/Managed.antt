-- ===== src/Bucket/Managed.antt =====
-- The managed GarageAccessKey and GaragePermission in the API server after a reconciliation.
use mathlib.Core.Option.{get_or}
use garage_s3_operator.Base.{
  ◌≡◌, ◌≢◌, sym, ap, ◌∙◌, true, Option, none, some, Action, returns, OnReturn, OnReturn-bind,
}
use garage_s3_operator.Api.{
  ObjectMeta, object_key, NamespacedName, GarageBucket, GarageAccessKey, GaragePermission,
  BucketAccessKey, all_permissions, key_selector, bucket_selector,
}
use garage_s3_operator.Platform.{Platform, World, on_kube, of_bucket, OperationResult}
use garage_s3_operator.Platform.Lifting.{OnReturn-on_kube}
use garage_s3_operator.Platform.Laws.{UtilLaws, ResourceLaws, KeepsMeta, Written-base, Written-near}
use garage_s3_operator.Bucket.Resources.{
  new_key, new_permission, mutate_key, mutate_permission, reconcile_access_key,
  reconcile_permission,
}
use garage_s3_operator.Bucket.Ownership.{IsManaged, mutate_key_lem, mutate_permission_lem}

module _ (P : Platform) (util_laws : UtilLaws P.util) (bucket : GarageBucket) where
  kept-IsManaged :
      (sent kept : ObjectMeta)
      → KeepsMeta sent kept
      → IsManaged P.util bucket sent
      → IsManaged P.util bucket kept
  kept-IsManaged sent kept keeps managed = record {
    guarded = rw keeps.finalizers managed.guarded;
    owned = rw keeps.owners managed.owned;
  }

  module _ (stored : P.Kube → NamespacedName → Option GarageAccessKey)
      (laws : ResourceLaws P.client.access_keys (λ k. k.meta) (λ k. k.spec) stored) where
    -- If `reconcileAccessKey` returns, the API server has the key that it returns under the bucket's
    -- name and namespace; this key holds the finalizer, is owned by the bucket and belongs to the
    -- bucket's cluster. If a key with a cluster stood there before, the bucket owned it. Given `UtilLaws`,
    -- and `ResourceLaws` for the keys.
    pub reconcile_access_key-IsManaged :
        (w : World P)
        → OnReturn
            (λ key t.
              (stored t.kube (object_key bucket.meta) ≡ some key)
              × IsManaged P.util bucket key.meta
              × (key.spec.cluster_ref ≡ bucket.spec.cluster_ref)
              × ((old : GarageAccessKey)
                  → stored w.kube (object_key bucket.meta) ≡ some old
                  → old.spec.cluster_ref ≢ none
                  → P.util.has_owner_reference old.meta.owner_references (of_bucket bucket)
                    ≡ returns true))
            (reconcile_access_key P bucket w)
    unfolding reconcile_access_key
    reconcile_access_key-IsManaged w =
        OnReturn-bind _ _ (on_kube {P = P} call) _ w
          (OnReturn-on_kube P w _ call
            (laws.create_or_update_lem (new_key bucket) (mutate_key P.util bucket) w.kube))
          λ p t x.
            let written = x.0 in
            let near =
              Written-near _ _ _ stored laws (new_key bucket) _ w.kube t.kube p.0 written in
            let (managed, cluster, before) =
              mutate_key_lem P.util util_laws bucket written.base written.sent
                (sym (ap (λ n. n.namespace) near)) written.mutated in
            (
              written.there,
              kept-IsManaged _ _ written.keeps_meta managed,
              ap (λ s. s.cluster_ref) written.keeps_content ∙ cluster,
              λ old at used.
                  let same =
                    Written-base _ _ _ stored (new_key bucket) _ w.kube t.kube p.0 old written at in
                  rw same at (before (λ n. used (ap (λ b. b.spec.cluster_ref) (sym same) ∙ n))),
            )
      where
        call : Action P.Kube (GarageAccessKey × OperationResult)
        call = P.client.access_keys.create_or_update (new_key bucket) (mutate_key P.util bucket)

  module _ (stored : P.Kube → NamespacedName → Option GaragePermission)
      (laws : ResourceLaws P.client.permissions (λ k. k.meta) (λ k. k.spec) stored) where
    -- If `reconcilePermission` returns and the bucket has access key settings, the API server has a
    -- permission under the bucket's name and namespace that holds the finalizer, is owned by the
    -- bucket, names the key and the bucket, and has the rights of the settings, or all three if they
    -- give none. If a permission with a bucket stood there before, the bucket owned it. Given
    -- `UtilLaws`, and `ResourceLaws` for the permissions.
    pub reconcile_permission-IsManaged :
        (key : GarageAccessKey) (access : BucketAccessKey) (w : World P)
        → bucket.spec.bucket_access_key ≡ some access
        → OnReturn
            (λ _ t.
              (perm : GaragePermission) × (stored t.kube (object_key bucket.meta) ≡ some perm)
              × IsManaged P.util bucket perm.meta
              × (perm.spec ≡ record {
                key_ref = key_selector key;
                bucket_ref = bucket_selector bucket;
                permissions = some (get_or access.permissions all_permissions);
              })
              × ((old : GaragePermission)
                  → stored w.kube (object_key bucket.meta) ≡ some old
                  → old.spec.bucket_ref ≢ none
                  → P.util.has_owner_reference old.meta.owner_references (of_bucket bucket)
                    ≡ returns true))
            (reconcile_permission P bucket key w)
    unfolding reconcile_permission
    reconcile_permission-IsManaged key access w enabled =
        OnReturn-bind _ _ (on_kube {P = P} call) _ w
          (OnReturn-on_kube P w _ call (
            laws.create_or_update_lem (new_permission bucket) (mutate_permission P.util bucket key)
              w.kube))
          λ p t x.
            let written = x.0 in
            let near =
              Written-near _ _ _ stored laws (new_permission bucket) _ w.kube t.kube p.0 written in
            let (managed, spec, before) =
              mutate_permission_lem P.util util_laws bucket key written.base written.sent
                (sym (ap (λ n. n.namespace) near)) written.mutated in
            (
              p.0,
              written.there,
              kept-IsManaged _ _ written.keeps_meta managed,
              written.keeps_content ∙ spec access enabled,
              λ old at used.
                  let same =
                    Written-base _ _ _ stored (new_permission bucket) _ w.kube t.kube p.0 old
                      written at in
                  rw same at (before (λ n. used (ap (λ b. b.spec.bucket_ref) (sym same) ∙ n))),
            )
      where
        call : Action P.Kube (GaragePermission × OperationResult)
        call =
            P.client.permissions.create_or_update (new_permission bucket)
              (mutate_permission P.util bucket key)
