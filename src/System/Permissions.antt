-- ===== src/System/Permissions.antt =====
-- What the reconciliations of permissions do to the GarageBucket objects and to the buckets of Garage.
use garage_s3_operator.Base.{
  String, none, Action, Preorder, Keeps, Keeps-pure, Keeps-fail, Keeps-deref, Keeps-handle,
  Keeps-bind, Keeps-bind_on, Keeps-wrap_error, Keeps-if, Keeps-option, OnReturn-wrap_error,
  string_eq, Error,
}
use garage_s3_operator.Api.{NamespacedName, GarageBucket, GarageAccessKey, GaragePermission}
use garage_s3_operator.Platform.{Platform, World, ListBucketsItem}
use garage_s3_operator.Garage.{GarageApi, choose_factory}
use garage_s3_operator.Finalizer.{is_deleting, has_finalizer, with_finalizer, without_finalizer}
use garage_s3_operator.Permission as PermissionController
use garage_s3_operator.Permission.{
  bucket_has_permissions, expected_permissions, set_if_different, grant, revoke_key, revoke,
  without_bucket,
}
use garage_s3_operator.Permission.Calls.{grant-Keeps}
use garage_s3_operator.System.Laws.{Objects, ServerObjects}
use garage_s3_operator.System.Frames.{
  Mild, Mild-on_kube, get_cluster-Mild, get_key-Mild, get_bucket-Mild,
}
use garage_s3_operator.System.Manager.{
  MildApi, GarageKeeps, default_factory-Mild, default_factory-MildApi,
}

module _ (P : Platform) (stored : Objects P.Kube) (R : Preorder P.Garage) (makes : String → Type 0)
    (kube : ServerObjects P stored) where
  abbrev Gentle : {A : Type 0} → Action (World P) A → Type 0
  Gentle m = Keeps (Mild P stored R) m

  module _ (api : GarageApi (World P)) (mild : MildApi P stored R makes api) where
    grant-Gentle :
        (bucket : GarageBucket) (perm : GaragePermission) (key : GarageAccessKey)
        → Gentle (grant P api bucket perm key)
    grant-Gentle = grant-Keeps P (Mild P stored R) api (record {
      get_bucket = mild.get_bucket;
      get_key_by_id = mild.get_key_by_id;
      set_permissions = mild.set_permissions;
    })

    permission_reconcile-Gentle :
        (bucket : GarageBucket) (perm : GaragePermission)
        → Gentle (PermissionController.reconcile P api bucket perm)
    unfolding PermissionController.reconcile
    permission_reconcile-Gentle bucket perm =
        Keeps-handle (get_key-Mild P stored R kube _) (grant-Gentle bucket perm)
          λ e. Keeps-if (P.util.is_not_found e) Keeps-pure Keeps-fail

    revoke_key-Gentle :
        (key : GarageAccessKey) (b : ListBucketsItem) → Gentle (revoke_key P api key b)
    unfolding revoke_key
    revoke_key-Gentle key b = Keeps-bind (Keeps-wrap_error _ (mild.find_key_in_list _)) λ item.
        Keeps-option item Keeps-pure λ k.
          Keeps-bind (mild.deny_all_permissions k.id b.id)
            λ r. Keeps-option r.error Keeps-pure λ e. Keeps-fail

    revoke-Gentle :
        (bucket : GarageBucket) (key : GarageAccessKey) → Gentle (revoke P api bucket key)
    unfolding revoke
    revoke-Gentle bucket key =
        Keeps-bind (Keeps-wrap_error _ (mild.find_bucket_in_list _))
          λ item. Keeps-option item Keeps-pure λ b. revoke_key-Gentle key b

    permission_deletion-Gentle :
        (perm : GaragePermission) (bucket : GarageBucket)
        → Gentle (PermissionController.reconcile_deletion P api perm bucket)
    unfolding PermissionController.reconcile_deletion
    permission_deletion-Gentle perm bucket =
        Keeps-handle (get_key-Mild P stored R kube _) (revoke-Gentle bucket)
          λ e. Keeps-if (P.util.is_not_found e) Keeps-pure Keeps-fail

    permission_finalize-Gentle :
        (perm : GaragePermission) (bucket : GarageBucket)
        → Gentle (PermissionController.finalize P api perm bucket)
    unfolding PermissionController.finalize
    permission_finalize-Gentle perm bucket =
        Keeps-if (has_finalizer P.util perm.meta)
          (Keeps-bind (permission_deletion-Gentle perm bucket) λ _.
            Keeps-bind
              (Mild-on_kube P stored R
                (P.client.permissions.update
                  (record perm { meta = without_finalizer P.util perm.meta }))
                (kube.permissions.update
                  (record perm { meta = without_finalizer P.util perm.meta })))
              λ p. Keeps-pure)
          Keeps-pure

    permission_keep-Gentle :
        (perm : GaragePermission) (bucket : GarageBucket)
        → Gentle (PermissionController.keep P api perm bucket)
    unfolding PermissionController.keep
    permission_keep-Gentle perm bucket =
        Keeps-bind
          (Keeps-if (has_finalizer P.util perm.meta) Keeps-pure (
            Mild-on_kube P stored R _
              (kube.permissions.update (record perm { meta = with_finalizer P.util perm.meta }))))
          λ marked. permission_reconcile-Gentle bucket marked

  without_bucket-Gentle : (perm : GaragePermission) (e : Error) → Gentle (without_bucket P perm e)
  unfolding without_bucket
  without_bucket-Gentle perm e =
      Keeps-if (P.util.is_not_found e)
        (Keeps-if (is_deleting P.util perm.meta)
          (Keeps-bind (Keeps-deref perm.spec.bucket_ref) λ s.
            Keeps-if (has_finalizer P.util perm.meta)
              (Keeps-bind
                (Mild-on_kube P stored R
                  (P.client.permissions.update
                    (record perm { meta = without_finalizer P.util perm.meta }))
                  (kube.permissions.update
                    (record perm { meta = without_finalizer P.util perm.meta })))
                λ p. Keeps-pure)
              Keeps-pure)
          Keeps-pure)
        Keeps-fail

  module _ (garage : GarageKeeps P stored R makes) where
    dispatch-Gentle :
        (perm : GaragePermission) (bucket : GarageBucket)
        → Gentle (PermissionController.dispatch P none perm bucket)
    unfolding PermissionController.dispatch
    dispatch-Gentle perm bucket =
        Keeps-bind (Keeps-wrap_error _ (get_cluster-Mild P stored R kube bucket.spec.cluster_ref))
          λ cluster.
            Keeps-bind_on (MildApi P stored R makes)
              (Keeps-wrap_error _ (default_factory-Mild P stored R makes garage kube cluster))
              (λ w.
                OnReturn-wrap_error _ _ (choose_factory P none cluster) w
                  (default_factory-MildApi P stored R makes garage cluster w))
              λ api mild.
                Keeps-if (is_deleting P.util perm.meta)
                  (permission_finalize-Gentle api mild perm bucket)
                  (permission_keep-Gentle api mild perm bucket)

    -- A reconciliation of a GaragePermission by the default factory, whatever its outcome, leaves the
    -- GarageBucket objects as they were, and brings Garage only where its requests lead.
    pub permission_request-Gentle :
        (request : NamespacedName) → Gentle (PermissionController.reconcile_request P none request)
    unfolding PermissionController.reconcile_request
    permission_request-Gentle request =
        Keeps-handle
          (Mild-on_kube P stored R (P.client.permissions.get request)
            (kube.permissions.get request))
          (λ perm.
            Keeps-handle (get_bucket-Mild P stored R kube perm.spec.bucket_ref)
              (dispatch-Gentle perm) (without_bucket-Gentle perm))
          λ e. Keeps-if (P.util.is_not_found e) Keeps-pure Keeps-fail
