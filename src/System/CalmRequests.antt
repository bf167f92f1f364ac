-- ===== src/System/CalmRequests.antt =====
-- No reconciliation dereferences a nil pointer, from the request on.
use garage_s3_operator.Base.{
  String, refl, none, some, Option, Error, Safely, Safely-bind, Safely-wrap_error, Filled, Calmly,
  Calmly-pure, Calmly-fail, Calmly-deref, Calmly-handle, Calmly-handle_on, wrap_error, Calmly-bind,
  Calmly-bind_on, Calmly-wrap_error, Calmly-if, Calmly-option, ◌==◌, string_eq,
}
use garage_s3_operator.Api.{
  NamespacedName, Selector, KeySelector, GarageCluster, GarageBucket, GarageAccessKey,
  GaragePermission,
}
use garage_s3_operator.Platform.{Platform, World, on_kube}
use garage_s3_operator.Platform.Lifting.{Calmly-on_kube, Safely-of_kube}
use garage_s3_operator.Helper.{get_bucket, get_cluster, get_secret_value, map_get}
use garage_s3_operator.Finalizer.{is_deleting, has_finalizer}
use garage_s3_operator.Garage.{
  load_ca, tls_config, transport, new_garage_client, default_factory, choose_factory,
}
use garage_s3_operator.Bucket as BucketController
use garage_s3_operator.AccessKey as KeyController
use garage_s3_operator.Permission as PermissionController
use garage_s3_operator.Permission.{without_bucket}
use garage_s3_operator.System.CalmManager.{HasToken, CalmServer, garage_manager-CalmSystem}
use garage_s3_operator.System.NoPanic.{CalmSystem, bucket_finalize-Calmly, bucket_keep-Calmly}
use garage_s3_operator.AccessKey.NoPanic.{key_finalize-Calmly, key_keep-Calmly}
use garage_s3_operator.Permission.NoPanic.{permission_finalize-Calmly, permission_keep-Calmly}

module _ (P : Platform) where
  module _ (calm : CalmServer P) where
    get_cluster-HasToken :
        (s : Option Selector) (w : World P) → Safely (λ c _. HasToken P c) (get_cluster P s w)
    unfolding get_cluster
    get_cluster-HasToken none w = tt
    get_cluster-HasToken (some s) w =
        Safely-of_kube P w (λ c. HasToken P c) (P.client.clusters.get _) (calm.get_cluster _ w.kube)

    get_bucket-Calmly : (s : Option Selector) → Calmly (get_bucket P s)
    unfolding get_bucket
    get_bucket-Calmly none = Calmly-fail
    get_bucket-Calmly (some s) = Calmly-on_kube P _ (record { after = calm.buckets.get _ })

    get_secret_value-Calmly :
        (namespace : String) (s : Option KeySelector)
        → Filled s
        → Calmly (get_secret_value P namespace s)
    unfolding get_secret_value
    get_secret_value-Calmly namespace s there = Calmly-bind (Calmly-deref s there) λ k.
        Calmly-bind (Calmly-on_kube P _ (record { after = calm.secrets.get _ }))
          λ secret. Calmly-option (map_get k.key secret.content) (λ _. Calmly-fail) λ v. Calmly-pure

    load_ca-Calmly :
        (cluster : GarageCluster) (ref : Option KeySelector) → Calmly (load_ca P cluster ref)
    unfolding load_ca
    load_ca-Calmly cluster none = Calmly-pure
    load_ca-Calmly cluster (some ref) =
        Calmly-bind (Calmly-wrap_error _ (get_secret_value-Calmly _ _ (ref, refl)))
          λ ca. Calmly-if (P.util.append_certs_from_pem ca) Calmly-pure Calmly-fail

    transport-Calmly :
        (cluster : GarageCluster) (scheme : String) → Calmly (transport P cluster scheme)
    unfolding transport tls_config
    transport-Calmly cluster scheme =
        Calmly-if (scheme == "https") (Calmly-bind (load_ca-Calmly cluster _) λ roots. Calmly-pure)
          Calmly-pure

    new_garage_client-Calmly :
        (cluster : GarageCluster) → HasToken P cluster → Calmly (new_garage_client P cluster)
    unfolding new_garage_client
    new_garage_client-Calmly cluster token =
        Calmly-option (P.util.parse_scheme cluster.spec.endpoint.url) (λ _. Calmly-fail)
          λ scheme. Calmly-bind (transport-Calmly cluster scheme) λ tls.
            Calmly-bind (Calmly-wrap_error _ (get_secret_value-Calmly _ _ token))
              λ text. Calmly-pure

    default_factory-CalmSystem :
        (cluster : GarageCluster)
        → HasToken P cluster
        → (w : World P) → Safely (λ api _. CalmSystem P api) (choose_factory P none cluster w)
    unfolding choose_factory default_factory
    default_factory-CalmSystem cluster token w =
        Safely-bind (λ _ _. Unit {0}) _ (new_garage_client P cluster) _ w
          ((new_garage_client-Calmly cluster token).after w)
          λ c t _. garage_manager-CalmSystem P calm c

    bucket_dispatch-Calmly :
        (bucket : GarageBucket) → Calmly (BucketController.dispatch P none bucket)
    unfolding BucketController.dispatch
    bucket_dispatch-Calmly bucket =
        Calmly-bind_on (HasToken P) (wrap_error _ (get_cluster P bucket.spec.cluster_ref))
          (λ w.
            Safely-wrap_error _ _ (get_cluster P bucket.spec.cluster_ref) w
              (get_cluster-HasToken bucket.spec.cluster_ref w))
          λ cluster token.
            Calmly-bind_on (CalmSystem P) (wrap_error _ (choose_factory P none cluster))
              (λ w.
                Safely-wrap_error _ _ (choose_factory P none cluster) w
                  (default_factory-CalmSystem cluster token w))
              λ api made.
                Calmly-if (is_deleting P.util bucket.meta)
                  (bucket_finalize-Calmly P api made bucket) (bucket_keep-Calmly P api made bucket)

    key_dispatch-Calmly : (key : GarageAccessKey) → Calmly (KeyController.dispatch P none key)
    unfolding KeyController.dispatch
    key_dispatch-Calmly key =
        Calmly-bind_on (HasToken P) (wrap_error _ (get_cluster P key.spec.cluster_ref))
          (λ w.
            Safely-wrap_error _ _ (get_cluster P key.spec.cluster_ref) w
              (get_cluster-HasToken key.spec.cluster_ref w))
          λ cluster token.
            Calmly-bind_on (CalmSystem P) (choose_factory P none cluster)
              (default_factory-CalmSystem cluster token)
              λ api made.
                Calmly-if (is_deleting P.util key.meta)
                  (key_finalize-Calmly P api made.key_calls key)
                  (key_keep-Calmly P api made.key_calls key)

    permission_dispatch-Calmly :
        (perm : GaragePermission) (bucket : GarageBucket)
        → Calmly (PermissionController.dispatch P none perm bucket)
    unfolding PermissionController.dispatch
    permission_dispatch-Calmly perm bucket =
        Calmly-bind_on (HasToken P) (wrap_error _ (get_cluster P bucket.spec.cluster_ref))
          (λ w.
            Safely-wrap_error _ _ (get_cluster P bucket.spec.cluster_ref) w
              (get_cluster-HasToken bucket.spec.cluster_ref w))
          λ cluster token.
            Calmly-bind_on (CalmSystem P) (wrap_error _ (choose_factory P none cluster))
              (λ w.
                Safely-wrap_error _ _ (choose_factory P none cluster) w
                  (default_factory-CalmSystem cluster token w))
              λ api made.
                Calmly-if (is_deleting P.util perm.meta)
                  (permission_finalize-Calmly P api made.permission_calls perm bucket)
                  (permission_keep-Calmly P api made.permission_calls perm bucket)

    without_bucket-Calmly :
        (perm : GaragePermission) (e : Error)
        → Filled perm.spec.bucket_ref
        → Calmly (without_bucket P perm e)
    unfolding without_bucket
    without_bucket-Calmly perm e there =
        Calmly-if (P.util.is_not_found e)
          (Calmly-if (is_deleting P.util perm.meta)
            (Calmly-bind (Calmly-deref perm.spec.bucket_ref there) λ s.
              Calmly-if (has_finalizer P.util perm.meta)
                (Calmly-bind (Calmly-on_kube P _ (calm.update_permission _)) λ p. Calmly-pure)
                Calmly-pure)
            Calmly-pure)
          Calmly-fail

    -- With the default factory, no reconciliation of any of the three controllers panics, whatever it
    -- is asked for, if no call of a library panics, a reply of Garage about a bucket or a key without an
    -- error carries its value, and that of `GetBucketInfo` an HTTP response, and if the objects that are
    -- read have the fields that Kubernetes requires of them: a GarageCluster the secret of its admin
    -- token, and a GaragePermission its bucket.
    pub reconcile_request-Calmly :
        (request : NamespacedName)
        → Calmly (BucketController.reconcile_request P none request)
          × Calmly (KeyController.reconcile_request P none request)
          × Calmly (PermissionController.reconcile_request P none request)
    unfolding BucketController.reconcile_request KeyController.reconcile_request
        PermissionController.reconcile_request
    reconcile_request-Calmly request = (
      Calmly-handle (Calmly-on_kube P _ (record { after = calm.buckets.get request }))
          bucket_dispatch-Calmly λ e. Calmly-if (P.util.is_not_found e) Calmly-pure Calmly-fail,
      Calmly-handle (Calmly-on_kube P _ (record { after = calm.access_keys.get request }))
          key_dispatch-Calmly λ e. Calmly-if (P.util.is_not_found e) Calmly-pure Calmly-fail,
      Calmly-handle_on (λ perm. Filled perm.spec.bucket_ref)
          (on_kube {P = P} (P.client.permissions.get request))
          (λ w.
            Safely-of_kube P w (λ p. Filled p.spec.bucket_ref) (P.client.permissions.get request)
              (calm.get_permission request w.kube))
          (λ perm there.
            Calmly-handle (get_bucket-Calmly perm.spec.bucket_ref) (permission_dispatch-Calmly perm)
              λ e. without_bucket-Calmly perm e there)
          λ e. Calmly-if (P.util.is_not_found e) Calmly-pure Calmly-fail,
    )
