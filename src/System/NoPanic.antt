-- ===== src/System/NoPanic.antt =====
-- No branch of the three controllers dereferences a nil pointer.
use garage_s3_operator.Base.{
  String, Calmly, Calmly-pure, Calmly-fail, Calmly-deref, Calmly-bind, Calmly-bind_on, Calmly-if,
  Calmly-option, ◌==◌, string_eq,
}
use garage_s3_operator.Api.{GarageBucket, target_name, retain}
use garage_s3_operator.Platform.{Platform, World}
use garage_s3_operator.Platform.Lifting.{Calmly-on_kube}
use garage_s3_operator.Garage.{GarageApi}
use garage_s3_operator.Http.{has_status, not_found}
use garage_s3_operator.Finalizer.{has_finalizer, with_finalizer}
use garage_s3_operator.Bucket.{reconcile_deletion, finalize, keep}
use garage_s3_operator.Bucket.NilSafety.{CalmCalls}
use garage_s3_operator.Bucket.NoPanic.{reconcile-Calm}
use garage_s3_operator.AccessKey.NoPanic.{CalmKeyCalls}
use garage_s3_operator.Permission.NoPanic.{CalmPermissionCalls}

module _ (P : Platform) (api : GarageApi (World P)) where
  -- What the three controllers call.
  pub record CalmSystem : Type 0 where
    pub calls : CalmCalls P api
    pub key_calls : CalmKeyCalls P api
    pub permission_calls : CalmPermissionCalls P api
    pub delete_bucket : (id : String) → Calmly (api.delete_bucket id)
    pub update : (b : GarageBucket) → Calmly (P.client.buckets.update b)

  module _ (calm : CalmSystem) where
    reconcile_deletion-Calmly : (bucket : GarageBucket) → Calmly (reconcile_deletion P api bucket)
    unfolding reconcile_deletion
    reconcile_deletion-Calmly bucket =
        Calmly-if (bucket.spec.reclaim_policy == retain) Calmly-pure (
          Calmly-bind_on _ (api.get_bucket (target_name bucket))
            (calm.calls.get_bucket (target_name bucket))
            λ found filled.
              Calmly-option found.error
                (λ fine. Calmly-bind (Calmly-deref found.value (filled fine).0) λ info.
                  Calmly-bind (calm.delete_bucket info.id)
                    λ gone. Calmly-option gone.error (λ _. Calmly-pure) λ e. Calmly-fail)
                λ e. Calmly-if (has_status not_found found.resp) Calmly-pure Calmly-fail)

    pub bucket_finalize-Calmly : (bucket : GarageBucket) → Calmly (finalize P api bucket)
    unfolding finalize
    bucket_finalize-Calmly bucket =
        Calmly-if (has_finalizer P.util bucket.meta)
          (Calmly-bind (reconcile_deletion-Calmly bucket)
            λ _. Calmly-bind (Calmly-on_kube P _ (calm.update _)) λ b. Calmly-pure)
          Calmly-pure

    pub bucket_keep-Calmly : (bucket : GarageBucket) → Calmly (keep P api bucket)
    unfolding keep
    bucket_keep-Calmly bucket =
        Calmly-bind
          (Calmly-if (has_finalizer P.util bucket.meta) Calmly-pure (
            Calmly-on_kube P _
              (calm.update (record bucket { meta = with_finalizer P.util bucket.meta }))))
          λ marked. record { after = λ w. reconcile-Calm P api calm.calls marked w }
