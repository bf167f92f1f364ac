-- ===== src/Bucket/Retention.antt =====
-- A bucket whose reclaim policy is Retain.
use garage_s3_operator.Base.{
  ◌≡◌, refl, ◌∙◌, inl, inr, true, none, arith, Bool-cases, ==-of_eq, string_eq, Action, Always,
  Always-bind, Always-wrap_error, wrap_error,
}
use garage_s3_operator.Api.{GarageBucket, GarageCluster, retain}
use garage_s3_operator.Platform.{Platform, World}
use garage_s3_operator.Helper.{get_cluster}
use garage_s3_operator.Garage.{GarageApi, choose_factory}
use garage_s3_operator.Garage.Connection.{get_cluster-Same, default_factory-Same}
use garage_s3_operator.Finalizer.{is_deleting, has_finalizer}
use garage_s3_operator.Bucket.Reconcile.{reconcile_deletion, finalize, dispatch}

module _ (P : Platform) (bucket : GarageBucket) (kept : bucket.spec.reclaim_policy ≡ retain) where
  finalize_retained :
      (api : GarageApi (World P)) (w : World P)
      → Always (λ t. t.garage ≡ w.garage) (finalize P api bucket w)
  unfolding finalize reconcile_deletion
  finalize_retained api w = elim (Bool-cases (has_finalizer P.util bucket.meta)) [
    | inr free ↦ rw free refl
    | inl held ↦ rw (held, ==-of_eq bucket.spec.reclaim_policy retain kept) (ground arith)
  ]

  -- A reconciliation of a GarageBucket under deletion whose reclaim policy is Retain, by the
  -- default factory, leaves Garage as it was, whatever the outcome.
  pub dispatch_retained :
      (w : World P)
      → is_deleting P.util bucket.meta ≡ true
      → Always (λ t. t.garage ≡ w.garage) (dispatch P none bucket w)
  unfolding dispatch
  dispatch_retained w deleting =
      Always-bind Same (wrap_error "unable to fetch Cluster" cluster) _ w
        (Always-wrap_error Same "unable to fetch Cluster" cluster w
          (get_cluster-Same P w.garage bucket.spec.cluster_ref w refl))
        λ c t same.
          Always-bind Same (wrap_error "unable to create garage manager" (choose_factory P none c))
            _ t
            (Always-wrap_error Same "unable to create garage manager" (choose_factory P none c) t
              (default_factory-Same P w.garage c t same))
            λ api u same'. rw deleting (finalize_retained api u ∙ same')
    where
      Same : World P → Type 0
      Same t = t.garage ≡ w.garage

      cluster : Action (World P) GarageCluster
      cluster = get_cluster P bucket.spec.cluster_ref
