-- ===== src/Bucket/Deletion.antt =====
-- The deletion of a GarageBucket: the finalizer goes only after the target bucket is gone, and a
-- bucket that is to be retained is left alone.
use garage_s3_operator.Base.{
  String, ◌≡◌, ◌≢◌, refl, ◌⊎◌, inl, inr, true, none, arith, Option-cases, Bool-cases, ==-of_ne,
  ◌==◌, string_eq, OnReturn, Always, OnReturn-bind, Always-bind, Guarded-bind,
}
use garage_s3_operator.Api.{GarageBucket, target_name, retain}
use garage_s3_operator.Platform.{Platform, World}
use garage_s3_operator.Garage.{GarageApi}
use garage_s3_operator.Garage.Laws.{View, ApiLaws, LeavesKube}
use garage_s3_operator.Finalizer.{has_finalizer}
use garage_s3_operator.Bucket.Reconcile.{reconcile_deletion, finalize}

module _ (P : Platform) (api : GarageApi (World P)) (v : View P.Garage) (laws : ApiLaws P api v)
    (bucket : GarageBucket) where
  pub reconcile_deletion-gone :
      (w : World P)
      → bucket.spec.reclaim_policy ≢ retain
      → OnReturn
          (λ _ t. v.bucket_at t.garage (target_name bucket) ≡ none)
          (reconcile_deletion P api bucket w)
  unfolding reconcile_deletion
  reconcile_deletion-gone w deletes = rw (==-of_ne bucket.spec.reclaim_policy retain deletes) (
      OnReturn-bind _ _ (api.get_bucket name) _ w (laws.get_bucket_lem name w) λ r t got.
        elim (Option-cases r.error) [
          | inl fine ↦
              let (info, value, there) = got.found fine in
              rw (fine, value)
                (OnReturn-bind _ _ (api.delete_bucket info.id) _ t
                  (laws.delete_bucket_lem name info t there) λ ack u gone. ground (arith, gone))
          | inr (e, failed) ↦ rw failed (ground (arith, got.missing e failed))
        ])
    where
      name : String
      name = target_name bucket

  -- A reconciliation of a GarageBucket under deletion that holds the finalizer and whose reclaim
  -- policy is not Retain: if it returns, Garage has no bucket under the target name, given `ApiLaws`.
  pub finalize-gone :
      (w : World P)
      → bucket.spec.reclaim_policy ≢ retain
      → has_finalizer P.util bucket.meta ≡ true
      → OnReturn (λ _ t. v.bucket_at t.garage (target_name bucket) ≡ none) (finalize P api bucket w)
  unfolding finalize
  finalize-gone w deletes held = rw held (
      OnReturn-bind _ _ (reconcile_deletion P api bucket) _ w (reconcile_deletion-gone w deletes)
        λ _ t gone. ground (arith, gone))

  module _ (frame : LeavesKube P api) where
    pub reconcile_deletion-kube :
        (w : World P) → Always (λ t. t.kube ≡ w.kube) (reconcile_deletion P api bucket w)
    unfolding reconcile_deletion
    reconcile_deletion-kube w = elim (Bool-cases (bucket.spec.reclaim_policy == retain)) [
      | inl kept ↦ rw kept refl
      | inr deletes ↦ rw deletes (
          Always-bind (λ t. t.kube ≡ w.kube) (api.get_bucket (target_name bucket)) _ w
            (frame.get_bucket (target_name bucket) w)
            λ r t same. elim (Option-cases r.error) [
              | inr (e, failed) ↦ rw failed (ground arith)
              | inl fine ↦ rw fine (elim (Option-cases r.value) [
                | inl absent ↦ rw absent same
                | inr (info, there) ↦ rw there (ground (arith, frame.delete_bucket info.id t))
              ])
            ])
    ]

    -- Whatever the outcome of a reconciliation of a GarageBucket under deletion whose reclaim policy
    -- is not Retain, a panic included, either the state of Kubernetes is as it was, or Garage has no
    -- bucket under the target name; given `ApiLaws`, and that requests to Garage leave Kubernetes.
    pub finalize_guards :
        (w : World P)
        → bucket.spec.reclaim_policy ≢ retain
        → Always
            (λ t. (t.kube ≡ w.kube) ⊎ (v.bucket_at t.garage (target_name bucket) ≡ none))
            (finalize P api bucket w)
    unfolding finalize
    finalize_guards w deletes = elim (Bool-cases (has_finalizer P.util bucket.meta)) [
      | inr free ↦ rw free (inl refl)
      | inl held ↦ rw held (
          Guarded-bind (λ t. t.kube ≡ w.kube)
            (λ t. v.bucket_at t.garage (target_name bucket) ≡ none)
            (reconcile_deletion P api bucket) _ w (reconcile_deletion-kube w)
            (reconcile_deletion-gone w deletes) λ _ t gone. ground (arith, gone))
    ]
