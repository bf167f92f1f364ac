-- ===== src/Bucket/Release.antt =====
-- When the deletion of a GarageBucket comes to its end.
use mathlib.Core.Option.{none-ne-some}
use garage_s3_operator.Base.{
  String, ◌≡◌, ◌≢◌, sym, ◌∙◌, ◌⊎◌, inl, inr, true, none, some, Option-cases, ==-of_ne, string_eq,
  Yields, Yields-bind, Yields-with,
}
use garage_s3_operator.Api.{GarageBucket, target_name, retain}
use garage_s3_operator.Platform.{Platform, World, BucketInfo}
use garage_s3_operator.Platform.Lifting.{Yields-before_update}
use garage_s3_operator.Garage.{GarageApi}
use garage_s3_operator.Garage.Laws.{View, ApiLaws, LeavesKube}
use garage_s3_operator.Http.{has_status, not_found}
use garage_s3_operator.Finalizer.{has_finalizer, without_finalizer}
use garage_s3_operator.Bucket.Reconcile.{reconcile_deletion, finalize}
use garage_s3_operator.Bucket.Deletion.{reconcile_deletion-gone, reconcile_deletion-kube}

module _ (P : Platform) (api : GarageApi (World P)) (v : View P.Garage) where
  -- `getBucket` is answered, with a bucket or with "not found", and a bucket that is there can be
  -- deleted.
  pub record Deletes (name : String) : Type 0 where
    pub get_bucket :
        (w : World P)
        → Yields
            (λ r _. (r.error ≡ none) ⊎ (has_status not_found r.resp ≡ true))
            (api.get_bucket name w)
    pub delete_bucket :
        (w : World P) (info : BucketInfo)
        → v.bucket_at w.garage name ≡ some info
        → Yields (λ r _. r.error ≡ none) (api.delete_bucket info.id w)

  module _ (laws : ApiLaws P api v) (frame : LeavesKube P api) (bucket : GarageBucket)
      (answers : Deletes (target_name bucket)) (w : World P)
      (deletes : bucket.spec.reclaim_policy ≢ retain) where
    reconcile_deletion-Yields : Yields (λ _ _. Unit {0}) (reconcile_deletion P api bucket w)
    unfolding reconcile_deletion
    reconcile_deletion-Yields = rw (==-of_ne bucket.spec.reclaim_policy retain deletes) (
        Yields-bind _ _ (api.get_bucket name) _ w
          (Yields-with _ _ (api.get_bucket name w) (answers.get_bucket w)
            (laws.get_bucket_lem name w))
          λ r t (answer, got). elim (Option-cases r.error) [
            | inl fine ↦
                let (info, value, there) = got.found fine in
                rw (fine, value)
                  (Yields-bind _ _ (api.delete_bucket info.id) _ t
                    (answers.delete_bucket t info there) λ ack u gone. rw gone tt)
            | inr (e, failed) ↦ elim answer [
              | inl fine ↦ absurd (none-ne-some e (sym fine ∙ failed))
              | inr missing ↦ rw (failed, missing) tt
            ]
          ])
      where
        name : String
        name = target_name bucket

    abbrev released : GarageBucket
    released = record bucket { meta = without_finalizer P.util bucket.meta }

    -- A GarageBucket under deletion that holds the finalizer and whose policy is not Retain: if
    -- `getBucket` is answered, a bucket that is there can be deleted, and the API server takes the
    -- update of the object, the reconciliation returns, Garage has no bucket under the target name,
    -- and the API server is as the update without the finalizer leaves it. Given `ApiLaws`, and that
    -- requests to Garage leave Kubernetes.
    pub finalize-Yields :
        has_finalizer P.util bucket.meta ≡ true
        → Yields (λ _ _. Unit {0}) (P.client.buckets.update released w.kube)
        → Yields
            (λ _ t.
              (v.bucket_at t.garage (target_name bucket) ≡ none)
              × (t.kube ≡ (P.client.buckets.update released w.kube).1))
            (finalize P api bucket w)
    unfolding finalize
    finalize-Yields held takes = rw held (
        Yields-before_update P (λ g. v.bucket_at g (target_name bucket) ≡ none)
          (reconcile_deletion P api bucket) (P.client.buckets.update released) w
          reconcile_deletion-Yields (reconcile_deletion-gone P api v laws bucket w deletes)
          (reconcile_deletion-kube P api v laws bucket frame w) takes)
