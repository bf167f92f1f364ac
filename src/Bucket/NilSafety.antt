-- ===== src/Bucket/NilSafety.antt =====
-- The reconciliation of a live GarageBucket never dereferences a nil pointer.
use garage_s3_operator.Base.{
  String, List, ◌≡◌, ◌≢◌, refl, inl, inr, Option, none, Option-cases, Bool-cases, ◌==◌, string_eq,
  nat_eq, Action, Outcome, panics, Safely, Calm, Filled, Safely-bind, Safely-wrap_error,
}
use garage_s3_operator.Api.{ObjectMeta, NamespacedName, OwnerReference, GarageBucket, BucketQuotas}
use garage_s3_operator.Platform.{Platform, World, Resource, BucketInfo, Owner, on_kube}
use garage_s3_operator.Platform.Lifting.{Safely-on_kube}
use garage_s3_operator.Garage.{GarageApi}
use garage_s3_operator.Http.{not_found}
use garage_s3_operator.Bucket.Reconcile.{
  quotas_differ, create_target, get_or_create_bucket, record_bucket_id, reconcile_quotas,
}

-- The calls of a client on one kind of object: none panics, unless the given callback does.
pub record CalmResource {K A : Type 0} (r : Resource K A) : Type 0 where
  pub get : (n : NamespacedName) (k : K) → Calm (r.get n k)
  pub remove : (a : A) (k : K) → Calm (r.remove a k)
  pub patch_status : (b c : A) (k : K) → Calm (r.patch_status b c k)
  pub create_or_update :
      (obj : A) (f : A → Outcome A) (k : K)
      → ((a : A) → f a ≢ panics)
      → Calm (r.create_or_update obj f k)

module _ (P : Platform) (api : GarageApi (World P)) where
  -- No call panics, and a reply without an error carries a value; that of `getBucket` carries a
  -- response too.
  pub record CalmCalls : Type 0 where
    pub get_bucket :
        (n : String) (w : World P)
        → Safely (λ r t. r.error ≡ none → Filled r.value × Filled r.resp) (api.get_bucket n w)
    pub create_bucket :
        (n : String) (w : World P)
        → Safely (λ r t. r.error ≡ none → Filled r.value) (api.create_bucket n w)
    pub update_bucket :
        (id : String) (q : BucketQuotas) (w : World P) → Calm (api.update_bucket id q w)
    pub buckets : CalmResource P.client.buckets
    pub access_keys : CalmResource P.client.access_keys
    pub permissions : CalmResource P.client.permissions
    pub has_owner_reference :
        (rs : List OwnerReference) (o : Owner) → P.util.has_owner_reference rs o ≢ panics
    pub set_owner_reference : (o : Owner) (m : ObjectMeta) → P.util.set_owner_reference o m ≢ panics

  module _ (calls : CalmCalls) where
    pub create_target-Filled :
        (name : String) (w : World P) → Safely (λ v _. Filled v) (create_target P api name w)
    unfolding create_target
    create_target-Filled name w =
        Safely-bind _ _ (api.create_bucket name) _ w (calls.create_bucket name w) λ r t q.
          elim (Option-cases r.error) [
            | inl fine ↦ rw fine (q fine)
            | inr (e, failed) ↦ rw failed tt
          ]

    pub get_or_create_bucket-Filled :
        (name : String) (w : World P) → Safely (λ v _. Filled v) (get_or_create_bucket P api name w)
    unfolding get_or_create_bucket
    get_or_create_bucket-Filled name w =
        Safely-bind _ _ (api.get_bucket name) _ w (calls.get_bucket name w) λ r t got.
          elim (Option-cases r.error) [
            | inl fine ↦
                let ((info, value), (resp, answered)) = got fine in
                elim (Bool-cases (resp.status_code == not_found)) [
                  | inl missing ↦ rw (fine, answered, missing) (create_target-Filled name t)
                  | inr other ↦ rw (fine, answered, other, value) (info, refl)
                ]
            | inr (e, failed) ↦ elim (Option-cases r.resp) [
              | inl silent ↦ rw (failed, silent) tt
              | inr (resp, answered) ↦ elim (Bool-cases (resp.status_code == not_found)) [
                | inl missing ↦
                    rw (failed, answered, missing, missing) (create_target-Filled name t)
                | inr other ↦ rw (failed, answered, other) tt
              ]
            ]
          ]

    pub record_bucket_id-Calm :
        (value : Option BucketInfo) (bucket : GarageBucket) (w : World P)
        → Filled value
        → Calm (record_bucket_id P api value bucket w)
    unfolding record_bucket_id
    record_bucket_id-Calm value bucket w (info, there) =
        elim (Bool-cases (bucket.status.id == "")) [
          | inr known ↦ rw known tt
          | inl fresh ↦
              rw (fresh, there)
                (Safely-wrap_error _ _ (on_kube {P = P} patch) w
                  (Safely-on_kube P w patch (calls.buckets.patch_status _ _ w.kube)))
        ]
      where
        patch : Action P.Kube GarageBucket
        patch =
            P.client.buckets.patch_status bucket
              (record bucket { status = record { id = info.id } })

    pub reconcile_quotas-Calm :
        (value : Option BucketInfo) (bucket : GarageBucket) (w : World P)
        → Filled value
        → Calm (reconcile_quotas P api value bucket w)
    unfolding reconcile_quotas
    reconcile_quotas-Calm value bucket w (info, there) = elim (Option-cases bucket.spec.quotas) [
      | inl free ↦ rw free tt
      | inr (quotas, wanted) ↦ elim (Bool-cases (quotas_differ P.accessors quotas info)) [
        | inr right ↦ rw (wanted, there, right) tt
        | inl wrong ↦
            rw (wanted, there, wrong)
              (Safely-bind _ _ (api.update_bucket info.id quotas) _ w
                (calls.update_bucket info.id quotas w)
                λ r t _. elim (Option-cases r.error) [
                  | inl fine ↦ rw fine tt
                  | inr (e, failed) ↦ rw failed tt
                ])
      ]
    ]
