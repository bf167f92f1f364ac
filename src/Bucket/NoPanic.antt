-- ===== src/Bucket/NoPanic.antt =====
-- The managed key and permission without a nil dereference, and the whole of `reconcile`.
use garage_s3_operator.Base.{
  Calm, String, ◌≡◌, ◌≢◌, refl, inl, inr, Bool, true, false, Option, none, some, Bool-cases,
  string_eq, Action, Outcome, returns, fails, panics, Safely-bind, Safely-resume, Safely-wrap_error,
  wrap_error, pure, fail, lift, arith, Error, if◌then◌else◌, ◌>>=◌,
}
use garage_s3_operator.Api.{
  ObjectMeta, object_key, GarageBucket, GarageAccessKey, GaragePermission, BucketAccessKey,
  target_name,
}
use garage_s3_operator.Platform.{Platform, World, of_bucket, on_kube, OperationResult}
use garage_s3_operator.Platform.Lifting.{Safely-on_kube}
use garage_s3_operator.Garage.{GarageApi}
use garage_s3_operator.Bucket.Resources.{
  is_set, then_build, claim, mutate_key, mutate_permission, new_key, new_permission,
  reconcile_access_key, reconcile_permission, ignore_not_found, delete_managed_key,
  delete_managed_permission, reconcile_key_resources_deletion,
}
use garage_s3_operator.Bucket.Reconcile.{
  key_enabled, get_or_create_bucket, record_bucket_id, reconcile_quotas, reconcile_key_resources,
  reconcile,
}
use garage_s3_operator.Bucket.NilSafety.{
  CalmCalls, get_or_create_bucket-Filled, record_bucket_id-Calm, reconcile_quotas-Calm,
}

skipped-Calm :
    {S : Type 0} (b : Bool) (e : Error) (s : S) → Calm ((if b then pure tt else fail e) s)
skipped-Calm true e s = tt
skipped-Calm false e s = tt

-- The end of a callback panics only where the claim does, if the settings are there.
then_build_calm :
    {A : Type 0} (claimed : Outcome ObjectMeta) (access : Option BucketAccessKey)
    (build : ObjectMeta → BucketAccessKey → A)
    → claimed ≢ panics
    → access ≢ none
    → then_build claimed access build ≢ panics
then_build_calm (returns m) (some b) build h k = λ e. cc
then_build_calm (returns m) none build h k = absurd (k refl)
then_build_calm (fails x) access build h k = λ e. cc
then_build_calm panics access build h k = absurd (h refl)

Calm-lift : {S A : Type 0} (o : Outcome A) (s : S) → o ≢ panics → Calm (lift o s)
Calm-lift (returns a) s h = tt
Calm-lift (fails e) s h = tt
Calm-lift panics s h = h refl

module _ (P : Platform) (api : GarageApi (World P)) (calls : CalmCalls P api)
    (bucket : GarageBucket) where
  claim_calm : (taken : Bool) (m : ObjectMeta) → claim P.util bucket taken m ≢ panics
  unfolding claim
  claim_calm taken m e = ground (
    arith,
    calls.has_owner_reference m.owner_references (of_bucket bucket),
    calls.set_owner_reference (of_bucket bucket) m,
  )

  reconcile_access_key-Calm :
      (w : World P) → bucket.spec.bucket_access_key ≢ none → Calm (reconcile_access_key P bucket w)
  unfolding reconcile_access_key mutate_key
  reconcile_access_key-Calm w there =
      Safely-bind _ _ (on_kube {P = P} call) _ w
        (Safely-on_kube P w call (
          calls.access_keys.create_or_update (new_key bucket) (mutate_key P.util bucket) w.kube
            λ key. then_build_calm _ _ _ (claim_calm (is_set key.spec.cluster_ref) key.meta) there))
        λ p t _. tt
    where
      call : Action P.Kube (GarageAccessKey × OperationResult)
      call = P.client.access_keys.create_or_update (new_key bucket) (mutate_key P.util bucket)

  reconcile_permission-Calm :
      (key : GarageAccessKey) (w : World P)
      → bucket.spec.bucket_access_key ≢ none
      → Calm (reconcile_permission P bucket key w)
  unfolding reconcile_permission mutate_permission
  reconcile_permission-Calm key w there =
      Safely-bind _ _ (on_kube {P = P} call) _ w
        (Safely-on_kube P w call (
          calls.permissions.create_or_update (new_permission bucket)
            (mutate_permission P.util bucket key) w.kube
            λ perm.
              then_build_calm _ _ _ (claim_calm (is_set perm.spec.bucket_ref) perm.meta) there))
        λ p t _. tt
    where
      call : Action P.Kube (GaragePermission × OperationResult)
      call =
          P.client.permissions.create_or_update (new_permission bucket)
            (mutate_permission P.util bucket key)

  ignore_not_found-Calm :
      (m : Action (World P) (Unit {0})) (w : World P) → Calm (m w) → Calm (ignore_not_found P m w)
  ignore_not_found-Calm m w h =
      Safely-resume _ _ pure _ (m w) h (λ _ t _. tt) λ e t. skipped-Calm (P.util.is_not_found e) e t

  -- A managed object that was found is deleted if the bucket owns it.
  delete_found-Calm :
      (owners : Outcome Bool) (m : Action (World P) (Unit {0})) (inspect remove : String)
      (t : World P)
      → owners ≢ panics
      → ((u : World P) → Calm (m u))
      → Calm (
          (wrap_error inspect (lift owners) >>= λ owned.
          if owned then wrap_error remove (ignore_not_found P m) else pure tt)
            t)
  delete_found-Calm owners m inspect remove t h calm =
      Safely-bind _ _ (wrap_error inspect (lift owners)) _ t
        (Safely-wrap_error _ inspect (lift owners) t (Calm-lift owners t h))
        λ owned u _. elim (Bool-cases owned) [
          | inl yes_owned ↦ rw yes_owned (
              Safely-wrap_error _ remove (ignore_not_found P m) u
                (ignore_not_found-Calm m u (calm u)))
          | inr other ↦ rw other tt
        ]

  delete_managed_key-Calm : (w : World P) → Calm (delete_managed_key P bucket w)
  unfolding delete_managed_key
  delete_managed_key-Calm w =
      Safely-resume (λ _ _. Unit {0}) _ _ _
        (on_kube {P = P} (P.client.access_keys.get (object_key bucket.meta)) w)
        (Safely-on_kube P w (P.client.access_keys.get (object_key bucket.meta))
          (calls.access_keys.get (object_key bucket.meta) w.kube))
        (λ key t _.
          delete_found-Calm _ _ _ _ t
            (calls.has_owner_reference key.meta.owner_references (of_bucket bucket))
            λ u.
              Safely-on_kube P u (P.client.access_keys.remove key)
                (calls.access_keys.remove key u.kube))
        (λ e t. skipped-Calm (P.util.is_not_found e) _ t)

  delete_managed_permission-Calm : (w : World P) → Calm (delete_managed_permission P bucket w)
  unfolding delete_managed_permission
  delete_managed_permission-Calm w =
      Safely-resume (λ _ _. Unit {0}) _ _ _
        (on_kube {P = P} (P.client.permissions.get (object_key bucket.meta)) w)
        (Safely-on_kube P w (P.client.permissions.get (object_key bucket.meta))
          (calls.permissions.get (object_key bucket.meta) w.kube))
        (λ perm t _.
          delete_found-Calm _ _ _ _ t
            (calls.has_owner_reference perm.meta.owner_references (of_bucket bucket))
            λ u.
              Safely-on_kube P u (P.client.permissions.remove perm)
                (calls.permissions.remove perm u.kube))
        (λ e t. skipped-Calm (P.util.is_not_found e) _ t)

  key_enabled_there : key_enabled bucket ≡ true → bucket.spec.bucket_access_key ≢ none
  key_enabled_there on absent = cc

  reconcile_key_resources-Calm : (w : World P) → Calm (reconcile_key_resources P api bucket w)
  unfolding reconcile_key_resources reconcile_key_resources_deletion
  reconcile_key_resources-Calm w = elim (Bool-cases (key_enabled bucket)) [
    | inr off ↦ rw off (
        Safely-wrap_error _ _ (reconcile_key_resources_deletion P bucket) w (
          Safely-bind (λ _ _. Unit {0}) _ (delete_managed_key P bucket) _ w
            (delete_managed_key-Calm w) λ _ t _. delete_managed_permission-Calm t))
    | inl on ↦ rw on (
        Safely-bind (λ _ _. Unit {0}) _
          (wrap_error "GarageAccessKey reconciliation failed" (reconcile_access_key P bucket)) _ w
          (Safely-wrap_error _ _ (reconcile_access_key P bucket) w
            (reconcile_access_key-Calm w (key_enabled_there on)))
          λ key t _.
            Safely-wrap_error _ _ (reconcile_permission P bucket key) t
              (reconcile_permission-Calm key t (key_enabled_there on)))
  ]

-- The reconciliation of a live GarageBucket does not panic, if no call of a library does and a
-- reply of Garage without an error carries its value, and to `getBucket` a response.
pub reconcile-Calm :
    (P : Platform) (api : GarageApi (World P)) (calls : CalmCalls P api) (bucket : GarageBucket)
    (w : World P)
    → Calm (reconcile P api bucket w)
unfolding reconcile
reconcile-Calm P api calls bucket w =
    Safely-bind _ _ (get_or_create_bucket P api (target_name bucket)) _ w
      (get_or_create_bucket-Filled P api calls (target_name bucket) w)
      λ value t there.
        Safely-bind (λ _ _. Unit {0}) _ (record_bucket_id P api value bucket) _ t
          (record_bucket_id-Calm P api calls value bucket t there)
          λ patched u _.
            Safely-bind (λ _ _. Unit {0}) _ (reconcile_quotas P api value patched) _ u
              (reconcile_quotas-Calm P api calls value patched u there)
              λ _ x _. reconcile_key_resources-Calm P api calls patched x
