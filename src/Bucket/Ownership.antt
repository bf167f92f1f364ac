-- ===== src/Bucket/Ownership.antt =====
-- The GarageAccessKey and the GaragePermission of a bucket: what they say after a reconciliation,
-- and that nobody else's object is taken over.
use mathlib.Core.Option.{get_or}
use garage_s3_operator.Base.{
  ◌≡◌, ◌≢◌, refl, sym, subst, ap, ◌∙◌, inl, inr, Bool, true, Option, none, some, arith, Bool-cases,
  ==-of_eq, string_eq, Outcome, returns, fails, panics,
}
use garage_s3_operator.Api.{
  ObjectMeta, GarageBucket, GarageAccessKey, GaragePermission, BucketAccessKey, all_permissions,
  key_selector, bucket_selector,
}
use garage_s3_operator.Platform.{Util, of_bucket}
use garage_s3_operator.Platform.Laws.{UtilLaws}
use garage_s3_operator.Finalizer.{finalizer, ensure_finalizer, has_finalizer}
use garage_s3_operator.Bucket.Resources.{
  is_set, then_build, managed_key, managed_permission, claim, mutate_key, mutate_permission,
}

module _ (u : Util) (bucket : GarageBucket) where
  -- Metadata that carries the finalizer and has the bucket among its owners.
  pub record IsManaged (m : ObjectMeta) : Type 0 where
    pub guarded : has_finalizer u m ≡ true
    pub owned : u.has_owner_reference m.owner_references (of_bucket bucket) ≡ returns true

then_build-returns :
    {A : Type 0} (claimed : Outcome ObjectMeta) (access : Option BucketAccessKey)
    (build : ObjectMeta → BucketAccessKey → A) (sent : A)
    → then_build claimed access build ≡ returns sent
    → (m : ObjectMeta) × (b : BucketAccessKey) × (claimed ≡ returns m)
      × (access ≡ some b)
      × (sent ≡ build m b)
then_build-returns (returns m) (some b) build sent h = (m, b, refl, refl, ground arith)
then_build-returns (returns m) none build sent h = cc
then_build-returns (fails e) access build sent h = cc
then_build-returns panics access build sent h = cc

is_set-of_ne : {A : Type 0} (o : Option A) → o ≢ none → is_set o ≡ true
is_set-of_ne none h = absurd (h refl)
is_set-of_ne (some a) h = refl

module _ (u : Util) (laws : UtilLaws u) (bucket : GarageBucket) where
  -- A claim that succeeds in the bucket's namespace makes the bucket an owner; and the bucket was
  -- one before if the object was in use.
  claim_lem :
      (taken : Bool) (m m' : ObjectMeta)
      → bucket.meta.namespace ≡ m.namespace
      → claim u bucket taken m ≡ returns m'
      → (u.set_owner_reference (of_bucket bucket) m ≡ returns m')
        × (taken ≡ true
            → u.has_owner_reference m.owner_references (of_bucket bucket) ≡ returns true)
  unfolding claim
  claim_lem taken m m' near h = ground (arith, ==-of_eq bucket.meta.namespace m.namespace near)

  ensure_finalizer-IsManaged :
      (m m' : ObjectMeta)
      → u.set_owner_reference (of_bucket bucket) m ≡ returns m'
      → IsManaged u bucket (ensure_finalizer u m')
  ensure_finalizer-IsManaged m m' set = elim (Bool-cases (has_finalizer u m')) [
    | inl there ↦ rw there (record { guarded = there; owned = (laws.set_owner _ m m' set).0 })
    | inr absent ↦ rw absent (record {
      guarded = laws.contains-add m'.finalizers finalizer;
      owned = (laws.set_owner _ m m' set).0;
    })
  ]

  -- The callback on a key of the bucket's namespace: the result is managed by the bucket, belongs to
  -- the bucket's cluster and has the bucket's format; a key in use was owned by the bucket before.
  pub mutate_key_lem :
      (key sent : GarageAccessKey)
      → bucket.meta.namespace ≡ key.meta.namespace
      → mutate_key u bucket key ≡ returns sent
      → IsManaged u bucket sent.meta
        × (sent.spec.cluster_ref ≡ bucket.spec.cluster_ref)
        × (key.spec.cluster_ref ≢ none
            → u.has_owner_reference key.meta.owner_references (of_bucket bucket) ≡ returns true)
  unfolding mutate_key
  mutate_key_lem key sent near h =
      let (m, access, claimed, _, built) =
        then_build-returns (claim u bucket (is_set key.spec.cluster_ref) key.meta)
          bucket.spec.bucket_access_key (managed_key u bucket key) sent h in
      let (set, owned) = claim_lem (is_set key.spec.cluster_ref) key.meta m near claimed in
      (
        subst (λ s. IsManaged u bucket s.meta) (sym built)
            (ensure_finalizer-IsManaged key.meta m set),
        ap (λ s. s.spec.cluster_ref) built,
        λ used. owned (is_set-of_ne key.spec.cluster_ref used),
      )

  pub mutate_permission_lem :
      (key : GarageAccessKey) (perm sent : GaragePermission)
      → bucket.meta.namespace ≡ perm.meta.namespace
      → mutate_permission u bucket key perm ≡ returns sent
      → IsManaged u bucket sent.meta
        × ((access : BucketAccessKey)
            → bucket.spec.bucket_access_key ≡ some access
            → sent.spec ≡ record {
              key_ref = key_selector key;
              bucket_ref = bucket_selector bucket;
              permissions = some (get_or access.permissions all_permissions);
            })
        × (perm.spec.bucket_ref ≢ none
            → u.has_owner_reference perm.meta.owner_references (of_bucket bucket) ≡ returns true)
  unfolding mutate_permission
  mutate_permission_lem key perm sent near h =
      let (m, access, claimed, enabled, built) =
        then_build-returns (claim u bucket (is_set perm.spec.bucket_ref) perm.meta)
          bucket.spec.bucket_access_key (managed_permission u bucket key) sent h in
      let (set, owned) = claim_lem (is_set perm.spec.bucket_ref) perm.meta m near claimed in
      (
        subst (λ s. IsManaged u bucket s.meta) (sym built)
            (ensure_finalizer-IsManaged perm.meta m set),
        λ access' same. ap (λ s. s.spec) built ∙ ground (arith, enabled),
        λ used. owned (is_set-of_ne perm.spec.bucket_ref used),
      )
