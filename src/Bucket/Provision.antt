-- ===== src/Bucket/Provision.antt =====
-- A live GarageBucket: what a reconciliation that returns has made of the target bucket.
use garage_s3_operator.Base.{
  String, ◌≡◌, refl, ap, subst, inl, inr, false, Option, none, some, arith, Option-cases,
  Bool-cases, ◌==◌, string_eq, int_eq, nat_eq, Action, OnReturn, OnReturn-bind, OnReturn-mono,
  OnReturn-of_Always, OnReturn-wrap_error,
}
use garage_s3_operator.Api.{GarageBucket, BucketQuotas, target_name}
use garage_s3_operator.Platform.{Platform, World, on_kube, BucketInfo, Accessors}
use garage_s3_operator.Platform.Lifting.{OnReturn-on_kube}
use garage_s3_operator.Bucket.Frames.{reconcile_key_resources-garage}
use garage_s3_operator.Garage.{GarageApi}
use garage_s3_operator.Garage.Laws.{View, HasQuotas, ApiLaws}
use garage_s3_operator.Http.{not_found}
use garage_s3_operator.Bucket.Reconcile.{
  quotas_differ, create_target, get_or_create_bucket, record_bucket_id, reconcile_quotas,
  reconcile_key_resources, reconcile,
}

-- The API server gives a patched object back with the spec that it was sent.
abbrev pub PatchKeepsSpec : Platform → Type 0
PatchKeepsSpec P =
    (base changed : GarageBucket) (k : P.Kube)
    → OnReturn (λ b _. b.spec ≡ changed.spec) (P.client.buckets.patch_status base changed k)

-- The limits of a spec, if it gives any, are those of the bucket.
abbrev pub MeetsQuotas : Accessors → Option BucketQuotas → BucketInfo → Type 0
MeetsQuotas a none info = Unit
MeetsQuotas a (some q) info = HasQuotas a q info

-- The limits are left alone only if Garage already has both.
quotas_differ-HasQuotas :
    (a : Accessors) (q : BucketQuotas) (info : BucketInfo)
    → quotas_differ a q info ≡ false
    → HasQuotas a q info
unfolding quotas_differ
quotas_differ-HasQuotas a q info h = ground arith

module _ (P : Platform) (api : GarageApi (World P)) (v : View P.Garage)
    (laws : ApiLaws P api v) where
  -- The target bucket is there, as the value shows it.
  abbrev Shown : String → Option BucketInfo → World P → Type 0
  Shown name value t =
      (info : BucketInfo) × (value ≡ some info) × (v.bucket_at t.garage name ≡ some info)

  create_target-Shown :
      (name : String) (w : World P)
      → OnReturn (λ value t. Shown name value t) (create_target P api name w)
  unfolding create_target
  create_target-Shown name w =
      OnReturn-bind _ _ (api.create_bucket name) _ w (laws.create_bucket_lem name w) λ r t q.
        elim (Option-cases r.error) [ inl fine ↦ rw fine (q fine) | inr (e, failed) ↦ rw failed tt ]

  pub get_or_create_bucket-Shown :
      (name : String) (w : World P)
      → OnReturn (λ value t. Shown name value t) (get_or_create_bucket P api name w)
  unfolding get_or_create_bucket
  get_or_create_bucket-Shown name w =
      OnReturn-bind _ _ (api.get_bucket name) _ w (laws.get_bucket_lem name w) λ r t got.
        elim (Option-cases r.resp) [
          | inl silent ↦ elim (Option-cases r.error) [
            | inl fine ↦ rw (fine, silent) tt
            | inr (e, failed) ↦ rw (failed, silent) tt
          ]
          | inr (resp, answered) ↦ elim (Bool-cases (resp.status_code == not_found)) [
            | inl missing ↦ elim (Option-cases r.error) [
              | inl fine ↦ rw (fine, answered, missing) (create_target-Shown name t)
              | inr (e, failed) ↦
                  rw (failed, answered, missing, missing) (create_target-Shown name t)
            ]
            | inr other ↦ elim (Option-cases r.error) [
              | inl fine ↦ rw (fine, answered, other) (got.found fine)
              | inr (e, failed) ↦ rw (failed, answered, other) tt
            ]
          ]
        ]

  reconcile_quotas-HasQuotas :
      (name : String) (value : Option BucketInfo) (bucket : GarageBucket) (w : World P)
      → Shown name value w
      → OnReturn
          (λ _ t.
            (info : BucketInfo) × (v.bucket_at t.garage name ≡ some info)
            × MeetsQuotas P.accessors bucket.spec.quotas info)
          (reconcile_quotas P api value bucket w)
  unfolding reconcile_quotas
  reconcile_quotas-HasQuotas name value bucket w (info, shown, there) =
      elim (Option-cases bucket.spec.quotas) [
        | inl free ↦ rw (free, reconcile_quotas) (info, there, tt)
        | inr (quotas, wanted) ↦ elim (Bool-cases (quotas_differ P.accessors quotas info)) [
          | inr right ↦
              rw (wanted, shown, right, reconcile_quotas)
                (info, there, quotas_differ-HasQuotas P.accessors quotas info right)
          | inl wrong ↦
              rw (wanted, shown, wrong, reconcile_quotas)
                (OnReturn-bind _ _ (api.update_bucket info.id quotas) _ w
                  (laws.update_bucket_lem name quotas info w there)
                  λ r t set. elim (Option-cases r.error) [
                    | inr (e, failed) ↦ rw failed tt
                    | inl fine ↦ let (info', there', has) = set fine in rw fine (info', there', has)
                  ])
        ]
      ]

  pub record_bucket_id-Shown :
      (keeps_spec : PatchKeepsSpec P) (name : String) (value : Option BucketInfo)
      (bucket : GarageBucket) (w : World P)
      → Shown name value w
      → OnReturn
          (λ b t. (b.spec ≡ bucket.spec) × Shown name value t)
          (record_bucket_id P api value bucket w)
  unfolding record_bucket_id
  record_bucket_id-Shown keeps_spec name value bucket w (info, shown, there) =
      elim (Bool-cases (bucket.status.id == "")) [
        | inr known ↦ rw known (refl, (info, shown, there))
        | inl fresh ↦
            rw (fresh, shown)
              (OnReturn-wrap_error _ _ (on_kube {P = P} patch) w (
                OnReturn-mono _ _ (on_kube {P = P} patch w)
                  (OnReturn-on_kube P w (λ b _. b.spec ≡ bucket.spec) patch
                    (keeps_spec bucket (record bucket { status = record { id = info.id } }) w.kube))
                  λ b t q. (q.0, (info, refl, rw q.1 there))))
      ]
    where
      patch : Action P.Kube GarageBucket
      patch =
          P.client.buckets.patch_status bucket (record bucket { status = record { id = info.id } })

  -- If the reconciliation of a live GarageBucket returns, Garage has a bucket under the target name,
  -- and that bucket has the limits of the spec if the spec gives any; given `ApiLaws`, and that the
  -- API server answers a status patch with the spec that it was sent.
  pub reconcile-HasQuotas :
      PatchKeepsSpec P
      → (bucket : GarageBucket) (w : World P)
      → OnReturn
          (λ _ t.
            (info : BucketInfo) × (v.bucket_at t.garage (target_name bucket) ≡ some info)
            × MeetsQuotas P.accessors bucket.spec.quotas info)
          (reconcile P api bucket w)
  unfolding reconcile
  reconcile-HasQuotas keeps_spec bucket w =
      OnReturn-bind _ _ (get_or_create_bucket P api (target_name bucket)) _ w
        (get_or_create_bucket-Shown (target_name bucket) w)
        λ value t shown.
          OnReturn-bind _ _ (record_bucket_id P api value bucket) _ t
            (record_bucket_id-Shown keeps_spec (target_name bucket) value bucket t shown)
            λ patched u kept.
              OnReturn-bind _ _ (reconcile_quotas P api value patched) _ u
                (reconcile_quotas-HasQuotas (target_name bucket) value patched u kept.1)
                λ _ x has.
                  OnReturn-mono _ _ (reconcile_key_resources P api patched x)
                    (OnReturn-of_Always (λ y. y.garage ≡ x.garage) _
                      (reconcile_key_resources-garage P api patched x))
                    λ _ y same.
                      let (info, there, limits) = has in
                      (
                        info,
                        rw same there,
                        subst (λ q. MeetsQuotas P.accessors q info) (ap (λ s. s.quotas) kept.0)
                            limits,
                      )
