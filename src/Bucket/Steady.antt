-- ===== src/Bucket/Steady.antt =====
-- A second reconciliation of a live GarageBucket whose spec has not changed.
use mathlib.Core.Option.{some-injective, none-ne-some}
use garage_s3_operator.Base.{
  String, ◌≡◌, refl, sym, ap, subst, ◌∙◌, inl, inr, false, Option, none, some, arith, Option-cases,
  Bool-cases, ◌==◌, string_eq, int_eq, nat_eq, OnReturn, OnReturn-both, OnReturn-any, OnReturn-mono,
  Always, Always-follow,
}
use garage_s3_operator.Api.{GarageBucket, BucketQuotas, target_name}
use garage_s3_operator.Platform.{Platform, World, BucketInfo, Accessors}
use garage_s3_operator.Garage.{GarageApi}
use garage_s3_operator.Garage.Laws.{View, HasQuotas, ApiLaws}
use garage_s3_operator.Http.{has_status, not_found}
use garage_s3_operator.Bucket.Frames.{reconcile_key_resources-garage}
use garage_s3_operator.Bucket.Provision.{
  PatchKeepsSpec, MeetsQuotas, reconcile-HasQuotas, get_or_create_bucket-Shown,
  record_bucket_id-Shown,
}
use garage_s3_operator.Bucket.Reconcile.{
  quotas_differ, get_or_create_bucket, record_bucket_id, reconcile_quotas, reconcile,
}

-- Limits that Garage already has are left alone.
quotas_differ-equal :
    (a : Accessors) (q : BucketQuotas) (info : BucketInfo)
    → HasQuotas a q info
    → quotas_differ a q info ≡ false
unfolding quotas_differ
quotas_differ-equal a q info h = ground arith

module _ (P : Platform) (api : GarageApi (World P)) where
  -- `getBucket` only reads, and a reply with no error does not have the status "not found".
  pub record Reads : Type 0 where
    pub same :
        (name : String) (w : World P) → Always (λ t. t.garage ≡ w.garage) (api.get_bucket name w)
    pub found :
        (name : String) (w : World P)
        → OnReturn
            (λ r _. r.error ≡ none → has_status not_found r.resp ≡ false)
            (api.get_bucket name w)

  module _ (v : View P.Garage) (laws : ApiLaws P api v) (reads : Reads) where
    -- Garage has the bucket, and it has not changed.
    abbrev Still : P.Garage → World P → Type 0
    Still g t = t.garage ≡ g

    get_or_create_bucket-Still :
        (name : String) (info : BucketInfo) (w : World P)
        → v.bucket_at w.garage name ≡ some info
        → Always (Still w.garage) (get_or_create_bucket P api name w)
    unfolding get_or_create_bucket
    get_or_create_bucket-Still name info w there =
        Always-follow (Still w.garage) (Still w.garage) _ (api.get_bucket name) _ w
          (reads.same name w)
          (OnReturn-both _ _ (api.get_bucket name w) (laws.get_bucket_lem name w)
            (reads.found name w))
          (λ t s. s)
          λ r t s q. elim (Option-cases r.error) [
            | inr (e, failed) ↦ elim (Bool-cases (has_status not_found r.resp)) [
              | inr other ↦ rw (failed, other) s
              | inl missing ↦ absurd (
                  none-ne-some info
                    (sym (q.0.missing e failed missing) ∙ (ap (λ g. v.bucket_at g name) s ∙ there)))
            ]
            | inl fine ↦ elim (Option-cases r.resp) [
              | inl silent ↦ rw (fine, silent) s
              | inr (resp, answered) ↦
                  let other : (resp.status_code == not_found) ≡ false =
                    subst (λ o. has_status not_found o ≡ false) answered (q.1 fine) in
                  rw (fine, answered, other) s
            ]
          ]

    reconcile_quotas-Still :
        (value : Option BucketInfo) (info : BucketInfo) (bucket : GarageBucket) (w : World P)
        → value ≡ some info
        → MeetsQuotas P.accessors bucket.spec.quotas info
        → Always (Still w.garage) (reconcile_quotas P api value bucket w)
    unfolding reconcile_quotas
    reconcile_quotas-Still value info bucket w shown meets =
        elim (Option-cases bucket.spec.quotas) [
          | inl free ↦ rw (free, reconcile_quotas) refl
          | inr (quotas, wanted) ↦
              let right =
                quotas_differ-equal P.accessors quotas info
                  (subst (λ q. MeetsQuotas P.accessors q info) wanted meets) in
              rw (wanted, shown, right, reconcile_quotas) refl
        ]

    record_bucket_id-Still :
        (value : Option BucketInfo) (bucket : GarageBucket) (w : World P)
        → Always (Still w.garage) (record_bucket_id P api value bucket w)
    unfolding record_bucket_id
    record_bucket_id-Still value bucket w = ground arith

    -- Where Garage has the bucket with its limits, a reconciliation leaves Garage alone.
    module _ (keeps_spec : PatchKeepsSpec P) where
      settled-Still :
          (bucket : GarageBucket) (info : BucketInfo) (w : World P)
          → v.bucket_at w.garage (target_name bucket) ≡ some info
          → MeetsQuotas P.accessors bucket.spec.quotas info
          → Always (Still w.garage) (reconcile P api bucket w)
      unfolding reconcile
      settled-Still bucket info w there meets =
          Always-follow (Still w.garage) (Still w.garage) _
            (get_or_create_bucket P api (target_name bucket)) _ w
            (get_or_create_bucket-Still (target_name bucket) info w there)
            (get_or_create_bucket-Shown P api v laws (target_name bucket) w) (λ t s. s)
            λ value t s (info', shown, there').
              Always-follow (Still w.garage) (Still w.garage) _
                (record_bucket_id P api value bucket) _ t
                (record_bucket_id-Still value bucket t ∙ s)
                (record_bucket_id-Shown P api v laws keeps_spec (target_name bucket) value bucket t
                  (info', shown, there'))
                (λ u s'. s')
                λ patched u s' (same, _).
                  let agree : info' ≡ info =
                    some-injective info' info
                      (sym there' ∙ (ap (λ g. v.bucket_at g (target_name bucket)) s ∙ there)) in
                  Always-follow (Still w.garage) (Still w.garage) (λ _ _. Unit {0})
                    (reconcile_quotas P api value patched) _ u
                    (reconcile_quotas-Still value info patched u (shown ∙ ap some agree) (
                        subst (λ q. MeetsQuotas P.accessors q info) (sym (ap (λ x. x.quotas) same))
                          meets)
                      ∙ s')
                    (OnReturn-any (reconcile_quotas P api value patched u)) (λ x s''. s'')
                    λ _ x s'' _. reconcile_key_resources-garage P api patched x ∙ s''

      -- If the reconciliation of a live GarageBucket returns, a second one, of an object with the same
      -- spec and target name and on whatever state of the API server, leaves Garage, whatever its
      -- outcome, as the first one left it; given `ApiLaws`, that a status patch is answered with the
      -- spec that was sent, that getBucket only reads, and that its reply has no status "not found"
      -- without an error.
      pub reconcile_idempotent :
          (bucket again : GarageBucket) (k : P.Kube) (w : World P)
          → again.spec ≡ bucket.spec
          → target_name again ≡ target_name bucket
          → OnReturn
              (λ _ t.
                Always
                  (λ u. u.garage ≡ t.garage)
                  (reconcile P api again (record { kube = k; garage = t.garage })))
              (reconcile P api bucket w)
      reconcile_idempotent bucket again k w spec target =
          OnReturn-mono _ _ (reconcile P api bucket w)
            (reconcile-HasQuotas P api v laws keeps_spec bucket w)
            λ _ t (info, there, meets).
              settled-Still again info (record { kube = k; garage = t.garage })
                (ap (v.bucket_at t.garage) target ∙ there)
                (subst (λ x. MeetsQuotas P.accessors x.quotas info) (sym spec) meets)
