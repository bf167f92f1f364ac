-- ===== src/Permission/Grants.antt =====
-- A reconciliation of a live GaragePermission: the rights in Garage afterwards.
use garage_s3_operator.Base.{
  String, ◌≡◌, ◌∙◌, ◌⊎◌, inl, inr, true, false, Option, none, some, List, [], ◌∷◌, Option-cases,
  Bool-cases, eq_of_==, ◌==◌, contains, string_eq, OnReturn, OnReturn-bind,
}
use garage_s3_operator.Api.{
  GarageBucket, GarageAccessKey, GaragePermission, Permissions, permissions_eq, target_name,
  key_target_name,
}
use garage_s3_operator.Platform.{
  Platform, World, Accessors, BucketInfo, KeyInfo, KeyBucket, ApiBucketKeyPerm,
}
use garage_s3_operator.Http.{has_status, not_found}
use garage_s3_operator.Garage.{GarageApi}
use garage_s3_operator.Garage.Laws.{View, All, ShowsGrants, ApiLaws, rights}
use garage_s3_operator.Garage.Rights.{AccessorLaws}
use garage_s3_operator.Permission.Reconcile.{
  current_permissions, bucket_has_permissions, expected_permissions, set_if_different, grant,
}

current_permissions-eq_of_== :
    (a : Accessors) (p : ApiBucketKeyPerm) (expected : Permissions)
    → (current_permissions a p == expected) ≡ true
    → rights a p ≡ expected
unfolding current_permissions
current_permissions-eq_of_== a p expected h = eq_of_== (rights a p) expected h

module _ {G : Type 0} (v : View G) (a : Accessors) (g : G) (key_id alias : String)
    (expected : Permissions) (info : BucketInfo) (there : v.bucket_at g alias ≡ some info) where
  -- If the loop over a key's buckets is satisfied, the key has exactly the expected rights on the
  -- bucket under the alias.
  bucket_has_permissions_sound :
      (bs : List KeyBucket)
      → All (ShowsGrants v a g key_id) bs
      → bucket_has_permissions a alias expected bs ≡ true
      → v.grants g key_id info.id ≡ expected
  unfolding bucket_has_permissions
  bucket_has_permissions_sound [] shows h = cc
  bucket_has_permissions_sound (b ∷ bs) (shows, rest) h =
      elim (Bool-cases (contains (a.get_global_aliases b) alias)) [
        | inl here ↦
            let same : info.id ≡ b.id = shows.at_alias alias here info there in
            rw same
              (shows.shown ∙ current_permissions-eq_of_== a b.permissions expected (rw here at h))
        | inr elsewhere ↦ bucket_has_permissions_sound bs rest (rw elsewhere at h)
      ]

module _ (P : Platform) (api : GarageApi (World P)) (v : View P.Garage) (laws : ApiLaws P api v)
    (accessor_laws : AccessorLaws P.accessors) (bucket : GarageBucket) (perm : GaragePermission)
    (key : GarageAccessKey) where
  -- Garage lacks the bucket, or the key, or the key has exactly the expected rights on the bucket.
  abbrev pub Granted : P.Garage → Type 0
  Granted g =
      (v.bucket_at g (target_name bucket) ≡ none)
      ⊎ ((v.key_at g (key_target_name key) ≡ none)
          ⊎ ((info : BucketInfo) × (key_id : String) × (v.bucket_at g (target_name bucket)
                ≡ some info)
              × (v.key_at g (key_target_name key) ≡ some key_id)
              × (v.grants g key_id info.id ≡ expected_permissions perm)))

  set_if_different-Granted :
      (bucket_info : Option BucketInfo) (key_info : Option KeyInfo) (info : BucketInfo)
      (found : KeyInfo) (w : World P)
      → bucket_info ≡ some info
      → v.bucket_at w.garage (target_name bucket) ≡ some info
      → P.accessors.get_access_key_id key_info ≡ found.access_key_id
      → v.key_at w.garage (key_target_name key) ≡ some found.access_key_id
      → All
          (ShowsGrants v P.accessors w.garage found.access_key_id)
          (P.accessors.get_buckets key_info)
      → OnReturn
          (λ _ t. Granted t.garage)
          (set_if_different P api bucket perm bucket_info key_info w)
  unfolding set_if_different
  set_if_different-Granted bucket_info key_info info found w value there id known shows =
      elim (Bool-cases (
        bucket_has_permissions P.accessors (target_name bucket) (expected_permissions perm)
          (P.accessors.get_buckets key_info))) [
            | inl right ↦ rw right (
                inr (
                  inr (
                    info,
                    found.access_key_id,
                    there,
                    known,
                    bucket_has_permissions_sound v P.accessors w.garage found.access_key_id
                        (target_name bucket) (expected_permissions perm) info there
                        (P.accessors.get_buckets key_info) shows right,
                  )))
            | inr wrong ↦
                rw (wrong, id, value, accessor_laws.bucket_id info)
                  (OnReturn-bind _ _
                    (api.set_permissions found.access_key_id info.id (expected_permissions perm)) _
                    w
                    (laws.set_permissions_lem found.access_key_id info.id
                      (expected_permissions perm) w)
                    λ r t done. elim (Option-cases r.error) [
                      | inr (e, failed) ↦ rw failed tt
                      | inl fine ↦ rw fine (
                          inr (
                            inr (
                              info,
                              found.access_key_id,
                              done.1.0 _ ∙ there,
                              done.1.1 _ ∙ known,
                              done.0 fine,
                            )))
                    ])
          ]

  -- If `reconcile` of the permission controller returns after it has read the GarageAccessKey,
  -- then Garage lacks the target bucket, or lacks the target key, or the key has on the bucket
  -- exactly the rights of the spec, or all three if the spec gives none; given `ApiLaws` and
  -- `AccessorLaws`.
  pub grant-Granted :
      (w : World P) → OnReturn (λ _ t. Granted t.garage) (grant P api bucket perm key w)
  unfolding grant
  grant-Granted w =
      OnReturn-bind _ _ (api.get_bucket (target_name bucket)) _ w
        (laws.get_bucket_lem (target_name bucket) w)
        λ r t got. elim (Option-cases r.error) [
          | inr (e, failed) ↦ elim (Bool-cases (has_status not_found r.resp)) [
            | inl missing ↦ rw (failed, missing) (inl (got.missing e failed missing))
            | inr other ↦ rw (failed, other) tt
          ]
          | inl fine ↦ rw fine (
              OnReturn-bind _ _ (api.get_key_by_id (key_target_name key) false) _ t
                (laws.get_key_lem (key_target_name key) false t)
                λ s u found. elim (Option-cases s.error) [
                  | inr (e, failed) ↦ elim (Bool-cases (has_status not_found s.resp)) [
                    | inl missing ↦
                        rw (failed, missing) (inr (inl (found.0.missing e failed missing)))
                    | inr other ↦ rw (failed, other) tt
                  ]
                  | inl known ↦
                      let (info, value, there) = got.found fine in
                      let (k, _, id, at, shows) = found.0.found known in
                      rw known (
                        set_if_different-Granted r.value s.value info k u value (found.1 _ ∙ there)
                          id at shows)
                ])
        ]
