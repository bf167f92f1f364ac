-- ===== src/Permission/Settled.antt =====
-- When a reconciliation of a live GaragePermission comes to its end.
use mathlib.Core.Option.{none-ne-some}
use garage_s3_operator.Base.{
  String, ◌≡◌, sym, ◌∙◌, inl, inr, false, none, some, Bool-cases, Yields, Yields-bind, Yields-with,
  Yields-mono,
}
use garage_s3_operator.Api.{
  GarageBucket, GarageAccessKey, GaragePermission, Permissions, target_name, key_target_name,
}
use garage_s3_operator.Platform.{Platform, World, BucketInfo}
use garage_s3_operator.Garage.{GarageApi}
use garage_s3_operator.Garage.Laws.{View, ApiLaws, SameNames}
use garage_s3_operator.Garage.Rights.{AccessorLaws}
use garage_s3_operator.Permission.Reconcile.{
  bucket_has_permissions, expected_permissions, set_if_different, grant,
}
use garage_s3_operator.Permission.Grants.{grant-Granted}

module _ (P : Platform) (api : GarageApi (World P)) (v : View P.Garage) where
  -- A bucket and a key that are there are found, and rights of the one on the other can be set.
  pub record Serves (name key_name : String) : Type 0 where
    pub get_bucket :
        (w : World P) (info : BucketInfo)
        → v.bucket_at w.garage name ≡ some info
        → Yields (λ r t. (r.error ≡ none) × SameNames v w.garage t.garage) (api.get_bucket name w)
    pub get_key :
        (w : World P) (id : String)
        → v.key_at w.garage key_name ≡ some id
        → Yields (λ r _. r.error ≡ none) (api.get_key_by_id key_name false w)
    pub set_permissions :
        (w : World P) (info : BucketInfo) (id : String) (p : Permissions)
        → v.bucket_at w.garage name ≡ some info
        → v.key_at w.garage key_name ≡ some id
        → Yields (λ r _. r.error ≡ none) (api.set_permissions id info.id p w)

  module _ (laws : ApiLaws P api v) (accessor_laws : AccessorLaws P.accessors)
      (bucket : GarageBucket) (perm : GaragePermission) (key : GarageAccessKey)
      (serves : Serves (target_name bucket) (key_target_name key)) where
    -- Garage has the bucket and the key.
    abbrev Present : P.Garage → Type 0
    Present g =
        ((info : BucketInfo) × (v.bucket_at g (target_name bucket) ≡ some info))
        × ((id : String) × (v.key_at g (key_target_name key) ≡ some id))

    grant-Present :
        (w : World P)
        → Present w.garage
        → Yields (λ _ t. Present t.garage) (grant P api bucket perm key w)
    unfolding grant set_if_different
    grant-Present w ((info, there), (id, at)) =
        Yields-bind _ _ (api.get_bucket (target_name bucket)) _ w
          (Yields-with _ _ (api.get_bucket (target_name bucket) w) (serves.get_bucket w info there)
            (laws.get_bucket_lem (target_name bucket) w))
          λ r t ((fine, same), got).
            let (b, value, found) = got.found fine in
            rw fine (
              Yields-bind _ _ (api.get_key_by_id (key_target_name key) false) _ t
                (Yields-with _ _ (api.get_key_by_id (key_target_name key) false t)
                  (serves.get_key t id (same.1 _ ∙ at))
                  (laws.get_key_lem (key_target_name key) false t))
                λ s u (known, (shown, kept)).
                  let (k, _, key_id, here, _) = shown.found known in
                  rw known
                    (elim (Bool-cases (
                      bucket_has_permissions P.accessors (target_name bucket)
                        (expected_permissions perm) (P.accessors.get_buckets s.value))) [
                          | inl right ↦ rw right ((b, kept _ ∙ found), (k.access_key_id, here))
                          | inr wrong ↦
                              rw (wrong, key_id, value, accessor_laws.bucket_id b)
                                (Yields-bind _ _
                                  (api.set_permissions k.access_key_id b.id
                                    (expected_permissions perm))
                                  _ u
                                  (Yields-with _ _
                                    (api.set_permissions k.access_key_id b.id
                                      (expected_permissions perm) u)
                                    (serves.set_permissions u b k.access_key_id _ (kept _ ∙ found)
                                      here)
                                    (laws.set_permissions_lem k.access_key_id b.id
                                      (expected_permissions perm) u))
                                  λ a x (done, (_, names)). rw done (
                                    (b, names.0 _ ∙ (kept _ ∙ found)),
                                    (k.access_key_id, names.1 _ ∙ here),
                                  ))
                        ]))

    -- If Garage has the target bucket and the target key, finds them, and takes the request for their
    -- rights, then `reconcile` of the permission controller, once it has read the GarageAccessKey,
    -- returns, and the key has on the bucket exactly the rights of the spec, or all three if the spec
    -- gives none. Given `ApiLaws` and `AccessorLaws`.
    pub grant-Yields :
        (w : World P)
        → Present w.garage
        → Yields
            (λ _ t.
              (info : BucketInfo) × (id : String) × (v.bucket_at t.garage (target_name bucket)
                ≡ some info)
              × (v.key_at t.garage (key_target_name key) ≡ some id)
              × (v.grants t.garage id info.id ≡ expected_permissions perm))
            (grant P api bucket perm key w)
    grant-Yields w present =
        Yields-mono _ _ (grant P api bucket perm key w)
          (Yields-with _ _ (grant P api bucket perm key w) (grant-Present w present)
            (grant-Granted P api v laws accessor_laws bucket perm key w))
          λ _ t (((info, there), (id, at)), granted). elim granted [
            | inl lacks ↦ absurd (none-ne-some info (sym lacks ∙ there))
            | inr (inl lacks) ↦ absurd (none-ne-some id (sym lacks ∙ at))
            | inr (inr settled) ↦ settled
          ]
