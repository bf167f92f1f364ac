-- ===== src/System/Delivery.antt =====
-- The three reconcilers one after the other, for a bucket, a key and the permission between them.
use mathlib.Core.Option.{some-injective, none-ne-some}
use garage_s3_operator.Base.{
  String, ◌≡◌, sym, subst, ◌∙◌, inl, inr, Option, some, OnReturn, OnReturn-mono, OnReturn-both,
  OnReturn-of_Always,
}
use garage_s3_operator.Api.{
  GarageBucket, GarageAccessKey, GaragePermission, NamespacedName, Secret, target_name,
  key_target_name,
}
use garage_s3_operator.Platform.{Platform, World, BucketInfo}
use garage_s3_operator.Platform.Laws.{ResourceLaws}
use garage_s3_operator.Garage.{GarageApi}
use garage_s3_operator.Garage.Laws.{View, ApiLaws}
use garage_s3_operator.Garage.Rights.{AccessorLaws}
use garage_s3_operator.Bucket as BucketController
use garage_s3_operator.Bucket.Provision.{PatchKeepsSpec, MeetsQuotas, reconcile-HasQuotas}
use garage_s3_operator.AccessKey as KeyController
use garage_s3_operator.AccessKey.{expected_secret_content, secret_format, secret_name, opaque}
use garage_s3_operator.AccessKey.Credentials.{body}
use garage_s3_operator.AccessKey.Provision.{KeyPatchKeeps, reconcile-Delivered}
use garage_s3_operator.Permission.{expected_permissions, grant}
use garage_s3_operator.Permission.Grants.{grant-Granted}
use garage_s3_operator.System.Names.{Buckets, Names, Local, key_reconcile-Buckets, grant-Names}

-- Garage as an earlier reconciliation left it, and any state of the API server.
abbrev pub at : {P : Platform} → P.Kube → World P → World P
at k w = record { kube = k; garage = w.garage }

module _ (P : Platform) (v : View P.Garage) (stored : P.Kube → NamespacedName → Option Secret) where
  -- With the secret in `u`, and Garage as in `x`: the bucket has the limits of its spec, the key has
  -- exactly the rights of the permission on it, and the secret is that key's.
  pub record Usable (bucket : GarageBucket) (key : GarageAccessKey) (perm : GaragePermission)
      (u x : World P) : Type 0 where
    pub info : BucketInfo
    pub id : String
    pub secret : Secret
    pub bucket_there : v.bucket_at x.garage (target_name bucket) ≡ some info
    pub limits : MeetsQuotas P.accessors bucket.spec.quotas info
    pub key_there : v.key_at x.garage (key_target_name key) ≡ some id
    pub granted : v.grants x.garage id info.id ≡ expected_permissions perm
    pub secret_there :
        stored u.kube (record { name = secret_name key; namespace = key.meta.namespace })
        ≡ some secret
    pub content :
        body secret
        ≡ (opaque, expected_secret_content (secret_format key) id (v.secret_of u.garage id))

  module _ (api : GarageApi (World P)) (laws : ApiLaws P api v)
      (accessor_laws : AccessorLaws P.accessors)
      (secret_laws : ResourceLaws P.client.secrets (λ s. s.meta) body stored)
      (keeps_spec : PatchKeepsSpec P) (keeps_key : KeyPatchKeeps P) (local : Local P v api) where
    -- If the reconciliation of a live GarageBucket returns, then that of a live GarageAccessKey, then
    -- the grant of a GaragePermission, with whatever becomes of the API server in between, then Garage
    -- has the bucket with the limits of its spec, and the key, which has on the bucket exactly the
    -- rights of the permission's spec, or all three if it gives none; and the second reconciliation
    -- left a secret with the id of that same key, and with the secret that Garage then had for it.
    -- Given `ApiLaws`, `AccessorLaws`, `ResourceLaws` for the secrets, that status patches are answered
    -- with what was sent, and that methods that read or change rights leave the names in Garage alone,
    -- and a new key the buckets (`Local`).
    pub reconcile-Usable :
        (bucket : GarageBucket) (key : GarageAccessKey) (perm : GaragePermission) (k l : P.Kube)
        (w : World P)
        → OnReturn
            (λ _ t.
              OnReturn
                (λ _ u.
                  OnReturn
                    (λ _ x. Usable bucket key perm u x)
                    (grant P api bucket perm key (at l u)))
                (KeyController.reconcile P api key (at k t)))
            (BucketController.reconcile P api bucket w)
    unfolding Buckets Names
    reconcile-Usable bucket key perm k l w =
        OnReturn-mono _ _ (BucketController.reconcile P api bucket w)
          (reconcile-HasQuotas P api v laws keeps_spec bucket w)
          λ _ t (info, there, limits).
            OnReturn-mono _ _ (KeyController.reconcile P api key (at k t))
              (OnReturn-both _ _ (KeyController.reconcile P api key (at k t))
                (reconcile-Delivered P api v laws stored secret_laws keeps_key key (at k t))
                (OnReturn-of_Always (λ u. (Buckets P v).later (at k t) u)
                  (KeyController.reconcile P api key (at k t))
                  ((key_reconcile-Buckets P v api local key).after (at k t))))
              λ _ u ((id, secret, known, kept, content), same).
                OnReturn-mono _ _ (grant P api bucket perm key (at l u))
                  (OnReturn-both _ _ (grant P api bucket perm key (at l u))
                    (grant-Granted P api v laws accessor_laws bucket perm key (at l u))
                    (OnReturn-of_Always (λ x. (Names P v).later (at l u) x)
                      (grant P api bucket perm key (at l u))
                      ((grant-Names P v api local bucket perm key).after (at l u))))
                  λ _ x (granted, names).
                    let bucket_at : v.bucket_at x.garage (target_name bucket) ≡ some info =
                      names.0 _ ∙ (same _ ∙ there) in
                    let key_at : v.key_at x.garage (key_target_name key) ≡ some id =
                      names.1 _ ∙ known in
                    elim granted [
                      | inl absent ↦ absurd (none-ne-some info (sym absent ∙ bucket_at))
                      | inr (inl absent) ↦ absurd (none-ne-some id (sym absent ∙ key_at))
                      | inr (inr (info', id', there', known', rights)) ↦ record {
                        info = info;
                        id = id;
                        secret = secret;
                        bucket_there = bucket_at;
                        limits = limits;
                        key_there = key_at;
                        granted =
                            subst (λ i. v.grants x.garage i info.id ≡ expected_permissions perm)
                              (some-injective id' id (sym known' ∙ key_at))
                              (subst (λ b. v.grants x.garage id' b.id ≡ expected_permissions perm)
                                (some-injective info' info (sym there' ∙ bucket_at)) rights);
                        secret_there = kept;
                        content = content;
                      }
                    ]
