-- ===== src/Permission/Revocation.antt =====
-- A GaragePermission under deletion: the rights in Garage afterwards.
use garage_s3_operator.Base.{
  ◌≡◌, sym, subst, ◌∙◌, ◌⊎◌, inl, inr, Bool, false, Option, some, Option-cases, ◌==◌, contains,
  string_eq, Action, OnReturn, OnReturn-bind, OnReturn-wrap_error, OnReturn-both, wrap_error,
}
use garage_s3_operator.Api.{GarageBucket, GarageAccessKey, target_name, key_target_name}
use garage_s3_operator.Platform.{Platform, World, Connection, ListKeysItem, ListBucketsItem}
use garage_s3_operator.Garage.{
  garage_manager, find_bucket_in_list, find_key_in_list, deny_all_permissions,
}
use garage_s3_operator.Garage.Laws.{View, All}
use garage_s3_operator.Garage.Rights.{AccessorLaws}
use garage_s3_operator.Garage.Server.{ServerLaws, no_permissions}
use garage_s3_operator.Garage.Grants.{deny_all_permissions-grants}
use garage_s3_operator.Garage.Lists.{Finds}
use garage_s3_operator.Garage.Listing.{
  Lists, ListLaws, find_bucket_in_list-Finds, find_key_in_list-Finds,
  deny_all_permissions-SameLists,
}
use garage_s3_operator.Permission.Reconcile.{revoke_key, revoke}

module _ (P : Platform) (c : Connection) (v : View P.Garage) (l : Lists P.Garage)
    (server : ServerLaws P c v) (lists : ListLaws P c l) (accessor_laws : AccessorLaws P.accessors)
    (bucket : GarageBucket) (key : GarageAccessKey) where
  abbrev is_target_bucket : ListBucketsItem → Bool
  is_target_bucket b = contains b.global_aliases (target_name bucket)

  abbrev is_target_key : ListKeysItem → Bool
  is_target_key k = k.name == key_target_name key

  -- No bucket has the target alias, or no key the target name, or the first such key has no right
  -- on the first such bucket.
  abbrev pub Revoked : P.Garage → Type 0
  Revoked g =
      All (λ b. is_target_bucket b ≡ false) (l.buckets g)
      ⊎ (All (λ k. is_target_key k ≡ false) (l.keys g)
          ⊎ ((b : ListBucketsItem) × (k : ListKeysItem) × Finds is_target_bucket (l.buckets g)
                (some b)
              × Finds is_target_key (l.keys g) (some k)
              × (v.grants g k.id b.id ≡ no_permissions)))

  -- The part of `revoke` after the bucket was found.
  revoke_key-Revoked :
      (b : ListBucketsItem) (t : World P)
      → Finds is_target_bucket (l.buckets t.garage) (some b)
      → OnReturn (λ _ x. Revoked x.garage) (revoke_key P (garage_manager P c) key b t)
  unfolding revoke_key garage_manager
  revoke_key-Revoked b t found =
      OnReturn-bind _ _ (wrap_error "unable to find key in Garage" find_k) _ t
        (OnReturn-wrap_error _ "unable to find key in Garage" find_k t
          (find_key_in_list-Finds P c l lists (key_target_name key) t))
        λ ks u sought. elim (Option-cases ks) [
          | inl absent ↦
              rw absent
                (inr (inl (subst (λ o. Finds is_target_key (l.keys u.garage) o) absent sought.0)))
          | inr (k, there) ↦ rw there (
              OnReturn-bind _ _ (deny_all_permissions P c k.id b.id) _ u
                (OnReturn-both _ _ (deny_all_permissions P c k.id b.id u)
                  (deny_all_permissions-grants P c v server accessor_laws k.id b.id u)
                  (deny_all_permissions-SameLists P c l lists k.id b.id u))
                λ r x done. elim (Option-cases r.error) [
                  | inr (e, failed) ↦ rw failed tt
                  | inl fine ↦ rw fine (
                      inr (
                        inr (
                          b,
                          k,
                          subst (λ bs. Finds is_target_bucket bs (some b))
                              (sym (done.1.1 ∙ sought.1.1)) found,
                          subst (λ ks. Finds is_target_key ks (some k)) (sym done.1.0)
                              (subst (λ o. Finds is_target_key (l.keys u.garage) o) there sought.0),
                          done.0 fine,
                        )))
                ])
        ]
    where
      find_k : Action (World P) (Option ListKeysItem)
      find_k = find_key_in_list P c (key_target_name key)

  -- If `reconcileDeletion` of the permission controller, with the methods of `GarageManager`, returns
  -- after it has read the GarageAccessKey, then Garage lists no bucket with the target alias, or no
  -- key of the target name, or the first such key has no right on the first such bucket; given
  -- `ServerLaws`, `ListLaws` and `AccessorLaws`.
  pub revoke-Revoked :
      (w : World P)
      → OnReturn (λ _ t. Revoked t.garage) (revoke P (garage_manager P c) bucket key w)
  unfolding revoke garage_manager
  revoke-Revoked w =
      OnReturn-bind _ _ (wrap_error "unable to find bucket in Garage" find_b) _ w
        (OnReturn-wrap_error _ "unable to find bucket in Garage" find_b w
          (find_bucket_in_list-Finds P c l lists (target_name bucket) w))
        λ bs t found. elim (Option-cases bs) [
          | inl absent ↦
              rw absent
                (inl (subst (λ o. Finds is_target_bucket (l.buckets t.garage) o) absent found.0))
          | inr (b, there) ↦ rw there (
              revoke_key-Revoked b t
                (subst (λ o. Finds is_target_bucket (l.buckets t.garage) o) there found.0))
        ]
    where
      find_b : Action (World P) (Option ListBucketsItem)
      find_b = find_bucket_in_list P c (target_name bucket)
