-- ===== src/Permission/Deletion.antt =====
-- The finalizer of a GaragePermission under deletion goes only after the rights are gone.
use garage_s3_operator.Base.{
  String, ◌≡◌, refl, ◌∙◌, ◌⊎◌, inl, inr, Option, Option-cases, Bool-cases, arith, Action, returns,
  Always, Always-bind, Always-wrap_error, Guarded-bind, wrap_error,
}
use garage_s3_operator.Api.{
  GarageBucket, GarageAccessKey, GaragePermission, target_name, key_target_name,
}
use garage_s3_operator.Platform.{
  Platform, World, on_kube, Connection, ListKeysItem, ListBucketsItem,
}
use garage_s3_operator.Helper.{get_key}
use garage_s3_operator.Finalizer.{has_finalizer, without_finalizer}
use garage_s3_operator.Garage.{
  garage_manager, find_bucket_in_list, find_key_in_list, list_keys, deny_all_permissions,
}
use garage_s3_operator.Garage.Laws.{View}
use garage_s3_operator.Garage.Rights.{AccessorLaws}
use garage_s3_operator.Garage.Server.{ServerLaws}
use garage_s3_operator.Garage.Listing.{Lists, ListLaws}
use garage_s3_operator.Permission.Reconcile.{revoke_key, revoke, reconcile_deletion, finalize}
use garage_s3_operator.Permission.Revocation.{Revoked, revoke-Revoked}

module _ (P : Platform) (c : Connection) where
  find_bucket_in_list-kube :
      (name : String) (w : World P) → Always (λ t. t.kube ≡ w.kube) (find_bucket_in_list P c name w)
  unfolding find_bucket_in_list
  find_bucket_in_list-kube name w = ground arith

  find_key_in_list-kube :
      (name : String) (w : World P) → Always (λ t. t.kube ≡ w.kube) (find_key_in_list P c name w)
  unfolding find_key_in_list list_keys
  find_key_in_list-kube name w = ground arith

  revoke_key-kube :
      (key : GarageAccessKey) (b : ListBucketsItem) (w : World P)
      → Always (λ t. t.kube ≡ w.kube) (revoke_key P (garage_manager P c) key b w)
  unfolding revoke_key garage_manager deny_all_permissions
  revoke_key-kube key b w =
      Always-bind (λ t. t.kube ≡ w.kube) (wrap_error "unable to find key in Garage" find_k) _ w
        (Always-wrap_error (λ t. t.kube ≡ w.kube) "unable to find key in Garage" find_k w
          (find_key_in_list-kube (key_target_name key) w))
        λ ks t same. elim (Option-cases ks) [
          | inl absent ↦ rw absent same
          | inr (k, there) ↦ rw there (ground (arith, same))
        ]
    where
      find_k : Action (World P) (Option ListKeysItem)
      find_k = find_key_in_list P c (key_target_name key)

  revoke-kube :
      (bucket : GarageBucket) (key : GarageAccessKey) (w : World P)
      → Always (λ t. t.kube ≡ w.kube) (revoke P (garage_manager P c) bucket key w)
  unfolding revoke garage_manager
  revoke-kube bucket key w =
      Always-bind (λ t. t.kube ≡ w.kube) (wrap_error "unable to find bucket in Garage" find_b) _ w
        (Always-wrap_error (λ t. t.kube ≡ w.kube) "unable to find bucket in Garage" find_b w
          (find_bucket_in_list-kube (target_name bucket) w))
        λ bs t same. elim (Option-cases bs) [
          | inl absent ↦ rw absent same
          | inr (b, there) ↦ rw there (revoke_key-kube key b t ∙ same)
        ]
    where
      find_b : Action (World P) (Option ListBucketsItem)
      find_b = find_bucket_in_list P c (target_name bucket)

  module _ (v : View P.Garage) (l : Lists P.Garage) (server : ServerLaws P c v)
      (lists : ListLaws P c l) (accessor_laws : AccessorLaws P.accessors) where
    -- Whatever the outcome of a reconciliation of a GaragePermission under deletion whose
    -- GarageAccessKey is read, a panic included, either the state of Kubernetes is as it was, or
    -- Garage lists no bucket with the target alias, or no key of the target name, or the first such
    -- key has no right on the first such bucket; given `ServerLaws`, `ListLaws` and `AccessorLaws`.
    pub permission_finalize_guards :
        (bucket : GarageBucket) (perm : GaragePermission) (key : GarageAccessKey) (w : World P)
        → get_key P perm.spec.key_ref w ≡ (returns key, w)
        → Always
            (λ t.
              (t.kube ≡ w.kube) ⊎ Revoked P c v l server lists accessor_laws bucket key t.garage)
            (finalize P (garage_manager P c) perm bucket w)
    unfolding finalize reconcile_deletion
    permission_finalize_guards bucket perm key w read =
        elim (Bool-cases (has_finalizer P.util perm.meta)) [
          | inr free ↦ rw free (inl refl)
          | inl held ↦ rw held (
              Guarded-bind (λ t. t.kube ≡ w.kube)
                (λ t. Revoked P c v l server lists accessor_laws bucket key t.garage)
                (reconcile_deletion P (garage_manager P c) perm bucket) _ w
                (rw read (revoke-kube bucket key w))
                (rw read (revoke-Revoked P c v l server lists accessor_laws bucket key w))
                λ _ t gone.
                  Always-bind (λ t. Revoked P c v l server lists accessor_laws bucket key t.garage)
                    (on_kube {P = P} (
                      P.client.permissions.update
                        (record perm { meta = without_finalizer P.util perm.meta })))
                    _ t gone λ _ x same. same)
        ]
