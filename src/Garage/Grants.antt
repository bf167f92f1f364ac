-- ===== src/Garage/Grants.antt =====
-- The rights after `setPermissions` and after `denyAllPermissions`.
use garage_s3_operator.Base.{
  String, ◌≡◌, refl, sym, ◌∙◌, ap, ap₂, none, inl, inr, arith, Option-cases, OnReturn,
  OnReturn-bind,
}
use garage_s3_operator.Api.{Permissions, all_permissions}
use garage_s3_operator.Platform.{Platform, World, on_garage, Connection, PermChange, Reply}
use garage_s3_operator.Platform.Lifting.{OnReturn-on_garage}
use garage_s3_operator.Garage.Laws.{View, SameNames, rights}
use garage_s3_operator.Garage.Rights.{
  AccessorLaws, complement, split_permissions-rights, every_perm-rights,
}
use garage_s3_operator.Garage.Server.{ServerLaws, allowed, denied, no_permissions}
use garage_s3_operator.Garage.Manager.{
  split_permissions, every_perm, set_permissions, deny_all_permissions, perm_change, nil_on_error,
}

pub nil_on_error-error : {A : Type 0} (nil : A) (r : Reply A) → (nil_on_error nil r).error ≡ r.error
nil_on_error-error nil r = elim (Option-cases r.error) [
  | inl fine ↦ rw fine refl
  | inr (e, failed) ↦ rw failed refl
]

-- Allowing what is wanted and denying the rest leaves what is wanted, whatever was there.
denied-allowed : (p old : Permissions) → denied (complement p) (allowed p old) ≡ p
denied-allowed p old = ground arith

denied-every : (old : Permissions) → denied all_permissions old ≡ no_permissions
denied-every old = ground arith

module _ (P : Platform) (c : Connection) (v : View P.Garage) (server : ServerLaws P c v)
    (accessor_laws : AccessorLaws P.accessors) (key_id bucket_id : String) where
  -- If `setPermissions` returns with no error, the key has exactly the rights `p` on the bucket,
  -- whatever rights it had before; with an error or without, the same buckets and keys are there;
  -- given `ServerLaws` and `AccessorLaws`.
  pub set_permissions-grants :
      (p : Permissions) (w : World P)
      → OnReturn
          (λ r t.
            (r.error ≡ none → v.grants t.garage key_id bucket_id ≡ p)
            × SameNames v w.garage t.garage)
          (set_permissions P c key_id bucket_id p w)
  unfolding set_permissions
  set_permissions-grants p w =
      OnReturn-bind _ _ (on_garage {P = P} (P.sdk.allow_bucket_key c allow)) _ w
        (OnReturn-on_garage P w _ (P.sdk.allow_bucket_key c allow)
          (server.allow_lem allow w.garage))
        λ r t granted. elim (Option-cases r.error) [
          | inr (e, failed) ↦ rw failed ((λ h. cc), granted.0.1)
          | inl fine ↦ rw fine (
              OnReturn-bind _ _ (on_garage {P = P} (P.sdk.deny_bucket_key c deny)) _ t
                (OnReturn-on_garage P t _ (P.sdk.deny_bucket_key c deny)
                  (server.deny_lem deny t.garage))
                λ s u taken. (
                  λ done.
                      taken.0.0 (sym (nil_on_error-error none s) ∙ done)
                      ∙ (ap₂ denied sorted.1 (granted.0.0 fine ∙ ap (λ q. allowed q old) sorted.0)
                          ∙ denied-allowed p old),
                  (λ n. taken.0.1.0 n ∙ granted.0.1.0 n, λ n. taken.0.1.1 n ∙ granted.0.1.1 n),
                ))
        ]
    where
      old : Permissions
      old = v.grants w.garage key_id bucket_id

      sorted :
          (rights P.accessors (split_permissions P.accessors p).0 ≡ p)
          × (rights P.accessors (split_permissions P.accessors p).1 ≡ complement p)
      sorted = split_permissions-rights P.accessors accessor_laws p

      allow : PermChange
      allow = perm_change P c key_id bucket_id (split_permissions P.accessors p).0

      deny : PermChange
      deny = perm_change P c key_id bucket_id (split_permissions P.accessors p).1

  -- If `denyAllPermissions` returns with no error, the key has no right on the bucket; given
  -- `ServerLaws` and `AccessorLaws`.
  pub deny_all_permissions-grants :
      (w : World P)
      → OnReturn
          (λ r t. r.error ≡ none → v.grants t.garage key_id bucket_id ≡ no_permissions)
          (deny_all_permissions P c key_id bucket_id w)
  unfolding deny_all_permissions
  deny_all_permissions-grants w =
      OnReturn-bind _ _ (on_garage {P = P} (P.sdk.deny_bucket_key c request)) _ w
        (OnReturn-on_garage P w _ (P.sdk.deny_bucket_key c request)
          (server.deny_lem request w.garage))
        λ r t taken fine.
          taken.0.0 fine
          ∙ (ap (λ q. denied q (v.grants w.garage key_id bucket_id))
                (every_perm-rights P.accessors accessor_laws)
              ∙ denied-every _)
    where
      request : PermChange
      request = perm_change P c key_id bucket_id (every_perm P.accessors)
