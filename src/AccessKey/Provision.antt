-- ===== src/AccessKey/Provision.antt =====
-- A live GarageAccessKey: what a reconciliation that returns has made of its secret.
use garage_s3_operator.Base.{
  String, ◌≡◌, refl, inl, inr, true, Option, some, Option-cases, Bool-cases, ◌==◌, string_eq,
  Action, OnReturn, OnReturn-bind, OnReturn-any, OnReturn-mono, OnReturn-wrap_error, subst,
}
use garage_s3_operator.Api.{GarageAccessKey, NamespacedName, Secret, key_target_name}
use garage_s3_operator.Platform.{Platform, World, on_kube}
use garage_s3_operator.Platform.Lifting.{OnReturn-on_kube}
use garage_s3_operator.Platform.Laws.{ResourceLaws}
use garage_s3_operator.Garage.{GarageApi}
use garage_s3_operator.Garage.Laws.{View, ApiLaws}
use garage_s3_operator.AccessKey.SecretContent.{
  expected_secret_content, secret_format, secret_name, opaque,
}
use garage_s3_operator.AccessKey.Reconcile.{ensure_key, record_key_id, reconcile_secret, reconcile}
use garage_s3_operator.AccessKey.Credentials.{body, reconcile_secret-body}

-- The API server gives a patched key back with the metadata and the spec that it was sent.
abbrev pub KeyPatchKeeps : Platform → Type 0
KeyPatchKeeps P =
    (base changed : GarageAccessKey) (k : P.Kube)
    → OnReturn (λ a _. (a.meta ≡ changed.meta) × (a.spec ≡ changed.spec))
        (P.client.access_keys.patch_status base changed k)

module _ (P : Platform) (api : GarageApi (World P)) (v : View P.Garage) (laws : ApiLaws P api v)
    (stored : P.Kube → NamespacedName → Option Secret)
    (secret_laws : ResourceLaws P.client.secrets (λ s. s.meta) body stored)
    (keeps : KeyPatchKeeps P) where
  -- The key is in Garage, and its secret is in the API server with the key's id and secret.
  abbrev pub Delivered : GarageAccessKey → World P → Type 0
  Delivered key t =
      (id : String) × (s : Secret) × (v.key_at t.garage (key_target_name key) ≡ some id)
      × (stored t.kube (record { name = secret_name key; namespace = key.meta.namespace }) ≡ some s)
      × (body s
          ≡ (opaque, expected_secret_content (secret_format key) id (v.secret_of t.garage id)))

  record_key_id-keeps :
      (name : String) (key : GarageAccessKey) (w : World P)
      → OnReturn (λ a _. (a.meta ≡ key.meta) × (a.spec ≡ key.spec)) (record_key_id P api name key w)
  unfolding record_key_id
  record_key_id-keeps name key w = elim (Bool-cases (key.status.id == "")) [
    | inr known ↦ rw known (refl, refl)
    | inl fresh ↦ rw fresh (
        OnReturn-bind _ _ (api.get_key_by_id name true) _ w
          (OnReturn-any (api.get_key_by_id name true w))
          λ r t _. elim (Option-cases r.error) [
            | inr (e, failed) ↦ rw failed tt
            | inl fine ↦ elim (Option-cases r.value) [
              | inl absent ↦ rw (fine, absent) tt
              | inr (info, there) ↦
                  rw (fine, there)
                    (OnReturn-wrap_error _ _ (on_kube {P = P} (patch info.access_key_id)) t (
                      OnReturn-mono _ _ (on_kube {P = P} (patch info.access_key_id) t)
                        (OnReturn-on_kube P t _ (patch info.access_key_id) (
                          keeps key (record key { status = record { id = info.access_key_id } })
                            t.kube))
                        λ a u q. q.0))
            ]
          ])
  ]
    where
      patch : String → Action P.Kube GarageAccessKey
      patch id = P.client.access_keys.patch_status key (record key { status = record { id = id } })

  -- The status of the key has no part in it.
  Delivered-agree :
      (patched key : GarageAccessKey) (t : World P)
      → patched.meta ≡ key.meta
      → patched.spec ≡ key.spec
      → Delivered patched t
      → Delivered key t
  unfolding key_target_name secret_name secret_format
  Delivered-agree patched key t meta spec done =
      subst (λ s. Delivered (record patched { meta = key.meta; spec = s }) t) spec
        (subst (λ m. Delivered (record patched { meta = m }) t) meta done)

  -- If the reconciliation of a live GarageAccessKey returns, Garage has a key under its target name,
  -- and the API server has an opaque secret under the override name, or the key's name if there is
  -- none, whose content is that of the key's format for the key's id and secret in Garage; given
  -- `ApiLaws`, `ResourceLaws` for the secrets, and that a status patch is answered with the metadata
  -- and the spec that were sent.
  pub reconcile-Delivered :
      (key : GarageAccessKey) (w : World P)
      → OnReturn (λ _ t. Delivered key t) (reconcile P api key w)
  unfolding reconcile
  reconcile-Delivered key w =
      OnReturn-bind _ _ (ensure_key P api (key_target_name key)) _ w
        (OnReturn-any (ensure_key P api (key_target_name key) w))
        λ _ t _.
          OnReturn-bind _ _ (record_key_id P api (key_target_name key) key) _ t
            (record_key_id-keeps (key_target_name key) key t)
            λ patched u kept. OnReturn-wrap_error _ _ (reconcile_secret P api patched) u (
              OnReturn-mono _ _ (reconcile_secret P api patched u)
                (reconcile_secret-body P api v laws stored secret_laws patched u)
                λ _ x done. Delivered-agree patched key x kept.0 kept.1 done)
