-- ===== src/AccessKey/Credentials.antt =====
-- The secret of a GarageAccessKey.
use garage_s3_operator.Base.{
  String, ◌≡◌, refl, sym, ap₂, ◌∙◌, inl, inr, true, Option, some, List, arith, Option-cases,
  string_eq, Action, Outcome, returns, OnReturn, OnReturn-bind,
}
use garage_s3_operator.Api.{NamespacedName, Secret, GarageAccessKey, key_target_name}
use garage_s3_operator.Platform.{Platform, World, on_kube, KeyInfo, Util, OperationResult}
use garage_s3_operator.Platform.Lifting.{OnReturn-on_kube}
use garage_s3_operator.Platform.Laws.{ResourceLaws}
use garage_s3_operator.Garage.{GarageApi}
use garage_s3_operator.Garage.Laws.{View, ApiLaws}
use garage_s3_operator.AccessKey.SecretContent.{
  expected_secret_content, secret_format, secret_name, new_secret, mutate_secret, opaque,
}
use garage_s3_operator.AccessKey.Reconcile.{reconcile_secret}

-- The content and the type that a secret must have.
abbrev pub body : Secret → String × List (String × String)
body s = (s.secret_type, s.content)

mutate_secret_lem :
    (u : Util) (key : GarageAccessKey) (id secret_key : String) (s sent : Secret)
    → mutate_secret u key id secret_key s ≡ returns sent
    → body sent ≡ (opaque, expected_secret_content (secret_format key) id secret_key)
unfolding mutate_secret
mutate_secret_lem u key id secret_key s sent h = ground arith

module _ (P : Platform) (api : GarageApi (World P)) (v : View P.Garage) (laws : ApiLaws P api v)
    (stored : P.Kube → NamespacedName → Option Secret)
    (secret_laws : ResourceLaws P.client.secrets (λ s. s.meta) body stored)
    (key : GarageAccessKey) where
  -- If `reconcileSecret` returns, the API server has a secret under the override name, or the key's
  -- name if there is none, in the key's namespace; it is opaque, and its content is that of the
  -- key's format for the id and the secret that Garage has under the key's target name; given
  -- `ApiLaws`, and `ResourceLaws` for the secrets.
  pub reconcile_secret-body :
      (w : World P)
      → OnReturn
          (λ _ t.
            (id : String) × (s : Secret) × (v.key_at t.garage (key_target_name key) ≡ some id)
            × (stored t.kube (record { name = secret_name key; namespace = key.meta.namespace })
                ≡ some s)
            × (body s ≡ (
              opaque,
              expected_secret_content (secret_format key) id (v.secret_of t.garage id),
            )))
          (reconcile_secret P api key w)
  unfolding reconcile_secret
  reconcile_secret-body w =
      OnReturn-bind _ _ (api.get_key_by_id (key_target_name key) true) _ w
        (laws.get_key_lem (key_target_name key) true w)
        λ r t got. elim (Option-cases r.error) [
          | inr (e, failed) ↦ rw failed tt
          | inl fine ↦
              let (info, value, id, there, _) = got.0.found fine in
              rw fine (
                OnReturn-bind _ _ (on_kube {P = P} (call r.value)) _ t
                  (OnReturn-on_kube P t _ (call r.value)
                    (secret_laws.create_or_update_lem (new_secret key) (callback r.value) t.kube))
                  λ p u x.
                    let sent =
                      mutate_secret_lem P.util key (P.accessors.get_access_key_id r.value)
                        (P.accessors.get_secret_access_key r.value) x.0.base x.0.sent x.0.mutated in
                    let shown = got.0.secret_shown fine refl ∙ ap₂ v.secret_of (sym x.1) id in
                    (
                      info.access_key_id,
                      p.0,
                      rw x.1 there,
                      x.0.there,
                      x.0.keeps_content ∙ (sent ∙ ap₂ expected id shown),
                    ))
        ]
    where
      expected : String → String → String × List (String × String)
      expected id secret_key = (opaque, expected_secret_content (secret_format key) id secret_key)

      callback : Option KeyInfo → Secret → Outcome Secret
      callback value =
          mutate_secret P.util key (P.accessors.get_access_key_id value)
            (P.accessors.get_secret_access_key value)

      call : Option KeyInfo → Action P.Kube (Secret × OperationResult)
      call value = P.client.secrets.create_or_update (new_secret key) (callback value)
