-- ===== src/AccessKey/NoPanic.antt =====
-- No branch of the reconciliation of a GarageAccessKey dereferences a nil pointer.
use garage_s3_operator.Base.{
  String, ◌≡◌, ◌≢◌, true, false, none, Option, Outcome, panics, Action, Safely, Filled, Calmly,
  Calmly-pure, Calmly-fail, Calmly-deref, Calmly-bind, Calmly-bind_on, Calmly-wrap_error, Calmly-if,
  Calmly-option, Safely-unless, ◌==◌, string_eq, Bool, arith,
}
use garage_s3_operator.Api.{ObjectMeta, GarageAccessKey, key_target_name, retain, Secret}
use garage_s3_operator.Platform.{Platform, World, KeyInfo, OperationResult, Owner, of_key, on_kube}
use garage_s3_operator.Platform.Lifting.{Calmly-on_kube}
use garage_s3_operator.Garage.{GarageApi}
use garage_s3_operator.Http.{has_status, bad_request}
use garage_s3_operator.Finalizer.{has_finalizer, with_finalizer}
use garage_s3_operator.AccessKey.SecretContent.{new_secret, mutate_secret}
use garage_s3_operator.AccessKey.Reconcile.{
  ensure_key, record_key_id, reconcile_secret, reconcile, reconcile_deletion, finalize, keep,
}

module _ (P : Platform) (api : GarageApi (World P)) where
  -- No call panics, and a reply to `getKeyByID` without an error carries a value.
  pub record CalmKeyCalls : Type 0 where
    pub find_key_in_list : (n : String) → Calmly (api.find_key_in_list n)
    pub create_key : (n : String) → Calmly (api.create_key n)
    pub delete_key : (id : String) → Calmly (api.delete_key id)
    pub get_key_by_id :
        (n : String) (b : Bool) (w : World P)
        → Safely (λ r _. r.error ≡ none → Filled r.value) (api.get_key_by_id n b w)
    pub update : (k : GarageAccessKey) → Calmly (P.client.access_keys.update k)
    pub patch_status :
        (base changed : GarageAccessKey) → Calmly (P.client.access_keys.patch_status base changed)
    pub write_secret :
        (s : Secret) (f : Secret → Outcome Secret)
        → ((s : Secret) → f s ≢ panics)
        → Calmly (P.client.secrets.create_or_update s f)
    pub set_owner_reference : (o : Owner) (m : ObjectMeta) → P.util.set_owner_reference o m ≢ panics

  module _ (calls : CalmKeyCalls) where
    ensure_key-Calmly : (name : String) → Calmly (ensure_key P api name)
    unfolding ensure_key
    ensure_key-Calmly name = Calmly-bind (Calmly-wrap_error _ (calls.find_key_in_list name)) λ item.
        Calmly-option item
          (λ _.
            Calmly-bind (calls.create_key name)
              λ made. Calmly-option made.error (λ _. Calmly-pure) λ e. Calmly-fail)
          λ k. Calmly-pure

    record_key_id-Calmly :
        (name : String) (key : GarageAccessKey) → Calmly (record_key_id P api name key)
    unfolding record_key_id
    record_key_id-Calmly name key =
        Calmly-if (key.status.id == "")
          (Calmly-bind_on _ (api.get_key_by_id name true) (calls.get_key_by_id name true)
            λ found filled.
              Calmly-bind_on (λ _. found.error ≡ none) _ (Safely-unless found.error _)
                λ _ fine. Calmly-bind (Calmly-deref found.value (filled fine)) λ info.
                  Calmly-wrap_error _ (
                    Calmly-on_kube P
                      (P.client.access_keys.patch_status key
                        (record key { status = record { id = info.access_key_id } }))
                      (calls.patch_status key
                        (record key { status = record { id = info.access_key_id } }))))
          Calmly-pure

    mutate_secret_calm :
        (key : GarageAccessKey) (id secret_key : String) (s : Secret)
        → mutate_secret P.util key id secret_key s ≢ panics
    unfolding mutate_secret
    mutate_secret_calm key id secret_key s e =
        ground (arith, calls.set_owner_reference (of_key key) s.meta)

    reconcile_secret-Calmly : (key : GarageAccessKey) → Calmly (reconcile_secret P api key)
    unfolding reconcile_secret
    reconcile_secret-Calmly key =
        Calmly-bind_on _ (api.get_key_by_id (key_target_name key) true)
          (calls.get_key_by_id (key_target_name key) true)
          λ found _.
            Calmly-bind {A = Unit {0}}
              (Calmly-option found.error (λ _. Calmly-pure) λ e. Calmly-fail)
              λ _.
                Calmly-bind {m = on_kube {P = P} (call found.value)}
                  (Calmly-on_kube P (call found.value)
                    (calls.write_secret (new_secret key) _ (mutate_secret_calm key _ _)))
                  λ s. Calmly-pure
      where
        call : Option KeyInfo → Action P.Kube (Secret × OperationResult)
        call value = P.client.secrets.create_or_update (new_secret key) (
            mutate_secret P.util key (P.accessors.get_access_key_id value)
              (P.accessors.get_secret_access_key value))

    reconcile-Calmly : (key : GarageAccessKey) → Calmly (reconcile P api key)
    unfolding reconcile
    reconcile-Calmly key = Calmly-bind (ensure_key-Calmly _) λ _.
        Calmly-bind (record_key_id-Calmly _ key)
          λ patched. Calmly-wrap_error _ (reconcile_secret-Calmly patched)

    reconcile_deletion-Calmly : (key : GarageAccessKey) → Calmly (reconcile_deletion P api key)
    unfolding reconcile_deletion
    reconcile_deletion-Calmly key = Calmly-if (key.spec.reclaim_policy == retain) Calmly-pure (
        Calmly-bind_on _ (api.get_key_by_id (key_target_name key) false)
          (calls.get_key_by_id (key_target_name key) false)
          λ found filled.
            Calmly-option found.error
              (λ fine. Calmly-bind (Calmly-deref found.value (filled fine)) λ info.
                Calmly-bind (calls.delete_key info.access_key_id)
                  λ gone. Calmly-option gone.error (λ _. Calmly-pure) λ e. Calmly-fail)
              λ e. Calmly-if (has_status bad_request found.resp) Calmly-pure Calmly-fail)

    pub key_finalize-Calmly : (key : GarageAccessKey) → Calmly (finalize P api key)
    unfolding finalize
    key_finalize-Calmly key =
        Calmly-if (has_finalizer P.util key.meta)
          (Calmly-bind (reconcile_deletion-Calmly key)
            λ _. Calmly-bind (Calmly-on_kube P _ (calls.update _)) λ k. Calmly-pure)
          Calmly-pure

    pub key_keep-Calmly : (key : GarageAccessKey) → Calmly (keep P api key)
    unfolding keep
    key_keep-Calmly key =
        Calmly-bind
          (Calmly-if (has_finalizer P.util key.meta) Calmly-pure (
            Calmly-on_kube P _
              (calls.update (record key { meta = with_finalizer P.util key.meta }))))
          λ marked. reconcile-Calmly marked
