-- ===== src/AccessKey/Calls.antt =====
-- What a live reconciliation of a GarageAccessKey keeps, from the calls that it makes.
use garage_s3_operator.Base.{
  String, true, Option, Action, Preorder, Keeps, Keeps-pure, Keeps-fail, Keeps-deref, Keeps-bind,
  Keeps-wrap_error, Keeps-if, Keeps-option, ◌==◌, string_eq, Bool, Outcome,
}
use garage_s3_operator.Api.{GarageAccessKey, key_target_name, Secret}
use garage_s3_operator.Platform.{Platform, World, KeyInfo, OperationResult, on_kube}
use garage_s3_operator.Garage.{GarageApi}
use garage_s3_operator.AccessKey.SecretContent.{new_secret, mutate_secret}
use garage_s3_operator.AccessKey.Reconcile.{ensure_key, record_key_id, reconcile_secret, reconcile}

module _ (P : Platform) (R : Preorder (World P)) (api : GarageApi (World P)) where
  pub record LiveCalls : Type 0 where
    pub find_key_in_list : (n : String) → Keeps R (api.find_key_in_list n)
    pub create_key : (n : String) → Keeps R (api.create_key n)
    pub get_key_by_id : (n : String) (b : Bool) → Keeps R (api.get_key_by_id n b)
    pub patch_status :
        (base changed : GarageAccessKey)
        → Keeps R (on_kube {P = P} (P.client.access_keys.patch_status base changed))
    pub write_secret :
        (s : Secret) (f : Secret → Outcome Secret)
        → Keeps R (on_kube {P = P} (P.client.secrets.create_or_update s f))

  module _ (calls : LiveCalls) where
    ensure_key-Keeps : (name : String) → Keeps R (ensure_key P api name)
    unfolding ensure_key
    ensure_key-Keeps name = Keeps-bind (Keeps-wrap_error _ (calls.find_key_in_list name)) λ item.
        Keeps-option item
          (Keeps-bind (calls.create_key name)
            λ made. Keeps-option made.error Keeps-pure λ e. Keeps-fail)
          λ k. Keeps-pure

    record_key_id-Keeps :
        (name : String) (key : GarageAccessKey) → Keeps R (record_key_id P api name key)
    unfolding record_key_id
    record_key_id-Keeps name key =
        Keeps-if (key.status.id == "")
          (Keeps-bind (calls.get_key_by_id name true) λ found.
            Keeps-bind {A = Unit {0}} (Keeps-option found.error Keeps-pure λ e. Keeps-fail) λ _.
              Keeps-bind (Keeps-deref found.value) λ info. Keeps-wrap_error _ (
                calls.patch_status key
                  (record key { status = record { id = info.access_key_id } })))
          Keeps-pure

    reconcile_secret-Keeps : (key : GarageAccessKey) → Keeps R (reconcile_secret P api key)
    unfolding reconcile_secret
    reconcile_secret-Keeps key =
        Keeps-bind (calls.get_key_by_id (key_target_name key) true) λ found.
          Keeps-bind {A = Unit {0}} (Keeps-option found.error Keeps-pure λ e. Keeps-fail) λ _.
            Keeps-bind {m = on_kube {P = P} (call found.value)}
              (calls.write_secret (new_secret key) _) λ s. Keeps-pure
      where
        call : Option KeyInfo → Action P.Kube (Secret × OperationResult)
        call value = P.client.secrets.create_or_update (new_secret key) (
            mutate_secret P.util key (P.accessors.get_access_key_id value)
              (P.accessors.get_secret_access_key value))

    pub reconcile-Keeps : (key : GarageAccessKey) → Keeps R (reconcile P api key)
    unfolding reconcile
    reconcile-Keeps key = Keeps-bind (ensure_key-Keeps _) λ _.
        Keeps-bind (record_key_id-Keeps _ key)
          λ patched. Keeps-wrap_error _ (reconcile_secret-Keeps patched)
