-- ===== src/Requests/Keys.antt =====
-- The requests of the reconciliation of a GarageAccessKey.
use garage_s3_operator.Base.{
  String, true, false, none, Option, Action, ◌==◌, string_eq, Costs-pure, Costs-fail, Costs-deref,
  Costs-handle, Costs-bind, Costs-bind_on, Costs-wrap_error, Costs-if, Costs-option, Costs-weaken,
  arith,
}
use garage_s3_operator.Api.{NamespacedName, GarageAccessKey, key_target_name, retain, Secret}
use garage_s3_operator.Platform.{Platform, World, KeyInfo, OperationResult, on_kube}
use garage_s3_operator.Garage.{GarageApi}
use garage_s3_operator.Http.{has_status, bad_request}
use garage_s3_operator.Finalizer.{is_deleting, has_finalizer, with_finalizer, without_finalizer}
use garage_s3_operator.AccessKey.{
  ensure_key, record_key_id, reconcile_secret, new_secret, mutate_secret, reconcile,
  reconcile_deletion, finalize, keep, dispatch, reconcile_request,
}
use garage_s3_operator.Requests.Metered.{metered, Spends, Spends-on_kube}
use garage_s3_operator.Requests.Manager.{
  Metes, get_cluster-Spends, default_factory-Metes, default_factory-Spends,
}

module _ (P : Platform) where
  module _ (api : GarageApi (World (metered P))) (metes : Metes P api) where
    ensure_key-Spends : (name : String) → Spends P 2 (ensure_key (metered P) api name)
    unfolding ensure_key
    ensure_key-Spends name =
        Costs-bind 1 1 (Costs-wrap_error _ (metes.find_key_in_list name)) λ item.
          Costs-option item
            (Costs-bind 1 0 (metes.create_key name)
              λ made. Costs-option made.error Costs-pure λ e. Costs-fail)
            λ k. Costs-pure

    record_key_id-Spends :
        (name : String) (key : GarageAccessKey)
        → Spends P 1 (record_key_id (metered P) api name key)
    unfolding record_key_id
    record_key_id-Spends name key =
        Costs-if (key.status.id == "")
          (Costs-bind 1 0 (metes.get_key_by_id name true) λ found.
            Costs-bind 0 0 {A = Unit {0}} (Costs-option found.error Costs-pure λ e. Costs-fail) λ _.
              Costs-bind 0 0 (Costs-deref found.value) λ info. Costs-wrap_error _ (
                Spends-on_kube P (
                  P.client.access_keys.patch_status key
                    (record key { status = record { id = info.access_key_id } }))))
          Costs-pure

    reconcile_secret-Spends :
        (key : GarageAccessKey) → Spends P 1 (reconcile_secret (metered P) api key)
    unfolding reconcile_secret
    reconcile_secret-Spends key =
        Costs-bind 1 0 (metes.get_key_by_id (key_target_name key) true) λ found.
          Costs-bind 0 0 {A = Unit {0}} (Costs-option found.error Costs-pure λ e. Costs-fail) λ _.
            Costs-bind 0 0 {m = on_kube {P = metered P} (call found.value)}
              (Spends-on_kube P (call found.value)) λ s. Costs-pure
      where
        call : Option KeyInfo → Action P.Kube (Secret × OperationResult)
        call value = P.client.secrets.create_or_update (new_secret key) (
            mutate_secret P.util key (P.accessors.get_access_key_id value)
              (P.accessors.get_secret_access_key value))

    reconcile-Spends : (key : GarageAccessKey) → Spends P 4 (reconcile (metered P) api key)
    unfolding reconcile
    reconcile-Spends key = Costs-bind 2 2 (ensure_key-Spends _) λ _.
        Costs-bind 1 1 (record_key_id-Spends _ key)
          λ patched. Costs-wrap_error _ (reconcile_secret-Spends patched)

    reconcile_deletion-Spends :
        (key : GarageAccessKey) → Spends P 2 (reconcile_deletion (metered P) api key)
    unfolding reconcile_deletion
    reconcile_deletion-Spends key = Costs-if (key.spec.reclaim_policy == retain) Costs-pure (
        Costs-bind 1 1 (metes.get_key_by_id (key_target_name key) false) λ found.
          Costs-option found.error
            (Costs-bind 0 1 (Costs-deref found.value) λ info.
              Costs-bind 1 0 (metes.delete_key info.access_key_id)
                λ gone. Costs-option gone.error Costs-pure λ e. Costs-fail)
            λ e. Costs-if (has_status bad_request found.resp) Costs-pure Costs-fail)

    finalize-Spends : (key : GarageAccessKey) → Spends P 2 (finalize (metered P) api key)
    unfolding finalize
    finalize-Spends key =
        Costs-if (has_finalizer P.util key.meta)
          (Costs-bind 2 0 (reconcile_deletion-Spends key) λ _.
            Costs-bind 0 0
              (Spends-on_kube P (
                P.client.access_keys.update
                  (record key { meta = without_finalizer P.util key.meta })))
              λ k. Costs-pure)
          Costs-pure

    keep-Spends : (key : GarageAccessKey) → Spends P 4 (keep (metered P) api key)
    unfolding keep
    keep-Spends key =
        Costs-bind 0 4
          (Costs-if (has_finalizer P.util key.meta) Costs-pure (
            Spends-on_kube P
              (P.client.access_keys.update (record key { meta = with_finalizer P.util key.meta }))))
          λ marked. reconcile-Spends marked

  dispatch-Spends : (key : GarageAccessKey) → Spends P 4 (dispatch (metered P) none key)
  unfolding dispatch
  dispatch-Spends key =
      Costs-bind 0 4 (Costs-wrap_error _ (get_cluster-Spends P key.spec.cluster_ref)) λ cluster.
        Costs-bind_on 0 4 (Metes P) (default_factory-Spends P cluster)
          (default_factory-Metes P cluster)
          λ api metes.
            Costs-if (is_deleting P.util key.meta)
              (Costs-weaken 2 4 (omega arith) (finalize-Spends api metes key))
              (keep-Spends api metes key)

  pub key_request-Spends :
      (request : NamespacedName) → Spends P 4 (reconcile_request (metered P) none request)
  unfolding reconcile_request
  key_request-Spends request =
      Costs-handle 0 4 (Spends-on_kube P (P.client.access_keys.get request)) dispatch-Spends
        λ e. Costs-if (P.util.is_not_found e) Costs-pure Costs-fail
