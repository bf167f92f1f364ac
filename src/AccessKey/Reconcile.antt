-- ===== src/AccessKey/Reconcile.antt =====
-- `Reconcile`, `reconcile`, `reconcileSecret` and `reconcileDeletion` of the key controller.
use garage_s3_operator.Base.{
  String, ◌<>◌, true, false, Option, none, some, ◌==◌, string_eq, nat_eq, if◌then◌else◌, Action,
  wrapped, pure, fail, deref, handle, ◌>>=◌, ◌>>◌, wrap_error,
}
use garage_s3_operator.Api.{NamespacedName, GarageAccessKey, key_target_name, retain}
use garage_s3_operator.Platform.{Platform, World, on_kube, Response}
use garage_s3_operator.Helper.{get_cluster}
use garage_s3_operator.Garage.{GarageApi, GarageManagerFactory, choose_factory}
use garage_s3_operator.Finalizer.{is_deleting, has_finalizer, with_finalizer, without_finalizer}
use garage_s3_operator.Http.{has_status, bad_request}
use garage_s3_operator.AccessKey.SecretContent.{new_secret, mutate_secret}

-- The text of an error from `deleteKey`, with the status of the response if there is one.
abbrev pub delete_error : Option Response → String
delete_error none = "unable to delete target key"
delete_error (some r) = "unable to delete target key " <> r.status

module _ (P : Platform) (api : GarageApi (World P)) where
  open P use {client, util, accessors}

  -- A key is created if the list has none of the target name.
  unfoldable pub ensure_key : String → Action (World P) (Unit {0})
  ensure_key name = do
    item ← wrap_error "unable to find key in Garage" (api.find_key_in_list name)
    elim item [
      | some _ ↦ pure tt
      | none ↦ do
        made ← api.create_key name
        elim made.error [
          | none ↦ pure tt
          | some e ↦ fail (wrapped "unable to create/update target key" e)
        ]
    ]

  -- The key's status gets the id once; the object is then as the server answered it.
  unfoldable pub record_key_id : String → GarageAccessKey → Action (World P) GarageAccessKey
  record_key_id name key =
      if key.status.id == ""
      then (do
        found ← api.get_key_by_id name true
        elim found.error [
          | none ↦ pure tt
          | some e ↦ fail (wrapped "unable to get target key info" e)
        ]
        info ← deref found.value
        wrap_error "unable to patch GarageKey status" (
            on_kube {P = P} (
              client.access_keys.patch_status key
                (record key { status = record { id = info.access_key_id } }))))
      else pure key

  unfoldable pub reconcile_secret : GarageAccessKey → Action (World P) (Unit {0})
  unfolding new_secret mutate_secret
  reconcile_secret key = do
    found ← api.get_key_by_id (key_target_name key) true
    elim found.error [ none ↦ pure tt | some e ↦ fail (wrapped "unable to get target key info" e) ]
    let id = accessors.get_access_key_id found.value
    let secret_key = accessors.get_secret_access_key found.value
    (secret, op) ←
        on_kube {P = P}
          (client.secrets.create_or_update (new_secret key) (mutate_secret util key id secret_key))
    pure tt

  unfoldable pub reconcile : GarageAccessKey → Action (World P) (Unit {0})
  reconcile key = do
    ensure_key (key_target_name key)
    patched ← record_key_id (key_target_name key) key
    wrap_error "unable to reconcile access key Secret" (reconcile_secret patched)

  unfoldable pub reconcile_deletion : GarageAccessKey → Action (World P) (Unit {0})
  reconcile_deletion key = if key.spec.reclaim_policy == retain then pure tt else (do
    found ← api.get_key_by_id (key_target_name key) false
    elim found.error [
      | some e ↦
          if has_status bad_request found.resp
          then pure tt
          else fail (wrapped "unable to get target key info" e)
      | none ↦ do
        info ← deref found.value
        gone ← api.delete_key info.access_key_id
        elim gone.error [ none ↦ pure tt | some e ↦ fail (wrapped (delete_error gone.resp) e) ]
    ])

  -- The part of `Reconcile` for an object that is being deleted.
  unfoldable pub finalize : GarageAccessKey → Action (World P) (Unit {0})
  finalize key =
      if has_finalizer util key.meta
      then (do
        reconcile_deletion key
        on_kube {P = P}
            (client.access_keys.update (record key { meta = without_finalizer util key.meta }))
        pure tt)
      else pure tt

  -- The part of `Reconcile` for a live object.
  unfoldable pub keep : GarageAccessKey → Action (World P) (Unit {0})
  keep key = do
    marked ←
        if has_finalizer util key.meta
        then pure key
        else on_kube {P = P}
            (client.access_keys.update (record key { meta = with_finalizer util key.meta }))
    reconcile marked

module _ (P : Platform) where
  open P use {client, util}

  unfoldable pub dispatch :
      Option (GarageManagerFactory P) → GarageAccessKey → Action (World P) (Unit {0})
  dispatch factory key = do
    cluster ← wrap_error "unable to fetch GarageCluster" (get_cluster P key.spec.cluster_ref)
    api ← choose_factory P factory cluster
    if is_deleting util key.meta then finalize P api key else keep P api key

  -- `Reconcile`
  unfoldable pub reconcile_request :
      Option (GarageManagerFactory P) → NamespacedName → Action (World P) (Unit {0})
  reconcile_request factory request =
      handle (on_kube {P = P} (client.access_keys.get request)) (dispatch factory)
        (λ e. if util.is_not_found e then pure tt else fail e)
