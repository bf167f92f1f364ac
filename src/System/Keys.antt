-- ===== src/System/Keys.antt =====
-- What the reconciliations of keys do to the GarageBucket objects and to the buckets of Garage.
use garage_s3_operator.Base.{
  String, false, none, Action, Preorder, Keeps, Keeps-pure, Keeps-fail, Keeps-deref, Keeps-handle,
  Keeps-bind, Keeps-bind_on, Keeps-wrap_error, Keeps-if, Keeps-option, ◌==◌, string_eq,
}
use garage_s3_operator.Api.{NamespacedName, GarageAccessKey, key_target_name, retain}
use garage_s3_operator.Platform.{Platform, World}
use garage_s3_operator.Garage.{GarageApi}
use garage_s3_operator.Http.{has_status, bad_request}
use garage_s3_operator.Finalizer.{is_deleting, has_finalizer, with_finalizer, without_finalizer}
use garage_s3_operator.AccessKey as KeyController
use garage_s3_operator.AccessKey.Calls.{reconcile-Keeps}
use garage_s3_operator.System.Laws.{Objects, ServerObjects}
use garage_s3_operator.System.Frames.{Mild, Mild-on_kube, get_cluster-Mild}
use garage_s3_operator.System.Manager.{
  MildApi, GarageKeeps, default_factory-Mild, default_factory-MildApi,
}

module _ (P : Platform) (stored : Objects P.Kube) (R : Preorder P.Garage) (makes : String → Type 0)
    (kube : ServerObjects P stored) where
  abbrev Gentle : {A : Type 0} → Action (World P) A → Type 0
  Gentle m = Keeps (Mild P stored R) m

  module _ (api : GarageApi (World P)) (mild : MildApi P stored R makes api) where
    key_reconcile-Gentle : (key : GarageAccessKey) → Gentle (KeyController.reconcile P api key)
    key_reconcile-Gentle = reconcile-Keeps P (Mild P stored R) api (record {
      find_key_in_list = mild.find_key_in_list;
      create_key = mild.create_key;
      get_key_by_id = mild.get_key_by_id;
      patch_status = λ base changed.
          Mild-on_kube P stored R (P.client.access_keys.patch_status base changed)
            (kube.access_keys.patch_status base changed);
      write_secret = λ s f.
          Mild-on_kube P stored R (P.client.secrets.create_or_update s f)
            (kube.secrets.create_or_update s f);
    })

    key_deletion-Gentle :
        (key : GarageAccessKey) → Gentle (KeyController.reconcile_deletion P api key)
    unfolding KeyController.reconcile_deletion
    key_deletion-Gentle key = Keeps-if (key.spec.reclaim_policy == retain) Keeps-pure (
        Keeps-bind (mild.get_key_by_id (key_target_name key) false) λ found.
          Keeps-option found.error
            (Keeps-bind (Keeps-deref found.value) λ info.
              Keeps-bind (mild.delete_key info.access_key_id)
                λ gone. Keeps-option gone.error Keeps-pure λ e. Keeps-fail)
            λ e. Keeps-if (has_status bad_request found.resp) Keeps-pure Keeps-fail)

    key_finalize-Gentle : (key : GarageAccessKey) → Gentle (KeyController.finalize P api key)
    unfolding KeyController.finalize
    key_finalize-Gentle key =
        Keeps-if (has_finalizer P.util key.meta)
          (Keeps-bind (key_deletion-Gentle key) λ _.
            Keeps-bind
              (Mild-on_kube P stored R
                (P.client.access_keys.update
                  (record key { meta = without_finalizer P.util key.meta }))
                (kube.access_keys.update (record key { meta = without_finalizer P.util key.meta })))
              λ k. Keeps-pure)
          Keeps-pure

    key_keep-Gentle : (key : GarageAccessKey) → Gentle (KeyController.keep P api key)
    unfolding KeyController.keep
    key_keep-Gentle key =
        Keeps-bind
          (Keeps-if (has_finalizer P.util key.meta) Keeps-pure (
            Mild-on_kube P stored R _
              (kube.access_keys.update (record key { meta = with_finalizer P.util key.meta }))))
          λ marked. key_reconcile-Gentle marked

  module _ (garage : GarageKeeps P stored R makes) where
    dispatch-Gentle : (key : GarageAccessKey) → Gentle (KeyController.dispatch P none key)
    unfolding KeyController.dispatch
    dispatch-Gentle key =
        Keeps-bind (Keeps-wrap_error _ (get_cluster-Mild P stored R kube key.spec.cluster_ref))
          λ cluster.
            Keeps-bind_on (MildApi P stored R makes)
              (default_factory-Mild P stored R makes garage kube cluster)
              (default_factory-MildApi P stored R makes garage cluster)
              λ api mild.
                Keeps-if (is_deleting P.util key.meta) (key_finalize-Gentle api mild key)
                  (key_keep-Gentle api mild key)

    -- A reconciliation of a GarageAccessKey by the default factory, whatever its outcome, leaves the
    -- GarageBucket objects as they were, and brings Garage only where its requests lead.
    pub key_request-Gentle :
        (request : NamespacedName) → Gentle (KeyController.reconcile_request P none request)
    unfolding KeyController.reconcile_request
    key_request-Gentle request =
        Keeps-handle
          (Mild-on_kube P stored R (P.client.access_keys.get request)
            (kube.access_keys.get request))
          dispatch-Gentle λ e. Keeps-if (P.util.is_not_found e) Keeps-pure Keeps-fail
