-- ===== src/AccessKey/Release.antt =====
-- When the deletion of a GarageAccessKey comes to its end.
use mathlib.Core.Option.{none-ne-some}
use garage_s3_operator.Base.{
  String, ◌≡◌, ◌≢◌, sym, ◌∙◌, ◌⊎◌, inl, inr, true, false, none, some, Option-cases, ==-of_ne,
  string_eq, Yields, Yields-bind, Yields-with,
}
use garage_s3_operator.Api.{GarageAccessKey, key_target_name, retain}
use garage_s3_operator.Platform.{Platform, World, KeyInfo}
use garage_s3_operator.Platform.Lifting.{Yields-before_update}
use garage_s3_operator.Garage.{GarageApi}
use garage_s3_operator.Garage.Laws.{View, ApiLaws, LeavesKube}
use garage_s3_operator.Http.{has_status, bad_request}
use garage_s3_operator.Finalizer.{has_finalizer, without_finalizer}
use garage_s3_operator.AccessKey.Reconcile.{reconcile_deletion, finalize}
use garage_s3_operator.AccessKey.Deletion.{reconcile_deletion-gone, reconcile_deletion-kube}

module _ (P : Platform) (api : GarageApi (World P)) (v : View P.Garage) where
  -- `getKeyByID` is answered, with a key or with "bad request", and a key that is there can be
  -- deleted.
  pub record DeletesKey (name : String) : Type 0 where
    pub get_key :
        (w : World P)
        → Yields
            (λ r _. (r.error ≡ none) ⊎ (has_status bad_request r.resp ≡ true))
            (api.get_key_by_id name false w)
    pub delete_key :
        (w : World P) (info : KeyInfo)
        → v.key_at w.garage name ≡ some info.access_key_id
        → Yields (λ r _. r.error ≡ none) (api.delete_key info.access_key_id w)

  module _ (laws : ApiLaws P api v) (frame : LeavesKube P api) (key : GarageAccessKey)
      (answers : DeletesKey (key_target_name key)) (w : World P)
      (deletes : key.spec.reclaim_policy ≢ retain) where
    reconcile_deletion-Yields : Yields (λ _ _. Unit {0}) (reconcile_deletion P api key w)
    unfolding reconcile_deletion
    reconcile_deletion-Yields = rw (==-of_ne key.spec.reclaim_policy retain deletes) (
        Yields-bind _ _ (api.get_key_by_id name false) _ w
          (Yields-with _ _ (api.get_key_by_id name false w) (answers.get_key w)
            (laws.get_key_lem name false w))
          λ r t (answer, got). elim (Option-cases r.error) [
            | inl fine ↦
                let (info, value, _, there, _) = got.0.found fine in
                rw (fine, value)
                  (Yields-bind _ _ (api.delete_key info.access_key_id) _ t
                    (answers.delete_key t info there) λ ack u gone. rw gone tt)
            | inr (e, failed) ↦ elim answer [
              | inl fine ↦ absurd (none-ne-some e (sym fine ∙ failed))
              | inr missing ↦ rw (failed, missing) tt
            ]
          ])
      where
        name : String
        name = key_target_name key

    abbrev released : GarageAccessKey
    released = record key { meta = without_finalizer P.util key.meta }

    -- A GarageAccessKey under deletion that holds the finalizer and whose policy is not Retain: if
    -- `getKeyByID` is answered, a key that is there can be deleted, and the API server takes the
    -- update of the object, the reconciliation returns, Garage has no key under the target name,
    -- and the API server is as the update without the finalizer leaves it. Given `ApiLaws`, and that
    -- requests to Garage leave Kubernetes.
    pub key_finalize-Yields :
        has_finalizer P.util key.meta ≡ true
        → Yields (λ _ _. Unit {0}) (P.client.access_keys.update released w.kube)
        → Yields
            (λ _ t.
              (v.key_at t.garage (key_target_name key) ≡ none)
              × (t.kube ≡ (P.client.access_keys.update released w.kube).1))
            (finalize P api key w)
    unfolding finalize
    key_finalize-Yields held takes = rw held (
        Yields-before_update P (λ g. v.key_at g (key_target_name key) ≡ none)
          (reconcile_deletion P api key) (P.client.access_keys.update released) w
          reconcile_deletion-Yields (reconcile_deletion-gone P api v laws frame key w deletes)
          (reconcile_deletion-kube P api v laws frame key w) takes)
