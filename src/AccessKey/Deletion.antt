-- ===== src/AccessKey/Deletion.antt =====
-- The deletion of a GarageAccessKey: the finalizer goes only after the target key is gone.
use garage_s3_operator.Base.{
  ◌≡◌, ◌≢◌, refl, ◌⊎◌, inl, inr, true, false, none, arith, Option-cases, Bool-cases, ==-of_ne, ◌==◌,
  string_eq, OnReturn, Always, OnReturn-bind, Always-bind, Guarded-bind,
}
use garage_s3_operator.Api.{GarageAccessKey, key_target_name, retain}
use garage_s3_operator.Platform.{Platform, World}
use garage_s3_operator.Garage.{GarageApi}
use garage_s3_operator.Garage.Laws.{View, ApiLaws, LeavesKube}
use garage_s3_operator.Finalizer.{has_finalizer}
use garage_s3_operator.AccessKey.Reconcile.{reconcile_deletion, finalize}

module _ (P : Platform) (api : GarageApi (World P)) (v : View P.Garage) (laws : ApiLaws P api v)
    (frame : LeavesKube P api) (key : GarageAccessKey) where
  pub reconcile_deletion-gone :
      (w : World P)
      → key.spec.reclaim_policy ≢ retain
      → OnReturn
          (λ _ t. v.key_at t.garage (key_target_name key) ≡ none)
          (reconcile_deletion P api key w)
  unfolding reconcile_deletion
  reconcile_deletion-gone w deletes = rw (==-of_ne key.spec.reclaim_policy retain deletes) (
      OnReturn-bind _ _ (api.get_key_by_id (key_target_name key) false) _ w
        (laws.get_key_lem (key_target_name key) false w)
        λ r t got. elim (Option-cases r.error) [
          | inl fine ↦
              let (info, value, _, there, _) = got.0.found fine in
              rw (fine, value)
                (OnReturn-bind _ _ (api.delete_key info.access_key_id) _ t
                  (laws.delete_key_lem (key_target_name key) info t there)
                  λ ack u gone. ground (arith, gone))
          | inr (e, failed) ↦ rw failed (ground (arith, got.0.unmatched e failed))
        ])

  pub reconcile_deletion-kube :
      (w : World P) → Always (λ t. t.kube ≡ w.kube) (reconcile_deletion P api key w)
  unfolding reconcile_deletion
  reconcile_deletion-kube w = elim (Bool-cases (key.spec.reclaim_policy == retain)) [
    | inl kept ↦ rw kept refl
    | inr deletes ↦ rw deletes (
        Always-bind (λ t. t.kube ≡ w.kube) (api.get_key_by_id (key_target_name key) false) _ w
          (frame.get_key_by_id (key_target_name key) false w)
          λ r t same. elim (Option-cases r.error) [
            | inr (e, failed) ↦ rw failed (ground arith)
            | inl fine ↦ rw fine (elim (Option-cases r.value) [
              | inl absent ↦ rw absent same
              | inr (info, there) ↦ rw there (ground (arith, frame.delete_key info.access_key_id t))
            ])
          ])
  ]

  -- A reconciliation of a GarageAccessKey under deletion that holds the finalizer and whose reclaim
  -- policy is not Retain: if it returns, Garage has no key under the target name, given `ApiLaws`.
  pub key_finalize-gone :
      (w : World P)
      → key.spec.reclaim_policy ≢ retain
      → has_finalizer P.util key.meta ≡ true
      → OnReturn (λ _ t. v.key_at t.garage (key_target_name key) ≡ none) (finalize P api key w)
  unfolding finalize
  key_finalize-gone w deletes held = rw held (
      OnReturn-bind _ _ (reconcile_deletion P api key) _ w (reconcile_deletion-gone w deletes)
        λ _ t gone. ground (arith, gone))

  -- Whatever the outcome of a reconciliation of a GarageAccessKey under deletion whose reclaim policy
  -- is not Retain, a panic included, either the state of Kubernetes is as it was, or Garage has no
  -- key under the target name; given `ApiLaws`, and that requests to Garage leave Kubernetes.
  pub key_finalize_guards :
      (w : World P)
      → key.spec.reclaim_policy ≢ retain
      → Always
          (λ t. (t.kube ≡ w.kube) ⊎ (v.key_at t.garage (key_target_name key) ≡ none))
          (finalize P api key w)
  unfolding finalize
  key_finalize_guards w deletes = elim (Bool-cases (has_finalizer P.util key.meta)) [
    | inr free ↦ rw free (inl refl)
    | inl held ↦ rw held (
        Guarded-bind (λ t. t.kube ≡ w.kube) (λ t. v.key_at t.garage (key_target_name key) ≡ none)
          (reconcile_deletion P api key) _ w (reconcile_deletion-kube w)
          (reconcile_deletion-gone w deletes) λ _ t gone. ground (arith, gone))
  ]
