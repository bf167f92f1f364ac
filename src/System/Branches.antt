-- ===== src/System/Branches.antt =====
-- The two branches of the reconciliation of a GarageBucket, of the guarded object or of another one.
use garage_s3_operator.Base.{
  String, List, ◌≡◌, ◌≢◌, refl, sym, ap, ap₂, subst, ◌∙◌, ◌⊎◌, inl, inr, true, none, Bool-cases,
  OnReturn, OnReturn-any, OnReturn-mono, Always, Always-follow,
}
use garage_s3_operator.Api.{NamespacedName, object_key, GarageBucket, target_name}
use garage_s3_operator.Platform.{Platform, World, on_kube}
use garage_s3_operator.Platform.Lifting.{OnReturn-on_kube}
use garage_s3_operator.Platform.Laws.{UtilLaws}
use garage_s3_operator.Finalizer.{finalizer, has_finalizer}
use garage_s3_operator.Garage.{GarageApi}
use garage_s3_operator.Garage.Laws.{View, ApiLaws}
use garage_s3_operator.Bucket.{reconcile, reconcile_deletion, finalize, keep}
use garage_s3_operator.Bucket.Deletion.{reconcile_deletion-gone}
use garage_s3_operator.System.Laws.{Objects, ServerObjects, Updated}
use garage_s3_operator.System.Manager.{MildApi}
use garage_s3_operator.System.Buckets.{reconcile-Gentle, reconcile_deletion-Gentle}
use garage_s3_operator.System.Guarded.{
  key_dec, chosen, target_name-chosen, Fits, Held, Inv, Vacant, Free, Mild-Inv, Mild-Held,
  Mild-Named, Updated-Held, Updated-Held_own, Updated-Named,
}

module _ (P : Platform) (stored : Objects P.Kube) (v : View P.Garage) (n : NamespacedName)
    (name : String) where
  -- What the rest of a reconciliation needs of its manager.
  pub record Apt (api : GarageApi (World P)) : Type 0 where
    pub vacant : MildApi P stored (Vacant P stored v n name) (λ x. x ≢ name) api
    pub free : MildApi P stored (Free P stored v n name) (λ x. Unit {0}) api
    pub laws : ApiLaws P api v

  abbrev pub State : World P → Type 0
  State w = Inv P stored v n name w

  abbrev pub Ours : P.Kube → Type 0
  Ours k = Held P stored v n name k

  module _ (kube : ServerObjects P stored) (util_laws : UtilLaws P.util) (bucket : GarageBucket)
      (fits : Fits P stored v n name (object_key bucket.meta) bucket.spec) where
    -- The object with other finalizers.
    abbrev finalized : List String → GarageBucket
    finalized fs = record bucket { meta = record bucket.meta { finalizers = fs } }

    -- An update of the object's finalizers leaves ours in it, or Garage has no bucket.
    Updated-Inv :
        (fs : List String) (w : World P) (t : P.Kube)
        → Updated stored P.util (finalized fs) w.kube t
        → State w
        → (n ≡ object_key bucket.meta
            → (P.util.contains_finalizer fs finalizer ≡ true) ⊎ (v.bucket_at w.garage name ≡ none))
        → State (record { kube = t; garage = w.garage })
    Updated-Inv fs w t up h keeps = record {
      named = Updated-Named P stored v n name (finalized fs) w.kube t up fits h.named;
      guarded = elim h.guarded [
        | inr absent ↦ inr absent
        | inl held ↦ elim (key_dec n (object_key bucket.meta)) [
          | no other ↦ inl (Updated-Held P stored v n name (finalized fs) w.kube t up other held)
          | yes own ↦ elim (keeps own) [
            | inr absent ↦ inr absent
            | inl has ↦
                inl (Updated-Held_own P stored v n name (finalized fs) w.kube t up own has held)
          ]
        ]
      ];
    }

    module _ (api : GarageApi (World P)) (apt : Apt api) where
      target : target_name bucket ≡ chosen (object_key bucket.meta) bucket.spec
      target = target_name-chosen bucket

      pub finalize-Inv : (w : World P) → State w → Always State (finalize P api bucket w)
      unfolding finalize
      finalize-Inv w h = elim (Bool-cases (has_finalizer P.util bucket.meta)) [
        | inr free ↦ rw free h
        | inl held ↦ rw held (
            Always-follow State State
              (λ _ t. n ≡ object_key bucket.meta → v.bucket_at t.garage name ≡ none)
              (reconcile_deletion P api bucket) _ w
              ((Mild-Inv P stored v n name w _
                  ((reconcile_deletion-Gentle P stored _ _ kube api apt.vacant bucket).after w))
                h)
              (gone w) (λ t s. s)
              λ _ t s absent.
                Always-follow State State (λ _ _. Unit {0})
                  (on_kube {P = P} (P.client.buckets.update (finalized without))) _ t
                  (Updated-Inv without t _ (kube.update (finalized without) t.kube) s
                    λ own. inr (absent own))
                  (OnReturn-any (on_kube {P = P} (P.client.buckets.update (finalized without)) t))
                  (λ u r. r) λ _ u r _. r)
      ]
        where
          without : List String
          without = P.util.remove_finalizer bucket.meta.finalizers finalizer

          gone :
              (w : World P)
              → OnReturn
                  (λ _ t. n ≡ object_key bucket.meta → v.bucket_at t.garage name ≡ none)
                  (reconcile_deletion P api bucket w)
          gone w = elim (key_dec n (object_key bucket.meta)) [
            | no other ↦
                OnReturn-mono _ _ (reconcile_deletion P api bucket w)
                  (OnReturn-any (reconcile_deletion P api bucket w)) λ _ t _ own. absurd (other own)
            | yes own ↦
                let (same, deletes) = fits.own (sym own) in
                OnReturn-mono _ _ (reconcile_deletion P api bucket w)
                  (reconcile_deletion-gone P api v apt.laws bucket w deletes)
                  λ _ t none_there _.
                    subst (λ x. v.bucket_at t.garage x ≡ none) (target ∙ same) none_there
          ]

      -- A live object: its finalizer is in place before Garage is asked for the bucket.
      live-Inv :
          (b : GarageBucket) (w : World P)
          → object_key b.meta ≡ object_key bucket.meta
          → b.spec ≡ bucket.spec
          → State w
          → (n ≡ object_key bucket.meta → Ours w.kube)
          → Always State (reconcile P api b w)
      live-Inv b w key spec h held = elim (key_dec n (object_key bucket.meta)) [
        | yes own ↦
            let step =
              (reconcile-Gentle P stored (Free P stored v n name) _ kube api apt.free b tt).after
                w in
            record {
              named = Mild-Named P stored v n name (Free P stored v n name) w _ step h.named;
              guarded =
                  inl (Mild-Held P stored v n name (Free P stored v n name) w _ step (held own));
            }
        | no other ↦
            Mild-Inv P stored v n name w _
              ((reconcile-Gentle P stored (Vacant P stored v n name) _ kube api apt.vacant b
                  (elsewhere other)).after
                w)
              h
      ]
        where
          elsewhere : n ≢ object_key bucket.meta → target_name b ≢ name
          elsewhere other e =
              fits.other (λ own. other (sym own))
                (ap₂ chosen (sym key) (sym spec) ∙ (sym (target_name-chosen b) ∙ e))

      pub keep-Inv :
          (w : World P)
          → State w
          → (n ≡ object_key bucket.meta → has_finalizer P.util bucket.meta ≡ true → Ours w.kube)
          → Always State (keep P api bucket w)
      unfolding keep
      keep-Inv w h known = elim (Bool-cases (has_finalizer P.util bucket.meta)) [
        | inl has ↦ rw has (live-Inv bucket w refl refl h (λ own. known own has))
        | inr lacks ↦ rw lacks (
            Always-follow State State
              (λ a t.
                (object_key a.meta ≡ object_key bucket.meta)
                × (a.spec ≡ bucket.spec)
                × (n ≡ object_key bucket.meta → Ours t.kube))
              (on_kube {P = P} (P.client.buckets.update (finalized added))) _ w
              (Updated-Inv added w _ (kube.update (finalized added) w.kube) h λ own. inl added_has)
              (OnReturn-mono _ _ (on_kube {P = P} (P.client.buckets.update (finalized added)) w)
                (OnReturn-on_kube P w _ (P.client.buckets.update (finalized added))
                  (kube.update_lem (finalized added) w.kube))
                λ a t q. (
                  q.0.0,
                  q.0.1,
                  λ own.
                      let (m, there, kept) = q.0.2 finalizer added_has in
                      (
                        m,
                        bucket.spec,
                        ap (stored t.kube) own ∙ there,
                        ap (λ fs. P.util.contains_finalizer fs finalizer) kept ∙ added_has,
                      ),
                ))
              (λ t s. s) λ a t s r. live-Inv a t r.0 r.1 s r.2)
      ]
        where
          added : List String
          added = P.util.add_finalizer bucket.meta.finalizers finalizer

          added_has : P.util.contains_finalizer added finalizer ≡ true
          added_has = util_laws.contains-add bucket.meta.finalizers finalizer
