-- ===== src/System/Invariant.antt =====
-- The whole system: its steps, which are the reconciliations of the three controllers and the steps
-- of users, the states that it reaches, and the invariant on one bucket.
use garage_s3_operator.Base.{
  String, ◌≡◌, ◌≢◌, ap, ◌∙◌, inl, inr, none, some, Bool-cases, Action, OnReturn-mono, Always,
  Always-handle,
}
use garage_s3_operator.Api.{NamespacedName, object_key, GarageBucket}
use garage_s3_operator.Platform.{Platform, World, Connection, on_kube}
use garage_s3_operator.Platform.Lifting.{OnReturn-on_kube}
use garage_s3_operator.Platform.Laws.{UtilLaws}
use garage_s3_operator.Garage.Laws.{View}
use garage_s3_operator.Garage.Rights.{AccessorLaws}
use garage_s3_operator.Garage.Server.{ServerLaws}
use garage_s3_operator.Bucket as BucketController
use garage_s3_operator.AccessKey as KeyController
use garage_s3_operator.Permission as PermissionController
use garage_s3_operator.System.Laws.{Objects, SameObjects, ServerObjects}
use garage_s3_operator.System.Frames.{Mild-on_kube}
use garage_s3_operator.System.Manager.{GarageKeeps}
use garage_s3_operator.System.Keys.{key_request-Gentle}
use garage_s3_operator.System.Permissions.{permission_request-Gentle}
use garage_s3_operator.System.Guarded.{Named, Held, Guarded, Inv, Vacant, Mild-Inv}
use garage_s3_operator.System.Turn.{dispatch-Inv}

module _ (P : Platform) (stored : Objects P.Kube) (v : View P.Garage) (n : NamespacedName)
    (name : String) where
  -- One step of the system: a reconciliation by one of the controllers, for any object and with any
  -- outcome, or a step of others, which leaves the naming scheme and the finalizer of the object `n`
  -- and does not make the bucket `name`.
  pub data Step (w t : World P) : Type 0 where
    bucket_turn :
        (request : NamespacedName)
        → t ≡ (BucketController.reconcile_request P none request w).1
        → Step w t
    key_turn :
        (request : NamespacedName)
        → t ≡ (KeyController.reconcile_request P none request w).1
        → Step w t
    permission_turn :
        (request : NamespacedName)
        → t ≡ (PermissionController.reconcile_request P none request w).1
        → Step w t
    others_turn :
        (Named P stored v n name w.kube → Named P stored v n name t.kube)
        → (Held P stored v n name w.kube → Held P stored v n name t.kube)
        → (v.bucket_at w.garage name ≡ none → v.bucket_at t.garage name ≡ none)
        → Step w t

  pub data Reach (w : World P) : World P → Type 0 where
    here : Reach w w
    next : {t u : World P} → Reach w t → Step t u → Reach w u

  module _ (kube : ServerObjects P stored) (util_laws : UtilLaws P.util)
      (vacant : GarageKeeps P stored (Vacant P stored v n name) (λ x. x ≢ name))
      (server : (c : Connection) → ServerLaws P c v)
      (accessor_laws : AccessorLaws P.accessors) where
    abbrev State : World P → Type 0
    State w = Inv P stored v n name w

    bucket_request-Inv :
        (request : NamespacedName) (w : World P)
        → State w
        → Always State (BucketController.reconcile_request P none request w)
    unfolding BucketController.reconcile_request
    bucket_request-Inv request w h =
        Always-handle (λ t. State t × SameObjects stored w.kube t.kube) State
          (λ b _. (object_key b.meta ≡ request) × (stored w.kube request ≡ some (b.meta, b.spec)))
          (BucketController.dispatch P none) _ (read w)
          (
            Mild-Inv P stored v n name w _
                ((Mild-on_kube P stored (Vacant P stored v n name) get (kube.get request)).after w)
                h,
            kube.get request w.kube,
          )
          (OnReturn-mono _ _ (read w) (OnReturn-on_kube P w _ get (kube.get_lem request w.kube))
            λ b t q. (q.0.0, q.0.1))
          (λ t q. q.0)
          (λ b t q r.
            dispatch-Inv P stored v n name kube util_laws b
              (h.named (object_key b.meta) b.meta b.spec (ap (stored w.kube) r.0 ∙ r.1)) vacant
              server accessor_laws t
              (
                q.0,
                λ own has. (b.meta, b.spec, q.1 n ∙ (ap (stored w.kube) (own ∙ r.0) ∙ r.1), has),
              ))
          (λ e t q. elim (Bool-cases (P.util.is_not_found e)) [
            | inl gone ↦ rw gone q.0
            | inr failed ↦ rw failed q.0
          ])
      where
        get : Action P.Kube GarageBucket
        get = P.client.buckets.get request

        read : Action (World P) GarageBucket
        read = on_kube {P = P} get

    -- Every step keeps the invariant.
    pub Step-Inv : (w t : World P) → Step w t → State w → State t
    Step-Inv w t (bucket_turn request e) h = rw e (bucket_request-Inv request w h)
    Step-Inv w t (key_turn request e) h = rw e (
        Mild-Inv P stored v n name w _
          ((key_request-Gentle P stored (Vacant P stored v n name) _ kube vacant request).after w)
          h)
    Step-Inv w t (permission_turn request e) h = rw e (
        Mild-Inv P stored v n name w _
          ((permission_request-Gentle P stored (Vacant P stored v n name) _ kube vacant
              request).after
            w)
          h)
    Step-Inv w t (others_turn named held absent) h = record {
      named = named h.named;
      guarded = elim h.guarded [ inl ours ↦ inl (held ours) | inr gone ↦ inr (absent gone) ];
    }

    Reach-Inv : {w t : World P} → Reach w t → State w → State t
    Reach-Inv here h = h
    Reach-Inv (next r s) h = Step-Inv _ _ s (Reach-Inv r h)

    -- Start from a state where every GarageBucket object fits the naming scheme (`Named`: the object
    -- `n` has the target name `name` and a policy other than Retain, no other object has that target
    -- name) and where Garage has no bucket `name`. Then after any sequence of steps (whole
    -- reconciliations of the three controllers by the default factory, of any objects and with any
    -- outcomes, and steps of others that keep the scheme, the finalizer and the absence of the bucket)
    -- either the object `n` is there and has the finalizer, or Garage has no bucket `name`. It assumes
    -- of the API server that only the calls on GarageBuckets change these objects (`ServerObjects`),
    -- and of Garage that only createBucket of that name makes the bucket.
    pub Reach-Guarded :
        (w t : World P)
        → Named P stored v n name w.kube
        → v.bucket_at w.garage name ≡ none
        → Reach w t
        → Guarded P stored v n name t
    Reach-Guarded w t named absent r =
        (Reach-Inv r (record { named = named; guarded = inr absent })).guarded
