-- ===== src/System/Turn.antt =====
-- A whole reconciliation of a GarageBucket, of the guarded object or of another one.
use garage_s3_operator.Base.{
  String, ◌≡◌, ◌≢◌, inl, inr, true, none, Bool-cases, Action, OnReturn, OnReturn-bind, OnReturn-any,
  OnReturn-wrap_error, Always, Always-follow, wrap_error, Keeps-wrap_error,
}
use garage_s3_operator.Api.{NamespacedName, object_key, GarageBucket, GarageCluster}
use garage_s3_operator.Platform.{Platform, World, Connection}
use garage_s3_operator.Platform.Laws.{UtilLaws}
use garage_s3_operator.Helper.{get_cluster}
use garage_s3_operator.Finalizer.{is_deleting, has_finalizer}
use garage_s3_operator.Garage.{garage_manager, new_garage_client, default_factory, choose_factory}
use garage_s3_operator.Garage.Laws.{View}
use garage_s3_operator.Garage.Rights.{AccessorLaws}
use garage_s3_operator.Garage.Server.{ServerLaws}
use garage_s3_operator.Garage.Lawful.{garage_manager-ApiLaws}
use garage_s3_operator.Bucket.{dispatch}
use garage_s3_operator.System.Laws.{Objects, ServerObjects}
use garage_s3_operator.System.Frames.{Mild, get_cluster-Mild}
use garage_s3_operator.System.Manager.{GarageKeeps, garage_manager-MildApi, default_factory-Mild}
use garage_s3_operator.System.Guarded.{Fits, Held, Inv, Vacant, Free, Mild-Inv, Mild-Held}
use garage_s3_operator.System.Branches.{Apt, finalize-Inv, keep-Inv}

module _ (P : Platform) (stored : Objects P.Kube) (v : View P.Garage) (n : NamespacedName)
    (name : String) where
  abbrev State : World P → Type 0
  State w = Inv P stored v n name w

  abbrev Ours : P.Kube → Type 0
  Ours k = Held P stored v n name k

  module _ (kube : ServerObjects P stored) (util_laws : UtilLaws P.util) (bucket : GarageBucket)
      (fits : Fits P stored v n name (object_key bucket.meta) bucket.spec) where
    -- Between the read of the object and the branches nothing of concern happens.
    abbrev Ready : World P → Type 0
    Ready w =
        State w
        × (n ≡ object_key bucket.meta → has_finalizer P.util bucket.meta ≡ true → Ours w.kube)

    Mild-Ready :
        (w t : World P) → (Mild P stored (Vacant P stored v n name)).later w t → Ready w → Ready t
    Mild-Ready w t step h = (
      Mild-Inv P stored v n name w t step h.0,
      λ own has. Mild-Held P stored v n name (Vacant P stored v n name) w t step (h.1 own has),
    )

    module _ (vacant : GarageKeeps P stored (Vacant P stored v n name) (λ x. x ≢ name))
        (server : (c : Connection) → ServerLaws P c v)
        (accessor_laws : AccessorLaws P.accessors) where
      free : GarageKeeps P stored (Free P stored v n name) (λ x. Unit {0})
      unfolding Free
      free = record {
        steady = λ c. record {
          get_bucket_info = λ x g. tt;
          update_bucket = λ id q g. tt;
          delete_bucket = λ id g. tt;
          list_buckets = λ g. tt;
          get_key_info = λ b x g. tt;
          create_key = λ x g. tt;
          delete_key = λ id g. tt;
          list_keys = λ g. tt;
          allow_bucket_key = λ q g. tt;
          deny_bucket_key = λ q g. tt;
        };
        creates = λ c x u g. tt;
      }

      manager-Apt : (c : Connection) → Apt P stored v n name (garage_manager P c)
      manager-Apt c = record {
        vacant = garage_manager-MildApi P stored _ _ vacant c;
        free = garage_manager-MildApi P stored _ _ free c;
        laws = garage_manager-ApiLaws P c v (server c) accessor_laws;
      }

      factory-Apt :
          (cluster : GarageCluster) (w : World P)
          → OnReturn (λ api _. Apt P stored v n name api) (choose_factory P none cluster w)
      unfolding choose_factory default_factory
      factory-Apt cluster w =
          OnReturn-bind _ _ (new_garage_client P cluster) _ w
            (OnReturn-any (new_garage_client P cluster w)) λ c t _. manager-Apt c

      pub dispatch-Inv : (w : World P) → Ready w → Always State (dispatch P none bucket w)
      unfolding dispatch
      dispatch-Inv w ready =
          Always-follow Ready State (λ _ _. Unit {0}) (wrap_error "unable to fetch Cluster" cluster)
            _ w
            (Mild-Ready w _
              ((Keeps-wrap_error "unable to fetch Cluster"
                  (get_cluster-Mild P stored _ kube bucket.spec.cluster_ref)).after
                w)
              ready)
            (OnReturn-any (wrap_error "unable to fetch Cluster" cluster w)) (λ t j. j.0)
            λ c t j _.
              Always-follow Ready State (λ api _. Apt P stored v n name api)
                (wrap_error "unable to create garage manager" (choose_factory P none c)) _ t
                (Mild-Ready t _
                  ((Keeps-wrap_error "unable to create garage manager"
                      (default_factory-Mild P stored _ _ vacant kube c)).after
                    t)
                  j)
                (OnReturn-wrap_error _ _ (choose_factory P none c) t (factory-Apt c t)) (λ u r. r.0)
                λ api u r apt. elim (Bool-cases (is_deleting P.util bucket.meta)) [
                  | inl deleting ↦
                      rw deleting
                        (finalize-Inv P stored v n name kube util_laws bucket fits api apt u r.0)
                  | inr live ↦
                      rw live
                        (keep-Inv P stored v n name kube util_laws bucket fits api apt u r.0 r.1)
                ]
        where
          cluster : Action (World P) GarageCluster
          cluster = get_cluster P bucket.spec.cluster_ref
