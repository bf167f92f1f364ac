-- ===== src/System/Buckets.antt =====
-- The parts of the reconciliation of a GarageBucket between the updates of its finalizers: what they
-- do to the GarageBucket objects and to the buckets of Garage.
use garage_s3_operator.Base.{
  String, Option, Outcome, Action, Preorder, Keeps, Keeps-pure, Keeps-fail, Keeps-lift, Keeps-deref,
  Keeps-handle, Keeps-bind, Keeps-wrap_error, Keeps-if, Keeps-option, ◌==◌, string_eq, nat_eq,
  int_eq, wrap_error, lift, pure, ◌>>=◌, if◌then◌else◌, Bool,
}
use garage_s3_operator.Api.{object_key, GarageBucket, GarageAccessKey, target_name, retain}
use garage_s3_operator.Platform.{Platform, World, BucketInfo, on_kube, of_bucket}
use garage_s3_operator.Garage.{GarageApi}
use garage_s3_operator.Http.{has_status, not_found}
use garage_s3_operator.Bucket.{
  ignore_not_found, delete_managed_key, delete_managed_permission, reconcile_key_resources_deletion,
  reconcile_access_key, reconcile_permission, new_key, new_permission, mutate_key,
  mutate_permission, quotas_differ, key_enabled, create_target, get_or_create_bucket,
  record_bucket_id, reconcile_quotas, reconcile_key_resources, reconcile, reconcile_deletion,
}
use garage_s3_operator.System.Laws.{Objects, ServerObjects}
use garage_s3_operator.System.Frames.{Mild, Mild-on_kube}
use garage_s3_operator.System.Manager.{MildApi}

module _ (P : Platform) (stored : Objects P.Kube) (R : Preorder P.Garage) (makes : String → Type 0)
    (kube : ServerObjects P stored) where
  abbrev Gentle : {A : Type 0} → Action (World P) A → Type 0
  Gentle m = Keeps (Mild P stored R) m

  reconcile_access_key-Gentle : (bucket : GarageBucket) → Gentle (reconcile_access_key P bucket)
  unfolding reconcile_access_key
  reconcile_access_key-Gentle bucket =
      Keeps-bind
        (Mild-on_kube P stored R
          (P.client.access_keys.create_or_update (new_key bucket) (mutate_key P.util bucket))
          (kube.access_keys.create_or_update _ _))
        λ p. Keeps-pure

  reconcile_permission-Gentle :
      (bucket : GarageBucket) (key : GarageAccessKey) → Gentle (reconcile_permission P bucket key)
  unfolding reconcile_permission
  reconcile_permission-Gentle bucket key =
      Keeps-bind
        (Mild-on_kube P stored R
          (P.client.permissions.create_or_update (new_permission bucket)
            (mutate_permission P.util bucket key))
          (kube.permissions.create_or_update _ _))
        λ p. Keeps-pure

  ignore_not_found-Gentle :
      (m : Action (World P) (Unit {0})) → Gentle m → Gentle (ignore_not_found P m)
  ignore_not_found-Gentle m q =
      Keeps-handle q (λ u. Keeps-pure) λ e. Keeps-if (P.util.is_not_found e) Keeps-pure Keeps-fail

  delete_found-Gentle :
      (owners : Outcome Bool) (inspect remove : String) (m : Action (World P) (Unit {0}))
      → Gentle m
      → Gentle (
          wrap_error inspect (lift owners) >>= λ owned.
          if owned then wrap_error remove (ignore_not_found P m) else pure tt)
  delete_found-Gentle owners inspect remove m q =
      Keeps-bind (Keeps-wrap_error inspect Keeps-lift)
        λ owned. Keeps-if owned (Keeps-wrap_error remove (ignore_not_found-Gentle m q)) Keeps-pure

  delete_managed_key-Gentle : (bucket : GarageBucket) → Gentle (delete_managed_key P bucket)
  unfolding delete_managed_key
  delete_managed_key-Gentle bucket =
      Keeps-handle
        (Mild-on_kube P stored R (P.client.access_keys.get (object_key bucket.meta))
          (kube.access_keys.get _))
        (λ key.
          delete_found-Gentle
            (P.util.has_owner_reference key.meta.owner_references (of_bucket bucket)) _ _
            (on_kube {P = P} (P.client.access_keys.remove key))
            (Mild-on_kube P stored R (P.client.access_keys.remove key)
              (kube.access_keys.remove key)))
        λ e. Keeps-if (P.util.is_not_found e) Keeps-pure Keeps-fail

  delete_managed_permission-Gentle :
      (bucket : GarageBucket) → Gentle (delete_managed_permission P bucket)
  unfolding delete_managed_permission
  delete_managed_permission-Gentle bucket =
      Keeps-handle
        (Mild-on_kube P stored R (P.client.permissions.get (object_key bucket.meta))
          (kube.permissions.get _))
        (λ perm.
          delete_found-Gentle
            (P.util.has_owner_reference perm.meta.owner_references (of_bucket bucket)) _ _
            (on_kube {P = P} (P.client.permissions.remove perm))
            (Mild-on_kube P stored R (P.client.permissions.remove perm)
              (kube.permissions.remove perm)))
        λ e. Keeps-if (P.util.is_not_found e) Keeps-pure Keeps-fail

  module _ (api : GarageApi (World P)) (mild : MildApi P stored R makes api) where
    create_target-Gentle : (name : String) → makes name → Gentle (create_target P api name)
    unfolding create_target
    create_target-Gentle name h =
        Keeps-bind (mild.create_bucket name h)
          λ made. Keeps-option made.error Keeps-pure λ e. Keeps-fail

    get_or_create_bucket-Gentle :
        (name : String) → makes name → Gentle (get_or_create_bucket P api name)
    unfolding get_or_create_bucket
    get_or_create_bucket-Gentle name h = Keeps-bind (mild.get_bucket name) λ found.
        Keeps-bind {A = Unit {0}}
          (Keeps-option found.error Keeps-pure
            λ e. Keeps-if (has_status not_found found.resp) Keeps-pure Keeps-fail)
          λ _. Keeps-bind (Keeps-deref found.resp) λ resp.
            Keeps-if (resp.status_code == not_found) (create_target-Gentle name h) Keeps-pure

    record_bucket_id-Gentle :
        (value : Option BucketInfo) (bucket : GarageBucket)
        → Gentle (record_bucket_id P api value bucket)
    unfolding record_bucket_id
    record_bucket_id-Gentle value bucket =
        Keeps-if (bucket.status.id == "")
          (Keeps-bind (Keeps-deref value) λ info. Keeps-wrap_error _ (
            Mild-on_kube P stored R
              (P.client.buckets.patch_status bucket
                (record bucket { status = record { id = info.id } }))
              (kube.patch_status _ _)))
          Keeps-pure

    reconcile_quotas-Gentle :
        (value : Option BucketInfo) (bucket : GarageBucket)
        → Gentle (reconcile_quotas P api value bucket)
    unfolding reconcile_quotas
    reconcile_quotas-Gentle value bucket = Keeps-option bucket.spec.quotas Keeps-pure λ quotas.
        Keeps-bind (Keeps-deref value) λ info.
          Keeps-if (quotas_differ P.accessors quotas info)
            (Keeps-bind (mild.update_bucket info.id quotas)
              λ r. Keeps-option r.error Keeps-pure λ e. Keeps-fail)
            Keeps-pure

    reconcile_key_resources-Gentle :
        (bucket : GarageBucket) → Gentle (reconcile_key_resources P api bucket)
    unfolding reconcile_key_resources reconcile_key_resources_deletion
    reconcile_key_resources-Gentle bucket =
        Keeps-if (key_enabled bucket)
          (Keeps-bind (Keeps-wrap_error _ (reconcile_access_key-Gentle bucket))
            λ key. Keeps-wrap_error _ (reconcile_permission-Gentle bucket key))
          (Keeps-wrap_error _ (
            Keeps-bind (delete_managed_key-Gentle bucket)
              λ _. delete_managed_permission-Gentle bucket))

    pub reconcile-Gentle :
        (bucket : GarageBucket) → makes (target_name bucket) → Gentle (reconcile P api bucket)
    unfolding reconcile
    reconcile-Gentle bucket h =
        Keeps-bind (get_or_create_bucket-Gentle (target_name bucket) h) λ info.
          Keeps-bind (record_bucket_id-Gentle info bucket) λ patched.
            Keeps-bind (reconcile_quotas-Gentle info patched)
              λ _. reconcile_key_resources-Gentle patched

    pub reconcile_deletion-Gentle :
        (bucket : GarageBucket) → Gentle (reconcile_deletion P api bucket)
    unfolding reconcile_deletion
    reconcile_deletion-Gentle bucket = Keeps-if (bucket.spec.reclaim_policy == retain) Keeps-pure (
        Keeps-bind (mild.get_bucket (target_name bucket)) λ found.
          Keeps-option found.error
            (Keeps-bind (Keeps-deref found.value) λ info.
              Keeps-bind (mild.delete_bucket info.id)
                λ gone. Keeps-option gone.error Keeps-pure λ e. Keeps-fail)
            λ e. Keeps-if (has_status not_found found.resp) Keeps-pure Keeps-fail)
