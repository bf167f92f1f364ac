-- ===== src/Startup/Controllers.antt =====
-- The reconcilers that `main` makes, and their SetupWithManager: they have no factory of their own.
use garage_s3_operator.Base.{String, none, Action}
use garage_s3_operator.Api.{NamespacedName}
use garage_s3_operator.Platform.{Platform, World}
use garage_s3_operator.Bucket as BucketController
use garage_s3_operator.AccessKey as KeyController
use garage_s3_operator.Permission as PermissionController

-- The kinds that the controllers watch.
pub data Kind : Type 0 where
  garage_bucket garage_access_key garage_permission : Kind

-- What `ctrl.NewControllerManagedBy(mgr).For(kind).Named(name).Complete(r)` is given.
pub record Controller (P : Platform) : Type 0 where
  pub watches : Kind
  pub name : String
  pub reconcile : NamespacedName → Action (World P) (Unit {0})

module _ (P : Platform) where
  abbrev pub bucket_controller : Controller P
  bucket_controller = record {
    watches = garage_bucket;
    name = "bucket";
    reconcile = BucketController.reconcile_request P none;
  }

  abbrev pub key_controller : Controller P
  key_controller = record {
    watches = garage_access_key;
    name = "key";
    reconcile = KeyController.reconcile_request P none;
  }

  abbrev pub permission_controller : Controller P
  permission_controller = record {
    watches = garage_permission;
    name = "permission";
    reconcile = PermissionController.reconcile_request P none;
  }
