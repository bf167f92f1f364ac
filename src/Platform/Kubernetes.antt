-- ===== src/Platform/Kubernetes.antt =====
-- `client.Client` and `controllerutil.CreateOrUpdate` of controller-runtime, one record of calls
-- for each kind of object.
use garage_s3_operator.Base.{Outcome, Action}
use garage_s3_operator.Api.{
  NamespacedName, GarageCluster, GarageBucket, GarageAccessKey, GaragePermission, Secret,
}

pub data OperationResult : Type 0 where
  created updated unchanged : OperationResult

-- The calls on objects of one kind. A call that writes gives back the object as the server
-- answered it, which is what Go leaves behind the pointer.
pub record Resource (K A : Type 0) : Type 0 where
  pub get : NamespacedName → Action K A
  pub update : A → Action K A
  pub remove : A → Action K (Unit {0})
  -- `Status().Patch(obj, MergeFrom(base))`: the base, then the object.
  pub patch_status : A → A → Action K A
  pub create_or_update : A → (A → Outcome A) → Action K (A × OperationResult)

pub record Client (K : Type 0) : Type 0 where
  pub clusters : Resource K GarageCluster
  pub buckets : Resource K GarageBucket
  pub access_keys : Resource K GarageAccessKey
  pub permissions : Resource K GaragePermission
  pub secrets : Resource K Secret
