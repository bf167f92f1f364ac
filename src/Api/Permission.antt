-- ===== src/Api/Permission.antt =====
-- api/v1alpha1/permission_types.go. The status conditions are neither read nor written.
use garage_s3_operator.Base.{Bool, true, Option, Eq}
use garage_s3_operator.Api.Shared.{Selector, ObjectMeta}

pub record Permissions : Type 0 where
  pub owner : Bool
  pub read : Bool
  pub write : Bool

Permissions-discrete : Discrete Permissions
Permissions-discrete = hlevel

instance unfoldable pub permissions_eq : Eq Permissions
unfolding Permissions-discrete
permissions_eq = record { dec = Permissions-discrete }

-- What the operator grants where no permissions are given.
abbrev pub all_permissions : Permissions
all_permissions = record { owner = true; read = true; write = true }

pub record GaragePermissionSpec : Type 0 where
  pub key_ref : Option Selector
  pub bucket_ref : Option Selector
  pub permissions : Option Permissions

pub record GaragePermission : Type 0 where
  pub meta : ObjectMeta
  pub spec : GaragePermissionSpec
