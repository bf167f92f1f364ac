-- ===== src/Platform/Libraries.antt =====
-- Functions of the Kubernetes libraries on objects and errors, and of Go's URL and certificate
-- parsers.
use garage_s3_operator.Base.{ℕ, String, Bool, Option, List, Error, Outcome}
use garage_s3_operator.Api.{GarageBucket, GarageAccessKey, ObjectMeta, OwnerReference}

-- An owner that is given to `controllerutil`.
pub data Owner : Type 0 where
  of_bucket : GarageBucket → Owner
  of_key : GarageAccessKey → Owner

pub record Util : Type 0 where
  -- `apierror.IsNotFound`
  pub is_not_found : Error → Bool
  -- `metav1.Time.IsZero`, on a pointer that may be nil
  pub is_zero : Option ℕ → Bool
  pub contains_finalizer : List String → String → Bool
  pub add_finalizer : List String → String → List String
  pub remove_finalizer : List String → String → List String
  pub has_owner_reference : List OwnerReference → Owner → Outcome Bool
  -- the object's metadata with the reference set
  pub set_owner_reference : Owner → ObjectMeta → Outcome ObjectMeta
  -- the scheme of an URL, if it can be parsed
  pub parse_scheme : String → Option String
  -- whether any certificate of a PEM text was added to an empty pool
  pub append_certs_from_pem : String → Bool
