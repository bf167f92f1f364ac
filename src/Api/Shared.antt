-- ===== src/Api/Shared.antt =====
-- api/v1alpha1/shared_types.go, and what the operator reads of the Kubernetes metadata and of
-- core secrets: types of the Kubernetes libraries, with the fields that the source names.
use garage_s3_operator.Base.{ℕ, String, ◌<>◌, Option, List}

pub record Selector : Type 0 where
  pub name : String
  pub namespace : String

-- `types.NamespacedName`
pub record NamespacedName : Type 0 where
  pub name : String
  pub namespace : String

-- `Selector.String`
unfoldable pub selector_string : Selector → String
selector_string s = s.namespace <> ("/" <> s.name)

-- `Selector.NamespacedName`
abbrev pub namespaced_name : Selector → NamespacedName
namespaced_name s = record { name = s.name; namespace = s.namespace }

pub record OwnerReference : Type 0 where
  pub kind : String
  pub name : String
  pub uid : String

-- `metav1.ObjectMeta`. `deletion_timestamp` is a pointer to a time in seconds.
pub record ObjectMeta : Type 0 where
  pub name : String
  pub namespace : String
  pub uid : String
  pub finalizers : List String
  pub owner_references : List OwnerReference
  pub deletion_timestamp : Option ℕ

abbrev pub object_key : ObjectMeta → NamespacedName
object_key m = record { name = m.name; namespace = m.namespace }

-- `corev1.SecretKeySelector` and `corev1.ConfigMapKeySelector`
pub record KeySelector : Type 0 where
  pub name : String
  pub key : String

-- `corev1.Secret`; `content` is its field `Data`.
pub record Secret : Type 0 where
  pub meta : ObjectMeta
  pub secret_type : String
  pub content : List (String × String)
