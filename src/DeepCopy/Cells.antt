-- ===== src/DeepCopy/Cells.antt =====
-- Go's memory, as far as the custom resources point into it. Structs of the Kubernetes libraries lie
-- in it too: their types are a parameter, `KubeTypes`.
use garage_s3_operator.Base.{
  ℕ, zero, suc, String, Bool, Option, none, some, List, [], ◌∷◌, ◌++◌, ◌≡◌, Action, returns, deref,
}
use garage_s3_operator.Api.{Selector, Permissions, BucketQuotas, AccessKeySecret}

-- A pointer, nil or an address. A slice is a pointer to its items.
abbrev pub Pointer : Type 0
Pointer = Option ℕ

-- `metav1.ObjectMeta`, `metav1.ListMeta`, `metav1.Condition`, `corev1.SecretKeySelector` and
-- `corev1.ConfigMapKeySelector`; `Inner` is what they point to.
pub record KubeTypes : Type 1 where
  pub ObjectMeta : Type 0
  pub ListMeta : Type 0
  pub Condition : Type 0
  pub SecretKeySelector : Type 0
  pub ConfigMapKeySelector : Type 0
  pub Inner : Type 0

-- The structs as Go lays them out, with their pointers.
pub record BucketAccessKeyCell : Type 0 where
  pub enabled : Bool
  pub permissions : Pointer
  pub format : String

pub record BucketSpecCell : Type 0 where
  pub cluster_ref : Pointer
  pub override_name : String
  pub bucket_access_key : Pointer
  pub quotas : Pointer
  pub reclaim_policy : String

pub record AccessKeySpecCell : Type 0 where
  pub cluster_ref : Pointer
  pub override_name : String
  pub reclaim_policy : String
  pub secret : Pointer

pub record PermissionSpecCell : Type 0 where
  pub key_ref : Pointer
  pub bucket_ref : Pointer
  pub permissions : Pointer

-- The structs with parts that are not of one type in memory and in a value.
pub record EndpointCaOf (S C : Type 0) : Type 0 where
  pub secret_ref : S
  pub config_map_ref : C

pub record EndpointOf (C : Type 0) : Type 0 where
  pub url : String
  pub insecure_skip_tls_verify : Bool
  pub ca : C

pub record ClusterSpecOf (E S : Type 0) : Type 0 where
  pub endpoint : E
  pub admin_token_secret_ref : S

-- The status of a GarageBucket and of a GarageAccessKey, and that of the other two.
pub record IdStatusOf (C : Type 0) : Type 0 where
  pub id : String
  pub conditions : C

pub record StatusOf (C : Type 0) : Type 0 where
  pub conditions : C

pub record TypeMeta : Type 0 where
  pub kind : String
  pub api_version : String

-- The four kinds of objects, and the lists of them.
pub record ObjectOf (M S U : Type 0) : Type 0 where
  pub type_meta : TypeMeta
  pub meta : M
  pub spec : S
  pub status : U

pub record ListOf (M I : Type 0) : Type 0 where
  pub type_meta : TypeMeta
  pub list_meta : M
  pub items : I

module _ (K : KubeTypes) where
  open K use {ObjectMeta, ListMeta, Condition, SecretKeySelector, ConfigMapKeySelector, Inner}

  abbrev pub EndpointCaCell : Type 0
  EndpointCaCell = EndpointCaOf Pointer Pointer

  abbrev pub EndpointCell : Type 0
  EndpointCell = EndpointOf EndpointCaCell

  abbrev pub ClusterSpecCell : Type 0
  ClusterSpecCell = ClusterSpecOf EndpointCell Pointer

  abbrev pub BucketCell : Type 0
  BucketCell = ObjectOf ObjectMeta BucketSpecCell (IdStatusOf Pointer)

  abbrev pub KeyCell : Type 0
  KeyCell = ObjectOf ObjectMeta AccessKeySpecCell (IdStatusOf Pointer)

  abbrev pub PermissionCell : Type 0
  PermissionCell = ObjectOf ObjectMeta PermissionSpecCell (StatusOf Pointer)

  abbrev pub ClusterCell : Type 0
  ClusterCell = ObjectOf ObjectMeta ClusterSpecCell (StatusOf Pointer)

  abbrev pub ListCell : Type 0
  ListCell = ListOf ListMeta Pointer

  -- What an address holds.
  pub data Cell : Type 0 where
    inner : Inner → Cell
    selector : Selector → Cell
    permissions : Permissions → Cell
    quotas : BucketQuotas → Cell
    key_secret : AccessKeySecret → Cell
    access_key : BucketAccessKeyCell → Cell
    secret_selector : SecretKeySelector → Cell
    config_map_selector : ConfigMapKeySelector → Cell
    endpoint_ca : EndpointCaCell → Cell
    endpoint : EndpointCell → Cell
    bucket_spec : BucketSpecCell → Cell
    key_spec : AccessKeySpecCell → Cell
    permission_spec : PermissionSpecCell → Cell
    cluster_spec : ClusterSpecCell → Cell
    conditions : List Condition → Cell
    id_status : IdStatusOf Pointer → Cell
    status : StatusOf Pointer → Cell
    bucket : BucketCell → Cell
    key : KeyCell → Cell
    permission : PermissionCell → Cell
    cluster : ClusterCell → Cell
    buckets : List BucketCell → Cell
    keys : List KeyCell → Cell
    permission_items : List PermissionCell → Cell
    clusters : List ClusterCell → Cell
    list : ListCell → Cell

  -- The cells by address; a new one comes last.
  abbrev pub Memory : Type 0
  Memory = List Cell

abbrev pub length : {A : Type 0} → List A → ℕ
length [] = 0
length (x ∷ xs) = suc (length xs)

abbrev pub get_elem? : {A : Type 0} → List A → ℕ → Option A
get_elem? [] _ = none
get_elem? (x ∷ _) zero = some x
get_elem? (_ ∷ xs) (suc i) = get_elem? xs i

-- The cells that hold values of one type.
pub record Layout (K : KubeTypes) (A : Type 0) : Type 0 where
  pub inject : A → Cell K
  pub project : Cell K → Option A
  pub project-inject : (a : A) → project (inject a) ≡ some a

module _ {K : KubeTypes} {A : Type 0} (layout : Layout K A) where
  -- `*p`, which panics at an address that holds no such value.
  abbrev pub load : ℕ → Action (Memory K) A
  load a m = deref (elim (get_elem? m a) [ none ↦ none | some c ↦ layout.project c ]) m

  -- A new address that holds the value.
  abbrev pub allocate : A → Action (Memory K) Pointer
  allocate v m = (returns (some (length m)), m ++ (layout.inject v ∷ []))
