-- ===== src/DeepCopy/Shown.antt =====
-- What a memory shows at a pointer: the value that the cells stand for.
use garage_s3_operator.Base.{ℕ, ◌≤◌, ◌≡◌, Option, none, some, List, [], ◌∷◌}
use garage_s3_operator.Api.{BucketAccessKey, BucketSpec, GarageAccessKeySpec, GaragePermissionSpec}
use garage_s3_operator.DeepCopy.Cells.{
  Pointer, KubeTypes, Memory, Cell, Layout, get_elem?, BucketAccessKeyCell, BucketSpecCell,
  AccessKeySpecCell, PermissionSpecCell, EndpointCaOf, EndpointOf, ClusterSpecOf, IdStatusOf,
  StatusOf, ObjectOf, ListOf,
}
use garage_s3_operator.DeepCopy.Layouts.{
  selector_layout, permissions_layout, quotas_layout, key_secret_layout, access_key_layout,
}

-- A relation between a Go value, in a memory, and a value without pointers.
abbrev pub Showing : KubeTypes → Type 0 → Type 0 → Type 1
Showing K X T = Memory K → X → T → Type 0

module _ {K : KubeTypes} where
  -- The cells of `m` from the address `n` on are the same in `m'`.
  abbrev pub Retains : ℕ → Memory K → Memory K → Type 0
  Retains n m m' = (a : ℕ) (c : Cell K) → n ≤ a → get_elem? m a ≡ some c → get_elem? m' a ≡ some c

  -- A memory that keeps every cell shows what it showed.
  abbrev pub Stable : {X T : Type 0} → Showing K X T → Type 0
  Stable {X} {T} Shows =
      (m m' : Memory K) (x : X) (t : T) → Retains 0 m m' → Shows m x t → Shows m' x t

  -- The same value.
  abbrev pub ShowsPlain : {A : Type 0} → Showing K A A
  ShowsPlain m x t = x ≡ t

  -- A nil pointer shows `none`, an address what its cell shows.
  abbrev pub ShowsPointer :
      {A T : Type 0} → Layout K A → Showing K A T → Showing K Pointer (Option T)
  ShowsPointer layout Shows m none none = Unit
  ShowsPointer layout Shows m none (some t) = ⊥
  ShowsPointer layout Shows m (some a) none = ⊥
  ShowsPointer {A} layout Shows m (some a) (some t) =
      (v : A) × (get_elem? m a ≡ some (layout.inject v)) × Shows m v t

  -- Item by item.
  abbrev pub ShowsItems : {A T : Type 0} → Showing K A T → Showing K (List A) (List T)
  ShowsItems Shows m [] [] = Unit
  ShowsItems Shows m [] (t ∷ ts) = ⊥
  ShowsItems Shows m (x ∷ xs) [] = ⊥
  ShowsItems Shows m (x ∷ xs) (t ∷ ts) = Shows m x t × ShowsItems Shows m xs ts

  pub record ShowsAccessKey (m : Memory K) (x : BucketAccessKeyCell) (t : BucketAccessKey)
      : Type 0 where
    pub enabled : x.enabled ≡ t.enabled
    pub permissions : ShowsPointer permissions_layout ShowsPlain m x.permissions t.permissions
    pub format : x.format ≡ t.format

  pub record ShowsBucketSpec (m : Memory K) (x : BucketSpecCell) (t : BucketSpec) : Type 0 where
    pub cluster_ref : ShowsPointer selector_layout ShowsPlain m x.cluster_ref t.cluster_ref
    pub override_name : x.override_name ≡ t.override_name
    pub bucket_access_key :
        ShowsPointer access_key_layout ShowsAccessKey m x.bucket_access_key t.bucket_access_key
    pub quotas : ShowsPointer quotas_layout ShowsPlain m x.quotas t.quotas
    pub reclaim_policy : x.reclaim_policy ≡ t.reclaim_policy

  pub record ShowsKeySpec (m : Memory K) (x : AccessKeySpecCell) (t : GarageAccessKeySpec)
      : Type 0 where
    pub cluster_ref : ShowsPointer selector_layout ShowsPlain m x.cluster_ref t.cluster_ref
    pub override_name : x.override_name ≡ t.override_name
    pub reclaim_policy : x.reclaim_policy ≡ t.reclaim_policy
    pub secret : ShowsPointer key_secret_layout ShowsPlain m x.secret t.secret

  pub record ShowsPermissionSpec (m : Memory K) (x : PermissionSpecCell) (t : GaragePermissionSpec)
      : Type 0 where
    pub key_ref : ShowsPointer selector_layout ShowsPlain m x.key_ref t.key_ref
    pub bucket_ref : ShowsPointer selector_layout ShowsPlain m x.bucket_ref t.bucket_ref
    pub permissions : ShowsPointer permissions_layout ShowsPlain m x.permissions t.permissions

  -- The structs with parts, by what their parts show.
  module _ {X T : Type 0} (Part : Showing K X T) where
    pub record ShowsEndpoint (m : Memory K) (x : EndpointOf X) (t : EndpointOf T) : Type 0 where
      pub url : x.url ≡ t.url
      pub insecure_skip_tls_verify : x.insecure_skip_tls_verify ≡ t.insecure_skip_tls_verify
      pub ca : Part m x.ca t.ca

    pub record ShowsIdStatus (m : Memory K) (x : IdStatusOf X) (t : IdStatusOf T) : Type 0 where
      pub id : x.id ≡ t.id
      pub conditions : Part m x.conditions t.conditions

    pub record ShowsStatus (m : Memory K) (x : StatusOf X) (t : StatusOf T) : Type 0 where
      pub conditions : Part m x.conditions t.conditions

  module _ {X T Y U : Type 0} (Part : Showing K X T) (Other : Showing K Y U) where
    pub record ShowsEndpointCa (m : Memory K) (x : EndpointCaOf X Y) (t : EndpointCaOf T U)
        : Type 0 where
      pub secret_ref : Part m x.secret_ref t.secret_ref
      pub config_map_ref : Other m x.config_map_ref t.config_map_ref

    pub record ShowsClusterSpec (m : Memory K) (x : ClusterSpecOf X Y) (t : ClusterSpecOf T U)
        : Type 0 where
      pub endpoint : Part m x.endpoint t.endpoint
      pub admin_token_secret_ref : Other m x.admin_token_secret_ref t.admin_token_secret_ref

    pub record ShowsList (m : Memory K) (x : ListOf X Y) (t : ListOf T U) : Type 0 where
      pub type_meta : x.type_meta ≡ t.type_meta
      pub list_meta : Part m x.list_meta t.list_meta
      pub items : Other m x.items t.items

  module _ {X T Y U Z V : Type 0} (Meta : Showing K X T) (Spec : Showing K Y U)
      (Status : Showing K Z V) where
    pub record ShowsObject (m : Memory K) (x : ObjectOf X Y Z) (t : ObjectOf T U V) : Type 0 where
      pub type_meta : x.type_meta ≡ t.type_meta
      pub meta : Meta m x.meta t.meta
      pub spec : Spec m x.spec t.spec
      pub status : Status m x.status t.status
