-- ===== src/DeepCopy/Pointers.antt =====
-- `DeepCopy` and `DeepCopyObject`, which take and give pointers.
use garage_s3_operator.Base.{Option, none, some, Action, pure, ◌>>=◌}
use garage_s3_operator.DeepCopy.Cells.{Pointer, KubeTypes, Memory}
use garage_s3_operator.DeepCopy.Layouts.{
  selector_layout, permissions_layout, quotas_layout, key_secret_layout, access_key_layout,
  endpoint_ca_layout, endpoint_layout, id_status_layout, status_layout, bucket_spec_layout,
  key_spec_layout, permission_spec_layout, cluster_spec_layout, bucket_layout, key_layout,
  permission_layout, cluster_layout, list_layout,
}
use garage_s3_operator.DeepCopy.Copies.{
  KubeCopies, copy_pointer, copy_plain, copy_access_key, copy_bucket_spec, copy_key_spec,
  copy_permission_spec, copy_endpoint_ca, copy_endpoint, copy_cluster_spec, copy_id_status,
  copy_status, copy_bucket, copy_key, copy_permission, copy_cluster, copy_bucket_list,
  copy_key_list, copy_permission_list, copy_cluster_list,
}

-- The types of pointers that are a `runtime.Object`.
pub data ObjectKind : Type 0 where
  bucket_kind key_kind permission_kind cluster_kind : ObjectKind
  bucket_list_kind key_list_kind permission_list_kind cluster_list_kind : ObjectKind

-- A `runtime.Object`: the nil interface, or a pointer with its type. A nil pointer with its type is
-- not the nil interface.
abbrev pub RuntimeObject : Type 0
RuntimeObject = Option (ObjectKind × Pointer)

-- `if c != nil { return c }; return nil`
abbrev pub as_object : ObjectKind → Pointer → RuntimeObject
as_object kind none = none
as_object kind (some a) = some (kind, some a)

module _ {K : KubeTypes} where
  -- The body of every `DeepCopyObject`.
  unfoldable pub deep_copy_object :
      ObjectKind → (Pointer → Action (Memory K) Pointer) → Pointer → Action (Memory K) RuntimeObject
  deep_copy_object kind deep_copy p = do c ← deep_copy p; pure (as_object kind c)

  abbrev pub selector_deep_copy : Pointer → Action (Memory K) Pointer
  selector_deep_copy = copy_pointer selector_layout copy_plain

  abbrev pub permissions_deep_copy : Pointer → Action (Memory K) Pointer
  permissions_deep_copy = copy_pointer permissions_layout copy_plain

  abbrev pub quotas_deep_copy : Pointer → Action (Memory K) Pointer
  quotas_deep_copy = copy_pointer quotas_layout copy_plain

  abbrev pub key_secret_deep_copy : Pointer → Action (Memory K) Pointer
  key_secret_deep_copy = copy_pointer key_secret_layout copy_plain

  abbrev pub access_key_deep_copy : Pointer → Action (Memory K) Pointer
  access_key_deep_copy = copy_pointer access_key_layout copy_access_key

  abbrev pub bucket_spec_deep_copy : Pointer → Action (Memory K) Pointer
  bucket_spec_deep_copy = copy_pointer bucket_spec_layout copy_bucket_spec

  abbrev pub key_spec_deep_copy : Pointer → Action (Memory K) Pointer
  key_spec_deep_copy = copy_pointer key_spec_layout copy_key_spec

  abbrev pub permission_spec_deep_copy : Pointer → Action (Memory K) Pointer
  permission_spec_deep_copy = copy_pointer permission_spec_layout copy_permission_spec

  module _ (kube : KubeCopies K) where
    abbrev pub endpoint_ca_deep_copy : Pointer → Action (Memory K) Pointer
    endpoint_ca_deep_copy = copy_pointer endpoint_ca_layout (copy_endpoint_ca kube)

    abbrev pub endpoint_deep_copy : Pointer → Action (Memory K) Pointer
    endpoint_deep_copy = copy_pointer endpoint_layout (copy_endpoint kube)

    abbrev pub cluster_spec_deep_copy : Pointer → Action (Memory K) Pointer
    cluster_spec_deep_copy = copy_pointer cluster_spec_layout (copy_cluster_spec kube)

    abbrev pub id_status_deep_copy : Pointer → Action (Memory K) Pointer
    id_status_deep_copy = copy_pointer id_status_layout (copy_id_status kube)

    abbrev pub status_deep_copy : Pointer → Action (Memory K) Pointer
    status_deep_copy = copy_pointer status_layout (copy_status kube)

    abbrev pub bucket_deep_copy : Pointer → Action (Memory K) Pointer
    bucket_deep_copy = copy_pointer bucket_layout (copy_bucket kube)

    abbrev pub key_deep_copy : Pointer → Action (Memory K) Pointer
    key_deep_copy = copy_pointer key_layout (copy_key kube)

    abbrev pub permission_deep_copy : Pointer → Action (Memory K) Pointer
    permission_deep_copy = copy_pointer permission_layout (copy_permission kube)

    abbrev pub cluster_deep_copy : Pointer → Action (Memory K) Pointer
    cluster_deep_copy = copy_pointer cluster_layout (copy_cluster kube)

    abbrev pub bucket_list_deep_copy : Pointer → Action (Memory K) Pointer
    bucket_list_deep_copy = copy_pointer list_layout (copy_bucket_list kube)

    abbrev pub key_list_deep_copy : Pointer → Action (Memory K) Pointer
    key_list_deep_copy = copy_pointer list_layout (copy_key_list kube)

    abbrev pub permission_list_deep_copy : Pointer → Action (Memory K) Pointer
    permission_list_deep_copy = copy_pointer list_layout (copy_permission_list kube)

    abbrev pub cluster_list_deep_copy : Pointer → Action (Memory K) Pointer
    cluster_list_deep_copy = copy_pointer list_layout (copy_cluster_list kube)

    abbrev pub bucket_deep_copy_object : Pointer → Action (Memory K) RuntimeObject
    bucket_deep_copy_object = deep_copy_object bucket_kind bucket_deep_copy

    abbrev pub key_deep_copy_object : Pointer → Action (Memory K) RuntimeObject
    key_deep_copy_object = deep_copy_object key_kind key_deep_copy

    abbrev pub permission_deep_copy_object : Pointer → Action (Memory K) RuntimeObject
    permission_deep_copy_object = deep_copy_object permission_kind permission_deep_copy

    abbrev pub cluster_deep_copy_object : Pointer → Action (Memory K) RuntimeObject
    cluster_deep_copy_object = deep_copy_object cluster_kind cluster_deep_copy

    abbrev pub bucket_list_deep_copy_object : Pointer → Action (Memory K) RuntimeObject
    bucket_list_deep_copy_object = deep_copy_object bucket_list_kind bucket_list_deep_copy

    abbrev pub key_list_deep_copy_object : Pointer → Action (Memory K) RuntimeObject
    key_list_deep_copy_object = deep_copy_object key_list_kind key_list_deep_copy

    abbrev pub permission_list_deep_copy_object : Pointer → Action (Memory K) RuntimeObject
    permission_list_deep_copy_object =
        deep_copy_object permission_list_kind permission_list_deep_copy

    abbrev pub cluster_list_deep_copy_object : Pointer → Action (Memory K) RuntimeObject
    cluster_list_deep_copy_object = deep_copy_object cluster_list_kind cluster_list_deep_copy
