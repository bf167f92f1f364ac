-- ===== src/DeepCopy/Copies.antt =====
-- The generated functions. `DeepCopyInto` gives the value that it writes into `out`: its argument with
-- new pointers. `new(T)` or `make([]T, n)` and what fills it are one allocation of the finished value,
-- since nothing else sees the address before.
use garage_s3_operator.Base.{none, some, List, [], ◌∷◌, Action, pure, ◌>>=◌}
use garage_s3_operator.DeepCopy.Cells.{
  Pointer, KubeTypes, Memory, Layout, load, allocate, BucketAccessKeyCell, BucketSpecCell,
  AccessKeySpecCell, PermissionSpecCell, IdStatusOf, StatusOf, ObjectOf, EndpointCaCell,
  EndpointCell, ClusterSpecCell, BucketCell, KeyCell, PermissionCell, ClusterCell, ListCell,
}
use garage_s3_operator.DeepCopy.Layouts.{
  selector_layout, permissions_layout, quotas_layout, key_secret_layout, access_key_layout,
  secret_selector_layout, config_map_selector_layout, conditions_layout, buckets_layout,
  keys_layout, permission_items_layout, clusters_layout,
}

-- `DeepCopyInto` of the types of the Kubernetes libraries.
pub record KubeCopies (K : KubeTypes) : Type 0 where
  pub object_meta : K.ObjectMeta → Action (Memory K) K.ObjectMeta
  pub list_meta : K.ListMeta → Action (Memory K) K.ListMeta
  pub condition : K.Condition → Action (Memory K) K.Condition
  pub secret_key_selector : K.SecretKeySelector → Action (Memory K) K.SecretKeySelector
  pub config_map_key_selector : K.ConfigMapKeySelector → Action (Memory K) K.ConfigMapKeySelector

module _ {K : KubeTypes} where
  -- `if in != nil { out = new(T); in.DeepCopyInto(out) }`, the body of every `DeepCopy` too.
  unfoldable pub copy_pointer :
      {A : Type 0} → Layout K A → (A → Action (Memory K) A) → Pointer → Action (Memory K) Pointer
  copy_pointer layout copy none = pure none
  copy_pointer layout copy (some a) = do v ← load layout a; w ← copy v; allocate layout w

  -- `for i := range in { in[i].DeepCopyInto(&out[i]) }`
  unfoldable pub copy_items :
      {A : Type 0} → (A → Action (Memory K) A) → List A → Action (Memory K) (List A)
  copy_items copy [] = pure []
  copy_items copy (x ∷ xs) = do y ← copy x; ys ← copy_items copy xs; pure (y ∷ ys)

  -- `*out = *in`: Selector, Permissions, BucketQuotas and AccessKeySecret have no pointers.
  abbrev pub copy_plain : {A : Type 0} → A → Action (Memory K) A
  copy_plain v = pure v

  unfoldable pub copy_access_key : BucketAccessKeyCell → Action (Memory K) BucketAccessKeyCell
  copy_access_key key = do
    p ← copy_pointer permissions_layout copy_plain key.permissions
    pure (record key { permissions = p })

  unfoldable pub copy_bucket_spec : BucketSpecCell → Action (Memory K) BucketSpecCell
  copy_bucket_spec spec = do
    c ← copy_pointer selector_layout copy_plain spec.cluster_ref
    k ← copy_pointer access_key_layout copy_access_key spec.bucket_access_key
    q ← copy_pointer quotas_layout copy_plain spec.quotas
    pure (record spec { cluster_ref = c; bucket_access_key = k; quotas = q })

  unfoldable pub copy_key_spec : AccessKeySpecCell → Action (Memory K) AccessKeySpecCell
  copy_key_spec spec = do
    c ← copy_pointer selector_layout copy_plain spec.cluster_ref
    s ← copy_pointer key_secret_layout copy_plain spec.secret
    pure (record spec { cluster_ref = c; secret = s })

  unfoldable pub copy_permission_spec : PermissionSpecCell → Action (Memory K) PermissionSpecCell
  copy_permission_spec spec = do
    k ← copy_pointer selector_layout copy_plain spec.key_ref
    b ← copy_pointer selector_layout copy_plain spec.bucket_ref
    p ← copy_pointer permissions_layout copy_plain spec.permissions
    pure (record spec { key_ref = k; bucket_ref = b; permissions = p })

  module _ (kube : KubeCopies K) where
    unfoldable pub copy_endpoint_ca : EndpointCaCell K → Action (Memory K) (EndpointCaCell K)
    copy_endpoint_ca ca = do
      s ← copy_pointer secret_selector_layout kube.secret_key_selector ca.secret_ref
      c ← copy_pointer config_map_selector_layout kube.config_map_key_selector ca.config_map_ref
      pure (record ca { secret_ref = s; config_map_ref = c })

    unfoldable pub copy_endpoint : EndpointCell K → Action (Memory K) (EndpointCell K)
    copy_endpoint endpoint = do
      ca ← copy_endpoint_ca endpoint.ca
      pure (record endpoint { ca = ca })

    unfoldable pub copy_cluster_spec : ClusterSpecCell K → Action (Memory K) (ClusterSpecCell K)
    copy_cluster_spec spec = do
      e ← copy_endpoint spec.endpoint
      t ← copy_pointer secret_selector_layout kube.secret_key_selector spec.admin_token_secret_ref
      pure (record spec { endpoint = e; admin_token_secret_ref = t })

    -- The slice of conditions of a status.
    abbrev pub copy_conditions : Pointer → Action (Memory K) Pointer
    copy_conditions = copy_pointer conditions_layout (copy_items kube.condition)

    unfoldable pub copy_id_status : IdStatusOf Pointer → Action (Memory K) (IdStatusOf Pointer)
    copy_id_status status = do
      c ← copy_conditions status.conditions
      pure (record status { conditions = c })

    unfoldable pub copy_status : StatusOf Pointer → Action (Memory K) (StatusOf Pointer)
    copy_status status = do
      c ← copy_conditions status.conditions
      pure (record status { conditions = c })

    -- The body that the `DeepCopyInto` of the four kinds of objects share.
    unfoldable pub copy_object :
        {S U : Type 0}
        → (S → Action (Memory K) S)
        → (U → Action (Memory K) U)
        → ObjectOf K.ObjectMeta S U
        → Action (Memory K) (ObjectOf K.ObjectMeta S U)
    copy_object copy_spec copy_status object = do
      meta ← kube.object_meta object.meta
      spec ← copy_spec object.spec
      status ← copy_status object.status
      pure (record object { meta = meta; spec = spec; status = status })

    abbrev pub copy_bucket : BucketCell K → Action (Memory K) (BucketCell K)
    copy_bucket = copy_object copy_bucket_spec copy_id_status

    abbrev pub copy_key : KeyCell K → Action (Memory K) (KeyCell K)
    copy_key = copy_object copy_key_spec copy_id_status

    abbrev pub copy_permission : PermissionCell K → Action (Memory K) (PermissionCell K)
    copy_permission = copy_object copy_permission_spec copy_status

    abbrev pub copy_cluster : ClusterCell K → Action (Memory K) (ClusterCell K)
    copy_cluster = copy_object copy_cluster_spec copy_status

    -- The body that the `DeepCopyInto` of the four kinds of lists share.
    unfoldable pub copy_list :
        {A : Type 0}
        → Layout K (List A)
        → (A → Action (Memory K) A)
        → ListCell K
        → Action (Memory K) (ListCell K)
    copy_list layout copy list = do
      meta ← kube.list_meta list.list_meta
      items ← copy_pointer layout (copy_items copy) list.items
      pure (record list { list_meta = meta; items = items })

    abbrev pub copy_bucket_list : ListCell K → Action (Memory K) (ListCell K)
    copy_bucket_list = copy_list buckets_layout copy_bucket

    abbrev pub copy_key_list : ListCell K → Action (Memory K) (ListCell K)
    copy_key_list = copy_list keys_layout copy_key

    abbrev pub copy_permission_list : ListCell K → Action (Memory K) (ListCell K)
    copy_permission_list = copy_list permission_items_layout copy_permission

    abbrev pub copy_cluster_list : ListCell K → Action (Memory K) (ListCell K)
    copy_cluster_list = copy_list clusters_layout copy_cluster
