-- ===== src/DeepCopy/Lists.antt =====
-- `DeepCopyObject` of the four kinds of lists.
use garage_s3_operator.Base.{Option, Yields}
use garage_s3_operator.DeepCopy.Cells.{Pointer, KubeTypes, Memory}
use garage_s3_operator.DeepCopy.Layouts.{
  buckets_layout, keys_layout, permission_items_layout, clusters_layout, list_layout,
}
use garage_s3_operator.DeepCopy.Copies.{
  KubeCopies, copy_bucket, copy_key, copy_permission, copy_cluster,
}
use garage_s3_operator.DeepCopy.Pointers.{
  bucket_list_kind, key_list_kind, permission_list_kind, cluster_list_kind,
  bucket_list_deep_copy_object, key_list_deep_copy_object, permission_list_deep_copy_object,
  cluster_list_deep_copy_object,
}
use garage_s3_operator.DeepCopy.Shown.{ShowsPointer}
use garage_s3_operator.DeepCopy.Isolation.{Isolated}
use garage_s3_operator.DeepCopy.Clusters.{KubeLaws}
use garage_s3_operator.DeepCopy.Objects.{
  ShowsRuntimeObject, BucketValue, KeyValue, PermissionValue, ClusterValue, ShowsBucket, ShowsKey,
  ShowsPermission, ShowsCluster, Copies-bucket, Copies-key, Copies-permission, Copies-cluster,
  ListValue, ShowsListOf, list_object-Isolated,
}

module _ {K : KubeTypes} {kube : KubeCopies K} (laws : KubeLaws kube) where
  -- The same for `DeepCopyObject` of a GarageBucketList.
  pub bucket_list_deep_copy_object-Isolated :
      (m : Memory K) (x : Pointer) (t : Option (ListValue laws (BucketValue laws)))
      → ShowsPointer list_layout (ShowsListOf laws buckets_layout (ShowsBucket laws)) m x t
      → Yields
          (Isolated
            (ShowsRuntimeObject bucket_list_kind list_layout
              (ShowsListOf laws buckets_layout (ShowsBucket laws)))
            t
            m)
          (bucket_list_deep_copy_object kube x m)
  bucket_list_deep_copy_object-Isolated =
      list_object-Isolated laws bucket_list_kind buckets_layout (ShowsBucket laws)
        (copy_bucket kube) (Copies-bucket laws)

  -- The same for `DeepCopyObject` of a GarageAccessKeyList.
  pub key_list_deep_copy_object-Isolated :
      (m : Memory K) (x : Pointer) (t : Option (ListValue laws (KeyValue laws)))
      → ShowsPointer list_layout (ShowsListOf laws keys_layout (ShowsKey laws)) m x t
      → Yields
          (Isolated
            (ShowsRuntimeObject key_list_kind list_layout
              (ShowsListOf laws keys_layout (ShowsKey laws)))
            t
            m)
          (key_list_deep_copy_object kube x m)
  key_list_deep_copy_object-Isolated =
      list_object-Isolated laws key_list_kind keys_layout (ShowsKey laws) (copy_key kube)
        (Copies-key laws)

  -- `DeepCopyObject` of a GaragePermissionList, at a nil pointer or at one whose cells are there,
  -- returns: the nil interface for a nil pointer, and else a list. No cell changes, and the copy shows
  -- the same list, item by item, in every memory that keeps the new cells. It assumes that
  -- `DeepCopyInto` of the Kubernetes libraries' types copies in that sense.
  pub permission_list_deep_copy_object-Isolated :
      (m : Memory K) (x : Pointer) (t : Option (ListValue laws (PermissionValue laws)))
      → ShowsPointer list_layout
          (ShowsListOf laws permission_items_layout (ShowsPermission laws))
          m
          x
          t
      → Yields
          (Isolated
            (ShowsRuntimeObject permission_list_kind list_layout
              (ShowsListOf laws permission_items_layout (ShowsPermission laws)))
            t
            m)
          (permission_list_deep_copy_object kube x m)
  permission_list_deep_copy_object-Isolated =
      list_object-Isolated laws permission_list_kind permission_items_layout (ShowsPermission laws)
        (copy_permission kube) (Copies-permission laws)

  -- `DeepCopyObject` of a GarageClusterList, at a nil pointer or at one whose cells are there, returns:
  -- the nil interface for a nil pointer, and else a list. No cell changes, and the copy shows the same
  -- list, item by item, in every memory that keeps the new cells. It assumes that `DeepCopyInto` of
  -- the Kubernetes libraries' types copies in that sense.
  pub cluster_list_deep_copy_object-Isolated :
      (m : Memory K) (x : Pointer) (t : Option (ListValue laws (ClusterValue laws)))
      → ShowsPointer list_layout (ShowsListOf laws clusters_layout (ShowsCluster laws)) m x t
      → Yields
          (Isolated
            (ShowsRuntimeObject cluster_list_kind list_layout
              (ShowsListOf laws clusters_layout (ShowsCluster laws)))
            t
            m)
          (cluster_list_deep_copy_object kube x m)
  cluster_list_deep_copy_object-Isolated =
      list_object-Isolated laws cluster_list_kind clusters_layout (ShowsCluster laws)
        (copy_cluster kube) (Copies-cluster laws)
