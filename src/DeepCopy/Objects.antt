-- ===== src/DeepCopy/Objects.antt =====
-- The deep copies of objects and of lists: `DeepCopy`, which the controllers call on the object whose
-- status they patch, and `DeepCopyObject`, which the Kubernetes libraries call.
use garage_s3_operator.Base.{◌≡◌, refl, Option, none, some, List, Action, Yields, Yields-bind}
use garage_s3_operator.Api.{BucketSpec, GarageAccessKeySpec, GaragePermissionSpec}
use garage_s3_operator.DeepCopy.Cells.{
  Pointer, KubeTypes, Memory, Layout, IdStatusOf, StatusOf, ObjectOf, ListOf, BucketCell, KeyCell,
  PermissionCell, ClusterCell, ListCell,
}
use garage_s3_operator.DeepCopy.Layouts.{bucket_layout, key_layout, list_layout}
use garage_s3_operator.DeepCopy.Copies.{
  KubeCopies, copy_pointer, copy_bucket_spec, copy_key_spec, copy_permission_spec,
  copy_cluster_spec, copy_id_status, copy_status, copy_bucket, copy_key, copy_permission,
  copy_cluster, copy_list,
}
use garage_s3_operator.DeepCopy.Pointers.{
  ObjectKind, RuntimeObject, as_object, deep_copy_object, bucket_deep_copy, key_deep_copy,
}
use garage_s3_operator.DeepCopy.Shown.{
  Showing, ShowsPointer, ShowsItems, ShowsBucketSpec, ShowsKeySpec, ShowsPermissionSpec,
  ShowsIdStatus, ShowsStatus, ShowsObject, ShowsList,
}
use garage_s3_operator.DeepCopy.Isolation.{Isolated, Copies, Copies-pointer}
use garage_s3_operator.DeepCopy.Fields.{Copies-object, Copies-list}
use garage_s3_operator.DeepCopy.Specs.{Copies-bucket_spec, Copies-key_spec, Copies-permission_spec}
use garage_s3_operator.DeepCopy.Clusters.{
  KubeLaws, ConditionsValue, ShowsConditions, ClusterSpecValue, ShowsSpec, Copies-id_status,
  Copies-status, Copies-cluster_spec,
}

-- A nil interface shows `none`, an interface of the kind what its pointer shows.
abbrev pub ShowsRuntimeObject :
    {K : KubeTypes} {A T : Type 0}
    → ObjectKind
    → Layout K A
    → Showing K A T
    → Showing K RuntimeObject (Option T)
ShowsRuntimeObject kind layout Shows m none none = Unit
ShowsRuntimeObject kind layout Shows m none (some t) = ⊥
ShowsRuntimeObject kind layout Shows m (some p) none = ⊥
ShowsRuntimeObject kind layout Shows m (some (k, p)) (some t) =
    (k ≡ kind) × ShowsPointer layout Shows m p (some t)

module _ {K : KubeTypes} {A T : Type 0} (kind : ObjectKind) (layout : Layout K A)
    (Shows : Showing K A T) (copy : A → Action (Memory K) A) (copies : Copies Shows copy) where
  as_object-ShowsRuntimeObject :
      (m : Memory K) (c : Pointer) (t : Option T)
      → ShowsPointer layout Shows m c t
      → ShowsRuntimeObject kind layout Shows m (as_object kind c) t
  as_object-ShowsRuntimeObject m none none h = tt
  as_object-ShowsRuntimeObject m none (some t) h = h
  as_object-ShowsRuntimeObject m (some a) none h = h
  as_object-ShowsRuntimeObject m (some a) (some t) h = (refl, h)

  deep_copy_object-Isolated :
      (m : Memory K) (x : Pointer) (t : Option T)
      → ShowsPointer layout Shows m x t
      → Yields
          (Isolated (ShowsRuntimeObject kind layout Shows) t m)
          (deep_copy_object kind (copy_pointer layout copy) x m)
  unfolding deep_copy_object
  deep_copy_object-Isolated m x t h =
      Yields-bind _ _ (copy_pointer layout copy x) _ m
        ((Copies-pointer layout Shows copy copies).isolates m x t h)
        λ c m' i. record {
          grows = i.grows;
          shown = λ later k. as_object-ShowsRuntimeObject later c t (i.shown later k);
        }

module _ {K : KubeTypes} {kube : KubeCopies K} (laws : KubeLaws kube) where
  abbrev pub BucketValue : Type 0
  BucketValue = ObjectOf laws.object_meta.Value BucketSpec (IdStatusOf (ConditionsValue laws))

  abbrev pub KeyValue : Type 0
  KeyValue = ObjectOf laws.object_meta.Value GarageAccessKeySpec (IdStatusOf (ConditionsValue laws))

  abbrev pub PermissionValue : Type 0
  PermissionValue =
      ObjectOf laws.object_meta.Value GaragePermissionSpec (StatusOf (ConditionsValue laws))

  abbrev pub ClusterValue : Type 0
  ClusterValue =
      ObjectOf laws.object_meta.Value (ClusterSpecValue laws) (StatusOf (ConditionsValue laws))

  abbrev pub ShowsBucket : Showing K (BucketCell K) BucketValue
  ShowsBucket =
      ShowsObject laws.object_meta.Shows ShowsBucketSpec (ShowsIdStatus (ShowsConditions laws))

  abbrev pub ShowsKey : Showing K (KeyCell K) KeyValue
  ShowsKey = ShowsObject laws.object_meta.Shows ShowsKeySpec (ShowsIdStatus (ShowsConditions laws))

  abbrev pub ShowsPermission : Showing K (PermissionCell K) PermissionValue
  ShowsPermission =
      ShowsObject laws.object_meta.Shows ShowsPermissionSpec (ShowsStatus (ShowsConditions laws))

  abbrev pub ShowsCluster : Showing K (ClusterCell K) ClusterValue
  ShowsCluster =
      ShowsObject laws.object_meta.Shows (ShowsSpec laws) (ShowsStatus (ShowsConditions laws))

  pub Copies-bucket : Copies ShowsBucket (copy_bucket kube)
  Copies-bucket =
      Copies-object kube _ laws.object_meta.copies _ _ copy_bucket_spec (copy_id_status kube)
        Copies-bucket_spec (Copies-id_status laws)

  pub Copies-key : Copies ShowsKey (copy_key kube)
  Copies-key =
      Copies-object kube _ laws.object_meta.copies _ _ copy_key_spec (copy_id_status kube)
        Copies-key_spec (Copies-id_status laws)

  pub Copies-permission : Copies ShowsPermission (copy_permission kube)
  Copies-permission =
      Copies-object kube _ laws.object_meta.copies _ _ copy_permission_spec (copy_status kube)
        Copies-permission_spec (Copies-status laws)

  pub Copies-cluster : Copies ShowsCluster (copy_cluster kube)
  Copies-cluster =
      Copies-object kube _ laws.object_meta.copies _ _ (copy_cluster_spec kube) (copy_status kube)
        (Copies-cluster_spec laws) (Copies-status laws)

  -- `DeepCopy` of a GarageBucket, at a nil pointer or at one whose cells are there, returns. No cell
  -- changes, and the copy shows the same object, with its metadata, spec and status, in every memory
  -- that keeps the new cells: nothing written through the original can be seen in the copy. It
  -- assumes that `DeepCopyInto` of the Kubernetes libraries' types copies in that sense.
  pub bucket_deep_copy-Isolated :
      (m : Memory K) (x : Pointer) (t : Option BucketValue)
      → ShowsPointer bucket_layout ShowsBucket m x t
      → Yields (Isolated (ShowsPointer bucket_layout ShowsBucket) t m) (bucket_deep_copy kube x m)
  bucket_deep_copy-Isolated =
      (Copies-pointer bucket_layout ShowsBucket (copy_bucket kube) Copies-bucket).isolates

  -- `DeepCopy` of a GarageAccessKey, at a nil pointer or at one whose cells are there, returns. No cell
  -- changes, and the copy shows the same object, with its metadata, spec and status, in every memory
  -- that keeps the new cells. It assumes that `DeepCopyInto` of the Kubernetes libraries' types copies
  -- in that sense.
  pub key_deep_copy-Isolated :
      (m : Memory K) (x : Pointer) (t : Option KeyValue)
      → ShowsPointer key_layout ShowsKey m x t
      → Yields (Isolated (ShowsPointer key_layout ShowsKey) t m) (key_deep_copy kube x m)
  key_deep_copy-Isolated = (Copies-pointer key_layout ShowsKey (copy_key kube) Copies-key).isolates

  -- What the list of objects of a type shows.
  abbrev pub ListValue : Type 0 → Type 0
  ListValue R = ListOf laws.list_meta.Value (Option (List R))

  module _ {A T : Type 0} where
    abbrev pub ShowsListOf :
        Layout K (List A) → Showing K A T → Showing K (ListCell K) (ListValue T)
    ShowsListOf layout Item = ShowsList laws.list_meta.Shows (ShowsPointer layout (ShowsItems Item))

    pub list_object-Isolated :
        (kind : ObjectKind) (layout : Layout K (List A)) (Item : Showing K A T)
        (copy : A → Action (Memory K) A)
        → Copies Item copy
        → (m : Memory K) (x : Pointer) (t : Option (ListValue T))
        → ShowsPointer list_layout (ShowsListOf layout Item) m x t
        → Yields
            (Isolated (ShowsRuntimeObject kind list_layout (ShowsListOf layout Item)) t m)
            (deep_copy_object kind (copy_pointer list_layout (copy_list kube layout copy)) x m)
    list_object-Isolated kind layout Item copy item =
        deep_copy_object-Isolated kind list_layout (ShowsListOf layout Item)
          (copy_list kube layout copy)
          (Copies-list kube laws.list_meta.Shows laws.list_meta.copies layout Item copy item)
