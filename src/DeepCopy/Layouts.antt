-- ===== src/DeepCopy/Layouts.antt =====
-- The layouts of the types that pointers and slices lead to.
use garage_s3_operator.Base.{none, some, List, refl}
use garage_s3_operator.Api.{Selector, Permissions, BucketQuotas, AccessKeySecret}
use garage_s3_operator.DeepCopy.Cells.{
  Pointer, KubeTypes, BucketAccessKeyCell, BucketSpecCell, AccessKeySpecCell, PermissionSpecCell,
  IdStatusOf, StatusOf, EndpointCaCell, EndpointCell, ClusterSpecCell, BucketCell, KeyCell,
  PermissionCell, ClusterCell, ListCell, Layout, selector, permissions, quotas, key_secret,
  access_key, secret_selector, config_map_selector, endpoint_ca, endpoint, bucket_spec, key_spec,
  permission_spec, cluster_spec, conditions, id_status, status, bucket, key, permission, cluster,
  buckets, keys, permission_items, clusters, list,
}

module _ {K : KubeTypes} where
  abbrev pub selector_layout : Layout K Selector
  selector_layout = record {
    inject = selector;
    project = λ c. elim c [ selector v ↦ some v | _ ↦ none ];
    project-inject = λ v. refl;
  }

  abbrev pub permissions_layout : Layout K Permissions
  permissions_layout = record {
    inject = permissions;
    project = λ c. elim c [ permissions v ↦ some v | _ ↦ none ];
    project-inject = λ v. refl;
  }

  abbrev pub quotas_layout : Layout K BucketQuotas
  quotas_layout = record {
    inject = quotas;
    project = λ c. elim c [ quotas v ↦ some v | _ ↦ none ];
    project-inject = λ v. refl;
  }

  abbrev pub key_secret_layout : Layout K AccessKeySecret
  key_secret_layout = record {
    inject = key_secret;
    project = λ c. elim c [ key_secret v ↦ some v | _ ↦ none ];
    project-inject = λ v. refl;
  }

  abbrev pub access_key_layout : Layout K BucketAccessKeyCell
  access_key_layout = record {
    inject = access_key;
    project = λ c. elim c [ access_key v ↦ some v | _ ↦ none ];
    project-inject = λ v. refl;
  }

  abbrev pub secret_selector_layout : Layout K K.SecretKeySelector
  secret_selector_layout = record {
    inject = secret_selector;
    project = λ c. elim c [ secret_selector v ↦ some v | _ ↦ none ];
    project-inject = λ v. refl;
  }

  abbrev pub config_map_selector_layout : Layout K K.ConfigMapKeySelector
  config_map_selector_layout = record {
    inject = config_map_selector;
    project = λ c. elim c [ config_map_selector v ↦ some v | _ ↦ none ];
    project-inject = λ v. refl;
  }

  abbrev pub endpoint_ca_layout : Layout K (EndpointCaCell K)
  endpoint_ca_layout = record {
    inject = endpoint_ca;
    project = λ c. elim c [ endpoint_ca v ↦ some v | _ ↦ none ];
    project-inject = λ v. refl;
  }

  abbrev pub endpoint_layout : Layout K (EndpointCell K)
  endpoint_layout = record {
    inject = endpoint;
    project = λ c. elim c [ endpoint v ↦ some v | _ ↦ none ];
    project-inject = λ v. refl;
  }

  abbrev pub bucket_spec_layout : Layout K BucketSpecCell
  bucket_spec_layout = record {
    inject = bucket_spec;
    project = λ c. elim c [ bucket_spec v ↦ some v | _ ↦ none ];
    project-inject = λ v. refl;
  }

  abbrev pub key_spec_layout : Layout K AccessKeySpecCell
  key_spec_layout = record {
    inject = key_spec;
    project = λ c. elim c [ key_spec v ↦ some v | _ ↦ none ];
    project-inject = λ v. refl;
  }

  abbrev pub permission_spec_layout : Layout K PermissionSpecCell
  permission_spec_layout = record {
    inject = permission_spec;
    project = λ c. elim c [ permission_spec v ↦ some v | _ ↦ none ];
    project-inject = λ v. refl;
  }

  abbrev pub cluster_spec_layout : Layout K (ClusterSpecCell K)
  cluster_spec_layout = record {
    inject = cluster_spec;
    project = λ c. elim c [ cluster_spec v ↦ some v | _ ↦ none ];
    project-inject = λ v. refl;
  }

  abbrev pub conditions_layout : Layout K (List K.Condition)
  conditions_layout = record {
    inject = conditions;
    project = λ c. elim c [ conditions v ↦ some v | _ ↦ none ];
    project-inject = λ v. refl;
  }

  abbrev pub id_status_layout : Layout K (IdStatusOf Pointer)
  id_status_layout = record {
    inject = id_status;
    project = λ c. elim c [ id_status v ↦ some v | _ ↦ none ];
    project-inject = λ v. refl;
  }

  abbrev pub status_layout : Layout K (StatusOf Pointer)
  status_layout = record {
    inject = status;
    project = λ c. elim c [ status v ↦ some v | _ ↦ none ];
    project-inject = λ v. refl;
  }

  abbrev pub bucket_layout : Layout K (BucketCell K)
  bucket_layout = record {
    inject = bucket;
    project = λ c. elim c [ bucket v ↦ some v | _ ↦ none ];
    project-inject = λ v. refl;
  }

  abbrev pub key_layout : Layout K (KeyCell K)
  key_layout = record {
    inject = key;
    project = λ c. elim c [ key v ↦ some v | _ ↦ none ];
    project-inject = λ v. refl;
  }

  abbrev pub permission_layout : Layout K (PermissionCell K)
  permission_layout = record {
    inject = permission;
    project = λ c. elim c [ permission v ↦ some v | _ ↦ none ];
    project-inject = λ v. refl;
  }

  abbrev pub cluster_layout : Layout K (ClusterCell K)
  cluster_layout = record {
    inject = cluster;
    project = λ c. elim c [ cluster v ↦ some v | _ ↦ none ];
    project-inject = λ v. refl;
  }

  abbrev pub buckets_layout : Layout K (List (BucketCell K))
  buckets_layout = record {
    inject = buckets;
    project = λ c. elim c [ buckets v ↦ some v | _ ↦ none ];
    project-inject = λ v. refl;
  }

  abbrev pub keys_layout : Layout K (List (KeyCell K))
  keys_layout = record {
    inject = keys;
    project = λ c. elim c [ keys v ↦ some v | _ ↦ none ];
    project-inject = λ v. refl;
  }

  abbrev pub permission_items_layout : Layout K (List (PermissionCell K))
  permission_items_layout = record {
    inject = permission_items;
    project = λ c. elim c [ permission_items v ↦ some v | _ ↦ none ];
    project-inject = λ v. refl;
  }

  abbrev pub clusters_layout : Layout K (List (ClusterCell K))
  clusters_layout = record {
    inject = clusters;
    project = λ c. elim c [ clusters v ↦ some v | _ ↦ none ];
    project-inject = λ v. refl;
  }

  abbrev pub list_layout : Layout K (ListCell K)
  list_layout = record {
    inject = list;
    project = λ c. elim c [ list v ↦ some v | _ ↦ none ];
    project-inject = λ v. refl;
  }
