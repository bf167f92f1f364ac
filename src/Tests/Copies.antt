-- ===== src/Tests/Copies.antt =====
-- Deep copies in a small memory.
use garage_s3_operator.Base.{some, refl, Yields}
use garage_s3_operator.DeepCopy.{
  bucket_layout, key_layout, permission_items_layout, clusters_layout, list_layout,
  bucket_deep_copy, key_deep_copy, permission_list_kind, cluster_list_kind,
  permission_list_deep_copy_object, cluster_list_deep_copy_object,
}
use garage_s3_operator.DeepCopy.Shown.{ShowsPointer}
use garage_s3_operator.DeepCopy.Isolation.{Isolated}
use garage_s3_operator.DeepCopy.Objects.{
  ShowsBucket, ShowsKey, ShowsPermission, ShowsCluster, ShowsListOf, ShowsRuntimeObject,
  bucket_deep_copy-Isolated, key_deep_copy-Isolated,
}
use garage_s3_operator.DeepCopy.Lists.{
  permission_list_deep_copy_object-Isolated, cluster_list_deep_copy_object-Isolated,
}
use garage_s3_operator.Tests.CopyData.{
  kube, laws, memory, bucket_value, key_value, permission_list, cluster_list,
}

bucket_deep_copy-Isolated_example :
    Yields
      (Isolated (ShowsPointer bucket_layout (ShowsBucket laws)) (some bucket_value) memory)
      (bucket_deep_copy kube (some 4) memory)
bucket_deep_copy-Isolated_example =
    bucket_deep_copy-Isolated laws memory (some 4) (some bucket_value) (
      _,
      refl,
      record {
        type_meta = refl;
        meta = refl;
        spec = record {
          cluster_ref = (_, refl, refl);
          override_name = refl;
          bucket_access_key =
              (_, refl, record { enabled = refl; permissions = (_, refl, refl); format = refl });
          quotas = tt;
          reclaim_policy = refl;
        };
        status = record { id = refl; conditions = (_, refl, (refl, tt)) };
      },
    )

key_deep_copy-Isolated_example :
    Yields
      (Isolated (ShowsPointer key_layout (ShowsKey laws)) (some key_value) memory)
      (key_deep_copy kube (some 6) memory)
key_deep_copy-Isolated_example = key_deep_copy-Isolated laws memory (some 6) (some key_value) (
  _,
  refl,
  record {
    type_meta = refl;
    meta = refl;
    spec = record {
      cluster_ref = (_, refl, refl);
      override_name = refl;
      reclaim_policy = refl;
      secret = (_, refl, refl);
    };
    status = record { id = refl; conditions = tt };
  },
)

permission_list_deep_copy_object-Isolated_example :
    Yields
      (Isolated
        (ShowsRuntimeObject permission_list_kind list_layout
          (ShowsListOf laws permission_items_layout (ShowsPermission laws)))
        (some permission_list)
        memory)
      (permission_list_deep_copy_object kube (some 8) memory)
permission_list_deep_copy_object-Isolated_example =
    permission_list_deep_copy_object-Isolated laws memory (some 8) (some permission_list) (
      _,
      refl,
      record {
        type_meta = refl;
        list_meta = refl;
        items = (
          _,
          refl,
          (
            record {
              type_meta = refl;
              meta = refl;
              spec = record {
                key_ref = (_, refl, refl);
                bucket_ref = (_, refl, refl);
                permissions = tt;
              };
              status = record { conditions = tt };
            },
            tt,
          ),
        );
      },
    )

cluster_list_deep_copy_object-Isolated_example :
    Yields
      (Isolated
        (ShowsRuntimeObject cluster_list_kind list_layout
          (ShowsListOf laws clusters_layout (ShowsCluster laws)))
        (some cluster_list)
        memory)
      (cluster_list_deep_copy_object kube (some 11) memory)
cluster_list_deep_copy_object-Isolated_example =
    cluster_list_deep_copy_object-Isolated laws memory (some 11) (some cluster_list) (
      _,
      refl,
      record {
        type_meta = refl;
        list_meta = refl;
        items = (
          _,
          refl,
          (
            record {
              type_meta = refl;
              meta = refl;
              spec = record {
                endpoint = record {
                  url = refl;
                  insecure_skip_tls_verify = refl;
                  ca = record { secret_ref = (_, refl, refl); config_map_ref = tt };
                };
                admin_token_secret_ref = (_, refl, refl);
              };
              status = record { conditions = tt };
            },
            tt,
          ),
        );
      },
    )
