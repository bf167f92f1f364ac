-- ===== src/Tests/CopyData.antt =====
-- A small memory of objects, with a piece of text for each struct of the Kubernetes libraries.
use garage_s3_operator.Base.{String, true, false, none, some, [], ◌∷◌}
use garage_s3_operator.Api.{Selector, AccessKeySecret, delete}
use garage_s3_operator.DeepCopy.{
  KubeTypes, KubeCopies, Memory, TypeMeta, copy_plain, selector, permissions, access_key,
  key_secret, bucket, key, conditions, permission_items, clusters, list, secret_selector,
}
use garage_s3_operator.DeepCopy.Shown.{ShowsPlain}
use garage_s3_operator.DeepCopy.Isolation.{Copies-plain}
use garage_s3_operator.DeepCopy.Clusters.{CopyLaw, KubeLaws}
use garage_s3_operator.DeepCopy.Objects.{
  BucketValue, KeyValue, PermissionValue, ClusterValue, ListValue,
}
use garage_s3_operator.Tests.Data.{read_write}

abbrev pub texts : KubeTypes
texts = record {
  ObjectMeta = String;
  ListMeta = String;
  Condition = String;
  SecretKeySelector = String;
  ConfigMapKeySelector = String;
  Inner = Unit;
}

abbrev pub kube : KubeCopies texts
kube = record {
  object_meta = copy_plain;
  list_meta = copy_plain;
  condition = copy_plain;
  secret_key_selector = copy_plain;
  config_map_key_selector = copy_plain;
}

abbrev pub plain : CopyLaw {K = texts} {X = String} copy_plain
plain = record { Value = String; Shows = ShowsPlain; copies = Copies-plain }

abbrev pub laws : KubeLaws kube
laws = record {
  object_meta = plain;
  list_meta = plain;
  condition = plain;
  secret_key_selector = plain;
  config_map_key_selector = plain;
}

abbrev pub garage_selector : Selector
garage_selector = record { name = "garage"; namespace = "infra" }

abbrev pub key_settings : AccessKeySecret
key_settings = record { name = "s"; format = "" }

abbrev pub type_meta : TypeMeta
type_meta = record { kind = ""; api_version = "" }

-- Two pointers of the permission are to the same selector.
abbrev pub memory : Memory texts
memory =
    selector garage_selector
    ∷ permissions read_write
    ∷ access_key (record { enabled = true; permissions = some 1; format = "" })
    ∷ conditions ("Available" ∷ [])
    ∷ bucket (record {
      type_meta = type_meta;
      meta = "media";
      spec = record {
        cluster_ref = some 0;
        override_name = "m";
        bucket_access_key = some 2;
        quotas = none;
        reclaim_policy = delete;
      };
      status = record { id = "b1"; conditions = some 3 };
    })
    ∷ key_secret key_settings
    ∷ key (record {
      type_meta = type_meta;
      meta = "media";
      spec = record {
        cluster_ref = some 0;
        override_name = "";
        reclaim_policy = delete;
        secret = some 5;
      };
      status = record { id = "k1"; conditions = none };
    })
    ∷ permission_items (
        record {
          type_meta = type_meta;
          meta = "media";
          spec = record { key_ref = some 0; bucket_ref = some 0; permissions = none };
          status = record { conditions = none };
        }
        ∷ [])
    ∷ list (record { type_meta = type_meta; list_meta = "1"; items = some 7 })
    ∷ secret_selector "token"
    ∷ clusters (
        record {
          type_meta = type_meta;
          meta = "garage";
          spec = record {
            endpoint = record {
              url = "https://garage";
              insecure_skip_tls_verify = false;
              ca = record { secret_ref = some 9; config_map_ref = none };
            };
            admin_token_secret_ref = some 9;
          };
          status = record { conditions = none };
        }
        ∷ [])
    ∷ list (record { type_meta = type_meta; list_meta = "2"; items = some 10 })
    ∷ []

abbrev pub bucket_value : BucketValue laws
bucket_value = record {
  type_meta = type_meta;
  meta = "media";
  spec = record {
    cluster_ref = some garage_selector;
    override_name = "m";
    bucket_access_key =
        some (record { enabled = true; permissions = some read_write; format = "" });
    quotas = none;
    reclaim_policy = delete;
  };
  status = record { id = "b1"; conditions = some ("Available" ∷ []) };
}

abbrev pub key_value : KeyValue laws
key_value = record {
  type_meta = type_meta;
  meta = "media";
  spec = record {
    cluster_ref = some garage_selector;
    override_name = "";
    reclaim_policy = delete;
    secret = some key_settings;
  };
  status = record { id = "k1"; conditions = none };
}

abbrev pub permission_list : ListValue laws (PermissionValue laws)
permission_list = record {
  type_meta = type_meta;
  list_meta = "1";
  items = some (
      record {
        type_meta = type_meta;
        meta = "media";
        spec = record {
          key_ref = some garage_selector;
          bucket_ref = some garage_selector;
          permissions = none;
        };
        status = record { conditions = none };
      }
      ∷ []);
}

abbrev pub cluster_list : ListValue laws (ClusterValue laws)
cluster_list = record {
  type_meta = type_meta;
  list_meta = "2";
  items = some (
      record {
        type_meta = type_meta;
        meta = "garage";
        spec = record {
          endpoint = record {
            url = "https://garage";
            insecure_skip_tls_verify = false;
            ca = record { secret_ref = some "token"; config_map_ref = none };
          };
          admin_token_secret_ref = some "token";
        };
        status = record { conditions = none };
      }
      ∷ []);
}
