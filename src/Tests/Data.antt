-- ===== src/Tests/Data.antt =====
-- Objects of a small installation: a bucket that is live and one that is being deleted, a key, a
-- permission, and the state of Garage beside them.
use garage_s3_operator.Base.{ℕ, String, true, false, Option, none, some, [], ◌∷◌, pos}
use garage_s3_operator.Api.{
  Selector, ObjectMeta, Permissions, GarageBucket, GarageAccessKey, GaragePermission, GarageCluster,
  Secret, delete, retain, BucketAccessKey,
}
use garage_s3_operator.Platform.{World, BucketInfo, Connection}
use garage_s3_operator.Garage.{GarageApi, garage_manager}
use garage_s3_operator.Finalizer.{finalizer}
use garage_s3_operator.Tests.Memory.{memory, MemoryGarage, MemoryKube}

abbrev pub connection : Connection
connection = record { url = "https://garage"; tls = none; token = "t" }

abbrev pub manager : GarageApi (World memory)
manager = garage_manager memory connection

abbrev pub meta_of : String → String → Option ℕ → ObjectMeta
meta_of name uid deleted = record {
  name = name;
  namespace = "team";
  uid = uid;
  finalizers = finalizer ∷ [];
  owner_references = [];
  deletion_timestamp = deleted;
}

abbrev pub cluster_selector : Option Selector
cluster_selector = some (record { name = "garage"; namespace = "infra" })

abbrev pub read_write : Permissions
read_write = record { owner = false; read = true; write = true }

abbrev pub access : BucketAccessKey
access = record { enabled = true; permissions = some read_write; format = "" }

abbrev pub bucket : GarageBucket
bucket = record {
  meta = meta_of "media" "b1" none;
  spec = record {
    cluster_ref = cluster_selector;
    override_name = "";
    bucket_access_key = some access;
    quotas = some (record { max_objects = pos 100; max_size = pos 5000 });
    reclaim_policy = delete;
  };
  status = record { id = "" };
}

abbrev pub deleted_bucket : GarageBucket
deleted_bucket = record bucket { meta = meta_of "media" "b1" (some 9) }

abbrev pub retained_bucket : GarageBucket
retained_bucket = record deleted_bucket {
  spec = record deleted_bucket.spec { reclaim_policy = retain };
}

abbrev pub key : GarageAccessKey
key = record {
  meta = meta_of "media" "11" none;
  spec = record {
    cluster_ref = cluster_selector;
    override_name = "";
    reclaim_policy = delete;
    secret = none;
  };
  status = record { id = "" };
}

-- The key as the bucket owns it.
abbrev pub owned_key : GarageAccessKey
owned_key = record key {
  meta = record key.meta {
    owner_references = record { kind = "GarageBucket"; name = "media"; uid = "b1" } ∷ [];
  };
}

-- Another object that asks for the same name in Garage.
abbrev pub renamed_key : GarageAccessKey
renamed_key = record key {
  meta = meta_of "films" "11" none;
  spec = record key.spec { override_name = "media" };
}

abbrev pub permission : GaragePermission
permission = record {
  meta = meta_of "media" "p1" none;
  spec = record {
    key_ref = some (record { name = "media"; namespace = "team" });
    bucket_ref = some (record { name = "media"; namespace = "team" });
    permissions = some read_write;
  };
}

abbrev pub cluster : GarageCluster
cluster = record {
  meta = record (meta_of "garage" "c1" none) { namespace = "infra" };
  spec = record {
    endpoint = record {
      url = "https://garage";
      insecure_skip_tls_verify = false;
      ca = record {
        secret_ref = some (record { name = "tls"; key = "ca" });
        config_map_ref = none;
      };
    };
    admin_token_secret_ref = some (record { name = "tls"; key = "token" });
  };
}

abbrev pub secret : Secret
secret = record {
  meta = record (meta_of "tls" "s1" none) { namespace = "infra" };
  secret_type = "Opaque";
  content = ("ca", "PEM") ∷ ("token", "t") ∷ [];
}

abbrev pub bucket_info : BucketInfo
bucket_info = record {
  id = "bucket-1";
  global_aliases = "media" ∷ [];
  quotas = record { max_objects = none; max_size = none };
}

-- A Garage with the bucket and the key, where the key has the right to own and no other.
abbrev pub garage : MemoryGarage
garage = record {
  bucket = some bucket_info;
  alias = "media";
  key = some (record { id = "key-1"; name = "team/media_11" });
  secret = "s";
  rights = record { owner = true; read = false; write = false };
}

abbrev pub empty_garage : MemoryGarage
empty_garage = record garage { bucket = none; key = none }

abbrev pub kube : MemoryKube
kube = record {
  cluster = some cluster;
  bucket = some bucket;
  key = some owned_key;
  permission = none;
  secret = some secret;
}

abbrev pub world : World memory
world = record { kube = kube; garage = garage }

-- The same with an empty Garage and no secret.
abbrev pub empty_world : World memory
empty_world = record { kube = record kube { secret = none }; garage = empty_garage }

abbrev pub retained_key : GarageAccessKey
retained_key = record key {
  meta = meta_of "media" "11" (some 9);
  spec = record key.spec { reclaim_policy = retain };
}

-- The bucket's name is taken by a key and a permission that it does not own.
abbrev pub disowned_world : World memory
disowned_world = record world {
  kube = record kube { key = some key; permission = some permission };
}
