-- ===== src/Platform/GarageSdk.antt =====
-- The Garage admin SDK: its requests, and the accessors of its data. The data types hold what the
-- source reads of the SDK's models.
use garage_s3_operator.Base.{ℕ, String, Bool, Option, List, ℤ, Error, Action}

-- `http.Response`
pub record Response : Type 0 where
  pub status_code : ℕ
  pub status : String

-- The three results of an SDK call: a value, a response that may be nil, an error that may be nil.
pub record Reply (A : Type 0) : Type 0 where
  pub value : A
  pub resp : Option Response
  pub error : Option Error

-- The two results of a call that has no value.
pub record Ack : Type 0 where
  pub resp : Option Response
  pub error : Option Error

pub record ApiBucketQuotas : Type 0 where
  pub max_objects : Option ℤ
  pub max_size : Option ℤ

pub record ApiBucketKeyPerm : Type 0 where
  pub owner : Option Bool
  pub read : Option Bool
  pub write : Option Bool

pub record BucketInfo : Type 0 where
  pub id : String
  pub global_aliases : List String
  pub quotas : ApiBucketQuotas

pub record KeyBucket : Type 0 where
  pub id : String
  pub global_aliases : List String
  pub permissions : ApiBucketKeyPerm

pub record KeyInfo : Type 0 where
  pub access_key_id : String
  pub name : String
  pub secret_access_key : Option String
  pub buckets : List KeyBucket

pub record ListKeysItem : Type 0 where
  pub id : String
  pub name : String

pub record ListBucketsItem : Type 0 where
  pub id : String
  pub global_aliases : List String

-- `tls.Config`: `root_cas` is the text of the certificates in the pool.
pub record TlsConfig : Type 0 where
  pub insecure_skip_verify : Bool
  pub root_cas : Option String

-- `garage.APIClient` with its context: the server, the transport, the access token.
pub record Connection : Type 0 where
  pub url : String
  pub tls : Option TlsConfig
  pub token : String

-- A bucket-key permission change: access key id, bucket id, rights.
pub record PermChange : Type 0 where
  pub access_key_id : String
  pub bucket_id : String
  pub permissions : ApiBucketKeyPerm

pub record Sdk (G : Type 0) : Type 0 where
  -- by global alias
  pub get_bucket_info : Connection → String → Action G (Reply (Option BucketInfo))
  pub create_bucket : Connection → Option String → Action G (Reply (Option BucketInfo))
  pub update_bucket :
      Connection → String → Option ApiBucketQuotas → Action G (Reply (Option BucketInfo))
  pub delete_bucket : Connection → String → Action G Ack
  pub list_buckets : Connection → Action G (Reply (List ListBucketsItem))
  -- show the secret key, search
  pub get_key_info : Connection → Bool → String → Action G (Reply (Option KeyInfo))
  pub create_key : Connection → Option String → Action G (Reply (Option KeyInfo))
  pub delete_key : Connection → String → Action G Ack
  pub list_keys : Connection → Action G (Reply (List ListKeysItem))
  pub allow_bucket_key : Connection → PermChange → Action G (Reply (Option BucketInfo))
  pub deny_bucket_key : Connection → PermChange → Action G (Reply (Option BucketInfo))

-- The generated accessors. Those on pointers take nil too.
pub record Accessors : Type 0 where
  pub get_max_objects : ApiBucketQuotas → ℤ
  pub get_max_size : ApiBucketQuotas → ℤ
  pub get_bucket_id : Option BucketInfo → String
  pub get_access_key_id : Option KeyInfo → String
  pub get_secret_access_key : Option KeyInfo → String
  pub get_buckets : Option KeyInfo → List KeyBucket
  pub get_global_aliases : KeyBucket → List String
  pub get_owner : ApiBucketKeyPerm → Bool
  pub get_read : ApiBucketKeyPerm → Bool
  pub get_write : ApiBucketKeyPerm → Bool
  pub new_key_perm : ApiBucketKeyPerm
  pub set_owner : Bool → ApiBucketKeyPerm → ApiBucketKeyPerm
  pub set_read : Bool → ApiBucketKeyPerm → ApiBucketKeyPerm
  pub set_write : Bool → ApiBucketKeyPerm → ApiBucketKeyPerm
