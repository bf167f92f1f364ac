-- ===== src/Garage/Interface.antt =====
-- The interface `GarageAPI` and the type `GarageManagerFactory`.
use garage_s3_operator.Base.{String, Bool, Option, List, Action}
use garage_s3_operator.Api.{GarageCluster, BucketQuotas, Permissions}
use garage_s3_operator.Platform.{
  Platform, World, Reply, Ack, BucketInfo, KeyInfo, ListKeysItem, ListBucketsItem,
}

-- Methods on the state `W`. `update_bucket` and `set_permissions` take a pointer in the source,
-- which no caller passes as nil.
pub record GarageApi (W : Type 0) : Type 0 where
  pub get_bucket : String → Action W (Reply (Option BucketInfo))
  pub create_bucket : String → Action W (Reply (Option BucketInfo))
  pub update_bucket : String → BucketQuotas → Action W (Reply (Option BucketInfo))
  pub delete_bucket : String → Action W Ack
  -- the name or id to search, then whether to show the secret key
  pub get_key_by_id : String → Bool → Action W (Reply (Option KeyInfo))
  pub create_key : String → Action W (Reply (Option KeyInfo))
  pub delete_key : String → Action W Ack
  pub list_keys : Action W (Reply (List ListKeysItem))
  pub find_key_in_list : String → Action W (Option ListKeysItem)
  pub find_bucket_in_list : String → Action W (Option ListBucketsItem)
  -- access key id, bucket id
  pub set_permissions : String → String → Permissions → Action W (Reply (Option BucketInfo))
  pub deny_all_permissions : String → String → Action W Ack

abbrev pub GarageManagerFactory : Platform → Type 0
GarageManagerFactory P = GarageCluster → Action (World P) (GarageApi (World P))
