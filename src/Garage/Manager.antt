-- ===== src/Garage/Manager.antt =====
-- `GarageManager`: each method makes one request, or two, on its connection.
use garage_s3_operator.Base.{
  String, Bool, true, Option, none, some, List, [], ◌∷◌, ◌==◌, contains, string_eq, if◌then◌else◌,
  Action, wrapped, pure, fail, ◌>>=◌,
}
use garage_s3_operator.Api.{BucketQuotas, Permissions}
use garage_s3_operator.Platform.{
  Platform, World, on_garage, Connection, Reply, Ack, BucketInfo, KeyInfo, ListKeysItem,
  ListBucketsItem, ApiBucketQuotas, ApiBucketKeyPerm, PermChange, Accessors,
}
use garage_s3_operator.Garage.Interface.{GarageApi, GarageManagerFactory}
use garage_s3_operator.Garage.Connect.{new_garage_client}

-- `if err != nil { return nil, resp, err }; return value, resp, nil`
abbrev pub nil_on_error : {A : Type 0} → A → Reply A → Reply A
nil_on_error nil r = elim r.error [ none ↦ r | some _ ↦ record r { value = nil } ]

-- The loops of `findKeyInList` and `findBucketInList`.
unfoldable pub find_key : String → List ListKeysItem → Option ListKeysItem
find_key name [] = none
find_key name (key ∷ keys) = if key.name == name then some key else find_key name keys

unfoldable pub find_bucket : String → List ListBucketsItem → Option ListBucketsItem
find_bucket name [] = none
find_bucket name (bucket ∷ buckets) =
    if contains bucket.global_aliases name then some bucket else find_bucket name buckets

-- One right of `setPermissions`: set in the request that allows, or in the one that denies.
abbrev pub split_right :
    Bool
    → (ApiBucketKeyPerm → ApiBucketKeyPerm)
    → ApiBucketKeyPerm × ApiBucketKeyPerm
    → ApiBucketKeyPerm × ApiBucketKeyPerm
split_right wanted set (allow, deny) = if wanted then (set allow, deny) else (allow, set deny)

module _ (a : Accessors) where
  open a use {new_key_perm, set_owner, set_read, set_write}

  -- The rights to allow, and those to deny.
  unfoldable pub split_permissions : Permissions → ApiBucketKeyPerm × ApiBucketKeyPerm
  split_permissions p = split_right p.write (set_write true) (
      split_right p.read (set_read true)
        (split_right p.owner (set_owner true) (new_key_perm, new_key_perm)))

  -- All three rights, as `denyAllPermissions` takes them away.
  unfoldable pub every_perm : ApiBucketKeyPerm
  every_perm = set_write true (set_read true (set_owner true new_key_perm))

module _ (P : Platform) (c : Connection) where
  open P use {sdk, accessors}

  unfoldable pub get_bucket : String → Action (World P) (Reply (Option BucketInfo))
  get_bucket name = do
    r ← on_garage {P = P} (sdk.get_bucket_info c name)
    pure (nil_on_error none r)

  unfoldable pub create_bucket : String → Action (World P) (Reply (Option BucketInfo))
  create_bucket name = do
    r ← on_garage {P = P} (sdk.create_bucket c (some name))
    pure (nil_on_error none r)

  unfoldable pub update_bucket :
      String → BucketQuotas → Action (World P) (Reply (Option BucketInfo))
  update_bucket id quotas = do
    let q : ApiBucketQuotas = record {
      max_objects = some quotas.max_objects;
      max_size = some quotas.max_size;
    }
    r ← on_garage {P = P} (sdk.update_bucket c id (some q))
    pure (nil_on_error none r)

  unfoldable pub delete_bucket : String → Action (World P) Ack
  delete_bucket id = on_garage {P = P} (sdk.delete_bucket c id)

  unfoldable pub get_key_by_id : String → Bool → Action (World P) (Reply (Option KeyInfo))
  get_key_by_id id show_secret_key = do
    r ← on_garage {P = P} (sdk.get_key_info c show_secret_key id)
    pure (nil_on_error none r)

  unfoldable pub create_key : String → Action (World P) (Reply (Option KeyInfo))
  create_key name = do
    r ← on_garage {P = P} (sdk.create_key c (some name))
    pure (nil_on_error none r)

  unfoldable pub delete_key : String → Action (World P) Ack
  delete_key id = on_garage {P = P} (sdk.delete_key c id)

  unfoldable pub list_keys : Action (World P) (Reply (List ListKeysItem))
  list_keys = do r ← on_garage {P = P} (sdk.list_keys c); pure (nil_on_error [] r)

  unfoldable pub find_key_in_list : String → Action (World P) (Option ListKeysItem)
  unfolding list_keys find_key
  find_key_in_list name = do
    r ← list_keys
    elim r.error [
      | some e ↦ fail (wrapped "unable to list keys" e)
      | none ↦ pure (find_key name r.value)
    ]

  unfoldable pub find_bucket_in_list : String → Action (World P) (Option ListBucketsItem)
  unfolding find_bucket
  find_bucket_in_list name = do
    r ← on_garage {P = P} (sdk.list_buckets c)
    elim r.error [
      | some e ↦ fail (wrapped "unable to list buckets" e)
      | none ↦ pure (find_bucket name r.value)
    ]

  abbrev pub perm_change : String → String → ApiBucketKeyPerm → PermChange
  perm_change key_id bucket_id perms = record {
    access_key_id = key_id;
    bucket_id = bucket_id;
    permissions = perms;
  }

  unfoldable pub set_permissions :
      String → String → Permissions → Action (World P) (Reply (Option BucketInfo))
  unfolding split_permissions
  set_permissions key_id bucket_id p =
      let (allow, deny) = split_permissions accessors p in
      do
        allowed ← on_garage {P = P} (sdk.allow_bucket_key c (perm_change key_id bucket_id allow))
        elim allowed.error [
          | some e ↦ pure (record { value = none; resp = allowed.resp; error = some e })
          | none ↦ do
            denied ← on_garage {P = P} (sdk.deny_bucket_key c (perm_change key_id bucket_id deny))
            pure (nil_on_error none denied)
        ]

  unfoldable pub deny_all_permissions : String → String → Action (World P) Ack
  unfolding every_perm
  deny_all_permissions key_id bucket_id = do
    let request = perm_change key_id bucket_id (every_perm accessors)
    r ← on_garage {P = P} (sdk.deny_bucket_key c request)
    pure (record { resp = r.resp; error = r.error })

  -- `*GarageManager` as a `GarageAPI`
  unfoldable pub garage_manager : GarageApi (World P)
  garage_manager = record {
    get_bucket = get_bucket;
    create_bucket = create_bucket;
    update_bucket = update_bucket;
    delete_bucket = delete_bucket;
    get_key_by_id = get_key_by_id;
    create_key = create_key;
    delete_key = delete_key;
    list_keys = list_keys;
    find_key_in_list = find_key_in_list;
    find_bucket_in_list = find_bucket_in_list;
    set_permissions = set_permissions;
    deny_all_permissions = deny_all_permissions;
  }

-- `defaultGarageManagerFactory` and `newGarageManager`
unfoldable pub default_factory : (P : Platform) → GarageManagerFactory P
unfolding garage_manager
default_factory P cluster = do c ← new_garage_client P cluster; pure (garage_manager P c)

-- A reconciler's factory, which may be nil.
unfoldable pub choose_factory :
    (P : Platform) → Option (GarageManagerFactory P) → GarageManagerFactory P
choose_factory P none = default_factory P
choose_factory P (some factory) = factory
