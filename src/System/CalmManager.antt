-- ===== src/System/CalmManager.antt =====
-- `GarageManager` as the controllers need it, from calls of the libraries that do not panic.
use garage_s3_operator.Base.{◌≢◌, panics, List, Safely, Filled, Calmly, Calmly-of_Safely}
use garage_s3_operator.Api.{
  NamespacedName, OwnerReference, ObjectMeta, GarageCluster, GarageBucket, GarageAccessKey,
  GaragePermission,
}
use garage_s3_operator.Platform.{Platform, Connection, Owner}
use garage_s3_operator.Garage.{garage_manager}
use garage_s3_operator.Garage.NoPanic.{
  CalmSdk, get_bucket-Filled, create_bucket-Filled, get_key_by_id-Filled, update_bucket-Calmly,
  delete_bucket-Calmly, create_key-Calmly, delete_key-Calmly, find_key_in_list-Calmly,
  find_bucket_in_list-Calmly, set_permissions-Calmly, deny_all_permissions-Calmly,
}
use garage_s3_operator.Bucket.NilSafety.{CalmResource}
use garage_s3_operator.System.NoPanic.{CalmSystem}

module _ (P : Platform) where
  open P use {client, util}

  -- A GarageCluster names the secret of its admin token, as its definition in Kubernetes requires.
  abbrev pub HasToken : GarageCluster → Type 0
  HasToken cluster = Filled cluster.spec.admin_token_secret_ref

  -- No call of the Kubernetes libraries or of the admin SDK panics, and the objects that are read
  -- have the fields that Kubernetes requires of them.
  pub record CalmServer : Type 0 where
    pub get_cluster :
        (n : NamespacedName) (k : P.Kube) → Safely (λ c _. HasToken c) (client.clusters.get n k)
    pub get_permission :
        (n : NamespacedName) (k : P.Kube)
        → Safely (λ p _. Filled p.spec.bucket_ref) (client.permissions.get n k)
    pub buckets : CalmResource client.buckets
    pub access_keys : CalmResource client.access_keys
    pub permissions : CalmResource client.permissions
    pub secrets : CalmResource client.secrets
    pub update_bucket : (b : GarageBucket) → Calmly (client.buckets.update b)
    pub update_key : (k : GarageAccessKey) → Calmly (client.access_keys.update k)
    pub update_permission : (p : GaragePermission) → Calmly (client.permissions.update p)
    pub has_owner_reference :
        (rs : List OwnerReference) (o : Owner) → util.has_owner_reference rs o ≢ panics
    pub set_owner_reference : (o : Owner) (m : ObjectMeta) → util.set_owner_reference o m ≢ panics
    pub sdk : (c : Connection) → CalmSdk P c

  pub garage_manager-CalmSystem : CalmServer → (c : Connection) → CalmSystem P (garage_manager P c)
  unfolding garage_manager
  garage_manager-CalmSystem calm c =
      let sdk : CalmSdk P c = calm.sdk c in
      record {
        calls = record {
          get_bucket = get_bucket-Filled P c sdk;
          create_bucket = create_bucket-Filled P c sdk;
          update_bucket = λ id q. (update_bucket-Calmly P c sdk id q).after;
          buckets = calm.buckets;
          access_keys = calm.access_keys;
          permissions = calm.permissions;
          has_owner_reference = calm.has_owner_reference;
          set_owner_reference = calm.set_owner_reference;
        };
        key_calls = record {
          find_key_in_list = find_key_in_list-Calmly P c sdk;
          create_key = create_key-Calmly P c sdk;
          delete_key = delete_key-Calmly P c sdk;
          get_key_by_id = get_key_by_id-Filled P c sdk;
          update = calm.update_key;
          patch_status = λ base k. record { after = calm.access_keys.patch_status base k };
          write_secret = λ s f h. record { after = λ k. calm.secrets.create_or_update s f k h };
          set_owner_reference = calm.set_owner_reference;
        };
        permission_calls = record {
          get_bucket = λ n. Calmly-of_Safely _ _ (get_bucket-Filled P c sdk n);
          get_key_by_id = λ n b. Calmly-of_Safely _ _ (get_key_by_id-Filled P c sdk n b);
          set_permissions = set_permissions-Calmly P c sdk;
          find_bucket_in_list = find_bucket_in_list-Calmly P c sdk;
          find_key_in_list = find_key_in_list-Calmly P c sdk;
          deny_all_permissions = deny_all_permissions-Calmly P c sdk;
          get_key = λ n. record { after = calm.access_keys.get n };
          update = calm.update_permission;
        };
        delete_bucket = delete_bucket-Calmly P c sdk;
        update = calm.update_bucket;
      }
