-- ===== src/Requests/Manager.antt =====
-- The requests of the methods of `GarageManager`, and of what makes the manager.
use garage_s3_operator.Base.{
  String, Bool, none, some, Option, OnReturn, OnReturn-bind, OnReturn-any, ◌==◌, string_eq,
  Costs-pure, Costs-fail, Costs-deref, Costs-bind, Costs-wrap_error, Costs-if, Costs-option,
}
use garage_s3_operator.Api.{GarageCluster, BucketQuotas, Permissions, Selector, KeySelector}
use garage_s3_operator.Platform.{Platform, World, Connection, PermChange, on_garage}
use garage_s3_operator.Helper.{get_bucket, get_key, get_cluster, get_secret_value, map_get}
use garage_s3_operator.Garage as Manager
use garage_s3_operator.Garage.{
  GarageApi, garage_manager, create_bucket, update_bucket, delete_bucket, get_key_by_id, create_key,
  delete_key, list_keys, find_key_in_list, find_bucket_in_list, set_permissions,
  deny_all_permissions, perm_change, split_permissions, new_garage_client, default_factory,
  choose_factory, load_ca, tls_config, transport,
}
use garage_s3_operator.Requests.Metered.{metered, Spends, Spends-on_kube, Spends-on_garage}

module _ (P : Platform) where
  pub get_cluster-Spends : (s : Option Selector) → Spends P 0 (get_cluster (metered P) s)
  unfolding get_cluster
  get_cluster-Spends none = Costs-fail
  get_cluster-Spends (some s) = Spends-on_kube P _

  pub get_key-Spends : (s : Option Selector) → Spends P 0 (get_key (metered P) s)
  unfolding get_key
  get_key-Spends none = Costs-fail
  get_key-Spends (some s) = Spends-on_kube P _

  pub get_bucket-Spends : (s : Option Selector) → Spends P 0 (get_bucket (metered P) s)
  unfolding get_bucket
  get_bucket-Spends none = Costs-fail
  get_bucket-Spends (some s) = Spends-on_kube P _

  get_secret_value-Spends :
      (namespace : String) (s : Option KeySelector)
      → Spends P 0 (get_secret_value (metered P) namespace s)
  unfolding get_secret_value
  get_secret_value-Spends namespace s = Costs-bind 0 0 (Costs-deref s) λ k.
      Costs-bind 0 0 (Spends-on_kube P _)
        λ secret. Costs-option (map_get k.key secret.content) Costs-fail λ v. Costs-pure

  load_ca-Spends :
      (cluster : GarageCluster) (ref : Option KeySelector)
      → Spends P 0 (load_ca (metered P) cluster ref)
  unfolding load_ca
  load_ca-Spends cluster none = Costs-pure
  load_ca-Spends cluster (some ref) =
      Costs-bind 0 0 (Costs-wrap_error _ (get_secret_value-Spends _ _))
        λ ca. Costs-if (P.util.append_certs_from_pem ca) Costs-pure Costs-fail

  transport-Spends :
      (cluster : GarageCluster) (scheme : String)
      → Spends P 0 (transport (metered P) cluster scheme)
  unfolding transport tls_config
  transport-Spends cluster scheme =
      Costs-if (scheme == "https") (Costs-bind 0 0 (load_ca-Spends cluster _) λ roots. Costs-pure)
        Costs-pure

  new_garage_client-Spends :
      (cluster : GarageCluster) → Spends P 0 (new_garage_client (metered P) cluster)
  unfolding new_garage_client
  new_garage_client-Spends cluster =
      Costs-option (P.util.parse_scheme cluster.spec.endpoint.url) Costs-fail λ scheme.
        Costs-bind 0 0 (transport-Spends cluster scheme) λ tls.
          Costs-bind 0 0 (Costs-wrap_error _ (get_secret_value-Spends _ _)) λ token. Costs-pure

  -- A `GarageAPI` whose methods make one request, and `setPermissions` two.
  pub record Metes (api : GarageApi (World (metered P))) : Type 0 where
    pub get_bucket : (n : String) → Spends P 1 (api.get_bucket n)
    pub create_bucket : (n : String) → Spends P 1 (api.create_bucket n)
    pub update_bucket : (id : String) (q : BucketQuotas) → Spends P 1 (api.update_bucket id q)
    pub delete_bucket : (id : String) → Spends P 1 (api.delete_bucket id)
    pub get_key_by_id : (n : String) (b : Bool) → Spends P 1 (api.get_key_by_id n b)
    pub create_key : (n : String) → Spends P 1 (api.create_key n)
    pub delete_key : (id : String) → Spends P 1 (api.delete_key id)
    pub find_key_in_list : (n : String) → Spends P 1 (api.find_key_in_list n)
    pub find_bucket_in_list : (n : String) → Spends P 1 (api.find_bucket_in_list n)
    pub set_permissions : (k b : String) (p : Permissions) → Spends P 2 (api.set_permissions k b p)
    pub deny_all_permissions : (k b : String) → Spends P 1 (api.deny_all_permissions k b)

  module _ (c : Connection) where
    list_keys-Spends : Spends P 1 (list_keys (metered P) c)
    unfolding list_keys
    list_keys-Spends = Costs-bind 1 0 (Spends-on_garage P (P.sdk.list_keys c)) λ r. Costs-pure

    find_key_in_list-Spends : (n : String) → Spends P 1 (find_key_in_list (metered P) c n)
    unfolding find_key_in_list
    find_key_in_list-Spends n =
        Costs-bind 1 0 list_keys-Spends λ r. Costs-option _ Costs-pure λ e. Costs-fail

    find_bucket_in_list-Spends : (n : String) → Spends P 1 (find_bucket_in_list (metered P) c n)
    unfolding find_bucket_in_list
    find_bucket_in_list-Spends n =
        Costs-bind 1 0 {m = on_garage {P = metered P} ((metered P).sdk.list_buckets c)}
          (Spends-on_garage P (P.sdk.list_buckets c)) λ r. Costs-option _ Costs-pure λ e. Costs-fail

    set_permissions-Spends :
        (k b : String) (p : Permissions) → Spends P 2 (set_permissions (metered P) c k b p)
    unfolding set_permissions
    set_permissions-Spends k b p =
        Costs-bind 1 1 {m = on_garage {P = metered P} ((metered P).sdk.allow_bucket_key c allow)}
          (Spends-on_garage P (P.sdk.allow_bucket_key c allow))
          λ allowed.
            Costs-option _
              (Costs-bind 1 0
                {m = on_garage {P = metered P} ((metered P).sdk.deny_bucket_key c deny)}
                (Spends-on_garage P (P.sdk.deny_bucket_key c deny)) λ denied. Costs-pure)
              λ e. Costs-pure
      where
        allow : PermChange
        allow = perm_change (metered P) c k b (split_permissions P.accessors p).0

        deny : PermChange
        deny = perm_change (metered P) c k b (split_permissions P.accessors p).1

    garage_manager-Metes : Metes (garage_manager (metered P) c)
    unfolding garage_manager Manager.get_bucket create_bucket update_bucket delete_bucket
        get_key_by_id create_key delete_key deny_all_permissions
    garage_manager-Metes = record {
      get_bucket =
          λ n. Costs-bind 1 0 (Spends-on_garage P (P.sdk.get_bucket_info c n)) λ r. Costs-pure;
      create_bucket =
          λ n. Costs-bind 1 0 (Spends-on_garage P (P.sdk.create_bucket c (some n))) λ r. Costs-pure;
      update_bucket =
          λ id q. Costs-bind 1 0 (Spends-on_garage P (P.sdk.update_bucket c id _)) λ r. Costs-pure;
      delete_bucket = λ id. Spends-on_garage P (P.sdk.delete_bucket c id);
      get_key_by_id =
          λ n b. Costs-bind 1 0 (Spends-on_garage P (P.sdk.get_key_info c b n)) λ r. Costs-pure;
      create_key =
          λ n. Costs-bind 1 0 (Spends-on_garage P (P.sdk.create_key c (some n))) λ r. Costs-pure;
      delete_key = λ id. Spends-on_garage P (P.sdk.delete_key c id);
      find_key_in_list = find_key_in_list-Spends;
      find_bucket_in_list = find_bucket_in_list-Spends;
      set_permissions = set_permissions-Spends;
      deny_all_permissions =
          λ k b. Costs-bind 1 0 (Spends-on_garage P (P.sdk.deny_bucket_key c _)) λ r. Costs-pure;
    }

  -- The default factory gives such an API, and asks nothing of Garage.
  pub default_factory-Metes :
      (cluster : GarageCluster) (w : World (metered P))
      → OnReturn (λ api _. Metes api) (choose_factory (metered P) none cluster w)
  unfolding choose_factory default_factory
  default_factory-Metes cluster w =
      OnReturn-bind _ _ (new_garage_client (metered P) cluster) _ w
        (OnReturn-any (new_garage_client (metered P) cluster w)) λ c t _. garage_manager-Metes c

  pub default_factory-Spends :
      (cluster : GarageCluster) → Spends P 0 (choose_factory (metered P) none cluster)
  unfolding choose_factory default_factory
  default_factory-Spends cluster = Costs-bind 0 0 (new_garage_client-Spends cluster) λ c. Costs-pure
