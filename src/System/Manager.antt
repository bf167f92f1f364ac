-- ===== src/System/Manager.antt =====
-- The methods of `GarageManager` by what they keep of Garage.
use garage_s3_operator.Base.{
  String, Bool, none, some, Action, OnReturn, OnReturn-bind, OnReturn-any, Always, Preorder, Keeps,
  Keeps-pure, Keeps-fail, Keeps-bind, Keeps-option,
}
use garage_s3_operator.Api.{GarageCluster, BucketQuotas, Permissions}
use garage_s3_operator.Platform.{Platform, World, Connection, PermChange, on_garage}
use garage_s3_operator.Garage.{
  GarageApi, garage_manager, get_bucket, create_bucket, update_bucket, delete_bucket, get_key_by_id,
  create_key, delete_key, list_keys, find_key_in_list, find_bucket_in_list, set_permissions,
  deny_all_permissions, perm_change, split_permissions, new_garage_client, default_factory,
  choose_factory,
}
use garage_s3_operator.System.Laws.{Objects, ServerObjects, KeepsBuckets}
use garage_s3_operator.System.Frames.{Mild, Mild-on_garage, new_garage_client-Mild}

module _ (P : Platform) (stored : Objects P.Kube) (R : Preorder P.Garage)
    (makes : String → Type 0) where
  -- A `GarageAPI` whose methods keep the relation, `createBucket` for some names only.
  pub record MildApi (api : GarageApi (World P)) : Type 0 where
    pub get_bucket : (n : String) → Keeps (Mild P stored R) (api.get_bucket n)
    pub create_bucket : (n : String) → makes n → Keeps (Mild P stored R) (api.create_bucket n)
    pub update_bucket :
        (id : String) (q : BucketQuotas) → Keeps (Mild P stored R) (api.update_bucket id q)
    pub delete_bucket : (id : String) → Keeps (Mild P stored R) (api.delete_bucket id)
    pub get_key_by_id : (n : String) (b : Bool) → Keeps (Mild P stored R) (api.get_key_by_id n b)
    pub create_key : (n : String) → Keeps (Mild P stored R) (api.create_key n)
    pub delete_key : (id : String) → Keeps (Mild P stored R) (api.delete_key id)
    pub find_key_in_list : (n : String) → Keeps (Mild P stored R) (api.find_key_in_list n)
    pub find_bucket_in_list : (n : String) → Keeps (Mild P stored R) (api.find_bucket_in_list n)
    pub set_permissions :
        (k b : String) (p : Permissions) → Keeps (Mild P stored R) (api.set_permissions k b p)
    pub deny_all_permissions :
        (k b : String) → Keeps (Mild P stored R) (api.deny_all_permissions k b)

  -- What the requests of every connection keep.
  pub record GarageKeeps : Type 0 where
    pub steady : (c : Connection) → KeepsBuckets P R c
    pub creates :
        (c : Connection) (n : String)
        → makes n
        → (g : P.Garage) → Always (R.later g) (P.sdk.create_bucket c (some n) g)

  module _ (garage : GarageKeeps) where
    module _ (c : Connection) where
      request :
          {A : Type 0} (m : Action P.Garage A)
          → ((g : P.Garage) → Always (R.later g) (m g))
          → Keeps (Mild P stored R) (on_garage {P = P} m)
      request = Mild-on_garage P stored R

      get_bucket-Mild : (n : String) → Keeps (Mild P stored R) (get_bucket P c n)
      unfolding get_bucket
      get_bucket-Mild n =
          Keeps-bind (request _ ((garage.steady c).get_bucket_info n)) λ r. Keeps-pure

      create_bucket-Mild : (n : String) → makes n → Keeps (Mild P stored R) (create_bucket P c n)
      unfolding create_bucket
      create_bucket-Mild n h = Keeps-bind (request _ (garage.creates c n h)) λ r. Keeps-pure

      update_bucket-Mild :
          (id : String) (q : BucketQuotas) → Keeps (Mild P stored R) (update_bucket P c id q)
      unfolding update_bucket
      update_bucket-Mild id q =
          Keeps-bind (request _ ((garage.steady c).update_bucket id _)) λ r. Keeps-pure

      get_key_by_id-Mild : (n : String) (b : Bool) → Keeps (Mild P stored R) (get_key_by_id P c n b)
      unfolding get_key_by_id
      get_key_by_id-Mild n b =
          Keeps-bind (request _ ((garage.steady c).get_key_info b n)) λ r. Keeps-pure

      create_key-Mild : (n : String) → Keeps (Mild P stored R) (create_key P c n)
      unfolding create_key
      create_key-Mild n =
          Keeps-bind (request _ ((garage.steady c).create_key (some n))) λ r. Keeps-pure

      list_keys-Mild : Keeps (Mild P stored R) (list_keys P c)
      unfolding list_keys
      list_keys-Mild = Keeps-bind (request _ (garage.steady c).list_keys) λ r. Keeps-pure

      find_key_in_list-Mild : (n : String) → Keeps (Mild P stored R) (find_key_in_list P c n)
      unfolding find_key_in_list
      find_key_in_list-Mild n =
          Keeps-bind list_keys-Mild λ r. Keeps-option _ Keeps-pure λ e. Keeps-fail

      find_bucket_in_list-Mild : (n : String) → Keeps (Mild P stored R) (find_bucket_in_list P c n)
      unfolding find_bucket_in_list
      find_bucket_in_list-Mild n =
          Keeps-bind {m = on_garage {P = P} (P.sdk.list_buckets c)}
            (request (P.sdk.list_buckets c) (garage.steady c).list_buckets)
            λ r. Keeps-option _ Keeps-pure λ e. Keeps-fail

      set_permissions-Mild :
          (k b : String) (p : Permissions) → Keeps (Mild P stored R) (set_permissions P c k b p)
      unfolding set_permissions
      set_permissions-Mild k b p =
          Keeps-bind {m = on_garage {P = P} (P.sdk.allow_bucket_key c allow)}
            (request (P.sdk.allow_bucket_key c allow) ((garage.steady c).allow_bucket_key allow))
            λ allowed.
              Keeps-option _
                (Keeps-bind {m = on_garage {P = P} (P.sdk.deny_bucket_key c deny)}
                  (request (P.sdk.deny_bucket_key c deny) ((garage.steady c).deny_bucket_key deny))
                  λ denied. Keeps-pure)
                λ e. Keeps-pure
        where
          allow : PermChange
          allow = perm_change P c k b (split_permissions P.accessors p).0

          deny : PermChange
          deny = perm_change P c k b (split_permissions P.accessors p).1

      deny_all_permissions-Mild :
          (k b : String) → Keeps (Mild P stored R) (deny_all_permissions P c k b)
      unfolding deny_all_permissions
      deny_all_permissions-Mild k b =
          Keeps-bind (request _ ((garage.steady c).deny_bucket_key _)) λ r. Keeps-pure

      pub garage_manager-MildApi : MildApi (garage_manager P c)
      unfolding garage_manager delete_bucket delete_key
      garage_manager-MildApi = record {
        get_bucket = get_bucket-Mild;
        create_bucket = create_bucket-Mild;
        update_bucket = update_bucket-Mild;
        delete_bucket = λ id. request _ ((garage.steady c).delete_bucket id);
        get_key_by_id = get_key_by_id-Mild;
        create_key = create_key-Mild;
        delete_key = λ id. request _ ((garage.steady c).delete_key id);
        find_key_in_list = find_key_in_list-Mild;
        find_bucket_in_list = find_bucket_in_list-Mild;
        set_permissions = set_permissions-Mild;
        deny_all_permissions = deny_all_permissions-Mild;
      }

    -- The default factory gives such an API.
    pub default_factory-MildApi :
        (cluster : GarageCluster) (w : World P)
        → OnReturn (λ api _. MildApi api) (choose_factory P none cluster w)
    unfolding choose_factory default_factory
    default_factory-MildApi cluster w =
        OnReturn-bind _ _ (new_garage_client P cluster) _ w
          (OnReturn-any (new_garage_client P cluster w)) λ c t _. garage_manager-MildApi c

    module _ (kube : ServerObjects P stored) where
      pub default_factory-Mild :
          (cluster : GarageCluster) → Keeps (Mild P stored R) (choose_factory P none cluster)
      unfolding choose_factory default_factory
      default_factory-Mild cluster =
          Keeps-bind (new_garage_client-Mild P stored R kube cluster) λ c. Keeps-pure
