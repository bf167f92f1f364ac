-- ===== src/Garage/NoPanic.antt =====
-- The methods of `GarageManager` do not panic where the calls of the admin SDK do not.
use garage_s3_operator.Base.{
  String, Bool, ◌≡◌, none, some, Option, Safely, Safely-bind, Filled, Calmly, Calmly-pure,
  Calmly-fail, Calmly-bind, Calmly-option, Error,
}
use garage_s3_operator.Api.{BucketQuotas, Permissions}
use garage_s3_operator.Platform.{
  Platform, World, Connection, PermChange, Reply, Response, ApiBucketQuotas, on_garage,
}
use garage_s3_operator.Platform.Lifting.{Calmly-on_garage, Safely-of_garage}
use garage_s3_operator.Garage.Manager.{
  nil_on_error, get_bucket, create_bucket, update_bucket, delete_bucket, get_key_by_id, create_key,
  delete_key, list_keys, find_key_in_list, find_bucket_in_list, set_permissions,
  deny_all_permissions, perm_change, split_permissions,
}

-- What a reply without an error has, it has after `nil_on_error`.
module _ {A : Type 0} (X : A → Option Response → Type 0) (nil : A) where
  kept_parts :
      (value : A) (resp : Option Response) (error : Option Error)
      → let r : Reply A = record { value = value; resp = resp; error = error } in
        (error ≡ none → X value resp)
        → (nil_on_error nil r).error ≡ none
        → X (nil_on_error nil r).value (nil_on_error nil r).resp
  kept_parts value resp none f = f
  kept_parts value resp (some e) f = λ h. cc

  kept :
      (r : Reply A)
      → (r.error ≡ none → X r.value r.resp)
      → (nil_on_error nil r).error ≡ none
      → X (nil_on_error nil r).value (nil_on_error nil r).resp
  kept r = kept_parts r.value r.resp r.error

module _ (P : Platform) (c : Connection) where
  open P use {sdk}

  -- No call of the SDK panics, and a reply about a bucket, or about a key that is asked for, carries
  -- its value if it has no error; that of `GetBucketInfo` carries a response too.
  pub record CalmSdk : Type 0 where
    pub get_bucket_info :
        (n : String) (g : P.Garage)
        → Safely
            (λ r _. r.error ≡ none → Filled r.value × Filled r.resp)
            (sdk.get_bucket_info c n g)
    pub create_bucket :
        (n : Option String) (g : P.Garage)
        → Safely (λ r _. r.error ≡ none → Filled r.value) (sdk.create_bucket c n g)
    pub get_key_info :
        (b : Bool) (n : String) (g : P.Garage)
        → Safely (λ r _. r.error ≡ none → Filled r.value) (sdk.get_key_info c b n g)
    pub update_bucket :
        (id : String) (q : Option ApiBucketQuotas) → Calmly (sdk.update_bucket c id q)
    pub delete_bucket : (id : String) → Calmly (sdk.delete_bucket c id)
    pub list_buckets : Calmly (sdk.list_buckets c)
    pub create_key : (n : Option String) → Calmly (sdk.create_key c n)
    pub delete_key : (id : String) → Calmly (sdk.delete_key c id)
    pub list_keys : Calmly (sdk.list_keys c)
    pub allow_bucket_key : (q : PermChange) → Calmly (sdk.allow_bucket_key c q)
    pub deny_bucket_key : (q : PermChange) → Calmly (sdk.deny_bucket_key c q)

  module _ (calm : CalmSdk) where
    pub get_bucket-Filled :
        (n : String) (w : World P)
        → Safely (λ r _. r.error ≡ none → Filled r.value × Filled r.resp) (get_bucket P c n w)
    unfolding get_bucket
    get_bucket-Filled n w =
        Safely-bind _ _ (on_garage {P = P} (sdk.get_bucket_info c n)) _ w
          (Safely-of_garage P w _ (sdk.get_bucket_info c n) (calm.get_bucket_info n w.garage))
          λ r t h. kept (λ value resp. Filled value × Filled resp) none r h

    pub create_bucket-Filled :
        (n : String) (w : World P)
        → Safely (λ r _. r.error ≡ none → Filled r.value) (create_bucket P c n w)
    unfolding create_bucket
    create_bucket-Filled n w =
        Safely-bind _ _ (on_garage {P = P} (sdk.create_bucket c (some n))) _ w
          (Safely-of_garage P w _ (sdk.create_bucket c (some n))
            (calm.create_bucket (some n) w.garage))
          λ r t h. kept (λ value _. Filled value) none r h

    pub get_key_by_id-Filled :
        (n : String) (b : Bool) (w : World P)
        → Safely (λ r _. r.error ≡ none → Filled r.value) (get_key_by_id P c n b w)
    unfolding get_key_by_id
    get_key_by_id-Filled n b w =
        Safely-bind _ _ (on_garage {P = P} (sdk.get_key_info c b n)) _ w
          (Safely-of_garage P w _ (sdk.get_key_info c b n) (calm.get_key_info b n w.garage))
          λ r t h. kept (λ value _. Filled value) none r h

    pub update_bucket-Calmly : (id : String) (q : BucketQuotas) → Calmly (update_bucket P c id q)
    unfolding update_bucket
    update_bucket-Calmly id q =
        Calmly-bind (Calmly-on_garage P (sdk.update_bucket c id _) (calm.update_bucket id _))
          λ r. Calmly-pure

    pub delete_bucket-Calmly : (id : String) → Calmly (delete_bucket P c id)
    unfolding delete_bucket
    delete_bucket-Calmly id = Calmly-on_garage P (sdk.delete_bucket c id) (calm.delete_bucket id)

    pub create_key-Calmly : (n : String) → Calmly (create_key P c n)
    unfolding create_key
    create_key-Calmly n =
        Calmly-bind (Calmly-on_garage P (sdk.create_key c (some n)) (calm.create_key (some n)))
          λ r. Calmly-pure

    pub delete_key-Calmly : (id : String) → Calmly (delete_key P c id)
    unfolding delete_key
    delete_key-Calmly id = Calmly-on_garage P (sdk.delete_key c id) (calm.delete_key id)

    list_keys-Calmly : Calmly (list_keys P c)
    unfolding list_keys
    list_keys-Calmly =
        Calmly-bind (Calmly-on_garage P (sdk.list_keys c) calm.list_keys) λ r. Calmly-pure

    pub find_key_in_list-Calmly : (n : String) → Calmly (find_key_in_list P c n)
    unfolding find_key_in_list
    find_key_in_list-Calmly n =
        Calmly-bind list_keys-Calmly λ r. Calmly-option r.error (λ _. Calmly-pure) λ e. Calmly-fail

    pub find_bucket_in_list-Calmly : (n : String) → Calmly (find_bucket_in_list P c n)
    unfolding find_bucket_in_list
    find_bucket_in_list-Calmly n =
        Calmly-bind {m = on_garage {P = P} (sdk.list_buckets c)}
          (Calmly-on_garage P (sdk.list_buckets c) calm.list_buckets)
          λ r. Calmly-option r.error (λ _. Calmly-pure) λ e. Calmly-fail

    pub set_permissions-Calmly :
        (k b : String) (p : Permissions) → Calmly (set_permissions P c k b p)
    unfolding set_permissions
    set_permissions-Calmly k b p =
        Calmly-bind {m = on_garage {P = P} (sdk.allow_bucket_key c allow)}
          (Calmly-on_garage P (sdk.allow_bucket_key c allow) (calm.allow_bucket_key allow))
          λ allowed.
            Calmly-option allowed.error
              (λ _.
                Calmly-bind {m = on_garage {P = P} (sdk.deny_bucket_key c deny)}
                  (Calmly-on_garage P (sdk.deny_bucket_key c deny) (calm.deny_bucket_key deny))
                  λ denied. Calmly-pure)
              λ e. Calmly-pure
      where
        allow : PermChange
        allow = perm_change P c k b (split_permissions P.accessors p).0

        deny : PermChange
        deny = perm_change P c k b (split_permissions P.accessors p).1

    pub deny_all_permissions-Calmly : (k b : String) → Calmly (deny_all_permissions P c k b)
    unfolding deny_all_permissions
    deny_all_permissions-Calmly k b =
        Calmly-bind (Calmly-on_garage P (sdk.deny_bucket_key c _) (calm.deny_bucket_key _))
          λ r. Calmly-pure
