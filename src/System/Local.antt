-- ===== src/System/Local.antt =====
-- The methods of `GarageManager` by the names in Garage that their requests leave alone.
use garage_s3_operator.Base.{
  String, ◌≡◌, Bool, false, none, some, Option, Action, OnReturn, OnReturn-bind, Always,
  Always-bind, Keeps, Keeps-pure, Keeps-fail, Keeps-bind, Keeps-option, arith,
}
use garage_s3_operator.Api.{Permissions}
use garage_s3_operator.Platform.{Platform, Connection, PermChange, on_garage, Reply, BucketInfo}
use garage_s3_operator.Platform.Lifting.{OnReturn-on_garage}
use garage_s3_operator.Http.{has_status, not_found}
use garage_s3_operator.Garage.{
  garage_manager, get_bucket, get_key_by_id, create_key, list_keys, find_key_in_list,
  set_permissions, perm_change, split_permissions, nil_on_error,
}
use garage_s3_operator.Garage.Laws.{View, SameNames}
use garage_s3_operator.Bucket.Steady.{Reads}
use garage_s3_operator.System.Names.{Buckets, Names, Local}

module _ (P : Platform) (v : View P.Garage) (c : Connection) where
  -- Requests that read, or change rights, and the creation of a key.
  pub record LocalRequests : Type 0 where
    pub get_bucket_info :
        (n : String) (g : P.Garage) → Always (SameNames v g) (P.sdk.get_bucket_info c n g)
    pub get_key_info :
        (show : Bool) (n : String) (g : P.Garage)
        → Always (SameNames v g) (P.sdk.get_key_info c show n g)
    pub list_keys : (g : P.Garage) → Always (SameNames v g) (P.sdk.list_keys c g)
    pub allow_bucket_key :
        (q : PermChange) (g : P.Garage) → Always (SameNames v g) (P.sdk.allow_bucket_key c q g)
    pub deny_bucket_key :
        (q : PermChange) (g : P.Garage) → Always (SameNames v g) (P.sdk.deny_bucket_key c q g)
    pub create_key :
        (n : Option String) (g : P.Garage)
        → Always
            (λ h. (name : String) → v.bucket_at h name ≡ v.bucket_at g name)
            (P.sdk.create_key c n g)

  request-Names :
      {A : Type 0} (m : Action P.Garage A)
      → ((g : P.Garage) → Always (SameNames v g) (m g))
      → Keeps (Names P v) (on_garage {P = P} m)
  unfolding Names
  request-Names m h = record { after = λ w. h w.garage }

  request-Buckets :
      {A : Type 0} (m : Action P.Garage A)
      → ((g : P.Garage)
          → Always (λ h. (name : String) → v.bucket_at h name ≡ v.bucket_at g name) (m g))
      → Keeps (Buckets P v) (on_garage {P = P} m)
  unfolding Buckets
  request-Buckets m h = record { after = λ w. h w.garage }

  module _ (requests : LocalRequests) where
    get_bucket-Names : (n : String) → Keeps (Names P v) (get_bucket P c n)
    unfolding get_bucket
    get_bucket-Names n =
        Keeps-bind (request-Names (P.sdk.get_bucket_info c n) (requests.get_bucket_info n))
          λ r. Keeps-pure

    get_key_by_id-Names : (n : String) (b : Bool) → Keeps (Names P v) (get_key_by_id P c n b)
    unfolding get_key_by_id
    get_key_by_id-Names n b =
        Keeps-bind (request-Names (P.sdk.get_key_info c b n) (requests.get_key_info b n))
          λ r. Keeps-pure

    list_keys-Names : Keeps (Names P v) (list_keys P c)
    unfolding list_keys
    list_keys-Names =
        Keeps-bind (request-Names (P.sdk.list_keys c) requests.list_keys) λ r. Keeps-pure

    find_key_in_list-Names : (n : String) → Keeps (Names P v) (find_key_in_list P c n)
    unfolding find_key_in_list
    find_key_in_list-Names n =
        Keeps-bind list_keys-Names λ r. Keeps-option _ Keeps-pure λ e. Keeps-fail

    set_permissions-Names :
        (k b : String) (p : Permissions) → Keeps (Names P v) (set_permissions P c k b p)
    unfolding set_permissions
    set_permissions-Names k b p =
        Keeps-bind {m = on_garage {P = P} (P.sdk.allow_bucket_key c allow)}
          (request-Names (P.sdk.allow_bucket_key c allow) (requests.allow_bucket_key allow))
          λ allowed.
            Keeps-option _
              (Keeps-bind {m = on_garage {P = P} (P.sdk.deny_bucket_key c deny)}
                (request-Names (P.sdk.deny_bucket_key c deny) (requests.deny_bucket_key deny))
                λ denied. Keeps-pure)
              λ e. Keeps-pure
      where
        allow : PermChange
        allow = perm_change P c k b (split_permissions P.accessors p).0

        deny : PermChange
        deny = perm_change P c k b (split_permissions P.accessors p).1

    create_key-Buckets : (n : String) → Keeps (Buckets P v) (create_key P c n)
    unfolding create_key
    create_key-Buckets n =
        Keeps-bind (request-Buckets (P.sdk.create_key c (some n)) (requests.create_key (some n)))
          λ r. Keeps-pure

    -- If its requests leave the names in Garage alone, the manager's methods do.
    pub garage_manager-Local : Local P v (garage_manager P c)
    unfolding garage_manager
    garage_manager-Local = record {
      get_bucket = get_bucket-Names;
      get_key_by_id = get_key_by_id-Names;
      find_key_in_list = find_key_in_list-Names;
      set_permissions = set_permissions-Names;
      create_key = create_key-Buckets;
    }

module _ (P : Platform) (c : Connection)
    (same : (n : String) (g : P.Garage) → Always (λ h. h ≡ g) (P.sdk.get_bucket_info c n g))
    (found : (n : String) (g : P.Garage)
      → OnReturn
          (λ r _. r.error ≡ none → has_status not_found r.resp ≡ false)
          (P.sdk.get_bucket_info c n g)) where
  -- `nil_on_error` keeps the response and the error.
  found_parts :
      (r : Reply (Option BucketInfo))
      → (r.error ≡ none → has_status not_found r.resp ≡ false)
      → (nil_on_error none r).error ≡ none
      → has_status not_found (nil_on_error none r).resp ≡ false
  found_parts r h fine = ground arith

  -- `getBucket` of the manager reads, if the request does.
  pub garage_manager-Reads : Reads P (garage_manager P c)
  unfolding garage_manager get_bucket
  garage_manager-Reads = record {
    same = λ n w.
        Always-bind (λ t. t.garage ≡ w.garage) (on_garage {P = P} (P.sdk.get_bucket_info c n)) _ w
          (same n w.garage) λ r t h. h;
    found = λ n w.
        OnReturn-bind _ _ (on_garage {P = P} (P.sdk.get_bucket_info c n)) _ w
          (OnReturn-on_garage P w _ (P.sdk.get_bucket_info c n) (found n w.garage))
          λ r t h. found_parts r h.0;
  }
