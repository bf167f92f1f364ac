-- ===== src/Garage/Laws.antt =====
-- What the reconcilers rely on in a `GarageAPI`: laws about the state of Garage that its methods
-- show and change. `Server` derives them for `GarageManager` from those of the admin API.
use garage_s3_operator.Base.{
  String, ◌≡◌, Bool, true, Option, none, some, List, [], ◌∷◌, contains, string_eq, Error, OnReturn,
  Always,
}
use garage_s3_operator.Api.{BucketQuotas, Permissions}
use garage_s3_operator.Platform.{
  Platform, World, Accessors, Reply, BucketInfo, KeyInfo, KeyBucket, ApiBucketKeyPerm,
}
use garage_s3_operator.Http.{has_status, not_found, bad_request}
use garage_s3_operator.Garage.Interface.{GarageApi}

-- The rights that an SDK permission value stands for.
abbrev pub rights : Accessors → ApiBucketKeyPerm → Permissions
rights a p = record { owner = a.get_owner p; read = a.get_read p; write = a.get_write p }

-- Whether `info` carries the limits of `quotas`.
pub record HasQuotas (a : Accessors) (quotas : BucketQuotas) (info : BucketInfo) : Type 0 where
  pub objects : a.get_max_objects info.quotas ≡ quotas.max_objects
  pub size : a.get_max_size info.quotas ≡ quotas.max_size

-- A reply about a bucket, beside what Garage has under its alias.
pub record GotBucket (r : Reply (Option BucketInfo)) (there : Option BucketInfo) : Type 0 where
  pub found : r.error ≡ none → (info : BucketInfo) × (r.value ≡ some info) × (there ≡ some info)
  pub missing : (e : Error) → r.error ≡ some e → has_status not_found r.resp ≡ true → there ≡ none

abbrev pub All : {A : Type 0} → (A → Type 0) → List A → Type 0
All P [] = Unit
All P (x ∷ xs) = P x × All P xs

-- A state of Garage, as far as the operator is concerned.
pub record View (G : Type 0) : Type 0 where
  -- the bucket under a global alias
  pub bucket_at : G → String → Option BucketInfo
  -- the access key id of the key that a search for a name finds
  pub key_at : G → String → Option String
  -- the secret of an access key, by its id
  pub secret_of : G → String → String
  -- the rights of a key, by its id, on a bucket, by its id
  pub grants : G → String → String → Permissions

-- The same buckets and keys under the same names.
abbrev pub SameNames : {G : Type 0} → View G → G → G → Type 0
SameNames v g h =
    ((name : String) → v.bucket_at h name ≡ v.bucket_at g name)
    × ((name : String) → v.key_at h name ≡ v.key_at g name)

module _ {G : Type 0} (v : View G) (a : Accessors) (g : G) where
  -- An entry of a key's bucket list is about the bucket under each of its aliases, and shows the
  -- key's rights there.
  pub record ShowsGrants (key_id : String) (b : KeyBucket) : Type 0 where
    pub at_alias :
        (alias : String)
        → contains (a.get_global_aliases b) alias ≡ true
        → (info : BucketInfo) → v.bucket_at g alias ≡ some info
        → info.id ≡ b.id
    pub shown : v.grants g key_id b.id ≡ rights a b.permissions

module _ (P : Platform) (v : View P.Garage) (show_secret : Bool) (r : Reply (Option KeyInfo))
    (g : P.Garage) (name : String) where
  open P use {accessors}

  -- A reply about the key of a name, beside the state of Garage. A search that finds no key is
  -- answered with "bad request".
  pub record GotKey : Type 0 where
    pub found :
        r.error ≡ none
        → (info : KeyInfo) × (r.value ≡ some info)
          × (accessors.get_access_key_id r.value ≡ info.access_key_id)
          × (v.key_at g name ≡ some info.access_key_id)
          × All (ShowsGrants v accessors g info.access_key_id) (accessors.get_buckets r.value)
    pub missing :
        (e : Error) → r.error ≡ some e → has_status not_found r.resp ≡ true → v.key_at g name ≡ none
    pub unmatched :
        (e : Error)
        → r.error ≡ some e
        → has_status bad_request r.resp ≡ true
        → v.key_at g name ≡ none
    pub secret_shown :
        r.error ≡ none
        → show_secret ≡ true
        → accessors.get_secret_access_key r.value
          ≡ v.secret_of g (accessors.get_access_key_id r.value)

module _ (P : Platform) (api : GarageApi (World P)) where
  open P use {accessors}

  -- No method that a deletion calls acts on Kubernetes.
  pub record LeavesKube : Type 0 where
    pub get_bucket : (n : String) (w : World P) → Always (λ v. v.kube ≡ w.kube) (api.get_bucket n w)
    pub delete_bucket :
        (id : String) (w : World P) → Always (λ v. v.kube ≡ w.kube) (api.delete_bucket id w)
    pub get_key_by_id :
        (n : String) (b : Bool) (w : World P)
        → Always (λ v. v.kube ≡ w.kube) (api.get_key_by_id n b w)
    pub delete_key :
        (id : String) (w : World P) → Always (λ v. v.kube ≡ w.kube) (api.delete_key id w)

  pub record ApiLaws (v : View P.Garage) : Type 0 where
    pub get_bucket_lem :
        (name : String) (w : World P)
        → OnReturn (λ r t. GotBucket r (v.bucket_at t.garage name)) (api.get_bucket name w)
    pub create_bucket_lem :
        (name : String) (w : World P)
        → OnReturn
            (λ r t.
              r.error ≡ none
              → (info : BucketInfo) × (r.value ≡ some info)
                × (v.bucket_at t.garage name ≡ some info))
            (api.create_bucket name w)
    pub update_bucket_lem :
        (name : String) (quotas : BucketQuotas) (info : BucketInfo) (w : World P)
        → v.bucket_at w.garage name ≡ some info
        → OnReturn
            (λ r t.
              r.error ≡ none
              → (info' : BucketInfo) × (v.bucket_at t.garage name ≡ some info')
                × HasQuotas accessors quotas info')
            (api.update_bucket info.id quotas w)
    pub delete_bucket_lem :
        (name : String) (info : BucketInfo) (w : World P)
        → v.bucket_at w.garage name ≡ some info
        → OnReturn
            (λ r t. r.error ≡ none → v.bucket_at t.garage name ≡ none)
            (api.delete_bucket info.id w)
    -- A key that is found is shown with its rights; asking changes no right and no bucket.
    pub get_key_lem :
        (name : String) (secret : Bool) (w : World P)
        → OnReturn
            (λ r t.
              GotKey P v secret r t.garage name
              × ((alias : String) → v.bucket_at t.garage alias ≡ v.bucket_at w.garage alias))
            (api.get_key_by_id name secret w)
    pub delete_key_lem :
        (name : String) (info : KeyInfo) (w : World P)
        → v.key_at w.garage name ≡ some info.access_key_id
        → OnReturn
            (λ r t. r.error ≡ none → v.key_at t.garage name ≡ none)
            (api.delete_key info.access_key_id w)
    pub set_permissions_lem :
        (key_id bucket_id : String) (p : Permissions) (w : World P)
        → OnReturn
            (λ r t.
              (r.error ≡ none → v.grants t.garage key_id bucket_id ≡ p)
              × SameNames v w.garage t.garage)
            (api.set_permissions key_id bucket_id p w)
