-- ===== src/Garage/Server.antt =====
-- The Garage admin API as its documentation describes it, and `GarageManager` over it: the laws
-- that the reconcilers rely on.
use garage_s3_operator.Base.{
  String, ◌≡◌, Bool, false, not, ◌&&◌, ◌||◌, none, some, string_eq, OnReturn,
}
use garage_s3_operator.Api.{BucketQuotas, Permissions}
use garage_s3_operator.Platform.{Platform, Connection, BucketInfo, KeyInfo, PermChange}
use garage_s3_operator.Garage.Laws.{View, GotBucket, HasQuotas, GotKey, SameNames, rights}

-- Rights after an allow request, and after a deny request, with the rights `q` set in it.
abbrev pub allowed : Permissions → Permissions → Permissions
allowed q p = record {
  owner = p.owner || q.owner;
  read = p.read || q.read;
  write = p.write || q.write;
}

abbrev pub denied : Permissions → Permissions → Permissions
denied q p = record {
  owner = p.owner && not q.owner;
  read = p.read && not q.read;
  write = p.write && not q.write;
}

-- No right at all.
abbrev pub no_permissions : Permissions
no_permissions = record { owner = false; read = false; write = false }

module _ (P : Platform) (c : Connection) where
  open P use {sdk, accessors}

  -- What the server does on the requests of one connection.
  pub record ServerLaws (v : View P.Garage) : Type 0 where
    pub get_bucket_info_lem :
        (name : String) (g : P.Garage)
        → OnReturn (λ r h. GotBucket r (v.bucket_at h name)) (sdk.get_bucket_info c name g)
    pub create_bucket_lem :
        (name : String) (g : P.Garage)
        → OnReturn
            (λ r h.
              r.error ≡ none
              → (info : BucketInfo) × (r.value ≡ some info) × (v.bucket_at h name ≡ some info))
            (sdk.create_bucket c (some name) g)
    pub update_bucket_lem :
        (name : String) (quotas : BucketQuotas) (info : BucketInfo) (g : P.Garage)
        → v.bucket_at g name ≡ some info
        → OnReturn
            (λ r h.
              r.error ≡ none
              → (info' : BucketInfo) × (v.bucket_at h name ≡ some info')
                × HasQuotas accessors quotas info')
            (sdk.update_bucket c info.id
              (some
                (record { max_objects = some quotas.max_objects; max_size = some quotas.max_size }))
              g)
    pub delete_bucket_lem :
        (name : String) (info : BucketInfo) (g : P.Garage)
        → v.bucket_at g name ≡ some info
        → OnReturn
            (λ r h. r.error ≡ none → v.bucket_at h name ≡ none)
            (sdk.delete_bucket c info.id g)
    pub get_key_info_lem :
        (name : String) (secret : Bool) (g : P.Garage)
        → OnReturn
            (λ r h.
              GotKey P v secret r h name
              × ((alias : String) → v.bucket_at h alias ≡ v.bucket_at g alias))
            (sdk.get_key_info c secret name g)
    pub delete_key_lem :
        (name : String) (info : KeyInfo) (g : P.Garage)
        → v.key_at g name ≡ some info.access_key_id
        → OnReturn
            (λ r h. r.error ≡ none → v.key_at h name ≡ none)
            (sdk.delete_key c info.access_key_id g)
    -- A permission change that succeeds changes the rights of its key on its bucket as asked; a
    -- request about rights changes no bucket and no key.
    pub allow_lem :
        (q : PermChange) (g : P.Garage)
        → OnReturn
            (λ r h.
              (r.error ≡ none
                → v.grants h q.access_key_id q.bucket_id
                  ≡ allowed
                      (rights accessors q.permissions)
                      (v.grants g q.access_key_id q.bucket_id))
              × SameNames v g h)
            (sdk.allow_bucket_key c q g)
    pub deny_lem :
        (q : PermChange) (g : P.Garage)
        → OnReturn
            (λ r h.
              (r.error ≡ none
                → v.grants h q.access_key_id q.bucket_id
                  ≡ denied
                      (rights accessors q.permissions)
                      (v.grants g q.access_key_id q.bucket_id))
              × SameNames v g h)
            (sdk.deny_bucket_key c q g)
