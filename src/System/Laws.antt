-- ===== src/System/Laws.antt =====
-- What the theorems on the whole system assume of the API server and of Garage: which calls may
-- change the GarageBucket objects, and which may bring a bucket into being.
use garage_s3_operator.Base.{
  String, ◌≡◌, ◌≢◌, ◌⊎◌, true, false, Bool, Option, none, some, Action, Outcome, OnReturn, Always,
  Preorder,
}
use garage_s3_operator.Api.{ObjectMeta, NamespacedName, object_key, GarageBucket, BucketSpec}
use garage_s3_operator.Platform.{Platform, Resource, Util, Connection, ApiBucketQuotas, PermChange}

-- The metadata and the spec of the GarageBucket objects.
abbrev pub Objects : Type 0 → Type 0
Objects K = K → NamespacedName → Option (ObjectMeta × BucketSpec)

module _ {K : Type 0} (stored : Objects K) where
  -- The same GarageBucket objects, up to their status.
  abbrev pub SameObjects : K → K → Type 0
  SameObjects k t = (n : NamespacedName) → stored t n ≡ stored k n

  abbrev pub Leaves : {A : Type 0} → Action K A → Type 0
  Leaves m = (k : K) → Always (SameObjects k) (m k)

  -- No call on objects of a kind concerns the GarageBucket objects.
  pub record Unrelated {A : Type 0} (r : Resource K A) : Type 0 where
    pub get : (n : NamespacedName) → Leaves (r.get n)
    pub update : (a : A) → Leaves (r.update a)
    pub remove : (a : A) → Leaves (r.remove a)
    pub patch_status : (base changed : A) → Leaves (r.patch_status base changed)
    pub create_or_update : (a : A) (f : A → Outcome A) → Leaves (r.create_or_update a f)

  -- After an update of `b`: the other objects are as they were; the object of `b`'s name is as it was,
  -- or gone, if `b` has no finalizer, or has the spec and the finalizers of `b`.
  pub record Updated (u : Util) (b : GarageBucket) (k t : K) : Type 0 where
    pub others : (n : NamespacedName) → n ≢ object_key b.meta → stored t n ≡ stored k n
    pub own :
        (stored t (object_key b.meta) ≡ stored k (object_key b.meta))
        ⊎ (((stored t (object_key b.meta) ≡ none)
              × ((f : String) → u.contains_finalizer b.meta.finalizers f ≡ false))
            ⊎ ((m : ObjectMeta) × (stored t (object_key b.meta) ≡ some (m, b.spec))
                × (m.finalizers ≡ b.meta.finalizers)))

module _ (P : Platform) (stored : Objects P.Kube) where
  open P use {client, util}

  -- The API server.
  pub record ServerObjects : Type 0 where
    pub clusters : Unrelated stored client.clusters
    pub access_keys : Unrelated stored client.access_keys
    pub permissions : Unrelated stored client.permissions
    pub secrets : Unrelated stored client.secrets
    pub get : (n : NamespacedName) → Leaves stored (client.buckets.get n)
    -- a read answers with the object that is stored
    pub get_lem :
        (n : NamespacedName) (k : P.Kube)
        → OnReturn
            (λ b _. (object_key b.meta ≡ n) × (stored k n ≡ some (b.meta, b.spec)))
            (client.buckets.get n k)
    pub patch_status :
        (base changed : GarageBucket) → Leaves stored (client.buckets.patch_status base changed)
    pub update :
        (b : GarageBucket) (k : P.Kube)
        → Always (Updated stored util b k) (client.buckets.update b k)
    -- an update that returns has written the object, which a finalizer keeps in being, and answers
    -- with its name and its spec
    pub update_lem :
        (b : GarageBucket) (k : P.Kube)
        → OnReturn
            (λ a t.
              (object_key a.meta ≡ object_key b.meta)
              × (a.spec ≡ b.spec)
              × ((f : String)
                  → util.contains_finalizer b.meta.finalizers f ≡ true
                  → (m : ObjectMeta) × (stored t (object_key b.meta) ≡ some (m, b.spec))
                    × (m.finalizers ≡ b.meta.finalizers)))
            (client.buckets.update b k)

-- Requests to Garage that keep a relation between its states: all but the creation of a bucket.
module _ (P : Platform) (R : Preorder P.Garage) (c : Connection) where
  open P use {sdk}

  abbrev Steady : {A : Type 0} → Action P.Garage A → Type 0
  Steady m = (g : P.Garage) → Always (R.later g) (m g)

  pub record KeepsBuckets : Type 0 where
    pub get_bucket_info : (n : String) → Steady (sdk.get_bucket_info c n)
    pub update_bucket :
        (id : String) (q : Option ApiBucketQuotas) → Steady (sdk.update_bucket c id q)
    pub delete_bucket : (id : String) → Steady (sdk.delete_bucket c id)
    pub list_buckets : Steady (sdk.list_buckets c)
    pub get_key_info : (show : Bool) (n : String) → Steady (sdk.get_key_info c show n)
    pub create_key : (n : Option String) → Steady (sdk.create_key c n)
    pub delete_key : (id : String) → Steady (sdk.delete_key c id)
    pub list_keys : Steady (sdk.list_keys c)
    pub allow_bucket_key : (q : PermChange) → Steady (sdk.allow_bucket_key c q)
    pub deny_bucket_key : (q : PermChange) → Steady (sdk.deny_bucket_key c q)
