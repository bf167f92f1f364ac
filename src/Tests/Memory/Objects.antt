-- ===== src/Tests/Memory/Objects.antt =====
-- An API server with room for one object of each kind.
use garage_s3_operator.Base.{
  Bool, ◌&&◌, Option, none, some, ◌==◌, string_eq, if◌then◌else◌, Error, external, Outcome, returns,
  fails, panics, Action,
}
use garage_s3_operator.Api.{
  ObjectMeta, object_key, NamespacedName, GarageCluster, GarageBucket, GarageAccessKey,
  GaragePermission, Secret,
}
use garage_s3_operator.Platform.{Resource, OperationResult, created, updated, Client}

-- One object of each kind.
pub record MemoryKube : Type 0 where
  pub cluster : Option GarageCluster
  pub bucket : Option GarageBucket
  pub key : Option GarageAccessKey
  pub permission : Option GaragePermission
  pub secret : Option Secret

abbrev pub same_name : NamespacedName → NamespacedName → Bool
same_name m n = (m.name == n.name) && (m.namespace == n.namespace)

-- The object in a slot, if it is the one that is asked for.
abbrev pub slot_object : {A : Type 0} → (A → ObjectMeta) → Option A → NamespacedName → Option A
slot_object meta none n = none
slot_object meta (some a) n = if same_name (object_key (meta a)) n then some a else none

abbrev missing : Error
missing = external "not found"

-- What a callback made of an object, written if it keeps the name.
abbrev pub write_made :
    {K A : Type 0}
    → (A → ObjectMeta)
    → (A → K → K)
    → OperationResult
    → NamespacedName
    → Outcome A
    → Action K (A × OperationResult)
write_made meta put op n (returns a) k =
    if same_name (object_key (meta a)) n
    then (returns (a, op), put a k)
    else (fails (external "invalid"), k)
write_made meta put op n (fails e) k = (fails e, k)
write_made meta put op n panics k = (panics, k)

module _ {K A : Type 0} (meta : A → ObjectMeta) (slot : K → Option A) (put : A → K → K)
    (clear : K → K) where
  abbrev pub write_over : Option A → A → (A → Outcome A) → Action K (A × OperationResult)
  write_over none obj f k = write_made meta put created (object_key (meta obj)) (f obj) k
  write_over (some old) obj f k =
      if same_name (object_key (meta old)) (object_key (meta obj))
      then write_made meta put updated (object_key (meta obj)) (f old) k
      else (fails (external "full"), k)

  abbrev pub memory_resource : Resource K A
  memory_resource = record {
    get = λ n k. elim (slot_object meta (slot k) n) [
      | none ↦ (fails missing, k)
      | some a ↦ (returns a, k)
    ];
    update = λ a k. elim (slot_object meta (slot k) (object_key (meta a))) [
      | none ↦ (fails missing, k)
      | some _ ↦ (returns a, put a k)
    ];
    remove = λ a k. elim (slot_object meta (slot k) (object_key (meta a))) [
      | none ↦ (fails missing, k)
      | some _ ↦ (returns tt, clear k)
    ];
    patch_status = λ base changed k. (returns changed, put changed k);
    create_or_update = λ obj f k. write_over (slot k) obj f k;
  }

abbrev pub memory_buckets : Resource MemoryKube GarageBucket
memory_buckets =
    memory_resource (λ b. b.meta) (λ k. k.bucket) (λ b k. record k { bucket = some b })
      (λ k. record k { bucket = none })

-- The stored object takes the status, and nothing else.
abbrev pub write_status :
    GarageBucket → MemoryKube → Option GarageBucket → Outcome GarageBucket × MemoryKube
write_status changed k none = (fails missing, k)
write_status changed k (some old) =
    (returns changed, record k { bucket = some (record old { status = changed.status }) })

abbrev pub patch_bucket : GarageBucket → GarageBucket → Action MemoryKube GarageBucket
patch_bucket base changed k =
    write_status changed k (slot_object (λ b. b.meta) k.bucket (object_key changed.meta))

abbrev pub memory_client : Client MemoryKube
memory_client = record {
  clusters =
      memory_resource (λ c. c.meta) (λ k. k.cluster) (λ c k. record k { cluster = some c })
        (λ k. record k { cluster = none });
  buckets = record memory_buckets { patch_status = patch_bucket };
  access_keys =
      memory_resource (λ a. a.meta) (λ k. k.key) (λ a k. record k { key = some a })
        (λ k. record k { key = none });
  permissions =
      memory_resource (λ p. p.meta) (λ k. k.permission) (λ p k. record k { permission = some p })
        (λ k. record k { permission = none });
  secrets =
      memory_resource (λ s. s.meta) (λ k. k.secret) (λ s k. record k { secret = some s })
        (λ k. record k { secret = none });
}
