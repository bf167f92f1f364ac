-- ===== src/Tests/MemoryCalm.antt =====
-- The memory platform does not panic.
use garage_s3_operator.Base.{
  arith, Calm, ◌≡◌, Safely, Filled, external, ◌≢◌, refl, inl, inr, Option, none, some, Option-cases,
  Bool-cases, ◌==◌, string_eq, Outcome, returns, fails, panics,
}
use garage_s3_operator.Api.{GarageBucket, ObjectMeta, object_key, NamespacedName}
use garage_s3_operator.Platform.{OperationResult, created, updated, Platform, Connection}
use garage_s3_operator.Garage.NoPanic.{CalmSdk}
use garage_s3_operator.Bucket.NilSafety.{CalmResource}
use garage_s3_operator.Tests.Memory.{
  memory, memory_resource, memory_buckets, write_made, write_over, write_status, MemoryKube,
  slot_object, same_name,
}

module _ {K A : Type 0} (meta : A → ObjectMeta) (slot : K → Option A) (put : A → K → K)
    (clear : K → K) where
  write_made-Calm :
      (op : OperationResult) (n : NamespacedName) (made : Outcome A) (k : K)
      → made ≢ panics
      → Calm (write_made meta put op n made k)
  write_made-Calm op n (returns a) k h = elim (Bool-cases (same_name (object_key (meta a)) n)) [
    | inl same ↦ rw same tt
    | inr other ↦ rw other tt
  ]
  write_made-Calm op n (fails e) k h = tt
  write_made-Calm op n panics k h = h refl

  write_over-Calm :
      (o : Option A) (obj : A) (f : A → Outcome A) (k : K)
      → ((a : A) → f a ≢ panics)
      → Calm (write_over meta slot put clear o obj f k)
  write_over-Calm none obj f k h = write_made-Calm created _ (f obj) k (h obj)
  write_over-Calm (some old) obj f k h =
      elim (Bool-cases (same_name (object_key (meta old)) (object_key (meta obj)))) [
        | inl same ↦ rw same (write_made-Calm updated _ (f old) k (h old))
        | inr other ↦ rw other tt
      ]

  pub memory_resource-Calm : CalmResource (memory_resource meta slot put clear)
  memory_resource-Calm = record {
    get = λ n k. elim (Option-cases (slot_object meta (slot k) n)) [
      | inl absent ↦ rw (absent, memory_resource) tt
      | inr (a, there) ↦ rw (there, memory_resource) tt
    ];
    remove = λ a k. elim (Option-cases (slot_object meta (slot k) (object_key (meta a)))) [
      | inl absent ↦ rw (absent, memory_resource) tt
      | inr (_, there) ↦ rw (there, memory_resource) tt
    ];
    patch_status = λ b c k. tt;
    create_or_update = λ obj f k h. write_over-Calm (slot k) obj f k h;
  }

write_status-Calm :
    (changed : GarageBucket) (k : MemoryKube) (o : Option GarageBucket)
    → Calm (write_status changed k o)
write_status-Calm changed k none = tt
write_status-Calm changed k (some old) = tt

pub memory_buckets-Calm : CalmResource memory.client.buckets
memory_buckets-Calm = record {
  get = stored.get;
  remove = stored.remove;
  patch_status = λ base changed k. write_status-Calm changed k _;
  create_or_update = stored.create_or_update;
}
  where
    stored : CalmResource memory_buckets
    stored = memory_resource-Calm (λ b. b.meta) (λ k. k.bucket) _ _

-- A read that refuses an object without a field that is required of it.
abbrev answer : {K A B : Type 0} → Option B → A → K → Outcome A × K
answer none a k = (fails (external "invalid"), k)
answer (some _) a k = (returns a, k)

abbrev required : {K A B : Type 0} → (A → Option B) → Outcome A × K → Outcome A × K
required field (returns a, k) = answer (field a) a k
required field (fails e, k) = (fails e, k)
required field (panics, k) = (panics, k)

answer-Filled :
    {K A B : Type 0} (field : A → Option B) (o : Option B) (a : A) (k : K)
    → field a ≡ o
    → Safely (λ x _. Filled (field x)) (answer o a k)
answer-Filled field none a k h = tt
answer-Filled field (some b) a k h = (b, h)

answer-Calm : {K A B : Type 0} (o : Option B) (a : A) (k : K) → Calm (answer o a k)
answer-Calm none a k = tt
answer-Calm (some b) a k = tt

required-Filled :
    {K A B : Type 0} (field : A → Option B) (x : Outcome A × K)
    → Calm x
    → Safely (λ a _. Filled (field a)) (required field x)
required-Filled field (returns a, k) h = answer-Filled field (field a) a k refl
required-Filled field (fails e, k) h = tt
required-Filled field (panics, k) h = h

required-Calm :
    {K A B : Type 0} (field : A → Option B) (x : Outcome A × K) → Calm x → Calm (required field x)
required-Calm field (returns a, k) h = answer-Calm (field a) a k
required-Calm field (fails e, k) h = tt
required-Calm field (panics, k) h = h

-- The memory platform with an API server that checks what it gives.
abbrev pub strict : Platform
strict = record memory {
  client = record memory.client {
    clusters = record memory.client.clusters {
      get = λ n k. required (λ c. c.spec.admin_token_secret_ref) (memory.client.clusters.get n k);
    };
    permissions = record memory.client.permissions {
      get = λ n k. required (λ p. p.spec.bucket_ref) (memory.client.permissions.get n k);
    };
  };
}

stored_clusters-Calm : CalmResource memory.client.clusters
stored_clusters-Calm = memory_resource-Calm (λ x. x.meta) _ _ _

stored_permissions-Calm : CalmResource memory.client.permissions
stored_permissions-Calm = memory_resource-Calm (λ x. x.meta) _ _ _

pub strict-get_cluster :
    (n : NamespacedName) (k : MemoryKube)
    → Safely (λ c _. Filled c.spec.admin_token_secret_ref) (strict.client.clusters.get n k)
strict-get_cluster n k =
    required-Filled _ (memory.client.clusters.get n k) (stored_clusters-Calm.get n k)

pub strict-get_permission :
    (n : NamespacedName) (k : MemoryKube)
    → Safely (λ p _. Filled p.spec.bucket_ref) (strict.client.permissions.get n k)
strict-get_permission n k =
    required-Filled _ (memory.client.permissions.get n k) (stored_permissions-Calm.get n k)

pub strict_permissions-Calm : CalmResource strict.client.permissions
strict_permissions-Calm = record {
  get =
      λ n k. required-Calm _ (memory.client.permissions.get n k) (stored_permissions-Calm.get n k);
  remove = stored_permissions-Calm.remove;
  patch_status = stored_permissions-Calm.patch_status;
  create_or_update = stored_permissions-Calm.create_or_update;
}

pub strict-CalmSdk : (c : Connection) → CalmSdk strict c
strict-CalmSdk c = record {
  get_bucket_info = λ n g. elim (Bool-cases (g.alias == n)) [
    | inr other ↦ rw other (λ h. cc)
    | inl same ↦ elim (Option-cases g.bucket) [
      | inl empty ↦ rw (same, empty) (λ h. cc)
      | inr (b, there) ↦ rw (same, there) (λ _. ((b, refl), (_, refl)))
    ]
  ];
  create_bucket = λ n g. ground arith;
  get_key_info = λ b n g. ground arith;
  update_bucket = λ id q. record { after = λ g. ground arith };
  delete_bucket = λ id. record { after = λ g. ground arith };
  list_buckets = record { after = λ g. ground arith };
  create_key = λ n. record { after = λ g. ground arith };
  delete_key = λ id. record { after = λ g. ground arith };
  list_keys = record { after = λ g. ground arith };
  allow_bucket_key = λ q. record { after = λ g. ground arith };
  deny_bucket_key = λ q. record { after = λ g. ground arith };
}
