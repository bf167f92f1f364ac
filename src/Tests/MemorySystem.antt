-- ===== src/Tests/MemorySystem.antt =====
-- The memory platform as a whole system: its API server keeps the GarageBucket objects the way the
-- theorems on the system assume, and its Garage makes a bucket only when it is asked to.
use garage_s3_operator.Base.{
  String, ◌≡◌, ◌≢◌, refl, sym, ap, ◌∙◌, inl, inr, Option, none, some, Bool-cases, Option-cases,
  string_eq, Outcome, returns, fails, panics, OnReturn, Always, arith,
}
use garage_s3_operator.Api.{ObjectMeta, object_key, NamespacedName, BucketSpec, GarageBucket}
use garage_s3_operator.Platform.{OperationResult}
use garage_s3_operator.System.Laws.{Objects, SameObjects, Leaves, Unrelated, Updated, ServerObjects}
use garage_s3_operator.System.Manager.{GarageKeeps}
use garage_s3_operator.System.Guarded.{Vacant}
use garage_s3_operator.Tests.Memory.{
  memory, memory_client, memory_view, memory_resource, memory_util, write_over, write_made,
  write_status, MemoryKube, MemoryGarage, slot_object, same_name,
}
use garage_s3_operator.Tests.MemoryObjects.{
  slot_object-keyed, slot_object-same, slot_object-other, slot_object-full,
}

abbrev pub content : Option GarageBucket → Option (ObjectMeta × BucketSpec)
content none = none
content (some b) = some (b.meta, b.spec)

abbrev pub memory_objects : Objects MemoryKube
memory_objects k n = content (slot_object (λ b. b.meta) k.bucket n)

-- A kind whose objects lie beside the bucket.
module _ {A : Type 0} (meta : A → ObjectMeta) (slot : MemoryKube → Option A)
    (put : A → MemoryKube → MemoryKube) (clear : MemoryKube → MemoryKube)
    (put-beside : (a : A) (k : MemoryKube) → (put a k).bucket ≡ k.bucket)
    (clear-beside : (k : MemoryKube) → (clear k).bucket ≡ k.bucket) where
  beside : (k t : MemoryKube) → t.bucket ≡ k.bucket → SameObjects memory_objects k t
  beside k t e n = ap (λ o. content (slot_object (λ b. b.meta) o n)) e

  write_made-Leaves :
      (op : OperationResult) (n : NamespacedName) (made : Outcome A) (k : MemoryKube)
      → Always (SameObjects memory_objects k) (write_made meta put op n made k)
  write_made-Leaves op n (returns a) k = elim (Bool-cases (same_name (object_key (meta a)) n)) [
    | inl same ↦ rw same (beside k (put a k) (put-beside a k))
    | inr other ↦ rw other (λ m. refl)
  ]
  write_made-Leaves op n (fails e) k = λ m. refl
  write_made-Leaves op n panics k = λ m. refl

  write_over-Leaves :
      (o : Option A) (obj : A) (f : A → Outcome A) (k : MemoryKube)
      → Always (SameObjects memory_objects k) (write_over meta slot put clear o obj f k)
  write_over-Leaves none obj f k = write_made-Leaves _ _ (f obj) k
  write_over-Leaves (some old) obj f k =
      elim (Bool-cases (same_name (object_key (meta old)) (object_key (meta obj)))) [
        | inl same ↦ rw same (write_made-Leaves _ _ (f old) k)
        | inr other ↦ rw other (λ m. refl)
      ]

  memory_resource-Unrelated : Unrelated memory_objects (memory_resource meta slot put clear)
  memory_resource-Unrelated = record {
    get = λ n k. elim (Option-cases (slot_object meta (slot k) n)) [
      | inl absent ↦ rw (absent, memory_resource) (λ m. refl)
      | inr (a, there) ↦ rw (there, memory_resource) (λ m. refl)
    ];
    update = λ a k. elim (Option-cases (slot_object meta (slot k) (object_key (meta a)))) [
      | inl absent ↦ rw (absent, memory_resource) (λ m. refl)
      | inr (_, there) ↦ rw (there, memory_resource) (beside k (put a k) (put-beside a k))
    ];
    remove = λ a k. elim (Option-cases (slot_object meta (slot k) (object_key (meta a)))) [
      | inl absent ↦ rw (absent, memory_resource) (λ m. refl)
      | inr (_, there) ↦ rw (there, memory_resource) (beside k (clear k) (clear-beside k))
    ];
    patch_status = λ base a k. beside k (put a k) (put-beside a k);
    create_or_update = λ obj f k. write_over-Leaves (slot k) obj f k;
  }

-- The bucket itself.
pub object_there :
    (b : GarageBucket) (k : MemoryKube) (n : NamespacedName)
    → object_key b.meta ≡ n
    → memory_objects (record k { bucket = some b }) n ≡ some (b.meta, b.spec)
object_there b k n e = ap content (slot_object-same (λ b. b.meta) b n e)

write-Updated :
    (b old : GarageBucket) (k : MemoryKube)
    → slot_object (λ b. b.meta) k.bucket (object_key b.meta) ≡ some old
    → Updated memory_objects memory_util b k (record k { bucket = some b })
write-Updated b old k there = record {
  others = λ n other.
      ap content (slot_object-other (λ b. b.meta) b n (λ e. other (sym e)))
      ∙ sym (
          ap content (
            ap (λ o. slot_object (λ b. b.meta) o n)
              (slot_object-full (λ b. b.meta) k.bucket (object_key b.meta) old there)
            ∙ slot_object-other (λ b. b.meta) old n
                (λ e. other (
                  sym e
                  ∙ slot_object-keyed (λ b. b.meta) k.bucket (object_key b.meta) old there))));
  own = inr (inr (b.meta, object_there b k _ refl, refl));
}

status-Leaves :
    (base changed : GarageBucket)
    → Leaves memory_objects (memory_client.buckets.patch_status base changed)
status-Leaves base changed k =
    elim (Option-cases (slot_object (λ b. b.meta) k.bucket (object_key changed.meta))) [
      | inl absent ↦ patched none absent
      | inr (old, there) ↦ patched (some old) there
    ]
  where
    patched :
        (o : Option GarageBucket)
        → slot_object (λ b. b.meta) k.bucket (object_key changed.meta) ≡ o
        → Always
            (SameObjects memory_objects k)
            (write_status changed k (slot_object (λ b. b.meta) k.bucket (object_key changed.meta)))
    patched none absent = rw absent (λ n. refl)
    patched (some old) there = rw there λ n.
        with_status n
        ∙ sym (
            ap (λ o. content (slot_object (λ b. b.meta) o n))
              (slot_object-full (λ b. b.meta) k.bucket _ old there))
      where
        with_status :
            (n : NamespacedName)
            → content (slot_object (λ b. b.meta) (some (record old { status = changed.status })) n)
              ≡ content (slot_object (λ b. b.meta) (some old) n)
        with_status n = elim (Bool-cases (same_name (object_key old.meta) n)) [
          | inl same ↦ rw same refl
          | inr other ↦ rw other refl
        ]

pub memory-ServerObjects : ServerObjects memory memory_objects
memory-ServerObjects = record {
  clusters = memory_resource-Unrelated (λ c. c.meta) _ _ _ (λ a k. refl) (λ k. refl);
  access_keys = memory_resource-Unrelated (λ c. c.meta) _ _ _ (λ a k. refl) (λ k. refl);
  permissions = memory_resource-Unrelated (λ c. c.meta) _ _ _ (λ a k. refl) (λ k. refl);
  secrets = memory_resource-Unrelated (λ c. c.meta) _ _ _ (λ a k. refl) (λ k. refl);
  get = λ n k. elim (Option-cases (slot_object (λ b. b.meta) k.bucket n)) [
    | inl absent ↦ rw (absent, memory_resource) (λ m. refl)
    | inr (a, there) ↦ rw (there, memory_resource) (λ m. refl)
  ];
  get_lem = λ n k. elim (Option-cases (slot_object (λ b. b.meta) k.bucket n)) [
    | inl absent ↦ rw (absent, memory_resource) tt
    | inr (a, there) ↦
        rw (there, memory_resource, OnReturn)
          (slot_object-keyed (λ b. b.meta) k.bucket n a there, ap content there)
  ];
  patch_status = status-Leaves;
  update = λ b k. elim (Option-cases (slot_object (λ b. b.meta) k.bucket (object_key b.meta))) [
    | inl absent ↦ rw (absent, memory_resource) (record { others = λ n o. refl; own = inl refl })
    | inr (old, there) ↦ rw (there, memory_resource) (write-Updated b old k there)
  ];
  update_lem = λ b k. elim (Option-cases (slot_object (λ b. b.meta) k.bucket (object_key b.meta))) [
    | inl absent ↦ rw (absent, memory_resource, OnReturn) tt
    | inr (old, there) ↦
        rw (there, memory_resource, OnReturn)
          (refl, refl, λ f has. (b.meta, object_there b k _ refl, refl))
  ];
}

module _ (n : NamespacedName) (name : String) where
  abbrev Kept : MemoryGarage → MemoryGarage → Type 0
  Kept = (Vacant memory memory_objects memory_view n name).later

  pub memory-GarageKeeps :
      GarageKeeps memory memory_objects
        (Vacant memory memory_objects memory_view n name)
        (λ x. x ≢ name)
  unfolding Vacant
  memory-GarageKeeps = record {
    steady = λ c. record {
      get_bucket_info = λ x g. ground arith;
      update_bucket = λ id q g. ground arith;
      delete_bucket = λ id g. ground arith;
      list_buckets = λ g. ground arith;
      get_key_info = λ b x g. ground arith;
      create_key = λ x g. ground arith;
      delete_key = λ id g. ground arith;
      list_keys = λ g. ground arith;
      allow_bucket_key = λ q g. ground arith;
      deny_bucket_key = λ q g. ground arith;
    };
    creates = λ c x u g. ground arith;
  }
