-- ===== src/Tests/Memory/Service.antt =====
-- A Garage with room for one bucket and one key.
use mathlib.Core.Option.{get_or}
use garage_s3_operator.Base.{
  ℕ, String, Bool, false, ◌&&◌, Option, none, some, List, [], ◌∷◌, pos, ◌==◌, string_eq,
  if◌then◌else◌, external, Outcome, returns, Action,
}
use garage_s3_operator.Api.{Permissions}
use garage_s3_operator.Platform.{
  Sdk, Accessors, Response, Reply, Ack, ApiBucketKeyPerm, BucketInfo, KeyBucket, KeyInfo,
  ListKeysItem, PermChange,
}
use garage_s3_operator.Garage.Laws.{View}
use garage_s3_operator.Garage.Listing.{Lists}
use garage_s3_operator.Garage.Server.{allowed, denied, no_permissions}

abbrev pub memory_accessors : Accessors
memory_accessors = record {
  get_max_objects = λ q. get_or q.max_objects (pos 0);
  get_max_size = λ q. get_or q.max_size (pos 0);
  get_bucket_id = λ o. elim o [ none ↦ "" | some info ↦ info.id ];
  get_access_key_id = λ o. elim o [ none ↦ "" | some info ↦ info.access_key_id ];
  get_secret_access_key = λ o. elim o [ none ↦ "" | some info ↦ get_or info.secret_access_key "" ];
  get_buckets = λ o. elim o [ none ↦ [] | some info ↦ info.buckets ];
  get_global_aliases = λ b. b.global_aliases;
  get_owner = λ p. get_or p.owner false;
  get_read = λ p. get_or p.read false;
  get_write = λ p. get_or p.write false;
  new_key_perm = record { owner = none; read = none; write = none };
  set_owner = λ b p. record p { owner = some b };
  set_read = λ b p. record p { read = some b };
  set_write = λ b p. record p { write = some b };
}

-- The one bucket with its alias, the one key, and the key's rights on the bucket.
pub record MemoryGarage : Type 0 where
  pub bucket : Option BucketInfo
  pub alias : String
  pub key : Option ListKeysItem
  pub secret : String
  pub rights : Permissions

abbrev status : ℕ → Option Response
status code = some (record { status_code = code; status = "" })

abbrev answer : {A : Type 0} → A → Reply A
answer a = record { value = a; resp = status 200; error = none }

abbrev refuse : {A : Type 0} → A → ℕ → Reply A
refuse nil code = record { value = nil; resp = status code; error = some (external "refused") }

abbrev accept : Ack
accept = record { resp = status 200; error = none }

abbrev reject : Ack
reject = record { resp = status 404; error = some (external "refused") }

abbrev pub named_bucket : MemoryGarage → String → Option BucketInfo
named_bucket g name = if g.alias == name then g.bucket else none

abbrev pub named_key : MemoryGarage → String → Option String
named_key g name = elim g.key [ none ↦ none | some k ↦ if k.name == name then some k.id else none ]

abbrev pub aimed : MemoryGarage → String → String → Bool
aimed g key_id bucket_id = elim g.key [
  | none ↦ false
  | some k ↦ elim g.bucket [ none ↦ false | some b ↦ (k.id == key_id) && (b.id == bucket_id) ]
]

abbrev pub memory_view : View MemoryGarage
memory_view = record {
  bucket_at = named_bucket;
  key_at = named_key;
  secret_of = λ g id. g.secret;
  grants = λ g key_id bucket_id. if aimed g key_id bucket_id then g.rights else no_permissions;
}

abbrev pub memory_lists : Lists MemoryGarage
memory_lists = record {
  keys = λ g. elim g.key [ none ↦ [] | some k ↦ k ∷ [] ];
  buckets = λ g. elim g.bucket [
    | none ↦ []
    | some b ↦ record { id = b.id; global_aliases = g.alias ∷ [] } ∷ []
  ];
}

abbrev own_rights : ApiBucketKeyPerm → Permissions
own_rights p = record {
  owner = get_or p.owner false;
  read = get_or p.read false;
  write = get_or p.write false;
}

abbrev shown_rights : Permissions → ApiBucketKeyPerm
shown_rights p = record { owner = some p.owner; read = some p.read; write = some p.write }

-- The key's entry for the bucket.
abbrev pub key_buckets : MemoryGarage → List KeyBucket
key_buckets g = elim g.bucket [
  | none ↦ []
  | some b ↦
      record { id = b.id; global_aliases = g.alias ∷ []; permissions = shown_rights g.rights } ∷ []
]

abbrev change_rights :
    (Permissions → Permissions → Permissions)
    → PermChange
    → Action MemoryGarage (Reply (Option BucketInfo))
change_rights f q g =
    if aimed g q.access_key_id q.bucket_id
    then (returns (answer g.bucket), record g { rights = f (own_rights q.permissions) g.rights })
    else (returns (refuse none 404), g)

abbrev pub bucket_answer :
    MemoryGarage → Option BucketInfo → Outcome (Reply (Option BucketInfo)) × MemoryGarage
bucket_answer g none = (returns (refuse none 404), g)
bucket_answer g (some info) = (returns (answer (some info)), g)

-- A search that finds no key is a bad request.
abbrev pub key_answer :
    Bool → String → MemoryGarage → Option String → Outcome (Reply (Option KeyInfo)) × MemoryGarage
key_answer show name g none = (returns (refuse none 400), g)
key_answer show name g (some id) = (
  returns (
      answer (
        some (record {
          access_key_id = id;
          name = name;
          secret_access_key = if show then some g.secret else none;
          buckets = key_buckets g;
        }))),
  g,
)

abbrev pub memory_sdk : Sdk MemoryGarage
memory_sdk = record {
  get_bucket_info = λ c name g. bucket_answer g (named_bucket g name);
  create_bucket = λ c name g. elim name [
    | none ↦ (returns (refuse none 400), g)
    | some n ↦ elim g.bucket [
      | some _ ↦ (returns (refuse none 409), g)
      | none ↦
          let info : BucketInfo = record {
            id = "bucket-1";
            global_aliases = n ∷ [];
            quotas = record { max_objects = none; max_size = none };
          } in
          (returns (answer (some info)), record g { bucket = some info; alias = n })
    ]
  ];
  update_bucket = λ c id quotas g. elim g.bucket [
    | none ↦ (returns (refuse none 404), g)
    | some b ↦
        if b.id == id
        then (
          returns (answer (some (record b { quotas = get_or quotas b.quotas }))),
          record g { bucket = some (record b { quotas = get_or quotas b.quotas }) },
        )
        else (returns (refuse none 404), g)
  ];
  delete_bucket = λ c id g. elim g.bucket [
    | none ↦ (returns reject, g)
    | some b ↦
        if b.id == id then (returns accept, record g { bucket = none }) else (returns reject, g)
  ];
  list_buckets = λ c g. elim g.bucket [
    | none ↦ (returns (answer []), g)
    | some b ↦ (returns (answer (record { id = b.id; global_aliases = g.alias ∷ [] } ∷ [])), g)
  ];
  get_key_info = λ c show name g. key_answer show name g (named_key g name);
  create_key = λ c name g. elim name [
    | none ↦ (returns (refuse none 400), g)
    | some n ↦ (returns (answer none), record g { key = some (record { id = "key-1"; name = n }) })
  ];
  delete_key = λ c id g. elim g.key [
    | none ↦ (returns reject, g)
    | some k ↦ if k.id == id then (returns accept, record g { key = none }) else (returns reject, g)
  ];
  list_keys = λ c g. elim g.key [
    | none ↦ (returns (answer []), g)
    | some k ↦ (returns (answer (k ∷ [])), g)
  ];
  allow_bucket_key = λ c. change_rights allowed;
  deny_bucket_key = λ c. change_rights denied;
}
