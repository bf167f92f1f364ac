-- ===== src/Tests/Memory.antt =====
-- A platform to run the model on: a Garage with room for one bucket and one key, and an API server
-- with room for one object of each kind. It meets the assumptions (`MemoryLaws`).
mod Service
mod Objects
use mathlib.Core.Option.{get_or}
use garage_s3_operator.Base.{
  ℕ, String, Bool, true, false, not, ◌&&◌, ◌||◌, Option, none, some, List, [], ◌∷◌, pos, ◌==◌,
  string_eq, if◌then◌else◌, Error, external, Outcome, returns, fails, panics, Action,
}
use garage_s3_operator.Api.{
  ObjectMeta, object_key, NamespacedName, OwnerReference, GarageCluster, GarageBucket,
  GarageAccessKey, GaragePermission, Secret, Permissions,
}
use garage_s3_operator.Platform.{
  Platform, Resource, OperationResult, created, updated, Client, Sdk, Accessors, Util, Owner,
  of_bucket, of_key, Response, Reply, Ack, ApiBucketKeyPerm, BucketInfo, KeyBucket, KeyInfo,
  ListKeysItem, PermChange,
}
use garage_s3_operator.Garage.Laws.{View}
use garage_s3_operator.Garage.Listing.{Lists}
use garage_s3_operator.Garage.Server.{allowed, denied, no_permissions}
use garage_s3_operator.Tests.Memory.Service.{memory_accessors, memory_sdk, MemoryGarage}
use garage_s3_operator.Tests.Memory.Objects.{memory_client, MemoryKube}
unfoldable pub use Service.*
unfoldable pub use Objects.*

abbrev pub owner_reference : Owner → OwnerReference
owner_reference (of_bucket b) = record {
  kind = "GarageBucket";
  name = b.meta.name;
  uid = b.meta.uid;
}
owner_reference (of_key k) = record {
  kind = "GarageAccessKey";
  name = k.meta.name;
  uid = k.meta.uid;
}

abbrev pub is_owner : List OwnerReference → OwnerReference → Bool
is_owner [] o = false
is_owner (r ∷ rs) o = (r.uid == o.uid) || is_owner rs o

abbrev has_text : List String → String → Bool
has_text [] t = false
has_text (x ∷ xs) t = (x == t) || has_text xs t

abbrev drop_text : List String → String → List String
drop_text [] t = []
drop_text (x ∷ xs) t = let rest = drop_text xs t in if x == t then rest else x ∷ rest

abbrev pub memory_util : Util
memory_util = record {
  is_not_found = λ e. elim e [ external text ↦ text == "not found" | _ ↦ false ];
  is_zero = λ o. elim o [ none ↦ true | some _ ↦ false ];
  contains_finalizer = has_text;
  add_finalizer = λ fs f. f ∷ fs;
  remove_finalizer = drop_text;
  has_owner_reference = λ rs o. returns (is_owner rs (owner_reference o));
  set_owner_reference =
      λ o m. returns (record m { owner_references = owner_reference o ∷ m.owner_references });
  parse_scheme = λ url. if url == "https://garage" then some "https" else some "http";
  append_certs_from_pem = λ text. not (text == "");
}

abbrev pub memory : Platform
memory = record {
  Kube = MemoryKube;
  Garage = MemoryGarage;
  client = memory_client;
  sdk = memory_sdk;
  accessors = memory_accessors;
  util = memory_util;
}
