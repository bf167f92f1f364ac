-- ===== src/Tests/MemoryLaws.antt =====
-- The memory platform meets the assumptions of the theorems.
use garage_s3_operator.Base.{
  String, ◌≡◌, ◌≢◌, refl, sym, ap, inl, inr, Bool, true, Option, none, some, arith, Option-cases,
  Bool-cases, ==-of_eq, ◌==◌, string_eq, Outcome, returns, OnReturn, OnReturn-mono, ◌||◌, ◌∷◌,
}
use mathlib.Core.Bool.{false≢true}
use garage_s3_operator.Api.{ObjectMeta, delete, retain}
use garage_s3_operator.Platform.{Owner, ListKeysItem, Connection, BucketInfo}
use garage_s3_operator.Platform.Laws.{UtilLaws}
use garage_s3_operator.Garage.Laws.{All, GotBucket, GotKey, ShowsGrants, SameNames}
use garage_s3_operator.Garage.Rights.{AccessorLaws}
use garage_s3_operator.Garage.Laws.{ApiLaws}
use garage_s3_operator.Garage.Lawful.{garage_manager-ApiLaws}
use garage_s3_operator.Tests.Data.{connection, manager}
use garage_s3_operator.Garage.Listing.{ListLaws}
use garage_s3_operator.Garage.Server.{ServerLaws}
use garage_s3_operator.Tests.Memory.{
  MemoryGarage, memory_accessors, memory_view, memory_lists, memory_util, memory, bucket_answer,
  key_answer, key_buckets, named_bucket, named_key, is_owner, owner_reference,
}

pub memory_accessors-AccessorLaws : AccessorLaws memory_accessors
memory_accessors-AccessorLaws = record {
  new_owner = refl;
  new_read = refl;
  new_write = refl;
  owner_owner = λ b p. refl;
  owner_read = λ b p. refl;
  owner_write = λ b p. refl;
  read_owner = λ b p. refl;
  read_read = λ b p. refl;
  read_write = λ b p. refl;
  write_owner = λ b p. refl;
  write_read = λ b p. refl;
  write_write = λ b p. refl;
  bucket_id = λ info. refl;
}

memory_set_owner :
    (o : Owner) (m : ObjectMeta)
    → is_owner (owner_reference o ∷ m.owner_references) (owner_reference o) ≡ true
memory_set_owner o m =
    ap (λ b. b || is_owner m.owner_references (owner_reference o)) (==-of_eq uid uid refl)
  where
    uid : String
    uid = (owner_reference o).uid

with_owner : Owner → ObjectMeta → ObjectMeta
with_owner o m = record m { owner_references = owner_reference o ∷ m.owner_references }

returns_inj : {A : Type 0} (a b : A) → Outcome.returns a ≡ returns b → a ≡ b
returns_inj a b h = cc

pub memory_util-UtilLaws : UtilLaws memory_util
unfolding with_owner
memory_util-UtilLaws = record {
  contains-add = λ fs f. ground (arith, ==-of_eq f f refl);
  set_owner = λ o m m' h.
      let e = returns_inj (with_owner o m) m' h in
      rw (sym e) (ap returns (memory_set_owner o m), refl, refl);
}

memory-get_bucket :
    (g : MemoryGarage) (name : String) (o : Option BucketInfo)
    → named_bucket g name ≡ o
    → OnReturn (λ r h. GotBucket r (named_bucket h name)) (bucket_answer g o)
memory-get_bucket g name none e = record { found = λ h. cc; missing = λ _ _ _. e }
memory-get_bucket g name (some info) e = record {
  found = λ h. (info, refl, e);
  missing = λ _ h. cc;
}

memory-ShowsGrants :
    (g : MemoryGarage) (k : ListKeysItem)
    → g.key ≡ some k
    → All (ShowsGrants memory_view memory_accessors g k.id) (key_buckets g)
memory-ShowsGrants g k e = elim (Option-cases g.bucket) [
  | inl absent ↦ rw (absent, key_buckets) tt
  | inr (b, there) ↦
      rw (there, key_buckets)
        (
          record {
            at_alias = λ alias h info q. ground (arith, there);
            shown = ground (arith, e, there, ==-of_eq k.id k.id refl, ==-of_eq b.id b.id refl);
          },
          tt,
        )
]

key_shows :
    (g : MemoryGarage) (name id : String)
    → named_key g name ≡ some id
    → All (ShowsGrants memory_view memory_accessors g id) (key_buckets g)
key_shows g name id e = elim (Option-cases g.key) [
  | inl absent ↦ ground (arith, absent)
  | inr (k, there) ↦
      let same : k.id ≡ id = ground (arith, there) in rw same at (memory-ShowsGrants g k there)
]

memory-get_key :
    (show : Bool) (name : String) (g : MemoryGarage) (o : Option String)
    → named_key g name ≡ o
    → OnReturn
        (λ r h. GotKey memory memory_view show r h name × SameNames memory_view g h)
        (key_answer show name g o)
memory-get_key show name g none e = (
  record { found = λ h. cc; missing = λ _ _ _. e; unmatched = λ _ _ _. e; secret_shown = λ h. cc },
  (λ n. refl, λ n. refl),
)
memory-get_key show name g (some id) e = (
  record {
    found = λ h. (_, refl, refl, e, key_shows g name id e);
    missing = λ _ h. cc;
    unmatched = λ _ h. cc;
    secret_shown = λ _ asked. rw asked refl;
  },
  (λ n. refl, λ n. refl),
)

pub memory-ServerLaws : (c : Connection) → ServerLaws memory c memory_view
memory-ServerLaws c = record {
  get_bucket_info_lem = λ name g. memory-get_bucket g name (named_bucket g name) refl;
  create_bucket_lem = λ name g. elim (Option-cases g.bucket) [
    | inr (b, there) ↦ rw there (λ h. cc)
    | inl empty ↦ rw empty (λ _. (_, refl, rw (==-of_eq name name refl) refl))
  ];
  update_bucket_lem = λ name quotas info g there. elim (Option-cases g.bucket) [
    | inl empty ↦ rw empty (λ h. cc)
    | inr (b, found) ↦ elim (Bool-cases (b.id == info.id)) [
      | inr other ↦ rw (found, other) (λ h. cc)
      | inl same ↦
          rw (found, same)
            (λ _. (
              record b {
                quotas = record {
                  max_objects = some quotas.max_objects;
                  max_size = some quotas.max_size;
                };
              },
              ground (arith, there),
              record { objects = refl; size = refl },
            ))
    ]
  ];
  delete_bucket_lem = λ name info g there. ground arith;
  get_key_info_lem = λ name secret g.
      OnReturn-mono _ _ (key_answer secret name g (named_key g name))
        (memory-get_key secret name g (named_key g name) refl) λ r h got. (got.0, got.1.0);
  delete_key_lem = λ name info g there. ground arith;
  allow_lem = λ q g. ground arith;
  deny_lem = λ q g. ground arith;
}

pub memory-ListLaws : (c : Connection) → ListLaws memory c memory_lists
memory-ListLaws c = record {
  list_keys_lem = λ g. elim (Option-cases g.key) [
    | inl empty ↦ rw empty ((λ _. rw empty refl), (refl, refl))
    | inr (k, there) ↦ rw there ((λ _. rw there refl), (refl, refl))
  ];
  list_buckets_lem = λ g. elim (Option-cases g.bucket) [
    | inl empty ↦ rw empty ((λ _. rw empty refl), (refl, refl))
    | inr (b, there) ↦ rw there ((λ _. rw there refl), (refl, refl))
  ];
  deny_lists_lem = λ q g. ground arith;
}

pub manager-ApiLaws : ApiLaws memory manager memory_view
manager-ApiLaws =
    garage_manager-ApiLaws memory connection memory_view (memory-ServerLaws connection)
      memory_accessors-AccessorLaws

pub delete≢retain : delete ≢ retain
unfolding string_eq
delete≢retain e = false≢true (ap (λ s. s == retain) e)
