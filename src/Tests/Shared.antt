-- ===== src/Tests/Shared.antt =====
-- A run of two controllers on a new bucket, and the theorems on the system at it.
use mathlib.Core.Option.{some-injective, none-ne-some}
use garage_s3_operator.Base.{
  ◌≡◌, refl, sym, ap, ◌∙◌, inl, inr, Bool-cases, true, none, some, [], string_eq, if◌then◌else◌,
}
use garage_s3_operator.Api.{NamespacedName, GarageBucket}
use garage_s3_operator.Platform.{World}
use garage_s3_operator.Bucket as BucketController
use garage_s3_operator.AccessKey as KeyController
use garage_s3_operator.System.Guarded.{Named, Guarded, Inv, chosen}
use garage_s3_operator.System.Invariant.{here, next, bucket_turn, key_turn, Step-Inv, Reach-Guarded}
use garage_s3_operator.Tests.Memory.{memory, memory_view, same_name}
use garage_s3_operator.Tests.MemoryLaws.{
  memory_accessors-AccessorLaws, memory_util-UtilLaws, memory-ServerLaws, delete≢retain,
}
use garage_s3_operator.Tests.MemoryObjects.{same_name_sound}
use garage_s3_operator.Tests.MemorySystem.{
  content, memory_objects, memory-ServerObjects, memory-GarageKeeps,
}
use garage_s3_operator.Tests.Data.{bucket, empty_world}

abbrev media : NamespacedName
media = record { name = "media"; namespace = "team" }

-- The bucket before its first reconciliation.
abbrev new_bucket : GarageBucket
new_bucket = record bucket { meta = record bucket.meta { finalizers = [] } }

abbrev new_world : World memory
new_world = record empty_world { kube = record empty_world.kube { bucket = some new_bucket } }

abbrev bucket_world : World memory
bucket_world = (BucketController.reconcile_request memory none media new_world).1

abbrev key_world : World memory
key_world = (KeyController.reconcile_request memory none media bucket_world).1

new_world-Named : Named memory memory_objects memory_view media "media" new_world.kube
unfolding string_eq
new_world-Named m meta spec there = elim (Bool-cases (same_name media m)) [
  | inr other ↦ absurd (
      none-ne-some (meta, spec)
        (sym (ap (λ t. content (if t then some new_bucket else none)) other) ∙ there))
  | inl same ↦ record {
    own = λ _. (
      ap (λ s. chosen m s) (specs same) ∙ ap (λ x. x.name) (key same),
      λ kept. delete≢retain (ap (λ s. s.reclaim_policy) (sym (specs same)) ∙ kept),
    );
    other = λ elsewhere. absurd (elsewhere (key same));
  }
]
  where
    key : same_name media m ≡ true → m ≡ media
    key same = sym (same_name_sound media m same)

    specs : same_name media m ≡ true → spec ≡ new_bucket.spec
    specs same = sym (
        ap (λ p. p.1)
          (some-injective (new_bucket.meta, new_bucket.spec) (meta, spec)
            (sym (ap (λ t. content (if t then some new_bucket else none)) same) ∙ there)))

Reach-Guarded_example : Guarded memory memory_objects memory_view media "media" key_world
unfolding string_eq
Reach-Guarded_example =
    Reach-Guarded memory memory_objects memory_view media "media" memory-ServerObjects
      memory_util-UtilLaws (memory-GarageKeeps media "media") memory-ServerLaws
      memory_accessors-AccessorLaws new_world key_world new_world-Named refl
      (next (next here (bucket_turn media refl)) (key_turn media refl))

Step-Inv_example : Inv memory memory_objects memory_view media "media" bucket_world
unfolding string_eq
Step-Inv_example =
    Step-Inv memory memory_objects memory_view media "media" memory-ServerObjects
      memory_util-UtilLaws (memory-GarageKeeps media "media") memory-ServerLaws
      memory_accessors-AccessorLaws new_world bucket_world (bucket_turn media refl)
      (record { named = new_world-Named; guarded = inr refl })
