-- ===== src/Tests/Disowned.antt =====
-- The deletion of a bucket's key and permission on the memory platform, whose deletions concern the
-- object of the given name and kind alone.
use garage_s3_operator.Base.{
  ◌≡◌, ◌≢◌, refl, sym, ap, ◌∙◌, inl, inr, Option, none, some, Option-cases, OnReturn, Always,
  returns, string_eq,
}
use garage_s3_operator.Api.{ObjectMeta, object_key, NamespacedName}
use garage_s3_operator.Bucket.{reconcile_key_resources_deletion}
use garage_s3_operator.Bucket.Disowned.{
  Stored, DeletionLaws, Apart, Spared, reconcile_key_resources_deletion-Spared,
}
use garage_s3_operator.Tests.Memory.{memory, memory_resource, MemoryKube, slot_object}
use garage_s3_operator.Tests.MemoryObjects.{slot_object-keyed, slot_object-other, slot_object-full}
use garage_s3_operator.Tests.Data.{bucket, world, disowned_world}

module _ {A : Type 0} (meta : A → ObjectMeta) (slot : MemoryKube → Option A)
    (put : A → MemoryKube → MemoryKube) (clear : MemoryKube → MemoryKube) where
  abbrev in_slot : Stored MemoryKube A
  in_slot k n = slot_object meta (slot k) n

  cleared-others :
      (clears : (k : MemoryKube) (n : NamespacedName) → in_slot (clear k) n ≡ none) (k : MemoryKube)
      (n own : NamespacedName) (a : A)
      → in_slot k own ≡ some a
      → n ≢ own
      → in_slot (clear k) n ≡ in_slot k n
  cleared-others clears k n own a there other =
      clears k n
      ∙ sym (
          ap (λ o. slot_object meta o n) (slot_object-full meta (slot k) own a there)
          ∙ slot_object-other meta a n
              (λ e. other (sym e ∙ slot_object-keyed meta (slot k) own a there)))

  memory_resource-DeletionLaws :
      (clears : (k : MemoryKube) (n : NamespacedName) → in_slot (clear k) n ≡ none)
      → DeletionLaws in_slot (memory_resource meta slot put clear) meta
  memory_resource-DeletionLaws clears = record {
    keyed = λ k n a h. slot_object-keyed meta (slot k) n a h;
    get_lem = λ n k. elim (Option-cases (slot_object meta (slot k) n)) [
      | inl absent ↦ rw (absent, memory_resource, OnReturn) tt
      | inr (a, there) ↦ rw (there, memory_resource, OnReturn) there
    ];
    get_same = λ n k. elim (Option-cases (slot_object meta (slot k) n)) [
      | inl absent ↦ rw (absent, memory_resource) (λ m. refl)
      | inr (a, there) ↦ rw (there, memory_resource) (λ m. refl)
    ];
    remove_others = λ a k. elim (Option-cases (slot_object meta (slot k) (object_key (meta a)))) [
      | inl absent ↦ rw (absent, memory_resource) (λ n other. refl)
      | inr (b, there) ↦
          rw (there, memory_resource)
            (λ n other. cleared-others clears k n (object_key (meta a)) b there other)
    ];
  }

  memory_resource-Apart :
      {B : Type 0} (stored : Stored MemoryKube B)
      → ((k : MemoryKube) (n : NamespacedName) → stored (clear k) n ≡ stored k n)
      → Apart stored (memory_resource meta slot put clear)
  memory_resource-Apart stored beside = record {
    get = λ n k. elim (Option-cases (slot_object meta (slot k) n)) [
      | inl absent ↦ rw (absent, memory_resource) (λ m. refl)
      | inr (a, there) ↦ rw (there, memory_resource) (λ m. refl)
    ];
    remove = λ a k. elim (Option-cases (slot_object meta (slot k) (object_key (meta a)))) [
      | inl absent ↦ rw (absent, memory_resource) (λ m. refl)
      | inr (b, there) ↦ rw (there, memory_resource) (beside k)
    ];
  }

reconcile_key_resources_deletion-Spared_example :
    Always
      (λ t.
        Spared memory bucket
          (λ k n. slot_object (λ a. a.meta) k.key n)
          (λ a. a.meta)
          disowned_world.kube
          t.kube
        × Spared memory bucket
            (λ k n. slot_object (λ p. p.meta) k.permission n)
            (λ p. p.meta)
            disowned_world.kube
            t.kube)
      (reconcile_key_resources_deletion memory bucket disowned_world)
reconcile_key_resources_deletion-Spared_example =
    reconcile_key_resources_deletion-Spared memory bucket (λ k n. slot_object (λ a. a.meta) k.key n)
      (λ k n. slot_object (λ p. p.meta) k.permission n)
      (memory_resource-DeletionLaws (λ a. a.meta) (λ k. k.key) _ _ (λ k n. refl))
      (memory_resource-DeletionLaws (λ p. p.meta) (λ k. k.permission) _ _ (λ k n. refl))
      (memory_resource-Apart (λ a. a.meta) (λ k. k.key) _ _ _ (λ k n. refl))
      (memory_resource-Apart (λ p. p.meta) (λ k. k.permission) _ _ _ (λ k n. refl)) disowned_world

-- The key goes that the bucket owns, and no other.
deletion_run :
    ((reconcile_key_resources_deletion memory bucket world).0 ≡ returns tt)
    × ((reconcile_key_resources_deletion memory bucket world).1.kube.key ≡ none)
    × (reconcile_key_resources_deletion memory bucket disowned_world ≡ (returns tt, disowned_world))
unfolding reconcile_key_resources_deletion string_eq
deletion_run = (refl, refl, refl)
