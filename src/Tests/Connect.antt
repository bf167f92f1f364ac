-- ===== src/Tests/Connect.antt =====
-- The connection on the memory platform, whose API server answers with the secrets that it stores.
use garage_s3_operator.Base.{refl, inl, inr, Option, Option-cases, OnReturn}
use garage_s3_operator.Api.{NamespacedName, Secret}
use garage_s3_operator.Garage.{new_garage_client}
use garage_s3_operator.Garage.Follows.{SecretReads, Follows, new_garage_client-Follows}
use garage_s3_operator.Tests.Memory.{memory, memory_resource, MemoryKube, slot_object}
use garage_s3_operator.Tests.Data.{cluster, world}

abbrev memory_stored : MemoryKube → NamespacedName → Option Secret
memory_stored k n = slot_object (λ s. s.meta) k.secret n

memory-SecretReads : SecretReads memory memory_stored
memory-SecretReads = record {
  get_lem = λ n k. elim (Option-cases (slot_object (λ s. s.meta) k.secret n)) [
    | inl absent ↦ rw (absent, memory_resource, OnReturn) tt
    | inr (a, there) ↦ rw (there, memory_resource, OnReturn) there
  ];
  get_same = λ n k. elim (Option-cases (slot_object (λ s. s.meta) k.secret n)) [
    | inl absent ↦ rw (absent, memory_resource) (λ m. refl)
    | inr (a, there) ↦ rw (there, memory_resource) (λ m. refl)
  ];
}

new_garage_client-Follows_example :
    OnReturn
      (λ c _. Follows memory memory_stored memory-SecretReads cluster world.kube c)
      (new_garage_client memory cluster world)
new_garage_client-Follows_example =
    new_garage_client-Follows memory memory_stored memory-SecretReads cluster world
