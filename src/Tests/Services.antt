-- ===== src/Tests/Services.antt =====
-- The theorems on the Garage manager and the keys at concrete inputs.
use garage_s3_operator.Base.{
  String, ◌≡◌, refl, ◌⊎◌, none, some, [], ◌∷◌, ◌==◌, string_eq, contains, OnReturn, Always,
}
use garage_s3_operator.Api.{key_target_name, effective_name, Secret}
use garage_s3_operator.Api.TargetName.{key_target_name_inj}
use garage_s3_operator.Garage.Laws.{ApiLaws, SameNames}
use garage_s3_operator.Garage.Server.{no_permissions}
use garage_s3_operator.Garage.{set_permissions, deny_all_permissions, find_key, find_bucket}
use garage_s3_operator.Garage.Grants.{set_permissions-grants, deny_all_permissions-grants}
use garage_s3_operator.Garage.Lawful.{garage_manager-ApiLaws, garage_manager-LeavesKube}
use garage_s3_operator.Garage.Lists.{Finds, find_key-Finds, find_bucket-Finds}
use garage_s3_operator.AccessKey as KeyController
use garage_s3_operator.AccessKey.{secret_name, opaque, expected_secret_content, secret_format}
use garage_s3_operator.AccessKey.Credentials.{body, reconcile_secret-body}
use garage_s3_operator.AccessKey.SecretRead.{read_content, read_content-expected_secret_content}
use garage_s3_operator.AccessKey.Deletion.{key_finalize-gone, key_finalize_guards}
use garage_s3_operator.Tests.Memory.{memory, memory_view, slot_object}
use garage_s3_operator.Tests.MemoryLaws.{
  delete≢retain, memory_accessors-AccessorLaws, memory-ServerLaws, manager-ApiLaws,
}
use garage_s3_operator.Tests.MemoryObjects.{memory_secrets-ResourceLaws}
use garage_s3_operator.Tests.Data.{connection, manager, key, renamed_key, world, read_write}

set_permissions-grants_example :
    OnReturn
      (λ r t.
        (r.error ≡ none → memory_view.grants t.garage "key-1" "bucket-1" ≡ read_write)
        × SameNames memory_view world.garage t.garage)
      (set_permissions memory connection "key-1" "bucket-1" read_write world)
set_permissions-grants_example =
    set_permissions-grants memory connection memory_view (memory-ServerLaws connection)
      memory_accessors-AccessorLaws "key-1" "bucket-1" read_write world

deny_all_permissions-grants_example :
    OnReturn
      (λ r t. r.error ≡ none → memory_view.grants t.garage "key-1" "bucket-1" ≡ no_permissions)
      (deny_all_permissions memory connection "key-1" "bucket-1" world)
deny_all_permissions-grants_example =
    deny_all_permissions-grants memory connection memory_view (memory-ServerLaws connection)
      memory_accessors-AccessorLaws "key-1" "bucket-1" world

garage_manager-ApiLaws_example : ApiLaws memory manager memory_view
garage_manager-ApiLaws_example =
    garage_manager-ApiLaws memory connection memory_view (memory-ServerLaws connection)
      memory_accessors-AccessorLaws

reconcile_secret-body_example :
    OnReturn
      (λ _ t.
        (id : String) × (s : Secret) × (memory_view.key_at t.garage (key_target_name key) ≡ some id)
        × (slot_object
              (λ s. s.meta)
              t.kube.secret
              (record { name = secret_name key; namespace = key.meta.namespace })
            ≡ some s)
        × (body s ≡ (
          opaque,
          expected_secret_content (secret_format key) id (memory_view.secret_of t.garage id),
        )))
      (KeyController.reconcile_secret memory manager key
        (record world { kube = record world.kube { secret = none } }))
reconcile_secret-body_example =
    reconcile_secret-body memory manager memory_view manager-ApiLaws
      (λ k n. slot_object (λ s. s.meta) k.secret n) memory_secrets-ResourceLaws key
      (record world { kube = record world.kube { secret = none } })

key_finalize_guards_example :
    Always
      (λ t. (t.kube ≡ world.kube) ⊎ (memory_view.key_at t.garage (key_target_name key) ≡ none))
      (KeyController.finalize memory manager key world)
key_finalize_guards_example =
    key_finalize_guards memory manager memory_view manager-ApiLaws
      (garage_manager-LeavesKube memory connection) key world delete≢retain

key_finalize-gone_example :
    OnReturn
      (λ _ t. memory_view.key_at t.garage (key_target_name key) ≡ none)
      (KeyController.finalize memory manager key world)
unfolding string_eq
key_finalize-gone_example =
    key_finalize-gone memory manager memory_view manager-ApiLaws
      (garage_manager-LeavesKube memory connection) key world delete≢retain refl

find_key-Finds_example :
    Finds
      (λ k. k.name == "b")
      (record { id = "1"; name = "a" } ∷ record { id = "2"; name = "b" } ∷ [])
      (find_key "b" (record { id = "1"; name = "a" } ∷ record { id = "2"; name = "b" } ∷ []))
find_key-Finds_example =
    find_key-Finds "b" (record { id = "1"; name = "a" } ∷ record { id = "2"; name = "b" } ∷ [])

find_bucket-Finds_example :
    Finds
      (λ b. contains b.global_aliases "b")
      (record { id = "1"; global_aliases = "a" ∷ "b" ∷ [] } ∷ [])
      (find_bucket "b" (record { id = "1"; global_aliases = "a" ∷ "b" ∷ [] } ∷ []))
find_bucket-Finds_example =
    find_bucket-Finds "b" (record { id = "1"; global_aliases = "a" ∷ "b" ∷ [] } ∷ [])

read_content-expected_secret_content_example :
    read_content "AWSConfig" (expected_secret_content "AWSConfig" "GK1" "s=3") ≡ some ("GK1", "s=3")
unfolding string_eq
read_content-expected_secret_content_example =
    read_content-expected_secret_content "AWSConfig" "GK1" "s=3" (cc, (cc, (cc, tt)))
      (cc, (cc, (cc, tt)))

key_target_name_inj_example :
    (key.meta.namespace ≡ renamed_key.meta.namespace)
    × (effective_name key ≡ effective_name renamed_key)
    × (key.meta.uid ≡ renamed_key.meta.uid)
unfolding string_eq key_target_name
key_target_name_inj_example =
    key_target_name_inj key renamed_key (cc, (cc, (cc, (cc, tt)))) (cc, (cc, (cc, (cc, tt))))
      (cc, (cc, tt)) (cc, (cc, tt)) refl
