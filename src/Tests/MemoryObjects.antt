-- ===== src/Tests/MemoryObjects.antt =====
-- The API server of the memory platform meets the assumptions of the theorems.
use mathlib.Core.Option.{some-injective, none-ne-some}
use garage_s3_operator.Base.{
  ◌≡◌, ◌≢◌, ◌⊎◌, refl, ap, sym, ap₂, ◌∙◌, inl, inr, Bool, true, ◌&&◌, Option, none, some, arith,
  Bool-cases, eq_of_==, ==-of_eq, ◌==◌, string_eq, if◌then◌else◌, Outcome, returns, fails, panics,
  OnReturn,
}
use garage_s3_operator.Api.{GarageBucket, ObjectMeta, object_key, NamespacedName}
use garage_s3_operator.Platform.{OperationResult, created, updated}
use garage_s3_operator.Platform.Laws.{ResourceLaws, Written}
use garage_s3_operator.AccessKey.Credentials.{body}
use garage_s3_operator.AccessKey.Provision.{KeyPatchKeeps}
use garage_s3_operator.Bucket.Provision.{PatchKeepsSpec}
use garage_s3_operator.Tests.Memory.{
  memory, memory_client, memory_resource, write_over, write_made, write_status, MemoryKube,
  slot_object, same_name,
}

pub same_name_sound : (m n : NamespacedName) → same_name m n ≡ true → m ≡ n
same_name_sound m n h =
    let parts = and_parts (m.name == n.name) (m.namespace == n.namespace) h in
    ap₂ (λ x y. record { name = x; namespace = y }) (eq_of_== m.name n.name parts.0)
      (eq_of_== m.namespace n.namespace parts.1)
  where
    and_parts : (a b : Bool) → (a && b) ≡ true → (a ≡ true) × (b ≡ true)
    and_parts a b e = ground arith

pub same_name_refl : (n : NamespacedName) → same_name n n ≡ true
same_name_refl n = rw (==-of_eq n.name n.name refl, ==-of_eq n.namespace n.namespace refl) refl

module _ {A : Type 0} (meta : A → ObjectMeta) where
  pub slot_object-same :
      (a : A) (n : NamespacedName) → object_key (meta a) ≡ n → slot_object meta (some a) n ≡ some a
  slot_object-same a n h = rw (ap (λ m. same_name m n) h ∙ same_name_refl n) refl

  pub slot_object-keyed :
      (o : Option A) (n : NamespacedName) (a : A)
      → slot_object meta o n ≡ some a
      → object_key (meta a) ≡ n
  slot_object-keyed none n a h = absurd (none-ne-some a h)
  slot_object-keyed (some b) n a h = elim (Bool-cases (same_name (object_key (meta b)) n)) [
    | inr other ↦ absurd (none-ne-some a (sym (ap (λ t. if t then some b else none) other) ∙ h))
    | inl same ↦
        ap (λ c. object_key (meta c))
          (some-injective a b (sym h ∙ ap (λ t. if t then some b else none) same))
        ∙ same_name_sound (object_key (meta b)) n same
  ]

  pub slot_object-other :
      (a : A) (n : NamespacedName) → object_key (meta a) ≢ n → slot_object meta (some a) n ≡ none
  slot_object-other a n h = elim (Bool-cases (same_name (object_key (meta a)) n)) [
    | inl same ↦ absurd (h (same_name_sound _ _ same))
    | inr other ↦ ap (λ t. if t then some a else none) other
  ]

  pub slot_object-full :
      (o : Option A) (n : NamespacedName) (a : A) → slot_object meta o n ≡ some a → o ≡ some a
  slot_object-full none n a h = absurd (none-ne-some a h)
  slot_object-full (some b) n a h = elim (Bool-cases (same_name (object_key (meta b)) n)) [
    | inr other ↦ absurd (none-ne-some a (sym (ap (λ t. if t then some b else none) other) ∙ h))
    | inl same ↦ sym (ap (λ t. if t then some b else none) same) ∙ h
  ]

module _ {K A C : Type 0} (meta : A → ObjectMeta) (slot : K → Option A) (put : A → K → K)
    (clear : K → K) (content : A → C) (slot-put : (a : A) (k : K) → slot (put a k) ≡ some a) where
  abbrev stored : K → NamespacedName → Option A
  stored k n = slot_object meta (slot k) n

  write_made-Written :
      (obj base : A) (f : A → Outcome A) (op : OperationResult) (k : K) (made : Outcome A)
      → f base ≡ made
      → (stored k (object_key (meta obj)) ≡ some base)
        ⊎ ((stored k (object_key (meta obj)) ≡ none) × (base ≡ obj))
      → OnReturn
          (λ p t. Written (memory_resource meta slot put clear) meta content stored obj f k t p.0)
          (write_made meta put op (object_key (meta obj)) made k)
  write_made-Written obj base f op k (fails e) mutated from = tt
  write_made-Written obj base f op k panics mutated from = tt
  write_made-Written obj base f op k (returns a) mutated from =
      elim (Bool-cases (same_name (object_key (meta a)) (object_key (meta obj)))) [
        | inr other ↦ rw other tt
        | inl same ↦ rw same (record {
          base = base;
          sent = a;
          from = from;
          mutated = mutated;
          there =
              ap (λ o. slot_object meta o (object_key (meta obj))) (slot-put a k)
              ∙ slot_object-same meta a _ (same_name_sound _ _ same);
          keeps_meta = record { key = refl; finalizers = refl; owners = refl };
          keeps_content = refl;
        })
      ]

  write_over-Written :
      (o : Option A) (obj : A) (f : A → Outcome A) (k : K)
      → slot k ≡ o
      → OnReturn
          (λ p t. Written (memory_resource meta slot put clear) meta content stored obj f k t p.0)
          (write_over meta slot put clear o obj f k)
  write_over-Written none obj f k empty =
      write_made-Written obj obj f created k (f obj) refl
        (inr (ap (λ o. slot_object meta o (object_key (meta obj))) empty, refl))
  write_over-Written (some old) obj f k there =
      elim (Bool-cases (same_name (object_key (meta old)) (object_key (meta obj)))) [
        | inr other ↦ rw other tt
        | inl same ↦ rw same (
            write_made-Written obj old f updated k (f old) refl (
              inl (
                ap (λ o. slot_object meta o (object_key (meta obj))) there
                ∙ slot_object-same meta old _ (same_name_sound _ _ same))))
      ]

  memory_resource-ResourceLaws :
      ResourceLaws (memory_resource meta slot put clear) meta content stored
  memory_resource-ResourceLaws = record {
    keyed = λ k n a h. slot_object-keyed meta (slot k) n a h;
    create_or_update_lem = λ obj f k. write_over-Written (slot k) obj f k refl;
  }

pub memory_keys-ResourceLaws :
    ResourceLaws memory_client.access_keys
      (λ a. a.meta)
      (λ a. a.spec)
      (λ k n. slot_object (λ a. a.meta) k.key n)
memory_keys-ResourceLaws = memory_resource-ResourceLaws _ _ _ _ (λ a. a.spec) (λ a k. refl)

pub memory_permissions-ResourceLaws :
    ResourceLaws memory_client.permissions
      (λ p. p.meta)
      (λ p. p.spec)
      (λ k n. slot_object (λ p. p.meta) k.permission n)
memory_permissions-ResourceLaws = memory_resource-ResourceLaws _ _ _ _ (λ p. p.spec) (λ p k. refl)

pub memory_secrets-ResourceLaws :
    ResourceLaws memory_client.secrets
      (λ s. s.meta)
      body
      (λ k n. slot_object (λ s. s.meta) k.secret n)
memory_secrets-ResourceLaws = memory_resource-ResourceLaws _ _ _ _ body (λ s k. refl)

write_status-spec :
    (changed : GarageBucket) (k : MemoryKube) (o : Option GarageBucket)
    → OnReturn (λ b _. b.spec ≡ changed.spec) (write_status changed k o)
write_status-spec changed k none = tt
write_status-spec changed k (some old) = refl

pub memory-PatchKeepsSpec : PatchKeepsSpec memory
memory-PatchKeepsSpec base changed k = write_status-spec changed k _

pub memory-KeyPatchKeeps : KeyPatchKeeps memory
memory-KeyPatchKeeps base changed k = (refl, refl)
