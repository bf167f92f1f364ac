-- ===== src/Platform/Laws.antt =====
-- What the operator relies on in the Kubernetes libraries, from their documentation.
use mathlib.Core.Option.{some-injective, none-ne-some}
use garage_s3_operator.Base.{
  String, ◌≡◌, sym, ap, ◌∙◌, ◌⊎◌, inl, inr, true, Option, none, some, List, Outcome, returns,
  OnReturn,
}
use garage_s3_operator.Api.{ObjectMeta, NamespacedName, object_key}
use garage_s3_operator.Platform.{Resource, Util, Owner}

-- `controllerutil` on metadata: a finalizer that is added is there and one that is removed is not;
-- an owner that is set is an owner, and the rest of the metadata stays.
pub record UtilLaws (u : Util) : Type 0 where
  pub contains-add :
      (fs : List String) (f : String) → u.contains_finalizer (u.add_finalizer fs f) f ≡ true
  pub set_owner :
      (o : Owner) (m m' : ObjectMeta)
      → u.set_owner_reference o m ≡ returns m'
      → (u.has_owner_reference m'.owner_references o ≡ returns true)
        × (m'.finalizers ≡ m.finalizers)
        × (object_key m' ≡ object_key m)

-- What the server keeps of the metadata that it is sent.
pub record KeepsMeta (sent kept : ObjectMeta) : Type 0 where
  pub key : object_key kept ≡ object_key sent
  pub finalizers : kept.finalizers ≡ sent.finalizers
  pub owners : kept.owner_references ≡ sent.owner_references

-- The objects of one kind in the API server, with nobody else writing in the middle of a call.
-- `content` is what the server keeps of an object that it is sent, besides the metadata.
module _ {K A C : Type 0} (r : Resource K A) (meta : A → ObjectMeta) (content : A → C)
    (stored : K → NamespacedName → Option A) where
  -- How `CreateOrUpdate` arrives at what it writes: it runs the callback on the stored object, or on
  -- the given one where none is stored.
  pub record Written (obj : A) (f : A → Outcome A) (k t : K) (a : A) : Type 0 where
    pub base : A
    pub sent : A
    pub from :
        (stored k (object_key (meta obj)) ≡ some base)
        ⊎ ((stored k (object_key (meta obj)) ≡ none) × (base ≡ obj))
    pub mutated : f base ≡ returns sent
    pub there : stored t (object_key (meta obj)) ≡ some a
    pub keeps_meta : KeepsMeta (meta sent) (meta a)
    pub keeps_content : content a ≡ content sent

  pub record ResourceLaws : Type 0 where
    pub keyed : (k : K) (n : NamespacedName) (a : A) → stored k n ≡ some a → object_key (meta a) ≡ n
    pub create_or_update_lem :
        (obj : A) (f : A → Outcome A) (k : K)
        → OnReturn (λ p t. Written obj f k t p.0) (r.create_or_update obj f k)

  -- The callback runs on the object that is stored, if there is one.
  pub Written-base :
      (obj : A) (f : A → Outcome A) (k t : K) (a old : A) (x : Written obj f k t a)
      → stored k (object_key (meta obj)) ≡ some old
      → x.base ≡ old
  Written-base obj f k t a old x there = elim x.from [
    | inl found ↦ some-injective x.base old (sym found ∙ there)
    | inr (absent, _) ↦ absurd (none-ne-some old (sym absent ∙ there))
  ]

  -- It runs on an object of the given object's name and namespace.
  pub Written-near :
      ResourceLaws
      → (obj : A) (f : A → Outcome A) (k t : K) (a : A) (x : Written obj f k t a)
      → object_key (meta x.base) ≡ object_key (meta obj)
  Written-near laws obj f k t a x = elim x.from [
    | inl found ↦ laws.keyed k (object_key (meta obj)) x.base found
    | inr (_, same) ↦ ap (λ b. object_key (meta b)) same
  ]
