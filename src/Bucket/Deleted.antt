-- ===== src/Bucket/Deleted.antt =====
-- The deletion of a bucket's key and permission leaves none that the bucket owns.
use garage_s3_operator.Base.{
  ◌≡◌, Bool, true, false, none, some, Error, Outcome, returns, fails, panics, OnReturn,
}
use garage_s3_operator.Api.{ObjectMeta, object_key, NamespacedName, GarageBucket}
use garage_s3_operator.Platform.{Platform, Resource, of_bucket}
use garage_s3_operator.Bucket.Disowned.{Stored}

abbrev answered : Outcome Bool → Bool
answered (returns b) = b
answered (fails e) = false
answered panics = false

-- What holds if an action fails.
abbrev pub OnFail : {S A : Type 0} → (Error → S → Type 0) → Outcome A × S → Type 0
OnFail F (returns a, s) = Unit
OnFail F (fails e, s) = F e s
OnFail F (panics, s) = Unit

module _ (P : Platform) where
  -- An object that is not found is not stored, and one that was deleted is no more.
  pub record RemovalLaws {A : Type 0} (stored : Stored P.Kube A) (r : Resource P.Kube A)
      (meta : A → ObjectMeta) : Type 0 where
    pub get_missing :
        (n : NamespacedName) (k : P.Kube)
        → OnFail (λ e t. P.util.is_not_found e ≡ true → stored t n ≡ none) (r.get n k)
    pub remove_lem :
        (a : A) (k : P.Kube)
        → OnReturn (λ _ t. stored t (object_key (meta a)) ≡ none) (r.remove a k)
    pub remove_missing :
        (a : A) (k : P.Kube)
        → OnFail
            (λ e t. P.util.is_not_found e ≡ true → stored t (object_key (meta a)) ≡ none)
            (r.remove a k)

  module _ (bucket : GarageBucket) where
    -- No object under the bucket's name has the bucket as an owner.
    abbrev pub NoneOwned : {A : Type 0} → Stored P.Kube A → (A → ObjectMeta) → P.Kube → Type 0
    NoneOwned {A} stored meta k =
        (a : A)
        → stored k (object_key bucket.meta) ≡ some a
        → ¬ (P.util.has_owner_reference (meta a).owner_references (of_bucket bucket) ≡ returns true)
