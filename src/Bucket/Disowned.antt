-- ===== src/Bucket/Disowned.antt =====
-- The deletion of a bucket's key and permission spares what the bucket does not own.
use mathlib.Core.Option.{some-injective}
use garage_s3_operator.Base.{
  String, ◌≡◌, ◌≢◌, refl, sym, ap, subst, ◌∙◌, Bool, true, false, Option, some, Error, Outcome,
  returns, fails, panics, Action, OnReturn, OnReturn-any, OnReturn-mono, Always, Always-resume,
  Always-handle, Always-follow, Always-wrap_error, pure, fail, wrapped, lift, handle, wrap_error,
  ◌>>=◌, if◌then◌else◌,
}
use garage_s3_operator.Api.{
  ObjectMeta, object_key, NamespacedName, GarageBucket, GarageAccessKey, GaragePermission,
}
use garage_s3_operator.Platform.{Platform, World, Resource, of_bucket, on_kube}
use garage_s3_operator.Platform.Lifting.{OnReturn-on_kube}
use garage_s3_operator.Bucket.Resources.{
  ignore_not_found, delete_managed_key, delete_managed_permission, reconcile_key_resources_deletion,
}

-- The objects of one kind by name.
abbrev pub Stored : Type 0 → Type 0 → Type 0
Stored K A = K → NamespacedName → Option A

module _ {K A : Type 0} (stored : Stored K A) where
  abbrev pub Same : K → K → Type 0
  Same k t = (n : NamespacedName) → stored t n ≡ stored k n

  -- A read answers with the stored object and changes none; a deletion concerns the object of the
  -- given name alone.
  pub record DeletionLaws (r : Resource K A) (meta : A → ObjectMeta) : Type 0 where
    pub keyed : (k : K) (n : NamespacedName) (a : A) → stored k n ≡ some a → object_key (meta a) ≡ n
    pub get_lem : (n : NamespacedName) (k : K) → OnReturn (λ a _. stored k n ≡ some a) (r.get n k)
    pub get_same : (n : NamespacedName) (k : K) → Always (Same k) (r.get n k)
    pub remove_others :
        (a : A) (k : K)
        → Always
            (λ t. (n : NamespacedName) → n ≢ object_key (meta a) → stored t n ≡ stored k n)
            (r.remove a k)

  -- Neither reads nor deletions of another kind concern these.
  pub record Apart {B : Type 0} (r : Resource K B) : Type 0 where
    pub get : (n : NamespacedName) (k : K) → Always (Same k) (r.get n k)
    pub remove : (b : B) (k : K) → Always (Same k) (r.remove b k)

-- Skipped errors leave the state as it is.
skipped-Always :
    {S : Type 0} (Q : S → Type 0) (b : Bool) (e : Error) (s : S)
    → Q s
    → Always Q ((if b then pure tt else fail e) s)
skipped-Always Q true e s q = q
skipped-Always Q false e s q = q

module _ (P : Platform) (bucket : GarageBucket) where
  -- Every stored object is still there, but one under the bucket's name that the bucket owns.
  abbrev pub Spared : {A : Type 0} → Stored P.Kube A → (A → ObjectMeta) → P.Kube → P.Kube → Type 0
  Spared {A} stored meta k t =
      (n : NamespacedName) (a : A)
      → stored k n ≡ some a
      → ¬ (
          (n ≡ object_key bucket.meta)
          × (P.util.has_owner_reference (meta a).owner_references (of_bucket bucket)
              ≡ returns true))
      → stored t n ≡ some a

  module _ {A B : Type 0} (r : Resource P.Kube A) (meta : A → ObjectMeta) (stored : Stored P.Kube A)
      (other : Stored P.Kube B) (laws : DeletionLaws stored r meta) (apart : Apart other r)
      (inspect delete_text fetch : String) where
    abbrev pub owners : A → Outcome Bool
    owners a = P.util.has_owner_reference (meta a).owner_references (of_bucket bucket)

    abbrev pub delete_owned : Outcome Bool → A → Action (World P) (Unit {0})
    delete_owned o a = wrap_error inspect (lift o) >>= λ owned.
        if owned
        then wrap_error delete_text (ignore_not_found P (on_kube {P = P} (r.remove a)))
        else pure tt

    -- The shape of `deleteManagedAccessKey` and of its like for permissions.
    abbrev pub delete_managed : Action (World P) (Unit {0})
    delete_managed =
        handle (on_kube {P = P} (r.get (object_key bucket.meta))) (λ a. delete_owned (owners a) a)
          (λ e. if P.util.is_not_found e then pure tt else fail (wrapped fetch e))

    abbrev Left : P.Kube → World P → Type 0
    Left k t = Spared stored meta k t.kube × Same other k t.kube

    module _ (k : P.Kube) (a : A) (there : stored k (object_key bucket.meta) ≡ some a) where
      removed-Left :
          (t : World P)
          → owners a ≡ returns true
          → Same stored k t.kube
          → Same other k t.kube
          → Always (Left k) (on_kube {P = P} (r.remove a) t)
      removed-Left t owned same beside = (
        (λ n b at free.
            laws.remove_others a t.kube n (λ e.
              let own = e ∙ laws.keyed k (object_key bucket.meta) a there in
              let alike = some-injective a b (sym there ∙ (ap (stored k) (sym own) ∙ at)) in
              free (own, subst (λ x. owners x ≡ returns true) alike owned))
            ∙ (same n ∙ at)),
        λ n. apart.remove a t.kube n ∙ beside n,
      )

      delete_owned-Left :
          (o : Outcome Bool) (t : World P)
          → owners a ≡ o
          → Same stored k t.kube
          → Same other k t.kube
          → Always (Left k) (delete_owned o a t)
      delete_owned-Left (returns true) t e same beside =
          Always-wrap_error (Left k) delete_text (ignore_not_found P (on_kube {P = P} (r.remove a)))
            t
            (Always-resume (Left k) pure _ (on_kube {P = P} (r.remove a) t)
              (removed-Left t e same beside) (λ _ u q. q)
              λ x u q. skipped-Always (Left k) (P.util.is_not_found x) x u q)
      delete_owned-Left (returns false) t e same beside = ((λ n b at _. same n ∙ at), beside)
      delete_owned-Left (fails x) t e same beside = ((λ n b at _. same n ∙ at), beside)
      delete_owned-Left panics t e same beside = ((λ n b at _. same n ∙ at), beside)

    pub delete_managed-Left : (w : World P) → Always (Left w.kube) (delete_managed w)
    delete_managed-Left w =
        Always-handle (λ t. Same stored w.kube t.kube × Same other w.kube t.kube) (Left w.kube)
          (λ a _. stored w.kube (object_key bucket.meta) ≡ some a) _ _
          (on_kube {P = P} (r.get (object_key bucket.meta)) w)
          (laws.get_same (object_key bucket.meta) w.kube, apart.get (object_key bucket.meta) w.kube)
          (OnReturn-mono _ _ (on_kube {P = P} (r.get (object_key bucket.meta)) w)
            (OnReturn-on_kube P w _ (r.get (object_key bucket.meta))
              (laws.get_lem (object_key bucket.meta) w.kube))
            λ a t q. q.0)
          (λ t q. ((λ n b at _. q.0 n ∙ at), q.1))
          (λ a t q there. delete_owned-Left w.kube a there (owners a) t refl q.0 q.1)
          λ e t q.
            skipped-Always (Left w.kube) (P.util.is_not_found e) (wrapped fetch e) t
              ((λ n b at _. q.0 n ∙ at), q.1)

  module _ (keys : Stored P.Kube GarageAccessKey) (perms : Stored P.Kube GaragePermission)
      (key_laws : DeletionLaws keys P.client.access_keys (λ k. k.meta))
      (perm_laws : DeletionLaws perms P.client.permissions (λ p. p.meta))
      (key_apart : Apart perms P.client.access_keys)
      (perm_apart : Apart keys P.client.permissions) where
    -- Whatever the outcome of `reconcileKeyResourcesDeletion`, every GarageAccessKey and every
    -- GaragePermission in the API server is there as it was, but for those under the bucket's name and
    -- namespace that have the bucket as an owner; given that reads answer with what is stored and change
    -- nothing, and that a deletion concerns the object of the given name and kind alone.
    pub reconcile_key_resources_deletion-Spared :
        (w : World P)
        → Always
            (λ t.
              Spared keys (λ k. k.meta) w.kube t.kube × Spared perms (λ p. p.meta) w.kube t.kube)
            (reconcile_key_resources_deletion P bucket w)
    unfolding reconcile_key_resources_deletion delete_managed_key delete_managed_permission
    reconcile_key_resources_deletion-Spared w =
        Always-follow (λ t. Spared keys (λ k. k.meta) w.kube t.kube × Same perms w.kube t.kube)
          (λ t. Spared keys (λ k. k.meta) w.kube t.kube × Spared perms (λ p. p.meta) w.kube t.kube)
          (λ _ _. Unit {0}) (delete_managed_key P bucket) _ w
          (delete_managed-Left P.client.access_keys (λ k. k.meta) keys perms key_laws key_apart _ _
            _ w)
          (OnReturn-any (delete_managed_key P bucket w)) (λ t q. (q.0, λ n p at _. q.1 n ∙ at))
          λ _ t q _.
            let left =
              delete_managed-Left P.client.permissions (λ p. p.meta) perms keys perm_laws perm_apart
                _ _ _ t in
            (
              (λ n key at free. left.1 n ∙ q.0 n key at free),
              λ n perm at free. left.0 n perm (q.1 n ∙ at) free,
            )
