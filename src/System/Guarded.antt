-- ===== src/System/Guarded.antt =====
-- One GarageBucket object and its bucket in Garage: what guards the bucket against being forgotten.
use mathlib.Core.Bool.{false≢true}
use mathlib.Core.Option.{some-injective, none-ne-some}
use garage_s3_operator.Base.{
  String, ◌≡◌, ◌≢◌, refl, sym, ap, subst, ◌∙◌, ◌⊎◌, inl, inr, true, none, some, ◌==◌, string_eq,
  if◌then◌else◌, Preorder,
}
use garage_s3_operator.Api.{
  ObjectMeta, NamespacedName, object_key, GarageBucket, BucketSpec, target_name, retain,
}
use garage_s3_operator.Platform.{Platform, World}
use garage_s3_operator.Finalizer.{finalizer, has_finalizer}
use garage_s3_operator.Garage.Laws.{View}
use garage_s3_operator.System.Laws.{Objects, SameObjects, Updated}
use garage_s3_operator.System.Frames.{Mild}

pub key_dec : Discrete NamespacedName
key_dec = hlevel string_eq.dec

-- The target name of an object with a name and a spec.
abbrev pub chosen : NamespacedName → BucketSpec → String
chosen n spec = if spec.override_name == "" then n.name else spec.override_name

pub target_name-chosen : (b : GarageBucket) → target_name b ≡ chosen (object_key b.meta) b.spec
unfolding target_name
target_name-chosen b = refl

module _ (P : Platform) (stored : Objects P.Kube) (v : View P.Garage) (n : NamespacedName)
    (name : String) where
  -- The object `n` is to have the bucket `name`, deleted with it; no other object has that bucket.
  pub record Fits (m : NamespacedName) (spec : BucketSpec) : Type 0 where
    pub own : m ≡ n → (chosen m spec ≡ name) × (spec.reclaim_policy ≢ retain)
    pub other : m ≢ n → chosen m spec ≢ name

  abbrev pub Named : P.Kube → Type 0
  Named k =
      (m : NamespacedName) (meta : ObjectMeta) (spec : BucketSpec)
      → stored k m ≡ some (meta, spec)
      → Fits m spec

  -- The object is there and has the finalizer.
  abbrev pub Held : P.Kube → Type 0
  Held k =
      (meta : ObjectMeta) × (spec : BucketSpec) × (stored k n ≡ some (meta, spec))
      × (has_finalizer P.util meta ≡ true)

  -- Garage has no bucket of the name, or the object has the finalizer.
  abbrev pub Guarded : World P → Type 0
  Guarded w = Held w.kube ⊎ (v.bucket_at w.garage name ≡ none)

  pub record Inv (w : World P) : Type 0 where
    pub named : Named w.kube
    pub guarded : Guarded w

  -- No bucket of the name comes into being.
  unfoldable pub Vacant : Preorder P.Garage
  Vacant = record {
    later = λ g h. v.bucket_at g name ≡ none → v.bucket_at h name ≡ none;
    same = λ g h. h;
    chain = λ p q h. q (p h);
  }

  -- Anything may happen.
  unfoldable pub Free : Preorder P.Garage
  Free = record { later = λ g h. Unit {0}; same = λ g. tt; chain = λ p q. tt }

  SameObjects-Named : (k t : P.Kube) → SameObjects stored k t → Named k → Named t
  SameObjects-Named k t same h m meta spec e = h m meta spec (sym (same m) ∙ e)

  SameObjects-Held : (k t : P.Kube) → SameObjects stored k t → Held k → Held t
  SameObjects-Held k t same (meta, spec, e, held) = (meta, spec, same n ∙ e, held)

  pub Mild-Inv : (w t : World P) → (Mild P stored Vacant).later w t → Inv w → Inv t
  unfolding Mild Vacant
  Mild-Inv w t (same, vacant) h = record {
    named = SameObjects-Named w.kube t.kube same h.named;
    guarded = elim h.guarded [
      | inl held ↦ inl (SameObjects-Held w.kube t.kube same held)
      | inr absent ↦ inr (vacant absent)
    ];
  }

  pub Mild-Held :
      (R : Preorder P.Garage) (w t : World P)
      → (Mild P stored R).later w t
      → Held w.kube
      → Held t.kube
  unfolding Mild
  Mild-Held R w t (same, _) h = SameObjects-Held w.kube t.kube same h

  pub Mild-Named :
      (R : Preorder P.Garage) (w t : World P)
      → (Mild P stored R).later w t
      → Named w.kube
      → Named t.kube
  unfolding Mild
  Mild-Named R w t (same, _) h = SameObjects-Named w.kube t.kube same h

  -- An update of another object.
  pub Updated-Held :
      (b : GarageBucket) (k t : P.Kube)
      → Updated stored P.util b k t
      → n ≢ object_key b.meta
      → Held k
      → Held t
  Updated-Held b k t up other (meta, spec, e, held) = (meta, spec, up.others n other ∙ e, held)

  -- An update that leaves the finalizer in the object.
  pub Updated-Held_own :
      (b : GarageBucket) (k t : P.Kube)
      → Updated stored P.util b k t
      → n ≡ object_key b.meta
      → has_finalizer P.util b.meta ≡ true
      → Held k
      → Held t
  Updated-Held_own b k t up own has (meta, spec, e, held) = elim up.own [
    | inl same ↦ (meta, spec, ap (stored t) own ∙ (same ∙ (ap (stored k) (sym own) ∙ e)), held)
    | inr (inl (gone, lacks)) ↦ absurd (false≢true (sym (lacks finalizer) ∙ has))
    | inr (inr (m, there, kept)) ↦ (
      m,
      b.spec,
      ap (stored t) own ∙ there,
      ap (λ fs. P.util.contains_finalizer fs finalizer) kept ∙ has,
    )
  ]

  pub Updated-Named :
      (b : GarageBucket) (k t : P.Kube)
      → Updated stored P.util b k t
      → Fits (object_key b.meta) b.spec
      → Named k
      → Named t
  Updated-Named b k t up fits h m meta spec e = elim (key_dec m (object_key b.meta)) [
    | no other ↦ h m meta spec (sym (up.others m other) ∙ e)
    | yes own ↦ elim up.own [
      | inl same ↦ h m meta spec (ap (stored k) own ∙ (sym same ∙ (ap (stored t) (sym own) ∙ e)))
      | inr (inl (gone, _)) ↦
          absurd (none-ne-some (meta, spec) (sym gone ∙ (ap (stored t) (sym own) ∙ e)))
      | inr (inr (m', there, _)) ↦
          let written =
            some-injective (m', b.spec) (meta, spec) (sym there ∙ (ap (stored t) (sym own) ∙ e)) in
          subst (λ x. Fits x spec) (sym own)
            (subst (λ s. Fits (object_key b.meta) s) (ap (λ p. p.1) written) fits)
    ]
  ]
