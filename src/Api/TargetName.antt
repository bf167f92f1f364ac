-- ===== src/Api/TargetName.antt =====
-- `GarageAccessKey.TargetName` tells keys apart: the name that a key has in Garage determines the
-- namespace, the chosen name and the UID of its GarageAccessKey.
use Prim.Native.String.{◌∷◌}
use Prim.Native.Char.{Char}
use text.Mathlib.TextLemmas.{cons-eq-cons, nil-append, cons-append}
use garage_s3_operator.Base.{String, ◌<>◌, ◌≡◌, ◌≢◌, refl, sym, subst, ap, ap₂, ◌∙◌}
use garage_s3_operator.Api.AccessKey.{GarageAccessKey, key_target_name, effective_name}

-- No character of the text is `c`.
abbrev pub Lacks : Char → String → Type 0
Lacks c String.[] = Unit
Lacks c (String.◌∷◌ d s) = (d ≢ c) × Lacks c s

-- The first characters of two equal texts agree, and so do the rests.
heads :
    (d d' : Char) (s s' t t' : String)
    → (d ∷ s) <> t ≡ (d' ∷ s') <> t'
    → (d ≡ d') × (s <> t ≡ s' <> t')
heads d d' s s' t t' e = cons-eq-cons.0 (sym (cons-append d s t) ∙ (e ∙ cons-append d' s' t'))

head_alone :
    (c d : Char) (s t u : String) → String.[] <> (c ∷ u) ≡ (d ∷ s) <> t → (c ≡ d) × (u ≡ s <> t)
head_alone c d s t u e = cons-eq-cons.0 (sym (nil-append (c ∷ u)) ∙ (e ∙ cons-append d s t))

both_alone : (c : Char) (t t' : String) → String.[] <> (c ∷ t) ≡ String.[] <> (c ∷ t') → t ≡ t'
both_alone c t t' e = (cons-eq-cons.0 (sym (nil-append (c ∷ t)) ∙ (e ∙ nil-append (c ∷ t')))).1

-- Texts that lack `c`, each before a `c`: both parts are determined.
pub split_first :
    (c : Char) (s s' t t' : String)
    → Lacks c s
    → Lacks c s'
    → s <> (c ∷ t) ≡ s' <> (c ∷ t')
    → (s ≡ s') × (t ≡ t')
split_first c String.[] String.[] t t' h h' e = (refl, both_alone c t t' e)
split_first c String.[] (String.◌∷◌ d s') t t' h h' e =
    absurd (h'.0 (sym (head_alone c d s' (c ∷ t') t e).0))
split_first c (String.◌∷◌ d s) String.[] t t' h h' e =
    absurd (h.0 (sym (head_alone c d s (c ∷ t) t' (sym e)).0))
split_first c (String.◌∷◌ d s) (String.◌∷◌ d' s') t t' h h' e =
    let (first, rest) = heads d d' s s' (c ∷ t) (c ∷ t') e in
    let (left, right) = split_first c s s' t t' h.1 h'.1 rest in
    (ap₂ (λ x y. x ∷ y) first left, right)

not-Lacks-append : (c : Char) (s t : String) → Lacks c (s <> (c ∷ t)) → ⊥
not-Lacks-append c String.[] t h = (subst (Lacks c) (nil-append (c ∷ t)) h).0 refl
not-Lacks-append c (String.◌∷◌ d s) t h =
    not-Lacks-append c s t (subst (Lacks c) (cons-append d s (c ∷ t)) h).1

-- Texts that lack `c`, each behind a `c`: both parts are determined.
split_last :
    (c : Char) (s s' t t' : String)
    → Lacks c t
    → Lacks c t'
    → s <> (c ∷ t) ≡ s' <> (c ∷ t')
    → (s ≡ s') × (t ≡ t')
split_last c String.[] String.[] t t' h h' e = (refl, both_alone c t t' e)
split_last c String.[] (String.◌∷◌ d s') t t' h h' e =
    absurd (not-Lacks-append c s' t' (subst (Lacks c) (head_alone c d s' (c ∷ t') t e).1 h))
split_last c (String.◌∷◌ d s) String.[] t t' h h' e =
    absurd (not-Lacks-append c s t (subst (Lacks c) (head_alone c d s (c ∷ t) t' (sym e)).1 h'))
split_last c (String.◌∷◌ d s) (String.◌∷◌ d' s') t t' h h' e =
    let (first, rest) = heads d d' s s' (c ∷ t) (c ∷ t') e in
    let (left, right) = split_last c s s' t t' h h' rest in (ap₂ (λ x y. x ∷ y) first left, right)

-- A text before a text of one character.
char_append : (s : String) (c : Char) (t : String) → s <> ((c ∷ String.[]) <> t) ≡ s <> (c ∷ t)
char_append s c t = ap (λ u. s <> u) (cons-append c String.[] t ∙ ap (λ u. c ∷ u) (nil-append t))

-- Two keys with the same target name have the same namespace, the same chosen name (the override
-- name, or else the object's) and the same UID, provided that no namespace has a slash and no UID
-- an underscore.
pub key_target_name_inj :
    (j k : GarageAccessKey)
    → Lacks "/" j.meta.namespace
    → Lacks "/" k.meta.namespace
    → Lacks "_" j.meta.uid
    → Lacks "_" k.meta.uid
    → key_target_name j ≡ key_target_name k
    → (j.meta.namespace ≡ k.meta.namespace)
      × (effective_name j ≡ effective_name k)
      × (j.meta.uid ≡ k.meta.uid)
unfolding key_target_name
key_target_name_inj j k nj nk uj uk e =
    let (namespaces, rests) =
      split_first "/" j.meta.namespace k.meta.namespace (tail_of j) (tail_of k) nj nk (
        sym (char_append j.meta.namespace "/" (tail_of j))
        ∙ (e ∙ char_append k.meta.namespace "/" (tail_of k))) in
    let (names, uids) =
      split_last "_" (effective_name j) (effective_name k) j.meta.uid k.meta.uid uj uk (
        sym (char_append (effective_name j) "_" j.meta.uid)
        ∙ (rests ∙ char_append (effective_name k) "_" k.meta.uid)) in
    (namespaces, names, uids)
  where
    tail_of : GarageAccessKey → String
    tail_of i = effective_name i <> ("_" <> i.meta.uid)
