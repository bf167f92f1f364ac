-- ===== src/AccessKey/TextPieces.antt =====
-- Texts cut at a character, as readers of secrets cut them: a first cut, all pieces, and characters
-- that do not occur.
use Prim.Native.String.{◌∷◌}
use Prim.Native.Char.{Char}
use mathlib.Core.Bool.{false≢true}
use text.Mathlib.TextLemmas.{cons-eq-cons, cons-append, nil-append, append_assoc}
use garage_s3_operator.Base as Base
use garage_s3_operator.Base.{
  String, ◌<>◌, ◌≡◌, ◌≢◌, refl, sym, ap, ◌∙◌, Bool, true, false, inl, inr, List, Bool-cases,
  if◌then◌else◌, ◌==◌, string_eq, eq_of_==, ==-of_eq,
}
use garage_s3_operator.Api.TargetName.{Lacks}

-- Whether two characters are the same.
abbrev same_char : Char → Char → Bool
same_char c d = (c ∷ "") == (d ∷ "")

-- What stands before the first `c` of a text, and what behind it.
unfoldable pub cut : Char → String → String × String
unfolding string_eq
cut c String.[] = ("", "")
cut c (String.◌∷◌ d s) =
    let rest = cut c s in if same_char d c then ("", s) else (d ∷ rest.0, rest.1)

-- A character in front of the first piece.
abbrev push : Char → List String → List String
push d List.[] = Base.◌∷◌ (d ∷ "") Base.[]
push d (List.◌∷◌ l ls) = Base.◌∷◌ (d ∷ l) ls

-- The pieces of a text between the characters `c`.
unfoldable pub split : Char → String → List String
unfolding string_eq
split c String.[] = Base.◌∷◌ "" Base.[]
split c (String.◌∷◌ d s) =
    let rest = split c s in if same_char d c then Base.◌∷◌ "" rest else push d rest

same_char-other : (c d : Char) → d ≢ c → same_char d c ≡ false
same_char-other c d h = elim (Bool-cases (same_char d c)) [
  | inl same ↦ absurd (h (cons-eq-cons.0 (eq_of_== (d ∷ "") (c ∷ "") same)).0)
  | inr other ↦ other
]

same_char_refl : (c : Char) → same_char c c ≡ true
same_char_refl c = ==-of_eq (c ∷ "") (c ∷ "") refl

pub cut-append : (c : Char) (s t : String) → Lacks c s → cut c (s <> (c ∷ t)) ≡ (s, t)
unfolding cut
cut-append c String.[] t h = rw (nil-append (c ∷ t), same_char_refl c) refl
cut-append c (String.◌∷◌ d s) t h =
    rw (cons-append d s (c ∷ t), same_char-other c d h.0, cut-append c s t h.1) refl

split-append :
    (c : Char) (s t : String) → Lacks c s → split c (s <> (c ∷ t)) ≡ Base.◌∷◌ s (split c t)
unfolding split
split-append c String.[] t h = rw (nil-append (c ∷ t), same_char_refl c) refl
split-append c (String.◌∷◌ d s) t h =
    rw (cons-append d s (c ∷ t), same_char-other c d h.0, split-append c s t h.1) refl

pub reshape :
    (c : Char) (a b k l id secret : String)
    → ((a <> (c ∷ b)) <> (c ∷ k)) <> (id <> ((c ∷ l) <> (secret <> (c ∷ ""))))
      ≡ a <> (c ∷ (b <> (c ∷ ((k <> id) <> (c ∷ ((l <> secret) <> (c ∷ "")))))))
reshape c a b k l id secret = simp (append_assoc, cons-append)

pub split_lines :
    (c : Char) (a b k l : String)
    → Lacks c a
    → Lacks c b
    → Lacks c k
    → Lacks c l
    → split c (a <> (c ∷ (b <> (c ∷ (k <> (c ∷ (l <> (c ∷ ""))))))))
      ≡ Base.◌∷◌ a (Base.◌∷◌ b (Base.◌∷◌ k (Base.◌∷◌ l (split c ""))))
split_lines c a b k l ha hb hk hl =
    split-append c a (b <> (c ∷ (k <> (c ∷ (l <> (c ∷ "")))))) ha
    ∙ ap (Base.◌∷◌ a) (
        split-append c b (k <> (c ∷ (l <> (c ∷ "")))) hb
        ∙ ap (Base.◌∷◌ b)
            (split-append c k (l <> (c ∷ "")) hk ∙ ap (Base.◌∷◌ k) (split-append c l "" hl)))

-- `Lacks` as a test.
unfoldable pub lacks : Char → String → Bool
lacks c String.[] = true
lacks c (String.◌∷◌ d s) = if same_char d c then false else lacks c s

pub lacks-Lacks : (c : Char) (s : String) → lacks c s ≡ true → Lacks c s
unfolding lacks
lacks-Lacks c String.[] h = tt
lacks-Lacks c (String.◌∷◌ d s) h = elim (Bool-cases (same_char d c)) [
  | inl same ↦ absurd (false≢true (rw same at h))
  | inr other ↦ (
    (λ e. false≢true (sym other ∙ ==-of_eq (d ∷ "") (c ∷ "") (ap (λ x. x ∷ "") e))),
    lacks-Lacks c s (rw other at h),
  )
]

pub Lacks-append : (c : Char) (s t : String) → Lacks c s → Lacks c t → Lacks c (s <> t)
Lacks-append c String.[] t h h' = rw (nil-append t) h'
Lacks-append c (String.◌∷◌ d s) t h h' = rw (cons-append d s t) (h.0, Lacks-append c s t h.1 h')
