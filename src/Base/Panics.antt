-- ===== src/Base/Panics.antt =====
-- Actions that do not panic.
use Prim.Native.String.{String}
use mathlib.Core.Path.{◌≡◌, refl}
use mathlib.Core.Bool.{Bool, true, false}
use mathlib.Core.Option.{Option, none, some}
use garage_s3_operator.Base.Equality.{if◌then◌else◌}
use garage_s3_operator.Base.Effects.{
  Error, Outcome, returns, fails, panics, Action, pure, fail, deref, handle, ◌>>=◌, wrap_error,
}
use garage_s3_operator.Base.Ensures.{Safely, Safely-resume}

-- The action does not panic at a state; and at any.
abbrev pub Calm : {S A : Type 0} → Outcome A × S → Type 0
Calm x = Safely (λ _ _. Unit {0}) x

pub record Calmly {S A : Type 0} (m : Action S A) : Type 0 where
  pub after : (s : S) → Calm (m s)

-- A pointer that is not nil.
abbrev pub Filled : {A : Type 0} → Option A → Type 0
Filled {A} o = (a : A) × (o ≡ some a)

Safely-forget : {S A : Type 0} (Q : A → Type 0) (x : Outcome A × S) → Safely (λ a _. Q a) x → Calm x
Safely-forget Q (returns a, s) h = tt
Safely-forget Q (fails e, s) h = tt
Safely-forget Q (panics, s) h = h

module _ {S : Type 0} where
  pub Calmly-pure : {A : Type 0} {a : A} → Calmly {S = S} (pure a)
  Calmly-pure = record { after = λ s. tt }

  pub Calmly-fail : {A : Type 0} {e : Error} → Calmly {S = S} {A = A} (fail e)
  Calmly-fail = record { after = λ s. tt }

  pub Calmly-deref : {A : Type 0} (o : Option A) → Filled o → Calmly {S = S} (deref o)
  Calmly-deref o (a, there) = rw there (record { after = λ s. tt })

  -- The rule for handlers that are calm for the values that `m` returns.
  pub Calmly-handle_on :
      {A B : Type 0} (Q : A → Type 0) (m : Action S A) {f : A → Action S B} {h : Error → Action S B}
      → ((s : S) → Safely (λ a _. Q a) (m s))
      → ((a : A) → Q a → Calmly (f a))
      → ((e : Error) → Calmly (h e))
      → Calmly (handle m f h)
  Calmly-handle_on Q m {f} {h} p k l = record {
    after = λ s.
        Safely-resume (λ a _. Q a) (λ _ _. Unit {0}) f h (m s) (p s) (λ a t q. (k a q).after t)
          λ e t. (l e).after t;
  }

  pub Calmly-handle :
      {A B : Type 0} {m : Action S A} {f : A → Action S B} {h : Error → Action S B}
      → Calmly m
      → ((a : A) → Calmly (f a))
      → ((e : Error) → Calmly (h e))
      → Calmly (handle m f h)
  Calmly-handle {A} {B} {m} p k l = Calmly-handle_on (λ _. Unit {0}) m p.after (λ a _. k a) l

  pub Calmly-bind_on :
      {A B : Type 0} (Q : A → Type 0) (m : Action S A) {f : A → Action S B}
      → ((s : S) → Safely (λ a _. Q a) (m s))
      → ((a : A) → Q a → Calmly (f a))
      → Calmly (m >>= f)
  Calmly-bind_on Q m p k = Calmly-handle_on Q m p k λ e. Calmly-fail

  pub Calmly-bind :
      {A B : Type 0} {m : Action S A} {f : A → Action S B}
      → Calmly m
      → ((a : A) → Calmly (f a))
      → Calmly (m >>= f)
  Calmly-bind p k = Calmly-handle p k λ e. Calmly-fail

  pub Calmly-wrap_error :
      {A : Type 0} (text : String) {m : Action S A} → Calmly m → Calmly (wrap_error text m)
  Calmly-wrap_error text p = Calmly-handle p (λ a. Calmly-pure) λ e. Calmly-fail

  pub Calmly-if :
      {A : Type 0} (b : Bool) {x y : Action S A} → Calmly x → Calmly y → Calmly (if b then x else y)
  Calmly-if true p q = p
  Calmly-if false p q = q

  pub Calmly-option :
      {A B : Type 0} (o : Option A) {x : Action S B} {f : A → Action S B}
      → (o ≡ none → Calmly x)
      → ((a : A) → Calmly (f a))
      → Calmly (elim o as (λ _. Action S B) [ none ↦ x | some a ↦ f a ])
  Calmly-option none p q = p refl
  Calmly-option (some a) p q = q a

  -- A test that returns at nil only.
  pub Safely-unless :
      {A : Type 0} (o : Option A) (f : A → Error) (s : S)
      → Safely
          (λ _ _. o ≡ none)
          ((elim o as (λ _. Action S (Unit {0})) [ none ↦ pure tt | some a ↦ fail (f a) ]) s)
  Safely-unless none f s = refl
  Safely-unless (some a) f s = tt

  pub Calmly-of_Safely :
      {A : Type 0} (Q : A → Type 0) (m : Action S A)
      → ((s : S) → Safely (λ a _. Q a) (m s))
      → Calmly m
  Calmly-of_Safely Q m h = record { after = λ s. Safely-forget Q (m s) (h s) }
