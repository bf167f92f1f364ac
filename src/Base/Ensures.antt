-- ===== src/Base/Ensures.antt =====
-- What holds after an action: after a return (`OnReturn`), after a return with no panic possible
-- (`Safely`), and whatever the outcome (`Always`). One rule for `handle` serves each.
use Prim.Native.String.{String}
use mathlib.Core.Logic.{◌⊎◌, inl, inr}
use garage_s3_operator.Base.Effects.{
  Error, Outcome, returns, fails, panics, Action, wrapped, pure, fail, ◌>>=◌, wrap_error, resume,
}

module _ {S A : Type 0} where
  abbrev pub OnReturn : (A → S → Type 0) → Outcome A × S → Type 0
  OnReturn Q (returns a, s) = Q a s
  OnReturn Q (fails e, s) = Unit
  OnReturn Q (panics, s) = Unit

  abbrev pub Safely : (A → S → Type 0) → Outcome A × S → Type 0
  Safely Q (returns a, s) = Q a s
  Safely Q (fails e, s) = Unit
  Safely Q (panics, s) = ⊥

  abbrev pub Always : (S → Type 0) → Outcome A × S → Type 0
  Always Q (_, s) = Q s

module _ {S A B : Type 0} (Q : A → S → Type 0) (R : B → S → Type 0) where
  pub OnReturn-resume :
      (f : A → Action S B) (h : Error → Action S B) (x : Outcome A × S)
      → OnReturn Q x
      → ((a : A) (s : S) → Q a s → OnReturn R (f a s))
      → ((e : Error) (s : S) → OnReturn R (h e s))
      → OnReturn R (resume f h x)
  OnReturn-resume f h (returns a, s) q k l = k a s q
  OnReturn-resume f h (fails e, s) q k l = l e s
  OnReturn-resume f h (panics, s) q k l = tt

  -- The rule for a bind: what follows may use what `m` ensures.
  pub OnReturn-bind :
      (m : Action S A) (f : A → Action S B) (s : S)
      → OnReturn Q (m s)
      → ((a : A) (t : S) → Q a t → OnReturn R (f a t))
      → OnReturn R ((m >>= f) s)
  OnReturn-bind m f s q k = OnReturn-resume f fail (m s) q k (λ e t. tt)

  pub Safely-resume :
      (f : A → Action S B) (h : Error → Action S B) (x : Outcome A × S)
      → Safely Q x
      → ((a : A) (s : S) → Q a s → Safely R (f a s))
      → ((e : Error) (s : S) → Safely R (h e s))
      → Safely R (resume f h x)
  Safely-resume f h (returns a, s) q k l = k a s q
  Safely-resume f h (fails e, s) q k l = l e s
  Safely-resume f h (panics, s) q k l = elim q [ ]

  pub Safely-bind :
      (m : Action S A) (f : A → Action S B) (s : S)
      → Safely Q (m s)
      → ((a : A) (t : S) → Q a t → Safely R (f a t))
      → Safely R ((m >>= f) s)
  Safely-bind m f s q k = Safely-resume f fail (m s) q k (λ e t. tt)

module _ {S A : Type 0} (Q : A → S → Type 0) (text : String) (m : Action S A) (s : S) where
  pub OnReturn-wrap_error : OnReturn Q (m s) → OnReturn Q (wrap_error text m s)
  OnReturn-wrap_error q =
      OnReturn-resume Q Q pure (λ e. fail (wrapped text e)) (m s) q (λ a t k. k) (λ e t. tt)

  pub Safely-wrap_error : Safely Q (m s) → Safely Q (wrap_error text m s)
  Safely-wrap_error q =
      Safely-resume Q Q pure (λ e. fail (wrapped text e)) (m s) q (λ a t k. k) (λ e t. tt)

module _ {S A B : Type 0} (Q : S → Type 0) where
  pub Always-resume :
      (f : A → Action S B) (h : Error → Action S B) (x : Outcome A × S)
      → Always Q x
      → ((a : A) (s : S) → Q s → Always Q (f a s))
      → ((e : Error) (s : S) → Q s → Always Q (h e s))
      → Always Q (resume f h x)
  Always-resume f h (returns a, s) q k l = k a s q
  Always-resume f h (fails e, s) q k l = l e s q
  Always-resume f h (panics, s) q k l = q

  pub Always-bind :
      (m : Action S A) (f : A → Action S B) (s : S)
      → Always Q (m s)
      → ((a : A) (t : S) → Q t → Always Q (f a t))
      → Always Q ((m >>= f) s)
  Always-bind m f s q k = Always-resume f fail (m s) q k (λ e t h. h)

module _ {S A : Type 0} (Q : S → Type 0) where
  pub Always-wrap_error :
      (text : String) (m : Action S A) (s : S) → Always Q (m s) → Always Q (wrap_error text m s)
  Always-wrap_error text m s q =
      Always-resume Q pure (λ e. fail (wrapped text e)) (m s) q (λ a t h. h) (λ e t h. h)

-- From what holds after `m` whatever its outcome, and what holds if it returns, to what holds after
-- the handlers.
module _ {S A B : Type 0} (Q Q' : S → Type 0) (R : A → S → Type 0) where
  pub Always-handle :
      (f : A → Action S B) (h : Error → Action S B) (x : Outcome A × S)
      → Always Q x
      → OnReturn R x
      → ((t : S) → Q t → Q' t)
      → ((a : A) (t : S) → Q t → R a t → Always Q' (f a t))
      → ((e : Error) (t : S) → Q t → Always Q' (h e t))
      → Always Q' (resume f h x)
  Always-handle f h (returns a, t) q r i k l = k a t q r
  Always-handle f h (fails e, t) q r i k l = l e t q
  Always-handle f h (panics, t) q r i k l = i t q

  pub Always-follow :
      (m : Action S A) (f : A → Action S B) (s : S)
      → Always Q (m s)
      → OnReturn R (m s)
      → ((t : S) → Q t → Q' t)
      → ((a : A) (t : S) → Q t → R a t → Always Q' (f a t))
      → Always Q' ((m >>= f) s)
  Always-follow m f s q r i k = Always-handle f fail (m s) q r i k (λ e t p. i t p)

-- An action `m` that keeps `Q` and that ensures `R` if it returns, before one that keeps `R`:
-- whatever the outcome, one of the two holds.
module _ {S A B : Type 0} (Q R : S → Type 0) where
  Guarded-resume :
      (f : A → Action S B) (x : Outcome A × S)
      → Always Q x
      → OnReturn (λ _ t. R t) x
      → ((a : A) (t : S) → R t → Always R (f a t))
      → Always (λ t. Q t ⊎ R t) (resume f fail x)
  Guarded-resume f (returns a, s) q r k = inr (k a s r)
  Guarded-resume f (fails e, s) q r k = inl q
  Guarded-resume f (panics, s) q r k = inl q

  pub Guarded-bind :
      (m : Action S A) (f : A → Action S B) (s : S)
      → Always Q (m s)
      → OnReturn (λ _ t. R t) (m s)
      → ((a : A) (t : S) → R t → Always R (f a t))
      → Always (λ t. Q t ⊎ R t) ((m >>= f) s)
  Guarded-bind m f s = Guarded-resume f (m s)

module _ {S A : Type 0} where
  pub OnReturn-any : (x : Outcome A × S) → OnReturn (λ _ _. Unit {0}) x
  OnReturn-any (returns a, s) = tt
  OnReturn-any (fails e, s) = tt
  OnReturn-any (panics, s) = tt

  pub OnReturn-of_Always :
      (Q : S → Type 0) (x : Outcome A × S) → Always Q x → OnReturn (λ _ t. Q t) x
  OnReturn-of_Always Q (returns a, s) h = h
  OnReturn-of_Always Q (fails e, s) h = tt
  OnReturn-of_Always Q (panics, s) h = tt

  pub OnReturn-mono :
      (Q R : A → S → Type 0) (x : Outcome A × S)
      → OnReturn Q x
      → ((a : A) (s : S) → Q a s → R a s)
      → OnReturn R x
  OnReturn-mono Q R (returns a, s) h k = k a s h
  OnReturn-mono Q R (fails e, s) h k = tt
  OnReturn-mono Q R (panics, s) h k = tt

  pub OnReturn-both :
      (Q R : A → S → Type 0) (x : Outcome A × S)
      → OnReturn Q x
      → OnReturn R x
      → OnReturn (λ a s. Q a s × R a s) x
  OnReturn-both Q R (returns a, s) p q = (p, q)
  OnReturn-both Q R (fails e, s) p q = tt
  OnReturn-both Q R (panics, s) p q = tt
