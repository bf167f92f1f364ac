-- ===== src/Base/Effects.antt =====
-- Go code that acts on a state: a call ends with a value, with a non-nil `error`, or in a panic,
-- and what was done before an error stays done. `handle` is a call followed by a test of `err`.
use Prim.Native.String.{String}
use mathlib.Core.Option.{Option, none, some}

-- `external` is an error that code outside this repository made; the other two come from
-- `fmt.Errorf`, without and with `%w`.
pub data Error : Type 0 where
  external : String → Error
  errorf : String → Error
  wrapped : String → Error → Error

pub data Outcome (A : Type 0) : Type 0 where
  returns : A → Outcome A
  fails : Error → Outcome A
  panics : Outcome A

abbrev pub Action : Type 0 → Type 0 → Type 0
Action S A = S → Outcome A × S

module _ {S A : Type 0} where
  abbrev pub pure : A → Action S A
  pure a s = (returns a, s)

  abbrev pub fail : Error → Action S A
  fail e s = (fails e, s)

  abbrev pub panic : Action S A
  panic s = (panics, s)

  abbrev pub lift : Outcome A → Action S A
  lift r s = (r, s)

  -- `*p`, which panics at a nil pointer.
  abbrev pub deref : Option A → Action S A
  deref none = panic
  deref (some a) = pure a

module _ {S A B : Type 0} where
  abbrev pub resume : (A → Action S B) → (Error → Action S B) → Outcome A × S → Outcome B × S
  resume f h (returns a, s) = f a s
  resume f h (fails e, s) = h e s
  resume f h (panics, s) = (panics, s)

  -- `a, err := m; if err != nil { h } else { f }`
  abbrev pub handle : Action S A → (A → Action S B) → (Error → Action S B) → Action S B
  handle m f h s = resume f h (m s)

  infixl 5 ◌>>=◌ ◌>>◌
  abbrev pub ◌>>=◌ : Action S A → (A → Action S B) → Action S B
  m >>= f = handle m f fail

  abbrev pub ◌>>◌ : Action S A → Action S B → Action S B
  m >> k = m >>= λ _. k

module _ {S A : Type 0} where
  -- `return fmt.Errorf(text + ": %w", err)` on an error.
  abbrev pub wrap_error : String → Action S A → Action S A
  wrap_error text m = handle m pure (λ e. fail (wrapped text e))
