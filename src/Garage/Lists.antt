-- ===== src/Garage/Lists.antt =====
-- `findKeyInList` and `findBucketInList`: the first item that fits, and none only if none fits.
use garage_s3_operator.Base.{
  String, ◌≡◌, refl, ap, Bool, true, false, Option, none, some, List, [], ◌∷◌, ◌++◌, inl, inr,
  Bool-cases, ◌==◌, contains, string_eq,
}
use garage_s3_operator.Platform.{ListKeysItem, ListBucketsItem}
use garage_s3_operator.Garage.Laws.{All}
use garage_s3_operator.Garage.Manager.{find_key, find_bucket}

-- `x` is the first item of `xs` that passes the test.
pub record IsFirst {A : Type 0} (test : A → Bool) (xs : List A) (x : A) : Type 0 where
  pub before : List A
  pub after : List A
  pub split : xs ≡ before ++ (x ∷ after)
  pub passes : test x ≡ true
  pub skipped : All (λ y. test y ≡ false) before

-- What a search of `xs` may answer.
abbrev pub Finds : {A : Type 0} → (A → Bool) → List A → Option A → Type 0
Finds test xs none = All (λ y. test y ≡ false) xs
Finds test xs (some x) = IsFirst test xs x

Finds-cons :
    {A : Type 0} (test : A → Bool) (y : A) (xs : List A) (o : Option A)
    → test y ≡ false
    → Finds test xs o
    → Finds test (y ∷ xs) o
Finds-cons test y xs none no_fit h = (no_fit, h)
Finds-cons test y xs (some x) no_fit h = record {
  before = y ∷ h.before;
  after = h.after;
  split = ap (λ l. y ∷ l) h.split;
  passes = h.passes;
  skipped = (no_fit, h.skipped);
}

Finds-head :
    {A : Type 0} (test : A → Bool) (x : A) (xs : List A)
    → test x ≡ true
    → Finds test (x ∷ xs) (some x)
Finds-head test x xs fits = record {
  before = [];
  after = xs;
  split = refl;
  passes = fits;
  skipped = tt;
}

-- The loop of `findKeyInList` finds the first key of that name, or no key has it.
pub find_key-Finds :
    (name : String) (keys : List ListKeysItem)
    → Finds (λ k. k.name == name) keys (find_key name keys)
unfolding find_key
find_key-Finds name [] = tt
find_key-Finds name (k ∷ keys) = elim (Bool-cases (k.name == name)) [
  | inl fits ↦ rw fits (Finds-head (λ j. j.name == name) k keys fits)
  | inr other ↦ rw other (
      Finds-cons (λ j. j.name == name) k keys (find_key name keys) other (find_key-Finds name keys))
]

-- The loop of `findBucketInList` finds the first bucket with that global alias, or no bucket has it.
pub find_bucket-Finds :
    (name : String) (buckets : List ListBucketsItem)
    → Finds (λ b. contains b.global_aliases name) buckets (find_bucket name buckets)
unfolding find_bucket
find_bucket-Finds name [] = tt
find_bucket-Finds name (b ∷ buckets) = elim (Bool-cases (contains b.global_aliases name)) [
  | inl fits ↦ rw fits (Finds-head (λ c. contains c.global_aliases name) b buckets fits)
  | inr other ↦ rw other (
      Finds-cons (λ c. contains c.global_aliases name) b buckets (find_bucket name buckets) other
        (find_bucket-Finds name buckets))
]
