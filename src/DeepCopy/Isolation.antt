-- ===== src/DeepCopy/Isolation.antt =====
-- What it means that a deep copy shares no cell with its original, and the rules for it.
use mathlib.Core.Option.{none-ne-some}
use garage_s3_operator.Base.{
  ℕ, zero, suc, ◌≤◌, ◌≡◌, refl, sym, ap, subst, none, some, [], ◌∷◌, ◌++◌, arith, Option, Action,
  Yields, Yields-bind, ◌>>=◌,
}
use garage_s3_operator.DeepCopy.Cells.{
  KubeTypes, Pointer, Memory, Cell, Layout, allocate, get_elem?, length,
}
use garage_s3_operator.DeepCopy.Copies.{copy_pointer, copy_plain}
use garage_s3_operator.DeepCopy.Shown.{Retains, Showing, Stable, ShowsPlain, ShowsPointer}

module _ {K : KubeTypes} where
  -- The memory grows from `m` to `m'`.
  pub record Grows (m m' : Memory K) : Type 0 where
    pub old : Retains 0 m m'
    pub longer : length m ≤ length m'

  pub Grows-refl : (m : Memory K) → Grows m m
  Grows-refl m = record { old = λ a c _ e. e; longer = ground arith }

  pub Grows-trans : (m m' m'' : Memory K) → Grows m m' → Grows m' m'' → Grows m m''
  Grows-trans m m' m'' p q = record {
    old = λ a c h e. q.old a c h (p.old a c h e);
    longer = le_trans (length m) (length m') (length m'') p.longer q.longer;
  }
    where
      le_trans : (i j k : ℕ) → i ≤ j → j ≤ k → i ≤ k
      le_trans i j k p q = omega arith

  module _ {X T : Type 0} (Shows : Showing K X T) (t : T) (m : Memory K) (y : X) where
    -- Every memory that keeps the cells that `m'` has beyond those of `m` shows `t` at `y`.
    abbrev pub Fresh : Memory K → Type 0
    Fresh m' = (later : Memory K) → Retains (length m) m' later → Shows later y t

    -- The result `y` of a copy that took the memory from `m` to `m'`: the old cells are as they were,
    -- and every memory that keeps the new ones shows `t` at `y`.
    pub record Isolated (m' : Memory K) : Type 0 where
      pub grows : Grows m m'
      pub shown : Fresh m'

    pub Fresh-later : (m' m'' : Memory K) → Fresh m' → Grows m' m'' → Fresh m''
    Fresh-later m' m'' fresh g later k = fresh later λ a c n e. k a c n (g.old a c (ground arith) e)

  pub Fresh-before :
      {X T : Type 0} (Shows : Showing K X T) (t : T) (m m' : Memory K) (y : X) (m'' : Memory K)
      → Grows m m'
      → Fresh Shows t m' y m''
      → Fresh Shows t m y m''
  Fresh-before Shows t m m' y m'' g fresh later keeps =
      fresh later λ a c n e. keeps a c (beyond (length m) (length m') a g.longer n) e
    where
      beyond : (i j a : ℕ) → i ≤ j → j ≤ a → i ≤ a
      beyond i j a p q = omega arith

  -- A copy of what shows `t` returns, and is isolated; what is shown is the content of the cells.
  pub record Copies {X T : Type 0} (Shows : Showing K X T) (copy : X → Action (Memory K) X)
      : Type 0 where
    pub stable : Stable Shows
    pub isolates :
        (m : Memory K) (x : X) (t : T) → Shows m x t → Yields (Isolated Shows t m) (copy x m)

  pub Copies-plain : {A : Type 0} → Copies (ShowsPlain {A = A}) copy_plain
  Copies-plain = record {
    stable = λ m m' x t keeps h. h;
    isolates = λ m x t h. record { grows = Grows-refl m; shown = λ later k. h };
  }

  -- One part of a struct, copied after others, and what is done with the copy.
  module _ {X T : Type 0} (Shows : Showing K X T) (copy : X → Action (Memory K) X)
      (copies : Copies Shows copy) where
    pub Yields-part :
        {Y : Type 0} (R : Y → Memory K → Type 0) (m m' : Memory K) (x : X) (t : T)
        (k : X → Action (Memory K) Y)
        → Grows m m'
        → Shows m x t
        → ((y : X) (m'' : Memory K)
            → Grows m' m''
            → Grows m m''
            → Fresh Shows t m y m''
            → Yields R (k y m''))
        → Yields R ((copy x >>= k) m')
    Yields-part R m m' x t k g h next =
        Yields-bind _ _ (copy x) k m' (copies.isolates m' x t (copies.stable m m' x t g.old h))
          λ y m'' i.
            next y m'' i.grows (Grows-trans m m' m'' g i.grows)
              (Fresh-before Shows t m m' y m'' g i.shown)

  module _ {A T : Type 0} (layout : Layout K A) (Shows : Showing K A T) where
    Stable-pointer : Stable Shows → Stable (ShowsPointer layout Shows)
    Stable-pointer stable m m' none none keeps h = tt
    Stable-pointer stable m m' none (some t) keeps h = h
    Stable-pointer stable m m' (some a) none keeps h = h
    Stable-pointer stable m m' (some a) (some t) keeps (v, there, shown) =
        (v, keeps a (layout.inject v) (ground arith) there, stable m m' v t keeps shown)

  Retains-append : (m : Memory K) (c : Cell K) → Retains 0 m (m ++ (c ∷ []))
  Retains-append [] c a d h e = absurd (none-ne-some d e)
  Retains-append (x ∷ m) c zero d h e = e
  Retains-append (x ∷ m) c (suc a) d h e = Retains-append m c a d (ground arith) e

  get_elem?-append : (m : Memory K) (c : Cell K) → get_elem? (m ++ (c ∷ [])) (length m) ≡ some c
  get_elem?-append [] c = refl
  get_elem?-append (x ∷ m) c = get_elem?-append m c

  length-append : (m : Memory K) (c : Cell K) → length (m ++ (c ∷ [])) ≡ suc (length m)
  length-append [] c = refl
  length-append (x ∷ m) c = ap suc (length-append m c)

  Grows-append : (m : Memory K) (c : Cell K) → Grows m (m ++ (c ∷ []))
  Grows-append m c = record {
    old = Retains-append m c;
    longer = subst (λ k. length m ≤ k) (sym (length-append m c)) (omega arith);
  }

  module _ {A T : Type 0} (layout : Layout K A) (Shows : Showing K A T)
      (copy : A → Action (Memory K) A) (copies : Copies Shows copy) where
    allocate-Isolated :
        (m m' : Memory K) (w : A) (t : T)
        → Isolated Shows t m w m'
        → Yields (Isolated (ShowsPointer layout Shows) (some t) m) (allocate layout w m')
    allocate-Isolated m m' w t h = record {
      grows =
          Grows-trans m m' (m' ++ (layout.inject w ∷ [])) h.grows
            (Grows-append m' (layout.inject w));
      shown = λ later k. (
        w,
        k (length m') (layout.inject w) h.grows.longer (get_elem?-append m' (layout.inject w)),
        Fresh-later Shows t m w m' (m' ++ (layout.inject w ∷ [])) h.shown
            (Grows-append m' (layout.inject w)) later k,
      );
    }

    copy_pointer-Isolated :
        (m : Memory K) (x : Pointer) (t : Option T)
        → ShowsPointer layout Shows m x t
        → Yields (Isolated (ShowsPointer layout Shows) t m) (copy_pointer layout copy x m)
    unfolding copy_pointer
    copy_pointer-Isolated m none none h = record { grows = Grows-refl m; shown = λ later k. tt }
    copy_pointer-Isolated m none (some t) h = elim h [ ]
    copy_pointer-Isolated m (some a) none h = elim h [ ]
    copy_pointer-Isolated m (some a) (some t) (v, there, shown) =
        rw (there, layout.project-inject v)
          (Yields-bind _ _ (copy v) _ m (copies.isolates m v t shown)
            λ w m' h. allocate-Isolated m m' w t h)

    pub Copies-pointer : Copies (ShowsPointer layout Shows) (copy_pointer layout copy)
    Copies-pointer = record {
      stable = Stable-pointer layout Shows copies.stable;
      isolates = copy_pointer-Isolated;
    }
