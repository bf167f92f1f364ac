-- ===== src/DeepCopy/Fields.antt =====
-- The deep copies of slices, and of structs by their parts.
use garage_s3_operator.Base.{Option, List, [], ◌∷◌, Action, Yields, Yields-bind}
use garage_s3_operator.DeepCopy.Cells.{KubeTypes, Memory, Layout, ObjectOf, ListOf, ListCell}
use garage_s3_operator.DeepCopy.Copies.{
  KubeCopies, copy_items, copy_object, copy_list, copy_pointer,
}
use garage_s3_operator.DeepCopy.Shown.{
  Showing, Stable, ShowsItems, ShowsPointer, ShowsObject, ShowsList,
}
use garage_s3_operator.DeepCopy.Isolation.{
  Grows-refl, Isolated, Fresh-later, Fresh-before, Copies, Copies-pointer, Yields-part, Grows-trans,
}

module _ {K : KubeTypes} {A T : Type 0} (Shows : Showing K A T) where
  Stable-items : Stable Shows → Stable (ShowsItems Shows)
  Stable-items stable m m' [] [] keeps h = tt
  Stable-items stable m m' [] (t ∷ ts) keeps h = h
  Stable-items stable m m' (x ∷ xs) [] keeps h = h
  Stable-items stable m m' (x ∷ xs) (t ∷ ts) keeps (h, hs) =
      (stable m m' x t keeps h, Stable-items stable m m' xs ts keeps hs)

  module _ (copy : A → Action (Memory K) A) (copies : Copies Shows copy) where
    copy_items-Isolated :
        (m : Memory K) (xs : List A) (ts : List T)
        → ShowsItems Shows m xs ts
        → Yields (Isolated (ShowsItems Shows) ts m) (copy_items copy xs m)
    unfolding copy_items
    copy_items-Isolated m [] [] h = record { grows = Grows-refl m; shown = λ later k. tt }
    copy_items-Isolated m [] (t ∷ ts) h = elim h [ ]
    copy_items-Isolated m (x ∷ xs) [] h = elim h [ ]
    copy_items-Isolated m (x ∷ xs) (t ∷ ts) (h, hs) =
        Yields-part Shows copy copies _ m m x t _ (Grows-refl m) h λ y m1 _ g1 fresh.
          Yields-bind _ _ (copy_items copy xs) _ m1
            (copy_items-Isolated m1 xs ts (Stable-items copies.stable m m1 xs ts g1.old hs))
            λ ys m2 i. record {
              grows = Grows-trans m m1 m2 g1 i.grows;
              shown = λ later k. (
                Fresh-later Shows t m y m1 m2 fresh i.grows later k,
                Fresh-before (ShowsItems Shows) ts m m1 ys m2 g1 i.shown later k,
              );
            }

    pub Copies-items : Copies (ShowsItems Shows) (copy_items copy)
    Copies-items = record { stable = Stable-items copies.stable; isolates = copy_items-Isolated }

module _ {K : KubeTypes} (kube : KubeCopies K) {T : Type 0} (Meta : Showing K K.ObjectMeta T)
    (meta : Copies Meta kube.object_meta) where
  module _ {S R U V : Type 0} (Spec : Showing K S R) (Status : Showing K U V)
      (copy_spec : S → Action (Memory K) S) (copy_status : U → Action (Memory K) U)
      (spec : Copies Spec copy_spec) (status : Copies Status copy_status) where
    copy_object-Isolated :
        (m : Memory K) (x : ObjectOf K.ObjectMeta S U) (t : ObjectOf T R V)
        → ShowsObject Meta Spec Status m x t
        → Yields
            (Isolated (ShowsObject Meta Spec Status) t m)
            (copy_object kube copy_spec copy_status x m)
    unfolding copy_object
    copy_object-Isolated m x t h =
        Yields-part Meta kube.object_meta meta _ m m x.meta t.meta _ (Grows-refl m) h.meta
          λ a m1 _ g1 fa.
            Yields-part Spec copy_spec spec _ m m1 x.spec t.spec _ g1 h.spec λ b m2 s2 g2 fb.
              Yields-part Status copy_status status _ m m2 x.status t.status _ g2 h.status
                λ c m3 s3 g3 fc. record {
                  grows = g3;
                  shown = λ later k. record {
                    type_meta = h.type_meta;
                    meta =
                        Fresh-later Meta t.meta m a m1 m3 fa (Grows-trans m1 m2 m3 s2 s3) later k;
                    spec = Fresh-later Spec t.spec m b m2 m3 fb s3 later k;
                    status = fc later k;
                  };
                }

    pub Copies-object :
        Copies (ShowsObject Meta Spec Status) (copy_object kube copy_spec copy_status)
    Copies-object = record {
      stable = λ m m' x t keeps h. record {
        type_meta = h.type_meta;
        meta = meta.stable m m' x.meta t.meta keeps h.meta;
        spec = spec.stable m m' x.spec t.spec keeps h.spec;
        status = status.stable m m' x.status t.status keeps h.status;
      };
      isolates = copy_object-Isolated;
    }

module _ {K : KubeTypes} {A R : Type 0} (layout : Layout K (List A)) (Item : Showing K A R)
    (copy : A → Action (Memory K) A) (item : Copies Item copy) where
  pub Copies-slice :
      Copies (ShowsPointer layout (ShowsItems Item)) (copy_pointer layout (copy_items copy))
  Copies-slice =
      Copies-pointer layout (ShowsItems Item) (copy_items copy) (Copies-items Item copy item)

module _ {K : KubeTypes} (kube : KubeCopies K) {T : Type 0} (Meta : Showing K K.ListMeta T)
    (meta : Copies Meta kube.list_meta) {A R : Type 0} (layout : Layout K (List A))
    (Item : Showing K A R) (copy : A → Action (Memory K) A) (item : Copies Item copy) where
  copy_list-Isolated :
      (m : Memory K) (x : ListCell K) (t : ListOf T (Option (List R)))
      → ShowsList Meta (ShowsPointer layout (ShowsItems Item)) m x t
      → Yields
          (Isolated (ShowsList Meta (ShowsPointer layout (ShowsItems Item))) t m)
          (copy_list kube layout copy x m)
  unfolding copy_list
  copy_list-Isolated m x t h =
      Yields-part Meta kube.list_meta meta _ m m x.list_meta t.list_meta _ (Grows-refl m)
        h.list_meta
        λ a m1 _ g1 fa.
          Yields-part (ShowsPointer layout (ShowsItems Item))
            (copy_pointer layout (copy_items copy)) (Copies-slice layout Item copy item) _ m m1
            x.items t.items _ g1 h.items
            λ b m2 s2 g2 fb. record {
              grows = g2;
              shown = λ later k. record {
                type_meta = h.type_meta;
                list_meta = Fresh-later Meta t.list_meta m a m1 m2 fa s2 later k;
                items = fb later k;
              };
            }

  pub Copies-list :
      Copies (ShowsList Meta (ShowsPointer layout (ShowsItems Item))) (copy_list kube layout copy)
  Copies-list = record {
    stable = λ m m' x t keeps h. record {
      type_meta = h.type_meta;
      list_meta = meta.stable m m' x.list_meta t.list_meta keeps h.list_meta;
      items = (Copies-slice layout Item copy item).stable m m' x.items t.items keeps h.items;
    };
    isolates = copy_list-Isolated;
  }
