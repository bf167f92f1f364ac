-- ===== src/Garage/Listing.antt =====
-- The lists of keys and of buckets that Garage answers with, and the searches in them.
use mathlib.Core.Option.{none-ne-some}
use garage_s3_operator.Base.{
  String, ◌≡◌, subst, sym, none, List, inl, inr, Option-cases, ◌==◌, contains, string_eq, OnReturn,
  OnReturn-bind,
}
use garage_s3_operator.Platform.{
  Platform, World, on_garage, Connection, ListKeysItem, ListBucketsItem,
}
use garage_s3_operator.Platform.Lifting.{OnReturn-on_garage}
use garage_s3_operator.Garage.Lists.{Finds, find_key-Finds, find_bucket-Finds}
use garage_s3_operator.Garage.Manager.{
  list_keys, find_key, find_bucket, find_key_in_list, find_bucket_in_list, deny_all_permissions,
  perm_change, every_perm,
}
use garage_s3_operator.Platform.{PermChange}

-- The keys and the buckets of a Garage, in the order in which it lists them.
pub record Lists (G : Type 0) : Type 0 where
  pub keys : G → List ListKeysItem
  pub buckets : G → List ListBucketsItem

abbrev pub SameLists : {G : Type 0} → Lists G → G → G → Type 0
SameLists l g h = (l.keys h ≡ l.keys g) × (l.buckets h ≡ l.buckets g)

module _ (P : Platform) (c : Connection) (l : Lists P.Garage) where
  -- A list request is answered with the list, and neither it nor a denial changes a list.
  pub record ListLaws : Type 0 where
    pub list_keys_lem :
        (g : P.Garage)
        → OnReturn
            (λ r h. (r.error ≡ none → r.value ≡ l.keys h) × SameLists l g h)
            (P.sdk.list_keys c g)
    pub list_buckets_lem :
        (g : P.Garage)
        → OnReturn
            (λ r h. (r.error ≡ none → r.value ≡ l.buckets h) × SameLists l g h)
            (P.sdk.list_buckets c g)
    pub deny_lists_lem :
        (q : PermChange) (g : P.Garage)
        → OnReturn (λ r h. SameLists l g h) (P.sdk.deny_bucket_key c q g)

  module _ (laws : ListLaws) where
    pub find_bucket_in_list-Finds :
        (name : String) (w : World P)
        → OnReturn
            (λ o t.
              Finds (λ b. contains b.global_aliases name) (l.buckets t.garage) o
              × SameLists l w.garage t.garage)
            (find_bucket_in_list P c name w)
    unfolding find_bucket_in_list
    find_bucket_in_list-Finds name w =
        OnReturn-bind _ _ (on_garage {P = P} (P.sdk.list_buckets c)) _ w
          (OnReturn-on_garage P w _ (P.sdk.list_buckets c) (laws.list_buckets_lem w.garage))
          λ r t got. elim (Option-cases r.error) [
            | inr (e, failed) ↦ rw failed tt
            | inl fine ↦ rw fine (
              subst
                  (λ bs. Finds (λ b. contains b.global_aliases name) bs (find_bucket name r.value))
                  (got.0.0 fine) (find_bucket-Finds name r.value),
              got.0.1,
            )
          ]

    list_keys-keys :
        (w : World P)
        → OnReturn
            (λ r t. (r.error ≡ none → r.value ≡ l.keys t.garage) × SameLists l w.garage t.garage)
            (list_keys P c w)
    unfolding list_keys
    list_keys-keys w =
        OnReturn-bind _ _ (on_garage {P = P} (P.sdk.list_keys c)) _ w
          (OnReturn-on_garage P w _ (P.sdk.list_keys c) (laws.list_keys_lem w.garage))
          λ r t got. elim (Option-cases r.error) [
            | inr (e, failed) ↦ rw failed ((λ h. absurd (none-ne-some e (sym h))), got.0.1)
            | inl fine ↦ rw fine ((λ _. got.0.0 fine), got.0.1)
          ]

    pub find_key_in_list-Finds :
        (name : String) (w : World P)
        → OnReturn
            (λ o t. Finds (λ k. k.name == name) (l.keys t.garage) o × SameLists l w.garage t.garage)
            (find_key_in_list P c name w)
    unfolding find_key_in_list
    find_key_in_list-Finds name w =
        OnReturn-bind _ _ (list_keys P c) _ w (list_keys-keys w) λ r t got.
          elim (Option-cases r.error) [
            | inr (e, failed) ↦ rw failed tt
            | inl fine ↦ rw fine (
              subst (λ ks. Finds (λ k. k.name == name) ks (find_key name r.value)) (got.0 fine)
                  (find_key-Finds name r.value),
              got.1,
            )
          ]

    pub deny_all_permissions-SameLists :
        (key_id bucket_id : String) (w : World P)
        → OnReturn
            (λ _ t. SameLists l w.garage t.garage)
            (deny_all_permissions P c key_id bucket_id w)
    unfolding deny_all_permissions
    deny_all_permissions-SameLists key_id bucket_id w =
        OnReturn-bind _ _ (on_garage {P = P} (P.sdk.deny_bucket_key c request)) _ w
          (OnReturn-on_garage P w _ (P.sdk.deny_bucket_key c request)
            (laws.deny_lists_lem request w.garage))
          λ r t same. same.0
      where
        request : PermChange
        request = perm_change P c key_id bucket_id (every_perm P.accessors)
