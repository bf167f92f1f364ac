-- ===== src/System/Names.antt =====
-- What a reconciliation of a key, and the grant of a permission, leave of the buckets and keys in
-- Garage.
use garage_s3_operator.Base.{String, ◌≡◌, refl, ◌∙◌, Action, Preorder, Keeps, Bool, string_eq}
use garage_s3_operator.Api.{GarageBucket, GarageAccessKey, GaragePermission, Permissions}
use garage_s3_operator.Platform.{Platform, World, on_kube}
use garage_s3_operator.Garage.{GarageApi}
use garage_s3_operator.Garage.Laws.{View, SameNames}
use garage_s3_operator.AccessKey.{reconcile}
use garage_s3_operator.AccessKey.Calls.{reconcile-Keeps}
use garage_s3_operator.Permission.{grant}
use garage_s3_operator.Permission.Calls.{grant-Keeps}

module _ (P : Platform) (v : View P.Garage) where
  -- The same buckets under the same aliases; and the same keys too.
  unfoldable pub Buckets : Preorder (World P)
  Buckets = record {
    later = λ w t. (name : String) → v.bucket_at t.garage name ≡ v.bucket_at w.garage name;
    same = λ w name. refl;
    chain = λ p q name. q name ∙ p name;
  }

  unfoldable pub Names : Preorder (World P)
  Names = record {
    later = λ w t. SameNames v w.garage t.garage;
    same = λ w. ((λ name. refl), λ name. refl);
    chain = λ p q. ((λ name. q.0 name ∙ p.0 name), λ name. q.1 name ∙ p.1 name);
  }

  pub Names-Buckets : {A : Type 0} {m : Action (World P) A} → Keeps Names m → Keeps Buckets m
  unfolding Names Buckets
  Names-Buckets h = record { after = λ w. (h.after w).0 }

  kube-Buckets : {A : Type 0} (m : Action P.Kube A) → Keeps Buckets (on_kube {P = P} m)
  unfolding Buckets
  kube-Buckets m = record { after = λ w name. refl }

  -- Methods that read, or change rights, leave all names as they are; a new key leaves the buckets.
  pub record Local (api : GarageApi (World P)) : Type 0 where
    pub get_bucket : (n : String) → Keeps Names (api.get_bucket n)
    pub get_key_by_id : (n : String) (b : Bool) → Keeps Names (api.get_key_by_id n b)
    pub find_key_in_list : (n : String) → Keeps Names (api.find_key_in_list n)
    pub set_permissions : (k b : String) (p : Permissions) → Keeps Names (api.set_permissions k b p)
    pub create_key : (n : String) → Keeps Buckets (api.create_key n)

  module _ (api : GarageApi (World P)) (local : Local api) where
    pub key_reconcile-Buckets : (key : GarageAccessKey) → Keeps Buckets (reconcile P api key)
    key_reconcile-Buckets = reconcile-Keeps P Buckets api (record {
      find_key_in_list = λ n. Names-Buckets (local.find_key_in_list n);
      create_key = local.create_key;
      get_key_by_id = λ n b. Names-Buckets (local.get_key_by_id n b);
      patch_status = λ base changed. kube-Buckets (P.client.access_keys.patch_status base changed);
      write_secret = λ s f. kube-Buckets (P.client.secrets.create_or_update s f);
    })

    pub grant-Names :
        (bucket : GarageBucket) (perm : GaragePermission) (key : GarageAccessKey)
        → Keeps Names (grant P api bucket perm key)
    grant-Names = grant-Keeps P Names api (record {
      get_bucket = local.get_bucket;
      get_key_by_id = local.get_key_by_id;
      set_permissions = local.set_permissions;
    })
