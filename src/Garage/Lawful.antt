-- ===== src/Garage/Lawful.antt =====
-- `GarageManager` keeps what the reconcilers rely on.
use garage_s3_operator.Base.{
  String, ◌≡◌, refl, Bool, Option, none, some, arith, Error, Action, OnReturn-bind, OnReturn-mono,
}
use garage_s3_operator.Api.{BucketQuotas}
use garage_s3_operator.Platform.{
  Platform, on_garage, Connection, BucketInfo, Reply, KeyInfo, Response,
}
use garage_s3_operator.Platform.Lifting.{OnReturn-on_garage}
use garage_s3_operator.Garage.Laws.{View, GotBucket, HasQuotas, GotKey, ApiLaws, LeavesKube}
use garage_s3_operator.Garage.Rights.{AccessorLaws}
use garage_s3_operator.Garage.Server.{ServerLaws}
use garage_s3_operator.Garage.Grants.{set_permissions-grants}
use garage_s3_operator.Garage.Manager.{
  nil_on_error, garage_manager, get_bucket, create_bucket, update_bucket, delete_bucket,
  get_key_by_id, delete_key,
}

-- What a reply shows if it has no error, it shows after `nil_on_error`.
module _ {A : Type 0} (X : A → Type 0) (nil : A) where
  shown_parts :
      (value : A) (resp : Option Response) (error : Option Error)
      → let r : Reply A = record { value = value; resp = resp; error = error } in
        (error ≡ none → X value) → (nil_on_error nil r).error ≡ none → X (nil_on_error nil r).value
  shown_parts value resp none f = f
  shown_parts value resp (some e) f = λ h. cc

  shown :
      (r : Reply A)
      → (r.error ≡ none → X r.value)
      → (nil_on_error nil r).error ≡ none
      → X (nil_on_error nil r).value
  shown r = shown_parts r.value r.resp r.error

got_parts :
    (there value : Option BucketInfo) (resp : Option Response) (error : Option Error)
    → let r : Reply (Option BucketInfo) = record { value = value; resp = resp; error = error } in
      GotBucket r there → GotBucket (nil_on_error none r) there
got_parts there value resp none got = got
got_parts there value resp (some e) got = record { found = λ h. cc; missing = got.missing }

key_parts :
    (P : Platform) (v : View P.Garage) (show : Bool) (g : P.Garage) (name : String)
    (value : Option KeyInfo) (resp : Option Response) (error : Option Error)
    → let r : Reply (Option KeyInfo) = record { value = value; resp = resp; error = error } in
      GotKey P v show r g name → GotKey P v show (nil_on_error none r) g name
key_parts P v show g name value resp none got = got
key_parts P v show g name value resp (some e) got = record {
  found = λ h. cc;
  missing = got.missing;
  unmatched = got.unmatched;
  secret_shown = λ h. cc;
}

module _ (P : Platform) (c : Connection) (v : View P.Garage) (server : ServerLaws P c v)
    (accessor_laws : AccessorLaws P.accessors) where
  -- The methods of `GarageManager` have the laws that the reconcilers rely on, if the server has
  -- those of the admin API and the SDK's accessors those of their documentation.
  pub garage_manager-ApiLaws : ApiLaws P (garage_manager P c) v
  unfolding garage_manager get_bucket create_bucket update_bucket delete_bucket get_key_by_id
      delete_key
  garage_manager-ApiLaws = record {
    get_bucket_lem = λ name w.
        OnReturn-bind _ _ (on_garage {P = P} (P.sdk.get_bucket_info c name)) _ w
          (OnReturn-on_garage P w _ (P.sdk.get_bucket_info c name)
            (server.get_bucket_info_lem name w.garage))
          λ r t got. got_parts (v.bucket_at t.garage name) r.value r.resp r.error got.0;
    create_bucket_lem = λ name w.
        OnReturn-bind _ _ (on_garage {P = P} (P.sdk.create_bucket c (some name))) _ w
          (OnReturn-on_garage P w _ (P.sdk.create_bucket c (some name))
            (server.create_bucket_lem name w.garage))
          λ r t made.
            shown
              (λ value.
                (info : BucketInfo) × (value ≡ some info) × (v.bucket_at t.garage name ≡ some info))
              none r made.0;
    update_bucket_lem = λ name quotas info w there.
        OnReturn-bind _ _ (on_garage {P = P} (update quotas info)) _ w
          (OnReturn-on_garage P w _ (update quotas info)
            (server.update_bucket_lem name quotas info w.garage there))
          λ r t set.
            shown
              (λ value.
                (info' : BucketInfo) × (v.bucket_at t.garage name ≡ some info')
                × HasQuotas P.accessors quotas info')
              none r set.0;
    delete_bucket_lem = λ name info w there.
        OnReturn-mono _ _ (on_garage {P = P} (P.sdk.delete_bucket c info.id) w)
          (OnReturn-on_garage P w _ (P.sdk.delete_bucket c info.id)
            (server.delete_bucket_lem name info w.garage there))
          λ r t gone. gone.0;
    get_key_lem = λ name secret w.
        OnReturn-bind _ _ (on_garage {P = P} (P.sdk.get_key_info c secret name)) _ w
          (OnReturn-on_garage P w _ (P.sdk.get_key_info c secret name)
            (server.get_key_info_lem name secret w.garage))
          λ r t got. (key_parts P v secret t.garage name r.value r.resp r.error got.0.0, got.0.1);
    delete_key_lem = λ name info w there.
        OnReturn-mono _ _ (on_garage {P = P} (P.sdk.delete_key c info.access_key_id) w)
          (OnReturn-on_garage P w _ (P.sdk.delete_key c info.access_key_id)
            (server.delete_key_lem name info w.garage there))
          λ r t gone. gone.0;
    set_permissions_lem =
        λ key_id bucket_id. set_permissions-grants P c v server accessor_laws key_id bucket_id;
  }
    where
      update : BucketQuotas → BucketInfo → Action P.Garage (Reply (Option BucketInfo))
      update quotas info =
          P.sdk.update_bucket c info.id (
            some
              (record { max_objects = some quotas.max_objects; max_size = some quotas.max_size }))

-- No method of `GarageManager` that a deletion calls acts on Kubernetes.
pub garage_manager-LeavesKube : (P : Platform) (c : Connection) → LeavesKube P (garage_manager P c)
unfolding garage_manager get_bucket delete_bucket get_key_by_id delete_key
garage_manager-LeavesKube P c = record {
  get_bucket = λ n w. ground arith;
  delete_bucket = λ id w. refl;
  get_key_by_id = λ n b w. ground arith;
  delete_key = λ id w. refl;
}
