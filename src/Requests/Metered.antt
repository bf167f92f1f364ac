-- ===== src/Requests/Metered.antt =====
-- A Garage that counts the requests of the admin SDK: each of its calls does what it did, and adds
-- one to a count beside Garage's own state.
use garage_s3_operator.Base.{ℕ, suc, Action, Costs, arith}
use garage_s3_operator.Platform.{Platform, World, on_kube, on_garage}

abbrev pub Counted : Type 0 → Type 0
Counted G = ℕ × G

-- One request, counted.
abbrev pub count_one : {G A : Type 0} → Action G A → Action (Counted G) A
count_one m (n, g) = let (r, t) = m g in (r, (suc n, t))

abbrev pub metered : Platform → Platform
metered P = record {
  Kube = P.Kube;
  Garage = Counted P.Garage;
  client = P.client;
  sdk = record {
    get_bucket_info = λ c n. count_one (P.sdk.get_bucket_info c n);
    create_bucket = λ c n. count_one (P.sdk.create_bucket c n);
    update_bucket = λ c id q. count_one (P.sdk.update_bucket c id q);
    delete_bucket = λ c id. count_one (P.sdk.delete_bucket c id);
    list_buckets = λ c. count_one (P.sdk.list_buckets c);
    get_key_info = λ c show n. count_one (P.sdk.get_key_info c show n);
    create_key = λ c n. count_one (P.sdk.create_key c n);
    delete_key = λ c id. count_one (P.sdk.delete_key c id);
    list_keys = λ c. count_one (P.sdk.list_keys c);
    allow_bucket_key = λ c q. count_one (P.sdk.allow_bucket_key c q);
    deny_bucket_key = λ c q. count_one (P.sdk.deny_bucket_key c q);
  };
  accessors = P.accessors;
  util = P.util;
}

module _ (P : Platform) where
  -- The requests that were made.
  unfoldable pub requests : World (metered P) → ℕ
  requests w = w.garage.0

  abbrev pub Spends : ℕ → {A : Type 0} → Action (World (metered P)) A → Type 0
  Spends n m = Costs requests n m

  pub Spends-on_kube :
      {n : ℕ} {A : Type 0} (m : Action (metered P).Kube A) → Spends n (on_kube {P = metered P} m)
  unfolding requests
  Spends-on_kube m = record { after = λ w. omega arith }

  pub Spends-on_garage :
      {A : Type 0} (m : Action P.Garage A) → Spends 1 (on_garage {P = metered P} (count_one m))
  unfolding requests
  Spends-on_garage m = record { after = λ w. omega arith }
