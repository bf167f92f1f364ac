-- ===== src/Garage/Follows.antt =====
-- What `newGarageClient` builds: the settings of the GarageCluster, and the secrets that it names,
-- reach the connection.
use mathlib.Core.Bool.{false≢true}
use mathlib.Core.Option.{some-injective, none-ne-some}
use garage_s3_operator.Base.{
  String, ◌≡◌, refl, sym, subst, ◌∙◌, true, Option, none, some, Option-cases, Bool-cases, inl, inr,
  ◌==◌, string_eq, ==-of_eq, eq_of_==, Action, Error, pure, fail, OnReturn, OnReturn-bind,
  OnReturn-both, OnReturn-of_Always, OnReturn-wrap_error, Always, wrap_error,
}
use garage_s3_operator.Api.{GarageCluster, KeySelector, NamespacedName, Secret}
use garage_s3_operator.Platform.{Platform, World, Connection, TlsConfig, on_kube}
use garage_s3_operator.Platform.Lifting.{OnReturn-on_kube}
use garage_s3_operator.Helper.{get_secret_value, map_get}
use garage_s3_operator.Garage.Connect.{load_ca, tls_config, transport, new_garage_client}

-- `if v, ok := m[k]; ok { return v, nil }; return e`
OnReturn-found :
    {S A : Type 0} (Q : A → S → Type 0) (o : Option A) (e : Error) (s : S)
    → ((a : A) → o ≡ some a → Q a s)
    → OnReturn Q ((elim o as (λ _. Action S A) [ some a ↦ pure a | none ↦ fail e ]) s)
OnReturn-found Q none e s h = tt
OnReturn-found Q (some a) e s h = h a refl

module _ (P : Platform) (stored : P.Kube → NamespacedName → Option Secret) where
  abbrev SameSecrets : P.Kube → P.Kube → Type 0
  SameSecrets k t = (n : NamespacedName) → stored t n ≡ stored k n

  -- A read of a secret answers with the secret that is stored, and changes none.
  pub record SecretReads : Type 0 where
    pub get_lem :
        (n : NamespacedName) (k : P.Kube)
        → OnReturn (λ s _. stored k n ≡ some s) (P.client.secrets.get n k)
    pub get_same :
        (n : NamespacedName) (k : P.Kube) → Always (SameSecrets k) (P.client.secrets.get n k)

  -- The text under the selector's key, in the secret of its name and of the namespace.
  pub record Named (k : P.Kube) (namespace : String) (s : KeySelector) (text : String)
      : Type 0 where
    pub secret : Secret
    pub there : stored k (record { name = s.name; namespace = namespace }) ≡ some secret
    pub value : map_get s.key secret.content ≡ some text

  Named-same :
      (k t : P.Kube) (namespace : String) (s : KeySelector) (text : String)
      → SameSecrets k t
      → Named t namespace s text
      → Named k namespace s text
  Named-same k t namespace s text same h = record {
    secret = h.secret;
    there = sym (same _) ∙ h.there;
    value = h.value;
  }

  module _ (reads : SecretReads) where
    get_secret_value_lem :
        (namespace : String) (s : Option KeySelector) (w : World P)
        → OnReturn
            (λ text t.
              (r : KeySelector) × (s ≡ some r)
              × Named w.kube namespace r text
              × SameSecrets w.kube t.kube)
            (get_secret_value P namespace s w)
    unfolding get_secret_value
    get_secret_value_lem namespace none w = tt
    get_secret_value_lem namespace (some r) w =
        OnReturn-bind _ _ (on_kube {P = P} (P.client.secrets.get n)) _ w
          (OnReturn-on_kube P w _ (P.client.secrets.get n) (
            OnReturn-both _ _ (P.client.secrets.get n w.kube) (reads.get_lem n w.kube) (
              OnReturn-of_Always (SameSecrets w.kube) (P.client.secrets.get n w.kube)
                (reads.get_same n w.kube))))
          λ secret t q.
            OnReturn-found _ (map_get r.key secret.content) _ t λ text found.
              (r, refl, record { secret = secret; there = q.0.0; value = found }, q.0.1)
      where
        n : NamespacedName
        n = record { name = r.name; namespace = namespace }

    module _ (cluster : GarageCluster) where
      -- The root certificates that the endpoint asks for, with the secrets as in `k`.
      pub record Pinned (k : P.Kube) (ref : Option KeySelector) (roots : Option String)
          : Type 0 where
        pub system : ref ≡ none → roots ≡ none
        pub pinned :
            (s : KeySelector)
            → ref ≡ some s
            → (ca : String) × (roots ≡ some ca)
              × Named k cluster.meta.namespace s ca
              × (P.util.append_certs_from_pem ca ≡ true)

      load_ca-Pinned :
          (ref : Option KeySelector) (w : World P)
          → OnReturn
              (λ roots t. Pinned w.kube ref roots × SameSecrets w.kube t.kube)
              (load_ca P cluster ref w)
      unfolding load_ca
      load_ca-Pinned none w =
          (record { system = λ _. refl; pinned = λ s h. absurd (none-ne-some s h) }, λ n. refl)
      load_ca-Pinned (some ref) w =
          OnReturn-bind _ _ (wrap_error "unable to fetch garage endpoint CA" ca) _ w
            (OnReturn-wrap_error _ _ ca w
              (get_secret_value_lem cluster.meta.namespace (some ref) w))
            λ text t (r, at, named, same). elim (Bool-cases (P.util.append_certs_from_pem text)) [
              | inr bad ↦ rw bad tt
              | inl fine ↦ rw fine (
                record {
                  system = λ h. absurd (none-ne-some ref (sym h));
                  pinned = λ s e. (
                    text,
                    refl,
                    subst (λ x. Named w.kube cluster.meta.namespace x text)
                        (some-injective r s (sym at ∙ e)) named,
                    fine,
                  );
                },
                same,
              )
            ]
        where
          ca : Action (World P) String
          ca = get_secret_value P cluster.meta.namespace (some ref)

      -- A TLS configuration that the endpoint asks for.
      pub record Secures (k : P.Kube) (tls : Option TlsConfig) : Type 0 where
        pub config : TlsConfig
        pub there : tls ≡ some config
        pub verify : config.insecure_skip_verify ≡ cluster.spec.endpoint.insecure_skip_tls_verify
        pub trust : Pinned k cluster.spec.endpoint.ca.secret_ref config.root_cas

      transport-Secures :
          (scheme : String) (w : World P)
          → OnReturn
              (λ tls t.
                (scheme ≡ "https" → Secures w.kube tls)
                × (¬ (scheme ≡ "https") → tls ≡ none)
                × SameSecrets w.kube t.kube)
              (transport P cluster scheme w)
      unfolding transport tls_config
      transport-Secures scheme w = elim (Bool-cases (scheme == "https")) [
        | inr plain ↦
            rw plain
              ((λ p. absurd (false≢true (sym plain ∙ ==-of_eq _ _ p))), (λ _. refl), λ n. refl)
        | inl https ↦ rw https (
            OnReturn-bind _ _ (load_ca P cluster cluster.spec.endpoint.ca.secret_ref) _ w
              (load_ca-Pinned cluster.spec.endpoint.ca.secret_ref w)
              λ roots t (trust, same). (
                (λ _. record {
                  config = record {
                    insecure_skip_verify = cluster.spec.endpoint.insecure_skip_tls_verify;
                    root_cas = roots;
                  };
                  there = refl;
                  verify = refl;
                  trust = trust;
                }),
                (λ other. absurd (other (eq_of_== _ _ https))),
                same,
              ))
      ]

      -- What the connection takes from the GarageCluster, with the secrets as in `k`.
      pub record Follows (k : P.Kube) (c : Connection) : Type 0 where
        pub to_url : c.url ≡ cluster.spec.endpoint.url
        pub scheme : String
        pub parsed : P.util.parse_scheme cluster.spec.endpoint.url ≡ some scheme
        pub secured : scheme ≡ "https" → Secures k c.tls
        pub plain : ¬ (scheme ≡ "https") → c.tls ≡ none
        pub admin : KeySelector
        pub admin_named : cluster.spec.admin_token_secret_ref ≡ some admin
        pub token : Named k cluster.meta.namespace admin c.token

      -- If `newGarageClient` returns, the connection goes to the endpoint's URL; it has a TLS
      -- configuration if the scheme is "https" and none if it is another; that configuration skips
      -- verification as the GarageCluster says, and its root certificates are the system's if no CA
      -- secret is named, and else the text, which parses, under the selector's key in the CA secret of
      -- the GarageCluster's namespace; the access token is the text under the selector's key in the
      -- admin token's secret of that namespace. Given that a read of a secret answers with the secret
      -- that is stored and changes none.
      pub new_garage_client-Follows :
          (w : World P) → OnReturn (λ c _. Follows w.kube c) (new_garage_client P cluster w)
      unfolding new_garage_client transport tls_config
      new_garage_client-Follows w =
          elim (Option-cases (P.util.parse_scheme cluster.spec.endpoint.url)) [
            | inl bad ↦ rw (bad, new_garage_client) tt
            | inr (scheme, parsed) ↦
                rw (parsed, new_garage_client)
                  (OnReturn-bind _ _ (transport P cluster scheme) _ w (transport-Secures scheme w)
                    λ tls t (secured, plain, same).
                      OnReturn-bind _ _ (wrap_error "unable to get admin token" fetched) _ t
                        (OnReturn-wrap_error _ _ fetched t (
                          get_secret_value_lem cluster.meta.namespace
                            cluster.spec.admin_token_secret_ref t))
                        λ token u (admin, named, there, _). record {
                          to_url = refl;
                          scheme = scheme;
                          parsed = parsed;
                          secured = secured;
                          plain = plain;
                          admin = admin;
                          admin_named = named;
                          token = Named-same w.kube t.kube _ admin token same there;
                        })
          ]
        where
          fetched : Action (World P) String
          fetched = get_secret_value P cluster.meta.namespace cluster.spec.admin_token_secret_ref
