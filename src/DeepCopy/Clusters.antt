-- ===== src/DeepCopy/Clusters.antt =====
-- The deep copies of statuses and of the spec of a GarageCluster, which hold structs of the
-- Kubernetes libraries.
use garage_s3_operator.Base.{Action, Option, List, Yields}
use garage_s3_operator.DeepCopy.Cells.{
  Pointer, KubeTypes, Memory, IdStatusOf, StatusOf, EndpointCaOf, EndpointOf, ClusterSpecOf,
  EndpointCaCell, EndpointCell, ClusterSpecCell,
}
use garage_s3_operator.DeepCopy.Layouts.{
  secret_selector_layout, config_map_selector_layout, conditions_layout,
}
use garage_s3_operator.DeepCopy.Copies.{
  KubeCopies, copy_pointer, copy_conditions, copy_id_status, copy_status, copy_endpoint_ca,
  copy_endpoint, copy_cluster_spec,
}
use garage_s3_operator.DeepCopy.Shown.{
  Showing, ShowsPointer, ShowsItems, ShowsIdStatus, ShowsStatus, ShowsEndpointCa, ShowsEndpoint,
  ShowsClusterSpec,
}
use garage_s3_operator.DeepCopy.Isolation.{
  Grows-refl, Isolated, Fresh-later, Copies, Copies-pointer, Yields-part,
}
use garage_s3_operator.DeepCopy.Fields.{Copies-slice}

-- What a value of the Kubernetes libraries shows, and that their `DeepCopyInto` copies it.
pub record CopyLaw {K : KubeTypes} {X : Type 0} (copy : X → Action (Memory K) X) : Type 1 where
  pub Value : Type 0
  pub Shows : Showing K X Value
  pub copies : Copies Shows copy

pub record KubeLaws {K : KubeTypes} (kube : KubeCopies K) : Type 1 where
  pub object_meta : CopyLaw kube.object_meta
  pub list_meta : CopyLaw kube.list_meta
  pub condition : CopyLaw kube.condition
  pub secret_key_selector : CopyLaw kube.secret_key_selector
  pub config_map_key_selector : CopyLaw kube.config_map_key_selector

module _ {K : KubeTypes} {kube : KubeCopies K} (laws : KubeLaws kube) where
  abbrev pub ConditionsValue : Type 0
  ConditionsValue = Option (List laws.condition.Value)

  abbrev pub ShowsConditions : Showing K Pointer ConditionsValue
  ShowsConditions = ShowsPointer conditions_layout (ShowsItems laws.condition.Shows)

  conditions : Copies ShowsConditions (copy_conditions kube)
  conditions = Copies-slice conditions_layout _ kube.condition laws.condition.copies

  copy_id_status-Isolated :
      (m : Memory K) (x : IdStatusOf Pointer) (t : IdStatusOf ConditionsValue)
      → ShowsIdStatus ShowsConditions m x t
      → Yields (Isolated (ShowsIdStatus ShowsConditions) t m) (copy_id_status kube x m)
  unfolding copy_id_status
  copy_id_status-Isolated m x t h =
      Yields-part _ _ conditions _ m m x.conditions t.conditions _ (Grows-refl m) h.conditions
        λ c m1 _ g1 fc. record {
          grows = g1;
          shown = λ later k. record { id = h.id; conditions = fc later k };
        }

  pub Copies-id_status : Copies (ShowsIdStatus ShowsConditions) (copy_id_status kube)
  Copies-id_status = record {
    stable = λ m m' x t keeps h. record {
      id = h.id;
      conditions = conditions.stable m m' x.conditions t.conditions keeps h.conditions;
    };
    isolates = copy_id_status-Isolated;
  }

  copy_status-Isolated :
      (m : Memory K) (x : StatusOf Pointer) (t : StatusOf ConditionsValue)
      → ShowsStatus ShowsConditions m x t
      → Yields (Isolated (ShowsStatus ShowsConditions) t m) (copy_status kube x m)
  unfolding copy_status
  copy_status-Isolated m x t h =
      Yields-part _ _ conditions _ m m x.conditions t.conditions _ (Grows-refl m) h.conditions
        λ c m1 _ g1 fc. record { grows = g1; shown = λ later k. record { conditions = fc later k } }

  pub Copies-status : Copies (ShowsStatus ShowsConditions) (copy_status kube)
  Copies-status = record {
    stable = λ m m' x t keeps h. record {
      conditions = conditions.stable m m' x.conditions t.conditions keeps h.conditions;
    };
    isolates = copy_status-Isolated;
  }

  abbrev SecretValue : Type 0
  SecretValue = Option laws.secret_key_selector.Value

  abbrev pub EndpointCaValue : Type 0
  EndpointCaValue = EndpointCaOf SecretValue (Option laws.config_map_key_selector.Value)

  abbrev pub ClusterSpecValue : Type 0
  ClusterSpecValue = ClusterSpecOf (EndpointOf EndpointCaValue) SecretValue

  abbrev ShowsSecret : Showing K Pointer SecretValue
  ShowsSecret = ShowsPointer secret_selector_layout laws.secret_key_selector.Shows

  secret : Copies ShowsSecret (copy_pointer secret_selector_layout kube.secret_key_selector)
  secret = Copies-pointer secret_selector_layout _ _ laws.secret_key_selector.copies

  abbrev ShowsConfigMap : Showing K Pointer (Option laws.config_map_key_selector.Value)
  ShowsConfigMap = ShowsPointer config_map_selector_layout laws.config_map_key_selector.Shows

  config_map :
      Copies ShowsConfigMap (copy_pointer config_map_selector_layout kube.config_map_key_selector)
  config_map = Copies-pointer config_map_selector_layout _ _ laws.config_map_key_selector.copies

  abbrev pub ShowsCa : Showing K (EndpointCaCell K) EndpointCaValue
  ShowsCa = ShowsEndpointCa ShowsSecret ShowsConfigMap

  copy_endpoint_ca-Isolated :
      (m : Memory K) (x : EndpointCaCell K) (t : EndpointCaValue)
      → ShowsCa m x t
      → Yields (Isolated ShowsCa t m) (copy_endpoint_ca kube x m)
  unfolding copy_endpoint_ca
  copy_endpoint_ca-Isolated m x t h =
      Yields-part _ _ secret _ m m x.secret_ref t.secret_ref _ (Grows-refl m) h.secret_ref
        λ a m1 _ g1 fa.
          Yields-part _ _ config_map _ m m1 x.config_map_ref t.config_map_ref _ g1 h.config_map_ref
            λ b m2 s2 g2 fb. record {
              grows = g2;
              shown = λ later k. record {
                secret_ref = Fresh-later ShowsSecret t.secret_ref m a m1 m2 fa s2 later k;
                config_map_ref = fb later k;
              };
            }

  Copies-endpoint_ca : Copies ShowsCa (copy_endpoint_ca kube)
  Copies-endpoint_ca = record {
    stable = λ m m' x t keeps h. record {
      secret_ref = secret.stable m m' x.secret_ref t.secret_ref keeps h.secret_ref;
      config_map_ref =
          config_map.stable m m' x.config_map_ref t.config_map_ref keeps h.config_map_ref;
    };
    isolates = copy_endpoint_ca-Isolated;
  }

  copy_endpoint-Isolated :
      (m : Memory K) (x : EndpointCell K) (t : EndpointOf EndpointCaValue)
      → ShowsEndpoint ShowsCa m x t
      → Yields (Isolated (ShowsEndpoint ShowsCa) t m) (copy_endpoint kube x m)
  unfolding copy_endpoint
  copy_endpoint-Isolated m x t h =
      Yields-part _ _ Copies-endpoint_ca _ m m x.ca t.ca _ (Grows-refl m) h.ca λ c m1 _ g1 fc.
        record {
          grows = g1;
          shown = λ later k. record {
            url = h.url;
            insecure_skip_tls_verify = h.insecure_skip_tls_verify;
            ca = fc later k;
          };
        }

  Copies-endpoint : Copies (ShowsEndpoint ShowsCa) (copy_endpoint kube)
  Copies-endpoint = record {
    stable = λ m m' x t keeps h. record {
      url = h.url;
      insecure_skip_tls_verify = h.insecure_skip_tls_verify;
      ca = Copies-endpoint_ca.stable m m' x.ca t.ca keeps h.ca;
    };
    isolates = copy_endpoint-Isolated;
  }

  abbrev pub ShowsSpec : Showing K (ClusterSpecCell K) ClusterSpecValue
  ShowsSpec = ShowsClusterSpec (ShowsEndpoint ShowsCa) ShowsSecret

  copy_cluster_spec-Isolated :
      (m : Memory K) (x : ClusterSpecCell K) (t : ClusterSpecValue)
      → ShowsSpec m x t
      → Yields (Isolated ShowsSpec t m) (copy_cluster_spec kube x m)
  unfolding copy_cluster_spec
  copy_cluster_spec-Isolated m x t h =
      Yields-part _ _ Copies-endpoint _ m m x.endpoint t.endpoint _ (Grows-refl m) h.endpoint
        λ a m1 _ g1 fa.
          Yields-part _ _ secret _ m m1 x.admin_token_secret_ref t.admin_token_secret_ref _ g1
            h.admin_token_secret_ref
            λ b m2 s2 g2 fb. record {
              grows = g2;
              shown = λ later k. record {
                endpoint = Fresh-later (ShowsEndpoint ShowsCa) t.endpoint m a m1 m2 fa s2 later k;
                admin_token_secret_ref = fb later k;
              };
            }

  pub Copies-cluster_spec : Copies ShowsSpec (copy_cluster_spec kube)
  Copies-cluster_spec = record {
    stable = λ m m' x t keeps h. record {
      endpoint = Copies-endpoint.stable m m' x.endpoint t.endpoint keeps h.endpoint;
      admin_token_secret_ref =
          secret.stable m m' x.admin_token_secret_ref t.admin_token_secret_ref keeps
            h.admin_token_secret_ref;
    };
    isolates = copy_cluster_spec-Isolated;
  }
