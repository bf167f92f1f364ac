-- ===== src/DeepCopy/Specs.antt =====
-- The deep copies of the specs of buckets, keys and permissions.
use garage_s3_operator.Base.{Option, Yields}
use garage_s3_operator.Api.{BucketAccessKey, BucketSpec, GarageAccessKeySpec, GaragePermissionSpec}
use garage_s3_operator.DeepCopy.Cells.{
  Pointer, KubeTypes, Memory, Layout, BucketAccessKeyCell, BucketSpecCell, AccessKeySpecCell,
  PermissionSpecCell,
}
use garage_s3_operator.DeepCopy.Layouts.{
  selector_layout, permissions_layout, quotas_layout, key_secret_layout, access_key_layout,
}
use garage_s3_operator.DeepCopy.Copies.{
  copy_pointer, copy_plain, copy_access_key, copy_bucket_spec, copy_key_spec, copy_permission_spec,
}
use garage_s3_operator.DeepCopy.Shown.{
  Showing, ShowsPlain, ShowsPointer, ShowsAccessKey, ShowsBucketSpec, ShowsKeySpec,
  ShowsPermissionSpec,
}
use garage_s3_operator.DeepCopy.Isolation.{
  Grows-refl, Grows-trans, Isolated, Fresh-later, Copies, Copies-plain, Copies-pointer, Yields-part,
}

module _ {K : KubeTypes} where
  -- A pointer to a value without pointers.
  abbrev Flat : {A : Type 0} → Layout K A → Showing K Pointer (Option A)
  Flat layout = ShowsPointer layout ShowsPlain

  flat : {A : Type 0} (layout : Layout K A) → Copies (Flat layout) (copy_pointer layout copy_plain)
  flat layout = Copies-pointer layout ShowsPlain copy_plain Copies-plain

  copy_access_key-Isolated :
      (m : Memory K) (x : BucketAccessKeyCell) (t : BucketAccessKey)
      → ShowsAccessKey m x t
      → Yields (Isolated ShowsAccessKey t m) (copy_access_key x m)
  unfolding copy_access_key
  copy_access_key-Isolated m x t h =
      Yields-part _ _ (flat permissions_layout) _ m m x.permissions t.permissions _ (Grows-refl m)
        h.permissions
        λ p m1 _ g1 fp. record {
          grows = g1;
          shown = λ later k. record {
            enabled = h.enabled;
            permissions = fp later k;
            format = h.format;
          };
        }

  Copies-access_key : Copies {K = K} ShowsAccessKey copy_access_key
  Copies-access_key = record {
    stable = λ m m' x t keeps h. record {
      enabled = h.enabled;
      permissions =
          (flat permissions_layout).stable m m' x.permissions t.permissions keeps h.permissions;
      format = h.format;
    };
    isolates = copy_access_key-Isolated;
  }

  access_key_pointer :
      Copies {K = K}
        (ShowsPointer access_key_layout ShowsAccessKey)
        (copy_pointer access_key_layout copy_access_key)
  access_key_pointer =
      Copies-pointer access_key_layout ShowsAccessKey copy_access_key Copies-access_key

  copy_bucket_spec-Isolated :
      (m : Memory K) (x : BucketSpecCell) (t : BucketSpec)
      → ShowsBucketSpec m x t
      → Yields (Isolated ShowsBucketSpec t m) (copy_bucket_spec x m)
  unfolding copy_bucket_spec
  copy_bucket_spec-Isolated m x t h =
      Yields-part _ _ (flat selector_layout) _ m m x.cluster_ref t.cluster_ref _ (Grows-refl m)
        h.cluster_ref
        λ c m1 _ g1 fc.
          Yields-part _ _ access_key_pointer _ m m1 x.bucket_access_key t.bucket_access_key _ g1
            h.bucket_access_key
            λ a m2 s2 g2 fa.
              Yields-part _ _ (flat quotas_layout) _ m m2 x.quotas t.quotas _ g2 h.quotas
                λ q m3 s3 g3 fq. record {
                  grows = g3;
                  shown = λ later k. record {
                    cluster_ref =
                        Fresh-later (Flat selector_layout) t.cluster_ref m c m1 m3 fc
                          (Grows-trans m1 m2 m3 s2 s3) later k;
                    override_name = h.override_name;
                    bucket_access_key =
                        Fresh-later (ShowsPointer access_key_layout ShowsAccessKey)
                          t.bucket_access_key m a m2 m3 fa s3 later k;
                    quotas = fq later k;
                    reclaim_policy = h.reclaim_policy;
                  };
                }

  pub Copies-bucket_spec : Copies {K = K} ShowsBucketSpec copy_bucket_spec
  Copies-bucket_spec = record {
    stable = λ m m' x t keeps h. record {
      cluster_ref =
          (flat selector_layout).stable m m' x.cluster_ref t.cluster_ref keeps h.cluster_ref;
      override_name = h.override_name;
      bucket_access_key =
          access_key_pointer.stable m m' x.bucket_access_key t.bucket_access_key keeps
            h.bucket_access_key;
      quotas = (flat quotas_layout).stable m m' x.quotas t.quotas keeps h.quotas;
      reclaim_policy = h.reclaim_policy;
    };
    isolates = copy_bucket_spec-Isolated;
  }

  copy_key_spec-Isolated :
      (m : Memory K) (x : AccessKeySpecCell) (t : GarageAccessKeySpec)
      → ShowsKeySpec m x t
      → Yields (Isolated ShowsKeySpec t m) (copy_key_spec x m)
  unfolding copy_key_spec
  copy_key_spec-Isolated m x t h =
      Yields-part _ _ (flat selector_layout) _ m m x.cluster_ref t.cluster_ref _ (Grows-refl m)
        h.cluster_ref
        λ c m1 _ g1 fc.
          Yields-part _ _ (flat key_secret_layout) _ m m1 x.secret t.secret _ g1 h.secret
            λ s m2 s2 g2 fs. record {
              grows = g2;
              shown = λ later k. record {
                cluster_ref =
                    Fresh-later (Flat selector_layout) t.cluster_ref m c m1 m2 fc s2 later k;
                override_name = h.override_name;
                reclaim_policy = h.reclaim_policy;
                secret = fs later k;
              };
            }

  pub Copies-key_spec : Copies {K = K} ShowsKeySpec copy_key_spec
  Copies-key_spec = record {
    stable = λ m m' x t keeps h. record {
      cluster_ref =
          (flat selector_layout).stable m m' x.cluster_ref t.cluster_ref keeps h.cluster_ref;
      override_name = h.override_name;
      reclaim_policy = h.reclaim_policy;
      secret = (flat key_secret_layout).stable m m' x.secret t.secret keeps h.secret;
    };
    isolates = copy_key_spec-Isolated;
  }

  copy_permission_spec-Isolated :
      (m : Memory K) (x : PermissionSpecCell) (t : GaragePermissionSpec)
      → ShowsPermissionSpec m x t
      → Yields (Isolated ShowsPermissionSpec t m) (copy_permission_spec x m)
  unfolding copy_permission_spec
  copy_permission_spec-Isolated m x t h =
      Yields-part _ _ (flat selector_layout) _ m m x.key_ref t.key_ref _ (Grows-refl m) h.key_ref
        λ a m1 _ g1 fa.
          Yields-part _ _ (flat selector_layout) _ m m1 x.bucket_ref t.bucket_ref _ g1 h.bucket_ref
            λ b m2 s2 g2 fb.
              Yields-part _ _ (flat permissions_layout) _ m m2 x.permissions t.permissions _ g2
                h.permissions
                λ p m3 s3 g3 fp. record {
                  grows = g3;
                  shown = λ later k. record {
                    key_ref =
                        Fresh-later (Flat selector_layout) t.key_ref m a m1 m3 fa
                          (Grows-trans m1 m2 m3 s2 s3) later k;
                    bucket_ref =
                        Fresh-later (Flat selector_layout) t.bucket_ref m b m2 m3 fb s3 later k;
                    permissions = fp later k;
                  };
                }

  pub Copies-permission_spec : Copies {K = K} ShowsPermissionSpec copy_permission_spec
  Copies-permission_spec = record {
    stable = λ m m' x t keeps h. record {
      key_ref = (flat selector_layout).stable m m' x.key_ref t.key_ref keeps h.key_ref;
      bucket_ref = (flat selector_layout).stable m m' x.bucket_ref t.bucket_ref keeps h.bucket_ref;
      permissions =
          (flat permissions_layout).stable m m' x.permissions t.permissions keeps h.permissions;
    };
    isolates = copy_permission_spec-Isolated;
  }
