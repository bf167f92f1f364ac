-- ===== src/Requests/Bound.antt =====
-- The most requests to Garage of one reconciliation.
use garage_s3_operator.Base.{◌+◌, ◌≤◌, none, Always}
use garage_s3_operator.Api.{NamespacedName}
use garage_s3_operator.Platform.{Platform, World}
use garage_s3_operator.Bucket as BucketController
use garage_s3_operator.AccessKey as KeyController
use garage_s3_operator.Permission as PermissionController
use garage_s3_operator.Requests.Metered.{metered, requests}
use garage_s3_operator.Requests.Buckets.{bucket_request-Spends}
use garage_s3_operator.Requests.Keys.{key_request-Spends}
use garage_s3_operator.Requests.Permissions.{permission_request-Spends}

-- With the default factory and any libraries, whatever the outcome: one `Reconcile` of a GarageBucket
-- makes at most three calls of the Garage admin SDK, one of a GarageAccessKey at most four, and one
-- of a GaragePermission at most four.
pub reconcile_request-requests :
    (P : Platform) (request : NamespacedName) (w : World (metered P))
    → Always
        (λ t. requests P t ≤ 3 + requests P w)
        (BucketController.reconcile_request (metered P) none request w)
      × Always
          (λ t. requests P t ≤ 4 + requests P w)
          (KeyController.reconcile_request (metered P) none request w)
      × Always
          (λ t. requests P t ≤ 4 + requests P w)
          (PermissionController.reconcile_request (metered P) none request w)
reconcile_request-requests P request w = (
  (bucket_request-Spends P request).after w,
  (key_request-Spends P request).after w,
  (permission_request-Spends P request).after w,
)
