-- ===== src/Lib.antt =====
-- Verification library of the Garage operator, a Kubernetes operator that keeps buckets, access keys
-- and permissions of a Garage cluster in line with custom resources.
--
-- The parts of the program, and the files that model them:
--   Api, Api/*            api/v1alpha1/*_types.go: the custom resources and their methods
--                         (TargetName, Selector); Api/TargetName is on the names of keys.
--   Platform, Platform/*  what the program calls and does not contain: the client of
--                         controller-runtime (Kubernetes), the Garage admin SDK (GarageSdk) and helper
--                         functions on objects, URLs and certificates (Libraries). All of it is one
--                         parameter, `Platform`; Platform/Laws and Garage/Server state what the
--                         theorems assume of it, from its documentation.
--   Helper                internal/controller/helper.go: getBucket, getKey, getCluster and
--                         getSecretValue.
--   Garage, Garage/*      internal/controller/garage.go: the interface GarageAPI (Interface), the
--                         methods of GarageManager (Manager) and newGarageClient (Connect).
--                         Garage/Laws is what the reconcilers rely on in a GarageAPI. Follows is
--                         on the connection's settings, NoPanic on nil pointers in the methods.
--   Http                  the tests of response codes, and loggingRoundTripper.RoundTrip.
--   Finalizer             the finalizer that the three reconcilers share.
--   Bucket, Bucket/*      internal/controller/bucket_controller.go: Reconcile, reconcile and
--                         reconcileDeletion (Reconcile); reconcileAccessKey, reconcilePermission and
--                         reconcileKeyResourcesDeletion (Resources).
--   AccessKey, AccessKey/* internal/controller/accesskey_controller.go: getExpectedSecretContent and
--                         the secret (SecretContent), the rest in Reconcile. SecretRead has a reader
--                         of the secret's content, which cuts texts (TextPieces).
--   Permission, Permission/* internal/controller/permission_controller.go.
--   System, System/*      how the controllers work together on one API server and one Garage: a step
--                         is a whole reconciliation by one of them or a step of others (Invariant).
--                         System/Laws and System/Manager state which calls change the GarageBucket
--                         objects and which make a bucket; Keys, Permissions, Buckets, Branches and
--                         Turn show which calls each reconciliation consists of. Delivery is the
--                         three controllers one after the other, Names and Local what each leaves
--                         alone; NoPanic, CalmManager and CalmRequests are on nil pointers.
--   Requests, Requests/*  how many calls of the admin SDK a reconciliation makes: the program runs on
--                         a platform that counts them (Metered).
--   Startup, Startup/*    cmd/main.go: flags and options (Options), main (Main), and the reconcilers
--                         that it registers by their SetupWithManager (Controllers).
--   DeepCopy, DeepCopy/*  api/v1alpha1/zz_generated.deepcopy.go, on a memory of cells with pointers
--                         (Cells, Layouts): DeepCopyInto (Copies), DeepCopy and DeepCopyObject
--                         (Pointers). The controllers take a copy of an object before they change
--                         its status and compute a patch. What a memory shows is in Shown, what a
--                         copy is in Isolation. The types of the Kubernetes libraries are a
--                         parameter (KubeTypes), as are their copies (KubeCopies, KubeLaws).
--   Base, Base/*          shared: Go's equality, the effects (Effects), predicates on outcomes
--                         (Ensures, Progress, Panics), actions that keep an order on states (Framing) or
--                         raise a measure of them by so much (Cost).
--   Tests, Tests/*        a platform in memory that meets the assumptions, and runs on it.
--
-- A Go function that may fail is an action on the state `World`, which is the API server and the
-- Garage clusters: it returns a value, fails with an error, or panics, and the state at that point
-- is kept. A reconciler's fields are arguments of its functions: its GarageManager is `api`, its
-- client and its scheme are in the platform. `Reconcile` is cut at the early returns:
-- `reconcile_request` fetches the object, `dispatch` the cluster and the manager, `finalize` is the
-- branch of an object under deletion, `keep` that of a live one. An object that the client fills in
-- is a new value. What another actor does between two calls belongs to the state.
--
-- `OnReturn` says what holds if an action returns, `Yields` that it returns and what holds then,
-- `Always` what holds of the state whatever its outcome. No definition runs on fuel: the loops are
-- structural recursion on lists. Quotas are Go's int64, which the code compares and passes on, and
-- no arithmetic is done on them.
--
-- In System/Invariant a reconciliation is one step, with the default factory and one Garage: two
-- controllers that work at the same time are not interleaved call by call.
--
-- Not modelled: log lines, the registration of the scheme, status conditions beyond their copies
-- (neither read nor written), and the texts inside errors of libraries. What a formatted error loses
-- is the values in its text, not the error that it wraps.
pub mod Base
pub mod Api
pub mod Platform
pub mod Helper
pub mod Garage
pub mod Finalizer
pub mod Bucket
pub mod Http
pub mod AccessKey
pub mod Permission
pub mod System
pub mod Requests
pub mod Startup
pub mod DeepCopy
mod Tests
